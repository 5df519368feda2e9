-- ===== src/Billing/Click.antt =====
-- Click's SHOP-API: apps/api/src/modules/billing/click.protocol.ts, click.service.ts and
-- click.controller.ts.
pub mod Protocol
pub mod Methods
pub mod Complete
pub mod Repeat
mod Tests
