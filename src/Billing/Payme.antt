-- ===== src/Billing/Payme.antt =====
-- Payme's Merchant API: apps/api/src/modules/billing/payme.protocol.ts, payme.service.ts and
-- payme.controller.ts.
pub mod Protocol
pub mod Request
pub mod Methods
pub mod Rpc
pub mod Lookup
pub mod Perform
pub mod Quiet
pub mod Refusals
pub mod Create
pub mod Repeat
pub mod Cancel
pub mod Stale
mod Tests
