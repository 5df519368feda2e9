-- ===== src/Billing.antt =====
-- Subscriptions and the payments that buy them: apps/api/src/modules/billing.
pub mod Period
pub mod Store
pub mod Service
pub mod Validity
pub mod Activation
pub mod Settled
pub mod Settlement
pub mod Revocation
pub mod Closing
pub mod Reversal
pub mod Payme
pub mod Click
mod Tests
