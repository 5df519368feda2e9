-- ===== src/Operations.antt =====
-- The worker's safety net: apps/api/src/worker.ts and apps/api/src/ops/alerts.ts.
pub mod Alerts
pub mod Reconcile
