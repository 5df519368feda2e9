-- ===== src/Access.antt =====
-- Who may call the API: apps/api/src/common/trial.ts, policy.ts and rate-limit.ts, and
-- apps/api/src/auth/claims.ts.
pub mod Trial
pub mod Claims
pub mod RateLimit
pub mod Policy
pub mod Laws
pub mod Entry
mod Tests
