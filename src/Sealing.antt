-- ===== src/Sealing.antt =====
-- How a completed envelope is sealed, recorded, delivered and checked again.
pub mod Ring
pub mod Rotation
pub mod Bytes
pub mod Schema
pub mod Completion
pub mod Runs
pub mod Check
pub mod Follows
pub mod Evidence
pub mod Making
pub mod Steps
pub mod Claiming
pub mod Preserved
pub mod Once
pub mod Checked
pub mod Copies
pub mod Alone
pub mod Delivered
pub mod Finishes
pub mod Ledger
mod Tests
mod Examples
mod JourneyTests
pub mod Signed
pub mod Journey
pub mod Others
