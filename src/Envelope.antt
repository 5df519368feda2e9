-- ===== src/Envelope.antt =====
-- Envelopes sent for signature: apps/api/src/modules/signature-requests and
-- apps/api/src/modules/signing.
pub mod Fields
pub mod SignFields
pub mod Filled
pub mod Store
pub mod Link
pub mod Routing
pub mod Submit
pub mod Sender
pub mod Send
pub mod Sweeps
pub mod Wire
pub mod Links
pub mod Accepted
pub mod Turns
pub mod Invited
pub mod Agreement
mod Tests
mod FormTests
