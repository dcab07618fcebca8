-- ===== src/Flow.antt =====
-- What the watchers see, and what the signers then send for it
-- (services/bridge/src/workers and services/bridge/src/signer).
pub mod Payments
pub mod Burns
mod Tests
