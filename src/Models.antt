-- ===== src/Models.antt =====
-- The documents that the service keeps in MongoDB (services/bridge/src/models). An amount that is
-- stored as a decimal string is its number; a nullable field is an option. Addresses, hashes and
-- transaction ids are only compared, so they are numbers. A document's `_id` is its key in the
-- collection.
pub mod Deposit
pub mod Withdrawal
pub mod BuyOrder
pub mod Cycles
pub mod Chain
