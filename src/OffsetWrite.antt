-- ===== src/OffsetWrite.antt =====
-- apps/tooling/api/services/offset_write.py: the life of an offset write request. The rows of the tables
-- and the register memory behind the target are one session state; a raise is an `err` beside the
-- state that it leaves, since the caller owns the transaction.
pub mod Defs
pub mod Run
pub mod Mock
pub mod Staging
pub mod Outcome
pub mod History
pub mod Batch
pub mod Completeness
