-- ===== src/Store.antt =====
-- The local store (src/hate/store): its files as a state, the recoverable import transaction,
-- and the locks.
pub mod Disk
pub mod AtomicWrites
pub mod Transaction
pub mod Locking
