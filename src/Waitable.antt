-- ===== src/Waitable.antt =====
-- The wait and wake-up protocol that the six synchronisation objects share.
pub mod Holding
pub mod Machine
pub mod System
pub mod Ledger
pub mod Accounts
pub mod Invariant
pub mod Progress
pub mod Stable
pub mod Schedule
