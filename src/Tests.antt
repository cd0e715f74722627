-- ===== src/Tests.antt =====
-- Runs of the model on given inputs, and the theorems applied to them.
pub mod Actions
mod Locks
mod Flags
mod Readers
mod Events
mod Semaphores
mod Conditions
mod Timeouts
mod Slots
mod Clocks
mod Queues
mod Processors
mod Lives
mod Initializers
mod Names
mod Blocks
mod Copies
mod Messages
mod Rwlocks
mod Recursion
mod Tables
