-- ===== src/Tests.antt =====
-- Tests and examples.
pub mod Memory
pub mod Scene
pub mod Sessions
pub mod Rotation
pub mod Slot
mod Requests
mod Table
pub mod Joining
mod Commands
mod Lifetimes
