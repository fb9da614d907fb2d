-- ===== src/Example.antt =====
-- Concrete parameters, and the theorems at concrete inputs.
pub mod Streams
pub mod Types
pub mod Calls
mod Witnesses
mod Subscribers
mod Clients
mod Listeners
mod Waits
mod Workers
mod Boards
mod MetaObjects
mod Values
mod Memories
mod Sessions
mod Downlinks
