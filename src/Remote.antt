-- ===== src/Remote.antt =====
-- Both ends together: src/CuteIPCInterface.cpp and src/CuteIPCServiceConnection.cpp.
pub mod Call
pub mod Stream
pub mod Caller
pub mod Unsent
pub mod Waiting
pub mod Session
pub mod Downlink
