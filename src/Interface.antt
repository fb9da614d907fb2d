-- ===== src/Interface.antt =====
-- src/CuteIPCInterface.cpp: the client. `State` has the tables that it keeps, `Request` the requests
-- that it sends, and `Connect` its public methods.
pub mod State
pub mod Request
pub mod Connect
pub mod Tables
pub mod Connections
