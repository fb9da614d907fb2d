-- ===== src/Marshaller.antt =====
-- src/CuteIPCMarshaller.cpp: messages to bytes and back.
pub mod Write
pub mod Read
pub mod Images
pub mod RoundTrip
pub mod Response
pub mod Loaded
pub mod Typed
