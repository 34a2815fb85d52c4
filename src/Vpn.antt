-- ===== src/Vpn.antt =====
-- The native part of the Android client, client_frontend/app/src/main/jni.
pub mod State
pub mod Config
pub mod Socket
pub mod Handlers
pub mod Main
pub mod Sends
pub mod Reply
pub mod Outgoing
pub mod Incoming
pub mod Receiving
pub mod Effects
pub mod Memory
pub mod Framing
pub mod Bounds
pub mod Commands
pub mod Stub
mod Tests
