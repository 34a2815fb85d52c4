-- ===== src/Tunnel.antt =====
-- The server of server/main.cpp and the Android client together.
pub mod Up
pub mod Down
mod Tests
