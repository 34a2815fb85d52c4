-- ===== src/Server.antt =====
-- server/main.cpp, the tunnel's server: one event loop over the listening socket, the tun device
-- and the clients, with a table of 256 addresses and a buffer for each descriptor.
pub mod State
pub mod Pool
pub mod Tun
pub mod Client
pub mod Beat
pub mod Boot
pub mod Serve
pub mod Table
pub mod Steady
mod Tests
