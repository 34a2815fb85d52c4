-- ===== src/Relay.antt =====
-- The server of server/4over6-server, with three threads for each client.
pub mod State
pub mod Address
pub mod Connection
pub mod Reader
pub mod Tun
pub mod Listen
pub mod Numbers
pub mod Endings
pub mod Sending
pub mod Silence
pub mod Queue
pub mod Routing
pub mod Filling
pub mod Receiving
pub mod Threads
mod Tests
