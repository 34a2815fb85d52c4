-- ===== src/First.antt =====
-- The first version of the server, server/Server/main.cpp.
pub mod Checksum
pub mod Shared
pub mod Handlers
pub mod Main
mod Tests
