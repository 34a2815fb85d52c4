-- ===== src/Droid.antt =====
-- The C server for a single client, server/cy/DroidOver6Server.c.
pub mod State
pub mod Stream
pub mod Endian
pub mod Messages
pub mod Main
pub mod Framing
pub mod Reply
pub mod Upload
mod Tests
