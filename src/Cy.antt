-- ===== src/Cy.antt =====
-- The server of server/cy/main.cpp.
pub mod Shared
pub mod Main
pub mod Follows
mod Tests
