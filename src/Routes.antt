-- ===== src/Routes.antt =====
-- launcher/xlpod-server/src/routes.rs: the handlers, and the table that puts the guards before them.
pub mod Handshake
pub mod Files
pub mod Assistant
pub mod Socket
pub mod Table
