-- ===== src/Server.antt =====
-- launcher/xlpod-server/src/lib.rs: the server as a whole.
pub mod Steps
pub mod Chats
pub mod Handlers
pub mod Consented
pub mod Granting
pub mod Stack
pub mod Layers
pub mod Labels
pub mod Audit
pub mod Start
pub mod History
pub mod Boot
