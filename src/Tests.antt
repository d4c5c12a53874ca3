-- ===== src/Tests.antt =====
-- Concrete runs of the launcher's code (launcher/xlpod-server): a small system with one token, one
-- session and one folder, on which the theorems are applied.
mod Fixtures
mod Stores
mod Requests
mod Conversation
mod Server
mod Platform
mod Logs
