-- ===== src/Ai.antt =====
-- launcher/xlpod-server/src/ai: the AI bridge. One child module for each file of that folder.
pub mod Types
pub mod Tools
pub mod TrustWindow
pub mod Session
pub mod Cost
pub mod Dispatch
pub mod Chat
pub mod Anthropic
pub mod Keychain
pub mod Providers
