-- ===== src/Server.antt =====
-- The Cloudflare Workers backend (server/src).
pub mod Relay
pub mod Inbox
pub mod RateLimit
pub mod Auth
pub mod Directory
pub mod Tokens
pub mod Passkeys
pub mod Routes
pub mod Attachments
pub mod TotpChange
