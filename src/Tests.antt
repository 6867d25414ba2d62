-- ===== src/Tests.antt =====
-- Concrete states and runs: the theorems of the library at work on them.
mod Inbox
pub mod Auth
mod Services
mod Client
mod Qr
mod Merging
mod Messenger
mod Calls
mod Backend
mod Pairing
