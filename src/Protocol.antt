-- ===== src/Protocol.antt =====
-- What the server and the client say to one another.
pub mod MailboxFrames
pub mod Epochs
pub mod Claims
pub mod Quiet
pub mod NoFork
