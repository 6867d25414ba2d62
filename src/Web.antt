-- ===== src/Web.antt =====
-- The browser client's logic (web/src/lib).
pub mod Frame
pub mod Connection
pub mod Receipts
pub mod Envelopes
pub mod History
pub mod Echoes
pub mod Requests
pub mod Vanishing
pub mod Thread
pub mod Qr
pub mod DeliveryTokens
pub mod Refusals
pub mod Messenger
pub mod Direct
pub mod Pairing
pub mod Calls
