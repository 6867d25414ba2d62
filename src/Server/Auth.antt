-- ===== src/Server/Auth.antt =====
-- Registration, login in two factors and the lasting session (server/src/auth.ts, totp.ts,
-- session.ts), over the tables of migrations 0001 to 0008.
pub mod State
pub mod Totp
pub mod Register
pub mod Login
pub mod Lasting
pub mod History
pub mod TwoFactor
pub mod SecondRound
pub mod CodeWindow
pub mod Rotation
