-- ===== src/Web/Qr.antt =====
-- web/src/lib/qr.ts: the QR code that carries an account between devices.
pub mod Field
pub mod FieldLaws
pub mod Correction
pub mod Roots
pub mod Codeword
pub mod Multiplication
pub mod Versions
pub mod Smallest
pub mod Stream
pub mod Reading
pub mod Filling
pub mod RoundTrip
pub mod Interleave
pub mod Separating
pub mod Grid
pub mod Information
pub mod Patterns
pub mod Zigzag
pub mod Symbol
pub mod Places
pub mod Room
pub mod Codewords
pub mod Scanner
pub mod Expected
pub mod Decoding
pub mod Scanning
pub mod Penalty
pub mod Best
pub mod Distance
pub mod Alignment
