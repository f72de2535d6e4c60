-- ===== src/Wire.antt =====
-- The wire format that the client and the server share.
pub mod Cipher
pub mod Agreement
pub mod Frame
