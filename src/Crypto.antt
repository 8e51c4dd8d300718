-- ===== src/Crypto.antt =====
-- backend/internal/crypto: envelope encryption and the sealed master key.
pub mod Primitives
pub mod Envelope
pub mod Keystore
