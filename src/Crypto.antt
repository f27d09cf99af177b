-- ===== src/Crypto.antt =====
-- kernel/src/crypto: the hash, the message codes, the key derivation and the cipher of TLS and of the
-- vault. Bytes and words are numbers below 256, 2^32 and 2^64.
pub mod Words
pub mod Chacha20
pub mod Poly1305
pub mod Aead
pub mod Sha256
pub mod Hkdf
mod Tests
