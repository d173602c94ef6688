-- ===== src/Merkle.antt =====
-- python/ct/crypto/merkle.py
pub mod Bits
pub mod Hasher
pub mod Full
pub mod Tree
pub mod Rfc
pub mod Verifier
pub mod Collision
pub mod Rounds
pub mod Inclusion
pub mod Leaves
pub mod Consistency
pub mod Compact
