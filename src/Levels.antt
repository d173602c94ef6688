-- ===== src/Levels.antt =====
-- Merkle trees level by level: the mathematics behind python/ct/crypto/merkle.py, over any type of
-- node hashes. A level is the list of its node hashes, from left to right.
pub mod Pairing
pub mod Root
pub mod Audit
pub mod Split
pub mod Peaks
pub mod Fold
pub mod Push
pub mod Consistency
pub mod Older
