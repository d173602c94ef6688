-- ===== src/Merkle/Inclusion.antt =====
-- verify_leaf_inclusion of python/ct/crypto/merkle.py: audit paths are accepted, and only those.
pub mod Complete
pub mod Sound
pub mod Verdict
