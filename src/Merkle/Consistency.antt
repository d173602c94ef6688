-- ===== src/Merkle/Consistency.antt =====
-- verify_tree_consistency of python/ct/crypto/merkle.py: consistency proofs are accepted, and none
-- that hides a change of the older tree.
pub mod Climb
pub mod Complete
pub mod Sound
pub mod Walk
pub mod Verdict
pub mod Ends
pub mod Answers
pub mod Accept
