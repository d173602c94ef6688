-- ===== src/Lib.antt =====
-- Certificate Transparency, the Python client library (python/ct): a model of its core, and what is
-- proved of it.
--
-- The program. A log is a list of certificates, its leaves, under a Merkle tree of hashes
-- (python/ct/crypto/merkle.py). A signed tree head names the number of leaves and the root hash.
-- Clients check with MerkleVerifier that a leaf is in the tree and that a newer tree extends an older
-- one; InMemoryMerkleTree (python/ct/crypto/in_memory_merkle_tree.py) holds the leaves and makes the
-- proofs that are checked. Functions that fail raise exceptions (python/ct/crypto/error.py), and
-- those that verify return True or raise.
--
-- The files.
--   Common and below: names of the libraries passed on, Boolean tests, lists, the bits of `i & (i - 1)`.
--   Errors: the exceptions, results that may raise, and the decorator returns_true_or_raises.
--   Levels and below: Merkle trees level by level over any type of hashes. `root` is the root,
--     `audit` an audit path, `consistency` a consistency proof, `peaks` the roots of the full subtrees.
--   Merkle.Bits, Merkle.Hasher, Merkle.Verifier: the functions of python/ct/crypto/merkle.py under
--     their own names (a leading underscore dropped). Merkle.Full, Tree, Rfc and Leaves are about TreeHasher;
--     Rounds, Collision, Inclusion and Consistency are about MerkleVerifier.
--   Merkle.Compact: CompactMerkleTree; an operation returns the tree as it is afterwards. Below it,
--     Lift, Powers, Steps, Push and Block are about _push_subtree, Extend and Fill about extend, and
--     Refines and Session about what the tree stands for.
--   InMemory: python/ct/crypto/in_memory_merkle_tree.py, and below it the proofs about it.
--   Tls: the fields of python/ct/serialization/tls_message.py; below it, Numbers,
--     RoundTrip and Bounds.
--   Asn1: Asn1.Tags is python/ct/crypto/asn1/tag.py. Asn1.Integers, Types, Simple and Repeated are
--     parts of python/ct/crypto/asn1/types.py: integers and lengths, tagging and Abstract, the simple
--     types, and SequenceOf. A class of the source is a record of what it defines, a metaclass or
--     decorator a function on its tags. Below them, the proofs.
--   Statements: the tree heads of python/ct/crypto/verify.py; Accepted and Proved are about what is
--     checked when one is accepted, Signatures about decode_signature.
--   Client: LogClient and RequestHandler of python/ct/client/log_client.py; Ranges and Limits are about
--     get_entries, Guards about retries and status codes.
--   Monitor, and Monitor.Update: python/ct/client/monitor.py. An operation takes the monitor and returns
--     it as it is afterwards, with its result. Tracking states what a monitor holds; Heads, Settling, Entries
--     and Fetching follow it through the operations, and Reach through updates and restarts. Taken,
--     Unset and Views are about which tree heads are taken up, and Deliveries, Checks and Honest about a
--     log that answers as it should.
--   Tests: concrete inputs, at which the theorems are applied.
--
-- Conventions. A byte string is a list of numbers. The hash function is the field of TreeHasher, any
-- function on byte strings; a theorem that needs hashes of one size, as those of SHA-256 are, says
-- so. Exceptions carry no text, and log messages are left out. A call that changes an object returns
-- the object as it is afterwards; what a call that raises has changed before is not kept. Sizes and
-- indices that a caller gives to the verifier are integers, since the code tests their sign; the
-- indices of the in-memory tree, the sizes of the compact tree and the values of TLS fields are
-- numbers, and calls with negative ones are not modelled. `math.log` is a parameter, and so is the
-- number of bytes that the TLS encoding takes for a maximal value, which the code computes by it.
--
-- Loops and recursion take fuel, and `out_of_fuel` is no exception of the program. The verifier's
-- loops halve a node index and get one round more than the tree has leaves; the recursions on leaves
-- get one level more than there are leaves; a carry of the compact tree gets one round more than its
-- size, the loop of extend one more than there are new leaves, and that of get_entries one more than
-- the range has entries. The theorems give results other than `out_of_fuel`, so they show that the
-- fuel is enough. The flag for the batch size of get_entries is taken to be positive.
--
-- The monitor's deferred calls run one after another, in the order in which their answers are waited
-- for; the check of a tree head that is older than the verified one, whose result is not waited for, runs at
-- once. Answers of the log, the verifier of signatures and scans are parameters, so theorems about
-- the monitor hold for every log; what a log answers about two sizes is the same throughout one update.
-- A call that the client refuses at once counts as an answer: where _verify_entries meets one, update
-- returns False in the model and fails in the code, with the same state. The state file is written
-- without an error.
--
-- Not modelled: signed certificate timestamps, certificates, the ASN.1 types Sequence, SetOf, Choice
-- and Any, repeated fields and messages of the TLS encoding, the asynchronous client, the databases and
-- the tools.
pub mod Common
pub mod Errors
pub mod Levels
pub mod Merkle
pub mod InMemory
pub mod Tls
pub mod Asn1
pub mod Statements
pub mod Client
pub mod Monitor
mod Tests
