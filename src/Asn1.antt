-- ===== src/Asn1.antt =====
-- python/ct/crypto/asn1: tags (tag.py) and the encoding of the types (types.py).
pub mod Integers
pub mod Tags
pub mod Types
pub mod Simple
pub mod Repeated
