-- ===== src/Asn1/Tags.antt =====
-- python/ct/crypto/asn1/tag.py: tags, written and read.
pub mod Octets
pub mod RoundTrip
use sky_zadro_docs.Common.{
  ℕ, zero, suc, ◌+◌, ◌-◌, ◌*◌, ◌/◌, ◌%◌, ◌==◌, leb, if◌then◌else◌, ◌&&◌, ◌||◌, Bool, List, [], ◌∷◌,
  ◌++◌, bit_and, bit_or,
}
use sky_zadro_docs.Errors.{Result, ok, raise, ◌>>=◌, ◌>>◌, require, value_error, asn1_tag_error}
use sky_zadro_docs.Merkle.Hasher.{Bytes, bytes_eq}
use mathlib.Core.List.{reverse}

pub record Tag : Type 0 where
  pub number : ℕ
  pub tag_class : ℕ
  pub encoding : ℕ
  pub value : Bytes

abbrev pub universal : ℕ
universal = 0x00

abbrev pub application : ℕ
application = 0x40

abbrev pub context_specific : ℕ
context_specific = 0x80

abbrev pub private_class : ℕ
private_class = 0xc0

abbrev pub primitive : ℕ
primitive = 0x00

abbrev pub constructed : ℕ
constructed = 0x20

abbrev pub is_class : ℕ → Bool
is_class c = c == universal || (c == application || (c == context_specific || c == private_class))

abbrev pub is_encoding : ℕ → Bool
is_encoding e = e == primitive || e == constructed

-- `while number > 0`: seven bits of the number with the mark 0x80 each, the lowest first.
abbrev pub marked_octets : ℕ → ℕ → Bytes
marked_octets zero number = []
marked_octets (suc f) number = elim number [
  | zero ↦ []
  | suc n ↦ (suc n % 128 + 128) ∷ marked_octets f (suc n / 128)
]

-- `tmp[0] -= 0x80`; there is an octet, since the number is above 30.
abbrev pub unmark_first : Bytes → Bytes
unmark_first [] = []
unmark_first (b ∷ r) = (b - 128) ∷ r

unfoldable pub tag_value : ℕ → ℕ → ℕ → Bytes
tag_value number tag_class encoding =
    if leb number 30
    then bit_or (bit_or tag_class encoding) number ∷ []
    else bit_or (bit_or tag_class encoding) 0x1f
      ∷ reverse (unmark_first (marked_octets number number))

-- The constructor of Tag.
unfoldable pub make_tag : ℕ → ℕ → ℕ → Result Tag
make_tag number tag_class encoding = do
  require (is_class tag_class) value_error
  require (is_encoding encoding) value_error
  ok (record {
    number = number;
    tag_class = tag_class;
    encoding = encoding;
    value = tag_value number tag_class encoding;
  })

-- `__eq__`
unfoldable pub tag_eq : Tag → Tag → Bool
tag_eq s t = bytes_eq s.value t.value

-- The octets of a number above 30: the number, how many octets there were, and what follows.
unfoldable pub read_octets : ℕ → ℕ → Bytes → Result (ℕ × ℕ × Bytes)
read_octets number octets [] = raise asn1_tag_error
read_octets number octets (b ∷ r) =
    let rest = read_octets (number * 128 + b % 128) (octets + 1) r in
    if b / 128 % 2 == 0 then ok (number * 128 + b % 128, octets + 1, r) else rest

unfoldable pub read_tag : Bytes → Result (Tag × Bytes)
read_tag [] = raise asn1_tag_error
read_tag (id_byte ∷ buf) =
    let tag_class = bit_and id_byte 0xc0 in
    let encoding = bit_and id_byte 0x20 in
    let number = bit_and id_byte 0x1f in
    let high : Result (Tag × Bytes) = do
      (high_number, octets, rest) ← read_octets 0 0 buf
      require (leb octets 5) asn1_tag_error
      tag ← make_tag high_number tag_class encoding
      ok (tag, rest)
    in let low : Result (Tag × Bytes) = do tag ← make_tag number tag_class encoding; ok (tag, buf)
      in if number == 0x1f then high else low
