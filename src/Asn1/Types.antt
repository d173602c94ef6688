-- ===== src/Asn1/Types.antt =====
-- python/ct/crypto/asn1/types.py: tagging, and encoding and reading of any type (Universal,
-- Explicit, Implicit, Abstract). A class of the source is a record of what it defines.
pub mod Wrap
pub mod Objects
pub mod Derived
pub mod Unchecked
use sky_zadro_docs.Common.{
  ℕ, zero, suc, ◌+◌, ◌-◌, ◌*◌, ◌==◌, leb, if◌then◌else◌, ◌||◌, Bool, true, false, List, [], ◌∷◌,
  ◌++◌, length, take, drop, Option, none, some,
}
use sky_zadro_docs.Common.Int.{ℤ, pos, negsuc}
use sky_zadro_docs.Errors.{
  Result, ok, raise, ◌>>=◌, ◌>>◌, require, type_error, asn1_error, asn1_tag_error,
}
use sky_zadro_docs.Merkle.Hasher.{Bytes, bytes_eq}
use sky_zadro_docs.Asn1.Integers.{encode_length, read_length}
use sky_zadro_docs.Asn1.Tags.{Tag, make_tag, universal, constructed}
use mathlib.Core.List.{reverse}

-- `Universal(number, encoding)(cls)`, on the tags of the class
unfoldable pub universal_tag : ℕ → ℕ → List Tag → Result (List Tag)
universal_tag number encoding [] = do t ← make_tag number universal encoding; ok (t ∷ [])
universal_tag number encoding (t ∷ tags) = do
  new ← make_tag number universal encoding
  raise type_error

-- `Explicit(number, tag_class)(cls)`
unfoldable pub explicit_tag : ℕ → ℕ → List Tag → Result (List Tag)
explicit_tag number tag_class tags =
    if tag_class == universal
    then raise type_error
    else (do t ← make_tag number tag_class constructed; ok (tags ++ t ∷ []))

-- `tags[-1] = Tag(number, tag_class, tags[-1].encoding)`
abbrev pub replace_last : ℕ → ℕ → List Tag → Result (List Tag)
replace_last number tag_class [] = raise type_error
replace_last number tag_class (t ∷ []) = do
  new ← make_tag number tag_class t.encoding
  ok (new ∷ [])
replace_last number tag_class (t ∷ u ∷ tags) = do
  more ← replace_last number tag_class (u ∷ tags)
  ok (t ∷ more)

-- `Implicit(number, tag_class)(cls)`
unfoldable pub implicit_tag : ℕ → ℕ → List Tag → Result (List Tag)
implicit_tag number tag_class tags =
    if tag_class == universal then raise type_error else replace_last number tag_class tags

-- An object: its value, the bytes that it was read from, and what its `modified()` answers.
pub record Asn1Object (V : Type 0) : Type 0 where
  pub value : V
  pub serialized_value : Option Bytes
  pub modified : Bool

-- A class derived from Abstract. `read_indefinite_value` and `read_untagged` are `_read_indefinite_value`
-- and `_read`, which raise NotImplementedError where the class has none.
pub record Asn1Type (V : Type 0) : Type 0 where
  pub tags : List Tag
  pub encode_value : V → Result Bytes
  pub decode_value : Bool → Bytes → Result V
  pub read_indefinite_value : Bytes → Result (V × Bytes)
  pub read_untagged : Bool → Bytes → Result (Asn1Object V × Bytes)

-- `for t in self.tags`: the tags and lengths around the contents, the innermost first.
unfoldable pub wrap_tags : List Tag → Bytes → Result Bytes
wrap_tags [] encoded_value = ok encoded_value
wrap_tags (t ∷ tags) encoded_value = do
  encoded_length ← encode_length (length encoded_value)
  wrap_tags tags (t.value ++ (encoded_length ++ encoded_value))

-- What `read` knows after the tags: the last length, how many were indefinite, and the buffer.
pub record TagsRead : Type 0 where
  pub decoded_length : ℤ
  pub indefinite : ℕ
  pub buf : Bytes

-- A length of -1 is counted; any other is compared with the bytes that are left.
abbrev pub count_indefinite : ℤ → ℕ → Bytes → Result ℕ
count_indefinite (negsuc n) indefinite rest = ok (indefinite + 1)
count_indefinite (pos n) indefinite rest = do
  require (leb n (length rest)) asn1_error
  ok indefinite

-- `for t in reversed(cls.tags)`, the outermost tag first
unfoldable pub read_tags : Bool → List Tag → TagsRead → Result TagsRead
read_tags strict [] s = ok s
read_tags strict (t ∷ tags) s = do
  require (bytes_eq (take (length t.value) s.buf) t.value) asn1_tag_error
  (n, rest) ←
      read_length (strict || (if t.encoding == constructed then false else true))
        (drop (length t.value) s.buf)
  indefinite ← count_indefinite n s.indefinite rest
  read_tags strict tags (record { decoded_length = n; indefinite = indefinite; buf = rest })

-- `_EOC * indefinite`
abbrev pub eoc_octets : ℕ → Bytes
eoc_octets zero = []
eoc_octets (suc n) = 0 ∷ 0 ∷ eoc_octets n

-- The EOC octets of the outer tags.
unfoldable pub strip_eoc : ℕ → Bytes → Result Bytes
strip_eoc zero rest = ok rest
strip_eoc (suc n) rest = do
  require (bytes_eq (take (suc n * 2) rest) (eoc_octets (suc n))) asn1_error
  ok (drop (suc n * 2) rest)

module _ {V : Type 0} (cls : Asn1Type V) where
  abbrev pub from_serialized : Bool → Bytes → Result (Asn1Object V)
  from_serialized strict buf = do
    value ← cls.decode_value strict buf
    ok (record { value = value; serialized_value = some buf; modified = false })

  -- The value after the tags, and what is left of the buffer.
  unfoldable pub read_contents : Bool → TagsRead → Result (Asn1Object V × Bytes)
  read_contents strict s = elim s.decoded_length [
    | pos n ↦ do
      value ← from_serialized strict (take n s.buf)
      rest ← strip_eoc s.indefinite (drop n s.buf)
      ok (value, rest)
    | negsuc n ↦ do
      (decoded, rest) ← cls.read_indefinite_value s.buf
      rest' ← strip_eoc (s.indefinite - 1) rest
      ok (record { value = decoded; serialized_value = none; modified = false }, rest')
  ]

  unfoldable pub read : Bool → Bytes → Result (Asn1Object V × Bytes)
  read strict buf = elim cls.tags [
    | [] ↦ cls.read_untagged strict buf
    | t ∷ tags ↦ do
      s ←
          read_tags strict (reverse (t ∷ tags))
            (record { decoded_length = pos 0; indefinite = 0; buf = buf })
      read_contents strict s
  ]

  unfoldable pub decode : Bool → Bytes → Result (Asn1Object V)
  decode strict buf = do
    (value, rest) ← read strict buf
    require (leb (length rest) 0) asn1_error
    ok value

  abbrev pub fresh_contents : Asn1Object V → Result (Bytes × Asn1Object V)
  fresh_contents o = do
    encoded ← cls.encode_value o.value
    ok (encoded, record o { serialized_value = none })

  -- The contents that `encode` uses: the bytes that were read, as long as nothing has changed.
  unfoldable pub contents : Asn1Object V → Result (Bytes × Asn1Object V)
  contents o = elim o.serialized_value [
    | some (b ∷ r) ↦ if o.modified then fresh_contents o else ok (b ∷ r, o)
    | _ ↦ fresh_contents o
  ]

  -- The encoding, and the object as it is afterwards.
  unfoldable pub encode : Asn1Object V → Result (Bytes × Asn1Object V)
  encode o = do
    (encoded_value, o') ← contents o
    encoded ← wrap_tags cls.tags encoded_value
    ok (encoded, o')
