-- ===== src/Asn1/Repeated.antt =====
-- python/ct/crypto/asn1/types.py: SequenceOf. What encoding changes in the components' caches is not
-- kept.
pub mod Laws
use sky_zadro_docs.Common.{
  ℕ, zero, suc, ◌≤◌, ◌==◌, leb, if◌then◌else◌, ◌&&◌, Bool, true, false, List, [], ◌∷◌, ◌++◌, length,
  take, drop,
}
use sky_zadro_docs.Errors.{
  Result, ok, raise, ◌>>=◌, ◌>>◌, asn1_error, not_implemented_error, out_of_fuel,
}
use sky_zadro_docs.Merkle.Hasher.{Bytes, bytes_eq}
use sky_zadro_docs.Asn1.Tags.{Tag}
use sky_zadro_docs.Asn1.Types.{Asn1Object, Asn1Type, read, encode}

module _ {V : Type 0} (component : Asn1Type V) where
  -- `"".join([x.encode() for x in self._value])`
  unfoldable pub encode_components : List (Asn1Object V) → Result Bytes
  encode_components [] = ok []
  encode_components (o ∷ r) = do
    (encoded, o') ← encode component o
    more ← encode_components r
    ok (encoded ++ more)

  -- `while buf`. The fuel `f` bounds the components.
  unfoldable pub decode_components : ℕ → Bool → Bytes → Result (List (Asn1Object V))
  decode_components f strict [] = ok []
  decode_components zero strict (b ∷ r) = raise out_of_fuel
  decode_components (suc f) strict (b ∷ r) = do
    (value, rest) ← read component strict (b ∷ r)
    more ← decode_components f strict rest
    ok (value ∷ more)

  -- `while len(buf) >= 2`: the components up to the EOC octets
  unfoldable pub read_indefinite_components : ℕ → Bytes → Result (List (Asn1Object V) × Bytes)
  read_indefinite_components zero buf = raise out_of_fuel
  read_indefinite_components (suc f) buf =
      let more : Result (List (Asn1Object V) × Bytes) = do
        (value, rest) ← read component false buf
        (values, last) ← read_indefinite_components f rest
        ok (value ∷ values, last)
      in if leb 2 (length buf)
        then (if bytes_eq (take 2 buf) (0 ∷ 0 ∷ []) then ok ([], drop 2 buf) else more)
        else raise asn1_error

  -- A buffer has no more components than bytes.
  abbrev pub sequence_of : List Tag → Asn1Type (List (Asn1Object V))
  sequence_of tags = record {
    tags = tags;
    encode_value = encode_components;
    decode_value = λ strict buf. decode_components (length buf) strict buf;
    read_indefinite_value = λ buf. read_indefinite_components (suc (length buf)) buf;
    read_untagged = λ strict buf. raise not_implemented_error;
  }
