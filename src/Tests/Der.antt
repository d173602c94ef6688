-- ===== src/Tests/Der.antt =====
-- ASN.1 tags, integers and objects at concrete inputs.
use sky_zadro_docs.Common.{ℕ, Bool, true, false, List, [], ◌∷◌, ◌++◌, map, ◌≡◌, refl, arith}
use sky_zadro_docs.Common.Int.{ℤ, pos, negsuc}
use sky_zadro_docs.Errors.{ok}
use sky_zadro_docs.Merkle.Hasher.{Bytes}
use sky_zadro_docs.Asn1.Integers.{
  byte_loop, sign_bytes, encode_int, has_extra_byte, decode_int, encode_length, read_length,
}
use sky_zadro_docs.Asn1.Integers.RoundTrip.{encode_int-decode_int}
use sky_zadro_docs.Asn1.Integers.Lengths.{encode_length-read_length}
use sky_zadro_docs.Asn1.Tags.{Tag, tag_value, make_tag, read_tag, context_specific, constructed}
use sky_zadro_docs.Asn1.Tags.RoundTrip.{make_tag-read_tag}
use sky_zadro_docs.Asn1.Types.{
  Asn1Object, Asn1Type, universal_tag, explicit_tag, wrap_tags, contents, encode, read,
}
use sky_zadro_docs.Asn1.Types.Derived.{
  IsTagging, untagged, by_universal, by_explicit, Derived-IsTagging,
}
use sky_zadro_docs.Asn1.Types.Unchecked.{explicit_length_unchecked}
use sky_zadro_docs.Asn1.Types.Wrap.{contents_read}
use sky_zadro_docs.Asn1.Types.Objects.{new_object}
use sky_zadro_docs.Asn1.Simple.{integer, encode_bit_string, decode_bit_string}
use sky_zadro_docs.Asn1.Simple.Bits.{encode_bit_string-decode_bit_string}
use sky_zadro_docs.Asn1.Simple.Laws.{Always, integer-IsLawful}
use sky_zadro_docs.Asn1.Repeated.{encode_components, decode_components}
use sky_zadro_docs.Asn1.Repeated.Laws.{encode_components-decode_components}

encode_int-decode_int_example :
    (buf : Bytes) × (encode_int true (negsuc 128) ≡ ok buf)
    × (decode_int true true buf ≡ ok (negsuc 128))
encode_int-decode_int_example = encode_int-decode_int true true (negsuc 128) refl

minus_129 : encode_int true (negsuc 128) ≡ ok (255 ∷ 127 ∷ [])
unfolding encode_int byte_loop sign_bytes
minus_129 = refl

encode_length-read_length_example :
    (encoded : Bytes) × (encode_length 300 ≡ ok encoded)
    × ((strict : Bool) (rest : Bytes) → read_length strict (encoded ++ rest) ≡ ok (pos 300, rest))
encode_length-read_length_example = encode_length-read_length 300 (omega arith)

-- A length that is not minimal is accepted, also strictly.
longer_length : read_length true (130 ∷ 0 ∷ 128 ∷ 7 ∷ []) ≡ ok (pos 128, 7 ∷ [])
unfolding read_length decode_int has_extra_byte
longer_length = refl

abbrev context_1000 : Tag
context_1000 = record {
  number = 1000;
  tag_class = context_specific;
  encoding = constructed;
  value = 191 ∷ 135 ∷ 104 ∷ [];
}

make_1000 : make_tag 1000 context_specific constructed ≡ ok context_1000
unfolding make_tag tag_value
make_1000 = refl

make_tag-read_tag_example :
    read_tag (context_1000.value ++ (2 ∷ 5 ∷ [])) ≡ ok (context_1000, 2 ∷ 5 ∷ [])
make_tag-read_tag_example =
    make_tag-read_tag 1000 context_specific constructed context_1000 (2 ∷ 5 ∷ []) make_1000
      (omega arith)

abbrev integer_tag : Tag
integer_tag = record { number = 2; tag_class = 0; encoding = 0; value = 2 ∷ [] }

abbrev outer_tag : Tag
outer_tag = record {
  number = 0;
  tag_class = context_specific;
  encoding = constructed;
  value = 160 ∷ [];
}

tag_integer : universal_tag 2 0 [] ≡ ok (integer_tag ∷ [])
unfolding universal_tag make_tag tag_value
tag_integer = refl

tag_outer : explicit_tag 0 context_specific (integer_tag ∷ []) ≡ ok (integer_tag ∷ outer_tag ∷ [])
unfolding explicit_tag make_tag tag_value
tag_outer = refl

Derived-IsTagging_example : IsTagging (integer_tag ∷ outer_tag ∷ [])
Derived-IsTagging_example =
    Derived-IsTagging (integer_tag ∷ outer_tag ∷ [])
      (by_explicit 0 context_specific (by_universal 2 0 untagged tag_integer) tag_outer)

abbrev explicit_integer : Asn1Type ℤ
explicit_integer = integer (integer_tag ∷ outer_tag ∷ [])

one_byte : (n : ℕ) → n ≡ 0 → encode_length n ≡ ok (n ∷ [])
unfolding encode_length
one_byte n z = rw z

-- The outer tag claims no byte at all.
explicit_length_unchecked_example :
    read explicit_integer true (160 ∷ 0 ∷ 2 ∷ 0 ∷ 9 ∷ [])
    ≡ contents_read explicit_integer true [] (9 ∷ [])
explicit_length_unchecked_example =
    explicit_length_unchecked explicit_integer integer_tag outer_tag refl true 0 (0 ∷ []) (0 ∷ [])
      [] (9 ∷ []) (omega arith) (omega arith) (one_byte 0 refl) (one_byte 0 refl) (omega arith)

abbrev five_bits : List Bool
five_bits = true ∷ false ∷ true ∷ true ∷ false ∷ []

bits_encoded : encode_bit_string five_bits ≡ ok (3 ∷ 176 ∷ [])
unfolding encode_bit_string
bits_encoded = refl

encode_bit_string-decode_bit_string_example : decode_bit_string true (3 ∷ 176 ∷ []) ≡ ok five_bits
encode_bit_string-decode_bit_string_example =
    encode_bit_string-decode_bit_string five_bits (3 ∷ 176 ∷ []) bits_encoded true

abbrev plain_integer : Asn1Type ℤ
plain_integer = integer (integer_tag ∷ [])

components_encoded :
    encode_components plain_integer (map (new_object plain_integer) (pos 5 ∷ negsuc 0 ∷ []))
    ≡ ok (2 ∷ 1 ∷ 5 ∷ 2 ∷ 1 ∷ 255 ∷ [])
unfolding encode_components encode contents wrap_tags encode_length encode_int byte_loop sign_bytes
components_encoded = refl

encode_components-decode_components_example :
    (objects : List (Asn1Object ℤ)) × (decode_components plain_integer 6 true
        (2 ∷ 1 ∷ 5 ∷ 2 ∷ 1 ∷ 255 ∷ [])
      ≡ ok objects)
    × (map (λ (o : Asn1Object ℤ). o.value) objects ≡ pos 5 ∷ negsuc 0 ∷ [])
encode_components-decode_components_example =
    encode_components-decode_components plain_integer Always (integer-IsLawful (integer_tag ∷ []))
      (omega arith) (pos 5 ∷ negsuc 0 ∷ []) (2 ∷ 1 ∷ 5 ∷ 2 ∷ 1 ∷ 255 ∷ []) (tt, (tt, tt))
      components_encoded (omega arith) true
