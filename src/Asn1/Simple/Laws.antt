-- ===== src/Asn1/Simple/Laws.antt =====
-- python/ct/crypto/asn1/types.py: the simple types decode what they encode.
use sky_zadro_docs.Common.{ℕ, Bool, true, false, List, ◌≡◌, refl, sym, ap, ◌∙◌}
use sky_zadro_docs.Errors.{ok, ok_injective}
use sky_zadro_docs.Merkle.Hasher.{Bytes}
use sky_zadro_docs.Asn1.Integers.{decode_int}
use sky_zadro_docs.Asn1.Integers.RoundTrip.{encode_int-decode_int}
use sky_zadro_docs.Asn1.Tags.{Tag}
use sky_zadro_docs.Asn1.Types.Objects.{IsLawful}
use sky_zadro_docs.Asn1.Simple.{
  boolean, integer, null, encode_boolean, decode_boolean, check_characters, decode_string,
  asn1_string, bit_string,
}
use sky_zadro_docs.Asn1.Simple.Bits.{encode_bit_string-decode_bit_string}

abbrev pub Always : {V : Type 0} → V → Type 0
Always value = Unit {0}

pub boolean-IsLawful : (tags : List Tag) → IsLawful (boolean tags) Always
unfolding encode_boolean decode_boolean
boolean-IsLawful tags true buf _ h true = ap (decode_boolean true) (sym (ok_injective h))
boolean-IsLawful tags true buf _ h false = ap (decode_boolean false) (sym (ok_injective h))
boolean-IsLawful tags false buf _ h true = ap (decode_boolean true) (sym (ok_injective h))
boolean-IsLawful tags false buf _ h false = ap (decode_boolean false) (sym (ok_injective h))

pub integer-IsLawful : (tags : List Tag) → IsLawful (integer tags) Always
integer-IsLawful tags value buf _ h strict =
    let (buf', e, back) = encode_int-decode_int true strict value refl in
    ap (decode_int true strict) (ok_injective (sym h ∙ e)) ∙ back

pub null-IsLawful : (tags : List Tag) → IsLawful (null tags) Always
null-IsLawful tags tt buf _ h strict = refl

-- The byte strings that a string type accepts for a value.
abbrev pub IsLegal : (ℕ → Bool) → Bytes → Type 0
IsLegal legal value = check_characters legal value ≡ ok tt

pub asn1_string-IsLawful :
    (legal : ℕ → Bool) (tags : List Tag) → IsLawful (asn1_string legal tags) (IsLegal legal)
unfolding decode_string
asn1_string-IsLawful legal tags value buf valid h true =
    ap (decode_string legal true) (sym (ok_injective h)) ∙ rw valid
asn1_string-IsLawful legal tags value buf valid h false =
    ap (decode_string legal false) (sym (ok_injective h))

pub bit_string-IsLawful : (tags : List Tag) → IsLawful (bit_string tags) Always
bit_string-IsLawful tags value buf _ h strict =
    encode_bit_string-decode_bit_string value buf h strict
