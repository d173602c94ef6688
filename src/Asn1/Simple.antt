-- ===== src/Asn1/Simple.antt =====
-- python/ct/crypto/asn1/types.py: the simple types, from Boolean to BitString. The tags are an
-- argument, since types derived by tagging differ in them alone.
pub mod Bits
pub mod Laws
use sky_zadro_docs.Common.{
  ℕ, zero, suc, ◌+◌, ◌-◌, ◌*◌, ◌/◌, ◌%◌, ◌==◌, ltb, leb, if◌then◌else◌, ◌&&◌, ◌||◌, Bool, true,
  false, List, [], ◌∷◌, ◌++◌, length, take, drop, Option, none, some,
}
use sky_zadro_docs.Common.Int.{ℤ}
use sky_zadro_docs.Errors.{
  Result, ok, raise, ◌>>=◌, ◌>>◌, require, asn1_error, asn1_illegal_character,
  not_implemented_error,
}
use sky_zadro_docs.Merkle.Hasher.{Bytes}
use sky_zadro_docs.Asn1.Integers.{encode_int, decode_int}
use sky_zadro_docs.Asn1.Tags.{Tag}
use sky_zadro_docs.Asn1.Types.{Asn1Type}
use mathlib.Core.List.{foldl}

-- A subclass of Simple: no indefinite lengths, and always tagged.
abbrev pub simple :
    {V : Type 0} → List Tag → (V → Result Bytes) → (Bool → Bytes → Result V) → Asn1Type V
simple tags encode_value decode_value = record {
  tags = tags;
  encode_value = encode_value;
  decode_value = decode_value;
  read_indefinite_value = λ buf. raise not_implemented_error;
  read_untagged = λ strict buf. raise not_implemented_error;
}

unfoldable pub encode_boolean : Bool → Result Bytes
encode_boolean value = ok (if value then 0xff ∷ [] else 0x00 ∷ [])

unfoldable pub decode_boolean : Bool → Bytes → Result Bool
decode_boolean strict (b ∷ []) =
    if strict && (if b == 0xff || b == 0x00 then false else true)
    then raise asn1_error
    else ok (if b == 0x00 then false else true)
decode_boolean strict _ = raise asn1_error

abbrev pub boolean : List Tag → Asn1Type Bool
boolean tags = simple tags encode_boolean decode_boolean

abbrev pub integer : List Tag → Asn1Type ℤ
integer tags = simple tags (encode_int true) (decode_int true)

abbrev pub null : List Tag → Asn1Type (Unit {0})
null tags = simple tags (λ value. ok []) (λ strict buf. ok tt)

-- `_check_for_illegal_characters` of a string type that accepts the characters of a test
unfoldable pub check_characters : (ℕ → Bool) → Bytes → Result (Unit {0})
check_characters legal [] = ok tt
check_characters legal (c ∷ r) =
    if legal c then check_characters legal r else raise asn1_illegal_character

abbrev pub between : ℕ → ℕ → ℕ → Bool
between low high c = leb low c && leb c high

-- [a-zA-Z0-9 '()+,\-./:=?]
abbrev pub is_printable : ℕ → Bool
is_printable c =
    between b'a' b'z' c
    || (between b'A' b'Z' c
        || (between b'0' b'9' c
            || (c == 32
                || (c == 39
                    || (c == 40
                        || (c == 41 || (between 43 47 c || (c == 58 || (c == 61 || c == 63)))))))))

abbrev pub is_ia5 : ℕ → Bool
is_ia5 c = leb c 127

abbrev pub is_visible : ℕ → Bool
is_visible c = between 32 126 c

-- `_convert_value` of a byte string
unfoldable pub convert_string : (ℕ → Bool) → Bytes → Result Bytes
convert_string legal value = check_characters legal value >> ok value

unfoldable pub decode_string : (ℕ → Bool) → Bool → Bytes → Result Bytes
decode_string legal strict buf = (if strict then check_characters legal buf else ok tt) >> ok buf

abbrev pub asn1_string : (ℕ → Bool) → List Tag → Asn1Type Bytes
asn1_string legal tags = simple tags (λ value. ok value) (decode_string legal)

abbrev pub printable_string : List Tag → Asn1Type Bytes
printable_string = asn1_string is_printable

abbrev pub ia5_string : List Tag → Asn1Type Bytes
ia5_string = asn1_string is_ia5

abbrev pub visible_string : List Tag → Asn1Type Bytes
visible_string = asn1_string is_visible

-- TeletexString, BMPString, UTF8String, UniversalString and OctetString check nothing.
abbrev pub octet_string : List Tag → Asn1Type Bytes
octet_string = asn1_string (λ c. true)

abbrev pub bit : Bool → ℕ
bit b = if b then 1 else 0

-- `int(bits, 2)`
abbrev pub from_bits : List Bool → ℕ
from_bits = foldl (λ n b. 2 * n + bit b) 0

-- `format(b, "08b")`, with the number of digits as an argument
abbrev pub to_bits : ℕ → ℕ → List Bool
to_bits zero n = []
to_bits (suc k) n = to_bits k (n / 2) ++ (n % 2 == 1) ∷ []

-- The bytes of a bit string, eight bits each. The fuel `f` is the number of bytes.
abbrev pub pack : ℕ → List Bool → Bytes
pack zero bits = []
pack (suc f) bits = from_bits (take 8 bits) ∷ pack f (drop 8 bits)

abbrev pub unpack : Bytes → List Bool
unpack [] = []
unpack (b ∷ r) = to_bits 8 b ++ unpack r

abbrev pub zeros : ℕ → List Bool
zeros zero = []
zeros (suc n) = false ∷ zeros n

abbrev pub any_one : List Bool → Bool
any_one [] = false
any_one (b ∷ r) = b || any_one r

unfoldable pub encode_bit_string : List Bool → Result Bytes
encode_bit_string value =
    let pad = (8 - length value % 8) % 8 in
    let padded_bits = value ++ zeros pad in ok (pad ∷ pack (length padded_bits / 8) padded_bits)

-- `ret[-1*pad:]` and `ret[:-1*pad]`, for pad > 0
unfoldable pub strip_padding : ℕ → List Bool → Result (List Bool)
strip_padding pad [] = raise asn1_error
strip_padding pad (b ∷ r) =
    let kept = length (b ∷ r) - pad in
    if any_one (drop kept (b ∷ r)) then raise asn1_error else ok (take kept (b ∷ r))

unfoldable pub decode_bit_string : Bool → Bytes → Result (List Bool)
decode_bit_string strict [] = raise asn1_error
decode_bit_string strict (pad ∷ r) =
    if ltb 7 pad
    then raise asn1_error
    else if pad == 0
    then ok (unpack r)
    else strip_padding pad (unpack r)

abbrev pub bit_string : List Tag → Asn1Type (List Bool)
bit_string tags = simple tags encode_bit_string decode_bit_string

-- `has_bit_set` of a NamedBitList
unfoldable pub has_bit_set : List Bool → ℕ → Bool
has_bit_set [] number = false
has_bit_set (b ∷ r) zero = b
has_bit_set (b ∷ r) (suc n) = has_bit_set r n
