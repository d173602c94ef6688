-- ===== src/Asn1/Integers.antt =====
-- python/ct/crypto/asn1/types.py: encode_int and decode_int, encode_length and read_length.
pub mod Loop
pub mod RoundTrip
pub mod Lengths
use sky_zadro_docs.Common.{
  ℕ, zero, suc, ◌+◌, ◌-◌, ◌*◌, ◌/◌, ◌%◌, ◌==◌, ltb, leb, if◌then◌else◌, ◌&&◌, Bool, true, false,
  List, [], ◌∷◌, ◌++◌, length, take, drop, bit_and, bit_or,
}
use sky_zadro_docs.Common.Int.{ℤ, pos, negsuc}
use sky_zadro_docs.Errors.{
  Result, ok, raise, ◌>>=◌, ◌>>◌, require, value_error, index_error, asn1_error,
}
use sky_zadro_docs.Merkle.Hasher.{Bytes}
use mathlib.Core.List.{foldl, reverse}

-- `value & 0xff` and `value >> 8` on Python's integers, which round down: -(n + 1) has the digits of
-- n complemented.
abbrev pub low_byte : ℤ → ℕ
low_byte (pos n) = n % 256
low_byte (negsuc n) = 255 - n % 256

abbrev pub shift_right_8 : ℤ → ℤ
shift_right_8 (pos n) = pos (n / 256)
shift_right_8 (negsuc n) = negsuc (n / 256)

-- `value == 0 or value == -1`
abbrev pub is_done : ℤ → Bool
is_done (pos n) = n == 0
is_done (negsuc n) = n == 0

abbrev pub is_negative : ℤ → Bool
is_negative (pos n) = false
is_negative (negsuc n) = true

abbrev pub is_zero : ℤ → Bool
is_zero (pos n) = n == 0
is_zero (negsuc n) = false

-- A number that its quotients by 256 are below, which bounds the rounds of the loop.
abbrev pub magnitude : ℤ → ℕ
magnitude (pos n) = n
magnitude (negsuc n) = n

-- `while value != 0 and value != -1`: the bytes, lowest first, and the last value.
unfoldable pub byte_loop : ℕ → ℤ → Bytes × ℤ
byte_loop zero value = ([], value)
byte_loop (suc f) value = elim (is_done value) [
  | true ↦ ([], value)
  | false ↦
      let (int_bytes, last) = byte_loop f (shift_right_8 value) in
      (low_byte value ∷ int_bytes, last)
]

-- `int_bytes[-1]`
abbrev pub last_byte : Bytes → Result ℕ
last_byte [] = raise index_error
last_byte (b ∷ []) = ok b
last_byte (b ∷ c ∷ r) = last_byte (c ∷ r)

-- The byte that keeps the sign, where the last byte does not.
unfoldable pub sign_bytes : ℤ → ℕ → Bytes
sign_bytes last top =
    if is_negative last && leb top 127
    then 255 ∷ []
    else if is_zero last && ltb 127 top
    then 0 ∷ []
    else []

unfoldable pub encode_int : Bool → ℤ → Result Bytes
encode_int signed value =
    let loop : Result Bytes = do
      let (int_bytes, last) = byte_loop (suc (magnitude value)) value
      top ← last_byte int_bytes
      ok (reverse (int_bytes ++ (if signed then sign_bytes last top else [])))
    in if (if signed then false else is_negative value)
      then raise value_error
      else if is_done value
      then ok (if is_negative value then 255 ∷ [] else 0 ∷ [])
      else loop

-- `leading <<= 8; leading += b`, for a byte `b`
abbrev pub shift_left_8 : ℤ → ℕ → ℤ
shift_left_8 (pos n) b = pos (n * 256 + b)
shift_left_8 (negsuc n) b = negsuc (n * 256 + (255 - b))

-- `if signed and leading > 127: leading -= 256`
abbrev pub leading_value : Bool → ℕ → ℤ
leading_value signed leading =
    if signed && ltb 127 leading then negsuc (255 - leading) else pos leading

-- The bytes that only a longer encoding than needed begins with.
unfoldable pub has_extra_byte : Bool → ℕ → Bytes → Bool
has_extra_byte signed leading [] = false
has_extra_byte signed leading (b ∷ r) =
    if leading == 0 && ltb b 128 then true else signed && leading == 255 && leb 128 b

unfoldable pub decode_int : Bool → Bool → Bytes → Result ℤ
decode_int signed strict [] = raise asn1_error
decode_int signed strict (leading ∷ int_bytes) =
    if strict && has_extra_byte signed leading int_bytes
    then raise asn1_error
    else ok (foldl shift_left_8 (leading_value signed leading) int_bytes)

-- `chr`
abbrev pub chr : ℕ → Result ℕ
chr n = if ltb n 256 then ok n else raise value_error

unfoldable pub encode_length : ℕ → Result Bytes
encode_length n = if leb n 127 then ok (n ∷ []) else (do
  encoded_length ← encode_int false (pos n)
  first ← chr (bit_or 128 (length encoded_length))
  ok (first ∷ encoded_length))

-- The length, -1 for an indefinite one, and the bytes after it.
unfoldable pub read_length : Bool → Bytes → Result (ℤ × Bytes)
read_length strict [] = raise asn1_error
read_length strict (first ∷ rest) =
    let n = bit_and first 127 in
    let long : Result (ℤ × Bytes) = do
      require (leb n (length rest)) asn1_error
      decoded ← decode_int false true (take n rest)
      ok (decoded, drop n rest)
    in if leb first 127
      then ok (pos first, rest)
      else if first == 128
      then (if strict then raise asn1_error else ok (negsuc 0, rest))
      else long
