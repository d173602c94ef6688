-- ===== src/Asn1/Integers/Lengths.antt =====
-- python/ct/crypto/asn1/types.py: encode_length and read_length.
use sky_zadro_docs.Common.{
  ℕ, suc, ◌+◌, ◌≤◌, ◌<◌, ◌^◌, ◌==◌, leb, ◌&&◌, Bool, true, false, bit_and, bit_or, [], ◌∷◌, ◌++◌,
  length, take-length_append, drop-length_append, length-append, ◌≡◌, refl, sym, arith, inl, inr,
  Bool-cases, ==_iff, ne→==, lt→ltb, le→leb, lt→leb, leb→lt,
}
use sky_zadro_docs.Common.Tables.{all_below, all_below-lt, and-cases}
use sky_zadro_docs.Common.Int.{pos}
use sky_zadro_docs.Errors.{ok}
use sky_zadro_docs.Merkle.Hasher.{Bytes}
use sky_zadro_docs.Asn1.Integers.{encode_int, decode_int, encode_length, read_length}
use sky_zadro_docs.Asn1.Integers.Loop.{byte_loop_short}
use sky_zadro_docs.Asn1.Integers.RoundTrip.{Encoded, encode_int_lem, unsigned_pos}

abbrev keeps_mark : ℕ → Bool
keeps_mark n = bit_or 128 n == 128 + n && bit_and (128 + n) 127 == n

marked : all_below 128 keeps_mark ≡ true
marked = refl

-- The first byte of a long length: the mark, and the number of bytes.
first_byte : (n : ℕ) → n < 128 → (bit_or 128 n ≡ 128 + n) × (bit_and (128 + n) 127 ≡ n)
first_byte n h =
    let (set, read) = and-cases (all_below-lt 128 keeps_mark n marked h) in
    ((==_iff (bit_or 128 n) (128 + n)).0 set, (==_iff (bit_and (128 + n) 127) n).0 read)

long_encoded :
    (n m : ℕ) (encoded : Bytes)
    → 127 < n
    → encode_int false (pos n) ≡ ok encoded
    → length encoded ≡ m
    → m < 128
    → encode_length n ≡ ok ((128 + m) ∷ encoded)
unfolding encode_length
long_encoded n m encoded big e size small =
    rw (
      lt→leb n 127 big,
      e,
      size,
      (first_byte m small).0,
      lt→ltb (128 + m) 256 (omega (arith, small)),
    )

long_read :
    (strict : Bool) (m n : ℕ) (encoded rest : Bytes)
    → 0 < m
    → m < 128
    → length encoded ≡ m
    → decode_int false true encoded ≡ ok (pos n)
    → read_length strict (((128 + m) ∷ encoded) ++ rest) ≡ ok (pos n, rest)
unfolding read_length
long_read strict m n encoded rest p q size e = rw (
  lt→leb (128 + m) 127 (omega arith),
  ne→== (128 + m) 128 (omega (arith, p)),
  (first_byte m q).1,
  sym size,
  le→leb (length encoded) (length (encoded ++ rest)) (omega (arith, length-append encoded rest)),
  take-length_append encoded rest,
  drop-length_append encoded rest,
  e,
)

-- A length below 256 ^ 127 is encoded without an error, and is read from the beginning of any buffer
-- that begins with its encoding, strictly or not; what follows is left.
pub encode_length-read_length :
    (n : ℕ)
    → n < 256 ^ 127
    → (encoded : Bytes) × (encode_length n ≡ ok encoded)
      × ((strict : Bool) (rest : Bytes) → read_length strict (encoded ++ rest) ≡ ok (pos n, rest))
encode_length-read_length n h = elim (Bool-cases (leb n 127)) [
  | inl short ↦
      (n ∷ [], unfold encode_length in rw short, λ strict rest. unfold read_length in rw short)
  | inr long ↦
      let e : Encoded false (pos n) =
        encode_int_lem false (pos n) refl (ne→== n 0 (omega (arith, leb→lt n 127 long))) in
      let encoded : Bytes = e.top ∷ e.rest in
      let count : length encoded ≤ 127 =
        omega (arith, e.count, byte_loop_short 127 (suc n) (pos n) h) in
      (
        (128 + length encoded) ∷ encoded,
        long_encoded n (length encoded) encoded (leb→lt n 127 long) e.result refl
            (omega (arith, count)),
        λ strict rest.
            long_read strict (length encoded) n encoded rest (omega arith) (omega (arith, count))
              refl (unsigned_pos true n e.top e.rest e.is_top e.stands_for),
      )
]
