-- ===== src/Tls/Bounds.antt =====
-- python/ct/serialization/tls_message.py: what reading and writing a field answer, on every input.
use sky_zadro_docs.Common.{
  ℕ, zero, suc, ◌+◌, ◌/◌, ◌^◌, ◌≤◌, ◌<◌, ◌==◌, ltb, leb, ◌++◌, length, slice, false, Bool-cases,
  ◌≡◌, refl, sym, ap, ◌∙◌, arith, ==_iff, ltb→le, ◌⊎◌, ◌↔◌, inl, inr,
}
use sky_zadro_docs.Errors.{
  Result, ok, raise, ◌>>=◌, ◌>>◌, require, type_error, tls_decoding_error, tls_encoding_error,
}
use sky_zadro_docs.Merkle.Hasher.{Bytes}
use sky_zadro_docs.Tls.{
  TlsReader, TlsWriter, FieldOptions, FieldType, type_uint32, type_uint64, type_enum, type_bytes,
  other_type, low_bytes, value_left, read_fixed_bytes, read_uint, write_uint, read_bounded_uint,
  read_enum, read_var_bytes, read_bytes, read_field,
}
use sky_zadro_docs.Tls.Numbers.{length-reverse_low}
use mathlib.Core.List.{reverse}
use native.Mathlib.Nat.{pow-suc}
use mathlib.Core.Bool.{false≢true}

-- The reader has gone on, and not beyond its buffer.
abbrev pub Within : TlsReader → TlsReader → Type 0
Within r r' = (r'.buf ≡ r.buf) × (r.pos ≤ r'.pos) × (r'.pos ≤ length r.buf)

abbrev pub Answer {ℓ} : {A : Type ℓ} → TlsReader → Result (A × TlsReader) → Type ℓ
Answer {A = A} r result =
    ((value : A) × (r' : TlsReader) × (result ≡ ok (value, r')) × Within r r')
    ⊎ ((result ≡ raise tls_decoding_error) ⊎ (result ≡ raise type_error))

Within-then : (r s t : TlsReader) → Within r s → Within s t → Within r t
Within-then r s t (same, on, inside) (same', on', inside') =
    (same' ∙ same, omega (arith, on, on'), omega (arith, inside', ap length same))

-- A reading after a reading.
Answer-then {ℓ κ} :
    {A : Type ℓ} {B : Type κ} (r : TlsReader) (first : Result (A × TlsReader))
    (next : A × TlsReader → Result (B × TlsReader))
    → Answer r first
    → ((value : A) (s : TlsReader) → Within r s → Answer s (next (value, s)))
    → Answer r (first >>= next)
Answer-then r first next (inr (inl e)) then = inr (inl (ap (λ t. t >>= next) e))
Answer-then r first next (inr (inr e)) then = inr (inr (ap (λ t. t >>= next) e))
Answer-then r first next (inl (value, s, e, within)) then = elim (then value s within) [
  | inl (last, t, f, more) ↦
      inl (last, t, ap (λ u. u >>= next) e ∙ f, Within-then r s t within more)
  | inr (inl f) ↦ inr (inl (ap (λ u. u >>= next) e ∙ f))
  | inr (inr f) ↦ inr (inr (ap (λ u. u >>= next) e ∙ f))
]

fixed-Answer : (r : TlsReader) (n : ℕ) → Answer r (read_fixed_bytes r n)
unfolding read_fixed_bytes
fixed-Answer r n = elim (Bool-cases (ltb (length r.buf) (r.pos + n))) [
  | inl short ↦ inr (inl (rw short))
  | inr enough ↦ inl (
    slice r.pos n r.buf,
    record r { pos = r.pos + n },
    rw enough,
    (refl, omega arith, omega (arith, ltb→le (length r.buf) (r.pos + n) enough)),
  )
]

done-Answer {ℓ} :
    {A : Type ℓ} (r : TlsReader) (value : A) → r.pos ≤ length r.buf → Answer r (ok (value, r))
done-Answer r value p = inl (value, r, refl, (refl, omega arith, p))

uint-Answer : (r : TlsReader) (n : ℕ) → Answer r (read_uint r n)
unfolding read_uint
uint-Answer r n =
    Answer-then r _ _ (fixed-Answer r n)
      (λ value s within. done-Answer s _ (omega (arith, within.2, ap length within.0)))

module _ (length_of_value : ℕ → ℕ) where
  bounded-Answer :
      (r : TlsReader) (min_value max_value : ℕ)
      → Answer r (read_bounded_uint length_of_value r min_value max_value)
  unfolding read_bounded_uint
  bounded-Answer r min_value max_value =
      Answer-then r (read_uint r (length_of_value max_value)) _
        (uint-Answer r (length_of_value max_value)) in_range
    where
      in_range :
          (value : ℕ) (s : TlsReader)
          → Within r s
          → Answer s (
              require (leb min_value value) tls_decoding_error
              >> (require (leb value max_value) tls_decoding_error >> ok (value, s)))
      in_range value s within = elim (Bool-cases (leb min_value value)) [
        | inr small ↦ inr (inl (rw small))
        | inl low ↦ elim (Bool-cases (leb value max_value)) [
          | inr large ↦ inr (inl (rw (low, large)))
          | inl high ↦
              rw (low, high) (done-Answer s value (omega (arith, within.2, ap length within.0)))
        ]
      ]

  enum-Answer : (r : TlsReader) (opts : FieldOptions) → Answer r (read_enum length_of_value r opts)
  unfolding read_enum
  enum-Answer r opts = elim (Bool-cases (opts.max_value == 0)) [
    | inl none_given ↦ inr (inr (rw none_given))
    | inr given ↦ rw given (bounded-Answer r 0 opts.max_value)
  ]

  var-Answer :
      (r : TlsReader) (min_length max_length : ℕ)
      → Answer r (read_var_bytes length_of_value r min_length max_length)
  unfolding read_var_bytes
  var-Answer r min_length max_length =
      Answer-then r (read_bounded_uint length_of_value r min_length max_length) _
        (bounded-Answer r min_length max_length) (λ n s within. fixed-Answer s n)

  bytes-Answer :
      (r : TlsReader) (opts : FieldOptions) → Answer r (read_bytes length_of_value r opts)
  unfolding read_bytes
  bytes-Answer r opts = elim (Bool-cases (opts.fixed_length == 0)) [
    | inr fixed ↦ rw fixed (fixed-Answer r opts.fixed_length)
    | inl varies ↦ elim (Bool-cases (opts.max_length == 0)) [
      | inl unlimited ↦ inr (inr (rw (varies, unlimited)))
      | inr limited ↦ rw (varies, limited) (var-Answer r opts.min_length opts.max_length)
    ]
  ]

  -- Reading a field of any type, with any options and at any position, returns a value and goes on in
  -- the buffer without leaving it, or raises TLSDecodingError or TypeError; it raises nothing else.
  pub read_field_verdict :
      (type : FieldType) (r : TlsReader) (opts : FieldOptions)
      → Answer r (read_field length_of_value type r opts)
  unfolding read_field
  read_field_verdict type_uint32 r opts = uint-Answer r _
  read_field_verdict type_uint64 r opts = uint-Answer r _
  read_field_verdict type_enum r opts = enum-Answer r opts
  read_field_verdict type_bytes r opts = bytes-Answer r opts
  read_field_verdict other_type r opts = inr (inr refl)

left_iff : (n value : ℕ) → (value_left n value ≡ 0) ↔ (value < 256 ^ n)
left_iff zero value = (λ e. omega (arith, e), λ p. omega (arith, p))
left_iff (suc n) value =
    let (to, from) = left_iff n (value / 256) in
    (λ e. omega (arith, to e, pow-suc 256 n), λ p. from (omega (arith, p, pow-suc 256 n)))

-- Writing a number in so many bytes appends just so many where the number is below the power of 256,
-- and raises TLSEncodingError where it is not.
pub write_uint_verdict :
    (w : TlsWriter) (value n : ℕ)
    → ((value < 256 ^ n)
        × ((xs : Bytes) × (write_uint w value n ≡ ok (record { buf = w.buf ++ xs }))
            × (length xs ≡ n)))
      ⊎ ((256 ^ n ≤ value) × (write_uint w value n ≡ raise tls_encoding_error))
unfolding write_uint
write_uint_verdict w value n = elim (Bool-cases (value_left n value == 0)) [
  | inl fits ↦ inl (
    (left_iff n value).0 ((==_iff (value_left n value) 0).0 fits),
    (reverse (low_bytes n value), rw fits, length-reverse_low n value),
  )
  | inr large ↦ inr (omega (arith, not_below large), rw large)
]
  where
    not_below : (value_left n value == 0) ≡ false → value < 256 ^ n → ⊥
    not_below large p =
        false≢true (sym large ∙ (==_iff (value_left n value) 0).1 ((left_iff n value).1 p))
