-- ===== src/Tls/RoundTrip.antt =====
-- python/ct/serialization/tls_message.py: what a writer has written, a reader reads.
use sky_zadro_docs.Common.{
  ℕ, ◌==◌, ltb, ◌++◌, length, Bool-cases, ◌≡◌, sym, ap, ◌∙◌, ==_iff, ltb→le, le→leb, inl, inr,
  append_assoc,
}
use sky_zadro_docs.Errors.{Result, ok, ◌>>=◌, bind-returned, ok_injective, raise≢ok}
use sky_zadro_docs.Merkle.Hasher.{Bytes}
use sky_zadro_docs.Tls.{
  TlsReader, TlsWriter, FieldOptions, FieldType, type_uint32, type_uint64, type_enum, type_bytes,
  other_type, ValueOf, or_default, low_bytes, value_left, read_fixed_bytes, read_uint, write_uint,
  write_fixed_bytes, read_bounded_uint, read_enum, read_var_bytes, read_bytes, read_field,
  write_bounded_uint, write_enum, write_var_bytes, write_bytes, write_field, from_bytes,
}
use sky_zadro_docs.Tls.Numbers.{reader, read_fixed_bytes-append, from_bytes-low, length-reverse_low}
use mathlib.Core.List.{reverse}

-- Where `w` has become `w'`, reading from there gives the value, and stops where `w'` stops.
abbrev pub ReadsBack {ℓ} :
    {A : Type ℓ} → TlsWriter → TlsWriter → (TlsReader → Result (A × TlsReader)) → A → Type ℓ
ReadsBack {A = A} w w' read value =
    (rest : Bytes)
    → read (reader (w'.buf ++ rest) (length w.buf))
      ≡ ok (value, reader (w'.buf ++ rest) (length w'.buf))

fixed_back :
    (w : TlsWriter) (xs : Bytes)
    → ReadsBack w (record { buf = w.buf ++ xs }) (λ r. read_fixed_bytes r (length xs)) xs
fixed_back w xs rest = read_fixed_bytes-append w.buf xs rest

written_fixed :
    (w w' : TlsWriter) (value : Bytes) (n : ℕ)
    → write_fixed_bytes w value n ≡ ok w'
    → ReadsBack w w' (λ r. read_fixed_bytes r n) value
unfolding write_fixed_bytes
written_fixed w w' value n h = elim (Bool-cases (length value == n)) [
  | inr other ↦ absurd (raise≢ok (rw other at h))
  | inl same ↦
      rw (sym (ok_injective (rw same at h)), sym ((==_iff (length value) n).0 same))
        (fixed_back w value)
]

uint_back :
    (w : TlsWriter) (value n : ℕ)
    → value_left n value ≡ 0
    → ReadsBack w (record { buf = w.buf ++ reverse (low_bytes n value) }) (λ r. read_uint r n) value
unfolding read_uint
uint_back w value n e rest =
    ap (λ (k : ℕ). read_fixed_bytes (reader all (length w.buf)) k >>= λ p. ok (from_bytes p.0, p.1))
      (sym (length-reverse_low n value))
    ∙ ap (λ (t : Result (Bytes × TlsReader)). t >>= λ p. ok (from_bytes p.0, p.1))
        (fixed_back w (reverse (low_bytes n value)) rest)
    ∙ ap (λ (v : ℕ). ok (v, reader all (length (w.buf ++ reverse (low_bytes n value)))))
        (from_bytes-low n value e)
  where
    all : Bytes
    all = (w.buf ++ reverse (low_bytes n value)) ++ rest

written_uint :
    (w w' : TlsWriter) (value n : ℕ)
    → write_uint w value n ≡ ok w'
    → ReadsBack w w' (λ r. read_uint r n) value
unfolding write_uint
written_uint w w' value n h = elim (Bool-cases (value_left n value == 0)) [
  | inr large ↦ absurd (raise≢ok (rw large at h))
  | inl fits ↦
      rw (sym (ok_injective (rw fits at h)))
        (uint_back w value n ((==_iff (value_left n value) 0).0 fits))
]

module _ (length_of_value : ℕ → ℕ) where
  written_bounded :
      (w w' : TlsWriter) (value min_value max_value : ℕ)
      → write_bounded_uint length_of_value w value min_value max_value ≡ ok w'
      → ReadsBack w w' (λ r. read_bounded_uint length_of_value r min_value max_value) value
  unfolding write_bounded_uint read_bounded_uint
  written_bounded w w' value min_value max_value h rest = elim (Bool-cases (ltb value min_value)) [
    | inl small ↦ absurd (raise≢ok (rw small at h))
    | inr low ↦ elim (Bool-cases (ltb max_value value)) [
      | inl large ↦ absurd (raise≢ok (rw (low, large) at h))
      | inr high ↦ rw (
        written_uint w w' value (length_of_value max_value) (rw (low, high) at h) rest,
        le→leb min_value value (ltb→le value min_value low),
        le→leb value max_value (ltb→le max_value value high),
      )
    ]
  ]

  var_back :
      (w u : TlsWriter) (value : Bytes) (min_length max_length : ℕ)
      → write_bounded_uint length_of_value w (length value) min_length max_length ≡ ok u
      → ReadsBack w
          (record { buf = u.buf ++ value })
          (λ r. read_var_bytes length_of_value r min_length max_length)
          value
  unfolding read_var_bytes
  var_back w u value min_length max_length h rest =
      ap
        (λ (b : Bytes).
          read_bounded_uint length_of_value (reader b (length w.buf)) min_length max_length >>= λ p.
          read_fixed_bytes p.1 p.0)
        (append_assoc u.buf value rest)
      ∙ ap (λ (t : Result (ℕ × TlsReader)). t >>= λ p. read_fixed_bytes p.1 p.0)
          (written_bounded w u (length value) min_length max_length h (value ++ rest))
      ∙ ap (λ (b : Bytes). read_fixed_bytes (reader b (length u.buf)) (length value))
          (sym (append_assoc u.buf value rest))
      ∙ fixed_back u value rest

  written_var :
      (w w' : TlsWriter) (value : Bytes) (min_length max_length : ℕ)
      → write_var_bytes length_of_value w value min_length max_length ≡ ok w'
      → ReadsBack w w' (λ r. read_var_bytes length_of_value r min_length max_length) value
  unfolding write_var_bytes
  written_var w w' value min_length max_length h =
      let (u, first, last) =
        bind-returned extend
          (write_bounded_uint length_of_value w (length value) min_length max_length) h in
      let same : record { buf = u.buf ++ value } ≡ w' = ok_injective last in
      rw (sym same) (var_back w u value min_length max_length first)
    where
      extend : TlsWriter → Result TlsWriter
      extend u = ok (record { buf = u.buf ++ value })

  written_enum :
      (w w' : TlsWriter) (value : ℕ) (opts : FieldOptions)
      → write_enum length_of_value w value opts ≡ ok w'
      → ReadsBack w w' (λ r. read_enum length_of_value r opts) value
  unfolding write_enum read_enum
  written_enum w w' value opts h rest = elim (Bool-cases (opts.max_value == 0)) [
    | inl none_given ↦ absurd (raise≢ok (rw none_given at h))
    | inr given ↦ rw given (written_bounded w w' value 0 opts.max_value (rw given at h) rest)
  ]

  written_bytes :
      (w w' : TlsWriter) (value : Bytes) (opts : FieldOptions)
      → write_bytes length_of_value w value opts ≡ ok w'
      → ReadsBack w w' (λ r. read_bytes length_of_value r opts) value
  unfolding write_bytes read_bytes
  written_bytes w w' value opts h rest = elim (Bool-cases (opts.fixed_length == 0)) [
    | inr fixed ↦ rw fixed (written_fixed w w' value opts.fixed_length (rw fixed at h) rest)
    | inl varies ↦ elim (Bool-cases (opts.max_length == 0)) [
      | inl unlimited ↦ absurd (raise≢ok (rw (varies, unlimited) at h))
      | inr limited ↦
          rw (varies, limited)
            (written_var w w' value opts.min_length opts.max_length (rw (varies, limited) at h)
              rest)
    ]
  ]

  -- A field that a writer has written without an error, whatever its type and options and whatever
  -- stands before and after it, is read back as it was, and the reader stops where the field ends.
  pub write_field-read_field :
      (type : FieldType) (w w' : TlsWriter) (value : ValueOf type) (opts : FieldOptions)
      → write_field length_of_value type w value opts ≡ ok w'
      → ReadsBack w w' (λ r. read_field length_of_value type r opts) value
  unfolding write_field read_field
  write_field-read_field type_uint32 w w' value opts h =
      written_uint w w' value (or_default opts.bytes_in_use 4) h
  write_field-read_field type_uint64 w w' value opts h =
      written_uint w w' value (or_default opts.bytes_in_use 8) h
  write_field-read_field type_enum w w' value opts h = written_enum w w' value opts h
  write_field-read_field type_bytes w w' value opts h = written_bytes w w' value opts h
  write_field-read_field other_type w w' value opts h = absurd (raise≢ok h)
