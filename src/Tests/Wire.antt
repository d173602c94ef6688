-- ===== src/Tests/Wire.antt =====
-- TLS fields at concrete inputs.
use sky_zadro_docs.Common.{
  ℕ, [], ◌∷◌, ltb, if◌then◌else◌, ◌≡◌, refl, ◌⊎◌, ◌<◌, ◌≤◌, ◌^◌, ◌++◌, length,
}
use sky_zadro_docs.Errors.{ok, raise, tls_encoding_error}
use sky_zadro_docs.Merkle.Hasher.{Bytes}
use sky_zadro_docs.Tls.{
  TlsReader, TlsWriter, FieldOptions, type_bytes, write_bytes, write_var_bytes, write_bounded_uint,
  write_field, write_uint, read_field,
}
use sky_zadro_docs.Tls.Bounds.{Answer, read_field_verdict, write_uint_verdict}
use sky_zadro_docs.Tls.RoundTrip.{ReadsBack, write_field-read_field}

-- One byte up to 255, two above.
abbrev few_bytes : ℕ → ℕ
few_bytes n = if ltb n 256 then 1 else 2

abbrev up_to_1000 : FieldOptions
up_to_1000 = record {
  bytes_in_use = 0;
  max_value = 0;
  fixed_length = 0;
  min_length = 1;
  max_length = 1000;
}

abbrev before : TlsWriter
before = record { buf = 9 ∷ [] }

abbrev after : TlsWriter
after = record { buf = 9 ∷ 0 ∷ 2 ∷ 7 ∷ 8 ∷ [] }

written : write_field few_bytes type_bytes before (7 ∷ 8 ∷ []) up_to_1000 ≡ ok after
unfolding write_field write_bytes write_var_bytes write_bounded_uint write_uint
written = refl

too_large : write_uint before 65536 2 ≡ raise tls_encoding_error
unfolding write_uint
too_large = refl

write_field-read_field_example :
    ReadsBack before after (λ r. read_field few_bytes type_bytes r up_to_1000) (7 ∷ 8 ∷ [])
write_field-read_field_example =
    write_field-read_field few_bytes type_bytes before after (7 ∷ 8 ∷ []) up_to_1000 written

-- The length says 700, and two bytes are there.
abbrev short_buffer : TlsReader
short_buffer = record { buf = 9 ∷ 2 ∷ 188 ∷ 7 ∷ 8 ∷ []; pos = 1 }

read_field_verdict_example :
    Answer short_buffer (read_field few_bytes type_bytes short_buffer up_to_1000)
read_field_verdict_example = read_field_verdict few_bytes type_bytes short_buffer up_to_1000

write_uint_verdict_example :
    ((65536 < 256 ^ 2)
      × ((xs : Bytes) × (write_uint before 65536 2 ≡ ok (record { buf = before.buf ++ xs }))
          × (length xs ≡ 2)))
    ⊎ ((256 ^ 2 ≤ 65536) × (write_uint before 65536 2 ≡ raise tls_encoding_error))
write_uint_verdict_example = write_uint_verdict before 65536 2
