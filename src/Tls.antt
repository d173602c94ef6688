-- ===== src/Tls.antt =====
-- python/ct/serialization/tls_message.py: TLSReader and TLSWriter, the fields that are one value. A
-- reader or a writer is passed on as it is after each call.
pub mod Numbers
pub mod RoundTrip
pub mod Bounds
use sky_zadro_docs.Common.{
  ℕ, zero, suc, ◌+◌, ◌*◌, ◌/◌, ◌%◌, ◌==◌, ltb, leb, if◌then◌else◌, ◌||◌, Bool, List, [], ◌∷◌, ◌++◌,
  length, slice,
}
use sky_zadro_docs.Errors.{
  Result, ok, raise, ◌>>=◌, ◌>>◌, require, type_error, tls_decoding_error, tls_encoding_error,
}
use sky_zadro_docs.Merkle.Hasher.{Bytes}
use mathlib.Core.List.{foldl, reverse}

pub record TlsReader : Type 0 where
  pub buf : Bytes
  pub pos : ℕ

pub record TlsWriter : Type 0 where
  pub buf : Bytes

-- The options of a field and of an enum; a number that is not given is 0.
pub record FieldOptions : Type 0 where
  pub bytes_in_use : ℕ
  pub max_value : ℕ
  pub fixed_length : ℕ
  pub min_length : ℕ
  pub max_length : ℕ

unfoldable pub read_fixed_bytes : TlsReader → ℕ → Result (Bytes × TlsReader)
read_fixed_bytes r num_bytes =
    if ltb (length r.buf) (r.pos + num_bytes)
    then raise tls_decoding_error
    else ok (slice r.pos num_bytes r.buf, record r { pos = r.pos + num_bytes })

unfoldable pub finished : TlsReader → Bool
finished r = leb (length r.buf) r.pos

unfoldable pub verify_finished : TlsReader → Result (Unit {0})
unfolding finished
verify_finished r = require (finished r) tls_decoding_error

-- `for b in int_bytes: ret <<= 8; ret += b`
unfoldable pub from_bytes : Bytes → ℕ
from_bytes int_bytes = foldl (λ ret b. ret * 256 + b) 0 int_bytes

unfoldable pub read_uint : TlsReader → ℕ → Result (ℕ × TlsReader)
read_uint r num_bytes = do
  (int_bytes, r') ← read_fixed_bytes r num_bytes
  ok (from_bytes int_bytes, r')

-- `bytes_in_use or 4`
abbrev pub or_default : ℕ → ℕ → ℕ
or_default zero default = default
or_default (suc n) default = suc n

-- The loop of `_write_uint`: the low bytes of the value, lowest first, and what is left of it.
abbrev pub low_bytes : ℕ → ℕ → Bytes
low_bytes zero value = []
low_bytes (suc n) value = value % 256 ∷ low_bytes n (value / 256)

abbrev pub value_left : ℕ → ℕ → ℕ
value_left zero value = value
value_left (suc n) value = value_left n (value / 256)

unfoldable pub write_uint : TlsWriter → ℕ → ℕ → Result TlsWriter
write_uint w value num_bytes =
    if value_left num_bytes value == 0
    then ok (record { buf = w.buf ++ reverse (low_bytes num_bytes value) })
    else raise tls_encoding_error

unfoldable pub write_fixed_bytes : TlsWriter → Bytes → ℕ → Result TlsWriter
write_fixed_bytes w value fixed =
    if length value == fixed then ok (record { buf = w.buf ++ value }) else raise tls_encoding_error

pub data FieldType : Type 0 where
  type_uint32 type_uint64 type_enum type_bytes other_type : FieldType

-- What a message holds in a field of a type.
abbrev pub ValueOf : FieldType → Type 0
ValueOf type_bytes = Bytes
ValueOf _ = ℕ

-- `int(math.ceil(math.log(max_value + 1, 256)))`, of max_value, is a parameter.
module _ (length_of_value : ℕ → ℕ) where
  unfoldable pub read_bounded_uint : TlsReader → ℕ → ℕ → Result (ℕ × TlsReader)
  read_bounded_uint r min_value max_value = do
    (value, r') ← read_uint r (length_of_value max_value)
    require (leb min_value value) tls_decoding_error
    require (leb value max_value) tls_decoding_error
    ok (value, r')

  unfoldable pub read_enum : TlsReader → FieldOptions → Result (ℕ × TlsReader)
  read_enum r opts =
      if opts.max_value == 0 then raise type_error else read_bounded_uint r 0 opts.max_value

  unfoldable pub read_var_bytes : TlsReader → ℕ → ℕ → Result (Bytes × TlsReader)
  read_var_bytes r min_length max_length = do
    (n, r') ← read_bounded_uint r min_length max_length
    read_fixed_bytes r' n

  unfoldable pub read_bytes : TlsReader → FieldOptions → Result (Bytes × TlsReader)
  read_bytes r opts =
      if opts.fixed_length == 0
      then (if opts.max_length == 0
          then raise type_error
          else read_var_bytes r opts.min_length opts.max_length)
      else read_fixed_bytes r opts.fixed_length

  -- `_get_read_method(field)(opts)`
  unfoldable pub read_field :
      (type : FieldType) → TlsReader → FieldOptions → Result (ValueOf type × TlsReader)
  read_field type_uint32 r opts = read_uint r (or_default opts.bytes_in_use 4)
  read_field type_uint64 r opts = read_uint r (or_default opts.bytes_in_use 8)
  read_field type_enum r opts = read_enum r opts
  read_field type_bytes r opts = read_bytes r opts
  read_field other_type r opts = raise type_error

  unfoldable pub write_bounded_uint : TlsWriter → ℕ → ℕ → ℕ → Result TlsWriter
  write_bounded_uint w value min_value max_value =
      if ltb value min_value || ltb max_value value
      then raise tls_encoding_error
      else write_uint w value (length_of_value max_value)

  unfoldable pub write_enum : TlsWriter → ℕ → FieldOptions → Result TlsWriter
  write_enum w value opts =
      if opts.max_value == 0 then raise type_error else write_bounded_uint w value 0 opts.max_value

  unfoldable pub write_var_bytes : TlsWriter → Bytes → ℕ → ℕ → Result TlsWriter
  write_var_bytes w value min_length max_length = do
    w' ← write_bounded_uint w (length value) min_length max_length
    ok (record { buf = w'.buf ++ value })

  unfoldable pub write_bytes : TlsWriter → Bytes → FieldOptions → Result TlsWriter
  write_bytes w value opts =
      if opts.fixed_length == 0
      then (if opts.max_length == 0
          then raise type_error
          else write_var_bytes w value opts.min_length opts.max_length)
      else write_fixed_bytes w value opts.fixed_length

  -- `_get_write_method(field)(value, opts)`
  unfoldable pub write_field :
      (type : FieldType) → TlsWriter → ValueOf type → FieldOptions → Result TlsWriter
  write_field type_uint32 w value opts = write_uint w value (or_default opts.bytes_in_use 4)
  write_field type_uint64 w value opts = write_uint w value (or_default opts.bytes_in_use 8)
  write_field type_enum w value opts = write_enum w value opts
  write_field type_bytes w value opts = write_bytes w value opts
  write_field other_type w value opts = raise type_error
