-- ===== src/Tls/Numbers.antt =====
-- python/ct/serialization/tls_message.py: numbers as bytes, the highest byte first.
use sky_zadro_docs.Common.{
  ℕ, zero, suc, ◌+◌, ◌*◌, ◌/◌, ◌%◌, [], ◌∷◌, ◌++◌, length, length-append, take, slice, ◌≡◌, refl,
  sym, ap, arith, le→ltb, append_assoc,
}
use sky_zadro_docs.Errors.{ok}
use sky_zadro_docs.Merkle.Hasher.{Bytes}
use sky_zadro_docs.Tls.{TlsReader, from_bytes, low_bytes, value_left, read_fixed_bytes}
use mathlib.Core.List.{reverse, reverse-append, foldl-append}

from_bytes-append : (xs : Bytes) (b : ℕ) → from_bytes (xs ++ b ∷ []) ≡ from_bytes xs * 256 + b
unfolding from_bytes
from_bytes-append xs b = foldl-append (λ ret b. ret * 256 + b) 0 xs (b ∷ [])

reverse-cons : (b : ℕ) (xs : Bytes) → reverse (b ∷ xs) ≡ reverse xs ++ b ∷ []
reverse-cons b xs = reverse-append (b ∷ []) xs

pub length-reverse_low : (n value : ℕ) → length (reverse (low_bytes n value)) ≡ n
length-reverse_low zero value = refl
length-reverse_low (suc n) value = omega (
  arith,
  ap length (reverse-cons (value % 256) (low_bytes n (value / 256))),
  length-append (reverse (low_bytes n (value / 256))) (value % 256 ∷ []),
  length-reverse_low n (value / 256),
)

pub from_bytes-low :
    (n value : ℕ) → value_left n value ≡ 0 → from_bytes (reverse (low_bytes n value)) ≡ value
from_bytes-low zero value e = unfold from_bytes in sym e
from_bytes-low (suc n) value e = omega (
  arith,
  ap from_bytes (reverse-cons (value % 256) (low_bytes n (value / 256))),
  from_bytes-append (reverse (low_bytes n (value / 256))) (value % 256),
  from_bytes-low n (value / 256) e,
)

take-append : (xs rest : Bytes) → take (length xs) (xs ++ rest) ≡ xs
take-append [] rest = refl
take-append (x ∷ xs) rest = ap (λ (t : Bytes). x ∷ t) (take-append xs rest)

slice-middle : (pre xs rest : Bytes) → slice (length pre) (length xs) (pre ++ (xs ++ rest)) ≡ xs
slice-middle [] xs rest = take-append xs rest
slice-middle (p ∷ pre) xs rest = slice-middle pre xs rest

-- A reader after the bytes `pre`, which reads `xs`.
abbrev pub reader : Bytes → ℕ → TlsReader
reader buf pos = record { buf = buf; pos = pos }

pub read_fixed_bytes-append :
    (pre xs rest : Bytes)
    → read_fixed_bytes (reader ((pre ++ xs) ++ rest) (length pre)) (length xs)
      ≡ ok (xs, reader ((pre ++ xs) ++ rest) (length (pre ++ xs)))
unfolding read_fixed_bytes
read_fixed_bytes-append pre xs rest = rw (
  le→ltb (length ((pre ++ xs) ++ rest)) (length pre + length xs)
      (omega (arith, length-append (pre ++ xs) rest, length-append pre xs)),
  length-append pre xs,
  append_assoc pre xs rest,
  slice-middle pre xs rest,
)
