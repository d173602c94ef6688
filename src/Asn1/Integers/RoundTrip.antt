-- ===== src/Asn1/Integers/RoundTrip.antt =====
-- python/ct/crypto/asn1/types.py: an integer that was encoded is decoded.
use sky_zadro_docs.Common.{
  ℕ, suc, ◌+◌, ◌-◌, ◌*◌, ◌≤◌, ◌<◌, ltb, leb, if◌then◌else◌, ◌&&◌, Bool, true, false, [], ◌∷◌, ◌++◌,
  length, length-reverse, ◌≡◌, refl, sym, ap, ◌∙◌, arith, inl, inr, Bool-cases, ==_iff, ne→==,
  ltb→lt, ltb→le, le→ltb, le→leb, lt→leb,
}
use sky_zadro_docs.Common.Int.{ℤ, pos, negsuc}
use sky_zadro_docs.Errors.{ok}
use sky_zadro_docs.Merkle.Hasher.{Bytes}
use sky_zadro_docs.Asn1.Integers.{
  is_done, is_negative, magnitude, byte_loop, sign_bytes, encode_int, shift_left_8, leading_value,
  has_extra_byte, decode_int,
}
use mathlib.Core.List.{foldl, reverse, reverse-append}
use sky_zadro_docs.Asn1.Integers.Loop.{sign, IsTop, Looped, byte_loop_lem}

-- The bytes of an integer that takes the loop, with the byte that keeps its sign.
abbrev sign_part : Bool → ℤ → ℕ → Bytes
sign_part signed v top = if signed then sign_bytes (sign v) top else []

reverse_sign :
    (signed : Bool) (v : ℤ) (top : ℕ) → reverse (sign_part signed v top) ≡ sign_part signed v top
unfolding sign_bytes
reverse_sign false v top = refl
reverse_sign true (pos n) top = elim (Bool-cases (ltb 127 top)) [ inl e ↦ rw e | inr e ↦ rw e ]
reverse_sign true (negsuc n) top = elim (Bool-cases (leb top 127)) [ inl e ↦ rw e | inr e ↦ rw e ]

pub record Encoded (signed : Bool) (v : ℤ) : Type 0 where
  pub top : ℕ
  pub rest : Bytes
  pub result : encode_int signed v ≡ ok (sign_part signed v top ++ top ∷ rest)
  pub is_top : IsTop v top
  pub stands_for : foldl shift_left_8 (shift_left_8 (sign v) top) rest ≡ v
  pub count : suc (length rest) ≡ length (byte_loop (suc (magnitude v)) v).0

pub encode_int_lem :
    (signed : Bool) (v : ℤ)
    → (if signed then false else is_negative v) ≡ false
    → is_done v ≡ false
    → Encoded signed v
unfolding encode_int
encode_int_lem signed v allowed more =
    let l : Looped v (byte_loop (suc (magnitude v)) v).0 (byte_loop (suc (magnitude v)) v).1 =
      byte_loop_lem (suc (magnitude v)) v more (omega arith) in
    record {
      top = l.top;
      rest = l.rest;
      result =
          rw (allowed, more, l.is_last, l.stopped)
            (ap ok (
              reverse-append (byte_loop (suc (magnitude v)) v).0 (sign_part signed v l.top)
              ∙ (λ i. reverse_sign signed v l.top i ++ l.reversed i)));
      is_top = l.is_top;
      stands_for = l.stands_for;
      count = ap length (sym l.reversed) ∙ length-reverse (byte_loop (suc (magnitude v)) v).0;
    }

no_extra_byte :
    (signed : Bool) (leading : ℕ) (xs : Bytes)
    → 0 < leading
    → (signed ≡ true → leading < 255)
    → has_extra_byte signed leading xs ≡ false
unfolding has_extra_byte
no_extra_byte signed leading [] p q = refl
no_extra_byte false leading (b ∷ r) p q = rw (ne→== leading 0 (omega arith))
no_extra_byte true leading (b ∷ r) p q =
    rw (ne→== leading 0 (omega arith), ne→== leading 255 (omega (arith, q refl)))

and_false : (b : Bool) → (b && false) ≡ false
and_false true = refl
and_false false = refl

decoded :
    (signed strict : Bool) (leading : ℕ) (xs : Bytes) (v : ℤ)
    → has_extra_byte signed leading xs ≡ false
    → foldl shift_left_8 (leading_value signed leading) xs ≡ v
    → decode_int signed strict (leading ∷ xs) ≡ ok v
unfolding decode_int
decoded signed strict leading xs v no_extra e = rw (no_extra, and_false strict) (ap ok e)

start :
    (a b : ℤ) (rest : Bytes) (v : ℤ)
    → a ≡ b
    → foldl shift_left_8 b rest ≡ v
    → foldl shift_left_8 a rest ≡ v
start a b rest v e h = ap (λ (t : ℤ). foldl shift_left_8 t rest) e ∙ h

signed_pos :
    (strict : Bool) (n top : ℕ) (rest : Bytes)
    → IsTop (pos n) top
    → foldl shift_left_8 (shift_left_8 (pos 0) top) rest ≡ pos n
    → decode_int true strict (sign_part true (pos n) top ++ top ∷ rest) ≡ ok (pos n)
unfolding sign_bytes
signed_pos strict n top rest h e = elim (Bool-cases (ltb 127 top)) [
  | inl high ↦ rw high (
      decoded true strict 0 (top ∷ rest) (pos n)
        (unfold has_extra_byte in rw (le→ltb top 128 (omega (arith, ltb→lt 127 top high)))) e)
  | inr low ↦ rw low (
      decoded true strict top rest (pos n)
        (no_extra_byte true top rest h.0 (λ _. omega (arith, ltb→le 127 top low)))
        (start (leading_value true top) (pos (0 * 256 + top)) rest (pos n)
          (rw low (ap pos (omega arith))) e))
]

signed_neg :
    (strict : Bool) (n top : ℕ) (rest : Bytes)
    → IsTop (negsuc n) top
    → foldl shift_left_8 (shift_left_8 (negsuc 0) top) rest ≡ negsuc n
    → decode_int true strict (sign_part true (negsuc n) top ++ top ∷ rest) ≡ ok (negsuc n)
unfolding sign_bytes
signed_neg strict n top rest h e = elim (Bool-cases (ltb 127 top)) [
  | inr low ↦
      let le : top ≤ 127 = ltb→le 127 top low in
      rw (le→leb top 127 le) (
        decoded true strict 255 (top ∷ rest) (negsuc n)
          (unfold has_extra_byte in rw (lt→leb 128 top (omega (arith, le)))) e)
  | inl high ↦
      let gt : 127 < top = ltb→lt 127 top high in
      rw (lt→leb top 127 gt) (
        decoded true strict top rest (negsuc n)
          (no_extra_byte true top rest (omega (arith, gt)) (λ _. h))
          (start (leading_value true top) (negsuc (0 * 256 + (255 - top))) rest (negsuc n)
            (rw high (ap negsuc (omega arith))) e))
]

pub unsigned_pos :
    (strict : Bool) (n top : ℕ) (rest : Bytes)
    → IsTop (pos n) top
    → foldl shift_left_8 (shift_left_8 (pos 0) top) rest ≡ pos n
    → decode_int false strict (top ∷ rest) ≡ ok (pos n)
unsigned_pos strict n top rest h e =
    decoded false strict top rest (pos n) (no_extra_byte false top rest h.0 (λ p. cc))
      (start (pos top) (pos (0 * 256 + top)) rest (pos n) (ap pos (omega arith)) e)

done_decoded :
    (signed strict : Bool) (v : ℤ)
    → is_done v ≡ true
    → (if signed then false else is_negative v) ≡ false
    → decode_int signed strict (if is_negative v then 255 ∷ [] else 0 ∷ []) ≡ ok v
unfolding decode_int has_extra_byte
done_decoded false strict (pos n) done allowed = rw (and_false strict, (==_iff n 0).0 done)
done_decoded true strict (pos n) done allowed = rw (and_false strict, (==_iff n 0).0 done)
done_decoded false strict (negsuc n) done allowed = cc
done_decoded true strict (negsuc n) done allowed = rw (and_false strict, (==_iff n 0).0 done)

-- An integer, a negative one only in the signed form, is encoded without an error, and decoding the
-- result in the same form, strictly or not, gives it back.
pub encode_int-decode_int :
    (signed strict : Bool) (v : ℤ)
    → (if signed then false else is_negative v) ≡ false
    → (buf : Bytes) × (encode_int signed v ≡ ok buf) × (decode_int signed strict buf ≡ ok v)
encode_int-decode_int signed strict v allowed = elim (Bool-cases (is_done v)) [
  | inl done ↦ (
    if is_negative v then 255 ∷ [] else 0 ∷ [],
    unfold encode_int in rw (allowed, done),
    done_decoded signed strict v done allowed,
  )
  | inr more ↦
      let e : Encoded signed v = encode_int_lem signed v allowed more in
      (
        sign_part signed v e.top ++ e.top ∷ e.rest,
        e.result,
        read_back signed v e.top e.rest allowed e.is_top e.stands_for,
      )
]
  where
    read_back :
        (signed : Bool) (v : ℤ) (top : ℕ) (rest : Bytes)
        → (if signed then false else is_negative v) ≡ false
        → IsTop v top
        → foldl shift_left_8 (shift_left_8 (sign v) top) rest ≡ v
        → decode_int signed strict (sign_part signed v top ++ top ∷ rest) ≡ ok v
    read_back true (pos n) top rest allowed h e = signed_pos strict n top rest h e
    read_back true (negsuc n) top rest allowed h e = signed_neg strict n top rest h e
    read_back false (pos n) top rest allowed h e = unsigned_pos strict n top rest h e
    read_back false (negsuc n) top rest allowed h e = cc
