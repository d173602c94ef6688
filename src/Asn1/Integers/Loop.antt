-- ===== src/Asn1/Integers/Loop.antt =====
-- python/ct/crypto/asn1/types.py: the loop of encode_int.
use sky_zadro_docs.Common.{
  ℕ, zero, suc, ◌-◌, ◌/◌, ◌%◌, ◌≤◌, ◌<◌, ◌^◌, true, false, [], ◌∷◌, ◌++◌, length, ◌≡◌, refl, sym,
  ap, ◌∙◌, arith, inl, inr, Bool-cases, ==_iff,
}
use sky_zadro_docs.Common.Int.{ℤ, pos, negsuc}
use sky_zadro_docs.Errors.{ok}
use sky_zadro_docs.Merkle.Hasher.{Bytes}
use sky_zadro_docs.Asn1.Integers.{
  low_byte, shift_right_8, is_done, magnitude, byte_loop, last_byte, shift_left_8,
}
use native.Mathlib.Nat.{pow-suc}
use mathlib.Core.List.{foldl, foldl-append, reverse, reverse-append}

-- What the loop stops at.
abbrev pub sign : ℤ → ℤ
sign (pos n) = pos 0
sign (negsuc n) = negsuc 0

shift_back : (v : ℤ) → shift_left_8 (shift_right_8 v) (low_byte v) ≡ v
shift_back (pos n) = ap pos (omega arith)
shift_back (negsuc n) = ap negsuc (omega arith)

-- The last byte that the loop makes: not zero, and for negative numbers not 255.
abbrev pub IsTop : ℤ → ℕ → Type 0
IsTop (pos n) top = (0 < top) × (top < 256)
IsTop (negsuc n) top = top < 255

-- The bytes of the loop, highest first, and what they stand for.
pub record Looped (value : ℤ) (int_bytes : Bytes) (last : ℤ) : Type 0 where
  pub top : ℕ
  pub rest : Bytes
  pub reversed : reverse int_bytes ≡ top ∷ rest
  pub is_last : last_byte int_bytes ≡ ok top
  pub is_top : IsTop value top
  pub stands_for : foldl shift_left_8 (shift_left_8 (sign value) top) rest ≡ value
  pub stopped : last ≡ sign value

one_byte :
    (v : ℤ)
    → is_done v ≡ false
    → is_done (shift_right_8 v) ≡ true
    → Looped v (low_byte v ∷ []) (shift_right_8 v)
one_byte (pos n) more done =
    let n_pos : n ≡ 0 → ⊥ = λ z. cc (more, (==_iff n 0).1 z) in
    let small : n / 256 ≡ 0 = (==_iff (n / 256) 0).0 done in
    record {
      top = n % 256;
      rest = [];
      reversed = refl;
      is_last = refl;
      is_top = omega (arith, small, n_pos);
      stands_for = ap pos (omega (arith, small));
      stopped = ap pos small;
    }
one_byte (negsuc n) more done =
    let n_pos : n ≡ 0 → ⊥ = λ z. cc (more, (==_iff n 0).1 z) in
    let small : n / 256 ≡ 0 = (==_iff (n / 256) 0).0 done in
    record {
      top = 255 - n % 256;
      rest = [];
      reversed = refl;
      is_last = refl;
      is_top = omega (arith, small, n_pos);
      stands_for = ap negsuc (omega (arith, small));
      stopped = ap negsuc small;
    }

last_byte-cons : (b : ℕ) (xs : Bytes) {t : ℕ} → last_byte xs ≡ ok t → last_byte (b ∷ xs) ≡ ok t
last_byte-cons b [] e = cc
last_byte-cons b (x ∷ xs) e = e

same_sign : (v : ℤ) → sign (shift_right_8 v) ≡ sign v
same_sign (pos n) = refl
same_sign (negsuc n) = refl

same-IsTop : (v : ℤ) (top : ℕ) → IsTop (shift_right_8 v) top → IsTop v top
same-IsTop (pos n) top h = h
same-IsTop (negsuc n) top h = h

more_bytes :
    (v : ℤ) (int_bytes : Bytes) (last : ℤ)
    → Looped (shift_right_8 v) int_bytes last
    → Looped v (low_byte v ∷ int_bytes) last
more_bytes v int_bytes last l = record {
  top = l.top;
  rest = l.rest ++ low_byte v ∷ [];
  reversed =
      reverse-append (low_byte v ∷ []) int_bytes
      ∙ ap (λ (t : Bytes). t ++ low_byte v ∷ []) l.reversed;
  is_last = last_byte-cons (low_byte v) int_bytes l.is_last;
  is_top = same-IsTop v l.top l.is_top;
  stands_for =
      foldl-append shift_left_8 (shift_left_8 (sign v) l.top) l.rest (low_byte v ∷ [])
      ∙ ap (λ (t : ℤ). shift_left_8 (foldl shift_left_8 (shift_left_8 t l.top) l.rest) (low_byte v))
          (sym (same_sign v))
      ∙ ap (λ (t : ℤ). shift_left_8 t (low_byte v)) l.stands_for
      ∙ shift_back v;
  stopped = l.stopped ∙ same_sign v;
}

pub smaller :
    (v : ℤ) (f : ℕ) → is_done v ≡ false → magnitude v < suc f → magnitude (shift_right_8 v) < f
smaller (pos n) f more h = let p : n ≡ 0 → ⊥ = λ z. cc (more, (==_iff n 0).1 z) in omega (arith, p)
smaller (negsuc n) f more h =
    let p : n ≡ 0 → ⊥ = λ z. cc (more, (==_iff n 0).1 z) in omega (arith, p)

pub loop_done : (f : ℕ) (v : ℤ) → is_done v ≡ true → byte_loop f v ≡ ([], v)
unfolding byte_loop
loop_done zero v done = refl
loop_done (suc f) v done = rw (done, byte_loop)

pub loop_more :
    (f : ℕ) (v : ℤ)
    → is_done v ≡ false
    → byte_loop (suc f) v
      ≡ (low_byte v ∷ (byte_loop f (shift_right_8 v)).0, (byte_loop f (shift_right_8 v)).1)
unfolding byte_loop
loop_more f v more = rw (more, byte_loop)

-- The loop ends for every integer, and makes at least one byte.
pub byte_loop_lem :
    (f : ℕ) (v : ℤ)
    → is_done v ≡ false
    → magnitude v < f
    → Looped v (byte_loop f v).0 (byte_loop f v).1
byte_loop_lem zero v more h = absurd (omega arith)
byte_loop_lem (suc f) v more h =
    rw (loop_more f v more) (elim (Bool-cases (is_done (shift_right_8 v))) [
      | inl done ↦ rw (loop_done f (shift_right_8 v) done) (one_byte v more done)
      | inr again ↦ more_bytes v _ _ (byte_loop_lem f (shift_right_8 v) again (smaller v f more h))
    ])

none_left : (v : ℤ) → magnitude v < 256 ^ 0 → is_done v ≡ true
none_left (pos n) h = (==_iff n 0).1 (omega arith)
none_left (negsuc n) h = (==_iff n 0).1 (omega arith)

fewer : (k : ℕ) (v : ℤ) → magnitude v < 256 ^ suc k → magnitude (shift_right_8 v) < 256 ^ k
fewer k (pos n) h = omega (arith, pow-suc 256 k)
fewer k (negsuc n) h = omega (arith, pow-suc 256 k)

-- As many bytes as the magnitude has digits, at most.
pub byte_loop_short : (k f : ℕ) (v : ℤ) → magnitude v < 256 ^ k → length (byte_loop f v).0 ≤ k
byte_loop_short k zero v h = unfold byte_loop in omega arith
byte_loop_short zero (suc f) v h =
    omega (arith, ap (λ (t : Bytes × ℤ). length t.0) (loop_done (suc f) v (none_left v h)))
byte_loop_short (suc k) (suc f) v h = elim (Bool-cases (is_done v)) [
  | inl done ↦ omega (arith, ap (λ (t : Bytes × ℤ). length t.0) (loop_done (suc f) v done))
  | inr more ↦ omega (
    arith,
    ap (λ (t : Bytes × ℤ). length t.0) (loop_more f v more),
    byte_loop_short k f (shift_right_8 v) (fewer k v h),
  )
]
