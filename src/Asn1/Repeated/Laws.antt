-- ===== src/Asn1/Repeated/Laws.antt =====
-- python/ct/crypto/asn1/types.py: a SequenceOf decodes the components that it encodes.
use sky_zadro_docs.Common.{
  ℕ, zero, suc, ◌+◌, ◌≤◌, ◌<◌, ◌^◌, Bool, true, All, List, [], ◌∷◌, ◌++◌, map, length,
  length-append, ◌≡◌, refl, sym, ap, ◌∙◌, arith,
}
use sky_zadro_docs.Errors.{Result, ok, ◌>>=◌, bind-returned, ok_injective, raise≢ok}
use sky_zadro_docs.Merkle.Hasher.{Bytes}
use sky_zadro_docs.Common.Int.{pos}
use sky_zadro_docs.Asn1.Integers.{encode_length, read_length}
use sky_zadro_docs.Asn1.Integers.Lengths.{encode_length-read_length}
use sky_zadro_docs.Asn1.Tags.{Tag}
use sky_zadro_docs.Asn1.Types.{Asn1Object, Asn1Type, wrap_tags, read, encode}
use sky_zadro_docs.Asn1.Types.Wrap.{wrap_longer}
use sky_zadro_docs.Asn1.Types.Objects.{IsLawful, new_object, object_read, new_contents, encode-read}
use sky_zadro_docs.Asn1.Repeated.{encode_components, decode_components}

-- A length takes a byte at least, since one is read back.
read_nonempty : (n : ℕ) (k : Bytes) → read_length true (k ++ []) ≡ ok (pos n, []) → 0 < length k
unfolding read_length
read_nonempty n [] h = absurd (raise≢ok h)
read_nonempty n (b ∷ r) h = omega arith

length_byte : (n : ℕ) (k : Bytes) → n < 256 ^ 127 → encode_length n ≡ ok k → 0 < length k
length_byte n k small h =
    let (k', e, back) = encode_length-read_length n small in
    let same : k' ≡ k = ok_injective (sym e ∙ h) in
    omega (arith, read_nonempty n k' (back true []), ap length same)

wrapped_nonempty :
    (tags : List Tag) (v w : Bytes)
    → 0 < length tags
    → wrap_tags tags v ≡ ok w
    → length w < 256 ^ 127
    → 0 < length w
unfolding wrap_tags
wrapped_nonempty [] v w p h small = absurd (omega arith)
wrapped_nonempty (t ∷ tags) v w p h small =
    let (n, e, more) =
      bind-returned (λ (n : Bytes). wrap_tags tags (t.value ++ (n ++ v))) (encode_length (length v))
        h in
    let longer : length (t.value ++ (n ++ v)) ≤ length w =
      wrap_longer tags (t.value ++ (n ++ v)) w more in
    let sizes : length (t.value ++ (n ++ v)) ≡ length t.value + (length n + length v) =
      omega (arith, length-append t.value (n ++ v), length-append n v) in
    omega (arith, longer, sizes, length_byte (length v) n (omega (arith, longer, sizes, small)) e)

module _ {V : Type 0} (component : Asn1Type V) (Valid : V → Type 0) (law : IsLawful component Valid)
    (tagged : 0 < length component.tags) where
  -- New objects of these values are encoded one after another.
  abbrev new_objects : List V → List (Asn1Object V)
  new_objects values = map (new_object component) values

  abbrev pub values_of : List (Asn1Object V) → List V
  values_of objects = map (λ (o : Asn1Object V). o.value) objects

  encoded_nonempty :
      (value : V) (w : Bytes) (o : Asn1Object V)
      → encode component (new_object component value) ≡ ok (w, o)
      → length w < 256 ^ 127
      → 0 < length w
  encoded_nonempty value w o h small =
      let (v, e, wrapped) = new_contents component value h in
      wrapped_nonempty component.tags v w tagged wrapped small

  abbrev Decoded : ℕ → List V → Bytes → Type 0
  Decoded f values w =
      (strict : Bool)
      → (objects : List (Asn1Object V)) × (decode_components component f strict w ≡ ok objects)
        × (values_of objects ≡ values)

  decode_step :
      (f : ℕ) (strict : Bool) (b rest : Bytes) (value : V) (o : Asn1Object V)
      (objects : List (Asn1Object V))
      → 0 < length b
      → read component strict (b ++ rest) ≡ ok (o, rest)
      → decode_components component f strict rest ≡ ok objects
      → decode_components component (suc f) strict (b ++ rest) ≡ ok (o ∷ objects)
  unfolding decode_components
  decode_step f strict [] rest value o objects p e more = absurd (omega arith)
  decode_step f strict (x ∷ b) rest value o objects p e more = rw (e, more)

  decode_nothing : (f : ℕ) (strict : Bool) → decode_components component f strict [] ≡ ok []
  unfolding decode_components
  decode_nothing zero strict = refl
  decode_nothing (suc f) strict = refl

  joined : Bytes → Bytes → Result Bytes
  joined b more = ok (b ++ more)

  after : List V → Bytes × Asn1Object V → Result Bytes
  after values p = encode_components component (new_objects values) >>= joined p.0

  components_back :
      (f : ℕ) (values : List V) (w : Bytes)
      → All Valid values
      → encode_components component (new_objects values) ≡ ok w
      → length w < 256 ^ 127
      → length w ≤ f
      → Decoded f values w
  unfolding encode_components joined after
  components_back f [] w valid h small enough = λ strict. (
    [],
    ap (decode_components component f strict) (sym (ok_injective h)) ∙ decode_nothing f strict,
    refl,
  )
  components_back zero (value ∷ values) w valid h small enough =
      let (p, e, h') =
        bind-returned (after values) (encode component (new_object component value)) h in
      let (more, e', h'') =
        bind-returned (joined p.0) (encode_components component (new_objects values)) h' in
      let size : length w ≡ length p.0 + length more =
        omega (arith, ap length (ok_injective h''), length-append p.0 more) in
      absurd
        (omega (arith, encoded_nonempty value p.0 p.1 e (omega (arith, size, small)), size, enough))
  components_back (suc f) (value ∷ values) w valid h small enough =
      let (p, e, h') =
        bind-returned (after values) (encode component (new_object component value)) h in
      let (more, e', h'') =
        bind-returned (joined p.0) (encode_components component (new_objects values)) h' in
      let size : length w ≡ length p.0 + length more =
        omega (arith, ap length (ok_injective h''), length-append p.0 more) in
      let some_byte : 0 < length p.0 =
        encoded_nonempty value p.0 p.1 e (omega (arith, size, small)) in
      let (v, back) =
        encode-read component Valid value p.0 p.1 law tagged valid.0 e
          (omega (arith, size, small)) in
      let rest : Decoded f values more =
        components_back f values more valid.1 e' (omega (arith, size, small))
          (omega (arith, size, some_byte, enough)) in
      λ strict.
        let (objects, d, same) = rest strict in
        (
          object_read component value v ∷ objects,
          ap (decode_components component (suc f) strict) (sym (ok_injective h''))
              ∙ decode_step f strict p.0 more value (object_read component value v) objects
                  some_byte (back strict more) d,
          ap (λ (t : List V). value ∷ t) same,
        )

  -- The components of a SequenceOf, encoded as new objects of a tagged type with valid values to fewer
  -- than 256 ^ 127 bytes, are decoded, strictly or not, to as many objects of the same values in the
  -- same order.
  pub encode_components-decode_components :
      (values : List V) (w : Bytes)
      → All Valid values
      → encode_components component (map (new_object component) values) ≡ ok w
      → length w < 256 ^ 127
      → (strict : Bool)
      → (objects : List (Asn1Object V)) × (decode_components component (length w) strict w
          ≡ ok objects)
        × (map (λ (o : Asn1Object V). o.value) objects ≡ values)
  encode_components-decode_components values w valid h small =
      components_back (length w) values w valid h small (omega arith)
