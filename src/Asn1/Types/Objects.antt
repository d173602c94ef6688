-- ===== src/Asn1/Types/Objects.antt =====
-- python/ct/crypto/asn1/types.py: an object that was encoded is read again.
use sky_zadro_docs.Common.{
  ◌<◌, ◌^◌, Bool, false, [], ◌++◌, length, append-nil, none, some, ◌≡◌, sym, ap, ◌∙◌,
}
use sky_zadro_docs.Errors.{Result, ok, ◌>>=◌, bind-returned, ok_injective}
use sky_zadro_docs.Merkle.Hasher.{Bytes}
use sky_zadro_docs.Asn1.Types.{
  Asn1Object, Asn1Type, wrap_tags, read, decode, contents, encode, fresh_contents,
}
use sky_zadro_docs.Asn1.Types.Wrap.{wrap_tags-read}

module _ {V : Type 0} (cls : Asn1Type V) where
  -- Contents that were encoded from a valid value are decoded to it, strictly or not.
  abbrev pub IsLawful : (V → Type 0) → Type 0
  IsLawful Valid =
      (value : V) (buf : Bytes)
      → Valid value
      → cls.encode_value value ≡ ok buf
      → (strict : Bool) → cls.decode_value strict buf ≡ ok value

  -- A new object, of a value.
  abbrev pub new_object : V → Asn1Object V
  new_object value = record { value = value; serialized_value = none; modified = false }

  -- An object that was read from contents.
  abbrev pub object_read : V → Bytes → Asn1Object V
  object_read value buf = record { value = value; serialized_value = some buf; modified = false }

  pub new_contents :
      (value : V) {w : Bytes} {o : Asn1Object V}
      → encode cls (new_object value) ≡ ok (w, o)
      → (v : Bytes) × (cls.encode_value value ≡ ok v) × (wrap_tags cls.tags v ≡ ok w)
  unfolding encode contents
  new_contents value {w} {o} h =
      let (c, e, more) = bind-returned wrapped (fresh_contents cls (new_object value)) h in
      let (v, e', same) = bind-returned kept (cls.encode_value value) e in
      let (u, f, last) = bind-returned (λ (u : Bytes). ok (u, c.1)) (wrap_tags cls.tags c.0) more in
      (
        v,
        e',
        ap (λ (t : Bytes). wrap_tags cls.tags t)
              (ap (λ (p : Bytes × Asn1Object V). p.0) (ok_injective same))
            ∙ f
            ∙ ap ok (ap (λ (p : Bytes × Asn1Object V). p.0) (ok_injective last)),
      )
    where
      wrapped : Bytes × Asn1Object V → Result (Bytes × Asn1Object V)
      wrapped c = wrap_tags cls.tags c.0 >>= λ u. ok (u, c.1)

      kept : Bytes → Result (Bytes × Asn1Object V)
      kept v = ok (v, new_object value)

  pub encode-read :
      (Valid : V → Type 0) (value : V) (w : Bytes) (o : Asn1Object V)
      → IsLawful Valid
      → 0 < length cls.tags
      → Valid value
      → encode cls (new_object value) ≡ ok (w, o)
      → length w < 256 ^ 127
      → (v : Bytes) × ((strict : Bool) (rest : Bytes)
          → read cls strict (w ++ rest) ≡ ok (object_read value v, rest))
  encode-read Valid value w o law tagged valid h small =
      let (v, e, wrapped) = new_contents value h in
      (
        v,
        λ strict rest.
            wrap_tags-read cls strict v w rest tagged wrapped small
            ∙ rw (law value v valid e strict),
      )

  -- The same without anything after it.
  pub encode-decode :
      (Valid : V → Type 0) (value : V) (w : Bytes) (o : Asn1Object V)
      → IsLawful Valid
      → 0 < length cls.tags
      → Valid value
      → encode cls (new_object value) ≡ ok (w, o)
      → length w < 256 ^ 127
      → (v : Bytes) × ((strict : Bool) → decode cls strict w ≡ ok (object_read value v))
  unfolding decode
  encode-decode Valid value w o law tagged valid h small =
      let (v, back) = encode-read Valid value w o law tagged valid h small in
      (
        v,
        λ strict.
            ap (λ (b : Bytes). decode cls strict b) (sym (append-nil w)) ∙ rw (back strict []),
      )
