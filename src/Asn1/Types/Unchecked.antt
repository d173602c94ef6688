-- ===== src/Asn1/Types/Unchecked.antt =====
-- python/ct/crypto/asn1/types.py: the length of an explicit tag is not compared with what it holds.
use sky_zadro_docs.Common.{
  ℕ, ◌≤◌, ◌<◌, ◌^◌, Bool, List, [], ◌∷◌, ◌++◌, length, length-append, ◌≡◌, ap, ◌∙◌, arith,
}
use sky_zadro_docs.Common.Int.{pos}
use sky_zadro_docs.Errors.{ok, ◌>>=◌}
use sky_zadro_docs.Merkle.Hasher.{Bytes}
use sky_zadro_docs.Asn1.Integers.{encode_length}
use sky_zadro_docs.Asn1.Tags.{Tag}
use sky_zadro_docs.Asn1.Types.{Asn1Type, read_tags, read_contents, read}
use sky_zadro_docs.Asn1.Types.Wrap.{
  tags_read, contents_read, read_one_tag, read_tagged, definite_contents,
}
use mathlib.Core.List.{reverse}

module _ {V : Type 0} (cls : Asn1Type V) (t u : Tag) (two : cls.tags ≡ t ∷ u ∷ []) where
  -- An explicit tag may claim any length up to that of the bytes that follow it: reading takes no
  -- notice of it, strictly or not, and gives the object, and the rest, that the inner tag's own
  -- length tells.
  pub explicit_length_unchecked :
      (strict : Bool) (claimed : ℕ) (outer inner v rest : Bytes)
      → claimed < 256 ^ 127
      → length v < 256 ^ 127
      → encode_length claimed ≡ ok outer
      → encode_length (length v) ≡ ok inner
      → claimed ≤ length (t.value ++ (inner ++ (v ++ rest)))
      → read cls strict (u.value ++ (outer ++ (t.value ++ (inner ++ (v ++ rest)))))
        ≡ contents_read cls strict v rest
  explicit_length_unchecked strict claimed outer inner v rest small fits e e' within =
      read_tagged cls strict _ (omega (arith, ap length two))
      ∙ ap
          (λ (tags : List Tag).
            read_tags strict (reverse tags) (tags_read (pos 0) 0 all) >>= read_contents cls strict)
          two
      ∙ ap (λ r. r >>= read_contents cls strict)
          (read_one_tag strict u (t ∷ []) (pos 0) 0 claimed outer
              (t.value ++ (inner ++ (v ++ rest))) small e within
            ∙ read_one_tag strict t [] (pos claimed) 0 (length v) inner (v ++ rest) fits e'
                (omega (arith, length-append v rest)))
      ∙ (unfold read_tags in definite_contents cls strict v rest)
    where
      all : Bytes
      all = u.value ++ (outer ++ (t.value ++ (inner ++ (v ++ rest))))
