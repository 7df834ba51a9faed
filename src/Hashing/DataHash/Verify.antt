-- ===== src/Hashing/DataHash/Verify.antt =====
-- A generated data hash verifies, and goes on to verify when only excluded bytes change.
use c2pa_rs_html.Prelude.{
  ℕ, ◌^◌, ◌<◌, ◌≡◌, refl, sym, ap, ◌∙◌, ◌↔◌, List, [], ◌∷◌, Text, Bool, false, none, some, All,
  length, is_empty, bytes_eq, bytes_eq_self, bytes_eq→eq, Bool-cases, inl, inr,
}
use c2pa_rs_html.Result.{ok, guard}
use c2pa_rs_html.Error.{hash_mismatch}
use c2pa_rs_html.Hashing.Hasher.{Hasher}
use c2pa_rs_html.Hashing.Ranges.{HashRange, RangeSet, IsRangeSet, verify_stream_by_alg}
use c2pa_rs_html.Hashing.Exclusions.{kept, Plain, IsHasher}
use c2pa_rs_html.Hashing.Binding.{hash_stream_by_alg-exclusions}
use c2pa_rs_html.Hashing.DataHash.{
  DataHash, non_empty, gen_hash_from_stream, hash_from_stream, verify_stream_hash,
}

-- A data hash that is not remote, with its algorithm and its exclusions.
abbrev pub bound : DataHash → Text → List HashRange → DataHash
bound d alg hr = record d { exclusions = some hr; alg = some alg; url = none }

-- A stream that the exclusions fit, not empty and shorter than 2^64 bytes.
pub record Fits (hr : List HashRange) (stream : List ℕ) : Type 0 where
  pub some_data : 0 < length stream
  pub small : length stream < 2 ^ 64
  pub plain : All (Plain (length stream)) hr

guard_iff : (b : Bool) (u v : List ℕ) → b ≡ bytes_eq u v → (guard b hash_mismatch ≡ ok tt) ↔ (v ≡ u)
guard_iff b u v e = elim (Bool-cases (bytes_eq u v)) [
  | inl same ↦ rw (e, same) ((λ h. sym (bytes_eq→eq u v same)), (λ h. refl))
  | inr other ↦
      rw (e, other)
        ((λ h. cc), (λ h. (let clash = sym other ∙ ap (bytes_eq u) h ∙ bytes_eq_self u in cc)))
]

module _ {S T : Type 0} (h : Hasher S) (laws : IsHasher h) (s : RangeSet T)
    (set_laws : IsRangeSet s) where
  -- The hash of a data hash that is generated over one stream is accepted for another exactly if the
  -- bytes that no exclusion covers hash to the same value in both: with a supported algorithm whose hashes
  -- are not empty, exclusions that fit both streams, and a data hash that is not remote.
  pub verify_stream_hash-gen_hash :
      (d : DataHash) (alg : Text) (st : S) (r : HashRange) (rs : List HashRange) (x y : List ℕ)
      → h.new alg ≡ some st
      → is_empty (h.finalize (h.update st (kept (r ∷ rs) x))) ≡ false
      → Fits (r ∷ rs) x
      → Fits (r ∷ rs) y
      → (d' : DataHash) × (gen_hash_from_stream h s (bound d alg (r ∷ rs)) x ≡ ok d')
        × ((verify_stream_hash h s d' y none ≡ ok tt) ↔ (
            h.finalize (h.update st (kept (r ∷ rs) y))
            ≡ h.finalize (h.update st (kept (r ∷ rs) x))))
  unfolding gen_hash_from_stream hash_from_stream verify_stream_hash verify_stream_by_alg
  verify_stream_hash-gen_hash d alg st r rs x y supported some_hash fx fy =
      let hash = h.finalize (h.update st (kept (r ∷ rs) x)) in
      let ex =
        hash_stream_by_alg-exclusions h laws s set_laws alg st r rs x supported fx.some_data
          fx.small fx.plain in
      let ey =
        hash_stream_by_alg-exclusions h laws s set_laws alg st r rs y supported fy.some_data
          fy.small fy.plain in
      (
        record d { exclusions = some (r ∷ rs); alg = some alg; hash = hash; url = none },
        rw ex (rw (kept_whole hash some_hash) refl),
        guard_iff _ hash (h.finalize (h.update st (kept (r ∷ rs) y))) (rw ey refl),
      )
    where
      kept_whole : (hash : List ℕ) → is_empty hash ≡ false → non_empty hash ≡ ok hash
      kept_whole [] e = cc
      kept_whole (b ∷ hash) e = refl
