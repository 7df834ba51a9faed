-- ===== src/Assets/Bound.antt =====
-- A data hash over an asset, with its manifest store excluded, from the making of the hash with one store in
-- the asset to its check with another: what sdk/src/store.rs does when it signs, with the operations of
-- sdk/src/assertions/data_hash.rs and of an asset handler.
use mathlib.Core.Path.{subst}
use c2pa_rs_html.Prelude.{
  ℕ, ◌+◌, ◌^◌, ◌<◌, ◌≡◌, refl, sym, ap, ◌∙◌, List, [], ◌∷◌, ◌++◌, Text, Bool, false, not, none,
  some, arith, length, length-append, is_empty,
}
use c2pa_rs_html.Result.{ok}
use c2pa_rs_html.Hashing.Hasher.{Hasher}
use c2pa_rs_html.Hashing.Ranges.{new_range, RangeSet, IsRangeSet}
use c2pa_rs_html.Hashing.Select.{select, select-append, select_all, select_none}
use c2pa_rs_html.Hashing.Exclusions.{excluded, kept, IsHasher}
use c2pa_rs_html.Hashing.DataHash.{DataHash, gen_hash_from_stream, verify_stream_hash}
use c2pa_rs_html.Hashing.DataHash.Verify.{bound, Fits, verify_stream_hash-gen_hash}
use c2pa_rs_html.Assets.Html.{Crates, write_cai}
use c2pa_rs_html.Assets.Html.Page.{IsCrates}
use c2pa_rs_html.Assets.Html.ReadBack.{IsPage, before_store, behind_store, read_cai-write_cai}

-- What is kept of three parts when the one in the middle is excluded.
kept-parts :
    (front manifest rest : List ℕ)
    → kept (new_range (length front) (length manifest) ∷ []) (front ++ (manifest ++ rest))
      ≡ front ++ rest
kept-parts front manifest rest =
    let p : ℕ → Bool = λ n. not (excluded (new_range (length front) (length manifest) ∷ []) n) in
    select-append p 0 front (manifest ++ rest)
    ∙ ap (λ l. l ++ select p (0 + length front) (manifest ++ rest))
        (select_all p 0 front (λ n l r. ground arith))
    ∙ ap (λ l. front ++ l)
        (select-append p (0 + length front) manifest rest
          ∙ ap (λ l. l ++ select p (0 + length front + length manifest) rest)
              (select_none p (0 + length front) manifest (λ n l r. ground arith))
          ∙ select_all p (0 + length front + length manifest) rest (λ n l r. ground arith))

-- A size that the hash can cover.
abbrev pub IsSmall : List ℕ → Type 0
IsSmall stream = length stream < 2 ^ 64

three_parts-Fits :
    (front manifest rest : List ℕ)
    → 0 < length manifest
    → IsSmall (front ++ (manifest ++ rest))
    → Fits (new_range (length front) (length manifest) ∷ []) (front ++ (manifest ++ rest))
three_parts-Fits front manifest rest some_data small =
    let whole = length-append front (manifest ++ rest) in
    let behind = length-append manifest rest in
    record { some_data = omega arith; small = small; plain = ((some_data, omega arith, refl), tt) }

module _ {S T : Type 0} (h : Hasher S) (laws : IsHasher h) (s : RangeSet T)
    (set_laws : IsRangeSet s) where
  -- The part that is excluded can change, its size cannot.
  verify_parts :
      (d : DataHash) (alg : Text) (st : S) (front x y rest : List ℕ)
      → h.new alg ≡ some st
      → is_empty (h.finalize (h.update st (front ++ rest))) ≡ false
      → 0 < length x
      → length y ≡ length x
      → IsSmall (front ++ (x ++ rest))
      → (d' : DataHash) × (gen_hash_from_stream h s
            (bound d alg (new_range (length front) (length x) ∷ []))
            (front ++ (x ++ rest))
          ≡ ok d')
        × (verify_stream_hash h s d' (front ++ (y ++ rest)) none ≡ ok tt)
  verify_parts d alg st front x y rest supported some_hash some_data size small =
      let r = new_range (length front) (length x) in
      let kept_x = kept-parts front x rest in
      let kept_y : kept (r ∷ []) (front ++ (y ++ rest)) ≡ front ++ rest =
        ap (λ n. kept (new_range (length front) n ∷ []) (front ++ (y ++ rest))) (sym size)
        ∙ kept-parts front y rest in
      let fits_y =
        subst (λ n. Fits (new_range (length front) n ∷ []) (front ++ (y ++ rest))) size
          (three_parts-Fits front y rest (omega arith) (
            omega (
              arith,
              length-append front (x ++ rest),
              length-append x rest,
              length-append front (y ++ rest),
              length-append y rest,
            ))) in
      let (d', made, checked) =
        verify_stream_hash-gen_hash h laws s set_laws d alg st r [] (front ++ (x ++ rest))
          (front ++ (y ++ rest)) supported (rw kept_x some_hash)
          (three_parts-Fits front x rest some_data small) fits_y in
      (d', made, checked.1 (ap (λ l. h.finalize (h.update st l)) (kept_y ∙ sym kept_x)))

  module _ (c : Crates) (crate_laws : IsCrates c) where
    -- The data hash of a page with one store in it, which excludes the encoded store, verifies on the page with another
    -- store whose encoding is as long: for stores that are not empty, a supported algorithm whose hash of the
    -- kept bytes is not empty, and a result shorter than 2^64 bytes.
    pub verify_stream_hash-write_cai :
        (d : DataHash) (alg : Text) (st : S) (html : Text) (draft store : List ℕ)
        → IsPage c html
        → is_empty draft ≡ false
        → is_empty store ≡ false
        → length (c.encode store) ≡ length (c.encode draft)
        → h.new alg ≡ some st
        → is_empty (h.finalize (h.update st (before_store c html ++ behind_store c html))) ≡ false
        → IsSmall (before_store c html ++ (c.encode draft ++ behind_store c html))
        → (first second : List ℕ) × (d' : DataHash) × (write_cai c html draft ≡ ok first)
          × (gen_hash_from_stream h s
                (bound d alg
                  (new_range (length (before_store c html)) (length (c.encode draft)) ∷ []))
                first
              ≡ ok d')
          × (write_cai c html store ≡ ok second)
          × (verify_stream_hash h s d' second none ≡ ok tt)
    verify_stream_hash-write_cai d alg st html draft store p some_draft some_store size supported
          some_hash small =
        let (d', made, checked) =
          verify_parts d alg st (before_store c html) (c.encode draft) (c.encode store)
            (behind_store c html) supported some_hash
            (not_empty (c.encode draft) (crate_laws.encode_some draft some_draft)) size small in
        (
          before_store c html ++ (c.encode draft ++ behind_store c html),
          before_store c html ++ (c.encode store ++ behind_store c html),
          d',
          (read_cai-write_cai c crate_laws html draft p some_draft).0,
          made,
          (read_cai-write_cai c crate_laws html store p some_store).0,
          checked,
        )
      where
        not_empty : (l : List ℕ) → is_empty l ≡ false → 0 < length l
        not_empty [] e = (let clash = e in cc)
        not_empty (b ∷ l) e = omega arith
