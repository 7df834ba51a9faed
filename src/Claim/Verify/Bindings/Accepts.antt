-- ===== src/Claim/Verify/Bindings/Accepts.antt =====
-- What the check of the hard bindings accepts.
use mathlib.Core.Path.{subst}
use c2pa_rs_html.Prelude.{
  ◌≡◌, refl, List, [], ◌∷◌, Text, bytes, Bool, true, false, not, ◌&&◌, all, keep, ◌++◌, length,
  is_empty, ◌==◌, if◌then◌else◌, bytes_eq,
}
use c2pa_rs_html.Result.{Result, ok, err, panic, stuck, ◌>>=◌}
use c2pa_rs_html.Error.{
  Error, hash_mismatch, update_manifest_invalid, claim_missing_hard_binding,
  claim_multiple_hard_binding,
}
use c2pa_rs_html.Hashing.Hasher.{Hasher}
use c2pa_rs_html.Hashing.Ranges.{RangeSet}
use c2pa_rs_html.Hashing.DataHash.{DataHash, is_remote_hash}
use c2pa_rs_html.Claim.Store.{assertions_by_type, ClaimAssertion, label_raw, Claim, label_of}
use c2pa_rs_html.Claim.Check.{◌>>>◌, for_each, Meets}
use c2pa_rs_html.Claim.Check.Laws.{
  done-Meets, after-Meets, when-Meets, if-Meets, for_each-Meets, with_result-Meets, panic-Meets,
  stuck-Meets, result_is, succeed-Meets, fail-Meets,
}
use c2pa_rs_html.Claim.Verify.Links.{StoreValidationInfo}
use c2pa_rs_html.Claim.Verify.Bindings.{
  ClaimAssetData, Decoders, data_hash_label, bmff_hash_label, box_hash_label, hash_assertions,
  adjusted, name_or, named_problem, log_hash, log_data_hash, log_bmff_hash, log_box_hash,
  data_hash_result, box_hash_result, check_local_hash, refuse_remote_hash, check_data_hash,
  check_binding, check_binding_count, check_bindings,
}

abbrev pub is_ok : Result Error (Unit {0}) → Bool
is_ok (ok u) = true
is_ok (err e) = false
is_ok panic = false
is_ok stuck = false

-- The stored assertions with a label, whatever its version.
abbrev labelled_as : Text → Claim → List ClaimAssertion
labelled_as l c = keep (λ ca. bytes_eq l ca.assertion.label_root) c.assertion_store

abbrev pub hard_bindings : Claim → List ClaimAssertion
hard_bindings c =
    (labelled_as (bytes "c2pa.hash.data") c ++ labelled_as (bytes "c2pa.hash.bmff") c)
    ++ labelled_as (bytes "c2pa.hash.boxes") c

pub hash_assertions_lem : (c : Claim) → hash_assertions c ≡ hard_bindings c
unfolding hash_assertions assertions_by_type
hash_assertions_lem c = refl

-- Exactly one binding, or none for an update manifest.
abbrev pub has_bindings : Bool → List ClaimAssertion → Bool
has_bindings update hash_assertions =
    if update then is_empty hash_assertions else length hash_assertions == 1

module _ {S T : Type 0} (h : Hasher S) (s : RangeSet T) (d : Decoders) where
  abbrev pub data_hash_holds : Claim → ClaimAssetData → DataHash → Bool
  data_hash_holds c asset dh =
      if not (is_remote_hash dh) then result_is is_ok (data_hash_result h s c dh asset) else false

  -- By the label of the assertion with its version. A binding that has none of the three labels, such
  -- as one labelled c2pa.hash.bmff.v2, is not checked, so nothing is asked of it.
  abbrev pub checked_binding_holds :
      Claim → StoreValidationInfo → ClaimAssetData → ClaimAssertion → Bool
  checked_binding_holds c svi asset hb =
      if bytes_eq (label_raw hb) data_hash_label
      then result_is (λ dh. data_hash_holds c asset (adjusted svi dh)) (d.data_hash_of hb.assertion)
      else if bytes_eq (label_raw hb) bmff_hash_label
      then result_is (λ (name, outcome). is_ok outcome) (d.bmff_hash hb.assertion asset c.alg)
      else if bytes_eq (label_raw hb) box_hash_label
      then result_is is_ok (d.box_hash_of hb.assertion >>= box_hash_result h s d c asset)
      else true

  abbrev pub checked_bindings_hold : Claim → StoreValidationInfo → ClaimAssetData → Bool
  checked_bindings_hold c svi asset =
      if bytes_eq (label_of c) svi.binding_claim
      then has_bindings c.update_manifest (hard_bindings c)
        && all (checked_binding_holds c svi asset) (hard_bindings c)
      else true

  module _ (shown : Error → Text → Text) (displayed : Error → Text) where
    log_hash-Meets :
        (c : Claim) (hb : ClaimAssertion) (matched mismatched problem : Text)
        (r : Result Error (Unit {0}))
        → Meets (log_hash shown displayed c hb matched mismatched problem r) (is_ok r)
    log_hash-Meets c hb matched mismatched problem (ok u) = succeed-Meets _ _ refl
    log_hash-Meets c hb matched mismatched problem (err e) = fail-Meets shown _ _ hash_mismatch _
    log_hash-Meets c hb matched mismatched problem panic = panic-Meets
    log_hash-Meets c hb matched mismatched problem stuck = stuck-Meets

    data_hash-Meets :
        (c : Claim) (hb : ClaimAssertion) (asset : ClaimAssetData) (dh : DataHash)
        → Meets (check_data_hash shown displayed h s d c hb asset dh) (data_hash_holds c asset dh)
    unfolding check_data_hash
    data_hash-Meets c hb asset dh =
        if-Meets (not (is_remote_hash dh)) (check_local_hash shown displayed h s d c hb asset dh)
          (refuse_remote_hash shown displayed h s d hb) _ false
          (with_result-Meets (data_hash_result h s c dh asset)
            (log_data_hash shown displayed c hb dh) is_ok
            (log_hash-Meets c hb _ _ (named_problem (name_or dh.name))))
          (fail-Meets shown _ _ hash_mismatch _)

    binding-Meets :
        (c : Claim) (svi : StoreValidationInfo) (asset : ClaimAssetData) (hb : ClaimAssertion)
        → Meets
            (check_binding shown displayed h s d c svi asset hb)
            (checked_binding_holds c svi asset hb)
    unfolding check_binding
    binding-Meets c svi asset hb =
        if-Meets (bytes_eq (label_raw hb) data_hash_label) _ _ _ _
          (with_result-Meets (d.data_hash_of hb.assertion) _ _
            (λ dh. data_hash-Meets c hb asset (adjusted svi dh)))
          (if-Meets (bytes_eq (label_raw hb) bmff_hash_label) _ _ _ _
            (with_result-Meets (d.bmff_hash hb.assertion asset c.alg)
              (log_bmff_hash shown displayed c hb) _
              (λ (name, outcome). log_hash-Meets c hb _ _ (named_problem name) outcome))
            (if-Meets (bytes_eq (label_raw hb) box_hash_label) _ _ _ true
              (with_result-Meets (d.box_hash_of hb.assertion >>= box_hash_result h s d c asset)
                (log_box_hash shown displayed c hb) is_ok
                (log_hash-Meets c hb _ _ (bytes "asset hash error: ")))
              done-Meets))

    count-Meets :
        (c : Claim)
        → Meets
            (check_binding_count shown displayed h s d c)
            (has_bindings c.update_manifest (hash_assertions c))
    unfolding check_binding_count
    count-Meets c =
        subst (Meets (check_binding_count shown displayed h s d c))
          (together c.update_manifest (hash_assertions c))
          (after-Meets _ _ _ _
            (after-Meets _ _ _ _
              (when-Meets (is_empty (hash_assertions c) && not c.update_manifest) _
                (fail-Meets shown _ _ claim_missing_hard_binding _))
              (when-Meets (not (length (hash_assertions c) == 1) && not c.update_manifest) _
                (fail-Meets shown _ _ claim_multiple_hard_binding _)))
            (when-Meets (not (is_empty (hash_assertions c)) && c.update_manifest) _
              (fail-Meets shown _ _ update_manifest_invalid _)))
      where
        together :
            (u : Bool) (hs : List ClaimAssertion)
            → ((not (is_empty hs && not u) && not (not (length hs == 1) && not u))
                && not (not (is_empty hs) && u))
              ≡ has_bindings u hs
        together true [] = refl
        together false [] = refl
        together true (x ∷ xs) = by_length (length (x ∷ xs) == 1)
          where
            by_length : (b : Bool) → (not (not b && false) && false) ≡ false
            by_length true = refl
            by_length false = refl
        together false (x ∷ xs) = by_length (length (x ∷ xs) == 1)
          where
            by_length : (b : Bool) → (not (not b && true) && true) ≡ b
            by_length true = refl
            by_length false = refl

    bound-Meets :
        (c : Claim) (svi : StoreValidationInfo) (asset : ClaimAssetData)
        → Meets
            (check_binding_count shown displayed h s d c
              >>> for_each (check_binding shown displayed h s d c svi asset) (hash_assertions c))
            (has_bindings c.update_manifest (hard_bindings c)
              && all (checked_binding_holds c svi asset) (hard_bindings c))
    bound-Meets c svi asset =
        subst
          (λ hs.
            Meets
              (check_binding_count shown displayed h s d c
                >>> for_each (check_binding shown displayed h s d c svi asset) (hash_assertions c))
              (has_bindings c.update_manifest hs && all (checked_binding_holds c svi asset) hs))
          (hash_assertions_lem c)
          (after-Meets _ _ _ _ (count-Meets c)
            (for_each-Meets _ _ (hash_assertions c) (binding-Meets c svi asset)))

    -- On a log without errors the check of the hard bindings ends with no error, returned or logged, exactly if
    -- the claim is not the one to bind, or it has one binding (none if it is an update manifest) and
    -- each binding with one of the three labels holds for the asset.
    pub check_bindings-Meets :
        (c : Claim) (svi : StoreValidationInfo) (asset : ClaimAssetData)
        → Meets
            (check_bindings shown displayed h s d c svi asset)
            (checked_bindings_hold c svi asset)
    unfolding check_bindings
    check_bindings-Meets c svi asset =
        if-Meets (bytes_eq (label_of c) svi.binding_claim) _ _ _ true (bound-Meets c svi asset)
          done-Meets
