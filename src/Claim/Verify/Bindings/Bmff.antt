-- ===== src/Claim/Verify/Bindings/Bmff.antt =====
-- A BMFF hash as the crate creates it is not checked.
use c2pa_rs_html.Prelude.{
  ◌≡◌, refl, sym, ap, ◌∙◌, [], ◌∷◌, Text, bytes, false, some, bytes_eq, Bool-cases, inl, inr, split,
}
use c2pa_rs_html.Result.{Result, ok, err, panic, stuck}
use c2pa_rs_html.Error.{Error}
use c2pa_rs_html.Status.Tracker.{StatusTracker}
use c2pa_rs_html.Hashing.Hasher.{Hasher}
use c2pa_rs_html.Hashing.Ranges.{RangeSet}
use c2pa_rs_html.Claim.Assertion.{Assertion, AssertionData, cbor_type, new_assertion}
use c2pa_rs_html.Claim.Store.{ClaimAssertion, label_raw, Claim, label_of}
use c2pa_rs_html.Claim.Verify.Links.{StoreValidationInfo}
use c2pa_rs_html.Claim.Verify.Bindings.{
  ClaimAssetData, Decoders, data_hash_label, bmff_hash_label, box_hash_label, check_binding,
  check_binding_count, check_bindings, hash_assertions,
}

abbrev bmff_assertion : AssertionData → Assertion
bmff_assertion content = record {
  raw_label = bytes "c2pa.hash.bmff.v2";
  label_root = bmff_hash_label;
  given_label = bmff_hash_label;
  schema_version = some 2;
  content = content;
  content_type = cbor_type;
}

created :
    (content : AssertionData)
    → new_assertion bmff_hash_label (some 2) content ≡ ok (bmff_assertion content)
unfolding new_assertion c2pa_rs_html.Claim.Assertion.get_mutable_label split
    c2pa_rs_html.Claim.Labels.get_thumbnail_type c2pa_rs_html.Claim.Labels.get_thumbnail_image_type
    c2pa_rs_html.Claim.Decimal.to_decimal c2pa_rs_html.Claim.Decimal.parse_usize
created content = refl

abbrev made : Result Error Assertion → Assertion → Assertion
made (ok a) b = a
made (err e) b = b
made panic b = b
made stuck b = b

versioned_label :
    (hb : ClaimAssertion) (content : AssertionData)
    → new_assertion bmff_hash_label (some 2) content ≡ ok hb.assertion
    → label_raw hb ≡ bytes "c2pa.hash.bmff.v2"
versioned_label hb content e =
    sym (ap (λ r. (made r hb.assertion).raw_label) (sym (created content) ∙ e))

module _ (shown : Error → Text → Text) (displayed : Error → Text) {S T : Type 0} (h : Hasher S)
    (s : RangeSet T) (d : Decoders) where
  one_binding :
      (c : Claim) (hb : ClaimAssertion) (t : StatusTracker)
      → hash_assertions c ≡ hb ∷ []
      → c.update_manifest ≡ false
      → check_binding_count shown displayed h s d c t ≡ (t, ok tt)
  unfolding check_binding_count
  one_binding c hb t only normal = simp (only, normal)

  no_branch :
      (c : Claim) (svi : StoreValidationInfo) (asset : ClaimAssetData) (hb : ClaimAssertion)
      (t : StatusTracker)
      → label_raw hb ≡ bytes "c2pa.hash.bmff.v2"
      → check_binding shown displayed h s d c svi asset hb t ≡ (t, ok tt)
  unfolding check_binding
  no_branch c svi asset hb t e =
      let no_data = ap (λ l. bytes_eq l data_hash_label) e in
      let no_bmff = ap (λ l. bytes_eq l bmff_hash_label) e in
      let no_box = ap (λ l. bytes_eq l box_hash_label) e in rw (no_data, no_bmff, no_box) refl

  -- If the only hard binding of a claim is a BMFF hash of version 2, which is how the crate creates it, the check of
  -- the hard bindings succeeds and logs nothing, whatever the asset is and whatever the hash says; the
  -- claim is not an update manifest.
  pub bmff_hash_unchecked :
      (c : Claim) (svi : StoreValidationInfo) (asset : ClaimAssetData) (hb : ClaimAssertion)
      (content : AssertionData) (t : StatusTracker)
      → new_assertion bmff_hash_label (some 2) content ≡ ok hb.assertion
      → hash_assertions c ≡ hb ∷ []
      → c.update_manifest ≡ false
      → check_bindings shown displayed h s d c svi asset t ≡ (t, ok tt)
  unfolding check_bindings
  bmff_hash_unchecked c svi asset hb content t e only normal =
      elim (Bool-cases (bytes_eq (label_of c) svi.binding_claim)) [
        | inl here ↦
            rw
              (
                here,
                one_binding c hb t only normal,
                only,
                no_branch c svi asset hb t (versioned_label hb content e),
              )
              refl
        | inr elsewhere ↦ rw elsewhere refl
      ]
