-- ===== src/Claim/Verify/Links.antt =====
-- The check of the assertions in `Claim::verify_internal` (sdk/src/claim.rs): every link of the claim
-- leads to a stored assertion with its hash, and every stored assertion has a link.
pub mod Tracking
pub mod Accepts
pub mod Keys
pub mod Grow
pub mod Added
use c2pa_rs_html.Prelude.{
  ℕ, List, [], ◌∷◌, ◌++◌, Text, bytes, Bool, not, ◌&&◌, Option, none, some, any, get_last?, ◌==◌,
  if◌then◌else◌, bytes_eq,
}
use c2pa_rs_html.Error.{Error, hash_mismatch, assertion_missing}
use c2pa_rs_html.Status.Tracker.{pop_last}
use c2pa_rs_html.Jumbf.Labels.{to_absolute_uri, manifest_label_from_uri, is_relative_url}
use c2pa_rs_html.Claim.Labels.{assertion_label_from_link}
use c2pa_rs_html.Claim.Store.{
  ClaimAssertion, label, HashedUri, Claim, label_of, matches, get_claim_assertion,
}
use c2pa_rs_html.Claim.Check.{
  Check, ◌>>>◌, done, throw, when, for_each, succeed, fail, refuse, report,
}
use c2pa_rs_html.Claim.Verify.Head.{verify_internal_item}

-- The fields of `StoreValidationInfo` (sdk/src/store.rs) that the modelled checks read.
pub record StoreValidationInfo : Type 0 where
  pub redactions : List Text
  pub binding_claim : Text
  pub update_manifest_size : ℕ
  pub manifest_map : Text → Option Claim

-- `Vec::swap_remove` of the first position that passes a test: the last element takes its place.
abbrev pub last_first {ℓ} : {A : Type ℓ} → List A → Option A → List A
last_first xs none = []
last_first xs (some z) = z ∷ pop_last xs

abbrev pub swap_remove_first {ℓ} : {A : Type ℓ} → (A → Bool) → List A → List A
swap_remove_first p [] = []
swap_remove_first p (x ∷ xs) =
    if p x then last_first xs (get_last? xs) else x ∷ swap_remove_first p xs

abbrev pub untrack : HashedUri → List ClaimAssertion → List ClaimAssertion
untrack assertion tracking =
    let (l, n) = assertion_label_from_link assertion.url in swap_remove_first (matches l n) tracking

-- `unwrap_or_default`.
abbrev pub or_empty_text : Option Text → Text
or_empty_text none = []
or_empty_text (some s) = s

unfoldable pub is_redacted : Claim → StoreValidationInfo → Text → ℕ → Bool
is_redacted c svi l n =
    any
      (λ r.
        let (r_label, r_instance) = assertion_label_from_link r in
        bytes_eq (or_empty_text (manifest_label_from_uri r)) (label_of c)
        && (bytes_eq r_label l && r_instance == n))
      svi.redactions

abbrev pub assertion_absolute_uri : Claim → HashedUri → Text
assertion_absolute_uri c assertion =
    if is_relative_url assertion.url
    then to_absolute_uri (label_of c) assertion.url
    else assertion.url

module _ (shown : Error → Text → Text) where
  abbrev pub check_manifest : Claim → HashedUri → Option Text → Check
  check_manifest c assertion none =
      refuse shown (bytes "assertion.hashedURI.mismatch")
        (verify_internal_item assertion.url (bytes "assertion URI malformed: " ++ assertion.url))
        assertion_missing assertion.url
  check_manifest c assertion (some assertion_manifest) =
      when (not (bytes_eq assertion_manifest (label_of c))) (
        fail shown (bytes "assertion.outsideManifest")
          (verify_internal_item assertion.url
            (bytes "assertion reference to external assertion store: " ++ assertion.url))
          assertion_missing assertion.url)

  unfoldable pub check_uri : Claim → HashedUri → Check
  check_uri c assertion =
      if is_relative_url assertion.url
      then done
      else check_manifest c assertion (manifest_label_from_uri assertion.url)

  abbrev pub check_hash : Claim → HashedUri → Option ClaimAssertion → Check
  check_hash c assertion (some ca) =
      let absolute = assertion_absolute_uri c assertion in
      if not (bytes_eq ca.hash_val assertion.hash)
      then fail shown (bytes "assertion.hashedURI.mismatch")
          (verify_internal_item absolute
            (bytes "hash does not match assertion data: " ++ assertion.url))
          hash_mismatch (bytes "Assertion hash failure: " ++ absolute)
      else succeed (bytes "assertion.hashedURI.match")
          (verify_internal_item absolute (bytes "hashed uri matched: " ++ assertion.url))
  check_hash c assertion none =
      let absolute = assertion_absolute_uri c assertion in
      fail shown (bytes "assertion.missing")
        (verify_internal_item absolute (bytes "cannot find matching assertion: " ++ assertion.url))
        assertion_missing absolute

  unfoldable pub check_stored : Claim → StoreValidationInfo → HashedUri → Check
  check_stored c svi assertion =
      let (l, n) = assertion_label_from_link assertion.url in
      if is_redacted c svi l n then done else check_hash c assertion (get_claim_assertion c l n)

  abbrev pub report_undeclared : ClaimAssertion → Check
  report_undeclared undeclared =
      report shown (bytes "assertion.undeclared")
        (verify_internal_item (label undeclared) (bytes "assertion is not referenced by the claim"))
        assertion_missing (label undeclared)

  unfoldable pub check_undeclared : List ClaimAssertion → Check
  check_undeclared [] = done
  check_undeclared (ca ∷ cas) = for_each report_undeclared (ca ∷ cas) >>> throw assertion_missing

  -- The loop over the links, with the assertions that none has led to so far.
  unfoldable pub check_links :
      Claim → StoreValidationInfo → List HashedUri → List ClaimAssertion → Check
  check_links c svi [] tracking = check_undeclared tracking
  check_links c svi (assertion ∷ links) tracking =
      check_uri c assertion
      >>> check_stored c svi assertion
      >>> check_links c svi links (untrack assertion tracking)

  unfoldable pub check_assertions : Claim → StoreValidationInfo → Check
  check_assertions c svi = check_links c svi c.assertions c.assertion_store
