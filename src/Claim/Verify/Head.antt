-- ===== src/Claim/Verify/Head.antt =====
-- The first checks of `Claim::verify_internal` (sdk/src/claim.rs): the signature, the icons, the
-- redactions, and the rules on parents and on update manifests. What serde makes of an assertion is
-- a parameter: `relationship_of` for an ingredient, `actions_of` for the actions.
pub mod Accepts
use c2pa_rs_html.Prelude.{
  ℕ, zero, suc, List, [], ◌∷◌, ◌++◌, Text, bytes, contains, Bool, not, Option, none, some, any,
  keep, length, ltb, if◌then◌else◌, bytes_eq,
}
use c2pa_rs_html.Result.{Result}
use c2pa_rs_html.Error.{
  Error, hash_mismatch, assertion_missing, claim_self_redact, claim_disallowed_redaction,
  update_manifest_invalid, cose_signature, claim_verification,
}
use c2pa_rs_html.Status.LogItem.{LogItem}
use c2pa_rs_html.Hashing.DataHash.{or_empty}
use c2pa_rs_html.Jumbf.Labels.{to_manifest_uri, to_signature_uri}
use c2pa_rs_html.Claim.Assertion.{Assertion, cbor, cbor_type}
use c2pa_rs_html.Claim.Labels.{claim_thumbnail, assertion_label_from_link}
use c2pa_rs_html.Claim.Store.{
  ClaimAssertion, label_raw, HashedUri, Claim, label_of, get_claim_assertion, assertions_by_type,
}
use c2pa_rs_html.Claim.Verify.Decoded.{Relationship, parent_of, is_related, Action, Actions}
use c2pa_rs_html.Claim.Check.{
  Check, ◌>>>◌, done, when, with_result, for_each, log_item, succeed, fail, report,
}

-- `Result<CertificateInfo>`: whether the signature is validated, or an error with the text it carries.
pub data Verified : Type 0 where
  certificate : Bool → Verified
  rejected : Error → Text → Verified

abbrev pub verify_internal_item : Text → Text → LogItem
verify_internal_item l d = log_item l d (bytes "verify_internal")

abbrev pub uri : Claim → Text
uri c = to_manifest_uri (label_of c)

-- An assertion of a label without a version, to select others by: `Assertion::new` with no data.
abbrev pub dummy : Text → Assertion
dummy l = record {
  given_label = l;
  schema_version = none;
  content = cbor [];
  content_type = cbor_type;
  raw_label = l;
  label_root = l;
}

unfoldable pub ingredient_assertions : Claim → List ClaimAssertion
ingredient_assertions c = assertions_by_type c (dummy (bytes "c2pa.ingredient"))

unfoldable pub action_assertions : Claim → List ClaimAssertion
action_assertions c = assertions_by_type c (dummy (bytes "c2pa.actions"))

abbrev pub allowed_update_manifest_actions : List Text
allowed_update_manifest_actions =
    bytes "c2pa.edited.metadata"
    ∷ bytes "c2pa.opened"
    ∷ bytes "c2pa.published"
    ∷ bytes "c2pa.redacted"
    ∷ []

abbrev pub is_allowed_action : Text → Bool
is_allowed_action action = any (λ a. bytes_eq a action) allowed_update_manifest_actions

abbrev pub disallowed_hash_redactions : List Text
disallowed_hash_redactions =
    bytes "c2pa.hash.data"
    ∷ bytes "c2pa.hash.boxes"
    ∷ bytes "c2pa.hash.bmff"
    ∷ bytes "c2pa.hash.collection.data"
    ∷ []

abbrev pub names_hash : Text → Bool
names_hash r = any (λ l. contains l r) disallowed_hash_redactions

abbrev pub thumbnails : Claim → List ClaimAssertion
thumbnails c = keep (λ ca. contains claim_thumbnail (label_raw ca)) c.assertion_store

unfoldable pub parent_count : (Assertion → Result Error Relationship) → Claim → ℕ
parent_count relationship_of c =
    length
      (keep (λ a. is_related parent_of (relationship_of a.assertion)) (ingredient_assertions c))

module _ (shown : Error → Text → Text) where
  unfoldable pub verify_signature : Claim → Verified → Check
  verify_signature c (certificate validated) =
      if not validated
      then fail shown (bytes "claimSignature.mismatch")
          (verify_internal_item (to_signature_uri (label_of c))
            (bytes "claim signature is not valid"))
          cose_signature []
      else succeed (bytes "claimSignature.insideValidity")
          (verify_internal_item (to_signature_uri (label_of c)) (bytes "claim signature valid"))
        >>> succeed (bytes "claimSignature.validated")
            (verify_internal_item (to_signature_uri (label_of c)) (bytes "claim signature valid"))
  verify_signature c (rejected e carried) =
      report shown (bytes "claimSignature.mismatch")
        (verify_internal_item (to_signature_uri (label_of c))
          (bytes "claim signature is not valid"))
        e carried

  abbrev pub verify_icon_hash : HashedUri → Option ClaimAssertion → Check
  verify_icon_hash icon (some ca) = when (not (bytes_eq ca.hash_val icon.hash)) (
      fail shown (bytes "assertion.hashedURI.mismatch")
        (log_item icon.url (bytes "hash does not match assertion data: " ++ icon.url)
          (bytes "verify_icons"))
        hash_mismatch (bytes "Assertion hash failure: " ++ icon.url))
  verify_icon_hash icon none =
      fail shown (bytes "assertion.missing")
        (log_item icon.url (bytes "could not resolve icon address") (bytes "verify_icons"))
        assertion_missing icon.url

  abbrev pub verify_icon : Claim → HashedUri → Check
  verify_icon c icon =
      let (l, n) = assertion_label_from_link icon.url in
      verify_icon_hash icon (get_claim_assertion c l n)

  unfoldable pub verify_icons : Claim → List HashedUri → Check
  verify_icons c icon_uris = for_each (verify_icon c) icon_uris

  abbrev pub verify_redaction : Claim → Text → Check
  verify_redaction c r =
      when (contains (label_of c) r) (
        fail shown (bytes "assertion.selfRedacted")
          (verify_internal_item r (bytes "claim contains self redaction")) claim_self_redact [])
      >>> when (contains (bytes "c2pa.actions") r) (
          fail shown (bytes "assertion.action.redacted")
            (verify_internal_item r (bytes "redaction of action assertions disallowed"))
            claim_disallowed_redaction [])
      >>> when (names_hash r) (
          fail shown (bytes "assertion.dataHash.redacted")
            (verify_internal_item r (bytes "redaction of disallowed hash assertion"))
            claim_disallowed_redaction [])

  unfoldable pub verify_redactions : Claim → Check
  verify_redactions c = for_each (verify_redaction c) (or_empty c.redacted_assertions)

  module _ (relationship_of : Assertion → Result Error Relationship)
      (actions_of : Assertion → Result Error Actions) where
    abbrev pub update_failure : Claim → Text → Text → Check
    update_failure c status description =
        fail shown status (verify_internal_item (uri c) description) update_manifest_invalid []

    abbrev pub verify_action : Claim → Action → Check
    verify_action c action = when (not (is_allowed_action action.action)) (
        update_failure c (bytes "manifest.update.invalid")
          (bytes "update manifests contains disallowed actions assertion"))

    abbrev pub verify_update_actions : Claim → Check
    verify_update_actions c =
        for_each
          (λ aa.
            with_result (actions_of aa.assertion)
              (λ found. for_each (verify_action c) found.actions))
          (action_assertions c)

    abbrev pub verify_one_parent : Claim → ℕ → Check
    verify_one_parent c zero =
        update_failure c (bytes "manifest.update.wrongParents")
          (bytes "update manifest must have ingredient with parentOf relationship")
    verify_one_parent c (suc zero) = done
    verify_one_parent c (suc (suc n)) =
        update_failure c (bytes "manifest.update.invalid")
          (bytes "update manifests can have one 1 ingredient ")

    unfoldable pub verify_parents : Claim → Check
    verify_parents c =
        if c.update_manifest
        then verify_update_actions c
          >>> when (ltb 1 (length (thumbnails c))) (
              update_failure c (bytes "manifest.update.invalid")
                (bytes "update manifests cannot contain thumbnail assertions"))
          >>> verify_one_parent c (parent_count relationship_of c)
        else when (ltb 1 (parent_count relationship_of c)) (
            fail shown (bytes "manifest.multipleParents")
              (log_item (uri c) (bytes "too many ingredient parentsf") (bytes "ingredient_checks"))
              claim_verification (bytes "ingredient has more than one parent"))
