-- ===== src/Claim/Verify/Rules/Panics.antt =====
-- A URI in an action that makes the verification of the actions panic.
use c2pa_rs_html.Prelude.{◌≡◌, refl, List, [], ◌∷◌, Text, bytes, false, none, some}
use c2pa_rs_html.Result.{Result, ok, panic}
use c2pa_rs_html.Error.{Error}
use c2pa_rs_html.Status.Tracker.{StatusTracker}
use c2pa_rs_html.Jumbf.Labels.{assertions, to_normalized_uri}
use c2pa_rs_html.Jumbf.Labels.Uris.{assertion_label_from_uri_panics}
use c2pa_rs_html.Claim.Assertion.{Assertion}
use c2pa_rs_html.Claim.Store.{ClaimAssertion, HashedUri, Claim}
use c2pa_rs_html.Claim.Verify.Decoded.{Relationship, parent_of, Action}
use c2pa_rs_html.Claim.Verify.Head.{ingredient_assertions}
use c2pa_rs_html.Claim.Verify.Links.{StoreValidationInfo}
use c2pa_rs_html.Claim.Verify.Rules.{leads_to, check_ingredients, check_action}

-- The action `c2pa.opened` with one ingredient.
abbrev pub opened_with : HashedUri → Action
opened_with h = record {
  action = bytes "c2pa.opened";
  parameters = some (record { ingredient = some (some h); ingredients = none; redacted = none });
  agent_icons = [];
}

module _ (relationship_of : Assertion → Result Error Relationship) where
  leads_to_panics :
      (c : Claim) (r s : Relationship) (h : HashedUri) (i : ClaimAssertion)
      (rest : List ClaimAssertion)
      → ingredient_assertions c ≡ i ∷ rest
      → relationship_of i.assertion ≡ ok s
      → to_normalized_uri h.url ≡ assertions
      → leads_to relationship_of c r h ≡ panic
  unfolding leads_to
  leads_to_panics c r s h i rest first decoded e =
      let panics = (assertion_label_from_uri_panics {E = Error} h.url).1 e in
      rw (first, decoded, panics) refl

  -- The check of the first action panics if it opens an ingredient whose URI is `c2pa.assertions` when normalized, as
  -- soon as the first ingredient assertion of the claim can be decoded.
  pub check_action_panics :
      (shown : Error → Text → Text) (c : Claim) (svi : StoreValidationInfo) (l : Text)
      (s : Relationship) (h : HashedUri) (i : ClaimAssertion) (rest : List ClaimAssertion)
      (t : StatusTracker)
      → ingredient_assertions c ≡ i ∷ rest
      → relationship_of i.assertion ≡ ok s
      → to_normalized_uri h.url ≡ assertions
      → check_action relationship_of shown c svi false 0 l (opened_with h) t ≡ (t, panic)
  unfolding check_action check_ingredients
  check_action_panics shown c svi l s h i rest t first decoded e =
      rw (leads_to_panics c parent_of s h i rest first decoded e) refl
