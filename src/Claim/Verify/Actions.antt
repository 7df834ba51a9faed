-- ===== src/Claim/Verify/Actions.antt =====
-- `Claim::verify_actions` (sdk/src/claim.rs). What serde makes of an assertion is a parameter, and so is
-- the setting verify.strict_v1_validation (`none` if it cannot be read).
pub mod First
pub mod Accepts
use c2pa_rs_html.Prelude.{
  ℕ, suc, List, [], ◌∷◌, Text, bytes, Bool, true, false, not, ◌&&◌, Option, none, some, keep, find,
  length, is_some, is_empty, ltb, ◌==◌, if◌then◌else◌, bytes_eq,
}
use c2pa_rs_html.Result.{Result, ok, err, panic, stuck, ◌>>=◌}
use c2pa_rs_html.Error.{Error, validation_rule}
use c2pa_rs_html.Jumbf.Labels.{to_assertion_uri}
use c2pa_rs_html.Claim.Assertion.{Assertion, AssertionData, json, binary, cbor, uuid}
use c2pa_rs_html.Claim.Store.{
  ClaimAssertionType, v1, gathered, created, ClaimAssertion, label, Claim, label_of,
}
use c2pa_rs_html.Claim.Check.{Check, ◌>>>◌, done, throw, when, with_result, for_each}
use c2pa_rs_html.Claim.Verify.Decoded.{Relationship, Action, Actions}
use c2pa_rs_html.Claim.Verify.Head.{action_assertions, verify_icons}
use c2pa_rs_html.Claim.Verify.Links.{StoreValidationInfo}
use c2pa_rs_html.Claim.Verify.Rules.{
  opens_or_creates, malformed, break_rule, break_rule_as, check_action,
}

abbrev pub same_type : ClaimAssertionType → ClaimAssertionType → Bool
same_type v1 v1 = true
same_type gathered gathered = true
same_type created created = true
same_type s t = false

abbrev pub same_salt : Option (List ℕ) → Option (List ℕ) → Bool
same_salt none none = true
same_salt (some s) (some t) = bytes_eq s t
same_salt s t = false

abbrev pub same_version : Option ℕ → Option ℕ → Bool
same_version none none = true
same_version (some v) (some w) = v == w
same_version v w = false

abbrev pub same_data : AssertionData → AssertionData → Bool
same_data (json x) (json y) = bytes_eq x y
same_data (binary x) (binary y) = bytes_eq x y
same_data (cbor x) (cbor y) = bytes_eq x y
same_data (uuid u x) (uuid v y) = bytes_eq u v && bytes_eq x y
same_data a b = false

-- `impl PartialEq for Assertion`, which is derived.
abbrev pub same_content : Assertion → Assertion → Bool
same_content a b =
    bytes_eq a.given_label b.given_label
    && (same_version a.schema_version b.schema_version
        && (same_data a.content b.content && bytes_eq a.content_type b.content_type))

-- `impl PartialEq for ClaimAssertion`, which is derived.
abbrev pub same_assertion : ClaimAssertion → ClaimAssertion → Bool
same_assertion a b =
    same_content a.assertion b.assertion
    && (a.number == b.number
        && (bytes_eq a.hash_val b.hash_val
            && (bytes_eq a.hash_alg b.hash_alg
                && (same_salt a.salt b.salt && same_type a.typ b.typ))))

abbrev pub with_type : ClaimAssertionType → List ClaimAssertion → List ClaimAssertion
with_type t cas = keep (λ x. same_type x.typ t) cas

unfoldable pub created_action_assertions : Claim → List ClaimAssertion
created_action_assertions c = with_type created (action_assertions c)

unfoldable pub gathered_action_assertions : Claim → List ClaimAssertion
gathered_action_assertions c = with_type gathered (action_assertions c)

-- `actions()[0]`.
abbrev pub first_of : List Action → Result Error Action
first_of [] = panic
first_of (x ∷ xs) = ok x

abbrev pub is_other : Option ClaimAssertion → ClaimAssertion → Bool
is_other none a = false
is_other (some first) a = not (same_assertion first a)

abbrev pub skips : Option Bool → Bool
skips (some false) = true
skips (some true) = false
skips none = false

module _ (actions_of : Assertion → Result Error Actions) where
  abbrev pub has_no_actions : Result Error Actions → Bool
  has_no_actions (ok found) = is_empty found.actions
  has_no_actions (err e) = false
  has_no_actions panic = false
  has_no_actions stuck = false

  -- The first of some assertions, if its first action opens or creates the asset.
  abbrev pub opening : List ClaimAssertion → Result Error (Option ClaimAssertion)
  opening [] = ok none
  opening (a ∷ rest) = actions_of a.assertion >>= λ found.
      first_of found.actions >>= λ x. ok (if opens_or_creates x then some a else none)

  abbrev pub or_opening :
      Option ClaimAssertion → List ClaimAssertion → Result Error (Option ClaimAssertion)
  or_opening none cas = opening cas
  or_opening (some a) cas = ok (some a)

  unfoldable pub first_actions_assertion : Claim → Result Error (Option ClaimAssertion)
  first_actions_assertion c =
      if ltb 1 c.claim_version
      then (opening (created_action_assertions c) >>= λ found.
          or_opening found (gathered_action_assertions c))
      else opening (action_assertions c)

  module _ (relationship_of : Assertion → Result Error Relationship)
      (shown : Error → Text → Text) where
    -- The checks of one assertion, the one with the number `index`.
    unfoldable pub check_actions :
        Claim → StoreValidationInfo → Option ClaimAssertion → ℕ → ClaimAssertion → Check
    check_actions c svi first index a =
        let l = to_assertion_uri (label_of c) (label a) in
        with_result (actions_of a.assertion) (λ found.
          when (is_empty found.actions)
            (break_rule relationship_of shown malformed l (bytes "actions must have action array"))
          >>> verify_icons shown c found.icons
          >>> for_each (check_action relationship_of shown c svi (is_other first a) index l)
              found.actions)

    abbrev pub check_actions_from :
        Claim → StoreValidationInfo → Option ClaimAssertion → ℕ → List ClaimAssertion → Check
    check_actions_from c svi first index [] = done
    check_actions_from c svi first index (a ∷ rest) =
        check_actions c svi first index a >>> check_actions_from c svi first (suc index) rest

    abbrev pub refuse_empty : Claim → Option ClaimAssertion → Check
    refuse_empty c none = done
    refuse_empty c (some bad_assertion) =
        break_rule_as relationship_of shown malformed
          (to_assertion_uri (label_of c) (label bad_assertion))
          (bytes "Actions missing action array") (bytes "No Action array in Actions")
        >>> throw validation_rule

    -- The checks from rule 2.a on.
    abbrev pub check_from_first : Claim → StoreValidationInfo → Option ClaimAssertion → Check
    check_from_first c svi first =
        when (not (is_some first) && not c.update_manifest) (
          break_rule relationship_of shown malformed (label_of c)
            (bytes "first action must be created or opened"))
        >>> check_actions_from c svi first 0 (action_assertions c)

    unfoldable pub verify_actions : Option Bool → Claim → StoreValidationInfo → Check
    verify_actions strict c svi =
        when (ltb c.claim_version 2 && ltb 1 (length (action_assertions c))) (
          break_rule_as relationship_of shown malformed (label_of c)
            (bytes "only one action assertion allowed for v1 claims")
            (bytes "No Action array in Actions"))
        >>> refuse_empty c
            (find (λ a. has_no_actions (actions_of a.assertion)) (action_assertions c))
        >>> with_result (first_actions_assertion c) (λ first.
          when (not (c.claim_version == 1 && skips strict)) (check_from_first c svi first))
