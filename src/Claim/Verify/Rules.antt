-- ===== src/Claim/Verify/Rules.antt =====
-- The rules on one action in `Claim::verify_actions` (sdk/src/claim.rs). What serde makes of an
-- ingredient is a parameter.
pub mod Accepts
pub mod Panics
use c2pa_rs_html.Prelude.{
  ℕ, List, [], ◌∷◌, Text, bytes, Bool, true, false, not, ◌&&◌, ◌||◌, Option, none, some, is_some,
  is_empty, ◌==◌, if◌then◌else◌, bytes_eq,
}
use c2pa_rs_html.Result.{Result, ok, err, panic, stuck, ◌>>=◌}
use c2pa_rs_html.Error.{Error, validation_rule}
use c2pa_rs_html.Status.LogItem.{LogItem}
use c2pa_rs_html.Jumbf.Labels.{manifest_label_from_uri, assertion_label_from_uri}
use c2pa_rs_html.Claim.Assertion.{Assertion}
use c2pa_rs_html.Claim.Labels.{assertion_label_from_link}
use c2pa_rs_html.Claim.Store.{ClaimAssertion, label, HashedUri, Claim, get_claim_assertion}
use c2pa_rs_html.Claim.Check.{Check, ◌>>>◌, done, when, with_result, log_item, fail, refuse}
use c2pa_rs_html.Claim.Verify.Decoded.{
  Relationship, parent_of, component_of, same_relationship, Ingredients, Parameters, Action,
}
use c2pa_rs_html.Claim.Verify.Head.{ingredient_assertions, verify_icons}
use c2pa_rs_html.Claim.Verify.Links.{StoreValidationInfo}

abbrev pub is_action : Text → Action → Bool
is_action name x = bytes_eq x.action name

abbrev pub is_opened : Action → Bool
is_opened x = is_action (bytes "c2pa.opened") x

abbrev pub opens_or_creates : Action → Bool
opens_or_creates x = is_opened x || is_action (bytes "c2pa.created") x

abbrev pub places_or_removes : Action → Bool
places_or_removes x = is_action (bytes "c2pa.placed") x || is_action (bytes "c2pa.removed") x

abbrev pub uses_ingredient : Action → Bool
uses_ingredient x = is_opened x || places_or_removes x

abbrev pub converts : Action → Bool
converts x = is_action (bytes "c2pa.transcoded") x || is_action (bytes "c2pa.repackaged") x

abbrev pub redacts : Action → Bool
redacts x = is_action (bytes "c2pa.redacted") x

-- `Iterator::any` of a test that may panic.
abbrev pub any_result {ℓ} : {A : Type ℓ} → (A → Result Error Bool) → List A → Result Error Bool
any_result f [] = ok false
any_result f (x ∷ xs) = f x >>= λ b. if b then ok true else any_result f xs

-- The same for a loop that goes on after a hit.
abbrev pub some_result {ℓ} : {A : Type ℓ} → (A → Result Error Bool) → List A → Result Error Bool
some_result f [] = ok false
some_result f (x ∷ xs) = f x >>= λ b. some_result f xs >>= λ r. ok (b || r)

abbrev pub label_is : Text → Option Text → Bool
label_is l none = false
label_is l (some target_label) = bytes_eq target_label l

-- Of an ingredient assertion and a URI, with the ingredient that is decoded.
abbrev pub is_target :
    Relationship → Text → ClaimAssertion → Result Error Relationship → Result Error Bool
is_target r url i (ok relationship) = assertion_label_from_uri url >>= λ target_label.
    ok (label_is (label i) target_label && same_relationship relationship r)
is_target r url i (err e) = ok false
is_target r url i panic = ok false
is_target r url i stuck = ok false

-- The check of an action logs under its assertion's URI.
abbrev pub rule_item : Text → Text → LogItem
rule_item l description = log_item l description (bytes "verify_actions")

abbrev pub malformed : Text
malformed = bytes "assertion.action.malformed"

abbrev pub ingredient_mismatch : Text
ingredient_mismatch = bytes "assertion.action.ingredientMismatch"

abbrev pub redaction_mismatch : Text
redaction_mismatch = bytes "assertion.action.redactionMismatch"

abbrev pub has_values : Option Ingredients → Bool
has_values none = true
has_values (some v) = v.non_empty_array

-- Whether a redacted assertion is there, in the claim that the URI names.
abbrev pub in_claim : Option Claim → Text → Result Error Bool
in_claim none redacted_uri = ok false
in_claim (some ingredient) redacted_uri = assertion_label_from_uri redacted_uri >>= λ o.
    ok (elim o [
      | none ↦ false
      | some redaction_label ↦
          (let (l, n) = assertion_label_from_link redaction_label in
            is_some (get_claim_assertion ingredient l n))
    ])

abbrev pub in_manifest : StoreValidationInfo → Text → Option Text → Result Error Bool
in_manifest svi redacted_uri none = ok false
in_manifest svi redacted_uri (some ingredient_label) =
    in_claim (svi.manifest_map ingredient_label) redacted_uri

module _ (relationship_of : Assertion → Result Error Relationship) where
  unfoldable pub leads_to : Claim → Relationship → HashedUri → Result Error Bool
  leads_to c r h =
      any_result (λ i. is_target r h.url i (relationship_of i.assertion)) (ingredient_assertions c)

  module _ (shown : Error → Text → Text) where
    abbrev pub break_rule : Text → Text → Text → Check
    break_rule status l description =
        fail shown status (rule_item l description) validation_rule description

    abbrev pub break_rule_as : Text → Text → Text → Text → Check
    break_rule_as status l description carried =
        fail shown status (rule_item l description) validation_rule carried

    abbrev pub refuse_rule : Text → Text → Text → Check
    refuse_rule status l description =
        refuse shown status (rule_item l description) validation_rule description

    -- The rest with the parameters.
    abbrev pub with_parameters : Text → Option Parameters → (Parameters → Check) → Check
    with_parameters l none rest =
        refuse_rule ingredient_mismatch l
          (bytes "opened, placed and removed items must have parameters")
    with_parameters l (some params) rest = rest params

    abbrev pub with_list :
        Claim → Relationship → Text → Option (List HashedUri) → (Option Bool → Check) → Check
    with_list c r l none rest =
        refuse_rule ingredient_mismatch l (bytes "could not parse action ingredients parameter")
    with_list c r l (some hs) rest =
        with_result (some_result (leads_to c r) hs) (λ b. rest (some b))

    abbrev pub with_ingredients :
        Claim → Relationship → Text → Option Ingredients → (Option Bool → Check) → Check
    with_ingredients c r l none rest = rest none
    with_ingredients c r l (some v) rest = with_list c r l v.hashed_uris rest

    -- The rest with whether an ingredient of the parameters has the relationship; `none` if they name no ingredient.
    abbrev pub with_ingredient :
        Claim
        → Relationship
        → Text
        → Parameters
        → (Option Bool → Check)
        → Option (Option HashedUri)
        → Check
    with_ingredient c r l params rest none = with_ingredients c r l params.ingredients rest
    with_ingredient c r l params rest (some none) =
        refuse_rule ingredient_mismatch l (bytes "could not parse action ingredient parameter")
    with_ingredient c r l params rest (some (some h)) =
        with_result (leads_to c r h) (λ b. rest (some b))

    abbrev pub unless_found : Text → Text → Option Bool → Check
    unless_found l description (some true) = done
    unless_found l description (some false) = break_rule ingredient_mismatch l description
    unless_found l description none = break_rule ingredient_mismatch l description

    abbrev pub if_wrong : Text → Option Bool → Check
    if_wrong l (some false) =
        break_rule ingredient_mismatch l
          (bytes "action must have valid ingredient with ParentOf relationship")
    if_wrong l (some true) = done
    if_wrong l none = done

    abbrev pub check_related : Claim → Text → Relationship → Text → Parameters → Check
    check_related c l r description params =
        with_ingredient c r l params (unless_found l description) params.ingredient

    -- The rules 2.b, on opened, placed and removed.
    unfoldable pub check_ingredients : Claim → Text → Action → Parameters → Check
    check_ingredients c l x params =
        when (not (is_some params.ingredients) && not (is_some params.ingredient)) (
          break_rule ingredient_mismatch l
            (bytes "opened, placed and removed items must have ingredient(s) parameters"))
        >>> when (not (has_values params.ingredients)) (
            break_rule ingredient_mismatch l (
              bytes
                "opened, placed and removed items must have ingredients parameter must be non empty array"))
        >>> when (is_opened x) (
            check_related c l parent_of
              (bytes "opened must have valid ingredient with ParentOf relationship") params)
        >>> when (places_or_removes x) (
            check_related c l component_of
              (bytes "action must have valid ingredient with ComponentOf relationship") params)

    -- The rule 2.c, on transcoded and repackaged.
    unfoldable pub check_source : Claim → Text → Parameters → Check
    check_source c l params = with_ingredient c parent_of l params (if_wrong l) params.ingredient

    abbrev pub check_redacted_uri : StoreValidationInfo → Text → Option Text → Check
    check_redacted_uri svi l none =
        refuse_rule malformed l (bytes "could not parse action redacted parameter")
    check_redacted_uri svi l (some redacted_uri) =
        with_result (in_manifest svi redacted_uri (manifest_label_from_uri redacted_uri)) (λ b.
          when (not b)
            (break_rule redaction_mismatch l (bytes "action must have valid ingredient")))

    abbrev pub check_redacted : StoreValidationInfo → Text → Option (Option Text) → Check
    check_redacted svi l none = done
    check_redacted svi l (some v) = check_redacted_uri svi l v

    -- The rule 2.d, on redacted.
    abbrev pub check_redaction : StoreValidationInfo → Text → Option Parameters → Check
    check_redaction svi l none = done
    check_redaction svi l (some params) = check_redacted svi l params.redacted

    -- Everything on one action; `others` says whether its assertion is not that of the first action, `index` which
    -- of the action assertions it is.
    unfoldable pub check_action : Claim → StoreValidationInfo → Bool → ℕ → Text → Action → Check
    check_action c svi other index l x =
        when (is_empty x.action) (
          break_rule_as malformed l (bytes "action must have an action.")
            (bytes "action must have an action"))
        >>> when (other && opens_or_creates x)
            (break_rule malformed l (bytes "only first action can be created or opened"))
        >>> when (not (index == 0) && opens_or_creates x)
            (break_rule malformed l (bytes "created or opened must be first action"))
        >>> when (uses_ingredient x) (with_parameters l x.parameters (check_ingredients c l x))
        >>> when (converts x) (with_parameters l x.parameters (check_source c l))
        >>> when (redacts x) (check_redaction svi l x.parameters)
        >>> verify_icons shown c x.agent_icons
