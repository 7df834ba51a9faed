-- ===== src/Claim/Verify/Rules/Accepts.antt =====
-- What the rules on one action accept.
use c2pa_rs_html.Prelude.{
  ℕ, List, Text, bytes, bytes_eq, ◌||◌, Bool, true, false, not, ◌&&◌, Option, none, some, all,
  is_some, is_empty, ◌==◌, if◌then◌else◌,
}
use c2pa_rs_html.Result.{Result}
use c2pa_rs_html.Error.{Error, validation_rule}
use c2pa_rs_html.Jumbf.Labels.{manifest_label_from_uri}
use c2pa_rs_html.Claim.Assertion.{Assertion}
use c2pa_rs_html.Claim.Store.{HashedUri, Claim}
use c2pa_rs_html.Claim.Check.{Check, when, Meets}
use c2pa_rs_html.Claim.Check.Laws.{
  done-Meets, after-Meets, when-Meets, unless-Meets, with_result-Meets, result_is, fail-Meets,
  refuse-Meets,
}
use c2pa_rs_html.Claim.Verify.Decoded.{
  Relationship, parent_of, component_of, Ingredients, Parameters, Action,
}
use c2pa_rs_html.Claim.Verify.Head.Accepts.{icon_resolves, verify_icons-Meets}
use c2pa_rs_html.Claim.Verify.Links.{StoreValidationInfo}
use c2pa_rs_html.Claim.Verify.Rules.{
  is_opened, opens_or_creates, places_or_removes, uses_ingredient, converts, redacts, some_result,
  has_values, in_manifest, leads_to, with_parameters, with_list, with_ingredients, with_ingredient,
  unless_found, if_wrong, check_related, check_ingredients, check_source, check_redacted,
  check_redaction, check_action,
}

-- A condition that counts only if `c` holds.
abbrev pub implied : Bool → Bool → Bool
implied c b = if c then b else true

abbrev pub is_found : Option Bool → Bool
is_found none = false
is_found (some b) = b

abbrev pub is_not_wrong : Option Bool → Bool
is_not_wrong none = true
is_not_wrong (some b) = b

abbrev pub with_params : (Parameters → Bool) → Option Parameters → Bool
with_params p none = false
with_params p (some params) = p params

abbrev pub is_named : Text → Action → Bool
is_named name x = bytes_eq x.action name

abbrev pub starts_asset : Action → Bool
starts_asset x = is_named (bytes "c2pa.opened") x || is_named (bytes "c2pa.created") x

abbrev pub changes_parts : Action → Bool
changes_parts x = is_named (bytes "c2pa.placed") x || is_named (bytes "c2pa.removed") x

abbrev pub is_about_ingredient : Action → Bool
is_about_ingredient x = is_named (bytes "c2pa.opened") x || changes_parts x

abbrev pub changes_form : Action → Bool
changes_form x = is_named (bytes "c2pa.transcoded") x || is_named (bytes "c2pa.repackaged") x

module _ (relationship_of : Assertion → Result Error Relationship) where
  abbrev pub of_list : Claim → Relationship → (Option Bool → Bool) → Option (List HashedUri) → Bool
  of_list c r p none = false
  of_list c r p (some hs) =
      result_is (λ b. p (some b)) (some_result (leads_to relationship_of c r) hs)

  abbrev pub of_ingredients :
      Claim → Relationship → (Option Bool → Bool) → Option Ingredients → Bool
  of_ingredients c r p none = p none
  of_ingredients c r p (some v) = of_list c r p v.hashed_uris

  -- A condition on what the named ingredients are, `ingredient` before `ingredients`.
  abbrev pub of_ingredient :
      Claim → Relationship → (Option Bool → Bool) → Parameters → Option (Option HashedUri) → Bool
  of_ingredient c r p params none = of_ingredients c r p params.ingredients
  of_ingredient c r p params (some none) = false
  of_ingredient c r p params (some (some h)) =
      result_is (λ b. p (some b)) (leads_to relationship_of c r h)

  abbrev pub is_related_to : Claim → Relationship → Parameters → Bool
  is_related_to c r params = of_ingredient c r is_found params params.ingredient

  abbrev pub has_ingredients : Claim → Action → Parameters → Bool
  has_ingredients c x params =
      ((not (not (is_some params.ingredients) && not (is_some params.ingredient))
          && has_values params.ingredients)
        && implied (is_named (bytes "c2pa.opened") x) (is_related_to c parent_of params))
      && implied (changes_parts x) (is_related_to c component_of params)

  abbrev pub has_source : Claim → Parameters → Bool
  has_source c params = of_ingredient c parent_of is_not_wrong params params.ingredient

  abbrev pub is_redacted_uri : StoreValidationInfo → Option Text → Bool
  is_redacted_uri svi none = false
  is_redacted_uri svi (some uri) =
      result_is (λ b. b) (in_manifest svi uri (manifest_label_from_uri uri))

  abbrev pub may_be_redacted : StoreValidationInfo → Option (Option Text) → Bool
  may_be_redacted svi none = true
  may_be_redacted svi (some v) = is_redacted_uri svi v

  abbrev pub has_redacted : StoreValidationInfo → Option Parameters → Bool
  has_redacted svi none = true
  has_redacted svi (some params) = may_be_redacted svi params.redacted

  -- The conditions on an action.
  abbrev pub follows_rules : Claim → StoreValidationInfo → Bool → ℕ → Action → Bool
  follows_rules c svi other index x =
      (((((not (is_empty x.action) && not (other && starts_asset x))
              && not (not (index == 0) && starts_asset x))
            && implied (is_about_ingredient x) (with_params (has_ingredients c x) x.parameters))
          && implied (changes_form x) (with_params (has_source c) x.parameters))
        && implied (is_named (bytes "c2pa.redacted") x) (has_redacted svi x.parameters))
      && all (icon_resolves c) x.agent_icons

  module _ (shown : Error → Text → Text) where
    pub implied-Meets :
        (c : Bool) (m : Check) (b : Bool) → Meets m b → Meets (when c m) (implied c b)
    implied-Meets true m b h = h
    implied-Meets false m b h = done-Meets

    parameters-Meets :
        (l : Text) (o : Option Parameters) (rest : Parameters → Check) (p : Parameters → Bool)
        → ((params : Parameters) → Meets (rest params) (p params))
        → Meets (with_parameters relationship_of shown l o rest) (with_params p o)
    parameters-Meets l none rest p h = refuse-Meets shown _ _ validation_rule _
    parameters-Meets l (some params) rest p h = h params

    module _ (c : Claim) (r : Relationship) (l : Text) (rest : Option Bool → Check)
        (p : Option Bool → Bool) (h : (o : Option Bool) → Meets (rest o) (p o)) where
      list-Meets :
          (o : Option (List HashedUri))
          → Meets (with_list relationship_of shown c r l o rest) (of_list c r p o)
      list-Meets none = refuse-Meets shown _ _ validation_rule _
      list-Meets (some hs) =
          with_result-Meets (some_result (leads_to relationship_of c r) hs) _ _ (λ b. h (some b))

      ingredients-Meets :
          (o : Option Ingredients)
          → Meets (with_ingredients relationship_of shown c r l o rest) (of_ingredients c r p o)
      ingredients-Meets none = h none
      ingredients-Meets (some v) = list-Meets v.hashed_uris

      ingredient-Meets :
          (params : Parameters) (o : Option (Option HashedUri))
          → Meets
              (with_ingredient relationship_of shown c r l params rest o)
              (of_ingredient c r p params o)
      ingredient-Meets params none = ingredients-Meets params.ingredients
      ingredient-Meets params (some none) = refuse-Meets shown _ _ validation_rule _
      ingredient-Meets params (some (some u)) =
          with_result-Meets (leads_to relationship_of c r u) _ _ (λ b. h (some b))

    found-Meets :
        (l description : Text) (o : Option Bool)
        → Meets (unless_found relationship_of shown l description o) (is_found o)
    found-Meets l description (some true) = done-Meets
    found-Meets l description (some false) = fail-Meets shown _ _ validation_rule description
    found-Meets l description none = fail-Meets shown _ _ validation_rule description

    wrong-Meets :
        (l : Text) (o : Option Bool) → Meets (if_wrong relationship_of shown l o) (is_not_wrong o)
    wrong-Meets l (some true) = done-Meets
    wrong-Meets l (some false) = fail-Meets shown _ _ validation_rule _
    wrong-Meets l none = done-Meets

    related-Meets :
        (c : Claim) (l : Text) (r : Relationship) (description : Text) (params : Parameters)
        → Meets
            (check_related relationship_of shown c l r description params)
            (is_related_to c r params)
    related-Meets c l r description params =
        ingredient-Meets c r l (unless_found relationship_of shown l description) is_found
          (found-Meets l description) params params.ingredient

    check_ingredients-Meets :
        (c : Claim) (l : Text) (x : Action) (params : Parameters)
        → Meets (check_ingredients relationship_of shown c l x params) (has_ingredients c x params)
    unfolding check_ingredients
    check_ingredients-Meets c l x params =
        after-Meets _ _ _ _
          (after-Meets _ _ _ _
            (after-Meets _ _ _ _
              (when-Meets (not (is_some params.ingredients) && not (is_some params.ingredient)) _
                (fail-Meets shown _ _ validation_rule _))
              (unless-Meets (has_values params.ingredients) _
                (fail-Meets shown _ _ validation_rule _)))
            (implied-Meets (is_opened x) _ _ (related-Meets c l parent_of _ params)))
          (implied-Meets (places_or_removes x) _ _ (related-Meets c l component_of _ params))

    check_source-Meets :
        (c : Claim) (l : Text) (params : Parameters)
        → Meets (check_source relationship_of shown c l params) (has_source c params)
    unfolding check_source
    check_source-Meets c l params =
        ingredient-Meets c parent_of l (if_wrong relationship_of shown l) is_not_wrong
          (wrong-Meets l) params params.ingredient

    redaction-Meets :
        (svi : StoreValidationInfo) (l : Text) (o : Option Parameters)
        → Meets (check_redaction relationship_of shown svi l o) (has_redacted svi o)
    redaction-Meets svi l none = done-Meets
    redaction-Meets svi l (some params) = of_parameter params.redacted
      where
        of_parameter :
            (o : Option (Option Text))
            → Meets (check_redacted relationship_of shown svi l o) (may_be_redacted svi o)
        of_parameter none = done-Meets
        of_parameter (some none) = refuse-Meets shown _ _ validation_rule _
        of_parameter (some (some uri)) =
            with_result-Meets (in_manifest svi uri (manifest_label_from_uri uri)) _ _
              (λ b. unless-Meets b _ (fail-Meets shown _ _ validation_rule _))

    pub check_action-Meets :
        (c : Claim) (svi : StoreValidationInfo) (other : Bool) (index : ℕ) (l : Text) (x : Action)
        → Meets
            (check_action relationship_of shown c svi other index l x)
            (follows_rules c svi other index x)
    unfolding check_action
    check_action-Meets c svi other index l x =
        after-Meets _ _ _ _
          (after-Meets _ _ _ _
            (after-Meets _ _ _ _
              (after-Meets _ _ _ _
                (after-Meets _ _ _ _
                  (after-Meets _ _ _ _
                    (when-Meets (is_empty x.action) _ (fail-Meets shown _ _ validation_rule _))
                    (when-Meets (other && opens_or_creates x) _
                      (fail-Meets shown _ _ validation_rule _)))
                  (when-Meets (not (index == 0) && opens_or_creates x) _
                    (fail-Meets shown _ _ validation_rule _)))
                (implied-Meets (uses_ingredient x) _ _
                  (parameters-Meets l x.parameters _ _ (check_ingredients-Meets c l x))))
              (implied-Meets (converts x) _ _
                (parameters-Meets l x.parameters _ _ (check_source-Meets c l))))
            (implied-Meets (redacts x) _ _ (redaction-Meets svi l x.parameters)))
          (verify_icons-Meets shown c x.agent_icons)
