-- ===== src/Claim/Verify/Actions/Accepts.antt =====
-- What the check of the actions accepts.
use mathlib.Core.Path.{subst}
use c2pa_rs_html.Prelude.{
  ◌≡◌, refl, ap, any, Bool-cases, inl, inr, ℕ, suc, List, [], ◌∷◌, Text, Bool, true, false, not,
  ◌&&◌, Option, none, some, all, find, length, is_some, is_empty, ltb, ◌==◌,
}
use c2pa_rs_html.Result.{Result, ok, err, panic, stuck}
use c2pa_rs_html.Error.{Error, validation_rule}
use c2pa_rs_html.Jumbf.Labels.{to_assertion_uri}
use c2pa_rs_html.Claim.Assertion.{Assertion}
use c2pa_rs_html.Claim.Store.{ClaimAssertion, label, Claim, label_of}
use c2pa_rs_html.Claim.Check.{throw, when, with_result, Meets}
use c2pa_rs_html.Claim.Check.Laws.{
  done-Meets, throw-Meets, after-Meets, when-Meets, for_each-Meets, with_result-Meets, result_is,
  fail-Meets,
}
use c2pa_rs_html.Claim.Verify.Decoded.{Relationship, Actions}
use c2pa_rs_html.Claim.Verify.Head.{action_assertions}
use c2pa_rs_html.Claim.Verify.Head.Accepts.{icon_resolves, verify_icons-Meets}
use c2pa_rs_html.Claim.Verify.Links.{StoreValidationInfo}
use c2pa_rs_html.Claim.Verify.Rules.{check_action}
use c2pa_rs_html.Claim.Verify.Rules.Accepts.{
  implied, follows_rules, implied-Meets, check_action-Meets,
}
use c2pa_rs_html.Claim.Verify.Actions.First.{
  candidates, holds_of_first, first_actions_assertion_lem,
}
use c2pa_rs_html.Claim.Verify.Actions.{
  is_other, skips, has_no_actions, first_actions_assertion, check_actions, check_actions_from,
  refuse_empty, check_from_first, verify_actions,
}

module _ (actions_of : Assertion → Result Error Actions)
    (relationship_of : Assertion → Result Error Relationship) where
  abbrev pub follow_rules :
      Claim → StoreValidationInfo → Option ClaimAssertion → ℕ → ClaimAssertion → Bool
  follow_rules c svi first index a =
      result_is
        (λ found.
          (not (is_empty found.actions) && all (icon_resolves c) found.icons)
          && all (follows_rules relationship_of c svi (is_other first a) index) found.actions)
        (actions_of a.assertion)

  abbrev pub all_follow_rules :
      Claim → StoreValidationInfo → Option ClaimAssertion → ℕ → List ClaimAssertion → Bool
  all_follow_rules c svi first index [] = true
  all_follow_rules c svi first index (a ∷ rest) =
      follow_rules c svi first index a && all_follow_rules c svi first (suc index) rest

  abbrev pub hold_from_first : Claim → StoreValidationInfo → Option ClaimAssertion → Bool
  hold_from_first c svi first =
      not (not (is_some first) && not c.update_manifest)
      && all_follow_rules c svi first 0 (action_assertions c)

  abbrev pub is_without_actions : ClaimAssertion → Bool
  is_without_actions a = result_is (λ found. is_empty found.actions) (actions_of a.assertion)

  without_lem :
      (cas : List ClaimAssertion)
      → is_some (find (λ a. has_no_actions actions_of (actions_of a.assertion)) cas)
        ≡ any is_without_actions cas
  without_lem [] = refl
  without_lem (a ∷ cas) = by_result (actions_of a.assertion) refl (without_lem cas)
    where
      by_result :
          (r : Result Error Actions)
          → actions_of a.assertion ≡ r
          → is_some (find (λ x. has_no_actions actions_of (actions_of x.assertion)) cas)
            ≡ any is_without_actions cas
          → is_some (find (λ x. has_no_actions actions_of (actions_of x.assertion)) (a ∷ cas))
            ≡ any is_without_actions (a ∷ cas)
      by_result (ok found) e rest = elim (Bool-cases (is_empty found.actions)) [
        | inl without ↦ rw (e, without) refl
        | inr some_action ↦ rw (e, some_action) rest
      ]
      by_result (err x) e rest = rw e rest
      by_result panic e rest = rw e rest
      by_result stuck e rest = rw e rest

  -- One assertion on actions at most for a claim of version 1, and none without an action. The
  -- candidates for the opening action can be read; unless it is skipped for version 1, one of them
  -- opens or creates the asset or the claim is an update manifest, and all actions follow the rules.
  abbrev pub actions_hold : Option Bool → Claim → StoreValidationInfo → Bool
  actions_hold strict c svi =
      (not (ltb c.claim_version 2 && ltb 1 (length (action_assertions c)))
        && not (any is_without_actions (action_assertions c)))
      && holds_of_first actions_of
          (λ first.
            implied (not (c.claim_version == 1 && skips strict)) (hold_from_first c svi first))
          (candidates actions_of c)

  module _ (shown : Error → Text → Text) where
    actions-Meets :
        (c : Claim) (svi : StoreValidationInfo) (first : Option ClaimAssertion) (index : ℕ)
        (a : ClaimAssertion)
        → Meets
            (check_actions actions_of relationship_of shown c svi first index a)
            (follow_rules c svi first index a)
    unfolding check_actions
    actions-Meets c svi first index a =
        let l = to_assertion_uri (label_of c) (label a) in
        with_result-Meets (actions_of a.assertion) _ _ (λ found.
          after-Meets _ _ _ _
            (after-Meets _ _ _ _
              (when-Meets (is_empty found.actions) _ (fail-Meets shown _ _ validation_rule _))
              (verify_icons-Meets shown c found.icons))
            (for_each-Meets (check_action relationship_of shown c svi (is_other first a) index l)
              (follows_rules relationship_of c svi (is_other first a) index) found.actions
              (check_action-Meets relationship_of shown c svi (is_other first a) index l)))

    actions_from-Meets :
        (c : Claim) (svi : StoreValidationInfo) (first : Option ClaimAssertion) (index : ℕ)
        (cas : List ClaimAssertion)
        → Meets
            (check_actions_from actions_of relationship_of shown c svi first index cas)
            (all_follow_rules c svi first index cas)
    actions_from-Meets c svi first index [] = done-Meets
    actions_from-Meets c svi first index (a ∷ rest) =
        after-Meets _ _ _ _ (actions-Meets c svi first index a)
          (actions_from-Meets c svi first (suc index) rest)

    empty-Meets :
        (c : Claim) (o : Option ClaimAssertion)
        → Meets (refuse_empty actions_of relationship_of shown c o) (not (is_some o))
    empty-Meets c none = done-Meets
    empty-Meets c (some bad) =
        after-Meets _ (throw validation_rule) false false (fail-Meets shown _ _ validation_rule _)
          (throw-Meets validation_rule)

    first-Meets :
        (c : Claim) (svi : StoreValidationInfo) (first : Option ClaimAssertion)
        → Meets
            (check_from_first actions_of relationship_of shown c svi first)
            (hold_from_first c svi first)
    first-Meets c svi first =
        after-Meets _ _ _ _
          (when-Meets (not (is_some first) && not c.update_manifest) _
            (fail-Meets shown _ _ validation_rule _))
          (actions_from-Meets c svi first 0 (action_assertions c))

    none_without-Meets :
        (c : Claim)
        → Meets
            (refuse_empty actions_of relationship_of shown c (
              find (λ a. has_no_actions actions_of (actions_of a.assertion)) (action_assertions c)))
            (not (any is_without_actions (action_assertions c)))
    none_without-Meets c = subst (Meets _) (ap not (without_lem (action_assertions c))) (
        empty-Meets c
          (find (λ a. has_no_actions actions_of (actions_of a.assertion)) (action_assertions c)))

    from_first-Meets :
        (strict : Option Bool) (c : Claim) (svi : StoreValidationInfo)
        → Meets
            (with_result (first_actions_assertion actions_of c) (λ first.
              when
                (not (c.claim_version == 1 && skips strict))
                (check_from_first actions_of relationship_of shown c svi first)))
            (holds_of_first actions_of
              (λ first.
                implied (not (c.claim_version == 1 && skips strict)) (hold_from_first c svi first))
              (candidates actions_of c))
    from_first-Meets strict c svi = subst (Meets _) (first_actions_assertion_lem actions_of _ c) (
        with_result-Meets (first_actions_assertion actions_of c) _ _ (λ first.
          implied-Meets relationship_of shown (not (c.claim_version == 1 && skips strict)) _ _
            (first-Meets c svi first)))

    pub verify_actions-Meets :
        (strict : Option Bool) (c : Claim) (svi : StoreValidationInfo)
        → Meets
            (verify_actions actions_of relationship_of shown strict c svi)
            (actions_hold strict c svi)
    unfolding verify_actions
    verify_actions-Meets strict c svi =
        after-Meets _ _ _ _
          (after-Meets _ _ _ _
            (when-Meets (ltb c.claim_version 2 && ltb 1 (length (action_assertions c))) _
              (fail-Meets shown _ _ validation_rule _))
            (none_without-Meets c))
          (from_first-Meets strict c svi)
