-- ===== src/Claim/Verify/Head/Accepts.antt =====
-- What the first checks of a claim accept.
use c2pa_rs_html.Prelude.{
  ℕ, zero, suc, List, [], ◌∷◌, any, keep, Bool-cases, inl, inr, Text, bytes, contains, Bool, true,
  false, not, ◌&&◌, Option, none, some, all, length, ltb, ◌==◌, ◌≡◌, refl, if◌then◌else◌, bytes_eq,
  arith,
}
use mathlib.Core.Path.{subst}
use c2pa_rs_html.Result.{Result, ok, err, panic, stuck}
use c2pa_rs_html.Error.{
  Error, cose_signature, hash_mismatch, assertion_missing, claim_self_redact,
  claim_disallowed_redaction, update_manifest_invalid, claim_verification,
}
use c2pa_rs_html.Hashing.DataHash.{or_empty}
use c2pa_rs_html.Claim.Assertion.{Assertion}
use c2pa_rs_html.Claim.Labels.{assertion_label_from_link}
use c2pa_rs_html.Claim.Store.{ClaimAssertion, HashedUri, Claim, label_of, get_claim_assertion}
use c2pa_rs_html.Claim.Verify.Decoded.{
  Relationship, parent_of, component_of, input_to, is_related, Actions,
}
use c2pa_rs_html.Claim.Check.{Meets}
use c2pa_rs_html.Claim.Check.Laws.{
  done-Meets, after-Meets, when-Meets, unless-Meets, if-Meets, for_each-Meets, with_result-Meets,
  result_is, succeed-Meets, fail-Meets, report-Meets,
}
use c2pa_rs_html.Claim.Verify.Head.{
  Verified, certificate, rejected, is_allowed_action, names_hash, thumbnails, action_assertions,
  ingredient_assertions, verify_signature, verify_icon, verify_icon_hash, verify_icons,
  verify_redaction, verify_redactions, parent_count, verify_update_actions, verify_one_parent,
  verify_parents,
}

abbrev pub is_validated : Verified → Bool
is_validated (certificate validated) = validated
is_validated (rejected e carried) = false

abbrev pub has_hash : List ℕ → Option ClaimAssertion → Bool
has_hash hash none = false
has_hash hash (some ca) = bytes_eq ca.hash_val hash

-- The assertion that a link names.
abbrev pub target : Claim → HashedUri → Option ClaimAssertion
target c link = let (l, n) = assertion_label_from_link link.url in get_claim_assertion c l n

abbrev pub icon_resolves : Claim → HashedUri → Bool
icon_resolves c icon = has_hash icon.hash (target c icon)

-- What stays in a claim: the hard bindings.
abbrev unredactable : List Text
unredactable =
    bytes "c2pa.hash.data"
    ∷ bytes "c2pa.hash.boxes"
    ∷ bytes "c2pa.hash.bmff"
    ∷ bytes "c2pa.hash.collection.data"
    ∷ []

-- What an update may do.
abbrev update_actions : List Text
update_actions =
    bytes "c2pa.edited.metadata"
    ∷ bytes "c2pa.opened"
    ∷ bytes "c2pa.published"
    ∷ bytes "c2pa.redacted"
    ∷ []

abbrev pub may_redact : Claim → Text → Bool
may_redact c r =
    (not (contains (label_of c) r) && not (contains (bytes "c2pa.actions") r))
    && not (any (λ l. contains l r) unredactable)

abbrev pub may_redact_all : Claim → Bool
may_redact_all c = all (may_redact c) (or_empty c.redacted_assertions)

module _ (relationship_of : Assertion → Result Error Relationship)
    (actions_of : Assertion → Result Error Actions) where
  abbrev pub has_allowed_actions : ClaimAssertion → Bool
  has_allowed_actions aa =
      result_is (λ found. all (λ x. any (λ a. bytes_eq a x.action) update_actions) found.actions)
        (actions_of aa.assertion)

  abbrev is_parent : Relationship → Bool
  is_parent parent_of = true
  is_parent component_of = false
  is_parent input_to = false

  -- The ingredients that decode to a parent.
  abbrev pub parents_of : Claim → List ClaimAssertion
  parents_of c =
      keep (λ a. result_is is_parent (relationship_of a.assertion)) (ingredient_assertions c)

  is_related_lem : (r : Result Error Relationship) → is_related parent_of r ≡ result_is is_parent r
  is_related_lem (ok parent_of) = refl
  is_related_lem (ok component_of) = refl
  is_related_lem (ok input_to) = refl
  is_related_lem (err e) = refl
  is_related_lem panic = refl
  is_related_lem stuck = refl

  parent_count_lem : (c : Claim) → parent_count relationship_of c ≡ length (parents_of c)
  unfolding parent_count
  parent_count_lem c = same (ingredient_assertions c)
    where
      same :
          (cas : List ClaimAssertion)
          → length (keep (λ a. is_related parent_of (relationship_of a.assertion)) cas)
            ≡ length (keep (λ a. result_is is_parent (relationship_of a.assertion)) cas)
      same [] = refl
      same (a ∷ cas) = elim (Bool-cases (result_is is_parent (relationship_of a.assertion))) [
        | inl hit ↦ rw (is_related_lem (relationship_of a.assertion), hit, same cas) refl
        | inr miss ↦ rw (is_related_lem (relationship_of a.assertion), miss) (same cas)
      ]

  -- What a claim must have: an update manifest only allowed actions, at most one thumbnail and exactly one
  -- parent; another at most one parent.
  abbrev has_parent_count : Bool → ℕ → Claim → Bool
  has_parent_count update parents c =
      if update
      then (all has_allowed_actions (action_assertions c) && not (ltb 1 (length (thumbnails c))))
        && parents == 1
      else not (ltb 1 parents)

  abbrev pub has_parents : Claim → Bool
  has_parents c = has_parent_count c.update_manifest (length (parents_of c)) c

module _ (shown : Error → Text → Text) where
  pub verify_signature-Meets :
      (c : Claim) (v : Verified) → Meets (verify_signature shown c v) (is_validated v)
  unfolding verify_signature
  verify_signature-Meets c (certificate true) =
      after-Meets _ _ true true (succeed-Meets _ _ refl) (succeed-Meets _ _ refl)
  verify_signature-Meets c (certificate false) = fail-Meets shown _ _ cose_signature _
  verify_signature-Meets c (rejected e carried) = report-Meets shown _ _ e carried

  icon_hash-Meets :
      (icon : HashedUri) (o : Option ClaimAssertion)
      → Meets (verify_icon_hash shown icon o) (has_hash icon.hash o)
  icon_hash-Meets icon none = fail-Meets shown _ _ assertion_missing icon.url
  icon_hash-Meets icon (some ca) =
      unless-Meets (bytes_eq ca.hash_val icon.hash) _ (fail-Meets shown _ _ hash_mismatch _)

  pub verify_icons-Meets :
      (c : Claim) (icons : List HashedUri)
      → Meets (verify_icons shown c icons) (all (icon_resolves c) icons)
  unfolding verify_icons
  verify_icons-Meets c icons =
      for_each-Meets (verify_icon shown c) (icon_resolves c) icons
        (λ icon. icon_hash-Meets icon (target c icon))

  redaction-Meets : (c : Claim) (r : Text) → Meets (verify_redaction shown c r) (may_redact c r)
  redaction-Meets c r =
      after-Meets _ _ _ _
        (after-Meets _ _ _ _
          (when-Meets (contains (label_of c) r) _ (fail-Meets shown _ _ claim_self_redact _))
          (when-Meets (contains (bytes "c2pa.actions") r) _
            (fail-Meets shown _ _ claim_disallowed_redaction _)))
        (when-Meets (names_hash r) _ (fail-Meets shown _ _ claim_disallowed_redaction _))

  pub verify_redactions-Meets : (c : Claim) → Meets (verify_redactions shown c) (may_redact_all c)
  unfolding verify_redactions
  verify_redactions-Meets c =
      for_each-Meets (verify_redaction shown c) (may_redact c) (or_empty c.redacted_assertions)
        (redaction-Meets c)

  module _ (relationship_of : Assertion → Result Error Relationship)
      (actions_of : Assertion → Result Error Actions) where
    update_actions-Meets :
        (c : Claim)
        → Meets
            (verify_update_actions shown relationship_of actions_of c)
            (all (has_allowed_actions relationship_of actions_of) (action_assertions c))
    update_actions-Meets c = for_each-Meets _ _ (action_assertions c) (λ aa.
        with_result-Meets (actions_of aa.assertion) _ _ (λ found.
          for_each-Meets _ (λ x. is_allowed_action x.action) found.actions
            (λ x.
              unless-Meets (is_allowed_action x.action) _
                (fail-Meets shown _ _ update_manifest_invalid _))))

    one_parent-Meets :
        (c : Claim) (n : ℕ)
        → Meets (verify_one_parent shown relationship_of actions_of c n) (n == 1)
    one_parent-Meets c zero = fail-Meets shown _ _ update_manifest_invalid _
    one_parent-Meets c (suc zero) = done-Meets
    one_parent-Meets c (suc (suc n)) =
        let more : false ≡ (suc (suc n) == 1) = ground arith in
        subst (Meets (verify_one_parent shown relationship_of actions_of c (suc (suc n)))) more
          (fail-Meets shown _ _ update_manifest_invalid _)

    counted-Meets :
        (c : Claim)
        → Meets (verify_parents shown relationship_of actions_of c) (
            has_parent_count relationship_of actions_of c.update_manifest
              (parent_count relationship_of c)
              c)
    unfolding verify_parents
    counted-Meets c =
        if-Meets c.update_manifest _ _ _ _
          (after-Meets _ _ _ _
            (after-Meets _ _ _ _ (update_actions-Meets c) (
              when-Meets (ltb 1 (length (thumbnails c))) _
                (fail-Meets shown _ _ update_manifest_invalid _)))
            (one_parent-Meets c (parent_count relationship_of c)))
          (when-Meets (ltb 1 (parent_count relationship_of c)) _
            (fail-Meets shown _ _ claim_verification _))

    pub verify_parents-Meets :
        (c : Claim)
        → Meets
            (verify_parents shown relationship_of actions_of c)
            (has_parents relationship_of actions_of c)
    verify_parents-Meets c =
        subst
          (λ n.
            Meets (verify_parents shown relationship_of actions_of c)
              (has_parent_count relationship_of actions_of c.update_manifest n c))
          (parent_count_lem relationship_of actions_of c) (counted-Meets c)
