-- ===== src/Claim/Verify/Actions/First.antt =====
-- The action that opens or creates the asset, described without the search for it.
use c2pa_rs_html.Prelude.{
  ◌≡◌, refl, sym, ap, ◌∙◌, List, [], ◌∷◌, ◌++◌, take, Bool, true, false, not, ◌&&◌, Option, none,
  some, find, is_empty, ltb, if◌then◌else◌, ◌⊎◌, inl, inr, Bool-cases,
}
use c2pa_rs_html.Result.{Result, ok, err, panic, stuck, ◌>>=◌}
use c2pa_rs_html.Error.{Error}
use c2pa_rs_html.Claim.Assertion.{Assertion}
use c2pa_rs_html.Claim.Store.{ClaimAssertion, Claim}
use c2pa_rs_html.Claim.Check.Laws.{result_is}
use c2pa_rs_html.Claim.Verify.Decoded.{Action, Actions}
use c2pa_rs_html.Claim.Verify.Head.{action_assertions}
use c2pa_rs_html.Claim.Verify.Rules.Accepts.{starts_asset}
use c2pa_rs_html.Claim.Verify.Actions.{
  opening, or_opening, first_actions_assertion, created_action_assertions,
  gathered_action_assertions,
}

abbrev starts_with_it : List Action → Bool
starts_with_it [] = false
starts_with_it (x ∷ xs) = starts_asset x

module _ (actions_of : Assertion → Result Error Actions) where
  -- The assertion decodes, and its first action opens or creates the asset.
  abbrev pub opens : ClaimAssertion → Bool
  opens a = result_is (λ found. starts_with_it found.actions) (actions_of a.assertion)

  -- The assertion decodes, and it has an action.
  abbrev pub is_readable : ClaimAssertion → Bool
  is_readable a = result_is (λ found. not (is_empty found.actions)) (actions_of a.assertion)

  -- Where the opening action may stand: the first created and the first gathered assertion on
  -- actions, or the first of all in a claim of version 1.
  abbrev pub candidates : Claim → List ClaimAssertion
  candidates c =
      if ltb 1 c.claim_version
      then take 1 (created_action_assertions c) ++ take 1 (gathered_action_assertions c)
      else take 1 (action_assertions c)

  -- Those that come up before one opens are readable.
  abbrev pub readable_until_opened : List ClaimAssertion → Bool
  readable_until_opened [] = true
  readable_until_opened (a ∷ rest) =
      is_readable a && (if opens a then true else readable_until_opened rest)

  -- What a condition on the opening assertion says of some candidates.
  abbrev pub holds_of_first : (Option ClaimAssertion → Bool) → List ClaimAssertion → Bool
  holds_of_first p cas = readable_until_opened cas && p (find opens cas)

  abbrev Stops : Result Error (Option ClaimAssertion) → Type 0
  Stops r =
      (k : Option ClaimAssertion → Result Error (Option ClaimAssertion))
      (p : Option ClaimAssertion → Bool)
      → (result_is p (r >>= k) ≡ false) × (result_is p r ≡ false)

  abbrev Opening : ClaimAssertion → List ClaimAssertion → Type 0
  Opening a rest =
      ((is_readable a ≡ false) × Stops (opening actions_of (a ∷ rest)))
      ⊎ ((is_readable a ≡ true)
          × (opening actions_of (a ∷ rest) ≡ ok (if opens a then some a else none)))

  Opening-cases : (a : ClaimAssertion) (rest : List ClaimAssertion) → Opening a rest
  Opening-cases a rest = of_result (actions_of a.assertion) refl
    where
      of_actions :
          (found : Actions)
          → actions_of a.assertion ≡ ok found
          → (xs : List Action) → found.actions ≡ xs
          → Opening a rest
      of_actions found e [] h = inl (rw (e, h) refl, λ k p. rw (e, h) (refl, refl))
      of_actions found e (x ∷ xs) h = inr (rw (e, h) refl, rw (e, h) refl)

      of_result : (r : Result Error Actions) → actions_of a.assertion ≡ r → Opening a rest
      of_result (ok found) e = of_actions found e found.actions refl
      of_result (err x) e = inl (rw e refl, λ k p. rw e (refl, refl))
      of_result panic e = inl (rw e refl, λ k p. rw e (refl, refl))
      of_result stuck e = inl (rw e refl, λ k p. rw e (refl, refl))

  module _ (p : Option ClaimAssertion → Bool) (a : ClaimAssertion) (cas : List ClaimAssertion) where
    unreadable : is_readable a ≡ false → holds_of_first p (a ∷ cas) ≡ false
    unreadable bad = rw bad refl

    found_here : is_readable a ≡ true → opens a ≡ true → holds_of_first p (a ∷ cas) ≡ p (some a)
    found_here good here = rw (good, here) refl

    found_later :
        is_readable a ≡ true → opens a ≡ false → holds_of_first p (a ∷ cas) ≡ holds_of_first p cas
    found_later good later = rw (good, later) refl

  opening_lem :
      (p : Option ClaimAssertion → Bool) (cas : List ClaimAssertion)
      → result_is p (opening actions_of cas) ≡ holds_of_first p (take 1 cas)
  opening_lem p [] = refl
  opening_lem p (a ∷ rest) = elim (Opening-cases a rest) [
    | inl (bad, stops) ↦ (stops ok p).1 ∙ sym (unreadable p a [] bad)
    | inr (good, e) ↦ elim (Bool-cases (opens a)) [
      | inl here ↦
          ap (result_is p) (e ∙ ap (λ b. ok (if b then some a else none)) here)
          ∙ sym (found_here p a [] good here)
      | inr later ↦
          ap (result_is p) (e ∙ ap (λ b. ok (if b then some a else none)) later)
          ∙ sym (found_later p a [] good later)
    ]
  ]

  then_opening_lem :
      (p : Option ClaimAssertion → Bool) (cas more : List ClaimAssertion)
      → result_is p (opening actions_of cas >>= λ found. or_opening actions_of found more)
        ≡ holds_of_first p (take 1 cas ++ take 1 more)
  then_opening_lem p [] more = opening_lem p more
  then_opening_lem p (a ∷ rest) more =
      let then_more : Result Error (Option ClaimAssertion) → Bool =
        λ r. result_is p (r >>= λ found. or_opening actions_of found more) in
      elim (Opening-cases a rest) [
        | inl (bad, stops) ↦
            (stops (λ found. or_opening actions_of found more) p).0
            ∙ sym (unreadable p a (take 1 more) bad)
        | inr (good, e) ↦ elim (Bool-cases (opens a)) [
          | inl here ↦
              ap then_more (e ∙ ap (λ b. ok (if b then some a else none)) here)
              ∙ sym (found_here p a (take 1 more) good here)
          | inr later ↦
              ap then_more (e ∙ ap (λ b. ok (if b then some a else none)) later)
              ∙ opening_lem p more
              ∙ sym (found_later p a (take 1 more) good later)
        ]
      ]

  -- The search for the opening assertion: it fails at a candidate that cannot be read, and else
  -- finds the first candidate that opens.
  pub first_actions_assertion_lem :
      (p : Option ClaimAssertion → Bool) (c : Claim)
      → result_is p (first_actions_assertion actions_of c) ≡ holds_of_first p (candidates c)
  unfolding first_actions_assertion
  first_actions_assertion_lem p c = elim (Bool-cases (ltb 1 c.claim_version)) [
    | inl later ↦
        rw later (then_opening_lem p (created_action_assertions c) (gathered_action_assertions c))
    | inr first ↦ rw first (opening_lem p (action_assertions c))
  ]
