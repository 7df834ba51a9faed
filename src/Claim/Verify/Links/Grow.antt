-- ===== src/Claim/Verify/Links/Grow.antt =====
-- The links and the assertions still agree when an assertion is added to a claim.
use c2pa_rs_html.Prelude.{
  ℕ, ◌≡◌, refl, ◌∙◌, List, [], ◌∷◌, ◌++◌, Bool, true, false, ◌&&◌, find, any, all, any-append,
  or_true, Bool-cases, Option-cases, inl, inr,
}
use c2pa_rs_html.Claim.Labels.{assertion_label_from_link}
use c2pa_rs_html.Claim.Store.{ClaimAssertion, HashedUri, Claim, matches, get_claim_assertion}
use c2pa_rs_html.Claim.Verify.Head.Accepts.{has_hash}
use c2pa_rs_html.Claim.Verify.Links.{StoreValidationInfo, is_redacted}
use c2pa_rs_html.Claim.Verify.Links.Accepts.{
  stays_inside, link_redacted, is_sound, names, assertions_hold,
}
use c2pa_rs_html.Claim.Verify.Links.Tracking.{is_named}
use c2pa_rs_html.Claim.Verify.Links.Keys.{find_kept}

pub and_both : (a b : Bool) → a ≡ true → b ≡ true → (a && b) ≡ true
and_both a b p q = rw (p, q)

and_parts : (a b : Bool) → (a && b) ≡ true → (a ≡ true) × (b ≡ true)
and_parts true b e = (refl, e)
and_parts false b e = cc

all-append_one {ℓ} :
    {A : Type ℓ} (p q : A → Bool) (xs : List A) (x : A)
    → ((y : A) → p y ≡ true → q y ≡ true)
    → all p xs ≡ true
    → q x ≡ true
    → all q (xs ++ x ∷ []) ≡ true
all-append_one p q [] x h e k = rw k
all-append_one p q (y ∷ ys) x h e k =
    let (here, rest) = and_parts (p y) (all p ys) e in
    and_both (q y) (all q (ys ++ x ∷ [])) (h y here) (all-append_one p q ys x h rest k)

has_hash_kept :
    (hash : List ℕ) (p : ClaimAssertion → Bool) (xs ys : List ClaimAssertion)
    → has_hash hash (find p xs) ≡ true
    → has_hash hash (find p (xs ++ ys)) ≡ true
has_hash_kept hash p xs ys e = elim (Option-cases (find p xs)) [
  | inl f ↦ (let clash = rw f at e in cc)
  | inr (ca, f) ↦ (let e' = rw f at e in rw (find_kept p xs ys ca f) e')
]

module _ (c : Claim) (svi : StoreValidationInfo) (ca : ClaimAssertion) (new : HashedUri)
    (created : List HashedUri) where
  abbrev pub grown : Claim
  grown = record c {
    assertion_store = c.assertion_store ++ ca ∷ [];
    assertions = c.assertions ++ new ∷ [];
    created_assertions = created;
  }

  sound_kept : (link : HashedUri) → is_sound c svi link ≡ true → is_sound grown svi link ≡ true
  unfolding is_redacted get_claim_assertion
  sound_kept link e =
      let (inside, rest) = and_parts (stays_inside c link) _ e in
      and_both (stays_inside c link) _ inside (elim (Bool-cases (link_redacted c svi link)) [
        | inl r ↦ rw r
        | inr r ↦
            (let (l, n) = assertion_label_from_link link.url in
              let found = rw r at rest in
              rw r (has_hash_kept link.hash (matches l n) c.assertion_store (ca ∷ []) found))
      ])

  named_kept :
      (x : ClaimAssertion)
      → is_named names c.assertions x ≡ true
      → is_named names grown.assertions x ≡ true
  named_kept x e = any-append (λ link. names link x) c.assertions (new ∷ []) ∙ rw e

  named_new : names new ca ≡ true → is_named names grown.assertions ca ≡ true
  named_new e =
      any-append (λ link. names link ca) c.assertions (new ∷ [])
      ∙ rw e (or_true (any (λ link. names link ca) c.assertions))

  pub grown-hold :
      assertions_hold c svi ≡ true
      → is_sound grown svi new ≡ true
      → names new ca ≡ true
      → assertions_hold grown svi ≡ true
  grown-hold e sound named =
      let (links, store) = and_parts (all (is_sound c svi) c.assertions) _ e in
      and_both _ _
        (all-append_one (is_sound c svi) (is_sound grown svi) c.assertions new sound_kept links
          sound)
        (all-append_one (is_named names c.assertions) (is_named names grown.assertions)
          c.assertion_store ca named_kept store (named_new named))
