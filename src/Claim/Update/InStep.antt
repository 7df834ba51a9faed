-- ===== src/Claim/Update/InStep.antt =====
-- An update of an assertion keeps the links of a claim in step with its stored assertions.
use mathlib.Core.Path.{subst}
use c2pa_rs_html.Prelude.{
  ℕ, ◌≡◌, refl, sym, ap, ◌∙◌, List, [], ◌∷◌, map, Text, contains, Bool, true, false, ◌&&◌, Option,
  some, any, find, bytes_eq, bytes_eq_self, All, Bool-cases, inl, inr,
}
use c2pa_rs_html.Result.{Result, ok}
use c2pa_rs_html.Error.{Error}
use c2pa_rs_html.Claim.Assertion.{Assertion}
use c2pa_rs_html.Claim.Store.{ClaimAssertion, label, HashedUri, Claim}
use c2pa_rs_html.Claim.Update.{
  modify_first, refers, rehash, rehash_gathered, replaced, replaceable, store_replaced,
  update_assertion,
}

-- The links stand in the order of the assertions, each with the label and the hash of its own.
abbrev pub AreInStep : List ClaimAssertion → List HashedUri → Type 0
AreInStep [] [] = Unit
AreInStep [] (f ∷ fs) = ⊥
AreInStep (ca ∷ cas) [] = ⊥
AreInStep (ca ∷ cas) (f ∷ fs) =
    (contains (label ca) f.url ≡ true) × (f.hash ≡ ca.hash_val) × AreInStep cas fs

-- No link has the hash of another.
abbrev pub AreDistinct : List HashedUri → Type 0
AreDistinct [] = Unit
AreDistinct (f ∷ fs) = All (λ g. bytes_eq f.hash g.hash ≡ false) fs × AreDistinct fs

pub map-modify_first {ℓ κ} :
    {A : Type ℓ} {B : Type κ} (g : A → B) (p : A → Bool) (f : A → A) (xs : List A)
    → ((x : A) → g (f x) ≡ g x)
    → map g (modify_first p f xs) ≡ map g xs
map-modify_first g p f [] same = refl
map-modify_first g p f (x ∷ xs) same = elim (Bool-cases (p x)) [
  | inl hit ↦ rw (hit, same x) refl
  | inr miss ↦ rw (miss, map-modify_first g p f xs same) refl
]

label-replaced :
    (a : Assertion) (h : List ℕ) (ca : ClaimAssertion)
    → a.raw_label ≡ ca.assertion.raw_label
    → label (replaced a h ca) ≡ label ca
unfolding label
label-replaced a h ca e = rw e refl

and_false : (b : Bool) → (b && false) ≡ false
and_false true = refl
and_false false = refl

abbrev raw : ClaimAssertion → Text
raw ca = ca.assertion.raw_label

module _ (p : ClaimAssertion → Bool) (a : Assertion) (h : List ℕ) where
  is_found :
      (ca : ClaimAssertion) (cas : List ClaimAssertion) (target : ClaimAssertion)
      → p ca ≡ true
      → find p (ca ∷ cas) ≡ some target
      → ca ≡ target
  is_found ca cas target hit e = let e' = rw hit at e in cc

  at_hit :
      (ca : ClaimAssertion) (f : HashedUri)
      → a.raw_label ≡ ca.assertion.raw_label
      → contains (label ca) f.url ≡ true
      → f.hash ≡ ca.hash_val
      → (contains (label (replaced a h ca)) f.url ≡ true)
        × (refers (label (replaced a h ca)) ca.hash_val f ≡ true)
  at_hit ca f same named hashed =
      rw (label-replaced a h ca same, named, hashed, bytes_eq_self ca.hash_val) (refl, refl)

  -- The hash of what is found is none of those that the links do not have.
  other_hash :
      (x : List ℕ) (target : ClaimAssertion) (cas : List ClaimAssertion) (fs : List HashedUri)
      → find p cas ≡ some target
      → AreInStep cas fs
      → All (λ g. bytes_eq x g.hash ≡ false) fs
      → bytes_eq x target.hash_val ≡ false
  other_hash x target [] fs e step others = cc
  other_hash x target (ca ∷ cas) [] e step others = elim step [ ]
  other_hash x target (ca ∷ cas) (f ∷ fs) e (named, hashed, step) (other, others) =
      elim (Bool-cases (p ca)) [
        | inl hit ↦
            let q : ca ≡ target = is_found ca cas target hit e in
            subst (λ t. bytes_eq x t.hash_val ≡ false) q
              (subst (λ g. bytes_eq x g ≡ false) hashed other)
        | inr miss ↦ other_hash x target cas fs (rw miss at e) step others
      ]

  stays_in_step :
      (target : ClaimAssertion) (cas : List ClaimAssertion) (fs : List HashedUri)
      → a.raw_label ≡ target.assertion.raw_label
      → find p cas ≡ some target
      → AreInStep cas fs
      → AreDistinct fs
      → AreInStep
          (modify_first p (replaced a h) cas)
          (rehash (label (replaced a h target)) target.hash_val h fs)
        × (any (refers (label (replaced a h target)) target.hash_val) fs ≡ true)
  stays_in_step target [] fs same e step distinct = cc
  stays_in_step target (ca ∷ cas) [] same e step distinct = elim step [ ]
  stays_in_step target (ca ∷ cas) (f ∷ fs) same e (named, hashed, step) (others, distinct) =
      elim (Bool-cases (p ca)) [
        | inl hit ↦
            let q : ca ≡ target = is_found ca cas target hit e in
            let (named', found) = at_hit ca f (same ∙ ap raw (sym q)) named hashed in
            subst
              (λ t.
                AreInStep (modify_first p (replaced a h) (ca ∷ cas))
                  (rehash (label (replaced a h t)) t.hash_val h (f ∷ fs))
                × (any (refers (label (replaced a h t)) t.hash_val) (f ∷ fs) ≡ true))
              q (rw (hit, found) ((named', refl, step), refl))
        | inr miss ↦
            let e' = rw miss at e in
            let (step', found) = stays_in_step target cas fs same e' step distinct in
            let skipped =
              ap (λ b. contains (label (replaced a h target)) f.url && b)
                (other_hash f.hash target cas fs e' step others)
              ∙ and_false (contains (label (replaced a h target)) f.url) in
            rw (miss, skipped) ((named, hashed, step'), found)
      ]

module _ (box_hash : Text → Assertion → Option (List ℕ) → Text → Result Error (List ℕ)) where
  -- The update of an assertion succeeds and keeps the links in step with the stored assertions:
  -- each still has the label and the hash of its own, and its URL. The links had distinct hashes and
  -- were in step, an assertion is found, and the patch gives one with the same label whose box can
  -- be hashed.
  pub update_assertion-AreInStep :
      (c : Claim) (replace_with a : Assertion) (match_fn : ClaimAssertion → Bool)
      (patch_fn : ClaimAssertion → Assertion → Result Error Assertion) (target : ClaimAssertion)
      (h : List ℕ)
      → AreInStep c.assertion_store c.assertions
      → AreDistinct c.assertions
      → find (replaceable replace_with match_fn) c.assertion_store ≡ some target
      → patch_fn target replace_with ≡ ok a
      → a.raw_label ≡ target.assertion.raw_label
      → box_hash (label target) a target.salt target.hash_alg ≡ ok h
      → (c' : Claim) × (update_assertion box_hash c replace_with match_fn patch_fn ≡ (c', ok tt))
        × (c'.assertion_store
            ≡ modify_first (replaceable replace_with match_fn) (replaced a h) c.assertion_store)
        × (map (λ f. f.url) c'.assertions ≡ map (λ f. f.url) c.assertions)
        × AreInStep c'.assertion_store c'.assertions
  unfolding update_assertion
  update_assertion-AreInStep c replace_with a match_fn patch_fn target h step distinct e patch same
        hashed =
      let p = replaceable replace_with match_fn in
      let l = label (replaced a h target) in
      let (step', found) =
        stays_in_step p a h target c.assertion_store c.assertions same e step distinct in
      let d = store_replaced c p a h in
      (
        record d {
          assertions = rehash l target.hash_val h c.assertions;
          created_assertions = rehash l target.hash_val h c.created_assertions;
          gathered_assertions = rehash_gathered l target.hash_val h c.gathered_assertions;
        },
        rw (e, patch, hashed, found) refl,
        refl,
        map-modify_first (λ f. f.url) (refers l target.hash_val) (λ f. record f { hash = h })
            c.assertions (λ f. refl),
        step',
      )
