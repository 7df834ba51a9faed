-- ===== src/Claim/Verify/Links/Tracking.antt =====
-- What is left of a list from which each of some tests has removed an element by `swap_remove`.
use c2pa_rs_html.Prelude.{
  ℕ, suc, ◌≤◌, ◌≡◌, refl, sym, ap, ◌∙◌, List, [], ◌∷◌, ◌++◌, Bool, true, false, not, ◌&&◌, ◌||◌,
  some, any, any_last, all, keep, length, is_empty, get_last?, arith, Bool-cases, inl, inr,
}
use c2pa_rs_html.Status.Tracker.{pop_last}
use c2pa_rs_html.Claim.Verify.Links.{last_first, swap_remove_first}

or_comm : (a b : Bool) → (a || b) ≡ (b || a)
or_comm true true = refl
or_comm true false = refl
or_comm false true = refl
or_comm false false = refl

module _ {ℓ} {A : Type ℓ} where
  abbrev pub count : (A → Bool) → List A → ℕ
  count p xs = length (keep p xs)

  abbrev rotated : List A → List A
  rotated xs = last_first xs (get_last? xs)

  last_split :
      (x : A) (xs : List A)
      → (z : A) × (get_last? (x ∷ xs) ≡ some z) × (pop_last (x ∷ xs) ++ z ∷ [] ≡ x ∷ xs)
  last_split x [] = (x, refl, refl)
  last_split x (y ∷ xs) = let (z, e, s) = last_split y xs in (z, e, ap (λ l. x ∷ l) s)

  count-snoc : (p : A → Bool) (xs : List A) (z : A) → count p (xs ++ z ∷ []) ≡ count p (z ∷ xs)
  count-snoc p [] z = refl
  count-snoc p (x ∷ xs) z = elim (Bool-cases (p x)) [
    | inl e ↦ elim (Bool-cases (p z)) [
      | inl f ↦ (let k = count-snoc p xs z in rw (e, f) (ap suc (k ∙ rw f)))
      | inr f ↦ (let k = count-snoc p xs z in rw (e, f) (ap suc (k ∙ rw f)))
    ]
    | inr e ↦ elim (Bool-cases (p z)) [
      | inl f ↦ (let k = count-snoc p xs z in rw (e, f) (k ∙ rw f))
      | inr f ↦ (let k = count-snoc p xs z in rw (e, f) (k ∙ rw f))
    ]
  ]

  -- With its last element first the list has the same elements, as often.
  same_elements :
      (p q : A → Bool) (xs : List A)
      → (any q (rotated xs) ≡ any q xs) × (count p (rotated xs) ≡ count p xs)
  same_elements p q [] = (refl, refl)
  same_elements p q (x ∷ xs) =
      let (z, e, s) = last_split x xs in
      (
        rw e (
            or_comm (q z) (any q (pop_last (x ∷ xs)))
            ∙ sym (any_last q (pop_last (x ∷ xs)) z)
            ∙ ap (any q) s),
        rw e (sym (count-snoc p (pop_last (x ∷ xs)) z) ∙ ap (count p) s),
      )

  -- No test matches more often afterwards.
  pub count-swap_remove :
      (p q : A → Bool) (xs : List A) → count p (swap_remove_first q xs) ≤ count p xs
  count-swap_remove p q [] = omega arith
  count-swap_remove p q (x ∷ xs) = elim (Bool-cases (q x)) [
    | inl e ↦ elim (Bool-cases (p x)) [
      | inl f ↦ (let k = (same_elements p q xs).1 in rw (e, f) (omega (arith, k)))
      | inr f ↦ (let k = (same_elements p q xs).1 in rw (e, f) (omega (arith, k)))
    ]
    | inr e ↦ elim (Bool-cases (p x)) [
      | inl f ↦ (let k = count-swap_remove p q xs in rw (e, f) (omega (arith, k)))
      | inr f ↦ (let k = count-swap_remove p q xs in rw (e, f) k)
    ]
  ]

  abbrev but : (A → Bool) → (A → Bool) → A → Bool
  but q p x = q x && not (p x)

  no_match : (p q : A → Bool) (xs : List A) → count p xs ≤ 0 → any (but q p) xs ≡ any q xs
  no_match p q [] h = refl
  no_match p q (x ∷ xs) h = elim (Bool-cases (p x)) [
    | inl e ↦ absurd (let k = rw e at h in omega (arith, k))
    | inr e ↦ rw (e, no_match p q xs (rw e at h)) (ap (λ b. b || any q xs) (and_true (q x)))
  ]
    where
      and_true : (b : Bool) → (b && true) ≡ b
      and_true true = refl
      and_true false = refl

  -- The element that matches is gone and the others are left, if not more than one matches.
  any-swap_remove :
      (p q : A → Bool) (xs : List A)
      → count p xs ≤ 1
      → any q (swap_remove_first p xs) ≡ any (but q p) xs
  any-swap_remove p q [] h = refl
  any-swap_remove p q (x ∷ xs) h = elim (Bool-cases (p x)) [
    | inl e ↦ rw e (
        let k = rw e at h in
        (same_elements p q xs).0
        ∙ sym (no_match p q xs (omega (arith, k)))
        ∙ ap (λ b. b || any (but q p) xs) (sym (and_false (q x))))
    | inr e ↦ rw e (
        let k = rw e at h in
        ap (λ b. b || any q (swap_remove_first p xs)) (sym (and_true (q x)))
        ∙ ap (λ b. (q x && true) || b) (any-swap_remove p q xs k))
  ]
    where
      and_true : (b : Bool) → (b && true) ≡ b
      and_true true = refl
      and_true false = refl

      and_false : (b : Bool) → (b && false) ≡ false
      and_false true = refl
      and_false false = refl

  any-same : (p q : A → Bool) (xs : List A) → ((x : A) → p x ≡ q x) → any p xs ≡ any q xs
  any-same p q [] h = refl
  any-same p q (x ∷ xs) h = rw (h x, any-same p q xs h)

  module _ {κ} {L : Type κ} (names : L → A → Bool) where
    -- The list without what each link names.
    abbrev pub swap_remove_all : List L → List A → List A
    swap_remove_all [] xs = xs
    swap_remove_all (l ∷ ls) xs = swap_remove_all ls (swap_remove_first (names l) xs)

    abbrev pub is_named : List L → A → Bool
    is_named ls x = any (λ l. names l x) ls

    abbrev pub AtMostOnce : List A → Type κ
    AtMostOnce xs = (l : L) → count (names l) xs ≤ 1

    any-swap_remove_all :
        (q : A → Bool) (ls : List L) (xs : List A)
        → AtMostOnce xs
        → any q (swap_remove_all ls xs) ≡ any (λ x. q x && not (is_named ls x)) xs
    any-swap_remove_all q [] xs h = any-same q _ xs (λ x. and_true (q x))
      where
        and_true : (b : Bool) → b ≡ (b && true)
        and_true true = refl
        and_true false = refl
    any-swap_remove_all q (l ∷ ls) xs h =
        any-swap_remove_all q ls (swap_remove_first (names l) xs)
          (λ k. omega (arith, h k, count-swap_remove (names k) (names l) xs))
        ∙ any-swap_remove (names l) (λ x. q x && not (is_named ls x)) xs (h l)
        ∙ any-same _ _ xs (λ x. shuffle (q x) (is_named ls x) (names l x))
      where
        shuffle : (a b c : Bool) → ((a && not b) && not c) ≡ (a && not (c || b))
        shuffle true true true = refl
        shuffle true true false = refl
        shuffle true false true = refl
        shuffle true false false = refl
        shuffle false b c = refl

    -- Nothing is left exactly if every element is named.
    pub swap_remove_all-empty :
        (ls : List L) (xs : List A)
        → AtMostOnce xs
        → is_empty (swap_remove_all ls xs) ≡ all (is_named ls) xs
    swap_remove_all-empty ls xs h =
        none_left (swap_remove_all ls xs)
        ∙ ap not (any-swap_remove_all (λ x. true) ls xs h)
        ∙ none_unnamed xs
      where
        none_left : (ys : List A) → is_empty ys ≡ not (any (λ y. true) ys)
        none_left [] = refl
        none_left (y ∷ ys) = refl

        none_unnamed :
            (ys : List A) → not (any (λ y. not (is_named ls y)) ys) ≡ all (is_named ls) ys
        none_unnamed [] = refl
        none_unnamed (y ∷ ys) = elim (Bool-cases (is_named ls y)) [
          | inl e ↦ rw e (none_unnamed ys)
          | inr e ↦ rw e
        ]
