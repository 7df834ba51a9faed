-- ===== src/Claim/Verify/Links/Keys.antt =====
-- The label and the instance of a stored assertion find it.
use c2pa_rs_html.Prelude.{
  ℕ, ◌≤◌, ◌<◌, ◌≡◌, ◌≢◌, refl, sym, ap, ◌∙◌, List, [], ◌∷◌, ◌++◌, map, Text, Bool, true, false,
  ◌&&◌, none, some, All, find, keep, length, ◌==◌, ==_iff, ==_self, bytes_eq, bytes_eq_self,
  bytes_eq→eq, arith, Bool-cases, inl, inr,
}
use c2pa_rs_html.Claim.Labels.{label_with_instance}
use c2pa_rs_html.Claim.Store.{ClaimAssertion, label_raw, label, Claim, matches}
use c2pa_rs_html.Claim.Unique.{IsEntry, IsClaim, Distinct, label-eq}
use c2pa_rs_html.Claim.Verify.Links.Accepts.{NoDuplicates}

and_parts : (a b : Bool) → (a && b) ≡ true → (a ≡ true) × (b ≡ true)
and_parts true b e = (refl, e)
and_parts false b e = cc

pub matched :
    (l : Text) (n : ℕ) (ca : ClaimAssertion)
    → matches l n ca ≡ true
    → (label_raw ca ≡ l) × (ca.number ≡ n)
matched l n ca e =
    let (same_label, same_number) = and_parts (bytes_eq (label_raw ca) l) (ca.number == n) e in
    (bytes_eq→eq (label_raw ca) l same_label, (==_iff ca.number n).0 same_number)

pub matches_own :
    (l : Text) (n : ℕ) (ca : ClaimAssertion)
    → label_raw ca ≡ l
    → ca.number ≡ n
    → matches l n ca ≡ true
matches_own l n ca el en = rw (
  ap (λ t. bytes_eq (label_raw ca) t) (sym el) ∙ bytes_eq_self (label_raw ca),
  ap (λ m. ca.number == m) (sym en) ∙ ==_self ca.number,
)

-- Two assertions with the same label and instance have the same label in the store.
same_label :
    (l : Text) (n : ℕ) (x y : ClaimAssertion)
    → IsEntry x
    → IsEntry y
    → matches l n x ≡ true
    → matches l n y ≡ true
    → label y ≡ label x
same_label l n x y hx hy ex ey =
    let (lx, nx) = matched l n x ex in
    let (ly, ny) = matched l n y ey in
    label-eq y hy
    ∙ ap (λ t. label_with_instance t y.number) (ly ∙ sym lx)
    ∙ ap (label_with_instance (label_raw x)) (ny ∙ sym nx)
    ∙ sym (label-eq x hx)

no_other :
    (l : Text) (n : ℕ) (x : ClaimAssertion) (ys : List ClaimAssertion)
    → IsEntry x
    → matches l n x ≡ true
    → All IsEntry ys
    → All (λ u. u ≢ label x) (map label ys)
    → length (keep (matches l n) ys) ≤ 0
no_other l n x [] hx ex h d = omega arith
no_other l n x (y ∷ ys) hx ex h d = elim (Bool-cases (matches l n y)) [
  | inl ey ↦ absurd (d.0 (same_label l n x y hx h.0 ex ey))
  | inr ey ↦ rw ey (no_other l n x ys hx ex h.1 d.1)
]

once :
    (l : Text) (n : ℕ) (xs : List ClaimAssertion)
    → All IsEntry xs
    → Distinct (map label xs)
    → length (keep (matches l n) xs) ≤ 1
once l n [] h d = omega arith
once l n (x ∷ xs) h d = elim (Bool-cases (matches l n x)) [
  | inl e ↦ (let none_left = no_other l n x xs h.0 e h.1 d.0 in rw e (omega (arith, none_left)))
  | inr e ↦ rw e (once l n xs h.1 d.1)
]

pub IsClaim-NoDuplicates : (c : Claim) → IsClaim c → NoDuplicates c
IsClaim-NoDuplicates c h l n = once l n c.assertion_store h.entries h.distinct

-- An instance above those of a label is not found with it.
pub find_above :
    (l : Text) (n : ℕ) (xs : List ClaimAssertion)
    → All (λ ca. label_raw ca ≡ l → ca.number < n) xs
    → find (matches l n) xs ≡ none
find_above l n [] h = refl
find_above l n (x ∷ xs) h = elim (Bool-cases (matches l n x)) [
  | inl e ↦ absurd (let (el, en) = matched l n x e in let below = h.0 el in omega arith)
  | inr e ↦ rw e (find_above l n xs h.1)
]

module _ {ℓ} {A : Type ℓ} (p : A → Bool) where
  pub find_kept : (xs ys : List A) (a : A) → find p xs ≡ some a → find p (xs ++ ys) ≡ some a
  find_kept [] ys a e = cc
  find_kept (x ∷ xs) ys a e = elim (Bool-cases (p x)) [
    | inl f ↦ (let e' = rw f at e in rw f e')
    | inr f ↦ (let e' = rw f at e in rw f (find_kept xs ys a e'))
  ]

  pub find_last :
      (xs : List A) (a : A) → find p xs ≡ none → p a ≡ true → find p (xs ++ a ∷ []) ≡ some a
  find_last [] a e h = rw h
  find_last (x ∷ xs) a e h = elim (Bool-cases (p x)) [
    | inl f ↦ (let e' = rw f at e in cc)
    | inr f ↦ (let e' = rw f at e in rw f (find_last xs a e' h))
  ]
