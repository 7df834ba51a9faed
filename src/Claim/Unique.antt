-- ===== src/Claim/Unique.antt =====
-- No two assertions of a claim have the same label.
use mathlib.Core.Path.{subst}
use c2pa_rs_html.Prelude.{
  ℕ, ◌^◌, ◌≤◌, ◌<◌, ◌≡◌, ◌≢◌, refl, sym, ap, ◌∙◌, List, [], ◌∷◌, ◌++◌, map, Text, contains,
  contains_self, Bool, true, false, Option, none, All, keep, arith, ltb, ◌==◌, ltb→lt, Bool-cases,
  inl, inr,
}
use c2pa_rs_html.Result.{Result, ok}
use c2pa_rs_html.Error.{Error}
use c2pa_rs_html.Jumbf.Labels.{to_assertion_uri, to_relative_uri}
use c2pa_rs_html.Claim.Labels.{assertion_label_from_link, label_with_instance}
use c2pa_rs_html.Claim.Parts.{IsPlain, no_ingredient, assertion_label_from_link-label_with_instance}
use c2pa_rs_html.Claim.Assertion.{Assertion}
use c2pa_rs_html.Claim.Store.{
  ClaimAssertion, label_raw, label, HashedUri, Claim, after_max, instance_of, next_instance,
  make_assertion_instance_label, label_of, checked, type_of, stored, add_assertion_impl,
}

-- An assertion with a plain label, and an instance that a usize holds.
pub record IsEntry (ca : ClaimAssertion) : Type 0 where
  pub plain : IsPlain (label_raw ca)
  pub small : ca.number < 2 ^ 64

-- The label of an assertion is what `label_with_instance` makes.
pub label-eq :
    (ca : ClaimAssertion) → IsEntry ca → label ca ≡ label_with_instance (label_raw ca) ca.number
unfolding label label_with_instance
label-eq ca h =
    let plain = no_ingredient (label_raw ca) h.plain.no_thumbnail in
    elim (Bool-cases (ltb 0 ca.number)) [
      | inl e ↦
          (let some_instance : (ca.number == 0) ≡ false = ground arith in
            rw (e, plain, some_instance) refl)
      | inr e ↦ (let first : (ca.number == 0) ≡ true = ground arith in rw (e, first) refl)
    ]

label_parts :
    (ca : ClaimAssertion)
    → IsEntry ca
    → assertion_label_from_link (label ca) ≡ (label_raw ca, ca.number)
label_parts ca h =
    ap assertion_label_from_link (label-eq ca h)
    ∙ assertion_label_from_link-label_with_instance (label_raw ca) ca.number h.plain h.small

after_max_first : (n : ℕ) (ns : List ℕ) → n < after_max (n ∷ ns)
after_max_first n ns = elim (Bool-cases (ltb n (after_max ns))) [
  | inl e ↦ rw e (ltb→lt n (after_max ns) e)
  | inr e ↦ rw e (omega arith)
]

after_max_rest : (n : ℕ) (ns : List ℕ) → after_max ns ≤ after_max (n ∷ ns)
after_max_rest n ns = elim (Bool-cases (ltb n (after_max ns))) [
  | inl e ↦ rw e (omega arith)
  | inr e ↦ rw e (ground arith)
]

abbrev same_type : Text → ClaimAssertion → Bool
same_type l x = contains l (label_raw x)

-- The instances of a label lie below the next one.
below_next :
    (l : Text) (cs : List ClaimAssertion) (next : ℕ)
    → All IsEntry cs
    → after_max (map instance_of (keep (same_type l) cs)) ≤ next
    → All (λ ca. label_raw ca ≡ l → ca.number < next) cs
below_next l [] next h le = tt
below_next l (x ∷ cs) next h le = elim (Bool-cases (same_type l x)) [
  | inl e ↦
      (let ns = map instance_of (keep (same_type l) cs) in
        let le' : after_max (instance_of x ∷ ns) ≤ next = rw e at le in
        let number = ap (λ q. q.1) (label_parts x h.0) in
        (
          (λ p. omega (arith, after_max_first (instance_of x) ns, number, le')),
          below_next l cs next h.1 (omega (arith, after_max_rest (instance_of x) ns, le')),
        ))
  | inr e ↦ (
    (λ p. absurd (let clash = sym e ∙ ap (contains l) p ∙ contains_self l in cc)),
    below_next l cs next h.1 (rw e at le),
  )
]

-- A label with an instance above those of the same label is none of the labels.
fresh :
    (l : Text) (next : ℕ) (cs : List ClaimAssertion)
    → IsPlain l
    → next < 2 ^ 64
    → All IsEntry cs
    → All (λ ca. label_raw ca ≡ l → ca.number < next) cs
    → All (λ t. label_with_instance l next ≢ t) (map label cs)
fresh l next [] p small h below = tt
fresh l next (x ∷ cs) p small h below = (
  (λ same.
      (let parts =
          sym (label_parts x h.0)
          ∙ ap assertion_label_from_link (sym same)
          ∙ assertion_label_from_link-label_with_instance l next p small in
        absurd
          (let lt = below.0 (ap (λ q. q.0) parts) in let eq = ap (λ q. q.1) parts in omega arith))),
  fresh l next cs p small h.1 below.1,
)

abbrev pub Distinct : List Text → Type 0
Distinct [] = Unit {0}
Distinct (t ∷ ts) = All (λ u. u ≢ t) ts × Distinct ts

Distinct-snoc :
    (ts : List Text) (u : Text) → Distinct ts → All (λ t. u ≢ t) ts → Distinct (ts ++ u ∷ [])
Distinct-snoc [] u d h = (tt, tt)
Distinct-snoc (t ∷ ts) u d h = (All-snoc ts d.0, Distinct-snoc ts u d.1 h.1)
  where
    All-snoc : (xs : List Text) → All (λ v. v ≢ t) xs → All (λ v. v ≢ t) (xs ++ u ∷ [])
    All-snoc [] k = (h.0, tt)
    All-snoc (x ∷ xs) k = (k.0, All-snoc xs k.1)

map-snoc :
    (cs : List ClaimAssertion) (ca : ClaimAssertion)
    → map label (cs ++ ca ∷ []) ≡ map label cs ++ label ca ∷ []
map-snoc [] ca = refl
map-snoc (x ∷ cs) ca = ap (λ l. label x ∷ l) (map-snoc cs ca)

All-snoc :
    (cs : List ClaimAssertion) (ca : ClaimAssertion)
    → All IsEntry cs
    → IsEntry ca
    → All IsEntry (cs ++ ca ∷ [])
All-snoc [] ca h k = (k, tt)
All-snoc (x ∷ cs) ca h k = (h.0, All-snoc cs ca h.1 k)

-- A claim whose assertions have plain labels, no two of them the same.
pub record IsClaim (c : Claim) : Type 0 where
  pub entries : All IsEntry c.assertion_store
  pub distinct : Distinct (map label c.assertion_store)

own_label : (l : Text) → IsPlain l → assertion_label_from_link l ≡ (l, 0)
unfolding label_with_instance
own_label l p = assertion_label_from_link-label_with_instance l 0 p (omega arith)

pub below_next_instance :
    (c : Claim) (l : Text)
    → IsPlain l
    → All IsEntry c.assertion_store
    → All (λ ca. label_raw ca ≡ l → ca.number < next_instance c l) c.assertion_store
unfolding next_instance
below_next_instance c l p h =
    let own = ap (λ q. q.0) (own_label l p) in
    below_next l c.assertion_store _ h (rw own (omega arith))

pub made_label :
    (c : Claim) (l : Text)
    → make_assertion_instance_label c l ≡ label_with_instance l (next_instance c l)
unfolding make_assertion_instance_label
made_label c l = refl

module _ (box_hash : Text → Assertion → Option (List ℕ) → Text → Result Error (List ℕ))
    (compatible : Assertion → Result Error (Unit {0})) where
  pub checked_ok :
      (c : Claim) (a : Assertion) → compatible a ≡ ok tt → checked box_hash compatible c a ≡ ok tt
  checked_ok c a h = elim (Bool-cases (ltb 1 c.claim_version)) [
    | inl e ↦ rw e h
    | inr e ↦ rw e refl
  ]

  -- Adding an assertion to a claim whose labels are plain and distinct appends its label with the next instance, and the
  -- labels are plain and distinct again: for an assertion with a plain label that is compatible and
  -- whose box can be hashed, while the next instance is a usize.
  pub add_assertion_impl-IsClaim :
      (c : Claim) (a : Assertion) (salt : Option (List ℕ)) (as_created : Bool) (hash : List ℕ)
      → IsClaim c
      → IsPlain a.raw_label
      → next_instance c a.raw_label < 2 ^ 64
      → compatible a ≡ ok tt
      → box_hash (make_assertion_instance_label c a.raw_label) a salt c.alg ≡ ok hash
      → (c' : Claim) × (link : HashedUri) × (add_assertion_impl box_hash compatible c a salt
            as_created
          ≡ ok (c', link))
        × (map label c'.assertion_store
            ≡ map label c.assertion_store ++ make_assertion_instance_label c a.raw_label ∷ [])
        × IsClaim c'
  unfolding add_assertion_impl
  add_assertion_impl-IsClaim c a salt as_created hash wf plain small fits hashed =
      let next = next_instance c a.raw_label in
      let as_label = make_assertion_instance_label c a.raw_label in
      let link : HashedUri = record {
        url = to_relative_uri (to_assertion_uri (label_of c) as_label);
        alg = none;
        hash = hash;
        salt = salt;
      } in
      let ca : ClaimAssertion = record {
        assertion = a;
        number = (assertion_label_from_link as_label).1;
        hash_val = hash;
        hash_alg = c.alg;
        salt = salt;
        typ = type_of box_hash compatible c as_created;
      } in
      let number : ca.number ≡ next =
        ap (λ q. q.1)
          (ap assertion_label_from_link (made_label c a.raw_label)
            ∙ assertion_label_from_link-label_with_instance a.raw_label next plain small) in
      let entry : IsEntry ca = record {
        plain = plain;
        small = subst (λ n. n < 2 ^ 64) (sym number) small;
      } in
      let labelled : label ca ≡ as_label =
        label-eq ca entry
        ∙ ap (label_with_instance a.raw_label) number
        ∙ sym (made_label c a.raw_label) in
      let labels : map label (c.assertion_store ++ ca ∷ [])
          ≡ map label c.assertion_store ++ as_label ∷ [] =
        map-snoc c.assertion_store ca ∙ ap (λ t. map label c.assertion_store ++ t ∷ []) labelled in
      let new =
        fresh a.raw_label next c.assertion_store plain small wf.entries
          (below_next_instance c a.raw_label plain wf.entries) in
      (
        stored box_hash compatible c as_label link ca as_created,
        link,
        rw (checked_ok c a fits, hashed) refl,
        labels,
        record {
          entries = All-snoc c.assertion_store ca wf.entries entry;
          distinct = subst Distinct (sym labels) (
              Distinct-snoc (map label c.assertion_store) as_label wf.distinct (
                subst (λ t. All (λ u. t ≢ u) (map label c.assertion_store))
                  (sym (made_label c a.raw_label)) new));
        },
      )
