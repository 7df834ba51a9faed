-- ===== src/Hashing/Exclusions.antt =====
-- Hashing with exclusions is hashing the bytes that no exclusion covers.
use c2pa_rs_html.Prelude.{
  ℕ, ◌+◌, ◌-◌, ◌^◌, ◌≤◌, ◌<◌, ◌≡◌, refl, ap, ◌∙◌, List, [], ◌∷◌, Bool, true, false, not, ◌&&◌, ◌||◌,
  none, All, arith, leb, ltb, Bool-cases, inl, inr, get_last?,
}
use c2pa_rs_html.Io.{u64, sub64}
use c2pa_rs_html.Hashing.Hasher.{Hasher, IsStreaming}
use c2pa_rs_html.Hashing.Ranges.{
  HashRange, within, covers, RangeSet, IsRangeSet, insert_by, sort_by, start_of, span_of, offsets,
  remove_all, range_end,
}
use c2pa_rs_html.Hashing.Select.{select}

-- A position that an exclusion covers.
abbrev pub in_range : HashRange → ℕ → Bool
in_range r n = leb r.start n && ltb n (r.start + r.count)

abbrev pub excluded : List HashRange → ℕ → Bool
excluded [] n = false
excluded (r ∷ rs) n = in_range r n || excluded rs n

-- The bytes that are not excluded, in order.
abbrev pub kept : List HashRange → List ℕ → List ℕ
kept hr input = select (λ n. not (excluded hr n)) 0 input

-- An exclusion that is not empty, ends inside the data and has no BMFF offset.
abbrev pub Plain : ℕ → HashRange → Type 0
Plain size r = (0 < r.count) × (r.start + r.count ≤ size) × (r.bmff_offset ≡ none)

-- A hasher that parts do not change: none is nothing, and two are their concatenation.
pub record IsHasher {S : Type 0} (h : Hasher S) : Type 0 where
  pub streams : IsStreaming h
  pub no_bytes : (s : S) → h.update s [] ≡ s

excluded-insert :
    (r : HashRange) (rs : List HashRange) (n : ℕ)
    → excluded (insert_by start_of r rs) n ≡ (in_range r n || excluded rs n)
excluded-insert r [] n = refl
excluded-insert r (q ∷ rs) n = elim (Bool-cases (leb r.start q.start)) [
  | inl e ↦ rw e
  | inr e ↦ rw (e, excluded-insert r rs n) (or_swap (in_range q n) (in_range r n) (excluded rs n))
]
  where
    or_swap : (a b c : Bool) → (a || (b || c)) ≡ (b || (a || c))
    or_swap true true c = refl
    or_swap true false c = refl
    or_swap false b c = refl

pub excluded-sort : (rs : List HashRange) (n : ℕ) → excluded (sort_by start_of rs) n ≡ excluded rs n
excluded-sort [] n = refl
excluded-sort (r ∷ rs) n =
    excluded-insert r (sort_by start_of rs) n ∙ ap (λ b. in_range r n || b) (excluded-sort rs n)

All-insert {κ} :
    (P : HashRange → Type κ) (r : HashRange) (rs : List HashRange)
    → P r
    → All P rs
    → All P (insert_by start_of r rs)
All-insert P r [] p h = (p, tt)
All-insert P r (q ∷ rs) p h = elim (Bool-cases (leb r.start q.start)) [
  | inl e ↦ rw e (p, (h.0, h.1))
  | inr e ↦ rw e (h.0, All-insert P r rs p h.1)
]

pub All-sort {κ} :
    (P : HashRange → Type κ) (rs : List HashRange) → All P rs → All P (sort_by start_of rs)
All-sort P [] h = tt
All-sort P (r ∷ rs) h = All-insert P r (sort_by start_of rs) h.0 (All-sort P rs h.1)

pub range_end_le :
    (size : ℕ) (rs : List HashRange)
    → size < 2 ^ 64
    → All (Plain size) rs
    → range_end (get_last? rs) ≤ size
range_end_le size [] small h = omega arith
range_end_le size (r ∷ []) small h = omega arith
range_end_le size (r ∷ q ∷ rs) small h = range_end_le size (q ∷ rs) small h.1

pub no_offsets : (size : ℕ) (rs : List HashRange) → All (Plain size) rs → offsets rs ≡ []
no_offsets size [] h = refl
no_offsets size (r ∷ rs) h = rw (h.0.2) (no_offsets size rs h.1)

within-span_of :
    (size : ℕ) (r : HashRange) (n : ℕ)
    → size < 2 ^ 64
    → Plain size r
    → within (span_of r) n ≡ in_range r n
within-span_of size r n small h =
    let e : sub64 (u64 (r.start + r.count)) 1 ≡ r.start + r.count - 1 = omega arith in
    rw e (ground arith)

module _ {T : Type 0} (s : RangeSet T) (laws : IsRangeSet s) where
  pub covers-remove_all :
      (size : ℕ) (t : T) (rs : List HashRange) (n : ℕ)
      → size < 2 ^ 64
      → All (Plain size) rs
      → covers (s.into_spans (remove_all s t rs)) n
        ≡ (covers (s.into_spans t) n && not (excluded rs n))
  covers-remove_all size t [] n small h = and_true (covers (s.into_spans t) n)
    where
      and_true : (b : Bool) → b ≡ (b && true)
      and_true true = refl
      and_true false = refl
  covers-remove_all size t (r ∷ rs) n small h =
      let (a, b) = span_of r in
      let ordered : (span_of r).0 ≤ (span_of r).1 = omega arith in
      covers-remove_all size (s.remove_range t (span_of r)) rs n small h.1
      ∙ ap (λ c. c && not (excluded rs n))
          (laws.remove_covers t (span_of r).0 (span_of r).1 n ordered
            ∙ ap (λ c. covers (s.into_spans t) n && not c) (within-span_of size r n small h.0))
      ∙ and_not (covers (s.into_spans t) n) (in_range r n) (excluded rs n)
    where
      and_not : (a b c : Bool) → ((a && not b) && not c) ≡ (a && not (b || c))
      and_not true true c = refl
      and_not true false c = refl
      and_not false b c = refl
