-- ===== src/Hashing/Ranges.antt =====
-- Hashing with ranges, `hash_stream_by_alg` of sdk/src/utils/hash_utils.rs. The crate range_set is third-party
-- code: a set of numbers that is given out as ascending ranges is a parameter. Both versions of the
-- loop over the chunks, with and without a thread, do the same updates in the same order.
use c2pa_rs_html.Prelude.{
  ℕ, suc, ◌+◌, ◌-◌, ◌≤◌, ◌≡◌, List, [], ◌∷◌, ◌++◌, map, Text, Bool, true, false, not, ◌&&◌, ◌||◌,
  Option, none, some, length, take, drop, any, keep, ltb, leb, ◌==◌, if◌then◌else◌, bytes_eq,
  get_last?,
}
use c2pa_rs_html.Result.{Result, ok, err, ◌>>=◌}
use c2pa_rs_html.Error.{Error, bad_param, io_error, unsupported_type, other_error}
use c2pa_rs_html.Io.{u64, sub64, be64}
use c2pa_rs_html.Hashing.Hasher.{Hasher, hash_chunks}

pub record HashRange : Type 0 where
  pub start : ℕ
  pub count : ℕ
  pub bmff_offset : Option ℕ

abbrev pub new_range : ℕ → ℕ → HashRange
new_range start count = record { start = start; count = count; bmff_offset = none }

abbrev pub set_bmff_offset : ℕ → HashRange → HashRange
set_bmff_offset offset r = record r { bmff_offset = some offset }

-- An inclusive range of positions.
abbrev pub Span : Type 0
Span = ℕ × ℕ

abbrev pub within : Span → ℕ → Bool
within (a, b) n = leb a n && leb n b

abbrev pub covers : List Span → ℕ → Bool
covers [] n = false
covers (r ∷ rs) n = within r n || covers rs n

-- The operations of `RangeSet` that the code uses.
pub record RangeSet (T : Type 0) : Type 0 where
  pub from_span : Span → T
  pub remove_range : T → Span → T
  pub into_spans : T → List Span

-- Spans in order, none of them empty, each behind the one before.
abbrev pub Ascending : ℕ → List Span → Type 0
Ascending i [] = Unit {0}
Ascending i ((a, b) ∷ rs) = (i ≤ a) × (a ≤ b) × Ascending (suc b) rs

-- What the documentation of the crate says of spans that are not empty.
pub record IsRangeSet {T : Type 0} (s : RangeSet T) : Type 0 where
  pub ascending : (t : T) → Ascending 0 (s.into_spans t)
  pub from_covers :
      (a b n : ℕ) → a ≤ b → covers (s.into_spans (s.from_span (a, b))) n ≡ within (a, b) n
  pub remove_covers :
      (t : T) (a b n : ℕ)
      → a ≤ b
      → covers (s.into_spans (s.remove_range t (a, b))) n
        ≡ (covers (s.into_spans t) n && not (within (a, b) n))

-- `slice::sort_by_key`, a stable sort: an element is put behind those with a key that is not greater.
abbrev pub insert_by {ℓ} : {A : Type ℓ} → (A → ℕ) → A → List A → List A
insert_by key x [] = x ∷ []
insert_by key x (y ∷ ys) = if leb (key x) (key y) then x ∷ y ∷ ys else y ∷ insert_by key x ys

abbrev pub sort_by {ℓ} : {A : Type ℓ} → (A → ℕ) → List A → List A
sort_by key [] = []
sort_by key (x ∷ xs) = insert_by key x (sort_by key xs)

abbrev pub start_of : HashRange → ℕ
start_of r = r.start

abbrev pub span_start : Span → ℕ
span_start (a, b) = a

-- `start + length - 1`, on usize.
abbrev pub span_of : HashRange → Span
span_of r = (r.start, sub64 (u64 (r.start + r.count)) 1)

abbrev pub push_offset : Option ℕ → List ℕ → List ℕ
push_offset none os = os
push_offset (some o) os = o ∷ os

abbrev pub offsets : List HashRange → List ℕ
offsets [] = []
offsets (r ∷ rs) = push_offset r.bmff_offset (offsets rs)

abbrev pub points : List ℕ → List Span
points os = map (λ o. (o, o)) os

-- The spans to hash, and the offsets that are hashed themselves.
abbrev pub Plan : Type 0
Plan = List Span × List ℕ

module _ {T : Type 0} (s : RangeSet T) where
  abbrev pub remove_all : T → List HashRange → T
  remove_all t [] = t
  remove_all t (r ∷ rs) = remove_all (s.remove_range t (span_of r)) rs

  -- With offsets, their points are put before the spans, and all is sorted by the start.
  abbrev pub merge_offsets : List Span → List ℕ → Plan
  merge_offsets spans [] = (spans, [])
  merge_offsets spans (o ∷ os) =
      let kept = keep (λ p. covers spans (u64 (p + 1))) (o ∷ os) in
      (sort_by span_start (points kept ++ spans), kept)

  unfoldable pub exclusion_plan : ℕ → List HashRange → Plan
  exclusion_plan data_end hr =
      merge_offsets (s.into_spans (remove_all (s.from_span (0, data_end)) hr)) (offsets hr)

-- An offset comes before its inclusion.
abbrev pub inclusion_spans : List HashRange → List Span
inclusion_spans [] = []
inclusion_spans (r ∷ rs) = points (push_offset r.bmff_offset []) ++ span_of r ∷ inclusion_spans rs

unfoldable pub inclusion_plan : List HashRange → Plan
inclusion_plan hr = (inclusion_spans hr, offsets hr)

abbrev pub range_end : Option HashRange → ℕ
range_end none = 0
range_end (some r) = u64 (r.start + r.count)

module _ {T : Type 0} (s : RangeSet T) where
  -- The range that starts last must end inside the data.
  unfoldable pub plan : ℕ → Option (List HashRange) → Bool → Result Error Plan
  plan data_len none is_exclusion = ok ((0, data_len - 1) ∷ [], [])
  plan data_len (some []) is_exclusion = ok ((0, data_len - 1) ∷ [], [])
  plan data_len (some (r ∷ rs)) is_exclusion =
      let hr = sort_by start_of (r ∷ rs) in
      if ltb data_len (range_end (get_last? hr))
      then err bad_param
      else if is_exclusion
      then ok (exclusion_plan s (data_len - 1) hr)
      else ok (inclusion_plan hr)

module _ {S : Type 0} (h : Hasher S) where
  abbrev pub mark : List ℕ → Span → S → S
  mark starts (a, b) st =
      if any (λ o. o == a) starts && (sub64 b a == 0) then h.update st (be64 a) else st

  -- One span: the reads fail exactly if it runs past the end.
  unfoldable pub hash_span : List ℕ → Span → S → Result Error S
  hash_span input (a, b) st =
      let left = u64 (sub64 b a + 1) in
      if leb (a + left) (length input)
      then ok (hash_chunks h (suc left) st (take left (drop a input)))
      else err io_error

  unfoldable pub hash_spans : List ℕ → List ℕ → List Span → S → Result Error S
  hash_spans input starts [] st = ok st
  hash_spans input starts (r ∷ rs) st =
      hash_span input r (mark starts r st) >>= hash_spans input starts rs

  abbrev hash_plan : List ℕ → S → Plan → Result Error S
  hash_plan input st (spans, starts) = hash_spans input starts spans st

  module _ {T : Type 0} (s : RangeSet T) where
    abbrev hash_from : Option S → List ℕ → Option (List HashRange) → Bool → Result Error (List ℕ)
    hash_from none input hash_range is_exclusion = err unsupported_type
    hash_from (some st) input hash_range is_exclusion =
        if ltb (length input) 1
        then err other_error
        else plan s (length input) hash_range is_exclusion
          >>= (λ p. hash_plan input st p)
          >>= (λ done. ok (h.finalize done))

    unfoldable pub hash_stream_by_alg :
        Text → List ℕ → Option (List HashRange) → Bool → Result Error (List ℕ)
    hash_stream_by_alg alg input hash_range is_exclusion =
        hash_from (h.new alg) input hash_range is_exclusion

    abbrev pub accepts : List ℕ → Result Error (List ℕ) → Bool
    accepts hash (ok data_hash) = bytes_eq hash data_hash
    accepts hash _ = false

    unfoldable pub verify_stream_by_alg :
        Text → List ℕ → List ℕ → Option (List HashRange) → Bool → Bool
    verify_stream_by_alg alg hash input hash_range is_exclusion =
        accepts hash (hash_stream_by_alg alg input hash_range is_exclusion)

    abbrev unwrap_or_default : Result Error (List ℕ) → List ℕ
    unwrap_or_default (ok hash) = hash
    unwrap_or_default _ = []

    -- `hash_by_alg` and `verify_by_alg` with exclusions.
    unfoldable pub hash_excluding : Text → List ℕ → Option (List HashRange) → List ℕ
    hash_excluding alg input exclusions =
        unwrap_or_default (hash_stream_by_alg alg input exclusions true)

    unfoldable pub verify_excluding : Text → List ℕ → List ℕ → Option (List HashRange) → Bool
    verify_excluding alg hash input exclusions = bytes_eq hash (hash_excluding alg input exclusions)

    unfoldable pub hash_including : Text → List ℕ → List HashRange → List ℕ
    hash_including alg input inclusions =
        unwrap_or_default (hash_stream_by_alg alg input (some inclusions) false)
