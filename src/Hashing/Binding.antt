-- ===== src/Hashing/Binding.antt =====
-- The hash of a stream with exclusions, and what it binds.
use c2pa_rs_html.Prelude.{
  ℕ, suc, ◌+◌, ◌-◌, ◌^◌, ◌≤◌, ◌<◌, ◌≡◌, refl, sym, ap, ◌∙◌, List, [], ◌∷◌, Text, Bool, true, false,
  not, ◌&&◌, ◌||◌, some, All, arith, length, drop, leb, ltb, get_last?, length-take, length-drop,
}
use c2pa_rs_html.Result.{ok}
use c2pa_rs_html.Io.{u64, sub64}
use c2pa_rs_html.Hashing.Hasher.{Hasher, hash_chunks_lem}
use c2pa_rs_html.Hashing.Ranges.{
  HashRange, Span, within, covers, Ascending, RangeSet, IsRangeSet, sort_by, start_of, remove_all,
  exclusion_plan, range_end, plan, hash_span, hash_spans, hash_stream_by_alg,
}
use c2pa_rs_html.Hashing.Select.{select_ext, slice, slices, EndBelow, slices-select}
use c2pa_rs_html.Hashing.Exclusions.{
  excluded, kept, Plain, IsHasher, excluded-sort, All-sort, range_end_le, no_offsets,
  covers-remove_all,
}

true_or : (b : Bool) → (b || true) ≡ true
true_or true = refl
true_or false = refl

end_below :
    (size i : ℕ) (rs : List Span)
    → Ascending i rs
    → ((n : ℕ) → covers rs n ≡ true → n < size)
    → EndBelow size rs
end_below size i [] asc h = tt
end_below size i ((a, b) ∷ rs) asc h =
    let last : within (a, b) b ≡ true = ground arith in
    (h b (rw last), end_below size (suc b) rs asc.2 (λ n c. h n (rw c (true_or (within (a, b) n)))))

module _ {S : Type 0} (h : Hasher S) (laws : IsHasher h) where
  hash_span_lem :
      (input : List ℕ) (a b : ℕ) (st : S)
      → length input < 2 ^ 64
      → a ≤ b
      → b < length input
      → hash_span h input (a, b) st ≡ ok (h.update st (slice input (a, b)))
  unfolding hash_span
  hash_span_lem input a b st small le lt =
      let left : u64 (sub64 b a + 1) ≡ suc b - a = omega arith in
      let room : leb (a + (suc b - a)) (length input) ≡ true = ground arith in
      let size = length-take (suc b - a) (drop a input) in
      let rest = length-drop a input in
      rw (left, room)
        (ap ok (
          hash_chunks_lem h laws.streams (suc (suc b - a)) st (slice input (a, b)) (omega arith)
            (omega arith)))

  hash_spans_lem :
      (input : List ℕ) (i : ℕ) (rs : List Span) (st : S)
      → length input < 2 ^ 64
      → Ascending i rs
      → EndBelow (length input) rs
      → hash_spans h input [] rs st ≡ ok (h.update st (slices input rs))
  unfolding hash_spans
  hash_spans_lem input i [] st small asc below = ap ok (sym (laws.no_bytes st))
  hash_spans_lem input i ((a, b) ∷ rs) st small asc below =
      rw (hash_span_lem input a b st small asc.1 below.0) (
        hash_spans_lem input (suc b) rs (h.update st (slice input (a, b))) small asc.2 below.1
        ∙ ap ok (laws.streams st (slice input (a, b)) (slices input rs)))

  module _ {T : Type 0} (s : RangeSet T) (set_laws : IsRangeSet s) where
    -- The spans that are left when the exclusions are taken out of the whole.
    abbrev left_over : List HashRange → List ℕ → List Span
    left_over hr input = s.into_spans (remove_all s (s.from_span (0, length input - 1)) hr)

    covers-left_over :
        (hr : List HashRange) (input : List ℕ) (n : ℕ)
        → length input < 2 ^ 64
        → All (Plain (length input)) hr
        → covers (left_over hr input) n ≡ (within (0, length input - 1) n && not (excluded hr n))
    covers-left_over hr input n small plain =
        covers-remove_all s set_laws (length input) (s.from_span (0, length input - 1)) hr n small
          plain
        ∙ ap (λ c. c && not (excluded hr n))
            (set_laws.from_covers 0 (length input - 1) n (omega arith))

    hash_left_over :
        (hr : List HashRange) (input : List ℕ) (st : S)
        → 0 < length input
        → length input < 2 ^ 64
        → All (Plain (length input)) hr
        → hash_spans h input [] (left_over hr input) st ≡ ok (h.update st (kept hr input))
    hash_left_over hr input st some_data small plain =
        let asc = set_laws.ascending (remove_all s (s.from_span (0, length input - 1)) hr) in
        let below =
          end_below (length input) 0 (left_over hr input) asc
            (λ n c. inside n (sym (covers-left_over hr input n small plain) ∙ c)) in
        hash_spans_lem input 0 (left_over hr input) st small asc below
        ∙ ap (λ l. ok (h.update st l))
            (slices-select input 0 (left_over hr input) asc below (omega arith)
              ∙ select_ext (covers (left_over hr input)) (λ n. not (excluded hr n)) 0 input
                  (λ n l r. covers-left_over hr input n small plain ∙ whole n r))
      where
        inside :
            (n : ℕ)
            → (within (0, length input - 1) n && not (excluded hr n)) ≡ true
            → n < length input
        inside n c = ground arith

        whole :
            (n : ℕ)
            → n < 0 + length input
            → (within (0, length input - 1) n && not (excluded hr n)) ≡ not (excluded hr n)
        whole n lt = (let e : within (0, length input - 1) n ≡ true = ground arith in rw e)

    kept-sort :
        (hr : List HashRange) (input : List ℕ) → kept (sort_by start_of hr) input ≡ kept hr input
    kept-sort hr input =
        select_ext (λ n. not (excluded (sort_by start_of hr) n)) (λ n. not (excluded hr n)) 0 input
          (λ n l r. ap not (excluded-sort hr n))

    -- With a supported algorithm and exclusions that are not empty, end inside the data and have no
    -- BMFF offset, the hash of a stream that is not empty and shorter than 2^64 bytes is the hasher's of the bytes that no exclusion
    -- covers, whatever the order and the overlaps of the exclusions.
    pub hash_stream_by_alg-exclusions :
        (alg : Text) (st : S) (r : HashRange) (rs : List HashRange) (input : List ℕ)
        → h.new alg ≡ some st
        → 0 < length input
        → length input < 2 ^ 64
        → All (Plain (length input)) (r ∷ rs)
        → hash_stream_by_alg h s alg input (some (r ∷ rs)) true
          ≡ ok (h.finalize (h.update st (kept (r ∷ rs) input)))
    unfolding hash_stream_by_alg plan exclusion_plan
    hash_stream_by_alg-exclusions alg st r rs input supported some_data small plain =
        let hr = sort_by start_of (r ∷ rs) in
        let sorted = All-sort (Plain (length input)) (r ∷ rs) plain in
        let ends = range_end_le (length input) hr small sorted in
        let not_empty : ltb (length input) 1 ≡ false = ground arith in
        let inside : ltb (length input) (range_end (get_last? hr)) ≡ false = ground arith in
        rw
          (
            supported,
            not_empty,
            inside,
            no_offsets (length input) hr sorted,
            hash_left_over hr input st some_data small sorted,
            kept-sort (r ∷ rs) input,
          )
          refl
