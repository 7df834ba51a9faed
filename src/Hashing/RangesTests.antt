-- ===== src/Hashing/RangesTests.antt =====
-- Runs of hashing with exclusions, with the toy hasher and a set of ranges that is a bound and a test.
use c2pa_rs_html.Prelude.{
  ℕ, zero, suc, ◌+◌, ◌≤◌, ◌≡◌, ◌↔◌, refl, sym, ap, ◌∙◌, List, [], ◌∷◌, ◌++◌, Text, bytes, Bool,
  true, false, not, ◌&&◌, ◌||◌, Option, none, some, arith, length, length-append, leb, ltb,
  if◌then◌else◌, Bool-cases, inl, inr, All, ◌⊎◌, ◌==◌, ==_iff, append_assoc, append-nil,
}
use c2pa_rs_html.Result.{ok}
use c2pa_rs_html.Hashing.Hasher.{Hasher}
use c2pa_rs_html.Hashing.Ranges.{
  new_range, Span, within, covers, Ascending, RangeSet, IsRangeSet, hash_stream_by_alg,
}
use c2pa_rs_html.Hashing.Exclusions.{IsHasher, Plain}
use c2pa_rs_html.Hashing.DataHash.{
  DataHash, new_data_hash, gen_hash_from_stream, verify_stream_hash, pad_to_size,
}
use c2pa_rs_html.Hashing.DataHash.Verify.{bound, verify_stream_hash-gen_hash}
use c2pa_rs_html.Hashing.DataHash.Padding.{Ends, Padded, PadGrows, pad_to_size-Ends}
use c2pa_rs_html.Hashing.Binding.{hash_stream_by_alg-exclusions}

abbrev sum : List ℕ → ℕ
sum [] = 0
sum (b ∷ bs) = b + sum bs

abbrev pub adder : Hasher (List ℕ)
adder = record { new = λ alg. some []; update = λ s b. s ++ b; finalize = λ s. sum s ∷ [] }

pub adder-IsHasher : IsHasher adder
adder-IsHasher = record { streams = append_assoc; no_bytes = append-nil }

-- The numbers from `i`, `k` of them, that pass a test, each one a span.
abbrev singles : (ℕ → Bool) → ℕ → ℕ → List Span
singles p i zero = []
singles p i (suc k) = if p i then (i, i) ∷ singles p (suc i) k else singles p (suc i) k

abbrev Numbers : Type 0
Numbers = ℕ × (ℕ → Bool)

abbrev pub tested : RangeSet Numbers
tested = record {
  from_span = λ (a, b). (suc b, λ n. leb a n);
  remove_range = λ (bound, p) r. (bound, λ n. p n && not (within r n));
  into_spans = λ (bound, p). singles p 0 bound;
}

singles-Ascending : (p : ℕ → Bool) (i j k : ℕ) → j ≤ i → Ascending j (singles p i k)
singles-Ascending p i j zero le = tt
singles-Ascending p i j (suc k) le = elim (Bool-cases (p i)) [
  | inl e ↦ rw e (le, omega arith, singles-Ascending p (suc i) (suc i) k (omega arith))
  | inr e ↦ rw e (singles-Ascending p (suc i) j k (omega arith))
]

none_left : (b : Bool) (i n : ℕ) → false ≡ (b && (leb i n && ltb n (i + 0)))
none_left b i n = ground arith

at_first :
    (i k n : ℕ) (rest : Bool)
    → (n == i) ≡ true
    → ((leb i n && leb n i) || rest) ≡ (leb i n && ltb n (i + suc k))
at_first i k n rest e = ground arith

past_first :
    (b : Bool) (i k n : ℕ)
    → (n == i) ≡ false
    → ((leb i n && leb n i) || (b && (leb (suc i) n && ltb n (suc i + k))))
      ≡ (b && (leb i n && ltb n (i + suc k)))
past_first b i k n e = ground arith

untested :
    (b : Bool) (i k n : ℕ)
    → (b ≡ false) ⊎ ((n == i) ≡ false)
    → (b && (leb (suc i) n && ltb n (suc i + k))) ≡ (b && (leb i n && ltb n (i + suc k)))
untested b i k n e = ground arith

covers-singles :
    (p : ℕ → Bool) (i k n : ℕ) → covers (singles p i k) n ≡ (p n && (leb i n && ltb n (i + k)))
covers-singles p i zero n = none_left (p n) i n
covers-singles p i (suc k) n = elim (Bool-cases (p i)) [
  | inl e ↦ rw (e, covers-singles p (suc i) k n) (first e (Bool-cases (n == i)))
  | inr e ↦
      rw (e, covers-singles p (suc i) k n) (untested (p n) i k n (other e (Bool-cases (n == i))))
]
  where
    first :
        p i ≡ true
        → ((n == i) ≡ true) ⊎ ((n == i) ≡ false)
        → ((leb i n && leb n i) || (p n && (leb (suc i) n && ltb n (suc i + k))))
          ≡ (p n && (leb i n && ltb n (i + suc k)))
    first e (inr d) = past_first (p n) i k n d
    first e (inl d) =
        rw (ap p ((==_iff n i).0 d) ∙ e) (at_first i k n (leb (suc i) n && ltb n (suc i + k)) d)

    other :
        p i ≡ false → ((n == i) ≡ true) ⊎ ((n == i) ≡ false) → (p n ≡ false) ⊎ ((n == i) ≡ false)
    other e (inr d) = inr d
    other e (inl d) = inl (ap p ((==_iff n i).0 d) ∙ e)

below : (a b n : ℕ) → (leb a n && (leb 0 n && ltb n (0 + suc b))) ≡ within (a, b) n
below a b n = ground arith

and_true : (r : Bool) → r ≡ (r && true)
and_true true = refl
and_true false = refl

and_swap : (p r w : Bool) → ((p && w) && r) ≡ ((p && r) && w)
and_swap true r true = and_true r
and_swap true true false = refl
and_swap true false false = refl
and_swap false r w = refl

pub tested-IsRangeSet : IsRangeSet tested
tested-IsRangeSet = record {
  ascending = λ t. singles-Ascending t.1 0 0 t.0 (omega arith);
  from_covers = λ a b n le. covers-singles (λ m. leb a m) 0 (suc b) n ∙ below a b n;
  remove_covers = λ t a b n le.
      covers-singles (λ m. t.1 m && not (within (a, b) m)) 0 t.0 n
      ∙ and_swap (t.1 n) (leb 0 n && ltb n (0 + t.0)) (not (within (a, b) n))
      ∙ ap (λ c. c && not (within (a, b) n)) (sym (covers-singles t.1 0 t.0 n));
}

abbrev pub alg : Text
alg = bytes "sha256"

-- Two exclusions that fit a stream of four bytes.
pub two-Plain : All (Plain 4) (new_range 2 1 ∷ new_range 0 1 ∷ [])
two-Plain = ((omega arith, omega arith, refl), ((omega arith, omega arith, refl), tt))

hash_stream_by_alg-exclusions_example :
    hash_stream_by_alg adder tested alg
      (1 ∷ 2 ∷ 3 ∷ 4 ∷ [])
      (some (new_range 2 1 ∷ new_range 0 1 ∷ []))
      true
    ≡ ok (6 ∷ [])
hash_stream_by_alg-exclusions_example =
    hash_stream_by_alg-exclusions adder adder-IsHasher tested tested-IsRangeSet alg []
      (new_range 2 1) (new_range 0 1 ∷ []) (1 ∷ 2 ∷ 3 ∷ 4 ∷ []) refl (omega arith) (omega arith)
      two-Plain

verify_stream_hash-gen_hash_example :
    (d : DataHash) × (gen_hash_from_stream adder tested
        (bound (new_data_hash alg alg) alg (new_range 2 1 ∷ new_range 0 1 ∷ []))
        (1 ∷ 2 ∷ 3 ∷ 4 ∷ [])
      ≡ ok d)
    × ((verify_stream_hash adder tested d (7 ∷ 2 ∷ 8 ∷ 5 ∷ []) none ≡ ok tt)
        ↔ (◌≡◌ {A = List ℕ} (7 ∷ []) (6 ∷ [])))
verify_stream_hash-gen_hash_example =
    verify_stream_hash-gen_hash adder adder-IsHasher tested tested-IsRangeSet
      (new_data_hash alg alg) alg [] (new_range 2 1) (new_range 0 1 ∷ []) (1 ∷ 2 ∷ 3 ∷ 4 ∷ [])
      (7 ∷ 2 ∷ 8 ∷ 5 ∷ []) refl refl
      (record { some_data = omega arith; small = omega arith; plain = two-Plain })
      (record { some_data = omega arith; small = omega arith; plain = two-Plain })

-- A serialization with a frame of three bytes, and two more around a second padding.
abbrev second_size : Option (List ℕ) → ℕ
second_size none = 0
second_size (some p) = length p + 2

abbrev framed : DataHash → Option ℕ
framed d = some (length d.pad + second_size d.pad2 + 3)

framed-PadGrows : PadGrows framed
framed-PadGrows d c c' e e' =
    let size : length d.pad + second_size d.pad2 + 3 ≡ c = (cc) in
    let size' : length (d.pad ++ 0 ∷ []) + second_size d.pad2 + 3 ≡ c' = (cc) in
    omega (arith, size, size', length-append d.pad (0 ∷ []))

pad_to_size-Ends_example :
    Ends (Padded framed (new_data_hash alg alg) 5) (pad_to_size framed (new_data_hash alg alg) 5)
pad_to_size-Ends_example = pad_to_size-Ends framed framed-PadGrows (new_data_hash alg alg) 5
