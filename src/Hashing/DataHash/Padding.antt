-- ===== src/Hashing/DataHash/Padding.antt =====
-- The padding of a data hash ends, with exactly the size that is wanted.
use c2pa_rs_html.Prelude.{
  ℕ, zero, suc, ◌+◌, ◌-◌, ◌*◌, ◌≤◌, ◌<◌, ◌≡◌, refl, ap, ◌∙◌, Bool, true, false, Option, none, some,
  arith, is_some, ltb, ltb→lt, ◌==◌, ==_iff, if◌then◌else◌, Bool-cases, Option-cases, inl, inr, ◌⊎◌,
}
use c2pa_rs_html.Result.{Result, ok, err, panic, stuck, ◌>>=◌}
use c2pa_rs_html.Error.{Error}
use c2pa_rs_html.Hashing.DataHash.{
  DataHash, size_of, push_pad, split_pad, start_pad, pad_loop, pad_to_size,
}

-- The same data hash but for its padding.
pub record SamePayload (d d' : DataHash) : Type 0 where
  pub same_exclusions : d'.exclusions ≡ d.exclusions
  pub same_name : d'.name ≡ d.name
  pub same_alg : d'.alg ≡ d.alg
  pub same_hash : d'.hash ≡ d.hash
  pub same_url : d'.url ≡ d.url

-- The call ends: with an error, or with a value of which `P` holds.
abbrev pub Ends : (DataHash → Type 0) → Result Error DataHash → Type 0
Ends P (ok d) = P d
Ends P (err e) = Unit {0}
Ends P panic = ⊥
Ends P stuck = ⊥

module _ (size : DataHash → Option ℕ) where
  -- A byte more of padding makes the assertion longer.
  abbrev pub PadGrows : Type 0
  PadGrows = (d : DataHash) (c c' : ℕ) → size d ≡ some c → size (push_pad size d) ≡ some c' → c < c'

  abbrev pub Padded : DataHash → ℕ → DataHash → Type 0
  Padded d n d' = (size d' ≡ some n) × SamePayload d d'

  -- How many rounds are left, at most.
  abbrev rounds : ℕ → ℕ → DataHash → ℕ
  rounds n c d = (n - c) + (if is_some d.pad2 then 1 else n + 3)

  module _ (grows : PadGrows) where
    pad_loop-Ends :
        (fuel n last c : ℕ) (d₀ d : DataHash)
        → size d ≡ some c
        → SamePayload d₀ d
        → rounds n c d ≤ fuel
        → Ends (Padded d₀ n) (pad_loop size fuel n last c d)
    unfolding pad_loop
    pad_loop-Ends zero n last c d₀ d e same le = elim (Bool-cases (is_some d.pad2)) [
      | inl two ↦ absurd (let k = rw two at le in omega arith)
      | inr one ↦ absurd (let k = rw one at le in omega arith)
    ]
    pad_loop-Ends (suc fuel) n last c d₀ d e same le = elim (Bool-cases (c == n)) [
      | inl done ↦ rw done (e ∙ ap some ((==_iff c n).0 done), same)
      | inr more ↦ elim (Bool-cases (ltb c n)) [
        | inl less ↦
            rw (more, less)
              (pushed (Option-cases (size (push_pad size d))) (λ c' e' lt.
                pad_loop-Ends fuel n (last + 1) c' d₀ (push_pad size d) e' (padded same) (
                  step_rounds n c c' fuel (if is_some d.pad2 then 1 else n + 3) lt (ltb→lt c n less)
                    le)))
        | inr over ↦ elim (Bool-cases (is_some d.pad2)) [
          | inl two ↦ rw (more, over, two) tt
          | inr one ↦
              rw (more, over, one)
                (split (Option-cases (size (split_pad size last d))) (λ c' e'.
                  pad_loop-Ends fuel n 0 c' d₀ (split_pad size last d) e' (halved same)
                    (let k = rw one at le in omega arith)))
        ]
      ]
    ]
      where
        padded : SamePayload d₀ d → SamePayload d₀ (push_pad size d)
        padded p = record {
          same_exclusions = p.same_exclusions;
          same_name = p.same_name;
          same_alg = p.same_alg;
          same_hash = p.same_hash;
          same_url = p.same_url;
        }

        halved : SamePayload d₀ d → SamePayload d₀ (split_pad size last d)
        halved p = record {
          same_exclusions = p.same_exclusions;
          same_name = p.same_name;
          same_alg = p.same_alg;
          same_hash = p.same_hash;
          same_url = p.same_url;
        }

        step_rounds :
            (n c c' fuel x : ℕ) → c < c' → c < n → (n - c) + x ≤ suc fuel → (n - c') + x ≤ fuel
        step_rounds n c c' fuel x lt ln le = omega arith

        pushed :
            (size (push_pad size d) ≡ none) ⊎ ((c' : ℕ) × (size (push_pad size d) ≡ some c'))
            → ((c' : ℕ)
                → size (push_pad size d) ≡ some c'
                → c < c'
                → Ends (Padded d₀ n) (pad_loop size fuel n (last + 1) c' (push_pad size d)))
            → Ends (Padded d₀ n) (
                size_of size (push_pad size d) >>= λ c'.
                pad_loop size fuel n (last + 1) c' (push_pad size d))
        pushed (inl e') k = rw e' tt
        pushed (inr (c', e')) k = rw e' (k c' e' (grows d c c' e e'))

        split :
            (size (split_pad size last d) ≡ none)
              ⊎ ((c' : ℕ) × (size (split_pad size last d) ≡ some c'))
            → ((c' : ℕ)
                → size (split_pad size last d) ≡ some c'
                → Ends (Padded d₀ n) (pad_loop size fuel n 0 c' (split_pad size last d)))
            → Ends (Padded d₀ n) (
                size_of size (split_pad size last d)
                >>= start_pad size n (λ c'. pad_loop size fuel n 0 c' (split_pad size last d)))
        split (inl e') k = rw e' tt
        split (inr (c', e')) k = elim (Bool-cases (ltb n c')) [
          | inl big ↦ rw (e', big) tt
          | inr fits ↦ rw (e', fits) (k c' e')
        ]

    -- `pad_to_size` ends: with an error, or with the same data hash but for its padding, whose
    -- serialized size is the one that is wanted; for any serialization that one more byte of padding makes longer.
    pub pad_to_size-Ends :
        (d : DataHash) (desired_size : ℕ)
        → Ends (Padded d desired_size) (pad_to_size size d desired_size)
    unfolding pad_to_size
    pad_to_size-Ends d n = started (Option-cases (size d))
      where
        started :
            (size d ≡ none) ⊎ ((c : ℕ) × (size d ≡ some c))
            → Ends
                (Padded d n)
                (size_of size d >>= start_pad size n (λ c. pad_loop size (2 * n + 4) n 0 c d))
        started (inl e) = rw e tt
        started (inr (c, e)) = elim (Bool-cases (ltb n c)) [
          | inl big ↦ rw (e, big) tt
          | inr fits ↦
              rw (e, fits)
                (pad_loop-Ends (2 * n + 4) n 0 c d d e
                  (record {
                    same_exclusions = refl;
                    same_name = refl;
                    same_alg = refl;
                    same_hash = refl;
                    same_url = refl;
                  })
                  (enough (is_some d.pad2)))
        ]
          where
            enough : (b : Bool) → (n - c) + (if b then 1 else n + 3) ≤ 2 * n + 4
            enough true = omega arith
            enough false = omega arith
