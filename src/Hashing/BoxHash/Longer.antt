-- ===== src/Hashing/BoxHash/Longer.antt =====
-- The hash of a range stays when bytes are put behind the data.
use c2pa_rs_html.Prelude.{
  ℕ, zero, suc, ◌+◌, ◌≤◌, ◌≡◌, refl, ap, List, [], ◌∷◌, ◌++◌, Text, false, some, length,
  length-append, take, drop, ltb, leb, leb→le, le→leb, arith, Bool-cases, Option-cases, inl, inr,
}
use c2pa_rs_html.Result.{Result, ok, err, panic, stuck, ◌>>=◌}
use c2pa_rs_html.Error.{Error}
use c2pa_rs_html.Io.{u64, sub64}
use c2pa_rs_html.Hashing.Hasher.{Hasher}
use c2pa_rs_html.Hashing.Ranges.{
  Span, Plan, HashRange, RangeSet, mark, range_end, plan, hash_span, hash_spans, hash_stream_by_alg,
}

-- The value of a step, and what is left, of a call that succeeds.
pub ok_step {ℓ κ} :
    {A : Type ℓ} {B : Type κ} (r : Result Error A) (f : A → Result Error B) (b : B)
    → (r >>= f) ≡ ok b
    → (a : A) × (r ≡ ok a) × (f a ≡ ok b)
ok_step (ok a) f b e = (a, refl, e)
ok_step (err x) f b e = cc
ok_step panic f b e = cc
ok_step stuck f b e = cc

take_inside :
    (n a : ℕ) (x z : List ℕ) → a + n ≤ length x → take n (drop a (x ++ z)) ≡ take n (drop a x)
take_inside zero a x z le = refl
take_inside (suc n) zero [] z le = absurd (omega arith)
take_inside (suc n) (suc a) [] z le = absurd (omega arith)
take_inside (suc n) zero (b ∷ x) z le = ap (λ l. b ∷ l) (take_inside n zero x z (omega arith))
take_inside (suc n) (suc a) (b ∷ x) z le = take_inside (suc n) a x z (omega arith)

module _ {S : Type 0} (h : Hasher S) (x z : List ℕ) where
  longer : length x ≤ length (x ++ z)
  longer = omega (arith, length-append x z)

  hash_span-append :
      (r : Span) (st st' : S) → hash_span h x r st ≡ ok st' → hash_span h (x ++ z) r st ≡ ok st'
  unfolding hash_span
  hash_span-append (a, b) st st' e =
      let left = u64 (sub64 b a + 1) in
      elim (Bool-cases (leb (a + left) (length x))) [
        | inl f ↦
            (let le = leb→le (a + left) (length x) f in
              let e' = rw f at e in
              let f' = le→leb (a + left) (length (x ++ z)) (omega (arith, le, longer)) in
              rw (f', take_inside left a x z le) e')
        | inr f ↦ (let e' = rw f at e in cc)
      ]

  hash_spans-append :
      (starts : List ℕ) (spans : List Span) (st st' : S)
      → hash_spans h x starts spans st ≡ ok st'
      → hash_spans h (x ++ z) starts spans st ≡ ok st'
  unfolding hash_spans
  hash_spans-append starts [] st st' e = e
  hash_spans-append starts (r ∷ rs) st st' e =
      let (st₁, e₁, e₂) = ok_step (hash_span h x r (mark h starts r st)) _ _ e in
      rw (hash_span-append r (mark h starts r st) st₁ e₁) (hash_spans-append starts rs st₁ st' e₂)

  not_below : (n : ℕ) → ltb (length x) n ≡ false → ltb (length (x ++ z)) n ≡ false
  not_below n e = let l = longer in ground arith

  module _ {T : Type 0} (s : RangeSet T) where
    plan-append :
        (r : HashRange) (p : Plan)
        → plan s (length x) (some (r ∷ [])) false ≡ ok p
        → plan s (length (x ++ z)) (some (r ∷ [])) false ≡ ok p
    unfolding plan
    plan-append r p e = elim (Bool-cases (ltb (length x) (range_end (some r)))) [
      | inl f ↦ (let e' = rw f at e in cc)
      | inr f ↦ (let e' = rw f at e in rw (not_below (range_end (some r)) f) e')
    ]

    abbrev planned : List ℕ → S → Plan → Result Error S
    planned input st (spans, starts) = hash_spans h input starts spans st

    pub hash_range-append :
        (alg : Text) (r : HashRange) (v : List ℕ)
        → hash_stream_by_alg h s alg x (some (r ∷ [])) false ≡ ok v
        → hash_stream_by_alg h s alg (x ++ z) (some (r ∷ [])) false ≡ ok v
    unfolding hash_stream_by_alg
    hash_range-append alg r v e = elim (Option-cases (h.new alg)) [
      | inl f ↦ (let e' = rw f at e in cc)
      | inr (st, f) ↦
          (let e' = rw f at e in
            rw f (elim (Bool-cases (ltb (length x) 1)) [
              | inl g ↦ (let e'' = rw g at e' in cc)
              | inr g ↦
                  (let e'' = rw g at e' in
                    let (st', e₁, e₂) =
                      ok_step (plan s (length x) (some (r ∷ [])) false >>= planned x st) _ _ e'' in
                    let ((spans, starts), e₃, e₄) =
                      ok_step (plan s (length x) (some (r ∷ [])) false) _ _ e₁ in
                    rw
                      (
                        not_below 1 g,
                        plan-append r (spans, starts) e₃,
                        hash_spans-append starts spans st st' e₄,
                      )
                      e₂)
            ]))
    ]
