-- ===== src/Claim/Decimal.antt =====
-- `usize` as a decimal text, and `str::parse::<usize>` of the standard library.
use c2pa_rs_html.Prelude.{
  HasNo, is_empty, ℕ, zero, suc, ◌+◌, ◌-◌, ◌*◌, ◌/◌, ◌%◌, ◌^◌, ◌<◌, ◌≡◌, refl, sym, ap, ◌∙◌, [],
  ◌∷◌, ◌++◌, Text, Bool, true, false, ◌&&◌, Option, none, some, all, length, length-append, arith,
  ltb, leb, ◌==◌, if◌then◌else◌, Bool-cases, inl, inr,
}

-- The digits of a number below 10 ^ fuel, with no leading zero.
abbrev digits : ℕ → ℕ → Text
digits zero n = []
digits (suc fuel) n =
    let front = digits fuel (n / 10) in
    if ltb n 10 then (48 + n) ∷ [] else front ++ (48 + n % 10) ∷ []

-- A usize has at most 20 digits.
unfoldable pub to_decimal : ℕ → Text
to_decimal n = digits 20 n

abbrev push_digit : ℕ → ℕ → Option ℕ
push_digit value b =
    if (leb 48 b && leb b 57) && ltb (value * 10 + (b - 48)) (2 ^ 64)
    then some (value * 10 + (b - 48))
    else none

abbrev or_fail : Option ℕ → (ℕ → Option ℕ) → Option ℕ
or_fail none f = none
or_fail (some n) f = f n

abbrev parse_digits : ℕ → Text → Option ℕ
parse_digits value [] = some value
parse_digits value (b ∷ s) = or_fail (push_digit value b) (λ v. parse_digits v s)

-- A sign `+` may stand before the digits, of which there is one at least.
unfoldable pub parse_usize : Text → Option ℕ
parse_usize [] = none
parse_usize (b ∷ []) = push_digit 0 b
parse_usize (b ∷ c ∷ s) = if b == 43 then parse_digits 0 (c ∷ s) else parse_digits 0 (b ∷ c ∷ s)

parse_digits-append :
    (value : ℕ) (s : Text) (b : ℕ)
    → parse_digits value (s ++ b ∷ []) ≡ or_fail (parse_digits value s) (λ v. push_digit v b)
parse_digits-append value [] b = last (push_digit value b)
  where
    last : (o : Option ℕ) → or_fail o (λ v. some v) ≡ o
    last none = refl
    last (some v) = refl
parse_digits-append value (d ∷ s) b = by_digit (push_digit value d) (λ v. parse_digits-append v s b)
  where
    by_digit :
        (o : Option ℕ)
        → ((v : ℕ)
            → parse_digits v (s ++ b ∷ []) ≡ or_fail (parse_digits v s) (λ w. push_digit w b))
        → or_fail o (λ v. parse_digits v (s ++ b ∷ []))
          ≡ or_fail (or_fail o (λ v. parse_digits v s)) (λ w. push_digit w b)
    by_digit none f = refl
    by_digit (some v) f = f v

one_digit : (n : ℕ) → ltb n 10 ≡ true → push_digit 0 (48 + n) ≡ some n
one_digit n e = ground arith

next_digit : (n : ℕ) → n < 2 ^ 64 → push_digit (n / 10) (48 + n % 10) ≡ some n
next_digit n k = ground arith

below : (n m : ℕ) → n < 10 * m → n / 10 < m
below n m h = omega arith

parse_digits-digits :
    (fuel n : ℕ) → n < 10 ^ fuel → n < 2 ^ 64 → parse_digits 0 (digits fuel n) ≡ some n
parse_digits-digits zero n h k = (let zero_n : n ≡ 0 = ground arith in ap some (sym zero_n))
parse_digits-digits (suc fuel) n h k = elim (Bool-cases (ltb n 10)) [
  | inl e ↦ rw e (let d : push_digit 0 (48 + n) ≡ some n = one_digit n e in rw d refl)
  | inr e ↦ rw e (
      let ih =
        parse_digits-digits fuel (n / 10) (below n (10 ^ fuel) (omega arith)) (omega arith) in
      parse_digits-append 0 (digits fuel (n / 10)) (48 + n % 10)
      ∙ ap (λ o. or_fail o (λ v. push_digit v (48 + n % 10))) ih
      ∙ next_digit n k)
]

abbrev pub is_digit : ℕ → Bool
is_digit b = leb 48 b && leb b 57

all-append :
    (p : ℕ → Bool) (xs ys : Text) → all p xs ≡ true → all p ys ≡ true → all p (xs ++ ys) ≡ true
all-append p [] ys h k = k
all-append p (x ∷ xs) ys h k = elim (Bool-cases (p x)) [
  | inl e ↦ rw e (all-append p xs ys (rw e at h) k)
  | inr e ↦ (let clash = rw e at h in cc)
]

all-digits : (fuel n : ℕ) → all is_digit (digits fuel n) ≡ true
all-digits zero n = refl
all-digits (suc fuel) n = elim (Bool-cases (ltb n 10)) [
  | inl e ↦ rw e (let d : is_digit (48 + n) ≡ true = ground arith in rw d)
  | inr e ↦ rw e (
      all-append is_digit (digits fuel (n / 10)) _ (all-digits fuel (n / 10))
        (let d : is_digit (48 + n % 10) ≡ true = ground arith in rw d))
]

-- A number is written with digits only.
pub all-to_decimal : (n : ℕ) → all is_digit (to_decimal n) ≡ true
unfolding to_decimal
all-to_decimal n = all-digits 20 n

unsigned :
    (s : Text) (n : ℕ)
    → all is_digit s ≡ true
    → 0 < length s
    → parse_digits 0 s ≡ some n
    → parse_usize s ≡ some n
unfolding parse_usize
unsigned [] n h k e = absurd (omega arith)
unsigned (b ∷ []) n h k e = alone (push_digit 0 b) e
  where
    alone : (o : Option ℕ) → or_fail o (λ v. some v) ≡ some n → o ≡ some n
    alone none e = e
    alone (some v) e = e
unsigned (b ∷ c ∷ s) n h k e = elim (Bool-cases (b == 43)) [
  | inl sign ↦
      (let no_digit : is_digit b ≡ false = ground arith in (let clash = rw no_digit at h in cc))
  | inr plain ↦ rw plain e
]

length-digits : (fuel n : ℕ) → 0 < length (digits (suc fuel) n)
length-digits fuel n = elim (Bool-cases (ltb n 10)) [
  | inl e ↦ rw e (omega arith)
  | inr e ↦ rw e (omega (arith, length-append (digits fuel (n / 10)) ((48 + n % 10) ∷ [])))
]

-- A number that is written is read back.
pub parse_usize-to_decimal : (n : ℕ) → n < 2 ^ 64 → parse_usize (to_decimal n) ≡ some n
unfolding to_decimal
parse_usize-to_decimal n h =
    unsigned (digits 20 n) n (all-digits 20 n) (length-digits 19 n)
      (parse_digits-digits 20 n (omega arith) h)

digits-HasNo : (c : ℕ) (d : Text) → is_digit c ≡ false → all is_digit d ≡ true → HasNo c d
digits-HasNo c [] k h = tt
digits-HasNo c (b ∷ d) k h = elim (Bool-cases (is_digit b)) [
  | inl e ↦ ((λ p. (let clash = sym e ∙ ap is_digit p ∙ k in cc)), digits-HasNo c d k (rw e at h))
  | inr e ↦ (let clash = rw e at h in cc)
]

pub to_decimal-HasNo : (c n : ℕ) → is_digit c ≡ false → HasNo c (to_decimal n)
to_decimal-HasNo c n k = digits-HasNo c (to_decimal n) k (all-to_decimal n)

-- A number is written with a digit at least.
pub is_empty-to_decimal : (n : ℕ) → is_empty (to_decimal n) ≡ false
unfolding to_decimal
is_empty-to_decimal n = some_digit (digits 20 n) (length-digits 19 n)
  where
    some_digit : (d : Text) → 0 < length d → is_empty d ≡ false
    some_digit [] h = absurd (omega arith)
    some_digit (b ∷ d) h = refl
