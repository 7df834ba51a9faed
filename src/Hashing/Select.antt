-- ===== src/Hashing/Select.antt =====
-- The bytes of a stream at the positions that a test selects, and the slices of ascending spans.
use c2pa_rs_html.Prelude.{
  ℕ, zero, suc, ◌+◌, ◌-◌, ◌≤◌, ◌<◌, ◌≡◌, refl, sym, ap, ◌∙◌, List, [], ◌∷◌, ◌++◌, Bool, true, false,
  arith, length, take, drop, if◌then◌else◌, Bool-cases, inl, inr, drop-drop, length-take,
  length-drop, length-append, take-append_self, drop-append_self,
}
use c2pa_rs_html.Hashing.Ranges.{Span, within, covers, Ascending}

-- `i` is the position of the first byte.
abbrev pub select : (ℕ → Bool) → ℕ → List ℕ → List ℕ
select p i [] = []
select p i (x ∷ xs) = if p i then x ∷ select p (suc i) xs else select p (suc i) xs

abbrev pub slice : List ℕ → Span → List ℕ
slice input (a, b) = take (suc b - a) (drop a input)

abbrev pub slices : List ℕ → List Span → List ℕ
slices input [] = []
slices input (r ∷ rs) = slice input r ++ slices input rs

-- The last position of the spans, if there is one, lies below a bound.
abbrev pub EndBelow : ℕ → List Span → Type 0
EndBelow n [] = Unit {0}
EndBelow n ((a, b) ∷ rs) = (b < n) × EndBelow n rs

pub select_ext :
    (p q : ℕ → Bool) (i : ℕ) (xs : List ℕ)
    → ((n : ℕ) → i ≤ n → n < i + length xs → p n ≡ q n)
    → select p i xs ≡ select q i xs
select_ext p q i [] h = refl
select_ext p q i (x ∷ xs) h =
    let here = h i (omega arith) (omega arith) in
    let rest = select_ext p q (suc i) xs (λ n le lt. h n (omega arith) (omega arith)) in
    rw (here, rest)

select_split :
    (p : ℕ → Bool) (k i : ℕ) (xs : List ℕ)
    → k ≤ length xs
    → select p i xs ≡ select p i (take k xs) ++ select p (i + k) (drop k xs)
select_split p zero i xs le = ap (λ j. select p j xs) (omega arith)
select_split p (suc k) i [] le = absurd (omega arith)
select_split p (suc k) i (x ∷ xs) le =
    let rest = select_split p k (suc i) xs (omega arith) in
    let at = ap (λ j. select p j (drop k xs)) (shift i k) in
    elim (Bool-cases (p i)) [
      | inl e ↦ rw e (ap (λ l. x ∷ l) (rest ∙ ap (λ l. select p (suc i) (take k xs) ++ l) at))
      | inr e ↦ rw e (rest ∙ ap (λ l. select p (suc i) (take k xs) ++ l) at)
    ]
  where
    shift : (i k : ℕ) → suc i + k ≡ i + suc k
    shift i k = omega arith

pub select_all :
    (p : ℕ → Bool) (i : ℕ) (xs : List ℕ)
    → ((n : ℕ) → i ≤ n → n < i + length xs → p n ≡ true)
    → select p i xs ≡ xs
select_all p i [] h = refl
select_all p i (x ∷ xs) h =
    rw (h i (omega arith) (omega arith))
      (ap (λ l. x ∷ l) (select_all p (suc i) xs (λ n le lt. h n (omega arith) (omega arith))))

pub select_none :
    (p : ℕ → Bool) (i : ℕ) (xs : List ℕ)
    → ((n : ℕ) → i ≤ n → n < i + length xs → p n ≡ false)
    → select p i xs ≡ []
select_none p i [] h = refl
select_none p i (x ∷ xs) h =
    rw (h i (omega arith) (omega arith))
      (select_none p (suc i) xs (λ n le lt. h n (omega arith) (omega arith)))

covers_before : (i n : ℕ) (rs : List Span) → Ascending i rs → n < i → covers rs n ≡ false
covers_before i n [] asc lt = refl
covers_before i n ((a, b) ∷ rs) asc lt =
    let outside : within (a, b) n ≡ false = ground arith in
    rw outside (covers_before (suc b) n rs asc.2 (omega arith))

-- A selection from `i` on is one up to `a` and one from there.
select_at :
    (p : ℕ → Bool) (i a : ℕ) (input : List ℕ)
    → i ≤ a
    → a ≤ length input
    → select p i (drop i input)
      ≡ select p i (take (a - i) (drop i input)) ++ select p a (drop a input)
select_at p i a input le la =
    let to_a : i + (a - i) ≡ a = omega arith in
    let room = length-drop i input in
    let there = sym (drop-drop (a - i) i input) ∙ ap (λ k. drop k input) to_a in
    select_split p (a - i) i (drop i input) (omega arith)
    ∙ ap (λ l. select p i (take (a - i) (drop i input)) ++ l)
        (ap (λ k. select p k (drop (a - i) (drop i input))) to_a ∙ ap (λ l. select p a l) there)

-- Hashing ascending spans one after another is hashing the bytes that they cover.
pub slices-select :
    (input : List ℕ) (i : ℕ) (rs : List Span)
    → Ascending i rs
    → EndBelow (length input) rs
    → i ≤ length input
    → slices input rs ≡ select (covers rs) i (drop i input)
slices-select input i [] asc below le =
    sym (select_none (λ n. false) i (drop i input) (λ n l r. refl))
slices-select input i ((a, b) ∷ rs) asc below le =
    let p = covers ((a, b) ∷ rs) in
    let before = length-take (a - i) (drop i input) in
    let span = length-take (suc b - a) (drop a input) in
    let gap =
      select_none p i (take (a - i) (drop i input))
        (λ n l r. covers_before a n ((a, b) ∷ rs) (omega arith, asc.1, asc.2) (omega arith)) in
    let inside = select_all p a (slice input (a, b)) (λ n l r. ground arith) in
    let later =
      select_ext p (covers rs) (suc b) (drop (suc b) input)
        (λ n l r. (let out : within (a, b) n ≡ false = ground arith in rw out)) in
    let ih = slices-select input (suc b) rs asc.2 below.1 (omega arith) in
    sym (
      select_at p i a input asc.0 (omega arith)
      ∙ ap (λ l. l ++ select p a (drop a input)) gap
      ∙ select_at p a (suc b) input (omega arith) (omega arith)
      ∙ ap (λ l. l ++ select p (suc b) (drop (suc b) input)) inside
      ∙ ap (λ l. slice input (a, b) ++ l) (later ∙ sym ih))

pub select-append :
    (p : ℕ → Bool) (i : ℕ) (xs ys : List ℕ)
    → select p i (xs ++ ys) ≡ select p i xs ++ select p (i + length xs) ys
select-append p i xs ys =
    let size = length-append xs ys in
    select_split p (length xs) i (xs ++ ys) (omega arith)
    ∙ ap (λ l. select p i l ++ select p (i + length xs) (drop (length xs) (xs ++ ys)))
        (take-append_self xs ys)
    ∙ ap (λ l. select p i xs ++ select p (i + length xs) l) (drop-append_self xs ys)
