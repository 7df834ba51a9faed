-- ===== src/Jumbf/Utf8.antt =====
-- Which bytes are UTF-8: `CString::to_str` and `into_string` of the standard library, on which
-- sdk/src/jumbf/boxes.rs relies for labels.
use c2pa_rs_html.Prelude.{
  ℕ, zero, suc, ◌<◌, ◌≡◌, List, [], ◌∷◌, ◌++◌, Bool, true, false, ◌&&◌, Option, none, some, arith,
  ltb, leb, ◌==◌, if◌then◌else◌, All,
}

-- `more k lo hi` wants k + 1 continuation bytes, the next of them in the range from lo to hi.
pub data Utf8State : Type 0 where
  start : Utf8State
  more : ℕ → ℕ → ℕ → Utf8State

between : ℕ → ℕ → ℕ → Bool
between lo hi b = leb lo b && leb b hi

utf8_lead : ℕ → Option Utf8State
unfolding between
utf8_lead b =
    if ltb b 0x80
    then some start
    else if between 0xc2 0xdf b
    then some (more 0 0x80 0xbf)
    else if b == 0xe0
    then some (more 1 0xa0 0xbf)
    else if b == 0xed
    then some (more 1 0x80 0x9f)
    else if between 0xe1 0xef b
    then some (more 1 0x80 0xbf)
    else if b == 0xf0
    then some (more 2 0x90 0xbf)
    else if b == 0xf4
    then some (more 2 0x80 0x8f)
    else if between 0xf1 0xf3 b
    then some (more 2 0x80 0xbf)
    else none

utf8_step : Utf8State → ℕ → Option Utf8State
unfolding utf8_lead between
utf8_step start b = utf8_lead b
utf8_step (more zero lo hi) b = if between lo hi b then some start else none
utf8_step (more (suc k) lo hi) b = if between lo hi b then some (more k 0x80 0xbf) else none

utf8_from : Utf8State → List ℕ → Bool
utf8_from start [] = true
utf8_from (more k lo hi) [] = false
utf8_from s (b ∷ bs) = elim (utf8_step s b) [ none ↦ false | some s' ↦ utf8_from s' bs ]

unfoldable pub is_utf8 : List ℕ → Bool
unfolding utf8_from utf8_step
is_utf8 bs = utf8_from start bs

-- ASCII is UTF-8.
pub is_utf8-ascii : (bs : List ℕ) → All (λ b. b < 128) bs → is_utf8 bs ≡ true
unfolding is_utf8
is_utf8-ascii [] h = ground arith
is_utf8-ascii (b ∷ bs) h = ground (arith, is_utf8-ascii bs h.1)

utf8_from-append :
    (s : Utf8State) (xs ys : List ℕ)
    → utf8_from s xs ≡ true
    → utf8_from start ys ≡ true
    → utf8_from s (xs ++ ys) ≡ true
unfolding utf8_from utf8_step
utf8_from-append start [] ys h k = k
utf8_from-append (more n lo hi) [] ys h k = (let clash = h in cc)
utf8_from-append s (b ∷ xs) ys h k =
    by_step (utf8_step s b) (λ s' e. utf8_from-append s' xs ys e k) h
  where
    by_step :
        (o : Option Utf8State)
        → ((s' : Utf8State) → utf8_from s' xs ≡ true → utf8_from s' (xs ++ ys) ≡ true)
        → elim o as (λ _. Bool) [ none ↦ false | some s' ↦ utf8_from s' xs ] ≡ true
        → elim o as (λ _. Bool) [ none ↦ false | some s' ↦ utf8_from s' (xs ++ ys) ] ≡ true
    by_step none f e = e
    by_step (some s') f e = f s' e

-- Two texts behind each other are a text.
pub is_utf8-append :
    (xs ys : List ℕ) → is_utf8 xs ≡ true → is_utf8 ys ≡ true → is_utf8 (xs ++ ys) ≡ true
unfolding is_utf8
is_utf8-append xs ys = utf8_from-append start xs ys
