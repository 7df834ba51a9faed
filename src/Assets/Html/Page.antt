-- ===== src/Assets/Html/Page.antt =====
-- What the HTML handler relies on of the crates, and what it finds in a page with a script tag.
use mathlib.Core.List.{reverse, reverse-cons, reverse-reverse}
use c2pa_rs_html.Prelude.{
  ℕ, zero, suc, ◌+◌, ◌≡◌, refl, ap, ◌∙◌, List, [], ◌∷◌, ◌++◌, map, Text, Bool, true, false, ◌&&◌,
  ◌||◌, none, some, arith, leb, ◌==◌, contains, any, all, length, is_empty, Bool-cases, inl, inr,
}
use c2pa_rs_html.Assets.Trim.{white_space, strip, strip_all, trim_end, trim}
use c2pa_rs_html.Assets.Html.{Crates, c2pa_script_type, open_tag, close_tag}

-- `A` to `Z`, `a` to `z`, `0` to `9`, `+`, `/` and `=`.
abbrev pub is_base64 : ℕ → Bool
is_base64 b =
    (leb 65 b && leb b 90)
    || (leb 97 b && leb b 122)
    || (leb 47 b && leb b 57)
    || (b == 43)
    || (b == 61)

abbrev pub is_open_angle : ℕ → Bool
is_open_angle b = b == 60

-- The documented behaviour of the crates. A pattern matches first where it can begin; the manifest's has the
-- text of the script's type in it, and its group 1 is what stands between the tags.
pub record IsCrates (c : Crates) : Type 0 where
  pub decode-encode : (store : List ℕ) → c.decode (c.encode store) ≡ some store
  pub encode_base64 : (store : List ℕ) → all is_base64 (c.encode store) ≡ true
  pub encode_some : (store : List ℕ) → is_empty store ≡ false → is_empty (c.encode store) ≡ false
  pub capture_tag :
      (front content rest : Text)
      → contains c2pa_script_type front ≡ false
      → any is_open_angle content ≡ false
      → c.capture (front ++ (open_tag ++ (content ++ (close_tag ++ rest))))
        ≡ some (length front + length open_tag, length front + length open_tag + length content)

starts_at : ℕ → Text → Bool
starts_at x [] = true
starts_at x (p ∷ ps) = p == x

strip-none :
    (ps : List Text) (x : ℕ) (xs : Text) → any (starts_at x) ps ≡ false → strip ps (x ∷ xs) ≡ none
unfolding starts_at
strip-none [] x xs h = refl
strip-none ([] ∷ ps) x xs h = (let clash = h in cc)
strip-none ((p ∷ q) ∷ ps) x xs h = elim (Bool-cases (p == x)) [
  | inl e ↦ (let clash = rw e at h in cc)
  | inr e ↦ rw e (strip-none ps x xs (rw e at h))
]

strip_all-base64 :
    (fuel : ℕ) (ps : List Text) (s : Text)
    → ((x : ℕ) → is_base64 x ≡ true → any (starts_at x) ps ≡ false)
    → strip ps [] ≡ none
    → all is_base64 s ≡ true
    → strip_all fuel ps s ≡ s
strip_all-base64 zero ps s h n k = refl
strip_all-base64 (suc fuel) ps [] h n k = rw n
strip_all-base64 (suc fuel) ps (x ∷ xs) h n k = elim (Bool-cases (is_base64 x)) [
  | inl e ↦ rw (strip-none ps x xs (h x e))
  | inr e ↦ (let clash = rw e at k in cc)
]

all-append : (p : ℕ → Bool) (xs ys : Text) → all p (xs ++ ys) ≡ (all p xs && all p ys)
all-append p [] ys = refl
all-append p (x ∷ xs) ys = elim (Bool-cases (p x)) [
  | inl e ↦ rw e (all-append p xs ys)
  | inr e ↦ rw e
]

all-reverse : (p : ℕ → Bool) (xs : Text) → all p xs ≡ true → all p (reverse xs) ≡ true
all-reverse p [] h = refl
all-reverse p (x ∷ xs) h = elim (Bool-cases (p x)) [
  | inl e ↦
      ap (all p) (reverse-cons x xs)
      ∙ all-append p (reverse xs) (x ∷ [])
      ∙ (rw (all-reverse p xs (rw e at h), e) refl)
  | inr e ↦ (let clash = rw e at h in cc)
]

no_space : (x : ℕ) → is_base64 x ≡ true → any (starts_at x) white_space ≡ false
unfolding starts_at
no_space x h = ground arith

no_space_back : (x : ℕ) → is_base64 x ≡ true → any (starts_at x) (map reverse white_space) ≡ false
unfolding starts_at
no_space_back x h = ground arith

trim_end-base64 : (s : Text) → all is_base64 s ≡ true → trim_end s ≡ s
unfolding trim_end
trim_end-base64 s h =
    rw
      (strip_all-base64 (length s) (map reverse white_space) (reverse s) no_space_back refl
        (all-reverse is_base64 s h))
      (reverse-reverse s)

-- Base64 has nothing to trim.
pub trim-base64 : (s : Text) → all is_base64 s ≡ true → trim s ≡ s
unfolding trim
trim-base64 s h =
    rw (strip_all-base64 (length s) white_space s no_space refl h) (trim_end-base64 s h)

-- A line break before it is trimmed.
pub trim-line_break : (s : Text) → all is_base64 s ≡ true → trim (10 ∷ s) ≡ s
unfolding trim
trim-line_break s h =
    rw (strip_all-base64 (length s) white_space s no_space refl h) (trim_end-base64 s h)
