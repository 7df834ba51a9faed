-- ===== src/Prelude/Texts.antt =====
-- Texts as lists of bytes: literals, splitting at a byte, joining, prefixes.
use Prim.Native.Char.{code}
use Prim.Native.String.{String}
use Prim.Native.Nat.{ℕ}
use mathlib.Core.Path.{◌≡◌, refl, ap, ◌∙◌}
use mathlib.Core.Logic.{◌≢◌, inl, inr}
use mathlib.Core.Bool.{Bool, true, false, ◌&&◌, ◌||◌}
use mathlib.Core.List.{List, [], ◌∷◌, ◌++◌}
use native.Mathlib.Omega.{arith}
use c2pa_rs_html.Prelude.Tests.{◌==◌, ==_iff, ==_self, Bool-cases, if◌then◌else◌}
use c2pa_rs_html.Prelude.Lists.{All, any, is_empty}

abbrev pub Text : Type 0
Text = List ℕ

-- The bytes of an ASCII literal.
abbrev pub bytes : String → Text
bytes String.[] = []
bytes (String.◌∷◌ c s) = code c ∷ bytes s

abbrev pub starts_with : Text → Text → Bool
starts_with [] s = true
starts_with (p ∷ ps) [] = false
starts_with (p ∷ ps) (b ∷ bs) = p == b && starts_with ps bs

-- `str::contains`.
abbrev pub contains : Text → Text → Bool
contains m [] = is_empty m
contains m (b ∷ s) = starts_with m (b ∷ s) || contains m s

-- Puts a byte before the first part.
abbrev pub on_first : ℕ → List Text → List Text
on_first b [] = (b ∷ []) ∷ []
on_first b (w ∷ ws) = (b ∷ w) ∷ ws

-- `str::split(c).collect()`: there is always a part.
unfoldable pub split : ℕ → Text → List Text
split c [] = [] ∷ []
split c (b ∷ bs) = let rest = split c bs in if b == c then [] ∷ rest else on_first b rest

-- `[str]::join`, by one byte.
abbrev pub join : ℕ → List Text → Text
join c [] = []
join c (w ∷ []) = w
join c (w ∷ v ∷ ws) = w ++ c ∷ join c (v ∷ ws)

abbrev pub HasNo : ℕ → Text → Type 0
HasNo c = All (λ b. b ≢ c)

-- A part without the separator is split off.
pub split-append_sep :
    (c : ℕ) (w rest : Text) → HasNo c w → split c (w ++ c ∷ rest) ≡ w ∷ split c rest
unfolding split
split-append_sep c [] rest h = ground arith
split-append_sep c (b ∷ w) rest h = rw (split-append_sep c w rest h.1) (ground (arith, h.0))

pub split_whole : (c : ℕ) (w : Text) → HasNo c w → split c w ≡ w ∷ []
unfolding split
split_whole c [] h = refl
split_whole c (b ∷ w) h = rw (split_whole c w h.1) (ground (arith, h.0))

-- There is always a first part.
pub split_cons : (c : ℕ) (s : Text) → (w : Text) × (ws : List Text) × (split c s ≡ w ∷ ws)
unfolding split
split_cons c [] = ([], [], refl)
split_cons c (b ∷ bs) =
    let (w, ws, e) = split_cons c bs in
    elim (Bool-cases (b == c)) [
      | inl sep ↦ ([], split c bs, rw sep)
      | inr other ↦ (b ∷ w, ws, rw (other, e))
    ]

-- Joining what was split gives the text again.
pub join-split : (c : ℕ) (s : Text) → join c (split c s) ≡ s
unfolding split
join-split c [] = refl
join-split c (b ∷ bs) =
    let (w, ws, e) = split_cons c bs in
    let ih = join-split c bs in
    elim (Bool-cases (b == c)) [
      | inl sep ↦ rw (sep, e) (cc ((==_iff b c).0 sep, rw e at ih))
      | inr other ↦ rw (other, e) (join-on_first b c w ws ∙ ap (λ l. b ∷ l) (rw e at ih))
    ]
  where
    join-on_first :
        (b c : ℕ) (w : Text) (ws : List Text) → join c ((b ∷ w) ∷ ws) ≡ b ∷ join c (w ∷ ws)
    join-on_first b c w [] = refl
    join-on_first b c w (v ∷ ws) = refl

-- A prefix without the separator does not reach past it.
pub starts_with-append_sep :
    (c : ℕ) (m p r : Text)
    → any (λ b. b == c) m ≡ false
    → starts_with m (p ++ c ∷ r) ≡ starts_with m p
starts_with-append_sep c [] p r h = refl
starts_with-append_sep c (x ∷ m) [] r h = elim (Bool-cases (x == c)) [
  | inl e ↦ (let clash = rw e at h in cc)
  | inr e ↦ rw e
]
starts_with-append_sep c (x ∷ m) (b ∷ p) r h = elim (Bool-cases (x == c)) [
  | inl e ↦ (let clash = rw e at h in cc)
  | inr e ↦ ap (λ t. x == b && t) (starts_with-append_sep c m p r (rw e at h))
]

-- A text without the separator has no prefix with it.
pub starts_with_sep : (c : ℕ) (m r s : Text) → HasNo c s → starts_with (m ++ c ∷ r) s ≡ false
starts_with_sep c [] r [] h = refl
starts_with_sep c [] r (b ∷ s) h = ground (arith, h.0)
starts_with_sep c (x ∷ m) r [] h = refl
starts_with_sep c (x ∷ m) r (b ∷ s) h = elim (Bool-cases (x == b)) [
  | inl e ↦ rw e (starts_with_sep c m r s h.1)
  | inr e ↦ rw e
]

pub starts_with_self : (s : Text) → starts_with s s ≡ true
starts_with_self [] = refl
starts_with_self (b ∷ s) = rw (==_self b) (starts_with_self s)

pub contains_self : (s : Text) → contains s s ≡ true
contains_self [] = refl
contains_self (b ∷ s) = rw (starts_with_self (b ∷ s)) refl

pub starts_with-append : (m s : Text) → starts_with m (m ++ s) ≡ true
starts_with-append [] s = refl
starts_with-append (b ∷ m) s = rw (==_self b) (starts_with-append m s)

-- A text contains what stands in it.
pub contains-append : (m front s : Text) → contains m (front ++ (m ++ s)) ≡ true
contains-append [] [] [] = refl
contains-append [] [] (b ∷ s) = refl
contains-append (b ∷ m) [] s = rw (==_self b, starts_with-append m s)
contains-append m (b ∷ front) s = elim (Bool-cases (starts_with m (b ∷ (front ++ (m ++ s))))) [
  | inl e ↦ rw e
  | inr e ↦ rw e (contains-append m front s)
]
