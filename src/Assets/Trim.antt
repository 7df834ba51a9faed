-- ===== src/Assets/Trim.antt =====
-- `str::trim` and `str::trim_end` of the standard library, on UTF-8.
use mathlib.Core.List.{reverse}
use c2pa_rs_html.Prelude.{
  ℕ, zero, suc, List, [], ◌∷◌, Text, Option, none, some, length, drop, starts_with, if◌then◌else◌,
  map,
}

-- The characters with the property White_Space.
abbrev pub white_space : List Text
white_space =
    (9 ∷ [])
    ∷ (10 ∷ [])
    ∷ (11 ∷ [])
    ∷ (12 ∷ [])
    ∷ (13 ∷ [])
    ∷ (32 ∷ [])
    ∷ (194 ∷ 133 ∷ [])
    ∷ (194 ∷ 160 ∷ [])
    ∷ (225 ∷ 154 ∷ 128 ∷ [])
    ∷ (226 ∷ 128 ∷ 128 ∷ [])
    ∷ (226 ∷ 128 ∷ 129 ∷ [])
    ∷ (226 ∷ 128 ∷ 130 ∷ [])
    ∷ (226 ∷ 128 ∷ 131 ∷ [])
    ∷ (226 ∷ 128 ∷ 132 ∷ [])
    ∷ (226 ∷ 128 ∷ 133 ∷ [])
    ∷ (226 ∷ 128 ∷ 134 ∷ [])
    ∷ (226 ∷ 128 ∷ 135 ∷ [])
    ∷ (226 ∷ 128 ∷ 136 ∷ [])
    ∷ (226 ∷ 128 ∷ 137 ∷ [])
    ∷ (226 ∷ 128 ∷ 138 ∷ [])
    ∷ (226 ∷ 128 ∷ 168 ∷ [])
    ∷ (226 ∷ 128 ∷ 169 ∷ [])
    ∷ (226 ∷ 128 ∷ 175 ∷ [])
    ∷ (226 ∷ 129 ∷ 159 ∷ [])
    ∷ (227 ∷ 128 ∷ 128 ∷ [])
    ∷ []

-- Without the first of some prefixes that it has.
abbrev pub strip : List Text → Text → Option Text
strip [] s = none
strip (p ∷ ps) s = if starts_with p s then some (drop (length p) s) else strip ps s

abbrev pub or_else : Text → Option Text → (Text → Text) → Text
or_else s none f = s
or_else s (some t) f = f t

-- Without prefixes, as long as there are some; each is one byte at least.
abbrev pub strip_all : ℕ → List Text → Text → Text
strip_all zero ps s = s
strip_all (suc fuel) ps s = or_else s (strip ps s) (strip_all fuel ps)

abbrev pub trim_start : Text → Text
trim_start s = strip_all (length s) white_space s

-- From the end the characters have their bytes in the reverse order.
unfoldable pub trim_end : Text → Text
trim_end s = reverse (strip_all (length s) (map reverse white_space) (reverse s))

unfoldable pub trim : Text → Text
trim s = trim_end (trim_start s)
