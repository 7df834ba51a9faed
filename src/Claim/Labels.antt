-- ===== src/Claim/Labels.antt =====
-- Labels of assertions with their instances: sdk/src/assertion.rs and sdk/src/claim.rs.
use c2pa_rs_html.Prelude.{
  ℕ, ◌+◌, List, [], ◌∷◌, ◌++◌, map, Text, bytes, split, on_first, starts_with, contains, Bool, ◌&&◌,
  Option, none, some, length, get_or, get_last?, leb, ◌==◌, if◌then◌else◌, bytes_eq,
}
use c2pa_rs_html.Jumbf.Labels.{slash, to_normalized_uri}
use c2pa_rs_html.Claim.Decimal.{to_decimal, parse_usize}

abbrev pub claim_thumbnail : Text
claim_thumbnail = bytes "c2pa.thumbnail.claim"

abbrev pub ingredient_thumbnail : Text
ingredient_thumbnail = bytes "c2pa.thumbnail.ingredient"

abbrev pub is_underscore : ℕ → Bool
is_underscore b = b == b'_'

-- `str::split("__").collect()`.
unfoldable pub split_instance : Text → List Text
split_instance [] = [] ∷ []
split_instance (a ∷ []) = (a ∷ []) ∷ []
split_instance (a ∷ b ∷ s) =
    let rest = split_instance (b ∷ s) in
    let skip = split_instance s in
    if is_underscore a && is_underscore b then [] ∷ skip else on_first a rest

-- `u8::to_ascii_lowercase`.
abbrev pub lowercase : ℕ → ℕ
lowercase b = if leb 65 b && leb b 90 then b + 32 else b

unfoldable pub get_thumbnail_type : Text → Text
get_thumbnail_type thumbnail_label =
    if starts_with claim_thumbnail thumbnail_label
    then claim_thumbnail
    else if starts_with ingredient_thumbnail thumbnail_label
    then ingredient_thumbnail
    else bytes "none"

unfoldable pub get_thumbnail_image_type : Text → Option Text
get_thumbnail_image_type thumbnail_label =
    let components = split b'.' thumbnail_label in
    if contains (bytes "thumbnail") thumbnail_label && leb 4 (length components)
    then some (map lowercase (get_or (split b'_' (get_or components 3 [])) 0 []))
    else none

abbrev pub is_ingredient_thumbnail : Text → Bool
is_ingredient_thumbnail label = bytes_eq (get_thumbnail_type label) ingredient_thumbnail

unfoldable pub get_thumbnail_instance : Text → Option ℕ
get_thumbnail_instance label =
    let components = split_instance label in
    if is_ingredient_thumbnail label
    then (if length components == 2
        then parse_usize (get_or (split b'.' (get_or components 1 [])) 0 [])
        else some 0)
    else none

abbrev pub or_zero : Option ℕ → ℕ
or_zero none = 0
or_zero (some n) = n

abbrev pub with_image_type : Text → Option Text → Text
with_image_type label none = label
with_image_type label (some image_type) = label ++ b'.' ∷ image_type

-- The text before and behind the last dot.
abbrev pub rsplit_once : ℕ → Text → Option (Text × Text)
rsplit_once c [] = none
rsplit_once c (b ∷ s) = elim (rsplit_once c s) [
  | some (l, v) ↦ some (b ∷ l, v)
  | none ↦ if b == c then some ([], s) else none
]

-- `v` and a digit.
abbrev pub version_digit : Text → Option ℕ
version_digit (b ∷ d ∷ []) = if b == b'v' then parse_usize (d ∷ []) else none
version_digit v = none

abbrev pub or_whole : Text → Text → Option ℕ → Text × ℕ
or_whole box_name l none = (box_name, 0)
or_whole box_name l (some i) = (l, i)

abbrev pub versioned : Text → Option (Text × Text) → Text × ℕ
versioned box_name none = (box_name, 0)
versioned box_name (some (l, v)) = or_whole box_name l (version_digit v)

unfoldable pub box_name_label_instance : Text → Text × ℕ
box_name_label_instance box_name = versioned box_name (rsplit_once b'.' box_name)

abbrev pub parsed_instance : List Text → ℕ
parsed_instance label_parts =
    if length label_parts == 2 then or_zero (parse_usize (get_or label_parts 1 [])) else 0

abbrev pub label_and_instance : Text → Text × ℕ
label_and_instance s =
    if is_ingredient_thumbnail s
    then (
      with_image_type (get_thumbnail_type s) (get_thumbnail_image_type s),
      or_zero (get_thumbnail_instance s),
    )
    else (get_or (split_instance s) 0 [], parsed_instance (split_instance s))

abbrev pub of_last : List Text → Option Text → Text × ℕ
of_last v2 none = (get_or v2 0 [], 0)
of_last v2 (some s) = label_and_instance s

unfoldable pub assertion_label_from_link : Text → Text × ℕ
assertion_label_from_link assertion_link =
    let v2 = split slash (to_normalized_uri assertion_link) in of_last v2 (get_last? v2)

abbrev pub instance_suffix : ℕ → Text
instance_suffix n = b'_' ∷ b'_' ∷ to_decimal n

unfoldable pub label_with_instance : Text → ℕ → Text
label_with_instance label n =
    if n == 0
    then label
    else if is_ingredient_thumbnail label
    then with_image_type (get_thumbnail_type label ++ instance_suffix n)
        (get_thumbnail_image_type label)
    else label ++ instance_suffix n
