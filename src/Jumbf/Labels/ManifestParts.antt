-- ===== src/Jumbf/Labels/ManifestParts.antt =====
-- A manifest label taken apart and put together, `ManifestParts` of sdk/src/jumbf/labels.rs.
pub mod Laws
use c2pa_rs_html.Prelude.{
  ℕ, suc, List, [], ◌∷◌, ◌++◌, Text, bytes, split, Bool, true, false, not, ◌&&◌, ◌||◌, Option, none,
  some, is_some, is_empty, all, length, get_or, get_elem?, ltb, leb, ◌==◌, if◌then◌else◌, bytes_eq,
}
use c2pa_rs_html.Jumbf.Labels.{manifest_label_from_uri, part}
use c2pa_rs_html.Claim.Decimal.{to_decimal, parse_usize}

abbrev pub colon : ℕ
colon = b':'

pub record ManifestParts : Type 0 where
  pub guid : Text
  pub is_v1 : Bool
  pub cgi : Option Text
  pub version : Option ℕ
  pub reason : Option ℕ

abbrev pub v1_label : Text → Option Text → Text
v1_label guid none = bytes "urn:uuid:" ++ guid
v1_label guid (some vendor) = vendor ++ (bytes ":urn:uuid:" ++ guid)

abbrev pub vendor_part : Option Text → Text
vendor_part none = []
vendor_part (some vendor) = colon ∷ vendor

abbrev pub reason_part : Option ℕ → Text
reason_part none = []
reason_part (some reason) = b'_' ∷ to_decimal reason

-- Without a vendor, two colons stand before the version.
abbrev pub version_part : Option Text → Option ℕ → Option ℕ → Text
version_part cgi none reason = []
version_part none (some version) reason = colon ∷ colon ∷ (to_decimal version ++ reason_part reason)
version_part (some vendor) (some version) reason =
    colon ∷ (to_decimal version ++ reason_part reason)

-- `Display::fmt`.
unfoldable pub print : ManifestParts → Text
print p =
    if p.is_v1
    then v1_label p.guid p.cgi
    else bytes "urn:c2pa:"
      ++ (p.guid ++ (vendor_part p.cgi ++ version_part p.cgi p.version p.reason))

abbrev pub is_space : ℕ → Bool
is_space b = (leb 9 b && leb b 13) || b == 32

-- `split_whitespace().count()` of ASCII text; other text is refused whatever its count.
abbrev pub word_count : Bool → Text → ℕ
word_count in_word [] = 0
word_count in_word (b ∷ s) =
    let outside = word_count false s in
    let inside = word_count true s in
    if is_space b then outside else if in_word then inside else suc inside

abbrev pub is_vendor : Text → Bool
is_vendor v = (leb (length v) 32 && (word_count false v == 1)) && all (λ b. ltb b 128) v

-- A part that may be left out or empty; `none` refuses the label.
abbrev pub parsed_vendor : Option Text → Option (Option Text)
parsed_vendor none = some none
parsed_vendor (some []) = some none
parsed_vendor (some (b ∷ v)) = if is_vendor (b ∷ v) then some (some (b ∷ v)) else none

abbrev pub parsed : Option ℕ → Option (Option ℕ)
parsed none = none
parsed (some n) = some (some n)

abbrev pub parsed_reason : Option Text → Option (Option ℕ)
parsed_reason none = some none
parsed_reason (some r) = parsed (parse_usize r)

abbrev pub both : Option ℕ → Option (Option ℕ) → Option (Option ℕ × Option ℕ)
both none r = none
both (some v) none = none
both (some v) (some r) = some (some v, r)

abbrev pub parsed_version : Option Text → Option (Option ℕ × Option ℕ)
parsed_version none = some (none, none)
parsed_version (some []) = some (none, none)
parsed_version (some (b ∷ v)) =
    let version_parts = split b'_' (b ∷ v) in
    both (parse_usize (part version_parts 0)) (parsed_reason (get_elem? version_parts 1))

abbrev pub v2_parts :
    Text → Option (Option Text) → Option (Option ℕ × Option ℕ) → Option ManifestParts
v2_parts guid none v = none
v2_parts guid (some vendor) none = none
v2_parts guid (some vendor) (some (version, reason)) =
    some (record { guid = guid; is_v1 = false; cgi = vendor; version = version; reason = reason })

abbrev pub v1_parts : Text → Option Text → ManifestParts
v1_parts guid cgi = record { guid = guid; is_v1 = true; cgi = cgi; version = none; reason = none }

abbrev pub unwrap_or : Text → Option Text → Text
unwrap_or default none = default
unwrap_or default (some t) = t

abbrev pub label_parts : List Text → Option ManifestParts
label_parts ps =
    if ltb (length ps) 3
    then none
    else if bytes_eq (part ps 0) (bytes "urn")
    then (if bytes_eq (part ps 1) (bytes "uuid")
        then some (v1_parts (part ps 2) none)
        else if ltb 5 (length ps)
        then none
        else v2_parts (part ps 2) (parsed_vendor (get_elem? ps 3))
            (parsed_version (get_elem? ps 4)))
    else if bytes_eq (part ps 1) (bytes "urn") && bytes_eq (part ps 2) (bytes "uuid")
    then (if length ps == 4 then some (v1_parts (part ps 3) (some (part ps 0))) else none)
    else none

unfoldable pub manifest_label_to_parts : Text → Option ManifestParts
manifest_label_to_parts uri =
    label_parts (split colon (unwrap_or uri (manifest_label_from_uri uri)))
