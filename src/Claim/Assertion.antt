-- ===== src/Claim/Assertion.antt =====
-- The labels of an assertion, sdk/src/assertion.rs: the root of a label, its version, and the label
-- that both make.
use mathlib.Core.List.{reverse}
use c2pa_rs_html.Prelude.{
  ℕ, List, [], ◌∷◌, ◌++◌, Text, bytes, split, starts_with, Bool, ◌&&◌, Option, none, some, length,
  drop, get_or, get_last?, ltb, leb, ◌==◌, if◌then◌else◌, bytes_eq,
}
use c2pa_rs_html.Result.{Result, ok, panic, ◌>>=◌}
use c2pa_rs_html.Error.{Error}
use c2pa_rs_html.Assets.Trim.{strip_all}
use c2pa_rs_html.Claim.Decimal.{to_decimal, parse_usize}
use c2pa_rs_html.Claim.Labels.{
  get_thumbnail_type, get_thumbnail_image_type, with_image_type, assertion_label_from_link,
  label_with_instance,
}

abbrev pub schema_org : Text
schema_org = bytes "schema.org"

-- `str::trim_end_matches`.
unfoldable pub trim_end_matches : Text → Text → Text
trim_end_matches pat s = reverse (strip_all (length s) (reverse pat ∷ []) (reverse s))

-- A byte that continues a character of UTF-8.
abbrev pub is_continuation : ℕ → Bool
is_continuation b = leb 128 b && ltb b 192

abbrev pub root_and_version : Text → Text → Option ℕ → Text × Option ℕ
root_and_version var_label last none = (var_label, none)
root_and_version var_label last (some ver_inst) =
    (trim_end_matches (b'.' ∷ last) var_label, some ver_inst)

-- `split_at(1)` panics inside of a character.
abbrev pub of_component : Text → Text → Result Error (Text × Option ℕ)
of_component var_label last =
    if ltb 1 (length last)
    then (if is_continuation (get_or last 1 0)
        then panic
        else if get_or last 0 0 == b'v'
        then ok (root_and_version var_label last (parse_usize (drop 1 last)))
        else ok (var_label, none))
    else ok (var_label, none)

abbrev pub of_last_component : Text → Option Text → Result Error (Text × Option ℕ)
of_last_component var_label none = ok (var_label, none)
of_last_component var_label (some last) = of_component var_label last

unfoldable pub get_mutable_label : Text → Result Error (Text × Option ℕ)
get_mutable_label var_label =
    if starts_with schema_org var_label
    then ok (var_label, none)
    else if bytes_eq (get_thumbnail_type var_label) (bytes "none")
    then of_last_component var_label (get_last? (split b'.' var_label))
    else ok (get_thumbnail_type var_label, none)

abbrev pub version_of : Text → Result Error (Option ℕ)
version_of last =
    if ltb 1 (length last)
    then (if is_continuation (get_or last 1 0)
        then panic
        else if get_or last 0 0 == b'v'
        then ok (parse_usize (drop 1 last))
        else ok none)
    else ok none

abbrev pub version_of_last : Option Text → Result Error (Option ℕ)
version_of_last none = ok none
version_of_last (some last) = version_of last

-- `labels::version` (sdk/src/assertions/labels.rs).
unfoldable pub version : Text → Result Error (Option ℕ)
version label = version_of_last (get_last? (split b'.' label))

pub data AssertionData : Type 0 where
  json binary cbor : List ℕ → AssertionData
  uuid : Text → List ℕ → AssertionData

-- `Assertion::data`.
abbrev pub data_bytes : AssertionData → List ℕ
data_bytes (json s) = s
data_bytes (binary x) = x
data_bytes (cbor x) = x
data_bytes (uuid u x) = x

abbrev pub cbor_type : Text
cbor_type = bytes "application/cbor"

-- An assertion: `given_label`, `schema_version`, `content` and `content_type` are its fields
-- `label`, `version`, `data` and `content_type`; `raw_label` and `label_root` are what the methods
-- `label` and `label_root` make of them.
pub record Assertion : Type 0 where
  pub given_label : Text
  pub schema_version : Option ℕ
  pub content : AssertionData
  pub content_type : Text
  pub raw_label : Text
  pub label_root : Text

abbrev pub get_ver : Option ℕ → ℕ
get_ver none = 1
get_ver (some v) = v

abbrev pub with_version : Text → ℕ → Text
with_version base_label v =
    if ltb 1 v then base_label ++ (bytes ".v" ++ to_decimal v) else base_label

-- An assertion of its four fields, with both labels.
abbrev pub with_labels : Text → Option ℕ → AssertionData → Text → Result Error Assertion
with_labels label version content content_type = get_mutable_label label >>= λ (root, v).
    let base_label = with_image_type root (get_thumbnail_image_type label) in
    ok (record {
      given_label = label;
      schema_version = version;
      content = content;
      content_type = content_type;
      raw_label = with_version base_label (get_ver version);
      label_root = base_label;
    })

-- `Assertion::new`.
unfoldable pub new_assertion : Text → Option ℕ → AssertionData → Result Error Assertion
new_assertion label version content = with_labels label version content cbor_type

-- `Assertion::from_assertion_data`, for an assertion that is read.
unfoldable pub from_assertion_data : Text → Text → AssertionData → Result Error Assertion
from_assertion_data label content_type content = version label >>= λ v.
    let (l, n) = assertion_label_from_link label in
    with_labels (label_with_instance l n) v content content_type

abbrev pub assertions_eq : Assertion → Assertion → Bool
assertions_eq a b = bytes_eq a.label_root b.label_root
