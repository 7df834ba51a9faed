-- ===== src/Jumbf/Labels.antt =====
-- The JUMBF URIs of sdk/src/jumbf/labels.rs. A text is its bytes; `none` of an inner `Option` is the
-- source's `None`, and `panic` an index out of bounds.
pub mod Uris
pub mod ManifestParts
use c2pa_rs_html.Prelude.{
  ℕ, suc, ◌+◌, ◌-◌, ◌*◌, ◌<◌, Text, bytes, split, join, starts_with, List, [], ◌∷◌, ◌++◌, Bool,
  true, false, not, ◌&&◌, ◌||◌, Option, none, some, ltb, leb, ◌==◌, if◌then◌else◌, length, drop,
  get_elem?, get_or, get_last?, is_empty, is_some, bytes_eq, all,
}
use c2pa_rs_html.Result.{Result, ok, err, panic, ◌>>=◌}

abbrev pub manifest_store : Text
manifest_store = bytes "c2pa"

abbrev pub assertions : Text
assertions = bytes "c2pa.assertions"

abbrev pub jumbf_prefix : Text
jumbf_prefix = bytes "self#jumbf"

abbrev pub slash : ℕ
slash = b'/'

unfoldable pub to_manifest_uri : Text → Text
to_manifest_uri manifest_label =
    jumbf_prefix ++ b'=' ∷ slash ∷ (manifest_store ++ slash ∷ manifest_label)

unfoldable pub to_assertion_uri : Text → Text → Text
to_assertion_uri manifest_label assertion_label =
    to_manifest_uri manifest_label ++ slash ∷ (assertions ++ slash ∷ assertion_label)

unfoldable pub to_signature_uri : Text → Text
to_signature_uri manifest_label = to_manifest_uri manifest_label ++ slash ∷ bytes "c2pa.signature"

unfoldable pub to_verifiable_credential_uri : Text → Text → Text
to_verifiable_credential_uri manifest_label vc_id =
    to_manifest_uri manifest_label ++ slash ∷ (bytes "c2pa.credentials" ++ slash ∷ vc_id)

unfoldable pub to_databox_uri : Text → Text → Text
to_databox_uri manifest_label databox_id =
    to_manifest_uri manifest_label ++ slash ∷ (bytes "c2pa.databoxes" ++ slash ∷ databox_id)

-- The part behind the first `=`, or the whole; a split has at least one part.
abbrev uri_part : List Text → Text
uri_part [] = []
uri_part (w ∷ []) = w
uri_part (w ∷ v ∷ ws) = v

unfoldable pub to_normalized_uri : Text → Text
to_normalized_uri uri =
    let output = uri_part (split b'=' uri) in
    if not (is_empty output) && starts_with (manifest_store ++ slash ∷ []) output
    then slash ∷ output
    else output

-- `parts[i]` where the length was tested.
abbrev pub part : List Text → ℕ → Text
part ps i = get_or ps i []

unfoldable pub to_absolute_uri : Text → Text → Text
to_absolute_uri manifest_label uri =
    let raw_uri = to_normalized_uri uri in
    let parts = split slash raw_uri in
    if ltb 2 (length parts) && bytes_eq (part parts 1) manifest_store
    then uri
    else to_manifest_uri manifest_label ++ slash ∷ raw_uri

unfoldable pub to_relative_uri : Text → Text
to_relative_uri uri =
    let parts = split slash (to_normalized_uri uri) in
    if ltb 4 (length parts) && bytes_eq (part parts 1) manifest_store
    then jumbf_prefix ++ b'=' ∷ join slash (drop 3 parts)
    else uri

unfoldable pub manifest_label_from_uri : Text → Option Text
manifest_label_from_uri uri =
    let parts = split slash (to_normalized_uri uri) in
    if ltb 2 (length parts) && bytes_eq (part parts 1) manifest_store
    then some (part parts 2)
    else none

-- `parts[1]` is read with no test of the length in the second branch.
abbrev pub assertion_label {ℓ} : {E : Type ℓ} → List Text → Result E (Option Text)
assertion_label parts =
    if ltb 4 (length parts)
      && (bytes_eq (part parts 1) manifest_store && bytes_eq (part parts 3) assertions)
    then ok (some (part parts 4))
    else if bytes_eq (part parts 0) assertions
    then elim (get_elem? parts 1) [ none ↦ panic | some l ↦ ok (some l) ]
    else ok none

unfoldable pub assertion_label_from_uri {ℓ} : {E : Type ℓ} → Text → Result E (Option Text)
assertion_label_from_uri uri = assertion_label (split slash (to_normalized_uri uri))

unfoldable pub box_name_from_uri : Text → Option Text
box_name_from_uri uri = get_last? (split slash (to_normalized_uri uri))

-- `HashedUri::is_relative_url` (sdk/src/hashed_uri.rs).
unfoldable pub is_relative_url : Text → Bool
is_relative_url url = not (is_some (manifest_label_from_uri url))
