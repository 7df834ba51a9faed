-- ===== src/Status/ValidationStatus.antt =====
-- The validation status of sdk/src/validation_status.rs.
use c2pa_rs_html.Prelude.{
  Text, bytes, Option, none, some, Bool, true, false, not, ◌&&◌, starts_with, bytes_eq,
  if◌then◌else◌, ◌++◌,
}
use c2pa_rs_html.Jumbf.Labels.{jumbf_prefix, to_absolute_uri}
use c2pa_rs_html.Status.LogItem.{LogKind, LogItem, success, informational, failure}
use c2pa_rs_html.Status.Codes.{
  claim_missing, assertion_missing, assertion_required_missing, assertion_datahash_match,
  manifest_inaccessible, status_prerelease, general_error,
}

-- The deprecated field `success` is `old_success`.
pub record ValidationStatus : Type 0 where
  pub code : Text
  pub url : Option Text
  pub explanation : Option Text
  pub old_success : Option Bool
  pub kind : LogKind
  pub ingredient_uri : Option Text

abbrev pub new_status : Text → ValidationStatus
new_status code = record {
  code = code;
  url = none;
  explanation = none;
  old_success = none;
  kind = success;
  ingredient_uri = none;
}

abbrev pub set_url : Text → ValidationStatus → ValidationStatus
set_url url s = record s { url = some url }

abbrev pub set_kind : LogKind → ValidationStatus → ValidationStatus
set_kind kind s = record s { kind = kind }

abbrev pub set_status_ingredient : Text → ValidationStatus → ValidationStatus
set_status_ingredient uri s = record s { ingredient_uri = some uri }

abbrev pub set_explanation : Text → ValidationStatus → ValidationStatus
set_explanation explanation s = record s { explanation = some explanation }

abbrev pub new_failure : Text → ValidationStatus
new_failure code = set_kind failure (new_status code)

abbrev pub is_failure : LogKind → Bool
is_failure failure = true
is_failure _ = false

unfoldable pub passed : ValidationStatus → Bool
passed s = not (is_failure s.kind)

unfoldable pub code_from_error_str : Text → Text
code_from_error_str error =
    if bytes_eq error (bytes "ClaimMissing")
    then claim_missing
    else if starts_with (bytes "AssertionMissing") error
    then assertion_missing
    else if starts_with (bytes "AssertionDecoding") error
    then assertion_required_missing
    else if starts_with (bytes "HashMismatch") error
    then assertion_datahash_match
    else if starts_with (bytes "RemoteManifestFetch") error
    then manifest_inaccessible
    else if starts_with (bytes "PrereleaseError") error
    then status_prerelease
    else general_error

abbrev pub with_ingredient : Option Text → ValidationStatus → ValidationStatus
with_ingredient none s = s
with_ingredient (some uri) s = set_status_ingredient uri s

abbrev pub from_err_val : LogItem → Option Text → Option ValidationStatus
from_err_val item none = none
from_err_val item (some e) = some (
    set_explanation (item.description ++ (bytes ": " ++ e))
      (set_url item.label (new_failure (code_from_error_str e))))

abbrev pub from_status : LogItem → Option Text → Option ValidationStatus
from_status item none = from_err_val item item.err_val
from_status item (some status) = some (
    with_ingredient item.ingredient_uri (
      set_explanation item.description
        (set_kind item.kind (set_url item.label (new_status status)))))

unfoldable pub from_log_item : LogItem → Option ValidationStatus
from_log_item item = from_status item item.validation_status

abbrev pub absolute_url : Text → Option Text → Option Text
absolute_url label none = none
absolute_url label (some url) =
    if starts_with jumbf_prefix url then some (to_absolute_uri label url) else some url

unfoldable pub make_absolute : Text → ValidationStatus → ValidationStatus
make_absolute label s = record s { url = absolute_url label s.url }

abbrev pub kind_eq : LogKind → LogKind → Bool
kind_eq success success = true
kind_eq informational informational = true
kind_eq failure failure = true
kind_eq _ _ = false

abbrev pub url_eq : Option Text → Option Text → Bool
url_eq none none = true
url_eq (some u) (some v) = bytes_eq u v
url_eq _ _ = false

-- `PartialEq`: the code, the URL and the kind.
unfoldable pub status_eq : ValidationStatus → ValidationStatus → Bool
status_eq s t = bytes_eq s.code t.code && (url_eq s.url t.url && kind_eq s.kind t.kind)
