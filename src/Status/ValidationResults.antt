-- ===== src/Status/ValidationResults.antt =====
-- The validation results of sdk/src/validation_results.rs. `from_store` takes what it asks the store
-- for: the label of the active manifest (the provenance claim's), if there is one, and the decoded
-- ingredient assertions of all claims in order, as far as its code reads them.
use c2pa_rs_html.Prelude.{
  Text, Option, none, some, Bool, true, false, not, ◌||◌, List, [], ◌∷◌, ◌++◌, map, any, keep,
  is_empty, bytes_eq, if◌then◌else◌,
}
use c2pa_rs_html.Jumbf.Labels.{manifest_label_from_uri}
use c2pa_rs_html.Status.LogItem.{LogKind, LogItem, success, informational, failure}
use c2pa_rs_html.Status.Codes.{signing_credential_trusted, log_kind}
use c2pa_rs_html.Status.ValidationStatus.{
  ValidationStatus, set_kind, from_log_item, make_absolute, status_eq, url_eq,
}

pub data ValidationState : Type 0 where
  invalid valid trusted : ValidationState

pub record StatusCodes : Type 0 where
  pub success_codes : List ValidationStatus
  pub informational_codes : List ValidationStatus
  pub failure_codes : List ValidationStatus

abbrev pub no_codes : StatusCodes
no_codes = record { success_codes = []; informational_codes = []; failure_codes = [] }

abbrev pub add_success_val : ValidationStatus → StatusCodes → StatusCodes
add_success_val s c = record c { success_codes = c.success_codes ++ s ∷ [] }

abbrev pub add_informational_val : ValidationStatus → StatusCodes → StatusCodes
add_informational_val s c = record c { informational_codes = c.informational_codes ++ s ∷ [] }

abbrev pub add_failure_val : ValidationStatus → StatusCodes → StatusCodes
add_failure_val s c = record c { failure_codes = c.failure_codes ++ s ∷ [] }

-- `StatusCodes::add_status`, by the kind of the status.
abbrev pub add_by_kind : LogKind → ValidationStatus → StatusCodes → StatusCodes
add_by_kind success s c = add_success_val s c
add_by_kind informational s c = add_informational_val s c
add_by_kind failure s c = add_failure_val s c

abbrev pub add_code : ValidationStatus → StatusCodes → StatusCodes
add_code s c = add_by_kind s.kind s c

pub record IngredientDelta : Type 0 where
  pub ingredient_assertion_uri : Text
  pub validation_deltas : StatusCodes

pub record ValidationResults : Type 0 where
  pub active_manifest : Option StatusCodes
  pub ingredient_deltas : Option (List IngredientDelta)

abbrev pub default_results : ValidationResults
default_results = record { active_manifest = none; ingredient_deltas = none }

-- `get_or_insert_with(StatusCodes::default)`.
abbrev pub codes_or_new : Option StatusCodes → StatusCodes
codes_or_new none = no_codes
codes_or_new (some c) = c

abbrev pub deltas_or_new : Option (List IngredientDelta) → List IngredientDelta
deltas_or_new none = []
deltas_or_new (some ds) = ds

-- The first delta of the ingredient gets the status; a new one is pushed if there is none.
unfoldable pub add_to_deltas : Text → ValidationStatus → List IngredientDelta → List IngredientDelta
add_to_deltas uri s [] =
    record { ingredient_assertion_uri = uri; validation_deltas = add_code s no_codes } ∷ []
add_to_deltas uri s (d ∷ ds) =
    if bytes_eq d.ingredient_assertion_uri uri
    then record d { validation_deltas = add_code s d.validation_deltas } ∷ ds
    else d ∷ add_to_deltas uri s ds

abbrev pub add_for : Option Text → ValidationStatus → ValidationResults → ValidationResults
add_for none s r = record r { active_manifest = some (add_code s (codes_or_new r.active_manifest)) }
add_for (some uri) s r = record r {
  ingredient_deltas = some (add_to_deltas uri s (deltas_or_new r.ingredient_deltas));
}

unfoldable pub add_status : ValidationStatus → ValidationResults → ValidationResults
add_status s r = add_for s.ingredient_uri s r

abbrev pub add_active_manifest : StatusCodes → ValidationResults → ValidationResults
add_active_manifest scm r = record r { active_manifest = some scm }

abbrev pub add_ingredient_delta : IngredientDelta → ValidationResults → ValidationResults
add_ingredient_delta idv r = record r {
  ingredient_deltas = some (deltas_or_new r.ingredient_deltas ++ idv ∷ []);
}

abbrev pub is_trusted_code : ValidationStatus → Bool
is_trusted_code s = bytes_eq s.code signing_credential_trusted

-- The loop over the deltas.
abbrev pub deltas_state : Bool → List IngredientDelta → ValidationState
deltas_state is_trusted [] = if is_trusted then trusted else valid
deltas_state is_trusted (d ∷ ds) =
    if is_empty d.validation_deltas.failure_codes then deltas_state is_trusted ds else invalid

abbrev pub active_state : Option StatusCodes → List IngredientDelta → ValidationState
active_state none ds = deltas_state true ds
active_state (some c) ds =
    if is_empty c.failure_codes
    then deltas_state (any is_trusted_code c.success_codes) ds
    else invalid

unfoldable pub validation_state : ValidationResults → ValidationState
validation_state r = active_state r.active_manifest (deltas_or_new r.ingredient_deltas)

abbrev pub failures_of : Option StatusCodes → List ValidationStatus
failures_of none = []
failures_of (some c) = c.failure_codes

abbrev pub delta_failures : List IngredientDelta → List ValidationStatus
delta_failures [] = []
delta_failures (d ∷ ds) = d.validation_deltas.failure_codes ++ delta_failures ds

abbrev pub unless_empty {ℓ} : {A : Type ℓ} → List A → Option (List A)
unless_empty [] = none
unless_empty (x ∷ xs) = some (x ∷ xs)

unfoldable pub validation_errors : ValidationResults → Option (List ValidationStatus)
validation_errors r =
    unless_empty
      (failures_of r.active_manifest ++ delta_failures (deltas_or_new r.ingredient_deltas))

abbrev pub flat_codes : StatusCodes → List ValidationStatus
flat_codes c = c.success_codes ++ (c.informational_codes ++ c.failure_codes)

abbrev pub flat_active : Option StatusCodes → List ValidationStatus
flat_active none = []
flat_active (some c) = flat_codes c

abbrev pub flat_deltas : List IngredientDelta → List ValidationStatus
flat_deltas [] = []
flat_deltas (d ∷ ds) = flat_codes d.validation_deltas ++ flat_deltas ds

unfoldable pub validation_status : ValidationResults → List ValidationStatus
validation_status r =
    flat_active r.active_manifest ++ flat_deltas (deltas_or_new r.ingredient_deltas)

-- What `from_store` reads of a decoded ingredient assertion; the manifests are their URLs.
pub record Ingredient : Type 0 where
  pub validation_results : Option ValidationResults
  pub old_status : Option (List ValidationStatus)
  pub active_manifest_url : Option Text
  pub c2pa_manifest_url : Option Text

abbrev pub is_active_manifest : Text → Option Text → Bool
is_active_manifest active none = false
is_active_manifest active (some uri) = url_eq (manifest_label_from_uri uri) (some active)

abbrev pub with_log_kind : ValidationStatus → ValidationStatus
with_log_kind s = set_kind (log_kind s.code) s

abbrev pub statuses_of :
    Option ValidationResults → Option (List ValidationStatus) → List ValidationStatus
statuses_of (some v) old = validation_status v
statuses_of none none = []
statuses_of none (some old) = map with_log_kind old

abbrev pub absolute_by : Option Text → List ValidationStatus → List ValidationStatus
absolute_by none ss = ss
absolute_by (some label) ss = map (make_absolute label) ss

-- `Option::or`, then `and_then` by the label in the URL.
abbrev pub manifest_label : Option Text → Option Text → Option Text
manifest_label (some url) other = manifest_label_from_uri url
manifest_label none (some url) = manifest_label_from_uri url
manifest_label none none = none

-- The closure `make_absolute`; its `None` counts as no statuses, since the caller flattens.
unfoldable pub ingredient_statuses : Ingredient → List ValidationStatus
ingredient_statuses i =
    absolute_by (manifest_label i.active_manifest_url i.c2pa_manifest_url)
      (statuses_of i.validation_results i.old_status)

abbrev pub all_statuses : List Ingredient → List ValidationStatus
all_statuses [] = []
all_statuses (i ∷ is) = ingredient_statuses i ++ all_statuses is

abbrev pub push_some {ℓ} : {A : Type ℓ} → Option A → List A → List A
push_some none xs = xs
push_some (some x) xs = x ∷ xs

abbrev pub log_statuses : List LogItem → List ValidationStatus
log_statuses [] = []
log_statuses (item ∷ items) = push_some (from_log_item item) (log_statuses items)

-- `retain`'s test: the status is of the active manifest, or no ingredient has it.
abbrev pub is_news : Text → List ValidationStatus → ValidationStatus → Bool
is_news active known s = is_active_manifest active s.url || not (any (λ i. status_eq i s) known)

abbrev pub retained : Text → List Ingredient → List ValidationStatus → List ValidationStatus
retained active ingredients statuses =
    if any (λ s. not (is_active_manifest active s.url)) statuses
    then keep (is_news active (all_statuses ingredients)) statuses
    else statuses

abbrev pub add_statuses : List ValidationStatus → ValidationResults → ValidationResults
add_statuses [] r = r
add_statuses (s ∷ ss) r = add_statuses ss (add_status s r)

unfoldable pub from_store : Option Text → List Ingredient → List LogItem → ValidationResults
from_store none ingredients log = default_results
from_store (some active) ingredients log =
    add_statuses (retained active ingredients (log_statuses log)) default_results
