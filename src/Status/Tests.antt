-- ===== src/Status/Tests.antt =====
-- Runs of the tracker and of the results on small logs.
use c2pa_rs_html.Prelude.{
  Text, split, bytes, ◌≡◌, ◌↔◌, ◌||◌, refl, List, [], ◌∷◌, ◌++◌, none, some, true, any, is_some,
}
use c2pa_rs_html.Result.{ok, err}
use c2pa_rs_html.Jumbf.Labels.{manifest_label_from_uri, to_normalized_uri}
use c2pa_rs_html.Status.LogItem.{LogItem, success, failure, as_failure}
use c2pa_rs_html.Status.Tracker.{
  StatusTracker, with_error_behavior, stop_on_first_error, continue_when_possible, log_success,
  log_failure, failure_as_err, failure_no_throw, has_any_error, has_error, stamp,
}
use c2pa_rs_html.Status.Log.{here, onward, succeeded, failed, log_only_grows, failure_is_logged}
use c2pa_rs_html.Status.Codes.{log_kind, signing_credential_trusted}
use c2pa_rs_html.Status.ValidationStatus.{ValidationStatus, new_status, new_failure, from_log_item}
use c2pa_rs_html.Status.ValidationResults.{
  invalid, trusted, default_results, add_statuses, validation_state, validation_errors,
  validation_status, from_store, Ingredient,
}
use c2pa_rs_html.Status.State.{
  state_of, is_failing, validation_state-add_statuses, invalid_iff_errors,
}
use c2pa_rs_html.Status.Flat.{validation_status-add_statuses}
use c2pa_rs_html.Status.Verdict.{failure_makes_invalid, hash_mismatch_code}

abbrev urn : Text
urn = bytes "urn:c2pa:1"

abbrev item : LogItem
item = record {
  kind = success;
  label = bytes "self#jumbf=/c2pa/urn:c2pa:1/c2pa.assertions/c2pa.hash.data";
  description = bytes "hash";
  crate_name = bytes "c2pa";
  crate_version = bytes "1";
  file = bytes "claim.rs";
  function = bytes "verify";
  line = 7;
  err_val = none;
  validation_status = none;
  ingredient_uri = none;
}

abbrev tracker : StatusTracker
tracker = with_error_behavior stop_on_first_error

abbrev shown : Text
shown = bytes "HashMismatch(1)"

abbrev logged : StatusTracker
logged = failure_no_throw {0} shown item (log_success item tracker) tt

log_only_grows_example :
    ((new : List LogItem) × (logged.logged_items ≡ tracker.logged_items ++ new))
    × (logged.error_behavior ≡ tracker.error_behavior)
log_only_grows_example =
    log_only_grows tracker logged (onward (succeeded item) (onward (failed shown item) here))

failure_is_logged_example :
    (has_any_error (log_failure shown item tracker true).0 ≡ true)
    × (has_error (log_failure shown item tracker true).0 shown ≡ true)
    × (failure_as_err shown item tracker true ≡ ((log_failure shown item tracker true).0, true))
    × ((stop_on_first_error ≡ stop_on_first_error
          → (log_failure shown item tracker true).1 ≡ err true)
        × (stop_on_first_error ≡ continue_when_possible
            → (log_failure shown item tracker true).1 ≡ ok true))
failure_is_logged_example = failure_is_logged shown item tracker true

abbrev statuses : List ValidationStatus
statuses = new_status signing_credential_trusted ∷ new_failure (bytes "x") ∷ []

validation_state-add_statuses_example :
    validation_state (add_statuses statuses default_results) ≡ state_of statuses
validation_state-add_statuses_example = validation_state-add_statuses statuses

-- A trusted credential with no failure.
trusted_run :
    validation_state (add_statuses (new_status signing_credential_trusted ∷ []) default_results)
    ≡ trusted
trusted_run = validation_state-add_statuses (new_status signing_credential_trusted ∷ [])

invalid_iff_errors_example :
    (validation_state (add_statuses statuses default_results) ≡ invalid)
    ↔ (is_some (validation_errors (add_statuses statuses default_results)) ≡ true)
invalid_iff_errors_example = invalid_iff_errors (add_statuses statuses default_results)

validation_status-add_statuses_example :
    any is_failing (validation_status (add_statuses statuses default_results))
    ≡ (any is_failing (validation_status default_results) || any is_failing statuses)
validation_status-add_statuses_example =
    validation_status-add_statuses is_failing statuses default_results

abbrev no_ingredients : List Ingredient
no_ingredients = []

failure_makes_invalid_example :
    validation_state (
      from_store
        (some urn)
        no_ingredients
        (failure_no_throw {0} shown item tracker tt).logged_items)
    ≡ invalid
unfolding stamp manifest_label_from_uri to_normalized_uri split
failure_makes_invalid_example = failure_makes_invalid urn no_ingredients shown item tracker refl

hash_mismatch_code_example :
    (s : ValidationStatus) × (from_log_item (as_failure shown item) ≡ some s)
    × (s.kind ≡ failure)
    × (log_kind s.code ≡ success)
hash_mismatch_code_example = hash_mismatch_code (as_failure shown item) (bytes "(1)") refl refl
