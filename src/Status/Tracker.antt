-- ===== src/Status/Tracker.antt =====
-- The status tracker of sdk/src/status_tracker/mod.rs: the log of a validation, with the stacks of
-- ingredient URIs and of current URIs that a new item is stamped with. A stack's top is its last
-- element, as in the source's vectors. The text of an error, `format!("{err:?}")`, is an argument.
use c2pa_rs_html.Prelude.{
  Text, Option, none, some, Bool, true, false, List, [], ◌∷◌, ◌++◌, any, keep, get_last?, is_empty,
  is_some, bytes_eq, if◌then◌else◌,
}
use c2pa_rs_html.Result.{Result, ok, err}
use c2pa_rs_html.Status.LogItem.{LogItem, success, informational, of_kind, as_failure}

pub data ErrorBehavior : Type 0 where
  stop_on_first_error continue_when_possible : ErrorBehavior

pub record StatusTracker : Type 0 where
  pub error_behavior : ErrorBehavior
  pub logged_items : List LogItem
  pub ingredient_uris : List Text
  pub current_uri : List Text

abbrev pub with_error_behavior : ErrorBehavior → StatusTracker
with_error_behavior b = record {
  error_behavior = b;
  logged_items = [];
  ingredient_uris = [];
  current_uri = [];
}

abbrev pub stamp_ingredient : Option Text → LogItem → LogItem
stamp_ingredient none item = item
stamp_ingredient (some uri) item = record item { ingredient_uri = some uri }

abbrev pub stamp_label : Option Text → LogItem → LogItem
stamp_label none item = item
stamp_label (some uri) item = if is_empty item.label then record item { label = uri } else item

-- What `add_non_error` and `add_error` do to an item before they push it.
unfoldable pub stamp : StatusTracker → LogItem → LogItem
stamp t item =
    stamp_label (get_last? t.current_uri) (stamp_ingredient (get_last? t.ingredient_uris) item)

unfoldable pub add_non_error : StatusTracker → LogItem → StatusTracker
add_non_error t item = record t { logged_items = t.logged_items ++ stamp t item ∷ [] }

abbrev pub by_behavior {ℓ} : {E : Type ℓ} → ErrorBehavior → E → Result E E
by_behavior stop_on_first_error e = err e
by_behavior continue_when_possible e = ok e

unfoldable pub add_error {ℓ} :
    {E : Type ℓ} → StatusTracker → LogItem → E → StatusTracker × Result E E
add_error t item e = (
  record t { logged_items = t.logged_items ++ stamp t item ∷ [] },
  by_behavior t.error_behavior e,
)

abbrev pub add_all : StatusTracker → List LogItem → StatusTracker
add_all t [] = t
add_all t (item ∷ items) = add_all (add_non_error t item) items

unfoldable pub append : StatusTracker → StatusTracker → StatusTracker
append t other = add_all t other.logged_items

abbrev pub is_error : LogItem → Bool
is_error item = is_some item.err_val

unfoldable pub filter_errors : StatusTracker → List LogItem
filter_errors t = keep is_error t.logged_items

abbrev pub text_is : Text → Option Text → Bool
text_is val none = false
text_is val (some s) = bytes_eq s val

unfoldable pub has_status : StatusTracker → Text → Bool
has_status t val = any (λ item. text_is val item.validation_status) t.logged_items

-- The error is given by its text.
unfoldable pub has_error : StatusTracker → Text → Bool
has_error t shown = any (λ item. text_is shown item.err_val) t.logged_items

-- `filter_errors().next().is_some()`.
abbrev pub not_empty {ℓ} : {A : Type ℓ} → List A → Bool
not_empty [] = false
not_empty (x ∷ xs) = true

unfoldable pub has_any_error : StatusTracker → Bool
has_any_error t = not_empty (filter_errors t)

-- `Vec::pop`: what is left, and the last element.
abbrev pub pop_last {ℓ} : {A : Type ℓ} → List A → List A
pop_last [] = []
pop_last (x ∷ []) = []
pop_last (x ∷ y ∷ r) = x ∷ pop_last (y ∷ r)

unfoldable pub push_ingredient_uri : StatusTracker → Text → StatusTracker
push_ingredient_uri t uri = record t { ingredient_uris = t.ingredient_uris ++ uri ∷ [] }

unfoldable pub pop_ingredient_uri : StatusTracker → StatusTracker × Option Text
pop_ingredient_uri t =
    (record t { ingredient_uris = pop_last t.ingredient_uris }, get_last? t.ingredient_uris)

unfoldable pub push_current_uri : StatusTracker → Text → StatusTracker
push_current_uri t uri = record t { current_uri = t.current_uri ++ uri ∷ [] }

unfoldable pub pop_current_uri : StatusTracker → StatusTracker × Option Text
pop_current_uri t = (record t { current_uri = pop_last t.current_uri }, get_last? t.current_uri)

-- The operations of `LogItem` that log it (sdk/src/status_tracker/log_item.rs).
unfoldable pub log_success : LogItem → StatusTracker → StatusTracker
log_success item t = add_non_error t (of_kind success item)

unfoldable pub log_informational : LogItem → StatusTracker → StatusTracker
log_informational item t = add_non_error t (of_kind informational item)

module _ {ℓ} {E : Type ℓ} where
  unfoldable pub log_failure : Text → LogItem → StatusTracker → E → StatusTracker × Result E E
  log_failure shown item t e = add_error t (as_failure shown item) e

  unfoldable pub failure_no_throw : Text → LogItem → StatusTracker → E → StatusTracker
  failure_no_throw shown item t e = add_non_error t (as_failure shown item)

  abbrev pub either : E → Result E E → E
  either d (ok e) = e
  either d (err e) = e
  either d _ = d

  unfoldable pub failure_as_err : Text → LogItem → StatusTracker → E → StatusTracker × E
  failure_as_err shown item t e =
      let (after, r) = add_error t (as_failure shown item) e in (after, either e r)
