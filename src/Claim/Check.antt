-- ===== src/Claim/Check.antt =====
-- Checks of a claim: they log items, and go on or return an error. `fail` and `succeed` are the uses
-- of `log_item!` with `failure` and `success` (sdk/src/status_tracker). The place in the code that an
-- item names (crate, file and line) is left empty. `shown` is the text of an error, `format!("{err:?}")`,
-- from the error and the text that it carries.
pub mod Laws
use c2pa_rs_html.Prelude.{
  List, [], ◌∷◌, Text, bytes, Bool, true, false, not, ◌&&◌, none, ◌≡◌, all, if◌then◌else◌,
}
use c2pa_rs_html.Result.{Result, ok, err, panic, stuck}
use c2pa_rs_html.Error.{Error}
use c2pa_rs_html.Status.LogItem.{LogItem, informational, with_status}
use c2pa_rs_html.Status.Tracker.{
  StatusTracker, has_any_error, log_success, log_failure, failure_no_throw, failure_as_err,
}

abbrev pub Outcome : Type 0 → Type 0
Outcome A = StatusTracker × Result Error A

abbrev pub Check : Type 0
Check = StatusTracker → Outcome (Unit {0})

abbrev pub after_ok : Outcome (Unit {0}) → Check → Outcome (Unit {0})
after_ok (t, ok u) next = next t
after_ok (t, err e) next = (t, err e)
after_ok (t, panic) next = (t, panic)
after_ok (t, stuck) next = (t, stuck)

-- The second after the first, if that returns no error.
infixl 5 ◌>>>◌
abbrev pub ◌>>>◌ : Check → Check → Check
(m >>> next) t = after_ok (m t) next

abbrev pub done : Check
done t = (t, ok tt)

abbrev pub throw : Error → Check
throw e t = (t, err e)

-- The rest with a value that is computed, with its error returned at once.
abbrev pub with_result {ℓ} : {A : Type ℓ} → Result Error A → (A → Check) → Check
with_result (ok a) next = next a
with_result (err e) next = throw e
with_result panic next = λ t. (t, panic)
with_result stuck next = λ t. (t, stuck)

abbrev pub for_each {ℓ} : {A : Type ℓ} → (A → Check) → List A → Check
for_each f [] = done
for_each f (x ∷ xs) = f x >>> for_each f xs

-- An `if` without an `else`.
abbrev pub when : Bool → Check → Check
when c m = if c then m else done

-- `log_item!`.
abbrev pub log_item : Text → Text → Text → LogItem
log_item label description function = record {
  kind = informational;
  label = label;
  description = description;
  crate_name = [];
  crate_version = [];
  file = [];
  function = function;
  line = 0;
  err_val = none;
  validation_status = none;
  ingredient_uri = none;
}

unfoldable pub succeed : Text → LogItem → Check
succeed status item t = (log_success (with_status status item) t, ok tt)

abbrev pub unless_err : Result Error Error → Result Error (Unit {0})
unless_err (ok e) = ok tt
unless_err (err e) = err e
unless_err panic = panic
unless_err stuck = stuck

abbrev pub returned : StatusTracker × Result Error Error → Outcome (Unit {0})
returned (t, r) = (t, unless_err r)

module _ (shown : Error → Text → Text) where
  -- `failure(...)?`.
  unfoldable pub fail : Text → LogItem → Error → Text → Check
  fail status item e carried t =
      returned (log_failure (shown e carried) (with_status status item) t e)

  -- `failure_as_err(...)`, returned by `?`.
  unfoldable pub refuse : Text → LogItem → Error → Text → Check
  refuse status item e carried t =
      let (after, e') = failure_as_err (shown e carried) (with_status status item) t e in
      (after, err e')

  -- `failure_no_throw(...)`.
  unfoldable pub report : Text → LogItem → Error → Text → Check
  report status item e carried t =
      (failure_no_throw (shown e carried) (with_status status item) t e, ok tt)

-- The check returns no error, and afterwards the log has none.
unfoldable pub passed : Outcome (Unit {0}) → Bool
passed (t, ok u) = not (has_any_error t)
passed (t, err e) = false
passed (t, panic) = false
passed (t, stuck) = false

-- On a log without errors the check passes exactly if `b`; on another it does not pass.
abbrev pub Meets : Check → Bool → Type 0
Meets m b = (t : StatusTracker) → passed (m t) ≡ (not (has_any_error t) && b)
