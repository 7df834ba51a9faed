-- ===== src/Claim/Check/Laws.antt =====
-- What a check meets, from what its parts meet.
use c2pa_rs_html.Prelude.{
  List, [], ◌∷◌, Text, Bool, true, false, not, ◌&&◌, ◌||◌, none, ◌≡◌, refl, sym, ap, ◌∙◌, all, any,
  any_last, is_some, or_false, or_true, if◌then◌else◌,
}
use c2pa_rs_html.Result.{Result, ok, err, panic, stuck}
use c2pa_rs_html.Error.{Error}
use c2pa_rs_html.Status.LogItem.{LogItem, success, of_kind, as_failure, with_status}
use c2pa_rs_html.Status.Tracker.{
  ErrorBehavior, stop_on_first_error, continue_when_possible, StatusTracker, has_any_error,
  is_error, stamp, add_non_error, add_error, by_behavior, log_success, log_failure,
  failure_no_throw,
}
use c2pa_rs_html.Status.Log.{has_any_error-any, stamp_keeps}
use c2pa_rs_html.Claim.Check.{
  Outcome, Check, after_ok, ◌>>>◌, done, throw, with_result, when, for_each, succeed, returned,
  fail, refuse, report, passed, Meets,
}

pub done-Meets : Meets done true
unfolding passed
done-Meets t = by_case (has_any_error t)
  where
    by_case : (b : Bool) → not b ≡ (not b && true)
    by_case true = refl
    by_case false = refl

fails : (b : Bool) → false ≡ (b && false)
fails true = refl
fails false = refl

pub throw-Meets : (e : Error) → Meets (throw e) false
unfolding passed
throw-Meets e t = fails (not (has_any_error t))

pub panic-Meets : Meets (λ t. (t, panic)) false
unfolding passed
panic-Meets t = fails (not (has_any_error t))

pub stuck-Meets : Meets (λ t. (t, stuck)) false
unfolding passed
stuck-Meets t = fails (not (has_any_error t))

after_ok-passed :
    (o : Outcome (Unit {0})) (n : Check) (b : Bool)
    → Meets n b
    → passed (after_ok o n) ≡ (passed o && b)
unfolding passed
after_ok-passed (t, ok u) n b h = h t
after_ok-passed (t, err e) n b h = refl
after_ok-passed (t, panic) n b h = refl
after_ok-passed (t, stuck) n b h = refl

pub and_assoc : (a b c : Bool) → ((a && b) && c) ≡ (a && (b && c))
and_assoc true b c = refl
and_assoc false b c = refl

pub after-Meets : (m n : Check) (a b : Bool) → Meets m a → Meets n b → Meets (m >>> n) (a && b)
after-Meets m n a b hm hn t =
    after_ok-passed (m t) n b hn ∙ ap (λ p. p && b) (hm t) ∙ and_assoc (not (has_any_error t)) a b

pub if-Meets :
    (c : Bool) (m n : Check) (a b : Bool)
    → Meets m a
    → Meets n b
    → Meets (if c then m else n) (if c then a else b)
if-Meets true m n a b hm hn = hm
if-Meets false m n a b hm hn = hn

pub when-Meets : (c : Bool) (m : Check) → Meets m false → Meets (when c m) (not c)
when-Meets true m h = h
when-Meets false m h = done-Meets

pub unless-Meets : (c : Bool) (m : Check) → Meets m false → Meets (when (not c) m) c
unless-Meets true m h = done-Meets
unless-Meets false m h = h

pub for_each-Meets {ℓ} :
    {A : Type ℓ} (f : A → Check) (p : A → Bool) (xs : List A)
    → ((x : A) → Meets (f x) (p x))
    → Meets (for_each f xs) (all p xs)
for_each-Meets f p [] h = done-Meets
for_each-Meets f p (x ∷ xs) h =
    after-Meets (f x) (for_each f xs) (p x) (all p xs) (h x) (for_each-Meets f p xs h)

-- The test of a value that is computed.
abbrev pub result_is {ℓ} : {A : Type ℓ} → (A → Bool) → Result Error A → Bool
result_is p (ok a) = p a
result_is p (err e) = false
result_is p panic = false
result_is p stuck = false

pub with_result-Meets {ℓ} :
    {A : Type ℓ} (r : Result Error A) (f : A → Check) (p : A → Bool)
    → ((a : A) → Meets (f a) (p a))
    → Meets (with_result r f) (result_is p r)
with_result-Meets (ok a) f p h = h a
with_result-Meets (err e) f p h = throw-Meets e
with_result-Meets panic f p h = panic-Meets
with_result-Meets stuck f p h = stuck-Meets

-- The log with one item more has an error if it had one, or if the item has one.
pushed :
    (t : StatusTracker) (item : LogItem)
    → has_any_error (add_non_error t item) ≡ (has_any_error t || is_error item)
unfolding add_non_error
pushed t item =
    has_any_error-any (add_non_error t item)
    ∙ any_last is_error t.logged_items (stamp t item)
    ∙ ap (λ b. any is_error t.logged_items || b) (ap is_some (stamp_keeps t item).0)
    ∙ ap (λ b. b || is_error item) (sym (has_any_error-any t))

pub succeed-Meets :
    (status : Text) (item : LogItem) → item.err_val ≡ none → Meets (succeed status item) true
unfolding succeed passed log_success
succeed-Meets status item h t =
    ap not (
      pushed t (of_kind success (with_status status item))
      ∙ ap (λ o. has_any_error t || is_some o) h
      ∙ or_false (has_any_error t))
    ∙ done-Meets t

module _ (shown : Error → Text → Text) (status : Text) (item : LogItem) (e : Error)
    (carried : Text) where
  abbrev failed_item : LogItem
  failed_item = as_failure (shown e carried) (with_status status item)

  logged : (t : StatusTracker) → has_any_error (add_non_error t failed_item) ≡ true
  logged t = pushed t failed_item ∙ or_true (has_any_error t)

  pub fail-Meets : Meets (fail shown status item e carried) false
  unfolding fail passed log_failure add_error add_non_error
  fail-Meets t = by_case t.error_behavior ∙ fails (not (has_any_error t))
    where
      by_case :
          (b : ErrorBehavior)
          → passed (returned ((add_non_error t failed_item), by_behavior b e)) ≡ false
      by_case stop_on_first_error = refl
      by_case continue_when_possible = ap not (logged t)

  pub refuse-Meets : Meets (refuse shown status item e carried) false
  unfolding refuse passed
  refuse-Meets t = fails (not (has_any_error t))

  pub report-Meets : Meets (report shown status item e carried) false
  unfolding report passed failure_no_throw
  report-Meets t = ap not (logged t) ∙ fails (not (has_any_error t))
