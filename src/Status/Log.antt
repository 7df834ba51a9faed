-- ===== src/Status/Log.antt =====
-- The laws of the status tracker.
use c2pa_rs_html.Prelude.{
  Text, Option, none, some, Bool, true, false, ◌||◌, List, [], ◌∷◌, ◌++◌, any, keep, get_last?,
  is_empty, is_some, bytes_eq_self, ◌≡◌, refl, sym, ap, ◌∙◌, Bool-cases, inl, inr, append_assoc,
  append-nil, any-append, or_false, or_true,
}
use c2pa_rs_html.Result.{ok, err}
use c2pa_rs_html.Status.LogItem.{LogItem, success, informational, of_kind, as_failure}
use c2pa_rs_html.Status.Tracker.{
  ErrorBehavior, stop_on_first_error, continue_when_possible, StatusTracker, stamp, stamp_label,
  stamp_ingredient, add_non_error, add_error, add_all, append, is_error, filter_errors, has_status,
  has_error, has_any_error, not_empty, pop_last, push_ingredient_uri, pop_ingredient_uri,
  push_current_uri, pop_current_uri, log_success, log_informational, log_failure, failure_no_throw,
  failure_as_err, text_is, by_behavior, either,
}

-- One call of an operation that changes the tracker.
pub data Step : StatusTracker → StatusTracker → Type 0 where
  succeeded : {t : StatusTracker} (item : LogItem) → Step t (log_success item t)
  informed : {t : StatusTracker} (item : LogItem) → Step t (log_informational item t)
  failed :
      {t : StatusTracker} (shown : Text) (item : LogItem)
      → Step t (failure_no_throw {0} shown item t tt)
  refused :
      {t : StatusTracker} (shown : Text) (item : LogItem)
      → Step t (log_failure {0} shown item t tt).0
  appended : {t : StatusTracker} (other : StatusTracker) → Step t (append t other)
  entered : {t : StatusTracker} (uri : Text) → Step t (push_ingredient_uri t uri)
  left : {t : StatusTracker} → Step t (pop_ingredient_uri t).0
  opened : {t : StatusTracker} (uri : Text) → Step t (push_current_uri t uri)
  closed : {t : StatusTracker} → Step t (pop_current_uri t).0

pub data Reach : StatusTracker → StatusTracker → Type 0 where
  here : {t : StatusTracker} → Reach t t
  onward : {s t u : StatusTracker} → Step s t → Reach t u → Reach s u

-- The items that `u` has more than `t`, and the same behaviour on errors.
abbrev Grows : StatusTracker → StatusTracker → Type 0
Grows t u =
    ((new : List LogItem) × (u.logged_items ≡ t.logged_items ++ new))
    × (u.error_behavior ≡ t.error_behavior)

Grows-refl : (t : StatusTracker) → Grows t t
Grows-refl t = (([], sym (append-nil t.logged_items)), refl)

Grows-trans : (s t u : StatusTracker) → Grows s t → Grows t u → Grows s u
Grows-trans s t u ((n, p), b) ((m, q), c) =
    ((n ++ m, q ∙ ap (λ l. l ++ m) p ∙ append_assoc s.logged_items n m), c ∙ b)

add_all-Grows : (t : StatusTracker) (items : List LogItem) → Grows t (add_all t items)
unfolding add_non_error
add_all-Grows t [] = Grows-refl t
add_all-Grows t (item ∷ items) =
    Grows-trans t (add_non_error t item) (add_all (add_non_error t item) items)
      ((stamp t item ∷ [], refl), refl) (add_all-Grows (add_non_error t item) items)

Step-Grows : (t u : StatusTracker) → Step t u → Grows t u
unfolding log_success log_informational failure_no_throw log_failure append push_ingredient_uri
    pop_ingredient_uri push_current_uri pop_current_uri add_non_error add_error
Step-Grows t _ (succeeded item) = ((stamp t (of_kind success item) ∷ [], refl), refl)
Step-Grows t _ (informed item) = ((stamp t (of_kind informational item) ∷ [], refl), refl)
Step-Grows t _ (failed shown item) = ((stamp t (as_failure shown item) ∷ [], refl), refl)
Step-Grows t _ (refused shown item) = ((stamp t (as_failure shown item) ∷ [], refl), refl)
Step-Grows t _ (appended other) = add_all-Grows t other.logged_items
Step-Grows t _ (entered uri) = Grows-refl t
Step-Grows t _ left = Grows-refl t
Step-Grows t _ (opened uri) = Grows-refl t
Step-Grows t _ closed = Grows-refl t

-- Along any sequence of the tracker's operations the log only grows at its end, and the behaviour
-- on errors stays.
pub log_only_grows :
    (t u : StatusTracker)
    → Reach t u
    → ((new : List LogItem) × (u.logged_items ≡ t.logged_items ++ new))
      × (u.error_behavior ≡ t.error_behavior)
log_only_grows t _ here = Grows-refl t
log_only_grows s u (onward {t = t} h r) =
    Grows-trans s t u (Step-Grows s t h) (log_only_grows t u r)

not_empty-keep {ℓ} : {A : Type ℓ} (p : A → Bool) (xs : List A) → not_empty (keep p xs) ≡ any p xs
not_empty-keep p [] = refl
not_empty-keep p (x ∷ xs) = elim (Bool-cases (p x)) [
  | inl e ↦ rw e
  | inr e ↦ rw e (not_empty-keep p xs)
]

pub has_any_error-any : (t : StatusTracker) → has_any_error t ≡ any is_error t.logged_items
unfolding has_any_error filter_errors
has_any_error-any t = not_empty-keep is_error t.logged_items

-- Stamping changes neither the error nor the status of an item.
pub stamp_keeps :
    (t : StatusTracker) (item : LogItem)
    → ((stamp t item).err_val ≡ item.err_val)
      × ((stamp t item).validation_status ≡ item.validation_status)
unfolding stamp
stamp_keeps t item =
    let (a, b) =
      labelled (get_last? t.current_uri) (stamp_ingredient (get_last? t.ingredient_uris) item) in
    let (c, d) = ingredient (get_last? t.ingredient_uris) item in (a ∙ c, b ∙ d)
  where
    ingredient :
        (o : Option Text) (i : LogItem)
        → ((stamp_ingredient o i).err_val ≡ i.err_val)
          × ((stamp_ingredient o i).validation_status ≡ i.validation_status)
    ingredient none i = (refl, refl)
    ingredient (some uri) i = (refl, refl)

    labelled :
        (o : Option Text) (i : LogItem)
        → ((stamp_label o i).err_val ≡ i.err_val)
          × ((stamp_label o i).validation_status ≡ i.validation_status)
    labelled none i = (refl, refl)
    labelled (some uri) i = elim (Bool-cases (is_empty i.label)) [
      | inl e ↦ rw e (refl, refl)
      | inr e ↦ rw e (refl, refl)
    ]

-- A test that stamping does not change, on all items of an appended log.
any-add_all :
    (p : LogItem → Bool)
    → ((t : StatusTracker) (item : LogItem) → p (stamp t item) ≡ p item)
    → (t : StatusTracker) (items : List LogItem)
    → any p (add_all t items).logged_items ≡ (any p t.logged_items || any p items)
unfolding add_non_error
any-add_all p same t [] = sym (or_false (any p t.logged_items))
any-add_all p same t (item ∷ items) =
    rw
      (
        any-add_all p same (add_non_error t item) items,
        any-append p t.logged_items (stamp t item ∷ []),
        same t item,
      )
      (or_assoc (any p t.logged_items) (p item) (any p items))
  where
    or_assoc : (a b c : Bool) → ((a || (b || false)) || c) ≡ (a || (b || c))
    or_assoc true b c = refl
    or_assoc false true c = refl
    or_assoc false false c = refl

-- Appending a tracker's log keeps what both logs report: an error is there exactly if one of the
-- two has it, and so is a status, and an error of a given text.
append_reports :
    (t other : StatusTracker) (val : Text)
    → (has_any_error (append t other) ≡ (has_any_error t || has_any_error other))
      × (has_status (append t other) val ≡ (has_status t val || has_status other val))
      × (has_error (append t other) val ≡ (has_error t val || has_error other val))
unfolding append has_status has_error
append_reports t other val = (
  has_any_error-any (add_all t other.logged_items)
      ∙ any-add_all is_error (λ s i. ap is_some (stamp_keeps s i).0) t other.logged_items
      ∙ (rw (has_any_error-any t, has_any_error-any other)),
  any-add_all (λ i. text_is val i.validation_status) (λ s i. ap (text_is val) (stamp_keeps s i).1) t
      other.logged_items,
  any-add_all (λ i. text_is val i.err_val) (λ s i. ap (text_is val) (stamp_keeps s i).0) t
      other.logged_items,
)

any-last {ℓ} :
    {A : Type ℓ} (p : A → Bool) (xs : List A) (x : A) → p x ≡ true → any p (xs ++ x ∷ []) ≡ true
any-last p xs x h = rw (any-append p xs (x ∷ []), h) (or_true (any p xs))

-- A failure is always logged: afterwards the tracker has an error, and one of that text; the error
-- comes back as `Err` if the tracker stops on the first error and as `Ok` if it goes on, and
-- `failure_as_err` logs the same and hands the error back in both cases.
pub failure_is_logged {ℓ} :
    {E : Type ℓ} (shown : Text) (item : LogItem) (t : StatusTracker) (e : E)
    → (has_any_error (log_failure shown item t e).0 ≡ true)
      × (has_error (log_failure shown item t e).0 shown ≡ true)
      × (failure_as_err shown item t e ≡ ((log_failure shown item t e).0, e))
      × ((t.error_behavior ≡ stop_on_first_error → (log_failure shown item t e).1 ≡ err e)
          × (t.error_behavior ≡ continue_when_possible → (log_failure shown item t e).1 ≡ ok e))
unfolding log_failure failure_as_err add_error has_error
failure_is_logged {E = E} shown item t e =
    let same = (stamp_keeps t (as_failure shown item)).0 in
    (
      has_any_error-any (add_error t (as_failure shown item) e).0
          ∙ any-last is_error t.logged_items (stamp t (as_failure shown item)) (ap is_some same),
      any-last (λ i. text_is shown i.err_val) t.logged_items (stamp t (as_failure shown item))
          (ap (text_is shown) same ∙ bytes_eq_self shown),
      handed_back t.error_behavior,
      ((λ h. rw h), (λ h. rw h)),
    )
  where
    handed_back :
        (b : ErrorBehavior)
        → ◌≡◌ {A = StatusTracker × E}
            ((add_error t (as_failure shown item) e).0, either e (by_behavior b e))
            ((add_error t (as_failure shown item) e).0, e)
    handed_back stop_on_first_error = refl
    handed_back continue_when_possible = refl

pop_last-append {ℓ} :
    {A : Type ℓ} (xs : List A) (x : A)
    → (pop_last (xs ++ x ∷ []) ≡ xs) × (get_last? (xs ++ x ∷ []) ≡ some x)
pop_last-append [] x = (refl, refl)
pop_last-append (y ∷ []) x = (refl, refl)
pop_last-append (y ∷ z ∷ r) x = let (a, b) = pop_last-append (z ∷ r) x in (ap (λ l. y ∷ l) a, b)

-- An item that `add_non_error` logs between `push_ingredient_uri` and `pop_ingredient_uri` names
-- that ingredient, and the pair leaves the tracker otherwise as it was: the popped URI is the
-- pushed one, and only the item is new.
ingredient_scope :
    (t : StatusTracker) (uri : Text) (item : LogItem)
    → let inside = push_ingredient_uri t uri in
      let (after, popped) = pop_ingredient_uri (add_non_error inside item) in
      (popped ≡ some uri)
      × (after ≡ record t { logged_items = t.logged_items ++ stamp inside item ∷ [] })
      × ((stamp inside item).ingredient_uri ≡ some uri)
unfolding push_ingredient_uri pop_ingredient_uri add_non_error stamp
ingredient_scope t uri item =
    let (a, b) = pop_last-append t.ingredient_uris uri in
    (b, rw a, rw b (keeps_ingredient (get_last? t.current_uri)))
  where
    keeps_ingredient :
        (o : Option Text)
        → (stamp_label o (record item { ingredient_uri = some uri })).ingredient_uri ≡ some uri
    keeps_ingredient none = refl
    keeps_ingredient (some label) = elim (Bool-cases (is_empty item.label)) [
      | inl e ↦ rw e
      | inr e ↦ rw e
    ]
