-- ===== src/Status/Verdict.antt =====
-- From the log of a validation to its verdict: what the failures that were logged do to the results.
use c2pa_rs_html.Prelude.{
  Text, bytes, Option, none, some, Bool, true, false, not, ◌&&◌, List, [], ◌∷◌, ◌++◌, any, keep,
  is_some, is_empty, ◌≡◌, refl, ap, ◌∙◌, Bool-cases, inl, inr, any-append, or_true,
}
use c2pa_rs_html.Status.LogItem.{LogItem, success, failure, as_failure}
use c2pa_rs_html.Status.Codes.{log_kind}
use c2pa_rs_html.Status.ValidationStatus.{
  ValidationStatus, is_failure, passed, from_log_item, from_status, with_ingredient,
  code_from_error_str,
}
use c2pa_rs_html.Status.Tracker.{
  StatusTracker, failure_no_throw, add_non_error, stamp, stamp_label, stamp_ingredient,
}
use c2pa_rs_html.Prelude.{get_last?}
use c2pa_rs_html.Status.Log.{stamp_keeps}
use c2pa_rs_html.Status.State.{is_failing, validation_state-add_statuses}
use c2pa_rs_html.Status.ValidationResults.{
  invalid, validation_state, Ingredient, is_active_manifest, all_statuses, push_some, log_statuses,
  is_news, retained, from_store,
}

-- An item of the kind failure with an error always gives a status that did not pass and that has
-- the item's label for its URL, with or without a validation status of its own.
from_log_item_failure :
    (item : LogItem)
    → item.kind ≡ failure
    → is_some item.err_val ≡ true
    → (s : ValidationStatus) × (from_log_item item ≡ some s)
      × (passed s ≡ false)
      × (s.url ≡ some item.label)
unfolding from_log_item passed
from_log_item_failure item k e = by_status item.validation_status item.err_val e
  where
    by_status :
        (o v : Option Text)
        → is_some v ≡ true
        → (s : ValidationStatus) × (from_status (record item { err_val = v }) o ≡ some s)
          × (not (is_failure s.kind) ≡ false)
          × (s.url ≡ some item.label)
    by_status (some status) v h = named item.ingredient_uri
      where
        plain : ValidationStatus
        plain = record {
          code = status;
          url = some item.label;
          explanation = some item.description;
          old_success = none;
          kind = item.kind;
          ingredient_uri = none;
        }

        named :
            (i : Option Text)
            → (s : ValidationStatus) × (some (with_ingredient i plain) ≡ some s)
              × (not (is_failure s.kind) ≡ false)
              × (s.url ≡ some item.label)
        named none = (plain, refl, rw k, refl)
        named (some uri) = (record plain { ingredient_uri = some uri }, refl, rw k, refl)
    by_status none none h = cc
    by_status none (some err) h = (
      record {
        code = code_from_error_str err;
        url = some item.label;
        explanation = some (item.description ++ (bytes ": " ++ err));
        old_success = none;
        kind = failure;
        ingredient_uri = none;
      },
      refl,
      refl,
      refl,
    )

stamp-kind : (t : StatusTracker) (item : LogItem) → (stamp t item).kind ≡ item.kind
unfolding stamp
stamp-kind t item =
    labelled (get_last? t.current_uri) (stamp_ingredient (get_last? t.ingredient_uris) item)
    ∙ ingredient (get_last? t.ingredient_uris)
  where
    ingredient : (o : Option Text) → (stamp_ingredient o item).kind ≡ item.kind
    ingredient none = refl
    ingredient (some uri) = refl

    labelled : (o : Option Text) (i : LogItem) → (stamp_label o i).kind ≡ i.kind
    labelled none i = refl
    labelled (some uri) i = elim (Bool-cases (is_empty i.label)) [ inl e ↦ rw e | inr e ↦ rw e ]

log_statuses-append :
    (xs ys : List LogItem) → log_statuses (xs ++ ys) ≡ log_statuses xs ++ log_statuses ys
log_statuses-append [] ys = refl
log_statuses-append (x ∷ xs) ys = rw (log_statuses-append xs ys) (pushed (from_log_item x))
  where
    pushed :
        (o : Option ValidationStatus)
        → push_some o (log_statuses xs ++ log_statuses ys)
          ≡ push_some o (log_statuses xs) ++ log_statuses ys
    pushed none = refl
    pushed (some s) = refl

abbrev fails_active : Text → ValidationStatus → Bool
fails_active active s = is_failing s && is_active_manifest active s.url

keep_failing :
    (active : Text) (known ss : List ValidationStatus)
    → any (fails_active active) ss ≡ true
    → any is_failing (keep (is_news active known) ss) ≡ true
keep_failing active known [] h = cc
keep_failing active known (s ∷ ss) h = elim (Bool-cases (is_failing s)) [
  | inl f ↦ elim (Bool-cases (is_active_manifest active s.url)) [
    | inl a ↦ rw (a, f)
    | inr a ↦ skip (keep_failing active known ss) (rw (f, a) at h)
  ]
  | inr f ↦ skip (keep_failing active known ss) (rw f at h)
]
  where
    skip :
        (any (fails_active active) ss ≡ true
          → any is_failing (keep (is_news active known) ss) ≡ true)
        → any (fails_active active) ss ≡ true
        → any is_failing (keep (is_news active known) (s ∷ ss)) ≡ true
    skip ih g = elim (Bool-cases (is_news active known s)) [
      | inl n ↦ rw (n, ih g) (or_true (is_failing s))
      | inr n ↦ rw n (ih g)
    ]

any_failing :
    (active : Text) (ss : List ValidationStatus)
    → any (fails_active active) ss ≡ true
    → any is_failing ss ≡ true
any_failing active [] h = cc
any_failing active (s ∷ ss) h = elim (Bool-cases (is_failing s)) [
  | inl f ↦ rw f
  | inr f ↦ rw f (any_failing active ss (rw f at h))
]

retained_failing :
    (active : Text) (ingredients : List Ingredient) (ss : List ValidationStatus)
    → any (fails_active active) ss ≡ true
    → any is_failing (retained active ingredients ss) ≡ true
retained_failing active ingredients ss h =
    elim (Bool-cases (any (λ s. not (is_active_manifest active s.url)) ss)) [
      | inl e ↦ rw e (keep_failing active (all_statuses ingredients) ss h)
      | inr e ↦ rw e (any_failing active ss h)
    ]

not-false : (b : Bool) → not b ≡ false → b ≡ true
not-false true h = refl
not-false false h = cc

-- A failure that `failure_no_throw` logs under a label that names the active manifest makes the
-- results of the store invalid, whatever was logged before and whatever the ingredients report:
-- the filter of statuses known from ingredients never drops it.
pub failure_makes_invalid :
    (active : Text) (ingredients : List Ingredient) (shown : Text) (item : LogItem)
    (t : StatusTracker)
    → is_active_manifest active (some (stamp t (as_failure shown item)).label) ≡ true
    → validation_state
        (from_store (some active) ingredients (failure_no_throw {0} shown item t tt).logged_items)
      ≡ invalid
unfolding from_store failure_no_throw add_non_error passed
failure_makes_invalid active ingredients shown item t h =
    let i = stamp t (as_failure shown item) in
    let (s, e, f, u) =
      from_log_item_failure i (stamp-kind t (as_failure shown item))
        (ap is_some (stamp_keeps t (as_failure shown item)).0) in
    let logged =
      log_statuses-append t.logged_items (i ∷ [])
      ∙ ap (λ o. log_statuses t.logged_items ++ push_some o []) e in
    let about = (ap (is_active_manifest active) u ∙ h) in
    let found =
      any-append (fails_active active) (log_statuses t.logged_items) (s ∷ [])
      ∙ (rw (not-false (is_failing s) f, about)
          (or_true (any (fails_active active) (log_statuses t.logged_items)))) in
    validation_state-add_statuses
      (retained active ingredients (log_statuses (t.logged_items ++ i ∷ [])))
    ∙ (rw (
        retained_failing active ingredients (log_statuses (t.logged_items ++ i ∷ []))
          (ap (any (fails_active active)) logged ∙ found)))

-- A failure whose error text starts with `HashMismatch` and that has no validation status of its own
-- is reported as a failure, but under a code whose kind is success.
pub hash_mismatch_code :
    (item : LogItem) (rest : Text)
    → item.validation_status ≡ none
    → item.err_val ≡ some (bytes "HashMismatch" ++ rest)
    → (s : ValidationStatus) × (from_log_item item ≡ some s)
      × (s.kind ≡ failure)
      × (log_kind s.code ≡ success)
unfolding from_log_item code_from_error_str log_kind
hash_mismatch_code item rest h e = (
  record {
    code = code_from_error_str (bytes "HashMismatch" ++ rest);
    url = some item.label;
    explanation = some (item.description ++ (bytes ": " ++ (bytes "HashMismatch" ++ rest)));
    old_success = none;
    kind = failure;
    ingredient_uri = none;
  },
  rw (h, e),
  refl,
  refl,
)
