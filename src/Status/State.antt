-- ===== src/Status/State.antt =====
-- The state of the validation results, against a description of it by the list of statuses.
use c2pa_rs_html.Prelude.{
  Text, Option, none, some, Bool, true, false, not, ◌&&◌, ◌||◌, List, [], ◌∷◌, ◌++◌, any, is_empty,
  is_some, bytes_eq, if◌then◌else◌, ◌≡◌, refl, sym, ap, ◌∙◌, ◌↔◌, Bool-cases, inl, inr, any_last,
  or_false, or_true, or_first, or_assoc,
}
use c2pa_rs_html.Status.LogItem.{LogKind, success, informational, failure}
use c2pa_rs_html.Status.ValidationStatus.{ValidationStatus, is_failure}
use c2pa_rs_html.Status.ValidationResults.{
  ValidationState, invalid, valid, trusted, StatusCodes, no_codes, add_by_kind, add_code,
  IngredientDelta, ValidationResults, default_results, codes_or_new, deltas_or_new, add_to_deltas,
  add_for, add_status, is_trusted_code, deltas_state, active_state, validation_state, failures_of,
  delta_failures, unless_empty, validation_errors, add_statuses,
}

abbrev pub is_failing : ValidationStatus → Bool
is_failing s = is_failure s.kind

abbrev is_of_active : ValidationStatus → Bool
is_of_active s = not (is_some s.ingredient_uri)

abbrev is_success : LogKind → Bool
is_success success = true
is_success _ = false

-- A success of the active manifest with the code of a trusted signing credential.
abbrev claims_trust : ValidationStatus → Bool
claims_trust s = is_of_active s && (is_success s.kind && is_trusted_code s)

-- The state by the list of all statuses.
abbrev pub state_of : List ValidationStatus → ValidationState
state_of ss =
    if any is_failing ss
    then invalid
    else if any claims_trust ss || not (any is_of_active ss)
    then trusted
    else valid

-- The three facts about the results that the state is decided by.
abbrev delta_failed : IngredientDelta → Bool
delta_failed d = not (is_empty d.validation_deltas.failure_codes)

abbrev has_failure : ValidationResults → Bool
has_failure r =
    not (is_empty (failures_of r.active_manifest))
    || any delta_failed (deltas_or_new r.ingredient_deltas)

abbrev has_active : ValidationResults → Bool
has_active r = is_some r.active_manifest

abbrev has_trust : ValidationResults → Bool
has_trust r = any is_trusted_code (codes_or_new r.active_manifest).success_codes

deltas_state_lem :
    (b : Bool) (ds : List IngredientDelta)
    → deltas_state b ds ≡ (if any delta_failed ds then invalid else if b then trusted else valid)
deltas_state_lem b [] = refl
deltas_state_lem b (d ∷ ds) = elim (Bool-cases (is_empty d.validation_deltas.failure_codes)) [
  | inl e ↦ rw e (deltas_state_lem b ds)
  | inr e ↦ rw e
]

by_facts :
    (r : ValidationResults)
    → validation_state r ≡ (
        if has_failure r
        then invalid
        else if has_trust r || not (has_active r)
        then trusted
        else valid)
unfolding validation_state
by_facts r = by_active r.active_manifest (deltas_or_new r.ingredient_deltas)
  where
    by_active :
        (a : Option StatusCodes) (ds : List IngredientDelta)
        → active_state a ds ≡ (
            if not (is_empty (failures_of a)) || any delta_failed ds
            then invalid
            else if any is_trusted_code (codes_or_new a).success_codes || not (is_some a)
            then trusted
            else valid)
    by_active none ds = deltas_state_lem true ds
    by_active (some c) ds = elim (Bool-cases (is_empty c.failure_codes)) [
      | inl e ↦
          rw (e, or_false (any is_trusted_code c.success_codes))
            (deltas_state_lem (any is_trusted_code c.success_codes) ds)
      | inr e ↦ rw e
    ]

append_not_empty {ℓ} : {A : Type ℓ} (xs : List A) (x : A) → is_empty (xs ++ x ∷ []) ≡ false
append_not_empty [] x = refl
append_not_empty (y ∷ xs) x = refl

failures-add_code :
    (s : ValidationStatus) (c : StatusCodes)
    → not (is_empty (add_code s c).failure_codes) ≡ (not (is_empty c.failure_codes) || is_failing s)
failures-add_code s c = by_kind s.kind
  where
    by_kind :
        (k : LogKind)
        → not (is_empty (add_by_kind k s c).failure_codes)
          ≡ (not (is_empty c.failure_codes) || is_failure k)
    by_kind success = sym (or_false (not (is_empty c.failure_codes)))
    by_kind informational = sym (or_false (not (is_empty c.failure_codes)))
    by_kind failure =
        rw (append_not_empty c.failure_codes s) (sym (or_true (not (is_empty c.failure_codes))))

deltas_failed-add :
    (uri : Text) (s : ValidationStatus) (ds : List IngredientDelta)
    → any delta_failed (add_to_deltas uri s ds) ≡ (any delta_failed ds || is_failing s)
unfolding add_to_deltas
deltas_failed-add uri s [] =
    or_false (
      delta_failed
        record { ingredient_assertion_uri = uri; validation_deltas = add_code s no_codes })
    ∙ failures-add_code s no_codes
deltas_failed-add uri s (d ∷ ds) = elim (Bool-cases (bytes_eq d.ingredient_assertion_uri uri)) [
  | inl e ↦
      rw (e, failures-add_code s d.validation_deltas)
        (or_first (delta_failed d) false false (any delta_failed ds) (is_failing s))
  | inr e ↦
      rw (e, deltas_failed-add uri s ds)
        (sym (or_assoc (delta_failed d) (any delta_failed ds) (is_failing s)))
]

has_failure-add :
    (s : ValidationStatus) (r : ValidationResults)
    → has_failure (add_status s r) ≡ (has_failure r || is_failing s)
unfolding add_status
has_failure-add s r = by_uri s.ingredient_uri r.active_manifest
  where
    deltas : List IngredientDelta
    deltas = deltas_or_new r.ingredient_deltas

    by_uri :
        (o : Option Text) (a : Option StatusCodes)
        → has_failure (add_for o s (record r { active_manifest = a }))
          ≡ (has_failure (record r { active_manifest = a }) || is_failing s)
    by_uri none none =
        rw (failures-add_code s no_codes)
          (or_first false false false (any delta_failed deltas) (is_failing s))
    by_uri none (some c) = rw (failures-add_code s c) (
        or_first (not (is_empty c.failure_codes)) false false (any delta_failed deltas)
          (is_failing s))
    by_uri (some uri) a =
        rw (deltas_failed-add uri s deltas)
          (sym (or_assoc (not (is_empty (failures_of a))) (any delta_failed deltas) (is_failing s)))

has_active-add :
    (s : ValidationStatus) (r : ValidationResults)
    → has_active (add_status s r) ≡ (has_active r || is_of_active s)
unfolding add_status
has_active-add s r = by_uri s.ingredient_uri
  where
    by_uri : (o : Option Text) → has_active (add_for o s r) ≡ (has_active r || not (is_some o))
    by_uri none = sym (or_true (has_active r))
    by_uri (some uri) = sym (or_false (has_active r))

has_trust-add :
    (s : ValidationStatus) (r : ValidationResults)
    → has_trust (add_status s r) ≡ (has_trust r || claims_trust s)
unfolding add_status
has_trust-add s r = by_uri s.ingredient_uri s.kind
  where
    codes : StatusCodes
    codes = codes_or_new r.active_manifest

    by_uri :
        (o : Option Text) (k : LogKind)
        → has_trust (add_for o (record s { kind = k }) r)
          ≡ (has_trust r || (not (is_some o) && (is_success k && is_trusted_code s)))
    by_uri none success = any_last is_trusted_code codes.success_codes (record s { kind = success })
    by_uri none informational = sym (or_false (has_trust r))
    by_uri none failure = sym (or_false (has_trust r))
    by_uri (some uri) k = sym (or_false (has_trust r))

-- A fact that each status adds to is, at the end, the fact of the start or of a status.
pub all_added :
    (m : ValidationResults → Bool) (p : ValidationStatus → Bool)
    → ((s : ValidationStatus) (r : ValidationResults) → m (add_status s r) ≡ (m r || p s))
    → (ss : List ValidationStatus) (r : ValidationResults)
    → m (add_statuses ss r) ≡ (m r || any p ss)
all_added m p h [] r = sym (or_false (m r))
all_added m p h (s ∷ ss) r =
    all_added m p h ss (add_status s r)
    ∙ ap (λ b. b || any p ss) (h s r)
    ∙ or_assoc (m r) (p s) (any p ss)

-- The state of results made by adding statuses one by one is the one described by the list alone:
-- invalid if any status fails, be it of the active manifest or of an ingredient; otherwise trusted if
-- a success of the active manifest has the code of a trusted credential, or if no status is of the
-- active manifest; otherwise valid.
pub validation_state-add_statuses :
    (ss : List ValidationStatus) → validation_state (add_statuses ss default_results) ≡ state_of ss
validation_state-add_statuses ss =
    by_facts (add_statuses ss default_results)
    ∙ (rw (
      all_added has_failure is_failing has_failure-add ss default_results,
      all_added has_trust claims_trust has_trust-add ss default_results,
      all_added has_active is_of_active has_active-add ss default_results,
    ))

is_empty-append {ℓ} :
    {A : Type ℓ} (xs ys : List A) → is_empty (xs ++ ys) ≡ (is_empty xs && is_empty ys)
is_empty-append [] ys = refl
is_empty-append (x ∷ xs) ys = refl

neither : (a b : Bool) → (a && not b) ≡ not (not a || b)
neither true b = refl
neither false b = refl

delta_failures_lem :
    (ds : List IngredientDelta) → is_empty (delta_failures ds) ≡ not (any delta_failed ds)
delta_failures_lem [] = refl
delta_failures_lem (d ∷ ds) =
    is_empty-append d.validation_deltas.failure_codes (delta_failures ds)
    ∙ (rw (delta_failures_lem ds))
    ∙ neither (is_empty d.validation_deltas.failure_codes) (any delta_failed ds)

unless_empty_lem {ℓ} : {A : Type ℓ} (xs : List A) → is_some (unless_empty xs) ≡ not (is_empty xs)
unless_empty_lem [] = refl
unless_empty_lem (x ∷ xs) = refl

invalid_if :
    (f t : Bool) → ((if f then invalid else if t then trusted else valid) ≡ invalid) ↔ (f ≡ true)
invalid_if true t = ((λ h. refl), (λ h. refl))
invalid_if false true = ((λ h. cc), (λ h. cc))
invalid_if false false = ((λ h. cc), (λ h. cc))

errors_lem : (r : ValidationResults) → is_some (validation_errors r) ≡ has_failure r
unfolding validation_errors
errors_lem r =
    unless_empty_lem (failures_of r.active_manifest ++ delta_failures deltas)
    ∙ (rw (
      is_empty-append (failures_of r.active_manifest) (delta_failures deltas),
      delta_failures_lem deltas,
    ))
    ∙ flip_both (is_empty (failures_of r.active_manifest)) (any delta_failed deltas)
  where
    deltas : List IngredientDelta
    deltas = deltas_or_new r.ingredient_deltas

    flip_both : (a b : Bool) → not (a && not b) ≡ (not a || b)
    flip_both true true = refl
    flip_both true false = refl
    flip_both false b = refl

-- Any results are in the state `Invalid` exactly if they report validation errors.
pub invalid_iff_errors :
    (r : ValidationResults)
    → (validation_state r ≡ invalid) ↔ (is_some (validation_errors r) ≡ true)
invalid_iff_errors r =
    rw (by_facts r, errors_lem r) (invalid_if (has_failure r) (has_trust r || not (has_active r)))
