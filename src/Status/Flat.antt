-- ===== src/Status/Flat.antt =====
-- No status is lost when results are put together and flattened again.
use c2pa_rs_html.Prelude.{
  Text, Option, none, some, Bool, false, ◌||◌, List, [], ◌∷◌, ◌++◌, any, bytes_eq, ◌≡◌, sym, ap,
  ◌∙◌, Bool-cases, inl, inr, append-nil, any-append, any_last, or_first, or_assoc,
}
use c2pa_rs_html.Status.LogItem.{LogKind, success, informational, failure}
use c2pa_rs_html.Status.ValidationStatus.{ValidationStatus}
use c2pa_rs_html.Status.ValidationResults.{
  StatusCodes, no_codes, add_by_kind, add_code, IngredientDelta, ValidationResults, deltas_or_new,
  add_to_deltas, add_for, add_status, flat_codes, flat_active, flat_deltas, validation_status,
  add_statuses,
}
use c2pa_rs_html.Status.State.{all_added}

flat-add_code :
    (p : ValidationStatus → Bool) (s : ValidationStatus) (c : StatusCodes)
    → any p (flat_codes (add_code s c)) ≡ (any p (flat_codes c) || p s)
flat-add_code p s c = by_kind s.kind
  where
    a1 : Bool
    a1 = any p c.success_codes

    a2 : Bool
    a2 = any p c.informational_codes

    a3 : Bool
    a3 = any p c.failure_codes

    parts :
        (xs ys zs : List ValidationStatus)
        → any p (xs ++ (ys ++ zs)) ≡ (any p xs || (any p ys || any p zs))
    parts xs ys zs = any-append p xs (ys ++ zs) ∙ ap (λ b. any p xs || b) (any-append p ys zs)

    old : any p (flat_codes c) ≡ (a1 || (a2 || a3))
    old = parts c.success_codes c.informational_codes c.failure_codes

    by_kind : (k : LogKind) → any p (flat_codes (add_by_kind k s c)) ≡ (any p (flat_codes c) || p s)
    by_kind success =
        rw
          (
            old,
            parts (c.success_codes ++ s ∷ []) c.informational_codes c.failure_codes,
            any_last p c.success_codes s,
          )
          (or_first a1 false false (a2 || a3) (p s))
    by_kind informational =
        rw
          (
            old,
            parts c.success_codes (c.informational_codes ++ s ∷ []) c.failure_codes,
            any_last p c.informational_codes s,
          )
          (ap (λ b. a1 || b) (or_first a2 false false a3 (p s))
            ∙ sym (or_assoc a1 (a2 || a3) (p s)))
    by_kind failure =
        rw
          (
            old,
            parts c.success_codes c.informational_codes (c.failure_codes ++ s ∷ []),
            any_last p c.failure_codes s,
          )
          (ap (λ b. a1 || b) (sym (or_assoc a2 a3 (p s))) ∙ sym (or_assoc a1 (a2 || a3) (p s)))

flat-add_to_deltas :
    (p : ValidationStatus → Bool) (uri : Text) (s : ValidationStatus) (ds : List IngredientDelta)
    → any p (flat_deltas (add_to_deltas uri s ds)) ≡ (any p (flat_deltas ds) || p s)
unfolding add_to_deltas
flat-add_to_deltas p uri s [] =
    ap (any p) (append-nil (flat_codes (add_code s no_codes))) ∙ flat-add_code p s no_codes
flat-add_to_deltas p uri s (d ∷ ds) = elim (Bool-cases (bytes_eq d.ingredient_assertion_uri uri)) [
  | inl e ↦
      rw
        (
          e,
          any-append p (flat_codes (add_code s d.validation_deltas)) (flat_deltas ds),
          any-append p (flat_codes d.validation_deltas) (flat_deltas ds),
          flat-add_code p s d.validation_deltas,
        )
        (or_first (any p (flat_codes d.validation_deltas)) false false (any p (flat_deltas ds))
          (p s))
  | inr e ↦
      rw
        (
          e,
          any-append p (flat_codes d.validation_deltas) (flat_deltas (add_to_deltas uri s ds)),
          any-append p (flat_codes d.validation_deltas) (flat_deltas ds),
          flat-add_to_deltas p uri s ds,
        )
        (sym (or_assoc (any p (flat_codes d.validation_deltas)) (any p (flat_deltas ds)) (p s)))
]

flat-add_status :
    (p : ValidationStatus → Bool) (s : ValidationStatus) (r : ValidationResults)
    → any p (validation_status (add_status s r)) ≡ (any p (validation_status r) || p s)
unfolding add_status validation_status
flat-add_status p s r = by_uri s.ingredient_uri r.active_manifest
  where
    deltas : List IngredientDelta
    deltas = deltas_or_new r.ingredient_deltas

    by_uri :
        (o : Option Text) (a : Option StatusCodes)
        → any p (validation_status (add_for o s (record r { active_manifest = a })))
          ≡ (any p (validation_status (record r { active_manifest = a })) || p s)
    by_uri none none =
        rw
          (
            any-append p (flat_codes (add_code s no_codes)) (flat_deltas deltas),
            flat-add_code p s no_codes,
          )
          (or_first false false false (any p (flat_deltas deltas)) (p s))
    by_uri none (some c) =
        rw
          (
            any-append p (flat_codes (add_code s c)) (flat_deltas deltas),
            any-append p (flat_codes c) (flat_deltas deltas),
            flat-add_code p s c,
          )
          (or_first (any p (flat_codes c)) false false (any p (flat_deltas deltas)) (p s))
    by_uri (some uri) a =
        rw
          (
            any-append p (flat_active a) (flat_deltas (add_to_deltas uri s deltas)),
            any-append p (flat_active a) (flat_deltas deltas),
            flat-add_to_deltas p uri s deltas,
          )
          (sym (or_assoc (any p (flat_active a)) (any p (flat_deltas deltas)) (p s)))

-- Adding statuses to the results loses none and makes up none: a Boolean test holds of a status of
-- the flat list that `validation_status` gives exactly if it holds of one that was there before or
-- of one that was added.
pub validation_status-add_statuses :
    (p : ValidationStatus → Bool) (ss : List ValidationStatus) (r : ValidationResults)
    → any p (validation_status (add_statuses ss r)) ≡ (any p (validation_status r) || any p ss)
validation_status-add_statuses p ss r =
    all_added (λ q. any p (validation_status q)) p (flat-add_status p) ss r
