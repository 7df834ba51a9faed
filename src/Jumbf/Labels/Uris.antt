-- ===== src/Jumbf/Labels/Uris.antt =====
-- The makers of URIs and the readers of their parts agree.
use c2pa_rs_html.Prelude.{
  ℕ, ◌≡◌, refl, ap, ◌∙◌, Text, split, join, split-append_sep, split_whole, HasNo, List, [], ◌∷◌,
  ◌++◌, true, false, Option, some, arith, length,
}
use c2pa_rs_html.Result.{Result, ok, panic}
use c2pa_rs_html.Prelude.{Bool-cases, inl, inr, ltb, true, ◌&&◌, bytes_eq}
use c2pa_rs_html.Jumbf.Labels.{is_relative_url, part, assertion_label}
use c2pa_rs_html.Prelude.{bytes_eq→eq, join-split, ◌↔◌, sym}
use c2pa_rs_html.Jumbf.Labels.{
  manifest_store, assertions, jumbf_prefix, slash, to_manifest_uri, to_assertion_uri,
  to_normalized_uri, to_absolute_uri, to_relative_uri, manifest_label_from_uri,
  assertion_label_from_uri, box_name_from_uri,
}

abbrev equals : ℕ
equals = b'='

-- A label that can stand in a URI: no `/` and no `=`.
pub record IsLabel (l : Text) : Type 0 where
  pub no_slash : HasNo slash l
  pub no_equals : HasNo equals l

pub HasNo-append : (c : ℕ) (u v : Text) → HasNo c u → HasNo c v → HasNo c (u ++ v)
HasNo-append c [] v hu hv = hv
HasNo-append c (b ∷ u) v hu hv = (hu.0, HasNo-append c u v hu.1 hv)

prefix_no_equals : HasNo equals jumbf_prefix
prefix_no_equals = omega arith

-- What stands behind `self#jumbf=/` is kept.
normalized_prefix :
    (path : Text)
    → HasNo equals path
    → to_normalized_uri (jumbf_prefix ++ equals ∷ slash ∷ path) ≡ slash ∷ path
unfolding to_normalized_uri
normalized_prefix path h = rw (
  split-append_sep equals jumbf_prefix (slash ∷ path) prefix_no_equals,
  split_whole equals (slash ∷ path) ((omega arith), h),
)

abbrev inside : Text → Text → Text
inside m a = manifest_store ++ slash ∷ (m ++ slash ∷ (assertions ++ slash ∷ a))

inside_no_equals : (m a : Text) → IsLabel m → IsLabel a → HasNo equals (inside m a)
inside_no_equals m a hm ha =
    let tail =
      HasNo-append equals (slash ∷ assertions) (slash ∷ a) (omega arith)
        (omega arith, ha.no_equals) in
    HasNo-append equals (manifest_store ++ slash ∷ []) (m ++ slash ∷ (assertions ++ slash ∷ a))
      (omega arith) (HasNo-append equals m (slash ∷ (assertions ++ slash ∷ a)) hm.no_equals tail)

assertion_uri_path :
    (m a : Text) → to_assertion_uri m a ≡ jumbf_prefix ++ equals ∷ slash ∷ inside m a
unfolding to_assertion_uri to_manifest_uri
assertion_uri_path m a = refl

pub assertion_parts :
    (m a : Text)
    → IsLabel m
    → IsLabel a
    → split slash (to_normalized_uri (to_assertion_uri m a))
      ≡ [] ∷ manifest_store ∷ m ∷ assertions ∷ a ∷ []
assertion_parts m a hm ha =
    rw (assertion_uri_path m a, normalized_prefix (inside m a) (inside_no_equals m a hm ha))
      (split-append_sep slash [] (inside m a) tt
        ∙ ap (λ l. [] ∷ l)
            (split-append_sep slash manifest_store (m ++ slash ∷ (assertions ++ slash ∷ a))
                (omega arith)
              ∙ ap (λ l. manifest_store ∷ l)
                  (split-append_sep slash m (assertions ++ slash ∷ a) hm.no_slash
                    ∙ ap (λ l. m ∷ l)
                        (split-append_sep slash assertions a (omega arith)
                          ∙ ap (λ l. assertions ∷ l) (split_whole slash a ha.no_slash)))))

-- From the URI of an assertion, the readers give the manifest's label, the assertion's label, and
-- the assertion's label as the name of the box; both labels have no `/` and no `=`.
pub labels_from_assertion_uri {ℓ} :
    {E : Type ℓ} (m a : Text)
    → IsLabel m
    → IsLabel a
    → (manifest_label_from_uri (to_assertion_uri m a) ≡ some m)
      × (assertion_label_from_uri {E = E} (to_assertion_uri m a) ≡ ok (some a))
      × (box_name_from_uri (to_assertion_uri m a) ≡ some a)
unfolding manifest_label_from_uri assertion_label_from_uri box_name_from_uri
labels_from_assertion_uri m a hm ha = let e = assertion_parts m a hm ha in (rw e, rw e, rw e)

pub relative_assertion_uri :
    (m a : Text)
    → IsLabel m
    → IsLabel a
    → to_relative_uri (to_assertion_uri m a) ≡ jumbf_prefix ++ equals ∷ (assertions ++ slash ∷ a)
unfolding to_relative_uri
relative_assertion_uri m a hm ha = rw (assertion_parts m a hm ha)

pub normalized_relative :
    (a : Text)
    → IsLabel a
    → to_normalized_uri (jumbf_prefix ++ equals ∷ (assertions ++ slash ∷ a))
      ≡ assertions ++ slash ∷ a
unfolding to_normalized_uri
normalized_relative a ha = rw (
  split-append_sep equals jumbf_prefix (assertions ++ slash ∷ a) prefix_no_equals,
  split_whole equals (assertions ++ slash ∷ a)
      (HasNo-append equals assertions (slash ∷ a) (omega arith) (omega arith, ha.no_equals)),
)

absolute_shape :
    (m a : Text) → to_manifest_uri m ++ slash ∷ (assertions ++ slash ∷ a) ≡ to_assertion_uri m a
unfolding to_assertion_uri
absolute_shape m a = refl

-- The relative URI of an assertion, made absolute again by the label of its manifest, is the URI of
-- the assertion, and it is relative: it names no manifest. Both labels have no `/` and no `=`.
pub to_absolute_uri-to_relative_uri :
    (m a : Text)
    → IsLabel m
    → IsLabel a
    → (to_absolute_uri m (to_relative_uri (to_assertion_uri m a)) ≡ to_assertion_uri m a)
      × (is_relative_url (to_relative_uri (to_assertion_uri m a)) ≡ true)
unfolding to_absolute_uri is_relative_url manifest_label_from_uri
to_absolute_uri-to_relative_uri m a hm ha =
    let e =
      split-append_sep slash assertions a (omega arith)
      ∙ ap (λ l. assertions ∷ l) (split_whole slash a ha.no_slash) in
    (
      rw (relative_assertion_uri m a hm ha, normalized_relative a ha, e) (absolute_shape m a),
      rw (relative_assertion_uri m a hm ha, normalized_relative a ha, e),
    )

-- An absolute URI (at least three parts, the second `c2pa`) is left as it is, whatever the label.
to_absolute_uri_absolute :
    (m uri : Text) → is_relative_url uri ≡ false → to_absolute_uri m uri ≡ uri
unfolding to_absolute_uri is_relative_url manifest_label_from_uri
to_absolute_uri_absolute m uri h =
    elim (Bool-cases (
      ltb 2 (length (split slash (to_normalized_uri uri)))
      && bytes_eq (part (split slash (to_normalized_uri uri)) 1) manifest_store)) [
        | inl e ↦ rw e
        | inr e ↦ (let clash = rw e at h in cc)
      ]

panics_alone {ℓ} :
    {E : Type ℓ} (ps : List Text)
    → ◌≡◌ {A = Result E (Option Text)} (assertion_label ps) panic
    → ps ≡ assertions ∷ []
panics_alone [] h = cc
panics_alone (w ∷ []) h = elim (Bool-cases (bytes_eq w assertions)) [
  | inl e ↦ ap (λ l. l ∷ []) (bytes_eq→eq w assertions e)
  | inr e ↦ (let clash = rw e at h in cc)
]
panics_alone (w ∷ v ∷ ws) h =
    elim (Bool-cases (
      ltb 4 (length (w ∷ v ∷ ws))
      && (bytes_eq v manifest_store && bytes_eq (part (w ∷ v ∷ ws) 3) assertions))) [
        | inl long ↦ (let clash = rw long at h in cc)
        | inr other ↦ elim (Bool-cases (bytes_eq w assertions)) [
          | inl e ↦ (let clash = rw (other, e) at h in cc)
          | inr e ↦ (let clash = rw (other, e) at h in cc)
        ]
      ]

-- `assertion_label_from_uri` panics on exactly the URIs that are `c2pa.assertions` when normalized.
pub assertion_label_from_uri_panics {ℓ} :
    {E : Type ℓ} (uri : Text)
    → (assertion_label_from_uri {E = E} uri ≡ panic) ↔ (to_normalized_uri uri ≡ assertions)
unfolding assertion_label_from_uri
assertion_label_from_uri_panics {E = E} uri = (
  (λ h.
      sym (join-split slash (to_normalized_uri uri))
      ∙ ap (join slash) (panics_alone {E = E} (split slash (to_normalized_uri uri)) h)),
  (λ e.
      ap (λ u. assertion_label {E = E} (split slash u)) e
      ∙ ap (assertion_label {E = E}) (split_whole slash assertions (omega arith))),
)
