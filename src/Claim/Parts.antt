-- ===== src/Claim/Parts.antt =====
-- A label with an instance is taken apart into the label and the instance.
use c2pa_rs_html.Prelude.{
  ℕ, zero, suc, ◌^◌, ◌<◌, ◌≡◌, ◌≢◌, refl, sym, ◌∙◌, [], ◌∷◌, ◌++◌, Text, split_whole,
  split-append_sep, starts_with, starts_with-append_sep, starts_with_sep, HasNo, Bool, true, false,
  ◌&&◌, arith, all, ◌==◌, is_empty, not, Bool-cases, inl, inr,
}
use c2pa_rs_html.Jumbf.Labels.{
  slash, manifest_store, assertions, to_normalized_uri, to_assertion_uri, to_relative_uri,
}
use c2pa_rs_html.Jumbf.Labels.Uris.{
  IsLabel, HasNo-append, relative_assertion_uri, normalized_relative,
}
use c2pa_rs_html.Claim.Decimal.{
  to_decimal-HasNo, to_decimal, is_digit, all-to_decimal, parse_usize-to_decimal,
}
use c2pa_rs_html.Claim.Labels.{
  claim_thumbnail, ingredient_thumbnail, is_underscore, split_instance, get_thumbnail_type,
  is_ingredient_thumbnail, label_and_instance, assertion_label_from_link, instance_suffix,
  label_with_instance,
}

-- No two underscores side by side, and none at the end.
abbrev pub NoPair : Text → Type 0
NoPair [] = Unit {0}
NoPair (a ∷ []) = is_underscore a ≡ false
NoPair (a ∷ b ∷ s) = ((is_underscore a && is_underscore b) ≡ false) × NoPair (b ∷ s)

-- The label of an assertion other than the thumbnail of an ingredient.
pub record IsPlain (l : Text) : Type 0 where
  pub no_pair : NoPair l
  pub no_slash : HasNo slash l
  pub no_equals : HasNo b'=' l
  pub no_thumbnail : starts_with ingredient_thumbnail l ≡ false

split_instance-plain : (l : Text) → NoPair l → split_instance l ≡ l ∷ []
unfolding split_instance
split_instance-plain [] h = refl
split_instance-plain (a ∷ []) h = refl
split_instance-plain (a ∷ b ∷ s) h = rw (h.0, split_instance-plain (b ∷ s) h.1)

split_instance-append :
    (l d : Text) → NoPair l → split_instance (l ++ b'_' ∷ b'_' ∷ d) ≡ l ∷ split_instance d
unfolding split_instance
split_instance-append [] d h = refl
split_instance-append (a ∷ []) d h = rw h refl
split_instance-append (a ∷ b ∷ s) d h = rw (h.0, split_instance-append (b ∷ s) d h.1)

digit_NoPair : (d : Text) → all is_digit d ≡ true → NoPair d
digit_NoPair [] h = tt
digit_NoPair (a ∷ []) h = ground arith
digit_NoPair (a ∷ b ∷ s) h = elim (Bool-cases (is_digit a)) [
  | inl e ↦ (
    (let plain : is_underscore a ≡ false = ground arith in rw plain),
    digit_NoPair (b ∷ s) (rw e at h),
  )
  | inr e ↦ (let clash = rw e at h in cc)
]

suffix_HasNo : (c n : ℕ) → is_digit c ≡ false → c ≢ b'_' → HasNo c (instance_suffix n)
suffix_HasNo c n k u = ((λ p. u (sym p)), ((λ p. u (sym p)), to_decimal-HasNo c n k))

and_false : (b : Bool) → (b && false) ≡ false
and_false true = refl
and_false false = refl

-- A text without `/` and `=` is its own last part.
pub from_link_part :
    (s : Text) → HasNo slash s → HasNo b'=' s → assertion_label_from_link s ≡ label_and_instance s
unfolding assertion_label_from_link to_normalized_uri
from_link_part s h k =
    rw
      (
        split_whole b'=' s k,
        starts_with_sep slash manifest_store [] s h,
        and_false (not (is_empty s)),
        split_whole slash s h,
      )
      refl

pub no_ingredient :
    (s : Text) → starts_with ingredient_thumbnail s ≡ false → is_ingredient_thumbnail s ≡ false
unfolding get_thumbnail_type
no_ingredient s h = elim (Bool-cases (starts_with claim_thumbnail s)) [
  | inl e ↦ rw e refl
  | inr e ↦ rw (e, h) refl
]

suffixed :
    (l : Text) (n : ℕ)
    → IsPlain l
    → n < 2 ^ 64
    → assertion_label_from_link (l ++ instance_suffix n) ≡ (l, n)
suffixed l n p small =
    let number = to_decimal n in
    let digits = all-to_decimal n in
    let plain =
      no_ingredient (l ++ instance_suffix n) (
        starts_with-append_sep b'_' ingredient_thumbnail l (b'_' ∷ number) refl ∙ p.no_thumbnail) in
    from_link_part (l ++ instance_suffix n)
      (HasNo-append slash l (instance_suffix n) p.no_slash
        (suffix_HasNo slash n refl (λ e. ground arith)))
      (HasNo-append b'=' l (instance_suffix n) p.no_equals
        (suffix_HasNo b'=' n refl (λ e. ground arith)))
    ∙ rw
        (
          plain,
          split_instance-append l number p.no_pair,
          split_instance-plain number (digit_NoPair number digits),
          parse_usize-to_decimal n small,
        )
        refl

-- The label and the instance of an assertion are read back from the text that is made of them: for a label
-- of which `__`, `/` and `=` are no part, that does not end in an underscore and is not of the thumbnail of
-- an ingredient.
pub assertion_label_from_link-label_with_instance :
    (l : Text) (n : ℕ)
    → IsPlain l
    → n < 2 ^ 64
    → assertion_label_from_link (label_with_instance l n) ≡ (l, n)
unfolding label_with_instance
assertion_label_from_link-label_with_instance l zero p small =
    from_link_part l p.no_slash p.no_equals
    ∙ rw (no_ingredient l p.no_thumbnail, split_instance-plain l p.no_pair) refl
assertion_label_from_link-label_with_instance l (suc n) p small =
    let some_instance : (suc n == 0) ≡ false = ground arith in
    rw (some_instance, no_ingredient l p.no_thumbnail) (suffixed l (suc n) p small)

-- With its instance, a plain label has no `/` and no `=`.
pub label_with_instance-IsLabel : (l : Text) (n : ℕ) → IsPlain l → IsLabel (label_with_instance l n)
unfolding label_with_instance
label_with_instance-IsLabel l n p = elim (Bool-cases (n == 0)) [
  | inl e ↦ rw e (record { no_slash = p.no_slash; no_equals = p.no_equals })
  | inr e ↦
      rw (e, no_ingredient l p.no_thumbnail)
        (record {
          no_slash =
              HasNo-append slash l (instance_suffix n) p.no_slash
                (suffix_HasNo slash n refl (λ q. ground arith));
          no_equals =
              HasNo-append b'=' l (instance_suffix n) p.no_equals
                (suffix_HasNo b'=' n refl (λ q. ground arith));
        })
]

-- The link of a stored assertion leads to its label and its instance: for a manifest label without `/` and
-- `=`, and a label of an assertion of which `__`, `/` and `=` are no part, that does not end in an underscore
-- and is not of the thumbnail of an ingredient.
pub assertion_label_from_link-to_relative_uri :
    (m l : Text) (n : ℕ)
    → IsLabel m
    → IsPlain l
    → n < 2 ^ 64
    → assertion_label_from_link (to_relative_uri (to_assertion_uri m (label_with_instance l n)))
      ≡ (l, n)
unfolding assertion_label_from_link
assertion_label_from_link-to_relative_uri m l n hm p small =
    let a = label_with_instance l n in
    let ha = label_with_instance-IsLabel l n p in
    rw
      (
        relative_assertion_uri m a hm ha,
        normalized_relative a ha,
        split-append_sep slash assertions a (omega arith),
        split_whole slash a ha.no_slash,
      )
      (sym (from_link_part a ha.no_slash ha.no_equals)
        ∙ assertion_label_from_link-label_with_instance l n p small)
