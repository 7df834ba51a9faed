-- ===== src/Claim/Redact.antt =====
-- Which assertion a redaction takes out of a claim.
use c2pa_rs_html.Prelude.{
  ℕ, ◌^◌, ◌<◌, ◌≡◌, refl, sym, ap, ◌∙◌, List, [], ◌∷◌, ◌++◌, append_assoc, append-nil, Text, bytes,
  starts_with, contains, contains-append, true, false, ◌==◌, Bool-cases, inl, inr,
}
use c2pa_rs_html.Result.{ok}
use c2pa_rs_html.Jumbf.Labels.{slash, assertions, to_manifest_uri, to_assertion_uri}
use c2pa_rs_html.Jumbf.Labels.Uris.{IsLabel, assertion_parts}
use c2pa_rs_html.Claim.Labels.{instance_suffix, assertion_label_from_link, label_with_instance}
use c2pa_rs_html.Claim.Parts.{
  IsPlain, no_ingredient, from_link_part, label_with_instance-IsLabel,
  assertion_label_from_link-label_with_instance,
}
use c2pa_rs_html.Claim.Store.{ClaimAssertion, label, Claim, redact_assertion}

absolute_link :
    (m l : Text) (n : ℕ)
    → IsLabel m
    → IsPlain l
    → n < 2 ^ 64
    → assertion_label_from_link (to_assertion_uri m (label_with_instance l n)) ≡ (l, n)
unfolding assertion_label_from_link
absolute_link m l n hm p small =
    let a = label_with_instance l n in
    let ha = label_with_instance-IsLabel l n p in
    rw (assertion_parts m a hm ha) (
      sym (from_link_part a ha.no_slash ha.no_equals)
      ∙ assertion_label_from_link-label_with_instance l n p small)

-- A label with an instance starts with the label.
starts_with_label : (l : Text) (n : ℕ) → IsPlain l → (s : Text) × (label_with_instance l n ≡ l ++ s)
unfolding label_with_instance
starts_with_label l n p = elim (Bool-cases (n == 0)) [
  | inl e ↦ ([], rw e (sym (append-nil l)))
  | inr e ↦ (instance_suffix n, rw (e, no_ingredient l p.no_thumbnail) refl)
]

front : Text → Text
front m = to_manifest_uri m ++ slash ∷ []

uri_around : (m a : Text) → to_assertion_uri m a ≡ front m ++ (assertions ++ slash ∷ a)
unfolding to_assertion_uri front
uri_around m a = sym (append_assoc (to_manifest_uri m) (slash ∷ []) (assertions ++ slash ∷ a))

names_store : (m a : Text) → contains assertions (to_assertion_uri m a) ≡ true
names_store m a =
    ap (contains assertions) (uri_around m a) ∙ contains-append assertions (front m) (slash ∷ a)

names_label :
    (m l : Text) (n : ℕ)
    → IsPlain l
    → contains l (to_assertion_uri m (label_with_instance l n)) ≡ true
names_label m l n p =
    let (s, e) = starts_with_label l n p in
    ap (contains l) (
      ap (to_assertion_uri m) e
      ∙ uri_around m (l ++ s)
      ∙ ap (λ t. front m ++ t) (sym (append_assoc assertions (slash ∷ []) (l ++ s)))
      ∙ sym (append_assoc (front m) (assertions ++ slash ∷ []) (l ++ s)))
    ∙ contains-append l (front m ++ (assertions ++ slash ∷ [])) s

-- A redaction that names an instance of a label takes the first assertion out of the store if that has
-- the label without an instance, whichever instance is named; for a plain label that is neither of actions
-- nor of a hash.
pub redact_assertion_first :
    (c : Claim) (m l : Text) (n : ℕ) (x : ClaimAssertion) (rest : List ClaimAssertion)
    → IsLabel m
    → IsPlain l
    → n < 2 ^ 64
    → starts_with (bytes "c2pa.actions") l ≡ false
    → starts_with (bytes "c2pa.hash.") l ≡ false
    → c.assertion_store ≡ x ∷ rest
    → label x ≡ l
    → redact_assertion c (to_assertion_uri m (label_with_instance l n))
      ≡ ok (record c { assertion_store = rest })
unfolding redact_assertion
redact_assertion_first c m l n x rest hm p small no_actions no_hash store labelled =
    rw
      (
        absolute_link m l n hm p small,
        no_actions,
        no_hash,
        names_store m (label_with_instance l n),
        store,
        labelled,
        names_label m l n p,
      )
      refl
