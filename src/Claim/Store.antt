-- ===== src/Claim/Store.antt =====
-- The assertion store of a claim, sdk/src/claim.rs. `generate_salt` is an argument. `calc_assertion_box_hash` and `compatibility_checks`, which decode assertions, are
-- parameters: `box_hash` and `compatible`.
use c2pa_rs_html.Prelude.{
  ℕ, suc, List, [], ◌∷◌, ◌++◌, map, Text, bytes, contains, starts_with, Bool, false, ◌&&◌, ◌||◌,
  Option, none, some, any, find, keep, length, ltb, ◌==◌, if◌then◌else◌, bytes_eq,
}
use c2pa_rs_html.Result.{Result, ok, err, ◌>>=◌, ◌>>◌}
use c2pa_rs_html.Error.{Error, assertion_invalid_redaction}
use c2pa_rs_html.Jumbf.Labels.{
  slash, assertions, to_manifest_uri, to_assertion_uri, to_relative_uri,
}
use c2pa_rs_html.Claim.Decimal.{to_decimal}
use c2pa_rs_html.Claim.Assertion.{Assertion, assertions_eq}
use c2pa_rs_html.Claim.Labels.{
  get_thumbnail_type, get_thumbnail_image_type, is_ingredient_thumbnail, with_image_type,
  instance_suffix, assertion_label_from_link, label_with_instance,
}

pub data ClaimAssertionType : Type 0 where
  v1 gathered created : ClaimAssertionType

pub record ClaimAssertion : Type 0 where
  pub assertion : Assertion
  pub number : ℕ
  pub hash_val : List ℕ
  pub hash_alg : Text
  pub salt : Option (List ℕ)
  pub typ : ClaimAssertionType

abbrev pub label_raw : ClaimAssertion → Text
label_raw ca = ca.assertion.raw_label

-- The label with the instance.
unfoldable pub label : ClaimAssertion → Text
label ca =
    if ltb 0 ca.number
    then (if is_ingredient_thumbnail (label_raw ca)
        then with_image_type (get_thumbnail_type (label_raw ca) ++ instance_suffix ca.number)
            (get_thumbnail_image_type (label_raw ca))
        else label_raw ca ++ instance_suffix ca.number)
    else label_raw ca

pub record HashedUri : Type 0 where
  pub url : Text
  pub alg : Option Text
  pub hash : List ℕ
  pub salt : Option (List ℕ)

-- The fields that the assertions and their verification concern; `alg` is the algorithm in force,
-- `icons` has the icons of `claim_generator_info` that are hashed URIs.
pub record Claim : Type 0 where
  pub update_manifest : Bool
  pub icons : List HashedUri
  pub redacted_assertions : Option (List Text)
  pub claim_label : Text
  pub conflict_label : Option Text
  pub claim_version : ℕ
  pub alg : Text
  pub assertion_store : List ClaimAssertion
  pub assertions : List HashedUri
  pub created_assertions : List HashedUri
  pub gathered_assertions : Option (List HashedUri)
  pub data_boxes : List (HashedUri × List ℕ)

abbrev pub label_or : Option Text → Text → Text
label_or none l = l
label_or (some conflict) l = conflict

abbrev pub label_of : Claim → Text
label_of c = label_or c.conflict_label c.claim_label

-- One more than the greatest, or 0.
abbrev pub after_max : List ℕ → ℕ
after_max [] = 0
after_max (n ∷ ns) = let rest = after_max ns in if ltb n rest then rest else suc n

abbrev pub instance_of : ClaimAssertion → ℕ
instance_of ca = (assertion_label_from_link (label ca)).1

unfoldable pub next_instance : Claim → Text → ℕ
next_instance c in_label = after_max (
    map instance_of (
      keep (λ x. contains ((assertion_label_from_link in_label).0) (label_raw x))
        c.assertion_store))

unfoldable pub make_assertion_instance_label : Claim → Text → Text
make_assertion_instance_label c assertion_label =
    label_with_instance assertion_label (next_instance c assertion_label)

abbrev pub matches : Text → ℕ → ClaimAssertion → Bool
matches l n ca = bytes_eq (label_raw ca) l && ca.number == n

unfoldable pub get_claim_assertion : Claim → Text → ℕ → Option ClaimAssertion
get_claim_assertion c l n = find (matches l n) c.assertion_store

-- `assertions_by_type`, of any type.
unfoldable pub assertions_by_type : Claim → Assertion → List ClaimAssertion
assertions_by_type c proto = keep (λ x. assertions_eq proto x.assertion) c.assertion_store

unfoldable pub count_instances : Claim → Text → ℕ
count_instances c in_label =
    let (l, n) = assertion_label_from_link in_label in
    length (keep (λ a. contains (label_with_instance l n) a.url) c.assertions)

unfoldable pub has_assertion_type : Claim → Text → Bool
has_assertion_type c in_label =
    any (λ x. starts_with ((assertion_label_from_link in_label).0) (label_raw x)) c.assertion_store

unfoldable pub put_assertion_store : Claim → ClaimAssertion → Claim
put_assertion_store c ca = record c { assertion_store = c.assertion_store ++ ca ∷ [] }

unfoldable pub to_claim_uri : Claim → Text
to_claim_uri c =
    let uri = to_manifest_uri (label_of c) ++ slash ∷ bytes "c2pa.claim" in
    if ltb 1 c.claim_version then uri ++ (bytes ".v" ++ to_decimal c.claim_version) else uri

abbrev pub after_kept {ℓ} : {A : Type ℓ} → A → Option (List A) → Option (List A)
after_kept x none = none
after_kept x (some ys) = some (x ∷ ys)

-- `Vec::remove` of the first position that passes a test.
abbrev pub without_first {ℓ} : {A : Type ℓ} → (A → Bool) → List A → Option (List A)
without_first p [] = none
without_first p (x ∷ xs) = if p x then some xs else after_kept x (without_first p xs)

abbrev pub redacted {ℓ} : {A : Type ℓ} → Option A → (A → Claim) → Result Error Claim
redacted none f = err assertion_invalid_redaction
redacted (some a) f = ok (f a)

unfoldable pub redact_assertion : Claim → Text → Result Error Claim
redact_assertion c assertion_uri =
    let l = (assertion_label_from_link assertion_uri).0 in
    if starts_with (bytes "c2pa.actions") l || starts_with (bytes "c2pa.hash.") l
    then err assertion_invalid_redaction
    else if contains assertions assertion_uri
    then redacted (without_first (λ x. contains (label x) assertion_uri) c.assertion_store)
        (λ store. record c { assertion_store = store })
    else if contains (bytes "c2pa.databoxes") assertion_uri
    then redacted (without_first (λ (x, d). contains x.url assertion_uri) c.data_boxes)
        (λ boxes. record c { data_boxes = boxes })
    else err assertion_invalid_redaction

module _ (box_hash : Text → Assertion → Option (List ℕ) → Text → Result Error (List ℕ))
    (compatible : Assertion → Result Error (Unit {0})) where
  abbrev pub checked : Claim → Assertion → Result Error (Unit {0})
  checked c assertion = if ltb 1 c.claim_version then compatible assertion else ok tt

  abbrev pub type_of : Claim → Bool → ClaimAssertionType
  type_of c as_created =
      if ltb 1 c.claim_version then (if as_created then created else gathered) else v1

  abbrev pub stored : Claim → Text → HashedUri → ClaimAssertion → Bool → Claim
  stored c as_label link ca as_created = record c {
    assertion_store = c.assertion_store ++ ca ∷ [];
    assertions = c.assertions ++ link ∷ [];
    created_assertions =
        if as_created then c.created_assertions ++ link ∷ [] else c.created_assertions;
  }

  -- The claim and the link to the assertion that was added.
  unfoldable pub add_assertion_impl :
      Claim → Assertion → Option (List ℕ) → Bool → Result Error (Claim × HashedUri)
  add_assertion_impl c assertion salt as_created =
      let as_label = make_assertion_instance_label c assertion.raw_label in
      checked c assertion >> box_hash as_label assertion salt c.alg >>= λ hash.
      let link : HashedUri = record {
        url = to_relative_uri (to_assertion_uri (label_of c) as_label);
        alg = none;
        hash = hash;
        salt = salt;
      } in
      let ca : ClaimAssertion = record {
        assertion = assertion;
        number = (assertion_label_from_link as_label).1;
        hash_val = hash;
        hash_alg = c.alg;
        salt = salt;
        typ = type_of c as_created;
      } in
      ok (stored c as_label link ca as_created, link)

  unfoldable pub add_assertion_with_salt :
      Claim → Assertion → Option (List ℕ) → Result Error (Claim × HashedUri)
  add_assertion_with_salt c assertion salt =
      add_assertion_impl c assertion salt (ltb 1 c.claim_version)

  abbrev pub push_gathered : Option (List HashedUri) → HashedUri → Option (List HashedUri)
  push_gathered none a = some (a ∷ [])
  push_gathered (some ga) a = some (ga ++ a ∷ [])

  unfoldable pub add_gathered_assertion_with_salt :
      Claim → Assertion → Option (List ℕ) → Result Error (Claim × HashedUri)
  add_gathered_assertion_with_salt c assertion salt =
      if ltb c.claim_version 2
      then add_assertion_with_salt c assertion salt
      else add_assertion_impl c assertion salt false >>= λ (c', a).
          ok (record c' { gathered_assertions = push_gathered c'.gathered_assertions a }, a)
