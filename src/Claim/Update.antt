-- ===== src/Claim/Update.antt =====
-- The update of an assertion of a claim, sdk/src/claim.rs: `update_assertion` and its two uses, with
-- the data hash for which space was reserved. A call gives the claim that it leaves, also with an
-- error. `calc_assertion_box_hash` is `box_hash`; serde_cbor is `to_cbor` and `data_hash_of`, which
-- gives `none` where an assertion does not decode, and never panics. The
-- original bytes that `clear_data` drops are not a part of the claim.
pub mod InStep
pub mod Reserved
use c2pa_rs_html.Prelude.{
  ℕ, List, [], ◌∷◌, Text, bytes, contains, Bool, true, false, ◌&&◌, Option, none, some, any, find,
  length, if◌then◌else◌, bytes_eq,
}
use c2pa_rs_html.Result.{Result, ok, err, panic, stuck, ◌>>=◌, ok_or}
use c2pa_rs_html.Error.{Error, assertion_encoding, not_found}
use c2pa_rs_html.Hashing.DataHash.{DataHash, pad_to_size}
use c2pa_rs_html.Claim.Assertion.{Assertion, cbor, data_bytes, new_assertion, assertions_eq}
use c2pa_rs_html.Claim.Store.{ClaimAssertion, label, HashedUri, Claim}

-- `iter_mut().find`, and a change of what it finds.
abbrev pub modify_first {ℓ} : {A : Type ℓ} → (A → Bool) → (A → A) → List A → List A
modify_first p f [] = []
modify_first p f (x ∷ xs) = if p x then f x ∷ xs else x ∷ modify_first p f xs

abbrev pub refers : Text → List ℕ → HashedUri → Bool
refers target_label original_hash f = contains target_label f.url && bytes_eq f.hash original_hash

abbrev pub rehash : Text → List ℕ → List ℕ → List HashedUri → List HashedUri
rehash target_label original_hash h =
    modify_first (refers target_label original_hash) (λ f. record f { hash = h })

abbrev pub rehash_gathered :
    Text → List ℕ → List ℕ → Option (List HashedUri) → Option (List HashedUri)
rehash_gathered l o h none = none
rehash_gathered l o h (some ga) = some (rehash l o h ga)

-- `ClaimAssertion::update_assertion`.
abbrev pub replaced : Assertion → List ℕ → ClaimAssertion → ClaimAssertion
replaced a h ca = record ca { assertion = a; hash_val = h }

abbrev pub Updated : Type 0
Updated = Claim × Result Error (Unit {0})

-- The references to an assertion whose hash was `original_hash`.
abbrev pub update_links : Text → List ℕ → List ℕ → Claim → Updated
update_links target_label original_hash h c =
    if any (refers target_label original_hash) c.assertions
    then (
      record c {
        assertions = rehash target_label original_hash h c.assertions;
        created_assertions = rehash target_label original_hash h c.created_assertions;
        gathered_assertions = rehash_gathered target_label original_hash h c.gathered_assertions;
      },
      ok tt,
    )
    else (c, err not_found)

-- The `?` operator: an error leaves the claim as it is.
abbrev pub or_unchanged {ℓ} : {A : Type ℓ} → Claim → Result Error A → (A → Updated) → Updated
or_unchanged c (ok a) f = f a
or_unchanged c (err e) f = (c, err e)
or_unchanged c panic f = (c, panic)
or_unchanged c stuck f = (c, stuck)

abbrev pub or_not_found : Claim → Option ClaimAssertion → (ClaimAssertion → Updated) → Updated
or_not_found c none f = (c, err not_found)
or_not_found c (some target) f = f target

abbrev pub replaceable : Assertion → (ClaimAssertion → Bool) → ClaimAssertion → Bool
replaceable replace_with match_fn ca = assertions_eq replace_with ca.assertion && match_fn ca

abbrev pub store_replaced : Claim → (ClaimAssertion → Bool) → Assertion → List ℕ → Claim
store_replaced c p a h = record c {
  assertion_store = modify_first p (replaced a h) c.assertion_store;
}

abbrev pub data_len : Option (List ℕ) → Option ℕ
data_len none = none
data_len (some x) = some (length x)

abbrev pub same_name : Option Text → Option Text → Bool
same_name none none = true
same_name none (some n) = false
same_name (some m) none = false
same_name (some m) (some n) = bytes_eq m n

abbrev pub carries_name : Option Text → Option DataHash → Bool
carries_name dh_name none = false
carries_name dh_name (some dh) = same_name dh.name dh_name

module _ (to_cbor : DataHash → Option (List ℕ)) where
  -- `DataHash::to_assertion`.
  unfoldable pub to_assertion : DataHash → Result Error Assertion
  to_assertion d = ok_or (to_cbor d) assertion_encoding >>= λ x.
      new_assertion (bytes "c2pa.hash.data") (some 1) (cbor x)

  abbrev pub serialized_size : DataHash → Option ℕ
  serialized_size d = data_len (to_cbor d)

  abbrev pub padded_assertion : DataHash → ClaimAssertion → Assertion → Result Error Assertion
  padded_assertion data_hash target a =
      pad_to_size serialized_size data_hash (length (data_bytes target.assertion.content))
      >>= to_assertion

module _ (box_hash : Text → Assertion → Option (List ℕ) → Text → Result Error (List ℕ)) where
  unfoldable pub update_assertion :
      Claim
      → Assertion
      → (ClaimAssertion → Bool)
      → (ClaimAssertion → Assertion → Result Error Assertion)
      → Updated
  update_assertion c replace_with match_fn patch_fn =
      let p = replaceable replace_with match_fn in
      or_not_found c (find p c.assertion_store) (λ target.
        or_unchanged c (patch_fn target replace_with) (λ a.
          or_unchanged c (box_hash (label target) a target.salt target.hash_alg) (λ h.
            update_links (label (replaced a h target)) target.hash_val h (store_replaced c p a h))))

  unfoldable pub replace_assertion : Claim → Assertion → Updated
  replace_assertion c replace_with = update_assertion c replace_with (λ ca. true) (λ ca a. ok a)

  unfoldable pub update_data_hash :
      (DataHash → Option (List ℕ)) → (Assertion → Option DataHash) → Claim → DataHash → Updated
  update_data_hash to_cbor data_hash_of c data_hash =
      or_unchanged c (to_assertion to_cbor data_hash) (λ replace_with.
        update_assertion c replace_with
          (λ ca. carries_name data_hash.name (data_hash_of ca.assertion))
          (padded_assertion to_cbor data_hash))
