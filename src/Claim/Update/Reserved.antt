-- ===== src/Claim/Update/Reserved.antt =====
-- The final data hash of a claim takes the place of the one that stood for it.
use mathlib.Core.Path.{subst}
use c2pa_rs_html.Prelude.{
  ℕ, ◌≡◌, refl, sym, ap, ◌∙◌, List, [], ◌∷◌, ◌++◌, map, Text, bytes, split, Bool, Option, none,
  some, find, length, Bool-cases, inl, inr,
}
use c2pa_rs_html.Result.{Result, ok}
use c2pa_rs_html.Error.{Error}
use c2pa_rs_html.Hashing.DataHash.{DataHash, pad_to_size}
use c2pa_rs_html.Hashing.DataHash.Padding.{Ends, PadGrows, Padded, SamePayload, pad_to_size-Ends}
use c2pa_rs_html.Claim.Assertion.{
  Assertion, cbor, data_bytes, cbor_type, get_mutable_label, trim_end_matches, new_assertion,
}
use c2pa_rs_html.Claim.Labels.{get_thumbnail_type, get_thumbnail_image_type}
use c2pa_rs_html.Claim.Store.{ClaimAssertion, label_raw, label, Claim}
use c2pa_rs_html.Claim.Update.{
  modify_first, replaced, replaceable, to_assertion, data_len, serialized_size, carries_name,
  padded_assertion, update_data_hash,
}
use c2pa_rs_html.Claim.Update.InStep.{AreInStep, AreDistinct, update_assertion-AreInStep}

abbrev data_hash_label : Text
data_hash_label = bytes "c2pa.hash.data"

-- The assertion that a serialized data hash makes.
abbrev pub data_hash_assertion : List ℕ → Assertion
data_hash_assertion x = record {
  given_label = data_hash_label;
  schema_version = some 1;
  content = cbor x;
  content_type = cbor_type;
  raw_label = data_hash_label;
  label_root = data_hash_label;
}

data_len-some :
    (o : Option (List ℕ)) (n : ℕ)
    → data_len o ≡ some n
    → (x : List ℕ) × (o ≡ some x) × (length x ≡ n)
data_len-some none n e = cc
data_len-some (some x) n e = (x, refl, cc)

-- A change of what is found changes that alone.
modify_first-split {ℓ} :
    {A : Type ℓ} (p : A → Bool) (f : A → A) (t : A) (xs : List A)
    → find p xs ≡ some t
    → (front back : List A) × (xs ≡ front ++ t ∷ back)
      × (find p front ≡ none)
      × (modify_first p f xs ≡ front ++ f t ∷ back)
modify_first-split p f t [] e = cc
modify_first-split p f t (x ∷ xs) e = elim (Bool-cases (p x)) [
  | inl hit ↦
      let e' = rw hit at e in
      let q : x ≡ t = cc in ([], xs, ap (λ y. y ∷ xs) q, refl, rw hit (ap (λ y. f y ∷ xs) q))
  | inr miss ↦
      let (front, back, whole, before, change) = modify_first-split p f t xs (rw miss at e) in
      (x ∷ front, back, ap (λ ys. x ∷ ys) whole, rw miss before, rw miss (ap (λ ys. x ∷ ys) change))
]

module _ (to_cbor : DataHash → Option (List ℕ)) where
  made :
      (d : DataHash) (x : List ℕ)
      → to_cbor d ≡ some x
      → to_assertion to_cbor d ≡ ok (data_hash_assertion x)
  unfolding to_assertion new_assertion get_mutable_label trim_end_matches get_thumbnail_type
      get_thumbnail_image_type split
  made d x e = rw e refl

  -- The data hash that the call adjusts to the space of the target, and its assertion.
  adjusted :
      (d d' : DataHash) (target : ClaimAssertion) (b : Assertion)
      → PadGrows (serialized_size to_cbor)
      → pad_to_size (serialized_size to_cbor) d (length (data_bytes target.assertion.content))
        ≡ ok d'
      → (x : List ℕ) × (to_cbor d' ≡ some x)
        × SamePayload d d'
        × (padded_assertion to_cbor d target b ≡ ok (data_hash_assertion x))
        × (length x ≡ length (data_bytes target.assertion.content))
  adjusted d d' target b grows padded =
      let size = serialized_size to_cbor in
      let n = length (data_bytes target.assertion.content) in
      let ends : Padded size d n d' =
        subst (Ends (Padded size d n)) padded (pad_to_size-Ends size grows d n) in
      let (x, e, l) = data_len-some (to_cbor d') n ends.0 in
      (x, e, ends.1, rw padded (made d' x e), l)

module _ (box_hash : Text → Assertion → Option (List ℕ) → Text → Result Error (List ℕ))
    (to_cbor : DataHash → Option (List ℕ)) (data_hash_of : Assertion → Option DataHash) where
  -- The final data hash takes the place of the reserved one. The call succeeds; in the store the
  -- first assertion that is found by the name of the data hash, and no other, changes: to the
  -- serialized data hash, the same but for its padding, with the hash of its box, and as long as
  -- before. No link changes its URL, and the links stay in step with the stored assertions, so the
  -- link of the data hash has the new hash. The links had distinct hashes and were in step; the data
  -- hash can be serialized, and padded to the size of the assertion that is found, which has the
  -- label of a data hash; a byte of padding makes a data hash longer; the box of that assertion can
  -- be hashed with any content.
  pub update_data_hash-AreInStep :
      (c : Claim) (d d' : DataHash) (x : List ℕ) (target : ClaimAssertion)
      → AreInStep c.assertion_store c.assertions
      → AreDistinct c.assertions
      → PadGrows (serialized_size to_cbor)
      → ((a : Assertion)
          → (h : List ℕ) × (box_hash (label target) a target.salt target.hash_alg ≡ ok h))
      → to_cbor d ≡ some x
      → find
          (replaceable
            (data_hash_assertion x)
            (λ ca. carries_name d.name (data_hash_of ca.assertion)))
          c.assertion_store
        ≡ some target
      → label_raw target ≡ data_hash_label
      → pad_to_size (serialized_size to_cbor) d (length (data_bytes target.assertion.content))
        ≡ ok d'
      → (c' : Claim) × (update_data_hash box_hash to_cbor data_hash_of c d ≡ (c', ok tt))
        × (front back : List ClaimAssertion) × (y h : List ℕ) × (to_cbor d' ≡ some y)
        × SamePayload d d'
        × (length y ≡ length (data_bytes target.assertion.content))
        × (box_hash (label target) (data_hash_assertion y) target.salt target.hash_alg ≡ ok h)
        × (c.assertion_store ≡ front ++ target ∷ back)
        × (find
              (replaceable
                (data_hash_assertion x)
                (λ ca. carries_name d.name (data_hash_of ca.assertion)))
              front
            ≡ none)
        × (c'.assertion_store
            ≡ front ++ record target { assertion = data_hash_assertion y; hash_val = h } ∷ back)
        × (map (λ f. f.url) c'.assertions ≡ map (λ f. f.url) c.assertions)
        × AreInStep c'.assertion_store c'.assertions
  unfolding update_data_hash
  update_data_hash-AreInStep c d d' x target step distinct grows hashes e found named padded =
      let m = λ (ca : ClaimAssertion). carries_name d.name (data_hash_of ca.assertion) in
      let (y, cbor_y, same, patch, size) =
        adjusted to_cbor d d' target (data_hash_assertion x) grows padded in
      let (h, hashed) = hashes (data_hash_assertion y) in
      let (c', run, store, urls, step') =
        update_assertion-AreInStep box_hash c (data_hash_assertion x) (data_hash_assertion y) m
          (padded_assertion to_cbor d) target h step distinct found patch (sym named) hashed in
      let (front, back, whole, first, change) =
        modify_first-split (replaceable (data_hash_assertion x) m)
          (replaced (data_hash_assertion y) h) target c.assertion_store found in
      (
        c',
        rw (made to_cbor d x e) run,
        front,
        back,
        y,
        h,
        cbor_y,
        same,
        size,
        hashed,
        whole,
        first,
        store ∙ change,
        urls,
        step',
      )
