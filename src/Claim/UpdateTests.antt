-- ===== src/Claim/UpdateTests.antt =====
-- A claim with two assertions whose reserved data hash becomes the final one.
use c2pa_rs_html.Prelude.{
  ℕ, ◌≡◌, refl, List, [], ◌∷◌, ◌++◌, map, Text, bytes, false, Option, none, some, arith, length,
  find, length-append,
}
use c2pa_rs_html.Result.{Result, ok}
use c2pa_rs_html.Error.{Error}
use c2pa_rs_html.Hashing.DataHash.{DataHash, new_data_hash, or_empty}
use c2pa_rs_html.Hashing.DataHash.Padding.{PadGrows, SamePayload}
use c2pa_rs_html.Claim.Assertion.{Assertion, cbor, data_bytes, cbor_type}
use c2pa_rs_html.Claim.Store.{ClaimAssertion, v1, label, HashedUri, Claim}
use c2pa_rs_html.Claim.Update.{
  modify_first, replaced, serialized_size, update_data_hash, replaceable, carries_name,
}
use c2pa_rs_html.Claim.Update.InStep.{AreInStep}
use c2pa_rs_html.Claim.Update.Reserved.{data_hash_assertion, update_data_hash-AreInStep}

abbrev name : Text
name = bytes "jumbf manifest"

-- A serialization that has all bytes of the hash and of both paddings.
abbrev plain_cbor : DataHash → Option (List ℕ)
plain_cbor d = some (d.hash ++ (or_empty d.pad2 ++ d.pad))

plain_cbor-PadGrows : PadGrows (serialized_size plain_cbor)
plain_cbor-PadGrows d c c' e e' =
    let size : length (d.hash ++ (or_empty d.pad2 ++ d.pad)) ≡ c = cc in
    let size' : length (d.hash ++ (or_empty d.pad2 ++ (d.pad ++ 0 ∷ []))) ≡ c' = cc in
    omega (
      arith,
      size,
      size',
      length-append d.hash (or_empty d.pad2 ++ d.pad),
      length-append (or_empty d.pad2) d.pad,
      length-append d.hash (or_empty d.pad2 ++ (d.pad ++ 0 ∷ [])),
      length-append (or_empty d.pad2) (d.pad ++ 0 ∷ []),
      length-append d.pad (0 ∷ []),
    )

abbrev always : Assertion → Option DataHash
always a = some (new_data_hash name (bytes "sha256"))

abbrev framed_hash : Text → Assertion → Option (List ℕ) → Text → Result Error (List ℕ)
framed_hash l a salt alg = ok (7 ∷ data_bytes a.content)

abbrev reserved : List ℕ → List ℕ → ClaimAssertion
reserved content hash = record {
  assertion = record {
    raw_label = bytes "c2pa.hash.data";
    label_root = bytes "c2pa.hash.data";
    given_label = bytes "c2pa.hash.data";
    schema_version = some 1;
    content = cbor content;
    content_type = cbor_type;
  };
  number = 0;
  hash_val = hash;
  hash_alg = bytes "sha256";
  salt = none;
  typ = v1;
}

abbrev place : ClaimAssertion
place = record {
  assertion = record {
    given_label = bytes "geo";
    schema_version = none;
    content = cbor (1 ∷ []);
    content_type = cbor_type;
    raw_label = bytes "geo";
    label_root = bytes "geo";
  };
  number = 0;
  hash_val = 5 ∷ [];
  hash_alg = bytes "sha256";
  salt = none;
  typ = v1;
}

abbrev link : Text → List ℕ → HashedUri
link url hash = record { url = url; alg = none; hash = hash; salt = none }

abbrev claim : List ClaimAssertion → List HashedUri → Claim
claim store links = record {
  update_manifest = false;
  icons = [];
  redacted_assertions = none;
  claim_label = bytes "acme";
  conflict_label = none;
  claim_version = 1;
  alg = bytes "sha256";
  assertion_store = store;
  assertions = links;
  created_assertions = [];
  gathered_assertions = none;
  data_boxes = [];
}

abbrev target : ClaimAssertion
target = reserved (0 ∷ 0 ∷ 0 ∷ []) (6 ∷ [])

abbrev before : Claim
before = claim (place ∷ target ∷ []) (
    link (bytes "self#jumbf=c2pa.assertions/geo") (5 ∷ [])
    ∷ link (bytes "self#jumbf=c2pa.assertions/c2pa.hash.data") (6 ∷ [])
    ∷ [])

abbrev final : List ℕ → DataHash
final pad = record {
  exclusions = none;
  name = some name;
  alg = some (bytes "sha256");
  hash = 9 ∷ [];
  pad = pad;
  pad2 = none;
  url = none;
}

-- The run itself: one byte of hash, two of padding.
update_data_hash_run : update_data_hash framed_hash plain_cbor always before (final []) ≡ (
  claim (place ∷ reserved (9 ∷ 0 ∷ 0 ∷ []) (7 ∷ 9 ∷ 0 ∷ 0 ∷ []) ∷ []) (
      link (bytes "self#jumbf=c2pa.assertions/geo") (5 ∷ [])
      ∷ link (bytes "self#jumbf=c2pa.assertions/c2pa.hash.data") (7 ∷ 9 ∷ 0 ∷ 0 ∷ [])
      ∷ []),
  ok tt,
)
unfolding update_data_hash c2pa_rs_html.Claim.Update.to_assertion
    c2pa_rs_html.Claim.Assertion.new_assertion c2pa_rs_html.Claim.Assertion.get_mutable_label
    c2pa_rs_html.Claim.Labels.get_thumbnail_type c2pa_rs_html.Prelude.split
    c2pa_rs_html.Claim.Update.update_assertion c2pa_rs_html.Claim.Labels.get_thumbnail_image_type
    c2pa_rs_html.Hashing.DataHash.pad_to_size c2pa_rs_html.Hashing.DataHash.pad_loop label
update_data_hash_run = refl

update_data_hash-AreInStep_example :
    (c' : Claim) × (update_data_hash framed_hash plain_cbor always before (final []) ≡ (c', ok tt))
    × (front back : List ClaimAssertion) × (y h : List ℕ) × (plain_cbor (final (0 ∷ 0 ∷ []))
        ≡ some y)
    × SamePayload (final []) (final (0 ∷ 0 ∷ []))
    × (length y ≡ 3)
    × (framed_hash (bytes "c2pa.hash.data") (data_hash_assertion y) none (bytes "sha256") ≡ ok h)
    × (before.assertion_store ≡ front ++ target ∷ back)
    × (find
          (replaceable
            (data_hash_assertion (9 ∷ []))
            (λ ca. carries_name (some name) (always ca.assertion)))
          front
        ≡ none)
    × (c'.assertion_store
        ≡ front ++ record target { assertion = data_hash_assertion y; hash_val = h } ∷ back)
    × (map (λ f. f.url) c'.assertions ≡ map (λ f. f.url) before.assertions)
    × AreInStep c'.assertion_store c'.assertions
unfolding label c2pa_rs_html.Hashing.DataHash.pad_to_size c2pa_rs_html.Hashing.DataHash.pad_loop
update_data_hash-AreInStep_example =
    update_data_hash-AreInStep framed_hash plain_cbor always before (final []) (final (0 ∷ 0 ∷ []))
      (9 ∷ []) target (refl, refl, (refl, refl, tt)) ((refl, tt), (tt, tt)) plain_cbor-PadGrows
      (λ a. (7 ∷ data_bytes a.content, refl)) refl refl refl refl
