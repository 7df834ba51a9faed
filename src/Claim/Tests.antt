-- ===== src/Claim/Tests.antt =====
-- Runs of the assertion store with two assertions of one label.
use c2pa_rs_html.Prelude.{
  ℕ, ◌≡◌, refl, List, [], ◌∷◌, ◌++◌, map, Text, bytes, split, false, none, Option, arith,
}
use c2pa_rs_html.Result.{Result, ok}
use c2pa_rs_html.Error.{Error}
use c2pa_rs_html.Jumbf.Labels.{to_assertion_uri, to_relative_uri}
use c2pa_rs_html.Jumbf.Labels.Uris.{IsLabel}
use c2pa_rs_html.Claim.Labels.{assertion_label_from_link, label_with_instance}
use c2pa_rs_html.Claim.Parts.{IsPlain, assertion_label_from_link-to_relative_uri}
use c2pa_rs_html.Claim.Assertion.{Assertion, cbor, data_bytes, cbor_type}
use c2pa_rs_html.Claim.Store.{
  ClaimAssertion, v1, label, HashedUri, Claim, make_assertion_instance_label, add_assertion_impl,
  redact_assertion,
}
use c2pa_rs_html.Claim.Unique.{IsClaim, add_assertion_impl-IsClaim}
use c2pa_rs_html.Claim.Redact.{redact_assertion_first}

abbrev place : Text
place = bytes "geo"

abbrev manifest : Text
manifest = bytes "acme"

place-IsPlain : IsPlain place
place-IsPlain = record {
  no_pair = (refl, (refl, refl));
  no_slash = omega arith;
  no_equals = omega arith;
  no_thumbnail = refl;
}

manifest-IsLabel : IsLabel manifest
manifest-IsLabel = record { no_slash = omega arith; no_equals = omega arith }

assertion_label_from_link-to_relative_uri_example :
    assertion_label_from_link (to_relative_uri (to_assertion_uri manifest (bytes "geo__2")))
    ≡ (place, 2)
unfolding label_with_instance c2pa_rs_html.Claim.Labels.get_thumbnail_type
    c2pa_rs_html.Claim.Decimal.to_decimal
assertion_label_from_link-to_relative_uri_example =
    assertion_label_from_link-to_relative_uri manifest place 2 manifest-IsLabel place-IsPlain
      (omega arith)

abbrev geo : Assertion
geo = record {
  given_label = place;
  schema_version = none;
  content = cbor (1 ∷ []);
  content_type = cbor_type;
  raw_label = place;
  label_root = place;
}

abbrev entry : ℕ → ClaimAssertion
entry n = record {
  assertion = geo;
  number = n;
  hash_val = [];
  hash_alg = bytes "sha256";
  salt = none;
  typ = v1;
}

abbrev claim : List ClaimAssertion → Claim
claim store = record {
  update_manifest = false;
  icons = [];
  redacted_assertions = none;
  claim_label = manifest;
  conflict_label = none;
  claim_version = 1;
  alg = bytes "sha256";
  assertion_store = store;
  assertions = [];
  created_assertions = [];
  gathered_assertions = none;
  data_boxes = [];
}

abbrev box_hash : Text → Assertion → Option (List ℕ) → Text → Result Error (List ℕ)
box_hash l a salt alg = ok (l ++ data_bytes a.content)

one-IsClaim : IsClaim (claim (entry 0 ∷ []))
one-IsClaim = record {
  entries = (record { plain = place-IsPlain; small = omega arith }, tt);
  distinct = (tt, tt);
}

add_assertion_impl-IsClaim_example :
    (c' : Claim) × (link : HashedUri) × (add_assertion_impl box_hash
        (λ a. ok tt)
        (claim (entry 0 ∷ []))
        geo
        none
        false
      ≡ ok (c', link))
    × (map label c'.assertion_store ≡ bytes "geo" ∷ bytes "geo__1" ∷ [])
    × IsClaim c'
unfolding c2pa_rs_html.Claim.Store.next_instance assertion_label_from_link split
    c2pa_rs_html.Jumbf.Labels.to_normalized_uri c2pa_rs_html.Claim.Labels.get_thumbnail_type
    c2pa_rs_html.Claim.Labels.split_instance label make_assertion_instance_label label_with_instance
    c2pa_rs_html.Claim.Decimal.to_decimal
add_assertion_impl-IsClaim_example =
    add_assertion_impl-IsClaim box_hash (λ a. ok tt) (claim (entry 0 ∷ [])) geo none false _
      one-IsClaim place-IsPlain (omega arith) refl refl

redact_assertion_first_example :
    redact_assertion (claim (entry 0 ∷ entry 1 ∷ [])) (to_assertion_uri manifest (bytes "geo__1"))
    ≡ ok (claim (entry 1 ∷ []))
unfolding label label_with_instance c2pa_rs_html.Claim.Labels.get_thumbnail_type
    c2pa_rs_html.Claim.Decimal.to_decimal
redact_assertion_first_example =
    redact_assertion_first (claim (entry 0 ∷ entry 1 ∷ [])) manifest place 1 (entry 0)
      (entry 1 ∷ []) manifest-IsLabel place-IsPlain (omega arith) refl refl refl refl
