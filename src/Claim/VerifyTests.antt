-- ===== src/Claim/VerifyTests.antt =====
-- Runs of the verification of a claim with one data hash, and of one with a BMFF hash.
use c2pa_rs_html.Prelude.{
  some, ℕ, ◌≡◌, ◌↔◌, refl, List, [], ◌∷◌, ◌++◌, Text, bytes, split, true, false, none, arith,
}
use c2pa_rs_html.Result.{ok, err, panic}
use c2pa_rs_html.Error.{Error, assertion_encoding, unsupported_type}
use c2pa_rs_html.Status.Tracker.{
  StatusTracker, with_error_behavior, continue_when_possible, has_any_error,
}
use c2pa_rs_html.Hashing.Ranges.{new_range}
use c2pa_rs_html.Hashing.DataHash.{DataHash, new_data_hash}
use c2pa_rs_html.Hashing.DataHash.Verify.{bound}
use c2pa_rs_html.Hashing.RangesTests.{
  adder, adder-IsHasher, tested, tested-IsRangeSet, two-Plain, alg,
}
use c2pa_rs_html.Jumbf.Labels.{to_assertion_uri, to_relative_uri}
use c2pa_rs_html.Jumbf.Labels.Uris.{IsLabel}
use c2pa_rs_html.Claim.Assertion.{Assertion, cbor, cbor_type}
use c2pa_rs_html.Claim.Store.{ClaimAssertion, v1, created, HashedUri, Claim, add_assertion_impl}
use c2pa_rs_html.Claim.Unique.{IsClaim}
use c2pa_rs_html.Claim.Check.{passed}
use c2pa_rs_html.Claim.Verify.Links.{StoreValidationInfo, check_assertions}
use c2pa_rs_html.Claim.Verify.Links.Accepts.{assertions_hold, check_assertions-Meets}
use c2pa_rs_html.Claim.Verify.Links.Keys.{IsClaim-NoDuplicates}
use c2pa_rs_html.Claim.Verify.Links.Added.{check_assertions-add_assertion}
use c2pa_rs_html.Claim.Verify.Bindings.{
  ClaimAssetData, stream, Decoders, check_bindings, hash_assertions,
}
use c2pa_rs_html.Claim.Verify.Bindings.Bmff.{bmff_hash_unchecked}
use c2pa_rs_html.Claim.Verify.Bindings.Bound.{Binds, check_bindings-gen_hash}
use c2pa_rs_html.Claim.Verify.Decoded.{Actions, parent_of}
use c2pa_rs_html.Claim.Verify.Rules.{check_action}
use c2pa_rs_html.Claim.Verify.Rules.Panics.{opened_with, check_action_panics}

abbrev manifest : Text
manifest = bytes "acme"

manifest-IsLabel : IsLabel manifest
manifest-IsLabel = record { no_slash = omega arith; no_equals = omega arith }

abbrev labelled : Text → Text → Assertion
labelled raw root = record {
  given_label = raw;
  schema_version = none;
  content = cbor [];
  content_type = cbor_type;
  raw_label = raw;
  label_root = root;
}

abbrev stored_as : Assertion → ClaimAssertion
stored_as a = record {
  assertion = a;
  number = 0;
  hash_val = 9 ∷ [];
  hash_alg = alg;
  salt = none;
  typ = v1;
}

abbrev linked : Text → HashedUri
linked l = record {
  url = bytes "self#jumbf=c2pa.assertions/" ++ l;
  alg = none;
  hash = 9 ∷ [];
  salt = none;
}

abbrev claim_with : Assertion → Claim
claim_with a = record {
  update_manifest = false;
  icons = [];
  redacted_assertions = none;
  claim_label = manifest;
  conflict_label = none;
  claim_version = 1;
  alg = alg;
  assertion_store = stored_as a ∷ [];
  assertions = linked a.raw_label ∷ [];
  created_assertions = [];
  gathered_assertions = none;
  data_boxes = [];
}

abbrev svi : StoreValidationInfo
svi = record {
  redactions = [];
  binding_claim = manifest;
  update_manifest_size = 0;
  manifest_map = λ l. none;
}

abbrev log : StatusTracker
log = with_error_behavior continue_when_possible

abbrev shown : Error → Text → Text
shown e carried = carried

abbrev displayed : Error → Text
displayed e = []

abbrev data_hash : DataHash
data_hash = record (bound (new_data_hash alg alg) alg (new_range 2 1 ∷ new_range 0 1 ∷ [])) {
  hash = 6 ∷ [];
}

abbrev decoders : Decoders
decoders = record {
  data_hash_of = λ a. ok data_hash;
  bmff_hash = λ a asset alg. err assertion_encoding;
  box_hash_of = λ a. err assertion_encoding;
  box_processor = λ typ. err unsupported_type;
}

abbrev data_claim : Claim
data_claim = claim_with (labelled (bytes "c2pa.hash.data") (bytes "c2pa.hash.data"))

data_claim-IsClaim : IsClaim data_claim
data_claim-IsClaim = record {
  entries = (
    record {
      plain = record {
        no_pair = (
          refl,
          (
            refl,
            (
              refl,
              (refl, (refl, (refl, (refl, (refl, (refl, (refl, (refl, (refl, (refl, refl)))))))))),
            ),
          ),
        );
        no_slash = omega arith;
        no_equals = omega arith;
        no_thumbnail = refl;
      };
      small = omega arith;
    },
    tt,
  );
  distinct = (tt, tt);
}

check_assertions-Meets_example : passed (check_assertions shown data_claim svi log) ≡ true
unfolding split has_any_error c2pa_rs_html.Status.Tracker.filter_errors
    c2pa_rs_html.Jumbf.Labels.is_relative_url c2pa_rs_html.Jumbf.Labels.manifest_label_from_uri
    c2pa_rs_html.Jumbf.Labels.to_normalized_uri c2pa_rs_html.Claim.Verify.Links.is_redacted
    c2pa_rs_html.Claim.Store.get_claim_assertion c2pa_rs_html.Claim.Labels.assertion_label_from_link
    c2pa_rs_html.Claim.Labels.get_thumbnail_type c2pa_rs_html.Claim.Labels.split_instance
check_assertions-Meets_example =
    check_assertions-Meets shown data_claim svi log
      (IsClaim-NoDuplicates data_claim data_claim-IsClaim)

abbrev action_entry : ClaimAssertion
action_entry = record (stored_as (labelled (bytes "c2pa.actions") (bytes "c2pa.actions"))) {
  typ = created;
}

-- A claim of version 2 with a data hash and an action that creates the asset.
abbrev full_claim : Claim
full_claim = record data_claim {
  claim_version = 2;
  assertion_store =
      stored_as (labelled (bytes "c2pa.hash.data") (bytes "c2pa.hash.data")) ∷ action_entry ∷ [];
  assertions = linked (bytes "c2pa.hash.data") ∷ linked (bytes "c2pa.actions") ∷ [];
}

abbrev creating : Actions
creating = record {
  actions = record { action = bytes "c2pa.created"; parameters = none; agent_icons = [] } ∷ [];
  icons = [];
}

check_assertions-add_assertion_example :
    (c' : Claim) × (link : HashedUri) × (add_assertion_impl
        (λ l a salt alg. ok l)
        (λ a. ok tt)
        data_claim
        (labelled (bytes "geo") (bytes "geo"))
        none
        false
      ≡ ok (c', link))
    × IsClaim c'
    × (assertions_hold c' svi ≡ true)
    × (passed (check_assertions shown c' svi log) ≡ true)
unfolding split has_any_error c2pa_rs_html.Status.Tracker.filter_errors
    c2pa_rs_html.Jumbf.Labels.is_relative_url c2pa_rs_html.Jumbf.Labels.manifest_label_from_uri
    c2pa_rs_html.Jumbf.Labels.to_normalized_uri c2pa_rs_html.Claim.Verify.Links.is_redacted
    c2pa_rs_html.Claim.Store.get_claim_assertion c2pa_rs_html.Claim.Labels.assertion_label_from_link
    c2pa_rs_html.Claim.Labels.get_thumbnail_type c2pa_rs_html.Claim.Labels.split_instance
    c2pa_rs_html.Claim.Store.next_instance
check_assertions-add_assertion_example =
    check_assertions-add_assertion (λ l a salt alg. ok l) (λ a. ok tt) shown data_claim
      (labelled (bytes "geo") (bytes "geo")) none false _ svi log data_claim-IsClaim
      manifest-IsLabel refl
      (record {
        no_pair = (refl, (refl, refl));
        no_slash = omega arith;
        no_equals = omega arith;
        no_thumbnail = refl;
      })
      (omega arith) refl refl

data_claim-Binds : Binds decoders data_claim svi data_hash
unfolding hash_assertions c2pa_rs_html.Claim.Store.assertions_by_type
data_claim-Binds = record {
  binding = stored_as (labelled (bytes "c2pa.hash.data") (bytes "c2pa.hash.data"));
  binds = refl;
  only = refl;
  normal = refl;
  labelled = refl;
  decoded = refl;
  no_update = refl;
}

check_bindings-gen_hash_example :
    (passed (
        check_bindings shown displayed adder tested decoders data_claim svi
          (stream (7 ∷ 2 ∷ 8 ∷ 5 ∷ []) alg)
          log)
      ≡ true)
    ↔ (◌≡◌ {A = List ℕ} (7 ∷ []) (6 ∷ []))
unfolding c2pa_rs_html.Hashing.DataHash.gen_hash_from_stream
    c2pa_rs_html.Hashing.DataHash.hash_from_stream c2pa_rs_html.Hashing.Ranges.hash_stream_by_alg
    c2pa_rs_html.Hashing.Ranges.plan c2pa_rs_html.Hashing.Ranges.hash_spans
    c2pa_rs_html.Hashing.Ranges.exclusion_plan c2pa_rs_html.Hashing.Ranges.hash_span
    c2pa_rs_html.Hashing.Hasher.hash_chunks has_any_error c2pa_rs_html.Status.Tracker.filter_errors
check_bindings-gen_hash_example =
    check_bindings-gen_hash adder tested decoders adder-IsHasher tested-IsRangeSet shown displayed
      data_claim svi (new_data_hash alg alg) data_hash alg [] (new_range 2 1) (new_range 0 1 ∷ [])
      (1 ∷ 2 ∷ 3 ∷ 4 ∷ []) (7 ∷ 2 ∷ 8 ∷ 5 ∷ []) alg log refl refl
      (record { some_data = omega arith; small = omega arith; plain = two-Plain })
      (record { some_data = omega arith; small = omega arith; plain = two-Plain }) refl
      data_claim-Binds refl

abbrev bmff : Assertion
bmff = record (labelled (bytes "c2pa.hash.bmff.v2") (bytes "c2pa.hash.bmff")) {
  given_label = bytes "c2pa.hash.bmff";
  schema_version = some 2;
}

bmff_hash_unchecked_example :
    check_bindings shown displayed adder tested decoders
      (claim_with bmff)
      svi
      (stream (1 ∷ 2 ∷ []) (bytes "video/mp4"))
      log
    ≡ (log, ok tt)
unfolding c2pa_rs_html.Claim.Assertion.new_assertion c2pa_rs_html.Claim.Assertion.get_mutable_label
    c2pa_rs_html.Claim.Labels.get_thumbnail_type split
    c2pa_rs_html.Claim.Labels.get_thumbnail_image_type c2pa_rs_html.Claim.Decimal.to_decimal
    hash_assertions c2pa_rs_html.Claim.Store.assertions_by_type
bmff_hash_unchecked_example =
    bmff_hash_unchecked shown displayed adder tested decoders (claim_with bmff) svi
      (stream (1 ∷ 2 ∷ []) (bytes "video/mp4")) (stored_as bmff) (cbor []) log refl refl refl

abbrev origin : ClaimAssertion
origin = stored_as (labelled (bytes "c2pa.ingredient") (bytes "c2pa.ingredient"))

check_action_panics_example :
    check_action
      (λ a. ok parent_of)
      shown
      (claim_with origin.assertion)
      svi
      false
      0
      []
      (opened_with (record (linked []) { url = bytes "self#jumbf=c2pa.assertions" }))
      log
    ≡ (log, panic)
unfolding c2pa_rs_html.Claim.Verify.Head.ingredient_assertions
    c2pa_rs_html.Claim.Store.assertions_by_type c2pa_rs_html.Jumbf.Labels.to_normalized_uri split
check_action_panics_example =
    check_action_panics (λ a. ok parent_of) shown (claim_with origin.assertion) svi [] parent_of
      (record (linked []) { url = bytes "self#jumbf=c2pa.assertions" }) origin [] log refl refl refl
