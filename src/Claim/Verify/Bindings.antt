-- ===== src/Claim/Verify/Bindings.antt =====
-- The check of the hard bindings in `Claim::verify_internal` (sdk/src/claim.rs). What other parts
-- make of an assertion is a record of parameters: serde decodes it, the BMFF hash is checked elsewhere,
-- and the handler of the asset lists its parts. `displayed` is the text of an error, `format!("{e}")`.
pub mod Accepts
pub mod Bmff
pub mod Bound
use c2pa_rs_html.Prelude.{
  ℕ, List, [], ◌∷◌, ◌++◌, Text, bytes, not, ◌&&◌, Option, none, some, length, is_empty, ◌==◌,
  if◌then◌else◌, bytes_eq,
}
use c2pa_rs_html.Result.{Result, ok, err, panic, stuck, ◌>>=◌}
use c2pa_rs_html.Error.{
  Error, unsupported_type, hash_mismatch, update_manifest_invalid, claim_missing_hard_binding,
  claim_multiple_hard_binding,
}
use c2pa_rs_html.Hashing.Hasher.{Hasher}
use c2pa_rs_html.Hashing.Ranges.{HashRange, new_range, sort_by, start_of, RangeSet}
use c2pa_rs_html.Hashing.DataHash.{
  DataHash, is_remote_hash, verify_in_memory_hash, verify_stream_hash,
}
use c2pa_rs_html.Hashing.BoxHash.{BoxMap, BoxHash, verify_stream_boxes}
use c2pa_rs_html.Jumbf.Labels.{to_assertion_uri}
use c2pa_rs_html.Claim.Assertion.{Assertion}
use c2pa_rs_html.Claim.Store.{ClaimAssertion, label_raw, label, Claim, label_of, assertions_by_type}
use c2pa_rs_html.Claim.Check.{Check, ◌>>>◌, done, when, with_result, for_each, succeed, fail}
use c2pa_rs_html.Claim.Verify.Head.{verify_internal_item, uri, dummy}
use c2pa_rs_html.Claim.Verify.Links.{StoreValidationInfo}

-- The kinds of asset data, with the type of the asset; those of the feature file_io are left out.
pub data ClaimAssetData : Type 0 where
  in_memory : List ℕ → Text → ClaimAssetData
  stream : List ℕ → Text → ClaimAssetData
  stream_fragment : List ℕ → List ℕ → Text → ClaimAssetData

-- The data hash and the box hash of an assertion; for a BMFF hash its name and what the check of it over
-- the asset gives, under an error that is returned at once; and the lister of parts (`get_box_map`)
-- of the handler for a type of asset, or the error of a missing one.
pub record Decoders : Type 0 where
  pub data_hash_of : Assertion → Result Error DataHash
  pub bmff_hash : Assertion → ClaimAssetData → Text → Result Error (Text × Result Error (Unit {0}))
  pub box_hash_of : Assertion → Result Error BoxHash
  pub box_processor : Text → Result Error (List ℕ → Result Error (List BoxMap))

abbrev pub data_hash_label : Text
data_hash_label = bytes "c2pa.hash.data"

abbrev pub bmff_hash_label : Text
bmff_hash_label = bytes "c2pa.hash.bmff"

abbrev pub box_hash_label : Text
box_hash_label = bytes "c2pa.hash.boxes"

unfoldable pub hash_assertions : Claim → List ClaimAssertion
hash_assertions c =
    (assertions_by_type c (dummy data_hash_label) ++ assertions_by_type c (dummy bmff_hash_label))
    ++ assertions_by_type c (dummy box_hash_label)

abbrev pub assertion_uri : Claim → Text → Text
assertion_uri c assertion_label = to_assertion_uri (label_of c) assertion_label

-- One range from the first start, as long as all manifests.
abbrev pub covering : ℕ → List HashRange → List HashRange
covering size [] = []
covering size (r ∷ rs) = new_range r.start size ∷ []

abbrev pub covered : ℕ → Option (List HashRange) → Option (List HashRange)
covered size none = none
covered size (some exclusions) = some (covering size (sort_by start_of exclusions))

unfoldable pub adjusted : StoreValidationInfo → DataHash → DataHash
adjusted svi dh =
    if svi.update_manifest_size == 0
    then dh
    else record dh { exclusions = covered svi.update_manifest_size dh.exclusions }

abbrev pub name_or : Option Text → Text
name_or none = bytes "unnamed"
name_or (some name) = name

abbrev pub named_problem : Text → Text
named_problem name = bytes "asset hash error, name: " ++ (name ++ bytes ", error: ")

module _ {S T : Type 0} (h : Hasher S) (s : RangeSet T) where
  abbrev pub data_hash_result :
      Claim → DataHash → ClaimAssetData → Result Error (Result Error (Unit {0}))
  data_hash_result c dh (in_memory asset_bytes typ) =
      ok (verify_in_memory_hash h s dh asset_bytes (some c.alg))
  data_hash_result c dh (stream stream_data typ) =
      ok (verify_stream_hash h s dh stream_data (some c.alg))
  data_hash_result c dh (stream_fragment init fragment typ) = err unsupported_type

module _ {S T : Type 0} (h : Hasher S) (s : RangeSet T) (d : Decoders) where
  abbrev pub processed : Claim → BoxHash → List ℕ → Text → Result Error (Result Error (Unit {0}))
  processed c bh asset typ = d.box_processor typ >>= λ get_box_map.
      ok (verify_stream_boxes h s get_box_map bh asset (some c.alg))

  abbrev pub box_hash_result :
      Claim → ClaimAssetData → BoxHash → Result Error (Result Error (Unit {0}))
  box_hash_result c (in_memory asset_bytes typ) bh = processed c bh asset_bytes typ
  box_hash_result c (stream stream_data typ) bh = processed c bh stream_data typ
  box_hash_result c (stream_fragment init fragment typ) bh = err unsupported_type

module _ (shown : Error → Text → Text) (displayed : Error → Text) where
  -- The log of the outcome of a hash.
  abbrev pub log_hash :
      Claim → ClaimAssertion → Text → Text → Text → Result Error (Unit {0}) → Check
  log_hash c hb matched mismatched problem (ok u) =
      succeed matched (verify_internal_item (assertion_uri c (label hb)) (bytes "data hash valid"))
  log_hash c hb matched mismatched problem (err e) =
      fail shown mismatched
        (verify_internal_item (assertion_uri c (label hb)) (problem ++ displayed e)) hash_mismatch
        (bytes "Asset hash failure: " ++ displayed e)
  log_hash c hb matched mismatched problem panic = λ t. (t, panic)
  log_hash c hb matched mismatched problem stuck = λ t. (t, stuck)

  abbrev pub log_data_hash : Claim → ClaimAssertion → DataHash → Result Error (Unit {0}) → Check
  log_data_hash c hb dh r =
      log_hash c hb (bytes "assertion.dataHash.match") (bytes "assertion.dataHash.mismatch")
        (named_problem (name_or dh.name)) r

  abbrev pub log_bmff_hash : Claim → ClaimAssertion → Text × Result Error (Unit {0}) → Check
  log_bmff_hash c hb (name, r) =
      log_hash c hb (bytes "assertion.bmffHash.match") (bytes "assertion.bmffHash.mismatch")
        (named_problem name) r

  abbrev pub log_box_hash : Claim → ClaimAssertion → Result Error (Unit {0}) → Check
  log_box_hash c hb r =
      log_hash c hb (bytes "assertion.boxesHash.match") (bytes "assertion.boxesHash.mismatch")
        (bytes "asset hash error: ") r

  module _ {S T : Type 0} (h : Hasher S) (s : RangeSet T) (d : Decoders) where
    abbrev pub check_local_hash : Claim → ClaimAssertion → ClaimAssetData → DataHash → Check
    check_local_hash c hb asset dh =
        with_result (data_hash_result h s c dh asset) (log_data_hash c hb dh)

    abbrev pub refuse_remote_hash : ClaimAssertion → Check
    refuse_remote_hash hb =
        fail shown (bytes "assertion.dataHash.mismatch")
          (verify_internal_item (label hb) (bytes "remote data hash URIs are not supported"))
          hash_mismatch (bytes "remote data hash URIs are not supported")

    unfoldable pub check_data_hash : Claim → ClaimAssertion → ClaimAssetData → DataHash → Check
    check_data_hash c hb asset dh =
        if not (is_remote_hash dh) then check_local_hash c hb asset dh else refuse_remote_hash hb

    unfoldable pub check_binding :
        Claim → StoreValidationInfo → ClaimAssetData → ClaimAssertion → Check
    check_binding c svi asset hb =
        if bytes_eq (label_raw hb) data_hash_label
        then with_result (d.data_hash_of hb.assertion)
            (λ dh. check_data_hash c hb asset (adjusted svi dh))
        else if bytes_eq (label_raw hb) bmff_hash_label
        then with_result (d.bmff_hash hb.assertion asset c.alg) (log_bmff_hash c hb)
        else if bytes_eq (label_raw hb) box_hash_label
        then with_result (d.box_hash_of hb.assertion >>= box_hash_result h s d c asset)
            (log_box_hash c hb)
        else done

    -- How many hard bindings there are.
    unfoldable pub check_binding_count : Claim → Check
    check_binding_count c =
        when (is_empty (hash_assertions c) && not c.update_manifest) (
          fail shown (bytes "claim.hardBindings.missing")
            (verify_internal_item (uri c) (bytes "claim missing data binding"))
            claim_missing_hard_binding [])
        >>> when (not (length (hash_assertions c) == 1) && not c.update_manifest) (
            fail shown (bytes "assertion.multipleHardBindings")
              (verify_internal_item (uri c) (bytes "claim has multiple data bindings"))
              claim_multiple_hard_binding [])
        >>> when (not (is_empty (hash_assertions c)) && c.update_manifest) (
            fail shown (bytes "manifest.update.invalid")
              (verify_internal_item (uri c)
                (bytes "update manifests cannot contain data hash assertions"))
              update_manifest_invalid [])

    unfoldable pub check_bindings : Claim → StoreValidationInfo → ClaimAssetData → Check
    check_bindings c svi asset =
        when (bytes_eq (label_of c) svi.binding_claim)
          (check_binding_count c >>> for_each (check_binding c svi asset) (hash_assertions c))
