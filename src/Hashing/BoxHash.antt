-- ===== src/Hashing/BoxHash.antt =====
-- The box hash of sdk/src/assertions/box_hash.rs: the parts of an asset that its handler lists, hashed
-- one by one or in runs. The handler's `get_box_map` (`AssetBoxHash` of sdk/src/asset_io.rs) is a
-- parameter. A list of the asset's parts stands for the vector with an index: the parts from the index on.
pub mod Longer
pub mod Laws
pub mod RoundTrip
use c2pa_rs_html.Prelude.{
  ℕ, ◌+◌, List, [], ◌∷◌, ◌++◌, Text, bytes, Bool, true, false, Option, none, some, keep, length,
  is_empty, ltb, ◌==◌, if◌then◌else◌, bytes_eq,
}
use c2pa_rs_html.Result.{Result, ok, err, panic, ◌>>=◌, ◌>>◌, guard}
use c2pa_rs_html.Error.{Error, hash_mismatch}
use c2pa_rs_html.Hashing.Hasher.{Hasher}
use c2pa_rs_html.Hashing.Ranges.{
  HashRange, new_range, RangeSet, hash_stream_by_alg, verify_stream_by_alg,
}
use c2pa_rs_html.Io.{u64, sub64}
use c2pa_rs_html.Hashing.DataHash.{checked_alg}

pub record BoxMap : Type 0 where
  pub names : List Text
  pub alg : Option Text
  pub hash : List ℕ
  pub pad : List ℕ
  pub range_start : ℕ
  pub range_len : ℕ

pub record BoxHash : Type 0 where
  pub boxes : List BoxMap

abbrev pub c2pa_boxhash : Text
c2pa_boxhash = bytes "C2PA"

abbrev pub png_start : Text
png_start = bytes "PNGh"

-- `names[0]`.
abbrev pub first_name : List Text → Result Error Text
first_name [] = panic
first_name (n ∷ ns) = ok n

abbrev pub is_single : List Text → Bool
is_single names = length names == 1

abbrev pub first_box_name : List BoxMap → Result Error Text
first_box_name [] = panic
first_box_name (bm ∷ bms) = first_name bm.names

-- A part goes on with the inclusion, or starts it; `skip` says whether it is the manifest.
abbrev pub include : Bool → Text → BoxMap → HashRange → Bool → Result Error (HashRange × Bool)
include single name source_bm inclusion skip_c2pa =
    if inclusion.count == 0
    then (if bytes_eq name c2pa_boxhash
        then (if single
            then ok (
              record inclusion { start = source_bm.range_start; count = source_bm.range_len },
              true,
            )
            else err hash_mismatch)
        else ok (
          record inclusion { start = source_bm.range_start; count = source_bm.range_len },
          skip_c2pa,
        ))
    else ok (
      record inclusion {
        count = u64 (sub64 source_bm.range_start inclusion.start + source_bm.range_len);
      },
      skip_c2pa,
    )

-- The loop over the names of one box map: the parts that are left, the inclusion, whether to skip it.
unfoldable pub consume :
    Bool
    → List Text
    → List BoxMap
    → HashRange
    → Bool
    → Result Error (List BoxMap × (HashRange × Bool))
consume single [] source inclusion skip = ok (source, (inclusion, skip))
consume single (name ∷ names) [] inclusion skip = err hash_mismatch
consume single (name ∷ names) (source_bm ∷ source) inclusion skip =
    first_name source_bm.names >>= λ source_name.
    guard (bytes_eq name source_name) hash_mismatch
    >> include single name source_bm inclusion skip
    >>= λ (inclusion', skip'). consume single names source inclusion' skip'

-- The parts to start with: a first part `PNGh` is left out if the hashes do not start with it.
unfoldable pub from_start : List BoxMap → List BoxMap → Result Error (List BoxMap)
from_start boxes [] = err hash_mismatch
from_start boxes (first ∷ source) = first_name first.names >>= λ n.
    if bytes_eq n png_start
    then (first_box_name boxes >>= λ m.
        ok (if bytes_eq m png_start then first ∷ source else source))
    else ok (first ∷ source)

module _ {S T : Type 0} (h : Hasher S) (s : RangeSet T) where
  abbrev pub check_range :
      List ℕ → Option Text → BoxMap → HashRange × Bool → Result Error (Unit {0})
  check_range reader alg bm (inclusion, skip_c2pa) =
      if skip_c2pa
      then ok tt
      else checked_alg bm.alg alg >>= λ curr_alg.
          guard (verify_stream_by_alg h s curr_alg bm.hash reader (some (inclusion ∷ [])) false)
            hash_mismatch

  unfoldable pub verify_boxes :
      List ℕ → Option Text → List BoxMap → List BoxMap → Result Error (Unit {0})
  verify_boxes reader alg [] source = ok tt
  verify_boxes reader alg (bm ∷ boxes) source =
      consume (is_single bm.names) bm.names source (new_range 0 0) false >>= λ (rest, range).
      check_range reader alg bm range >> verify_boxes reader alg boxes rest

  -- `range_start` and `range_len` of a part as the range to hash.
  abbrev pub range_of : BoxMap → HashRange
  range_of bm = new_range bm.range_start bm.range_len

  abbrev pub hash_box : List ℕ → Text → BoxMap → Result Error (List ℕ)
  hash_box reader alg bm = hash_stream_by_alg h s alg reader (some (range_of bm ∷ [])) false

  abbrev pub generate_box : List ℕ → Text → BoxMap → Result Error BoxMap
  generate_box reader alg bm = first_name bm.names >>= λ n.
      if bytes_eq n c2pa_boxhash
      then (guard (is_single bm.names) hash_mismatch >> ok (record bm { hash = 0 ∷ []; pad = [] }))
      else (hash_box reader alg bm >>= λ hash.
          ok (record bm { alg = some alg; hash = hash; pad = [] }))

  unfoldable pub generate_boxes : List ℕ → Text → List BoxMap → Result Error (List BoxMap)
  generate_boxes reader alg [] = ok []
  generate_boxes reader alg (bm ∷ source) = generate_box reader alg bm >>= λ bm'.
      generate_boxes reader alg source >>= λ rest. ok (bm' ∷ rest)

  -- `minimal_form` joins the parts before the manifest, and those behind it.
  abbrev pub joined : BoxMap → BoxMap → BoxMap
  joined acc bm = record acc {
    names = acc.names ++ bm.names;
    range_start = if acc.range_len == 0 then bm.range_start else acc.range_start;
    range_len = if acc.range_len == 0 then bm.range_len else u64 (acc.range_len + bm.range_len);
  }

  -- The parts before the manifest, the manifest, and those behind it.
  unfoldable pub collapse :
      Bool → BoxMap → BoxMap → BoxMap → List BoxMap → Result Error (List BoxMap)
  collapse is_before before c2pa after [] = ok (before ∷ c2pa ∷ after ∷ [])
  collapse is_before before c2pa after (bm ∷ source) =
      let found = collapse false before bm after source in
      let earlier = collapse true (joined before bm) c2pa after source in
      let later = collapse false before c2pa (joined after bm) source in
      first_name bm.names >>= λ n.
      if bytes_eq n c2pa_boxhash
      then (guard (is_single bm.names) hash_mismatch >> found)
      else if is_before
      then earlier
      else later

  abbrev pub empty_box : Text → BoxMap
  empty_box alg = record {
    names = [];
    alg = some alg;
    hash = [];
    pad = [];
    range_start = 0;
    range_len = 0;
  }

  abbrev pub minimal_box : List ℕ → Text → BoxMap → Result Error BoxMap
  minimal_box reader alg bm = first_name bm.names >>= λ n.
      if bytes_eq n c2pa_boxhash
      then ok bm
      else (hash_box reader alg bm >>= λ hash. ok (record bm { hash = hash }))

  unfoldable pub hash_minimal : List ℕ → Text → List BoxMap → Result Error (List BoxMap)
  hash_minimal reader alg [] = ok []
  hash_minimal reader alg (bm ∷ boxes) =
      minimal_box reader alg bm >>= λ bm'. hash_minimal reader alg boxes >>= λ rest. ok (bm' ∷ rest)

  module _ (get_box_map : List ℕ → Result Error (List BoxMap)) where
    unfoldable pub verify_stream_boxes : BoxHash → List ℕ → Option Text → Result Error (Unit {0})
    verify_stream_boxes b reader alg =
        if is_empty b.boxes
        then err hash_mismatch
        else get_box_map reader >>= from_start b.boxes >>= verify_boxes reader alg b.boxes

    unfoldable pub generate_box_hash_from_stream :
        BoxHash → List ℕ → Text → Bool → Result Error BoxHash
    generate_box_hash_from_stream b reader alg minimal_form = get_box_map reader >>= λ source_bms.
        if minimal_form
        then (collapse true (empty_box alg) (empty_box alg) (empty_box alg) source_bms >>= λ parts.
            hash_minimal reader alg (keep (λ bm. ltb 0 bm.range_len) parts) >>= λ boxes.
            ok (record b { boxes = boxes }))
        else (generate_boxes reader alg source_bms >>= λ boxes.
            ok (record b { boxes = b.boxes ++ boxes }))
