-- ===== src/Hashing/BoxTests.antt =====
-- Runs of the box hash over an asset of three parts.
use c2pa_rs_html.Prelude.{
  ℕ, ◌≡◌, refl, List, [], ◌∷◌, ◌++◌, Text, bytes, Option, none, some, length, ◌==◌, if◌then◌else◌,
}
use c2pa_rs_html.Result.{Result, ok}
use c2pa_rs_html.Error.{Error}
use c2pa_rs_html.Hashing.RangesTests.{adder, tested, alg}
use c2pa_rs_html.Hashing.BoxHash.{BoxMap, BoxHash, verify_stream_boxes}
use c2pa_rs_html.Hashing.BoxHash.Laws.{verify_stream_boxes-append}
use c2pa_rs_html.Hashing.BoxHash.RoundTrip.{verify_stream_boxes-generate}

abbrev part : Text → Option Text → List ℕ → ℕ → ℕ → BoxMap
part name part_alg hash start len = record {
  names = name ∷ [];
  alg = part_alg;
  hash = hash;
  pad = [];
  range_start = start;
  range_len = len;
}

abbrev parts : List BoxMap
parts =
    part (bytes "PNGh") none [] 0 2
    ∷ part (bytes "C2PA") none [] 2 2
    ∷ part (bytes "IEND") none [] 4 2
    ∷ []

abbrev more : List BoxMap
more = part (bytes "tEXt") none [] 6 1 ∷ []

abbrev lister : List ℕ → Result Error (List BoxMap)
lister reader = if length reader == 6 then ok parts else ok (parts ++ more)

abbrev hashed : BoxHash
hashed = record {
  boxes =
      part (bytes "PNGh") (some alg) (3 ∷ []) 0 2
      ∷ part (bytes "C2PA") none (0 ∷ []) 2 2
      ∷ part (bytes "IEND") (some alg) (11 ∷ []) 4 2
      ∷ [];
}

abbrev asset : List ℕ
asset = 1 ∷ 2 ∷ 3 ∷ 4 ∷ 5 ∷ 6 ∷ []

verify_stream_boxes-generate_example :
    verify_stream_boxes adder tested lister hashed asset none ≡ ok tt
unfolding c2pa_rs_html.Hashing.BoxHash.generate_box_hash_from_stream
    c2pa_rs_html.Hashing.BoxHash.generate_boxes c2pa_rs_html.Hashing.Ranges.hash_stream_by_alg
    c2pa_rs_html.Hashing.Ranges.plan c2pa_rs_html.Hashing.Ranges.hash_spans
    c2pa_rs_html.Hashing.Ranges.inclusion_plan c2pa_rs_html.Hashing.Ranges.hash_span
    c2pa_rs_html.Hashing.Hasher.hash_chunks
verify_stream_boxes-generate_example =
    verify_stream_boxes-generate adder tested asset alg lister _ _ hashed refl
      ((bytes "PNGh", refl), ((bytes "C2PA", refl), ((bytes "IEND", refl), tt))) refl

verify_stream_boxes-append_example :
    verify_stream_boxes adder tested lister hashed (asset ++ 7 ∷ []) none ≡ ok tt
unfolding verify_stream_boxes c2pa_rs_html.Hashing.BoxHash.from_start
    c2pa_rs_html.Hashing.BoxHash.verify_boxes c2pa_rs_html.Hashing.BoxHash.consume
    c2pa_rs_html.Hashing.Ranges.verify_stream_by_alg c2pa_rs_html.Hashing.Ranges.hash_stream_by_alg
    c2pa_rs_html.Hashing.Ranges.plan c2pa_rs_html.Hashing.Ranges.hash_spans
    c2pa_rs_html.Hashing.Ranges.inclusion_plan c2pa_rs_html.Hashing.Ranges.hash_span
    c2pa_rs_html.Hashing.Hasher.hash_chunks
verify_stream_boxes-append_example =
    verify_stream_boxes-append adder tested asset (7 ∷ []) none lister hashed parts more refl refl
      refl
