-- ===== src/Hashing/DataHash.antt =====
-- The assertion that binds a manifest to its asset, sdk/src/assertions/data_hash.rs. Streams are
-- buffers; the size of the serialized assertion is a parameter, since serde_cbor is third-party code.
pub mod Padding
pub mod Verify
use c2pa_rs_html.Prelude.{
  ℕ, zero, suc, ◌+◌, ◌*◌, ◌/◌, ◌-◌, ◌<◌, ◌≤◌, List, [], ◌∷◌, ◌++◌, Text, bytes, Bool, true, false,
  Option, none, some, is_empty, is_some, replicate, ltb, ◌==◌, if◌then◌else◌,
}
use c2pa_rs_html.Result.{Result, ok, err, panic, stuck, ◌>>=◌, ◌>>◌, guard, ok_or}
use c2pa_rs_html.Error.{Error, bad_param, hash_mismatch, jumbf_creation_error, assertion_encoding}
use c2pa_rs_html.Hashing.Hasher.{Hasher}
use c2pa_rs_html.Hashing.Ranges.{
  HashRange, RangeSet, hash_stream_by_alg, verify_stream_by_alg, verify_excluding,
}

pub record DataHash : Type 0 where
  pub exclusions : Option (List HashRange)
  pub name : Option Text
  pub alg : Option Text
  pub hash : List ℕ
  pub pad : List ℕ
  pub pad2 : Option (List ℕ)
  pub url : Option Text

abbrev pub new_data_hash : Text → Text → DataHash
new_data_hash name alg = record {
  exclusions = none;
  name = some name;
  alg = some alg;
  hash = [];
  pad = [];
  pad2 = none;
  url = none;
}

abbrev pub or_empty {ℓ} : {A : Type ℓ} → Option (List A) → List A
or_empty none = []
or_empty (some xs) = xs

unfoldable pub add_exclusion : DataHash → HashRange → DataHash
add_exclusion d r = record d { exclusions = some (or_empty d.exclusions ++ r ∷ []) }

abbrev pub is_remote_hash : DataHash → Bool
is_remote_hash d = is_some d.url

abbrev pub alg_or : Option Text → Text → Text
alg_or none default = default
alg_or (some alg) default = alg

-- The algorithm of a check: the assertion's, else the caller's.
abbrev pub checked_alg : Option Text → Option Text → Result Error Text
checked_alg (some a) alg = ok a
checked_alg none (some a) = ok a
checked_alg none none = err hash_mismatch

abbrev pub non_empty : List ℕ → Result Error (List ℕ)
non_empty [] = err bad_param
non_empty (b ∷ hash) = ok (b ∷ hash)

module _ {S T : Type 0} (h : Hasher S) (s : RangeSet T) where
  unfoldable pub hash_from_stream : DataHash → List ℕ → Result Error (List ℕ)
  hash_from_stream d stream =
      if is_remote_hash d
      then err bad_param
      else hash_stream_by_alg h s (alg_or d.alg (bytes "sha256")) stream d.exclusions true
        >>= non_empty

  unfoldable pub gen_hash_from_stream : DataHash → List ℕ → Result Error DataHash
  gen_hash_from_stream d stream =
      hash_from_stream d stream >>= λ hash. ok (record d { hash = hash })

  abbrev or_mismatch : Bool → Result Error (Unit {0})
  or_mismatch b = guard b hash_mismatch

  unfoldable pub verify_in_memory_hash : DataHash → List ℕ → Option Text → Result Error (Unit {0})
  verify_in_memory_hash d input alg =
      if is_remote_hash d
      then err bad_param
      else or_mismatch (
          verify_excluding h s (alg_or d.alg (alg_or alg (bytes "sha256"))) d.hash input
            d.exclusions)

  unfoldable pub verify_stream_hash : DataHash → List ℕ → Option Text → Result Error (Unit {0})
  verify_stream_hash d reader alg =
      if is_remote_hash d
      then err bad_param
      else checked_alg d.alg alg >>= λ a.
          or_mismatch (verify_stream_by_alg h s a d.hash reader d.exclusions true)

module _ (serialized_size : DataHash → Option ℕ) where
  abbrev pub size_of : DataHash → Result Error ℕ
  size_of d = ok_or (serialized_size d) assertion_encoding

  abbrev pub push_pad : DataHash → DataHash
  push_pad d = record d { pad = d.pad ++ 0 ∷ [] }

  abbrev pub split_pad : ℕ → DataHash → DataHash
  split_pad last_pad d = record d { pad = []; pad2 = some (replicate (last_pad / 2) 0) }

  abbrev pub start_pad : ℕ → (ℕ → Result Error DataHash) → ℕ → Result Error DataHash
  start_pad desired_size loop curr_size =
      if ltb desired_size curr_size then err jumbf_creation_error else loop curr_size

  -- The loop of `pad_to_size`, and the second call of it with a split padding; on fuel.
  unfoldable pub pad_loop : ℕ → ℕ → ℕ → ℕ → DataHash → Result Error DataHash
  pad_loop zero desired_size last_pad curr_size d = stuck
  pad_loop (suc fuel) desired_size last_pad curr_size d =
      let push =
        size_of (push_pad d) >>= λ c. pad_loop fuel desired_size (last_pad + 1) c (push_pad d) in
      let again =
        size_of (split_pad last_pad d)
        >>= start_pad desired_size (λ c. pad_loop fuel desired_size 0 c (split_pad last_pad d)) in
      if curr_size == desired_size
      then ok d
      else if ltb curr_size desired_size
      then push
      else if is_some d.pad2
      then err jumbf_creation_error
      else again

  unfoldable pub pad_to_size : DataHash → ℕ → Result Error DataHash
  pad_to_size d desired_size =
      size_of d >>= start_pad desired_size (λ c. pad_loop (2 * desired_size + 4) desired_size 0 c d)
