-- ===== src/Hashing/Check.antt =====
-- The check of a Merkle proof, `MerkleMap` of sdk/src/assertions/bmff_hash.rs. Counts and locations
-- are `u32` in the source; below a count that fits, no sum of the code wraps around.
use c2pa_rs_html.Prelude.{
  ℕ, suc, ◌-◌, ◌/◌, ◌%◌, List, [], ◌∷◌, Text, Bool, true, false, Option, none, some, length,
  get_elem?, ltb, leb, ◌==◌, if◌then◌else◌, bytes_eq,
}
use c2pa_rs_html.Hashing.Hasher.{Hasher, concat_and_hash}
use c2pa_rs_html.Hashing.Merkle.{Node, to_layout}

-- The fields of `MerkleMap` that the check reads.
pub record MerkleMap : Type 0 where
  pub count : ℕ
  pub hashes : List Node

abbrev hash_is : Option Node → Node → Bool
hash_is none merkle_hash = false
hash_is (some known) merkle_hash = bytes_eq known merkle_hash

unfoldable pub hash_check : MerkleMap → ℕ → Node → Bool
hash_check m indx merkle_hash = hash_is (get_elem? m.hashes indx) merkle_hash

-- Does the node at an index of a layer have a pair?
abbrev pub has_pair : ℕ → ℕ → Bool
has_pair layer index = if index % 2 == 1 then ltb (index - 1) layer else ltb (suc index) layer

-- With no proof, the index of the ancestor in the layer of the map's hashes.
abbrev pub empty_playback : List ℕ → ℕ → ℕ → ℕ
empty_playback [] row index = index
empty_playback (layer ∷ layers) row index =
    let rest = empty_playback layers row (index / 2) in if layer == row then index else rest

module _ {S : Type 0} (h : Hasher S) (alg : Text) where
  abbrev pub pair_hash : ℕ → Node → Node → Node
  pair_hash index hash proof_hash =
      if index % 2 == 1
      then concat_and_hash h alg proof_hash (some hash)
      else concat_and_hash h alg hash (some proof_hash)

  -- One layer: the hash of the parent and the rest of the proof, or no valid proof.
  abbrev pub play_layer : Bool → ℕ → Node → List Node → Option (Node × List Node)
  play_layer false index hash proof = some (hash, proof)
  play_layer true index hash [] = none
  play_layer true index hash (p ∷ proof) = some (pair_hash index hash p, proof)

  -- The playback: the index and the hash of the ancestor in the layer of the map's hashes.
  abbrev pub playback : List ℕ → ℕ → ℕ → Node → List Node → Option (ℕ × Node)
  playback [] row index hash proof = some (index, hash)
  playback (layer ∷ layers) row index hash proof =
      if layer == row
      then some (index, hash)
      else elim (play_layer (has_pair layer index) index hash proof) [
        | none ↦ none
        | some (parent, rest) ↦ playback layers row (index / 2) parent rest
      ]

  abbrev check_ancestor : MerkleMap → Option (ℕ × Node) → Bool
  check_ancestor m none = false
  check_ancestor m (some (index, hash)) = hash_check m index hash

  abbrev check_proof : MerkleMap → Node → ℕ → Option (List Node) → Bool
  check_proof m hash location none =
      hash_check m (empty_playback (to_layout m.count) (length m.hashes) location) hash
  check_proof m hash location (some proof) =
      check_ancestor m (playback (to_layout m.count) (length m.hashes) location hash proof)

  unfoldable pub check_merkle_tree : MerkleMap → Node → ℕ → Option (List Node) → Bool
  check_merkle_tree m hash location proof =
      if leb m.count location then false else check_proof m hash location proof
