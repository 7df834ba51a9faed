-- ===== src/Hashing/Merkle.antt =====
-- The Merkle tree of sdk/src/utils/merkle.rs. A node is its hash. The loops over the layers run on
-- fuel: the number of leaves, since each layer but the last is longer than the next.
use c2pa_rs_html.Prelude.{
  ℕ, zero, suc, ◌-◌, ◌/◌, ◌%◌, ◌≤◌, ◌<◌, ◌≡◌, refl, sym, ap, List, [], ◌∷◌, map, Text, Bool, false,
  ◌||◌, Option, none, some, arith, length, get_elem?, get_last?, is_empty, ltb, leb, ◌==◌,
  if◌then◌else◌, Bool-cases, inl, inr,
}
use c2pa_rs_html.Result.{Result, ok, err}
use c2pa_rs_html.Error.{Error, bad_param}
use c2pa_rs_html.Hashing.Hasher.{Hasher, hash_by_alg, concat_and_hash}

abbrev pub Node : Type 0
Node = List ℕ

-- How many nodes the inner loop of `to_layout` counts for a layer.
abbrev pub parent_count : ℕ → ℕ
parent_count zero = 0
parent_count (suc zero) = 1
parent_count (suc (suc n)) = suc (parent_count n)

abbrev pub layout_from : ℕ → ℕ → List ℕ
layout_from zero n = n ∷ []
layout_from (suc fuel) n =
    let rest = layout_from fuel (parent_count n) in if ltb 1 n then n ∷ rest else n ∷ []

unfoldable pub to_layout : ℕ → List ℕ
to_layout num_leaves = layout_from num_leaves num_leaves

abbrev pub sibling : List Node → ℕ → Option Node
sibling layer index =
    if index % 2 == 1 then get_elem? layer (index - 1) else get_elem? layer (suc index)

abbrev pub push_some {ℓ} : {A : Type ℓ} → Option A → List A → List A
push_some none xs = xs
push_some (some x) xs = x ∷ xs

-- The loop over the layers; what it pushes is in order.
abbrev pub proof_from : List (List Node) → ℕ → ℕ → List Node
proof_from [] index proofs_left = []
proof_from (layer ∷ layers) index zero = []
proof_from (layer ∷ layers) index (suc proofs_left) =
    push_some (sibling layer index) (proof_from layers (index / 2) proofs_left)

pub record MerkleTree : Type 0 where
  pub leaves : List Node
  pub layers : List (List Node)

abbrev first {ℓ} : {A : Type ℓ} → List A → Option A
first [] = none
first (x ∷ xs) = some x

abbrev root_of : Option (List Node) → Option Node
root_of none = none
root_of (some layer) = first layer

unfoldable pub get_root : MerkleTree → Option Node
get_root t = root_of (get_last? t.layers)

unfoldable pub get_proof_by_index : MerkleTree → ℕ → ℕ → Result Error (List Node)
get_proof_by_index t leaf_indx max_proof_len =
    if is_empty t.leaves || leb (length t.leaves) leaf_indx
    then err bad_param
    else ok (proof_from t.layers leaf_indx max_proof_len)

module _ {S : Type 0} (h : Hasher S) (alg : Text) where
  -- The inner loop of `generate_tree`: a node without a pair is passed on.
  abbrev pub parent_layer : List Node → List Node
  parent_layer [] = []
  parent_layer (left ∷ []) = left ∷ []
  parent_layer (left ∷ right ∷ rest) = concat_and_hash h alg left (some right) ∷ parent_layer rest

  abbrev pub layers_from : ℕ → List Node → List (List Node)
  layers_from zero layer = layer ∷ []
  layers_from (suc fuel) layer =
      let rest = layers_from fuel (parent_layer layer) in
      if ltb 1 (length layer) then layer ∷ rest else layer ∷ []

  unfoldable pub generate_tree : List Node → List (List Node)
  generate_tree leaves = layers_from (length leaves) leaves

  unfoldable pub from_leaves : List Node → Bool → MerkleTree
  from_leaves leaves hash_leaves =
      let hashed = if hash_leaves then map (hash_by_alg h alg) leaves else leaves in
      record { leaves = hashed; layers = generate_tree hashed }

  pub length-parent_layer :
      (layer : List Node) → length (parent_layer layer) ≡ parent_count (length layer)
  length-parent_layer [] = refl
  length-parent_layer (x ∷ []) = refl
  length-parent_layer (x ∷ y ∷ r) = ap suc (length-parent_layer r)

  layout_lem :
      (fuel : ℕ) (layer : List Node)
      → map length (layers_from fuel layer) ≡ layout_from fuel (length layer)
  layout_lem zero layer = refl
  layout_lem (suc fuel) layer = elim (Bool-cases (ltb 1 (length layer))) [
    | inl e ↦ rw (e, sym (length-parent_layer layer), layout_lem fuel (parent_layer layer))
    | inr e ↦ rw e
  ]

  -- The layout that is computed from the number of leaves alone is that of the generated tree.
  pub to_layout-generate_tree :
      (leaves : List Node) → to_layout (length leaves) ≡ map length (generate_tree leaves)
  unfolding to_layout generate_tree
  to_layout-generate_tree leaves = sym (layout_lem (length leaves) leaves)

pub parent_count_bound : (n : ℕ) → (parent_count n ≤ n) × (1 < n → parent_count n < n)
parent_count_bound zero = (omega arith, omega arith)
parent_count_bound (suc zero) = (omega arith, omega arith)
parent_count_bound (suc (suc n)) =
    let (a, b) = parent_count_bound n in (omega arith, (λ lt. omega arith))

parent_count_pos : (n : ℕ) → 0 < n → 0 < parent_count n
parent_count_pos zero lt = omega arith
parent_count_pos (suc zero) lt = omega arith
parent_count_pos (suc (suc n)) lt = omega arith

get_last?-cons {ℓ} :
    {A : Type ℓ} (x : A) (xs : List A) (y : A) → get_last? xs ≡ some y → get_last? (x ∷ xs) ≡ some y
get_last?-cons x [] y e = cc
get_last?-cons x (z ∷ xs) y e = e

last_layout : (fuel n : ℕ) → 0 < n → n ≤ fuel → get_last? (layout_from fuel n) ≡ some 1
last_layout zero n lt le = absurd (omega arith)
last_layout (suc fuel) n lt le = elim (Bool-cases (ltb 1 n)) [
  | inl e ↦ rw e (
      get_last?-cons n (layout_from fuel (parent_count n)) 1 (
        last_layout fuel (parent_count n) (parent_count_pos n lt)
          (below n fuel ((parent_count_bound n).1 (ground arith)) le)))
  | inr e ↦ rw e (ap some (one n e lt))
]
  where
    below : (n fuel : ℕ) → parent_count n < n → n ≤ suc fuel → parent_count n ≤ fuel
    below n fuel lt le = omega arith

    one : (n : ℕ) → ltb 1 n ≡ false → 0 < n → n ≡ 1
    one n e lt = ground arith

-- The loop over the layers always ends at a layer of one node, for any number of leaves but none.
to_layout_root : (n : ℕ) → 0 < n → get_last? (to_layout n) ≡ some 1
unfolding to_layout
to_layout_root n lt = last_layout n n lt (omega arith)
