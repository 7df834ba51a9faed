-- ===== src/Hashing/Tests.antt =====
-- Runs with a toy hasher: its state is all it was given, its hash the sum of the bytes.
use c2pa_rs_html.Prelude.{
  ℕ, ◌+◌, ◌≡◌, ◌↔◌, refl, List, [], ◌∷◌, ◌++◌, map, Text, bytes, true, false, some, arith, length,
  append_assoc,
}
use c2pa_rs_html.Result.{ok}
use c2pa_rs_html.Hashing.Hasher.{
  Hasher, IsStreaming, hash_chunks, verify_by_alg, verify_by_alg_lem, hash_by_alg, concat_and_hash,
}
use c2pa_rs_html.Hashing.Merkle.{
  Node, to_layout, generate_tree, to_layout-generate_tree, get_proof_by_index, from_leaves,
}
use c2pa_rs_html.Hashing.Check.{check_merkle_tree}
use c2pa_rs_html.Hashing.Proof.{check-get_proof}

abbrev sum : List ℕ → ℕ
sum [] = 0
sum (b ∷ bs) = b + sum bs

abbrev toy : Hasher (List ℕ)
toy = record { new = λ alg. some []; update = λ s b. s ++ b; finalize = λ s. sum s ∷ [] }

toy-IsStreaming : IsStreaming toy
toy-IsStreaming s a b = append_assoc s a b

abbrev alg : Text
alg = bytes "sha256"

verify_by_alg_lem_example :
    (verify_by_alg toy alg (11 ∷ []) (5 ∷ 6 ∷ []) ≡ true) ↔ (◌≡◌ {A = List ℕ} (11 ∷ []) (11 ∷ []))
verify_by_alg_lem_example =
    verify_by_alg_lem toy toy-IsStreaming alg [] (11 ∷ []) (5 ∷ 6 ∷ []) refl (omega arith)

abbrev leaves : List Node
leaves = (1 ∷ []) ∷ (2 ∷ []) ∷ (3 ∷ []) ∷ (4 ∷ []) ∷ (5 ∷ []) ∷ []

to_layout-generate_tree_example : to_layout 5 ≡ map length (generate_tree toy alg leaves)
to_layout-generate_tree_example = to_layout-generate_tree toy alg leaves

-- The layers of five leaves.
five_leaves : to_layout 5 ≡ 5 ∷ 3 ∷ 2 ∷ 1 ∷ []
unfolding to_layout
five_leaves = refl

abbrev pairs : List Node
pairs = (3 ∷ []) ∷ (7 ∷ []) ∷ (5 ∷ []) ∷ []

check-get_proof_example :
    (proof : List Node) × (get_proof_by_index (from_leaves toy alg leaves false) 3 4 ≡ ok proof)
    × (check_merkle_tree toy alg record { count = 5; hashes = pairs } (4 ∷ []) 3 (some proof)
        ≡ true)
unfolding generate_tree concat_and_hash hash_by_alg hash_chunks
check-get_proof_example =
    check-get_proof toy alg leaves pairs 1 4 3 (4 ∷ []) refl refl (omega arith)
