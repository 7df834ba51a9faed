-- ===== src/Hashing/Proof.antt =====
-- A proof that the tree gives for a leaf passes the check, whichever layer the map keeps.
use c2pa_rs_html.Prelude.{
  ℕ, zero, suc, ◌-◌, ◌/◌, ◌%◌, ◌≤◌, ◌<◌, ◌≡◌, refl, sym, ap, ◌∙◌, List, [], ◌∷◌, map, Text, Bool,
  true, false, ◌||◌, Option, none, some, arith, length, get_elem?, is_empty, ltb, leb, ◌==◌,
  Bool-cases, is_some, inl, inr, bytes_eq_self, ◌≢◌, ==_self, lt→ltb, ltb→lt, lt→leb_false,
}
use c2pa_rs_html.Result.{ok}
use mathlib.Core.Path.{subst}
use c2pa_rs_html.Hashing.Hasher.{Hasher}
use c2pa_rs_html.Hashing.Merkle.{
  Node, sibling, push_some, proof_from, parent_layer, layers_from, generate_tree,
  get_proof_by_index, from_leaves, parent_count_bound, length-parent_layer, to_layout-generate_tree,
}
use c2pa_rs_html.Hashing.Check.{
  hash_check, has_pair, pair_hash, play_layer, playback, check_merkle_tree,
}

is_some-get_elem? : (layer : List Node) (i : ℕ) → is_some (get_elem? layer i) ≡ ltb i (length layer)
is_some-get_elem? [] i = ground arith
is_some-get_elem? (x ∷ layer) zero = ground arith
is_some-get_elem? (x ∷ layer) (suc i) = is_some-get_elem? layer i ∙ (ground arith)

has_pair-sibling :
    (layer : List Node) (i : ℕ) → has_pair (length layer) i ≡ is_some (sibling layer i)
has_pair-sibling layer i = elim (Bool-cases (i % 2 == 1)) [
  | inl e ↦ rw e (sym (is_some-get_elem? layer (i - 1)))
  | inr e ↦ rw e (sym (is_some-get_elem? layer (suc i)))
]

some_injective : (a b : List Node) → ◌≡◌ {A = Option (List Node)} (some a) (some b) → a ≡ b
some_injective a b e = cc

half_shift : (i : ℕ) → (suc (suc i) / 2 ≡ suc (i / 2)) × (suc (suc i) % 2 ≡ i % 2)
half_shift i = (omega arith, omega arith)

sibling_shift :
    (l r : Node) (rest : List Node) (i : ℕ) → sibling (l ∷ r ∷ rest) (suc (suc i)) ≡ sibling rest i
sibling_shift l r rest zero = refl
sibling_shift l r rest (suc j) = rw ((half_shift (suc j)).1, minus (suc (suc j)), minus j) refl
  where
    minus : (n : ℕ) → suc n - 1 ≡ n
    minus n = omega arith

module _ {S : Type 0} (h : Hasher S) (alg : Text) where
  abbrev parent_of : ℕ → Node → Option Node → Node
  parent_of i x none = x
  parent_of i x (some s) = pair_hash h alg i x s

  -- The parent of a node stands at half its index.
  parent_layer-get_elem? :
      (layer : List Node) (i : ℕ) (x : Node)
      → get_elem? layer i ≡ some x
      → get_elem? (parent_layer h alg layer) (i / 2) ≡ some (parent_of i x (sibling layer i))
  parent_layer-get_elem? [] i x e = cc
  parent_layer-get_elem? (l ∷ []) zero x e = e
  parent_layer-get_elem? (l ∷ []) (suc i) x e = cc
  parent_layer-get_elem? (l ∷ r ∷ rest) zero x e = cc
  parent_layer-get_elem? (l ∷ r ∷ rest) (suc zero) x e = cc
  parent_layer-get_elem? (l ∷ r ∷ rest) (suc (suc i)) x e =
      rw ((half_shift i).0, sibling_shift l r rest i)
        (parent_layer-get_elem? rest i x e ∙ ap some (parent_shift i x (sibling rest i)))
    where
      parent_shift :
          (i : ℕ) (x : Node) (o : Option Node) → parent_of i x o ≡ parent_of (suc (suc i)) x o
      parent_shift i x none = refl
      parent_shift i x (some s) = rw ((half_shift i).1)

  playback_stop :
      (sizes : List ℕ) (n i : ℕ) (x : Node) (proof : List Node)
      → playback h alg (n ∷ sizes) n i x proof ≡ some (i, x)
  playback_stop sizes n i x proof = rw (==_self n) refl

  step_by :
      (sizes : List ℕ) (row i : ℕ) (x : Node) (proof : List Node) (o : Option Node) (b : Bool)
      → b ≡ is_some o
      → (elim (play_layer h alg b i x (push_some o proof)) [
        | none ↦ none
        | some (parent, rest) ↦ playback h alg sizes row (i / 2) parent rest
      ])
        ≡ playback h alg sizes row (i / 2) (parent_of i x o) proof
  step_by sizes row i x proof none b e = rw e refl
  step_by sizes row i x proof (some s) b e = rw e refl

  playback_step :
      (layer : List Node) (sizes : List ℕ) (row i : ℕ) (x : Node) (proof : List Node)
      → length layer ≢ row
      → playback h alg (length layer ∷ sizes) row i x (push_some (sibling layer i) proof)
        ≡ playback h alg sizes row (i / 2) (parent_of i x (sibling layer i)) proof
  playback_step layer sizes row i x proof ne = rw (differ (length layer) row ne) (
      step_by sizes row i x proof (sibling layer i) (has_pair (length layer) i)
        (has_pair-sibling layer i))
    where
      differ : (m n : ℕ) → m ≢ n → (m == n) ≡ false
      differ m n ne = ground arith

  -- `target` is the layer `k` steps above `layer`.
  pub data Above : List Node → List Node → ℕ → Type 0 where
    same : {layer : List Node} → Above layer layer 0
    up :
        {layer target : List Node} {k : ℕ}
        → 1 < length layer
        → Above (parent_layer h alg layer) target k
        → Above layer target (suc k)

  Above-shorter :
      (layer target : List Node) (k : ℕ) → Above layer target k → length target ≤ length layer
  Above-shorter layer _ _ same = omega arith
  Above-shorter layer target _ (up {k = k} lt above) = omega (
    arith,
    Above-shorter (parent_layer h alg layer) target k above,
    length-parent_layer h alg layer,
    parent_count_bound (length layer),
  )

  -- The ancestor that the playback arrives at.
  abbrev Arrives : Option (ℕ × Node) → List Node → Type 0
  Arrives o target = (j : ℕ) × (y : Node) × (o ≡ some (j, y)) × (get_elem? target j ≡ some y)

  playback-proof_from :
      (layer target : List Node) (k : ℕ)
      → Above layer target k
      → (fuel max i : ℕ) (x : Node) → length layer ≤ fuel
      → k ≤ max
      → get_elem? layer i ≡ some x
      → Arrives
          (playback h alg
            (map length (layers_from h alg fuel layer))
            (length target)
            i
            x
            (proof_from (layers_from h alg fuel layer) i max))
          target
  playback-proof_from layer _ _ same zero max i x le km e =
      (i, x, playback_stop [] (length layer) i x (proof_from (layer ∷ []) i max), e)
  playback-proof_from layer _ _ same (suc fuel) max i x le km e =
      elim (Bool-cases (ltb 1 (length layer))) [
        | inl many ↦ rw many (
          i,
          x,
          playback_stop (map length (layers_from h alg fuel (parent_layer h alg layer)))
              (length layer) i x
              (proof_from (layer ∷ layers_from h alg fuel (parent_layer h alg layer)) i max),
          e,
        )
        | inr one ↦
            rw one (i, x, playback_stop [] (length layer) i x (proof_from (layer ∷ []) i max), e)
      ]
  playback-proof_from layer target _ (up {k = k} lt above) zero max i x le km e =
      absurd (omega arith)
  playback-proof_from layer target _ (up {k = k} lt above) (suc fuel) zero i x le km e =
      absurd (omega arith)
  playback-proof_from layer target _ (up {k = k} lt above) (suc fuel) (suc max) i x le km e =
      let fewer = length-parent_layer h alg layer in
      let bound = parent_count_bound (length layer) in
      let smaller = Above-shorter (parent_layer h alg layer) target k above in
      let (j, y, p, q) =
        playback-proof_from (parent_layer h alg layer) target k above fuel max (i / 2)
          (parent_of i x (sibling layer i)) (omega arith) (omega arith)
          (parent_layer-get_elem? layer i x e) in
      rw (lt→ltb 1 (length layer) lt) (
        j,
        y,
        playback_step layer (map length (layers_from h alg fuel (parent_layer h alg layer)))
              (length target) i x
              (proof_from (layers_from h alg fuel (parent_layer h alg layer)) (i / 2) max)
              (omega arith)
            ∙ p,
        q,
      )

  is_Above :
      (fuel k : ℕ) (layer target : List Node)
      → get_elem? (layers_from h alg fuel layer) k ≡ some target
      → Above layer target k
  is_Above zero zero layer target e =
      subst (λ t. Above layer t 0) (some_injective layer target e) same
  is_Above zero (suc k) layer target e = cc
  is_Above (suc fuel) k layer target e = elim (Bool-cases (ltb 1 (length layer))) [
    | inl many ↦ further k (is_Above fuel) (rw many at e) (ltb→lt 1 (length layer) many)
    | inr one ↦ alone k (rw one at e)
  ]
    where
      alone : (k : ℕ) → get_elem? (layer ∷ []) k ≡ some target → Above layer target k
      alone zero d = subst (λ t. Above layer t 0) (some_injective layer target d) same
      alone (suc k) d = cc

      further :
          (k : ℕ)
          → ((k : ℕ) (layer target : List Node)
              → get_elem? (layers_from h alg fuel layer) k ≡ some target
              → Above layer target k)
          → get_elem? (layer ∷ layers_from h alg fuel (parent_layer h alg layer)) k ≡ some target
          → 1 < length layer
          → Above layer target k
      further zero ih d lt = subst (λ t. Above layer t 0) (some_injective layer target d) same
      further (suc k) ih d lt = up lt (ih k (parent_layer h alg layer) target d)

  -- The proof that the tree gives for a leaf passes the check against a map that keeps any layer of
  -- the tree: for a tree made of hashed leaves, a leaf that is there, the layer `k`, and a bound on the
  -- proof's length of at least `k`, `get_proof_by_index` succeeds and `check_merkle_tree` accepts.
  pub check-get_proof :
      (leaves target : List Node) (k max i : ℕ) (x : Node)
      → get_elem? leaves i ≡ some x
      → get_elem? (generate_tree h alg leaves) k ≡ some target
      → k ≤ max
      → (proof : List Node) × (get_proof_by_index (from_leaves h alg leaves false) i max ≡ ok proof)
        × (check_merkle_tree h alg
              record { count = length leaves; hashes = target }
              x
              i
              (some proof)
            ≡ true)
  unfolding generate_tree from_leaves get_proof_by_index check_merkle_tree hash_check
  check-get_proof leaves target k max i x e t le =
      let within = sym (is_some-get_elem? leaves i) ∙ ap is_some e in
      let (j, y, p, q) =
        playback-proof_from leaves target k (is_Above (length leaves) k leaves target t)
          (length leaves) max i x (omega arith) le e in
      (
        proof_from (layers_from h alg (length leaves) leaves) i max,
        rw (inside leaves i x e) refl,
        rw
            (
              lt→leb_false (length leaves) i (ltb→lt i (length leaves) within),
              to_layout-generate_tree h alg leaves,
              p,
              q,
            )
            (bytes_eq_self y),
      )
    where
      inside :
          (leaves : List Node) (i : ℕ) (x : Node)
          → get_elem? leaves i ≡ some x
          → (is_empty leaves || leb (length leaves) i) ≡ false
      inside [] i x e = cc
      inside (l ∷ ls) i x e =
          lt→leb_false (length (l ∷ ls)) i
            (ltb→lt i (length (l ∷ ls)) (sym (is_some-get_elem? (l ∷ ls) i) ∙ ap is_some e))
