-- ===== src/Hashing/Hasher.antt =====
-- The hashing of a whole buffer, sdk/src/utils/hash_utils.rs with no ranges. The SHA-2 functions are
-- third-party code: a hasher is a parameter. The thread that updates it while the next chunk is read
-- is joined before the next update, so the updates are in order.
use c2pa_rs_html.Prelude.{
  ℕ, zero, suc, ◌≤◌, ◌<◌, ◌≡◌, refl, ap, ◌∙◌, List, [], ◌∷◌, ◌++◌, Text, Bool, true, false, Option,
  none, some, arith, length, take, drop, is_empty, bytes_eq, bytes_eq_self, bytes_eq→eq,
  if◌then◌else◌, length-drop, take-append-drop, ◌↔◌, Bool-cases, inl, inr,
}

-- `new` is `None` for an algorithm that is not supported.
pub record Hasher (S : Type 0) : Type 0 where
  pub new : Text → Option S
  pub update : S → List ℕ → S
  pub finalize : S → List ℕ

-- Hashing in parts is hashing their concatenation, as the documentation of `digest::Update` says.
abbrev pub IsStreaming : {S : Type 0} → Hasher S → Type 0
IsStreaming {S} h = (s : S) (a b : List ℕ) → h.update (h.update s a) b ≡ h.update s (a ++ b)

abbrev pub max_hash_buf : ℕ
max_hash_buf = 268435456

module _ {S : Type 0} (h : Hasher S) where
  -- The loop over the chunks of one range; the fuel is what is left of the range, at most.
  unfoldable pub hash_chunks : ℕ → S → List ℕ → S
  hash_chunks zero s input = s
  hash_chunks (suc fuel) s input =
      let chunk = take max_hash_buf input in
      let left = drop max_hash_buf input in
      let after = h.update s chunk in
      let rest = hash_chunks fuel after left in if is_empty left then after else rest

  abbrev hash_data : Option S → List ℕ → List ℕ
  hash_data none input = []
  hash_data (some s) [] = []
  hash_data (some s) (b ∷ input) = h.finalize (hash_chunks (length (b ∷ input)) s (b ∷ input))

  -- An error of `hash_stream_by_alg` (an unsupported algorithm, no data) gives the empty hash.
  unfoldable pub hash_by_alg : Text → List ℕ → List ℕ
  hash_by_alg alg input = hash_data (h.new alg) input

  unfoldable pub verify_by_alg : Text → List ℕ → List ℕ → Bool
  verify_by_alg alg hash input = bytes_eq hash (hash_by_alg alg input)

  unfoldable pub concat_and_hash : Text → List ℕ → Option (List ℕ) → List ℕ
  concat_and_hash alg left none = hash_by_alg alg left
  concat_and_hash alg left (some right) = hash_by_alg alg (left ++ right)

  empty_drop : (n : ℕ) (xs : List ℕ) → is_empty (drop n xs) ≡ true → take n xs ≡ xs
  empty_drop zero [] e = refl
  empty_drop zero (x ∷ xs) e = cc
  empty_drop (suc n) [] e = refl
  empty_drop (suc n) (x ∷ xs) e = ap (λ l. x ∷ l) (empty_drop n xs e)

  shorter :
      (input : List ℕ) (n : ℕ)
      → is_empty (drop max_hash_buf input) ≡ false
      → length input ≤ suc n
      → length (drop max_hash_buf input) ≤ n
  shorter input n e le = omega (arith, length-drop max_hash_buf input)

  -- However the data splits into chunks, the hasher ends as if it had got all at once; the fuel is
  -- enough when it is at least the length.
  pub hash_chunks_lem :
      IsStreaming h
      → (fuel : ℕ) (s : S) (input : List ℕ) → 0 < length input
      → length input ≤ fuel
      → hash_chunks fuel s input ≡ h.update s input
  unfolding hash_chunks
  hash_chunks_lem streams zero s input lt le = absurd (omega arith)
  hash_chunks_lem streams (suc fuel) s input lt le =
      elim (Bool-cases (is_empty (drop max_hash_buf input))) [
        | inl e ↦ rw e (ap (h.update s) (empty_drop max_hash_buf input e))
        | inr e ↦ rw e (
            hash_chunks_lem streams fuel (h.update s (take max_hash_buf input))
              (drop max_hash_buf input) (not_empty (drop max_hash_buf input) e)
              (shorter input fuel e le)
            ∙ streams s (take max_hash_buf input) (drop max_hash_buf input)
            ∙ ap (h.update s) (take-append-drop max_hash_buf input))
      ]
    where
      not_empty : (xs : List ℕ) → is_empty xs ≡ false → 0 < length xs
      not_empty [] n = cc
      not_empty (x ∷ xs) n = omega arith

  hash_by_alg_lem :
      IsStreaming h
      → (alg : Text) (s : S) (input : List ℕ) → h.new alg ≡ some s
      → 0 < length input
      → hash_by_alg alg input ≡ h.finalize (h.update s input)
  unfolding hash_by_alg
  hash_by_alg_lem streams alg s [] e lt = absurd (omega arith)
  hash_by_alg_lem streams alg s (b ∷ input) e lt =
      ap (λ o. hash_data o (b ∷ input)) e
      ∙ ap h.finalize (hash_chunks_lem streams (length (b ∷ input)) s (b ∷ input) lt (omega arith))

  -- With a hasher that hashes parts as their concatenation, and a supported algorithm, the hash of data that is not
  -- empty is the hasher's of the whole data, and `verify_by_alg` accepts exactly that hash.
  pub verify_by_alg_lem :
      IsStreaming h
      → (alg : Text) (s : S) (hash input : List ℕ) → h.new alg ≡ some s
      → 0 < length input
      → (verify_by_alg alg hash input ≡ true) ↔ (hash ≡ h.finalize (h.update s input))
  unfolding verify_by_alg
  verify_by_alg_lem streams alg s hash input e lt = rw (hash_by_alg_lem streams alg s input e lt) (
    (λ v. bytes_eq→eq hash (h.finalize (h.update s input)) v),
    (λ v. rw v (bytes_eq_self (h.finalize (h.update s input)))),
  )
