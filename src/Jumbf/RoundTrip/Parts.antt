-- ===== src/Jumbf/RoundTrip/Parts.antt =====
-- Headers and the parts of a description box, read back from where they were written.
use Prim.Native.Nat.{bit_and}
use c2pa_rs_html.Prelude.{
  ℕ, ◌+◌, ◌-◌, ◌^◌, ◌<◌, ◌≤◌, ◌≡◌, ◌≢◌, refl, ap, List, [], ◌∷◌, ◌++◌, true, false, Option, none,
  some, arith, ◌==◌, length, All, is_some,
}
use mathlib.Core.Path.{subst}
use c2pa_rs_html.Result.{ok}
use c2pa_rs_html.Io.{
  be32, from_be32, u32, sub64, read_exact, At, At-next, read_exact-At, read_to_vec-At,
  from_be32-be32, sub64-sub,
}
use c2pa_rs_html.Jumbf.Write.{write_box_id, write_opt, write_salt}
use c2pa_rs_html.Jumbf.Header.{box_type, read_header, rewind_unless}
use c2pa_rs_html.Jumbf.ReadDescription.{read_label, read_box_id, read_signature, read_private}

ne_one : (n : ℕ) → 1 < n → (n == 1) ≡ false
ne_one n h = ground arith

module _ {buf : List ℕ} {pos : ℕ} where
  -- A header with a 32-bit size.
  pub read_header-At :
      (n t₀ t₁ t₂ t₃ : ℕ) (rest : List ℕ)
      → n < 2 ^ 32
      → 1 < n
      → At buf pos (be32 n ++ t₀ ∷ t₁ ∷ t₂ ∷ t₃ ∷ rest)
      → read_header buf pos
        ≡ ok (record { name = box_type (from_be32 (t₀ ∷ t₁ ∷ t₂ ∷ t₃ ∷ []) 0); size = n }, pos + 8)
  unfolding read_header
  read_header-At n t₀ t₁ t₂ t₃ rest small big a =
      rw a.here (rw (from_be32-be32 n [] small, ne_one n big))

  pub At-header :
      (n t₀ t₁ t₂ t₃ : ℕ) (rest : List ℕ)
      → At buf pos (be32 n ++ t₀ ∷ t₁ ∷ t₂ ∷ t₃ ∷ rest)
      → At buf (pos + 8) rest
  At-header n t₀ t₁ t₂ t₃ rest = At-next (be32 n ++ t₀ ∷ t₁ ∷ t₂ ∷ t₃ ∷ []) rest

-- A label ends at its NUL.
pub read_label-nul : (l rest : List ℕ) → All (λ b. b ≢ 0) l → read_label (l ++ 0 ∷ rest) ≡ some l
unfolding read_label
read_label-nul [] rest h = refl
read_label-nul (b ∷ l) rest h = rw (read_label-nul l rest h.1) (ground (arith, h.0))

abbrev pub InRange : Option ℕ → Type 0
InRange none = Unit
InRange (some x) = x < 2 ^ 32

abbrev pub HasLength : ℕ → Option (List ℕ) → Type 0
HasLength n none = Unit
HasLength n (some s) = length s ≡ n

-- The optional parts: `n` is the size of the part, and `left` what is left of the box before it.
module _ {buf : List ℕ} {pos : ℕ} (rest : List ℕ) (togs left : ℕ) where
  pub read_box_id-At :
      (x : Option ℕ)
      → InRange x
      → (bit_and togs 4 == 4) ≡ is_some x
      → left < 2 ^ 64
      → length (write_box_id x) ≤ left
      → At buf pos (write_box_id x ++ rest)
      → read_box_id togs buf left pos
        ≡ ok (x, left - length (write_box_id x), pos + length (write_box_id x))
  unfolding read_box_id write_box_id
  read_box_id-At none r t big fit a = rw t (ground arith)
  read_box_id-At (some x) r t big fit a =
      rw (t, read_exact-At (be32 x) rest a, from_be32-be32 x [] r, sub64-sub left 4 fit big)

  pub read_signature-At :
      (x : Option (List ℕ))
      → HasLength 32 x
      → (bit_and togs 8 == 8) ≡ is_some x
      → left < 2 ^ 64
      → length (write_opt (λ s. s) x) ≤ left
      → At buf pos (write_opt (λ s. s) x ++ rest)
      → read_signature togs buf left pos
        ≡ ok (x, left - length (write_opt (λ s. s) x), pos + length (write_opt (λ s. s) x))
  unfolding read_signature write_opt
  read_signature-At none r t big fit a = rw t (ground arith)
  read_signature-At (some x) r t big fit a =
      let exact : read_exact 32 buf pos ≡ ok (x, pos + length x) =
        subst (λ n. read_exact n buf pos ≡ ok (x, pos + length x)) r (read_exact-At x rest a) in
      rw (t, exact, r, sub64-sub left 32 (omega arith) big)

  -- The salt box is the last part: it ends where eight bytes of the count are left.
  pub read_private-At :
      (x : Option (List ℕ))
      → (bit_and togs 16 == 16) ≡ is_some x
      → length buf < 2 ^ 64
      → left ≡ length (write_opt write_salt x) + 8
      → left < 2 ^ 32
      → At buf pos (write_opt write_salt x ++ rest)
      → read_private togs buf left pos ≡ ok (x, 8, pos + length (write_opt write_salt x))
  unfolding read_private write_opt write_salt rewind_unless box_type
  read_private-At none t fits e small a = rw t (ground arith)
  read_private-At (some x) t fits e small a =
      let n : ℕ = 8 + length x in
      let size : u32 (8 + u32 (length x)) ≡ n = omega arith in
      let a' : At buf pos (be32 n ++ 0x63 ∷ 0x32 ∷ 0x73 ∷ 0x68 ∷ (x ++ rest)) =
        subst (λ k. At buf pos (be32 k ++ 0x63 ∷ 0x32 ∷ 0x73 ∷ 0x68 ∷ (x ++ rest))) size a in
      let left_is : left ≡ length x + 16 = omega arith in
      let nonzero : (n == 0) ≡ false = ground arith in
      let same : (n == sub64 left 8) ≡ true = ground arith in
      let rest_size : sub64 n 8 ≡ length x = omega arith in
      let done : sub64 left n ≡ 8 = omega arith in
      let body = At-header n 0x63 0x32 0x73 0x68 (x ++ rest) a' in
      rw
        (
          t,
          read_header-At n 0x63 0x32 0x73 0x68 (x ++ rest) (omega arith) (omega arith) a',
          nonzero,
          same,
          rest_size,
          read_to_vec-At x rest fits body,
          done,
        )
        (ap (λ p. ok (some x, 8, p)) (omega arith))
