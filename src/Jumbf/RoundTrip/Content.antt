-- ===== src/Jumbf/RoundTrip/Content.antt =====
-- The boxes that hold no other box read back.
use c2pa_rs_html.Prelude.{ℕ, ◌+◌, ◌^◌, ◌<◌, ◌≡◌, ap, List, ◌∷◌, ◌++◌, true, arith, ==_self, length}
use c2pa_rs_html.Result.{ok}
use c2pa_rs_html.Io.{be32, sub64, At, read_to_vec-At}
use c2pa_rs_html.Jumbf.Header.{rewind_unless}
use c2pa_rs_html.Jumbf.ReadContent.{content_start, read_content}
use c2pa_rs_html.Jumbf.RoundTrip.Parts.{read_header-At, At-header}

module _ {buf : List ℕ} {pos : ℕ} where
  -- A content box reader behind a header of the size it expects.
  pub content_start-At :
      (n t₀ t₁ t₂ t₃ : ℕ) (rest : List ℕ)
      → n < 2 ^ 32
      → 1 < n
      → At buf pos (be32 n ++ t₀ ∷ t₁ ∷ t₂ ∷ t₃ ∷ rest)
      → content_start buf n pos ≡ ok (true, pos + 8)
  unfolding content_start rewind_unless
  content_start-At n t₀ t₁ t₂ t₃ rest small big a =
      rw (read_header-At n t₀ t₁ t₂ t₃ rest small big a, ==_self n) (ground arith)

  pub read_content-At :
      (x rest : List ℕ) (t₀ t₁ t₂ t₃ : ℕ)
      → length buf < 2 ^ 64
      → 8 + length x < 2 ^ 32
      → At buf pos (be32 (8 + length x) ++ t₀ ∷ t₁ ∷ t₂ ∷ t₃ ∷ (x ++ rest))
      → read_content buf (8 + length x) pos ≡ ok (x, pos + (8 + length x))
  unfolding read_content
  read_content-At x rest t₀ t₁ t₂ t₃ fits small a =
      let body = At-header (8 + length x) t₀ t₁ t₂ t₃ (x ++ rest) a in
      let size : sub64 (8 + length x) 8 ≡ length x = omega arith in
      rw
        (
          content_start-At (8 + length x) t₀ t₁ t₂ t₃ (x ++ rest) small (omega arith) a,
          size,
          read_to_vec-At x rest fits body,
        )
        (ap (λ p. ok (x, p)) (omega arith))
