-- ===== src/Assets/Png/Scan.antt =====
-- The scan of a PNG file finds its chunks.
use mathlib.Core.Path.{subst}
use c2pa_rs_html.Prelude.{
  ℕ, zero, suc, ◌+◌, ◌≤◌, ◌≡◌, refl, ap, List, [], ◌∷◌, ◌++◌, append_assoc, append-nil, false,
  length, length-append, arith, ltb,
}
use c2pa_rs_html.Result.{ok}
use c2pa_rs_html.Io.{
  be32, from_be32, read_exact, read_exact-At, read_exact-size, At-skip, At, At-next, At-room,
  At-start,
}
use c2pa_rs_html.Assets.Png.{png_id, read_chunk, chunks_from, get_png_chunk_positions}
use c2pa_rs_html.Assets.Png.File.{
  Chunk, chunk_bytes, chunks_bytes, file, IsChunk, IsPng, pos_of, positions, length-chunk_bytes,
}

read_chunk-At :
    (buf : List ℕ) (pos : ℕ) (c : Chunk) (rest : List ℕ)
    → IsChunk c
    → At buf pos (chunk_bytes c ++ rest)
    → read_chunk buf pos ≡ ok (pos_of pos c, pos + length (chunk_bytes c))
unfolding read_chunk
read_chunk-At buf pos c rest h a =
    let n = length c.content in
    let name_on = append_assoc c.name (c.content ++ c.crc) rest in
    let content_on = append_assoc c.content c.crc rest in
    let a₁ : At buf (pos + 4) ((c.name ++ (c.content ++ c.crc)) ++ rest) =
      At-next (be32 n) ((c.name ++ (c.content ++ c.crc)) ++ rest) a in
    let b₁ = subst (At buf (pos + 4)) name_on a₁ in
    let a₂ =
      subst (At buf (pos + 4 + 4)) content_on
        (At-skip 4 c.name ((c.content ++ c.crc) ++ rest) h.name_size b₁) in
    let a₃ = At-next c.content (c.crc ++ rest) a₂ in
    let r₁ : read_exact 4 buf pos ≡ ok (be32 n, pos + 4) =
      read_exact-At (be32 n) ((c.name ++ (c.content ++ c.crc)) ++ rest) a in
    let r₂ = read_exact-size 4 c.name ((c.content ++ c.crc) ++ rest) h.name_size b₁ in
    let r₃ = read_exact-size 4 c.crc rest h.crc_size a₃ in
    let e : from_be32 (be32 n) 0 ≡ n = omega arith in
    rw (r₁, r₂, e, r₃, h.name_text)
      (ap (λ p. ok (pos_of pos c, p)) (omega (arith, length-chunk_bytes c h)))

chunks_from-At :
    (fuel : ℕ) (buf : List ℕ) (pos : ℕ) (cs : List Chunk) (tail : List ℕ)
    → IsPng cs
    → length (chunks_bytes cs) ≤ fuel
    → At buf pos (chunks_bytes cs ++ tail)
    → chunks_from fuel buf pos ≡ ok (positions pos cs)
unfolding chunks_from
chunks_from-At fuel buf pos [] tail h le a = absurd h
chunks_from-At zero buf pos (c ∷ []) tail h le a =
    absurd (omega (arith, length-chunk_bytes c h.0, length-append (chunk_bytes c) []))
chunks_from-At (suc fuel) buf pos (c ∷ []) tail h le a =
    rw
      (
        read_chunk-At buf pos c tail h.0
            (subst (λ l. At buf pos (l ++ tail)) (append-nil (chunk_bytes c)) a),
        h.1,
      )
      refl
chunks_from-At zero buf pos (c ∷ d ∷ cs) tail h le a =
    absurd (
      omega
        (arith, length-chunk_bytes c h.0, length-append (chunk_bytes c) (chunks_bytes (d ∷ cs))))
chunks_from-At (suc fuel) buf pos (c ∷ d ∷ cs) tail h le a =
    let rest = chunks_bytes (d ∷ cs) ++ tail in
    let a' = subst (At buf pos) (append_assoc (chunk_bytes c) (chunks_bytes (d ∷ cs)) tail) a in
    let inside : ltb (length buf) (pos + length (chunk_bytes c)) ≡ false =
      ground (arith, At-room (chunk_bytes c) rest a') in
    rw
      (
        read_chunk-At buf pos c rest h.0 a',
        h.1,
        inside,
        chunks_from-At fuel buf (pos + length (chunk_bytes c)) (d ∷ cs) tail h.2
            (omega (
              arith,
              length-chunk_bytes c h.0,
              length-append (chunk_bytes c) (chunks_bytes (d ∷ cs)),
            ))
            (At-next (chunk_bytes c) rest a'),
      )
      refl

-- The scan of a file gives its chunks with their positions, in order.
pub get_png_chunk_positions-file :
    (cs : List Chunk) (tail : List ℕ)
    → IsPng cs
    → get_png_chunk_positions (file cs tail) ≡ ok (positions 8 cs)
unfolding get_png_chunk_positions
get_png_chunk_positions-file cs tail h =
    let a = At-start (file cs tail) in
    let body = chunks_bytes cs ++ tail in
    let r : read_exact 8 (file cs tail) 0 ≡ ok (png_id, 8) = read_exact-At png_id body a in
    rw r (
      chunks_from-At (length (file cs tail)) (file cs tail) 8 cs tail h
        (omega (arith, length-append (chunks_bytes cs) tail)) (At-next png_id body a))
