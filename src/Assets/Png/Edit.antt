-- ===== src/Assets/Png/Edit.antt =====
-- Edits of a PNG file by bytes are edits of its chunks.
use mathlib.Core.Path.{subst}
use c2pa_rs_html.Prelude.{
  ℕ, ◌+◌, ◌≡◌, refl, sym, ap, ◌∙◌, List, [], ◌∷◌, ◌++◌, append_assoc, false, ◌||◌, length,
  length-append, take-append_self, drop-append_self, drop-drop, arith, ltb, find,
}
use c2pa_rs_html.Result.{ok}
use c2pa_rs_html.Assets.Positions.{splice}
use c2pa_rs_html.Assets.Png.{PngChunkPos, png_id, png_end, chunk_end, is_named, erase}
use c2pa_rs_html.Assets.Png.File.{
  Chunk, chunk_bytes, chunks_bytes, file, IsChunk, IsPng, has_name, pos_of, positions,
  length-chunk_bytes, remove_first, Split, without, at, Split-at, find-without, find-at,
  remove_first-without, remove_first-at, chunks_bytes-append,
}

-- A part between two others is replaced.
pub splice-append :
    (xs old ys new : List ℕ)
    → splice (xs ++ (old ++ ys)) (length xs) (length xs + length old) new ≡ ok (xs ++ (new ++ ys))
unfolding splice
splice-append xs old ys new =
    let size = length-append xs (old ++ ys) in
    let size' = length-append old ys in
    let ordered : (ltb (length xs + length old) (length xs)
          || ltb (length (xs ++ (old ++ ys))) (length xs + length old))
        ≡ false =
      ground arith in
    rw
      (
        ordered,
        take-append_self xs (old ++ ys),
        drop-drop (length old) (length xs) (xs ++ (old ++ ys)),
        drop-append_self xs (old ++ ys),
        drop-append_self old ys,
      )
      refl

-- The bytes of a file, cut at a chunk.
pub file_split :
    (before : List Chunk) (c : Chunk) (after : List Chunk) (tail : List ℕ)
    → file (before ++ c ∷ after) tail
      ≡ (png_id ++ chunks_bytes before) ++ (chunk_bytes c ++ (chunks_bytes after ++ tail))
file_split before c after tail =
    ap (λ l. png_id ++ l)
      (ap (λ l. l ++ tail) (chunks_bytes-append before (c ∷ after))
        ∙ append_assoc (chunks_bytes before) (chunk_bytes c ++ chunks_bytes after) tail
        ∙ ap (λ l. chunks_bytes before ++ l)
            (append_assoc (chunk_bytes c) (chunks_bytes after) tail))

pub IsPng-IsChunk :
    (before : List Chunk) (c : Chunk) (after : List Chunk) → IsPng (before ++ c ∷ after) → IsChunk c
IsPng-IsChunk [] c [] h = h.0
IsPng-IsChunk [] c (d ∷ after) h = h.0
IsPng-IsChunk (b ∷ []) c after h = IsPng-IsChunk [] c after h.2
IsPng-IsChunk (b ∷ b' ∷ before) c after h = IsPng-IsChunk (b' ∷ before) c after h.2

-- Without a chunk that is not the last.
pub IsPng-remove :
    (before : List Chunk) (c : Chunk) (after : List Chunk)
    → has_name png_end c ≡ false
    → IsPng (before ++ c ∷ after)
    → IsPng (before ++ after)
IsPng-remove [] c [] e h = (let clash = sym h.1 ∙ e in cc)
IsPng-remove [] c (d ∷ after) e h = h.2
IsPng-remove (b ∷ []) c [] e h = (let clash = sym h.2.1 ∙ e in cc)
IsPng-remove (b ∷ []) c (d ∷ after) e h = (h.0, h.1, h.2.2)
IsPng-remove (b ∷ b' ∷ before) c after e h = (h.0, h.1, IsPng-remove (b' ∷ before) c after e h.2)

-- With a chunk more behind one that is not the last.
pub IsPng-insert :
    (new : Chunk) (before : List Chunk) (c : Chunk) (after : List Chunk)
    → IsChunk new
    → has_name png_end new ≡ false
    → has_name png_end c ≡ false
    → IsPng (before ++ c ∷ after)
    → IsPng (before ++ c ∷ new ∷ after)
IsPng-insert new [] c [] n ne e h = (let clash = sym h.1 ∙ e in cc)
IsPng-insert new [] c (d ∷ after) n ne e h = (h.0, e, (n, ne, h.2))
IsPng-insert new (b ∷ []) c after n ne e h = (h.0, h.1, IsPng-insert new [] c after n ne e h.2)
IsPng-insert new (b ∷ b' ∷ before) c after n ne e h =
    (h.0, h.1, IsPng-insert new (b' ∷ before) c after n ne e h.2)

module _ (before : List Chunk) (c : Chunk) (after : List Chunk) (tail : List ℕ)
    (h : IsChunk c) where
  abbrev front : List ℕ
  front = png_id ++ chunks_bytes before

  abbrev pub place : PngChunkPos
  place = pos_of (8 + length (chunks_bytes before)) c

  place_end : chunk_end place ≡ length front + length (chunk_bytes c)
  place_end = omega (arith, length-chunk_bytes c h)

  place_start : place.start ≡ length front
  place_start = omega arith

  pub splice-place :
      splice (file (before ++ c ∷ after) tail) place.start (chunk_end place) []
      ≡ ok (file (before ++ after) tail)
  splice-place =
      rw (file_split before c after tail, place_end, place_start)
        (splice-append front (chunk_bytes c) (chunks_bytes after ++ tail) []
          ∙ ap ok (
              sym (
                ap (λ l. png_id ++ l)
                  (ap (λ l. l ++ tail) (chunks_bytes-append before after)
                    ∙ append_assoc (chunks_bytes before) (chunks_bytes after) tail))))

  pub splice-behind :
      (new : Chunk)
      → splice
          (file (before ++ c ∷ after) tail)
          (chunk_end place)
          (chunk_end place)
          (chunk_bytes new)
        ≡ ok (file (before ++ c ∷ new ∷ after) tail)
  splice-behind new =
      let rest = chunks_bytes after ++ tail in
      let cut = file_split before c after tail ∙ sym (append_assoc front (chunk_bytes c) rest) in
      let size = place_end ∙ sym (length-append front (chunk_bytes c)) in
      let none_old : length (front ++ chunk_bytes c) ≡ length (front ++ chunk_bytes c) + 0 =
        omega arith in
      rw (cut, size)
        (ap
            (λ k.
              splice ((front ++ chunk_bytes c) ++ rest) (length (front ++ chunk_bytes c)) k
                (chunk_bytes new))
            none_old
          ∙ splice-append (front ++ chunk_bytes c) [] rest (chunk_bytes new)
          ∙ ap ok (
              append_assoc front (chunk_bytes c) (chunk_bytes new ++ rest)
              ∙ ap (λ l. front ++ (chunk_bytes c ++ l))
                  (sym (append_assoc (chunk_bytes new) (chunks_bytes after) tail))
              ∙ sym (file_split before c (new ∷ after) tail)))

-- Erasing the first chunk of a name, as the handler finds it.
pub erase-file :
    (n : List ℕ) (cs : List Chunk) (tail : List ℕ)
    → IsPng cs
    → erase (file cs tail) (find (is_named n) (positions 8 cs)) ≡ ok (file (remove_first n cs) tail)
erase-file n cs tail h = by_split (Split-at n cs)
  where
    by_split :
        Split n cs
        → erase (file cs tail) (find (is_named n) (positions 8 cs))
          ≡ ok (file (remove_first n cs) tail)
    by_split (without e) = rw (find-without n 8 cs e, remove_first-without n cs e) refl
    by_split (at before c after p e k) =
        rw (p, find-at n 8 before c after e k, remove_first-at n before c after e k)
          (splice-place before c after tail (IsPng-IsChunk before c after (subst IsPng p h)))
