-- ===== src/Assets/Png/ReadBack.antt =====
-- Reading the manifest store of a PNG file, `get_cai_data`, and reading back what was written.
use mathlib.Core.Path.{subst}
use c2pa_rs_html.Prelude.{
  ℕ, suc, ◌+◌, ◌^◌, ◌≤◌, ◌<◌, ◌≡◌, refl, sym, ap, ◌∙◌, List, [], ◌∷◌, ◌++◌, append_assoc, Bool,
  true, false, not, ◌||◌, some, length, length-append, any, any-append, keep, find, arith, ltb,
  Bool-cases, inl, inr,
}
use c2pa_rs_html.Result.{Result, ok, err, ◌>>=◌, ok_or, guard, ◌>>◌}
use c2pa_rs_html.Error.{Error, jumbf_not_found, too_many_manifest_stores}
use c2pa_rs_html.Io.{be32, read_to_vec, read_to_vec-At, At, At-next, At-skip, At-start}
use c2pa_rs_html.Assets.Png.{
  PngChunkPos, png_id, png_end, cai_chunk, img_hdr, is_named, Encoder, get_cai_data, write_cai,
  remove_cai_store,
}
use c2pa_rs_html.Assets.Png.File.{
  Chunk, chunk_bytes, chunks_bytes, file, IsChunk, IsPng, has_name, positions, length-chunk_bytes,
  IsEncoder, remove_first, insert_behind, Split, without, at, Split-at, find-without, find-at,
  remove_first-at, insert_behind-at, chunks_bytes-append,
}
use c2pa_rs_html.Assets.Png.Scan.{get_png_chunk_positions-file}
use c2pa_rs_html.Assets.Png.Edit.{file_split, IsPng-insert, IsPng-IsChunk}
use c2pa_rs_html.Assets.Png.Laws.{
  other_name, IsPng-remove_first, cai_of, as_written, remove_cai_store-file, write_cai-file,
}

module _ (n : List ℕ) where
  length-keep-positions :
      (p : ℕ) (cs : List Chunk)
      → length (keep (is_named n) (positions p cs)) ≡ length (keep (has_name n) cs)
  length-keep-positions p [] = refl
  length-keep-positions p (c ∷ cs) = elim (Bool-cases (has_name n c)) [
    | inl e ↦ rw e (ap suc (length-keep-positions (p + length (chunk_bytes c)) cs))
    | inr e ↦ rw e (length-keep-positions (p + length (chunk_bytes c)) cs)
  ]

  keep-without : (cs : List Chunk) → any (has_name n) cs ≡ false → keep (has_name n) cs ≡ []
  keep-without [] h = refl
  keep-without (c ∷ cs) h = elim (Bool-cases (has_name n c)) [
    | inl e ↦ (let clash = rw e at h in cc)
    | inr e ↦ rw e (keep-without cs (rw e at h))
  ]

  keep-at :
      (before : List Chunk) (c : Chunk) (after : List Chunk)
      → any (has_name n) before ≡ false
      → has_name n c ≡ true
      → keep (has_name n) (before ++ c ∷ after) ≡ c ∷ keep (has_name n) after
  keep-at [] c after h k = rw k
  keep-at (d ∷ before) c after h k = elim (Bool-cases (has_name n d)) [
    | inl e ↦ (let clash = rw e at h in cc)
    | inr e ↦ rw e (keep-at before c after (rw e at h) k)
  ]

-- The content of a chunk stands eight bytes behind its start.
read_content :
    (before : List Chunk) (c : Chunk) (after : List Chunk) (tail : List ℕ)
    → IsChunk c
    → length (file (before ++ c ∷ after) tail) < 2 ^ 64
    → (read_to_vec
          (length c.content)
          (file (before ++ c ∷ after) tail)
          (8 + length (chunks_bytes before) + 8)
        >>= λ (store, p). ok store)
      ≡ ok c.content
read_content before c after tail h fits =
    let buf = file (before ++ c ∷ after) tail in
    let rest = chunks_bytes after ++ tail in
    let front = png_id ++ chunks_bytes before in
    let split = file_split before c after tail in
    let a = subst (λ l. At buf 0 l) split (At-start buf) in
    let from_start : 0 + length front ≡ length front = omega arith in
    let a₁ =
      subst (λ k. At buf k (chunk_bytes c ++ rest)) from_start
        (At-next front (chunk_bytes c ++ rest) a) in
    let a₂ : At buf (length front + 4) ((c.name ++ (c.content ++ c.crc)) ++ rest) =
      At-next (be32 (length c.content)) ((c.name ++ (c.content ++ c.crc)) ++ rest) a₁ in
    let a₃ =
      At-skip 4 c.name ((c.content ++ c.crc) ++ rest) h.name_size
        (subst (At buf (length front + 4)) (append_assoc c.name (c.content ++ c.crc) rest) a₂) in
    let a₄ = subst (At buf (length front + 4 + 4)) (append_assoc c.content c.crc rest) a₃ in
    let place : length front + 4 + 4 ≡ 8 + length (chunks_bytes before) + 8 = omega arith in
    rw
      (read_to_vec-At c.content (c.crc ++ rest) fits
        (subst (λ k. At buf k (c.content ++ (c.crc ++ rest))) place a₄))
      refl

-- The content of the only manifest chunk.
abbrev pub sole_content : List Chunk → Result Error (List ℕ)
sole_content [] = err jumbf_not_found
sole_content (c ∷ []) = ok c.content
sole_content (c ∷ d ∷ cs) = err too_many_manifest_stores

-- What `get_cai_data` makes of the positions, of which `count` are of manifests.
abbrev chosen : List ℕ → List PngChunkPos → ℕ → Result Error (List ℕ)
chosen buf ps count =
    guard (not (ltb 1 count)) too_many_manifest_stores
    >> ok_or (find (is_named cai_chunk) ps) jumbf_not_found
    >>= λ pcp. read_to_vec pcp.size buf (pcp.start + 8) >>= λ (store, p). ok store

-- `get_cai_data` gives the content of the manifest chunk of a file that has exactly one, fails with JumbfNotFound
-- if it has none and with TooManyManifestStores if it has more; for a file shorter than 2^64 bytes.
pub get_cai_data-file :
    (cs : List Chunk) (tail : List ℕ)
    → IsPng cs
    → length (file cs tail) < 2 ^ 64
    → get_cai_data (file cs tail) ≡ sole_content (keep (has_name cai_chunk) cs)
unfolding get_cai_data
get_cai_data-file cs tail h fits =
    rw (get_png_chunk_positions-file cs tail h, length-keep-positions cai_chunk 8 cs)
      (by_split (Split-at cai_chunk cs))
  where
    by_split :
        Split cai_chunk cs
        → chosen (file cs tail) (positions 8 cs) (length (keep (has_name cai_chunk) cs))
          ≡ sole_content (keep (has_name cai_chunk) cs)
    by_split (without e) = rw (keep-without cai_chunk cs e, find-without cai_chunk 8 cs e) refl
    by_split (at before c after p e k) =
        rw (p, keep-at cai_chunk before c after e k, find-at cai_chunk 8 before c after e k)
          (among
            (λ pcp.
              read_to_vec pcp.size (file (before ++ c ∷ after) tail) (pcp.start + 8)
              >>= λ (store, p). ok store)
            (keep (has_name cai_chunk) after)
            (read_content before c after tail (IsPng-IsChunk before c after (subst IsPng p h))
              (subst (λ l. length (file l tail) < 2 ^ 64) p fits)))
      where
        among :
            {q : PngChunkPos} (read : PngChunkPos → Result Error (List ℕ)) (more : List Chunk)
            → read q ≡ ok c.content
            → (guard (not (ltb 1 (suc (length more)))) too_many_manifest_stores
                >> ok_or (some q) jumbf_not_found
                >>= read)
              ≡ sole_content (c ∷ more)
        among read [] e = e
        among read (d ∷ more) e =
            (let two : ltb 1 (suc (suc (length more))) ≡ true = ground arith in rw two refl)

length-remove_first :
    (n : List ℕ) (cs : List Chunk)
    → length (chunks_bytes (remove_first n cs)) ≤ length (chunks_bytes cs)
length-remove_first n [] = omega arith
length-remove_first n (c ∷ cs) = elim (Bool-cases (has_name n c)) [
  | inl e ↦ rw e (omega (arith, length-append (chunk_bytes c) (chunks_bytes cs)))
  | inr e ↦ rw e (
      omega (
        arith,
        length-append (chunk_bytes c) (chunks_bytes cs),
        length-append (chunk_bytes c) (chunks_bytes (remove_first n cs)),
        length-remove_first n cs,
      ))
]

or_none : (a b c : Bool) → (a || (b || c)) ≡ false → ((a || (b || false)) ≡ false) × (c ≡ false)
or_none true b c h = (let clash = h in cc)
or_none false true c h = (let clash = h in cc)
or_none false false c h = (refl, h)

-- A store that `write_cai` writes into a file with an image header and at most one manifest is read back by
-- `get_cai_data`, and `remove_cai_store_from_stream` makes of the result what it makes of the file. The encoder
-- makes chunks as PNG has them; the store is shorter than 2^31 bytes, the result than 2^64.
pub get_cai_data-write_cai :
    (encode : Encoder) (cs : List Chunk) (tail store : List ℕ)
    → IsEncoder encode
    → IsPng cs
    → length store < 2 ^ 31
    → length (file cs tail) + length store + 12 < 2 ^ 64
    → any (has_name img_hdr) (remove_first cai_chunk cs) ≡ true
    → any (has_name cai_chunk) (remove_first cai_chunk cs) ≡ false
    → (written : List ℕ) × (write_cai encode (file cs tail) store ≡ ok written)
      × (get_cai_data written ≡ ok store)
      × (remove_cai_store written ≡ remove_cai_store (file cs tail))
unfolding c2pa_rs_html.Jumbf.Utf8.is_utf8
get_cai_data-write_cai encode cs tail store enc h small fits header single =
    let (crc, size, made) = write_cai-file encode cs tail store enc h small in
    by_split crc size made (Split-at img_hdr (remove_first cai_chunk cs))
  where
    by_split :
        (crc : List ℕ)
        → length crc ≡ 4
        → write_cai encode (file cs tail) store
          ≡ as_written tail (insert_behind img_hdr (cai_of store crc) (remove_first cai_chunk cs))
        → Split img_hdr (remove_first cai_chunk cs)
        → (written : List ℕ) × (write_cai encode (file cs tail) store ≡ ok written)
          × (get_cai_data written ≡ ok store)
          × (remove_cai_store written ≡ remove_cai_store (file cs tail))
    by_split crc size made (without e) = (let clash = sym header ∙ e in cc)
    by_split crc size made (at before c after p e k) =
        let new = cai_of store crc in
        let cs' = before ++ c ∷ new ∷ after in
        let cut_size =
          subst
            (λ l.
              length (chunks_bytes l)
              ≡ length (chunks_bytes before) + length (chunks_bytes (c ∷ after)))
            (sym p)
            (ap length (chunks_bytes-append before (c ∷ after))
              ∙ length-append (chunks_bytes before) (chunks_bytes (c ∷ after))) in
        let is_new : IsChunk new = record {
          name_size = refl;
          name_text = refl;
          crc_size = size;
          content_size = omega arith;
        } in
        let h' =
          IsPng-insert new before c after is_new refl (other_name img_hdr png_end c k refl)
            (subst IsPng p (IsPng-remove_first cai_chunk cs refl h)) in
        let (front_none, back_none) = or_none _ _ _ (
          sym (any-append (has_name cai_chunk) before (c ∷ after))
          ∙ subst (λ l. any (has_name cai_chunk) l ≡ false) p single) in
        let none_before = any-append (has_name cai_chunk) before (c ∷ []) ∙ front_none in
        let shape : (before ++ c ∷ []) ++ new ∷ after ≡ cs' =
          append_assoc before (c ∷ []) (new ∷ after) in
        let one = keep-at cai_chunk (before ++ c ∷ []) new after none_before refl in
        let gone = remove_first-at cai_chunk (before ++ c ∷ []) new after none_before refl in
        (
          file cs' tail,
          made
              ∙ ap (as_written tail) (
                  ap (insert_behind img_hdr new) p
                  ∙ insert_behind-at img_hdr new before c after e k),
          get_cai_data-file cs' tail h' (
                omega (
                  arith,
                  length-remove_first cai_chunk cs,
                  cut_size,
                  length-append (chunks_bytes cs') tail,
                  length-append (chunks_bytes cs) tail,
                  ap length (chunks_bytes-append before (c ∷ new ∷ after)),
                  length-append (chunks_bytes before) (chunks_bytes (c ∷ new ∷ after)),
                  length-append (chunk_bytes c) (chunks_bytes (new ∷ after)),
                  length-append (chunk_bytes c) (chunks_bytes after),
                  length-append (chunk_bytes new) (chunks_bytes after),
                  length-chunk_bytes new is_new,
                ))
              ∙ ap sole_content (
                  ap (keep (has_name cai_chunk)) (sym shape)
                  ∙ one
                  ∙ ap (λ l. new ∷ l) (keep-without cai_chunk after back_none)),
          remove_cai_store-file cs' tail h'
              ∙ ap (λ l. ok (file l tail))
                  (ap (remove_first cai_chunk) (sym shape)
                    ∙ gone
                    ∙ append_assoc before (c ∷ []) after
                    ∙ sym p)
              ∙ sym (remove_cai_store-file cs tail h),
        )
