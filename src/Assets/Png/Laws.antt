-- ===== src/Assets/Png/Laws.antt =====
-- The handler's operations on a PNG file are operations on its chunks.
use mathlib.Core.Path.{subst}
use c2pa_rs_html.Prelude.{
  ℕ, ◌^◌, ◌<◌, ◌≡◌, refl, sym, List, true, false, Option, none, some, length, find, bytes_eq,
  bytes_eq→eq,
}
use c2pa_rs_html.Result.{Result, ok, err, ◌>>=◌, ok_or}
use c2pa_rs_html.Error.{Error, embedding_error}
use c2pa_rs_html.Assets.Positions.{splice}
use c2pa_rs_html.Assets.Png.{
  png_end, cai_chunk, img_hdr, chunk_end, is_named, Encoder, write_cai, remove_cai_store,
}
use c2pa_rs_html.Assets.Png.File.{
  Chunk, chunk_bytes, file, IsPng, has_name, positions, IsEncoder, remove_first, insert_behind,
  Split, without, at, Split-at, find-without, find-at, remove_first-without, remove_first-at,
  insert_behind-at, insert_behind-without,
}
use c2pa_rs_html.Assets.Png.Scan.{get_png_chunk_positions-file}
use c2pa_rs_html.Assets.Png.Edit.{IsPng-remove, IsPng-IsChunk, splice-behind, erase-file}

pub other_name :
    (n m : List ℕ) (c : Chunk) → has_name n c ≡ true → bytes_eq n m ≡ false → has_name m c ≡ false
other_name n m c h ne = subst (λ l. bytes_eq l m ≡ false) (sym (bytes_eq→eq c.name n h)) ne

-- A file without its first chunk of a name other than IEND is a file.
pub IsPng-remove_first :
    (n : List ℕ) (cs : List Chunk)
    → bytes_eq n png_end ≡ false
    → IsPng cs
    → IsPng (remove_first n cs)
IsPng-remove_first n cs ne h = by_split (Split-at n cs)
  where
    by_split : Split n cs → IsPng (remove_first n cs)
    by_split (without e) = rw (remove_first-without n cs e) h
    by_split (at before c after p e k) =
        rw (p, remove_first-at n before c after e k)
          (IsPng-remove before c after (other_name n png_end c k ne) (subst IsPng p h))

abbrev pub cai_of : List ℕ → List ℕ → Chunk
cai_of store crc = record { name = cai_chunk; content = store; crc = crc }

abbrev pub as_written : List ℕ → Option (List Chunk) → Result Error (List ℕ)
as_written tail none = err embedding_error
as_written tail (some cs) = ok (file cs tail)

-- `remove_cai_store_from_stream` takes the first manifest chunk out of a file, and nothing else; a
-- file without one is left as it is.
pub remove_cai_store-file :
    (cs : List Chunk) (tail : List ℕ)
    → IsPng cs
    → remove_cai_store (file cs tail) ≡ ok (file (remove_first cai_chunk cs) tail)
unfolding remove_cai_store
remove_cai_store-file cs tail h =
    rw (get_png_chunk_positions-file cs tail h) (erase-file cai_chunk cs tail h)

-- `write_cai` takes the first manifest chunk out of a file and puts one with the new store behind the
-- first image header; without a header it fails. The encoder makes chunks as PNG has them, and
-- the store is shorter than 2^31 bytes.
pub write_cai-file :
    (encode : Encoder) (cs : List Chunk) (tail store : List ℕ)
    → IsEncoder encode
    → IsPng cs
    → length store < 2 ^ 31
    → (crc : List ℕ) × (length crc ≡ 4)
      × (write_cai encode (file cs tail) store
          ≡ as_written tail (insert_behind img_hdr (cai_of store crc) (remove_first cai_chunk cs)))
unfolding write_cai
write_cai-file encode cs tail store enc h small =
    let (crc, size, made) = enc cai_chunk store small in
    let cs' = remove_first cai_chunk cs in
    let h' = IsPng-remove_first cai_chunk cs refl h in
    (
      crc,
      size,
      rw
          (
            get_png_chunk_positions-file cs tail h,
            made,
            erase-file cai_chunk cs tail h,
            get_png_chunk_positions-file cs' tail h',
          )
          (by_split crc cs' h' (Split-at img_hdr cs')),
    )
  where
    by_split :
        (crc : List ℕ) (cs' : List Chunk)
        → IsPng cs'
        → Split img_hdr cs'
        → (ok_or (find (is_named img_hdr) (positions 8 cs')) embedding_error >>= λ hdr.
            splice (file cs' tail) (chunk_end hdr) (chunk_end hdr) (chunk_bytes (cai_of store crc)))
          ≡ as_written tail (insert_behind img_hdr (cai_of store crc) cs')
    by_split crc cs' h' (without e) =
        rw (find-without img_hdr 8 cs' e, insert_behind-without img_hdr (cai_of store crc) cs' e)
          refl
    by_split crc cs' h' (at before c after p e k) =
        rw
          (
            p,
            find-at img_hdr 8 before c after e k,
            insert_behind-at img_hdr (cai_of store crc) before c after e k,
          )
          (splice-behind before c after tail (IsPng-IsChunk before c after (subst IsPng p h'))
            (cai_of store crc))
