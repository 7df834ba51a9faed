-- ===== src/Assets/Tests.antt =====
-- Runs of the PNG handler on a small file, with an encoder whose checksum is zero.
use c2pa_rs_html.Prelude.{ℕ, ◌≡◌, refl, List, [], ◌∷◌, some, arith, length}
use c2pa_rs_html.Result.{ok}
use c2pa_rs_html.Assets.Png.{
  png_end, img_hdr, Encoder, get_cai_data, write_cai, remove_cai_store, get_png_chunk_positions,
}
use c2pa_rs_html.Assets.Png.File.{Chunk, chunk_bytes, file, IsPng, IsEncoder, positions}
use c2pa_rs_html.Assets.Png.Scan.{get_png_chunk_positions-file}
use c2pa_rs_html.Assets.Png.Laws.{cai_of, write_cai-file, remove_cai_store-file}
use c2pa_rs_html.Assets.Png.ReadBack.{get_cai_data-file, get_cai_data-write_cai}

abbrev crc : List ℕ
crc = 0 ∷ 0 ∷ 0 ∷ 0 ∷ []

abbrev zero_crc : Encoder
zero_crc name content = some (chunk_bytes (record { name = name; content = content; crc = crc }))

zero_crc-IsEncoder : IsEncoder zero_crc
zero_crc-IsEncoder name content small = (crc, refl, refl)

abbrev header : Chunk
header = record { name = img_hdr; content = 1 ∷ 2 ∷ []; crc = crc }

abbrev last : Chunk
last = record { name = png_end; content = []; crc = crc }

abbrev old : Chunk
old = cai_of (7 ∷ []) crc

abbrev plain_png : List Chunk
plain_png = header ∷ last ∷ []

abbrev signed_png : List Chunk
signed_png = header ∷ old ∷ last ∷ []

plain_png-IsPng : IsPng plain_png
unfolding c2pa_rs_html.Jumbf.Utf8.is_utf8
plain_png-IsPng = (
  record { name_size = refl; name_text = refl; crc_size = refl; content_size = omega arith },
  refl,
  (
    record { name_size = refl; name_text = refl; crc_size = refl; content_size = omega arith },
    refl,
  ),
)

signed_png-IsPng : IsPng signed_png
unfolding c2pa_rs_html.Jumbf.Utf8.is_utf8
signed_png-IsPng = (
  record { name_size = refl; name_text = refl; crc_size = refl; content_size = omega arith },
  refl,
  (
    record { name_size = refl; name_text = refl; crc_size = refl; content_size = omega arith },
    refl,
    plain_png-IsPng.2,
  ),
)

write_cai-file_example :
    (sum : List ℕ) × (length sum ≡ 4)
    × (write_cai zero_crc (file signed_png (9 ∷ [])) (5 ∷ 6 ∷ [])
        ≡ ok (file (header ∷ cai_of (5 ∷ 6 ∷ []) sum ∷ last ∷ []) (9 ∷ [])))
write_cai-file_example =
    write_cai-file zero_crc signed_png (9 ∷ []) (5 ∷ 6 ∷ []) zero_crc-IsEncoder signed_png-IsPng
      (omega arith)

get_png_chunk_positions-file_example :
    get_png_chunk_positions (file signed_png []) ≡ ok (positions 8 signed_png)
get_png_chunk_positions-file_example = get_png_chunk_positions-file signed_png [] signed_png-IsPng

remove_cai_store-file_example : remove_cai_store (file signed_png []) ≡ ok (file plain_png [])
remove_cai_store-file_example = remove_cai_store-file signed_png [] signed_png-IsPng

get_cai_data-file_example : get_cai_data (file signed_png []) ≡ ok (7 ∷ [])
get_cai_data-file_example = get_cai_data-file signed_png [] signed_png-IsPng (omega arith)

get_cai_data-write_cai_example :
    (written : List ℕ) × (write_cai zero_crc (file signed_png []) (5 ∷ 6 ∷ []) ≡ ok written)
    × (get_cai_data written ≡ ok (5 ∷ 6 ∷ []))
    × (remove_cai_store written ≡ remove_cai_store (file signed_png []))
get_cai_data-write_cai_example =
    get_cai_data-write_cai zero_crc signed_png [] (5 ∷ 6 ∷ []) zero_crc-IsEncoder signed_png-IsPng
      (omega arith) (omega arith) refl refl
