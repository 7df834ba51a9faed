-- ===== src/Jumbf/ReadContent.antt =====
-- The readers of the boxes that hold no other box: sdk/src/jumbf/boxes.rs.
use c2pa_rs_html.Prelude.{
  ℕ, suc, ◌-◌, List, [], ◌∷◌, Bool, true, false, Option, none, some, ◌==◌, if◌then◌else◌, length,
  get_or, get_last?, take, drop, replicate,
}
use c2pa_rs_html.Result.{Result, ok, panic, ◌>>=◌}
use c2pa_rs_html.Io.{sub64, read_exact, read_to_vec}
use c2pa_rs_html.Jumbf.Boxes.{
  ParseError, FileDescription, DataBox, json, cbor, padding, jp2c, content, uuid, media,
  new_file_description,
}
use c2pa_rs_html.Jumbf.Header.{io, or_invalid_header, read_header, rewind_unless}

-- The common start of the content box readers: `none` is a bad read, for which the caller returns an
-- empty box.
unfoldable pub content_start : List ℕ → ℕ → ℕ → Result ParseError (Bool × ℕ)
content_start buf size pos = do
  (h, p) ← or_invalid_header (read_header buf pos)
  if h.size == 0 then ok (false, p) else (do p' ← rewind_unless (h.size == size) p; ok (true, p'))

unfoldable pub read_content : List ℕ → ℕ → ℕ → Result ParseError (List ℕ × ℕ)
read_content buf size pos = do
  (good, p) ← content_start buf size pos
  if good then or_invalid_header (read_to_vec (sub64 size 8) buf p) else ok ([], p)

-- The readers of the boxes that hold bytes and nothing else.
unfoldable pub read_json_box : List ℕ → ℕ → ℕ → Result ParseError (DataBox × ℕ)
read_json_box buf size pos = do (x, p) ← read_content buf size pos; ok (json x, p)

unfoldable pub read_cbor_box : List ℕ → ℕ → ℕ → Result ParseError (DataBox × ℕ)
read_cbor_box buf size pos = do (x, p) ← read_content buf size pos; ok (cbor x, p)

unfoldable pub read_padding_box : List ℕ → ℕ → ℕ → Result ParseError (DataBox × ℕ)
read_padding_box buf size pos = do (x, p) ← read_content buf size pos; ok (padding x, p)

unfoldable pub read_jp2c_box : List ℕ → ℕ → ℕ → Result ParseError (DataBox × ℕ)
read_jp2c_box buf size pos = do (x, p) ← read_content buf size pos; ok (jp2c x, p)

unfoldable pub read_embedded_content_box : List ℕ → ℕ → ℕ → Result ParseError (DataBox × ℕ)
read_embedded_content_box buf size pos = do (x, p) ← read_content buf size pos; ok (content x, p)

read_uuid_data : List ℕ → ℕ → ℕ → Result ParseError (DataBox × ℕ)
read_uuid_data buf size p = do
  (u, p₁) ← io (read_exact 16 buf p)
  (x, p₂) ← or_invalid_header (read_to_vec (sub64 (sub64 size 8) 16) buf p₁)
  ok (uuid u x, p₂)

unfoldable pub read_uuid_box : List ℕ → ℕ → ℕ → Result ParseError (DataBox × ℕ)
unfolding read_uuid_data
read_uuid_box buf size pos = do
  (good, p) ← content_start buf size pos
  if good then read_uuid_data buf size p else ok (uuid (replicate 16 0) [], p)

-- `iter().position(|&x| x == 0)`
unfoldable pub position_of_nul : List ℕ → Option ℕ
position_of_nul [] = none
position_of_nul (b ∷ bs) =
    let rest = position_of_nul bs in
    if b == 0 then some 0 else elim rest [ none ↦ none | some i ↦ some (suc i) ]

-- `buf[buf.len() - 1]` of an empty buffer is out of bounds. With toggles of 1 the branches stand as
-- in the source: the buffer is split where its first NUL is its last byte.
unfoldable pub split_media : ℕ → List ℕ → Result ParseError FileDescription
split_media togs b =
    if togs == 1
    then elim (position_of_nul b) [
      | none ↦ ok (record { toggles = togs; media_type = b; file_name = none })
      | some i ↦
          if i == length b - 1
          then ok (record { toggles = togs; media_type = take i b; file_name = some (drop i b) })
          else ok (record { toggles = togs; media_type = b; file_name = none })
    ]
    else elim (get_last? b) [
      | none ↦ panic
      | some l ↦
          if l == 0
          then ok (record { toggles = togs; media_type = take (length b - 1) b; file_name = none })
          else ok (record { toggles = togs; media_type = b; file_name = none })
    ]

read_media : List ℕ → ℕ → ℕ → Result ParseError (DataBox × ℕ)
read_media buf size p = do
  (t, p₁) ← io (read_exact 1 buf p)
  (b, p₂) ← or_invalid_header (read_to_vec (sub64 (sub64 size 8) 1) buf p₁)
  m ← split_media (get_or t 0 0) b
  ok (media m, p₂)

unfoldable pub read_embedded_media_desc_box : List ℕ → ℕ → ℕ → Result ParseError (DataBox × ℕ)
unfolding read_media
read_embedded_media_desc_box buf size pos = do
  (good, p) ← content_start buf size pos
  if good then read_media buf size p else ok (media (new_file_description [] none), p)
