-- ===== src/Jumbf/ReadSuper.antt =====
-- `BoxReader::read_super_box` of sdk/src/jumbf/boxes.rs.
use c2pa_rs_html.Prelude.{
  ℕ, zero, suc, ◌+◌, List, Bool, true, false, ltb, ◌==◌, if◌then◌else◌, is_empty, length,
}
use c2pa_rs_html.Result.{Result, ok, err, stuck, ◌>>=◌, map_err}
use c2pa_rs_html.Error.{Error, jumbf_not_found, jumbf_parse_error}
use c2pa_rs_html.Io.{u64, sub64, read_to_vec, read_exact, seek_back}
use c2pa_rs_html.Jumbf.Boxes.{
  ParseError, unexpected_eof, invalid_jumbf_header, invalid_jumb_box, invalid_json_box,
  invalid_cbor_box, invalid_jp2c_box, invalid_uuid_box, invalid_embedded_file_box,
  invalid_unknown_box, expected_jumd_error, DescriptionBox, DataBox, DataBoxes, super, nil, cons,
  label_str, new_file_description,
}
use c2pa_rs_html.Jumbf.Utf8.{is_utf8}
use c2pa_rs_html.Jumbf.Header.{
  BoxType, empty, jumb, jumd, padding_type, json_type, uuid_type, jp2c_type, cbor_type,
  embed_media_desc, embed_content, or_invalid_header, box_type, read_header, unread_bytes,
  rewind_unless,
}
use c2pa_rs_html.Jumbf.ReadDescription.{
  read_desc_box, read_label, read_box_id, read_signature, read_private, read_description_rest,
  read_labelled,
}
use c2pa_rs_html.Jumbf.ReadContent.{
  content_start, read_content, position_of_nul, split_media, read_json_box, read_cbor_box,
  read_padding_box, read_jp2c_box, read_uuid_box, read_embedded_media_desc_box,
  read_embedded_content_box,
}

-- What one round of the loop in `read_super_box` finds at a position: the end of the stream, a box
-- that is no super box, a box of an unknown type that was skipped, or the start of a super box.
pub data Found : Type 0 where
  at_end : ℕ → Found
  data_box : DataBox → ℕ → Found
  skipped : ℕ → Found
  super_box : ℕ → Found

as_data : ParseError → Result ParseError (DataBox × ℕ) → Result ParseError Found
as_data e r = do (b, p) ← map_err (λ _. e) r; ok (data_box b p)

skip_unknown : List ℕ → ℕ → ℕ → Result ParseError Found
skip_unknown buf size pos = do
  (h, p) ← or_invalid_header (read_header buf pos)
  if h.size == 0 then err invalid_unknown_box else do
    p₁ ← rewind_unless (h.size == size) p
    (_, p₂) ← or_invalid_header (read_to_vec (sub64 size 8) buf p₁)
    ok (skipped p₂)

unfoldable pub read_by_type : BoxType → List ℕ → ℕ → ℕ → Result ParseError Found
unfolding as_data skip_unknown
read_by_type jumb buf size pos = ok (super_box pos)
read_by_type json_type buf size pos = as_data invalid_json_box (read_json_box buf size pos)
read_by_type cbor_type buf size pos = as_data invalid_cbor_box (read_cbor_box buf size pos)
read_by_type padding_type buf size pos = as_data invalid_cbor_box (read_padding_box buf size pos)
read_by_type jp2c_type buf size pos = as_data invalid_jp2c_box (read_jp2c_box buf size pos)
read_by_type uuid_type buf size pos = as_data invalid_uuid_box (read_uuid_box buf size pos)
read_by_type embed_media_desc buf size pos =
    as_data invalid_embedded_file_box (read_embedded_media_desc_box buf size pos)
read_by_type embed_content buf size pos =
    as_data invalid_embedded_file_box (read_embedded_content_box buf size pos)
read_by_type _ buf size pos = skip_unknown buf size pos

abbrev pub is_empty_type : BoxType → Bool
is_empty_type empty = true
is_empty_type _ = false

unfoldable pub read_found : List ℕ → ℕ → Result ParseError Found
read_found buf pos = do
  (h, p) ← map_err (λ _. invalid_jumbf_header) (read_header buf pos)
  if is_empty_type h.name
      then ok (at_end p)
      else (do p' ← unread_bytes p; read_by_type h.name buf h.size p')

abbrev is_jumb : BoxType → Bool
is_jumb jumb = true
is_jumb _ = false

abbrev is_jumd : BoxType → Bool
is_jumd jumd = true
is_jumd _ = false

read_super_description : List ℕ → ℕ → ℕ → Result ParseError (DescriptionBox × ℕ × ℕ)
read_super_description buf dest pos = do
  (jumd_header, p) ← map_err (λ _. expected_jumd_error) (read_header buf pos)
  if is_jumd jumd_header.name
      then (do
        (d, p') ← map_err (λ _. unexpected_eof) (read_desc_box buf jumd_header.size p)
        if is_empty (label_str d.label) then err unexpected_eof else ok (d, dest, p'))
      else err expected_jumd_error

-- The part of `read_super_box` before the loop: the description box, where the box ends, and the
-- position.
unfoldable pub read_super_start : List ℕ → ℕ → Result ParseError (DescriptionBox × ℕ × ℕ)
unfolding read_super_description
read_super_start buf pos = do
  (jumb_header, p) ← map_err (λ _. invalid_jumbf_header) (read_header buf pos)
  if is_empty_type jumb_header.name
      then err unexpected_eof
      else if is_jumb jumb_header.name
      then read_super_description buf (u64 (pos + jumb_header.size)) p
      else err invalid_jumbf_header

-- The test at the end of a round: a box may end where its super box ends, and not past it.
abbrev pub after_box : ℕ → ℕ → Result ParseError (DataBoxes × ℕ) → Result ParseError (DataBoxes × ℕ)
after_box dest p more =
    if p == dest then ok (nil, p) else if ltb dest p then err invalid_jumb_box else more

abbrev pub push : DataBox → Result ParseError (DataBoxes × ℕ) → Result ParseError (DataBoxes × ℕ)
push b r = do (bs, p) ← r; ok (cons b bs, p)

-- The loop, on fuel: `stuck` stands for a run that has not ended within it. A skipped box goes on to
-- the next round with no test of the position.
unfoldable mutual
  pub read_super_box : ℕ → List ℕ → ℕ → Result ParseError (DataBox × ℕ)
  read_super_box zero buf pos = stuck
  read_super_box (suc f) buf pos = do
    (d, dest, p) ← read_super_start buf pos
    (bs, p') ← read_boxes f buf dest p
    ok (super d bs, p')

  pub read_boxes : ℕ → List ℕ → ℕ → ℕ → Result ParseError (DataBoxes × ℕ)
  read_boxes zero buf dest pos = stuck
  read_boxes (suc f) buf dest pos = do
    found ← read_found buf pos
    elim found [
      | at_end p ↦ if ltb dest p then err invalid_jumb_box else ok (nil, p)
      | data_box b p ↦ push b (let more = read_boxes f buf dest p in after_box dest p more)
      | skipped p ↦ read_boxes f buf dest p
      | super_box p ↦ do
        (b, p') ← read_super_box f buf p
        push b (let more = read_boxes f buf dest p' in after_box dest p' more)
    ]

-- The call in `Store::from_jumbf`; an empty buffer has no store. A round takes at least one byte of a box that reads well, and the
-- reader of a super box calls the loop: two units of fuel for a byte are enough for those.
unfoldable pub read_store : List ℕ → Result Error (DataBox × ℕ)
unfolding read_super_box read_super_start read_found read_by_type read_header box_type unread_bytes
    rewind_unless read_exact read_to_vec seek_back read_desc_box read_label read_box_id
    read_signature read_private read_description_rest read_labelled content_start read_content
    position_of_nul split_media read_json_box read_cbor_box read_padding_box read_jp2c_box
    read_uuid_box read_embedded_media_desc_box read_embedded_content_box label_str is_utf8
    new_file_description
read_store buf =
    if is_empty buf
    then err jumbf_not_found
    else map_err (λ e. jumbf_parse_error) (read_super_box (length buf) buf 0)
