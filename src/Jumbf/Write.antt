-- ===== src/Jumbf/Write.antt =====
-- `BMFFBox::write_box`, `box_size` and their implementations in sdk/src/jumbf/boxes.rs. Writing to
-- memory does not fail, so a box is written as its bytes.
use c2pa_rs_html.Prelude.{
  bytes, ℕ, ◌+◌, List, [], ◌∷◌, ◌++◌, Option, none, some, if◌then◌else◌, is_empty, length,
}
use c2pa_rs_html.Io.{u32, be32}
use c2pa_rs_html.Jumbf.Utf8.{is_utf8}
use c2pa_rs_html.Jumbf.Boxes.{
  DescriptionBox, FileDescription, DataBox, DataBoxes, super, json, cbor, padding, jp2c, content,
  uuid, signature, media, nil, cons, label_str,
}

-- `as_bytes_with_nul` of a text that is not empty once read as UTF-8, else nothing.
unfoldable pub write_c_string : List ℕ → List ℕ
write_c_string s = if is_empty (label_str s) then [] else s ++ 0 ∷ []

unfoldable pub write_opt : (List ℕ → List ℕ) → Option (List ℕ) → List ℕ
write_opt f none = []
write_opt f (some s) = f s

unfoldable pub write_box_id : Option ℕ → List ℕ
write_box_id none = []
write_box_id (some x) = be32 x

-- The header that `write_box` puts before a payload of the given size.
abbrev pub write_header : ℕ → List ℕ → List ℕ
write_header payload_size box_type = be32 (u32 (8 + u32 payload_size)) ++ box_type

-- `CAISaltContentBox`
unfoldable pub write_salt : List ℕ → List ℕ
write_salt salt = write_header (length salt) (bytes "c2sh") ++ salt

unfoldable pub write_description_payload : DescriptionBox → List ℕ
write_description_payload d =
    d.box_uuid
    ++ d.toggles
      ∷ (write_c_string d.label
          ++ (write_box_id d.box_id
              ++ (write_opt (λ s. s) d.signature ++ write_opt write_salt d.private)))

unfoldable pub write_description : DescriptionBox → List ℕ
write_description d =
    write_header (length (write_description_payload d)) (bytes "jumd")
    ++ write_description_payload d

unfoldable pub description_size : DescriptionBox → ℕ
description_size d = u32 (8 + u32 (length (write_description_payload d)))

unfoldable pub write_file_description_payload : FileDescription → List ℕ
write_file_description_payload m = m.toggles ∷ write_c_string m.media_type

-- `write_box_payload` of `JUMBFUUIDContentBox`: nothing at all if there is no data.
unfoldable pub write_uuid_payload : List ℕ → List ℕ → List ℕ
write_uuid_payload u d = if is_empty d then [] else u ++ d

-- `box_size`; each `box_payload_size` is a u32.
unfoldable mutual
  pub box_size : DataBox → ℕ
  box_size (super d bs) = u32 (8 + u32 (description_size d + boxes_size bs))
  box_size (json x) = u32 (8 + u32 (length x))
  box_size (cbor x) = u32 (8 + u32 (length x))
  box_size (padding x) = u32 (8 + u32 (length x))
  box_size (jp2c x) = u32 (8 + u32 (length x))
  box_size (content x) = u32 (8 + u32 (length x))
  box_size (uuid u x) = u32 (8 + u32 (16 + length x))
  box_size (signature u x) = u32 (8 + u32 (length (u ++ x)))
  box_size (media m) = u32 (8 + u32 (length (write_file_description_payload m)))

  pub boxes_size : DataBoxes → ℕ
  boxes_size nil = 0
  boxes_size (cons b bs) = u32 (box_size b + boxes_size bs)

unfoldable mutual
  pub write_box : DataBox → List ℕ
  write_box (super d bs) =
      be32 (box_size (super d bs)) ++ bytes "jumb" ++ (write_description d ++ write_boxes bs)
  write_box (json x) = be32 (box_size (json x)) ++ bytes "json" ++ x
  write_box (cbor x) = be32 (box_size (cbor x)) ++ bytes "cbor" ++ x
  write_box (padding x) = be32 (box_size (padding x)) ++ bytes "free" ++ x
  write_box (jp2c x) = be32 (box_size (jp2c x)) ++ bytes "jp2c" ++ x
  write_box (content x) = be32 (box_size (content x)) ++ bytes "bidb" ++ x
  write_box (uuid u x) = be32 (box_size (uuid u x)) ++ bytes "uuid" ++ write_uuid_payload u x
  write_box (signature u x) = be32 (box_size (signature u x)) ++ bytes "uuid" ++ (u ++ x)
  write_box (media m) =
      be32 (box_size (media m)) ++ bytes "bfdb" ++ write_file_description_payload m

  pub write_boxes : DataBoxes → List ℕ
  write_boxes nil = []
  write_boxes (cons b bs) = write_box b ++ write_boxes bs

-- What `Store::to_jumbf` writes of its box.
unfoldable pub write_store : DataBox → List ℕ
unfolding write_box box_size description_size write_description write_description_payload write_salt
    write_c_string write_opt write_box_id write_file_description_payload write_uuid_payload
    label_str is_utf8
write_store b = write_box b
