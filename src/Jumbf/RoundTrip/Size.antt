-- ===== src/Jumbf/RoundTrip/Size.antt =====
-- Which boxes the writer and the reader agree on, and the size field of what is written.
use c2pa_rs_html.Prelude.{
  ℕ, ◌+◌, ◌^◌, ◌<◌, ◌≡◌, refl, List, ◌++◌, false, arith, length, length-append, is_empty,
}
use c2pa_rs_html.Jumbf.Boxes.{
  DescriptionBox, FileDescription, DataBox, DataBoxes, super, json, cbor, padding, jp2c, content,
  uuid, signature, media, nil, cons,
}
use c2pa_rs_html.Jumbf.Write.{
  write_description, write_description_payload, description_size, write_uuid_payload, write_box,
  write_boxes, box_size, boxes_size,
}
use c2pa_rs_html.Jumbf.RoundTrip.Description.{IsDescription}
use c2pa_rs_html.Jumbf.RoundTrip.Media.{IsFileDescription}

-- A super box holds at least one box, a UUID box some data, and a UUID is 16 bytes.
mutual
  pub data IsBox : DataBox → Type 0 where
    is_super :
        {d : DescriptionBox} {b : DataBox} {bs : DataBoxes}
        → IsDescription d
        → IsBoxes (cons b bs)
        → IsBox (super d (cons b bs))
    is_json : (x : List ℕ) → IsBox (json x)
    is_cbor : (x : List ℕ) → IsBox (cbor x)
    is_padding : (x : List ℕ) → IsBox (padding x)
    is_jp2c : (x : List ℕ) → IsBox (jp2c x)
    is_content : (x : List ℕ) → IsBox (content x)
    is_uuid : (u x : List ℕ) → length u ≡ 16 → is_empty x ≡ false → IsBox (uuid u x)
    is_signature : (u x : List ℕ) → length u ≡ 16 → IsBox (signature u x)
    is_media : (m : FileDescription) → IsFileDescription m → IsBox (media m)

  pub data IsBoxes : DataBoxes → Type 0 where
    is_nil : IsBoxes nil
    is_cons : {b : DataBox} {bs : DataBoxes} → IsBox b → IsBoxes bs → IsBoxes (cons b bs)

pub length-write_description :
    (d : DescriptionBox) → length (write_description d) ≡ 8 + length (write_description_payload d)
unfolding write_description
length-write_description d = omega arith

pub description_size_lem :
    (d : DescriptionBox)
    → length (write_description d) < 2 ^ 32
    → description_size d ≡ length (write_description d)
unfolding description_size
description_size_lem d h = omega (arith, length-write_description d)

pub write_uuid_payload_lem : (u x : List ℕ) → is_empty x ≡ false → write_uuid_payload u x ≡ u ++ x
unfolding write_uuid_payload
write_uuid_payload_lem u x h = rw h

pub length-write_boxes_cons :
    (b : DataBox) (bs : DataBoxes)
    → length (write_boxes (cons b bs)) ≡ length (write_box b) + length (write_boxes bs)
unfolding write_boxes
length-write_boxes_cons b bs = length-append (write_box b) (write_boxes bs)

pub length-write_super :
    (d : DescriptionBox) (bs : DataBoxes)
    → length (write_box (super d bs)) ≡ 8 + (length (write_description d) + length (write_boxes bs))
unfolding write_box
length-write_super d bs = omega (arith, length-append (write_description d) (write_boxes bs))

length-uuid :
    (u x : List ℕ)
    → length u ≡ 16
    → is_empty x ≡ false
    → length (write_box (uuid u x)) ≡ 24 + length x
unfolding write_box
length-uuid u x h e = rw (write_uuid_payload_lem u x e) (omega (arith, length-append u x))

-- The size of a box whose payload fits: its content is shorter than what is written.
abbrev SizeIsLength : DataBox → Type 0
SizeIsLength b = length (write_box b) < 2 ^ 32 → box_size b ≡ length (write_box b)

size_json : (x : List ℕ) → SizeIsLength (json x)
unfolding box_size write_box
size_json x h = omega arith

size_cbor : (x : List ℕ) → SizeIsLength (cbor x)
unfolding box_size write_box
size_cbor x h = omega arith

size_padding : (x : List ℕ) → SizeIsLength (padding x)
unfolding box_size write_box
size_padding x h = omega arith

size_jp2c : (x : List ℕ) → SizeIsLength (jp2c x)
unfolding box_size write_box
size_jp2c x h = omega arith

size_content : (x : List ℕ) → SizeIsLength (content x)
unfolding box_size write_box
size_content x h = omega arith

size_signature : (u x : List ℕ) → length u ≡ 16 → SizeIsLength (signature u x)
unfolding box_size write_box
size_signature u x e h = omega arith

size_media : (m : FileDescription) → SizeIsLength (media m)
unfolding box_size write_box
size_media m h = omega arith

size_nil : boxes_size nil ≡ length (write_boxes nil)
unfolding boxes_size write_boxes
size_nil = refl

mutual
  unfolding box_size boxes_size

  box_size_of :
      {b : DataBox} → IsBox b → length (write_box b) < 2 ^ 32 → box_size b ≡ length (write_box b)
  box_size_of (is_super {d} {b} {bs} hd hs) h = omega (
    arith,
    boxes_size_of hs (omega (arith, length-write_super d (cons b bs))),
    description_size_lem d (omega (arith, length-write_super d (cons b bs))),
    length-write_super d (cons b bs),
  )
  box_size_of (is_json x) h = size_json x h
  box_size_of (is_cbor x) h = size_cbor x h
  box_size_of (is_padding x) h = size_padding x h
  box_size_of (is_jp2c x) h = size_jp2c x h
  box_size_of (is_content x) h = size_content x h
  box_size_of (is_uuid u x hu hx) h = omega (arith, length-uuid u x hu hx)
  box_size_of (is_signature u x hu) h = size_signature u x hu h
  box_size_of (is_media m hm) h = size_media m h

  boxes_size_of :
      {bs : DataBoxes}
      → IsBoxes bs
      → length (write_boxes bs) < 2 ^ 32
      → boxes_size bs ≡ length (write_boxes bs)
  boxes_size_of is_nil h = size_nil
  boxes_size_of (is_cons {b} {bs} hb hs) h = omega (
    arith,
    box_size_of hb (omega (arith, length-write_boxes_cons b bs)),
    boxes_size_of hs (omega (arith, length-write_boxes_cons b bs)),
    length-write_boxes_cons b bs,
  )

-- The size field of a well-formed box that is written in fewer than 2^32 bytes counts the bytes
-- written.
pub box_size-eq-length :
    (b : DataBox) → IsBox b → length (write_box b) < 2 ^ 32 → box_size b ≡ length (write_box b)
box_size-eq-length b = box_size_of
