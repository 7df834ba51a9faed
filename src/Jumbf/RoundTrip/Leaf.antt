-- ===== src/Jumbf/RoundTrip/Leaf.antt =====
-- What the reader makes of each box that is written, and its round on those that hold no other box.
use mathlib.Core.Path.{subst}
use c2pa_rs_html.Prelude.{
  ℕ, ◌+◌, ◌^◌, ◌<◌, ◌≡◌, refl, ap, ◌∙◌, List, [], ◌∷◌, ◌++◌, append_assoc, false, arith, length,
  length-append, is_empty,
}
use c2pa_rs_html.Result.{ok}
use c2pa_rs_html.Io.{be32, At}
use c2pa_rs_html.Jumbf.Boxes.{
  DescriptionBox, FileDescription, DataBox, DataBoxes, super, json, cbor, padding, jp2c, content,
  uuid, signature, media, nil, cons,
}
use c2pa_rs_html.Jumbf.Write.{
  write_box, write_boxes, box_size, write_file_description_payload, write_description,
}
use c2pa_rs_html.Jumbf.Header.{box_type}
use c2pa_rs_html.Jumbf.ReadSuper.{read_found, read_by_type, data_box, super_box}
use c2pa_rs_html.Jumbf.RoundTrip.Description.{write_c_string_lem}
use c2pa_rs_html.Jumbf.RoundTrip.Media.{IsFileDescription, media_as_read}
use c2pa_rs_html.Jumbf.RoundTrip.Found.{
  found_by_type, found_json, found_cbor, found_padding, found_jp2c, found_content, found_uuid,
  found_media,
}
use c2pa_rs_html.Jumbf.RoundTrip.Size.{
  IsBox, is_json, is_cbor, is_padding, is_jp2c, is_content, is_uuid, is_signature, is_media,
  box_size-eq-length, write_uuid_payload_lem,
}

-- A signature content box is read as a UUID box, and an embedded file's name is lost; any other box
-- is read as itself.
unfoldable mutual
  pub as_read : DataBox → DataBox
  as_read (super d bs) = super d (boxes_as_read bs)
  as_read (json x) = json x
  as_read (cbor x) = cbor x
  as_read (padding x) = padding x
  as_read (jp2c x) = jp2c x
  as_read (content x) = content x
  as_read (uuid u x) = uuid u x
  as_read (signature u x) = uuid u x
  as_read (media m) = media (media_as_read m)

  pub boxes_as_read : DataBoxes → DataBoxes
  boxes_as_read nil = nil
  boxes_as_read (cons b bs) = cons (as_read b) (boxes_as_read bs)

-- One round of the loop finds the box and ends behind it.
abbrev pub FindsBox : List ℕ → ℕ → List ℕ → DataBox → Type 0
FindsBox buf pos rest b =
    length (write_box b) < 2 ^ 32
    → At buf pos (write_box b ++ rest)
    → read_found buf pos ≡ ok (data_box (as_read b) (pos + length (write_box b)))

module _ (buf : List ℕ) (pos : ℕ) (fits : length buf < 2 ^ 64) (rest : List ℕ) where
  pub finds_json : (x : List ℕ) → FindsBox buf pos rest (json x)
  unfolding write_box as_read
  finds_json x h a =
      let size : box_size (json x) ≡ 8 + length x =
        box_size-eq-length (json x) (is_json x) h ∙ omega arith in
      found_json fits x rest (omega arith)
        (subst (λ n. At buf pos (be32 n ++ 0x6a ∷ 0x73 ∷ 0x6f ∷ 0x6e ∷ (x ++ rest))) size a)
      ∙ ap (λ p. ok (data_box (json x) p)) (omega arith)

  pub finds_cbor : (x : List ℕ) → FindsBox buf pos rest (cbor x)
  unfolding write_box as_read
  finds_cbor x h a =
      let size : box_size (cbor x) ≡ 8 + length x =
        box_size-eq-length (cbor x) (is_cbor x) h ∙ omega arith in
      found_cbor fits x rest (omega arith)
        (subst (λ n. At buf pos (be32 n ++ 0x63 ∷ 0x62 ∷ 0x6f ∷ 0x72 ∷ (x ++ rest))) size a)
      ∙ ap (λ p. ok (data_box (cbor x) p)) (omega arith)

  pub finds_padding : (x : List ℕ) → FindsBox buf pos rest (padding x)
  unfolding write_box as_read
  finds_padding x h a =
      let size : box_size (padding x) ≡ 8 + length x =
        box_size-eq-length (padding x) (is_padding x) h ∙ omega arith in
      found_padding fits x rest (omega arith)
        (subst (λ n. At buf pos (be32 n ++ 0x66 ∷ 0x72 ∷ 0x65 ∷ 0x65 ∷ (x ++ rest))) size a)
      ∙ ap (λ p. ok (data_box (padding x) p)) (omega arith)

  pub finds_jp2c : (x : List ℕ) → FindsBox buf pos rest (jp2c x)
  unfolding write_box as_read
  finds_jp2c x h a =
      let size : box_size (jp2c x) ≡ 8 + length x =
        box_size-eq-length (jp2c x) (is_jp2c x) h ∙ omega arith in
      found_jp2c fits x rest (omega arith)
        (subst (λ n. At buf pos (be32 n ++ 0x6a ∷ 0x70 ∷ 0x32 ∷ 0x63 ∷ (x ++ rest))) size a)
      ∙ ap (λ p. ok (data_box (jp2c x) p)) (omega arith)

  pub finds_content : (x : List ℕ) → FindsBox buf pos rest (content x)
  unfolding write_box as_read
  finds_content x h a =
      let size : box_size (content x) ≡ 8 + length x =
        box_size-eq-length (content x) (is_content x) h ∙ omega arith in
      found_content fits x rest (omega arith)
        (subst (λ n. At buf pos (be32 n ++ 0x62 ∷ 0x69 ∷ 0x64 ∷ 0x62 ∷ (x ++ rest))) size a)
      ∙ ap (λ p. ok (data_box (content x) p)) (omega arith)

  pub finds_uuid :
      (u x : List ℕ) → length u ≡ 16 → is_empty x ≡ false → FindsBox buf pos rest (uuid u x)
  unfolding write_box as_read
  finds_uuid u x hu hx h a =
      let whole : length (write_box (uuid u x)) ≡ 24 + length x =
        rw (write_uuid_payload_lem u x hx) (omega (arith, length-append u x)) in
      let size : box_size (uuid u x) ≡ 24 + length x =
        box_size-eq-length (uuid u x) (is_uuid u x hu hx) h ∙ whole in
      let shape : write_box (uuid u x) ++ rest
          ≡ be32 (box_size (uuid u x)) ++ 0x75 ∷ 0x75 ∷ 0x69 ∷ 0x64 ∷ (u ++ (x ++ rest)) =
        ap (λ l. be32 (box_size (uuid u x)) ++ 0x75 ∷ 0x75 ∷ 0x69 ∷ 0x64 ∷ (l ++ rest))
          (write_uuid_payload_lem u x hx)
        ∙ ap (λ l. be32 (box_size (uuid u x)) ++ 0x75 ∷ 0x75 ∷ 0x69 ∷ 0x64 ∷ l)
            (append_assoc u x rest) in
      found_uuid fits x rest (omega (arith, whole)) u hu (omega (arith, whole)) (
        subst (λ n. At buf pos (be32 n ++ 0x75 ∷ 0x75 ∷ 0x69 ∷ 0x64 ∷ (u ++ (x ++ rest)))) size
          (subst (At buf pos) shape a))
      ∙ ap (λ p. ok (data_box (uuid u x) p)) (omega (arith, whole))

  pub finds_signature : (u x : List ℕ) → length u ≡ 16 → FindsBox buf pos rest (signature u x)
  unfolding write_box as_read
  finds_signature u x hu h a =
      let whole : length (write_box (signature u x)) ≡ 24 + length x =
        (omega (arith, length-append u x)) in
      let size : box_size (signature u x) ≡ 24 + length x =
        box_size-eq-length (signature u x) (is_signature u x hu) h ∙ whole in
      let shape : write_box (signature u x) ++ rest
          ≡ be32 (box_size (signature u x)) ++ 0x75 ∷ 0x75 ∷ 0x69 ∷ 0x64 ∷ (u ++ (x ++ rest)) =
        ap (λ l. be32 (box_size (signature u x)) ++ 0x75 ∷ 0x75 ∷ 0x69 ∷ 0x64 ∷ l)
          (append_assoc u x rest) in
      found_uuid fits x rest (omega (arith, whole)) u hu (omega (arith, whole)) (
        subst (λ n. At buf pos (be32 n ++ 0x75 ∷ 0x75 ∷ 0x69 ∷ 0x64 ∷ (u ++ (x ++ rest)))) size
          (subst (At buf pos) shape a))
      ∙ ap (λ p. ok (data_box (uuid u x) p)) (omega (arith, whole))

  pub finds_media : (m : FileDescription) → IsFileDescription m → FindsBox buf pos rest (media m)
  unfolding write_box as_read write_file_description_payload
  finds_media m hm h a =
      let text = write_c_string_lem m.media_type hm.media_text hm.media_nonempty in
      let whole : length (write_box (media m)) ≡ 9 + length (m.media_type ++ 0 ∷ []) =
        rw text (omega arith) in
      let size : box_size (media m) ≡ 9 + length (m.media_type ++ 0 ∷ []) =
        box_size-eq-length (media m) (is_media m hm) h ∙ whole in
      let shape : write_box (media m) ++ rest
          ≡ be32 (box_size (media m))
            ++ 0x62 ∷ 0x66 ∷ 0x64 ∷ 0x62 ∷ m.toggles ∷ ((m.media_type ++ 0 ∷ []) ++ rest) =
        ap (λ l. be32 (box_size (media m)) ++ 0x62 ∷ 0x66 ∷ 0x64 ∷ 0x62 ∷ m.toggles ∷ (l ++ rest))
          text in
      found_media fits m rest hm (omega (arith, whole)) (
        subst
          (λ n.
            At buf pos (
              be32 n ++ 0x62 ∷ 0x66 ∷ 0x64 ∷ 0x62 ∷ m.toggles ∷ ((m.media_type ++ 0 ∷ []) ++ rest)))
          size (subst (At buf pos) shape a))
      ∙ ap (λ p. ok (data_box (media (media_as_read m)) p)) (omega (arith, whole))

  -- A super box sends the reader to its start.
  pub finds_super :
      {d : DescriptionBox} {bs : DataBoxes}
      → IsBox (super d bs)
      → length (write_box (super d bs)) < 2 ^ 32
      → At buf pos (write_box (super d bs) ++ rest)
      → read_found buf pos ≡ ok (super_box pos)
  unfolding write_box read_by_type box_type
  finds_super {d} {bs} hb h a =
      found_by_type (box_size (super d bs)) 0x6a 0x75 0x6d 0x62
        ((write_description d ++ write_boxes bs) ++ rest)
        (omega (arith, box_size-eq-length (super d bs) hb h))
        (omega (arith, box_size-eq-length (super d bs) hb h)) refl a
