-- ===== src/Jumbf/RoundTrip/Super.antt =====
-- Super boxes read back, by induction on the boxes that they hold.
use mathlib.Core.Path.{subst}
use c2pa_rs_html.Prelude.{
  ℕ, zero, suc, ◌+◌, ◌^◌, ◌<◌, ◌≤◌, ◌≡◌, refl, ap, sym, ◌∙◌, List, ◌∷◌, ◌++◌, append_assoc, arith,
  length,
}
use c2pa_rs_html.Result.{Result, ok}
use c2pa_rs_html.Io.{be32, u32, u64, At, At-next, At-room}
use c2pa_rs_html.Jumbf.Boxes.{
  ParseError, DescriptionBox, DataBox, DataBoxes, super, nil, cons, label_str,
}
use c2pa_rs_html.Jumbf.Write.{
  write_box, write_boxes, box_size, write_description, write_description_payload,
}
use c2pa_rs_html.Jumbf.Header.{box_type}
use c2pa_rs_html.Jumbf.ReadSuper.{
  read_found, data_box, super_box, read_super_start, read_super_box, read_boxes, after_box, push,
}
use c2pa_rs_html.Jumbf.RoundTrip.Parts.{read_header-At, At-header}
use c2pa_rs_html.Jumbf.RoundTrip.Description.{IsDescription, read_desc_box-At}
use c2pa_rs_html.Jumbf.RoundTrip.Size.{
  IsBox, is_json, is_cbor, is_padding, is_jp2c, is_content, is_uuid, is_signature, is_media,
  is_super, box_size-eq-length, IsBoxes, is_nil, is_cons, length-write_super,
  length-write_boxes_cons,
}
use c2pa_rs_html.Jumbf.RoundTrip.Leaf.{
  as_read, boxes_as_read, finds_json, finds_cbor, finds_padding, finds_jp2c, finds_content,
  finds_uuid, finds_signature, finds_media, finds_super,
}

-- Steps of the loop and of the reader of a super box.
module _ (buf : List ℕ) (f dest pos : ℕ) where
  round_data :
      (b : DataBox) (p : ℕ)
      → read_found buf pos ≡ ok (data_box b p)
      → read_boxes (suc f) buf dest pos ≡ push b (after_box dest p (read_boxes f buf dest p))
  unfolding read_boxes
  round_data b p e = rw e

  round_super :
      (b : DataBox) (p : ℕ)
      → read_found buf pos ≡ ok (super_box pos)
      → read_super_box f buf pos ≡ ok (b, p)
      → read_boxes (suc f) buf dest pos ≡ push b (after_box dest p (read_boxes f buf dest p))
  unfolding read_boxes
  round_super b p e r = rw (e, r)

  super_step :
      (d : DescriptionBox) (bs : DataBoxes) (p p' : ℕ)
      → read_super_start buf pos ≡ ok (d, dest, p)
      → read_boxes f buf dest p ≡ ok (bs, p')
      → read_super_box (suc f) buf pos ≡ ok (super d bs, p')
  unfolding read_super_box
  super_step d bs p p' e r = rw (e, r)

  after_box_inside :
      pos < dest → (more : Result ParseError (DataBoxes × ℕ)) → after_box dest pos more ≡ more
  after_box_inside h more = ground arith

-- The start of a super box, up to its first data box.
pub super_start_At :
    (buf : List ℕ) (pos : ℕ) (d : DescriptionBox) (body : List ℕ) (n : ℕ)
    → length buf < 2 ^ 64
    → IsDescription d
    → n < 2 ^ 32
    → 1 < n
    → pos + n ≤ length buf
    → length (write_description d) < 2 ^ 32
    → At buf pos (be32 n ++ 0x6a ∷ 0x75 ∷ 0x6d ∷ 0x62 ∷ (write_description d ++ body))
    → read_super_start buf pos ≡ ok (d, pos + n, pos + 8 + length (write_description d))
unfolding read_super_start write_description box_type label_str
super_start_At buf pos d body n fits hd small big room desc a =
    let payload = write_description_payload d in
    let m : ℕ = 8 + length payload in
    let size : u32 (8 + u32 (length payload)) ≡ m = omega arith in
    let a₁ = At-header n 0x6a 0x75 0x6d 0x62 (write_description d ++ body) a in
    let a₂ : At buf (pos + 8) (be32 m ++ 0x6a ∷ 0x75 ∷ 0x6d ∷ 0x64 ∷ (payload ++ body)) =
      subst (λ k. At buf (pos + 8) (be32 k ++ 0x6a ∷ 0x75 ∷ 0x6d ∷ 0x64 ∷ (payload ++ body))) size
        a₁ in
    let a₃ = At-header m 0x6a 0x75 0x6d 0x64 (payload ++ body) a₂ in
    let wraps : u64 (pos + n) ≡ pos + n = omega arith in
    rw
      (
        read_header-At n 0x6a 0x75 0x6d 0x62 (write_description d ++ body) small big a,
        read_header-At m 0x6a 0x75 0x6d 0x64 (payload ++ body) (omega arith) (omega arith) a₂,
        read_desc_box-At d hd body fits (pos + 8 + 8) (omega arith) a₃,
        hd.label_text,
        hd.label_nonempty,
        wraps,
      )
      (ap (λ p. ok (d, pos + n, p)) (omega arith))

pub length-write_box_ge : (b : DataBox) → 8 ≤ length (write_box b)
unfolding write_box
length-write_box_ge (super d bs) = omega arith
length-write_box_ge _ = omega arith

write_boxes_nil : length (write_boxes nil) ≡ 0
unfolding write_boxes
write_boxes_nil = refl

write_boxes_parts :
    (b : DataBox) (bs : DataBoxes) (rest : List ℕ)
    → write_boxes (cons b bs) ++ rest ≡ write_box b ++ (write_boxes bs ++ rest)
unfolding write_boxes
write_boxes_parts b bs rest = append_assoc (write_box b) (write_boxes bs) rest

pub write_super_parts :
    (d : DescriptionBox) (bs : DataBoxes) (rest : List ℕ)
    → write_box (super d bs) ++ rest
      ≡ be32 (box_size (super d bs))
        ++ 0x6a ∷ 0x75 ∷ 0x6d ∷ 0x62 ∷ (write_description d ++ (write_boxes bs ++ rest))
unfolding write_box
write_super_parts d bs rest =
    ap (λ l. be32 (box_size (super d bs)) ++ 0x6a ∷ 0x75 ∷ 0x6d ∷ 0x62 ∷ l)
      (append_assoc (write_description d) (write_boxes bs) rest)

-- The reader of a super box, given the loop over what it holds.
module _ (buf : List ℕ) (pos : ℕ) (fits : length buf < 2 ^ 64) (rest : List ℕ) (d : DescriptionBox)
    (b : DataBox) (bs : DataBoxes) (hd : IsDescription d) (hs : IsBoxes (cons b bs))
    (small : length (write_box (super d (cons b bs))) < 2 ^ 32)
    (a : At buf pos (write_box (super d (cons b bs)) ++ rest)) where
  abbrev whole : ℕ
  whole = length (write_box (super d (cons b bs)))

  abbrev inner : ℕ
  inner = pos + 8 + length (write_description d)

  sized : At buf pos (
      be32 whole
      ++ 0x6a ∷ 0x75 ∷ 0x6d ∷ 0x62 ∷ (write_description d ++ (write_boxes (cons b bs) ++ rest)))
  sized =
      subst
        (λ n. At buf pos (
          be32 n
          ++ 0x6a
            ∷ 0x75
            ∷ 0x6d
            ∷ 0x62
            ∷ (write_description d ++ (write_boxes (cons b bs) ++ rest))))
        (box_size-eq-length (super d (cons b bs)) (is_super hd hs) small)
        (subst (At buf pos) (write_super_parts d (cons b bs) rest) a)

  super_inner : At buf inner (write_boxes (cons b bs) ++ rest)
  super_inner = At-next (write_description d) (write_boxes (cons b bs) ++ rest) (
      At-header whole 0x6a 0x75 0x6d 0x62 (write_description d ++ (write_boxes (cons b bs) ++ rest))
        sized)

  super_of_boxes :
      (f : ℕ)
      → after_box (pos + whole) inner (read_boxes f buf (pos + whole) inner)
        ≡ ok (boxes_as_read (cons b bs), pos + whole)
      → read_super_box (suc f) buf pos ≡ ok (as_read (super d (cons b bs)), pos + whole)
  unfolding as_read
  super_of_boxes f ih =
      let parts = length-write_super d (cons b bs) in
      let more = length-write_boxes_cons b bs in
      let some_box = length-write_box_ge b in
      super_step buf f (pos + whole) pos d (boxes_as_read (cons b bs)) inner (pos + whole)
        (super_start_At buf pos d (write_boxes (cons b bs) ++ rest) whole fits hd small
          (omega (arith, parts)) (At-room (write_box (super d (cons b bs))) rest a)
          (omega (arith, parts)) sized)
        (sym (
            after_box_inside buf f (pos + whole) inner (omega (arith, parts, more, some_box))
              (read_boxes f buf (pos + whole) inner))
          ∙ ih)

nil_read :
    (dest pos : ℕ) (more : Result ParseError (DataBoxes × ℕ))
    → dest ≡ pos + length (write_boxes nil)
    → after_box dest pos more ≡ ok (boxes_as_read nil, dest)
unfolding as_read
nil_read dest pos more e = ground (arith, write_boxes_nil)

cons_read :
    (b : DataBox) (bs : DataBoxes) (dest : ℕ) (r : Result ParseError (DataBoxes × ℕ))
    → r ≡ ok (boxes_as_read bs, dest)
    → push (as_read b) r ≡ ok (boxes_as_read (cons b bs), dest)
unfolding as_read
cons_read b bs dest r e = rw e

mutual
  pub round :
      (buf : List ℕ) (fits : length buf < 2 ^ 64) {b : DataBox}
      → IsBox b
      → (f dest pos : ℕ) (rest : List ℕ) → length (write_box b) < 2 ^ 32
      → length (write_box b) ≤ f
      → At buf pos (write_box b ++ rest)
      → read_boxes (suc f) buf dest pos
        ≡ push (as_read b) (
            after_box dest
              (pos + length (write_box b))
              (read_boxes f buf dest (pos + length (write_box b))))
  round buf fits (is_json x) f dest pos rest small fuel a =
      round_data buf f dest pos _ _ (finds_json buf pos fits rest x small a)
  round buf fits (is_cbor x) f dest pos rest small fuel a =
      round_data buf f dest pos _ _ (finds_cbor buf pos fits rest x small a)
  round buf fits (is_padding x) f dest pos rest small fuel a =
      round_data buf f dest pos _ _ (finds_padding buf pos fits rest x small a)
  round buf fits (is_jp2c x) f dest pos rest small fuel a =
      round_data buf f dest pos _ _ (finds_jp2c buf pos fits rest x small a)
  round buf fits (is_content x) f dest pos rest small fuel a =
      round_data buf f dest pos _ _ (finds_content buf pos fits rest x small a)
  round buf fits (is_uuid u x hu hx) f dest pos rest small fuel a =
      round_data buf f dest pos _ _ (finds_uuid buf pos fits rest u x hu hx small a)
  round buf fits (is_signature u x hu) f dest pos rest small fuel a =
      round_data buf f dest pos _ _ (finds_signature buf pos fits rest u x hu small a)
  round buf fits (is_media m hm) f dest pos rest small fuel a =
      round_data buf f dest pos _ _ (finds_media buf pos fits rest m hm small a)
  round buf fits (is_super {d} {b} {bs} hd hs) zero dest pos rest small fuel a =
      absurd (omega (arith, length-write_super d (cons b bs)))
  round buf fits (is_super {d} {b} {bs} hd hs) (suc f) dest pos rest small fuel a =
      let parts = length-write_super d (cons b bs) in
      let n = length (write_box (super d (cons b bs))) in
      round_super buf (suc f) dest pos _ _ (finds_super buf pos fits rest (is_super hd hs) small a)
        (super_of_boxes buf pos fits rest d b bs hd hs small a f (
          boxes_read buf fits hs f (pos + n) (pos + 8 + length (write_description d)) rest
            (omega (arith, parts)) (omega (arith, parts)) (omega (arith, parts))
            (super_inner buf pos fits rest d b bs hd hs small a)))

  boxes_read :
      (buf : List ℕ) (fits : length buf < 2 ^ 64) {bs : DataBoxes}
      → IsBoxes bs
      → (f dest pos : ℕ) (rest : List ℕ) → length (write_boxes bs) < 2 ^ 32
      → length (write_boxes bs) < f
      → dest ≡ pos + length (write_boxes bs)
      → At buf pos (write_boxes bs ++ rest)
      → after_box dest pos (read_boxes f buf dest pos) ≡ ok (boxes_as_read bs, dest)
  boxes_read buf fits is_nil f dest pos rest small fuel e a =
      nil_read dest pos (read_boxes f buf dest pos) e
  boxes_read buf fits (is_cons {b} {bs} hb hs) zero dest pos rest small fuel e a =
      absurd (omega arith)
  boxes_read buf fits (is_cons {b} {bs} hb hs) (suc f) dest pos rest small fuel e a =
      let parts = length-write_boxes_cons b bs in
      let some_box = length-write_box_ge b in
      let a' = subst (At buf pos) (write_boxes_parts b bs rest) a in
      after_box_inside buf f dest pos (omega (arith, parts, some_box))
        (read_boxes (suc f) buf dest pos)
      ∙ round buf fits hb f dest pos (write_boxes bs ++ rest) (omega (arith, parts))
          (omega (arith, parts)) a'
      ∙ cons_read b bs dest
          (after_box dest (pos + length (write_box b))
            (read_boxes f buf dest (pos + length (write_box b))))
          (boxes_read buf fits hs f dest (pos + length (write_box b)) rest (omega (arith, parts))
            (omega (arith, parts, some_box)) (omega (arith, parts))
            (At-next (write_box b) (write_boxes bs ++ rest) a'))

-- A well-formed super box that is written in fewer than 2^32 bytes, anywhere in a stream of fewer
-- than 2^64 bytes, reads back as `as_read` gives it, and the reader ends behind it; fuel for each
-- of its bytes is enough.
pub read_super_box-write_box :
    (buf : List ℕ) (pos : ℕ) (rest : List ℕ) (d : DescriptionBox) (bs : DataBoxes) (f : ℕ)
    → IsBox (super d bs)
    → length buf < 2 ^ 64
    → length (write_box (super d bs)) < 2 ^ 32
    → At buf pos (write_box (super d bs) ++ rest)
    → length (write_box (super d bs)) ≤ f
    → read_super_box f buf pos ≡ ok (as_read (super d bs), pos + length (write_box (super d bs)))
read_super_box-write_box buf pos rest d bs zero (is_super {b = b} {bs = cs} hd hs) fits small a
      fuel =
    absurd (omega (arith, length-write_super d (cons b cs)))
read_super_box-write_box buf pos rest d bs (suc f) (is_super {b = b} {bs = cs} hd hs) fits small a
      fuel =
    let parts = length-write_super d (cons b cs) in
    super_of_boxes buf pos fits rest d b cs hd hs small a f (
      boxes_read buf fits hs f (pos + length (write_box (super d (cons b cs))))
        (pos + 8 + length (write_description d)) rest (omega (arith, parts)) (omega (arith, parts))
        (omega (arith, parts)) (super_inner buf pos fits rest d b cs hd hs small a))
