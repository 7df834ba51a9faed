-- ===== src/Jumbf/RoundTrip/Limits.antt =====
-- Where the writer and the reader of sdk/src/jumbf/boxes.rs part.
use mathlib.Core.Path.{subst}
use c2pa_rs_html.Prelude.{
  ℕ, zero, suc, ◌+◌, ◌^◌, ◌<◌, ◌≤◌, ◌≡◌, ◌≢◌, refl, ap, ◌∙◌, List, [], ◌∷◌, ◌++◌, false, arith,
  ◌==◌, if◌then◌else◌, length, length-append, is_empty,
}
use c2pa_rs_html.Result.{Result, ok, err, stuck}
use c2pa_rs_html.Io.{be32, from_be32, read_to_vec, At, At-next, At-room, read_to_vec-At}
use c2pa_rs_html.Jumbf.Boxes.{
  ParseError, DescriptionBox, DataBox, DataBoxes, super, uuid, nil, invalid_jumb_box,
}
use c2pa_rs_html.Jumbf.RoundTrip.Found.{unread_header}
use c2pa_rs_html.Jumbf.RoundTrip.Description.{IsDescription}
use c2pa_rs_html.Jumbf.RoundTrip.Size.{IsBox, description_size_lem}
use c2pa_rs_html.Jumbf.RoundTrip.Leaf.{as_read}
use c2pa_rs_html.Jumbf.RoundTrip.Super.{
  round, super_start_At, write_super_parts, length-write_box_ge,
}
use c2pa_rs_html.Jumbf.Write.{
  write_box, write_boxes, box_size, write_description, write_uuid_payload,
}
use c2pa_rs_html.Jumbf.Header.{BoxHeader, unknown_box, box_type, read_header, rewind_unless}
use c2pa_rs_html.Jumbf.ReadSuper.{
  read_found, read_by_type, skipped, after_box, push, read_super_start, read_super_box, read_boxes,
}

after_box_past :
    (dest k : ℕ)
    → 8 ≤ k
    → (more : Result ParseError (DataBoxes × ℕ)) (b : DataBox)
    → push b (after_box dest (dest + k) more) ≡ err invalid_jumb_box
after_box_past dest k h more b = ground arith

-- A UUID box with no data is announced as 24 bytes, and 8 bytes are written; every other UUID box whose
-- UUID has 16 bytes and which fits in 2^32 bytes is written in as many bytes as it announces.
uuid_box_size :
    (u x : List ℕ)
    → length u ≡ 16
    → 24 + length x < 2 ^ 32
    → (box_size (uuid u x) ≡ 24 + length x)
      × (length (write_box (uuid u x)) ≡ (if is_empty x then 8 else 24 + length x))
unfolding box_size write_box write_uuid_payload
uuid_box_size u [] h small = (omega arith, refl)
uuid_box_size u (x ∷ xs) h small = (omega arith, omega (arith, length-append u (x ∷ xs)))

-- The tail of a stream on which the loop turns for ever: a byte that is not 0, then 0, 0, 0, 9 and
-- three bytes that begin the name of no known type.
module _ (buf : List ℕ) (pos b t₁ t₂ t₃ : ℕ)
    (before : At buf pos (b ∷ 0 ∷ 0 ∷ 0 ∷ 9 ∷ t₁ ∷ t₂ ∷ t₃ ∷ [])) (nonzero : b ≢ 0)
    (unknown : box_type (from_be32 (t₁ ∷ t₂ ∷ t₃ ∷ []) 0)
      ≡ unknown_box (from_be32 (t₁ ∷ t₂ ∷ t₃ ∷ []) 0))
    (fits : length buf < 2 ^ 64) where
  abbrev tail_name : BoxHeader
  tail_name = record { name = unknown_box (from_be32 (t₁ ∷ t₂ ∷ t₃ ∷ []) 0); size = 9 }

  tail_header :
      read_header buf (pos + 1)
      ≡ ok (record { name = unknown_box (from_be32 (t₁ ∷ t₂ ∷ t₃ ∷ []) 0); size = 9 }, pos + 8)
  unfolding read_header
  tail_header =
      rw (At.here (At-next (b ∷ []) (0 ∷ 0 ∷ 0 ∷ 9 ∷ t₁ ∷ t₂ ∷ t₃ ∷ []) before))
        (rw unknown (ap (λ p. ok (tail_name, p)) (omega arith)))

  before_header :
      read_header buf pos
      ≡ ok (
        record {
          name = box_type (from_be32 (9 ∷ t₁ ∷ t₂ ∷ t₃ ∷ []) 0);
          size = from_be32 (b ∷ 0 ∷ 0 ∷ 0 ∷ []) 0;
        },
        pos + 8,
      )
  unfolding read_header
  before_header =
      let not_large : (from_be32 (b ∷ 0 ∷ 0 ∷ 0 ∷ []) 0 == 1) ≡ false = ground arith in
      rw before.here (rw not_large)

  back_one : read_to_vec 1 buf pos ≡ ok (b ∷ [], pos + 1)
  back_one = read_to_vec-At (b ∷ []) (0 ∷ 0 ∷ 0 ∷ 9 ∷ t₁ ∷ t₂ ∷ t₃ ∷ []) fits before

  tail_found : read_found buf (pos + 1) ≡ ok (skipped (pos + 1))
  unfolding read_found read_by_type rewind_unless
  tail_found =
      let n : ℕ = from_be32 (b ∷ 0 ∷ 0 ∷ 0 ∷ []) 0 in
      let nonzero_size : (n == 0) ≡ false = ground arith in
      let other_size : (n == 9) ≡ false = ground arith in
      rw (
        tail_header,
        unread_header pos,
        before_header,
        nonzero_size,
        other_size,
        unread_header pos,
        back_one,
      )

  -- On a stream of fewer than 2^64 bytes that ends in a byte that is not 0, then 0, 0, 0, 9 and
  -- three bytes that begin the name of no known type, the loop of `read_super_box`, once it
  -- stands before the 0, 0, 0, 9, skips a box of an unknown type and stands there again: no fuel
  -- lets it end.
  pub read_boxes_hangs : (f dest : ℕ) → read_boxes f buf dest (pos + 1) ≡ stuck
  unfolding read_boxes
  read_boxes_hangs zero dest = refl
  read_boxes_hangs (suc f) dest = rw tail_found (read_boxes_hangs f dest)

childless_size :
    (d : DescriptionBox)
    → length (write_box (super d nil)) < 2 ^ 32
    → (box_size (super d nil) ≡ length (write_box (super d nil)))
      × (length (write_box (super d nil)) ≡ 8 + length (write_description d))
unfolding box_size write_box
childless_size d h =
    let e = length-append (write_description d) [] in
    (omega (arith, e, description_size_lem d (omega (arith, e))), omega (arith, e))

boxes_nil_append : (l : List ℕ) → write_boxes nil ++ l ≡ l
unfolding write_boxes
boxes_nil_append l = refl

-- After a super box that holds no box the reader goes on to the well-formed box behind it, and
-- fails with an invalid box: both are written in fewer than 2^32 bytes, the description box is
-- well formed, the stream has fewer than 2^64 bytes, and there is fuel for the second box.
pub read_super_box-childless :
    (buf : List ℕ) (pos : ℕ) (rest : List ℕ) (d : DescriptionBox) (b : DataBox) (f : ℕ)
    → IsDescription d
    → IsBox b
    → length buf < 2 ^ 64
    → length (write_box (super d nil)) < 2 ^ 32
    → length (write_box b) < 2 ^ 32
    → length (write_box b) ≤ f
    → At buf pos (write_box (super d nil) ++ (write_box b ++ rest))
    → read_super_box (suc (suc f)) buf pos ≡ err invalid_jumb_box
unfolding read_super_box
read_super_box-childless buf pos rest d b f hd hb fits small small' fuel a =
    let next = write_box b ++ rest in
    let n = length (write_box (super d nil)) in
    let sizes = childless_size d small in
    let shape =
      write_super_parts d nil next
      ∙ ap
          (λ l.
            be32 (box_size (super d nil)) ++ 0x6a ∷ 0x75 ∷ 0x6d ∷ 0x62 ∷ (write_description d ++ l))
          (boxes_nil_append next) in
    let a' : At buf pos (be32 n ++ 0x6a ∷ 0x75 ∷ 0x6d ∷ 0x62 ∷ (write_description d ++ next)) =
      subst (λ k. At buf pos (be32 k ++ 0x6a ∷ 0x75 ∷ 0x6d ∷ 0x62 ∷ (write_description d ++ next)))
        sizes.0 (subst (At buf pos) shape a) in
    let end : pos + 8 + length (write_description d) ≡ pos + n = omega (arith, sizes.1) in
    let a₁ : At buf (pos + n) next = At-next (write_box (super d nil)) next a in
    let start : read_super_start buf pos ≡ ok (d, pos + n, pos + n) =
      subst (λ p. read_super_start buf pos ≡ ok (d, pos + n, p)) end
        (super_start_At buf pos d next n fits hd small (omega (arith, sizes.1))
          (At-room (write_box (super d nil)) next a) (omega (arith, sizes.1)) a') in
    let fails : read_boxes (suc f) buf (pos + n) (pos + n) ≡ err invalid_jumb_box =
      round buf fits hb f (pos + n) (pos + n) rest small' fuel a₁
      ∙ after_box_past (pos + n) (length (write_box b)) (length-write_box_ge b)
          (read_boxes f buf (pos + n) (pos + n + length (write_box b))) (as_read b) in
    rw (start, fails)
