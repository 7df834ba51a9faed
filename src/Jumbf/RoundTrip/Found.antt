-- ===== src/Jumbf/RoundTrip/Found.antt =====
-- A round of the reader's loop on each box that holds no other box.
use mathlib.Core.Path.{subst}
use c2pa_rs_html.Prelude.{
  ℕ, ◌+◌, ◌^◌, ◌<◌, ◌≡◌, refl, ap, ◌∙◌, List, [], ◌∷◌, ◌++◌, arith, length, false,
}
use c2pa_rs_html.Result.{ok}
use c2pa_rs_html.Io.{
  be32, from_be32, read_exact, seek_back, sub64, At, At-next, read_exact-At, read_to_vec-At,
}
use c2pa_rs_html.Jumbf.Boxes.{FileDescription, json, cbor, padding, jp2c, content, uuid, media}
use c2pa_rs_html.Jumbf.Header.{box_type, unread_bytes}
use c2pa_rs_html.Jumbf.ReadContent.{
  read_json_box, read_cbor_box, read_padding_box, read_jp2c_box, read_embedded_content_box,
  read_uuid_box, read_embedded_media_desc_box,
}
use c2pa_rs_html.Jumbf.ReadSuper.{read_found, is_empty_type, read_by_type, data_box}
use c2pa_rs_html.Jumbf.RoundTrip.Parts.{read_header-At, At-header}
use c2pa_rs_html.Jumbf.RoundTrip.Content.{content_start-At, read_content-At}
use c2pa_rs_html.Jumbf.RoundTrip.Media.{IsFileDescription, media_as_read, split_media_lem}

pub unread_header : (pos : ℕ) → unread_bytes (pos + 8) ≡ ok pos
unfolding unread_bytes seek_back
unread_header pos = ground arith

module _ {buf : List ℕ} {pos : ℕ} where
  -- A header that fits is read, and the reader goes back to it.
  pub found_by_type :
      (n t₀ t₁ t₂ t₃ : ℕ) (rest : List ℕ)
      → n < 2 ^ 32
      → 1 < n
      → is_empty_type (box_type (from_be32 (t₀ ∷ t₁ ∷ t₂ ∷ t₃ ∷ []) 0)) ≡ false
      → At buf pos (be32 n ++ t₀ ∷ t₁ ∷ t₂ ∷ t₃ ∷ rest)
      → read_found buf pos
        ≡ read_by_type (box_type (from_be32 (t₀ ∷ t₁ ∷ t₂ ∷ t₃ ∷ []) 0)) buf n pos
  unfolding read_found
  found_by_type n t₀ t₁ t₂ t₃ rest small big known a =
      rw (read_header-At n t₀ t₁ t₂ t₃ rest small big a, known, unread_header pos)

module _ {buf : List ℕ} {pos : ℕ} (fits : length buf < 2 ^ 64) (x rest : List ℕ)
    (small : 8 + length x < 2 ^ 32) where
  pub found_json :
      At buf pos (be32 (8 + length x) ++ 0x6a ∷ 0x73 ∷ 0x6f ∷ 0x6e ∷ (x ++ rest))
      → read_found buf pos ≡ ok (data_box (json x) (pos + (8 + length x)))
  unfolding read_by_type read_json_box box_type
  found_json a =
      found_by_type (8 + length x) 0x6a 0x73 0x6f 0x6e (x ++ rest) small (omega arith) refl a
      ∙ rw (read_content-At x rest 0x6a 0x73 0x6f 0x6e fits small a)

  pub found_cbor :
      At buf pos (be32 (8 + length x) ++ 0x63 ∷ 0x62 ∷ 0x6f ∷ 0x72 ∷ (x ++ rest))
      → read_found buf pos ≡ ok (data_box (cbor x) (pos + (8 + length x)))
  unfolding read_by_type read_cbor_box box_type
  found_cbor a =
      found_by_type (8 + length x) 0x63 0x62 0x6f 0x72 (x ++ rest) small (omega arith) refl a
      ∙ rw (read_content-At x rest 0x63 0x62 0x6f 0x72 fits small a)

  pub found_padding :
      At buf pos (be32 (8 + length x) ++ 0x66 ∷ 0x72 ∷ 0x65 ∷ 0x65 ∷ (x ++ rest))
      → read_found buf pos ≡ ok (data_box (padding x) (pos + (8 + length x)))
  unfolding read_by_type read_padding_box box_type
  found_padding a =
      found_by_type (8 + length x) 0x66 0x72 0x65 0x65 (x ++ rest) small (omega arith) refl a
      ∙ rw (read_content-At x rest 0x66 0x72 0x65 0x65 fits small a)

  pub found_jp2c :
      At buf pos (be32 (8 + length x) ++ 0x6a ∷ 0x70 ∷ 0x32 ∷ 0x63 ∷ (x ++ rest))
      → read_found buf pos ≡ ok (data_box (jp2c x) (pos + (8 + length x)))
  unfolding read_by_type read_jp2c_box box_type
  found_jp2c a =
      found_by_type (8 + length x) 0x6a 0x70 0x32 0x63 (x ++ rest) small (omega arith) refl a
      ∙ rw (read_content-At x rest 0x6a 0x70 0x32 0x63 fits small a)

  pub found_content :
      At buf pos (be32 (8 + length x) ++ 0x62 ∷ 0x69 ∷ 0x64 ∷ 0x62 ∷ (x ++ rest))
      → read_found buf pos ≡ ok (data_box (content x) (pos + (8 + length x)))
  unfolding read_by_type read_embedded_content_box box_type
  found_content a =
      found_by_type (8 + length x) 0x62 0x69 0x64 0x62 (x ++ rest) small (omega arith) refl a
      ∙ rw (read_content-At x rest 0x62 0x69 0x64 0x62 fits small a)

  -- A UUID box with data, and a signature content box.
  pub found_uuid :
      (u : List ℕ)
      → length u ≡ 16
      → 24 + length x < 2 ^ 32
      → At buf pos (be32 (24 + length x) ++ 0x75 ∷ 0x75 ∷ 0x69 ∷ 0x64 ∷ (u ++ (x ++ rest)))
      → read_found buf pos ≡ ok (data_box (uuid u x) (pos + (24 + length x)))
  unfolding read_by_type read_uuid_box box_type
  found_uuid u h small' a =
      let body = At-header (24 + length x) 0x75 0x75 0x69 0x64 (u ++ (x ++ rest)) a in
      let exact : read_exact 16 buf (pos + 8) ≡ ok (u, pos + 8 + length u) =
        subst (λ n. read_exact n buf (pos + 8) ≡ ok (u, pos + 8 + length u)) h
          (read_exact-At u (x ++ rest) body) in
      let size : sub64 (sub64 (24 + length x) 8) 16 ≡ length x = omega arith in
      found_by_type (24 + length x) 0x75 0x75 0x69 0x64 (u ++ (x ++ rest)) small' (omega arith) refl
        a
      ∙ rw
          (
            content_start-At (24 + length x) 0x75 0x75 0x69 0x64 (u ++ (x ++ rest)) small'
                (omega arith) a,
            exact,
            size,
            read_to_vec-At x rest fits (At-next u (x ++ rest) body),
          )
          (ap (λ p. ok (data_box (uuid u x) p)) (omega (arith, h)))

module _ {buf : List ℕ} {pos : ℕ} (fits : length buf < 2 ^ 64) (m : FileDescription)
    (rest : List ℕ) where
  pub found_media :
      IsFileDescription m
      → 9 + length (m.media_type ++ 0 ∷ []) < 2 ^ 32
      → At buf pos (
          be32 (9 + length (m.media_type ++ 0 ∷ []))
          ++ 0x62 ∷ 0x66 ∷ 0x64 ∷ 0x62 ∷ m.toggles ∷ ((m.media_type ++ 0 ∷ []) ++ rest))
      → read_found buf pos
        ≡ ok (data_box (media (media_as_read m)) (pos + (9 + length (m.media_type ++ 0 ∷ []))))
  unfolding read_by_type read_embedded_media_desc_box box_type
  found_media h small a =
      let text = m.media_type ++ 0 ∷ [] in
      let n : ℕ = 9 + length text in
      let body = At-header n 0x62 0x66 0x64 0x62 (m.toggles ∷ (text ++ rest)) a in
      let size : sub64 (sub64 n 8) 1 ≡ length text = omega arith in
      found_by_type n 0x62 0x66 0x64 0x62 (m.toggles ∷ (text ++ rest)) small (omega arith) refl a
      ∙ rw
          (
            content_start-At n 0x62 0x66 0x64 0x62 (m.toggles ∷ (text ++ rest)) small (omega arith)
                a,
            read_exact-At (m.toggles ∷ []) (text ++ rest) body,
            size,
            read_to_vec-At text rest fits (At-next (m.toggles ∷ []) (text ++ rest) body),
            split_media_lem m h,
          )
          (ap (λ p. ok (data_box (media (media_as_read m)) p)) (omega arith))
