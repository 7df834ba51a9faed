-- ===== src/Jumbf/RoundTrip/Description.antt =====
-- A description box reads back.
use Prim.Native.Nat.{bit_and}
use c2pa_rs_html.Prelude.{
  ℕ, ◌+◌, ◌-◌, ◌^◌, ◌<◌, ◌≡◌, ◌≢◌, ap, sym, ◌∙◌, List, [], ◌∷◌, ◌++◌, append_assoc, true, false,
  arith, ◌==◌, length, length-append, All, is_some, is_empty,
}
use mathlib.Core.Path.{subst}
use c2pa_rs_html.Result.{ok}
use c2pa_rs_html.Io.{read_some, sub64, At, At-next, At-take, read_exact-At}
use c2pa_rs_html.Jumbf.Utf8.{is_utf8}
use c2pa_rs_html.Jumbf.Boxes.{DescriptionBox, label_str}
use c2pa_rs_html.Jumbf.Write.{
  write_c_string, write_box_id, write_opt, write_salt, write_description_payload,
}
use c2pa_rs_html.Jumbf.ReadDescription.{read_description_rest, read_labelled, read_desc_box}
use c2pa_rs_html.Jumbf.RoundTrip.Parts.{
  InRange, HasLength, read_label-nul, read_box_id-At, read_signature-At, read_private-At,
}

-- What a description box has when its fields are of the sizes that their types say, its label is a
-- non-empty text, and its toggles announce exactly the parts that are there.
pub record IsDescription (d : DescriptionBox) : Type 0 where
  pub uuid_size : length d.box_uuid ≡ 16
  pub labelled : bit_and d.toggles 3 ≡ 3
  pub label_text : is_utf8 d.label ≡ true
  pub label_nonempty : is_empty d.label ≡ false
  pub label_no_nul : All (λ b. b ≢ 0) d.label
  pub id_range : InRange d.box_id
  pub id_toggle : (bit_and d.toggles 4 == 4) ≡ is_some d.box_id
  pub signature_size : HasLength 32 d.signature
  pub signature_toggle : (bit_and d.toggles 8 == 8) ≡ is_some d.signature
  pub private_toggle : (bit_and d.toggles 16 == 16) ≡ is_some d.private

-- A C string that is a non-empty text is written whole.
pub write_c_string_lem :
    (l : List ℕ) → is_utf8 l ≡ true → is_empty l ≡ false → write_c_string l ≡ l ++ 0 ∷ []
unfolding write_c_string label_str
write_c_string_lem l u e = rw (u, e)

module _ (d : DescriptionBox) (h : IsDescription d) (rest : List ℕ) where
  abbrev id_part : List ℕ
  id_part = write_box_id d.box_id

  abbrev sig_part : List ℕ
  sig_part = write_opt (λ s. s) d.signature

  abbrev salt_part : List ℕ
  salt_part = write_opt write_salt d.private

  payload_parts :
      write_description_payload d ++ rest
      ≡ d.box_uuid ++ d.toggles ∷ (d.label ++ 0 ∷ (id_part ++ (sig_part ++ (salt_part ++ rest))))
  unfolding write_description_payload
  payload_parts = rw (write_c_string_lem d.label h.label_text h.label_nonempty) (simp append_assoc)

  length-payload :
      length (write_description_payload d)
      ≡ 18 + length d.label + length id_part + length sig_part + length salt_part
  unfolding write_description_payload
  length-payload =
      rw (write_c_string_lem d.label h.label_text h.label_nonempty)
        (simp length-append (omega (arith, h.uuid_size)))

  module _ {buf : List ℕ} (fits : length buf < 2 ^ 64) where
    rest-At :
        (pos left : ℕ)
        → left ≡ length id_part + length sig_part + length salt_part + 8
        → left < 2 ^ 32
        → At buf pos (id_part ++ (sig_part ++ (salt_part ++ rest)))
        → read_description_rest d.box_uuid d.toggles d.label buf left pos
          ≡ ok (d, pos + length id_part + length sig_part + length salt_part)
    unfolding read_description_rest
    rest-At pos left e small a =
        let a₁ = At-next id_part (sig_part ++ (salt_part ++ rest)) a in
        let a₂ = At-next sig_part (salt_part ++ rest) a₁ in
        rw (
          read_box_id-At (sig_part ++ (salt_part ++ rest)) d.toggles left d.box_id h.id_range
              h.id_toggle (omega arith) (omega arith) a,
          read_signature-At (salt_part ++ rest) d.toggles (left - length id_part) d.signature
              h.signature_size h.signature_toggle (omega arith) (omega arith) a₁,
          read_private-At rest d.toggles (left - length id_part - length sig_part) d.private
              h.private_toggle fits (omega arith) (omega arith) a₂,
        )

    labelled_At :
        (pos left : ℕ)
        → left ≡ length d.label + 1 + (length id_part + length sig_part + length salt_part) + 8
        → left < 2 ^ 32
        → At buf pos (d.label ++ 0 ∷ (id_part ++ (sig_part ++ (salt_part ++ rest))))
        → read_labelled d.box_uuid d.toggles buf left pos
          ≡ ok (d, pos + (length d.label + 1) + length id_part + length sig_part + length salt_part)
    unfolding read_labelled
    labelled_At pos left e small a =
        let parts = id_part ++ (sig_part ++ (salt_part ++ rest)) in
        let a' : At buf pos ((d.label ++ 0 ∷ []) ++ parts) =
          subst (At buf pos) (sym (append_assoc d.label (0 ∷ []) parts)) a in
        let end : length (d.label ++ 0 ∷ []) ≡ length d.label + 1 =
          rw length-append (omega arith) in
        let a₁ : At buf (pos + (length d.label + 1)) parts =
          subst (λ n. At buf (pos + n) parts) end (At-next (d.label ++ 0 ∷ []) parts a') in
        rw (h.labelled, a.here, read_label-nul d.label parts h.label_no_nul)
          (rest-At (pos + (length d.label + 1)) (sub64 left (length d.label + 1)) (omega arith)
            (omega arith) a₁)

    pub read_desc_box-At :
        (pos : ℕ)
        → length (write_description_payload d) + 8 < 2 ^ 32
        → At buf pos (write_description_payload d ++ rest)
        → read_desc_box buf (8 + length (write_description_payload d)) pos
          ≡ ok (d, pos + length (write_description_payload d))
    unfolding read_desc_box
    read_desc_box-At pos small a =
        let a₀ = subst (At buf pos) payload_parts a in
        let got : read_some 16 buf pos ≡ d.box_uuid =
          subst (λ n. read_some n buf pos ≡ d.box_uuid) h.uuid_size (At-take d.box_uuid _ a₀) in
        let some_bytes : is_empty d.box_uuid ≡ false = ground (arith, h.uuid_size) in
        let a₁ = At-next d.box_uuid _ a₀ in
        let a₂ = At-next (d.toggles ∷ []) _ a₁ in
        let sizes = length-payload in
        rw (got, some_bytes, read_exact-At (d.toggles ∷ []) _ a₁)
          (labelled_At (pos + length d.box_uuid + 1) _ (omega (arith, sizes, h.uuid_size))
              (omega (arith, sizes, h.uuid_size)) a₂
            ∙ ap (λ p. ok (d, p)) (omega (arith, sizes)))
