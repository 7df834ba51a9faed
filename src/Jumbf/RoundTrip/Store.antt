-- ===== src/Jumbf/RoundTrip/Store.antt =====
-- Whole stores, and the description boxes that the library itself makes.
use c2pa_rs_html.Prelude.{
  ℕ, ◌^◌, ◌<◌, ◌≡◌, ◌≢◌, refl, ap, sym, ◌∙◌, ◌⊎◌, inl, inr, Bool-cases, ltb→lt, List, [], ◌∷◌, ◌++◌,
  append-nil, true, false, none, some, arith, ◌==◌, ltb, length, All, any, is_empty,
}
use mathlib.Core.Path.{subst}
use c2pa_rs_html.Result.{ok, err}
use c2pa_rs_html.Io.{At, At-start}
use c2pa_rs_html.Jumbf.Utf8.{is_utf8}
use c2pa_rs_html.Jumbf.Boxes.{
  DescriptionBox, DataBox, DataBoxes, super, new_description, set_salt, c_string, invalid_salt,
}
use c2pa_rs_html.Jumbf.Write.{write_box, write_store}
use c2pa_rs_html.Jumbf.ReadSuper.{read_super_box, read_store}
use c2pa_rs_html.Jumbf.RoundTrip.Description.{IsDescription}
use c2pa_rs_html.Jumbf.RoundTrip.Size.{IsBox}
use c2pa_rs_html.Jumbf.RoundTrip.Leaf.{as_read}
use c2pa_rs_html.Jumbf.RoundTrip.Super.{read_super_box-write_box}

write_store_lem : (b : DataBox) → write_store b ≡ write_box b
unfolding write_store
write_store_lem b = refl

-- A buffer that reads as a super box is not empty, so it reads as a store.
read_store_lem :
    (buf : List ℕ) (b : DataBox) (p : ℕ)
    → is_empty buf ≡ false
    → read_super_box (length buf) buf 0 ≡ ok (b, p)
    → read_store buf ≡ ok (b, p)
unfolding read_store
read_store_lem buf b p some_byte e = rw (some_byte, e) refl

written_is_some : (d : DescriptionBox) (bs : DataBoxes) → is_empty (write_box (super d bs)) ≡ false
unfolding write_box
written_is_some d bs = refl

not_any→All : (l : List ℕ) → any (λ b. b == 0) l ≡ false → All (λ b. b ≢ 0) l
not_any→All [] h = tt
not_any→All (b ∷ l) h = ground (arith, not_any→All l)

-- A store whose box tree is well formed and is written in fewer than 2^32 bytes is read back from its
-- bytes: the same tree, but for signature content boxes, which come back as UUID boxes, and the file
-- names of embedded files; and the reader ends behind the last byte.
pub read_store-write_store :
    (d : DescriptionBox) (bs : DataBoxes)
    → IsBox (super d bs)
    → length (write_store (super d bs)) < 2 ^ 32
    → read_store (write_store (super d bs))
      ≡ ok (as_read (super d bs), length (write_store (super d bs)))
read_store-write_store d bs h small =
    let x = super d bs in
    let e = write_store_lem x in
    let small' : length (write_box x) < 2 ^ 32 = subst (λ l. length l < 2 ^ 32) e small in
    let a : At (write_box x) 0 (write_box x ++ []) =
      subst (At (write_box x) 0) (sym (append-nil (write_box x))) (At-start (write_box x)) in
    rw e (
      read_store_lem (write_box x) (as_read x) (length (write_box x)) (written_is_some d bs) (
        read_super_box-write_box (write_box x) 0 [] d bs (length (write_box x)) h (omega arith)
          small' a (omega arith)
        ∙ ap (λ p. ok (as_read x, p)) (omega arith)))

-- What the library makes: a box with a label that is a non-empty text, and its salted version.
pub new_description-IsDescription :
    (l : List ℕ) (t : List ℕ)
    → length t ≡ 16
    → is_utf8 l ≡ true
    → is_empty l ≡ false
    → any (λ b. b == 0) l ≡ false
    → IsDescription (new_description l (some t))
new_description-IsDescription l t size text nonempty no_nul =
    let kept : c_string l ≡ l = rw no_nul in
    record {
      uuid_size = size;
      labelled = refl;
      label_text = rw kept text;
      label_nonempty = rw kept nonempty;
      label_no_nul = rw kept (not_any→All l no_nul);
      id_range = tt;
      id_toggle = refl;
      signature_size = tt;
      signature_toggle = refl;
      private_toggle = refl;
    }

-- A salt of at least 16 bytes is accepted by a well-formed description box that has no box id and no
-- signature: the result is well formed, holds that salt, and keeps its type and label. A shorter salt
-- is refused.
set_salt-IsDescription :
    (d : DescriptionBox) (salt : List ℕ)
    → IsDescription d
    → d.box_id ≡ none
    → d.signature ≡ none
    → ((length salt < 16) × (set_salt d salt ≡ err invalid_salt))
      ⊎ ((d' : DescriptionBox) × (set_salt d salt ≡ ok d')
          × IsDescription d'
          × (d'.private ≡ some salt)
          × (d'.label ≡ d.label)
          × (d'.box_uuid ≡ d.box_uuid))
unfolding set_salt
set_salt-IsDescription d salt h no_id no_sig = elim (Bool-cases (ltb (length salt) 16)) [
  | inl short ↦ inl (ltb→lt _ _ short, rw short)
  | inr long ↦ inr (
    record d { private = some salt; toggles = 19 },
    rw long,
    record {
      uuid_size = h.uuid_size;
      labelled = refl;
      label_text = h.label_text;
      label_nonempty = h.label_nonempty;
      label_no_nul = h.label_no_nul;
      id_range = h.id_range;
      id_toggle = rw no_id;
      signature_size = h.signature_size;
      signature_toggle = rw no_sig;
      private_toggle = refl;
    },
    refl,
    refl,
    refl,
  )
]
