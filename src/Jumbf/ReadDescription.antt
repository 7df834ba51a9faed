-- ===== src/Jumbf/ReadDescription.antt =====
-- `BoxReader::read_desc_box` of sdk/src/jumbf/boxes.rs.
use Prim.Native.Nat.{bit_and}
use c2pa_rs_html.Prelude.{
  ℕ, ◌+◌, List, [], ◌∷◌, Bool, true, false, Option, none, some, ◌==◌, if◌then◌else◌, is_empty,
  length, get_or, drop,
}
use c2pa_rs_html.Result.{Result, ok, err, ◌>>=◌}
use c2pa_rs_html.Io.{sub64, from_be32, read_some, read_exact, read_to_vec}
use c2pa_rs_html.Jumbf.Boxes.{
  ParseError, invalid_box_header, io_error, invalid_description_box, DescriptionBox,
  new_description,
}
use c2pa_rs_html.Jumbf.Header.{
  BoxType, BoxHeader, salt_hash, io, or_invalid_header, read_header, rewind_unless,
}

-- The bytes before the first NUL; `none` where the stream ends first.
unfoldable pub read_label : List ℕ → Option (List ℕ)
read_label [] = none
read_label (b ∷ bs) =
    let rest = read_label bs in
    if b == 0 then some [] else elim rest [ none ↦ none | some l ↦ some (b ∷ l) ]

-- The optional parts of a description box: the part, what is left of the box, and the position.
unfoldable pub read_box_id : ℕ → List ℕ → ℕ → ℕ → Result ParseError (Option ℕ × ℕ × ℕ)
read_box_id togs buf left pos =
    if bit_and togs 4 == 4
    then (do (b, p) ← io (read_exact 4 buf pos); ok (some (from_be32 b 0), sub64 left 4, p))
    else ok (none, left, pos)

unfoldable pub read_signature : ℕ → List ℕ → ℕ → ℕ → Result ParseError (Option (List ℕ) × ℕ × ℕ)
read_signature togs buf left pos =
    if bit_and togs 8 == 8
    then (do (b, p) ← io (read_exact 32 buf pos); ok (some b, sub64 left 32, p))
    else ok (none, left, pos)

abbrev is_salt_hash : BoxType → Bool
is_salt_hash salt_hash = true
is_salt_hash _ = false

read_salt : BoxHeader → List ℕ → ℕ → ℕ → Result ParseError (Option (List ℕ) × ℕ × ℕ)
read_salt h buf left pos =
    if is_salt_hash h.name
    then (do
      (b, p) ← or_invalid_header (read_to_vec (sub64 h.size 8) buf pos)
      ok (some b, sub64 left h.size, p))
    else err invalid_box_header

unfoldable pub read_private : ℕ → List ℕ → ℕ → ℕ → Result ParseError (Option (List ℕ) × ℕ × ℕ)
unfolding read_salt
read_private togs buf left pos =
    if bit_and togs 16 == 16
    then (do
      (h, p) ← or_invalid_header (read_header buf pos)
      if h.size == 0
          then err invalid_box_header
          else (do p' ← rewind_unless (h.size == sub64 left 8) p; read_salt h buf left p'))
    else ok (none, left, pos)

-- What follows the label.
unfoldable pub read_description_rest :
    List ℕ → ℕ → List ℕ → List ℕ → ℕ → ℕ → Result ParseError (DescriptionBox × ℕ)
read_description_rest id togs l buf left pos = do
  (bxid, left₁, p₁) ← read_box_id togs buf left pos
  (sig, left₂, p₂) ← read_signature togs buf left₁ p₁
  (priv, left₃, p₃) ← read_private togs buf left₂ p₂
  if left₃ == 8
      then ok (
        record {
          box_uuid = id;
          toggles = togs;
          label = l;
          box_id = bxid;
          signature = sig;
          private = priv;
        },
        p₃,
      )
      else err invalid_box_header

-- From the label on; `p` is the position behind the toggles.
unfoldable pub read_labelled : List ℕ → ℕ → List ℕ → ℕ → ℕ → Result ParseError (DescriptionBox × ℕ)
read_labelled id togs buf left p =
    if bit_and togs 3 == 3
    then elim (read_label (drop p buf)) [
      | none ↦ err io_error
      | some l ↦
          read_description_rest id togs l buf (sub64 left (length l + 1)) (p + (length l + 1))
    ]
    else err invalid_description_box

unfoldable pub read_desc_box : List ℕ → ℕ → ℕ → Result ParseError (DescriptionBox × ℕ)
read_desc_box buf size pos =
    let id = read_some 16 buf pos in
    if is_empty id then ok (new_description [] none, pos) else do
      (t, p) ← io (read_exact 1 buf (pos + length id))
      read_labelled id (get_or t 0 0) buf (sub64 (sub64 size (length id)) 1) p
