-- ===== src/Jumbf/Boxes.antt =====
-- The boxes of sdk/src/jumbf/boxes.rs. A fixed array of bytes is a list, whose length the
-- well-formedness predicates state.
use c2pa_rs_html.Prelude.{
  ℕ, List, [], Option, none, some, ltb, if◌then◌else◌, length, any, ◌==◌, replicate,
}
use c2pa_rs_html.Result.{Result, ok, err}
use c2pa_rs_html.Jumbf.Utf8.{is_utf8}

pub data ParseError : Type 0 where
  unexpected_eof invalid_box_start invalid_box_header invalid_box_range : ParseError
  invalid_jumbf_header invalid_jumb_box invalid_uuid_value invalid_json_box : ParseError
  invalid_cbor_box invalid_jp2c_box invalid_uuid_box invalid_embedded_file_box : ParseError
  invalid_unknown_box expected_jumd_error io_error invalid_salt : ParseError
  invalid_description_box : ParseError

-- `label` holds the bytes of the C string before its NUL; `private` holds the salt of the private
-- salt box.
pub record DescriptionBox : Type 0 where
  pub box_uuid : List ℕ
  pub toggles : ℕ
  pub label : List ℕ
  pub box_id : Option ℕ
  pub signature : Option (List ℕ)
  pub private : Option (List ℕ)

-- `JUMBFEmbeddedFileDescriptionBox`
pub record FileDescription : Type 0 where
  pub toggles : ℕ
  pub media_type : List ℕ
  pub file_name : Option (List ℕ)

-- `dyn BMFFBox`, by the types that implement it and are written with a header. `signature` is
-- `CAISignatureContentBox`, `media` is `JUMBFEmbeddedFileDescriptionBox`, and `content` is
-- `JUMBFEmbeddedFileContentBox`.
mutual
  pub data DataBox : Type 0 where
    super : DescriptionBox → DataBoxes → DataBox
    json cbor padding jp2c content : List ℕ → DataBox
    uuid signature : List ℕ → List ℕ → DataBox
    media : FileDescription → DataBox

  pub data DataBoxes : Type 0 where
    nil : DataBoxes
    cons : DataBox → DataBoxes → DataBoxes

-- `CString::new(s).unwrap_or_default()`: a text with a NUL inside gives the empty C string.
abbrev pub c_string : List ℕ → List ℕ
c_string s = if any (λ b. b == 0) s then [] else s

-- `JUMBFDescriptionBox::new`; the UUID is given by its bytes, `none` for what is no hex of 16 bytes.
abbrev pub new_description : List ℕ → Option (List ℕ) → DescriptionBox
new_description box_label a_type = record {
  box_uuid = elim a_type [ none ↦ replicate 16 0 | some t ↦ t ];
  toggles = 3;
  label = c_string box_label;
  box_id = none;
  signature = none;
  private = none;
}

-- `JUMBFDescriptionBox::set_salt`
unfoldable pub set_salt : DescriptionBox → List ℕ → Result ParseError DescriptionBox
set_salt d salt =
    if ltb (length salt) 16
    then err invalid_salt
    else ok (record d { private = some salt; toggles = 19 })

-- `self.label.to_str().unwrap_or_default()`, and `label()`.
unfoldable pub label_str : List ℕ → List ℕ
label_str l = if is_utf8 l then l else []

-- `JUMBFEmbeddedFileDescriptionBox::new`
unfoldable pub new_file_description : List ℕ → Option (List ℕ) → FileDescription
new_file_description media_type none = record {
  toggles = 0;
  media_type = c_string media_type;
  file_name = none;
}
new_file_description media_type (some f) = record {
  toggles = 1;
  media_type = c_string media_type;
  file_name = some (c_string f);
}
