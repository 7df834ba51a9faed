-- ===== src/Jumbf/Header.antt =====
-- `BoxType`, `BoxHeader` and `BoxReader::read_header` of sdk/src/jumbf/boxes.rs, over an in-memory
-- cursor: a reader takes the bytes of the stream and a position, and returns what it read and the new
-- position.
use c2pa_rs_html.Prelude.{ℕ, ◌+◌, ◌*◌, ◌^◌, List, Bool, ◌==◌, if◌then◌else◌, is_empty, length}
use c2pa_rs_html.Result.{Result, ok, ◌>>=◌, map_err}
use c2pa_rs_html.Error.{Error}
use c2pa_rs_html.Io.{from_be32, read_some, read_exact, seek_back}
use c2pa_rs_html.Jumbf.Boxes.{ParseError, invalid_box_header, io_error}

-- `BoxType`, with the constants of its `From<u32>`.
pub data BoxType : Type 0 where
  empty jumb jumd padding_type salt_hash json_type uuid_type jp2c_type : BoxType
  cbor_type embed_media_desc embed_content : BoxType
  unknown_box : ℕ → BoxType

unfoldable pub box_type : ℕ → BoxType
box_type t =
    if t == 0
    then empty
    else if t == 0x6a75_6d62
    then jumb
    else if t == 0x6a75_6d64
    then jumd
    else if t == 0x6672_6565
    then padding_type
    else if t == 0x6332_7368
    then salt_hash
    else if t == 0x6a73_6f6e
    then json_type
    else if t == 0x7575_6964
    then uuid_type
    else if t == 0x6a70_3263
    then jp2c_type
    else if t == 0x6362_6f72
    then cbor_type
    else if t == 0x6266_6462
    then embed_media_desc
    else if t == 0x6269_6462
    then embed_content
    else unknown_box t

pub record BoxHeader : Type 0 where
  pub name : BoxType
  pub size : ℕ

abbrev pub io {ℓ} : {A : Type ℓ} → Result Error A → Result ParseError A
io = map_err (λ _. io_error)

abbrev pub or_invalid_header {ℓ ℓ'} : {E : Type ℓ} {A : Type ℓ'} → Result E A → Result ParseError A
or_invalid_header = map_err (λ _. invalid_box_header)

-- `u64::from_be_bytes` of the eight bytes.
abbrev from_be64 : List ℕ → ℕ
from_be64 b = from_be32 b 0 * 2 ^ 32 + from_be32 b 4

-- A size of 1 announces a 64-bit size in the next eight bytes.
large_header : ℕ → List ℕ → ℕ → Result ParseError (BoxHeader × ℕ)
large_header typ buf p = do
  (b, p') ← io (read_exact 8 buf p)
  ok (record { name = box_type typ; size = from_be64 b }, p')

header_of : List ℕ → List ℕ → ℕ → Result ParseError (BoxHeader × ℕ)
unfolding large_header
header_of got buf p =
    if from_be32 got 0 == 1
    then large_header (from_be32 got 4) buf p
    else ok (record { name = box_type (from_be32 got 4); size = from_be32 got 0 }, p)

-- One `read` into a zeroed buffer of eight bytes: near the end it may bring fewer.
unfoldable pub read_header : List ℕ → ℕ → Result ParseError (BoxHeader × ℕ)
unfolding header_of
read_header buf pos =
    let got = read_some 8 buf pos in
    if is_empty got
    then ok (record { name = empty; size = 0 }, pos)
    else header_of got buf (pos + length got)

unfoldable pub unread_bytes : ℕ → Result ParseError ℕ
unread_bytes pos = io (seek_back 8 pos)

-- Behind a header whose size is not the one expected the reader goes back eight bytes.
unfoldable pub rewind_unless : Bool → ℕ → Result ParseError ℕ
unfolding unread_bytes
rewind_unless same pos = if same then ok pos else unread_bytes pos
