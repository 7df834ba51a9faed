-- ===== src/Assets/Png.antt =====
-- The PNG handler, sdk/src/asset_handlers/png_io.rs, on buffers. The encoder of chunks (png_pong) and
-- the parser that looks for a manifest (img_parts) are third-party code, and parameters.
pub mod File
pub mod Scan
pub mod Edit
pub mod Laws
pub mod ReadBack
pub mod Locations
use c2pa_rs_html.Prelude.{
  ℕ, zero, suc, ◌+◌, ◌-◌, ◌<◌, ◌≤◌, List, [], ◌∷◌, ◌++◌, Bool, true, false, not, ◌||◌, Option, none,
  some, length, keep, find, ltb, if◌then◌else◌, bytes, bytes_eq,
}
use c2pa_rs_html.Result.{Result, ok, err, panic, stuck, ◌>>=◌, map_err, ok_or, guard, ◌>>◌}
use c2pa_rs_html.Error.{
  Error, invalid_asset, jumbf_not_found, too_many_manifest_stores, embedding_error,
  unsupported_type,
}
use c2pa_rs_html.Io.{from_be32, read_exact, read_to_vec}
use c2pa_rs_html.Jumbf.Utf8.{is_utf8}
use c2pa_rs_html.Assets.Positions.{HashBlockObjectType, cai, other, HashObjectPositions, splice}

abbrev pub png_id : List ℕ
png_id = 137 ∷ 80 ∷ 78 ∷ 71 ∷ 13 ∷ 10 ∷ 26 ∷ 10 ∷ []

abbrev pub cai_chunk : List ℕ
cai_chunk = bytes "caBX"

abbrev pub img_hdr : List ℕ
img_hdr = bytes "IHDR"

abbrev pub png_end : List ℕ
png_end = bytes "IEND"

abbrev pub png_hdr_len : ℕ
png_hdr_len = 12

pub record PngChunkPos : Type 0 where
  pub start : ℕ
  pub size : ℕ
  pub name : List ℕ

abbrev pub chunk_end : PngChunkPos → ℕ
chunk_end c = c.start + c.size + png_hdr_len

abbrev pub invalid : Error → Error
invalid e = invalid_asset

abbrev pub push {ℓ} : {A : Type ℓ} → A → Result Error (List A) → Result Error (List A)
push x rest = rest >>= λ xs. ok (x ∷ xs)

-- One chunk from its start: its position, and where the next one starts.
unfoldable pub read_chunk : List ℕ → ℕ → Result Error (PngChunkPos × ℕ)
read_chunk buf current_pos = map_err invalid (read_exact 4 buf current_pos) >>= λ (size, p₁).
    map_err invalid (read_exact 4 buf p₁) >>= λ (name, p₂).
    map_err invalid (read_exact 4 buf (p₂ + from_be32 size 0)) >>= λ (crc, p₃).
    guard (is_utf8 name) invalid_asset
    >> ok (record { start = current_pos; size = from_be32 size 0; name = name }, p₃)

-- The loop over the chunks, on fuel; a chunk has at least 12 bytes.
unfoldable pub chunks_from : ℕ → List ℕ → ℕ → Result Error (List PngChunkPos)
chunks_from zero buf pos = stuck
chunks_from (suc fuel) buf pos = read_chunk buf pos >>= λ (pcp, p).
    let rest = chunks_from fuel buf p in
    if bytes_eq pcp.name png_end || ltb (length buf) p then ok (pcp ∷ []) else push pcp rest

unfoldable pub get_png_chunk_positions : List ℕ → Result Error (List PngChunkPos)
get_png_chunk_positions buf = map_err invalid (read_exact 8 buf 0) >>= λ (hdr, p).
    guard (bytes_eq hdr png_id) invalid_asset >> chunks_from (length buf) buf p

abbrev pub is_named : List ℕ → PngChunkPos → Bool
is_named name pcp = bytes_eq pcp.name name

unfoldable pub get_cai_data : List ℕ → Result Error (List ℕ)
get_cai_data buf = get_png_chunk_positions buf >>= λ ps.
    guard (not (ltb 1 (length (keep (is_named cai_chunk) ps)))) too_many_manifest_stores
    >> ok_or (find (is_named cai_chunk) ps) jumbf_not_found
    >>= λ pcp. read_to_vec pcp.size buf (pcp.start + 8) >>= λ (store, p). ok store

abbrev pub erase : List ℕ → Option PngChunkPos → Result Error (List ℕ)
erase buf none = ok buf
erase buf (some pcp) = splice buf pcp.start (chunk_end pcp) []

-- What the crate png_pong makes of a chunk of unknown type: nothing, on an error, or its bytes.
abbrev pub Encoder : Type 0
Encoder = List ℕ → List ℕ → Option (List ℕ)

unfoldable pub write_cai : Encoder → List ℕ → List ℕ → Result Error (List ℕ)
write_cai encode png_buf store_bytes = get_png_chunk_positions png_buf >>= λ ps.
    ok_or (encode cai_chunk store_bytes) embedding_error >>= λ cai_data.
    erase png_buf (find (is_named cai_chunk) ps) >>= λ erased.
    get_png_chunk_positions erased >>= λ ps'.
    ok_or (find (is_named img_hdr) ps') embedding_error >>= λ hdr.
    splice erased (chunk_end hdr) (chunk_end hdr) cai_data

unfoldable pub remove_cai_store : List ℕ → Result Error (List ℕ)
remove_cai_store png_buf =
    get_png_chunk_positions png_buf >>= λ ps. erase png_buf (find (is_named cai_chunk) ps)

-- What img_parts finds: no image it can read, another image, or a PNG with or without a manifest.
pub data ImgOut : Type 0 where
  unreadable another : ImgOut
  png : Bool → ImgOut

abbrev pub with_required : Encoder → List ℕ → ImgOut → Result Error (List ℕ)
with_required encode input unreadable = err invalid_asset
with_required encode input another = err unsupported_type
with_required encode input (png true) = ok input
with_required encode input (png false) = write_cai encode input []

abbrev pub add_required_chunks : Encoder → (List ℕ → ImgOut) → List ℕ → Result Error (List ℕ)
add_required_chunks encode parse input = with_required encode input (parse input)

-- The manifest, what stands before it, and what stands behind it.
abbrev pub locations : List ℕ → PngChunkPos → List HashObjectPositions
locations png_buf pcp =
    record { offset = pcp.start; size = pcp.size + png_hdr_len; htype = cai }
    ∷ record { offset = 0; size = pcp.start; htype = other }
    ∷ record { offset = chunk_end pcp; size = length png_buf - chunk_end pcp; htype = other }
    ∷ []

unfoldable pub get_object_locations :
    Encoder → (List ℕ → ImgOut) → List ℕ → Result Error (List HashObjectPositions)
get_object_locations encode parse input = add_required_chunks encode parse input >>= λ png_buf.
    get_png_chunk_positions png_buf >>= λ ps.
    ok_or (find (is_named cai_chunk) ps) jumbf_not_found >>= λ pcp. ok (locations png_buf pcp)
