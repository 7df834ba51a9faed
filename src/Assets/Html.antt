-- ===== src/Assets/Html.antt =====
-- The HTML handler, sdk/src/asset_handlers/html_io.rs, on buffers. The manifest stands base64-encoded in a
-- script tag. The crates regex and base64 are third-party code, and parameters.
pub mod Page
pub mod ReadBack
use c2pa_rs_html.Prelude.{
  ℕ, ◌+◌, ◌-◌, List, [], ◌∷◌, ◌++◌, Text, bytes, Bool, true, false, Option, none, some, length,
  take, drop, is_empty, is_some, if◌then◌else◌,
}
use c2pa_rs_html.Result.{Result, ok, err, ◌>>=◌, ok_or}
use c2pa_rs_html.Error.{Error, io_error, invalid_asset, jumbf_not_found}
use c2pa_rs_html.Jumbf.Utf8.{is_utf8}
use c2pa_rs_html.Assets.Trim.{trim, trim_end}
use c2pa_rs_html.Assets.Positions.{HashObjectPositions, cai, other}

-- Where a match starts and ends.
abbrev pub Match : Type 0
Match = ℕ × ℕ

-- The crates: for each pattern of the code the first match in a text (`capture` gives group 1 of the match of
-- C2PA_REGEX_CAPTURE), and the standard base64 engine.
pub record Crates : Type 0 where
  pub capture : Text → Option Match
  pub full : Text → Option Match
  pub body : Text → Option Match
  pub head : Text → Option Match
  pub encode : List ℕ → Text
  pub decode : Text → Option (List ℕ)

abbrev pub c2pa_script_type : Text
c2pa_script_type = bytes "application/c2pa-manifest"

abbrev pub open_tag : Text
open_tag = bytes "<script type=\"" ++ (c2pa_script_type ++ bytes "\">")

abbrev pub close_tag : Text
close_tag = bytes "</script>"

abbrev pub body_end : Text
body_end = bytes "</body>"

-- `Read::read_to_string` from a position.
unfoldable pub read_to_string : List ℕ → ℕ → Result Error Text
read_to_string buf pos = if is_utf8 (drop pos buf) then ok (drop pos buf) else err io_error

-- `Regex::replace`: the first match is replaced; base64 has no `$`, which would stand for a group.
abbrev pub replace : Option Match → Text → Text → Text
replace none html new = html
replace (some (s, e)) html new = take s html ++ (new ++ drop e html)

-- The text of a match.
abbrev pub matched : Text → Match → Text
matched html (s, e) = take (e - s) (drop s html)

abbrev pub match_end : Option Match → ℕ
match_end none = 0
match_end (some (s, e)) = e

abbrev pub found : ℕ → Option (List ℕ) → Result Error (Option (List ℕ) × ℕ)
found s none = err invalid_asset
found s (some manifest) = ok (some manifest, s)

module _ (c : Crates) where
  abbrev pub manifest_script : List ℕ → Text
  manifest_script store_bytes = open_tag ++ (c.encode store_bytes ++ close_tag)

  abbrev pub updated_html : Text → Text → Text
  updated_html html script =
      if is_some (c.full html)
      then replace (c.full html) html script
      else if is_some (c.body html)
      then replace (c.body html) html (script ++ body_end)
      else trim_end html ++ script

  unfoldable pub write_cai : List ℕ → List ℕ → Result Error (List ℕ)
  write_cai input store_bytes =
      read_to_string input 0 >>= λ html. ok (updated_html html (manifest_script store_bytes))

  -- Without a manifest: behind the head tag.
  abbrev pub not_found : Text → Result Error (Option (List ℕ) × ℕ)
  not_found html = ok (none, match_end (c.head html))

  abbrev pub captured : Text → Option Match → Result Error (Option (List ℕ) × ℕ)
  captured html none = not_found html
  captured html (some (s, e)) =
      let trimmed = trim (matched html (s, e)) in
      if is_empty trimmed then not_found html else found s (c.decode trimmed)

  -- The manifest, and where its text starts.
  unfoldable pub detect_manifest_location : List ℕ → Result Error (Option (List ℕ) × ℕ)
  detect_manifest_location input = read_to_string input 0 >>= λ html. captured html (c.capture html)

  abbrev pub needs_manifest : Option (List ℕ) → Bool
  needs_manifest none = true
  needs_manifest (some manifest) = is_empty manifest

  unfoldable pub read_cai : List ℕ → Result Error (List ℕ)
  read_cai asset_reader = detect_manifest_location asset_reader >>= λ (manifest_opt, p).
      if needs_manifest manifest_opt
      then err jumbf_not_found
      else ok_or manifest_opt jumbf_not_found

  unfoldable pub add_required_segs : List ℕ → Result Error (List ℕ)
  add_required_segs input = detect_manifest_location input >>= λ (encoded_manifest_opt, p).
      if needs_manifest encoded_manifest_opt
      then write_cai input (bytes "placeholder manifest")
      else ok input

  abbrev pub html_positions : List ℕ → ℕ → ℕ → List HashObjectPositions
  html_positions buffer start b64_len =
      record { offset = start; size = b64_len; htype = cai }
      ∷ record { offset = 0; size = start; htype = other }
      ∷ record { offset = start + b64_len; size = length buffer - (start + b64_len); htype = other }
      ∷ []

  unfoldable pub get_object_locations : List ℕ → Result Error (List HashObjectPositions)
  get_object_locations input = add_required_segs input >>= λ buffer.
      detect_manifest_location buffer >>= λ (manifest_opt, start).
      ok_or manifest_opt jumbf_not_found >>= λ manifest.
      ok (html_positions buffer start (length (c.encode manifest)))

  -- The stream is read from where it stands.
  unfoldable pub remove_cai_store : List ℕ → ℕ → Result Error (List ℕ)
  remove_cai_store input pos =
      read_to_string input pos >>= λ html. ok (replace (c.full html) html [])
