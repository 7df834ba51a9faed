-- ===== src/Assets/Html/ReadBack.antt =====
-- A manifest store that is written into a page is read back, from a place that the store does not
-- decide.
use c2pa_rs_html.Prelude.{
  contains, ℕ, ◌+◌, ◌-◌, ◌<◌, ◌≡◌, refl, sym, ap, ◌∙◌, List, [], ◌∷◌, ◌++◌, append_assoc,
  append-nil, Text, true, false, Option, none, some, arith, if◌then◌else◌, any, all, length,
  length-append, take, drop, take-append_self, drop-append_self, drop-drop, is_empty, is_some,
  Bool-cases, inl, inr, All,
}
use c2pa_rs_html.Result.{ok}
use c2pa_rs_html.Jumbf.Utf8.{is_utf8, is_utf8-ascii, is_utf8-append}
use c2pa_rs_html.Assets.Trim.{trim, trim_end}
use c2pa_rs_html.Assets.Positions.{parts_at, three_parts}
use c2pa_rs_html.Assets.Html.{
  Crates, Match, c2pa_script_type, open_tag, close_tag, body_end, matched, read_to_string, replace,
  manifest_script, updated_html, write_cai, read_cai, detect_manifest_location, html_positions,
  add_required_segs, get_object_locations,
}
use c2pa_rs_html.Assets.Html.Page.{IsCrates, is_base64, is_open_angle, trim-base64, trim-line_break}

-- The parts of a page that stay before and behind the script, in the order in which the code tries.
abbrev pub Parts : Type 0
Parts = Text × Text

abbrev pub parts_around : Option Match → Text → Parts → Parts
parts_around none html others = others
parts_around (some (s, e)) html others = (take s html, drop e html)

abbrev pub before_end : Option Match → Text → Parts
before_end none html = (trim_end html, [])
before_end (some (s, e)) html = (take s html, body_end ++ drop e html)

abbrev pub kept_parts : Crates → Text → Parts
kept_parts c html = parts_around (c.full html) html (before_end (c.body html) html)

-- A page whose parts around the script are text, and whose front does not name the type of the script.
pub record IsPage (c : Crates) (html : Text) : Type 0 where
  pub text : is_utf8 html ≡ true
  pub front_text : is_utf8 ((kept_parts c html).0) ≡ true
  pub rest_text : is_utf8 ((kept_parts c html).1) ≡ true
  pub front_clean : contains c2pa_script_type ((kept_parts c html).0) ≡ false

abbrev pub page : Text → Text → Text → Text
page front content rest = front ++ (open_tag ++ (content ++ (close_tag ++ rest)))

-- The bytes before and behind the store, which do not depend on it.
abbrev pub before_store : Crates → Text → Text
before_store c html = (kept_parts c html).0 ++ open_tag

abbrev pub behind_store : Crates → Text → Text
behind_store c html = close_tag ++ (kept_parts c html).1

content_tail :
    (content rest : Text) → (content ++ close_tag) ++ rest ≡ content ++ (close_tag ++ rest)
content_tail content rest = append_assoc content close_tag rest

no_angle : (s : Text) → all is_base64 s ≡ true → any is_open_angle s ≡ false
no_angle [] h = refl
no_angle (b ∷ s) h = elim (Bool-cases (is_base64 b)) [
  | inl e ↦
      (let plain : is_open_angle b ≡ false = ground arith in rw plain (no_angle s (rw e at h)))
  | inr e ↦ (let clash = rw e at h in cc)
]

base64_ascii : (s : Text) → all is_base64 s ≡ true → All (λ b. b < 128) s
base64_ascii [] h = tt
base64_ascii (b ∷ s) h = elim (Bool-cases (is_base64 b)) [
  | inl e ↦ (ground arith, base64_ascii s (rw e at h))
  | inr e ↦ (let clash = rw e at h in cc)
]

-- The content stands behind the open tag.
matched-page :
    (front content rest : Text)
    → matched
        (page front content rest)
        (length front + length open_tag, length front + length open_tag + length content)
      ≡ content
matched-page front content rest =
    let start = length front + length open_tag in
    let size : start + length content - start ≡ length content = omega arith in
    rw
      (
        size,
        drop-drop (length open_tag) (length front) (page front content rest),
        drop-append_self front (open_tag ++ (content ++ (close_tag ++ rest))),
      )
      (take-append_self content (close_tag ++ rest))

is_utf8-page :
    (front content rest : Text)
    → is_utf8 front ≡ true
    → is_utf8 content ≡ true
    → is_utf8 rest ≡ true
    → is_utf8 (page front content rest) ≡ true
unfolding is_utf8
is_utf8-page front content rest f k r =
    is_utf8-append front (open_tag ++ (content ++ (close_tag ++ rest))) f (
      is_utf8-append open_tag (content ++ (close_tag ++ rest)) refl
        (is_utf8-append content (close_tag ++ rest) k (is_utf8-append close_tag rest refl r)))

locations-page :
    (c : Crates) (front content rest : Text)
    → html_positions c (page front content rest) (length front + length open_tag) (length content)
      ≡ three_parts (front ++ open_tag) content (close_tag ++ rest)
locations-page c front content rest =
    let start : length front + length open_tag ≡ length (front ++ open_tag) =
      sym (length-append front open_tag) in
    let left : length (page front content rest) - (length (front ++ open_tag) + length content)
        ≡ length (close_tag ++ rest) =
      omega (
        arith,
        length-append front open_tag,
        length-append front (open_tag ++ (content ++ (close_tag ++ rest))),
        length-append content (close_tag ++ rest),
      ) in
    rw start (
      ap
        (parts_at (length (front ++ open_tag)) (length content)
          (length (front ++ open_tag) + length content))
        left)

module _ (c : Crates) where
  updated_html-page :
      (html : Text) (store : List ℕ)
      → updated_html c html (manifest_script c store)
        ≡ page ((kept_parts c html).0) (c.encode store) ((kept_parts c html).1)
  updated_html-page html store = by_match (c.full html) (c.body html)
    where
      by_match :
          (f b : Option Match)
          → (if is_some f
              then replace f html (manifest_script c store)
              else if is_some b
              then replace b html (manifest_script c store ++ body_end)
              else trim_end html ++ manifest_script c store)
            ≡ page
                ((parts_around f html (before_end b html)).0)
                (c.encode store)
                ((parts_around f html (before_end b html)).1)
      by_match (some (s, e)) b =
          ap (λ l. take s html ++ (open_tag ++ l)) (content_tail (c.encode store) (drop e html))
      by_match none (some (s, e)) =
          ap (λ l. take s html ++ (open_tag ++ l))
            (append_assoc (c.encode store ++ close_tag) body_end (drop e html)
              ∙ content_tail (c.encode store) (body_end ++ drop e html))
      by_match none none =
          ap (λ l. trim_end html ++ (open_tag ++ (c.encode store ++ l)))
            (sym (append-nil close_tag))

  module _ (laws : IsCrates c) where
    detect-page :
        (front content rest : Text) (store : List ℕ)
        → is_utf8 front ≡ true
        → is_utf8 content ≡ true
        → is_utf8 rest ≡ true
        → contains c2pa_script_type front ≡ false
        → any is_open_angle content ≡ false
        → trim content ≡ c.encode store
        → is_empty store ≡ false
        → detect_manifest_location c (page front content rest)
          ≡ ok (some store, length front + length open_tag)
    unfolding detect_manifest_location read_to_string
    detect-page front content rest store f k r clean closed trimmed some_data =
        rw
          (
            is_utf8-page front content rest f k r,
            laws.capture_tag front content rest clean closed,
            matched-page front content rest,
            trimmed,
            laws.encode_some store some_data,
            laws.decode-encode store,
          )
          refl

    detect-encoded :
        (front rest : Text) (store : List ℕ)
        → is_utf8 front ≡ true
        → is_utf8 rest ≡ true
        → contains c2pa_script_type front ≡ false
        → is_empty store ≡ false
        → detect_manifest_location c (page front (c.encode store) rest)
          ≡ ok (some store, length front + length open_tag)
    detect-encoded front rest store f r clean =
        let base64 = laws.encode_base64 store in
        detect-page front (c.encode store) rest store f
          (is_utf8-ascii (c.encode store) (base64_ascii (c.encode store) base64)) r clean
          (no_angle (c.encode store) base64) (trim-base64 (c.encode store) base64)

    -- A store that is not empty, written into a page, stands base64-encoded between bytes of the page that
    -- do not depend on it; it is read back, and the object locations are those bytes and the encoded
    -- store. The kept parts of the page are UTF-8, and its front does not name the type of the script.
    pub read_cai-write_cai :
        (html : Text) (store : List ℕ)
        → IsPage c html
        → is_empty store ≡ false
        → (write_cai c html store
            ≡ ok (before_store c html ++ (c.encode store ++ behind_store c html)))
          × (read_cai c (before_store c html ++ (c.encode store ++ behind_store c html)) ≡ ok store)
          × (get_object_locations c (before_store c html ++ (c.encode store ++ behind_store c html))
              ≡ ok (three_parts (before_store c html) (c.encode store) (behind_store c html)))
    unfolding write_cai read_to_string read_cai get_object_locations add_required_segs
    read_cai-write_cai html store p some_data =
        let (front, rest) = kept_parts c html in
        let whole = append_assoc front open_tag (c.encode store ++ (close_tag ++ rest)) in
        let seen =
          detect-encoded front rest store p.front_text p.rest_text p.front_clean some_data in
        (
          rw p.text (ap ok (updated_html-page html store ∙ sym whole)),
          rw (whole, seen, some_data) refl,
          rw (whole, seen, some_data, seen) (ap ok (locations-page c front (c.encode store) rest)),
        )

    -- In a page with a line break between the open tag and the encoded store, the object locations take the line break
    -- for the first byte of the store and put the last byte of the store among those behind it.
    pub get_object_locations_line_break :
        (front rest : Text) (store : List ℕ)
        → is_utf8 front ≡ true
        → is_utf8 rest ≡ true
        → contains c2pa_script_type front ≡ false
        → is_empty store ≡ false
        → get_object_locations c (page front (10 ∷ c.encode store) rest)
          ≡ ok (
              parts_at
                (length (front ++ open_tag))
                (length (c.encode store))
                (length (front ++ open_tag) + length (c.encode store))
                (1 + length (close_tag ++ rest)))
    unfolding get_object_locations add_required_segs
    get_object_locations_line_break front rest store f r clean some_data =
        let base64 = laws.encode_base64 store in
        let content = 10 ∷ c.encode store in
        let text = is_utf8-ascii content (omega arith, base64_ascii (c.encode store) base64) in
        let seen =
          detect-page front content rest store f text r clean (no_angle (c.encode store) base64)
            (trim-line_break (c.encode store) base64) some_data in
        let start : length front + length open_tag ≡ length (front ++ open_tag) =
          sym (length-append front open_tag) in
        let left : length (page front content rest)
              - (length (front ++ open_tag) + length (c.encode store))
            ≡ 1 + length (close_tag ++ rest) =
          omega (
            arith,
            length-append front open_tag,
            length-append front (open_tag ++ (content ++ (close_tag ++ rest))),
            length-append (c.encode store) (close_tag ++ rest),
          ) in
        rw (seen, some_data, seen, start)
          (ap
            (λ n. ok (
              parts_at (length (front ++ open_tag)) (length (c.encode store))
                (length (front ++ open_tag) + length (c.encode store)) n))
            left)
