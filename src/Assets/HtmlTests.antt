-- ===== src/Assets/HtmlTests.antt =====
-- Runs of the HTML handler with toy crates: the script is found by its type, the end of the body by its
-- text, and a number is encoded as so many letters A and a B.
use c2pa_rs_html.Prelude.{
  starts_with-append_sep, contains, ℕ, zero, suc, ◌+◌, ◌≡◌, refl, ap, ◌∙◌, List, [], ◌∷◌, ◌++◌,
  Text, bytes, true, false, Option, none, some, arith, ◌==◌, if◌then◌else◌, starts_with, any, all,
  length, drop, drop-drop, drop-append_self, is_empty, Bool-cases, inl, inr,
}
use c2pa_rs_html.Result.{ok}
use c2pa_rs_html.Assets.Positions.{parts_at, three_parts}
use c2pa_rs_html.Assets.Html.{
  Crates, Match, c2pa_script_type, open_tag, close_tag, write_cai, read_cai, get_object_locations,
}
use c2pa_rs_html.Assets.Html.Page.{IsCrates, is_base64, is_open_angle}
use c2pa_rs_html.Assets.Html.ReadBack.{
  IsPage, page, read_cai-write_cai, get_object_locations_line_break,
}
use c2pa_rs_html.Hashing.Ranges.{new_range}
use c2pa_rs_html.Hashing.DataHash.{
  DataHash, new_data_hash, gen_hash_from_stream, verify_stream_hash,
}
use c2pa_rs_html.Hashing.DataHash.Verify.{bound}
use c2pa_rs_html.Hashing.RangesTests.{adder, adder-IsHasher, tested, tested-IsRangeSet, alg}
use c2pa_rs_html.Assets.Bound.{verify_stream_hash-write_cai}

abbrev shifted : ℕ → Option ℕ → Option ℕ
shifted k none = none
shifted k (some i) = some (k + i)

abbrev index_of : Text → Text → Option ℕ
index_of m [] = none
index_of m (b ∷ s) = if starts_with m (b ∷ s) then some 0 else shifted 1 (index_of m s)

abbrev until_angle : Text → ℕ
until_angle [] = 0
until_angle (b ∷ s) = if is_open_angle b then 0 else suc (until_angle s)

-- Behind the type of the script come a quote and an angle.
abbrev group_at : Text → Option ℕ → Option Match
group_at html none = none
group_at html (some i) = some (i + 27, i + 27 + until_angle (drop (i + 27) html))

abbrev seven_at : Option ℕ → Option Match
seven_at none = none
seven_at (some i) = some (i, i + 7)

abbrev letters : ℕ → Text → Text
letters zero s = 66 ∷ s
letters (suc n) s = 65 ∷ letters n s

abbrev encode : List ℕ → Text
encode [] = []
encode (n ∷ ns) = letters n (encode ns)

abbrev prepend : ℕ → Option (List ℕ) → Option (List ℕ)
prepend n none = none
prepend n (some ns) = some (n ∷ ns)

abbrev decode_from : ℕ → Text → Option (List ℕ)
decode_from n [] = if n == 0 then some [] else none
decode_from n (b ∷ s) = if b == 65 then decode_from (suc n) s else prepend n (decode_from 0 s)

abbrev toy : Crates
toy = record {
  capture = λ html. group_at html (index_of c2pa_script_type html);
  full = λ html. none;
  body = λ html. seven_at (index_of (bytes "</body>") html);
  head = λ html. none;
  encode = encode;
  decode = decode_from 0;
}

decode-letters :
    (k n : ℕ) (s : Text) → decode_from k (letters n s) ≡ prepend (k + n) (decode_from 0 s)
decode-letters k zero s = ap (λ m. prepend m (decode_from 0 s)) (omega arith)
decode-letters k (suc n) s =
    decode-letters (suc k) n s ∙ ap (λ m. prepend m (decode_from 0 s)) (omega arith)

decode-encode : (store : List ℕ) → decode_from 0 (encode store) ≡ some store
decode-encode [] = refl
decode-encode (n ∷ ns) =
    decode-letters 0 n (encode ns) ∙ rw (decode-encode ns) (ap (λ m. some (m ∷ ns)) (omega arith))

all-letters : (n : ℕ) (s : Text) → all is_base64 s ≡ true → all is_base64 (letters n s) ≡ true
all-letters zero s h = h
all-letters (suc n) s h = all-letters n s h

all-encode : (store : List ℕ) → all is_base64 (encode store) ≡ true
all-encode [] = refl
all-encode (n ∷ ns) = all-letters n (encode ns) (all-encode ns)

is_empty-letters : (n : ℕ) (s : Text) → is_empty (letters n s) ≡ false
is_empty-letters zero s = refl
is_empty-letters (suc n) s = refl

is_empty-encode : (store : List ℕ) → is_empty store ≡ false → is_empty (encode store) ≡ false
is_empty-encode [] h = h
is_empty-encode (n ∷ ns) h = is_empty-letters n (encode ns)

shifted-shifted : (k : ℕ) (o : Option ℕ) → shifted 1 (shifted k o) ≡ shifted (suc k) o
shifted-shifted k none = refl
shifted-shifted k (some i) = ap some (omega arith)

shifted_none : (o : Option ℕ) → o ≡ shifted 0 o
shifted_none none = refl
shifted_none (some i) = ap some (omega arith)

index_of-front :
    (m p r : Text)
    → any is_open_angle m ≡ false
    → contains m p ≡ false
    → index_of m (p ++ 60 ∷ r) ≡ shifted (length p) (index_of m (60 ∷ r))
index_of-front m [] r h k = shifted_none (index_of m (60 ∷ r))
index_of-front m (b ∷ p) r h k = elim (Bool-cases (starts_with m (b ∷ p))) [
  | inl e ↦ (let clash = rw e at k in cc)
  | inr e ↦
      (let away = starts_with-append_sep 60 m (b ∷ p) r h ∙ e in
        rw away (
          ap (shifted 1) (index_of-front m p r h (rw e at k))
          ∙ shifted-shifted (length p) (index_of m (60 ∷ r))))
]

until_angle-append :
    (s r : Text) → any is_open_angle s ≡ false → until_angle (s ++ 60 ∷ r) ≡ length s
until_angle-append [] r h = refl
until_angle-append (b ∷ s) r h = elim (Bool-cases (is_open_angle b)) [
  | inl e ↦ (let clash = rw e at h in cc)
  | inr e ↦ rw e (ap suc (until_angle-append s r (rw e at h)))
]

capture_tag :
    (front content rest : Text)
    → contains c2pa_script_type front ≡ false
    → any is_open_angle content ≡ false
    → group_at (page front content rest) (index_of c2pa_script_type (page front content rest))
      ≡ some (length front + length open_tag, length front + length open_tag + length content)
capture_tag front content rest clean closed =
    let found : index_of c2pa_script_type (page front content rest) ≡ some (length front + 14) =
      index_of-front c2pa_script_type front _ refl clean in
    let place : length front + 14 + 27 ≡ length front + 41 = omega arith in
    let cut : drop (length front + 41) (page front content rest) ≡ content ++ (close_tag ++ rest) =
      drop-drop 41 (length front) (page front content rest)
      ∙ ap (drop 41) (drop-append_self front (open_tag ++ (content ++ (close_tag ++ rest)))) in
    rw (found, place, cut, until_angle-append content _ closed) refl

toy-IsCrates : IsCrates toy
toy-IsCrates = record {
  decode-encode = decode-encode;
  encode_base64 = all-encode;
  encode_some = is_empty-encode;
  capture_tag = capture_tag;
}

abbrev html : Text
html = bytes "<html><body>hi </body></html>"

html-IsPage : IsPage toy html
unfolding c2pa_rs_html.Jumbf.Utf8.is_utf8
html-IsPage = record { text = refl; front_text = refl; rest_text = refl; front_clean = refl }

abbrev front : Text
front = bytes "<html><body>hi " ++ open_tag

abbrev rest : Text
rest = bytes "</script></body></html>"

read_cai-write_cai_example :
    (write_cai toy html (2 ∷ 0 ∷ []) ≡ ok (front ++ (bytes "AABB" ++ rest)))
    × (read_cai toy (front ++ (bytes "AABB" ++ rest)) ≡ ok (2 ∷ 0 ∷ []))
    × (get_object_locations toy (front ++ (bytes "AABB" ++ rest))
        ≡ ok (three_parts front (bytes "AABB") rest))
read_cai-write_cai_example = read_cai-write_cai toy toy-IsCrates html (2 ∷ 0 ∷ []) html-IsPage refl

get_object_locations_line_break_example :
    get_object_locations toy (page (bytes "<p>") (10 ∷ bytes "AABB") (bytes "</p>"))
    ≡ ok (parts_at 44 4 48 14)
unfolding c2pa_rs_html.Jumbf.Utf8.is_utf8
get_object_locations_line_break_example =
    get_object_locations_line_break toy toy-IsCrates (bytes "<p>") (bytes "</p>") (2 ∷ 0 ∷ []) refl
      refl refl refl

verify_stream_hash-write_cai_example :
    (first second : List ℕ) × (d' : DataHash) × (write_cai toy html (1 ∷ 1 ∷ []) ≡ ok first)
    × (gen_hash_from_stream adder tested
          (bound (new_data_hash alg alg) alg (new_range 56 4 ∷ []))
          first
        ≡ ok d')
    × (write_cai toy html (2 ∷ 0 ∷ []) ≡ ok second)
    × (verify_stream_hash adder tested d' second none ≡ ok tt)
verify_stream_hash-write_cai_example =
    verify_stream_hash-write_cai adder adder-IsHasher tested tested-IsRangeSet toy toy-IsCrates
      (new_data_hash alg alg) alg [] html (1 ∷ 1 ∷ []) (2 ∷ 0 ∷ []) html-IsPage refl refl refl refl
      refl (omega arith)
