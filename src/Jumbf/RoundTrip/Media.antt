-- ===== src/Jumbf/RoundTrip/Media.antt =====
-- The description of an embedded file: what is read of what was written.
use c2pa_rs_html.Prelude.{
  ℕ, ◌-◌, ◌≡◌, ◌≢◌, refl, List, [], ◌∷◌, ◌++◌, true, false, none, some, arith, ◌==◌, ==_self,
  Bool-cases, inl, inr, if◌then◌else◌, length, length-append, All, is_empty, get_last?,
  take-append_self, drop-append_self,
}
use c2pa_rs_html.Result.{ok, panic}
use c2pa_rs_html.Jumbf.Utf8.{is_utf8}
use c2pa_rs_html.Jumbf.Boxes.{FileDescription}
use c2pa_rs_html.Jumbf.ReadContent.{split_media, position_of_nul}

-- A media type that is a non-empty text.
pub record IsFileDescription (m : FileDescription) : Type 0 where
  pub media_text : is_utf8 m.media_type ≡ true
  pub media_nonempty : is_empty m.media_type ≡ false
  pub media_no_nul : All (λ b. b ≢ 0) m.media_type

-- The file name is never written; with toggles of 1 a lone NUL is read in its place.
abbrev pub media_as_read : FileDescription → FileDescription
media_as_read m = record m { file_name = if m.toggles == 1 then some (0 ∷ []) else none }

position_of_nul-append :
    (l : List ℕ) → All (λ b. b ≢ 0) l → position_of_nul (l ++ 0 ∷ []) ≡ some (length l)
unfolding position_of_nul
position_of_nul-append [] h = refl
position_of_nul-append (b ∷ l) h = rw (position_of_nul-append l h.1) (ground (arith, h.0))

get_last?-append : (l : List ℕ) (z : ℕ) → get_last? (l ++ z ∷ []) ≡ some z
get_last?-append [] z = refl
get_last?-append (a ∷ []) z = refl
get_last?-append (a ∷ b ∷ l) z = get_last?-append (b ∷ l) z

pub split_media_lem :
    (m : FileDescription)
    → IsFileDescription m
    → split_media m.toggles (m.media_type ++ 0 ∷ []) ≡ ok (media_as_read m)
unfolding split_media
split_media_lem m h =
    let l = m.media_type in
    let end : length (l ++ 0 ∷ []) - 1 ≡ length l = rw length-append (omega arith) in
    elim (Bool-cases (m.toggles == 1)) [
      | inl named ↦ rw (
        named,
        position_of_nul-append l h.media_no_nul,
        end,
        ==_self (length l),
        take-append_self l (0 ∷ []),
        drop-append_self l (0 ∷ []),
      )
      | inr unnamed ↦ rw (unnamed, get_last?-append l 0, end, take-append_self l (0 ∷ []))
    ]

-- With toggles other than 1, taking apart the empty text of an embedded file's description
-- panics.
pub split_media_empty : (togs : ℕ) → togs ≢ 1 → split_media togs [] ≡ panic
unfolding split_media
split_media_empty togs h = ground arith
