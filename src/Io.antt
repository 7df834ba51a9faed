-- ===== src/Io.antt =====
-- Reading from an in-memory `std::io::Cursor`, and sdk/src/utils/io_utils.rs. A stream is its bytes
-- and a position; the position may stand past the end.
use mathlib.Core.Path.{subst}
use c2pa_rs_html.Prelude.{
  ℕ, ◌+◌, ◌-◌, ◌*◌, ◌/◌, ◌%◌, ◌^◌, ◌≤◌, ◌<◌, ◌≡◌, false, refl, ap, sym, ◌∙◌, List, [], ◌∷◌, ◌++◌,
  arith, ltb, leb, le→leb, if◌then◌else◌, length, get_or, take, drop, drop-drop, take-append_self,
  drop-append_self, length-append, length-drop,
}
use c2pa_rs_html.Result.{Result, ok, err}
use c2pa_rs_html.Error.{Error, io_error, bad_param}

-- u32 and u64 arithmetic of a release build wraps.
abbrev pub u32 : ℕ → ℕ
u32 n = n % 2 ^ 32

abbrev pub u64 : ℕ → ℕ
u64 n = n % 2 ^ 64

abbrev pub sub64 : ℕ → ℕ → ℕ
sub64 a b = (a + 2 ^ 64 - b) % 2 ^ 64

-- `u32::to_be_bytes`, `WriteBytesExt::write_u32::<BigEndian>`.
abbrev pub be32 : ℕ → List ℕ
be32 n = n / 2 ^ 24 % 256 ∷ n / 2 ^ 16 % 256 ∷ n / 2 ^ 8 % 256 ∷ n % 256 ∷ []

-- `u64::to_be_bytes`.
abbrev pub be64 : ℕ → List ℕ
be64 n = be32 (n / 2 ^ 32) ++ be32 n

-- `u32::from_be_bytes` of four bytes from index `i` of a zeroed buffer that starts with `got`.
abbrev pub from_be32 : List ℕ → ℕ → ℕ
from_be32 got i =
    ((get_or got i 0 * 256 + get_or got (i + 1) 0) * 256 + get_or got (i + 2) 0) * 256
    + get_or got (i + 3) 0

-- `Read::read` of a cursor into a buffer of `n` bytes.
abbrev pub read_some : ℕ → List ℕ → ℕ → List ℕ
read_some n buf pos = take n (drop pos buf)

-- `Read::read_exact` of a cursor: the bytes and the new position.
unfoldable pub read_exact : ℕ → List ℕ → ℕ → Result Error (List ℕ × ℕ)
read_exact n buf pos =
    if leb (pos + n) (length buf) then ok (take n (drop pos buf), pos + n) else err io_error

-- `ReaderUtils::read_to_vec`. Memory is taken to suffice.
unfoldable pub read_to_vec : ℕ → List ℕ → ℕ → Result Error (List ℕ × ℕ)
read_to_vec n buf pos =
    if leb (2 ^ 64) (pos + n)
    then err bad_param
    else if ltb (length buf) (pos + n)
    then err bad_param
    else ok (take n (drop pos buf), pos + n)

-- `seek(SeekFrom::Current(-n))`.
unfoldable pub seek_back : ℕ → ℕ → Result Error ℕ
seek_back n pos = if ltb pos n then err io_error else ok (pos - n)

-- `insert_data_at`: what is copied to the output.
unfoldable pub insert_data_at : List ℕ → ℕ → List ℕ → List ℕ
insert_data_at source location bytes = take location source ++ (bytes ++ drop location source)

-- `patch_stream`: what is copied to the output.
unfoldable pub patch_stream : List ℕ → ℕ → ℕ → List ℕ → Result Error (List ℕ)
patch_stream source start_location replace_len bytes =
    if ltb (length source) (u64 (start_location + replace_len))
    then err bad_param
    else ok
        (take start_location source ++ (bytes ++ drop (u64 (start_location + replace_len)) source))

-- What stands in the stream from a position that is not past the end.
pub record At (buf : List ℕ) (pos : ℕ) (rest : List ℕ) : Type 0 where
  pub within : pos ≤ length buf
  pub here : drop pos buf ≡ rest

module _ {buf : List ℕ} {pos : ℕ} where
  At-length : {xs : List ℕ} → At buf pos xs → length xs ≡ length buf - pos
  At-length a = sym (ap length a.here) ∙ length-drop pos buf

  pub At-room : (xs ys : List ℕ) → At buf pos (xs ++ ys) → pos + length xs ≤ length buf
  At-room xs ys a = omega (arith, At-length a, length-append xs ys, a.within)

  -- Past a part that was read stands what follows it.
  pub At-next : (xs ys : List ℕ) → At buf pos (xs ++ ys) → At buf (pos + length xs) ys
  At-next xs ys a = record {
    within = At-room xs ys a;
    here = drop-drop (length xs) pos buf ∙ ap (drop (length xs)) a.here ∙ drop-append_self xs ys;
  }

  pub At-take : (xs ys : List ℕ) → At buf pos (xs ++ ys) → take (length xs) (drop pos buf) ≡ xs
  At-take xs ys a = ap (take (length xs)) a.here ∙ take-append_self xs ys

  pub read_exact-At :
      (xs ys : List ℕ)
      → At buf pos (xs ++ ys)
      → read_exact (length xs) buf pos ≡ ok (xs, pos + length xs)
  unfolding read_exact
  read_exact-At xs ys a = rw (le→leb _ _ (At-room xs ys a), At-take xs ys a)

  pub read_to_vec-At :
      (xs ys : List ℕ)
      → length buf < 2 ^ 64
      → At buf pos (xs ++ ys)
      → read_to_vec (length xs) buf pos ≡ ok (xs, pos + length xs)
  unfolding read_to_vec
  read_to_vec-At xs ys fits a = rw (At-take xs ys a) (ground (arith, At-room xs ys a))

module _ {buf : List ℕ} {pos : ℕ} (k : ℕ) (xs ys : List ℕ) (size : length xs ≡ k) where
  pub At-skip : At buf pos (xs ++ ys) → At buf (pos + k) ys
  At-skip a = subst (λ n. At buf (pos + n) ys) size (At-next xs ys a)

  pub read_exact-size : At buf pos (xs ++ ys) → read_exact k buf pos ≡ ok (xs, pos + k)
  read_exact-size a =
      subst (λ n. read_exact n buf pos ≡ ok (xs, pos + n)) size (read_exact-At xs ys a)

-- Reading never leaves the stream, and moves on by as many bytes as it was asked for.
pub read_to_vec_bounds :
    (n : ℕ) (buf : List ℕ) (pos : ℕ) (xs : List ℕ) (p : ℕ)
    → read_to_vec n buf pos ≡ ok (xs, p)
    → (p ≡ pos + n) × (p ≤ length buf)
unfolding read_to_vec
read_to_vec_bounds n buf pos xs p h = ground arith

pub At-start : (buf : List ℕ) → At buf 0 buf
At-start buf = record { within = omega arith; here = refl }

-- A big-endian number reads back.
pub from_be32-be32 : (n : ℕ) (r : List ℕ) → n < 2 ^ 32 → from_be32 (be32 n ++ r) 0 ≡ n
from_be32-be32 n r h = omega arith

-- Where nothing underflows, a wrapped difference is the difference.
pub sub64-sub : (a n : ℕ) → n ≤ a → a < 2 ^ 64 → sub64 a n ≡ a - n
sub64-sub a n h k = omega arith

-- A part between two others is replaced.
pub patch_stream-append :
    (xs old ys new : List ℕ)
    → length (xs ++ (old ++ ys)) < 2 ^ 64
    → patch_stream (xs ++ (old ++ ys)) (length xs) (length old) new ≡ ok (xs ++ (new ++ ys))
unfolding patch_stream
patch_stream-append xs old ys new small =
    let size = length-append xs (old ++ ys) in
    let size' = length-append old ys in
    let end : u64 (length xs + length old) ≡ length xs + length old = omega arith in
    let inside : ltb (length (xs ++ (old ++ ys))) (length xs + length old) ≡ false = ground arith in
    rw
      (
        end,
        inside,
        take-append_self xs (old ++ ys),
        drop-drop (length old) (length xs) (xs ++ (old ++ ys)),
        drop-append_self xs (old ++ ys),
        drop-append_self old ys,
      )
      refl

-- Putting data in at the end of a part leaves both parts.
pub insert_data_at-append :
    (xs ys new : List ℕ) → insert_data_at (xs ++ ys) (length xs) new ≡ xs ++ (new ++ ys)
unfolding insert_data_at
insert_data_at-append xs ys new = rw (take-append_self xs ys, drop-append_self xs ys) refl
