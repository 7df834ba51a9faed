-- ===== src/Assets/Positions.antt =====
-- The positions of the parts of an asset, sdk/src/asset_io.rs, and the editing of a buffer.
use c2pa_rs_html.Prelude.{ℕ, List, [], ◌∷◌, ◌+◌, ◌++◌, take, drop, length, ◌||◌, ltb, if◌then◌else◌}
use c2pa_rs_html.Result.{Result, ok, panic}
use c2pa_rs_html.Error.{Error}

pub data HashBlockObjectType : Type 0 where
  cai xmp other : HashBlockObjectType

pub record HashObjectPositions : Type 0 where
  pub offset : ℕ
  pub size : ℕ
  pub htype : HashBlockObjectType

-- `Vec::splice` of a range of indices; it panics if the range is not one of the vector.
unfoldable pub splice : List ℕ → ℕ → ℕ → List ℕ → Result Error (List ℕ)
splice buf start end new =
    if ltb end start || ltb (length buf) end
    then panic
    else ok (take start buf ++ (new ++ drop end buf))

-- A part to exclude, what stands before it, and what stands behind it.
abbrev pub parts_at : ℕ → ℕ → ℕ → ℕ → List HashObjectPositions
parts_at start size end left =
    record { offset = start; size = size; htype = cai }
    ∷ record { offset = 0; size = start; htype = other }
    ∷ record { offset = end; size = left; htype = other }
    ∷ []

-- The positions of the middle one of three parts, of the first, and of the last.
abbrev pub three_parts : List ℕ → List ℕ → List ℕ → List HashObjectPositions
three_parts front manifest rest =
    parts_at (length front) (length manifest) (length front + length manifest) (length rest)
