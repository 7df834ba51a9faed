-- ===== src/Assets/Png/File.antt =====
-- A PNG file as its chunks: the view that the handler's operations on bytes implement.
use c2pa_rs_html.Prelude.{
  ℕ, ◌+◌, ◌^◌, ◌<◌, ◌≡◌, refl, sym, ap, ◌∙◌, List, [], ◌∷◌, ◌++◌, append_assoc, Bool, true, false,
  Option, none, some, length, length-append, bytes_eq, if◌then◌else◌, Bool-cases, inl, inr, arith,
  find, any,
}
use c2pa_rs_html.Io.{be32}
use c2pa_rs_html.Jumbf.Utf8.{is_utf8}
use c2pa_rs_html.Assets.Png.{PngChunkPos, png_id, png_end, is_named, Encoder}

pub record Chunk : Type 0 where
  pub name : List ℕ
  pub content : List ℕ
  pub crc : List ℕ

abbrev pub chunk_bytes : Chunk → List ℕ
chunk_bytes c = be32 (length c.content) ++ (c.name ++ (c.content ++ c.crc))

abbrev pub chunks_bytes : List Chunk → List ℕ
chunks_bytes [] = []
chunks_bytes (c ∷ cs) = chunk_bytes c ++ chunks_bytes cs

-- The signature, the chunks, and what may stand behind the last one.
abbrev pub file : List Chunk → List ℕ → List ℕ
file cs tail = png_id ++ (chunks_bytes cs ++ tail)

pub record IsChunk (c : Chunk) : Type 0 where
  pub name_size : length c.name ≡ 4
  pub name_text : is_utf8 c.name ≡ true
  pub crc_size : length c.crc ≡ 4
  pub content_size : length c.content < 2 ^ 32

abbrev pub has_name : List ℕ → Chunk → Bool
has_name n c = bytes_eq c.name n

-- Chunks of which the last one, and no other, is IEND.
abbrev pub IsPng : List Chunk → Type 0
IsPng [] = ⊥
IsPng (c ∷ []) = IsChunk c × (has_name png_end c ≡ true)
IsPng (c ∷ d ∷ cs) = IsChunk c × (has_name png_end c ≡ false) × IsPng (d ∷ cs)

-- Without the first chunk of a name.
abbrev pub remove_first : List ℕ → List Chunk → List Chunk
remove_first n [] = []
remove_first n (c ∷ cs) = if has_name n c then cs else c ∷ remove_first n cs

-- With a chunk put behind the first one of a name; nothing if there is none.
abbrev pub cons_some : Chunk → Option (List Chunk) → Option (List Chunk)
cons_some c none = none
cons_some c (some cs) = some (c ∷ cs)

abbrev pub insert_behind : List ℕ → Chunk → List Chunk → Option (List Chunk)
insert_behind n new [] = none
insert_behind n new (c ∷ cs) =
    if has_name n c then some (c ∷ new ∷ cs) else cons_some c (insert_behind n new cs)

abbrev pub pos_of : ℕ → Chunk → PngChunkPos
pos_of p c = record { start = p; size = length c.content; name = c.name }

abbrev pub positions : ℕ → List Chunk → List PngChunkPos
positions p [] = []
positions p (c ∷ cs) = pos_of p c ∷ positions (p + length (chunk_bytes c)) cs

pub length-chunk_bytes : (c : Chunk) → IsChunk c → length (chunk_bytes c) ≡ 12 + length c.content
length-chunk_bytes c h = omega (
  arith,
  h.name_size,
  h.crc_size,
  length-append c.name (c.content ++ c.crc),
  length-append c.content c.crc,
)

-- What the documentation of the encoder says: the length, the name, the data, and a checksum of four
-- bytes.
abbrev pub IsEncoder : Encoder → Type 0
IsEncoder encode =
    (name content : List ℕ)
    → length content < 2 ^ 31
    → (crc : List ℕ) × (length crc ≡ 4)
      × (encode name content
          ≡ some (chunk_bytes (record { name = name; content = content; crc = crc })))

-- The file split at the first chunk of a name.
pub data Split (n : List ℕ) (cs : List Chunk) : Type 0 where
  without : any (has_name n) cs ≡ false → Split n cs
  at :
      (before : List Chunk) (c : Chunk) (after : List Chunk)
      → cs ≡ before ++ c ∷ after
      → any (has_name n) before ≡ false
      → has_name n c ≡ true
      → Split n cs

pub Split-at : (n : List ℕ) (cs : List Chunk) → Split n cs
Split-at n [] = without refl
Split-at n (c ∷ cs) = elim (Bool-cases (has_name n c)) [
  | inl e ↦ at [] c cs refl refl e
  | inr e ↦ further e (Split-at n cs)
]
  where
    further : has_name n c ≡ false → Split n cs → Split n (c ∷ cs)
    further e (without h) = without (rw e h)
    further e (at before d after p h k) = at (c ∷ before) d after (ap (λ l. c ∷ l) p) (rw e h) k

module _ (n : List ℕ) where
  pub find-without :
      (p : ℕ) (cs : List Chunk)
      → any (has_name n) cs ≡ false
      → find (is_named n) (positions p cs) ≡ none
  find-without p [] h = refl
  find-without p (c ∷ cs) h = elim (Bool-cases (has_name n c)) [
    | inl e ↦ (let clash = rw e at h in cc)
    | inr e ↦ rw e (find-without (p + length (chunk_bytes c)) cs (rw e at h))
  ]

  pub find-at :
      (p : ℕ) (before : List Chunk) (c : Chunk) (after : List Chunk)
      → any (has_name n) before ≡ false
      → has_name n c ≡ true
      → find (is_named n) (positions p (before ++ c ∷ after))
        ≡ some (pos_of (p + length (chunks_bytes before)) c)
  find-at p [] c after h k = rw k (ap (λ q. some (pos_of q c)) (omega arith))
  find-at p (d ∷ before) c after h k = elim (Bool-cases (has_name n d)) [
    | inl e ↦ (let clash = rw e at h in cc)
    | inr e ↦ rw e (
        find-at (p + length (chunk_bytes d)) before c after (rw e at h) k
        ∙ ap (λ q. some (pos_of q c))
            (omega (arith, length-append (chunk_bytes d) (chunks_bytes before))))
  ]

  pub remove_first-without :
      (cs : List Chunk) → any (has_name n) cs ≡ false → remove_first n cs ≡ cs
  remove_first-without [] h = refl
  remove_first-without (c ∷ cs) h = elim (Bool-cases (has_name n c)) [
    | inl e ↦ (let clash = rw e at h in cc)
    | inr e ↦ rw e (ap (λ l. c ∷ l) (remove_first-without cs (rw e at h)))
  ]

  pub remove_first-at :
      (before : List Chunk) (c : Chunk) (after : List Chunk)
      → any (has_name n) before ≡ false
      → has_name n c ≡ true
      → remove_first n (before ++ c ∷ after) ≡ before ++ after
  remove_first-at [] c after h k = rw k
  remove_first-at (d ∷ before) c after h k = elim (Bool-cases (has_name n d)) [
    | inl e ↦ (let clash = rw e at h in cc)
    | inr e ↦ rw e (ap (λ l. d ∷ l) (remove_first-at before c after (rw e at h) k))
  ]

  pub insert_behind-at :
      (new : Chunk) (before : List Chunk) (c : Chunk) (after : List Chunk)
      → any (has_name n) before ≡ false
      → has_name n c ≡ true
      → insert_behind n new (before ++ c ∷ after) ≡ some (before ++ c ∷ new ∷ after)
  insert_behind-at new [] c after h k = rw k
  insert_behind-at new (d ∷ before) c after h k = elim (Bool-cases (has_name n d)) [
    | inl e ↦ (let clash = rw e at h in cc)
    | inr e ↦ rw (e, insert_behind-at new before c after (rw e at h) k)
  ]

  pub insert_behind-without :
      (new : Chunk) (cs : List Chunk) → any (has_name n) cs ≡ false → insert_behind n new cs ≡ none
  insert_behind-without new [] h = refl
  insert_behind-without new (c ∷ cs) h = elim (Bool-cases (has_name n c)) [
    | inl e ↦ (let clash = rw e at h in cc)
    | inr e ↦ rw (e, insert_behind-without new cs (rw e at h))
  ]

pub chunks_bytes-append :
    (xs ys : List Chunk) → chunks_bytes (xs ++ ys) ≡ chunks_bytes xs ++ chunks_bytes ys
chunks_bytes-append [] ys = refl
chunks_bytes-append (x ∷ xs) ys =
    ap (λ l. chunk_bytes x ++ l) (chunks_bytes-append xs ys)
    ∙ sym (append_assoc (chunk_bytes x) (chunks_bytes xs) (chunks_bytes ys))
