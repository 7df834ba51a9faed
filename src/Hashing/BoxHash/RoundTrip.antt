-- ===== src/Hashing/BoxHash/RoundTrip.antt =====
-- A generated box hash verifies.
use mathlib.Core.Path.{subst}
use c2pa_rs_html.Prelude.{
  ℕ, ◌≡◌, refl, sym, ap, ◌∙◌, List, [], ◌∷◌, Text, false, none, All, bytes_eq, bytes_eq_self,
  Bool-cases, inl, inr,
}
use c2pa_rs_html.Result.{Result, ok, err, panic, stuck}
use c2pa_rs_html.Error.{Error}
use c2pa_rs_html.Hashing.Hasher.{Hasher}
use c2pa_rs_html.Hashing.Ranges.{RangeSet, verify_stream_by_alg}
use c2pa_rs_html.Hashing.BoxHash.Longer.{ok_step}
use c2pa_rs_html.Hashing.BoxHash.{
  BoxMap, BoxHash, c2pa_boxhash, png_start, first_name, consume, from_start, verify_boxes, hash_box,
  generate_box, generate_boxes, verify_stream_boxes, generate_box_hash_from_stream,
}

-- A part with one name, as `get_box_map` lists them.
abbrev pub IsPart : BoxMap → Type 0
IsPart bm = (n : Text) × (bm.names ≡ n ∷ [])

ok_inj {ℓ} : {A : Type ℓ} (a b : A) → ◌≡◌ {A = Result Error A} (ok a) (ok b) → a ≡ b
ok_inj {A = A} a b e = ap value e
  where
    value : Result Error A → A
    value (ok c) = c
    value (err x) = b
    value panic = b
    value stuck = b

module _ {S T : Type 0} (h : Hasher S) (s : RangeSet T) (reader : List ℕ) (alg : Text) where
  -- The generated box map has the names of the part, and is accepted for it.
  part_verifies :
      (bm bm' : BoxMap) (boxes source : List BoxMap)
      → IsPart bm
      → generate_box h s reader alg bm ≡ ok bm'
      → verify_boxes h s reader none boxes source ≡ ok tt
      → (bm'.names ≡ bm.names) × (verify_boxes h s reader none (bm' ∷ boxes) (bm ∷ source) ≡ ok tt)
  unfolding verify_boxes consume verify_stream_by_alg
  part_verifies bm bm' boxes source (n, named) e rest =
      let e₁ = rw named at e in
      elim (Bool-cases (bytes_eq n c2pa_boxhash)) [
        | inl f ↦
            (let made = ok_inj _ bm' (rw f at e₁) in
              subst
                (λ m.
                  (m.names ≡ bm.names)
                  × (verify_boxes h s reader none (m ∷ boxes) (bm ∷ source) ≡ ok tt))
                made (sym named, rw (named, bytes_eq_self n, f) rest))
        | inr f ↦
            (let (v, e₂, e₃) = ok_step (hash_box h s reader alg bm) _ _ (rw f at e₁) in
              let made = ok_inj _ bm' e₃ in
              subst
                (λ m.
                  (m.names ≡ bm.names)
                  × (verify_boxes h s reader none (m ∷ boxes) (bm ∷ source) ≡ ok tt))
                made (sym named, rw (named, bytes_eq_self n, f, e₂, bytes_eq_self v) rest))
      ]

  -- The generated box maps, with the names of the parts, are accepted for them.
  parts_verify :
      (source boxes : List BoxMap)
      → All IsPart source
      → generate_boxes h s reader alg source ≡ ok boxes
      → verify_boxes h s reader none boxes source ≡ ok tt
  unfolding generate_boxes verify_boxes
  parts_verify [] boxes parts e =
      subst (λ bs. verify_boxes h s reader none bs [] ≡ ok tt) (ok_inj [] boxes e) refl
  parts_verify (bm ∷ source) boxes parts e =
      let (bm', e₁, e₂) = ok_step (generate_box h s reader alg bm) _ _ e in
      let (rest, e₃, e₄) = ok_step (generate_boxes h s reader alg source) _ _ e₂ in
      subst (λ bs. verify_boxes h s reader none bs (bm ∷ source) ≡ ok tt)
        (ok_inj (bm' ∷ rest) boxes e₄)
        (part_verifies bm bm' rest source parts.0 e₁ (parts_verify source rest parts.1 e₃)).1

  starts :
      (first bm' : BoxMap) (boxes source : List BoxMap)
      → IsPart first
      → bm'.names ≡ first.names
      → from_start (bm' ∷ boxes) (first ∷ source) ≡ ok (first ∷ source)
  unfolding from_start
  starts first bm' boxes source (n, named) same =
      let named' : bm'.names ≡ n ∷ [] = same ∙ named in
      elim (Bool-cases (bytes_eq n png_start)) [
        | inl f ↦ rw (ap first_name named, ap first_name named', f) refl
        | inr f ↦ rw (ap first_name named, f) refl
      ]

  -- A box hash that is generated in full over a stream is accepted for that stream; the handler lists at least one
  -- part, each with one name.
  pub verify_stream_boxes-generate :
      (get_box_map : List ℕ → Result Error (List BoxMap)) (first : BoxMap) (source : List BoxMap)
      (b : BoxHash)
      → get_box_map reader ≡ ok (first ∷ source)
      → All IsPart (first ∷ source)
      → generate_box_hash_from_stream h s get_box_map (record { boxes = [] }) reader alg false
        ≡ ok b
      → verify_stream_boxes h s get_box_map b reader none ≡ ok tt
  unfolding generate_box_hash_from_stream verify_stream_boxes generate_boxes
  verify_stream_boxes-generate get_box_map first source b listed parts e =
      let e' = rw listed at e in
      let (boxes, e₁, e₂) = ok_step (generate_boxes h s reader alg (first ∷ source)) _ _ e' in
      let (bm', e₃, e₄) = ok_step (generate_box h s reader alg first) _ _ e₁ in
      let (rest, e₅, e₆) = ok_step (generate_boxes h s reader alg source) _ _ e₄ in
      let made : record { boxes = bm' ∷ rest } ≡ b =
        ap (λ bs. record { boxes = bs }) (ok_inj (bm' ∷ rest) boxes e₆)
        ∙ ok_inj (record { boxes = boxes }) b e₂ in
      let (same, held) =
        part_verifies first bm' rest source parts.0 e₃ (parts_verify source rest parts.1 e₅) in
      subst (λ c. verify_stream_boxes h s get_box_map c reader none ≡ ok tt) made
        (rw (listed, starts first bm' rest source parts.0 same) held)
