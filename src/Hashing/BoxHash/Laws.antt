-- ===== src/Hashing/BoxHash/Laws.antt =====
-- A generated box hash verifies, and goes on to verify when parts are put behind the last one.
use c2pa_rs_html.Prelude.{
  ℕ, ◌≡◌, refl, ap, List, [], ◌∷◌, ◌++◌, Text, Bool, true, false, Option, some, is_empty, bytes_eq,
  Bool-cases, inl, inr,
}
use c2pa_rs_html.Result.{Result, ok, err, panic, stuck, ◌>>=◌, ◌>>◌, guard}
use c2pa_rs_html.Error.{Error, hash_mismatch}
use c2pa_rs_html.Hashing.Hasher.{Hasher}
use c2pa_rs_html.Hashing.Ranges.{
  HashRange, new_range, RangeSet, hash_stream_by_alg, accepts, verify_stream_by_alg,
}
use c2pa_rs_html.Hashing.DataHash.{checked_alg}
use c2pa_rs_html.Hashing.BoxHash.Longer.{ok_step, hash_range-append}
use c2pa_rs_html.Hashing.BoxHash.{
  BoxMap, BoxHash, png_start, first_name, is_single, first_box_name, include, consume, from_start,
  check_range, verify_boxes, verify_stream_boxes,
}

module _ (extra : List BoxMap) where
  abbrev with_extra :
      Result Error (List BoxMap × (HashRange × Bool))
      → Result Error (List BoxMap × (HashRange × Bool))
  with_extra r = r >>= λ (rest, range). ok (rest ++ extra, range)

  -- Parts behind those that a box map consumes stay behind.
  consume-append :
      (single : Bool) (names : List Text) (source : List BoxMap) (inclusion : HashRange)
      (skip : Bool) (rest : List BoxMap) (range : HashRange × Bool)
      → consume single names source inclusion skip ≡ ok (rest, range)
      → consume single names (source ++ extra) inclusion skip ≡ ok (rest ++ extra, range)
  unfolding consume
  consume-append single [] source inclusion skip rest range e = ap with_extra e
  consume-append single (name ∷ names) [] inclusion skip rest range e = cc
  consume-append single (name ∷ names) (bm ∷ source) inclusion skip rest range e =
      let (m, em, e1) = ok_step (first_name bm.names) _ _ e in
      let (q, eq, e2) =
        ok_step (guard (bytes_eq name m) hash_mismatch >> include single name bm inclusion skip) _ _
          e1 in
      rw (em, eq) (consume-append single names source q.0 q.1 rest range e2)

  from_start-append :
      (boxes source rest : List BoxMap)
      → from_start boxes source ≡ ok rest
      → from_start boxes (source ++ extra) ≡ ok (rest ++ extra)
  unfolding from_start
  from_start-append boxes [] rest e = cc
  from_start-append boxes (first ∷ source) rest e =
      let (n, en, e1) = ok_step (first_name first.names) _ _ e in
      rw en (elim (Bool-cases (bytes_eq n png_start)) [
        | inl f ↦
            (let (m, em, e2) = ok_step (first_box_name boxes) _ _ (rw f at e1) in
              elim (Bool-cases (bytes_eq m png_start)) [
                | inl g ↦ (let e3 = rw g at e2 in rw (f, em, g) (ap appended e3))
                | inr g ↦ (let e3 = rw g at e2 in rw (f, em, g) (ap appended e3))
              ])
        | inr f ↦ (let e2 = rw f at e1 in rw f (ap appended e2))
      ])
    where
      appended : Result Error (List BoxMap) → Result Error (List BoxMap)
      appended r = r >>= λ l. ok (l ++ extra)

accepted : (b : Bool) → guard b hash_mismatch ≡ ok tt → b ≡ true
accepted true e = refl
accepted false e = cc

module _ {S T : Type 0} (h : Hasher S) (s : RangeSet T) where
  accepts_value :
      (hash : List ℕ) (r : Result Error (List ℕ))
      → accepts h s hash r ≡ true
      → (v : List ℕ) × (r ≡ ok v) × (bytes_eq hash v ≡ true)
  accepts_value hash (ok v) e = (v, refl, e)
  accepts_value hash (err x) e = cc
  accepts_value hash panic e = cc
  accepts_value hash stuck e = cc

  module _ (x z : List ℕ) (alg : Option Text) where
    check_range-append :
        (bm : BoxMap) (range : HashRange × Bool)
        → check_range h s x alg bm range ≡ ok tt
        → check_range h s (x ++ z) alg bm range ≡ ok tt
    unfolding verify_stream_by_alg
    check_range-append bm (inclusion, skip_c2pa) e = elim (Bool-cases skip_c2pa) [
      | inl f ↦ rw f refl
      | inr f ↦
          (let (a, e₁, e₂) = ok_step (checked_alg bm.alg alg) _ _ (rw f at e) in
            let (v, e₃, e₄) =
              accepts_value bm.hash (hash_stream_by_alg h s a x (some (inclusion ∷ [])) false)
                (accepted _ e₂) in
            rw (f, e₁, hash_range-append h x z s a inclusion v e₃, e₄) refl)
    ]

    verify_boxes-append :
        (extra boxes source : List BoxMap)
        → verify_boxes h s x alg boxes source ≡ ok tt
        → verify_boxes h s (x ++ z) alg boxes (source ++ extra) ≡ ok tt
    unfolding verify_boxes
    verify_boxes-append extra [] source e = refl
    verify_boxes-append extra (bm ∷ boxes) source e =
        let (q, e₁, e₂) =
          ok_step (consume (is_single bm.names) bm.names source (new_range 0 0) false) _ _ e in
        let (u, e₃, e₄) = ok_step (check_range h s x alg bm q.1) _ _ e₂ in
        rw
          (
            consume-append extra (is_single bm.names) bm.names source (new_range 0 0) false q.0 q.1
                e₁,
            check_range-append bm q.1 e₃,
          )
          (verify_boxes-append extra boxes q.0 e₄)

    -- What is put behind an asset is not noticed: if a box hash is accepted for an asset, it is accepted for the asset
    -- with more bytes behind it, provided that the handler lists the same parts there and then others.
    pub verify_stream_boxes-append :
        (get_box_map : List ℕ → Result Error (List BoxMap)) (b : BoxHash)
        (source extra : List BoxMap)
        → get_box_map x ≡ ok source
        → get_box_map (x ++ z) ≡ ok (source ++ extra)
        → verify_stream_boxes h s get_box_map b x alg ≡ ok tt
        → verify_stream_boxes h s get_box_map b (x ++ z) alg ≡ ok tt
    unfolding verify_stream_boxes
    verify_stream_boxes-append get_box_map b source extra ex ez e =
        elim (Bool-cases (is_empty b.boxes)) [
          | inl f ↦ (let e' = rw f at e in cc)
          | inr f ↦
              (let e' = rw (f, ex) at e in
                let (rest, e₁, e₂) = ok_step (from_start b.boxes source) _ _ e' in
                rw (f, ez, from_start-append extra b.boxes source rest e₁)
                  (verify_boxes-append extra b.boxes rest e₂))
        ]
