-- ===== src/Claim/Verify/Bindings/Bound.antt =====
-- A claim with a data hash over one asset, checked over another.
use mathlib.Core.Path.{subst}
use c2pa_rs_html.Prelude.{
  ℕ, ◌≡◌, refl, sym, ap, ◌∙◌, ◌↔◌, List, [], ◌∷◌, Text, Bool, true, false, not, ◌&&◌, none, some,
  ◌==◌, is_empty, bytes_eq, bytes_eq_self,
}
use c2pa_rs_html.Result.{Result, ok, err, panic, stuck, ◌>>=◌}
use c2pa_rs_html.Error.{Error}
use c2pa_rs_html.Status.Tracker.{StatusTracker, has_any_error}
use c2pa_rs_html.Hashing.Hasher.{Hasher}
use c2pa_rs_html.Hashing.Ranges.{HashRange, RangeSet, IsRangeSet}
use c2pa_rs_html.Hashing.Exclusions.{kept, IsHasher}
use c2pa_rs_html.Hashing.DataHash.{
  DataHash, gen_hash_from_stream, hash_from_stream, verify_stream_hash,
}
use c2pa_rs_html.Hashing.DataHash.Verify.{bound, Fits, verify_stream_hash-gen_hash}
use c2pa_rs_html.Claim.Store.{ClaimAssertion, label_raw, Claim, label_of}
use c2pa_rs_html.Claim.Check.{passed}
use c2pa_rs_html.Claim.Verify.Links.{StoreValidationInfo}
use c2pa_rs_html.Claim.Verify.Bindings.{
  Decoders, stream, data_hash_label, hash_assertions, adjusted, check_bindings,
}
use c2pa_rs_html.Claim.Verify.Bindings.Accepts.{
  is_ok, checked_bindings_hold, hash_assertions_lem, check_bindings-Meets,
}

-- The claim is the one that binds the asset, and the data hash `dh` its only hard binding.
pub record Binds (d : Decoders) (c : Claim) (svi : StoreValidationInfo) (dh : DataHash)
    : Type 0 where
  pub binding : ClaimAssertion
  pub binds : label_of c ≡ svi.binding_claim
  pub only : hash_assertions c ≡ binding ∷ []
  pub normal : c.update_manifest ≡ false
  pub labelled : label_raw binding ≡ data_hash_label
  pub decoded : d.data_hash_of binding.assertion ≡ ok dh
  pub no_update : svi.update_manifest_size ≡ 0

and_true : (b : Bool) → (b && true) ≡ b
and_true true = refl
and_true false = refl

is_ok_iff : (r : Result Error (Unit {0})) → (is_ok r ≡ true) ↔ (r ≡ ok tt)
is_ok_iff (ok u) = ((λ e. refl), (λ e. refl))
is_ok_iff (err e) = ((λ e. cc), (λ e. cc))
is_ok_iff panic = ((λ e. cc), (λ e. cc))
is_ok_iff stuck = ((λ e. cc), (λ e. cc))

ok_inj : (a b : DataHash) → ◌≡◌ {A = Result Error DataHash} (ok a) (ok b) → a ≡ b
ok_inj a b e = ap (λ r. unwrapped r) e
  where
    unwrapped : Result Error DataHash → DataHash
    unwrapped (ok c) = c
    unwrapped (err e) = b
    unwrapped panic = b
    unwrapped stuck = b

module _ {S T : Type 0} (h : Hasher S) (s : RangeSet T) where
  only_hash_changes :
      (d d' : DataHash) (x : List ℕ)
      → gen_hash_from_stream h s d x ≡ ok d'
      → (hash : List ℕ) × (d' ≡ record d { hash = hash })
  unfolding gen_hash_from_stream
  only_hash_changes d d' x e = inverted (hash_from_stream h s d x) e
    where
      inverted :
          (r : Result Error (List ℕ))
          → ◌≡◌ {A = Result Error DataHash} (r >>= λ hash. ok (record d { hash = hash })) (ok d')
          → (hash : List ℕ) × (d' ≡ record d { hash = hash })
      inverted (ok hash) e = (hash, sym (ok_inj (record d { hash = hash }) d' e))
      inverted (err e') e = absurd (cc)
      inverted panic e = absurd (cc)
      inverted stuck e = absurd (cc)

  -- The algorithm of the data hash itself counts.
  own_alg :
      (d : DataHash) (a b : Text) (hash : List ℕ) (hr : List HashRange) (y : List ℕ)
      → verify_stream_hash h s (record (bound d a hr) { hash = hash }) y (some b)
        ≡ verify_stream_hash h s (record (bound d a hr) { hash = hash }) y none
  unfolding verify_stream_hash
  own_alg d a b hash hr y = refl

  module _ (d : Decoders) where
    checked_bindings_hold-eq :
        (c : Claim) (svi : StoreValidationInfo) (dh : DataHash) (a : Text) (hash : List ℕ)
        (hr : List HashRange) (y : List ℕ) (typ : Text)
        → Binds d c svi (record (bound dh a hr) { hash = hash })
        → checked_bindings_hold h s d c svi (stream y typ)
          ≡ is_ok (verify_stream_hash h s (record (bound dh a hr) { hash = hash }) y none)
    unfolding adjusted
    checked_bindings_hold-eq c svi dh a hash hr y typ k =
        let here = ap (λ l. bytes_eq (label_of c) l) (sym k.binds) ∙ bytes_eq_self (label_of c) in
        let data_hash = ap (λ l. bytes_eq l data_hash_label) k.labelled in
        let size = ap (λ n. n == 0) k.no_update in
        let only = sym (hash_assertions_lem c) ∙ k.only in
        rw (here, only, k.normal, data_hash, k.decoded, size)
          (and_true _ ∙ ap is_ok (own_alg dh a c.alg hash hr y))

    module _ (laws : IsHasher h) (set_laws : IsRangeSet s) (shown : Error → Text → Text)
        (displayed : Error → Text) where
      -- If a claim has as its only hard binding a data hash that was generated over one stream, the check of the hard
      -- bindings over another ends with no error, returned or logged, exactly if the bytes that no exclusion covers
      -- hash to the same value in both streams. The log has no error before, the algorithm is supported and
      -- its hashes are not empty, the exclusions fit both streams, the data hash is not remote, and
      -- no update manifest follows.
      pub check_bindings-gen_hash :
          (c : Claim) (svi : StoreValidationInfo) (dh d' : DataHash) (alg : Text) (st : S)
          (r : HashRange) (rs : List HashRange) (x y : List ℕ) (typ : Text) (t : StatusTracker)
          → h.new alg ≡ some st
          → is_empty (h.finalize (h.update st (kept (r ∷ rs) x))) ≡ false
          → Fits (r ∷ rs) x
          → Fits (r ∷ rs) y
          → gen_hash_from_stream h s (bound dh alg (r ∷ rs)) x ≡ ok d'
          → Binds d c svi d'
          → has_any_error t ≡ false
          → (passed (check_bindings shown displayed h s d c svi (stream y typ) t) ≡ true) ↔ (
              h.finalize (h.update st (kept (r ∷ rs) y))
              ≡ h.finalize (h.update st (kept (r ∷ rs) x)))
      check_bindings-gen_hash c svi dh d' alg st r rs x y typ t supported some_hash fx fy gen binds
            clean =
          let (hash, shape) = only_hash_changes (bound dh alg (r ∷ rs)) d' x gen in
          let (d'', gen', iff) =
            verify_stream_hash-gen_hash h laws s set_laws dh alg st r rs x y supported some_hash fx
              fy in
          let same : d'' ≡ d' = ok_inj d'' d' (sym gen' ∙ gen) in
          let met : passed (check_bindings shown displayed h s d c svi (stream y typ) t)
              ≡ is_ok (verify_stream_hash h s d' y none) =
            check_bindings-Meets h s d shown displayed c svi (stream y typ) t
            ∙ ap (λ b. not b && checked_bindings_hold h s d c svi (stream y typ)) clean
            ∙ checked_bindings_hold-eq c svi dh alg hash (r ∷ rs) y typ
                (subst (Binds d c svi) shape binds)
            ∙ ap (λ z. is_ok (verify_stream_hash h s z y none)) (sym shape) in
          let (to, from) = is_ok_iff (verify_stream_hash h s d' y none) in
          (
            (λ p. iff.0 (ap (λ z. verify_stream_hash h s z y none) same ∙ to (sym met ∙ p))),
            (λ q. met ∙ from (ap (λ z. verify_stream_hash h s z y none) (sym same) ∙ iff.1 q)),
          )
