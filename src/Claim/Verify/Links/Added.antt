-- ===== src/Claim/Verify/Links/Added.antt =====
-- A claim passes the check of its assertions when one more has been added.
use mathlib.Core.Path.{subst}
use c2pa_rs_html.Prelude.{
  ℕ, ◌^◌, ◌<◌, ◌≡◌, refl, sym, ap, ◌∙◌, List, Text, Bool, true, false, not, ◌&&◌, Option, none,
  some, or_true, bytes_eq_self,
}
use c2pa_rs_html.Result.{Result, ok, err, panic, stuck}
use c2pa_rs_html.Error.{Error}
use c2pa_rs_html.Status.Tracker.{StatusTracker, has_any_error}
use c2pa_rs_html.Jumbf.Labels.{to_assertion_uri, to_relative_uri, is_relative_url}
use c2pa_rs_html.Jumbf.Labels.Uris.{IsLabel, to_absolute_uri-to_relative_uri}
use c2pa_rs_html.Claim.Assertion.{Assertion}
use c2pa_rs_html.Claim.Labels.{assertion_label_from_link, label_with_instance}
use c2pa_rs_html.Claim.Parts.{
  IsPlain, label_with_instance-IsLabel, assertion_label_from_link-to_relative_uri,
  assertion_label_from_link-label_with_instance,
}
use c2pa_rs_html.Claim.Store.{
  ClaimAssertion, HashedUri, Claim, label_of, matches, get_claim_assertion, next_instance,
  make_assertion_instance_label, type_of, stored, add_assertion_impl,
}
use c2pa_rs_html.Claim.Unique.{
  IsClaim, made_label, below_next_instance, checked_ok, add_assertion_impl-IsClaim,
}
use c2pa_rs_html.Claim.Check.{passed}
use c2pa_rs_html.Claim.Verify.Head.Accepts.{target}
use c2pa_rs_html.Claim.Verify.Links.{StoreValidationInfo, check_assertions}
use c2pa_rs_html.Claim.Verify.Links.Accepts.{
  link_redacted, is_sound, names, assertions_hold, check_assertions-Meets,
}
use c2pa_rs_html.Claim.Verify.Links.Keys.{matches_own, IsClaim-NoDuplicates, find_above, find_last}
use c2pa_rs_html.Claim.Verify.Links.Grow.{grown-hold}

module _ (box_hash : Text → Assertion → Option (List ℕ) → Text → Result Error (List ℕ))
    (compatible : Assertion → Result Error (Unit {0})) where
  abbrev Added : Type 0
  Added = Result Error (Claim × HashedUri)

  claim_of : (c d : Claim) (k l : HashedUri) → ◌≡◌ {A = Added} (ok (c, k)) (ok (d, l)) → c ≡ d
  claim_of c d k l e = ap first e
    where
      first : Added → Claim
      first (ok (c', k')) = c'
      first (err e') = d
      first panic = d
      first stuck = d

  abbrev new_link : Claim → Assertion → Option (List ℕ) → List ℕ → HashedUri
  new_link c a salt hash = record {
    url =
        to_relative_uri
          (to_assertion_uri (label_of c) (make_assertion_instance_label c a.raw_label));
    alg = none;
    hash = hash;
    salt = salt;
  }

  abbrev new_entry : Claim → Assertion → Option (List ℕ) → Bool → List ℕ → ClaimAssertion
  new_entry c a salt as_created hash = record {
    assertion = a;
    number = (assertion_label_from_link (make_assertion_instance_label c a.raw_label)).1;
    hash_val = hash;
    hash_alg = c.alg;
    salt = salt;
    typ = type_of box_hash compatible c as_created;
  }

  abbrev new_claim : Claim → Assertion → Option (List ℕ) → Bool → List ℕ → Claim
  new_claim c a salt as_created hash =
      stored box_hash compatible c (make_assertion_instance_label c a.raw_label)
        (new_link c a salt hash) (new_entry c a salt as_created hash) as_created

  added :
      (c : Claim) (a : Assertion) (salt : Option (List ℕ)) (as_created : Bool) (hash : List ℕ)
      → compatible a ≡ ok tt
      → box_hash (make_assertion_instance_label c a.raw_label) a salt c.alg ≡ ok hash
      → add_assertion_impl box_hash compatible c a salt as_created
        ≡ ok (new_claim c a salt as_created hash, new_link c a salt hash)
  unfolding add_assertion_impl
  added c a salt as_created hash fits hashed =
      rw (checked_ok box_hash compatible c a fits, hashed) refl

  module _ (c : Claim) (a : Assertion) (plain : IsPlain a.raw_label)
      (small : next_instance c a.raw_label < 2 ^ 64) where
    link_key :
        (salt : Option (List ℕ)) (hash : List ℕ)
        → IsLabel (label_of c)
        → assertion_label_from_link (new_link c a salt hash).url
          ≡ (a.raw_label, next_instance c a.raw_label)
    link_key salt hash m =
        ap (λ l. assertion_label_from_link (to_relative_uri (to_assertion_uri (label_of c) l)))
          (made_label c a.raw_label)
        ∙ assertion_label_from_link-to_relative_uri (label_of c) a.raw_label
            (next_instance c a.raw_label) m plain small

    entry_number :
        (salt : Option (List ℕ)) (as_created : Bool) (hash : List ℕ)
        → (new_entry c a salt as_created hash).number ≡ next_instance c a.raw_label
    entry_number salt as_created hash =
        ap (λ l. (assertion_label_from_link l).1) (made_label c a.raw_label)
        ∙ ap (λ q. q.1)
            (assertion_label_from_link-label_with_instance a.raw_label (next_instance c a.raw_label)
              plain small)

    relative :
        (salt : Option (List ℕ)) (hash : List ℕ)
        → IsLabel (label_of c)
        → is_relative_url (new_link c a salt hash).url ≡ true
    relative salt hash m =
        ap (λ l. is_relative_url (to_relative_uri (to_assertion_uri (label_of c) l)))
          (made_label c a.raw_label)
        ∙ (to_absolute_uri-to_relative_uri (label_of c)
            (label_with_instance a.raw_label (next_instance c a.raw_label)) m
            (label_with_instance-IsLabel a.raw_label (next_instance c a.raw_label) plain)).1

    own_match :
        (salt : Option (List ℕ)) (as_created : Bool) (hash : List ℕ)
        → matches a.raw_label (next_instance c a.raw_label) (new_entry c a salt as_created hash)
          ≡ true
    own_match salt as_created hash =
        matches_own a.raw_label (next_instance c a.raw_label) (new_entry c a salt as_created hash)
          refl (entry_number salt as_created hash)

    names_new :
        (salt : Option (List ℕ)) (as_created : Bool) (hash : List ℕ)
        → IsLabel (label_of c)
        → names (new_link c a salt hash) (new_entry c a salt as_created hash) ≡ true
    names_new salt as_created hash m =
        ap (λ (l, n). matches l n (new_entry c a salt as_created hash)) (link_key salt hash m)
        ∙ own_match salt as_created hash

    target_new :
        (salt : Option (List ℕ)) (as_created : Bool) (hash : List ℕ)
        → IsLabel (label_of c)
        → IsClaim c
        → target (new_claim c a salt as_created hash) (new_link c a salt hash)
          ≡ some (new_entry c a salt as_created hash)
    unfolding get_claim_assertion
    target_new salt as_created hash m wf =
        let next = next_instance c a.raw_label in
        ap (λ (l, n). get_claim_assertion (new_claim c a salt as_created hash) l n)
          (link_key salt hash m)
        ∙ find_last (matches a.raw_label next) c.assertion_store
            (new_entry c a salt as_created hash)
            (find_above a.raw_label next c.assertion_store
              (below_next_instance c a.raw_label plain wf.entries))
            (own_match salt as_created hash)

    sound_new :
        (svi : StoreValidationInfo) (salt : Option (List ℕ)) (as_created : Bool) (hash : List ℕ)
        → IsLabel (label_of c)
        → IsClaim c
        → is_sound (new_claim c a salt as_created hash) svi (new_link c a salt hash) ≡ true
    sound_new svi salt as_created hash m wf =
        let found = target_new salt as_created hash m wf in
        rw (relative salt hash m, found, bytes_eq_self hash)
          (or_true
            (link_redacted (new_claim c a salt as_created hash) svi (new_link c a salt hash)))

  -- Adding an assertion keeps the claim such that its check of the assertions passes: the call returns a claim
  -- whose links and stored assertions agree again, and the check on it ends with no error, returned or logged,
  -- exactly if the log had none before. The claim and the assertion have plain labels, those of the claim are
  -- distinct, its links and assertions agree, the assertion is compatible, its box can be
  -- hashed, and the next instance is a usize.
  pub check_assertions-add_assertion :
      (shown : Error → Text → Text) (c : Claim) (a : Assertion) (salt : Option (List ℕ))
      (as_created : Bool) (hash : List ℕ) (svi : StoreValidationInfo) (t : StatusTracker)
      → IsClaim c
      → IsLabel (label_of c)
      → assertions_hold c svi ≡ true
      → IsPlain a.raw_label
      → next_instance c a.raw_label < 2 ^ 64
      → compatible a ≡ ok tt
      → box_hash (make_assertion_instance_label c a.raw_label) a salt c.alg ≡ ok hash
      → (c' : Claim) × (link : HashedUri) × (add_assertion_impl box_hash compatible c a salt
            as_created
          ≡ ok (c', link))
        × IsClaim c'
        × (assertions_hold c' svi ≡ true)
        × (passed (check_assertions shown c' svi t) ≡ not (has_any_error t))
  check_assertions-add_assertion shown c a salt as_created hash svi t wf m agree plain small fits
        hashed =
      let (c'', link, e, labels, wf') =
        add_assertion_impl-IsClaim box_hash compatible c a salt as_created hash wf plain small fits
          hashed in
      let e' = added c a salt as_created hash fits hashed in
      let c' = new_claim c a salt as_created hash in
      let wf'' : IsClaim c' =
        subst IsClaim (claim_of c'' c' link (new_link c a salt hash) (sym e ∙ e')) wf' in
      let agree' : assertions_hold c' svi ≡ true =
        grown-hold c svi (new_entry c a salt as_created hash) (new_link c a salt hash)
          c'.created_assertions agree (sound_new c a plain small svi salt as_created hash m wf)
          (names_new c a plain small salt as_created hash m) in
      (
        c',
        new_link c a salt hash,
        e',
        wf'',
        agree',
        check_assertions-Meets shown c' svi t (IsClaim-NoDuplicates c' wf'')
            ∙ ap (λ b. not (has_any_error t) && b) agree'
            ∙ and_true (not (has_any_error t)),
      )
    where
      and_true : (b : Bool) → (b && true) ≡ b
      and_true true = refl
      and_true false = refl
