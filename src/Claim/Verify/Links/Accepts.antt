-- ===== src/Claim/Verify/Links/Accepts.antt =====
-- What the check of the assertions accepts.
use mathlib.Core.Path.{subst}
use c2pa_rs_html.Prelude.{
  ℕ, ◌≤◌, ◌≡◌, refl, sym, ap, List, [], ◌∷◌, Text, Bool, true, false, not, ◌&&◌, ◌||◌, Option, none,
  some, all, keep, length, is_empty, if◌then◌else◌, bytes_eq,
}
use c2pa_rs_html.Error.{Error, hash_mismatch, assertion_missing}
use c2pa_rs_html.Status.Tracker.{StatusTracker, has_any_error}
use c2pa_rs_html.Jumbf.Labels.{manifest_label_from_uri, is_relative_url}
use c2pa_rs_html.Claim.Labels.{assertion_label_from_link}
use c2pa_rs_html.Claim.Store.{ClaimAssertion, HashedUri, Claim, label_of, matches}
use c2pa_rs_html.Claim.Check.{Check, ◌>>>◌, done, throw, for_each, passed, Meets}
use c2pa_rs_html.Claim.Check.Laws.{
  done-Meets, throw-Meets, after-Meets, unless-Meets, if-Meets, for_each-Meets, and_assoc,
  succeed-Meets, fail-Meets, refuse-Meets, report-Meets,
}
use c2pa_rs_html.Claim.Verify.Head.Accepts.{has_hash, target}
use c2pa_rs_html.Claim.Verify.Links.{
  StoreValidationInfo, untrack, is_redacted, check_manifest, check_uri, check_hash, check_stored,
  report_undeclared, check_undeclared, check_links, check_assertions,
}
use c2pa_rs_html.Claim.Verify.Links.Tracking.{swap_remove_all, is_named, swap_remove_all-empty}

abbrev pub is_manifest : Text → Option Text → Bool
is_manifest l none = false
is_manifest l (some m) = bytes_eq m l

-- The link is relative or names the manifest of the claim.
abbrev pub stays_inside : Claim → HashedUri → Bool
stays_inside c link =
    is_relative_url link.url || is_manifest (label_of c) (manifest_label_from_uri link.url)

abbrev pub link_redacted : Claim → StoreValidationInfo → HashedUri → Bool
link_redacted c svi link = let (l, n) = assertion_label_from_link link.url in is_redacted c svi l n

-- The link stays inside, and it is redacted or leads to a stored assertion with its hash.
abbrev pub is_sound : Claim → StoreValidationInfo → HashedUri → Bool
is_sound c svi link =
    stays_inside c link && (link_redacted c svi link || has_hash link.hash (target c link))

-- The link has the label and the instance of a stored assertion.
abbrev pub names : HashedUri → ClaimAssertion → Bool
names link = let (l, n) = assertion_label_from_link link.url in matches l n

abbrev pub assertions_hold : Claim → StoreValidationInfo → Bool
assertions_hold c svi =
    all (is_sound c svi) c.assertions && all (is_named names c.assertions) c.assertion_store

-- No label and instance stands twice in the store.
abbrev pub NoDuplicates : Claim → Type 0
NoDuplicates c = (l : Text) (n : ℕ) → length (keep (matches l n) c.assertion_store) ≤ 1

module _ (shown : Error → Text → Text) where
  manifest-Meets :
      (c : Claim) (link : HashedUri) (o : Option Text)
      → Meets (check_manifest shown c link o) (is_manifest (label_of c) o)
  manifest-Meets c link none = refuse-Meets shown _ _ assertion_missing link.url
  manifest-Meets c link (some m) =
      unless-Meets (bytes_eq m (label_of c)) _ (fail-Meets shown _ _ assertion_missing link.url)

  uri-Meets : (c : Claim) (link : HashedUri) → Meets (check_uri shown c link) (stays_inside c link)
  unfolding check_uri
  uri-Meets c link =
      subst (Meets (check_uri shown c link))
        (if_or (is_relative_url link.url)
          (is_manifest (label_of c) (manifest_label_from_uri link.url)))
        (if-Meets (is_relative_url link.url) _ _ true _ done-Meets
          (manifest-Meets c link (manifest_label_from_uri link.url)))
    where
      if_or : (a b : Bool) → (if a then true else b) ≡ (a || b)
      if_or true b = refl
      if_or false b = refl

  hash-Meets :
      (c : Claim) (link : HashedUri) (o : Option ClaimAssertion)
      → Meets (check_hash shown c link o) (has_hash link.hash o)
  hash-Meets c link none = fail-Meets shown _ _ assertion_missing _
  hash-Meets c link (some ca) =
      by_case (bytes_eq ca.hash_val link.hash) _ _ (succeed-Meets _ _ refl)
        (fail-Meets shown _ _ hash_mismatch _)
    where
      by_case :
          (b : Bool) (m n : Check) → Meets n true → Meets m false → Meets (if not b then m else n) b
      by_case true m n hn hm = hn
      by_case false m n hn hm = hm

  stored-Meets :
      (c : Claim) (svi : StoreValidationInfo) (link : HashedUri)
      → Meets
          (check_stored shown c svi link)
          (link_redacted c svi link || has_hash link.hash (target c link))
  unfolding check_stored
  stored-Meets c svi link =
      by_case (link_redacted c svi link) _ _ (hash-Meets c link (target c link))
    where
      by_case :
          (r : Bool) (m : Check) (b : Bool) → Meets m b → Meets (if r then done else m) (r || b)
      by_case true m b h = done-Meets
      by_case false m b h = h

  undeclared-Meets : (cas : List ClaimAssertion) → Meets (check_undeclared shown cas) (is_empty cas)
  unfolding check_undeclared
  undeclared-Meets [] = done-Meets
  undeclared-Meets (ca ∷ cas) =
      after-Meets (report_undeclared shown ca >>> for_each (report_undeclared shown) cas)
        (throw assertion_missing) false false
        (after-Meets _ _ false _ (report-Meets shown _ _ assertion_missing _) (
          for_each-Meets (report_undeclared shown) (λ x. false) cas
            (λ x. report-Meets shown _ _ assertion_missing _)))
        (throw-Meets assertion_missing)

  links-Meets :
      (c : Claim) (svi : StoreValidationInfo) (links : List HashedUri)
      (tracking : List ClaimAssertion)
      → Meets
          (check_links shown c svi links tracking)
          (all (is_sound c svi) links && is_empty (swap_remove_all names links tracking))
  unfolding check_links
  links-Meets c svi [] tracking = undeclared-Meets tracking
  links-Meets c svi (link ∷ links) tracking =
      subst (Meets (check_links shown c svi (link ∷ links) tracking))
        (sym (and_assoc (is_sound c svi link) (all (is_sound c svi) links) _))
        (after-Meets _ _ _ _ (after-Meets _ _ _ _ (uri-Meets c link) (stored-Meets c svi link))
          (links-Meets c svi links (untrack link tracking)))

  -- On a log without errors the check of the assertions ends with no error, returned or logged, exactly if
  -- every link of the claim stays inside its manifest and is redacted or leads to a stored assertion
  -- with the link's hash, and every stored assertion has a link with its label and instance; provided
  -- that no label and instance is stored twice.
  pub check_assertions-Meets :
      (c : Claim) (svi : StoreValidationInfo) (t : StatusTracker)
      → NoDuplicates c
      → passed (check_assertions shown c svi t) ≡ (not (has_any_error t) && assertions_hold c svi)
  unfolding check_assertions
  check_assertions-Meets c svi t h =
      subst (Meets (check_assertions shown c svi))
        (ap (λ b. all (is_sound c svi) c.assertions && b)
          (swap_remove_all-empty names c.assertions c.assertion_store
            (λ link. let (l, n) = assertion_label_from_link link.url in h l n)))
        (links-Meets c svi c.assertions c.assertion_store) t
