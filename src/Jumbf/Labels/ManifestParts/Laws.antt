-- ===== src/Jumbf/Labels/ManifestParts/Laws.antt =====
-- The parts of a manifest label are read back from the label.
use c2pa_rs_html.Prelude.{
  ℕ, ◌^◌, ◌<◌, ◌≡◌, ◌≢◌, refl, ap, ◌∙◌, [], ◌∷◌, ◌++◌, append-nil, Text, bytes, split, split_whole,
  split-append_sep, HasNo, starts_with_sep, Bool, true, false, not, ◌&&◌, Option, none, some, arith,
  is_empty, get_elem?,
}
use c2pa_rs_html.Jumbf.Labels.{
  slash, manifest_store, part, to_normalized_uri, manifest_label_from_uri,
}
use c2pa_rs_html.Jumbf.Labels.Uris.{HasNo-append}
use c2pa_rs_html.Claim.Decimal.{
  to_decimal, to_decimal-HasNo, is_empty-to_decimal, parse_usize, parse_usize-to_decimal, is_digit,
}
use c2pa_rs_html.Jumbf.Labels.ManifestParts.{
  colon, ManifestParts, vendor_part, reason_part, version_part, print, is_vendor, parsed_vendor,
  parsed_reason, both, parsed_version, label_parts, manifest_label_to_parts,
}

-- A part of a label of a manifest: no `:`, `/` and `=`.
pub record IsPart (t : Text) : Type 0 where
  pub no_colon : HasNo colon t
  pub no_slash : HasNo slash t
  pub no_equals : HasNo b'=' t

abbrev pub IsVendor : Option Text → Type 0
IsVendor none = Unit {0}
IsVendor (some v) = IsPart v × (is_vendor v ≡ true)

-- A version and a reason that usize holds; a reason comes with a version.
abbrev pub IsVersion : Option ℕ → Option ℕ → Type 0
IsVersion none none = Unit {0}
IsVersion none (some r) = ⊥
IsVersion (some v) none = v < 2 ^ 64
IsVersion (some v) (some r) = (v < 2 ^ 64) × (r < 2 ^ 64)

abbrev pub v2 : Text → Option Text → Option ℕ → Option ℕ → ManifestParts
v2 guid cgi version reason = record {
  guid = guid;
  is_v1 = false;
  cgi = cgi;
  version = version;
  reason = reason;
}

abbrev number_part : ℕ → Option ℕ → Text
number_part v reason = to_decimal v ++ reason_part reason

vendor_read : (v : Text) → is_vendor v ≡ true → parsed_vendor (some v) ≡ some (some v)
vendor_read [] h = (let clash = h in cc)
vendor_read (b ∷ v) h = rw h

version_read_as :
    (s : Text)
    → is_empty s ≡ false
    → parsed_version (some s)
      ≡ both (parse_usize (part (split b'_' s) 0)) (parsed_reason (get_elem? (split b'_' s) 1))
version_read_as [] h = (let clash = h in cc)
version_read_as (b ∷ s) h = refl

is_empty-append : (xs ys : Text) → is_empty xs ≡ false → is_empty (xs ++ ys) ≡ false
is_empty-append [] ys h = (let clash = h in cc)
is_empty-append (x ∷ xs) ys h = refl

version_read :
    (v : ℕ) (reason : Option ℕ)
    → IsVersion (some v) reason
    → parsed_version (some (number_part v reason)) ≡ some (some v, reason)
version_read v none h =
    let number = append-nil (to_decimal v) in
    let whole = split_whole b'_' (to_decimal v) (to_decimal-HasNo b'_' v refl) in
    ap (λ s. parsed_version (some s)) number
    ∙ version_read_as (to_decimal v) (is_empty-to_decimal v)
    ∙ rw (whole, parse_usize-to_decimal v h) refl
version_read v (some r) h =
    let cut =
      split-append_sep b'_' (to_decimal v) (to_decimal r) (to_decimal-HasNo b'_' v refl)
      ∙ ap (λ l. to_decimal v ∷ l)
          (split_whole b'_' (to_decimal r) (to_decimal-HasNo b'_' r refl)) in
    version_read_as (to_decimal v ++ b'_' ∷ to_decimal r)
      (is_empty-append (to_decimal v) (b'_' ∷ to_decimal r) (is_empty-to_decimal v))
    ∙ rw (cut, parse_usize-to_decimal v h.0, parse_usize-to_decimal r h.1) refl

number_HasNo :
    (c v : ℕ) (reason : Option ℕ) → is_digit c ≡ false → b'_' ≢ c → HasNo c (number_part v reason)
number_HasNo c v none k u = HasNo-append c (to_decimal v) [] (to_decimal-HasNo c v k) tt
number_HasNo c v (some r) k u =
    HasNo-append c (to_decimal v) (b'_' ∷ to_decimal r) (to_decimal-HasNo c v k)
      (u, to_decimal-HasNo c r k)

and_false : (b : Bool) → (b && false) ≡ false
and_false true = refl
and_false false = refl

-- A text without `/` and `=` is no URI of a manifest.
no_uri : (s : Text) → HasNo slash s → HasNo b'=' s → manifest_label_from_uri s ≡ none
unfolding manifest_label_from_uri to_normalized_uri
no_uri s h k =
    rw
      (
        split_whole b'=' s k,
        starts_with_sep slash manifest_store [] s h,
        and_false (not (is_empty s)),
        split_whole slash s h,
      )
      refl

body : Text → Option Text → Option ℕ → Option ℕ → Text
body guid cgi version reason = guid ++ (vendor_part cgi ++ version_part cgi version reason)

split_body :
    (s : Text) → split colon (bytes "urn:c2pa:" ++ s) ≡ bytes "urn" ∷ bytes "c2pa" ∷ split colon s
unfolding split
split_body s = refl

module _ (guid : Text) (hg : IsPart guid) where
  read_parts :
      (cgi : Option Text) (version reason : Option ℕ)
      → IsVendor cgi
      → IsVersion version reason
      → label_parts (bytes "urn" ∷ bytes "c2pa" ∷ split colon (body guid cgi version reason))
        ≡ some (v2 guid cgi version reason)
  unfolding body
  read_parts none none none hv hn = rw (append-nil guid, split_whole colon guid hg.no_colon) refl
  read_parts none none (some r) hv hn = absurd hn
  read_parts none (some v) reason hv hn =
      rw
        (
          split-append_sep colon guid (colon ∷ number_part v reason) hg.no_colon,
          split-append_sep colon [] (number_part v reason) tt,
          split_whole colon (number_part v reason)
              (number_HasNo colon v reason refl (λ e. ground arith)),
          version_read v reason hn,
        )
        refl
  read_parts (some w) none none hv hn =
      rw
        (
          append-nil (colon ∷ w),
          split-append_sep colon guid w hg.no_colon,
          split_whole colon w hv.0.no_colon,
          vendor_read w hv.1,
        )
        refl
  read_parts (some w) none (some r) hv hn = absurd hn
  read_parts (some w) (some v) reason hv hn =
      rw
        (
          split-append_sep colon guid (w ++ colon ∷ number_part v reason) hg.no_colon,
          split-append_sep colon w (number_part v reason) hv.0.no_colon,
          split_whole colon (number_part v reason)
              (number_HasNo colon v reason refl (λ e. ground arith)),
          vendor_read w hv.1,
          version_read v reason hn,
        )
        refl

  body_HasNo :
      (c : ℕ) (cgi : Option Text) (version reason : Option ℕ)
      → is_digit c ≡ false
      → b'_' ≢ c
      → colon ≢ c
      → HasNo c guid
      → ((w : Text) → IsPart w → HasNo c w)
      → IsVendor cgi
      → HasNo c (body guid cgi version reason)
  unfolding body
  body_HasNo c cgi version reason k u colon_free h part hv =
      HasNo-append c guid _ h
        (HasNo-append c (vendor_part cgi) _ (of_vendor cgi hv) (of_version cgi version))
    where
      of_vendor : (o : Option Text) → IsVendor o → HasNo c (vendor_part o)
      of_vendor none q = tt
      of_vendor (some w) q = (colon_free, part w q.0)

      of_version : (o : Option Text) (v : Option ℕ) → HasNo c (version_part o v reason)
      of_version o none = tt
      of_version none (some v) = (colon_free, (colon_free, number_HasNo c v reason k u))
      of_version (some w) (some v) = (colon_free, number_HasNo c v reason k u)

  printed :
      (cgi : Option Text) (version reason : Option ℕ)
      → print (v2 guid cgi version reason) ≡ bytes "urn:c2pa:" ++ body guid cgi version reason
  unfolding print body
  printed cgi version reason = refl

  -- The parts of a manifest label of version 2 are read back from the label that is made of them: for a guid and a
  -- vendor without `:`, `/` and `=`, a vendor of at most 32 ASCII characters in one word, a version and a reason that
  -- a usize holds, and a reason only with a version.
  pub manifest_label_to_parts-print :
      (cgi : Option Text) (version reason : Option ℕ)
      → IsVendor cgi
      → IsVersion version reason
      → manifest_label_to_parts (print (v2 guid cgi version reason))
        ≡ some (v2 guid cgi version reason)
  unfolding manifest_label_to_parts
  manifest_label_to_parts-print cgi version reason hv hn =
      let rest = body guid cgi version reason in
      let no_slash = HasNo-append slash (bytes "urn:c2pa:") rest (omega arith) (
        body_HasNo slash cgi version reason refl (λ e. ground arith) (λ e. ground arith) hg.no_slash
          (λ w p. p.no_slash) hv) in
      let no_equals = HasNo-append b'=' (bytes "urn:c2pa:") rest (omega arith) (
        body_HasNo b'=' cgi version reason refl (λ e. ground arith) (λ e. ground arith) hg.no_equals
          (λ w p. p.no_equals) hv) in
      let label = bytes "urn:c2pa:" ++ rest in
      rw (printed cgi version reason, no_uri label no_slash no_equals, split_body rest)
        (read_parts cgi version reason hv hn)
