-- ===== src/Claim/Verify/Internal/Accepts.antt =====
-- What the verification of a claim accepts.
use c2pa_rs_html.Prelude.{Text, Bool, Option, ◌&&◌, all}
use c2pa_rs_html.Result.{Result}
use c2pa_rs_html.Error.{Error}
use c2pa_rs_html.Hashing.Hasher.{Hasher}
use c2pa_rs_html.Hashing.Ranges.{RangeSet}
use c2pa_rs_html.Claim.Assertion.{Assertion}
use c2pa_rs_html.Claim.Store.{Claim}
use c2pa_rs_html.Claim.Verify.Head.{Verified}
use c2pa_rs_html.Claim.Verify.Head.Accepts.{
  is_validated, icon_resolves, may_redact_all, has_parents,
}
use c2pa_rs_html.Claim.Verify.Actions.Accepts.{actions_hold}
use c2pa_rs_html.Claim.Verify.Decoded.{Relationship, Actions}
use c2pa_rs_html.Claim.Verify.Links.{StoreValidationInfo}
use c2pa_rs_html.Claim.Verify.Links.Accepts.{assertions_hold}
use c2pa_rs_html.Claim.Verify.Bindings.{ClaimAssetData, Decoders}
use c2pa_rs_html.Claim.Verify.Bindings.Accepts.{checked_bindings_hold}

module _ (shown : Error → Text → Text) (displayed : Error → Text) {S T : Type 0} (h : Hasher S)
    (s : RangeSet T) (d : Decoders) (relationship_of : Assertion → Result Error Relationship)
    (actions_of : Assertion → Result Error Actions) (strict : Option Bool) where
  -- What the verification asks of a claim.
  abbrev pub meets_checks : Claim → ClaimAssetData → StoreValidationInfo → Verified → Bool
  meets_checks c asset svi verified =
      (((((is_validated verified && all (icon_resolves c) c.icons) && may_redact_all c)
            && has_parents relationship_of actions_of c)
          && assertions_hold c svi)
        && checked_bindings_hold h s d c svi asset)
      && actions_hold actions_of relationship_of strict c svi
