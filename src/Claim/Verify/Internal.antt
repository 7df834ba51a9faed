-- ===== src/Claim/Verify/Internal.antt =====
-- `Claim::verify_internal` (sdk/src/claim.rs), the parts in their order.
pub mod Accepts
use c2pa_rs_html.Prelude.{Text, Bool, Option}
use c2pa_rs_html.Result.{Result}
use c2pa_rs_html.Error.{Error}
use c2pa_rs_html.Hashing.Hasher.{Hasher}
use c2pa_rs_html.Hashing.Ranges.{RangeSet}
use c2pa_rs_html.Claim.Assertion.{Assertion}
use c2pa_rs_html.Claim.Store.{Claim}
use c2pa_rs_html.Claim.Check.{Check, ◌>>>◌}
use c2pa_rs_html.Claim.Verify.Head.{
  Verified, verify_signature, verify_icons, verify_redactions, verify_parents,
}
use c2pa_rs_html.Claim.Verify.Actions.{verify_actions}
use c2pa_rs_html.Claim.Verify.Decoded.{Relationship, Actions}
use c2pa_rs_html.Claim.Verify.Links.{StoreValidationInfo, check_assertions}
use c2pa_rs_html.Claim.Verify.Bindings.{ClaimAssetData, Decoders, check_bindings}

module _ (shown : Error → Text → Text) (displayed : Error → Text) {S T : Type 0} (h : Hasher S)
    (s : RangeSet T) (d : Decoders) (relationship_of : Assertion → Result Error Relationship)
    (actions_of : Assertion → Result Error Actions) (strict : Option Bool) where
  unfoldable pub verify_internal : Claim → ClaimAssetData → StoreValidationInfo → Verified → Check
  verify_internal c asset svi verified =
      verify_signature shown c verified
      >>> verify_icons shown c c.icons
      >>> verify_redactions shown c
      >>> verify_parents shown relationship_of actions_of c
      >>> check_assertions shown c svi
      >>> check_bindings shown displayed h s d c svi asset
      >>> verify_actions actions_of relationship_of shown strict c svi
