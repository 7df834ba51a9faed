-- ===== src/Claim/Verify/Decoded.antt =====
-- What serde makes of the assertions on actions and ingredients (sdk/src/assertions/actions.rs and
-- ingredient.rs), as far as the verification of a claim reads it. Of a parameter of an action,
-- the inner `Option` is what `value_cbor_to_type` gives.
use c2pa_rs_html.Prelude.{List, Text, Bool, true, false, Option}
use c2pa_rs_html.Result.{Result, ok, err, panic, stuck}
use c2pa_rs_html.Error.{Error}
use c2pa_rs_html.Claim.Store.{HashedUri}

pub data Relationship : Type 0 where
  parent_of component_of input_to : Relationship

-- The value under `ingredients`: whether it is an array with an element, and what it decodes to.
pub record Ingredients : Type 0 where
  pub non_empty_array : Bool
  pub hashed_uris : Option (List HashedUri)

pub record Parameters : Type 0 where
  pub ingredient : Option (Option HashedUri)
  pub ingredients : Option Ingredients
  pub redacted : Option (Option Text)

-- `agent_icons` has the icon of the software agent, if that is a hashed URI.
pub record Action : Type 0 where
  pub action : Text
  pub parameters : Option Parameters
  pub agent_icons : List HashedUri

-- `icons` has the icons of the software agents and those of the templates that are hashed URIs.
pub record Actions : Type 0 where
  pub actions : List Action
  pub icons : List HashedUri

abbrev pub same_relationship : Relationship → Relationship → Bool
same_relationship parent_of parent_of = true
same_relationship component_of component_of = true
same_relationship input_to input_to = true
same_relationship r s = false

abbrev pub is_related : Relationship → Result Error Relationship → Bool
is_related r (ok s) = same_relationship s r
is_related r (err e) = false
is_related r panic = false
is_related r stuck = false
