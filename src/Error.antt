-- ===== src/Error.antt =====
-- The constructors of the crate's `Error` (sdk/src/error.rs) that the modelled code returns, without
-- the text that some carry.
pub data Error : Type 0 where
  bad_param io_error not_found : Error
  unsupported_type other_error hash_mismatch jumbf_creation_error assertion_encoding : Error
  assertion_missing claim_self_redact claim_disallowed_redaction update_manifest_invalid : Error
  claim_missing_hard_binding claim_multiple_hard_binding cose_signature claim_verification
        validation_rule :
      Error
  invalid_asset jumbf_not_found jumbf_parse_error assertion_invalid_redaction
        too_many_manifest_stores embedding_error :
      Error
