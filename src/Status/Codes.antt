-- ===== src/Status/Codes.antt =====
-- The status codes of `validation_status` in sdk/src/validation_results.rs that the modelled code
-- names, and the kind of a code.
use c2pa_rs_html.Prelude.{Text, bytes, List, [], ◌∷◌, Bool, any, bytes_eq, if◌then◌else◌}
use c2pa_rs_html.Status.LogItem.{LogKind, success, informational, failure}

abbrev pub signing_credential_trusted : Text
signing_credential_trusted = bytes "signingCredential.trusted"

abbrev pub assertion_datahash_match : Text
assertion_datahash_match = bytes "assertion.dataHash.match"

abbrev pub claim_missing : Text
claim_missing = bytes "claim.missing"

abbrev pub assertion_missing : Text
assertion_missing = bytes "assertion.missing"

abbrev pub assertion_required_missing : Text
assertion_required_missing = bytes "assertion.required.missing"

abbrev pub manifest_inaccessible : Text
manifest_inaccessible = bytes "manifest.inaccessible"

abbrev pub general_error : Text
general_error = bytes "general.error"

abbrev pub assertion_datahash_mismatch : Text
assertion_datahash_mismatch = bytes "assertion.dataHash.mismatch"

-- `STATUS_PRERELEASE` of sdk/src/validation_status.rs.
abbrev pub status_prerelease : Text
status_prerelease = bytes "com.adobe.prerelease"

-- The codes of the first arm of `log_kind`, in its order.
abbrev pub success_codes : List Text
success_codes =
    bytes "claimSignature.validated"
    ∷ bytes "claimSignature.insideValidity"
    ∷ signing_credential_trusted
    ∷ bytes "signingCredential.ocsp.notRevoked"
    ∷ bytes "timeStamp.trusted"
    ∷ bytes "timeStamp.validated"
    ∷ bytes "assertion.hashedURI.match"
    ∷ assertion_datahash_match
    ∷ bytes "assertion.bmffHash.match"
    ∷ bytes "assertion.accessible"
    ∷ bytes "assertion.boxesHash.match"
    ∷ bytes "assertion.collectionHash.match"
    ∷ bytes "ingredient.manifest.validated"
    ∷ bytes "ingredient.claimSignature.validated"
    ∷ []

-- The codes of the second arm.
abbrev pub informational_codes : List Text
informational_codes =
    bytes "signingCredential.ocsp.skipped"
    ∷ bytes "signingCredential.ocsp.inaccessible"
    ∷ bytes "timeStamp.untrusted"
    ∷ bytes "timeStamp.outsideValidity"
    ∷ bytes "timeStamp.mismatch"
    ∷ bytes "timeStamp.malformed"
    ∷ bytes "manifest.unknownProvenance"
    ∷ bytes "ingredient.unknownProvenance"
    ∷ bytes "algorithm.deprecated"
    ∷ bytes "timeOfSigning.insideValidity"
    ∷ []

abbrev pub is_one_of : Text → List Text → Bool
is_one_of code codes = any (bytes_eq code) codes

unfoldable pub log_kind : Text → LogKind
log_kind status_code =
    if is_one_of status_code success_codes
    then success
    else if is_one_of status_code informational_codes
    then informational
    else failure
