-- ===== src/Registry/Errors.antt =====
-- server/internal/registryservice/errors.go.
use beecon.Base.{String, List, [], ◌∷◌}
use beecon.Httpx.Errors.{Error, Arg, Details, domain, new, text, validation_failed, with_details}

-- A details map of two entries, each of one text.
abbrev pair : String → String → String → String → Details
pair k v l w = (k, text v ∷ []) ∷ (l, text w ∷ []) ∷ []

unfoldable pub err_bundle_version_not_found : String → String → Error
unfolding new with_details
err_bundle_version_not_found provider version = domain (
    with_details (pair "provider" provider "version" version)
      (new 404 "not_found" "bundle version not found"))

unfoldable pub err_validation : String → String → List Arg → Error
unfolding validation_failed
err_validation field issue args = validation_failed field issue args

unfoldable pub err_strict_parse_failed : String → Error
unfolding new with_details
err_strict_parse_failed issue = domain (
    with_details (("issue", text issue ∷ []) ∷ []) (
      new 422 "strict_parse_failed"
        "bundle does not parse under the strict formatVersion: 1 loader"))

unfoldable pub err_missing_output_schema : String → Error
unfolding new with_details
err_missing_output_schema tool = domain (
    with_details (("tool", text tool ∷ []) ∷ [])
      (new 422 "missing_output_schema" "tool has no declared output schema"))

unfoldable pub err_missing_sample : String → Error
unfolding new with_details
err_missing_sample tool = domain (
    with_details (("tool", text tool ∷ []) ∷ [])
      (new 422 "missing_sample" "tool has no recorded sample response"))

unfoldable pub err_output_schema_sample_mismatch : String → String → Error
unfolding new with_details
err_output_schema_sample_mismatch tool issue = domain (
    with_details (pair "tool" tool "issue" issue) (
      new 422 "output_schema_vs_sample_mismatch"
        "tool's output schema does not validate its recorded sample response"))

unfoldable pub err_version_conflict : String → String → Error
unfolding new with_details
err_version_conflict provider version = domain (
    with_details (pair "provider" provider "version" version)
      (new 409 "version_conflict" "version already published"))

unfoldable pub err_illegal_semver_bump : String → String → List Arg → Error
unfolding new with_details
err_illegal_semver_bump provider issue args = domain (
    with_details (("provider", text provider ∷ []) ∷ ("issue", text issue ∷ args) ∷ [])
      (new 422 "illegal_semver_bump" "illegal semver version bump"))
