-- ===== src/Registry/Facade.antt =====
-- server/internal/registryservice/facade.go, schemagate.go and strict_parse.go. JSON, SHA-256 and
-- schema.Validate are fields of the facade.
pub mod Minted
pub mod Resolved
pub mod Published
use Prim.Native.String.{◌++◌ as text_append}
use beecon.Base.{
  ℕ, ◌+◌, ◌%◌, ◌^◌, ◌⊎◌, inl, inr, String, Bool, true, false, not, ◌&&◌, ◌||◌, Option, none, some,
  List, [], ◌∷◌, map, ltb, leb, ◌==◌, str_eq, if◌then◌else◌,
}
use beecon.Base.Effects.{
  Result, ok, err, Exec, pure, check, or_fail, lift, fail, ◌>>=◌, ◌>>◌, collect,
}
use beecon.Base.Effects.Ports.{Ticked, read, query, update, fails_if}
use beecon.Httpx.Errors.{Error, text, formatted}
use beecon.Registry.Types.{
  Object, Tool, Bundle, StoredBundle, ToolIdentity, BundleVersionSummary, PublishResult,
  content_hash,
}
use beecon.Registry.Errors.{
  err_bundle_version_not_found, err_validation, err_strict_parse_failed, err_missing_output_schema,
  err_missing_sample, err_output_schema_sample_mismatch, err_version_conflict,
  err_illegal_semver_bump,
}
use beecon.Registry.Versions.{
  is_above, int_le, SemverParts, Parsed, malformed, parsed, parse_semver, print_semver, Sign, above,
  compare, auto_next_version,
}
use beecon.Registry.Diff.{BundleDiff, has_additions, has_removals, diff_bundle}
use beecon.Registry.Store.{BundleStore, save, find, latest_version, list_stored}

pub record RegistryFacade : Type 0 where
  pub now : ℕ → ℕ
  pub fault : ℕ → Option ℕ
  pub new_tool_id : ℕ → String
  pub marshal : Bundle → Result String
  pub sha256_hex : String → String
  -- The text of the error, if the schema does not take the sample.
  pub validate : Object → Object → Option String
  -- The text of the error, or the bundle, of a decoder that refuses unknown fields.
  pub decode_strict : String → String ⊎ Bundle

abbrev pub Bundles : Type 0
Bundles = Ticked BundleStore

unfoldable pub parse_bundle_strict : RegistryFacade → String → Result Bundle
parse_bundle_strict f raw = elim (f.decode_strict raw) [
  | inl issue ↦ err (err_strict_parse_failed issue)
  | inr bundle ↦ ok bundle
]

abbrev supported_format_version : ℕ
supported_format_version = 1

abbrev is_empty : Object → Bool
is_empty [] = true
is_empty (_ ∷ _) = false

abbrev mismatch : String → Option String → Option Error
mismatch slug none = none
mismatch slug (some issue) = some (err_output_schema_sample_mismatch slug issue)

unfoldable pub validate_tool : RegistryFacade → Tool → Option Error
validate_tool f tool =
    if is_empty tool.output_schema
    then some (err_missing_output_schema tool.slug)
    else if is_empty tool.sample
    then some (err_missing_sample tool.slug)
    else mismatch tool.slug (f.validate tool.output_schema tool.sample)

unfoldable pub validate_output_schemas : RegistryFacade → List Tool → Option Error
unfolding validate_tool
validate_output_schemas f [] = none
validate_output_schemas f (tool ∷ tools) =
    let rest = validate_output_schemas f tools in
    elim (validate_tool f tool) [ none ↦ rest | some e ↦ some e ]

unfoldable pub prior_bundle : RegistryFacade → String → Exec Bundles (Option Bundle)
prior_bundle f provider = do
  latest ← query f.fault (latest_version provider)
  elim latest [
    | none ↦ pure none
    | some version ↦ query f.fault (find provider version) >>= λ stored.
        pure (elim stored [ none ↦ none | some s ↦ some s.bundle ])
  ]

-- prior[slug]: of two tools with one slug, the later.
unfoldable pub prior_tool_id : String → List Tool → Option String
prior_tool_id slug [] = none
prior_tool_id slug (tool ∷ tools) =
    let rest = prior_tool_id slug tools in
    elim rest [ some id ↦ some id | none ↦ if str_eq tool.slug slug then some tool.id else none ]

abbrev pub tools_of : Option Bundle → List Tool
tools_of none = []
tools_of (some prior) = prior.tools

abbrev pub tool_id : RegistryFacade → Option String → Exec Bundles String
tool_id f none = read f.new_tool_id
tool_id f (some id) = pure id

unfoldable pub mint_tool_ids : RegistryFacade → Option Bundle → List Tool → Exec Bundles (List Tool)
unfolding prior_tool_id
mint_tool_ids f prior = collect λ (tool : Tool).
    tool_id f (prior_tool_id tool.slug (tools_of prior)) >>= λ id. pure (record tool { id = id })

unfoldable pub tool_identities : List Tool → List ToolIdentity
tool_identities tools = map (λ (t : Tool). record { id = t.id; slug = t.slug }) tools

abbrev pub parsed_request : String → Parsed → Result SemverParts
parsed_request version (malformed issue) = err (err_validation "version" issue (text version ∷ []))
parsed_request version (parsed v) = ok v

abbrev pub parsed_prior : Parsed → Result SemverParts
parsed_prior (malformed issue) = err (formatted issue)
parsed_prior (parsed v) = ok v

unfoldable pub resolve_first_version : String → Result String
resolve_first_version requested =
    if str_eq requested ""
    then ok "1.0.0"
    else elim (parsed_request requested (parse_semver requested)) [
      | err e ↦ err e
      | ok _ ↦ ok requested
    ]

unfoldable pub resolve_requested_version :
    RegistryFacade → String → String → SemverParts → BundleDiff → Exec Bundles String
resolve_requested_version f provider requested prior diff = do
  existing ← query f.fault (find provider requested)
  check (
      fails_if (elim existing [ none ↦ false | some _ ↦ true ])
        (err_version_conflict provider requested))
  new_version ← lift (parsed_request requested (parse_semver requested))
  check (
      fails_if (not (is_above (compare new_version prior))) (
        err_illegal_semver_bump provider
          "version %s must be strictly greater than the current latest version %s"
          (text requested ∷ text (print_semver prior) ∷ [])))
  check (
      fails_if (has_removals diff && int_le new_version.major prior.major) (
        err_illegal_semver_bump provider "removing a tool or trigger requires a major version bump"
          []))
  check (
      fails_if
        (has_additions diff
          && (new_version.major == prior.major)
          && int_le new_version.minor prior.minor)
        (err_illegal_semver_bump provider
          "adding a tool or trigger requires at least a minor version bump" []))
  pure requested

unfoldable pub resolve_version :
    RegistryFacade → String → String → Option Bundle → BundleDiff → Exec Bundles String
unfolding resolve_first_version resolve_requested_version
resolve_version f provider requested none diff = lift (resolve_first_version requested)
resolve_version f provider requested (some prior) diff = do
  prior_version ← lift (parsed_prior (parse_semver prior.version))
  if str_eq requested ""
      then pure
          (print_semver (auto_next_version prior_version (has_removals diff) (has_additions diff)))
      else resolve_requested_version f provider requested prior_version diff

unfoldable pub publish : RegistryFacade → String → Bundle → Exec Bundles PublishResult
unfolding validate_output_schemas prior_bundle resolve_version mint_tool_ids tool_identities
publish f provider bundle = do
  check (fails_if (str_eq provider "") (err_validation "providerSlug" "must not be empty" []))
  check (
      fails_if (not (bundle.format_version == supported_format_version))
        (err_validation "formatVersion" "must be 1" []))
  check (validate_output_schemas f bundle.tools)
  prior ← prior_bundle f provider
  let diff : BundleDiff = diff_bundle prior bundle
  version ← resolve_version f provider bundle.version prior diff
  tools ← mint_tool_ids f prior bundle.tools
  let unhashed : Bundle = record bundle {
    provider_slug = provider;
    version = version;
    tools = tools;
  }
  hash ← lift (content_hash f.marshal f.sha256_hex unhashed)
  let finalized : Bundle = record unhashed { content_hash = hash }
  now ← read f.now
  update f.fault (save provider (record { bundle = finalized; published_at = now }))
  pure (record {
    version = version;
    content_hash = hash;
    tools = tool_identities finalized.tools;
    added = record { tools = diff.added_tools; triggers = diff.added_triggers };
    removed = record { tools = diff.removed_tools; triggers = diff.removed_triggers };
  })

unfoldable pub pull : RegistryFacade → String → String → Exec Bundles Bundle
pull f provider version = do
  found ← query f.fault (find provider version)
  stored ← or_fail (err_bundle_version_not_found provider version) found
  pure stored.bundle

unfoldable pub list_versions : RegistryFacade → String → Exec Bundles (List BundleVersionSummary)
list_versions f provider = do
  stored ← query f.fault (list_stored provider)
  pure (
      map
        (λ (s : StoredBundle). record {
          version = s.bundle.version;
          content_hash = s.bundle.content_hash;
          published_at = s.published_at;
        })
        stored)
