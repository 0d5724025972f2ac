-- ===== src/Registry/Examples.antt =====
-- The registry service of server/internal/registryservice on concrete inputs.
use beecon.Base.{
  ℕ, ◌+◌, ◌-◌, ◌^◌, ◌≡◌, refl, String, Bool, true, false, not, ◌&&◌, Option, none, some, List, [],
  ◌∷◌, ◌⊎◌, inl, inr,
}
use beecon.Base.Effects.{Result, ok, err, is_ok}
use beecon.Base.Effects.Ports.{Ticked}
use beecon.Registry.Types.{Tool, ToolMapping, StoredBundle, Bundle, OauthConfig}
use beecon.Registry.Versions.{SemverParts, parsed, above, parse_semver, print_semver, compare}
use beecon.Registry.Diff.{diff_slugs}
use beecon.Registry.Store.{find}
use beecon.Registry.Facade.{RegistryFacade, Bundles, publish, pull, list_versions}
use beecon.Registry.Diff.{names_slug}
use beecon.Registry.Diff.Sets.{diff_slugs_lem}
use beecon.Registry.Facade.Published.{Published}

abbrev a_registry : RegistryFacade
a_registry = record {
  now = λ n. n;
  fault = λ n. none;
  new_tool_id = λ n. "tool_1";
  marshal = λ b. ok b.version;
  sha256_hex = λ s. s;
  validate = λ schema sample. none;
  decode_strict = λ raw. inl "unexpected end of JSON input";
}

abbrev a_tool : Tool
a_tool = record {
  id = "";
  slug = "send";
  name = "Send";
  description = "";
  deprecated = false;
  input_schema = [];
  output_schema = ("type", "\"object\"") ∷ [];
  sample = ("id", "1") ∷ [];
  mapping = record {
    method = "POST";
    path = "/send";
    query = [];
    header = [];
    body = [];
    pagination = none;
    file_inputs = [];
  };
}

abbrev a_bundle : Bundle
a_bundle = record {
  format_version = 1;
  provider_slug = "";
  version = "";
  content_hash = "";
  name = "Outlook";
  logo = "";
  auth_scheme = "";
  base_url = "https://api";
  oauth = record {
    authorize_url = "";
    token_url = "";
    user_info_url = "";
    scopes = [];
    credential_style = "";
    user_info_email_field = "";
    user_info_display_name_field = "";
  };
  expected_params = [];
  tools = a_tool ∷ [];
  triggers = [];
}

abbrev no_bundles : Bundles
no_bundles = record { store = record { by_version = []; latest = [] }; tick = 0 }

abbrev published_once : Bundles
published_once = (publish a_registry "outlook" a_bundle no_bundles).1

parse_test : parse_semver "1.20.3" ≡ parsed (record { major = 1; minor = 20; patch = 3 })
unfolding parse_semver beecon.Execution.RateLimit.atoi
parse_test = refl

print_test : print_semver (record { major = 1; minor = 20; patch = 2 ^ 64 - 3 }) ≡ "1.20.-3"
unfolding print_semver
print_test = refl

-- A sign is taken, and the difference of two parts wraps around.
signs_test : parse_semver "+1.-0.03" ≡ parsed (record { major = 1; minor = 0; patch = 3 })
unfolding parse_semver beecon.Execution.RateLimit.atoi
signs_test = refl

compare_test :
    compare
      (record { major = 2 ^ 63; minor = 0; patch = 0 })
      (record { major = 1; minor = 0; patch = 0 })
    ≡ above
unfolding compare
compare_test = refl

diff_test : diff_slugs ("b" ∷ "a" ∷ []) ("c" ∷ "b" ∷ "aa" ∷ "c" ∷ []) ≡ ("aa" ∷ "c" ∷ [], "a" ∷ [])
unfolding diff_slugs beecon.Base.Sort.sort beecon.Base.Lists.filter
diff_test = refl

-- The second publish of the same bundle.
publish_test :
    (publish a_registry "outlook" a_bundle published_once).0
    ≡ ok (record {
      version = "1.0.1";
      content_hash = "sha256:1.0.1";
      tools = record { id = "tool_1"; slug = "send" } ∷ [];
      added = record { tools = []; triggers = [] };
      removed = record { tools = []; triggers = [] };
    })
unfolding publish beecon.Base.Effects.◌>>=◌ beecon.Base.Effects.check beecon.Base.Effects.collect
    beecon.Base.Effects.lift beecon.Base.Effects.or_fail beecon.Base.Effects.pure
    beecon.Base.Effects.Ports.query beecon.Base.Effects.Ports.call beecon.Base.Effects.Ports.read
    beecon.Base.Effects.Ports.update beecon.Registry.Facade.validate_output_schemas
    beecon.Registry.Facade.prior_bundle beecon.Registry.Facade.resolve_version
    beecon.Registry.Facade.resolve_first_version beecon.Registry.Facade.mint_tool_ids
    beecon.Registry.Facade.prior_tool_id beecon.Registry.Facade.tool_identities
    beecon.Registry.Types.content_hash beecon.Registry.Store.save beecon.Registry.Store.find
    beecon.Registry.Store.latest_version beecon.Registry.Diff.diff_bundle
    beecon.Registry.Diff.has_additions beecon.Registry.Diff.has_removals
    beecon.Registry.Versions.auto_next_version beecon.Base.Lists.filter beecon.Base.Sort.sort
    parse_semver print_semver beecon.Execution.RateLimit.atoi
publish_test = refl

diff_slugs_lem_example :
    (names_slug "c" (diff_slugs ("b" ∷ "a" ∷ []) ("c" ∷ "b" ∷ [])).0
      ≡ (names_slug "c" ("c" ∷ "b" ∷ []) && not (names_slug "c" ("b" ∷ "a" ∷ []))))
    × (names_slug "c" (diff_slugs ("b" ∷ "a" ∷ []) ("c" ∷ "b" ∷ [])).1
        ≡ (names_slug "c" ("b" ∷ "a" ∷ []) && not (names_slug "c" ("c" ∷ "b" ∷ []))))
diff_slugs_lem_example = diff_slugs_lem ("b" ∷ "a" ∷ []) ("c" ∷ "b" ∷ []) "c"

abbrev publish_as : String → String → Bundles → Bundles
publish_as version name w =
    (publish a_registry "outlook" (record a_bundle { version = version; name = name }) w).1

abbrev name_of : Option StoredBundle → String
name_of none = ""
name_of (some s) = s.bundle.name

-- A requested version that wraps around is followed by a version that is on file already.
abbrev wrapped : Bundles
wrapped = publish_as "" "second" (
    publish_as "" "zero" (
      publish_as "1.0.-1" "below"
        (publish_as "1.0.-9223372036854775808" "least" (publish_as "1.0.1" "first" no_bundles))))

overwrite_test : name_of (find "outlook" "1.0.1" wrapped.store) ≡ "second"
unfolding publish beecon.Base.Effects.◌>>=◌ beecon.Base.Effects.check beecon.Base.Effects.collect
    beecon.Base.Effects.lift beecon.Base.Effects.or_fail beecon.Base.Effects.pure
    beecon.Base.Effects.Ports.query beecon.Base.Effects.Ports.call beecon.Base.Effects.Ports.read
    beecon.Base.Effects.Ports.update beecon.Registry.Facade.validate_output_schemas
    beecon.Registry.Facade.prior_bundle beecon.Registry.Facade.resolve_version
    beecon.Registry.Facade.resolve_first_version beecon.Registry.Facade.mint_tool_ids
    beecon.Registry.Facade.prior_tool_id beecon.Registry.Facade.tool_identities
    beecon.Registry.Types.content_hash beecon.Registry.Store.save beecon.Registry.Store.find
    beecon.Registry.Store.latest_version beecon.Registry.Diff.diff_bundle
    beecon.Registry.Diff.has_additions beecon.Registry.Diff.has_removals
    beecon.Registry.Versions.auto_next_version beecon.Base.Lists.filter beecon.Base.Sort.sort
    parse_semver print_semver beecon.Execution.RateLimit.atoi compare
overwrite_test = refl
