-- ===== src/Registry/Facade/Published.antt =====
-- What a publish of server/internal/registryservice/facade.go leaves.
use beecon.Base.{◌≡◌, String, false, ◌&&◌, Option, none, some, str_eq}
use beecon.Base.Effects.{ok}
use beecon.Base.Effects.Ends.{Ends}
use beecon.Registry.Types.{Bundle, StoredBundle, PublishResult, content_hash}
use beecon.Registry.Diff.{diff_bundle}
use beecon.Registry.Store.{BundleStore, find, latest_version}
use beecon.Registry.Facade.{RegistryFacade, tool_identities}
use beecon.Registry.Facade.Minted.{Kept, slugs}
use beecon.Registry.Facade.Resolved.{Resolved}

abbrev bundle_of : Option StoredBundle → Option Bundle
bundle_of none = none
bundle_of (some s) = some s.bundle

abbrev found_at : String → BundleStore → Option String → Option Bundle
found_at provider d none = none
found_at provider d (some version) = bundle_of (find provider version d)

-- The bundle that was published last.
unfoldable pub last_published : String → BundleStore → Option Bundle
last_published provider d = found_at provider d (latest_version provider d)

-- What a publish that succeeds has done. The new version is what Pull finds and the latest; it holds the
-- published bundle, with the slugs that were handed in; no other version of any provider is touched; a
-- tool whose slug the last bundle had keeps its id; and the version is one that may follow the last.
pub record Published (f : RegistryFacade) (provider : String) (bundle : Bundle)
    (before : BundleStore) (result : PublishResult) (after : BundleStore) : Type 0 where
  pub stored : StoredBundle
  pub is_stored : find provider result.version after ≡ some stored
  pub is_latest : latest_version provider after ≡ some result.version
  pub its_version : stored.bundle.version ≡ result.version
  pub hash : content_hash f.marshal f.sha256_hex stored.bundle ≡ ok result.content_hash
  pub tools : tool_identities stored.bundle.tools ≡ result.tools
  pub same_slugs : slugs stored.bundle.tools ≡ slugs bundle.tools
  pub same_ids : Kept (last_published provider before) stored.bundle.tools
  pub others :
      (q v : String)
      → (str_eq provider q && str_eq result.version v) ≡ false
      → find q v after ≡ find q v before
  pub resolved :
      Resolved provider bundle.version result.version
        (last_published provider before)
        (diff_bundle (last_published provider before) bundle)
        before

module _ (f : RegistryFacade) (provider : String) (bundle : Bundle) (d : BundleStore) where
  last : Option Bundle
  last = last_published provider d
