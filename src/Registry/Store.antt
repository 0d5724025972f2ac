-- ===== src/Registry/Store.antt =====
-- server/internal/registryservice/driven/memory/store.go. The map of maps is one list with an entry for
-- each provider and version.
pub mod Lookups
use beecon.Base.{
  ℕ, String, Bool, true, false, ◌&&◌, Option, none, some, List, [], ◌∷◌, map, ltb, str_eq,
  if◌then◌else◌,
}
use beecon.Base.Lists.{filter}
use beecon.Base.Sort.{sort}
use beecon.Registry.Types.{Bundle, StoredBundle}

pub record Entry : Type 0 where
  pub provider : String
  pub stored : StoredBundle

pub record BundleStore : Type 0 where
  pub by_version : List Entry
  pub latest : List (String × String)

abbrev pub is_entry : String → String → Entry → Bool
is_entry provider version e = str_eq e.provider provider && str_eq e.stored.bundle.version version

unfoldable pub put_entry : Entry → List Entry → List Entry
put_entry e [] = e ∷ []
put_entry e (x ∷ xs) =
    let rest = put_entry e xs in
    if is_entry e.provider e.stored.bundle.version x then e ∷ xs else x ∷ rest

unfoldable pub put_latest : String → String → List (String × String) → List (String × String)
put_latest provider version [] = (provider, version) ∷ []
put_latest provider version ((p, v) ∷ xs) =
    let rest = put_latest provider version xs in
    if str_eq p provider then (provider, version) ∷ xs else (p, v) ∷ rest

unfoldable pub save : String → StoredBundle → BundleStore → BundleStore
unfolding put_entry put_latest
save provider stored s = record {
  by_version = put_entry (record { provider = provider; stored = stored }) s.by_version;
  latest = put_latest provider stored.bundle.version s.latest;
}

unfoldable pub find_entry : String → String → List Entry → Option StoredBundle
find_entry provider version [] = none
find_entry provider version (x ∷ xs) =
    if is_entry provider version x then some x.stored else find_entry provider version xs

unfoldable pub find : String → String → BundleStore → Option StoredBundle
unfolding find_entry
find provider version s = find_entry provider version s.by_version

unfoldable pub find_latest : String → List (String × String) → Option String
find_latest provider [] = none
find_latest provider ((p, v) ∷ xs) = if str_eq p provider then some v else find_latest provider xs

unfoldable pub latest_version : String → BundleStore → Option String
unfolding find_latest
latest_version provider s = find_latest provider s.latest

unfoldable pub list_stored : String → BundleStore → List StoredBundle
list_stored provider s =
    sort (λ (a b : StoredBundle). ltb a.published_at b.published_at)
      (map (λ (e : Entry). e.stored)
        (filter (λ (e : Entry). str_eq e.provider provider) s.by_version))
