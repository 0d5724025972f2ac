-- ===== src/Registry/Facade/Resolved.antt =====
-- The version that server/internal/registryservice/facade.go gives to a publish.
use beecon.Base.{◌≡◌, refl, ap, subst, String, Bool, true, false, Option, none, some, arith, str_eq}
use beecon.Base.Effects.{ok}
use beecon.Base.Effects.Ends.{
  Ends, Ends-pure, Ends-if, Ends-check, Ends-find, Ends-lift, Ends-lift_kept, Ends-then,
}
use beecon.Registry.Types.{Bundle, StoredBundle}
use beecon.Registry.Versions.{
  SemverParts, Parsed, malformed, parsed, parse_semver, print_semver, auto_next_version,
}
use beecon.Registry.Versions.Order.{IsNatural, Follows, compare-Follows}
use beecon.Registry.Diff.{BundleDiff, has_additions, has_removals}
use beecon.Registry.Store.{BundleStore, find}
use beecon.Registry.Facade.{
  RegistryFacade, resolve_first_version, resolve_requested_version, resolve_version, parsed_request,
  parsed_prior,
}

-- Nothing has changed.
unfoldable pub IsHere : BundleStore → BundleStore → Type 0
IsHere d o = o ≡ d

-- A requested version is not one that is stored, it is what was asked for, and where no part is below 0
-- it comes after the last one as the change of tools and triggers asks.
pub record NextVersion (provider requested version : String) (last : Bundle) (diff : BundleDiff)
    (d : BundleStore) : Type 0 where
  pub same : version ≡ requested
  pub unpublished : find provider version d ≡ none
  pub old : SemverParts
  pub parts : SemverParts
  pub old_of : parse_semver last.version ≡ parsed old
  pub parts_of : parse_semver version ≡ parsed parts
  pub follows :
      IsNatural old → IsNatural parts → Follows (has_removals diff) (has_additions diff) old parts

-- A version that the registry assigns.
pub record Assigned (version : String) (last : Bundle) (diff : BundleDiff) : Type 0 where
  pub old : SemverParts
  pub old_of : parse_semver last.version ≡ parsed old
  pub same : version ≡ print_semver (auto_next_version old (has_removals diff) (has_additions diff))

pub record Resolved (provider requested version : String) (prior : Option Bundle)
    (diff : BundleDiff) (d : BundleStore) : Type 0 where
  pub asked :
      (last : Bundle)
      → prior ≡ some last
      → str_eq requested "" ≡ false
      → NextVersion provider requested version last diff d
  pub assigned :
      (last : Bundle) → prior ≡ some last → str_eq requested "" ≡ true → Assigned version last diff
  pub first : prior ≡ none → str_eq requested "" ≡ true → version ≡ "1.0.0"

parsed_request-ok :
    (version : String) (p : Parsed) (v : SemverParts)
    → parsed_request version p ≡ ok v
    → p ≡ parsed v
parsed_request-ok version (malformed issue) v h = absurd (ground (arith, h))
parsed_request-ok version (parsed w) v h = ground (arith, h)

parsed_prior-ok : (p : Parsed) (v : SemverParts) → parsed_prior p ≡ ok v → p ≡ parsed v
parsed_prior-ok (malformed issue) v h = absurd (ground (arith, h))
parsed_prior-ok (parsed w) v h = ground (arith, h)

module _ (f : RegistryFacade) (provider requested : String) (diff : BundleDiff)
    (d : BundleStore) where
  resolve_requested_version-Ends :
      (last : Bundle) (old : SemverParts)
      → parse_semver last.version ≡ parsed old
      → Ends
          (IsHere d)
          (λ v o. NextVersion provider requested v last diff d × IsHere d o)
          (IsHere d)
          (resolve_requested_version f provider requested old diff)
  unfolding resolve_requested_version IsHere
  resolve_requested_version-Ends last old old_of =
      Ends-find f.fault _ _ (λ o h. h) (find provider requested d)
        (λ o h. ap (find provider requested) h)
        (Ends-check _ _ _ (λ o h. h)
          λ absent.
            Ends-lift _ _ (λ o h. h)
              λ parts e.
                Ends-check _ _ _ (λ o h. h)
                  λ up.
                    Ends-check _ _ _ (λ o h. h)
                      λ removal.
                        Ends-check _ _ _ (λ o h. h)
                          λ addition. Ends-pure _ λ o h. (
                            record {
                              same = refl;
                              unpublished = is_none (find provider requested d) absent;
                              old = old;
                              parts = parts;
                              old_of = old_of;
                              parts_of = parsed_request-ok requested _ parts e;
                              follows = λ n_old n_new.
                                  compare-Follows _ _ old parts n_old n_new (ground (arith, up))
                                    removal addition;
                            },
                            h,
                          ))
    where
      is_none :
          (s : Option StoredBundle)
          → elim s as (λ _. Bool) [ none ↦ false | some _ ↦ true ] ≡ false
          → s ≡ none
      is_none none h = refl
      is_none (some s) h = absurd (ground (arith, h))

  pub resolve_version-Ends :
      (prior : Option Bundle)
      → Ends
          (IsHere d)
          (λ v o. Resolved provider requested v prior diff d × IsHere d o)
          (IsHere d)
          (resolve_version f provider requested prior diff)
  unfolding resolve_version resolve_first_version
  resolve_version-Ends none = Ends-lift_kept _ λ v e. record {
    asked = λ l same full. absurd (ground (arith, same));
    assigned = λ l same empty. absurd (ground (arith, same));
    first = λ _ empty. ground (arith, e, empty);
  }
  resolve_version-Ends (some last) =
      Ends-lift _ _ (λ o h. h)
        λ old e.
          let old_of : parse_semver last.version ≡ parsed old = parsed_prior-ok _ old e in
          Ends-if (str_eq requested "") _ _
            (λ empty. Ends-pure _ λ o h. (
              record {
                asked = λ l same full. absurd (ground (arith, empty, full));
                assigned = λ l same _. record {
                  old = old;
                  old_of = ground (arith, old_of, same);
                  same = refl;
                };
                first = λ e. absurd (ground (arith, e));
              },
              h,
            ))
            (λ full.
              Ends-then _
                (λ v o h. (
                  record {
                    asked = λ l same _.
                        subst (λ x. NextVersion provider requested v x diff d)
                          (ground (arith, same)) h.0;
                    assigned = λ l same empty. absurd (ground (arith, empty, full));
                    first = λ gone. absurd (ground (arith, gone));
                  },
                  h.1,
                ))
                (resolve_requested_version-Ends last old old_of))
