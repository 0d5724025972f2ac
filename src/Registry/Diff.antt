-- ===== src/Registry/Diff.antt =====
-- server/internal/registryservice/bundlediff.go. A set of slugs is a list of distinct ones; ranging over
-- it is in the order of the list, since what is gathered is sorted.
pub mod Sets
use Prim.Native.String.{String, compare}
use Prim.Native.Nat.{Ordering}
use beecon.Base.{
  Bool, true, false, not, ◌||◌, Option, none, some, List, [], ◌∷◌, map, str_eq, if◌then◌else◌,
}
use beecon.Base.Lists.{filter}
use beecon.Base.Sort.{sort}
use beecon.Registry.Types.{Tool, Trigger, Bundle}

pub record BundleDiff : Type 0 where
  pub added_tools : List String
  pub removed_tools : List String
  pub added_triggers : List String
  pub removed_triggers : List String

abbrev is_empty : List String → Bool
is_empty [] = true
is_empty (_ ∷ _) = false

unfoldable pub has_additions : BundleDiff → Bool
has_additions d = not (is_empty d.added_tools) || not (is_empty d.added_triggers)

unfoldable pub has_removals : BundleDiff → Bool
has_removals d = not (is_empty d.removed_tools) || not (is_empty d.removed_triggers)

unfoldable pub names_slug : String → List String → Bool
names_slug slug [] = false
names_slug slug (s ∷ ss) = str_eq s slug || names_slug slug ss

unfoldable pub to_slug_set : List String → List String
unfolding names_slug
to_slug_set [] = []
to_slug_set (s ∷ ss) = let rest = to_slug_set ss in if names_slug s rest then rest else s ∷ rest

abbrev pub slug_less : String → String → Bool
slug_less a b = elim (compare a b) [ Ordering.lt ↦ true | _ ↦ false ]

-- Added, removed.
unfoldable pub diff_slugs : List String → List String → List String × List String
unfolding to_slug_set names_slug
diff_slugs prior next = (
  sort slug_less (filter (λ s. not (names_slug s (to_slug_set prior))) (to_slug_set next)),
  sort slug_less (filter (λ s. not (names_slug s (to_slug_set next))) (to_slug_set prior)),
)

unfoldable pub tool_slugs : List Tool → List String
tool_slugs tools = map (λ (tool : Tool). tool.slug) tools

unfoldable pub trigger_slugs : List Trigger → List String
trigger_slugs triggers = map (λ (trigger : Trigger). trigger.slug) triggers

unfoldable pub prior_tool_slugs : Option Bundle → List String
unfolding tool_slugs
prior_tool_slugs none = []
prior_tool_slugs (some prior) = tool_slugs prior.tools

unfoldable pub prior_trigger_slugs : Option Bundle → List String
unfolding trigger_slugs
prior_trigger_slugs none = []
prior_trigger_slugs (some prior) = trigger_slugs prior.triggers

unfoldable pub diff_bundle : Option Bundle → Bundle → BundleDiff
unfolding diff_slugs prior_tool_slugs prior_trigger_slugs tool_slugs trigger_slugs
diff_bundle prior next = record {
  added_tools = (diff_slugs (prior_tool_slugs prior) (tool_slugs next.tools)).0;
  removed_tools = (diff_slugs (prior_tool_slugs prior) (tool_slugs next.tools)).1;
  added_triggers = (diff_slugs (prior_trigger_slugs prior) (trigger_slugs next.triggers)).0;
  removed_triggers = (diff_slugs (prior_trigger_slugs prior) (trigger_slugs next.triggers)).1;
}
