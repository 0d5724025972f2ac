-- ===== src/Registry/Facade/Minted.antt =====
-- The ids that a publish of server/internal/registryservice/facade.go gives to tools.
use beecon.Base.{◌≡◌, refl, String, Option, none, some, List, [], ◌∷◌, All, map, arith}
use beecon.Base.Effects.{pure, ◌>>=◌, collect}
use beecon.Base.Effects.Ends.{Ends, Ends-pure, Ends-fact, Ends-bind, Ends-read}
use beecon.Registry.Types.{Tool, Bundle}
use beecon.Registry.Store.{BundleStore}
use beecon.Registry.Facade.{RegistryFacade, prior_tool_id, tools_of, mint_tool_ids, tool_id}

-- A tool whose slug the last bundle has keeps the id that it has there.
abbrev pub Kept : Option Bundle → List Tool → Type 0
Kept prior tools =
    All (λ t. (id : String) → prior_tool_id t.slug (tools_of prior) ≡ some id → t.id ≡ id) tools

abbrev pub slugs : List Tool → List String
slugs = map (λ t. t.slug)

record Minted (prior : Option Bundle) (tool t : Tool) : Type 0 where
  kept_id : (id : String) → prior_tool_id t.slug (tools_of prior) ≡ some id → t.id ≡ id
  same_slug : t.slug ≡ tool.slug

pub record AllMinted (prior : Option Bundle) (tools ts : List Tool) : Type 0 where
  pub all_kept : Kept prior ts
  pub same_slugs : slugs ts ≡ slugs tools

module _ (f : RegistryFacade) (prior : Option Bundle) (P : BundleStore → Type 0) where
  Minted-Ends :
      (tool : Tool) (o : Option String)
      → prior_tool_id tool.slug (tools_of prior) ≡ o
      → Ends P
          (λ t d. Minted prior tool t × P d)
          P
          (tool_id f o >>= λ id. pure (record tool { id = id }))
  unfolding pure ◌>>=◌
  Minted-Ends tool none e = Ends-read f.new_tool_id _ λ n.
      Ends-pure _
        λ d p. (record { kept_id = λ id q. absurd (ground (arith, e, q)); same_slug = refl }, p)
  Minted-Ends tool (some i) e = record {
    at = λ w p. (record { kept_id = λ id q. ground (arith, e, q); same_slug = refl }, p);
  }

  pub mint_tool_ids-Ends :
      (tools : List Tool)
      → Ends P (λ ts d. AllMinted prior tools ts × P d) P (mint_tool_ids f prior tools)
  unfolding mint_tool_ids collect
  mint_tool_ids-Ends [] = Ends-pure [] λ d p. (record { all_kept = tt; same_slugs = refl }, p)
  mint_tool_ids-Ends (tool ∷ tools) =
      Ends-bind {M = λ t d. Minted prior tool t × P d} _ _ (Minted-Ends tool _ refl) λ t.
        Ends-fact _ λ m.
          Ends-bind {M = λ ts d. AllMinted prior tools ts × P d} _ _ (mint_tool_ids-Ends tools)
            λ ts. Ends-fact _ λ ms. Ends-pure _ λ d h. (
              record {
                all_kept = (m.kept_id, ms.all_kept);
                same_slugs = ground (arith, m.same_slug, ms.same_slugs);
              },
              h,
            )
