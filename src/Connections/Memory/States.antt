-- ===== src/Connections/Memory/States.antt =====
-- The map of OAuth states of server/internal/connections/driven/memory/repository.go.
use beecon.Base.{
  ◌≡◌, refl, String, true, some, List, [], ◌∷◌, arith, str_eq, eq_iff, if◌then◌else◌, Bool-cases,
  inl, inr, ap, subst,
}
use beecon.Connections.Types.{OauthState}
use beecon.Connections.Memory.{lookup_state, store_state}

-- A key finds the state that was stored under it last.
pub lookup-store :
    (key : String) (s : OauthState) (ss : List OauthState)
    → lookup_state key (store_state s ss)
      ≡ (if str_eq s.state key then some s else lookup_state key ss)
unfolding lookup_state store_state
lookup-store key s [] = refl
lookup-store key s (t ∷ ts) = elim (Bool-cases (str_eq t.state s.state)) [
  | inl e ↦
      let same : str_eq t.state key ≡ str_eq s.state key =
        ap (λ x. str_eq x key) ((eq_iff t.state s.state).0 e) in
      ground (arith, e, same)
  | inr e ↦ ground (
    arith,
    e,
    lookup-store key s ts,
    eq_iff t.state key,
    eq_iff s.state key,
    eq_iff t.state s.state,
  )
]

pub lookup-state :
    (key : String) (s : OauthState) (ss : List OauthState)
    → lookup_state key ss ≡ some s
    → str_eq s.state key ≡ true
unfolding lookup_state
lookup-state key s [] e = absurd (ground arith)
lookup-state key s (t ∷ ts) e = elim (Bool-cases (str_eq t.state key)) [
  | inl hit ↦
      let same : t ≡ s = ground (arith, hit) in subst (λ x. str_eq x.state key ≡ true) same hit
  | inr miss ↦ lookup-state key s ts (ground (arith, miss))
]
