-- ===== src/Connections/Invariant/Calls.antt =====
-- The repository calls of server/internal/connections/driven/memory/repository.go under such an
-- invariant: what they find has it, and what they write must have it.
use beecon.Base.{
  ℕ, ◌≡◌, String, Bool, true, Option, none, some, List, [], ◌∷◌, All, All-filter, All-take,
  All-imp₂, filter-All, arith, inl, inr, Option-cases, Bool-cases, filter, ◌==◌, subst, str_eq,
}
use beecon.Base.Keyed
use beecon.Base.Keyed.{find-All, put-All}
use beecon.Base.Sort.{sort-All}
use beecon.Base.Effects.Ports.{call, query, update}
use beecon.Base.Effects.Gives.{Gives, Preserves, On, Gives-query, Gives-call, Preserves-update}
use beecon.Connections.Types.{status_eq_lem, Connection, active, status_eq}
use beecon.Connections.Memory.{
  connection_key, find_by_id, in_org, in_status, update_connection, find_token,
  find_by_connect_token, find_connection_for_callback, due_batch, claim_due_refresh,
  claim_due_reconcile, is_due_for_refresh_claim, is_due_for_reconcile_claim, oldest_first,
}
use beecon.Connections.Ports.{Facade, Outside, on_repo, set_repo}
use beecon.Connections.Invariant.{Steps}

-- A connection that was found, if one was.
abbrev pub IfFound : (Connection → Type 0) → Option Connection → Type 0
IfFound P none = Unit
IfFound P (some c) = P c

pub some-IfFound :
    (P : Connection → Type 0) (o : Option Connection) (c : Connection)
    → IfFound P o
    → o ≡ some c
    → P c
some-IfFound P o c h e = subst (IfFound P) e h

module _ (P : Connection → Type 0) where
  pub in_org-IfFound : (org : ℕ) (o : Option Connection) → IfFound P o → IfFound P (in_org org o)
  in_org-IfFound org none h = tt
  in_org-IfFound org (some c) h = elim (Bool-cases (c.org_id == org)) [
    | inl e ↦ rw e h
    | inr e ↦ rw e tt
  ]

  pub find-IfFound :
      (id : ℕ) (cs : List Connection) → All P cs → IfFound P (Keyed.find connection_key id cs)
  find-IfFound id cs h = elim (Option-cases (Keyed.find connection_key id cs)) [
    | inl e ↦ rw e tt
    | inr (c, e) ↦ rw e (find-All connection_key P id cs c h e)
  ]

  find_token-IfFound :
      (token : String) (cs : List Connection) → All P cs → IfFound P (find_token token cs)
  find_token-IfFound token [] h = tt
  find_token-IfFound token (c ∷ cs) h = elim (Bool-cases (str_eq c.connect_token token)) [
    | inl e ↦ rw e h.0
    | inr e ↦ rw e (find_token-IfFound token cs h.1)
  ]

  -- A claimed connection is stored, and is ACTIVE.
  abbrev pub Claimed : Connection → Type 0
  Claimed c = P c × (c.status ≡ active)

  due_batch-Claimed :
      (due : Connection → Bool) (limit : ℕ) (cs : List Connection)
      → ((c : Connection) → due c ≡ true → c.status ≡ active)
      → All P cs
      → All Claimed (due_batch due limit cs)
  unfolding due_batch
  due_batch-Claimed due limit cs live h = All-take Claimed limit _ (
      sort-All oldest_first Claimed _ (
        All-imp₂ P (λ c. due c ≡ true) Claimed (λ c p e. (p, live c e)) (filter due cs)
          (All-filter P due cs h) (filter-All due cs)))

  pub in_status-Claimed :
      (o : Option Connection) (c : Connection)
      → IfFound P o
      → in_status active o ≡ some c
      → Claimed c
  in_status-Claimed none c h e = absurd (ground arith)
  in_status-Claimed (some d) c h e = elim (Bool-cases (status_eq d.status active)) [
    | inl live ↦
        let same : d ≡ c = ground (arith, live) in
        subst Claimed same (h, status_eq_lem d.status active live)
    | inr dead ↦ absurd (ground (arith, dead))
  ]

module _ (f : Facade) (E : Outside → Type 0) (P : Connection → Type 0) (st : Steps f E P) where
  pub find_by_id-Gives :
      (org id : ℕ) → Gives (On E) (IfFound P) (query f.fault (λ o. find_by_id org id o.repo))
  unfolding find_by_id
  find_by_id-Gives org id =
      Gives-query (IfFound P) f.fault _
        λ o h. in_org-IfFound P org _ (find-IfFound P id _ (st.holds_of_all o h))

  pub find_by_connect_token-Gives :
      (token : String)
      → Gives (On E) (IfFound P) (query f.fault (λ o. find_by_connect_token token o.repo))
  unfolding find_by_connect_token
  find_by_connect_token-Gives token =
      Gives-query (IfFound P) f.fault _ λ o h. find_token-IfFound P token _ (st.holds_of_all o h)

  pub find_connection_for_callback-Gives :
      (id : ℕ)
      → Gives (On E) (IfFound P) (query f.fault (λ o. find_connection_for_callback id o.repo))
  unfolding find_connection_for_callback
  find_connection_for_callback-Gives id =
      Gives-query (IfFound P) f.fault _ λ o h. find-IfFound P id _ (st.holds_of_all o h)

  pub update_connection-Preserves :
      (c : Connection) → P c → Preserves (On E) (update f.fault (set_repo (update_connection c)))
  update_connection-Preserves c p = Preserves-update f.fault _ (λ o h. st.updated c o p h)

  pub claim_due_refresh-Gives :
      (now lead ttl limit : ℕ)
      → Gives
          (On E)
          (All (Claimed P))
          (call f.fault (on_repo (claim_due_refresh now lead ttl limit)))
  unfolding claim_due_refresh is_due_for_refresh_claim
  claim_due_refresh-Gives now lead ttl limit = Gives-call (All (Claimed P)) f.fault _ λ o h. (
    st.refresh_claimed now lead ttl limit o h,
    due_batch-Claimed P _ limit _ (λ c e. status_eq_lem _ _ (ground arith)) (st.holds_of_all o h),
  )

  pub claim_due_reconcile-Gives :
      (now interval ttl limit : ℕ)
      → Gives
          (On E)
          (All (Claimed P))
          (call f.fault (on_repo (claim_due_reconcile now interval ttl limit)))
  unfolding claim_due_reconcile is_due_for_reconcile_claim
  claim_due_reconcile-Gives now interval ttl limit = Gives-call (All (Claimed P)) f.fault _ λ o h. (
    st.reconcile_claimed now interval ttl limit o h,
    due_batch-Claimed P _ limit _ (λ c e. status_eq_lem _ _ (ground arith)) (st.holds_of_all o h),
  )

  -- A port other than the repository.
  pub elsewhere :
      (g : Outside → Outside)
      → ((o : Outside) → (g o).repo ≡ o.repo)
      → Preserves (On E) (update f.fault g)
  elsewhere g same = Preserves-update f.fault g (λ o h. st.elsewhere o (g o) (same o) h)
