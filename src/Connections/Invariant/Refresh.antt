-- ===== src/Connections/Invariant/Refresh.antt =====
-- The refreshes and the worker runs of server/internal/connections keep such an invariant.
use beecon.Base.{ℕ, ◌≡◌, refl, List, [], ◌∷◌, All, str_eq}
use beecon.Base.Effects.{attempt}
use beecon.Base.Effects.Gives.{
  Gives, Preserves, On, Anything, Holds-Anything, Gives-pure, Gives-fail, Gives-or_fail, Gives-if,
  Gives-forget, Gives-bind, Gives-then, Gives-call, Gives-lift, Preserves-read, Preserves-ask,
  Preserves-attempt, Preserves-for_each,
}
use beecon.Connections.Types.{
  status_eq_lem, refresh_tokens, Connection, active, expired, status_eq, mark_expired,
}
use beecon.Connections.Ports.{
  Facade, Outside, Grant, granted, refresh_denied, transient, ExpiredReason, Probe, honored,
  unauthorized, unreachable, TokenExchangeResult, RefreshGrantRequest,
}
use beecon.Connections.Refresh.{
  emit_expired, expire_connection, persist_connection, refresh_grant, rotated_refresh_token,
  store_refreshed, after_grant, refresh_connection, RefreshParams, due_for_refresh, refresh_active,
  refresh_once, refresh_due_one, refresh_due_once, mark_connection_reconciled, after_revocation,
  reconcile_revocation, after_probe, reconcile_one, reconcile_rest, reconcile_batch, reconcile_once,
}
use beecon.Connections.Invariant.{Steps}
use beecon.Connections.Invariant.Calls.{
  some-IfFound, find_by_id-Gives, update_connection-Preserves, elsewhere, Claimed,
  claim_due_refresh-Gives, claim_due_reconcile-Gives,
}
use beecon.Connections.Invariant.Handshake.{record_exchange-Preserves}

module _ (f : Facade) (E : Outside → Type 0) (P : Connection → Type 0) (st : Steps f E P) where
  emit_expired-Preserves :
      (c : Connection) (reason : ExpiredReason) → Preserves (On E) (emit_expired f c reason)
  unfolding emit_expired
  emit_expired-Preserves c reason =
      Gives-if Anything f.has_events _ _ (λ _. elsewhere f E P st _ (λ o. refl))
        (λ _. Gives-pure Anything tt tt)

  expire_connection-Gives :
      (c : Connection) (reason : ExpiredReason)
      → c.status ≡ active
      → P c
      → Gives (On E) P (expire_connection f c reason)
  unfolding expire_connection mark_expired
  expire_connection-Gives c reason live p =
      Gives-then _ _ (Gives-call Anything f.fault _ (λ o h. (st.flipped c.org_id c.id o h, tt)))
        λ flipped.
          Gives-then _ _
            (Gives-if Anything flipped _ _ (λ _. emit_expired-Preserves _ reason)
              (λ _. Gives-pure Anything tt tt))
            λ _. Gives-pure P _ (st.kept.flipped c live p)

  store_refreshed-Gives :
      (c : Connection) (result : TokenExchangeResult)
      → c.status ≡ active
      → P c
      → Gives (On E) P (store_refreshed f c result)
  unfolding store_refreshed persist_connection rotated_refresh_token refresh_tokens
  store_refreshed-Gives c result live p = Gives-then _ _ (Preserves-ask _) λ access.
      Gives-then _ _
        (Gives-if Anything (str_eq result.refresh_token "") _ _ (λ _. Gives-pure Anything _ tt)
          (λ _. Preserves-ask _))
        λ refresh. Gives-then _ _ (Preserves-read _) λ now.
          Gives-then _ _
            (update_connection-Preserves f E P st _ (st.kept.refreshed access refresh _ c live p))
            λ _. Gives-pure P _ (st.kept.refreshed access refresh _ c live p)

  after_grant-Gives :
      (c : Connection) (reason : ExpiredReason) (g : Grant)
      → c.status ≡ active
      → P c
      → Gives (On E) P (after_grant f c reason g)
  unfolding after_grant
  after_grant-Gives c reason (granted result) live p = store_refreshed-Gives c result live p
  after_grant-Gives c reason (refresh_denied code) live p = expire_connection-Gives c reason live p
  after_grant-Gives c reason (transient e) live p = Gives-fail P _

  refresh_grant-Preserves :
      (c : Connection) (request : RefreshGrantRequest)
      → Preserves (On E) (refresh_grant f c request)
  unfolding refresh_grant
  refresh_grant-Preserves c request = record {
    at = λ w h. (record { holds = st.elsewhere w.store _ refl h.holds }, tt);
  }

  refresh_connection-Gives :
      (c : Connection) (reason : ExpiredReason)
      → c.status ≡ active
      → P c
      → Gives (On E) P (refresh_connection f c reason)
  unfolding refresh_connection
  refresh_connection-Gives c reason live p = Gives-then _ _ (Preserves-ask _) λ integration.
      Gives-then _ _ (Preserves-ask _) λ definition.
        Gives-then _ _ (Gives-lift Anything _ (Holds-Anything _)) λ token.
          Gives-then _ _ (Preserves-read _) λ started.
            Gives-then _ _ (refresh_grant-Preserves c _) λ g.
              Gives-then _ _ (record_exchange-Preserves f E P st c _)
                λ _. after_grant-Gives c reason g live p

  refresh_active-Gives :
      (params : RefreshParams) (c : Connection)
      → c.status ≡ active
      → P c
      → Gives (On E) P (refresh_active f params c)
  unfolding refresh_active
  refresh_active-Gives params c live p =
      Gives-if P params.force _ _ (λ _. refresh_connection-Gives c _ live p)
        λ _. Gives-then _ _ (Preserves-read _) λ now.
          Gives-if P (due_for_refresh c now params.lead) _ _
            (λ _. refresh_connection-Gives c _ live p) (λ _. Gives-pure P c p)

  pub refresh_once-Gives :
      (org id : ℕ) (params : RefreshParams) → Gives (On E) P (refresh_once f org id params)
  unfolding refresh_once
  refresh_once-Gives org id params = Gives-bind _ _ (find_by_id-Gives f E P st org id) λ stored h.
      Gives-bind _ _ (Gives-or_fail P _ stored (λ c e. some-IfFound P stored c h e)) λ c p.
        Gives-if P (status_eq c.status active) _ _
          (λ live. refresh_active-Gives params c (status_eq_lem _ _ live) p) (λ _. Gives-pure P c p)

  refresh_due_one-Preserves : (c : Connection) → Preserves (On E) (refresh_due_one f c)
  unfolding refresh_due_one
  refresh_due_one-Preserves c =
      Gives-bind _ _ (Preserves-attempt P _ (refresh_once-Gives c.org_id c.id _))
        λ _ _. Gives-pure Anything tt tt

  pub refresh_due_once-Preserves : Preserves (On E) (refresh_due_once f)
  unfolding refresh_due_once
  refresh_due_once-Preserves = Gives-then _ _ (Preserves-read _) λ now.
      Gives-bind _ _ (claim_due_refresh-Gives f E P st now _ _ _)
        λ due h. Preserves-for_each (Claimed P) _ due (λ c _. refresh_due_one-Preserves c) h

  mark_connection_reconciled-Preserves :
      (c : Connection) → P c → Preserves (On E) (mark_connection_reconciled f c)
  unfolding mark_connection_reconciled
  mark_connection_reconciled-Preserves c p =
      Gives-then _ _ (Preserves-read _)
        λ now. update_connection-Preserves f E P st _ (st.kept.reconciled now c p)

  reconcile_revocation-Preserves : (c : Connection) → Preserves (On E) (reconcile_revocation f c)
  unfolding reconcile_revocation after_revocation
  reconcile_revocation-Preserves c =
      Gives-bind _ _ (refresh_once-Gives c.org_id c.id _) λ refreshed p.
        Gives-if Anything (status_eq refreshed.status expired) _ _ (λ _. Gives-pure Anything tt tt)
          (λ _. mark_connection_reconciled-Preserves refreshed p)

  after_probe-Preserves :
      (c : Connection) (probe : Probe) → P c → Preserves (On E) (after_probe f c probe)
  unfolding after_probe
  after_probe-Preserves c honored p = mark_connection_reconciled-Preserves c p
  after_probe-Preserves c unauthorized p = reconcile_revocation-Preserves c
  after_probe-Preserves c unreachable p = Gives-pure Anything tt tt

  reconcile_one-Preserves : (c : Connection) → P c → Preserves (On E) (reconcile_one f c)
  unfolding reconcile_one
  reconcile_one-Preserves c p = Gives-then _ _ (Preserves-ask _) λ definition.
      Gives-if Anything (str_eq definition.user_info_url "") _ _ (λ _. Gives-pure Anything tt tt)
        (λ _.
          Gives-then _ _ (Gives-lift Anything _ (Holds-Anything _))
            λ token. Gives-then _ _ (Preserves-read _) λ probe. after_probe-Preserves c probe p)

  attempt_reconcile-Preserves :
      (c : Connection) → P c → Preserves (On E) (attempt (reconcile_one f c))
  attempt_reconcile-Preserves c p =
      Gives-forget _ _ (Preserves-attempt Anything _ (reconcile_one-Preserves c p))

  reconcile_rest-Preserves : (c : Connection) → P c → Preserves (On E) (reconcile_rest f c)
  unfolding reconcile_rest
  reconcile_rest-Preserves c p = Gives-then _ _ (Preserves-read _) λ pause.
      Gives-then _ _ (Preserves-ask _)
        λ _. Gives-then _ _ (attempt_reconcile-Preserves c p) λ _. Gives-pure Anything tt tt

  reconcile_batch-Preserves :
      (cs : List Connection) → All (Claimed P) cs → Preserves (On E) (reconcile_batch f cs)
  unfolding reconcile_batch
  reconcile_batch-Preserves [] h = Gives-pure Anything tt tt
  reconcile_batch-Preserves (c ∷ cs) h = Gives-then _ _ (attempt_reconcile-Preserves c h.0.0) λ _.
      Preserves-for_each (Claimed P) _ cs (λ d claimed. reconcile_rest-Preserves d claimed.0) h.1

  pub reconcile_once-Preserves : Preserves (On E) (reconcile_once f)
  unfolding reconcile_once
  reconcile_once-Preserves =
      Gives-then _ _ (Preserves-read _) λ now.
        Gives-bind _ _ (claim_due_reconcile-Gives f E P st now _ _ _) reconcile_batch-Preserves
