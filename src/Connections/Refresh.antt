-- ===== src/Connections/Refresh.antt =====
-- server/internal/connections/refresh.go, refreshlock.go, expired_event.go, scheduler.go, reconcile.go
-- and execution_access.go. The lock of refreshOnce makes each refresh one step, as every operation is
-- here; metrics are left out.
pub mod Outcome
pub mod Once
pub mod Expiry
use beecon.Base.{
  ℕ, suc, ◌+◌, ◌-◌, ◌*◌, ◌%◌, ◌^◌, String, Bool, true, false, not, ◌&&◌, ◌||◌, Option, none, some,
  List, [], ◌∷◌, ltb, leb, ◌==◌, str_eq, if◌then◌else◌,
}
use beecon.Base.Clock.{seconds_duration, add_duration}
use beecon.Base.Effects.{
  Result, ok, err, Exec, pure, fail, lift, check, or_fail, attempt, ◌>>=◌, ◌>>◌, for_each,
}
use beecon.Base.Effects.Ports.{Ticked, read, ask, call, query, update, advance, fails_if}
use beecon.Httpx.Errors.{Error, external}
use beecon.Connections.Types.{
  Connection, Status, active, expired, status_eq, mark_expired, refresh_tokens, mark_reconciled,
}
use beecon.Connections.Errors.{err_not_found}
use beecon.Connections.Memory.{
  find_by_id, update_connection, transition_status, claim_due_refresh, claim_due_reconcile, after,
}
use beecon.Connections.Ports.{
  Facade, Outside, World, Integration, ProviderDefinition, TokenExchangeResult, RefreshGrantRequest,
  Grant, granted, refresh_denied, transient, Probe, honored, unauthorized, unreachable, LogEntry,
  ExpiredReason, ExpiredEvent, denied, reconciliation_failed, on_repo, set_repo,
}

-- One hour.
abbrev default_token_ttl : ℕ
default_token_ttl = 3_600_000_000_000

unfoldable pub token_expiry_from : ℕ → ℕ → ℕ
token_expiry_from now seconds =
    if seconds == 0 then now + default_token_ttl else add_duration now (seconds_duration seconds)

abbrev past : ℕ → Option ℕ → Bool
past now none = true
past now (some t) = ltb t now

unfoldable pub needs_refresh : Connection → ℕ → Bool
needs_refresh c now = past now c.token_expires_at

unfoldable pub needs_proactive_refresh : Connection → ℕ → ℕ → Bool
needs_proactive_refresh c now lead = not (after (now + lead) c.token_expires_at)

unfoldable pub due_for_refresh : Connection → ℕ → ℕ → Bool
unfolding needs_refresh needs_proactive_refresh
due_for_refresh c now lead =
    if lead == 0 then needs_refresh c now else needs_proactive_refresh c now lead

abbrev pub status_of : {A : Type 0} → Result A → ℕ
status_of (ok _) = 200
status_of (err _) = 502

-- The recorder's own error is dropped. The clock is read for the duration.
unfoldable pub record_exchange : Facade → Connection → ℕ → Exec World (Unit {0})
record_exchange f c status =
    if f.has_recorder
    then (read f.now
        >> attempt (
            update f.fault (λ (o : Outside). record o {
              log =
                  record {
                    org_id = c.org_id;
                    user_id = c.user_id;
                    connection_id = c.id;
                    status = status;
                  }
                  ∷ o.log;
            }))
        >> pure tt)
    else pure tt

abbrev pub event_of : Connection → ExpiredReason → ExpiredEvent
event_of c reason = record {
  org_id = c.org_id;
  connection_id = c.id;
  user_id = c.user_id;
  integration_id = c.integration_id;
  provider_slug = c.provider_slug;
  reason = reason;
}

unfoldable pub emit_expired : Facade → Connection → ExpiredReason → Exec World (Unit {0})
emit_expired f c reason =
    if f.has_events
    then update f.fault
        (λ (o : Outside). record o { expired_events = event_of c reason ∷ o.expired_events })
    else pure tt

unfoldable pub expire_connection : Facade → Connection → ExpiredReason → Exec World Connection
expire_connection f c reason = do
  flipped ← call f.fault (on_repo (transition_status c.org_id c.id active expired))
  if flipped then emit_expired f (mark_expired c) reason else pure tt
  pure (mark_expired c)

unfoldable pub persist_connection : Facade → Connection → Exec World Connection
persist_connection f c = do update f.fault (set_repo (update_connection c)); pure c

unfoldable pub refresh_grant : Facade → Connection → RefreshGrantRequest → Exec World Grant
refresh_grant f c request w = (
  ok (f.refresh_grant w.tick request),
  record (advance w) { store = record w.store { grants = c.id ∷ w.store.grants } },
)

abbrev grant_status : Grant → ℕ
grant_status (granted _) = 200
grant_status (refresh_denied _) = 502
grant_status (transient _) = 502

-- A provider that does not rotate the refresh token sends none.
unfoldable pub rotated_refresh_token : Facade → Connection → String → Exec World String
rotated_refresh_token f c token =
    if str_eq token "" then pure c.encrypted_refresh_token else ask (λ tick. f.encrypt tick token)

unfoldable pub store_refreshed : Facade → Connection → TokenExchangeResult → Exec World Connection
store_refreshed f c result = do
  access ← ask (λ tick. f.encrypt tick result.access_token)
  refresh ← rotated_refresh_token f c result.refresh_token
  now ← read f.now
  persist_connection f (refresh_tokens access refresh (token_expiry_from now result.expires_in) c)

-- What follows a grant; the second and third case are handleRefreshFailure.
unfoldable pub after_grant : Facade → Connection → ExpiredReason → Grant → Exec World Connection
after_grant f c reason (granted result) = store_refreshed f c result
after_grant f c reason (refresh_denied code) = expire_connection f c reason
after_grant f c reason (transient e) = fail (external e)

unfoldable pub refresh_connection : Facade → Connection → ExpiredReason → Exec World Connection
refresh_connection f c reason = do
  integration ← ask (λ tick. f.get_integration tick c.integration_id)
  definition ← ask (λ tick. f.get_provider_definition tick c.provider_slug)
  refresh_token ← lift (f.decrypt c.encrypted_refresh_token)
  started ← read f.now
  grant ← refresh_grant f c (record {
    token_url = definition.token_url;
    client_id = integration.client_id;
    client_secret = integration.client_secret;
    refresh_token = refresh_token;
    credential_style = definition.credential_style;
  })
  record_exchange f c (grant_status grant)
  after_grant f c reason grant

pub record RefreshParams : Type 0 where
  pub force : Bool
  pub lead : ℕ
  pub denied_reason : ExpiredReason

-- refreshOnce for a connection that is ACTIVE: the clock is read unless the refresh is forced.
unfoldable pub refresh_active : Facade → RefreshParams → Connection → Exec World Connection
refresh_active f params c =
    if params.force
    then refresh_connection f c params.denied_reason
    else (read f.now >>= λ now.
        if due_for_refresh c now params.lead
        then refresh_connection f c params.denied_reason
        else pure c)

unfoldable pub refresh_once : Facade → ℕ → ℕ → RefreshParams → Exec World Connection
unfolding status_eq
refresh_once f org id params = do
  stored ← query f.fault (λ o. find_by_id org id o.repo)
  current ← or_fail err_not_found stored
  if status_eq current.status active then refresh_active f params current else pure current

-- 30 seconds.
abbrev pub refresh_lease_ttl : ℕ
refresh_lease_ttl = 30_000_000_000

abbrev pub refresh_claim_batch_limit : ℕ
refresh_claim_batch_limit = 50

-- A connection's failure is swallowed, to be tried again in a later scan.
unfoldable pub refresh_due_one : Facade → Connection → Exec World (Unit {0})
refresh_due_one f c = do
  attempt (
      refresh_once f c.org_id c.id
        (record { force = false; lead = f.refresh_lead; denied_reason = denied }))
  pure tt

unfoldable pub refresh_due_once : Facade → Exec World (Unit {0})
refresh_due_once f = do
  now ← read f.now
  due ←
      call f.fault
        (on_repo (claim_due_refresh now f.refresh_lead refresh_lease_ttl refresh_claim_batch_limit))
  for_each (refresh_due_one f) due

-- Two minutes.
abbrev pub reconcile_lease_ttl : ℕ
reconcile_lease_ttl = 120_000_000_000

abbrev pub reconcile_claim_batch_limit : ℕ
reconcile_claim_batch_limit = 50

unfoldable pub mark_connection_reconciled : Facade → Connection → Exec World (Unit {0})
mark_connection_reconciled f c = do
  now ← read f.now
  update f.fault (set_repo (update_connection (mark_reconciled now c)))

-- What a refresh that was forced by an unauthorized probe leads to, where it returns.
unfoldable pub after_revocation : Facade → Connection → Exec World (Unit {0})
unfolding status_eq
after_revocation f refreshed =
    if status_eq refreshed.status expired then pure tt else mark_connection_reconciled f refreshed

unfoldable pub reconcile_revocation : Facade → Connection → Exec World (Unit {0})
reconcile_revocation f c = do
  refreshed ←
      refresh_once f c.org_id c.id
        (record { force = true; lead = 0; denied_reason = reconciliation_failed })
  after_revocation f refreshed

unfoldable pub after_probe : Facade → Connection → Probe → Exec World (Unit {0})
after_probe f c honored = mark_connection_reconciled f c
after_probe f c unauthorized = reconcile_revocation f c
after_probe f c unreachable = pure tt

-- The errors in here are dropped where it is called.
unfoldable pub reconcile_one : Facade → Connection → Exec World (Unit {0})
reconcile_one f c = do
  definition ← ask (λ tick. f.get_provider_definition tick c.provider_slug)
  if str_eq definition.user_info_url ""
      then pure tt
      else (lift (f.decrypt c.encrypted_access_token) >>= λ access_token.
          read (λ tick. f.fetch_user_info tick definition.user_info_url access_token)
          >>= after_probe f c)

-- The pause before each connection but the first.
unfoldable pub reconcile_rest : Facade → Connection → Exec World (Unit {0})
reconcile_rest f c = do
  pause ← read f.spacing
  ask (λ tick. f.sleep tick pause)
  attempt (reconcile_one f c)
  pure tt

unfoldable pub reconcile_batch : Facade → List Connection → Exec World (Unit {0})
reconcile_batch f [] = pure tt
reconcile_batch f (c ∷ cs) = attempt (reconcile_one f c) >> for_each (reconcile_rest f) cs

unfoldable pub reconcile_once : Facade → Exec World (Unit {0})
reconcile_once f = do
  now ← read f.now
  due ← call f.fault (
      on_repo (
        claim_due_reconcile now f.reconcile_interval reconcile_lease_ttl
          reconcile_claim_batch_limit))
  reconcile_batch f due
