-- ===== src/Connections/Refresh/Outcome.antt =====
-- What refreshOnce of server/internal/connections/refreshlock.go can come to.
use beecon.Base.{
  ℕ, ◌≡◌, refl, String, Bool, true, some, List, ◌∷◌, arith, str_eq, if◌then◌else◌, ◌⊎◌, inl, inr,
  Option-cases, ap, sym, ◌∙◌,
}
use beecon.Base.Keyed
use beecon.Base.Effects.{Result, ok, err, pure}
use beecon.Base.Effects.Ends.{
  Post, Ends, Ends-pure, Ends-fail, Ends-or_fail, Ends-if, Ends-call, Ends-query, Ends-update,
  Ends-bind, Ends-read, Ends-lift, Ends-ask, Ends-attempt, Ends-ask_last,
}
use beecon.Connections.Types.{
  status_eq_lem, Connection, active, expired, status_eq, mark_expired, refresh_tokens,
}
use beecon.Connections.Memory.{
  Repository, connection_key, find_by_id, update_connection, transition_status, in_org,
}
use beecon.Connections.Ports.{
  Facade, Outside, World, Grant, granted, refresh_denied, transient, RefreshGrantRequest,
  TokenExchangeResult, ExpiredReason, ExpiredEvent,
}
use beecon.Connections.Refresh.{
  record_exchange, emit_expired, event_of, expire_connection, persist_connection, refresh_grant,
  rotated_refresh_token, store_refreshed, after_grant, refresh_connection, RefreshParams,
  refresh_active, refresh_once, due_for_refresh,
}

-- Neither the repository nor the events sent have changed.
pub record Untouched (before after : Outside) : Type 0 where
  pub same_repo : after.repo ≡ before.repo
  pub same_events : after.expired_events ≡ before.expired_events

-- The provider has refused to renew the connection's tokens, and the row is EXPIRED now.
pub record Lapsed (f : Facade) (before after : Outside) (c : Connection) : Type 0 where
  pub call_number : ℕ
  pub request : RefreshGrantRequest
  pub code : String
  pub refused : f.refresh_grant call_number request ≡ refresh_denied code
  pub repo : after.repo ≡ (transition_status c.org_id c.id active expired before.repo).1

-- An event for a connection that the call found ACTIVE, if a sink is wired.
abbrev pub events_after : Facade → Connection → ExpiredReason → Outside → List ExpiredEvent
events_after f c reason before =
    if f.has_events
    then event_of (mark_expired c) reason ∷ before.expired_events
    else before.expired_events

-- What the connection `c` of the row became, and what was returned of it.
pub data Outcome (f : Facade) (reason : ExpiredReason) (before : Outside) (c returned : Connection)
    (after : Outside) : Type 0 where
  kept : returned ≡ c → Untouched before after → Outcome f reason before c returned after
  renewed :
      (access refresh : String) (until : ℕ)
      → c.status ≡ active
      → returned ≡ refresh_tokens access refresh until c
      → after.repo ≡ update_connection (refresh_tokens access refresh until c) before.repo
      → after.expired_events ≡ before.expired_events
      → Outcome f reason before c returned after
  lapsed :
      c.status ≡ active
      → returned ≡ mark_expired c
      → Lapsed f before after c
      → after.expired_events ≡ events_after f c reason before
      → Outcome f reason before c returned after

-- A failure leaves everything as it was, but for one: the row expired, and the sink of the event failed.
pub data Failure (f : Facade) (before : Outside) (c : Connection) (after : Outside) : Type 0 where
  untouched : Untouched before after → Failure f before c after
  event_lost :
      f.has_events ≡ true
      → Lapsed f before after c
      → after.expired_events ≡ before.expired_events
      → Failure f before c after

module _ (f : Facade) (before : Outside) where
  -- A row that was found is found again by its own keys.
  found_again :
      (org id : ℕ) (c : Connection) (r : Repository)
      → find_by_id org id r ≡ some c
      → in_org c.org_id (Keyed.find connection_key c.id r.connections) ≡ some c
  unfolding find_by_id
  found_again org id c r e = elim (Option-cases (Keyed.find connection_key id r.connections)) [
    | inl n ↦ absurd (ground (arith, n))
    | inr (d, n) ↦
        let key = Keyed.find-key connection_key id r.connections d n in ground (arith, n, key)
  ]

  record_exchange-Ends :
      {R : Outside → Type 0} (c : Connection) (status : ℕ)
      → Ends (Untouched before) (λ _. Untouched before) R (record_exchange f c status)
  unfolding record_exchange
  record_exchange-Ends c status =
      Ends-if f.has_recorder _ _
        (λ _.
          Ends-bind _ _
            (Ends-read f.now _ λ n. Ends-attempt _ (
              Ends-update f.fault _
                (λ d h. record { same_repo = h.same_repo; same_events = h.same_events })
                (λ d h. h)))
            λ _. Ends-pure tt (λ d h. h))
        (λ _. Ends-pure tt (λ d h. h))

  same_lapse :
      {c : Connection} (o after : Outside)
      → after.repo ≡ o.repo
      → Lapsed f before o c
      → Lapsed f before after c
  same_lapse o after e h = record {
    call_number = h.call_number;
    request = h.request;
    code = h.code;
    refused = h.refused;
    repo = e ∙ h.repo;
  }

  module _ (reason : ExpiredReason) (org id : ℕ) (c : Connection)
      (found : find_by_id org id before.repo ≡ some c) (live : c.status ≡ active) where
    transition_lem : (transition_status c.org_id c.id active expired before.repo).0 ≡ true
    unfolding transition_status status_eq
    transition_lem = ground (arith, found_again org id c before.repo found)

    expire_connection-Ends :
        (n : ℕ) (request : RefreshGrantRequest) (code : String)
        → f.refresh_grant n request ≡ refresh_denied code
        → Ends
            (Untouched before)
            (Outcome f reason before c)
            (Failure f before c)
            (expire_connection f c reason)
    unfolding expire_connection emit_expired
    expire_connection-Ends n request code refused =
        Ends-bind {M = Flipped} _ _
          (Ends-call f.fault _
            (λ d h. (
              ap (λ r. (transition_status c.org_id c.id active expired r).0) h.same_repo
                  ∙ transition_lem,
              record {
                call_number = n;
                request = request;
                code = code;
                refused = refused;
                repo = ap (λ r. (transition_status c.org_id c.id active expired r).1) h.same_repo;
              },
              h.same_events,
            ))
            (λ d h. untouched h))
          λ flipped.
            Ends-bind {M = λ _. Sent} _ _
              (Ends-if flipped _ _ (λ yes. sends flipped)
                (λ no. Ends-pure tt (λ d h. absurd (ground arith))))
              λ _. Ends-pure (mark_expired c) (λ d h. lapsed live refl h.0 h.1)
      where
        Flipped : Bool → Outside → Type 0
        Flipped flipped o =
            (flipped ≡ true) × Lapsed f before o c × (o.expired_events ≡ before.expired_events)

        Sent : Outside → Type 0
        Sent o = Lapsed f before o c × (o.expired_events ≡ events_after f c reason before)

        sends :
            (flipped : Bool)
            → Ends
                (Flipped flipped)
                (λ _. Sent)
                (Failure f before c)
                (emit_expired f (mark_expired c) reason)
        sends flipped =
            Ends-if f.has_events _ _
              (λ wired.
                Ends-update f.fault _
                  (λ d h. (
                    same_lapse d _ refl h.1,
                    rw wired (ap (λ es. event_of (mark_expired c) reason ∷ es) h.2),
                  ))
                  (λ d h. event_lost wired h.1 h.2))
              (λ nil. Ends-pure tt (λ d h. (h.1, rw nil h.2)))

    store_refreshed-Ends :
        (result : TokenExchangeResult)
        → Ends
            (Untouched before)
            (Outcome f reason before c)
            (Failure f before c)
            (store_refreshed f c result)
    unfolding store_refreshed rotated_refresh_token persist_connection
    store_refreshed-Ends result =
        Ends-ask _ _ (λ d h. untouched h)
          λ access. Ends-bind {M = λ _. Untouched before} _ _ rotates λ refresh.
            Ends-read f.now _ λ n.
              Ends-bind
                {M = λ _ o.
                  (o.repo ≡ update_connection (refresh_tokens access refresh _ c) before.repo)
                  × (o.expired_events ≡ before.expired_events)}
                _ _
                (Ends-update f.fault _
                  (λ d h. (ap (update_connection _) h.same_repo, h.same_events))
                  (λ d h. untouched h))
                λ _. Ends-pure _ (λ d h. renewed access refresh _ live refl h.0 h.1)
      where
        rotates :
            Ends
              (Untouched before)
              (λ _. Untouched before)
              (Failure f before c)
              (rotated_refresh_token f c result.refresh_token)
        rotates =
            Ends-if (str_eq result.refresh_token "") _ _ (λ _. Ends-pure _ (λ d h. h))
              (λ _. Ends-ask_last _ (λ d h. untouched h))

    after_grant-Ends :
        (n : ℕ) (request : RefreshGrantRequest) (grant : Grant)
        → f.refresh_grant n request ≡ grant
        → Ends
            (Untouched before)
            (Outcome f reason before c)
            (Failure f before c)
            (after_grant f c reason grant)
    unfolding after_grant
    after_grant-Ends n request (granted result) e = store_refreshed-Ends result
    after_grant-Ends n request (refresh_denied code) e = expire_connection-Ends n request code e
    after_grant-Ends n request (transient x) e = Ends-fail _ (λ d h. untouched h)

    refresh_connection-Ends :
        Ends
          (Untouched before)
          (Outcome f reason before c)
          (Failure f before c)
          (refresh_connection f c reason)
    unfolding refresh_connection refresh_grant
    refresh_connection-Ends =
        Ends-ask _ _ (λ d h. untouched h)
          λ integration.
            Ends-ask _ _ (λ d h. untouched h)
              λ definition.
                Ends-lift _ _ (λ d h. untouched h)
                  λ token _. Ends-read f.now _ λ started.
                    Ends-bind
                      {M = λ grant o.
                        Untouched before o
                        × (n : ℕ) × (request : RefreshGrantRequest) × (f.refresh_grant n request
                            ≡ grant)}
                      _ _ (asks _)
                      λ grant. record {
                        at = λ w h.
                            (Ends-bind {M = λ _. Untouched before} _ _ (record_exchange-Ends c _)
                                λ _. after_grant-Ends h.1 h.2 grant h.3).at
                              w h.0;
                      }
      where
        asks :
            (request : RefreshGrantRequest)
            → Ends
                (Untouched before)
                (λ grant o.
                  Untouched before o
                  × (n : ℕ) × (request : RefreshGrantRequest) × (f.refresh_grant n request ≡ grant))
                (Failure f before c)
                (refresh_grant f c request)
        asks request = record {
          at = λ w h. (
            record { same_repo = h.same_repo; same_events = h.same_events },
            w.tick,
            request,
            refl,
          );
        }

    refresh_active-Ends :
        (params : RefreshParams)
        → params.denied_reason ≡ reason
        → Ends
            (Untouched before)
            (Outcome f reason before c)
            (Failure f before c)
            (refresh_active f params c)
    unfolding refresh_active
    refresh_active-Ends params e =
        Ends-if params.force _ _ (λ _. rw e refresh_connection-Ends)
          (λ _. Ends-read f.now _ λ n.
            Ends-if (due_for_refresh c (f.now n) params.lead) _ _
              (λ _. rw e refresh_connection-Ends) (λ _. Ends-pure c (λ d h. kept refl h)))

-- What a refresh of the connection `id` of an organization does. If it returns a connection, a row was
-- found, and either nothing changed and the row was returned; or the row was ACTIVE and its tokens were
-- renewed and stored; or the row was ACTIVE, the provider explicitly denied the grant, the row was set to
-- EXPIRED, and one event was sent, if a sink is wired. If it fails, neither the repository nor the
-- events changed, unless the provider denied the grant and the sink then failed to take the event.
pub refresh_once-Outcome :
    (f : Facade) (org id : ℕ) (params : RefreshParams) (w : World)
    → Post
        (λ returned after.
          (c : Connection) × (find_by_id org id w.store.repo ≡ some c)
          × Outcome f params.denied_reason w.store c returned after)
        (λ after.
          Untouched w.store after
          ⊎ ((c : Connection) × (find_by_id org id w.store.repo ≡ some c)
              × Failure f w.store c after))
        (refresh_once f org id params w).0
        (refresh_once f org id params w).1.store
unfolding refresh_once
refresh_once-Outcome f org id params w =
    (Ends-bind {M = λ stored o. (stored ≡ find_by_id org id before.repo) × Untouched before o} _ _
        (Ends-query f.fault _ (λ d h. (ap (find_by_id org id) h.same_repo, h)) (λ d h. inl h))
        λ stored.
          Ends-bind {M = λ c o. (find_by_id org id before.repo ≡ some c) × Untouched before o} _ _
            (Ends-or_fail _ stored (λ c d e h. (sym h.0 ∙ e, h.1)) (λ d h. inl h.1))
            λ c. record { at = λ v h. widen c h.0 _ _ ((once c h.0).at v h.1) }).at
      w (record { same_repo = refl; same_events = refl })
  where
    before : Outside
    before = w.store

    once :
        (c : Connection)
        → find_by_id org id before.repo ≡ some c
        → Ends
            (Untouched before)
            (Outcome f params.denied_reason before c)
            (Failure f before c)
            (if status_eq c.status active then refresh_active f params c else pure c)
    once c e =
        Ends-if (status_eq c.status active) _ _
          (λ live.
            refresh_active-Ends f before params.denied_reason org id c e (status_eq_lem _ _ live)
              params refl)
          (λ _. Ends-pure c (λ d h. kept refl h))

    widen :
        (c : Connection)
        → find_by_id org id before.repo ≡ some c
        → (r : Result Connection) (after : Outside)
        → Post (Outcome f params.denied_reason before c) (Failure f before c) r after
        → Post
            (λ returned after.
              (c : Connection) × (find_by_id org id before.repo ≡ some c)
              × Outcome f params.denied_reason before c returned after)
            (λ after.
              Untouched before after
              ⊎ ((c : Connection) × (find_by_id org id before.repo ≡ some c)
                  × Failure f before c after))
            r
            after
    widen c e (ok returned) after h = (c, e, h)
    widen c e (err x) after h = inr (c, e, h)
