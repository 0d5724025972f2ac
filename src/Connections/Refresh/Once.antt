-- ===== src/Connections/Refresh/Once.antt =====
-- Refreshes of server/internal/connections/refreshlock.go one after the other: a caller that comes second
-- finds the tokens fresh.
use beecon.Base.{
  ℕ, suc, ◌+◌, ◌<◌, ◌≡◌, sym, ap, ◌∙◌, false, none, some, arith, ◌⊎◌, inl, inr, Option-cases, subst,
}
use beecon.Base.Keyed
use beecon.Base.Effects.{Result, ok, err, pure, or_fail, ◌>>=◌}
use beecon.Base.Effects.Ports.{read, call, query}
use beecon.Base.Effects.Ends.{Post}
use beecon.Connections.Types.{Connection, active, expired, status_eq, mark_expired, refresh_tokens}
use beecon.Connections.Memory.{Repository, connection_key, find_by_id, update_connection}
use beecon.Connections.Ports.{Facade, Outside, World, ExpiredReason}
use beecon.Connections.Refresh.{
  RefreshParams, needs_refresh, needs_proactive_refresh, due_for_refresh, refresh_active,
  refresh_once,
}
use beecon.Connections.Refresh.Outcome.{
  Outcome, kept, renewed, lapsed, Failure, Untouched, refresh_once-Outcome,
}

pub find_by_id-org :
    (org id : ℕ) (r : Repository) (c : Connection)
    → find_by_id org id r ≡ some c
    → (c.org_id ≡ org) × (c.id ≡ id)
unfolding find_by_id
find_by_id-org org id r c e = elim (Option-cases (Keyed.find connection_key id r.connections)) [
  | inl n ↦ absurd (ground (arith, n))
  | inr (d, n) ↦
      let key = Keyed.find-key connection_key id r.connections d n in
      (ground (arith, n, key), ground (arith, n, key))
]

-- A row that is written back under its own id is found.
pub find_by_id-update :
    (org id : ℕ) (r : Repository) (c : Connection)
    → c.org_id ≡ org
    → c.id ≡ id
    → find_by_id org id (update_connection c r) ≡ some c
unfolding find_by_id update_connection
find_by_id-update org id r c o e = ground (arith, Keyed.find-put connection_key id c r.connections)

-- What a step leaves as the current connection: if it is ACTIVE, it is the one stored.
abbrev pub Current : ℕ → ℕ → Connection → Outside → Type 0
Current org id c o = c.status ≡ active → find_by_id org id o.repo ≡ some c

pub current_lem :
    (f : Facade) (org id : ℕ) (params : RefreshParams) (before : Outside) (c returned : Connection)
    (after : Outside)
    → find_by_id org id before.repo ≡ some c
    → Outcome f params.denied_reason before c returned after
    → Current org id returned after
unfolding mark_expired refresh_tokens
current_lem f org id params before c returned after e (kept same h) live =
    ap (find_by_id org id) h.same_repo ∙ e ∙ ap some (sym same)
current_lem f org id params before c returned after e
      (renewed access refresh until was same repo events) live =
    let keys = find_by_id-org org id before.repo c e in
    ap (find_by_id org id) repo
    ∙ find_by_id-update org id before.repo _ keys.0 keys.1
    ∙ ap some (sym same)
current_lem f org id params before c returned after e (lapsed was same h events) live =
    absurd (let gone : expired ≡ active = ap (λ x. x.status) (sym same) ∙ live in ground arith)

-- A refresh that is not forced, of an ACTIVE row that is not due, returns the row and calls no provider.
refresh_once-fresh :
    (f : Facade) (org id lead until : ℕ) (reason : ExpiredReason) (w : World) (c : Connection)
    → find_by_id org id w.store.repo ≡ some c
    → c.status ≡ active
    → c.token_expires_at ≡ some until
    → f.fault w.tick ≡ none
    → ((n : ℕ) → f.now n + lead < until)
    → let again =
        refresh_once f org id (record { force = false; lead = lead; denied_reason = reason }) w in
      (again.0 ≡ ok c) × (again.1.store ≡ w.store)
unfolding refresh_once refresh_active ◌>>=◌ query call read or_fail due_for_refresh needs_refresh
    needs_proactive_refresh status_eq pure
refresh_once-fresh f org id lead until reason w c found live expiry healthy soon =
    let soon_now = soon (suc w.tick) in
    (
      ground (arith, found, live, expiry, healthy, soon_now),
      ground (arith, found, live, expiry, healthy, soon_now),
    )

-- When a refresh has left a connection ACTIVE with tokens that last, the next one, by whichever caller
-- and whichever lead, returns that same connection, changes nothing stored and asks the provider for no
-- grant, unless it is forced or its read of the repository fails.
pub refresh_once-once :
    (f : Facade) (org id lead until : ℕ) (params : RefreshParams) (reason : ExpiredReason)
    (w : World) (c : Connection)
    → (refresh_once f org id params w).0 ≡ ok c
    → c.status ≡ active
    → c.token_expires_at ≡ some until
    → f.fault (refresh_once f org id params w).1.tick ≡ none
    → ((n : ℕ) → f.now n + lead < until)
    → let between = (refresh_once f org id params w).1 in
      let again =
        refresh_once f org id
          (record { force = false; lead = lead; denied_reason = reason })
          between in
      (again.0 ≡ ok c) × (again.1.store ≡ between.store)
refresh_once-once f org id lead until params reason w c done live expiry healthy soon =
    refresh_once-fresh f org id lead until reason (refresh_once f org id params w).1 c
      (current (refresh_once f org id params w).0 (refresh_once f org id params w).1.store
        (refresh_once-Outcome f org id params w) done live)
      live expiry healthy soon
  where
    current :
        (r : Result Connection) (after : Outside)
        → Post
            (λ returned after.
              (c : Connection) × (find_by_id org id w.store.repo ≡ some c)
              × Outcome f params.denied_reason w.store c returned after)
            (λ after.
              Untouched w.store after
              ⊎ ((c : Connection) × (find_by_id org id w.store.repo ≡ some c)
                  × Failure f w.store c after))
            r
            after
        → r ≡ ok c
        → Current org id c after
    current (ok returned) after (d, e, h) same =
        subst (λ x. Current org id x after) (ground arith)
          (current_lem f org id params w.store d returned after e h)
    current (err x) after h same = absurd (ground arith)
