-- ===== src/Connections/Access/Isolation.antt =====
-- Whose tokens server/internal/connections/execution_access.go hands out.
use beecon.Base.{ℕ, ◌≡◌, refl, sym, ap, ◌∙◌, true, false, not, some, [], arith, if◌then◌else◌, ◌⊎◌}
use beecon.Base.Effects.{Result, ok, err, Exec, pure, ◌>>=◌}
use beecon.Base.Effects.Ends.{
  Post, Ends, Ends-pure, Ends-or_fail, Ends-if, Ends-query, Ends-bind, Ends-read, Ends-lift,
  Ends-check,
}
use beecon.Connections.Types.{Connection, active, status_eq, status_eq_lem}
use beecon.Connections.Memory.{find_by_id}
use beecon.Connections.Ports.{Facade, Outside, World, denied}
use beecon.Connections.Refresh.{RefreshParams, needs_refresh, refresh_once}
use beecon.Connections.Refresh.Outcome.{Outcome, Failure, Untouched, refresh_once-Outcome}
use beecon.Connections.Refresh.Once.{find_by_id-org, Current, current_lem}
use beecon.Connections.Access.{
  ExecutionAccess, find_execution_connection, to_execution_access, refreshed_if_stale,
  resolve_for_execution, refresh_for_execution,
}

-- A row of the organization and the user that were asked for.
pub record Belongs (org user id : ℕ) (before : Outside) : Type 0 where
  pub connection : Connection
  pub found : find_by_id org id before.repo ≡ some connection
  pub same_org : connection.org_id ≡ org
  pub same_user : connection.user_id ≡ user

-- What an access holds: nothing unless the connection is ACTIVE, and then the token of the row that is
-- stored.
pub record Carries (f : Facade) (org id : ℕ) (a : ExecutionAccess) (after : Outside) : Type 0 where
  pub no_token : status_eq a.status active ≡ false → (a.access_token ≡ "") × (a.params ≡ [])
  pub token :
      status_eq a.status active ≡ true
      → (c : Connection) × (find_by_id org id after.repo ≡ some c)
        × (c.status ≡ active)
        × (f.decrypt c.encrypted_access_token ≡ ok a.access_token)

module _ (f : Facade) (org user id : ℕ) (before : Outside) where
  -- The connection `c` is the one asked for, and nothing has changed yet.
  abbrev Asked : Connection → Outside → Type 0
  Asked c o = (find_by_id org id before.repo ≡ some c) × (c.user_id ≡ user) × (o.repo ≡ before.repo)

  abbrev Allowed : ExecutionAccess → Outside → Type 0
  Allowed a o = Belongs org user id before × Carries f org id a o

  find_execution_connection-Ends :
      Ends (λ o. o.repo ≡ before.repo) Asked (λ o. Unit) (find_execution_connection f org user id)
  unfolding find_execution_connection
  find_execution_connection-Ends =
      Ends-bind {M = λ stored o. (stored ≡ find_by_id org id before.repo) × (o.repo ≡ before.repo)}
        _ _ (Ends-query f.fault _ (λ d h. (ap (find_by_id org id) h, h)) (λ d h. tt))
        λ stored.
          Ends-bind {M = λ c o. (find_by_id org id before.repo ≡ some c) × (o.repo ≡ before.repo)} _
            _ (Ends-or_fail _ stored (λ c d e h. (sym h.0 ∙ e, h.1)) (λ d h. tt))
            λ c. Ends-check _ _ _ (λ d h. tt) λ same. Ends-pure c (λ d h. (h.0, ground arith, h.1))

  to_execution_access-Ends :
      (c : Connection)
      → Ends (Current org id c) (Carries f org id) (λ o. Unit) (to_execution_access f c)
  unfolding to_execution_access
  to_execution_access-Ends c =
      Ends-if (not (status_eq c.status active)) _ _
        (λ dead.
          Ends-pure _
            λ d h. record { no_token = λ _. (refl, refl); token = λ live. absurd (ground arith) })
        (λ live.
          Ends-lift _ _ (λ d h. tt)
            λ access_token opened.
              Ends-lift _ _ (λ d h. tt)
                λ params _. Ends-pure _ λ d h.
                  let on : c.status ≡ active = status_eq_lem _ _ (ground arith) in
                  record {
                    no_token = λ dead. absurd (ground arith);
                    token = λ _. (c, h on, on, opened);
                  })

  refresh_once-Current :
      (c : Connection) (params : RefreshParams)
      → Ends (Asked c) (Current org id) (λ o. Unit) (refresh_once f org id params)
  refresh_once-Current c params = record {
    at = λ w h.
        go w (refresh_once f org id params w).0 (refresh_once f org id params w).1.store
          (refresh_once-Outcome f org id params w);
  }
    where
      go :
          (w : World) (r : Result Connection) (after : Outside)
          → Post
              (λ returned after.
                (c : Connection) × (find_by_id org id w.store.repo ≡ some c)
                × Outcome f params.denied_reason w.store c returned after)
              (λ after.
                Untouched w.store after
                ⊎ ((c : Connection) × (find_by_id org id w.store.repo ≡ some c)
                    × Failure f w.store c after))
              r
              after
          → Post (Current org id) (λ o. Unit) r after
      go w (ok returned) after (d, e, h) = current_lem f org id params w.store d returned after e h
      go w (err x) after h = tt

  unchanged : (c : Connection) → Ends (Asked c) (Current org id) (λ o. Unit) (pure c)
  unchanged c = Ends-pure c (λ d h live. ap (find_by_id org id) h.2 ∙ h.0)

  -- An access by way of any step that leaves the current connection behind.
  through :
      (m : Connection → Exec World Connection)
      → ((c : Connection) → Ends (Asked c) (Current org id) (λ o. Unit) (m c))
      → Ends
          (λ o. o.repo ≡ before.repo)
          Allowed
          (λ o. Unit)
          (find_execution_connection f org user id >>= λ c. m c >>= to_execution_access f)
  through m step = Ends-bind _ _ find_execution_connection-Ends λ c. record {
    at = λ w h. paired c h.0 h.1 _ _ ((Ends-bind (m c) _ (step c) to_execution_access-Ends).at w h);
  }
    where
      paired :
          (c : Connection)
          → find_by_id org id before.repo ≡ some c
          → c.user_id ≡ user
          → (r : Result ExecutionAccess) (after : Outside)
          → Post (Carries f org id) (λ o. Unit) r after
          → Post Allowed (λ o. Unit) r after
      paired c e u (ok a) after h = (
        record {
          connection = c;
          found = e;
          same_org = (find_by_id-org org id before.repo c e).0;
          same_user = u;
        },
        h,
      )
      paired c e u (err x) after h = tt

-- The tokens that a tool call is given, before it or after a refused attempt, belong to a stored
-- connection of the organization and of the user that were asked for; if the reported status is not
-- ACTIVE there are none, and if it is, the token is the decrypted one of the row that is then stored,
-- which is ACTIVE.
pub resolve_for_execution-Allowed :
    (f : Facade) (org user id : ℕ) (w : World)
    → Post
        (λ a after. Belongs org user id w.store × Carries f org id a after)
        (λ after. Unit)
        (resolve_for_execution f org user id w).0
        (resolve_for_execution f org user id w).1.store
      × Post
          (λ a after. Belongs org user id w.store × Carries f org id a after)
          (λ after. Unit)
          (refresh_for_execution f org user id w).0
          (refresh_for_execution f org user id w).1.store
unfolding resolve_for_execution refresh_for_execution refreshed_if_stale
resolve_for_execution-Allowed f org user id w = (
  (through f org user id w.store (refreshed_if_stale f org id) λ c.
        Ends-if (status_eq c.status active) _ _
          (λ _. Ends-read f.now _ λ n.
            Ends-if (needs_refresh c (f.now n)) _ _
              (λ _. refresh_once-Current f org user id w.store c _)
              (λ _. unchanged f org user id w.store c))
          (λ _. unchanged f org user id w.store c)).at
      w refl,
  (through f org user id w.store
        (λ c.
          if status_eq c.status active
          then refresh_once f org id (record { force = true; lead = 0; denied_reason = denied })
          else pure c)
        λ c.
          Ends-if (status_eq c.status active) _ _
            (λ _. refresh_once-Current f org user id w.store c _)
            (λ _. unchanged f org user id w.store c)).at
      w refl,
)
