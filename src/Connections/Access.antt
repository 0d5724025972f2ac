-- ===== src/Connections/Access.antt =====
-- server/internal/connections/execution_access.go: the tokens that one tool call is given.
pub mod Isolation
use beecon.Base.{
  ℕ, String, Bool, true, false, not, ◌&&◌, ◌||◌, Option, none, some, List, [], ◌==◌, if◌then◌else◌,
}
use beecon.Base.Effects.{Result, Exec, pure, fail, lift, check, ◌>>=◌, ◌>>◌, or_fail}
use beecon.Base.Effects.Ports.{read, query, fails_if}
use beecon.Connections.Types.{Connection, Status, active, status_eq}
use beecon.Connections.Errors.{err_not_found}
use beecon.Connections.Memory.{find_by_id}
use beecon.Connections.Ports.{Facade, World, denied}
use beecon.Connections.Handshake.{decrypt_params}
use beecon.Connections.Refresh.{needs_refresh, refresh_once}

pub record ExecutionAccess : Type 0 where
  pub status : Status
  pub access_token : String
  pub params : List (String × String)

unfoldable pub find_execution_connection : Facade → ℕ → ℕ → ℕ → Exec World Connection
find_execution_connection f org user id = do
  stored ← query f.fault (λ o. find_by_id org id o.repo)
  connection ← or_fail err_not_found stored
  check (fails_if (not (connection.user_id == user)) err_not_found)
  pure connection

unfoldable pub to_execution_access : Facade → Connection → Exec World ExecutionAccess
unfolding status_eq
to_execution_access f c =
    if not (status_eq c.status active)
    then pure (record { status = c.status; access_token = ""; params = [] })
    else (lift (f.decrypt c.encrypted_access_token) >>= λ access_token.
        lift (decrypt_params f c.encrypted_params) >>= λ params.
        pure (record { status = c.status; access_token = access_token; params = params }))

-- The connection as it is, or as an inline refresh leaves it.
unfoldable pub refreshed_if_stale : Facade → ℕ → ℕ → Connection → Exec World Connection
refreshed_if_stale f org id c =
    if status_eq c.status active
    then (read f.now >>= λ now.
        if needs_refresh c now
        then refresh_once f org id (record { force = false; lead = 0; denied_reason = denied })
        else pure c)
    else pure c

unfoldable pub resolve_for_execution : Facade → ℕ → ℕ → ℕ → Exec World ExecutionAccess
resolve_for_execution f org user id = do
  connection ← find_execution_connection f org user id
  current ← refreshed_if_stale f org id connection
  to_execution_access f current

unfoldable pub refresh_for_execution : Facade → ℕ → ℕ → ℕ → Exec World ExecutionAccess
refresh_for_execution f org user id = do
  connection ← find_execution_connection f org user id
  current ←
      if status_eq connection.status active
      then refresh_once f org id (record { force = true; lead = 0; denied_reason = denied })
      else pure connection
  to_execution_access f current
