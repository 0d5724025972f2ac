-- ===== src/Connections/Invariant/Operations.antt =====
-- Every operation of server/internal/connections keeps such an invariant, and so does a history.
use beecon.Base.{ℕ, not, List, [], ◌∷◌}
use beecon.Base.Effects.Gives.{
  Gives, Preserves, On, Anything, Holds-Anything, Gives-pure, Gives-or_fail, Gives-if, Gives-check,
  Gives-bind, Gives-then, Gives-lift, Preserves-read,
}
use beecon.Connections.Types.{Connection, active, status_eq}
use beecon.Connections.Ports.{Facade, Outside, World}
use beecon.Connections.Refresh.{needs_refresh}
use beecon.Connections.Access.{
  find_execution_connection, to_execution_access, refreshed_if_stale, resolve_for_execution,
  refresh_for_execution,
}
use beecon.Connections.History.{
  Operation, initiates, gets, disables, deletes, lists, reconnects, counts, opens_page, submits,
  calls_back, refreshes_due, reconciles, resolves, refreshes, serve, serve_all,
}
use beecon.Connections.Invariant.{Steps}
use beecon.Connections.Invariant.Calls.{some-IfFound, find_by_id-Gives}
use beecon.Connections.Invariant.Requests.{
  get-Gives, initiate-Preserves, disable_connection-Preserves, deletion-Preserves,
  reconnect-Preserves, list-Preserves, count_by_status-Preserves,
}
use beecon.Connections.Invariant.Handshake.{
  open_connect_page-Preserves, submit_params-Preserves, handle_callback-Preserves,
}
use beecon.Connections.Invariant.Refresh.{
  refresh_once-Gives, refresh_due_once-Preserves, reconcile_once-Preserves,
}

module _ (f : Facade) (E : Outside → Type 0) (P : Connection → Type 0) (st : Steps f E P) where
  find_execution_connection-Gives :
      (org user id : ℕ) → Gives (On E) P (find_execution_connection f org user id)
  unfolding find_execution_connection
  find_execution_connection-Gives org user id =
      Gives-bind _ _ (find_by_id-Gives f E P st org id) λ stored h.
        Gives-bind _ _ (Gives-or_fail P _ stored (λ c e. some-IfFound P stored c h e))
          λ c p. Gives-bind _ _ (Gives-check _ _) λ _ _. Gives-pure P c p

  to_execution_access-Preserves : (c : Connection) → Preserves (On E) (to_execution_access f c)
  unfolding to_execution_access
  to_execution_access-Preserves c =
      Gives-if Anything (not (status_eq c.status active)) _ _ (λ _. Gives-pure Anything _ tt)
        (λ _. Gives-then _ _ (Gives-lift Anything _ (Holds-Anything _)) λ token.
          Gives-then _ _ (Gives-lift Anything _ (Holds-Anything _))
            λ params. Gives-pure Anything _ tt)

  resolve_for_execution-Preserves :
      (org user id : ℕ) → Preserves (On E) (resolve_for_execution f org user id)
  unfolding resolve_for_execution refreshed_if_stale
  resolve_for_execution-Preserves org user id =
      Gives-bind _ _ (find_execution_connection-Gives org user id) λ c p.
        Gives-bind _ _
          (Gives-if P (status_eq c.status active) _ _
            (λ _. Gives-then _ _ (Preserves-read _) λ now.
              Gives-if P (needs_refresh c now) _ _ (λ _. refresh_once-Gives f E P st org id _)
                (λ _. Gives-pure P c p))
            (λ _. Gives-pure P c p))
          λ current _. to_execution_access-Preserves current

  refresh_for_execution-Preserves :
      (org user id : ℕ) → Preserves (On E) (refresh_for_execution f org user id)
  unfolding refresh_for_execution
  refresh_for_execution-Preserves org user id =
      Gives-bind _ _ (find_execution_connection-Gives org user id) λ c p.
        Gives-bind _ _
          (Gives-if P (status_eq c.status active) _ _ (λ _. refresh_once-Gives f E P st org id _)
            (λ _. Gives-pure P c p))
          λ current _. to_execution_access-Preserves current

  pub serve-holds : (r : Operation) (w : World) → E w.store → E (serve f r w).store
  unfolding serve
  serve-holds (initiates org user integration uri) w h =
      ((initiate-Preserves f E P st org user integration uri).at w (record { holds = h })).0.holds
  serve-holds (gets org id) w h = ((get-Gives f E P st org id).at w (record { holds = h })).0.holds
  serve-holds (disables org id) w h =
      ((disable_connection-Preserves f E P st org id).at w (record { holds = h })).0.holds
  serve-holds (deletes org id) w h =
      ((deletion-Preserves f E P st org id).at w (record { holds = h })).0.holds
  serve-holds (lists org params) w h =
      ((list-Preserves f E P st org params).at w (record { holds = h })).0.holds
  serve-holds (reconnects org id uri) w h =
      ((reconnect-Preserves f E P st org id uri).at w (record { holds = h })).0.holds
  serve-holds (counts status) w h =
      ((count_by_status-Preserves f E P st status).at w (record { holds = h })).0.holds
  serve-holds (opens_page token) w h =
      ((open_connect_page-Preserves f E P st token).at w (record { holds = h })).0.holds
  serve-holds (submits token values) w h =
      ((submit_params-Preserves f E P st token values).at w (record { holds = h })).0.holds
  serve-holds (calls_back code state provider_error) w h =
      ((handle_callback-Preserves f E P st code state provider_error).at w
        (record { holds = h })).0.holds
  serve-holds refreshes_due w h =
      ((refresh_due_once-Preserves f E P st).at w (record { holds = h })).0.holds
  serve-holds reconciles w h =
      ((reconcile_once-Preserves f E P st).at w (record { holds = h })).0.holds
  serve-holds (resolves org user id) w h =
      ((resolve_for_execution-Preserves org user id).at w (record { holds = h })).0.holds
  serve-holds (refreshes org user id) w h =
      ((refresh_for_execution-Preserves org user id).at w (record { holds = h })).0.holds

  pub serve_all-holds : (rs : List Operation) (w : World) → E w.store → E (serve_all f rs w).store
  unfolding serve_all
  serve_all-holds [] w h = h
  serve_all-holds (r ∷ rs) w h = serve_all-holds rs (serve f r w) (serve-holds r w h)
