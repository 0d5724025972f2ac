-- ===== src/Connections/History.antt =====
-- The connections facade of server/internal/connections as a state machine: its requests and its two
-- worker runs, one after the other.
use beecon.Base.{ℕ, String, List, [], ◌∷◌}
use beecon.Connections.Types.{Status}
use beecon.Connections.Ports.{Facade, World}
use beecon.Connections.Facade.{
  ListParams, initiate, get, list, disable_connection, delete, reconnect, count_by_status,
}
use beecon.Connections.Handshake.{open_connect_page, submit_params, handle_callback}
use beecon.Connections.Refresh.{refresh_due_once, reconcile_once}
use beecon.Connections.Access.{resolve_for_execution, refresh_for_execution}

pub data Operation : Type 0 where
  initiates : (org user integration : ℕ) → (redirect_uri : String) → Operation
  gets disables deletes : (org id : ℕ) → Operation
  lists : ℕ → ListParams → Operation
  reconnects : (org id : ℕ) → (redirect_uri : String) → Operation
  counts : Status → Operation
  opens_page : (token : String) → Operation
  submits : (token : String) → List (String × String) → Operation
  calls_back : (code state provider_error : String) → Operation
  refreshes_due reconciles : Operation
  resolves refreshes : (org user id : ℕ) → Operation

unfoldable pub serve : Facade → Operation → World → World
serve f (initiates org user integration uri) w = (initiate f org user integration uri w).1
serve f (gets org id) w = (get f org id w).1
serve f (disables org id) w = (disable_connection f org id w).1
serve f (deletes org id) w = (delete f org id w).1
serve f (lists org params) w = (list f org params w).1
serve f (reconnects org id uri) w = (reconnect f org id uri w).1
serve f (counts status) w = (count_by_status f status w).1
serve f (opens_page token) w = (open_connect_page f token w).1
serve f (submits token values) w = (submit_params f token values w).1
serve f (calls_back code state provider_error) w = (handle_callback f code state provider_error w).1
serve f refreshes_due w = (refresh_due_once f w).1
serve f reconciles w = (reconcile_once f w).1
serve f (resolves org user id) w = (resolve_for_execution f org user id w).1
serve f (refreshes org user id) w = (refresh_for_execution f org user id w).1

unfoldable pub serve_all : Facade → List Operation → World → World
unfolding serve
serve_all f [] w = w
serve_all f (r ∷ rs) w = serve_all f rs (serve f r w)
