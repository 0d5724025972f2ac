-- ===== src/Connections/Facade.antt =====
-- server/internal/connections/facade.go: initiate, get, list, disable, delete, reconnect. A cursor
-- stands for what it decodes to.
use Prim.Native.String.{◌++◌ as text_append, ◌∷◌ as cons_text, [] as no_text}
use Prim.Native.Char.{code}
use beecon.Base.{
  ℕ, ◌+◌, String, not, Option, none, some, List, ◌∷◌, length, take, get_last?, ltb, ◌==◌, str_eq,
  if◌then◌else◌,
}
use beecon.Base.Effects.{Exec, pure, check, or_fail, ◌>>=◌, ◌>>◌}
use beecon.Base.Effects.Ports.{read, ask, query, update, fails_if}
use beecon.Connections.Types.{
  Connection, Status, connect_link_ttl, new_connection, disable, can_reconnect, prepare_reconnect,
}
use beecon.Connections.Errors.{
  err_not_found, err_redirect_uri_not_allowed, err_reconnect_not_allowed,
}
use beecon.Connections.Memory
use beecon.Connections.Memory.{ListCursor, find_by_id, update_connection, list_connections}
use beecon.Connections.Ports.{Facade, Outside, World, allows_redirect_uri, set_repo}

-- strings.TrimRight(text, "/").
unfoldable pub trim_slashes : String → String
trim_slashes no_text = ""
trim_slashes (cons_text c s) =
    let rest = trim_slashes s in
    if (code c == 47) then (if str_eq rest "" then "" else cons_text c rest) else cons_text c rest

unfoldable pub build_connect_url : String → String → String
unfolding trim_slashes
build_connect_url base_url token =
    text_append (text_append (trim_slashes base_url) "/connect/") token

pub record InitiatedConnection : Type 0 where
  pub connection : Connection
  pub redirect_url : String

unfoldable pub check_redirect_uri : Facade → ℕ → String → Exec World (Unit {0})
check_redirect_uri f org redirect_uri = do
  organization ← ask (λ tick. f.get_organization tick org)
  let uris : List String = organization.allowed_redirect_uris
  check (
      fails_if (not (allows_redirect_uri f.parse_url redirect_uri uris))
        err_redirect_uri_not_allowed)

unfoldable pub initiate : Facade → ℕ → ℕ → ℕ → String → Exec World InitiatedConnection
initiate f org user integration redirect_uri = do
  check_redirect_uri f org redirect_uri
  ask (λ tick. f.get_user tick org user)
  visible ← ask (λ tick. f.get_visible_integration tick org integration)
  id ← read f.new_id
  token ← read f.new_token
  now ← read f.now
  let connection : Connection =
      new_connection id org user integration visible.provider_slug redirect_uri token now
  update f.fault (set_repo (Memory.save connection))
  pure (record {
    connection = connection;
    redirect_url = build_connect_url f.base_url connection.connect_token;
  })

-- FindByID with its miss turned into ErrNotFound, as Get, Disable, Delete and Reconnect begin.
unfoldable pub get : Facade → ℕ → ℕ → Exec World Connection
get f org id = do
  stored ← query f.fault (λ o. find_by_id org id o.repo)
  or_fail err_not_found stored

pub record ListParams : Type 0 where
  pub user_id : Option ℕ
  pub cursor : Option ListCursor
  pub limit : ℕ

pub record ListResult : Type 0 where
  pub connections : List Connection
  pub next_cursor : Option ListCursor

abbrev default_list_limit : ℕ
default_list_limit = 50

abbrev pub max_list_limit : ℕ
max_list_limit = 200

-- A limit below 0 is 0 here: both stand for the default.
unfoldable pub normalize_list_limit : ℕ → ℕ
normalize_list_limit requested =
    if requested == 0
    then default_list_limit
    else if ltb max_list_limit requested
    then max_list_limit
    else requested

abbrev pub cursor_of : Option Connection → Option ListCursor
cursor_of none = none
cursor_of (some c) = some (record { created_at = c.created_at; id = c.id })

unfoldable pub paginate_connections : List Connection → ℕ → ListResult
paginate_connections items limit =
    if ltb limit (length items)
    then record {
      connections = take limit items;
      next_cursor = cursor_of (get_last? (take limit items));
    }
    else record { connections = items; next_cursor = none }

unfoldable pub list : Facade → ℕ → ListParams → Exec World ListResult
unfolding normalize_list_limit paginate_connections
list f org params = do
  let limit : ℕ = normalize_list_limit params.limit
  items ← query f.fault (λ o.
      list_connections org
        (record { user_id = params.user_id; cursor = params.cursor; limit = limit + 1 }) o.repo)
  pure (paginate_connections items limit)

unfoldable pub disable_connection : Facade → ℕ → ℕ → Exec World Connection
disable_connection f org id = do
  connection ← get f org id
  update f.fault (set_repo (update_connection (disable connection)))
  pure (disable connection)

unfoldable pub notify_dependents_of_deletion : Facade → ℕ → ℕ → Exec World (Unit {0})
notify_dependents_of_deletion f org id =
    if f.has_dependents
    then update f.fault (λ (o : Outside). record o { deletions = (org, id) ∷ o.deletions })
    else pure tt

unfoldable pub delete : Facade → ℕ → ℕ → Exec World (Unit {0})
delete f org id = do
  get f org id
  update f.fault (set_repo (Memory.delete org id))
  notify_dependents_of_deletion f org id

unfoldable pub reconnect : Facade → ℕ → ℕ → String → Exec World InitiatedConnection
reconnect f org id redirect_uri = do
  check_redirect_uri f org redirect_uri
  connection ← get f org id
  check (fails_if (not (can_reconnect connection)) (err_reconnect_not_allowed connection.status))
  token ← read f.new_token
  now ← read f.now
  let prepared : Connection =
      prepare_reconnect token redirect_uri (now + connect_link_ttl) connection
  update f.fault (set_repo (update_connection prepared))
  pure (record {
    connection = prepared;
    redirect_url = build_connect_url f.base_url prepared.connect_token;
  })

unfoldable pub count_by_status : Facade → Status → Exec World ℕ
count_by_status f status = query f.fault (λ o. Memory.count_by_status status o.repo)
