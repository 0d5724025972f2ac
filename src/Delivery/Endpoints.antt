-- ===== src/Delivery/Endpoints.antt =====
-- The endpoint operations of server/internal/delivery/facade.go.
pub mod Invariant
use beecon.Base.{
  ℕ, ◌+◌, String, Bool, Option, none, some, List, [], ◌∷◌, length, leb, if◌then◌else◌,
}
use beecon.Base.Effects.{
  Result, ok, err, Exec, pure, fail, lift, gets, modify, check, or_fail, collect, ◌>>=◌, ◌>>◌,
}
use beecon.Delivery.Types.{
  Endpoint, EndpointStatus, enabled, disabled, err_not_found, err_no_endpoint, err_endpoint_cap,
  validate_endpoint_url, validate_event_type_filter,
}
use beecon.Delivery.Ports.{
  Facade, World, read, ask, save_endpoint, find_endpoint, find_endpoint_by_id,
}
use beecon.Delivery.Ports

pub record SetEndpointResult : Type 0 where
  pub id : ℕ
  pub url : String
  pub created_at : ℕ
  pub secret : String

unfoldable pub update_endpoint_url : Facade → Endpoint → String → Exec World SetEndpointResult
update_endpoint_url f existing url = do
  save_endpoint f (record existing { url = url })
  pure (record { id = existing.id; url = url; created_at = existing.created_at; secret = "" })

-- The secret is issued before the endpoint is saved.
unfoldable pub create_endpoint_row :
    Facade → ℕ → String → Option (List String) → Exec World (Endpoint × String)
create_endpoint_row f org url event_types = do
  id ← read f.new_endpoint_id
  created_at ← read f.now
  let endpoint : Endpoint = record {
    id = id;
    org_id = org;
    url = url;
    event_types = event_types;
    status = enabled;
    consecutive_failures = 0;
    created_at = created_at;
  }
  issued ← ask (λ tick. f.secrets.issue tick org id)
  save_endpoint f endpoint
  pure (endpoint, issued.secret)

unfoldable pub set_endpoint_of :
    Facade → ℕ → String → Option Endpoint → Exec World SetEndpointResult
set_endpoint_of f org url (some existing) = update_endpoint_url f existing url
set_endpoint_of f org url none = do
  created ← create_endpoint_row f org url none
  pure (record {
    id = created.0.id;
    url = created.0.url;
    created_at = created.0.created_at;
    secret = created.1;
  })

unfoldable pub set_endpoint : Facade → ℕ → String → Exec World SetEndpointResult
set_endpoint f org url = do
  check (validate_endpoint_url f.parse_url url)
  existing ← find_endpoint f org
  set_endpoint_of f org url existing

pub record EndpointView : Type 0 where
  pub id : ℕ
  pub url : String
  pub secret_prefix : String
  pub created_at : ℕ

unfoldable pub get_endpoint : Facade → ℕ → Exec World EndpointView
get_endpoint f org = do
  found ← find_endpoint f org
  endpoint ← or_fail err_not_found found
  prefix ← ask (λ tick. f.secrets.prefix tick org endpoint.id)
  pure (record {
    id = endpoint.id;
    url = endpoint.url;
    secret_prefix = prefix;
    created_at = endpoint.created_at;
  })

pub record RotateSecretResult : Type 0 where
  pub secret : String
  pub prefix : String
  pub overlap_expires_at : ℕ

unfoldable pub rotate_secret_for_endpoint :
    Facade → ℕ → Endpoint → Option ℕ → Exec World RotateSecretResult
rotate_secret_for_endpoint f org endpoint overlap_hours = do
  rotated ← ask (λ tick. f.secrets.rotate tick org endpoint.id overlap_hours)
  pure (record {
    secret = rotated.secret;
    prefix = rotated.prefix;
    overlap_expires_at = rotated.overlap_expires_at;
  })

unfoldable pub rotate_secret : Facade → ℕ → Option ℕ → Exec World RotateSecretResult
rotate_secret f org overlap_hours = do
  found ← find_endpoint f org
  endpoint ← or_fail err_no_endpoint found
  rotate_secret_for_endpoint f org endpoint overlap_hours

pub record EndpointListItem : Type 0 where
  pub id : ℕ
  pub url : String
  pub event_types : Option (List String)
  pub status : EndpointStatus
  pub consecutive_failures : ℕ
  pub secret_prefix : String
  pub created_at : ℕ

unfoldable pub endpoint_list_item_from : Endpoint → String → EndpointListItem
endpoint_list_item_from e secret_prefix = record {
  id = e.id;
  url = e.url;
  event_types = e.event_types;
  status = e.status;
  consecutive_failures = e.consecutive_failures;
  secret_prefix = secret_prefix;
  created_at = e.created_at;
}

unfoldable pub list_endpoints : Facade → ℕ → Exec World (List EndpointListItem)
unfolding endpoint_list_item_from
list_endpoints f org = do
  endpoints ← Ports.list_endpoints f org
  collect
      (λ (e : Endpoint). do
        prefix ← ask (λ tick. f.secrets.prefix tick org e.id)
        pure (endpoint_list_item_from e prefix))
      endpoints

pub record CreateEndpointResult : Type 0 where
  pub id : ℕ
  pub url : String
  pub event_types : Option (List String)
  pub status : EndpointStatus
  pub created_at : ℕ
  pub secret : String

unfoldable pub create_endpoint :
    Facade → ℕ → String → Option (List String) → Exec World CreateEndpointResult
create_endpoint f org url event_types = do
  check (validate_endpoint_url f.parse_url url)
  check (validate_event_type_filter event_types)
  existing ← Ports.list_endpoints f org
  check (
      if leb f.endpoint_cap (length existing) then some (err_endpoint_cap f.endpoint_cap) else none)
  created ← create_endpoint_row f org url event_types
  pure (record {
    id = created.0.id;
    url = created.0.url;
    event_types = created.0.event_types;
    status = created.0.status;
    created_at = created.0.created_at;
    secret = created.1;
  })

pub record UpdateEndpointResult : Type 0 where
  pub id : ℕ
  pub url : String
  pub event_types : Option (List String)
  pub status : EndpointStatus
  pub consecutive_failures : ℕ
  pub created_at : ℕ

unfoldable pub update_endpoint_result_from : Endpoint → UpdateEndpointResult
update_endpoint_result_from e = record {
  id = e.id;
  url = e.url;
  event_types = e.event_types;
  status = e.status;
  consecutive_failures = e.consecutive_failures;
  created_at = e.created_at;
}

-- What UpdateEndpoint, EnableEndpoint and DisableEndpoint do once the input is valid: find the
-- endpoint, change it, save it.
unfoldable pub change_endpoint :
    Facade → ℕ → ℕ → (Endpoint → Endpoint) → Exec World UpdateEndpointResult
unfolding update_endpoint_result_from
change_endpoint f org id change = do
  found ← find_endpoint_by_id f org id
  endpoint ← or_fail err_not_found found
  save_endpoint f (change endpoint)
  pure (update_endpoint_result_from (change endpoint))

unfoldable pub update_endpoint :
    Facade → ℕ → ℕ → String → Option (List String) → Exec World UpdateEndpointResult
update_endpoint f org id url event_types = do
  check (validate_endpoint_url f.parse_url url)
  check (validate_event_type_filter event_types)
  change_endpoint f org id (λ e. record e { url = url; event_types = event_types })

unfoldable pub delete_endpoint : Facade → ℕ → ℕ → Exec World (Unit {0})
delete_endpoint f org id = do
  found ← find_endpoint_by_id f org id
  or_fail err_not_found found
  Ports.delete_endpoint f org id

unfoldable pub enable_endpoint : Facade → ℕ → ℕ → Exec World UpdateEndpointResult
enable_endpoint f org id =
    change_endpoint f org id (λ e. record e { status = enabled; consecutive_failures = 0 })

unfoldable pub disable_endpoint : Facade → ℕ → ℕ → Exec World UpdateEndpointResult
disable_endpoint f org id = change_endpoint f org id (λ e. record e { status = disabled })

unfoldable pub rotate_endpoint_secret : Facade → ℕ → ℕ → Option ℕ → Exec World RotateSecretResult
rotate_endpoint_secret f org id overlap_hours = do
  found ← find_endpoint_by_id f org id
  endpoint ← or_fail err_not_found found
  rotate_secret_for_endpoint f org endpoint overlap_hours
