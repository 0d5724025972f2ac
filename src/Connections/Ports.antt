-- ===== src/Connections/Ports.antt =====
-- server/internal/connections/port.go, the Facade struct of facade.go, and what they take of the
-- organizations and catalog modules. Logging bodies and metrics are left out. The cryptography of the
-- vault, encoding/json, net/url and the provider's servers are fields of the facade.
use beecon.Base.{
  ℕ, String, Bool, true, false, ◌&&◌, ◌||◌, Option, none, some, List, [], ◌∷◌, str_eq, ◌==◌,
  if◌then◌else◌,
}
use beecon.Base.Effects.{Result}
use beecon.Base.Effects.Ports.{Ticked}
use beecon.Connections.Memory.{Repository}

-- organizations/types.go.
pub record Url : Type 0 where
  pub scheme : String
  pub host : String
  pub path : String

pub record Organization : Type 0 where
  pub allowed_redirect_uris : List String

unfoldable pub is_origin_only : Url → Bool
is_origin_only u = str_eq u.path "" || str_eq u.path "/"

abbrev same_origin : Option Url → Option Url → Bool
same_origin none _ = false
same_origin (some a) none = false
same_origin (some a) (some c) = is_origin_only a && str_eq a.scheme c.scheme && str_eq a.host c.host

unfoldable pub redirect_uri_matches : (String → Option Url) → String → String → Bool
unfolding is_origin_only
redirect_uri_matches parse_url allowed candidate =
    str_eq allowed candidate || same_origin (parse_url allowed) (parse_url candidate)

unfoldable pub allows_redirect_uri : (String → Option Url) → String → List String → Bool
unfolding redirect_uri_matches
allows_redirect_uri parse_url candidate [] = false
allows_redirect_uri parse_url candidate (a ∷ as') =
    redirect_uri_matches parse_url a candidate || allows_redirect_uri parse_url candidate as'

-- catalog/types.go, as far as a connection reads it.
pub record ExpectedParam : Type 0 where
  pub name : String
  pub required : Bool

pub record ProviderDefinition : Type 0 where
  pub name : String
  pub logo : String
  pub authorize_url : String
  pub token_url : String
  pub user_info_url : String
  pub scopes : List String
  pub credential_style : String
  pub email_field : String
  pub display_name_field : String
  pub expected_params : List ExpectedParam

pub record Integration : Type 0 where
  pub provider_slug : String
  pub client_id : String
  pub client_secret : String

pub record TokenExchangeRequest : Type 0 where
  pub token_url : String
  pub client_id : String
  pub client_secret : String
  pub code : String
  pub redirect_uri : String
  pub credential_style : String

-- `expires_in` is 0 where the provider gave no number of seconds above 0.
pub record TokenExchangeResult : Type 0 where
  pub access_token : String
  pub refresh_token : String
  pub expires_in : ℕ

pub record RefreshGrantRequest : Type 0 where
  pub token_url : String
  pub client_id : String
  pub client_secret : String
  pub refresh_token : String
  pub credential_style : String

pub record AccountInfo : Type 0 where
  pub email : String
  pub display_name : String

pub record AccountFetchRequest : Type 0 where
  pub user_info_url : String
  pub access_token : String
  pub email_field : String
  pub display_name_field : String

-- RefreshGrant: the new tokens, the error RefreshDenied, or any other error.
pub data Grant : Type 0 where
  granted : TokenExchangeResult → Grant
  refresh_denied : String → Grant
  transient : ℕ → Grant

-- FetchUserInfo: no error, ErrProbeUnauthorized, or any other error.
pub data Probe : Type 0 where
  honored unauthorized unreachable : Probe

pub record LogEntry : Type 0 where
  pub org_id : ℕ
  pub user_id : ℕ
  pub connection_id : ℕ
  pub status : ℕ

-- expired_event.go.
pub data ExpiredReason : Type 0 where
  denied reconciliation_failed : ExpiredReason

pub record ExpiredEvent : Type 0 where
  pub org_id : ℕ
  pub connection_id : ℕ
  pub user_id : ℕ
  pub integration_id : ℕ
  pub provider_slug : String
  pub reason : ExpiredReason

-- A port that is nil is `false` here, and its calls do nothing. The first argument of a port is the
-- number of the call.
pub record Facade : Type 0 where
  pub now : ℕ → ℕ
  pub fault : ℕ → Option ℕ
  pub new_id : ℕ → ℕ
  pub new_token : ℕ → String
  pub new_state : ℕ → String
  pub base_url : String
  pub parse_url : String → Option Url
  pub get_organization : ℕ → ℕ → Result Organization
  pub get_user : ℕ → ℕ → ℕ → Result (Unit {0})
  pub get_integration : ℕ → ℕ → Result Integration
  pub get_visible_integration : ℕ → ℕ → ℕ → Result Integration
  pub get_provider_definition : ℕ → String → Result ProviderDefinition
  pub encrypt : ℕ → String → Result String
  pub decrypt : String → Result String
  pub encode_params : List (String × String) → String
  pub decode_params : String → Result (List (String × String))
  pub exchange_code : ℕ → TokenExchangeRequest → Result TokenExchangeResult
  pub fetch_account : ℕ → AccountFetchRequest → Result AccountInfo
  pub refresh_grant : ℕ → RefreshGrantRequest → Grant
  pub fetch_user_info : ℕ → String → String → Probe
  pub has_recorder : Bool
  pub has_events : Bool
  pub has_dependents : Bool
  pub refresh_lead : ℕ
  pub reconcile_interval : ℕ
  pub spacing : ℕ → ℕ
  pub sleep : ℕ → ℕ → Result (Unit {0})

-- Ten minutes, and six hours: WithScheduling changes a setting only to a number above 0.
abbrev default_refresh_lead : ℕ
default_refresh_lead = 600_000_000_000

abbrev default_reconcile_interval : ℕ
default_reconcile_interval = 21_600_000_000_000

unfoldable pub with_scheduling : ℕ → ℕ → Facade → Facade
with_scheduling lead interval f = record f {
  has_events = true;
  refresh_lead = if lead == 0 then f.refresh_lead else lead;
  reconcile_interval = if interval == 0 then f.reconcile_interval else interval;
}

-- The repository, and what has gone out through the other ports, latest first: the events, the
-- deletions that the dependents were told of, the log, and the connections of the refresh grants.
pub record Outside : Type 0 where
  pub repo : Repository
  pub expired_events : List ExpiredEvent
  pub deletions : List (ℕ × ℕ)
  pub log : List LogEntry
  pub grants : List ℕ

abbrev pub World : Type 0
World = Ticked Outside

abbrev pub on_repo : {A : Type 0} → (Repository → A × Repository) → Outside → A × Outside
on_repo m o = let (a, r) = m o.repo in (a, record o { repo = r })

abbrev pub set_repo : (Repository → Repository) → Outside → Outside
set_repo g o = record o { repo = g o.repo }
