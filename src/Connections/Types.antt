-- ===== src/Connections/Types.antt =====
-- server/internal/connections/types.go, and the OAuthState of oauth.go. Ids are numbers, times are in
-- nanoseconds.
use beecon.Base.{
  ℕ, ◌+◌, String, Bool, true, false, ◌||◌, Option, none, some, is_some, ltb, arith, ◌≡◌, refl,
}

pub data Status : Type 0 where
  initiated active expired disconnected : Status

unfoldable pub status_eq : Status → Status → Bool
status_eq initiated initiated = true
status_eq active active = true
status_eq expired expired = true
status_eq disconnected disconnected = true
status_eq _ _ = false

pub status_eq_lem : (s t : Status) → status_eq s t ≡ true → s ≡ t
unfolding status_eq
status_eq_lem initiated initiated h = refl
status_eq_lem active active h = refl
status_eq_lem expired expired h = refl
status_eq_lem disconnected disconnected h = refl
status_eq_lem initiated active h = absurd (ground arith)
status_eq_lem initiated expired h = absurd (ground arith)
status_eq_lem initiated disconnected h = absurd (ground arith)
status_eq_lem active initiated h = absurd (ground arith)
status_eq_lem active expired h = absurd (ground arith)
status_eq_lem active disconnected h = absurd (ground arith)
status_eq_lem expired initiated h = absurd (ground arith)
status_eq_lem expired active h = absurd (ground arith)
status_eq_lem expired disconnected h = absurd (ground arith)
status_eq_lem disconnected initiated h = absurd (ground arith)
status_eq_lem disconnected active h = absurd (ground arith)
status_eq_lem disconnected expired h = absurd (ground arith)

pub record Connection : Type 0 where
  pub id : ℕ
  pub org_id : ℕ
  pub user_id : ℕ
  pub integration_id : ℕ
  pub provider_slug : String
  pub status : Status
  pub redirect_uri : String
  pub connect_token : String
  pub connect_token_expires_at : ℕ
  pub connect_token_used : Bool
  pub encrypted_access_token : String
  pub encrypted_refresh_token : String
  pub token_expires_at : Option ℕ
  pub account_email : String
  pub account_display_name : String
  pub encrypted_params : String
  pub reconciled_at : Option ℕ
  pub created_at : ℕ

-- One hour.
abbrev pub connect_link_ttl : ℕ
connect_link_ttl = 3_600_000_000_000

-- Ten minutes.
abbrev pub oauth_state_ttl : ℕ
oauth_state_ttl = 600_000_000_000

unfoldable pub new_connection : ℕ → ℕ → ℕ → ℕ → String → String → String → ℕ → Connection
new_connection id org user integration slug redirect_uri token now = record {
  id = id;
  org_id = org;
  user_id = user;
  integration_id = integration;
  provider_slug = slug;
  status = initiated;
  redirect_uri = redirect_uri;
  connect_token = token;
  connect_token_expires_at = now + connect_link_ttl;
  connect_token_used = false;
  encrypted_access_token = "";
  encrypted_refresh_token = "";
  token_expires_at = none;
  account_email = "";
  account_display_name = "";
  encrypted_params = "";
  reconciled_at = none;
  created_at = now;
}

unfoldable pub activate : String → String → String → String → ℕ → Connection → Connection
activate access refresh email display_name expires_at c = record c {
  status = active;
  encrypted_access_token = access;
  encrypted_refresh_token = refresh;
  token_expires_at = some expires_at;
  account_email = email;
  account_display_name = display_name;
  connect_token_used = true;
}

unfoldable pub with_params : String → Connection → Connection
with_params encrypted c = record c { encrypted_params = encrypted }

unfoldable pub disable : Connection → Connection
disable c = record c { status = disconnected }

unfoldable pub mark_expired : Connection → Connection
mark_expired c = record c { status = expired }

unfoldable pub refresh_tokens : String → String → ℕ → Connection → Connection
refresh_tokens access refresh expires_at c = record c {
  encrypted_access_token = access;
  encrypted_refresh_token = refresh;
  token_expires_at = some expires_at;
}

unfoldable pub mark_reconciled : ℕ → Connection → Connection
mark_reconciled now c = record c { reconciled_at = some now }

unfoldable pub can_reconnect : Connection → Bool
unfolding status_eq
can_reconnect c =
    status_eq c.status active || status_eq c.status expired || status_eq c.status disconnected

unfoldable pub prepare_reconnect : String → String → ℕ → Connection → Connection
prepare_reconnect token redirect_uri expires_at c = record c {
  connect_token = token;
  redirect_uri = redirect_uri;
  connect_token_expires_at = expires_at;
  connect_token_used = false;
  encrypted_params = "";
}

-- oauth.go: the token that binds one callback to one connection attempt.
pub record OauthState : Type 0 where
  pub state : String
  pub connection_id : ℕ
  pub expires_at : ℕ
  pub consumed_at : Option ℕ

unfoldable pub is_consumed : OauthState → Bool
is_consumed s = is_some s.consumed_at

unfoldable pub is_expired : OauthState → ℕ → Bool
is_expired s now = ltb s.expires_at now
