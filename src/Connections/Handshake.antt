-- ===== src/Connections/Handshake.antt =====
-- server/internal/connections/oauth.go: the connect page, its parameters, and the OAuth callback. The
-- link to the provider and the redirect to the consumer are kept as the parts that their texts are
-- built of.
pub mod Callback
pub mod Collecting
use Prim.Native.String.{◌++◌ as text_append}
use beecon.Base.{
  ℕ, ◌+◌, String, Bool, true, false, not, ◌&&◌, Option, none, some, List, [], ◌∷◌, length, filter,
  ltb, str_eq, if◌then◌else◌, map,
}
use beecon.Base.Effects.{
  Result, ok, err, Exec, pure, fail, lift, check, or_fail, attempt, ◌>>=◌, ◌>>◌,
}
use beecon.Base.Effects.Ports.{read, ask, query, update, fails_if}
use beecon.Execution.RateLimit.{trim_space}
use beecon.Connections.Types.{
  Connection, OauthState, oauth_state_ttl, is_consumed, is_expired, with_params, activate,
}
use beecon.Connections.Errors.{
  err_connect_link_invalid, err_connect_link_already_completed, err_connect_link_expired,
  err_missing_required_params, err_state_missing, err_state_unknown, err_state_already_used,
  err_state_expired, err_token_exchange_failed,
}
use beecon.Connections.Memory.{
  find_by_connect_token, find_connection_for_callback, find_state, save_state, mark_state_consumed,
  update_connection,
}
use beecon.Connections.Ports.{
  Facade, World, ExpectedParam, ProviderDefinition, Integration, TokenExchangeRequest,
  TokenExchangeResult, AccountInfo, AccountFetchRequest, set_repo,
}
use beecon.Connections.Facade.{trim_slashes}
use beecon.Connections.Templates.{lookup, render_params_template}
use beecon.Connections.Refresh.{token_expiry_from, record_exchange, status_of}

-- buildAuthorizeURL: the rendered endpoint, and the values of its query.
pub record AuthorizeUrl : Type 0 where
  pub endpoint : String
  pub client_id : String
  pub redirect_uri : String
  pub scopes : List String
  pub state : String

pub record ConnectPageView : Type 0 where
  pub provider_name : String
  pub provider_logo : String
  pub authorize_url : Option AuthorizeUrl
  pub params_required : Bool
  pub param_fields : List ExpectedParam

-- buildConsumerRedirectURL: the consumer's address, and what is added to its query.
pub record CallbackOutcome : Type 0 where
  pub redirect_uri : String
  pub connection_id : ℕ
  pub status : String

unfoldable pub build_callback_url : String → String
unfolding trim_slashes
build_callback_url base_url = text_append (trim_slashes base_url) "/connect/oauth/callback"

unfoldable pub validate_connect_token : Facade → String → Exec World Connection
validate_connect_token f token = do
  stored ← query f.fault (λ o. find_by_connect_token token o.repo)
  connection ← or_fail err_connect_link_invalid stored
  check (fails_if connection.connect_token_used err_connect_link_already_completed)
  now ← read f.now
  check (fails_if (ltb connection.connect_token_expires_at now) err_connect_link_expired)
  pure connection

unfoldable pub needs_params_form : ProviderDefinition → Connection → Bool
needs_params_form definition c =
    ltb 0 (length definition.expected_params) && str_eq c.encrypted_params ""

unfoldable pub params_form_view : ProviderDefinition → ConnectPageView
params_form_view definition = record {
  provider_name = definition.name;
  provider_logo = definition.logo;
  authorize_url = none;
  params_required = true;
  param_fields = definition.expected_params;
}

unfoldable pub decrypt_params : Facade → String → Result (List (String × String))
decrypt_params f encrypted =
    if str_eq encrypted ""
    then ok []
    else elim (f.decrypt encrypted) [ ok plaintext ↦ f.decode_params plaintext | err e ↦ err e ]

unfoldable pub build_authorize_url :
    Facade → ProviderDefinition → Integration → String → List (String × String) → AuthorizeUrl
build_authorize_url f definition integration state params = record {
  endpoint = render_params_template definition.authorize_url params;
  client_id = integration.client_id;
  redirect_uri = build_callback_url f.base_url;
  scopes = definition.scopes;
  state = state;
}

unfoldable pub build_forwarding_view :
    Facade → Connection → ProviderDefinition → Exec World ConnectPageView
build_forwarding_view f c definition = do
  integration ← ask (λ tick. f.get_integration tick c.integration_id)
  params ← lift (decrypt_params f c.encrypted_params)
  state ← read f.new_state
  now ← read f.now
  update f.fault (
      set_repo (
        save_state (record {
          state = state;
          connection_id = c.id;
          expires_at = now + oauth_state_ttl;
          consumed_at = none;
        })))
  pure (record {
    provider_name = definition.name;
    provider_logo = definition.logo;
    authorize_url = some (build_authorize_url f definition integration state params);
    params_required = false;
    param_fields = [];
  })

unfoldable pub open_connect_page : Facade → String → Exec World ConnectPageView
open_connect_page f token = do
  connection ← validate_connect_token f token
  definition ← ask (λ tick. f.get_provider_definition tick connection.provider_slug)
  if needs_params_form definition connection
      then pure (params_form_view definition)
      else build_forwarding_view f connection definition

abbrev or_empty : Option String → String
or_empty none = ""
or_empty (some value) = value

-- A field that the submitted values leave without its value.
unfoldable pub lacks : List (String × String) → ExpectedParam → Bool
lacks values field = field.required && str_eq (trim_space (or_empty (lookup field.name values))) ""

unfoldable pub missing_required_params : List ExpectedParam → List (String × String) → List String
unfolding lacks
missing_required_params [] values = []
missing_required_params (field ∷ fields) values =
    let rest = missing_required_params fields values in
    if lacks values field then field.name ∷ rest else rest

-- The loop that keeps only the values of the declared fields.
unfoldable pub filter_params : List ExpectedParam → List (String × String) → List (String × String)
unfolding lookup
filter_params [] values = []
filter_params (field ∷ fields) values =
    let rest = filter_params fields values in
    elim (lookup field.name values) [ none ↦ rest | some value ↦ (field.name, value) ∷ rest ]

abbrev pub encrypt_filtered : Facade → List (String × String) → Exec World String
encrypt_filtered f [] = pure ""
encrypt_filtered f (p ∷ ps) = ask (λ tick. f.encrypt tick (f.encode_params (p ∷ ps)))

unfoldable pub encrypt_params :
    Facade → List ExpectedParam → List (String × String) → Exec World String
unfolding filter_params
encrypt_params f fields values = encrypt_filtered f (filter_params fields values)

unfoldable pub submit_params : Facade → String → List (String × String) → Exec World ConnectPageView
submit_params f token values = do
  connection ← validate_connect_token f token
  definition ← ask (λ tick. f.get_provider_definition tick connection.provider_slug)
  let missing : List String = missing_required_params definition.expected_params values
  check (fails_if (ltb 0 (length missing)) (err_missing_required_params missing))
  encrypted ← encrypt_params f definition.expected_params values
  update f.fault (set_repo (update_connection (with_params encrypted connection)))
  build_forwarding_view f (with_params encrypted connection) definition

unfoldable pub consume_state : Facade → String → Exec World Connection
consume_state f state = do
  check (fails_if (str_eq state "") err_state_missing)
  stored ← query f.fault (λ o. find_state state o.repo)
  oauth_state ← or_fail err_state_unknown stored
  check (fails_if (is_consumed oauth_state) err_state_already_used)
  now ← read f.now
  check (fails_if (is_expired oauth_state now) err_state_expired)
  consumed_at ← read f.now
  update f.fault (set_repo (mark_state_consumed state consumed_at))
  connection ← query f.fault (λ o. find_connection_for_callback oauth_state.connection_id o.repo)
  or_fail err_state_unknown connection

unfoldable pub exchange_tokens_and_fetch_account :
    Facade
    → TokenExchangeRequest
    → ProviderDefinition
    → Exec World (TokenExchangeResult × AccountInfo)
exchange_tokens_and_fetch_account f request definition = do
  tokens ← ask (λ tick. f.exchange_code tick request)
  if str_eq definition.user_info_url ""
      then pure (tokens, record { email = ""; display_name = "" })
      else (ask (λ tick. f.fetch_account tick (record {
        user_info_url = definition.user_info_url;
        access_token = tokens.access_token;
        email_field = definition.email_field;
        display_name_field = definition.display_name_field;
      }))
          >>= λ account. pure (tokens, account))

-- Whatever went wrong with the provider, the same error is shown.
abbrev or_exchange_failed : {A : Type 0} → Result A → Result A
or_exchange_failed (ok a) = ok a
or_exchange_failed (err e) = err err_token_exchange_failed

unfoldable pub exchange_and_activate : Facade → Connection → String → Exec World Connection
exchange_and_activate f c code = do
  integration ← ask (λ tick. f.get_integration tick c.integration_id)
  definition ← ask (λ tick. f.get_provider_definition tick c.provider_slug)
  params ← lift (decrypt_params f c.encrypted_params)
  started ← read f.now
  exchange ← attempt (
      exchange_tokens_and_fetch_account f
        (record {
          token_url = render_params_template definition.token_url params;
          client_id = integration.client_id;
          client_secret = integration.client_secret;
          code = code;
          redirect_uri = build_callback_url f.base_url;
          credential_style = definition.credential_style;
        })
        definition)
  record_exchange f c (status_of exchange)
  both ← lift (or_exchange_failed exchange)
  let tokens : TokenExchangeResult = both.0
  let account : AccountInfo = both.1
  access ← ask (λ tick. f.encrypt tick tokens.access_token)
  refresh ← ask (λ tick. f.encrypt tick tokens.refresh_token)
  now ← read f.now
  pure (
      activate access refresh account.email account.display_name
        (token_expiry_from now tokens.expires_in) c)

-- HandleCallback once the provider has sent no error.
unfoldable pub complete_handshake : Facade → Connection → String → Exec World CallbackOutcome
complete_handshake f c code = do
  activated ← exchange_and_activate f c code
  update f.fault (set_repo (update_connection activated))
  pure (record {
    redirect_uri = activated.redirect_uri;
    connection_id = activated.id;
    status = "success";
  })

unfoldable pub handle_callback : Facade → String → String → String → Exec World CallbackOutcome
handle_callback f code state provider_error = do
  connection ← consume_state f state
  if not (str_eq provider_error "")
      then pure (record {
        redirect_uri = connection.redirect_uri;
        connection_id = connection.id;
        status = "error";
      })
      else complete_handshake f connection code
