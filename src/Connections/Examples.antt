-- ===== src/Connections/Examples.antt =====
-- The connections module of server/internal/connections on concrete inputs.
use beecon.Base.{
  ℕ, ◌+◌, ◌*◌, ◌≡◌, ◌<◌, ◌≢◌, refl, String, Bool, true, false, Option, none, some, List, [], ◌∷◌,
  All, arith, str_eq, eq_iff, ◌⊎◌, ◌≤◌,
}
use beecon.Base.Effects.{Result, ok, err, is_ok}
use beecon.Base.Effects.Ports.{Ticked}
use beecon.Base.Effects.Ends.{Post}
use beecon.Connections.Types.{
  refresh_tokens, Connection, OauthState, initiated, active, expired, disconnected,
}
use beecon.Connections.Memory.{Repository, find_by_id}
use beecon.Connections.Ports.{Facade, World, ProviderDefinition, granted, honored, denied}
use beecon.Connections.Templates.{render_params_template}
use beecon.Connections.Facade.{build_connect_url}
use beecon.Connections.Refresh.{refresh_once, token_expiry_from}
use beecon.Connections.Refresh.Once.{refresh_once-once}
use beecon.Connections.Refresh.Outcome.{Outcome, Failure, Untouched, refresh_once-Outcome}
use beecon.Connections.Refresh.Expiry.{token_expiry_from_lem}
use beecon.Connections.Memory.{claim_due_refresh, claim_due_reconcile}
use beecon.Connections.Memory.Claims.{claim_due_refresh-exclusive}
use beecon.Connections.Access.{resolve_for_execution, refresh_for_execution}
use beecon.Connections.Access.Isolation.{Belongs, Carries, resolve_for_execution-Allowed}
use beecon.Connections.Handshake.Callback.{
  BoundTo, Completed, SameConnections, handle_callback-Completed,
}
use beecon.Connections.History.{
  Operation, opens_page, calls_back, refreshes_due, reconciles, disables, reconnects, resolves,
  serve_all,
}
use beecon.Connections.Invariant.SingleUse.{handle_callback-once}
use beecon.Connections.Invariant.Owner.{SameOwner, serve_all-SameOwner}
use beecon.Connections.Invariant.Lifecycle.{IsWellFormed, serve_all-IsWellFormed}
use beecon.Connections.Handshake.{handle_callback}

abbrev a_definition : ProviderDefinition
a_definition = record {
  name = "Outlook";
  logo = "logo";
  authorize_url = "https://login/{params.tenant}/authorize";
  token_url = "https://login/token";
  user_info_url = "";
  scopes = "mail" ∷ [];
  credential_style = "formBody";
  email_field = "mail";
  display_name_field = "displayName";
  expected_params = [];
}

abbrev a_facade : Facade
a_facade = record {
  now = λ n. 1_000;
  fault = λ n. none;
  new_id = λ n. n + 100;
  new_token = λ n. "token";
  new_state = λ n. "state";
  base_url = "https://beecon/";
  parse_url = λ text. none;
  get_organization = λ n org. ok (record { allowed_redirect_uris = "https://app" ∷ [] });
  get_user = λ n org user. ok tt;
  get_integration = λ n integration.
      ok (record { provider_slug = "outlook"; client_id = "client"; client_secret = "secret" });
  get_visible_integration = λ n org integration.
      ok (record { provider_slug = "outlook"; client_id = "client"; client_secret = "secret" });
  get_provider_definition = λ n slug. ok a_definition;
  encrypt = λ n text. ok text;
  decrypt = λ text. ok text;
  encode_params = λ params. "params";
  decode_params = λ text. ok [];
  exchange_code = λ n request.
      ok (record { access_token = "access"; refresh_token = "refresh"; expires_in = 60 });
  fetch_account = λ n request. ok (record { email = "a@b.c"; display_name = "A" });
  refresh_grant = λ n request.
      granted (record { access_token = "renewed"; refresh_token = ""; expires_in = 60 });
  fetch_user_info = λ n url token. honored;
  has_recorder = true;
  has_events = true;
  has_dependents = true;
  refresh_lead = 10;
  reconcile_interval = 10;
  spacing = λ n. 0;
  sleep = λ n d. ok tt;
}

-- The organization 1 and the user 2 have an ACTIVE connection 3, whose token has run out.
abbrev a_connection : Connection
a_connection = record {
  id = 3;
  org_id = 1;
  user_id = 2;
  integration_id = 4;
  provider_slug = "outlook";
  status = active;
  redirect_uri = "https://app";
  connect_token = "link";
  connect_token_expires_at = 5_000;
  connect_token_used = false;
  encrypted_access_token = "old";
  encrypted_refresh_token = "refresh";
  token_expires_at = some 500;
  account_email = "";
  account_display_name = "";
  encrypted_params = "";
  reconciled_at = none;
  created_at = 10;
}

abbrev a_state : OauthState
a_state = record { state = "pending"; connection_id = 3; expires_at = 2_000; consumed_at = none }

abbrev a_world : World
a_world = record {
  store = record {
    repo = record {
      connections = a_connection ∷ [];
      states = a_state ∷ [];
      refresh_leases = [];
      reconcile_leases = [];
    };
    expired_events = [];
    deletions = [];
    log = [];
    grants = [];
  };
  tick = 0;
}

render_test :
    render_params_template "a/{params.tenant}/{params.x}/{b}" (("tenant", "t1") ∷ [])
    ≡ "a/t1/{params.x}/{b}"
unfolding render_params_template
render_test = refl

build_test : build_connect_url "https://beecon//" "t" ≡ "https://beecon/connect/t"
unfolding build_connect_url
build_test = refl

-- Nothing was sent, and the two refreshes made one grant.
refresh_test :
    (refresh_once a_facade 1 3
      (record { force = false; lead = 0; denied_reason = denied })
      (refresh_once a_facade 1 3
        (record { force = false; lead = 0; denied_reason = denied })
        a_world).1).1.store.grants
    ≡ 3 ∷ []
unfolding beecon.Base.Effects.◌>>=◌ beecon.Base.Effects.attempt beecon.Base.Effects.pure
    beecon.Base.Effects.lift beecon.Base.Effects.or_fail beecon.Base.Effects.check
    beecon.Base.Effects.Ports.query beecon.Base.Effects.Ports.call beecon.Base.Effects.Ports.read
    beecon.Base.Effects.Ports.ask beecon.Base.Effects.Ports.update beecon.Base.Keyed.find
    beecon.Base.Keyed.put beecon.Base.Keyed.remove beecon.Base.Lists.filter
    beecon.Connections.Memory.update_connection beecon.Connections.Refresh.record_exchange
    token_expiry_from refresh_once find_by_id refresh_tokens beecon.Connections.Types.status_eq
    beecon.Connections.Refresh.refresh_active beecon.Connections.Refresh.due_for_refresh
    beecon.Connections.Refresh.needs_refresh beecon.Connections.Refresh.refresh_connection
    beecon.Connections.Refresh.refresh_grant beecon.Connections.Refresh.after_grant
    beecon.Connections.Refresh.store_refreshed beecon.Connections.Refresh.rotated_refresh_token
    beecon.Connections.Refresh.persist_connection
refresh_test = refl

handle_callback-once_example :
    (is_ok
        (handle_callback a_facade "code" "pending" "" (
          serve_all a_facade
            (reconciles ∷ disables 1 3 ∷ [])
            (handle_callback a_facade "code" "pending" "" a_world).1)).0
      ≡ false)
    × ((handle_callback a_facade "code" "pending" "" (
          serve_all a_facade
            (reconciles ∷ disables 1 3 ∷ [])
            (handle_callback a_facade "code" "pending" "" a_world).1)).1.store
        ≡ (serve_all a_facade
            (reconciles ∷ disables 1 3 ∷ [])
            (handle_callback a_facade "code" "pending" "" a_world).1).store)
unfolding beecon.Base.Effects.◌>>=◌ beecon.Base.Effects.attempt beecon.Base.Effects.pure
    beecon.Base.Effects.lift beecon.Base.Effects.or_fail beecon.Base.Effects.check
    beecon.Base.Effects.Ports.query beecon.Base.Effects.Ports.call beecon.Base.Effects.Ports.read
    beecon.Base.Effects.Ports.ask beecon.Base.Effects.Ports.update beecon.Base.Keyed.find
    beecon.Base.Keyed.put beecon.Base.Keyed.remove beecon.Base.Lists.filter
    beecon.Connections.Memory.update_connection beecon.Connections.Refresh.record_exchange
    token_expiry_from handle_callback beecon.Connections.Handshake.consume_state
    beecon.Connections.Handshake.complete_handshake
    beecon.Connections.Handshake.exchange_and_activate
    beecon.Connections.Handshake.exchange_tokens_and_fetch_account
    beecon.Connections.Handshake.decrypt_params beecon.Connections.Memory.find_state
    beecon.Connections.Memory.lookup_state beecon.Connections.Memory.mark_state_consumed
    beecon.Connections.Memory.store_state beecon.Connections.Memory.find_connection_for_callback
    beecon.Connections.Types.is_consumed beecon.Connections.Types.is_expired
    beecon.Connections.Types.activate
handle_callback-once_example =
    handle_callback-once a_facade "pending" "code" "" a_world
      (record { redirect_uri = "https://app"; connection_id = 3; status = "success" })
      (reconciles ∷ disables 1 3 ∷ []) "code" "" (λ n e. absurd (other e)) refl
  where
    other : ◌≢◌ {A = String} "state" "pending"
    other e = absurd (
        let same : str_eq "state" "pending" ≡ true = (eq_iff "state" "pending").1 e in ground arith)

refresh_once-Outcome_example :
    Post
      (λ returned after.
        (c : Connection) × (find_by_id 1 3 a_world.store.repo ≡ some c)
        × Outcome a_facade denied a_world.store c returned after)
      (λ after.
        Untouched a_world.store after
        ⊎ ((c : Connection) × (find_by_id 1 3 a_world.store.repo ≡ some c)
            × Failure a_facade a_world.store c after))
      (refresh_once a_facade 1 3
        (record { force = true; lead = 0; denied_reason = denied })
        a_world).0
      (refresh_once a_facade 1 3
        (record { force = true; lead = 0; denied_reason = denied })
        a_world).1.store
refresh_once-Outcome_example =
    refresh_once-Outcome a_facade 1 3 (record { force = true; lead = 0; denied_reason = denied })
      a_world

resolve_for_execution-Allowed_example :
    Post
      (λ a after. Belongs 1 2 3 a_world.store × Carries a_facade 1 3 a after)
      (λ after. Unit)
      (resolve_for_execution a_facade 1 2 3 a_world).0
      (resolve_for_execution a_facade 1 2 3 a_world).1.store
    × Post
        (λ a after. Belongs 1 2 3 a_world.store × Carries a_facade 1 3 a after)
        (λ after. Unit)
        (refresh_for_execution a_facade 1 2 3 a_world).0
        (refresh_for_execution a_facade 1 2 3 a_world).1.store
resolve_for_execution-Allowed_example = resolve_for_execution-Allowed a_facade 1 2 3 a_world

abbrev a_history : List Operation
a_history =
    opens_page "link"
    ∷ calls_back "code" "pending" ""
    ∷ refreshes_due
    ∷ reconciles
    ∷ disables 1 3
    ∷ reconnects 1 3 "https://app"
    ∷ resolves 1 2 3
    ∷ []

serve_all-SameOwner_example :
    All (SameOwner a_connection) (serve_all a_facade a_history a_world).store.repo.connections
serve_all-SameOwner_example =
    serve_all-SameOwner a_facade a_connection a_history a_world (λ n e. absurd (omega arith))
      ((λ e. (refl, refl, refl, refl, refl)), tt)

serve_all-IsWellFormed_example :
    All IsWellFormed (serve_all a_facade a_history a_world).store.repo.connections
serve_all-IsWellFormed_example = serve_all-IsWellFormed a_facade a_history a_world (refl, tt)

handle_callback-Completed_example :
    Post
      (λ out after.
        (c : Connection) × BoundTo "pending" a_world.store c × Completed "" a_world.store c after)
      (SameConnections a_world.store)
      (handle_callback a_facade "code" "pending" "" a_world).0
      (handle_callback a_facade "code" "pending" "" a_world).1.store
handle_callback-Completed_example = handle_callback-Completed a_facade "code" "pending" "" a_world

abbrev refreshed : World
refreshed =
    (refresh_once a_facade 1 3 (record { force = false; lead = 0; denied_reason = denied })
      a_world).1

refresh_once-once_example :
    ((refresh_once a_facade 1 3
        (record { force = false; lead = 10; denied_reason = denied })
        refreshed).0
      ≡ ok (refresh_tokens "renewed" "refresh" 60_000_001_000 a_connection))
    × ((refresh_once a_facade 1 3
          (record { force = false; lead = 10; denied_reason = denied })
          refreshed).1.store
        ≡ refreshed.store)
unfolding beecon.Base.Effects.◌>>=◌ beecon.Base.Effects.attempt beecon.Base.Effects.pure
    beecon.Base.Effects.lift beecon.Base.Effects.or_fail beecon.Base.Effects.check
    beecon.Base.Effects.Ports.query beecon.Base.Effects.Ports.call beecon.Base.Effects.Ports.read
    beecon.Base.Effects.Ports.ask beecon.Base.Effects.Ports.update beecon.Base.Keyed.find
    beecon.Base.Keyed.put beecon.Base.Keyed.remove beecon.Base.Lists.filter
    beecon.Connections.Memory.update_connection beecon.Connections.Refresh.record_exchange
    token_expiry_from refresh_once find_by_id refresh_tokens beecon.Connections.Types.status_eq
    beecon.Connections.Refresh.refresh_active beecon.Connections.Refresh.due_for_refresh
    beecon.Connections.Refresh.needs_refresh beecon.Connections.Refresh.refresh_connection
    beecon.Connections.Refresh.refresh_grant beecon.Connections.Refresh.after_grant
    beecon.Connections.Refresh.store_refreshed beecon.Connections.Refresh.rotated_refresh_token
    beecon.Connections.Refresh.persist_connection
refresh_once-once_example =
    refresh_once-once a_facade 1 3 10 60_000_001_000
      (record { force = false; lead = 0; denied_reason = denied }) denied a_world
      (refresh_tokens "renewed" "refresh" 60_000_001_000 a_connection) refl refl refl refl
      (λ n. omega arith)

claim_due_refresh-exclusive_example :
    All
      (λ c.
        All
          (λ d. d.id ≢ c.id)
          (claim_due_refresh 1_005 10 30 50
            (claim_due_refresh 1_000 10 30 50 a_world.store.repo).1).0)
      (claim_due_refresh 1_000 10 30 50 a_world.store.repo).0
    × All
        (λ c.
          All
            (λ d. d.id ≢ c.id)
            (claim_due_reconcile 1_005 10 30 50
              (claim_due_reconcile 1_000 10 30 50 a_world.store.repo).1).0)
        (claim_due_reconcile 1_000 10 30 50 a_world.store.repo).0
claim_due_refresh-exclusive_example =
    claim_due_refresh-exclusive 1_000 1_005 10 30 50 50 a_world.store.repo (omega arith)

token_expiry_from_lem_example :
    ((5_000_000_000 < 9_223_372_037)
      × (token_expiry_from 7 5_000_000_000 ≡ 7 + 5_000_000_000 * 1_000_000_000))
    ⊎ ((9_223_372_037 ≤ 5_000_000_000) × (token_expiry_from 7 5_000_000_000 ≤ 7))
token_expiry_from_lem_example = token_expiry_from_lem 7 5_000_000_000 (omega arith) (omega arith)
