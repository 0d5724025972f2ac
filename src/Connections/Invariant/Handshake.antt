-- ===== src/Connections/Invariant/Handshake.antt =====
-- The handshake of server/internal/connections/oauth.go keeps such an invariant.
use beecon.Base.{ℕ, ◌≡◌, refl, String, not, List, [], ◌∷◌, str_eq}
use beecon.Base.Effects.Ports.{read, update}
use beecon.Base.Effects.Gives.{
  Gives, Preserves, On, Anything, Holds-Anything, Gives-pure, Gives-or_fail, Gives-if, Gives-forget,
  Gives-check, Gives-bind, Gives-then, Gives-query, Gives-lift, Preserves-read, Preserves-ask,
  Preserves-update, Preserves-attempt,
}
use beecon.Connections.Types.{Connection}
use beecon.Connections.Memory
use beecon.Connections.Memory.{Repository}
use beecon.Connections.Ports.{
  set_repo, ExpectedParam, TokenExchangeRequest, Facade, Outside, ProviderDefinition,
}
use beecon.Connections.Handshake.{
  needs_params_form, validate_connect_token, build_forwarding_view, open_connect_page,
  submit_params, encrypt_params, encrypt_filtered, filter_params, consume_state,
  exchange_tokens_and_fetch_account, exchange_and_activate, complete_handshake, handle_callback,
}
use beecon.Connections.Refresh.{record_exchange}
use beecon.Connections.Invariant.{Steps}
use beecon.Connections.Invariant.Calls.{
  some-IfFound, find_by_connect_token-Gives, find_connection_for_callback-Gives,
  update_connection-Preserves, elsewhere,
}

module _ (f : Facade) (E : Outside → Type 0) (P : Connection → Type 0) (st : Steps f E P) where
  validate_connect_token-Gives : (token : String) → Gives (On E) P (validate_connect_token f token)
  unfolding validate_connect_token
  validate_connect_token-Gives token =
      Gives-bind _ _ (find_by_connect_token-Gives f E P st token) λ stored h.
        Gives-bind _ _ (Gives-or_fail P _ stored (λ c e. some-IfFound P stored c h e)) λ c p.
          Gives-bind _ _ (Gives-check _ _) λ _ _.
            Gives-then _ _ (Preserves-read _)
              λ now. Gives-bind _ _ (Gives-check _ _) λ _ _. Gives-pure P c p

  build_forwarding_view-Preserves :
      (c : Connection) (definition : ProviderDefinition)
      → Preserves (On E) (build_forwarding_view f c definition)
  unfolding build_forwarding_view read
  build_forwarding_view-Preserves c definition = Gives-then _ _ (Preserves-ask _) λ integration.
      Gives-then _ _ (Gives-lift Anything _ (Holds-Anything _)) λ params.
        Gives-bind _ _ minted λ state from. Gives-then _ _ (Preserves-read _) λ now.
          Gives-then _ _ (Preserves-update f.fault _ (λ o h. st.state_saved from.0 _ o from.1 h))
            λ _. Gives-pure Anything _ tt
    where
      minted : Gives (On E) (λ (s : String). (n : ℕ) × (s ≡ f.new_state n)) (read f.new_state)
      minted = record { at = λ w h. (record { holds = h.holds }, (w.tick, refl)) }

  pub open_connect_page-Preserves : (token : String) → Preserves (On E) (open_connect_page f token)
  unfolding open_connect_page
  open_connect_page-Preserves token = Gives-bind _ _ (validate_connect_token-Gives token) λ c p.
      Gives-then _ _ (Preserves-ask _) λ definition.
        Gives-if Anything (needs_params_form definition c) _ _ (λ _. Gives-pure Anything _ tt)
          (λ _. build_forwarding_view-Preserves c definition)

  encrypt_params-Preserves :
      (fields : List ExpectedParam) (values : List (String × String))
      → Preserves (On E) (encrypt_params f fields values)
  unfolding encrypt_params
  encrypt_params-Preserves fields values = go (filter_params fields values)
    where
      go : (kept : List (String × String)) → Preserves (On E) (encrypt_filtered f kept)
      go [] = Gives-pure Anything "" tt
      go (p ∷ ps) = Preserves-ask _

  pub submit_params-Preserves :
      (token : String) (values : List (String × String))
      → Preserves (On E) (submit_params f token values)
  unfolding submit_params
  submit_params-Preserves token values = Gives-bind _ _ (validate_connect_token-Gives token) λ c p.
      Gives-then _ _ (Preserves-ask _) λ definition. Gives-bind _ _ (Gives-check _ _) λ _ _.
        Gives-then _ _ (encrypt_params-Preserves _ values) λ encrypted.
          Gives-then _ _ (update_connection-Preserves f E P st _ (st.kept.collected encrypted c p))
            λ _. build_forwarding_view-Preserves _ definition

  mark_state_consumed-Preserves :
      (state : String) (at : ℕ)
      → Preserves (On E) (update f.fault (set_repo (Memory.mark_state_consumed state at)))
  mark_state_consumed-Preserves state at =
      Preserves-update f.fault _ (λ o h. st.state_consumed state at o h)

  consume_state-Gives : (state : String) → Gives (On E) P (consume_state f state)
  unfolding consume_state
  consume_state-Gives state = Gives-bind _ _ (Gives-check _ _) λ _ _.
      Gives-bind _ _ (Gives-query Anything f.fault _ (λ o h. tt)) λ stored _.
        Gives-bind _ _ (Gives-or_fail Anything _ stored (λ s e. tt)) λ s _.
          Gives-bind _ _ (Gives-check _ _) λ _ _. Gives-then _ _ (Preserves-read _) λ now.
            Gives-bind _ _ (Gives-check _ _) λ _ _. Gives-then _ _ (Preserves-read _) λ at.
              Gives-then _ _ (mark_state_consumed-Preserves state at) λ _.
                Gives-bind _ _ (find_connection_for_callback-Gives f E P st s.connection_id)
                  λ stored h. Gives-or_fail P _ stored (λ c e. some-IfFound P stored c h e)

  pub record_exchange-Preserves :
      (c : Connection) (status : ℕ) → Preserves (On E) (record_exchange f c status)
  unfolding record_exchange
  record_exchange-Preserves c status =
      Gives-if Anything f.has_recorder _ _
        (λ _.
          Gives-then _ _
            (Gives-then _ _ (Preserves-read _) λ _.
              Gives-forget _ _ (Preserves-attempt Anything _ (elsewhere f E P st _ (λ o. refl))))
            λ _. Gives-pure Anything tt tt)
        (λ _. Gives-pure Anything tt tt)

  exchange-Preserves :
      (request : TokenExchangeRequest) (definition : ProviderDefinition)
      → Preserves (On E) (exchange_tokens_and_fetch_account f request definition)
  unfolding exchange_tokens_and_fetch_account
  exchange-Preserves request definition = Gives-then _ _ (Preserves-ask _) λ tokens.
      Gives-if Anything (str_eq definition.user_info_url "") _ _ (λ _. Gives-pure Anything _ tt)
        (λ _. Gives-then _ _ (Preserves-ask _) λ account. Gives-pure Anything _ tt)

  pub exchange_and_activate-Gives :
      (c : Connection) (code : String) → P c → Gives (On E) P (exchange_and_activate f c code)
  unfolding exchange_and_activate
  exchange_and_activate-Gives c code p = Gives-then _ _ (Preserves-ask _) λ integration.
      Gives-then _ _ (Preserves-ask _) λ definition.
        Gives-then _ _ (Gives-lift Anything _ (Holds-Anything _)) λ params.
          Gives-then _ _ (Preserves-read _) λ started.
            Gives-then _ _
              (Gives-forget _ _ (Preserves-attempt Anything _ (exchange-Preserves _ definition)))
              λ exchange. Gives-then _ _ (record_exchange-Preserves c _) λ _.
                Gives-then _ _ (Gives-lift Anything _ (Holds-Anything _)) λ both.
                  Gives-then _ _ (Preserves-ask _) λ access.
                    Gives-then _ _ (Preserves-ask _) λ refresh.
                      Gives-then _ _ (Preserves-read _)
                        λ now. Gives-pure P _ (st.kept.activated access refresh _ _ _ c p)

  pub handle_callback-Preserves :
      (code state provider_error : String)
      → Preserves (On E) (handle_callback f code state provider_error)
  unfolding handle_callback complete_handshake
  handle_callback-Preserves code state provider_error =
      Gives-bind _ _ (consume_state-Gives state) λ c p.
        Gives-if Anything (not (str_eq provider_error "")) _ _ (λ _. Gives-pure Anything _ tt)
          (λ _. Gives-bind _ _ (exchange_and_activate-Gives c code p) λ activated q.
            Gives-then _ _ (update_connection-Preserves f E P st activated q)
              λ _. Gives-pure Anything _ tt)
