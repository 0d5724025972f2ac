-- ===== src/Connections/Handshake/Callback.antt =====
-- HandleCallback of server/internal/connections/oauth.go: which connection it activates, and when.
use beecon.Base.{
  ℕ, ◌≡◌, refl, sym, ap, ◌∙◌, String, true, false, not, some, arith, str_eq, if◌then◌else◌, ◌⊎◌,
  inl, inr, Option-cases,
}
use beecon.Base.Keyed
use beecon.Base.Effects.{Result, ok, err, pure}
use beecon.Base.Effects.Ends.{
  Post, Ends, Ends-pure, Ends-or_fail, Ends-if, Ends-query, Ends-update, Ends-bind, Ends-read,
  Ends-lift, Ends-ask, Ends-attempt, Ends-check,
}
use beecon.Connections.Types.{Connection, OauthState, is_consumed, activate}
use beecon.Connections.Memory.{
  Repository, connection_key, lookup_state, find_state, mark_state_consumed, update_connection,
  find_connection_for_callback,
}
use beecon.Connections.Ports.{Facade, Outside, World, ProviderDefinition, TokenExchangeRequest}
use beecon.Connections.Refresh.{record_exchange}
use beecon.Connections.Handshake.{
  CallbackOutcome, consume_state, exchange_tokens_and_fetch_account, exchange_and_activate,
  complete_handshake, handle_callback,
}

-- The stored connections are as before.
abbrev pub SameConnections : Outside → Outside → Type 0
SameConnections before after = after.repo.connections ≡ before.repo.connections

-- The state is stored and not consumed, and was minted for the connection, which is stored.
pub record BoundTo (state : String) (before : Outside) (c : Connection) : Type 0 where
  pub entry : OauthState
  pub found : lookup_state state before.repo.states ≡ some entry
  pub unconsumed : is_consumed entry ≡ false
  pub bound : Keyed.find connection_key entry.connection_id before.repo.connections ≡ some c

-- The connections after a callback: as before, where the provider reports an error, and otherwise with
-- the connection of the state made ACTIVE.
abbrev pub Completed : String → Outside → Connection → Outside → Type 0
Completed provider_error before c after =
    ((str_eq provider_error "" ≡ false) × SameConnections before after)
    ⊎ ((str_eq provider_error "" ≡ true)
        × (access : String) × (refresh : String) × (email : String) × (name : String) × (until : ℕ)
        × (after.repo.connections
            ≡ Keyed.put connection_key (activate access refresh email name until c)
                before.repo.connections))

mark_state_consumed-connections :
    (state : String) (at : ℕ) (r : Repository)
    → (mark_state_consumed state at r).connections ≡ r.connections
unfolding mark_state_consumed
mark_state_consumed-connections state at r = elim (Option-cases (lookup_state state r.states)) [
  | inl e ↦ rw (e, mark_state_consumed) refl
  | inr (s, e) ↦ rw (e, mark_state_consumed) refl
]

module _ (f : Facade) (before : Outside) where
  consume_state-Ends :
      (state : String)
      → Ends
          (λ o. o.repo ≡ before.repo)
          (λ c o. BoundTo state before c × SameConnections before o)
          (SameConnections before)
          (consume_state f state)
  unfolding consume_state find_state find_connection_for_callback
  consume_state-Ends state =
      Ends-check _ _ _ (λ d h. ap (λ r. r.connections) h)
        λ _.
          Ends-bind
            {M = λ stored o.
              (stored ≡ lookup_state state before.repo.states) × (o.repo ≡ before.repo)}
            _ _
            (Ends-query f.fault _ (λ d h. (ap (λ r. lookup_state state r.states) h, h))
              (λ d h. ap (λ r. r.connections) h))
            λ stored.
              Ends-bind
                {M = λ s o.
                  (lookup_state state before.repo.states ≡ some s) × (o.repo ≡ before.repo)}
                _ _
                (Ends-or_fail _ stored (λ s d e h. (sym h.0 ∙ e, h.1))
                  (λ d h. ap (λ r. r.connections) h.1))
                λ s.
                  Ends-check _ _ _ (λ d h. ap (λ r. r.connections) h.1)
                    λ fresh. Ends-read f.now _ λ n.
                      Ends-check _ _ _ (λ d h. ap (λ r. r.connections) h.1)
                        λ _. Ends-read f.now _ λ m.
                          Ends-bind
                            {M = λ _ o.
                              (lookup_state state before.repo.states ≡ some s)
                              × SameConnections before o}
                            _ _
                            (Ends-update f.fault _
                              (λ d h. (
                                h.0,
                                mark_state_consumed-connections state _ d.repo
                                    ∙ ap (λ r. r.connections) h.1,
                              ))
                              (λ d h. ap (λ r. r.connections) h.1))
                            λ _.
                              Ends-bind
                                {M = λ stored o.
                                  (stored
                                    ≡ Keyed.find connection_key s.connection_id
                                        before.repo.connections)
                                  × (lookup_state state before.repo.states ≡ some s)
                                  × SameConnections before o}
                                _ _
                                (Ends-query f.fault _
                                  (λ d h.
                                    (ap (Keyed.find connection_key s.connection_id) h.1, h.0, h.1))
                                  (λ d h. h.1))
                                λ stored.
                                  Ends-or_fail _ stored
                                    (λ c d e h. (
                                      record {
                                        entry = s;
                                        found = h.1;
                                        unconsumed = fresh;
                                        bound = sym h.0 ∙ e;
                                      },
                                      h.2,
                                    ))
                                    (λ d h. h.2)

  record_exchange-Same :
      (c : Connection) (status : ℕ)
      → Ends
          (SameConnections before)
          (λ _. SameConnections before)
          (SameConnections before)
          (record_exchange f c status)
  unfolding record_exchange
  record_exchange-Same c status =
      Ends-if f.has_recorder _ _
        (λ _.
          Ends-bind {M = λ _. SameConnections before} _ _
            (Ends-read f.now _ λ n.
              Ends-attempt _
                (Ends-update {Q = λ _. SameConnections before} f.fault _ (λ d h. h) (λ d h. h)))
            λ _. Ends-pure tt (λ d h. h))
        (λ _. Ends-pure tt (λ d h. h))

  exchange-Same :
      (request : TokenExchangeRequest) (definition : ProviderDefinition)
      → Ends
          (SameConnections before)
          (λ _. SameConnections before)
          (SameConnections before)
          (exchange_tokens_and_fetch_account f request definition)
  unfolding exchange_tokens_and_fetch_account
  exchange-Same request definition =
      Ends-ask _ _ (λ d h. h)
        λ tokens.
          Ends-if (str_eq definition.user_info_url "") _ _ (λ _. Ends-pure _ (λ d h. h))
            (λ _. Ends-ask _ _ (λ d h. h) λ account. Ends-pure _ (λ d h. h))

  -- What the exchange makes of a connection.
  abbrev Activated : Connection → Connection → Outside → Type 0
  Activated c activated o =
      ((access : String) × (refresh : String) × (email : String) × (name : String) × (until : ℕ)
        × (activated ≡ activate access refresh email name until c))
      × SameConnections before o

  exchange_and_activate-Ends :
      (c : Connection) (code : String)
      → Ends
          (SameConnections before)
          (Activated c)
          (SameConnections before)
          (exchange_and_activate f c code)
  unfolding exchange_and_activate
  exchange_and_activate-Ends c code =
      Ends-ask _ _ (λ d h. h)
        λ integration.
          Ends-ask _ _ (λ d h. h)
            λ definition.
              Ends-lift _ _ (λ d h. h)
                λ params _. Ends-read f.now _ λ started.
                  Ends-bind _ _ (Ends-attempt _ (exchange-Same _ definition)) λ exchange.
                    Ends-bind _ _ (record_exchange-Same c _) λ _.
                      Ends-lift _ _ (λ d h. h)
                        λ both _.
                          Ends-ask _ _ (λ d h. h)
                            λ access.
                              Ends-ask _ _ (λ d h. h)
                                λ refresh.
                                  Ends-read f.now _
                                    λ n. Ends-pure _ (λ d h. ((access, refresh, _, _, _, refl), h))

  complete_handshake-Ends :
      (c : Connection) (code provider_error : String)
      → str_eq provider_error "" ≡ true
      → Ends
          (SameConnections before)
          (λ _. Completed provider_error before c)
          (SameConnections before)
          (complete_handshake f c code)
  unfolding complete_handshake update_connection
  complete_handshake-Ends c code provider_error granted =
      Ends-bind _ _ (exchange_and_activate-Ends c code) λ activated.
        Ends-bind {M = λ _. Completed provider_error before c} _ _
          (Ends-update f.fault _
            (λ d h.
              let (access, refresh, email, name, until, same) = h.0 in
              inr (
                granted,
                access,
                refresh,
                email,
                name,
                until,
                ap (λ x. Keyed.put connection_key x d.repo.connections) same
                    ∙ ap (Keyed.put connection_key (activate access refresh email name until c))
                        h.1,
              ))
            (λ d h. h.1))
          λ _. Ends-pure _ (λ d h. h)

  finish-Ends :
      (c : Connection) (code provider_error : String)
      → Ends
          (SameConnections before)
          (λ _. Completed provider_error before c)
          (SameConnections before)
          (if not (str_eq provider_error "")
            then pure
                (record { redirect_uri = c.redirect_uri; connection_id = c.id; status = "error" })
            else complete_handshake f c code)
  finish-Ends c code provider_error =
      Ends-if (not (str_eq provider_error "")) _ _
        (λ refused. Ends-pure _ (λ d h. inl (ground arith, h)))
        (λ granted. complete_handshake-Ends c code provider_error (ground arith))

-- What a callback does to the stored connections. If it fails, nothing: so a failed token exchange leaves
-- the connection as it was. If it returns, the state it came with was stored, unconsumed, and minted for
-- a connection that is stored; and the stored connections are as before where the provider reported an
-- error, and otherwise differ in that connection alone, which has become ACTIVE.
pub handle_callback-Completed :
    (f : Facade) (code state provider_error : String) (w : World)
    → Post
        (λ out after.
          (c : Connection) × BoundTo state w.store c × Completed provider_error w.store c after)
        (SameConnections w.store)
        (handle_callback f code state provider_error w).0
        (handle_callback f code state provider_error w).1.store
unfolding handle_callback
handle_callback-Completed f code state provider_error w =
    (Ends-bind _ _ (consume_state-Ends f w.store state) λ c. record {
      at = λ v h. widen c h.0 _ _ ((finish-Ends f w.store c code provider_error).at v h.1);
    }).at
      w refl
  where
    widen :
        (c : Connection)
        → BoundTo state w.store c
        → (r : Result CallbackOutcome) (after : Outside)
        → Post (λ _. Completed provider_error w.store c) (SameConnections w.store) r after
        → Post
            (λ out after.
              (c : Connection) × BoundTo state w.store c × Completed provider_error w.store c after)
            (SameConnections w.store)
            r
            after
    widen c b (ok out) after h = (c, b, h)
    widen c b (err e) after h = h
