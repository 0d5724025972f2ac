-- ===== src/Connections/Invariant/SingleUse.antt =====
-- The OAuth state of server/internal/connections/oauth.go is used once.
use beecon.Base.{
  ℕ, suc, ◌≡◌, ◌≢◌, refl, String, true, false, not, some, List, arith, ap, sym, str_eq, eq_iff,
  Option-cases, Bool-cases, inl, inr, if◌then◌else◌, All-intro, ◌∙◌,
}
use beecon.Base.Keyed
use beecon.Base.Effects.{ok, is_ok, pure, ◌>>=◌, check, or_fail}
use beecon.Base.Effects.Ports.{read, call, query, update}
use beecon.Base.Effects.Gives.{
  Preserves, On, Anything, Gives-pure, Gives-if, Gives-bind, Gives-then,
}
use beecon.Base.Effects.Returns.{bind-ok}
use beecon.Connections.Types.{Connection, OauthState, active, expired, is_consumed}
use beecon.Connections.Memory
use beecon.Connections.Memory.{
  Repository, connection_key, lookup_state, store_state, save_state, mark_state_consumed, in_org,
  in_status, transition_status, update_connection,
}
use beecon.Connections.Memory.States.{lookup-store, lookup-state}
use beecon.Connections.Ports.{Facade, Outside, World, on_repo, set_repo}
use beecon.Connections.Handshake.{
  CallbackOutcome, consume_state, complete_handshake, handle_callback,
}
use beecon.Connections.History.{Operation, serve_all}
use beecon.Connections.Invariant.{Steps}
use beecon.Connections.Invariant.Calls.{update_connection-Preserves}
use beecon.Connections.Invariant.Handshake.{exchange_and_activate-Gives}
use beecon.Connections.Invariant.Operations.{serve_all-holds}

-- The state is stored, and has been consumed.
pub record Spent (state : String) (o : Outside) : Type 0 where
  pub entry : OauthState
  pub found : lookup_state state o.repo.states ≡ some entry
  pub consumed : is_consumed entry ≡ true

module _ (f : Facade) (state : String) where
  same_states :
      (o after : Outside) → after.repo.states ≡ o.repo.states → Spent state o → Spent state after
  same_states o after e h = record {
    entry = h.entry;
    found = ap (lookup_state state) e ∙ h.found;
    consumed = h.consumed;
  }

  -- A write under another key, or of a consumed state.
  stored_lem :
      (s : OauthState) (o : Outside)
      → (str_eq s.state state ≡ true → is_consumed s ≡ true)
      → Spent state o
      → Spent state (set_repo (λ r. record r { states = store_state s r.states }) o)
  stored_lem s o k h = elim (Bool-cases (str_eq s.state state)) [
    | inl e ↦ record {
      entry = s;
      found = ground (arith, e, lookup-store state s o.repo.states);
      consumed = k e;
    }
    | inr e ↦ record {
      entry = h.entry;
      found = ground (arith, e, h.found, lookup-store state s o.repo.states);
      consumed = h.consumed;
    }
  ]

  state_consumed :
      (key : String) (at : ℕ) (o : Outside)
      → Spent state o
      → Spent state (set_repo (mark_state_consumed key at) o)
  unfolding mark_state_consumed is_consumed
  state_consumed key at o h = elim (Option-cases (lookup_state key o.repo.states)) [
    | inl e ↦ rw (e, mark_state_consumed) h
    | inr (s, e) ↦
        rw (e, mark_state_consumed)
          (stored_lem (record s { consumed_at = some at }) o (λ _. refl) h)
  ]

  deleted :
      (org id : ℕ) (o : Outside) → Spent state o → Spent state (set_repo (Memory.delete org id) o)
  unfolding Memory.delete
  deleted org id o h =
      elim (Option-cases (in_org org (Keyed.find connection_key id o.repo.connections))) [
        | inl e ↦ rw (e, Memory.delete) h
        | inr (c, e) ↦ rw (e, Memory.delete) (same_states o _ refl h)
      ]

  flipped :
      (org id : ℕ) (o : Outside)
      → Spent state o
      → Spent state (on_repo (transition_status org id active expired) o).1
  unfolding transition_status
  flipped org id o h =
      elim (Option-cases
        (in_status active (in_org org (Keyed.find connection_key id o.repo.connections)))) [
          | inl e ↦ rw (e, transition_status) h
          | inr (c, e) ↦ rw (e, transition_status) (same_states o _ refl h)
        ]

  Spent-Steps : ((n : ℕ) → f.new_state n ≢ state) → Steps f (Spent state) (λ _. Unit)
  unfolding Memory.save update_connection save_state Memory.claim_due_refresh
      Memory.claim_due_reconcile
  Spent-Steps fresh = record {
    kept = record {
      created = λ n org user integration slug uri token now. tt;
      activated = λ access refresh email name until c p. tt;
      collected = λ params c p. tt;
      disabled = λ c p. tt;
      refreshed = λ access refresh until c live p. tt;
      reconciled = λ now c p. tt;
      prepared = λ token uri until c may p. tt;
      flipped = λ c live p. tt;
    };
    holds_of_all = λ o h. All-intro (λ c. Unit) (λ c. tt) o.repo.connections;
    saved = λ c o p h. same_states o _ refl h;
    updated = λ c o p h. same_states o _ refl h;
    deleted = deleted;
    flipped = flipped;
    state_saved =
        λ n s o e h. stored_lem s o (λ q. absurd (fresh n (sym e ∙ (eq_iff s.state state).0 q))) h;
    state_consumed = state_consumed;
    refresh_claimed = λ now lead ttl limit o h. same_states o _ refl h;
    reconcile_claimed = λ now interval ttl limit o h. same_states o _ refl h;
    elsewhere = λ o after e h. same_states o after (ap (λ r. r.states) e) h;
  }

  consume_state-Spent :
      (w : World) (c : Connection)
      → (consume_state f state w).0 ≡ ok c
      → Spent state (consume_state f state w).1.store
  unfolding consume_state ◌>>=◌ check query call read update or_fail mark_state_consumed
      Memory.find_state is_consumed
  consume_state-Spent w c e = elim (Option-cases (lookup_state state w.store.repo.states)) [
    | inl n ↦ absurd (ground (arith, n))
    | inr (s, n) ↦
        let hit = lookup-state state s w.store.repo.states n in
        record {
          entry = record s { consumed_at = some (f.now (suc (suc w.tick))) };
          found = ground (
            arith,
            n,
            hit,
            lookup-store state (record s { consumed_at = some (f.now (suc (suc w.tick))) })
                w.store.repo.states,
          );
          consumed = refl;
        }
  ]

  -- A callback with a spent state is refused, and changes nothing.
  handle_callback-refused :
      (code provider_error : String) (w : World)
      → Spent state w.store
      → (is_ok (handle_callback f code state provider_error w).0 ≡ false)
        × ((handle_callback f code state provider_error w).1.store ≡ w.store)
  unfolding handle_callback consume_state ◌>>=◌ check query call read update or_fail
      Memory.find_state
  handle_callback-refused code provider_error w h =
      (ground (arith, h.found, h.consumed), ground (arith, h.found, h.consumed))

  complete_handshake-Spent :
      ((n : ℕ) → f.new_state n ≢ state)
      → (code provider_error : String) (c : Connection)
      → Preserves (On (Spent state)) (
          if not (str_eq provider_error "")
          then pure
              (record { redirect_uri = c.redirect_uri; connection_id = c.id; status = "error" })
          else complete_handshake f c code)
  unfolding complete_handshake
  complete_handshake-Spent fresh code provider_error c =
      let st = Spent-Steps fresh in
      Gives-if Anything (not (str_eq provider_error "")) _ _ (λ _. Gives-pure Anything _ tt)
        λ _.
          Gives-bind _ _ (exchange_and_activate-Gives f (Spent state) (λ _. Unit) st c code tt)
            λ activated q.
              Gives-then _ _
                (update_connection-Preserves f (Spent state) (λ _. Unit) st activated q)
                λ _. Gives-pure Anything _ tt

  handle_callback-Spent :
      ((n : ℕ) → f.new_state n ≢ state)
      → (code provider_error : String) (w : World) (out : CallbackOutcome)
      → (handle_callback f code state provider_error w).0 ≡ ok out
      → Spent state (handle_callback f code state provider_error w).1.store
  unfolding handle_callback
  handle_callback-Spent fresh code provider_error w out e =
      let (c, consumed, rest) = bind-ok (consume_state f state) _ w out e in
      rw rest
        ((complete_handshake-Spent fresh code provider_error c).at (consume_state f state w).1
          (record { holds = consume_state-Spent w c consumed })).0.holds

-- Once a callback with an OAuth state has succeeded, every later callback with that state is refused and
-- changes nothing stored, whatever requests, callbacks, refreshes and reconciliations came in between and
-- whichever of their port calls failed, provided that the minter of states does not mint that one again.
pub handle_callback-once :
    (f : Facade) (state code provider_error : String) (w : World) (out : CallbackOutcome)
    (rs : List Operation) (code_again error_again : String)
    → ((n : ℕ) → f.new_state n ≢ state)
    → (handle_callback f code state provider_error w).0 ≡ ok out
    → let later = serve_all f rs (handle_callback f code state provider_error w).1 in
      (is_ok (handle_callback f code_again state error_again later).0 ≡ false)
      × ((handle_callback f code_again state error_again later).1.store ≡ later.store)
handle_callback-once f state code provider_error w out rs code_again error_again fresh e =
    handle_callback-refused f state code_again error_again _ (
      serve_all-holds f (Spent state) (λ _. Unit) (Spent-Steps f state fresh) rs _
        (handle_callback-Spent f state fresh code provider_error w out e))
