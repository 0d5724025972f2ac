-- ===== src/Connections/Invariant/Lifecycle.antt =====
-- What the status of a connection of server/internal/connections says of its tokens.
use beecon.Base.{ℕ, ◌≡◌, String, true, false, none, is_some, List, All, arith, refl, subst}
use beecon.Connections.Types.{
  Status, initiated, active, expired, disconnected, Connection, new_connection, activate,
  with_params, disable, refresh_tokens, mark_reconciled, can_reconnect, prepare_reconnect,
  status_eq,
}
use beecon.Connections.Ports.{Facade, World}
use beecon.Connections.History.{Operation, serve_all}
use beecon.Connections.Invariant.{Kept}
use beecon.Connections.Invariant.Stored.{Stored, Stored-Steps}
use beecon.Connections.Invariant.Operations.{serve_all-holds}

-- What a connection must have in each status.
abbrev pub TokensFit : Status → Connection → Type 0
TokensFit initiated c =
    (c.encrypted_access_token ≡ "")
    × (c.encrypted_refresh_token ≡ "")
    × (c.token_expires_at ≡ none)
    × (c.connect_token_used ≡ false)
TokensFit active c = is_some c.token_expires_at ≡ true
TokensFit expired c = is_some c.token_expires_at ≡ true
TokensFit disconnected c = Unit

-- An INITIATED connection holds no tokens, and its connect link is unused; an ACTIVE or EXPIRED one has
-- the expiry of an access token.
abbrev pub IsWellFormed : Connection → Type 0
IsWellFormed c = TokensFit c.status c

-- A change of nothing that a status looks at.
same_tokens :
    (s : Status) (c d : Connection)
    → c.encrypted_access_token ≡ d.encrypted_access_token
    → c.encrypted_refresh_token ≡ d.encrypted_refresh_token
    → c.token_expires_at ≡ d.token_expires_at
    → c.connect_token_used ≡ d.connect_token_used
    → TokensFit s c
    → TokensFit s d
same_tokens initiated c d a r t u h = ground arith
same_tokens active c d a r t u h = ground arith
same_tokens expired c d a r t u h = ground arith
same_tokens disconnected c d a r t u h = tt

-- A new connect link for a connection that has left INITIATED.
prepared_fit :
    (token uri : String) (until : ℕ) (s : Status) (c : Connection)
    → s ≡ c.status
    → can_reconnect c ≡ true
    → TokensFit s c
    → TokensFit s (prepare_reconnect token uri until c)
unfolding prepare_reconnect can_reconnect status_eq
prepared_fit token uri until initiated c e may h = absurd (ground arith)
prepared_fit token uri until active c e may h = h
prepared_fit token uri until expired c e may h = h
prepared_fit token uri until disconnected c e may h = tt

IsWellFormed-Kept : (f : Facade) → Kept f IsWellFormed
unfolding new_connection activate with_params disable refresh_tokens mark_reconciled
    prepare_reconnect
IsWellFormed-Kept f = record {
  created = λ n org user integration slug uri token now. (refl, refl, refl, refl);
  activated = λ access refresh email name until c p. refl;
  collected = λ params c p. same_tokens c.status c _ refl refl refl refl p;
  disabled = λ c p. tt;
  refreshed = λ access refresh until c live p. rw live refl;
  reconciled = λ now c p. same_tokens c.status c _ refl refl refl refl p;
  prepared = λ token uri until c may p. prepared_fit token uri until c.status c refl may p;
  flipped = λ c live p. subst (λ s. TokensFit s c) live p;
}

-- After any history of requests, callbacks, refreshes and reconciliations, whichever port calls failed
-- on the way, every stored connection is well formed if the stored ones were before: an INITIATED one
-- holds no tokens and its connect link is unused, and an ACTIVE or EXPIRED one has the expiry of an
-- access token.
pub serve_all-IsWellFormed :
    (f : Facade) (rs : List Operation) (w : World)
    → All IsWellFormed w.store.repo.connections
    → All IsWellFormed (serve_all f rs w).store.repo.connections
serve_all-IsWellFormed f rs w h =
    serve_all-holds f (Stored IsWellFormed) IsWellFormed
      (Stored-Steps f IsWellFormed (IsWellFormed-Kept f)) rs w h
