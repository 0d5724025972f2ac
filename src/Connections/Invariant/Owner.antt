-- ===== src/Connections/Invariant/Owner.antt =====
-- Whom a connection of server/internal/connections belongs to never changes.
use beecon.Base.{ℕ, ◌≡◌, ◌≢◌, List, All}
use beecon.Connections.Types.{
  Connection, new_connection, activate, with_params, disable, refresh_tokens, mark_reconciled,
  prepare_reconnect,
}
use beecon.Connections.Ports.{Facade, World}
use beecon.Connections.History.{Operation, serve_all}
use beecon.Connections.Invariant.{Kept}
use beecon.Connections.Invariant.Stored.{Stored, Stored-Steps}
use beecon.Connections.Invariant.Operations.{serve_all-holds}

-- A connection with the id of `own` is its owner's, and opens the same integration.
abbrev pub SameOwner : Connection → Connection → Type 0
SameOwner own c =
    c.id ≡ own.id
    → (c.org_id ≡ own.org_id)
      × (c.user_id ≡ own.user_id)
      × (c.integration_id ≡ own.integration_id)
      × (c.provider_slug ≡ own.provider_slug)
      × (c.created_at ≡ own.created_at)

SameOwner-Kept :
    (f : Facade) (own : Connection) → ((n : ℕ) → f.new_id n ≢ own.id) → Kept f (SameOwner own)
unfolding new_connection activate with_params disable refresh_tokens mark_reconciled
    prepare_reconnect
SameOwner-Kept f own fresh = record {
  created = λ n org user integration slug uri token now e. absurd (fresh n e);
  activated = λ access refresh email name until c p. p;
  collected = λ params c p. p;
  disabled = λ c p. p;
  refreshed = λ access refresh until c live p. p;
  reconciled = λ now c p. p;
  prepared = λ token uri until c may p. p;
  flipped = λ c live p. p;
}

-- After any history of requests, callbacks, refreshes and reconciliations, whichever port calls failed
-- on the way, every stored connection with a given id has the organization, the user, the integration,
-- the provider and the creation time that it had before, provided that the id minter does not mint that
-- id again.
pub serve_all-SameOwner :
    (f : Facade) (own : Connection) (rs : List Operation) (w : World)
    → ((n : ℕ) → f.new_id n ≢ own.id)
    → All (SameOwner own) w.store.repo.connections
    → All (SameOwner own) (serve_all f rs w).store.repo.connections
serve_all-SameOwner f own rs w fresh h =
    serve_all-holds f (Stored (SameOwner own)) (SameOwner own)
      (Stored-Steps f (SameOwner own) (SameOwner-Kept f own fresh)) rs w h
