-- ===== src/Connections/Invariant.antt =====
-- What every operation of server/internal/connections keeps true: of each stored connection, whatever
-- the changes that types.go makes to a connection keep true of it; of what is stored as a whole,
-- whatever the methods of the repository keep true of it.
pub mod Calls
pub mod Requests
pub mod Handshake
pub mod Refresh
pub mod Operations
pub mod Stored
pub mod SingleUse
pub mod Owner
pub mod Lifecycle
use beecon.Base.{ℕ, ◌≡◌, String, true, All, none}
use beecon.Connections.Types.{
  Connection, OauthState, active, expired, new_connection, activate, with_params, disable,
  refresh_tokens, mark_reconciled, can_reconnect, prepare_reconnect,
}
use beecon.Connections.Memory
use beecon.Connections.Memory.{
  update_connection, transition_status, save_state, mark_state_consumed, claim_due_refresh,
  claim_due_reconcile,
}
use beecon.Connections.Ports.{Facade, Outside, on_repo, set_repo}

pub record Kept (f : Facade) (P : Connection → Type 0) : Type 0 where
  pub created :
      (n org user integration : ℕ) (slug uri token : String) (now : ℕ)
      → P (new_connection (f.new_id n) org user integration slug uri token now)
  pub activated :
      (access refresh email name : String) (until : ℕ) (c : Connection)
      → P c
      → P (activate access refresh email name until c)
  pub collected : (params : String) (c : Connection) → P c → P (with_params params c)
  pub disabled : (c : Connection) → P c → P (disable c)
  pub refreshed :
      (access refresh : String) (until : ℕ) (c : Connection)
      → c.status ≡ active
      → P c
      → P (refresh_tokens access refresh until c)
  pub reconciled : (now : ℕ) (c : Connection) → P c → P (mark_reconciled now c)
  pub prepared :
      (token uri : String) (until : ℕ) (c : Connection)
      → can_reconnect c ≡ true
      → P c
      → P (prepare_reconnect token uri until c)
  pub flipped : (c : Connection) → c.status ≡ active → P c → P (record c { status = expired })

-- `E` of what is stored, and `P` of each connection in it.
pub record Steps (f : Facade) (E : Outside → Type 0) (P : Connection → Type 0) : Type 0 where
  pub kept : Kept f P
  pub holds_of_all : (o : Outside) → E o → All P o.repo.connections
  pub saved : (c : Connection) (o : Outside) → P c → E o → E (set_repo (Memory.save c) o)
  pub updated : (c : Connection) (o : Outside) → P c → E o → E (set_repo (update_connection c) o)
  pub deleted : (org id : ℕ) (o : Outside) → E o → E (set_repo (Memory.delete org id) o)
  pub flipped :
      (org id : ℕ) (o : Outside) → E o → E (on_repo (transition_status org id active expired) o).1
  pub state_saved :
      (n : ℕ) (s : OauthState) (o : Outside)
      → s.state ≡ f.new_state n
      → E o
      → E (set_repo (save_state s) o)
  pub state_consumed :
      (state : String) (at : ℕ) (o : Outside) → E o → E (set_repo (mark_state_consumed state at) o)
  pub refresh_claimed :
      (now lead ttl limit : ℕ) (o : Outside)
      → E o
      → E (on_repo (claim_due_refresh now lead ttl limit) o).1
  pub reconcile_claimed :
      (now interval ttl limit : ℕ) (o : Outside)
      → E o
      → E (on_repo (claim_due_reconcile now interval ttl limit) o).1
  -- The events, the log and the rest: only the repository counts.
  pub elsewhere : (o after : Outside) → after.repo ≡ o.repo → E o → E after
