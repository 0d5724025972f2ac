-- ===== src/Connections/Invariant/Stored.antt =====
-- What holds of each stored connection is kept by the methods of
-- server/internal/connections/driven/memory/repository.go.
use beecon.Base.{ℕ, String, All, All-filter, inl, inr, Option-cases, not, ◌==◌}
use beecon.Base.Keyed
use beecon.Base.Keyed.{find-All, put-All}
use beecon.Connections.Types.{Connection, active, expired}
use beecon.Connections.Memory
use beecon.Connections.Memory.{
  Repository, connection_key, find_by_id, in_org, in_status, update_connection, transition_status,
  find_token, find_by_connect_token, find_connection_for_callback, due_batch, claim_due_refresh,
  claim_due_reconcile, is_due_for_refresh_claim, is_due_for_reconcile_claim, oldest_first,
}
use beecon.Connections.Ports.{Facade, Outside, on_repo, set_repo}
use beecon.Connections.Invariant.{Kept, Steps}
use beecon.Connections.Invariant.Calls.{in_org-IfFound, find-IfFound, in_status-Claimed}

-- Every stored connection.
abbrev pub Stored : (Connection → Type 0) → Outside → Type 0
Stored P o = All P o.repo.connections

module _ (f : Facade) (P : Connection → Type 0) (k : Kept f P) where
  deleted : (org id : ℕ) (o : Outside) → Stored P o → Stored P (set_repo (Memory.delete org id) o)
  unfolding Memory.delete Keyed.remove
  deleted org id o h =
      elim (Option-cases (in_org org (Keyed.find connection_key id o.repo.connections))) [
        | inl e ↦ rw (e, Memory.delete) h
        | inr (c, e) ↦ rw (e, Memory.delete) (All-filter P (λ c. not (c.id == id)) _ h)
      ]

  flipped :
      (org id : ℕ) (o : Outside)
      → Stored P o
      → Stored P (on_repo (transition_status org id active expired) o).1
  unfolding transition_status
  flipped org id o h =
      let stored = in_org org (Keyed.find connection_key id o.repo.connections) in
      elim (Option-cases (in_status active stored)) [
        | inl e ↦ rw (e, transition_status) h
        | inr (c, e) ↦
            let was =
              in_status-Claimed P stored c (in_org-IfFound P org _ (find-IfFound P id _ h)) e in
            rw (e, transition_status) (put-All connection_key P _ _ (k.flipped c was.1 was.0) h)
      ]

  state_consumed :
      (state : String) (at : ℕ) (o : Outside)
      → Stored P o
      → Stored P (set_repo (Memory.mark_state_consumed state at) o)
  unfolding Memory.mark_state_consumed
  state_consumed state at o h = elim (Option-cases (Memory.lookup_state state o.repo.states)) [
    | inl e ↦ rw (e, Memory.mark_state_consumed) h
    | inr (s, e) ↦ rw (e, Memory.mark_state_consumed) h
  ]

  pub Stored-Steps : Steps f (Stored P) P
  unfolding Memory.save update_connection Memory.save_state Memory.claim_due_refresh
      Memory.claim_due_reconcile
  Stored-Steps = record {
    kept = k;
    holds_of_all = λ o h. h;
    saved = λ c o p h. put-All connection_key P c _ p h;
    updated = λ c o p h. put-All connection_key P c _ p h;
    deleted = deleted;
    flipped = flipped;
    state_saved = λ n s o e h. h;
    state_consumed = state_consumed;
    refresh_claimed = λ now lead ttl limit o h. h;
    reconcile_claimed = λ now interval ttl limit o h. h;
    elsewhere = λ o after e h. rw e h;
  }
