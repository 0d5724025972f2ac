-- ===== src/Connections/Memory/Claims.antt =====
-- The claims of server/internal/connections/driven/memory/repository.go: what a worker takes, and that
-- two workers never hold one connection at once.
use beecon.Base.{
  ℕ, ◌+◌, ◌<◌, ◌≡◌, ◌≢◌, Bool, true, false, List, [], ◌∷◌, some, arith, All, All-imp, All-take,
  filter-All,
}
use beecon.Base.Keyed
use beecon.Base.Sort.{sort-All}
use beecon.Connections.Types.{Connection}
use beecon.Connections.Memory.{
  Lease, Repository, lease_key, leased_past, is_due_for_refresh_claim, is_due_for_reconcile_claim,
  oldest_first, lease_all, due_batch, claim_due_refresh, claim_due_reconcile,
}

-- The connection is leased until a time.
abbrev LeasedTo : ℕ → ℕ → List Lease → Type 0
LeasedTo until id leases =
    Keyed.find lease_key id leases ≡ some (record { connection = id; until = until })

lease_all-LeasedTo :
    (until id : ℕ) (batch : List Connection) (leases : List Lease)
    → LeasedTo until id leases
    → LeasedTo until id (lease_all until batch leases)
unfolding lease_all
lease_all-LeasedTo until id [] leases h = h
lease_all-LeasedTo until id (c ∷ cs) leases h =
    let lease : Lease = record { connection = c.id; until = until } in
    lease_all-LeasedTo until id cs (Keyed.put lease_key lease leases)
      (ground (arith, h, Keyed.find-put lease_key id lease leases))

lease_all_covers :
    (until : ℕ) (batch : List Connection) (leases : List Lease)
    → All (λ c. LeasedTo until c.id (lease_all until batch leases)) batch
unfolding lease_all
lease_all_covers until [] leases = tt
lease_all_covers until (c ∷ cs) leases =
    let lease : Lease = record { connection = c.id; until = until } in
    (
      lease_all-LeasedTo until c.id cs (Keyed.put lease_key lease leases)
          (ground (arith, Keyed.find-put lease_key c.id lease leases)),
      lease_all_covers until cs (Keyed.put lease_key lease leases),
    )

-- What passes a test that a lease fails is not under that lease.
due_batch-unleased :
    (due : Connection → Bool) (now limit until id : ℕ) (leases : List Lease) (cs : List Connection)
    → ((c : Connection) → due c ≡ true → leased_past now c.id leases ≡ false)
    → now < until
    → LeasedTo until id leases
    → All (λ d. d.id ≢ id) (due_batch due limit cs)
unfolding due_batch leased_past
due_batch-unleased due now limit until id leases cs free soon leased = All-take _ limit _ (
    sort-All oldest_first _ _ (
      All-imp (λ c. due c ≡ true) (λ d. d.id ≢ id)
        (λ d e same. absurd (ground (arith, free d e, leased, same))) _ (filter-All due cs)))

-- Of two refresh claims one after the other, the second hands out none of the connections of the first
-- while the lease of the first has not run out; and so it is for two reconciliation claims.
pub claim_due_refresh-exclusive :
    (now later lead ttl limit limit_later : ℕ) (r : Repository)
    → later < now + ttl
    → let (refreshed, r') = claim_due_refresh now lead ttl limit r in
      let (reconciled, s) = claim_due_reconcile now lead ttl limit r in
      All
        (λ c. All (λ d. d.id ≢ c.id) (claim_due_refresh later lead ttl limit_later r').0)
        refreshed
      × All
          (λ c. All (λ d. d.id ≢ c.id) (claim_due_reconcile later lead ttl limit_later s).0)
          reconciled
unfolding claim_due_refresh claim_due_reconcile is_due_for_refresh_claim is_due_for_reconcile_claim
claim_due_refresh-exclusive now later lead ttl limit limit_later r soon = (
  All-imp _ _
      (λ c leased.
        due_batch-unleased _ later limit_later (now + ttl) c.id _ r.connections
          (λ d e. ground (arith, e)) soon leased)
      _ (lease_all_covers (now + ttl) _ r.refresh_leases),
  All-imp _ _
      (λ c leased.
        due_batch-unleased _ later limit_later (now + ttl) c.id _ r.connections
          (λ d e. ground (arith, e)) soon leased)
      _ (lease_all_covers (now + ttl) _ r.reconcile_leases),
)
