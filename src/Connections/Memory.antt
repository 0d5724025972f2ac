-- ===== src/Connections/Memory.antt =====
-- server/internal/connections/driven/memory/repository.go: the Repository, OAuthRepository,
-- RefreshQueue and StatusCounter of the connections module. Its maps are lists whose keys are distinct;
-- Go's order of iteration over a map is left open, and here it is the order of the list. The mutex
-- makes each method one step.
pub mod States
pub mod Claims
use beecon.Base.{
  ℕ, ◌+◌, ◌-◌, String, Bool, true, false, not, ◌&&◌, ◌||◌, Option, none, some, List, [], ◌∷◌, map,
  length, take, filter, count, ltb, leb, ◌==◌, str_eq, if◌then◌else◌,
}
use beecon.Base.Keyed
use beecon.Base.Sort.{sort}
use beecon.Connections.Types.{Status, active, Connection, OauthState, status_eq}

-- An entry of refreshLeaseUntil or reconcileLeaseUntil.
pub record Lease : Type 0 where
  pub connection : ℕ
  pub until : ℕ

pub record Repository : Type 0 where
  pub connections : List Connection
  pub states : List OauthState
  pub refresh_leases : List Lease
  pub reconcile_leases : List Lease

abbrev pub connection_key : Connection → ℕ
connection_key c = c.id

abbrev pub lease_key : Lease → ℕ
lease_key l = l.connection

unfoldable pub new_repository : Repository
new_repository = record {
  connections = [];
  states = [];
  refresh_leases = [];
  reconcile_leases = [];
}

unfoldable pub save : Connection → Repository → Repository
save c r = record r { connections = Keyed.put connection_key c r.connections }

abbrev pub in_org : ℕ → Option Connection → Option Connection
in_org org none = none
in_org org (some c) = if c.org_id == org then some c else none

unfoldable pub find_by_id : ℕ → ℕ → Repository → Option Connection
find_by_id org id r = in_org org (Keyed.find connection_key id r.connections)

unfoldable pub update_connection : Connection → Repository → Repository
update_connection c r = record r {
  connections = Keyed.put connection_key c r.connections;
  refresh_leases = Keyed.remove lease_key c.id r.refresh_leases;
  reconcile_leases = Keyed.remove lease_key c.id r.reconcile_leases;
}

abbrev pub in_status : Status → Option Connection → Option Connection
in_status status none = none
in_status status (some c) = if status_eq c.status status then some c else none

-- Whether the flip was made comes back beside the repository.
unfoldable pub transition_status : ℕ → ℕ → Status → Status → Repository → Bool × Repository
unfolding status_eq
transition_status org id from to r =
    elim (in_status from (in_org org (Keyed.find connection_key id r.connections))) [
      | none ↦ (false, r)
      | some c ↦ (
        true,
        record r {
          connections = Keyed.put connection_key (record c { status = to }) r.connections;
        },
      )
    ]

-- `lease, leased := m[id]; leased && lease.After(now)`
unfoldable pub leased_past : ℕ → ℕ → List Lease → Bool
leased_past now id leases = elim (Keyed.find lease_key id leases) [
  | none ↦ false
  | some l ↦ ltb now l.until
]

-- `t != nil && t.After(bound)`
abbrev pub after : ℕ → Option ℕ → Bool
after bound none = false
after bound (some t) = ltb bound t

unfoldable pub is_due_for_refresh_claim : ℕ → ℕ → List Lease → Connection → Bool
unfolding status_eq leased_past
is_due_for_refresh_claim now lead leases c =
    status_eq c.status active
    && not (after (now + lead) c.token_expires_at)
    && not (leased_past now c.id leases)

unfoldable pub is_due_for_reconcile_claim : ℕ → ℕ → List Lease → Connection → Bool
unfolding status_eq leased_past
is_due_for_reconcile_claim now interval leases c =
    status_eq c.status active
    && not (after (now - interval) c.reconciled_at)
    && not (leased_past now c.id leases)

unfoldable pub oldest_first : Connection → Connection → Bool
oldest_first a b =
    if a.created_at == b.created_at then ltb a.id b.id else ltb a.created_at b.created_at

-- `m[connection.ID] = leaseUntil` for each claimed connection.
unfoldable pub lease_all : ℕ → List Connection → List Lease → List Lease
lease_all until [] leases = leases
lease_all until (c ∷ cs) leases =
    lease_all until cs (Keyed.put lease_key (record { connection = c.id; until = until }) leases)

-- The batch of a claim: what is due, oldest first, cut to the limit.
unfoldable pub due_batch : (Connection → Bool) → ℕ → List Connection → List Connection
due_batch due limit cs = take limit (sort oldest_first (filter due cs))

unfoldable pub claim_due_refresh : ℕ → ℕ → ℕ → ℕ → Repository → List Connection × Repository
unfolding due_batch is_due_for_refresh_claim lease_all
claim_due_refresh now lead lease_ttl limit r =
    let batch =
      due_batch (is_due_for_refresh_claim now lead r.refresh_leases) limit r.connections in
    (batch, record r { refresh_leases = lease_all (now + lease_ttl) batch r.refresh_leases })

unfoldable pub claim_due_reconcile : ℕ → ℕ → ℕ → ℕ → Repository → List Connection × Repository
unfolding due_batch is_due_for_reconcile_claim lease_all
claim_due_reconcile now interval lease_ttl limit r =
    let batch =
      due_batch (is_due_for_reconcile_claim now interval r.reconcile_leases) limit r.connections in
    (batch, record r { reconcile_leases = lease_all (now + lease_ttl) batch r.reconcile_leases })

abbrev pub find_token : String → List Connection → Option Connection
find_token token [] = none
find_token token (c ∷ cs) = if str_eq c.connect_token token then some c else find_token token cs

unfoldable pub find_by_connect_token : String → Repository → Option Connection
find_by_connect_token token r = find_token token r.connections

unfoldable pub find_connection_for_callback : ℕ → Repository → Option Connection
find_connection_for_callback id r = Keyed.find connection_key id r.connections

-- The map of states has texts as its keys.
unfoldable pub lookup_state : String → List OauthState → Option OauthState
lookup_state state [] = none
lookup_state state (s ∷ ss) = if str_eq s.state state then some s else lookup_state state ss

unfoldable pub store_state : OauthState → List OauthState → List OauthState
store_state s [] = s ∷ []
store_state s (t ∷ ts) = if str_eq t.state s.state then s ∷ ts else t ∷ store_state s ts

unfoldable pub save_state : OauthState → Repository → Repository
unfolding store_state
save_state s r = record r { states = store_state s r.states }

unfoldable pub find_state : String → Repository → Option OauthState
unfolding lookup_state
find_state state r = lookup_state state r.states

unfoldable pub mark_state_consumed : String → ℕ → Repository → Repository
unfolding lookup_state store_state
mark_state_consumed state at r = elim (lookup_state state r.states) [
  | none ↦ r
  | some s ↦ record r { states = store_state (record s { consumed_at = some at }) r.states }
]

pub record ListCursor : Type 0 where
  pub created_at : ℕ
  pub id : ℕ

-- `user_id` is none for the empty id, which lists every user.
pub record ListFilter : Type 0 where
  pub user_id : Option ℕ
  pub cursor : Option ListCursor
  pub limit : ℕ

unfoldable pub is_after_cursor : Connection → ListCursor → Bool
is_after_cursor c cursor =
    if ltb c.created_at cursor.created_at
    then true
    else if c.created_at == cursor.created_at
    then ltb c.id cursor.id
    else false

abbrev pub passes : {A : Type 0} → (A → Bool) → Option A → Bool
passes p none = true
passes p (some a) = p a

unfoldable pub matches_list_filter : ℕ → ListFilter → Connection → Bool
unfolding is_after_cursor
matches_list_filter org f c =
    (c.org_id == org)
    && passes (λ user. c.user_id == user) f.user_id
    && passes (is_after_cursor c) f.cursor

unfoldable pub newest_first : Connection → Connection → Bool
newest_first a b =
    if a.created_at == b.created_at then ltb b.id a.id else ltb b.created_at a.created_at

-- `limit > 0 && len(matches) > limit`, where the slice is cut.
abbrev pub cut_to : {A : Type 0} → ℕ → List A → List A
cut_to limit xs = if ltb 0 limit && ltb limit (length xs) then take limit xs else xs

unfoldable pub list_connections : ℕ → ListFilter → Repository → List Connection
unfolding matches_list_filter newest_first
list_connections org f r =
    cut_to f.limit (sort newest_first (filter (matches_list_filter org f) r.connections))

unfoldable pub delete : ℕ → ℕ → Repository → Repository
delete org id r = elim (in_org org (Keyed.find connection_key id r.connections)) [
  | none ↦ r
  | some _ ↦ record r { connections = Keyed.remove connection_key id r.connections }
]

unfoldable pub count_by_status : Status → Repository → ℕ
unfolding status_eq
count_by_status status r = count (λ c. status_eq c.status status) r.connections
