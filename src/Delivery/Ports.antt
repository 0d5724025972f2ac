-- ===== src/Delivery/Ports.antt =====
-- server/internal/delivery/port.go and the Facade struct of facade.go. What the facade reaches
-- through a port is a function of the number of port calls made so far, `tick`: so a clock may
-- advance between two reads, an id source gives a new id at each call, and any call may fail.
pub mod Frames
pub mod EventFrames
use beecon.Base.{ℕ, suc, ◌+◌, String, Bool, true, false, Option, none, some, List, [], ◌∷◌, ◌++◌}
use beecon.Base.Effects.{Result, ok, err, Exec, pure, lift, gets, modify, ◌>>=◌, ◌>>◌}
use beecon.Httpx.Errors.{Error, external}
use beecon.Delivery.Types.{Endpoint, Event, Envelope, Url}
use beecon.Delivery.Signing.{Crypto, SignedHeaders}
use beecon.Delivery.Memory
use beecon.Delivery.Memory.{Repository, ListFilter}

-- access.IssuedWebhookSecret and access.RotateWebhookSecretResult, as far as delivery reads them.
pub record IssuedSecret : Type 0 where
  pub secret : String

pub record RotatedSecret : Type 0 where
  pub secret : String
  pub prefix : String
  pub overlap_expires_at : ℕ

-- The arguments are the tick, the organization and the endpoint.
pub record SecretIssuer : Type 0 where
  pub issue : ℕ → ℕ → ℕ → Result IssuedSecret
  pub rotate : ℕ → ℕ → ℕ → Option ℕ → Result RotatedSecret
  pub active : ℕ → ℕ → ℕ → Result (List String)
  pub prefix : ℕ → ℕ → ℕ → Result String

-- What EndpointCaller.Post is given, and what it returns: a status and an error.
pub record Post : Type 0 where
  pub url : String
  pub headers : SignedHeaders
  pub body : List ℕ

pub record Reply : Type 0 where
  pub status : ℕ
  pub error : Option Error

pub record RetentionReader : Type 0 where
  pub list_org_ids : ℕ → Result (List ℕ)
  pub effective_event_retention_days : ℕ → ℕ → Result ℕ

pub record LogEntry : Type 0 where
  pub org_id : ℕ
  pub event_id : ℕ
  pub event_type : String
  pub attempt : ℕ
  pub status : ℕ
  pub duration_ms : ℕ

-- `fault` says which calls of the repository, the work queue and the recorder fail, and with what.
-- A nil recorder or metrics registry is `false`.
pub record Facade : Type 0 where
  pub now : ℕ → ℕ
  pub fault : ℕ → Option ℕ
  pub new_endpoint_id : ℕ → ℕ
  pub new_event_id : ℕ → ℕ
  pub jitter : ℕ → ℕ
  pub secrets : SecretIssuer
  pub post : ℕ → Post → Reply
  pub recorder : Bool
  pub metrics : Bool
  pub retention : Option RetentionReader
  pub delivery_timeout : ℕ
  pub endpoint_cap : ℕ
  pub auto_disable_threshold : ℕ
  pub parse_url : String → Option Url
  pub marshal : Envelope → Result (List ℕ)
  pub crypto : Crypto

-- What the calls leave behind: the repository, the wakes of the dispatcher loop, the attempt log, the
-- attempts counted in metrics (by event type and success), and the requests sent.
pub record World : Type 0 where
  pub repo : Repository
  pub tick : ℕ
  pub nudges : ℕ
  pub log : List LogEntry
  pub counted : List (String × Bool)
  pub posts : List Post

abbrev advance : World → World
advance w = record w { tick = suc w.tick }

-- A value that depends on the tick alone: a clock read, a minted id, a jitter.
unfoldable pub read : {A : Type 0} → (ℕ → A) → Exec World A
read f w = (ok (f w.tick), advance w)

unfoldable pub ask : {A : Type 0} → (ℕ → Result A) → Exec World A
ask f w = (f w.tick, advance w)

abbrev faulty : {A : Type 0} → Option ℕ → A × World → World → Result A × World
faulty none (a, w') w = (ok a, w')
faulty (some e) r w = (err (external e), w)

-- A call that fails has changed nothing.
unfoldable pub call : {A : Type 0} → Facade → (World → A × World) → Exec World A
call f m w = faulty (f.fault w.tick) (m (advance w)) (advance w)

abbrev pub on_repo : {A : Type 0} → (Repository → A × Repository) → World → A × World
on_repo m w = let (a, r) = m w.repo in (a, record w { repo = r })

unfoldable pub save_endpoint : Facade → Endpoint → Exec World (Unit {0})
save_endpoint f e = call f (on_repo (λ r. (tt, Memory.save_endpoint e r)))

unfoldable pub find_endpoint : Facade → ℕ → Exec World (Option Endpoint)
find_endpoint f org = call f (on_repo (λ r. (Memory.find_endpoint org r, r)))

unfoldable pub find_endpoint_by_id : Facade → ℕ → ℕ → Exec World (Option Endpoint)
find_endpoint_by_id f org id = call f (on_repo (λ r. (Memory.find_endpoint_by_id org id r, r)))

unfoldable pub list_endpoints : Facade → ℕ → Exec World (List Endpoint)
list_endpoints f org = call f (on_repo (λ r. (Memory.list_endpoints org r, r)))

unfoldable pub delete_endpoint : Facade → ℕ → ℕ → Exec World (Unit {0})
delete_endpoint f org id = call f (on_repo (λ r. (tt, Memory.delete_endpoint org id r)))

unfoldable pub save_event : Facade → Event → Exec World (Unit {0})
save_event f e = call f (on_repo (λ r. (tt, Memory.save_event e r)))

unfoldable pub find_event : Facade → ℕ → ℕ → Exec World (Option Event)
find_event f org id = call f (on_repo (λ r. (Memory.find_event org id r, r)))

unfoldable pub list_events_page : Facade → ℕ → ListFilter → Exec World (List Event)
list_events_page f org filter = call f (on_repo (λ r. (Memory.list_events_page org filter r, r)))

unfoldable pub purge_terminal_older_than : Facade → ℕ → ℕ → Exec World ℕ
purge_terminal_older_than f org cutoff =
    call f (on_repo (Memory.purge_terminal_older_than org cutoff))

unfoldable pub claim_due : Facade → ℕ → ℕ → ℕ → Exec World (List Event)
claim_due f now lease_ttl limit = call f (on_repo (Memory.claim_due now lease_ttl limit))

-- The request is sent whatever comes back.
unfoldable pub send : Facade → Post → Exec World Reply
send f p w = (ok (f.post w.tick p), record (advance w) { posts = w.posts ++ p ∷ [] })

unfoldable pub nudge : Exec World (Unit {0})
nudge w = (ok tt, record w { nudges = suc w.nudges })

unfoldable pub record_log : Facade → LogEntry → Exec World (Unit {0})
record_log f e = call f (λ w. (tt, record w { log = w.log ++ e ∷ [] }))
