-- ===== src/Delivery/Types.antt =====
-- server/internal/delivery/types.go and errors.go. An id is an opaque token of which the code uses
-- equality, order and emptiness: a number stands for it, 0 for the empty one. A time is a count of
-- nanoseconds.
use beecon.Base.{
  ℕ, String, Bool, true, false, ◌||◌, Option, none, some, List, [], ◌∷◌, str_eq, if◌then◌else◌,
}
use beecon.Httpx.Errors.{Error, Arg, text, number, domain, new, validation_failed}

pub data EndpointStatus : Type 0 where
  enabled disabled disabled_auto : EndpointStatus

-- `event_types` is nil, or the filter.
pub record Endpoint : Type 0 where
  pub id : ℕ
  pub org_id : ℕ
  pub url : String
  pub event_types : Option (List String)
  pub status : EndpointStatus
  pub consecutive_failures : ℕ
  pub created_at : ℕ

abbrev pub status_is_enabled : EndpointStatus → Bool
status_is_enabled enabled = true
status_is_enabled _ = false

unfoldable pub is_enabled : Endpoint → Bool
is_enabled e = status_is_enabled e.status

-- `for _, t := range types { if t == eventType { return true } }; return false`
unfoldable pub names_type : List String → String → Bool
names_type [] event_type = false
names_type (t ∷ ts) event_type = str_eq t event_type || names_type ts event_type

unfoldable pub matches_event_type : Endpoint → String → Bool
matches_event_type e event_type = elim e.event_types [
  | none ↦ true
  | some types ↦ names_type types event_type
]

abbrev pub event_type_trigger_event : String
event_type_trigger_event = "trigger.event"

abbrev pub event_type_connection_expired : String
event_type_connection_expired = "connection.expired"

abbrev pub event_type_webhook_test : String
event_type_webhook_test = "webhook.test"

abbrev pub known_event_types : List String
known_event_types =
    event_type_trigger_event ∷ event_type_connection_expired ∷ event_type_webhook_test ∷ []

unfoldable pub is_known_event_type : String → Bool
unfolding names_type
is_known_event_type = names_type known_event_types

-- errors.go
unfoldable pub err_not_found : Error
unfolding new
err_not_found = domain (new 404 "not_found" "event not found")

unfoldable pub err_validation : String → String → List Arg → Error
unfolding validation_failed
err_validation field issue args = validation_failed field issue args

unfoldable pub err_invalid_cursor : Error
unfolding validation_failed
err_invalid_cursor = validation_failed "cursor" "malformed pagination cursor" []

unfoldable pub err_no_endpoint : Error
unfolding validation_failed
err_no_endpoint = validation_failed "endpoint" "no webhook endpoint is configured" []

unfoldable pub err_endpoint_cap : ℕ → Error
unfolding validation_failed
err_endpoint_cap cap =
    validation_failed "url" "organization already has the maximum of %d webhook endpoints"
      (number cap ∷ [])

-- The loop of ValidateEventTypeFilter: the first unknown type is reported.
unfoldable pub check_types : List String → Option Error
check_types [] = none
check_types (t ∷ ts) =
    if is_known_event_type t
    then check_types ts
    else some (err_validation "eventTypes" "unknown event type %q" (text t ∷ []))

unfoldable pub validate_event_type_filter : Option (List String) → Option Error
unfolding check_types
validate_event_type_filter none = none
validate_event_type_filter (some []) = some (
    err_validation "eventTypes"
      "must name at least one event type, or be omitted to match every type" [])
validate_event_type_filter (some (t ∷ ts)) = check_types (t ∷ ts)

-- What url.Parse finds.
pub record Url : Type 0 where
  pub scheme : String
  pub host : String

abbrev is_http_url : Option Url → Bool
is_http_url none = false
is_http_url (some u) =
    if str_eq u.host "" then false else str_eq u.scheme "http" || str_eq u.scheme "https"

-- `parse` is url.Parse; `none` is its error.
unfoldable pub validate_endpoint_url : (String → Option Url) → String → Option Error
validate_endpoint_url parse raw =
    if is_http_url (parse raw)
    then none
    else some (err_validation "url" "must be an absolute http(s) URL" [])

pub data Status : Type 0 where
  pending delivered failed no_endpoint : Status

abbrev pub status_eq : Status → Status → Bool
status_eq pending pending = true
status_eq delivered delivered = true
status_eq failed failed = true
status_eq no_endpoint no_endpoint = true
status_eq _ _ = false

abbrev pub terminal_statuses : List Status
terminal_statuses = delivered ∷ failed ∷ no_endpoint ∷ []

unfoldable pub names_status : List Status → Status → Bool
names_status [] status = false
names_status (t ∷ ts) status = status_eq status t || names_status ts status

unfoldable pub is_terminal : Status → Bool
unfolding names_status
is_terminal = names_status terminal_statuses

-- `body` holds the bytes of the envelope; an unrouted event has the empty `endpoint_id`.
pub record Event : Type 0 where
  pub id : ℕ
  pub org_id : ℕ
  pub endpoint_id : ℕ
  pub event_type : String
  pub body : List ℕ
  pub status : Status
  pub attempts : ℕ
  pub next_attempt_at : ℕ
  pub last_attempt_at : Option ℕ
  pub created_at : ℕ

-- The JSON text of `data`; nil is written as the empty object.
pub record Envelope : Type 0 where
  pub id : ℕ
  pub event_type : String
  pub created_at : ℕ
  pub content : String

-- `marshal` is json.Marshal of an envelope, whose time is printed as RFC3339Nano in UTC.
unfoldable pub marshal_envelope : {R : Type 0} → (Envelope → R) → ℕ → String → Option String → ℕ → R
marshal_envelope marshal id event_type content now =
    let content' : String = elim content [ none ↦ "{}" | some c ↦ c ] in
    marshal (record { id = id; event_type = event_type; created_at = now; content = content' })
