-- ===== src/Access/Keys.antt =====
-- server/internal/access/types.go and secret.go, and the repositories driven/memory/repository.go,
-- signing_secret_repository.go and webhook_secret_repository.go, whose maps are lists with distinct
-- keys. A secret is its bytes.
use Prim.Native.String.{◌∷◌ as cons_text, [] as no_text}
use Prim.Native.Char.{code}
use beecon.Base.{
  ℕ, zero, suc, String, Bool, true, false, not, ◌&&◌, ◌||◌, Option, none, some, is_some, List, [],
  ◌∷◌, length, take, filter, ltb, leb, ◌==◌, str_eq, if◌then◌else◌,
}
use beecon.Base.Keyed
use beecon.Base.Sort.{sort}
use beecon.Base.Effects.{Result, ok, err}
use beecon.Access.Errors.{err_validation}
use beecon.Access.Operators.{bytes_equal}

pub data Scope : Type 0 where
  read_only read_write : Scope

unfoldable pub is_read_only : Scope → Bool
is_read_only read_only = true
is_read_only read_write = false

unfoldable pub parse_scope : String → Result Scope
parse_scope raw =
    if str_eq raw "" || str_eq raw "read-write"
    then ok read_write
    else if str_eq raw "read-only"
    then ok read_only
    else err (err_validation "scope" "must be \"read-only\" or \"read-write\"" [])

pub record ServerApiKey : Type 0 where
  pub id : ℕ
  pub org_id : ℕ
  pub scope : Scope
  pub created_at : ℕ
  pub revoked_at : Option ℕ

pub record ApiKeySecret : Type 0 where
  pub id : ℕ
  pub key_id : ℕ
  pub lookup_prefix : List ℕ
  pub secret_hash : List ℕ
  pub created_at : ℕ
  pub expires_at : Option ℕ

pub record WebhookSigningSecret : Type 0 where
  pub id : ℕ
  pub org_id : ℕ
  pub endpoint_id : ℕ
  pub display_prefix : List ℕ
  pub encrypted_secret : String
  pub created_at : ℕ
  pub expires_at : Option ℕ

pub record SigningSecret : Type 0 where
  pub id : ℕ
  pub org_id : ℕ
  pub display_prefix : List ℕ
  pub encrypted_secret : String
  pub created_at : ℕ

-- IsExpired of both kinds of secret: `ExpiresAt != nil && !now.Before(*ExpiresAt)`.
unfoldable pub has_expired : Option ℕ → ℕ → Bool
has_expired none now = false
has_expired (some until) now = leb until now

-- The bytes of an ASCII text.
abbrev pub ascii : String → List ℕ
ascii no_text = []
ascii (cons_text c s) = code c ∷ ascii s

abbrev pub drop : {A : Type 0} → ℕ → List A → List A
drop zero xs = xs
drop (suc n) [] = []
drop (suc n) (x ∷ xs) = drop n xs

unfoldable pub has_prefix : List ℕ → List ℕ → Bool
has_prefix [] xs = true
has_prefix (p ∷ ps) [] = false
has_prefix (p ∷ ps) (x ∷ xs) = (p == x) && has_prefix ps xs

abbrev pub secret_prefix : List ℕ
secret_prefix = ascii "beecon_sk_"

abbrev pub lookup_prefix_length : ℕ
lookup_prefix_length = 12

unfoldable pub has_secret_prefix : List ℕ → Bool
unfolding has_prefix
has_secret_prefix secret =
    has_prefix secret_prefix secret && leb lookup_prefix_length (length secret)

unfoldable pub lookup_prefix : List ℕ → List ℕ
lookup_prefix secret = take lookup_prefix_length secret

-- SHA-256 is the first argument.
unfoldable pub hash_secret_remainder : (List ℕ → List ℕ) → List ℕ → List ℕ
hash_secret_remainder sha256 secret = sha256 (drop lookup_prefix_length secret)

unfoldable pub secret_matches_hash : (List ℕ → List ℕ) → List ℕ → List ℕ → Bool
unfolding hash_secret_remainder
secret_matches_hash sha256 secret hash = bytes_equal (hash_secret_remainder sha256 secret) hash

abbrev pub default_overlap_hours : ℕ
default_overlap_hours = 24

-- A number of hours comes with whether it is below 0.
unfoldable pub overlap_hours_or_default : Option (Bool × ℕ) → ℕ
overlap_hours_or_default none = default_overlap_hours
overlap_hours_or_default (some (negative, hours)) = hours

abbrev pub is_negative : Option (Bool × ℕ) → Bool
is_negative none = false
is_negative (some (negative, hours)) = negative && not (hours == 0)

-- The last secret without an expiry.
unfoldable pub active_of : {V : Type 0} → (V → Option ℕ) → Option V → List V → Option V
active_of expires found [] = found
active_of expires found (s ∷ ss) =
    if is_some (expires s) then active_of expires found ss else active_of expires (some s) ss

abbrev later_of : Option ℕ → Option ℕ → Option ℕ
later_of latest none = latest
later_of none (some t) = some t
later_of (some l) (some t) = if ltb l t then some t else some l

unfoldable pub latest_expires_at : Option ℕ → List ApiKeySecret → Option ℕ
latest_expires_at latest [] = latest
latest_expires_at latest (s ∷ ss) = latest_expires_at (later_of latest s.expires_at) ss

-- The time of the last rotation, and the end of its overlap.
unfoldable pub rotation_state : List ApiKeySecret → Option (ℕ × ℕ)
unfolding active_of latest_expires_at
rotation_state secrets = elim (active_of (λ (s : ApiKeySecret). s.expires_at) none secrets) [
  | none ↦ none
  | some active ↦ elim (latest_expires_at none secrets) [
    | none ↦ none
    | some latest ↦ some (active.created_at, latest)
  ]
]

pub record SecretStore : Type 0 where
  pub keys : List ServerApiKey
  pub secrets : List ApiKeySecret
  pub signing_secrets : List SigningSecret
  pub webhook_secrets : List WebhookSigningSecret

abbrev pub key_of : ServerApiKey → ℕ
key_of k = k.id

abbrev pub secret_key : ApiKeySecret → ℕ
secret_key s = s.id

abbrev pub signing_key : SigningSecret → ℕ
signing_key s = s.id

abbrev pub webhook_key : WebhookSigningSecret → ℕ
webhook_key s = s.id

unfoldable pub save_key : ServerApiKey → SecretStore → SecretStore
save_key k r = record r { keys = Keyed.put key_of k r.keys }

unfoldable pub list_keys : ℕ → SecretStore → List ServerApiKey
list_keys org r =
    sort (λ (a b : ServerApiKey). ltb a.created_at b.created_at)
      (filter (λ (k : ServerApiKey). k.org_id == org) r.keys)

abbrev pub key_in_org : ℕ → Option ServerApiKey → Option ServerApiKey
key_in_org org none = none
key_in_org org (some k) = if k.org_id == org then some k else none

unfoldable pub find_key : ℕ → ℕ → SecretStore → Option ServerApiKey
find_key org id r = key_in_org org (Keyed.find key_of id r.keys)

unfoldable pub mark_revoked : ℕ → ℕ → ℕ → SecretStore → SecretStore
mark_revoked org id at r = elim (key_in_org org (Keyed.find key_of id r.keys)) [
  | none ↦ r
  | some k ↦ record r { keys = Keyed.put key_of (record k { revoked_at = some at }) r.keys }
]

unfoldable pub save_secret : ApiKeySecret → SecretStore → SecretStore
save_secret s r = record r { secrets = Keyed.put secret_key s r.secrets }

unfoldable pub secret_older : ApiKeySecret → ApiKeySecret → Bool
secret_older a b =
    if a.created_at == b.created_at then ltb a.id b.id else ltb a.created_at b.created_at

unfoldable pub list_secrets : ℕ → SecretStore → List ApiKeySecret
unfolding secret_older
list_secrets key r = sort secret_older (filter (λ (s : ApiKeySecret). s.key_id == key) r.secrets)

unfoldable pub mark_secret_expiring : ℕ → ℕ → SecretStore → SecretStore
mark_secret_expiring id at r = elim (Keyed.find secret_key id r.secrets) [
  | none ↦ r
  | some s ↦ record r {
    secrets = Keyed.put secret_key (record s { expires_at = some at }) r.secrets;
  }
]

-- ApiKeySecretCandidate.
pub record Candidate : Type 0 where
  pub key : ServerApiKey
  pub secret : ApiKeySecret

-- The loop of FindByPrefix: a secret whose key is gone is passed over.
unfoldable pub candidates_of : List ℕ → List ServerApiKey → List ApiKeySecret → List Candidate
candidates_of prefix keys [] = []
candidates_of prefix keys (s ∷ ss) =
    let rest = candidates_of prefix keys ss in
    if bytes_equal s.lookup_prefix prefix
    then elim (Keyed.find key_of s.key_id keys) [
      | none ↦ rest
      | some k ↦ record { key = k; secret = s } ∷ rest
    ]
    else rest

unfoldable pub find_by_prefix : List ℕ → SecretStore → List Candidate
unfolding candidates_of secret_older
find_by_prefix prefix r =
    sort (λ (a b : Candidate). secret_older a.secret b.secret)
      (candidates_of prefix r.keys r.secrets)

unfoldable pub save_signing_secret : SigningSecret → SecretStore → SecretStore
save_signing_secret s r = record r { signing_secrets = Keyed.put signing_key s r.signing_secrets }

unfoldable pub list_signing_secrets_of : ℕ → SecretStore → List SigningSecret
list_signing_secrets_of org r =
    sort (λ (a b : SigningSecret). ltb a.created_at b.created_at)
      (filter (λ (s : SigningSecret). s.org_id == org) r.signing_secrets)

unfoldable pub find_by_kid : ℕ → SecretStore → Option SigningSecret
find_by_kid kid r = Keyed.find signing_key kid r.signing_secrets

unfoldable pub save_webhook_secret : WebhookSigningSecret → SecretStore → SecretStore
save_webhook_secret s r = record r { webhook_secrets = Keyed.put webhook_key s r.webhook_secrets }

unfoldable pub webhook_secret_older : WebhookSigningSecret → WebhookSigningSecret → Bool
webhook_secret_older a b =
    if a.created_at == b.created_at then ltb a.id b.id else ltb a.created_at b.created_at

unfoldable pub list_by_endpoint : ℕ → ℕ → SecretStore → List WebhookSigningSecret
unfolding webhook_secret_older
list_by_endpoint org endpoint r = sort webhook_secret_older (
    filter (λ (s : WebhookSigningSecret). (s.org_id == org) && (s.endpoint_id == endpoint))
      r.webhook_secrets)

unfoldable pub mark_webhook_secret_expiring : ℕ → ℕ → SecretStore → SecretStore
mark_webhook_secret_expiring id at r = elim (Keyed.find webhook_key id r.webhook_secrets) [
  | none ↦ r
  | some s ↦ record r {
    webhook_secrets = Keyed.put webhook_key (record s { expires_at = some at }) r.webhook_secrets;
  }
]
