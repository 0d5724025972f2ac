-- ===== src/Access/KeyFacade.antt =====
-- server/internal/access/facade.go, signing_secret.go and webhook_secret.go: API keys, the secrets that
-- sign user tokens, and those that sign webhooks. The random source, SHA-256, base64 and the vault are
-- fields of the facade.
pub mod Authentic
pub mod Overlap
use beecon.Base.{
  ℕ, ◌+◌, String, Bool, true, false, not, ◌&&◌, ◌||◌, Option, none, some, is_some, List, [], ◌∷◌,
  ◌++◌, length, take, ltb, ◌==◌, if◌then◌else◌,
}
use beecon.Base.Clock.{hours_duration, add_duration}
use beecon.Base.Effects.{
  Result, ok, err, Exec, pure, fail, check, or_fail, lift, ◌>>=◌, ◌>>◌, for_each, collect,
}
use beecon.Base.Effects.Ports.{Ticked, read, ask, query, update, fails_if}
use beecon.Access.Errors.{err_key_not_found, err_unauthorized, err_validation}
use beecon.Access.Keys.{
  Scope, ServerApiKey, ApiKeySecret, WebhookSigningSecret, SigningSecret, Candidate, SecretStore,
  has_expired, ascii, secret_prefix, has_secret_prefix, lookup_prefix, hash_secret_remainder,
  secret_matches_hash, overlap_hours_or_default, is_negative, active_of, rotation_state, save_key,
  list_keys, find_key, mark_revoked, save_secret, list_secrets, mark_secret_expiring,
  find_by_prefix, save_signing_secret, list_signing_secrets_of, save_webhook_secret,
  list_by_endpoint, mark_webhook_secret_expiring,
}

pub record KeyFacade : Type 0 where
  pub now : ℕ → ℕ
  pub fault : ℕ → Option ℕ
  pub new_id : ℕ → ℕ
  pub new_secret_id : ℕ → ℕ
  pub new_signing_secret_id : ℕ → ℕ
  pub new_webhook_secret_id : ℕ → ℕ
  -- `n` bytes of crypto/rand.
  pub random : ℕ → ℕ → Result (List ℕ)
  pub encode_raw_url : List ℕ → List ℕ
  pub encode_std : List ℕ → List ℕ
  pub sha256 : List ℕ → List ℕ
  pub encrypt : ℕ → List ℕ → Result String
  pub decrypt : String → Result (List ℕ)

abbrev pub Secrets : Type 0
Secrets = Ticked SecretStore

abbrev secret_entropy_bytes : ℕ
secret_entropy_bytes = 32

unfoldable pub generate_secret : KeyFacade → Exec Secrets (List ℕ)
generate_secret f = do
  bytes ← ask (λ tick. f.random tick secret_entropy_bytes)
  pure (secret_prefix ++ f.encode_raw_url bytes)

pub record IssuedKey : Type 0 where
  pub id : ℕ
  pub secret : List ℕ
  pub prefix : List ℕ
  pub scope : Scope
  pub created_at : ℕ

unfoldable pub fresh_secret : KeyFacade → ℕ → List ℕ → ℕ → Exec Secrets ApiKeySecret
fresh_secret f key secret created_at = do
  id ← read f.new_secret_id
  let stored : ApiKeySecret = record {
    id = id;
    key_id = key;
    lookup_prefix = lookup_prefix secret;
    secret_hash = hash_secret_remainder f.sha256 secret;
    created_at = created_at;
    expires_at = none;
  }
  update f.fault (save_secret stored)
  pure stored

unfoldable pub issue : KeyFacade → ℕ → Scope → Exec Secrets IssuedKey
issue f org scope = do
  secret ← generate_secret f
  id ← read f.new_id
  now ← read f.now
  update f.fault (
      save_key
        (record { id = id; org_id = org; scope = scope; created_at = now; revoked_at = none }))
  first ← fresh_secret f id secret now
  pure (record {
    id = id;
    secret = secret;
    prefix = first.lookup_prefix;
    scope = scope;
    created_at = now;
  })

pub record KeyListing : Type 0 where
  pub id : ℕ
  pub prefix : List ℕ
  pub scope : Scope
  pub created_at : ℕ
  pub revoked_at : Option ℕ
  pub rotation : Option (ℕ × ℕ)

unfoldable pub active_secret_prefix : List ApiKeySecret → List ℕ
unfolding active_of
active_secret_prefix secrets = elim (active_of (λ (s : ApiKeySecret). s.expires_at) none secrets) [
  | none ↦ []
  | some s ↦ s.lookup_prefix
]

-- RotatedAt and OverlapExpiresAt are both nil or both there.
unfoldable pub key_listing_from : ServerApiKey → List ApiKeySecret → KeyListing
key_listing_from key secrets = record {
  id = key.id;
  prefix = active_secret_prefix secrets;
  scope = key.scope;
  created_at = key.created_at;
  revoked_at = key.revoked_at;
  rotation = rotation_state secrets;
}

unfoldable pub list_with_rotation : KeyFacade → ℕ → Exec Secrets (List KeyListing)
list_with_rotation f org = do
  keys ← query f.fault (list_keys org)
  collect
      (λ (key : ServerApiKey).
        query f.fault (list_secrets key.id) >>= λ secrets. pure (key_listing_from key secrets))
      keys

unfoldable pub revoke_key : KeyFacade → ℕ → ℕ → Exec Secrets (Unit {0})
revoke_key f org id = do
  stored ← query f.fault (find_key org id)
  key ← or_fail err_key_not_found stored
  now ← read f.now
  update f.fault (mark_revoked org id now)

-- What a rotation writes as the expiry of a secret: the end of the overlap for the one without an
-- expiry, nothing for one that has expired, and now for any other.
unfoldable pub retire_at : ℕ → ℕ → Option ℕ → Option ℕ
retire_at now overlap_expires_at none = some overlap_expires_at
retire_at now overlap_expires_at (some until) =
    if has_expired (some until) now then none else some now

abbrev pub mark_if : {S : Type 0} → Option ℕ → (ℕ → Exec S (Unit {0})) → Exec S (Unit {0})
mark_if none mark = pure tt
mark_if (some at) mark = mark at

unfoldable pub expire_live_secrets : KeyFacade → ℕ → ℕ → List ApiKeySecret → Exec Secrets (Unit {0})
unfolding retire_at
expire_live_secrets f now overlap_expires_at = for_each λ (s : ApiKeySecret).
    mark_if (retire_at now overlap_expires_at s.expires_at)
      λ at. update f.fault (mark_secret_expiring s.id at)

abbrev pub key_live : Option ServerApiKey → Option ServerApiKey
key_live none = none
key_live (some k) = if is_some k.revoked_at then none else some k

pub record Rotated : Type 0 where
  pub id : ℕ
  pub secret : List ℕ
  pub prefix : List ℕ
  pub overlap_expires_at : ℕ

unfoldable pub rotate : KeyFacade → ℕ → ℕ → Option (Bool × ℕ) → Exec Secrets Rotated
rotate f org id overlap_hours = do
  stored ← query f.fault (find_key org id)
  key ← or_fail err_key_not_found (key_live stored)
  check (
      fails_if (is_negative overlap_hours)
        (err_validation "overlapHours" "must not be negative" []))
  secrets ← query f.fault (list_secrets id)
  now ← read f.now
  let expires_at : ℕ = add_duration now (hours_duration (overlap_hours_or_default overlap_hours))
  expire_live_secrets f now expires_at secrets
  secret ← generate_secret f
  fresh ← fresh_secret f id secret now
  pure (record {
    id = id;
    secret = secret;
    prefix = fresh.lookup_prefix;
    overlap_expires_at = expires_at;
  })

-- The loop over the candidates: the first one whose hash matches decides.
unfoldable pub verify_candidates : KeyFacade → List ℕ → ℕ → List Candidate → Result (ℕ × Scope)
verify_candidates f secret now [] = err err_unauthorized
verify_candidates f secret now (c ∷ cs) =
    let rest = verify_candidates f secret now cs in
    if not (secret_matches_hash f.sha256 secret c.secret.secret_hash)
    then rest
    else if is_some c.key.revoked_at || has_expired c.secret.expires_at now
    then err err_unauthorized
    else ok (c.key.org_id, c.key.scope)

unfoldable pub verify : KeyFacade → List ℕ → Exec Secrets (ℕ × Scope)
unfolding verify_candidates
verify f secret = do
  check (fails_if (not (has_secret_prefix secret)) err_unauthorized)
  candidates ← query f.fault (find_by_prefix (lookup_prefix secret))
  now ← read f.now
  lift (verify_candidates f secret now candidates)

-- signing_secret.go
abbrev signing_secret_display_prefix_length : ℕ
signing_secret_display_prefix_length = 8

unfoldable pub signing_secret_display_prefix : List ℕ → List ℕ
signing_secret_display_prefix secret = take signing_secret_display_prefix_length secret

pub record IssuedSecret : Type 0 where
  pub id : ℕ
  pub secret : List ℕ
  pub prefix : List ℕ
  pub created_at : ℕ

unfoldable pub issue_signing_secret : KeyFacade → ℕ → Exec Secrets IssuedSecret
issue_signing_secret f org = do
  bytes ← ask (λ tick. f.random tick secret_entropy_bytes)
  let secret : List ℕ = f.encode_raw_url bytes
  encrypted ← ask (λ tick. f.encrypt tick secret)
  id ← read f.new_signing_secret_id
  now ← read f.now
  update f.fault (
      save_signing_secret (record {
        id = id;
        org_id = org;
        display_prefix = signing_secret_display_prefix secret;
        encrypted_secret = encrypted;
        created_at = now;
      }))
  pure (record {
    id = id;
    secret = secret;
    prefix = signing_secret_display_prefix secret;
    created_at = now;
  })

unfoldable pub list_signing_secrets : KeyFacade → ℕ → Exec Secrets (List SigningSecret)
list_signing_secrets f org = query f.fault (list_signing_secrets_of org)
