-- ===== src/Access/WebhookSecrets.antt =====
-- server/internal/access/webhook_secret.go: the secrets that sign an endpoint's webhooks, which the
-- delivery module asks for through its port SecretIssuer.
use beecon.Base.{ℕ, Bool, Option, none, some, List, [], ◌∷◌, ◌++◌, take, if◌then◌else◌}
use beecon.Base.Clock.{hours_duration, add_duration}
use beecon.Base.Effects.{Result, ok, err, Exec, pure, check, lift, ◌>>=◌, ◌>>◌, for_each}
use beecon.Base.Effects.Ports.{read, ask, query, update, fails_if}
use beecon.Access.Errors.{err_validation}
use beecon.Access.Keys.{
  WebhookSigningSecret, has_expired, ascii, overlap_hours_or_default, is_negative, active_of,
  save_webhook_secret, list_by_endpoint, mark_webhook_secret_expiring,
}
use beecon.Access.KeyFacade.{KeyFacade, Secrets, IssuedSecret, Rotated, retire_at, mark_if}

abbrev webhook_secret_entropy_bytes : ℕ
webhook_secret_entropy_bytes = 32

abbrev webhook_secret_prefix : List ℕ
webhook_secret_prefix = ascii "whsec_"

abbrev webhook_secret_display_prefix_length : ℕ
webhook_secret_display_prefix_length = 12

unfoldable pub generate_webhook_secret : KeyFacade → Exec Secrets (List ℕ)
generate_webhook_secret f = do
  bytes ← ask (λ tick. f.random tick webhook_secret_entropy_bytes)
  pure (webhook_secret_prefix ++ f.encode_std bytes)

unfoldable pub webhook_secret_display_prefix : List ℕ → List ℕ
webhook_secret_display_prefix secret = take webhook_secret_display_prefix_length secret

unfoldable pub issue_webhook_secret : KeyFacade → ℕ → ℕ → Exec Secrets IssuedSecret
issue_webhook_secret f org endpoint = do
  secret ← generate_webhook_secret f
  encrypted ← ask (λ tick. f.encrypt tick secret)
  id ← read f.new_webhook_secret_id
  now ← read f.now
  update f.fault (
      save_webhook_secret (record {
        id = id;
        org_id = org;
        endpoint_id = endpoint;
        display_prefix = webhook_secret_display_prefix secret;
        encrypted_secret = encrypted;
        created_at = now;
        expires_at = none;
      }))
  pure (record {
    id = id;
    secret = secret;
    prefix = webhook_secret_display_prefix secret;
    created_at = now;
  })

unfoldable pub expire_live_webhook_secrets :
    KeyFacade → ℕ → ℕ → List WebhookSigningSecret → Exec Secrets (Unit {0})
unfolding retire_at
expire_live_webhook_secrets f now overlap_expires_at = for_each λ (s : WebhookSigningSecret).
    mark_if (retire_at now overlap_expires_at s.expires_at)
      λ at. update f.fault (mark_webhook_secret_expiring s.id at)

unfoldable pub rotate_webhook_secret : KeyFacade → ℕ → ℕ → Option (Bool × ℕ) → Exec Secrets Rotated
rotate_webhook_secret f org endpoint overlap_hours = do
  check (
      fails_if (is_negative overlap_hours)
        (err_validation "overlapHours" "must not be negative" []))
  secrets ← query f.fault (list_by_endpoint org endpoint)
  now ← read f.now
  let expires_at : ℕ = add_duration now (hours_duration (overlap_hours_or_default overlap_hours))
  expire_live_webhook_secrets f now expires_at secrets
  secret ← generate_webhook_secret f
  encrypted ← ask (λ tick. f.encrypt tick secret)
  id ← read f.new_webhook_secret_id
  update f.fault (
      save_webhook_secret (record {
        id = id;
        org_id = org;
        endpoint_id = endpoint;
        display_prefix = webhook_secret_display_prefix secret;
        encrypted_secret = encrypted;
        created_at = now;
        expires_at = none;
      }))
  pure (record {
    id = id;
    secret = secret;
    prefix = webhook_secret_display_prefix secret;
    overlap_expires_at = expires_at;
  })

-- The loop of ActiveWebhookSecrets: a secret that cannot be decrypted fails the call.
unfoldable pub decrypt_active : KeyFacade → ℕ → List WebhookSigningSecret → Result (List (List ℕ))
decrypt_active f now [] = ok []
decrypt_active f now (s ∷ ss) =
    let rest = decrypt_active f now ss in
    if has_expired s.expires_at now then rest else elim (f.decrypt s.encrypted_secret) [
      | err e ↦ err e
      | ok plaintext ↦ elim rest [ err e ↦ err e | ok active ↦ ok (plaintext ∷ active) ]
    ]

unfoldable pub active_webhook_secrets : KeyFacade → ℕ → ℕ → Exec Secrets (List (List ℕ))
unfolding decrypt_active
active_webhook_secrets f org endpoint = do
  secrets ← query f.fault (list_by_endpoint org endpoint)
  now ← read f.now
  lift (decrypt_active f now secrets)

unfoldable pub webhook_secret_prefix_of : KeyFacade → ℕ → ℕ → Exec Secrets (List ℕ)
unfolding active_of
webhook_secret_prefix_of f org endpoint = do
  secrets ← query f.fault (list_by_endpoint org endpoint)
  pure (elim (active_of (λ (s : WebhookSigningSecret). s.expires_at) none secrets) [
    | none ↦ []
    | some s ↦ s.display_prefix
  ])
