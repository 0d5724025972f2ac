-- ===== src/Access/KeyFacade/Authentic.antt =====
-- Which API keys server/internal/access/facade.go lets in.
use beecon.Base.{ℕ, ◌≡◌, true, false, some, is_some, List}
use mathlib.Core.List.{Memᴰ}
use beecon.Base.Keyed
use beecon.Base.Effects.Ends.{Ends}
use beecon.Access.Operators.{bytes_equal}
use beecon.Access.Keys.{
  Scope, ServerApiKey, ApiKeySecret, Candidate, SecretStore, key_of, has_expired, lookup_prefix,
  secret_matches_hash,
}
use beecon.Access.KeyFacade.{KeyFacade}

-- A candidate is a stored secret under the prefix, with the stored key that it belongs to.
abbrev IsCandidate : List ℕ → List ServerApiKey → (ApiKeySecret → Type 0) → Candidate → Type 0
IsCandidate prefix keys P c =
    (bytes_equal c.secret.lookup_prefix prefix ≡ true)
    × (Keyed.find key_of c.secret.key_id keys ≡ some c.key)
    × P c.secret

-- What lets a key in: a stored secret under the presented prefix, whose hash the presented secret has,
-- of a stored key that is not revoked, and not expired at a time that the clock showed.
pub record IsAuthentic (f : KeyFacade) (secret : List ℕ) (store : SecretStore) (org : ℕ)
    (scope : Scope) : Type 0 where
  pub stored : ApiKeySecret
  pub key : ServerApiKey
  pub read_at : ℕ
  pub present : Memᴰ stored store.secrets
  pub same_prefix : bytes_equal stored.lookup_prefix (lookup_prefix secret) ≡ true
  pub same_hash : secret_matches_hash f.sha256 secret stored.secret_hash ≡ true
  pub in_time : has_expired stored.expires_at (f.now read_at) ≡ false
  pub owner : Keyed.find key_of stored.key_id store.keys ≡ some key
  pub not_revoked : is_some key.revoked_at ≡ false
  pub same_org : org ≡ key.org_id
  pub same_scope : scope ≡ key.scope
