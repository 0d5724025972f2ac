-- ===== src/Access/KeyFacade/Overlap.antt =====
-- A rotation of server/internal/access/facade.go leaves two secrets of a key at most.
use beecon.Base.{ℕ, ◌≡◌, ◌≢◌, ◌≤◌, Bool, true, false, not, ◌&&◌, Option, none, List, All, ◌==◌, ◌⊎◌}
use beecon.Base.Keyed
use beecon.Base.Effects.Ends.{Ends}
use beecon.Access.Keys.{ApiKeySecret, SecretStore, secret_key, has_expired, list_secrets}
use beecon.Access.Rotation.{Pending}
use beecon.Access.KeyFacade.{KeyFacade, Secrets}

-- Of this key, and able to authenticate at this time.
unfoldable pub is_live : ℕ → ℕ → ApiKeySecret → Bool
is_live key t s = (s.key_id == key) && not (has_expired s.expires_at t)

module _ (key t current : ℕ) where
  -- Beside the current secret, whatever lives is still to come.
  Ready : List ApiKeySecret → SecretStore → Type 0
  Ready rs o =
      Keyed.Distinct secret_key o.secrets
      × ((j : ℕ) → j ≢ current → Pending secret_key (is_live key t) j rs o.secrets)

  -- A secret without an expiry is the current one.
  Known : ApiKeySecret → Type 0
  Known s = s.expires_at ≡ none → s.id ≡ current

-- Of the secrets that can authenticate, each has one of two ids.
pub record AtMostTwo (key t current fresh : ℕ) (secrets : List ApiKeySecret) : Type 0 where
  pub each : All (λ s. is_live key t s ≡ true → (s.id ≡ current) ⊎ (s.id ≡ fresh)) secrets

-- Beside the current secret nothing lives.
OnlyCurrent : ℕ → ℕ → ℕ → SecretStore → Type 0
OnlyCurrent key t current o = All (λ s. s.id ≢ current → is_live key t s ≡ false) o.secrets

-- The rotation
module _ (f : KeyFacade) (org key t current : ℕ) (overlap : Option (Bool × ℕ)) (w : Secrets)
    (distinct : Keyed.Distinct secret_key w.store.secrets)
    (only_current : All
      (λ s. s.key_id ≡ key → s.expires_at ≡ none → s.id ≡ current)
      w.store.secrets)
    (past : (n : ℕ) → f.now n ≤ t) where
  listed : List ApiKeySecret
  listed = list_secrets key w.store
