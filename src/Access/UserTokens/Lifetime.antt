-- ===== src/Access/UserTokens/Lifetime.antt =====
-- exceedsUserTokenMaxLifetime of server/internal/access/usertoken.go on long lifetimes.
use beecon.Base.{ℕ, ◌+◌, ◌≤◌, ◌<◌, ◌≡◌, ◌⊎◌, inl, inr, arith, ltb, Bool-cases, true, false}
use beecon.Access.UserTokens.{UserTokenClaims, exceeds_user_token_max_lifetime}

-- A user token whose expiry is `lifetime` seconds after its issue, a number of up to 18_446_744_073: up
-- to a day is allowed, and more than a day is refused, but from 9_223_372_037 seconds on the int64 of a
-- time.Duration has wrapped around below 0, and the lifetime is allowed again.
pub exceeds_user_token_max_lifetime_lem :
    (claims : UserTokenClaims) (lifetime : ℕ)
    → claims.exp ≡ claims.iat + lifetime
    → claims.exp < 9_223_372_036_854_775_808
    → lifetime ≤ 18_446_744_073
    → ((lifetime ≤ 86_400) × (exceeds_user_token_max_lifetime claims ≡ false))
      ⊎ ((86_400 < lifetime)
          × (lifetime < 9_223_372_037)
          × (exceeds_user_token_max_lifetime claims ≡ true))
      ⊎ ((9_223_372_037 ≤ lifetime) × (exceeds_user_token_max_lifetime claims ≡ false))
unfolding exceeds_user_token_max_lifetime
exceeds_user_token_max_lifetime_lem claims lifetime e small bound =
    elim (Bool-cases (ltb lifetime 86_401)) [
      | inl day ↦ inl (ground arith, ground arith)
      | inr more ↦ elim (Bool-cases (ltb lifetime 9_223_372_037)) [
        | inl short ↦ inr (inl (ground arith, ground arith, ground arith))
        | inr long ↦ inr (inr (ground arith, ground arith))
      ]
    ]
