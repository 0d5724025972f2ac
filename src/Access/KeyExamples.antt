-- ===== src/Access/KeyExamples.antt =====
-- The API keys and the user tokens of server/internal/access on concrete inputs.
use beecon.Base.{
  ℕ, ◌+◌, ◌*◌, ◌≡◌, ◌<◌, ◌≤◌, ◌⊎◌, refl, String, Bool, true, false, Option, none, some, List, [],
  ◌∷◌, ◌++◌, All, arith, length,
}
use beecon.Base.Effects.{Result, ok, err, is_ok}
use beecon.Base.Effects.Ports.{Ticked}
use beecon.Access.Keys.{
  read_only, ApiKeySecret, ServerApiKey, SigningSecret, SecretStore, ascii, mark_revoked,
}
use beecon.Access.KeyFacade.{KeyFacade, Secrets, Rotated, issue, rotate}
use beecon.Access.UserTokens.{
  UserTokenClaims, UserTokenHeader, TokenReader, verify_user_token, exceeds_user_token_max_lifetime,
}
use beecon.Access.UserTokens.Lifetime.{exceeds_user_token_max_lifetime_lem}
use beecon.Access.UserTokens.Signed.{IsSigned, verify_user_token-IsSigned}

abbrev a_facade : KeyFacade
a_facade = record {
  now = λ n. 1_000_000_000_000;
  fault = λ n. none;
  new_id = λ n. n + 100;
  new_secret_id = λ n. n + 200;
  new_signing_secret_id = λ n. n + 300;
  new_webhook_secret_id = λ n. n + 400;
  random = λ n count. ok (n ∷ []);
  encode_raw_url = λ bs. ascii "xy" ++ bs;
  encode_std = λ bs. bs;
  sha256 = λ bs. bs;
  encrypt = λ n bs. ok "sealed";
  decrypt = λ s. ok (7 ∷ []);
}

abbrev empty : Secrets
empty = record {
  store = record {
    keys = [];
    secrets = [];
    signing_secrets =
        record {
          id = 5;
          org_id = 1;
          display_prefix = [];
          encrypted_secret = "sealed";
          created_at = 0;
        }
        ∷ [];
    webhook_secrets = [];
  };
  tick = 0;
}

-- After one key has been issued to organization 1.
abbrev issued : Secrets
issued = (issue a_facade 1 read_only empty).1

-- And after a rotation of that key.
abbrev rotated : Secrets
rotated = (rotate a_facade 1 101 none issued).1

abbrev first_secret : List ℕ
first_secret = ascii "beecon_sk_xy" ++ 0 ∷ []

issue_first :
    (issue a_facade 1 read_only empty).0
    ≡ ok (record {
      id = 101;
      secret = first_secret;
      prefix = ascii "beecon_sk_xy";
      scope = read_only;
      created_at = 1_000_000_000_000;
    })
unfolding issue beecon.Base.Effects.◌>>=◌ beecon.Access.KeyFacade.generate_secret
    beecon.Base.Effects.Ports.ask beecon.Base.Effects.Ports.read beecon.Base.Effects.Ports.update
    beecon.Base.Effects.Ports.call beecon.Access.KeyFacade.fresh_secret
    beecon.Access.Keys.lookup_prefix
issue_first = refl

abbrev a_reader : TokenReader
a_reader = record {
  decode_raw_url = λ bs. some bs;
  parse_header = λ bs. some (record { alg = "HS256"; kid = 5 });
  parse_claims = λ bs. some (record { sub = 2; iat = 900; exp = 1_100 });
  hmac_sha256 = λ key bs. 9 ∷ [];
}

abbrev a_token : List ℕ
a_token = 1 ∷ 46 ∷ 2 ∷ 46 ∷ 9 ∷ []

verify_token : (verify_user_token a_facade a_reader a_token empty).0 ≡ ok (1, 2)
unfolding verify_user_token beecon.Base.Effects.◌>>=◌ beecon.Access.UserTokens.split_user_token
    beecon.Access.UserTokens.decode_user_token_header beecon.Base.Effects.Ports.query
    beecon.Base.Effects.Ports.call beecon.Access.Keys.find_by_kid beecon.Base.Keyed.find
    beecon.Access.UserTokens.valid_user_token_signature beecon.Access.Operators.bytes_equal
    beecon.Access.UserTokens.decode_user_token_claims beecon.Base.Effects.Ports.read
    exceeds_user_token_max_lifetime
verify_token = refl

verify_user_token-IsSigned_example : IsSigned a_facade a_reader a_token empty 1 2
verify_user_token-IsSigned_example =
    verify_user_token-IsSigned a_facade a_reader a_token empty 1 2 verify_token

exceeds_user_token_max_lifetime_lem_example :
    ((10_000_000_000 ≤ 86_400)
      × (exceeds_user_token_max_lifetime (record { sub = 2; iat = 0; exp = 10_000_000_000 })
          ≡ false))
    ⊎ ((86_400 < 10_000_000_000)
        × (10_000_000_000 < 9_223_372_037)
        × (exceeds_user_token_max_lifetime (record { sub = 2; iat = 0; exp = 10_000_000_000 })
            ≡ true))
    ⊎ ((9_223_372_037 ≤ 10_000_000_000)
        × (exceeds_user_token_max_lifetime (record { sub = 2; iat = 0; exp = 10_000_000_000 })
            ≡ false))
exceeds_user_token_max_lifetime_lem_example =
    exceeds_user_token_max_lifetime_lem (record { sub = 2; iat = 0; exp = 10_000_000_000 })
      10_000_000_000 refl (ground arith) (ground arith)
