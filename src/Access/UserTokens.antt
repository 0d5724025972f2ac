-- ===== src/Access/UserTokens.antt =====
-- server/internal/access/usertoken.go: the check of a user token, a JWT signed with HS256. The token is
-- its bytes; base64 and encoding/json are fields, and a number of type int64 is its two's complement.
pub mod Lifetime
pub mod Signed
use beecon.Base.{
  ℕ, ◌+◌, ◌-◌, ◌/◌, ◌%◌, ◌^◌, String, Bool, true, false, not, ◌&&◌, ◌||◌, Option, none, some, List,
  [], ◌∷◌, ◌++◌, ◌==◌, str_eq, if◌then◌else◌,
}
use beecon.Base.Clock.{int64_less, seconds_duration}
use beecon.Base.Effects.{Result, Exec, pure, check, or_fail, lift, ◌>>=◌, ◌>>◌}
use beecon.Base.Effects.Ports.{read, query, fails_if}
use beecon.Access.Errors.{err_unauthorized}
use beecon.Access.Operators.{bytes_equal}
use beecon.Access.Keys.{SigningSecret, find_by_kid}
use beecon.Access.KeyFacade.{KeyFacade, Secrets}

pub record UserTokenHeader : Type 0 where
  pub alg : String
  pub kid : ℕ

pub record UserTokenClaims : Type 0 where
  pub sub : ℕ
  pub iat : ℕ
  pub exp : ℕ

pub record TokenReader : Type 0 where
  pub decode_raw_url : List ℕ → Option (List ℕ)
  pub parse_header : List ℕ → Option UserTokenHeader
  pub parse_claims : List ℕ → Option UserTokenClaims
  pub hmac_sha256 : List ℕ → List ℕ → List ℕ

-- 24 hours.
abbrev pub user_token_max_lifetime : ℕ
user_token_max_lifetime = 86_400_000_000_000

abbrev pub user_token_algorithm : String
user_token_algorithm = "HS256"

unfoldable pub exceeds_user_token_max_lifetime : UserTokenClaims → Bool
exceeds_user_token_max_lifetime claims =
    int64_less user_token_max_lifetime
      (seconds_duration ((claims.exp + 2 ^ 64 - claims.iat) % 2 ^ 64))

-- strings.Split(token, "."): `current` is what has been read of the present part.
unfoldable pub split_dots : List ℕ → List ℕ → List (List ℕ)
split_dots current [] = current ∷ []
split_dots current (b ∷ bs) =
    if b == 46 then current ∷ split_dots [] bs else split_dots (current ++ b ∷ []) bs

abbrev is_empty : List ℕ → Bool
is_empty [] = true
is_empty (_ ∷ _) = false

pub record TokenParts : Type 0 where
  pub header : List ℕ
  pub payload : List ℕ
  pub signature : List ℕ

abbrev three_parts : List (List ℕ) → Option TokenParts
three_parts (h ∷ p ∷ s ∷ []) =
    if is_empty h || is_empty p || is_empty s
    then none
    else some (record { header = h; payload = p; signature = s })
three_parts _ = none

unfoldable pub split_user_token : List ℕ → Option TokenParts
unfolding split_dots
split_user_token token = three_parts (split_dots [] token)

abbrev decoded : {A : Type 0} → (List ℕ → Option A) → Option (List ℕ) → Option A
decoded parse none = none
decoded parse (some raw) = parse raw

unfoldable pub decode_user_token_header : TokenReader → List ℕ → Option UserTokenHeader
decode_user_token_header t segment = decoded t.parse_header (t.decode_raw_url segment)

unfoldable pub decode_user_token_claims : TokenReader → List ℕ → Option UserTokenClaims
decode_user_token_claims t segment = decoded t.parse_claims (t.decode_raw_url segment)

unfoldable pub valid_user_token_signature : TokenReader → List ℕ → List ℕ → List ℕ → List ℕ → Bool
valid_user_token_signature t header payload signature secret =
    bytes_equal signature (t.hmac_sha256 secret (header ++ 46 ∷ payload))

-- `f.now().Unix() >= claims.Exp`
abbrev pub has_run_out : ℕ → UserTokenClaims → Bool
has_run_out now claims = not (int64_less (now / 1_000_000_000) claims.exp)

unfoldable pub verify_user_token : KeyFacade → TokenReader → List ℕ → Exec Secrets (ℕ × ℕ)
verify_user_token f t token = do
  parts ← or_fail err_unauthorized (split_user_token token)
  header ← or_fail err_unauthorized (decode_user_token_header t parts.header)
  check (fails_if (not (str_eq header.alg user_token_algorithm)) err_unauthorized)
  stored ← query f.fault (find_by_kid header.kid)
  secret_record ← or_fail err_unauthorized stored
  secret ← lift (f.decrypt secret_record.encrypted_secret)
  signature ← or_fail err_unauthorized (t.decode_raw_url parts.signature)
  check (
      fails_if (not (valid_user_token_signature t parts.header parts.payload signature secret))
        err_unauthorized)
  claims ← or_fail err_unauthorized (decode_user_token_claims t parts.payload)
  now ← read f.now
  check
      (fails_if (has_run_out now claims || exceeds_user_token_max_lifetime claims) err_unauthorized)
  pure (secret_record.org_id, claims.sub)
