-- ===== src/Access/UserTokens/Signed.antt =====
-- Which user tokens server/internal/access/usertoken.go lets in.
use beecon.Base.{ℕ, ◌≡◌, refl, ap, subst, true, false, some, List, arith, str_eq}
use beecon.Base.Effects.{ok}
use beecon.Base.Effects.Ends.{
  Post, Ends, Ends-pure, Ends-some, Ends-check, Ends-find, Ends-lift, Ends-read,
}
use beecon.Access.Keys.{SecretStore, SigningSecret, find_by_kid}
use beecon.Access.KeyFacade.{KeyFacade, Secrets}
use beecon.Access.UserTokens.{
  UserTokenHeader, UserTokenClaims, TokenReader, TokenParts, split_user_token,
  decode_user_token_header, decode_user_token_claims, valid_user_token_signature, has_run_out,
  exceeds_user_token_max_lifetime, verify_user_token, user_token_algorithm,
}

-- A token that names a stored signing secret, is signed with it by HS256, has not run out at a time that
-- the clock showed, and passes the check of its lifetime.
pub record IsSigned (f : KeyFacade) (t : TokenReader) (token : List ℕ) (w : Secrets) (org user : ℕ)
    : Type 0 where
  pub parts : TokenParts
  pub header : UserTokenHeader
  pub claims : UserTokenClaims
  pub stored : SigningSecret
  pub secret : List ℕ
  pub signature : List ℕ
  pub read_at : ℕ
  pub splits : split_user_token token ≡ some parts
  pub header_of : decode_user_token_header t parts.header ≡ some header
  pub algorithm : str_eq header.alg user_token_algorithm ≡ true
  pub found : find_by_kid header.kid w.store ≡ some stored
  pub decrypted : f.decrypt stored.encrypted_secret ≡ ok secret
  pub signature_of : t.decode_raw_url parts.signature ≡ some signature
  pub valid : valid_user_token_signature t parts.header parts.payload signature secret ≡ true
  pub claims_of : decode_user_token_claims t parts.payload ≡ some claims
  pub running : has_run_out (f.now read_at) claims ≡ false
  pub short : exceeds_user_token_max_lifetime claims ≡ false
  pub same_org : org ≡ stored.org_id
  pub same_user : user ≡ claims.sub

-- A user token is let in only if it is signed: it names a stored signing secret, its signature is valid
-- under that secret by HS256, it has not run out at a time that the clock showed, and it passes the check
-- of its lifetime; the organization is the secret's and the user is the token's subject.
pub verify_user_token-IsSigned :
    (f : KeyFacade) (t : TokenReader) (token : List ℕ) (w : Secrets) (org user : ℕ)
    → (verify_user_token f t token w).0 ≡ ok (org, user)
    → IsSigned f t token w org user
unfolding verify_user_token
verify_user_token-IsSigned f t token w org user e =
    subst
      (λ r.
        Post {D = SecretStore} (λ a o. IsSigned f t token w a.0 a.1) (λ o. Unit) r
          (verify_user_token f t token w).1.store)
      e (checked.at w refl)
  where
    checked :
        Ends
          (λ o. o ≡ w.store)
          (λ a o. IsSigned f t token w a.0 a.1)
          (λ o. Unit)
          (verify_user_token f t token)
    checked =
        Ends-some _ _ _ (λ d h. tt)
          λ parts splits.
            Ends-some _ _ _ (λ d h. tt)
              λ header header_of.
                Ends-check _ _ _ (λ d h. tt)
                  λ algorithm.
                    Ends-find f.fault _ _ (λ d h. tt) (find_by_kid header.kid w.store)
                      (λ d h. ap (find_by_kid header.kid) h)
                      (Ends-some _ _ _ (λ d h. tt)
                        λ stored found.
                          Ends-lift _ _ (λ d h. tt)
                            λ secret decrypted.
                              Ends-some _ _ _ (λ d h. tt)
                                λ signature signature_of.
                                  Ends-check _ _ _ (λ d h. tt)
                                    λ valid.
                                      Ends-some _ _ _ (λ d h. tt)
                                        λ claims claims_of. Ends-read f.now _ λ n.
                                          Ends-check _ _ _ (λ d h. tt)
                                            λ fresh. Ends-pure _ λ d h. record {
                                              parts = parts;
                                              header = header;
                                              claims = claims;
                                              stored = stored;
                                              secret = secret;
                                              signature = signature;
                                              read_at = n;
                                              splits = splits;
                                              header_of = header_of;
                                              algorithm = ground arith;
                                              found = found;
                                              decrypted = decrypted;
                                              signature_of = signature_of;
                                              valid = ground arith;
                                              claims_of = claims_of;
                                              running = ground arith;
                                              short = ground arith;
                                              same_org = refl;
                                              same_user = refl;
                                            })
