-- ===== src/Access/Console.antt =====
-- server/internal/access/operator_facade.go: bootstrap, accounts, login, sessions. Argon2id, SHA-256,
-- crypto/rand and strings.ToLower over strings.TrimSpace are fields of the facade.
pub mod Frames
pub mod History
pub mod Active
pub mod Sessions
pub mod Lockout
use Prim.Native.String.{◌∷◌ as cons_text, [] as no_text}
use Prim.Native.Char.{code}
use beecon.Base.{
  ℕ, zero, suc, ◌+◌, ◌*◌, String, Bool, true, false, not, ◌||◌, Option, none, some, List, [], ◌∷◌,
  map, ltb, leb, ◌==◌, if◌then◌else◌,
}
use beecon.Base.Effects.{
  Result, ok, err, Exec, pure, fail, lift, gets, modify, check, or_fail, ◌>>=◌, ◌>>◌,
}
use beecon.Httpx.Errors.{Error, external}
use beecon.Access.Errors.{
  err_operator_exists, err_invalid_email, err_password_too_short, err_email_already_exists,
  err_invalid_credentials, err_operator_not_found, err_last_active_operator, err_account_locked,
  err_session_unauthorized,
}
use beecon.Access.Operators.{
  Operator, OperatorStatus, OperatorSession, active, disabled, is_active, is_locked_out, is_expired,
  is_revoked, looks_like_email, operator_key, session_key, find_by_email, find_by_id, exists,
  count_active, update_password_hash, set_status, record_failed_attempt, reset_failed_attempts,
  bytes_equal, find_by_token_hash, revoke, revoke_all_for_operator, revoke_all_for_operator_except,
}
use beecon.Base.Keyed

-- The times are in nanoseconds; 0 stands for a limit that was never set, or is below zero.
pub record OperatorFacade : Type 0 where
  pub now : ℕ → ℕ
  pub fault : ℕ → Option ℕ
  pub new_operator_id : ℕ → ℕ
  pub new_session_id : ℕ → ℕ
  pub session_ttl : ℕ
  pub login_max_attempts : ℕ
  pub login_lockout : ℕ
  pub normalize_email : String → String
  pub hash_password : ℕ → String → Result String
  pub verify_password : String → String → Bool
  pub session_token : ℕ → Result String
  pub csrf_token : ℕ → Result String
  pub hash_session_token : String → List ℕ

-- The two repositories, and the number of port calls made so far.
pub record Accounts : Type 0 where
  pub operators : List Operator
  pub sessions : List OperatorSession
  pub tick : ℕ

abbrev advance : Accounts → Accounts
advance w = record w { tick = suc w.tick }

unfoldable pub read : {A : Type 0} → (ℕ → A) → Exec Accounts A
read f w = (ok (f w.tick), advance w)

unfoldable pub ask : {A : Type 0} → (ℕ → Result A) → Exec Accounts A
ask f w = (f w.tick, advance w)

abbrev faulty : {A : Type 0} → Option ℕ → A × Accounts → Accounts → Result A × Accounts
faulty none (a, w') w = (ok a, w')
faulty (some e) r w = (err (external e), w)

-- A repository call that fails has changed nothing.
unfoldable pub call : {A : Type 0} → OperatorFacade → (Accounts → A × Accounts) → Exec Accounts A
call f m w = faulty (f.fault w.tick) (m (advance w)) (advance w)

unfoldable pub query : {A : Type 0} → OperatorFacade → (Accounts → A) → Exec Accounts A
query f g = call f (λ w. (g w, w))

unfoldable pub on_operators :
    OperatorFacade → (List Operator → List Operator) → Exec Accounts (Unit {0})
on_operators f g = call f (λ w. (tt, record w { operators = g w.operators }))

unfoldable pub on_sessions :
    OperatorFacade → (List OperatorSession → List OperatorSession) → Exec Accounts (Unit {0})
on_sessions f g = call f (λ w. (tt, record w { sessions = g w.sessions }))

abbrev default_login_max_attempts : ℕ
default_login_max_attempts = 5

abbrev default_login_lockout_minutes : ℕ
default_login_lockout_minutes = 15

unfoldable pub login_max_attempts_or_fallback : OperatorFacade → ℕ
login_max_attempts_or_fallback f =
    if f.login_max_attempts == 0 then default_login_max_attempts else f.login_max_attempts

unfoldable pub login_lockout_or_fallback : OperatorFacade → ℕ
login_lockout_or_fallback f =
    if f.login_lockout == 0 then default_login_lockout_minutes * 60_000_000_000 else f.login_lockout

abbrev pub min_password_length : ℕ
min_password_length = 12

-- len(password): the bytes of its UTF-8 text.
abbrev utf8_width : ℕ → ℕ
utf8_width c = if ltb c 128 then 1 else if ltb c 2048 then 2 else if ltb c 65_536 then 3 else 4

unfoldable pub byte_length : String → ℕ
byte_length no_text = 0
byte_length (cons_text c s) = utf8_width (code c) + byte_length s

abbrev pub fails_if : Bool → Error → Option Error
fails_if b e = if b then some e else none

unfoldable pub check_password_length : String → Option Error
unfolding byte_length
check_password_length password =
    fails_if (ltb (byte_length password) min_password_length)
      (err_password_too_short min_password_length)

unfoldable pub new_validated_operator : OperatorFacade → String → String → Exec Accounts Operator
new_validated_operator f email password = do
  let normalized : String = f.normalize_email email
  check (fails_if (not (looks_like_email normalized)) err_invalid_email)
  check (check_password_length password)
  password_hash ← ask (λ tick. f.hash_password tick password)
  id ← read f.new_operator_id
  created_at ← read f.now
  pure (record {
    id = id;
    email = normalized;
    password_hash = password_hash;
    status = active;
    failed_attempts = 0;
    locked_until = none;
    created_at = created_at;
  })

unfoldable pub bootstrap : OperatorFacade → String → String → Exec Accounts (ℕ × String)
bootstrap f email password = do
  taken ← query f (λ w. exists w.operators)
  check (fails_if taken err_operator_exists)
  operator ← new_validated_operator f email password
  on_operators f (Keyed.put operator_key operator)
  pure (operator.id, operator.email)

pub record OperatorSummary : Type 0 where
  pub id : ℕ
  pub email : String
  pub status : OperatorStatus
  pub created_at : ℕ

unfoldable pub list_operators : OperatorFacade → Exec Accounts (List OperatorSummary)
list_operators f = do
  operators ← query f (λ w. w.operators)
  pure (
      map
        (λ (o : Operator). record {
          id = o.id;
          email = o.email;
          status = o.status;
          created_at = o.created_at;
        })
        operators)

abbrev pub found : {A : Type 0} → Option A → Bool
found none = false
found (some _) = true

unfoldable pub create_operator : OperatorFacade → String → String → Exec Accounts (ℕ × String)
create_operator f email password = do
  operator ← new_validated_operator f email password
  existing ← query f (λ w. find_by_email operator.email w.operators)
  check (fails_if (found existing) err_email_already_exists)
  on_operators f (Keyed.put operator_key operator)
  pure (operator.id, operator.email)

-- The two causes of ChangeMyPassword's first refusal.
abbrev pub may_change : OperatorFacade → String → Option Operator → Bool
may_change f current_password none = false
may_change f current_password (some o) = f.verify_password current_password o.password_hash

unfoldable pub change_my_password :
    OperatorFacade → ℕ → ℕ → String → String → Exec Accounts (Unit {0})
change_my_password f operator session current_password new_password = do
  stored ← query f (λ w. find_by_id operator w.operators)
  check (fails_if (not (may_change f current_password stored)) err_invalid_credentials)
  check (check_password_length new_password)
  new_hash ← ask (λ tick. f.hash_password tick new_password)
  on_operators f (update_password_hash operator new_hash)
  now ← read f.now
  on_sessions f (revoke_all_for_operator_except operator session now)

-- Deactivate's guard against a total lock-out.
unfoldable pub check_not_last : OperatorFacade → Operator → Exec Accounts (Unit {0})
check_not_last f target =
    if is_active target
    then (query f (λ w. count_active w.operators) >>= λ n.
        check (fails_if (leb n 1) err_last_active_operator))
    else pure tt

unfoldable pub deactivate : OperatorFacade → ℕ → Exec Accounts (Unit {0})
deactivate f operator = do
  stored ← query f (λ w. find_by_id operator w.operators)
  target ← or_fail err_operator_not_found stored
  check_not_last f target
  on_operators f (set_status operator disabled)
  now ← read f.now
  on_sessions f (revoke_all_for_operator operator now)

unfoldable pub reset_password : OperatorFacade → ℕ → String → Exec Accounts (Unit {0})
reset_password f operator new_password = do
  check (check_password_length new_password)
  stored ← query f (λ w. find_by_id operator w.operators)
  target ← or_fail err_operator_not_found stored
  new_hash ← ask (λ tick. f.hash_password tick new_password)
  on_operators f (update_password_hash operator new_hash)
  on_operators f (set_status operator active)
  now ← read f.now
  on_sessions f (revoke_all_for_operator operator now)

unfoldable pub operators_exist : OperatorFacade → Exec Accounts Bool
operators_exist f = query f (λ w. exists w.operators)

pub record LoggedInSession : Type 0 where
  pub operator_id : ℕ
  pub token : String
  pub csrf_token : String
  pub expires_at : ℕ

unfoldable pub mint_session : OperatorFacade → ℕ → Exec Accounts LoggedInSession
mint_session f operator = do
  token ← ask f.session_token
  csrf_token ← ask f.csrf_token
  now ← read f.now
  id ← read f.new_session_id
  on_sessions f (
      Keyed.put session_key (record {
        id = id;
        operator_id = operator;
        token_hash = f.hash_session_token token;
        csrf_token = csrf_token;
        created_at = now;
        expires_at = now + f.session_ttl;
        revoked_at = none;
      }))
  pure (record {
    operator_id = operator;
    token = token;
    csrf_token = csrf_token;
    expires_at = now + f.session_ttl;
  })

abbrev pub lock_time : OperatorFacade → Operator → ℕ → Option ℕ
lock_time f operator now =
    if leb (login_max_attempts_or_fallback f) (operator.failed_attempts + 1)
    then some (now + login_lockout_or_fallback f)
    else none

unfoldable pub fail_attempt : OperatorFacade → Operator → ℕ → Exec Accounts (Unit {0})
unfolding login_max_attempts_or_fallback login_lockout_or_fallback
fail_attempt f operator now =
    on_operators f (record_failed_attempt operator.id (lock_time f operator now))

-- Login once the operator is found, at the time that is read then.
unfoldable pub login_at : OperatorFacade → String → Operator → ℕ → Exec Accounts LoggedInSession
login_at f password operator now =
    if is_locked_out operator now
    then fail err_account_locked
    else if not (f.verify_password password operator.password_hash)
    then (fail_attempt f operator now >> fail err_invalid_credentials)
    else if not (is_active operator)
    then fail err_invalid_credentials
    else (on_operators f (reset_failed_attempts operator.id) >> mint_session f operator.id)

-- The comparison with the decoy hash for an unknown address takes time and decides nothing.
unfoldable pub login : OperatorFacade → String → String → Exec Accounts LoggedInSession
login f email password = do
  stored ← query f (λ w. find_by_email (f.normalize_email email) w.operators)
  operator ← or_fail err_invalid_credentials stored
  now ← read f.now
  login_at f password operator now

pub record AuthenticatedOperator : Type 0 where
  pub operator_id : ℕ
  pub session_id : ℕ
  pub csrf_token : String

unfoldable pub verify_session : OperatorFacade → String → Exec Accounts AuthenticatedOperator
verify_session f token = do
  let hash : List ℕ = f.hash_session_token token
  stored ← query f (λ w. find_by_token_hash hash w.sessions)
  session ← or_fail err_session_unauthorized stored
  check (fails_if (not (bytes_equal hash session.token_hash)) err_session_unauthorized)
  now ← read f.now
  check (fails_if (is_revoked session || is_expired session now) err_session_unauthorized)
  owner ← query f (λ w. find_by_id session.operator_id w.operators)
  operator ← or_fail err_session_unauthorized owner
  check (fails_if (not (is_active operator)) err_session_unauthorized)
  pure (record {
    operator_id = operator.id;
    session_id = session.id;
    csrf_token = session.csrf_token;
  })

abbrev pub live : Option OperatorSession → Option OperatorSession
live none = none
live (some s) = if is_revoked s then none else some s

abbrev pub end_session : OperatorFacade → Option OperatorSession → Exec Accounts (Unit {0})
end_session f none = pure tt
end_session f (some s) = read f.now >>= λ now. on_sessions f (revoke s.id now)

unfoldable pub logout : OperatorFacade → String → Exec Accounts (Unit {0})
logout f token = do
  stored ← query f (λ w. find_by_token_hash (f.hash_session_token token) w.sessions)
  end_session f (live stored)

unfoldable pub me : OperatorFacade → ℕ → Exec Accounts (ℕ × String)
me f operator = do
  stored ← query f (λ w. find_by_id operator w.operators)
  found ← or_fail err_session_unauthorized stored
  pure (found.id, found.email)
