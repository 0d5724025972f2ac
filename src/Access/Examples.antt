-- ===== src/Access/Examples.antt =====
-- The operator console of server/internal/access on concrete inputs.
use beecon.Base.{
  ℕ, ◌+◌, ◌*◌, ◌≡◌, ◌<◌, refl, String, Bool, false, Option, none, some, List, [], ◌∷◌, arith,
  str_eq,
}
use beecon.Base.Effects.{Result, ok, err}
use beecon.Access.Errors.{err_account_locked}
use beecon.Access.Operators.{Operator, OperatorSession, active, disabled, find_by_id, is_revoked}
use beecon.Access.Console.{
  OperatorFacade, Accounts, AuthenticatedOperator, login, verify_session, deactivate,
  reset_password,
}
use beecon.Access.Console.History.{serve_all, deactivates, logs_in}
use beecon.Access.Console.Active.{HasActive, serve_all-HasActive}
use beecon.Access.Console.Sessions.{Opens, verify_session-Opens}
use beecon.Access.Console.Lockout.{guess_all, guess_all-locks, reset_password_lem}

abbrev a_console : OperatorFacade
a_console = record {
  now = λ n. n;
  fault = λ n. none;
  new_operator_id = λ n. n + 10;
  new_session_id = λ n. n + 10;
  session_ttl = 1_000;
  login_max_attempts = 3;
  login_lockout = 1_000;
  normalize_email = λ e. e;
  hash_password = λ n p. ok p;
  verify_password = str_eq;
  session_token = λ n. ok "token";
  csrf_token = λ n. ok "csrf";
  hash_session_token = λ t. 1 ∷ [];
}

abbrev an_operator : ℕ → String → Operator
an_operator id email = record {
  id = id;
  email = email;
  password_hash = "correct horse battery";
  status = active;
  failed_attempts = 0;
  locked_until = none;
  created_at = 0;
}

abbrev a_session : ℕ → List ℕ → OperatorSession
a_session id hash = record {
  id = id;
  operator_id = 1;
  token_hash = hash;
  csrf_token = "csrf";
  created_at = 0;
  expires_at = 500;
  revoked_at = none;
}

abbrev two_operators : Accounts
two_operators = record {
  operators = an_operator 1 "a@b.c" ∷ an_operator 2 "d@b.c" ∷ [];
  sessions = a_session 1 (1 ∷ []) ∷ a_session 2 (2 ∷ []) ∷ [];
  tick = 0;
}

serve_all-HasActive_example :
    HasActive
      (serve_all a_console two_operators
        (deactivates 1 ∷ deactivates 2 ∷ logs_in "a@b.c" "x" ∷ [])).operators
unfolding beecon.Access.Operators.count_active beecon.Base.Lists.count
    beecon.Access.Operators.is_active
serve_all-HasActive_example =
    serve_all-HasActive a_console two_operators
      (deactivates 1 ∷ deactivates 2 ∷ logs_in "a@b.c" "x" ∷ []) (omega arith)

verify_session-Opens_example :
    Opens a_console "token" two_operators
      (record { operator_id = 1; session_id = 1; csrf_token = "csrf" })
unfolding verify_session beecon.Base.Effects.◌>>=◌ beecon.Access.Console.query
    beecon.Access.Console.call beecon.Access.Operators.find_by_token_hash beecon.Access.Console.read
    is_revoked beecon.Access.Operators.is_expired find_by_id beecon.Base.Keyed.find
    beecon.Access.Operators.is_active
verify_session-Opens_example =
    verify_session-Opens a_console "token" two_operators
      (record { operator_id = 1; session_id = 1; csrf_token = "csrf" }) refl

guess_all-locks_example :
    (login a_console "a@b.c" "correct horse battery"
      (guess_all a_console "a@b.c" ("x" ∷ "y" ∷ "z" ∷ []) two_operators)).0
    ≡ err err_account_locked
unfolding beecon.Access.Operators.find_by_email beecon.Access.Console.login_max_attempts_or_fallback
    beecon.Access.Console.login_lockout_or_fallback
guess_all-locks_example =
    guess_all-locks a_console "a@b.c" two_operators (an_operator 1 "a@b.c") "x" ("y" ∷ "z" ∷ [])
      "correct horse battery" (λ n. refl)
      (record { distinct = (((λ e. omega arith), tt), (tt, tt)); found = refl }) refl refl
      (refl, (refl, (refl, tt))) (omega arith)

abbrev locked_operator : Operator
locked_operator = record (an_operator 1 "a@b.c") { failed_attempts = 3; locked_until = some 900 }

abbrev locked_accounts : Accounts
locked_accounts = record two_operators { operators = locked_operator ∷ [] }

reset_password_lem_example :
    (o' : Operator) × (find_by_id 1
        (reset_password a_console 1 "another horse battery" locked_accounts).1.operators
      ≡ some o')
    × (a_console.hash_password 1 "another horse battery" ≡ ok o'.password_hash)
    × (o'.status ≡ active)
    × (o'.locked_until ≡ some 900)
    × (o'.failed_attempts ≡ 3)
unfolding find_by_id beecon.Base.Keyed.find reset_password beecon.Base.Effects.◌>>=◌
    beecon.Access.Console.check_password_length beecon.Access.Console.query
    beecon.Access.Console.call beecon.Access.Console.ask beecon.Access.Console.on_operators
    beecon.Access.Console.read beecon.Access.Console.on_sessions
reset_password_lem_example =
    reset_password_lem a_console 1 "another horse battery" locked_accounts locked_operator tt refl
      refl

abbrev a_text : String
a_text = "a"
