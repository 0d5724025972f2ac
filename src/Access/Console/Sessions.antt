-- ===== src/Access/Console/Sessions.antt =====
-- Which sessions of server/internal/access/operator_facade.go still open the console.
use beecon.Base.{
  ℕ, ◌+◌, ◌≡◌, ◌≢◌, String, true, false, some, List, [], ◌∷◌, arith, All, Option-cases, inl, inr,
}
use beecon.Base.Effects.{Result, ok, err, Exec, continue, ◌>>=◌}
use beecon.Access.Operators.{
  Operator, OperatorSession, is_active, is_revoked, is_expired, find_by_token_hash, find_by_id,
  revoke_all_for_operator, revoke_of,
}
use beecon.Access.Console.{
  OperatorFacade, Accounts, AuthenticatedOperator, query, call, read, verify_session, deactivate,
  reset_password, on_sessions,
}

-- A session of this operator, other than `except`, is revoked.
abbrev pub EndedExcept : ℕ → ℕ → OperatorSession → Type 0
EndedExcept operator except s = s.operator_id ≡ operator → s.id ≢ except → is_revoked s ≡ true

abbrev pub Ended : ℕ → OperatorSession → Type 0
Ended operator s = s.operator_id ≡ operator → is_revoked s ≡ true

revoke_of-Ended :
    (operator at : ℕ) (ss : List OperatorSession)
    → All (Ended operator) (revoke_all_for_operator operator at ss)
unfolding revoke_all_for_operator revoke_of
revoke_of-Ended operator at [] = tt
revoke_of-Ended operator at (s ∷ ss) = ((λ e. ground arith), revoke_of-Ended operator at ss)

-- An action after which, if it returns, `P` holds.
record Ensures {A : Type 0} (P : List OperatorSession → Type 0) (m : Exec Accounts A) : Type 0 where
  at : (w : Accounts) (a : A) → (m w).0 ≡ ok a → P (m w).1.sessions

module _ {A B : Type 0} {P : List OperatorSession → Type 0} where
  Ensures-bind :
      (m : Exec Accounts A) (k : A → Exec Accounts B)
      → ((a : A) → Ensures P (k a))
      → Ensures P (m >>= k)
  unfolding ◌>>=◌
  Ensures-bind m k h = record { at = λ w b e. go (m w).0 (m w).1 b e }
    where
      go :
          (r : Result A) (w : Accounts) (b : B)
          → (continue r k w).0 ≡ ok b
          → P (continue r k w).1.sessions
      go (ok a) w b e = (h a).at w b e
      go (err x) w b e = absurd (ground arith)

on_sessions-Ensures :
    {P : List OperatorSession → Type 0} (f : OperatorFacade)
    (g : List OperatorSession → List OperatorSession)
    → ((ss : List OperatorSession) → P (g ss))
    → Ensures P (on_sessions f g)
unfolding on_sessions call
on_sessions-Ensures f g h = record {
  at = λ w a e. elim (Option-cases (f.fault w.tick)) [
    | inl n ↦ rw (n, call) (h w.sessions)
    | inr (x, n) ↦ absurd (ground (arith, n))
  ];
}

-- A deactivation that returns has revoked every session of the operator.
pub deactivate-Ended :
    (f : OperatorFacade) (operator : ℕ) (w : Accounts) (u : Unit {0})
    → (deactivate f operator w).0 ≡ ok u
    → All (Ended operator) (deactivate f operator w).1.sessions
unfolding deactivate
deactivate-Ended f operator w u = gone.at w u
  where
    gone : Ensures (All (Ended operator)) (deactivate f operator)
    gone = Ensures-bind _ _ λ stored. Ensures-bind _ _ λ target. Ensures-bind _ _ λ _.
        Ensures-bind _ _ λ _.
          Ensures-bind _ _ λ now. on_sessions-Ensures f _ (λ ss. revoke_of-Ended operator now ss)

-- A password reset that returns has revoked every session of the operator.
pub reset_password-Ended :
    (f : OperatorFacade) (operator : ℕ) (new : String) (w : Accounts) (u : Unit {0})
    → (reset_password f operator new w).0 ≡ ok u
    → All (Ended operator) (reset_password f operator new w).1.sessions
unfolding reset_password
reset_password-Ended f operator new w u = reset.at w u
  where
    reset : Ensures (All (Ended operator)) (reset_password f operator new)
    reset = Ensures-bind _ _ λ _. Ensures-bind _ _ λ stored. Ensures-bind _ _ λ target.
        Ensures-bind _ _ λ h. Ensures-bind _ _ λ _. Ensures-bind _ _ λ _.
          Ensures-bind _ _ λ now. on_sessions-Ensures f _ (λ ss. revoke_of-Ended operator now ss)

-- The session that a token opens: it is stored under the hash of the token and not revoked, it has not
-- expired at a time that the clock showed, and it belongs to an operator who is stored and active.
pub record Opens (f : OperatorFacade) (token : String) (w : Accounts) (a : AuthenticatedOperator)
    : Type 0 where
  pub session : OperatorSession
  pub operator : Operator
  pub stored : find_by_token_hash (f.hash_session_token token) w.sessions ≡ some session
  pub live : is_revoked session ≡ false
  pub in_time : is_expired session (f.now (w.tick + 1)) ≡ false
  pub owner : find_by_id session.operator_id w.operators ≡ some operator
  pub owner_active : is_active operator ≡ true
  pub same_session : a.session_id ≡ session.id
  pub same_operator : a.operator_id ≡ operator.id

-- A session check succeeds only for a token whose session is stored, not revoked and not expired, and
-- whose operator is stored and active.
pub verify_session-Opens :
    (f : OperatorFacade) (token : String) (w : Accounts) (a : AuthenticatedOperator)
    → (verify_session f token w).0 ≡ ok a
    → Opens f token w a
unfolding verify_session ◌>>=◌ query call read
verify_session-Opens f token w a h =
    elim (Option-cases (find_by_token_hash (f.hash_session_token token) w.sessions)) [
      | inl e ↦ absurd (ground (arith, e))
      | inr (s, e) ↦ elim (Option-cases (find_by_id s.operator_id w.operators)) [
        | inl n ↦ absurd (ground (arith, e, n))
        | inr (o, n) ↦ record {
          session = s;
          operator = o;
          stored = e;
          live = ground (arith, e, n);
          in_time = ground (arith, e, n);
          owner = n;
          owner_active = ground (arith, e, n);
          same_session = ground (arith, e, n);
          same_operator = ground (arith, e, n);
        }
      ]
    ]
