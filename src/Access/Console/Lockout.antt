-- ===== src/Access/Console/Lockout.antt =====
-- The brute-force lockout of Login in server/internal/access/operator_facade.go, over a row of wrong
-- guesses, and what ResetPassword leaves of it.
use beecon.Base.{
  ℕ, suc, ◌+◌, ◌*◌, ◌<◌, ◌≡◌, ◌≢◌, refl, sym, ap, subst, ◌∙◌, String, true, false, none, some, List,
  [], ◌∷◌, length, arith, All, str_eq, Bool-cases, inl, inr,
}
use beecon.Base.Keyed
use beecon.Base.Effects.{ok, err, Result-cases, ◌>>=◌}
use beecon.Access.Errors.{err_account_locked, err_invalid_credentials}
use beecon.Access.Operators.{
  Operator, active, is_locked_out, before, or_before, find_by_email, find_by_id, update_operator,
  record_failed_attempt, update_password_hash, set_status, operator_key,
}
use beecon.Access.Console.{
  OperatorFacade, Accounts, login, login_at, fail_attempt, lock_time,
  login_max_attempts_or_fallback, login_lockout_or_fallback, query, call, read, ask, on_operators,
  on_sessions, reset_password,
}

absent_email :
    (P : Operator → Type 0) (email : String) (os : List Operator) (o : Operator)
    → All P os
    → find_by_email email os ≡ some o
    → P o
unfolding find_by_email
absent_email P email [] o h e = ground arith
absent_email P email (x ∷ xs) o h e = elim (Bool-cases (str_eq x.email email)) [
  | inl hit ↦ subst P (ground (arith, hit)) h.0
  | inr miss ↦ absent_email P email xs o h.1 (ground (arith, miss))
]

-- Writing an operator back leaves it where its address is looked up.
find_by_email-put :
    (email : String) (os : List Operator) (o o' : Operator)
    → Keyed.Distinct operator_key os
    → find_by_email email os ≡ some o
    → o'.id ≡ o.id
    → o'.email ≡ o.email
    → find_by_email email (Keyed.put operator_key o' os) ≡ some o'
unfolding find_by_email Keyed.put
find_by_email-put email [] o o' d f i m = ground arith
find_by_email-put email (x ∷ xs) o o' d f i m = elim (Bool-cases (str_eq x.email email)) [
  | inl hit ↦
      let same : x ≡ o = ground (arith, hit) in
      let key : x.id ≡ o'.id = ap (λ (y : Operator). y.id) same ∙ sym i in
      let mail : str_eq o'.email email ≡ true =
        subst (λ (t : String). str_eq t email ≡ true) (ap (λ (y : Operator). y.email) same ∙ sym m)
          hit in
      ground (arith, key, mail)
  | inr miss ↦
      let later : find_by_email email xs ≡ some o = ground (arith, miss) in
      let other : o.id ≢ x.id = absent_email (λ y. y.id ≢ x.id) email xs o d.0 later in
      ground (arith, find_by_email-put email xs o o' d.1 later i m)
]

find_by_email-found :
    (email : String) (os : List Operator) (o : Operator)
    → Keyed.Distinct operator_key os
    → find_by_email email os ≡ some o
    → Keyed.find operator_key o.id os ≡ some o
unfolding find_by_email
find_by_email-found email os o d f =
    absent_email (λ x. Keyed.find operator_key x.id os ≡ some x) email os o
      (Keyed.find_self operator_key os d) f

-- The operator who signs in with this address, and that every id is taken once.
pub record Stored (f : OperatorFacade) (email : String) (w : Accounts) (o : Operator) : Type 0 where
  pub distinct : Keyed.Distinct operator_key w.operators
  pub found : find_by_email (f.normalize_email email) w.operators ≡ some o

-- The same operator with one wrong guess more.
abbrev after_guess : OperatorFacade → Operator → ℕ → Operator
after_guess f o now = record o {
  failed_attempts = suc o.failed_attempts;
  locked_until = or_before (lock_time f o now) o.locked_until;
}

module _ (f : OperatorFacade) (no_fault : (n : ℕ) → f.fault n ≡ none) (email : String) where
  recorded :
      (w : Accounts) (o : Operator) (now : ℕ)
      → Stored f email w o
      → record_failed_attempt o.id (lock_time f o now) w.operators
        ≡ Keyed.put operator_key (after_guess f o now) w.operators
  unfolding record_failed_attempt update_operator
  recorded w o now s =
      let found = find_by_email-found (f.normalize_email email) w.operators o s.distinct s.found in
      rw (found, update_operator) refl

  -- A wrong guess while the account is open.
  record Guessed (w : Accounts) (o : Operator) (password : String) : Type 0 where
    refused : (login f email password w).0 ≡ err err_invalid_credentials
    tick : (login f email password w).1.tick ≡ w.tick + 3
    operators :
        (login f email password w).1.operators
        ≡ Keyed.put operator_key (after_guess f o (f.now (w.tick + 1))) w.operators

  guess :
      (w : Accounts) (o : Operator) (password : String)
      → Stored f email w o
      → is_locked_out o (f.now (w.tick + 1)) ≡ false
      → f.verify_password password o.password_hash ≡ false
      → Guessed w o password
  unfolding login login_at fail_attempt ◌>>=◌ query call read on_operators
  guess w o password s unlocked wrong = record {
    refused = ground (arith, no_fault w.tick, no_fault (w.tick + 2), s.found, unlocked, wrong);
    tick = ground (arith, no_fault w.tick, no_fault (w.tick + 2), s.found, unlocked, wrong);
    operators = ground (
      arith,
      no_fault w.tick,
      no_fault (w.tick + 2),
      s.found,
      unlocked,
      wrong,
      recorded w o (f.now (w.tick + 1)) s,
    );
  }

  Guessed-Stored :
      (w : Accounts) (o : Operator) (password : String)
      → Stored f email w o
      → Guessed w o password
      → Stored f email (login f email password w).1 (after_guess f o (f.now (w.tick + 1)))
  Guessed-Stored w o password s g = record {
    distinct = rw g.operators (Keyed.put-Distinct operator_key _ w.operators s.distinct);
    found = rw g.operators (
        find_by_email-put (f.normalize_email email) w.operators o
          (after_guess f o (f.now (w.tick + 1))) s.distinct s.found refl refl);
  }

-- One guess after the other, each a request to log in.
unfoldable pub guess_all : OperatorFacade → String → List String → Accounts → Accounts
guess_all f email [] w = w
guess_all f email (p ∷ ps) w = guess_all f email ps (login f email p w).1

module _ (f : OperatorFacade) (no_fault : (n : ℕ) → f.fault n ≡ none) (email : String) where
  -- The guess that reaches the limit is the last of these.
  locks_at_limit :
      (w : Accounts) (o : Operator) (p : String) (ps : List String)
      → Stored f email w o
      → o.locked_until ≡ none
      → o.failed_attempts + suc (length ps) ≡ login_max_attempts_or_fallback f
      → All (λ q. f.verify_password q o.password_hash ≡ false) (p ∷ ps)
      → (o' : Operator) × Stored f email (guess_all f email (p ∷ ps) w) o'
        × ((guess_all f email (p ∷ ps) w).tick ≡ w.tick + 3 * suc (length ps))
        × (o'.locked_until
            ≡ some (f.now (w.tick + 3 * length ps + 1) + login_lockout_or_fallback f))
  unfolding guess_all is_locked_out
  locks_at_limit w o p [] s free limit wrong =
      let g = guess f no_fault email w o p s (rw free refl) wrong.0 in
      (
        after_guess f o (f.now (w.tick + 1)),
        Guessed-Stored f no_fault email w o p s g,
        g.tick,
        ground arith,
      )
  locks_at_limit w o p (q ∷ qs) s free limit wrong =
      let g = guess f no_fault email w o p s (rw free refl) wrong.0 in
      let o₁ = after_guess f o (f.now (w.tick + 1)) in
      let w₁ = (login f email p w).1 in
      let (o', stored, tick, locked) =
        locks_at_limit w₁ o₁ q qs (Guessed-Stored f no_fault email w o p s g) (ground arith)
          (omega arith) wrong.1 in
      (
        o',
        stored,
        omega (arith, tick, g.tick),
        locked
            ∙ ap (λ (n : ℕ). some (f.now n + login_lockout_or_fallback f)) (omega (arith, g.tick)),
      )

-- As many wrong guesses in a row as the limit allows close an account that had no lockout: while the
-- lockout that the last of them has started runs, a login is refused with 429 whatever its password,
-- the right one included. The guesses and the login run while no repository call fails, and one after
-- the other: three calls of the ports each.
pub guess_all-locks :
    (f : OperatorFacade) (email : String) (w : Accounts) (o : Operator) (p : String)
    (ps : List String) (password : String)
    → ((n : ℕ) → f.fault n ≡ none)
    → Stored f email w o
    → o.locked_until ≡ none
    → o.failed_attempts + length (p ∷ ps) ≡ login_max_attempts_or_fallback f
    → All (λ q. f.verify_password q o.password_hash ≡ false) (p ∷ ps)
    → f.now (w.tick + 3 * length (p ∷ ps) + 1)
      < f.now (w.tick + 3 * length ps + 1) + login_lockout_or_fallback f
    → (login f email password (guess_all f email (p ∷ ps) w)).0 ≡ err err_account_locked
unfolding login login_at is_locked_out ◌>>=◌ query call read
guess_all-locks f email w o p ps password no_fault s free limit wrong soon =
    let (o', stored, tick, locked) = locks_at_limit f no_fault email w o p ps s free limit wrong in
    let w' = guess_all f email (p ∷ ps) w in
    let early : before (f.now (w'.tick + 1)) o'.locked_until ≡ true =
      rw (locked, tick) (ground (arith, soon)) in
    ground (arith, no_fault w'.tick, stored.found, early)

-- The operators after a password reset that returns.
reset_operators :
    (f : OperatorFacade) (id : ℕ) (new : String) (w : Accounts) (u : Unit {0})
    → (reset_password f id new w).0 ≡ ok u
    → (hash : String) × (f.hash_password (w.tick + 1) new ≡ ok hash)
      × ((reset_password f id new w).1.operators
          ≡ set_status id active (update_password_hash id hash w.operators))
unfolding reset_password ◌>>=◌ query call read ask on_operators on_sessions
reset_operators f id new w u h = elim (Result-cases (f.hash_password (w.tick + 1) new)) [
  | inl (hash, e) ↦ (hash, e, ground (arith, e))
  | inr (x, e) ↦ absurd (ground (arith, e))
]

find_by_id-update :
    (change : Operator → Operator) (id : ℕ) (os : List Operator) (o : Operator)
    → ((x : Operator) → (change x).id ≡ x.id)
    → find_by_id id os ≡ some o
    → find_by_id id (update_operator change id os) ≡ some (change o)
unfolding find_by_id update_operator
find_by_id-update change id os o same e =
    let e' : Keyed.find operator_key id os ≡ some o = e in
    let key : (change o).id ≡ id = same o ∙ Keyed.find-key operator_key id os o e in
    rw (e', update_operator) (ground (arith, key, Keyed.find-put operator_key id (change o) os))

-- A password reset that returns has made the operator active and given it the new password, and it
-- has left its count of wrong guesses and its lockout as they were.
pub reset_password_lem :
    (f : OperatorFacade) (id : ℕ) (new : String) (w : Accounts) (o : Operator) (u : Unit {0})
    → find_by_id id w.operators ≡ some o
    → (reset_password f id new w).0 ≡ ok u
    → (o' : Operator) × (find_by_id id (reset_password f id new w).1.operators ≡ some o')
      × (f.hash_password (w.tick + 1) new ≡ ok o'.password_hash)
      × (o'.status ≡ active)
      × (o'.locked_until ≡ o.locked_until)
      × (o'.failed_attempts ≡ o.failed_attempts)
unfolding update_password_hash set_status
reset_password_lem f id new w o u e h =
    let (hash, hashed, stored) = reset_operators f id new w u h in
    let o₁ : Operator = record o { password_hash = hash } in
    let o₂ : Operator = record o₁ { status = active } in
    let first =
      find_by_id-update (λ x. record x { password_hash = hash }) id w.operators o (λ x. refl) e in
    let second =
      find_by_id-update (λ x. record x { status = active }) id
        (update_password_hash id hash w.operators) o₁ (λ x. refl) first in
    (o₂, ap (λ (os : List Operator). find_by_id id os) stored ∙ second, hashed, refl, refl, refl)
