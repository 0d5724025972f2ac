-- ===== src/Access/Console/Active.antt =====
-- No history of requests to server/internal/access/operator_facade.go locks everyone out.
use beecon.Base.{
  ℕ, ◌<◌, ◌≡◌, refl, ap, ◌∙◌, String, true, Option, none, some, List, [], ◌∷◌, arith, inl, inr,
  Option-cases,
}
use beecon.Base.Keyed
use beecon.Base.Effects.{ok, pure, check, or_fail, ◌>>=◌, ◌>>◌}
use beecon.Base.Effects.Keeps.{
  Keeps, Keeps-bind_ok, Keeps-bind, Keeps-check, Keeps-pure, keeps_rules, Leads, Leads-bind_ok,
  Leads-bind_before,
}
use beecon.Access.Errors.{err_email_already_exists, err_operator_not_found}
use beecon.Access.Operators.{
  Operator, OperatorSession, disabled, is_active, operator_key, count_active, update_operator,
  find_by_email, revoke_all_for_operator, update_password_hash, set_status, record_failed_attempt,
  reset_failed_attempts, find_by_id,
}
use beecon.Access.Console.{
  OperatorFacade, Accounts, read, call, query, on_sessions, fails_if, found, on_operators,
  new_validated_operator, bootstrap, list_operators, create_operator, change_my_password,
  check_not_last, deactivate, reset_password, operators_exist, mint_session, fail_attempt, login_at,
  login, verify_session, live, end_session, logout, me,
}
use beecon.Access.Console.Frames.{
  OnOperators, on_operators-Operators, on_operators_lead, query_finds, query-Operators,
  operator_frames,
}
use beecon.Access.Console.History.{
  Request, bootstraps, lists_operators, creates_operator, changes_password, deactivates,
  resets_password, asks_existence, logs_in, verifies_session, logs_out, asks_me, serve, serve_all,
}

abbrev pub HasActive : List Operator → Type 0
HasActive os = 0 < count_active os

put-HasActive :
    (o : Operator) (os : List Operator)
    → is_active o ≡ true
    → HasActive os
    → HasActive (Keyed.put operator_key o os)
unfolding count_active
put-HasActive o os a h = omega (arith, Keyed.count-put-ge operator_key is_active o os a)

-- A change of an operator that is not less active than it was.
update-HasActive :
    (change : Operator → Operator) (id : ℕ) (os : List Operator)
    → ((o : Operator) → (change o).id ≡ o.id)
    → ((o : Operator) → is_active o ≡ true → is_active (change o) ≡ true)
    → HasActive os
    → HasActive (update_operator change id os)
unfolding update_operator count_active
update-HasActive change id os same more h = elim (Option-cases (Keyed.find operator_key id os)) [
  | inl e ↦ rw (e, update_operator) h
  | inr (o, e) ↦
      let key : (change o).id ≡ id = same o ∙ Keyed.find-key operator_key id os o e in
      let found : Keyed.find operator_key (change o).id os ≡ some o = rw key e in
      rw (e, update_operator)
        (ground (
          arith,
          more o,
          Keyed.count-put-ge operator_key is_active (change o) os,
          Keyed.count-put_over operator_key is_active (change o) o os found,
        ))
]

-- Disabling one of at least two active operators, or one that is not active.
disabled-HasActive :
    (id : ℕ) (os : List Operator) (o : Operator)
    → find_by_id id os ≡ some o
    → (is_active o ≡ true → 1 < count_active os)
    → HasActive os
    → HasActive (set_status id disabled os)
unfolding set_status update_operator find_by_id count_active
disabled-HasActive id os o e two h =
    let key : o.id ≡ id = Keyed.find-key operator_key id os o e in
    let o' : Operator = record o { status = disabled } in
    let found : Keyed.find operator_key o'.id os ≡ some o =
      ap (λ (k : ℕ). Keyed.find operator_key k os) key ∙ e in
    let e' : Keyed.find operator_key id os ≡ some o = e in
    rw (e', update_operator)
      (ground (arith, two, Keyed.count-put_over operator_key is_active o' o os found))

record Was (os : List Operator) (xs : List Operator) : Type 0 where
  same : xs ≡ os
  some_active : HasActive xs

module _ (f : OperatorFacade) where
  abbrev Good : Accounts → Type 0
  Good = OnOperators HasActive

  abbrev Still : List Operator → Accounts → Type 0
  Still os = OnOperators (Was os)

  relax : (os : List Operator) (w : Accounts) → Still os w → Good w
  relax os w h = record { holds = h.holds.some_active }

  new_operator :
      {E : List Operator → Type 0} (email password : String)
      → Keeps (OnOperators E) (new_validated_operator f email password)
  unfolding new_validated_operator
  new_operator email password = search (keeps_rules, operator_frames) depth 20

  update-Good :
      (change : Operator → Operator) (id : ℕ)
      → ((o : Operator) → (change o).id ≡ o.id)
      → ((o : Operator) → is_active o ≡ true → is_active (change o) ≡ true)
      → Keeps Good (on_operators f (update_operator change id))
  update-Good change id same more =
      on_operators-Operators f _ (λ os h. update-HasActive change id os same more h)

  put-Good :
      (o : Operator) → is_active o ≡ true → Keeps Good (on_operators f (Keyed.put operator_key o))
  put-Good o a = on_operators-Operators f _ (λ os h. put-HasActive o os a h)

  change_my_password-Good :
      (operator session : ℕ) (current new : String)
      → Keeps Good (change_my_password f operator session current new)
  unfolding change_my_password update_password_hash is_active
  change_my_password-Good operator session current new =
      Keeps-bind _ _ (search operator_frames) λ stored. Keeps-bind _ _ (Keeps-check _) λ _.
        Keeps-bind _ _ (Keeps-check _) λ _. Keeps-bind _ _ (search operator_frames) λ new_hash.
          Keeps-bind _ _ (update-Good _ operator (λ o. refl) (λ o a. a))
            λ _. search (keeps_rules, operator_frames)

  reset_password-Good : (operator : ℕ) (new : String) → Keeps Good (reset_password f operator new)
  unfolding reset_password update_password_hash set_status is_active
  reset_password-Good operator new = Keeps-bind _ _ (Keeps-check _) λ _.
      Keeps-bind _ _ (search operator_frames) λ stored.
        Keeps-bind _ _ (search keeps_rules) λ target.
          Keeps-bind _ _ (search operator_frames) λ new_hash.
            Keeps-bind _ _ (update-Good _ operator (λ o. refl) (λ o a. a)) λ _.
              Keeps-bind _ _ (update-Good _ operator (λ o. refl) (λ o a. refl))
                λ _. search (keeps_rules, operator_frames)

  mint_session-Operators :
      {E : List Operator → Type 0} (id : ℕ) → Keeps (OnOperators E) (mint_session f id)
  unfolding mint_session
  mint_session-Operators id = search (keeps_rules, operator_frames) depth 20

  fail_attempt-Good : (o : Operator) (now : ℕ) → Keeps Good (fail_attempt f o now)
  unfolding fail_attempt record_failed_attempt is_active
  fail_attempt-Good o now = update-Good _ o.id (λ x. refl) (λ x a. a)

  reset-Good : (id : ℕ) → Keeps Good (on_operators f (reset_failed_attempts id))
  unfolding reset_failed_attempts is_active
  reset-Good id = update-Good _ id (λ x. refl) (λ x a. a)

  login_at-Good :
      (password : String) (o : Operator) (now : ℕ) → Keeps Good (login_at f password o now)
  unfolding login_at
  login_at-Good password o now =
      search (keeps_rules, fail_attempt-Good, reset-Good, mint_session-Operators) depth 16

  login-Good : (email password : String) → Keeps Good (login f email password)
  unfolding login
  login-Good email password = search (keeps_rules, operator_frames, login_at-Good) depth 16

  logout-Good : (token : String) → Keeps Good (logout f token)
  unfolding logout
  logout-Good token = Keeps-bind _ _ (search operator_frames) λ stored. ended (live stored)
    where
      ended : (o : Option OperatorSession) → Keeps Good (end_session f o)
      ended none = Keeps-pure tt
      ended (some s) = search (keeps_rules, operator_frames)

  verify_session-Good : (token : String) → Keeps Good (verify_session f token)
  unfolding verify_session
  verify_session-Good token = search (keeps_rules, operator_frames) depth 24

  me-Good : (operator : ℕ) → Keeps Good (me f operator)
  unfolding me
  me-Good operator = search (keeps_rules, operator_frames) depth 12

  list_operators-Good : Keeps Good (list_operators f)
  unfolding list_operators
  list_operators-Good = search (keeps_rules, operator_frames)

  operators_exist-Good : Keeps Good (operators_exist f)
  unfolding operators_exist
  operators_exist-Good = search operator_frames

  -- The account that CreateOperator and Bootstrap save is an active one.
  new_operator-active :
      (email password : String) (w : Accounts) (o : Operator)
      → (new_validated_operator f email password w).0 ≡ ok o
      → is_active o ≡ true
  unfolding new_validated_operator ◌>>=◌ is_active
  new_operator-active email password w o h = ground arith

  bootstrap-Good : (email password : String) → Keeps Good (bootstrap f email password)
  unfolding bootstrap
  bootstrap-Good email password = Keeps-bind _ _ (search operator_frames) λ taken.
      Keeps-bind _ _ (Keeps-check _) λ _. Keeps-bind_ok _ _ (new_operator email password) λ o w h e.
        (saved o (new_operator-active email password w o e)).at _
          ((new_operator email password).at w h)
    where
      saved :
          (o : Operator)
          → is_active o ≡ true
          → Keeps {A = ℕ × String} Good
              (on_operators f (Keyed.put operator_key o) >> pure (o.id, o.email))
      saved o a = Keeps-bind _ _ (put-Good o a) λ _. Keeps-pure _

  create_operator-Good : (email password : String) → Keeps Good (create_operator f email password)
  unfolding create_operator
  create_operator-Good email password = Keeps-bind_ok _ _ (new_operator email password) λ o w h e.
      (saved o (new_operator-active email password w o e)).at _
        ((new_operator email password).at w h)
    where
      saved :
          (o : Operator)
          → is_active o ≡ true
          → Keeps {A = ℕ × String} Good (
              query f (λ w. find_by_email o.email w.operators) >>= λ existing.
              check (fails_if (found existing) err_email_already_exists) >>= λ _.
              on_operators f (Keyed.put operator_key o) >> pure (o.id, o.email))
      saved o a = Keeps-bind _ _ (search operator_frames) λ existing.
          Keeps-bind _ _ (Keeps-check _) λ _. Keeps-bind _ _ (put-Good o a) λ _. Keeps-pure _

  check_not_last-Still : (os : List Operator) (o : Operator) → Keeps (Still os) (check_not_last f o)
  unfolding check_not_last
  check_not_last-Still os o = search (keeps_rules, operator_frames)

  check_not_last_passes :
      (o : Operator) (w : Accounts) (u : Unit {0})
      → (check_not_last f o w).0 ≡ ok u
      → is_active o ≡ true
      → 1 < count_active w.operators
  unfolding check_not_last ◌>>=◌ query call
  check_not_last_passes o w u h a = ground arith

  deactivate-Good : (operator : ℕ) → Keeps Good (deactivate f operator)
  unfolding deactivate ◌>>=◌
  deactivate-Good operator = record {
    at = λ w h.
        (from w.operators).at w (record { holds = record { same = refl; some_active = h.holds } });
  }
    where
      disabled_now :
          (os : List Operator) (o : Operator)
          → find_by_id operator os ≡ some o
          → (is_active o ≡ true → 1 < count_active os)
          → Leads (Still os) Good (on_operators f (set_status operator disabled))
      disabled_now os o e two =
          on_operators_lead f _ (λ xs w. w.some_active)
            (λ xs w.
              rw w.same (disabled-HasActive operator os o e two (rw (← w.same) w.some_active)))

      target :
          (os : List Operator) (o : Operator) (w : Accounts)
          → Still os w
          → find_by_id operator os ≡ some o
          → Good
              ((check_not_last f o >>= λ _. on_operators f (set_status operator disabled) >>= λ _.
                  read f.now >>= λ now. on_sessions f (revoke_all_for_operator operator now))
                w).1
      target os o w h e =
          (Leads-bind_ok _ _ (relax os) (check_not_last-Still os o) λ u s before after passed.
              (Leads-bind_before _ _
                  (disabled_now os o e
                    (λ a. rw (← before.holds.same) (check_not_last_passes o s u passed a)))
                  (λ _. search (keeps_rules, operator_frames))).at
                _ after).at
            w h

      from : (os : List Operator) → Leads (Still os) Good (deactivate f operator)
      from os = Leads-bind_ok _ _ (relax os) (query-Operators f _) λ stored s before after got.
          cases os stored _ after
            (rw (← before.holds.same) (query_finds f (find_by_id operator) s stored got))
        where
          cases :
              (os : List Operator) (stored : Option Operator) (w : Accounts)
              → Still os w
              → find_by_id operator os ≡ stored
              → Good
                  ((or_fail err_operator_not_found stored >>= λ o. check_not_last f o >>= λ _.
                      on_operators f (set_status operator disabled) >>= λ _.
                      read f.now >>= λ now. on_sessions f (revoke_all_for_operator operator now))
                    w).1
          cases os none w h e = relax os w h
          cases os (some o) w h e = target os o w h e

  serve-HasActive : (w : Accounts) (r : Request) → Good w → Good (serve f w r)
  unfolding serve
  serve-HasActive w (bootstraps email password) h = (bootstrap-Good email password).at w h
  serve-HasActive w lists_operators h = list_operators-Good.at w h
  serve-HasActive w (creates_operator email password) h =
      (create_operator-Good email password).at w h
  serve-HasActive w (changes_password operator session current new) h =
      (change_my_password-Good operator session current new).at w h
  serve-HasActive w (deactivates operator) h = (deactivate-Good operator).at w h
  serve-HasActive w (resets_password operator new) h = (reset_password-Good operator new).at w h
  serve-HasActive w asks_existence h = operators_exist-Good.at w h
  serve-HasActive w (logs_in email password) h = (login-Good email password).at w h
  serve-HasActive w (verifies_session token) h = (verify_session-Good token).at w h
  serve-HasActive w (logs_out token) h = (logout-Good token).at w h
  serve-HasActive w (asks_me operator) h = (me-Good operator).at w h

  serves : (w : Accounts) (rs : List Request) → Good w → Good (serve_all f w rs)
  unfolding serve_all
  serves w [] h = h
  serves w (r ∷ rs) h = serves (serve f w r) rs (serve-HasActive w r h)

-- While the installation has an active operator, it still has one
-- after any history of requests to the operator facade, whichever of their calls fail.
pub serve_all-HasActive :
    (f : OperatorFacade) (w : Accounts) (rs : List Request)
    → HasActive w.operators
    → HasActive (serve_all f w rs).operators
serve_all-HasActive f w rs h = (serves f w rs (record { holds = h })).holds
