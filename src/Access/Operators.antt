-- ===== src/Access/Operators.antt =====
-- server/internal/access/operator.go, operator_session.go, and the two repositories
-- driven/memory/operator_repository.go and operator_session_repository.go, whose maps are lists with
-- distinct keys.
pub mod Emails
use Prim.Native.String.{◌∷◌ as cons_text, [] as no_text}
use Prim.Native.Char.{code}
use beecon.Base.{
  ℕ, suc, ◌+◌, String, Bool, true, false, not, ◌&&◌, ◌||◌, Option, none, some, is_some, List, [],
  ◌∷◌, map, filter, count, length, ltb, ◌==◌, str_eq, if◌then◌else◌,
}
use beecon.Base.Keyed

pub data OperatorStatus : Type 0 where
  active disabled : OperatorStatus

pub record Operator : Type 0 where
  pub id : ℕ
  pub email : String
  pub password_hash : String
  pub status : OperatorStatus
  pub failed_attempts : ℕ
  pub locked_until : Option ℕ
  pub created_at : ℕ

abbrev status_is_active : OperatorStatus → Bool
status_is_active active = true
status_is_active disabled = false

unfoldable pub is_active : Operator → Bool
is_active o = status_is_active o.status

-- `o.LockedUntil != nil && now.Before(*o.LockedUntil)`
abbrev pub before : ℕ → Option ℕ → Bool
before now none = false
before now (some until) = ltb now until

unfoldable pub is_locked_out : Operator → ℕ → Bool
is_locked_out o now = before now o.locked_until

abbrev pub at_sign : ℕ
at_sign = 64

abbrev pub full_stop : ℕ
full_stop = 46

unfoldable pub contains_char : ℕ → String → Bool
contains_char c no_text = false
contains_char c (cons_text d s) = (code d == c) || contains_char c s

-- strings.IndexByte(email, '@') and the two slices around it: what comes before the first `@`, and
-- what comes after it.
unfoldable pub cut_at_sign : String → Option (String × String)
cut_at_sign no_text = none
cut_at_sign (cons_text d s) =
    let rest = cut_at_sign s in
    if code d == at_sign
    then some ("", s)
    else elim rest [ none ↦ none | some (local, domain) ↦ some (cons_text d local, domain) ]

-- `at <= 0 || at == len(email)-1` are the cases of no `@`, an empty local part and an empty domain.
unfoldable pub looks_like_email : String → Bool
unfolding cut_at_sign contains_char
looks_like_email email = elim (cut_at_sign email) [
  | none ↦ false
  | some (local, domain) ↦
      if str_eq local "" || str_eq domain ""
      then false
      else not (contains_char at_sign local) && contains_char full_stop domain
]

pub record OperatorSession : Type 0 where
  pub id : ℕ
  pub operator_id : ℕ
  pub token_hash : List ℕ
  pub csrf_token : String
  pub created_at : ℕ
  pub expires_at : ℕ
  pub revoked_at : Option ℕ

unfoldable pub is_expired : OperatorSession → ℕ → Bool
is_expired s now = not (ltb now s.expires_at)

unfoldable pub is_revoked : OperatorSession → Bool
is_revoked s = is_some s.revoked_at

abbrev pub operator_key : Operator → ℕ
operator_key o = o.id

abbrev pub session_key : OperatorSession → ℕ
session_key s = s.id

-- OperatorRepository.
unfoldable pub find_by_email : String → List Operator → Option Operator
find_by_email email [] = none
find_by_email email (o ∷ os) = if str_eq o.email email then some o else find_by_email email os

unfoldable pub find_by_id : ℕ → List Operator → Option Operator
find_by_id id os = Keyed.find operator_key id os

unfoldable pub exists : List Operator → Bool
exists os = ltb 0 (length os)

unfoldable pub count_active : List Operator → ℕ
count_active os = count is_active os

-- The shape of the methods that change one operator: an unknown id is left alone.
unfoldable pub update_operator : (Operator → Operator) → ℕ → List Operator → List Operator
update_operator change id os = elim (Keyed.find operator_key id os) [
  | none ↦ os
  | some o ↦ Keyed.put operator_key (change o) os
]

unfoldable pub update_password_hash : ℕ → String → List Operator → List Operator
unfolding update_operator
update_password_hash id password_hash =
    update_operator (λ o. record o { password_hash = password_hash }) id

unfoldable pub set_status : ℕ → OperatorStatus → List Operator → List Operator
unfolding update_operator
set_status id status = update_operator (λ o. record o { status = status }) id

abbrev pub or_before : Option ℕ → Option ℕ → Option ℕ
or_before none before = before
or_before (some t) before = some t

unfoldable pub record_failed_attempt : ℕ → Option ℕ → List Operator → List Operator
unfolding update_operator
record_failed_attempt id locked_until =
    update_operator
      (λ o. record o {
        failed_attempts = suc o.failed_attempts;
        locked_until = or_before locked_until o.locked_until;
      })
      id

unfoldable pub reset_failed_attempts : ℕ → List Operator → List Operator
unfolding update_operator
reset_failed_attempts id =
    update_operator (λ o. record o { failed_attempts = 0; locked_until = none }) id

-- OperatorSessionRepository. bytes.Equal first.
unfoldable pub bytes_equal : List ℕ → List ℕ → Bool
bytes_equal [] [] = true
bytes_equal [] (y ∷ ys) = false
bytes_equal (x ∷ xs) [] = false
bytes_equal (x ∷ xs) (y ∷ ys) = (x == y) && bytes_equal xs ys

unfoldable pub find_by_token_hash : List ℕ → List OperatorSession → Option OperatorSession
unfolding bytes_equal
find_by_token_hash hash [] = none
find_by_token_hash hash (s ∷ ss) =
    if bytes_equal s.token_hash hash then some s else find_by_token_hash hash ss

abbrev revoke_at : ℕ → OperatorSession → OperatorSession
revoke_at at s = record s { revoked_at = some at }

unfoldable pub revoke : ℕ → ℕ → List OperatorSession → List OperatorSession
unfolding is_revoked
revoke id at ss = elim (Keyed.find session_key id ss) [
  | none ↦ ss
  | some s ↦ if is_revoked s then ss else Keyed.put session_key (revoke_at at s) ss
]

-- One round of the loops of RevokeAllForOperator and RevokeAllForOperatorExcept.
unfoldable pub revoke_of : ℕ → ℕ → OperatorSession → OperatorSession
unfolding is_revoked
revoke_of operator at s =
    if not (s.operator_id == operator) || is_revoked s then s else revoke_at at s

unfoldable pub revoke_all_for_operator : ℕ → ℕ → List OperatorSession → List OperatorSession
unfolding revoke_of
revoke_all_for_operator operator at = map (revoke_of operator at)

unfoldable pub revoke_of_except : ℕ → ℕ → ℕ → OperatorSession → OperatorSession
unfolding is_revoked
revoke_of_except operator except at s =
    if not (s.operator_id == operator) || is_revoked s || (s.id == except)
    then s
    else revoke_at at s

unfoldable pub revoke_all_for_operator_except :
    ℕ → ℕ → ℕ → List OperatorSession → List OperatorSession
unfolding revoke_of_except
revoke_all_for_operator_except operator except at = map (revoke_of_except operator except at)
