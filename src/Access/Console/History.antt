-- ===== src/Access/Console/History.antt =====
-- The surface of OperatorFacade of server/internal/access/operator_facade.go as a state machine.
use beecon.Base.{ℕ, String, List, [], ◌∷◌}
use beecon.Access.Console.{
  OperatorFacade, Accounts, bootstrap, list_operators, create_operator, change_my_password,
  deactivate, reset_password, operators_exist, login, verify_session, logout, me,
}

pub data Request : Type 0 where
  bootstraps : (email password : String) → Request
  lists_operators : Request
  creates_operator : (email password : String) → Request
  changes_password : (operator session : ℕ) (current_password new_password : String) → Request
  deactivates : (operator : ℕ) → Request
  resets_password : (operator : ℕ) (new_password : String) → Request
  asks_existence : Request
  logs_in : (email password : String) → Request
  verifies_session : (token : String) → Request
  logs_out : (token : String) → Request
  asks_me : (operator : ℕ) → Request

-- The accounts after a request, whatever it returned.
unfoldable pub serve : OperatorFacade → Accounts → Request → Accounts
serve f w (bootstraps email password) = (bootstrap f email password w).1
serve f w lists_operators = (list_operators f w).1
serve f w (creates_operator email password) = (create_operator f email password w).1
serve f w (changes_password operator session current new) =
    (change_my_password f operator session current new w).1
serve f w (deactivates operator) = (deactivate f operator w).1
serve f w (resets_password operator new_password) = (reset_password f operator new_password w).1
serve f w asks_existence = (operators_exist f w).1
serve f w (logs_in email password) = (login f email password w).1
serve f w (verifies_session token) = (verify_session f token w).1
serve f w (logs_out token) = (logout f token w).1
serve f w (asks_me operator) = (me f operator w).1

unfoldable pub serve_all : OperatorFacade → Accounts → List Request → Accounts
unfolding serve
serve_all f w [] = w
serve_all f w (r ∷ rs) = serve_all f (serve f w r) rs
