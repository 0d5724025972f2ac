-- ===== src/Access/Errors.antt =====
-- The errors of server/internal/access/errors.go, but for the one of the CSRF middleware.
use beecon.Base.{ℕ, String, List, [], ◌∷◌}
use beecon.Httpx.Errors.{Error, Arg, number, domain, new, unauthorized, validation_failed}

unfoldable pub err_validation : String → String → List Arg → Error
unfolding validation_failed
err_validation field issue args = validation_failed field issue args

unfoldable pub err_invalid_credentials : Error
unfolding unauthorized
err_invalid_credentials = domain (unauthorized "invalid credentials")

unfoldable pub err_session_unauthorized : Error
unfolding unauthorized
err_session_unauthorized = domain (unauthorized "invalid or expired session")

unfoldable pub err_operator_exists : Error
unfolding new
err_operator_exists = domain (new 409 "operator_exists" "an operator account already exists")

unfoldable pub err_password_too_short : ℕ → Error
unfolding err_validation
err_password_too_short min_length =
    err_validation "password" "must be at least %d characters" (number min_length ∷ [])

unfoldable pub err_invalid_email : Error
unfolding err_validation
err_invalid_email = err_validation "email" "must be a valid email address" []

unfoldable pub err_email_already_exists : Error
unfolding new
err_email_already_exists =
    domain (new 409 "email_exists" "an operator account with this email already exists")

unfoldable pub err_operator_not_found : Error
unfolding new
err_operator_not_found = domain (new 404 "operator_not_found" "operator not found")

unfoldable pub err_last_active_operator : Error
unfolding new
err_last_active_operator =
    domain (new 409 "last_active_operator" "cannot deactivate the last active operator")

unfoldable pub err_account_locked : Error
unfolding new
err_account_locked = domain (new 429 "account_locked" "too many failed attempts, try again later")

unfoldable pub err_key_not_found : Error
unfolding new
err_key_not_found = domain (new 404 "not_found" "api key not found")

unfoldable pub err_unauthorized : Error
unfolding unauthorized
err_unauthorized = domain (unauthorized "invalid or revoked api key")
