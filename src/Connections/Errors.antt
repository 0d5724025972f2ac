-- ===== src/Connections/Errors.antt =====
-- server/internal/connections/errors.go. The names of the missing parameters are the arguments of
-- their error.
use beecon.Base.{String, List, [], ◌∷◌, map}
use beecon.Httpx.Errors.{Error, domain, new, with_details, text, validation_failed}
use beecon.Connections.Types.{Status, initiated, active, expired, disconnected}

unfoldable pub err_not_found : Error
unfolding new
err_not_found = domain (new 404 "not_found" "connection not found")

unfoldable pub err_redirect_uri_not_allowed : Error
unfolding validation_failed
err_redirect_uri_not_allowed =
    validation_failed "redirectUri" "not in organization's allowed redirect uris" []

unfoldable pub err_connect_link_invalid : Error
unfolding new
err_connect_link_invalid = domain (new 404 "connect_link_invalid" "this connection link is invalid")

unfoldable pub err_connect_link_expired : Error
unfolding new
err_connect_link_expired =
    domain (new 410 "connect_link_expired" "this connection link has expired — please start again")

unfoldable pub err_connect_link_already_completed : Error
unfolding new
err_connect_link_already_completed =
    domain (new 410 "connect_link_already_completed" "this connection has already been completed")

unfoldable pub err_state_missing : Error
unfolding new
err_state_missing =
    domain (new 400 "oauth_state_missing" "this connection request is missing its security token")

unfoldable pub err_state_unknown : Error
unfolding new
err_state_unknown =
    domain
      (new 400 "oauth_state_unknown" "this connection request's security token is not recognized")

unfoldable pub err_state_expired : Error
unfolding new
err_state_expired =
    domain
      (new 410 "oauth_state_expired" "this connection request has expired — please start again")

unfoldable pub err_state_already_used : Error
unfolding new
err_state_already_used =
    domain (new 410 "oauth_state_already_used" "this connection request has already been used")

unfoldable pub err_token_exchange_failed : Error
unfolding new
err_token_exchange_failed = domain (
    new 502 "oauth_token_exchange_failed"
      "we couldn't complete the connection with the provider — please try again")

unfoldable pub err_missing_required_params : List String → Error
unfolding new with_details
err_missing_required_params missing = domain (
    with_details (("field", text "params" ∷ []) ∷ ("missing", map text missing) ∷ [])
      (new 422 "missing_required_params" "validation failed"))

unfoldable pub err_invalid_cursor : Error
unfolding validation_failed
err_invalid_cursor = validation_failed "cursor" "malformed pagination cursor" []

abbrev status_text : Status → String
status_text initiated = "INITIATED"
status_text active = "ACTIVE"
status_text expired = "EXPIRED"
status_text disconnected = "DISCONNECTED"

unfoldable pub err_reconnect_not_allowed : Status → Error
unfolding new with_details
err_reconnect_not_allowed status = domain (
    with_details
      (("field", text "status" ∷ [])
        ∷ ("issue", text "connection is %s" ∷ text (status_text status) ∷ [])
        ∷ [])
      (new 422 "reconnect_not_allowed" "this connection cannot be reconnected right now"))
