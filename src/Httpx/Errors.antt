-- ===== src/Httpx/Errors.antt =====
-- server/internal/httpx/errors.go. The text that fmt.Sprintf makes for an issue is kept as its
-- format and its arguments. A details map is its entries, each value the texts in it.
use Prim.Native.Nat.{ℕ}
use Prim.Native.String.{String}
use mathlib.Core.Option.{Option, none, some}
use mathlib.Core.List.{List, [], ◌∷◌}

pub data Arg : Type 0 where
  text : String → Arg
  number : ℕ → Arg

abbrev pub Details : Type 0
Details = List (String × List Arg)

pub record DomainError : Type 0 where
  pub status : ℕ
  pub code : String
  pub message : String
  pub details : Option Details
  pub headers : List (String × String)

unfoldable pub new : ℕ → String → String → DomainError
new status code message = record {
  status = status;
  code = code;
  message = message;
  details = none;
  headers = [];
}

unfoldable pub with_details : Details → DomainError → DomainError
with_details d e = record e { details = some d }

unfoldable pub with_header : String → String → DomainError → DomainError
with_header key value e = record e { headers = (key, value) ∷ [] }

-- What a Go function returns as its `error`: a DomainError, or the error of something that is
-- called through a port, which the program passes on, or one that fmt.Errorf made of a text.
pub data Error : Type 0 where
  domain : DomainError → Error
  external : ℕ → Error
  formatted : String → Error

-- The shape that every module's ErrValidation has: 422, validation_failed, a field and an issue.
unfoldable pub validation_failed : String → String → List Arg → Error
unfolding new with_details
validation_failed field issue args = domain (
    with_details (("field", text field ∷ []) ∷ ("issue", text issue ∷ args) ∷ [])
      (new 422 "validation_failed" "validation failed"))

unfoldable pub unauthorized : String → DomainError
unfolding new
unauthorized message = new 401 "unauthorized" message
