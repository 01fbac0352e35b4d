-- ===== src/Tests/Errors.antt =====
-- Instances of the theorems on shared/errors, and runs of its code.
use re_master.Prelude.{
  String, ◌≡◌, ◌↔◌, refl, true, false, Option, none, some, List, [], ◌∷◌, ◌==◌, eq_iff,
}
use re_master.Prelude.Maps.{lookup, insert}
use re_master.Errors.Types.{
  Error, wrapped, grpc_status, to_error, AppError, Code, new_unauthorized_error, unauthenticated,
}
use re_master.Errors.Chain.{as_app_error}
use re_master.Errors.Mapping.{to_grpc_code}
use re_master.Errors.Mapping.RoundTrip
use re_master.Errors.Mapping.RoundTrip.{status-IsMade}
use re_master.Errors.Handlers.{
  Status, handle_grpc_error, handle_grpc_to_http, handle_http_error, handle_gin_error,
}
use re_master.Errors.Handlers.EndToEnd.{Decodes, end_to_end, wrapped_differs}
use re_master.Errors.Validator.{new, check, unique, valid}
use re_master.Errors.Validator.Laws.{Rule, run}
use re_master.Errors.Validator.Uniqueness.{NoRepeat, unique_iff}

abbrev from_error : Error → Option Status
from_error (grpc_status c m) = some (record { code = c; message = m; details = [] })
from_error _ = none

from_error-Decodes : Decodes from_error
from_error-Decodes c m h = refl

abbrev code_text : Code → String
code_text unauthenticated = "Unauthenticated"
code_text _ = "Other"

abbrev denied : AppError
denied = new_unauthorized_error "invalid email or password"

abbrev denied_below : Error
denied_below = wrapped "service" (to_error denied)

denied_held : as_app_error denied_below ≡ some denied
unfolding as_app_error
denied_held = refl

end_to_end_example :
    let answer = handle_grpc_to_http from_error code_text (handle_grpc_error denied_below) in
    (answer.status ≡ denied.status_code)
    × (answer.status ≡ (handle_http_error denied_below).status)
    × (answer.body.error ≡ denied.message)
    × (answer.body.error ≡ (handle_http_error denied_below).body.error)
    × (answer.body.details ≡ none)
end_to_end_example =
    end_to_end from_error code_text from_error-Decodes denied_below denied_held
      (RoundTrip.unauthorized "invalid email or password")

answered_401 :
    (handle_grpc_to_http from_error code_text (handle_grpc_error denied_below)).body
    ≡ record { error = "invalid email or password"; code = "Unauthenticated"; details = none }
unfolding handle_grpc_to_http handle_grpc_error new_unauthorized_error to_grpc_code
answered_401 = refl

wrapped_differs_example :
    ((handle_http_error (wrapped "outer" denied_below)).status ≡ denied.status_code)
    × ((handle_http_error (wrapped "outer" denied_below)).body.error ≡ denied.message)
    × ((handle_gin_error (wrapped "outer" denied_below)).status ≡ 500)
    × ((handle_gin_error (wrapped "outer" denied_below)).body.error ≡ "Internal server error")
wrapped_differs_example = wrapped_differs "outer" denied_below denied_held

abbrev rules : List Rule
rules =
    record { passes = true; key = "name"; message = "unused" }
    ∷ record { passes = false; key = "age"; message = "must be given" }
    ∷ record { passes = false; key = "age"; message = "must be positive" }
    ∷ []

rules_invalid : valid (run rules new) ≡ false
unfolding valid new check lookup insert
rules_invalid = refl

unique_iff_example : (unique ◌==◌ ("a" ∷ "b" ∷ []) ≡ true) ↔ NoRepeat {T = String} ("a" ∷ "b" ∷ [])
unique_iff_example = unique_iff ◌==◌ eq_iff ("a" ∷ "b" ∷ [])

unique_tests : (unique ◌==◌ ("a" ∷ "b" ∷ []) ≡ true) × (unique ◌==◌ ("a" ∷ "b" ∷ "a" ∷ []) ≡ false)
unfolding unique
unique_tests = (refl, refl)
