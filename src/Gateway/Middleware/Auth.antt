-- ===== src/Gateway/Middleware/Auth.antt =====
-- services/api-gateway/middleware/auth.go
use re_master.Prelude.{String, not, ◌||◌, Option, none, some, List, ◌==◌, any, if◌then◌else◌}
use re_master.Prelude.Text.{starts_with, trim_prefix}
use re_master.Errors.Types.{AppError, to_error, new_unauthorized_error, new_forbidden_error}
use re_master.Exec.{Result, ok, err}
use re_master.Auth.Proto as Pb
use re_master.Gateway.Context.{Gin, AuthClient, KeyValue, string_value, other_value}

module _ {C : Type 0} (g : Gin C) where
  -- `c.Error(err); c.Abort(); return`
  abbrev pub refuse : AppError → C → C
  refuse e c = g.abort (g.add_error (to_error e) c)

  -- What follows the call of the authentication service.
  abbrev pub validated : (C → C) → Result Pb.ValidateTokenResponse × C → C
  validated next (ok resp, c) =
      if resp.valid
      then next (g.set "user_id" (string_value resp.user_id) c)
      else refuse (new_unauthorized_error "Invalid token") c
  validated next (err e, c) = refuse (new_unauthorized_error "Invalid token") c

  unfoldable pub require_auth : AuthClient C → (C → C) → C → C
  unfolding trim_prefix new_unauthorized_error
  require_auth client next c =
      let header = g.get_header "Authorization" c in
      let token = trim_prefix header "Bearer " in
      if header == "" || not (starts_with header "Bearer ")
      then refuse (new_unauthorized_error "Missing or invalid Authorization header") c
      else if token == ""
      then refuse (new_unauthorized_error "Token is empty") c
      else validated next (client.validate_token (record { access_token = token }) c)

  abbrev by_role : List String → (C → C) → Option KeyValue → C → C
  by_role roles next none c = refuse (new_unauthorized_error "Missing user role") c
  by_role roles next (some other_value) c = refuse (new_unauthorized_error "Invalid user role") c
  by_role roles next (some (string_value role)) c =
      if any (λ r. r == role) roles
      then next c
      else refuse (new_forbidden_error "Forbidden access, missing required role") c

  unfoldable pub require_role : List String → (C → C) → C → C
  unfolding new_unauthorized_error new_forbidden_error
  require_role roles next c = by_role roles next (g.get "user_role" c) c
