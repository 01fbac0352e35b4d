-- ===== src/Gateway/Middleware/Common.antt =====
-- services/api-gateway/middleware/common.go. Log records and the request's logger are not modelled.
use re_master.Prelude.{
  ℕ, String, Bool, false, ◌||◌, Option, none, some, List, [], ◌∷◌, ◌==◌, nat_eq, ltb, if◌then◌else◌,
}
use re_master.Prelude.Text.{◌<>◌, contains}
use re_master.Errors.Types.{Error, plain, caused, new_internal_error, new_rate_limit_error}
use re_master.Errors.Handlers.{handle_gin_error}
use re_master.Exec.{Result, ok, err}
use re_master.Redis.{Redis}
use re_master.Gateway.Context.{Gin, KeyValue, string_value, failure}
use re_master.Gateway.Middleware.Auth.{refuse}

-- What a handler panics with: its text, and the text in lower case of the `*os.SyscallError` in it, if
-- it is a `*net.OpError` with one.
pub record Panic : Type 0 where
  pub text : String
  pub syscall_error : Option String

unfoldable pub is_broken_pipe : Option String → Bool
unfolding contains
is_broken_pipe none = false
is_broken_pipe (some s) = contains s "broken pipe" || contains s "connection reset by peer"

-- `c.Errors.Last()` of errors that are not empty.
abbrev pub last : Error → List Error → Error
last e [] = e
last e (d ∷ ds) = last d ds

module _ {C : Type 0} (g : Gin C) where
  -- `if len(c.Errors) > 0 { … eh.HandleGinError(c, err) … }`
  abbrev pub answer_last : List Error → C → C
  answer_last [] c = c
  answer_last (e ∷ es) c = g.json (failure (handle_gin_error (last e es))) c

  -- The correlation id that the request has, or a new one. A value that is not a string, on which the
  -- source panics, is kept.
  abbrev pub identified : Option KeyValue → C → C
  identified (some id) c = c
  identified none c = let (id, c₁) = g.new_uuid c in g.set "correlation_id" (string_value id) c₁

  unfoldable pub request_logger : (C → C) → C → C
  request_logger next c =
      let c' = next (identified (g.get "correlation_id" c) c) in answer_last (g.errors c') c'

  unfoldable pub gin_error_middleware : (C → C) → C → C
  gin_error_middleware next c = let c' = next c in answer_last (g.errors c') c'

  -- What the deferred function does with what it recovers.
  abbrev recovered : Option Panic → C → C
  recovered none c = c
  recovered (some p) c =
      let path = g.method c <> " " <> g.path c in
      if is_broken_pipe p.syscall_error
      then refuse g
          (new_internal_error ("Connection broken while handling " <> path)
            (caused (plain ("BROKEN_PIPE:" <> p.text))))
          c
      else if g.written c
      then g.abort c
      else refuse g
          (new_internal_error ("Panic recovered while handling " <> path) (caused (plain p.text))) c

  unfoldable pub recovery : (C → C × Option Panic) → C → C
  unfolding is_broken_pipe new_internal_error
  recovery next c = let (c', panic) = next c in recovered panic c'

  unfoldable pub cors : (C → C) → C → C
  cors next c =
      let c₁ = g.set_header "Access-Control-Allow-Origin" (g.get_header "Origin" c) c in
      let c₂ = g.set_header "Access-Control-Allow-Credentials" "true" c₁ in
      let c₃ =
        g.set_header "Access-Control-Allow-Headers"
          "Content-Type, Content-Length, Accept-Encoding, X-CSRF-Token, Authorization, accept, origin, Cache-Control, X-Requested-With"
          c₂ in
      let c₄ =
        g.set_header "Access-Control-Allow-Methods" "POST, GET, OPTIONS, PUT, DELETE, PATCH" c₃ in
      if g.method c₄ == "OPTIONS" then g.abort_with_status 204 c₄ else next c₄

  abbrev pub limit_key : C → String
  limit_key c = "ratelimit:" <> g.client_ip c

  -- What follows `rdb.Incr`. The result of `Expire` is dropped.
  abbrev counted : Redis C → ℕ → ℕ → String → (C → C) → Result ℕ × C → C
  counted r limit window key next (err e, c) =
      refuse g (new_internal_error "Rate limiter error" (caused e)) c
  counted r limit window key next (ok count, c) =
      let c' = if nat_eq count 1 then (r.expire_key key window c).1 else c in
      if ltb limit count then refuse g (new_rate_limit_error "Too many requests") c' else next c'

  unfoldable pub rate_limiter : Redis C → ℕ → ℕ → (C → C) → C → C
  unfolding new_internal_error new_rate_limit_error
  rate_limiter r limit window next c =
      counted r limit window (limit_key c) next (r.incr_key (limit_key c) c)
