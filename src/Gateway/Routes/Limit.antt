-- ===== src/Gateway/Routes/Limit.antt =====
-- A request over the limit of requests, in the chain of middleware of server/routes.go.
use re_master.Prelude.{
  ℕ, ◌<◌, ◌≡◌, refl, ap, ◌∙◌, Option, List, [], ◌∷◌, ◌++◌, arith, nat_eq, ltb, true, false,
}
use re_master.Errors.Types.{to_error, new_rate_limit_error}
use re_master.Errors.Handlers.{handle_gin_error}
use re_master.Exec.{ok}
use re_master.Redis.{Redis}
use re_master.Gateway.Context.{Gin, Reply, failure}
use re_master.Gateway.Middleware.Auth.{refuse}
use re_master.Gateway.Middleware.Common.{Panic, identified, limit_key}
use re_master.Gateway.Middleware.Replies.{Observes, replies-answer_last}
use re_master.Gateway.Routes.{chain}

module _ {C : Type 0} {g : Gin C} {replies : C → List Reply} (laws : Observes g replies)
    (r : Redis C) where
  errors-refused :
      (c : C)
      → g.errors c ≡ []
      → g.errors (refuse g (new_rate_limit_error "Too many requests") c)
        ≡ to_error (new_rate_limit_error "Too many requests") ∷ []
  errors-refused c clean =
      laws.abort-errors _
      ∙ laws.add_error-errors _ c
      ∙ ap (λ es. es ++ to_error (new_rate_limit_error "Too many requests") ∷ []) clean

  -- With what gin promises of a context (`Observes`): if the counter of the client's address shows more
  -- than 100 requests, and no error was added before, then the request is answered once, with 429,
  -- and no handler is run.
  pub over_limit_refused :
      (handler : C → C × Option Panic) (c : C) (count : ℕ)
      → let c₁ = identified g (g.get "correlation_id" c) c in
        let (answer, c₂) = r.incr_key (limit_key g c₁) c₁ in
        let reply = handle_gin_error (to_error (new_rate_limit_error "Too many requests")) in
        answer ≡ ok count
        → 100 < count
        → g.errors c₂ ≡ []
        → (replies (chain g r handler c) ≡ replies c₂ ++ failure reply ∷ []) × (reply.status ≡ 429)
  unfolding chain
  over_limit_refused handler c count counted over clean =
      let c₁ = identified g (g.get "correlation_id" c) c in
      let c₂ = (r.incr_key (limit_key g c₁) c₁).1 in
      let refused = refuse g (new_rate_limit_error "Too many requests") c₂ in
      let many : ltb 100 count ≡ true = ground arith in
      let later : nat_eq count 1 ≡ false = ground arith in
      let (once, _) =
        replies-answer_last laws refused (to_error (new_rate_limit_error "Too many requests")) []
          (errors-refused c₂ clean) in
      let same = laws.abort-replies _ ∙ laws.add_error-replies _ c₂ in
      let reply : Reply =
        failure (handle_gin_error (to_error (new_rate_limit_error "Too many requests"))) in
      rw (counted, many, later)
        (
          once ∙ ap (λ (l : List Reply). l ++ reply ∷ []) same,
          unfold handle_gin_error new_rate_limit_error in refl,
        )
