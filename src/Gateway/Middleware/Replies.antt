-- ===== src/Gateway/Middleware/Replies.antt =====
-- How often a request is answered by the middleware of middleware/common.go.
use re_master.Prelude.{◌≡◌, refl, ap, ◌∙◌, List, [], ◌∷◌, ◌++◌}
use re_master.Errors.Types.{Error}
use re_master.Errors.Handlers.{handle_gin_error}
use re_master.Gateway.Context.{Gin, Reply, failure}
use re_master.Gateway.Middleware.Common.{
  last, answer_last, identified, request_logger, gin_error_middleware,
}

-- What gin promises of a context: `replies` are the bodies that were written, in order, and `errors`
-- the errors that were added.
pub record Observes {C : Type 0} (g : Gin C) (replies : C → List Reply) : Type 0 where
  pub json-replies : (r : Reply) (c : C) → replies (g.json r c) ≡ replies c ++ r ∷ []
  pub json-errors : (r : Reply) (c : C) → g.errors (g.json r c) ≡ g.errors c
  pub add_error-replies : (e : Error) (c : C) → replies (g.add_error e c) ≡ replies c
  pub add_error-errors : (e : Error) (c : C) → g.errors (g.add_error e c) ≡ g.errors c ++ e ∷ []
  pub abort-replies : (c : C) → replies (g.abort c) ≡ replies c
  pub abort-errors : (c : C) → g.errors (g.abort c) ≡ g.errors c

module _ {C : Type 0} {g : Gin C} {replies : C → List Reply} (laws : Observes g replies) where
  pub replies-answer_last :
      (c : C) (e : Error) (es : List Error)
      → g.errors c ≡ e ∷ es
      → (replies (answer_last g (g.errors c) c)
          ≡ replies c ++ failure (handle_gin_error (last e es)) ∷ [])
        × (g.errors (answer_last g (g.errors c) c) ≡ e ∷ es)
  replies-answer_last c e es h = rw h (laws.json-replies _ c, laws.json-errors _ c ∙ h)

  append_twice : (rs : List Reply) (r : Reply) → (rs ++ r ∷ []) ++ r ∷ [] ≡ rs ++ r ∷ r ∷ []
  append_twice [] r = refl
  append_twice (x ∷ rs) r = ap (λ (l : List Reply). x ∷ l) (append_twice rs r)

  -- With what gin promises of a context (`Observes`): if the handlers behind RequestLogger and GinErrorMiddleware leave an error, then the response to
  -- the last one is written twice after what they wrote.
  error_written_twice :
      (next : C → C) (c : C) (e : Error) (es : List Error)
      → let c' = next (identified g (g.get "correlation_id" c) c) in
        g.errors c' ≡ e ∷ es
        → replies (request_logger g (gin_error_middleware g next) c)
          ≡ replies c'
            ++ failure (handle_gin_error (last e es)) ∷ failure (handle_gin_error (last e es)) ∷ []
  unfolding request_logger gin_error_middleware
  error_written_twice next c e es h =
      let c' = next (identified g (g.get "correlation_id" c) c) in
      let (once, kept) = replies-answer_last c' e es h in
      let (twice, _) = replies-answer_last (answer_last g (g.errors c') c') e es kept in
      twice
      ∙ ap (λ (l : List Reply). l ++ failure (handle_gin_error (last e es)) ∷ []) once
      ∙ append_twice (replies c') (failure (handle_gin_error (last e es)))

  -- With no error left, the two write nothing.
  no_error_no_reply :
      (next : C → C) (c : C)
      → let c' = next (identified g (g.get "correlation_id" c) c) in
        g.errors c' ≡ [] → request_logger g (gin_error_middleware g next) c ≡ c'
  unfolding request_logger gin_error_middleware
  no_error_no_reply next c h = rw (h, h) refl
