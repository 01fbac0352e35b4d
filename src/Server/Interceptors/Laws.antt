-- ===== src/Server/Interceptors/Laws.antt =====
-- What the interceptors of shared/server promise of every call.
use re_master.Prelude.{
  String, ◌≡◌, ◌≢◌, refl, true, List, arith, eq_iff, ◌==◌, Bool-cases, inl, inr, if◌then◌else◌,
}
use re_master.Prelude.Maps.{Map, lookup}
use re_master.Errors.Types.{grpc_status, internal_code}
use re_master.Exec.{Result, err}
use re_master.Server.Interceptors.{
  Outcome, returns, panics, Handler, recovered, InterceptorConfig, correlation_id, serve,
  serve_stream, header_id,
}

-- What a recovering interceptor makes of an outcome: a result is kept, and a panic becomes the status
-- error Internal with a fixed message.
pub data Settles {A : Type 0} : Outcome A → Outcome A → Type 0 where
  kept : (r : Result A) → Settles (returns r) (returns r)
  caught :
      (text : String)
      → Settles (panics text) (returns (err (grpc_status internal_code "internal server error")))

recovered-Settles : {A : Type 0} (o : Outcome A) → Settles o (recovered o)
recovered-Settles (returns r) = kept r
recovered-Settles (panics text) = caught text

module _ {W A : Type 0} (new_uuid : W → String × W) (md : Map (List String)) where
  -- With recovery enabled a call never panics: it returns what the handler returns, run with the
  -- call's correlation id, or, if the handler panics, the status error Internal with a fixed message.
  pub serve-Settles :
      (cfg : InterceptorConfig) (handler : Handler W A) (w : W)
      → cfg.enable_recovery ≡ true
      → let (id, w') = correlation_id new_uuid md w in
        Settles (handler id w').0 (serve new_uuid md cfg handler w).0
        × ((serve new_uuid md cfg handler w).1 ≡ (handler id w').1)
  unfolding serve
  serve-Settles cfg handler w enabled = elim (Bool-cases cfg.enable_logging) [
    | inl logs ↦ rw (enabled, logs) (recovered-Settles _, refl)
    | inr quiet ↦ rw (enabled, quiet) (recovered-Settles _, refl)
  ]

module _ {W : Type 0} (new_uuid : W → String × W) (md : Map (List String)) where
  -- If new UUIDs are not empty, then no call's correlation id is empty, whatever its headers.
  correlation_id-given :
      ((w : W) → (new_uuid w).0 ≢ "") → (w : W) → (correlation_id new_uuid md w).0 ≢ ""
  unfolding correlation_id
  correlation_id-given fresh w =
      let id = header_id (lookup "x-correlation-id" md) (lookup "correlation-id" md) in
      elim (Bool-cases (id == "")) [
        | inl empty ↦ rw empty (fresh w)
        | inr given ↦ rw given (λ e. ground (arith, (eq_iff id "").1 e))
      ]

-- With recovery and logging enabled no streaming call reaches its handler: it ends, in the state that it
-- began in, with the status error Internal. With recovery and without logging it ends as its handler
-- does, or, if that panics, with that status error.
pub recovered_stream :
    {W : Type 0} (cfg : InterceptorConfig) (handler : W → Outcome (Unit {0}) × W) (w : W)
    → cfg.enable_recovery ≡ true
    → serve_stream cfg handler w ≡ (
        if cfg.enable_logging
        then (returns (err (grpc_status internal_code "internal server error")), w)
        else (recovered (handler w).0, (handler w).1))
unfolding serve_stream
recovered_stream cfg handler w enabled = elim (Bool-cases cfg.enable_logging) [
  | inl logs ↦ rw (enabled, logs) refl
  | inr quiet ↦ rw (enabled, quiet) refl
]
