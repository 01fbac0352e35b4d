-- ===== src/Tests/Server.antt =====
-- Instances of the theorems on shared/server, on a handler that panics and on headers of two kinds.
use re_master.Prelude.{ℕ, ◌+◌, String, ◌≡◌, ◌≢◌, refl, true, [], ◌∷◌, List, eq_iff, arith}
use re_master.Prelude.Maps.{Map}
use re_master.Errors.Types.{grpc_status, internal_code}
use re_master.Exec.{err}
use re_master.Server.Interceptors.{
  InterceptorConfig, Handler, panics, serve, correlation_id, serve_stream, Outcome, returns,
}
use re_master.Server.Interceptors.Laws.{Settles, serve-Settles, recovered_stream}

abbrev both : InterceptorConfig
both = record { enable_logging = true; enable_recovery = true }

-- The world counts the new UUIDs.
abbrev new_uuid : ℕ → String × ℕ
new_uuid n = ("4d5d2a0e", n + 1)

abbrev failing : Handler ℕ String
failing id n = (panics id, n)

serve-Settles_example :
    let (id, w') = correlation_id new_uuid [] 0 in
    Settles (failing id w').0 (serve new_uuid [] both failing 0).0
    × ((serve new_uuid [] both failing 0).1 ≡ (failing id w').1)
serve-Settles_example = serve-Settles new_uuid [] both failing 0 refl

uuid_given : (w : ℕ) → (new_uuid w).0 ≢ ""
uuid_given w e = ground (arith, (eq_iff "4d5d2a0e" "").1 e)

-- The first header has an empty value, so the second is not looked at.
abbrev headers : Map (List String)
headers = ("x-correlation-id", "" ∷ []) ∷ ("correlation-id", "7" ∷ []) ∷ []

empty_header : correlation_id new_uuid headers 0 ≡ ("4d5d2a0e", 1)
unfolding correlation_id
empty_header = refl

abbrev streaming : ℕ → Outcome (Unit {0}) × ℕ
streaming n = (panics "broken", n + 1)

recovered_stream_example :
    serve_stream both streaming 0
    ≡ (returns (err (grpc_status internal_code "internal server error")), 0)
recovered_stream_example = recovered_stream both streaming 0 refl
