-- ===== src/Server/Interceptors.antt =====
-- shared/server/interceptors.go, and the interceptors that `NewGRPCServer` of shared/server/grpc.go puts
-- around every call. A handler may panic; log records are not modelled.
pub mod Laws
use re_master.Prelude.{
  String, Bool, true, false, Option, none, some, List, [], ◌∷◌, ◌++◌, ◌==◌, if◌then◌else◌,
}
use re_master.Prelude.Maps.{Map, lookup}
use re_master.Errors.Types.{grpc_status, internal_code}
use re_master.Exec.{Result, ok, err}

-- What a call ends with: its results, or a panic with a text.
pub data Outcome (A : Type 0) : Type 0 where
  returns : Result A → Outcome A
  panics : String → Outcome A

-- A handler, which is given the correlation id in its context's logger, empty if there is none.
abbrev pub Handler : Type 0 → Type 0 → Type 0
Handler W A = String → W → Outcome A × W

abbrev recovered : {A : Type 0} → Outcome A → Outcome A
recovered (returns r) = returns r
recovered (panics text) = returns (err (grpc_status internal_code "internal server error"))

unfoldable pub recovery_unary : {W A : Type 0} → Handler W A → Handler W A
recovery_unary handler id w = let (outcome, w') = handler id w in (recovered outcome, w')

-- For streams: a handler is given nothing but the stream.
unfoldable pub recovery_stream :
    {W : Type 0} → (W → Outcome (Unit {0}) × W) → W → Outcome (Unit {0}) × W
recovery_stream handler w = let (outcome, w') = handler w in (recovered outcome, w')

abbrev second_header : Option (List String) → String
second_header none = ""
second_header (some []) = ""
second_header (some (v ∷ vs)) = v

-- The second header is looked at only if the first has no value at all.
abbrev header_id : Option (List String) → Option (List String) → String
header_id (some (v ∷ vs)) second = v
header_id (some []) second = second_header second
header_id none second = second_header second

-- The correlation id of a call: that of its headers, or a new one.
unfoldable pub correlation_id : {W : Type 0} → (W → String × W) → Map (List String) → W → String × W
unfolding lookup
correlation_id new_uuid md w =
    let id = header_id (lookup "x-correlation-id" md) (lookup "correlation-id" md) in
    if id == "" then new_uuid w else (id, w)

unfoldable pub correlation_unary :
    {W A : Type 0} → (W → String × W) → Map (List String) → Handler W A → Handler W A
unfolding correlation_id
correlation_unary new_uuid md handler id w =
    let (new_id, w') = correlation_id new_uuid md w in handler new_id w'

-- The handler's result is passed on.
unfoldable pub logging_unary : {W A : Type 0} → Handler W A → Handler W A
logging_unary handler = handler

pub record InterceptorConfig : Type 0 where
  pub enable_logging : Bool
  pub enable_recovery : Bool

pub data Interceptor : Type 0 where
  recovery correlation logging : Interceptor

unfoldable pub unary_interceptors : InterceptorConfig → List Interceptor
unary_interceptors cfg =
    (if cfg.enable_recovery then recovery ∷ [] else [])
    ++ (correlation ∷ (if cfg.enable_logging then logging ∷ [] else []))

-- None stands for nil.
unfoldable pub stream_interceptors : InterceptorConfig → List (Option Interceptor)
stream_interceptors cfg =
    (if cfg.enable_recovery then some recovery ∷ [] else [])
    ++ (if cfg.enable_logging then none ∷ [] else [])

-- Only the recovery has a version for streams.
-- A nil interceptor that is called panics.
abbrev intercept_stream :
    {W : Type 0} → Option Interceptor → (W → Outcome (Unit {0}) × W) → W → Outcome (Unit {0}) × W
intercept_stream none handler w =
    (panics "runtime error: invalid memory address or nil pointer dereference", w)
intercept_stream (some recovery) handler w = recovery_stream handler w
intercept_stream (some correlation) handler w = handler w
intercept_stream (some logging) handler w = handler w

-- `grpc.ChainStreamInterceptor`: the first is the outermost, and the last calls the handler.
unfoldable pub chain_stream :
    {W : Type 0}
    → List (Option Interceptor)
    → (W → Outcome (Unit {0}) × W)
    → W
    → Outcome (Unit {0}) × W
unfolding recovery_stream
chain_stream [] handler = handler
chain_stream (i ∷ is) handler = intercept_stream i (chain_stream is handler)

abbrev serve_chained :
    {W : Type 0}
    → List (Option Interceptor)
    → (W → Outcome (Unit {0}) × W)
    → W
    → Outcome (Unit {0}) × W
serve_chained (none ∷ []) handler w = handler w
serve_chained (some i ∷ []) handler w = chain_stream (some i ∷ []) handler w
serve_chained [] handler w = handler w
serve_chained (i ∷ j ∷ is) handler w = chain_stream (i ∷ j ∷ is) handler w

-- A streaming call, as the server that is configured so runs it. An interceptor that is nil and alone is
-- none to grpc.
unfoldable pub serve_stream :
    {W : Type 0} → InterceptorConfig → (W → Outcome (Unit {0}) × W) → W → Outcome (Unit {0}) × W
unfolding stream_interceptors chain_stream
serve_stream cfg handler w = serve_chained (stream_interceptors cfg) handler w

module _ {W A : Type 0} (new_uuid : W → String × W) (md : Map (List String)) where
  abbrev intercept : Interceptor → Handler W A → Handler W A
  intercept recovery handler = recovery_unary handler
  intercept correlation handler = correlation_unary new_uuid md handler
  intercept logging handler = logging_unary handler

  -- `grpc.ChainUnaryInterceptor`: the first is the outermost.
  unfoldable pub chain_unary : List Interceptor → Handler W A → Handler W A
  unfolding recovery_unary correlation_unary logging_unary
  chain_unary [] handler = handler
  chain_unary (i ∷ is) handler = intercept i (chain_unary is handler)

  -- A call, as the server that is configured so runs it.
  unfoldable pub serve : InterceptorConfig → Handler W A → W → Outcome A × W
  unfolding unary_interceptors chain_unary
  serve cfg handler w = chain_unary (unary_interceptors cfg) handler "" w
