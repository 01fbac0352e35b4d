-- ===== src/Server/Grpc.antt =====
-- shared/server/grpc.go: how the gRPC server of a service is made. A listener and a server are numbers,
-- by which the libraries know them; what is logged is not modelled.
pub mod Laws
use re_master.Prelude.{ℕ, String, Bool, Option, List, [], ◌∷◌, ◌++◌, is_empty, if◌then◌else◌}
use re_master.Errors.Types.{wrapped}
use re_master.Exec.{Exec, Result, ok, err}
use re_master.Config.{GrpcConfig}
use re_master.Server.Interceptors.{
  InterceptorConfig, Interceptor, unary_interceptors, stream_interceptors,
}

pub record GrpcServerConfig : Type 0 where
  pub address : String
  pub config : GrpcConfig
  pub enable_health_check : Bool
  pub enable_reflection : Bool
  pub interceptor_config : InterceptorConfig

-- `grpc.ServerOption`, as far as the code makes them.
pub data Setting : Type 0 where
  max_recv_msg_size : ℕ → Setting
  max_send_msg_size : ℕ → Setting
  chain_unary_interceptor : List Interceptor → Setting
  chain_stream_interceptor : List (Option Interceptor) → Setting

-- What `net` and `grpc` do: `net.Listen` at a TCP address, `grpc.NewServer`, and the registration of
-- the services for health and reflection.
pub record Network (W : Type 0) : Type 0 where
  pub listen : String → Exec W ℕ
  pub new_server : List Setting → W → ℕ × W
  pub register_health : ℕ → W → W
  pub register_reflection : ℕ → W → W

pub record GrpcServerManager : Type 0 where
  pub server : ℕ
  pub listener : ℕ
  pub config : GrpcServerConfig

abbrev unless_empty : {A : Type 0} → List A → (List A → Setting) → List Setting
unless_empty xs setting = if is_empty xs then [] else setting xs ∷ []

unfoldable pub settings : GrpcServerConfig → List Setting
unfolding unary_interceptors stream_interceptors
settings cfg =
    max_recv_msg_size cfg.config.max_receive_size
    ∷ max_send_msg_size cfg.config.max_send_size
    ∷ (unless_empty (unary_interceptors cfg.interceptor_config) chain_unary_interceptor
        ++ unless_empty (stream_interceptors cfg.interceptor_config) chain_stream_interceptor)

module _ {W : Type 0} (n : Network W) where
  -- The server on a listener that is open.
  unfoldable pub assemble : GrpcServerConfig → ℕ → W → GrpcServerManager × W
  unfolding settings
  assemble cfg listener w =
      let (server, w₁) = n.new_server (settings cfg) w in
      let w₂ = if cfg.enable_health_check then n.register_health server w₁ else w₁ in
      let w₃ = if cfg.enable_reflection then n.register_reflection server w₂ else w₂ in
      (record { server = server; listener = listener; config = cfg }, w₃)

  abbrev listened : GrpcServerConfig → Result ℕ × W → Result GrpcServerManager × W
  listened cfg (ok listener, w) = let (manager, w') = assemble cfg listener w in (ok manager, w')
  listened cfg (err e, w) = (err (wrapped "failed to create listener" e), w)

  unfoldable pub new_grpc_server : GrpcServerConfig → Exec W GrpcServerManager
  unfolding assemble
  new_grpc_server cfg w = listened cfg (n.listen cfg.address w)
