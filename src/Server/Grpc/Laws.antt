-- ===== src/Server/Grpc/Laws.antt =====
-- What making a gRPC server (shared/server/grpc.go) leaves alone: any part of the world that the
-- network leaves alone.
use re_master.Prelude.{ℕ, String, ◌≡◌, refl, ◌∙◌, Bool, true, false, List, if◌then◌else◌}
use re_master.Exec.{Result, ok, err}
use re_master.Server.Grpc.{
  Network, Setting, GrpcServerConfig, settings, assemble, listened, new_grpc_server,
}

pub record Spares {W V : Type 0} (n : Network W) (view : W → V) : Type 0 where
  pub listen : (address : String) (w : W) → view (n.listen address w).1 ≡ view w
  pub new_server : (l : List Setting) (w : W) → view (n.new_server l w).1 ≡ view w
  pub register_health : (a : ℕ) (w : W) → view (n.register_health a w) ≡ view w
  pub register_reflection : (a : ℕ) (w : W) → view (n.register_reflection a w) ≡ view w

view-if :
    {W V : Type 0} (view : W → V) (test : Bool) (f : W → W) (w : W)
    → ((v : W) → view (f v) ≡ view v)
    → view (if test then f w else w) ≡ view w
view-if view true f w same = same w
view-if view false f w same = refl

module _ {W V : Type 0} {n : Network W} {view : W → V} (laws : Spares n view) where
  view-assemble : (cfg : GrpcServerConfig) (a : ℕ) (w : W) → view (assemble n cfg a w).1 ≡ view w
  unfolding assemble
  view-assemble cfg a w =
      let (server, w') = n.new_server (settings cfg) w in
      view-if view cfg.enable_reflection (n.register_reflection server) _
        (laws.register_reflection server)
      ∙ view-if view cfg.enable_health_check (n.register_health server) w'
          (laws.register_health server)
      ∙ laws.new_server (settings cfg) w

  view-listened : (cfg : GrpcServerConfig) (r : Result ℕ × W) → view (listened n cfg r).1 ≡ view r.1
  view-listened cfg (ok a, w) = view-assemble cfg a w
  view-listened cfg (err e, w) = refl

  pub view-new_grpc_server :
      (cfg : GrpcServerConfig) (w : W) → view (new_grpc_server n cfg w).1 ≡ view w
  unfolding new_grpc_server
  view-new_grpc_server cfg w =
      view-listened cfg (n.listen cfg.address w) ∙ laws.listen cfg.address w
