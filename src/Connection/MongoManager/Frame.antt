-- ===== src/Connection/MongoManager/Frame.antt =====
-- What the manager of shared/connection/mongo.go leaves alone: any part of the world that its driver
-- leaves alone.
use re_master.Prelude.{ℕ, ◌≡◌, refl, ◌∙◌, Option, none, some}
use re_master.Exec.{Result, ok, err}
use re_master.Connection.MongoManager.{
  Driver, MongoConfig, MongoManager, connect, disconnect, pinged, created, reconnect, connect_from,
  closed, disconnect_from,
}

pub record Spares {W V : Type 0} (d : Driver W) (view : W → V) : Type 0 where
  pub new_client : (cfg : MongoConfig) (w : W) → view (d.new_client cfg w).1 ≡ view w
  pub ping : (a : ℕ) (w : W) → view (d.ping a w).1 ≡ view w
  pub disconnect : (a : ℕ) (w : W) → view (d.disconnect a w).1 ≡ view w

module _ {W V : Type 0} {d : Driver W} {view : W → V} (laws : Spares d view) where
  view-pinged :
      (m : MongoManager) (a : ℕ) (r : Result (Unit {0}) × W) → view (pinged d m a r).1.1 ≡ view r.1
  view-pinged m a (ok u, w) = refl
  view-pinged m a (err e, w) = laws.disconnect a w

  view-created : (m : MongoManager) (r : Result ℕ × W) → view (created d m r).1.1 ≡ view r.1
  view-created m (ok a, w) = view-pinged m a (d.ping a w) ∙ laws.ping a w
  view-created m (err e, w) = refl

  view-reconnect :
      (m : MongoManager) (a : ℕ) (r : Result (Unit {0}) × W)
      → view (reconnect d m a r).1.1 ≡ view r.1
  view-reconnect m a (ok u, w) = refl
  view-reconnect m a (err e, w) =
      let w' = (d.disconnect a w).1 in
      view-created m (d.new_client m.config w') ∙ laws.new_client m.config w' ∙ laws.disconnect a w

  view-connect_from :
      (m : MongoManager) (client : Option ℕ) (w : W) → view (connect_from d m client w).1.1 ≡ view w
  view-connect_from m none w = view-created m (d.new_client m.config w) ∙ laws.new_client m.config w
  view-connect_from m (some a) w = view-reconnect m a (d.ping a w) ∙ laws.ping a w

  pub view-connect : (m : MongoManager) (w : W) → view (connect d (m, w)).1.1 ≡ view w
  unfolding connect
  view-connect m w = view-connect_from m m.client w

  view-closed : (m : MongoManager) (r : Result (Unit {0}) × W) → view (closed d m r).1.1 ≡ view r.1
  view-closed m (ok u, w) = refl
  view-closed m (err e, w) = refl

  view-disconnect_from :
      (m : MongoManager) (client : Option ℕ) (w : W)
      → view (disconnect_from d m client w).1.1 ≡ view w
  view-disconnect_from m none w = refl
  view-disconnect_from m (some a) w = view-closed m (d.disconnect a w) ∙ laws.disconnect a w

  pub view-disconnect : (m : MongoManager) (w : W) → view (disconnect d (m, w)).1.1 ≡ view w
  unfolding disconnect
  view-disconnect m w = view-disconnect_from m m.client w
