-- ===== src/Connection/MongoManager/Laws.antt =====
-- What the manager of shared/connection/mongo.go holds.
use re_master.Prelude.{ℕ, String, ◌≡◌, refl, Option, none, some, arith}
use re_master.Errors.Types.{Error, wrapped}
use re_master.Exec.{Result, ok, err, replaced}
use re_master.Connection.MongoManager.{
  Driver, MongoManager, connect, disconnect, health_check, pinged, created, reconnect, connect_from,
  closed, disconnect_from,
}

-- The database is that of the client, and there is one exactly if there is a client.
abbrev pub database_of : MongoManager → Option ℕ → Option (ℕ × String)
database_of m none = none
database_of m (some c) = some (c, m.config.database)

abbrev pub IsPaired : MongoManager → Type 0
IsPaired m = m.database ≡ database_of m m.client

module _ {W : Type 0} (d : Driver W) where
  pinged-IsPaired :
      (m : MongoManager) (c : ℕ) (r : Result (Unit {0}) × W)
      → IsPaired m
      → IsPaired (pinged d m c r).1.0
  pinged-IsPaired m c (ok u, w) paired = refl
  pinged-IsPaired m c (err e, w) paired = paired

  created-IsPaired :
      (m : MongoManager) (r : Result ℕ × W) → IsPaired m → IsPaired (created d m r).1.0
  created-IsPaired m (ok c, w) paired = pinged-IsPaired m c (d.ping c w) paired
  created-IsPaired m (err e, w) paired = paired

  reconnect-IsPaired :
      (m : MongoManager) (c : ℕ) (r : Result (Unit {0}) × W)
      → IsPaired m
      → IsPaired (reconnect d m c r).1.0
  reconnect-IsPaired m c (ok u, w) paired = paired
  reconnect-IsPaired m c (err e, w) paired = created-IsPaired m _ paired

  connect_from-IsPaired :
      (m : MongoManager) (client : Option ℕ) (w : W)
      → IsPaired m
      → IsPaired (connect_from d m client w).1.0
  connect_from-IsPaired m none w paired = created-IsPaired m _ paired
  connect_from-IsPaired m (some c) w paired = reconnect-IsPaired m c (d.ping c w) paired

  closed-IsPaired :
      (m : MongoManager) (r : Result (Unit {0}) × W) → IsPaired m → IsPaired (closed d m r).1.0
  closed-IsPaired m (ok u, w) paired = refl
  closed-IsPaired m (err e, w) paired = paired

  disconnect_from-IsPaired :
      (m : MongoManager) (client : Option ℕ) (w : W)
      → IsPaired m
      → IsPaired (disconnect_from d m client w).1.0
  disconnect_from-IsPaired m none w paired = paired
  disconnect_from-IsPaired m (some c) w paired = closed-IsPaired m (d.disconnect c w) paired

  -- Connecting and disconnecting, whether they succeed or fail, keep it that the manager's database is
  -- that of its client, and none if it holds no client.
  pub manager-IsPaired :
      (m : MongoManager) (w : W)
      → IsPaired m
      → IsPaired (connect d (m, w)).1.0 × IsPaired (disconnect d (m, w)).1.0
  unfolding connect disconnect
  manager-IsPaired m w paired =
      (connect_from-IsPaired m m.client w paired, disconnect_from-IsPaired m m.client w paired)

  -- If the client that the manager holds does not answer, and no new one can be made, then the
  -- manager holds the old client, which it has just disconnected, and its health check pings that one.
  failed_reconnect_keeps_client :
      (m : MongoManager) (w : W) (c : ℕ) (silent refused : Error)
      → m.client ≡ some c
      → (d.ping c w).0 ≡ err silent
      → (d.new_client m.config (d.disconnect c (d.ping c w).1).1).0 ≡ err refused
      → let (result, (m', w')) = connect d (m, w) in
        (result ≡ err (wrapped "failed to create MongoDB client" refused))
        × (m'.client ≡ some c)
        × ((health_check d m' w').0
            ≡ replaced (wrapped "MongoDB health check failed") (d.ping c w').0)
  unfolding connect health_check
  failed_reconnect_keeps_client m w c silent refused held dead failed =
      ground (arith, held, dead, failed)
