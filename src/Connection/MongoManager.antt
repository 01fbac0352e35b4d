-- ===== src/Connection/MongoManager.antt =====
-- shared/connection/mongo.go, but for the part of the file that is commented out.
pub mod Laws
pub mod Frame
use re_master.Prelude.{ℕ, String, Bool, Option, none, some}
use re_master.Errors.Types.{Error, plain, wrapped}
use re_master.Exec.{Result, ok, err, Exec, replaced}

pub record MongoConfig : Type 0 where
  pub uri : String
  pub database : String
  pub max_pool_size : ℕ
  pub min_pool_size : ℕ
  pub connect_timeout : ℕ
  pub server_selection : ℕ

-- What the driver does; a session is a number. `with_transaction` runs the callback, perhaps more
-- than once, inside a transaction.
pub record Driver (W : Type 0) : Type 0 where
  pub new_client : MongoConfig → Exec W ℕ
  pub ping : ℕ → Exec W (Unit {0})
  pub disconnect : ℕ → Exec W (Unit {0})
  pub start_session : ℕ → Exec W ℕ
  pub end_session : ℕ → W → W
  pub with_transaction : ℕ → (ℕ → Exec W (Unit {0})) → Exec W (Unit {0})

-- A `*mongo.Database` is a client with the database's name, a `*mongo.Collection` a database with the
-- collection's name.
pub record MongoManager : Type 0 where
  pub client : Option ℕ
  pub database : Option (ℕ × String)
  pub config : MongoConfig

abbrev pub new_mongo_manager : MongoConfig → MongoManager
new_mongo_manager cfg = record { client = none; database = none; config = cfg }

module _ {W : Type 0} (d : Driver W) where
  -- What follows the ping of a new client.
  abbrev pinged : MongoManager → ℕ → Result (Unit {0}) × W → Result (Unit {0}) × (MongoManager × W)
  pinged m c (ok u, w) = (
    ok tt,
    (record { client = some c; database = some (c, m.config.database); config = m.config }, w),
  )
  pinged m c (err e, w) = (err (wrapped "failed to ping MongoDB" e), (m, (d.disconnect c w).1))

  abbrev created : MongoManager → Result ℕ × W → Result (Unit {0}) × (MongoManager × W)
  created m (ok c, w) = pinged m c (d.ping c w)
  created m (err e, w) = (err (wrapped "failed to create MongoDB client" e), (m, w))

  -- What follows the ping of the client that the manager holds.
  abbrev reconnect :
      MongoManager → ℕ → Result (Unit {0}) × W → Result (Unit {0}) × (MongoManager × W)
  reconnect m c (ok u, w) = (ok tt, (m, w))
  reconnect m c (err e, w) = created m (d.new_client m.config (d.disconnect c w).1)

  abbrev connect_from : MongoManager → Option ℕ → W → Result (Unit {0}) × (MongoManager × W)
  connect_from m none w = created m (d.new_client m.config w)
  connect_from m (some c) w = reconnect m c (d.ping c w)

  unfoldable pub connect : MongoManager × W → Result (Unit {0}) × (MongoManager × W)
  connect (m, w) = connect_from m m.client w

  abbrev closed : MongoManager → Result (Unit {0}) × W → Result (Unit {0}) × (MongoManager × W)
  closed m (ok u, w) = (ok tt, (record m { client = none; database = none }, w))
  closed m (err e, w) = (err (wrapped "failed to disconnect from MongoDB" e), (m, w))

  abbrev disconnect_from : MongoManager → Option ℕ → W → Result (Unit {0}) × (MongoManager × W)
  disconnect_from m none w = (ok tt, (m, w))
  disconnect_from m (some c) w = closed m (d.disconnect c w)

  unfoldable pub disconnect : MongoManager × W → Result (Unit {0}) × (MongoManager × W)
  disconnect (m, w) = disconnect_from m m.client w

  abbrev health_check_of : Option ℕ → Exec W (Unit {0})
  health_check_of none w = (err (plain "MongoDB client is not initialized"), w)
  health_check_of (some c) w =
      (replaced (wrapped "MongoDB health check failed") (d.ping c w).0, (d.ping c w).1)

  unfoldable pub health_check : MongoManager → Exec W (Unit {0})
  health_check m = health_check_of m.client

  -- What follows the start of a session, whose end is deferred.
  abbrev in_session : (ℕ → Exec W (Unit {0})) → Result ℕ × W → Result (Unit {0}) × W
  in_session fn (err e, w) = (err (wrapped "failed to start session" e), w)
  in_session fn (ok session, w) =
      let (result, w') = d.with_transaction session fn w in
      (replaced (wrapped "transaction failed") result, d.end_session session w')

  abbrev transaction_of : Option ℕ → (ℕ → Exec W (Unit {0})) → Exec W (Unit {0})
  transaction_of none fn w = (err (plain "MongoDB client is not initialized"), w)
  transaction_of (some c) fn w = in_session fn (d.start_session c w)

  unfoldable pub with_transaction : MongoManager → (ℕ → Exec W (Unit {0})) → Exec W (Unit {0})
  with_transaction m fn = transaction_of m.client fn

abbrev collection_of : Option (ℕ × String) → String → Option (ℕ × String × String)
collection_of none name = none
collection_of (some (c, database)) name = some (c, database, name)

unfoldable pub get_collection : MongoManager → String → Option (ℕ × String × String)
get_collection m name = collection_of m.database name

unfoldable pub get_client : MongoManager → Option ℕ
get_client m = m.client

unfoldable pub get_database : MongoManager → Option (ℕ × String)
get_database m = m.database

unfoldable pub get_users_collection : MongoManager → Option (ℕ × String × String)
unfolding get_collection
get_users_collection m = get_collection m "users"

unfoldable pub get_masters_collection : MongoManager → Option (ℕ × String × String)
unfolding get_collection
get_masters_collection m = get_collection m "masters"

unfoldable pub get_orders_collection : MongoManager → Option (ℕ × String × String)
unfolding get_collection
get_orders_collection m = get_collection m "orders"

unfoldable pub get_reviews_collection : MongoManager → Option (ℕ × String × String)
unfolding get_collection
get_reviews_collection m = get_collection m "reviews"

unfoldable pub get_chats_collection : MongoManager → Option (ℕ × String × String)
unfolding get_collection
get_chats_collection m = get_collection m "chats"

unfoldable pub get_messages_collection : MongoManager → Option (ℕ × String × String)
unfolding get_collection
get_messages_collection m = get_collection m "messages"

unfoldable pub get_media_collection : MongoManager → Option (ℕ × String × String)
unfolding get_collection
get_media_collection m = get_collection m "media"

-- `RunCommand` of `dbStats`, decoded to a document `D`, is a parameter.
abbrev stats_of : {W D : Type 0} → (ℕ × String → Exec W D) → Option (ℕ × String) → Exec W D
stats_of db_stats none w = (err (plain "database is not initialized"), w)
stats_of db_stats (some database) w = (
  replaced (wrapped "failed to get database stats") (db_stats database w).0,
  (db_stats database w).1,
)

unfoldable pub stats : {W D : Type 0} → (ℕ × String → Exec W D) → MongoManager → Exec W D
stats db_stats m = stats_of db_stats m.database
