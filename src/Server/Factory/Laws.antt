-- ===== src/Server/Factory/Laws.antt =====
-- What the servers of shared/server/server_factory.go leave open: the clients of Redis, which the
-- drivers of MongoDB and of the network do not touch.
use re_master.Prelude.{
  ℕ, ◌≡◌, refl, sym, ap, ◌∙◌, Bool, true, false, Option, none, some, List, [], ◌∷◌, String, arith,
  Bool-cases, inl, inr, All, if◌then◌else◌,
}
use re_master.Errors.Types.{Error, wrapped}
use re_master.Exec.{Result, ok, err, replaced}
use re_master.Exec.Laws.{bind-ends}
use re_master.Exec.Keeps.{Keeps, keeps_rules, continue-kept}
use re_master.Connection.MongoManager as Mongo
use re_master.Connection.MongoManager.{MongoManager}
use re_master.Connection.MongoManager.Frame as MongoFrame
use re_master.Connection.RedisManager as Redis
use re_master.Connection.RedisManager.{RedisManager, RedisConfig}
use re_master.Connection.RedisManager.Laws.{
  Tracks, NoLeak, manager-NoLeak, disconnect-shut, Outcome, connect-Outcome,
}
use re_master.Server.Grpc.{GrpcServerConfig, GrpcServerManager, new_grpc_server}
use re_master.Server.Grpc.Laws as Network
use re_master.Server.Factory.{
  build_found, build_at, listening, service_address, Server, Process, Drivers, Build, ServerOption,
  ServerConfig, with_mongo, with_redis, apply_options, build, blank, new_server, cleanup,
  mongo_instance, redis_instance, mongo_connected, redis_connected, mongo_closed, redis_closed,
  with_manager, networked,
}

abbrev pub held : Option RedisManager → Option ℕ
held none = none
held (some m) = m.client

module _ {W : Type 0} where
  -- If a client of Redis is open, then the singleton holds it, and the server has the singleton.
  abbrev pub Owned : (W → ℕ → Bool) → Server × Process W → Type 0
  Owned is_open (s, p) =
      (c : ℕ) → is_open p.world c ≡ true → (s.has_redis ≡ true) × (held p.redis ≡ some c)

  abbrev pub AllClosed : (W → ℕ → Bool) → Process W → Type 0
  AllClosed is_open p = (c : ℕ) → is_open p.world c ≡ false

  -- What is promised of the drivers: that of Redis tracks its clients, and the others spare them.
  pub record Promises (d : Drivers W) (is_open : W → ℕ → Bool) : Type 0 where
    pub redis : Tracks d.redis is_open
    pub mongo : MongoFrame.Spares d.mongo is_open
    pub network : Network.Spares d.network is_open

module _ {W : Type 0} {d : Drivers W} {is_open : W → ℕ → Bool} (laws : Promises d is_open) where
  -- A step of the construction that keeps what `Owned` says, whether it succeeds or fails.
  abbrev KeepsOwned : {A : Type 0} → Build W A → Type 0
  KeepsOwned m = Keeps (Owned is_open) m

  moved : (w w' : W) → is_open w' ≡ is_open w → (c : ℕ) → is_open w' c ≡ true → is_open w c ≡ true
  moved w w' same c open_now = sym (ap (λ (f : ℕ → Bool). f c) same) ∙ open_now

  mongo_connected-Owned :
      (s : Server) (p : Process W) (r : Result (Unit {0}) × (MongoManager × W))
      → is_open r.1.1 ≡ is_open p.world
      → Owned is_open (s, p)
      → Owned is_open (mongo_connected s p r).1
  mongo_connected-Owned s p (ok u, (m, w)) same kept = λ c h. kept c (moved p.world w same c h)
  mongo_connected-Owned s p (err e, (m, w)) same kept = λ c h. kept c (moved p.world w same c h)

  pub with_mongo-KeepsOwned : KeepsOwned (with_mongo d)
  unfolding with_mongo
  with_mongo-KeepsOwned = record {
    at = λ sp kept.
        let (s, p) = sp in
        let m = mongo_instance s.config.mongo p.mongo in
        mongo_connected-Owned s p (Mongo.connect d.mongo (m, p.world))
          (MongoFrame.view-connect laws.mongo m p.world) kept;
  }

  redis_connected-Owned :
      (s : Server) (p : Process W) (r : Result (Unit {0}) × (RedisManager × W))
      → Outcome d.redis r
      → NoLeak is_open r.1
      → Owned is_open (redis_connected s p r).1
  redis_connected-Owned s p (ok u, (m, w)) outcome only = λ c h. (refl, only c h)
  redis_connected-Owned s p (err e, (m, w)) outcome only =
      λ c h. absurd (ground (arith, outcome, only c h))

  instance-NoLeak :
      (cfg : RedisConfig) (s : Server) (o : Option RedisManager) (w : W)
      → ((c : ℕ) → is_open w c ≡ true → (s.has_redis ≡ true) × (held o ≡ some c))
      → NoLeak is_open (redis_instance cfg o, w)
  instance-NoLeak cfg s none w kept = λ c h. (kept c h).1
  instance-NoLeak cfg s (some m) w kept = λ c h. (kept c h).1

  pub with_redis-KeepsOwned : KeepsOwned (with_redis d)
  unfolding with_redis
  with_redis-KeepsOwned = record {
    at = λ sp kept.
        let (s, p) = sp in
        let m = redis_instance s.config.redis p.redis in
        redis_connected-Owned s p (Redis.connect d.redis (m, p.world))
          (connect-Outcome d.redis (m, p.world))
          (manager-NoLeak laws.redis (m, p.world)
            (instance-NoLeak s.config.redis s p.redis p.world kept)).0;
  }

  apply_options-KeepsOwned :
      (opts : List (ServerOption W)) → All KeepsOwned opts → KeepsOwned (apply_options opts)
  unfolding apply_options
  apply_options-KeepsOwned [] kept = record { at = λ sp h. h }
  apply_options-KeepsOwned (opt ∷ opts) (first, rest) = record {
    at = λ sp h.
        continue-kept (replaced (wrapped "failed to apply option") (opt sp).0)
          (λ u. apply_options opts) (opt sp).1 (λ u. apply_options-KeepsOwned opts rest)
          (first.at sp h);
  }

  networked-KeepsOwned :
      (cfg : GrpcServerConfig) → KeepsOwned (networked (new_grpc_server d.network cfg))
  networked-KeepsOwned cfg = record {
    at = λ sp kept c h.
        let w = sp.1.world in
        kept c (
          moved w (new_grpc_server d.network cfg w).1
            (Network.view-new_grpc_server laws.network cfg w) c h);
  }

  with_manager-KeepsOwned : (m : GrpcServerManager) → KeepsOwned (with_manager m)
  with_manager-KeepsOwned m = record { at = λ sp h. h }

  build_found-KeepsOwned : (cfg : ServerConfig W) → KeepsOwned (build_found d cfg)
  unfolding build_found build_at listening service_address
  build_found-KeepsOwned cfg =
      search (keeps_rules, networked-KeepsOwned, with_manager-KeepsOwned) depth 9

  build-KeepsOwned :
      (cfg : ServerConfig W) → All KeepsOwned cfg.dependencies → KeepsOwned (build d cfg)
  unfolding build
  build-KeepsOwned cfg kept =
      search (keeps_rules, apply_options-KeepsOwned cfg.dependencies kept, build_found-KeepsOwned)

  -- A server that is returned is the one that the options have worked on.
  abbrev Returned : Result Server × (Server × Process W) → Type 0
  Returned (result, (s, p)) = (t : Server) → result ≡ ok t → s ≡ t

  not_Returned : (e : Error) (sp : Server × Process W) → Returned (err e, sp)
  not_Returned e sp t h = cc

  build_at-Returned :
      (cfg : ServerConfig W) (address : String) (sp : Server × Process W)
      → Returned (build_at d cfg address sp)
  unfolding build_at
  build_at-Returned cfg address sp =
      bind-ends Returned (listening d cfg address) with_manager sp (λ m v t h. cc) not_Returned

  build-Returned : (cfg : ServerConfig W) (sp : Server × Process W) → Returned (build d cfg sp)
  unfolding build build_found
  build-Returned cfg sp =
      bind-ends Returned (apply_options cfg.dependencies) (λ u. build_found d cfg) sp
        (λ u v.
          bind-ends Returned (service_address d cfg) (build_at d cfg) v (build_at-Returned cfg)
            not_Returned)
        not_Returned

  -- With what the drivers promise (`Promises`), and options that keep `Owned`, as WithMongo and WithRedis
  -- do: if no client of Redis is open when a server is made, then afterwards, whether that has
  -- succeeded or failed, at most the singleton's client is; and if it has succeeded and a client is
  -- open, then the server has a pointer to the singleton.
  pub new_server-Owned :
      (cfg : ServerConfig W) (p : Process W)
      → All KeepsOwned cfg.dependencies
      → AllClosed is_open p
      → ((c : ℕ)
          → is_open (new_server d cfg p).1.world c ≡ true
          → held (new_server d cfg p).1.redis ≡ some c)
        × ((s : Server) → (new_server d cfg p).0 ≡ ok s → Owned is_open (s, (new_server d cfg p).1))
  unfolding new_server
  new_server-Owned cfg p kept closed =
      let owned =
        (build-KeepsOwned cfg kept).at (blank cfg, p) (λ c h. absurd (ground (arith, closed c))) in
      (
        λ c h. (owned c h).1,
        λ s made c h. ground (arith, owned c h, build-Returned cfg (blank cfg, p) s),
      )

  -- Closing the singletons of MongoDB and Redis.
  mongo_closed-Owned :
      (s : Server) (p : Process W) (m : Option MongoManager)
      → Owned is_open (s, p)
      → Owned is_open (s, mongo_closed d p m)
  mongo_closed-Owned s p none kept = kept
  mongo_closed-Owned s p (some m) kept =
      λ c h. kept c (moved p.world _ (MongoFrame.view-disconnect laws.mongo m p.world) c h)

  redis_closed-AllClosed :
      (p : Process W) (m : Option RedisManager)
      → ((c : ℕ) → is_open p.world c ≡ true → held m ≡ some c)
      → AllClosed is_open (redis_closed d p m)
  redis_closed-AllClosed p none kept = λ c. ground (arith, kept c)
  redis_closed-AllClosed p (some m) kept = disconnect-shut laws.redis m p.world kept

  redis_cleaned-AllClosed :
      (s : Server) (p : Process W)
      → Owned is_open (s, p)
      → AllClosed is_open (if s.has_redis then redis_closed d p p.redis else p)
  redis_cleaned-AllClosed s p kept = elim (Bool-cases s.has_redis) [
    | inl has ↦ rw has (redis_closed-AllClosed p p.redis (λ c h. (kept c h).1))
    | inr lacks ↦ rw lacks (λ c. ground (arith, kept c, lacks))
  ]

  mongo_cleaned-Owned :
      (s : Server) (p : Process W)
      → Owned is_open (s, p)
      → Owned is_open (s, if s.has_mongo then mongo_closed d p p.mongo else p)
  mongo_cleaned-Owned s p kept = elim (Bool-cases s.has_mongo) [
    | inl has ↦ rw has (mongo_closed-Owned s p p.mongo kept)
    | inr lacks ↦ rw lacks kept
  ]

  pub cleanup-AllClosed :
      (s : Server) (p : Process W) → Owned is_open (s, p) → AllClosed is_open (cleanup d s p)
  unfolding cleanup
  cleanup-AllClosed s p kept =
      redis_cleaned-AllClosed s (if s.has_mongo then mongo_closed d p p.mongo else p)
        (mongo_cleaned-Owned s p kept)
