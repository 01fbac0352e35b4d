-- ===== src/Auth/Main/Laws.antt =====
-- What services/auth/main.go leaves open at its end.
use re_master.Prelude.{ℕ, ◌≡◌, refl, Bool}
use re_master.Exec.{Exec, Result, ok, err}
use re_master.Config.{Config}
use re_master.Server.Factory.{Server, Process, Drivers, new_server, after_wait}
use re_master.Server.Factory.Laws.{
  Promises, Owned, AllClosed, new_server-Owned, with_mongo-KeepsOwned, with_redis-KeepsOwned,
}
use re_master.Server.Factory.Ends.{EndsAs, after_wait-ends}
use re_master.Server.Lifecycle.{Served, clean, server_stopped, failed, start_result}
use re_master.Auth.Main.{ended, auth_server, main, configured, built, stopped}

module _ {W : Type 0} (is_open : W → ℕ → Bool) where
  -- What the end of a run leaves, for what `Serve` has returned and the process that it has left.
  abbrev pub LeavesAs : Process W → Served → Process W → Type 0
  LeavesAs served clean p = AllClosed is_open p
  LeavesAs served server_stopped p = AllClosed is_open p
  LeavesAs served (failed e) p = p ≡ served

module _ {W : Type 0} {d : Drivers W} {is_open : W → ℕ → Bool} (laws : Promises d is_open)
    (serve : Server → Process W → Served × Process W) where
  -- Serving opens no client of Redis that the server would not own.
  abbrev pub ServesOwned : Type 0
  ServesOwned =
      (s : Server) (p : Process W) → Owned is_open (s, p) → Owned is_open (s, (serve s p).1)

  -- A server was made, and what the run has left is what `Serve`, run for that server from the process in
  -- which it was made, calls for.
  abbrev Left : Result Server × Process W → Process W → Type 0
  Left (r, p) p' = (s : Server) × (r ≡ ok s) × LeavesAs is_open (serve s p).1 (serve s p).0 p'

  stopped-Left :
      (s : Server) (p : Process W)
      → ServesOwned
      → Owned is_open (s, p)
      → LeavesAs is_open (serve s p).1 (serve s p).0 (stopped d s (serve s p)).1
  stopped-Left s p serves owned =
      by_result (serve s p).0 (after_wait-ends laws s _ _ (serves s p owned))
    where
      by_result :
          (v : Served)
          → EndsAs is_open (serve s p).1 v (after_wait d s (start_result v) (serve s p).1)
          → LeavesAs is_open (serve s p).1 v (after_wait d s (start_result v) (serve s p).1).1
      by_result clean ends = ends.1
      by_result server_stopped ends = ends.1
      by_result (failed e) ends = ends.1

  built-Left :
      (r : Result Server) (p : Process W)
      → ServesOwned
      → ((s : Server) → r ≡ ok s → Owned is_open (s, p))
      → (built d serve (r, p)).0 ≡ ended
      → Left (r, p) (built d serve (r, p)).1
  built-Left (ok s) p serves owned h = (s, refl, stopped-Left s p serves (owned s refl))
  built-Left (err e) p serves owned h = cc

  configured-Left :
      (r : Result Config) (p : Process W)
      → ServesOwned
      → AllClosed is_open p
      → (configured d serve (r, p)).0 ≡ ended
      → (cfg : Config) × (r ≡ ok cfg)
        × Left (new_server d (auth_server d cfg) p) (configured d serve (r, p)).1
  unfolding auth_server
  configured-Left (err e) p serves closed h = cc
  configured-Left (ok cfg) p serves closed h =
      let (r, p') = new_server d (auth_server d cfg) p in
      (
        cfg,
        refl,
        built-Left r p' serves
            (new_server-Owned laws (auth_server d cfg) p
              (with_mongo-KeepsOwned laws, (with_redis-KeepsOwned laws, tt)) closed).1
            h,
      )

  -- With what the drivers promise (`Promises`), if serving leaves no client of Redis open that the server
  -- does not own, and none is open after the configuration is loaded: when `main` of the
  -- authentication service comes to its end, it has loaded a configuration and made a server, and if
  -- `Serve` of that server has returned nil or that it was stopped, no client of Redis is open; if it
  -- has failed, everything is as `Serve` has left it.
  pub main-EndsClosed :
      (load_config : Exec (Process W) Config) (p : Process W)
      → ServesOwned
      → AllClosed is_open (load_config p).1
      → (main d load_config serve p).0 ≡ ended
      → let (loaded, p₁) = load_config p in
        (cfg : Config) × (loaded ≡ ok cfg)
        × ((s : Server) × ((new_server d (auth_server d cfg) p₁).0 ≡ ok s)
            × (let (v, p₂) = serve s (new_server d (auth_server d cfg) p₁).1 in
                LeavesAs is_open p₂ v (main d load_config serve p).1))
  unfolding main
  main-EndsClosed load_config p serves closed h =
      let (r, p') = load_config p in configured-Left r p' serves closed h
