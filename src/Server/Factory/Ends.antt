-- ===== src/Server/Factory/Ends.antt =====
-- How a server of shared/server/server_factory.go ends, from what `Serve` has returned.
use re_master.Prelude.{◌≡◌, refl, ℕ, Bool}
use re_master.Errors.Types.{wrapped}
use re_master.Exec.{Result, ok, err}
use re_master.Server.Factory.{Server, Process, Drivers, after_wait}
use re_master.Server.Factory.Laws.{Promises, Owned, AllClosed, cleanup-AllClosed}
use re_master.Server.Lifecycle.{Served, clean, server_stopped, failed, start_result}

module _ {W : Type 0} (is_open : W → ℕ → Bool) where
  -- What `Start` returns and leaves, for what `Serve` has returned.
  abbrev pub EndsAs : Process W → Served → Result (Unit {0}) × Process W → Type 0
  EndsAs p clean (result, p') = (result ≡ ok tt) × AllClosed is_open p'
  EndsAs p server_stopped (result, p') = (result ≡ ok tt) × AllClosed is_open p'
  EndsAs p (failed e) (result, p') = (result ≡ err (wrapped "gRPC server failed" e)) × (p' ≡ p)

module _ {W : Type 0} {d : Drivers W} {is_open : W → ℕ → Bool} (laws : Promises d is_open) where
  -- With what the drivers promise (`Promises`), and a server that has the singleton if a client of Redis
  -- is open (`Owned`): when `Serve` has returned nil or that the server was stopped, `Start` returns nil
  -- and no client of Redis is open; when it has failed, `Start` returns that error, and closes nothing.
  pub after_wait-ends :
      (s : Server) (p : Process W) (v : Served)
      → Owned is_open (s, p)
      → EndsAs is_open p v (after_wait d s (start_result v) p)
  unfolding after_wait start_result
  after_wait-ends s p clean owned = (refl, cleanup-AllClosed laws s p owned)
  after_wait-ends s p server_stopped owned = (refl, cleanup-AllClosed laws s p owned)
  after_wait-ends s p (failed e) owned = (refl, refl)
