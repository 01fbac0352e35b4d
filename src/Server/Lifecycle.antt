-- ===== src/Server/Lifecycle.antt =====
-- The goroutines of a running server: `Start`, `Shutdown` and `waitForShutdownSignal` of
-- shared/server/server_factory.go, `Start` and `handleShutdown` of shared/server/grpc.go. A step of the
-- relation is a step of one of them, of a caller of `Shutdown`, or a failure to serve.
pub mod Laws
use re_master.Prelude.{◌≡◌, ◌⊎◌, Bool, true, false, ℕ, suc}
use re_master.Errors.Types.{Error, wrapped}
use re_master.Exec.{Result, ok, err}

-- What grpc's `Serve` returns: nil, `ErrServerStopped`, or another error.
pub data Served : Type 0 where
  clean server_stopped : Served
  failed : Error → Served

pub data Serving : Type 0 where
  running : Serving
  returned : Served → Serving

-- `handleShutdown`: it waits for the cancellation, then for the graceful stop or for 30 seconds, after
-- which it stops the server.
pub data Handler : Type 0 where
  waiting draining drained forced : Handler

-- A run of `Start`: the goroutine that serves, the handler of the shutdown, whether the goroutine that
-- waits for a signal has had one, and whether the context is cancelled.
pub record Run : Type 0 where
  pub serving : Serving
  pub handler : Handler
  pub signalled : Bool
  pub cancelled : Bool

abbrev pub started : Run
started = record { serving = running; handler = waiting; signalled = false; cancelled = false }

-- `GRPCServerManager.Start`, from what `Serve` returns.
unfoldable pub start_result : Served → Result (Unit {0})
start_result clean = ok tt
start_result server_stopped = ok tt
start_result (failed e) = err (wrapped "gRPC server failed" e)

-- The signal cancels the context, and so do `Shutdown` and an error in the group of goroutines.
unfoldable pub received : Run → Run
received r = record r { signalled = true; cancelled = true }

unfoldable pub shut_down : Run → Run
shut_down r = record r { cancelled = true }

abbrev pub cancels : Result (Unit {0}) → Bool → Bool
cancels (ok u) cancelled = cancelled
cancels (err e) cancelled = true

unfoldable pub served : Served → Run → Run
unfolding start_result
served v r = record r { serving = returned v; cancelled = cancels (start_result v) r.cancelled }

unfoldable pub handle : Handler → Run → Run
handle h r = record r { handler = h }

abbrev pub IsStopped : Run → Type 0
IsStopped r = (r.handler ≡ drained) ⊎ (r.handler ≡ forced)

-- Serving ends when the server has been stopped, and may fail before that is begun.
pub data Step (r t : Run) : Type 0 where
  receive : r.signalled ≡ false → t ≡ received r → Step r t
  shut : r.cancelled ≡ false → t ≡ shut_down r → Step r t
  fail :
      (e : Error) → r.serving ≡ running → r.handler ≡ waiting → t ≡ served (failed e) r → Step r t
  begin : r.cancelled ≡ true → r.handler ≡ waiting → t ≡ handle draining r → Step r t
  drain : r.handler ≡ draining → t ≡ handle drained r → Step r t
  time_out : r.handler ≡ draining → t ≡ handle forced r → Step r t
  end :
      (v : Served)
      → r.serving ≡ running
      → IsStopped r
      → (v ≡ clean) ⊎ (v ≡ server_stopped)
      → t ≡ served v r
      → Step r t

-- The states that `n` steps from the start lead to.
pub data Reach : ℕ → Run → Type 0 where
  here : Reach 0 started
  next : {n : ℕ} {r t : Run} → Reach n r → Step r t → Reach (suc n) t

-- `g.Wait()` returns when both goroutines of the group have returned.
abbrev pub Finished : Run → Type 0
Finished r = (r.signalled ≡ true) × (v : Served) × (r.serving ≡ returned v)
