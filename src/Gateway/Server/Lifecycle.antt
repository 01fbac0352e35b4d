-- ===== src/Gateway/Server/Lifecycle.antt =====
-- The goroutines of the running gateway: `Start`, `runHTTPServer` and `shutdown` of
-- services/api-gateway/server/server.go. A step of the relation is a step of one of them, of a client, or
-- a failure of the HTTP server.
pub mod Laws
use re_master.Prelude.{ℕ, suc, ◌+◌, ◌≡◌, ◌⊎◌, Bool, true, false, Option, none, some}
use re_master.Errors.Types.{Error, wrapped}
use re_master.Exec.{Result, ok, err}

-- What `ListenAndServe` returns; it never returns nil, and `ErrServerClosed` as soon as `Shutdown` is
-- called.
pub data Served : Type 0 where
  server_closed : Served
  failed : Error → Served

pub data Http : Type 0 where
  listening : Http
  returned : Served → Http

-- The goroutine of `runHTTPServer` that waits for the context and then calls `Shutdown` with its time
-- limit, and that of `shutdown`, which closes the connections to the services.
pub data Worker : Type 0 where
  waiting working done : Worker

-- A run of `Start` after the connections are made.
pub record Run : Type 0 where
  pub http : Http
  pub in_flight : ℕ
  pub http_shutdown : Worker
  pub cleanup : Worker
  pub cancelled : Bool
  pub connections_closed : Bool

abbrev pub started : Run
started = record {
  http = listening;
  in_flight = 0;
  http_shutdown = waiting;
  cleanup = waiting;
  cancelled = false;
  connections_closed = false;
}

-- `runHTTPServer`, from what `ListenAndServe` returns.
unfoldable pub http_result : Served → Result (Unit {0})
http_result server_closed = ok tt
http_result (failed e) = err (wrapped "HTTP server error" e)

-- The return of the only goroutine of the group cancels the context on an error.
abbrev pub cancels : Result (Unit {0}) → Bool → Bool
cancels (ok u) cancelled = cancelled
cancels (err e) cancelled = true

unfoldable pub http_returns : Served → Run → Run
unfolding http_result
http_returns v r = record r { http = returned v; cancelled = cancels (http_result v) r.cancelled }

-- The signal is received by the goroutine that cleans up.
unfoldable pub signalled : Run → Run
signalled r = record r { cancelled = true; cleanup = working }

abbrev pub closed : Http → Http
closed listening = returned server_closed
closed (returned v) = returned v

-- The call of `Shutdown`: the listener is closed, and requests in flight go on.
unfoldable pub begin_shutdown : Run → Run
begin_shutdown r = record r { http_shutdown = working; http = closed r.http }

unfoldable pub close_connections : Run → Run
close_connections r = record r { cleanup = done; connections_closed = true }

pub data Step (r t : Run) : Type 0 where
  arrive : r.http ≡ listening → t ≡ record r { in_flight = r.in_flight + 1 } → Step r t
  answer : (n : ℕ) → r.in_flight ≡ suc n → t ≡ record r { in_flight = n } → Step r t
  signal : r.cleanup ≡ waiting → t ≡ signalled r → Step r t
  fail : (e : Error) → r.http ≡ listening → t ≡ http_returns (failed e) r → Step r t
  notice : r.cancelled ≡ true → r.cleanup ≡ waiting → t ≡ record r { cleanup = working } → Step r t
  close : r.cleanup ≡ working → t ≡ close_connections r → Step r t
  begin : r.cancelled ≡ true → r.http_shutdown ≡ waiting → t ≡ begin_shutdown r → Step r t
  drain :
      r.http_shutdown ≡ working → r.in_flight ≡ 0 → t ≡ record r { http_shutdown = done } → Step r t
  time_out : r.http_shutdown ≡ working → t ≡ record r { http_shutdown = done } → Step r t

pub data Reach : Run → Type 0 where
  here : Reach started
  next : {r t : Run} → Reach r → Step r t → Reach t

-- `g.Wait()` returns what `runHTTPServer` has returned, and with it `Start` and the program: none while
-- it waits.
unfoldable pub start_result : Http → Option (Result (Unit {0}))
unfolding http_result
start_result listening = none
start_result (returned v) = some (http_result v)
