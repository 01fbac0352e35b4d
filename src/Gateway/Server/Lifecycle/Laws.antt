-- ===== src/Gateway/Server/Lifecycle/Laws.antt =====
-- What a signal may find and leave in the gateway.
use re_master.Prelude.{ℕ, zero, suc, ap, false, ◌≡◌, refl, ◌⊎◌, inl, true, some, arith}
use re_master.Exec.{ok}
use re_master.Gateway.Server.Lifecycle.{
  listening, waiting, Run, started, http_result, http_returns, signalled, begin_shutdown,
  close_connections, Step, arrive, answer, signal, fail, notice, close, begin, drain, time_out,
  Reach, here, next, start_result,
}

-- The gateway serving with `n` requests in flight.
abbrev busy : ℕ → Run
busy n = record started { in_flight = n }

busy-Reach : (n : ℕ) → Reach (busy n)
busy-Reach zero = here
busy-Reach (suc n) = next (busy-Reach n) (arrive refl (ap busy (omega arith)))

-- Whatever the number of requests in flight, two things can happen: `Start` has returned nil while these
-- requests are in flight and the connections to the services are not closed; and these connections
-- are closed while the HTTP server still listens and the requests are in flight.
pub signal_races :
    (n : ℕ)
    → ((t : Run) × Reach t
        × (start_result t.http ≡ some (ok tt))
        × (t.in_flight ≡ n)
        × (t.connections_closed ≡ false))
      × ((u : Run) × Reach u
          × (u.http ≡ listening)
          × (u.in_flight ≡ n)
          × (u.connections_closed ≡ true))
unfolding signalled begin_shutdown close_connections start_result
signal_races n =
    let received : Reach (signalled (busy n)) = next (busy-Reach n) (signal refl refl) in
    (
      (begin_shutdown (signalled (busy n)), next received (begin refl refl refl), refl, refl, refl),
      (close_connections (signalled (busy n)), next received (close refl refl), refl, refl, refl),
    )

-- The connections are closed, the cleanup begins and serving ends only after the cancellation.
pub record IsOrderly (r : Run) : Type 0 where
  pub closed_late : r.connections_closed ≡ true → r.cancelled ≡ true
  pub cleanup_late : (r.cleanup ≡ waiting) ⊎ (r.cancelled ≡ true)
  pub returned_late : (r.http ≡ listening) ⊎ (r.cancelled ≡ true)

Step-IsOrderly : (r t : Run) → Step r t → IsOrderly r → IsOrderly t
unfolding http_result http_returns signalled begin_shutdown close_connections
Step-IsOrderly r t (arrive h e) o = ground arith
Step-IsOrderly r t (answer n h e) o = ground arith
Step-IsOrderly r t (signal h e) o = ground arith
Step-IsOrderly r t (fail cause h e) o = ground arith
Step-IsOrderly r t (notice c h e) o = ground arith
Step-IsOrderly r t (close h e) o = ground arith
Step-IsOrderly r t (begin c h e) o = ground arith
Step-IsOrderly r t (drain h n e) o = ground arith
Step-IsOrderly r t (time_out h e) o = ground arith

-- In every state that the gateway can reach, the connections to the services are closed, the cleanup has
-- begun and the HTTP server has returned only if the context is cancelled, by a signal or by a
-- failure of the HTTP server.
Reach-IsOrderly : (r : Run) → Reach r → IsOrderly r
Reach-IsOrderly r here = record {
  closed_late = λ h. cc;
  cleanup_late = inl refl;
  returned_late = inl refl;
}
Reach-IsOrderly t (next {r = r} run step) = Step-IsOrderly r t step (Reach-IsOrderly r run)
