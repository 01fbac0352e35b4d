-- ===== src/Server/Lifecycle/Laws.antt =====
-- What every run of a server comes to.
use re_master.Prelude.{
  ℕ, zero, suc, ◌+◌, ◌≤◌, ◌<◌, ◌≡◌, refl, ◌⊎◌, inl, inr, Bool, true, false, arith, Bool-cases,
}
use re_master.Prelude.Runs.{Inevitable, inevitable}
use re_master.Server.Lifecycle.{
  Served, clean, Serving, running, returned, Handler, waiting, draining, drained, forced, Run,
  received, shut_down, served, handle, IsStopped, Step, receive, shut, fail, begin, drain, time_out,
  end, Reach, here, next, Finished, start_result,
}

abbrev flag : Bool → ℕ
flag true = 0
flag false = 1

abbrev of_serving : Serving → ℕ
of_serving running = 1
of_serving (returned v) = 0

abbrev of_handler : Handler → ℕ
of_handler waiting = 2
of_handler draining = 1
of_handler drained = 0
of_handler forced = 0

-- The steps that are left at most.
pub steps_left : Run → ℕ
steps_left r = flag r.signalled + flag r.cancelled + of_handler r.handler + of_serving r.serving

-- What each step does: it lowers the count, it takes back neither the signal nor the cancellation, and
-- it gives no signal without a cancellation.
pub record Advances (r t : Run) : Type 0 where
  pub fewer : steps_left t < steps_left r
  pub signal_stays : r.signalled ≡ true → t.signalled ≡ true
  pub cancel_stays : r.cancelled ≡ true → t.cancelled ≡ true
  pub both : t.signalled ≡ true → (r.signalled ≡ true) ⊎ (t.cancelled ≡ true)

Step-Advances : (r t : Run) → Step r t → Advances r t
unfolding steps_left received shut_down served handle start_result
Step-Advances r t (receive h e) = ground arith
Step-Advances r t (shut h e) = ground arith
Step-Advances r t (fail e p q h) = ground arith
Step-Advances r t (begin c w h) = ground arith
Step-Advances r t (drain w h) = ground arith
Step-Advances r t (time_out w h) = ground arith
Step-Advances r t (end v p s (inl n) h) = ground arith
Step-Advances r t (end v p s (inr n) h) = ground arith

-- A run of a server takes at most five steps.
Reach-le : (n : ℕ) (r : Run) → Reach n r → n + steps_left r ≤ 5
unfolding steps_left
Reach-le zero r here = omega arith
Reach-le (suc n) t (next {r = r} run step) =
    omega (arith, Reach-le n r run, (Step-Advances r t step).fewer)

-- A run that was given its signal: its context is cancelled.
abbrev Ending : Run → Type 0
Ending r = (r.signalled ≡ true) × (r.cancelled ≡ true)

abbrev Signalled→Cancelled : Run → Type 0
Signalled→Cancelled r = r.signalled ≡ true → r.cancelled ≡ true

Reach-signalled : (n : ℕ) (r : Run) → Reach n r → Signalled→Cancelled r
Reach-signalled zero r here h = cc
Reach-signalled (suc n) t (next {r = r} run step) h = elim ((Step-Advances r t step).both h) [
  | inl before ↦ (Step-Advances r t step).cancel_stays (Reach-signalled n r run before)
  | inr done ↦ done
]

-- A cancelled server whose serving has not ended has a step left that needs no signal.
serving_moves :
    (r : Run) (serving : Serving) (handler : Handler)
    → r.serving ≡ serving
    → r.handler ≡ handler
    → r.cancelled ≡ true
    → ((v : Served) × (serving ≡ returned v)) ⊎ ((t : Run) × Step r t)
serving_moves r (returned v) handler s h c = inl (v, refl)
serving_moves r running waiting s h c = inr (handle draining r, begin c h refl)
serving_moves r running draining s h c = inr (handle drained r, drain h refl)
serving_moves r running drained s h c = inr (served clean r, end clean s (inl h) (inl refl) refl)
serving_moves r running forced s h c = inr (served clean r, end clean s (inr h) (inl refl) refl)

abbrev finish_moves :
    (r : Run)
    → r.signalled ≡ true
    → ((v : Served) × (r.serving ≡ returned v)) ⊎ ((t : Run) × Step r t)
    → Finished r ⊎ ((t : Run) × Step r t)
finish_moves r signal (inl (v, done)) = inl (signal, v, done)
finish_moves r signal (inr move) = inr move

-- Once a signal has been received, in whatever state that finds the server, every run comes to the end of
-- `g.Wait()`: serving has ended and nothing else is waited for.
pub signal_finishes :
    (n : ℕ) (r : Run) → Reach n r → r.signalled ≡ true → Inevitable Step Finished r
signal_finishes n r run signal =
    inevitable Step Finished Ending steps_left
      (λ s t ending step.
        let forth = Step-Advances s t step in
        ((forth.signal_stays ending.0, forth.cancel_stays ending.1), forth.fewer))
      (λ s ending. finish_moves s ending.0 (serving_moves s s.serving s.handler refl refl ending.1))
      (suc (steps_left r)) r (omega arith) (signal, Reach-signalled n r run signal)

-- A state in which nothing but a signal can happen.
abbrev pub AwaitsSignal : Run → Type 0
AwaitsSignal r =
    (r.signalled ≡ false)
    × ((v : Served) × (r.serving ≡ returned v))
    × ((t : Run) → Step r t → t ≡ received r)

abbrev pub Idle : Run → Type 0
Idle r = (r.signalled ≡ true) ⊎ AwaitsSignal r

-- After the handler's end and that of serving.
stopped_awaits :
    (r : Run) (v : Served)
    → r.signalled ≡ false
    → r.serving ≡ returned v
    → IsStopped r
    → r.cancelled ≡ true
    → AwaitsSignal r
stopped_awaits r v quiet ended stopped c = (quiet, (v, ended), λ t step. only t step)
  where
    only : (t : Run) → Step r t → t ≡ received r
    only t (receive h e) = e
    only t (shut h e) = ground arith
    only t (fail e p q h) = ground arith
    only t (begin k w h) = ground (arith, stopped)
    only t (drain w h) = ground (arith, stopped)
    only t (time_out w h) = ground (arith, stopped)
    only t (end w p s n h) = ground arith

cancelled_moves :
    (r : Run) (serving : Serving) (handler : Handler)
    → r.serving ≡ serving
    → r.handler ≡ handler
    → r.signalled ≡ false
    → r.cancelled ≡ true
    → Idle r ⊎ ((t : Run) × Step r t)
cancelled_moves r serving waiting s h quiet c = inr (handle draining r, begin c h refl)
cancelled_moves r serving draining s h quiet c = inr (handle drained r, drain h refl)
cancelled_moves r running drained s h quiet c =
    inr (served clean r, end clean s (inl h) (inl refl) refl)
cancelled_moves r running forced s h quiet c =
    inr (served clean r, end clean s (inr h) (inl refl) refl)
cancelled_moves r (returned v) drained s h quiet c =
    inl (inr (stopped_awaits r v quiet s (inl h) c))
cancelled_moves r (returned v) forced s h quiet c = inl (inr (stopped_awaits r v quiet s (inr h) c))

-- After `Shutdown`, or after a failure to serve, and with no signal, every run comes to a state in which
-- serving has ended and nothing but a signal can happen: `Start` waits for one.
pub cancelled_awaits_signal : (r : Run) → r.cancelled ≡ true → Inevitable Step Idle r
cancelled_awaits_signal r c =
    inevitable Step Idle (λ s. s.cancelled ≡ true) steps_left
      (λ s t k step. let forth = Step-Advances s t step in (forth.cancel_stays k, forth.fewer))
      (λ s k. elim (Bool-cases s.signalled) [
        | inl signal ↦ inl (inl signal)
        | inr quiet ↦ cancelled_moves s s.serving s.handler refl refl quiet k
      ])
      (suc (steps_left r)) r (omega arith) c
