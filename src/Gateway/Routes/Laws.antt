-- ===== src/Gateway/Routes/Laws.antt =====
-- What the report of server/routes.go says of the connections to the services.
use re_master.Prelude.{
  ℕ, String, ◌≡◌, ◌↔◌, refl, true, false, Option, some, none, List, [], ◌∷◌, All, arith,
}
use re_master.Gateway.Routes.{
  State, ready, is_ready, Health, add_service, add_services, health_status,
}

abbrev pub IsUp : String × Option State → Type 0
IsUp connection = connection.1 ≡ some ready

is_ready-eq : (s : State) → is_ready s ≡ true → s ≡ ready
is_ready-eq s h = ground arith

module _ (state_string : State → String) where
  -- A round of the loop leaves the flag set exactly if it was set and the connection is up.
  healthy-add_service :
      (name : String) (state : Option State) (h : Health)
      → ((add_service state_string name state h).healthy ≡ true)
        ↔ ((h.healthy ≡ true) × (state ≡ some ready))
  unfolding add_service
  healthy-add_service name none h = (λ e. absurd (ground arith), λ e. absurd (ground arith))
  healthy-add_service name (some s) h =
      (λ e. (ground arith, ground (arith, is_ready-eq s)), λ e. ground arith)

  healthy-add_services :
      (cs : List (String × Option State)) (h : Health)
      → ((add_services state_string cs h).healthy ≡ true) ↔ ((h.healthy ≡ true) × All IsUp cs)
  unfolding add_services
  healthy-add_services [] h = (λ e. (e, tt), λ e. e.0)
  healthy-add_services ((name, state) ∷ cs) h =
      let step = healthy-add_service name state h in
      let rest = healthy-add_services cs (add_service state_string name state h) in
      (
        λ e. let (now, up) = rest.0 e in let (before, this) = step.0 now in (before, (this, up)),
        λ (before, (this, up)). rest.1 (step.1 (before, this), up),
      )

  -- The report is answered with 200 if every connection is there and ready, and with 503 if one is
  -- not; the flag of the report says the same.
  pub health_status_iff :
      (cs : List (String × Option State)) (now : ℕ) (version : String)
      → let (status, report) = health_status state_string cs now version in
        ((status ≡ 200) ↔ All IsUp cs)
        × ((status ≡ 503) ↔ (report.healthy ≡ false))
        × ((report.healthy ≡ true) ↔ All IsUp cs)
  unfolding health_status
  health_status_iff cs now version =
      let all = healthy-add_services cs (record { healthy = true; services = []; details = [] }) in
      (
        (λ e. (all.0 (ground arith)).1, λ up. ground (arith, all.1 (refl, up))),
        (λ e. ground arith, λ e. ground arith),
        (λ e. (all.0 e).1, λ up. all.1 (refl, up)),
      )
