-- ===== src/Gateway/Middleware/Window.antt =====
-- A series of requests of one client in one window, against the limiter of
-- services/api-gateway/middleware/common.go.
use re_master.Prelude.{
  ℕ, zero, suc, ◌+◌, ◌-◌, String, ◌≡◌, refl, ◌∙◌, arith, ltb, nat_eq, Bool, true, false, Bool-cases,
  inl, inr, if◌then◌else◌,
}
use Prim.Native.Nat.{min}
use re_master.Errors.Types.{AppError, new_rate_limit_error}
use re_master.Exec.{ok}
use re_master.Redis.{Redis}
use re_master.Gateway.Context.{Gin}
use re_master.Gateway.Middleware.Auth.{refuse}
use re_master.Gateway.Middleware.Common.{rate_limiter, limit_key}

-- What Redis does for the client's key while the servers answer, the key does not expire and no other
-- client has it: `count` is the number that the key holds. `runs` counts the runs of the handler
-- behind the limiter, and `renew` begins the client's next request.
pub record Windows {C : Type 0} (g : Gin C) (r : Redis C) (next renew : C → C) (count runs : C → ℕ)
    : Type 0 where
  pub incr : (c : C) → (r.incr_key (limit_key g c) c).0 ≡ ok (count c + 1)
  pub incr_counts :
      (c : C)
      → let c' = (r.incr_key (limit_key g c) c).1 in (count c' ≡ count c + 1) × (runs c' ≡ runs c)
  pub expire_keeps :
      (key : String) (d : ℕ) (c : C)
      → let c' = (r.expire_key key d c).1 in (count c' ≡ count c) × (runs c' ≡ runs c)
  pub refuse_keeps :
      (e : AppError) (c : C) → (count (refuse g e c) ≡ count c) × (runs (refuse g e c) ≡ runs c)
  pub next_runs : (c : C) → (count (next c) ≡ count c) × (runs (next c) ≡ runs c + 1)
  pub renew_keeps : (c : C) → (count (renew c) ≡ count c) × (runs (renew c) ≡ runs c)

module _ {C : Type 0} (g : Gin C) (r : Redis C) (next renew : C → C) (limit window : ℕ) where
  -- The context after this many requests.
  abbrev pub requests : ℕ → C → C
  requests zero c = c
  requests (suc n) c = requests n (renew (rate_limiter g r limit window next c))

  module _ {count runs : C → ℕ} (laws : Windows g r next renew count runs) where
    -- What a request leaves of the two numbers.
    abbrev Counted : C → C → Type 0
    Counted c c' =
        (count c' ≡ count c + 1)
        × (runs c' ≡ (if ltb limit (count c + 1) then runs c else runs c + 1))

    ended :
        (c₁ c₂ : C) (n : ℕ)
        → (count c₂ ≡ n) × (runs c₂ ≡ runs c₁)
        → let c' =
            if ltb limit n
            then refuse g (new_rate_limit_error "Too many requests") c₂
            else next c₂ in
          (count c' ≡ n) × (runs c' ≡ (if ltb limit n then runs c₁ else runs c₁ + 1))
    ended c₁ c₂ n (counts, same) = elim (Bool-cases (ltb limit n)) [
      | inl over ↦
          let kept = laws.refuse_keeps (new_rate_limit_error "Too many requests") c₂ in
          rw over (kept.0 ∙ counts, kept.1 ∙ same)
      | inr within ↦
          let run = laws.next_runs c₂ in rw within (run.0 ∙ counts, omega (arith, run.1, same))
    ]

    expired :
        (key : String) (c : C) (first : Bool)
        → let c' = if first then (r.expire_key key window c).1 else c in
          (count c' ≡ count c) × (runs c' ≡ runs c)
    expired key c true = laws.expire_keeps key window c
    expired key c false = (refl, refl)

    limited : (c : C) → Counted c (rate_limiter g r limit window next c)
    unfolding rate_limiter
    limited c =
        let c₁ = (r.incr_key (limit_key g c) c).1 in
        let (counts, same) = laws.incr_counts c in
        let (e, f) = expired (limit_key g c) c₁ (nat_eq (count c + 1) 1) in
        rw (laws.incr c) (ended c _ (count c + 1) (e ∙ counts, f ∙ same))

    -- With what Redis and gin promise (`Windows`): of `n` requests of one client in one window exactly the
    -- first reach the handler, as many as are left from the counter up to the limit, none if it is
    -- above; the counter counts all of them.
    pub requests_bounded :
        (n : ℕ) (c : C)
        → (runs (requests n c) ≡ runs c + min n (limit - count c))
          × (count (requests n c) ≡ count c + n)
    requests_bounded zero c = (omega arith, omega arith)
    requests_bounded (suc n) c =
        let after = rate_limiter g r limit window next c in
        let (counts, run) = limited c in
        let (same, kept) = laws.renew_keeps after in
        let (rest, total) = requests_bounded n (renew after) in
        (ground (arith, counts, run, same, kept, rest), ground (arith, counts, same, total))
