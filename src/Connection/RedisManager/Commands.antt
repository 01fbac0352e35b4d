-- ===== src/Connection/RedisManager/Commands.antt =====
-- The helpers of shared/connection/redis.go that pass one command on to the client. A call on a nil
-- client panics: such a helper is none.
use re_master.Prelude.{ℕ, String, Bool, Option, none, some, ltb}
use re_master.Errors.Types.{wrapped}
use re_master.Exec.{Exec, Result, ok, err, replaced}
use re_master.Connection.RedisManager.{RedisManager}

-- The commands of the client, on values of the type `V`; a time to live is in nanoseconds.
pub record Commands (W V : Type 0) : Type 0 where
  pub set : ℕ → String → V → ℕ → Exec W (Unit {0})
  pub get : ℕ → String → Exec W String
  pub del : ℕ → String → Exec W (Unit {0})
  pub exists : ℕ → String → Exec W ℕ
  pub info : ℕ → String → Exec W String

abbrev on_client : {W A : Type 0} → Option ℕ → (ℕ → Exec W A) → Option (Exec W A)
on_client none command = none
on_client (some c) command = some (command c)

unfoldable pub get_client : RedisManager → Option ℕ
get_client m = m.client

module _ {W V : Type 0} (commands : Commands W V) where
  unfoldable pub set : RedisManager → String → V → ℕ → Option (Exec W (Unit {0}))
  set m key value ttl = on_client m.client (λ c. commands.set c key value ttl)

  unfoldable pub get : RedisManager → String → Option (Exec W String)
  get m key = on_client m.client (λ c. commands.get c key)

  unfoldable pub delete : RedisManager → String → Option (Exec W (Unit {0}))
  delete m key = on_client m.client (λ c. commands.del c key)

  abbrev positive : Result ℕ → Result Bool
  positive (ok n) = ok (ltb 0 n)
  positive (err e) = err e

  -- Beside the error the flag is false.
  unfoldable pub exists : RedisManager → String → Option (Exec W Bool)
  exists m key =
      on_client m.client (λ c w. let (r, w') = commands.exists c key w in (positive r, w'))

  -- The map with the one key "info" is its value.
  unfoldable pub stats : RedisManager → Option (Exec W String)
  stats m = on_client m.client λ c w. (
    replaced (wrapped "failed to get Redis stats") (commands.info c "stats" w).0,
    (commands.info c "stats" w).1,
  )
