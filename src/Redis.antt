-- ===== src/Redis.antt =====
-- The commands of the Redis client that the program sends.
use re_master.Prelude.{ℕ, String, List}
use re_master.Prelude.Int.{ℤ}
use re_master.Exec.{Result, Exec}

-- A command of a pipeline.
pub data Command : Type 0 where
  incr : String → Command
  expire : String → ℕ → Command

-- A missing key makes `get` and `get_int` fail with `redis.Nil`. A time to live that is not
-- positive makes `set` store with no expiry. `scan` returns the keys that the iterator yields, with
-- its final error.
pub record Redis (W : Type 0) : Type 0 where
  pub get : String → Exec W String
  pub get_int : String → Exec W ℕ
  pub ttl : String → Exec W ℤ
  pub duration_text : Result ℤ → String
  pub incr_key : String → Exec W ℕ
  pub expire_key : String → ℕ → Exec W (Unit {0})
  pub pipeline : List Command → Exec W (Unit {0})
  pub set : String → String → ℤ → Exec W (Unit {0})
  pub del : String → Exec W (Unit {0})
  pub exists : String → Exec W ℕ
  pub scan : String → ℕ → W → (List String × Result (Unit {0})) × W
