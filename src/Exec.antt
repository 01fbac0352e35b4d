-- ===== src/Exec.antt =====
-- Fallible Go calls. `(T, error)` is a `Result`; a method that reads or changes the outside world
-- `W` (databases, clock, randomness) is an action, which returns the world that it leaves beside
-- its result, on errors too.
pub mod Laws
pub mod Keeps
use re_master.Prelude.{Option, none, some}
use re_master.Errors.Types.{Error, AppError, to_error}

pub data Result (A : Type 0) : Type 0 where
  ok : A → Result A
  err : Error → Result A

abbrev pub Exec : Type 0 → Type 0 → Type 0
Exec W A = W → Result A × W

abbrev pub replaced : {A : Type 0} → (Error → Error) → Result A → Result A
replaced f (ok a) = ok a
replaced f (err e) = err (f e)

module _ {W A : Type 0} where
  pub pure : A → Exec W A
  pure a w = (ok a, w)

  pub raise : Error → Exec W A
  raise e w = (err e, w)

  -- `return nil, et.New…Error(…)`
  pub raise_app : AppError → Exec W A
  raise_app e w = (err (to_error e), w)

  pub lift : Result A → Exec W A
  lift r w = (r, w)

  -- A call that does not fail, such as `time.Now()`.
  pub read : (W → A × W) → Exec W A
  read f w = (ok (f w).0, (f w).1)

  -- The call's error as a value, for code that tests it itself.
  pub attempt : Exec W A → Exec W (Result A)
  attempt m w = (ok (m w).0, (m w).1)

  -- `if err != nil { return nil, f(err) }`
  pub or_fail : Exec W A → (Error → Error) → Exec W A
  or_fail m f w = (replaced f (m w).0, (m w).1)

  -- `_ = call(…)`, or a call whose error is only logged.
  pub ignore : Exec W A → Exec W (Unit {0})
  ignore m w = (ok tt, (m w).1)

module _ {W A B : Type 0} where
  abbrev pub continue : Result A → (A → Exec W B) → Exec W B
  continue (ok a) f w = f a w
  continue (err e) f w = (err e, w)

  infixl 5 ◌>>=◌ ◌>>◌
  -- Opening this opens the actions above too.
  unfoldable pub ◌>>=◌ : Exec W A → (A → Exec W B) → Exec W B
  unfolding pure raise raise_app lift read attempt or_fail ignore
  ◌>>=◌ m f w = continue (m w).0 f (m w).1

  abbrev pub ◌>>◌ : Exec W A → Exec W B → Exec W B
  m >> n = m >>= λ _. n
