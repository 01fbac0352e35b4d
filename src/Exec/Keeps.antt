-- ===== src/Exec/Keeps.antt =====
-- Predicates on the outside world that an action keeps, whether it succeeds or fails: a rule for
-- each way to build an action.
use re_master.Prelude.{Bool, true, false, if◌then◌else◌}
use re_master.Errors.Types.{Error, AppError}
use re_master.Exec.{
  Result, ok, err, Exec, pure, raise, raise_app, lift, read, attempt, or_fail, ignore, ◌>>=◌,
  continue,
}

pub record Keeps {W A : Type 0} (P : W → Type 0) (m : Exec W A) : Type 0 where
  pub at : (w : W) → P w → P (m w).1

module _ {W A : Type 0} {P : W → Type 0} where
  pub Keeps-attempt : (m : Exec W A) → Keeps P m → Keeps P (attempt m)
  unfolding attempt
  Keeps-attempt m k = record { at = k.at }

  pub Keeps-or_fail : (m : Exec W A) (f : Error → Error) → Keeps P m → Keeps P (or_fail m f)
  unfolding or_fail
  Keeps-or_fail m f k = record { at = k.at }

  pub Keeps-ignore : (m : Exec W A) → Keeps P m → Keeps P (ignore m)
  unfolding ignore
  Keeps-ignore m k = record { at = k.at }

  pub Keeps-if : (b : Bool) (m n : Exec W A) → Keeps P m → Keeps P n → Keeps P (if b then m else n)
  Keeps-if true m n km kn = km
  Keeps-if false m n km kn = kn

  pub Keeps-pure : (a : A) → Keeps P (pure {W = W} a)
  unfolding pure
  Keeps-pure a = record { at = λ w h. h }

  pub Keeps-raise : (e : Error) → Keeps P (raise {W = W} {A = A} e)
  unfolding raise
  Keeps-raise e = record { at = λ w h. h }

  pub Keeps-raise_app : (e : AppError) → Keeps P (raise_app {W = W} {A = A} e)
  unfolding raise_app
  Keeps-raise_app e = record { at = λ w h. h }

  pub Keeps-lift : (r : Result A) → Keeps P (lift {W = W} r)
  unfolding lift
  Keeps-lift r = record { at = λ w h. h }

  pub Keeps-read : (f : W → A × W) → ((w : W) → P w → P (f w).1) → Keeps P (read f)
  unfolding read
  Keeps-read f k = record { at = k }

module _ {W A B : Type 0} {P : W → Type 0} where
  pub continue-kept :
      (r : Result A) (f : A → Exec W B) (w : W)
      → ((a : A) → Keeps P (f a))
      → P w
      → P (continue r f w).1
  continue-kept (ok a) f w k h = (k a).at w h
  continue-kept (err e) f w k h = h

  pub Keeps-bind :
      (m : Exec W A) (f : A → Exec W B) → Keeps P m → ((a : A) → Keeps P (f a)) → Keeps P (m >>= f)
  unfolding ◌>>=◌
  Keeps-bind m f first rest = record {
    at = λ w h. continue-kept (m w).0 f (m w).1 rest (first.at w h);
  }

pub ruleset keeps_rules = (
  Keeps-pure, Keeps-raise, Keeps-raise_app, Keeps-lift, Keeps-read, Keeps-attempt, Keeps-or_fail,
  Keeps-ignore, Keeps-if, Keeps-bind,
)
