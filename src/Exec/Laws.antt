-- ===== src/Exec/Laws.antt =====
-- What a successful bind says of its parts.
use re_master.Prelude.{◌≡◌, refl, arith}
use re_master.Errors.Types.{Error}
use re_master.Exec.{Result, ok, err, Exec, ◌>>=◌, continue, or_fail}

module _ {W A B : Type 0} where
  continue-eq-ok :
      (r : Result A) (f : A → Exec W B) (w : W) {b : B} {w' : W}
      → continue r f w ≡ (ok b, w')
      → (a : A) × (r ≡ ok a) × (f a w ≡ (ok b, w'))
  continue-eq-ok (ok a) f w h = (a, refl, h)
  continue-eq-ok (err e) f w h = cc

  -- A block that succeeds has a first action that succeeds, and the rest succeeds from its result.
  pub bind-eq-ok :
      (m : Exec W A) (f : A → Exec W B) (w : W) {b : B} {w' : W}
      → (m >>= f) w ≡ (ok b, w')
      → (a : A) × ((m w).0 ≡ ok a) × (f a (m w).1 ≡ (ok b, w'))
  unfolding ◌>>=◌
  bind-eq-ok m f w h = continue-eq-ok (m w).0 f (m w).1 h

  continue-ends :
      (Q : Result B × W → Type 0) (r : Result A) (f : A → Exec W B) (w : W)
      → ((a : A) (v : W) → Q (f a v))
      → ((e : Error) (v : W) → Q (err e, v))
      → Q (continue r f w)
  continue-ends Q (ok a) f w later failed = later a w
  continue-ends Q (err e) f w later failed = failed e w

  -- What every end of the rest has, and every failure, the whole block has.
  pub bind-ends :
      (Q : Result B × W → Type 0) (m : Exec W A) (f : A → Exec W B) (w : W)
      → ((a : A) (v : W) → Q (f a v))
      → ((e : Error) (v : W) → Q (err e, v))
      → Q ((m >>= f) w)
  unfolding ◌>>=◌
  bind-ends Q m f w later failed = continue-ends Q (m w).0 f (m w).1 later failed

module _ {W A : Type 0} where
  pub or_fail-eq-ok :
      (m : Exec W A) (f : Error → Error) (w : W) {a : A} → (or_fail m f w).0 ≡ ok a → (m w).0 ≡ ok a
  unfolding or_fail
  or_fail-eq-ok m f w h = ground arith
