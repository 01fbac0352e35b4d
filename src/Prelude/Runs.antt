-- ===== src/Prelude/Runs.antt =====
-- Runs of a step relation: what every run comes to, and a rule by a measure that falls with each step.
use Prim.Native.Nat.{ℕ, zero, suc, ◌<◌}
use mathlib.Core.Logic.{◌⊎◌, inl, inr}
use native.Mathlib.Omega.{arith}

-- Every run from the state comes to a state of the goal: the state is one, or some step is possible and
-- each possible step leads to a state from which every run does.
pub data Inevitable {S : Type 0} (Step : S → S → Type 0) (Goal : S → Type 0) : S → Type 0 where
  now : {s : S} → Goal s → Inevitable Step Goal s
  later :
      {s : S} (t : S)
      → Step s t
      → ((u : S) → Step s u → Inevitable Step Goal u)
      → Inevitable Step Goal s

module _ {S : Type 0} (Step : S → S → Type 0) (Goal Inv : S → Type 0) (measure : S → ℕ)
    (kept : (s t : S) → Inv s → Step s t → Inv t × (measure t < measure s))
    (moves : (s : S) → Inv s → Goal s ⊎ ((t : S) × Step s t)) where
  abbrev follow :
      (s : S)
      → ((u : S) → Step s u → Inevitable Step Goal u)
      → Goal s ⊎ ((t : S) × Step s t)
      → Inevitable Step Goal s
  follow s all (inl goal) = now goal
  follow s all (inr (t, step)) = later t step all

  -- An invariant under which each step lowers the measure, and a step is possible before the goal.
  pub inevitable : (n : ℕ) (s : S) → measure s < n → Inv s → Inevitable Step Goal s
  inevitable zero s small inv = elim small [ ]
  inevitable (suc n) s small inv =
      follow s
        (λ u step. let (inv', falls) = kept s u inv step in inevitable n u (omega arith) inv')
        (moves s inv)
