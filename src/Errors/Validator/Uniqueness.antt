-- ===== src/Errors/Validator/Uniqueness.antt =====
-- `Unique` of validator.go decides that a list has no repetition.
use re_master.Prelude.{
  ◌+◌, ◌≤◌, ◌≡◌, ◌≢◌, ◌↔◌, refl, Bool, true, false, List, [], ◌∷◌, any, length, arith, Bool-cases,
  inl, inr, All,
}
use re_master.Errors.Validator.{add_key, unique_values, unique}

-- Every value differs from all that follow it.
abbrev pub NoRepeat {ℓ} : {T : Type ℓ} → List T → Type ℓ
NoRepeat [] = Unit
NoRepeat (v ∷ vs) = All (λ u. u ≢ v) vs × NoRepeat vs

module _ {T : Type 0} (eq : T → T → Bool) where
  length-unique_values-le :
      (keys vs : List T) → length (unique_values eq keys vs) ≤ length keys + length vs
  unfolding unique_values
  length-unique_values-le keys [] = omega arith
  length-unique_values-le keys (v ∷ vs) =
      ground (arith, length-unique_values-le (add_key eq v keys) vs)

  -- No value is a key, and none comes twice.
  abbrev Fresh : List T → List T → Type 0
  Fresh keys [] = Unit
  Fresh keys (v ∷ vs) = (any (eq v) keys ≡ false) × Fresh (v ∷ keys) vs

  full-Fresh :
      (keys vs : List T)
      → length (unique_values eq keys vs) ≡ length keys + length vs
      → Fresh keys vs
  unfolding unique_values
  full-Fresh keys [] h = tt
  full-Fresh keys (v ∷ vs) h = elim (Bool-cases (any (eq v) keys)) [
    | inl old ↦ absurd (ground (arith, length-unique_values-le keys vs))
    | inr new ↦ (new, full-Fresh (v ∷ keys) vs (ground arith))
  ]

  Fresh-full :
      (keys vs : List T)
      → Fresh keys vs
      → length (unique_values eq keys vs) ≡ length keys + length vs
  unfolding unique_values
  Fresh-full keys [] h = omega arith
  Fresh-full keys (v ∷ vs) (new, h) = ground (arith, Fresh-full (v ∷ keys) vs h)

module _ {T : Type 0} (eq : T → T → Bool) (same : (a b : T) → (eq a b ≡ true) ↔ (a ≡ b)) where
  apart :
      (v : T) (keys us : List T)
      → All (λ u. any (eq u) (v ∷ keys) ≡ false) us
      → All (λ u. u ≢ v) us × All (λ u. any (eq u) keys ≡ false) us
  apart v keys [] h = (tt, tt)
  apart v keys (u ∷ us) (h, hs) =
      let (differ, rest) = apart v keys us hs in
      ((λ p. ground (arith, (same u v).1 p), differ), (ground arith, rest))

  together :
      (v : T) (keys us : List T)
      → All (λ u. u ≢ v) us
      → All (λ u. any (eq u) keys ≡ false) us
      → All (λ u. any (eq u) (v ∷ keys) ≡ false) us
  together v keys [] d h = tt
  together v keys (u ∷ us) (d, ds) (h, hs) = (ground (arith, same u v), together v keys us ds hs)

  Fresh-NoRepeat :
      (keys vs : List T) → Fresh eq keys vs → NoRepeat vs × All (λ u. any (eq u) keys ≡ false) vs
  Fresh-NoRepeat keys [] h = (tt, tt)
  Fresh-NoRepeat keys (v ∷ vs) (new, h) =
      let (distinct, absent) = Fresh-NoRepeat (v ∷ keys) vs h in
      let (differ, rest) = apart v keys vs absent in ((differ, distinct), (new, rest))

  NoRepeat-Fresh :
      (keys vs : List T) → NoRepeat vs → All (λ u. any (eq u) keys ≡ false) vs → Fresh eq keys vs
  NoRepeat-Fresh keys [] n h = tt
  NoRepeat-Fresh keys (v ∷ vs) (differ, n) (h, hs) =
      (h, NoRepeat-Fresh (v ∷ keys) vs n (together v keys vs differ hs))

  none_known : (vs : List T) → All (λ u. any (eq u) [] ≡ false) vs
  none_known [] = tt
  none_known (v ∷ vs) = (refl, none_known vs)

  -- Where `eq` decides equality, `Unique` is true exactly of the lists with no repetition.
  pub unique_iff : (vs : List T) → (unique eq vs ≡ true) ↔ NoRepeat vs
  unfolding unique
  unique_iff vs = (
    λ h. (Fresh-NoRepeat [] vs (full-Fresh eq [] vs (ground arith))).0,
    λ n. ground (arith, Fresh-full eq [] vs (NoRepeat-Fresh [] vs n (none_known vs))),
  )
