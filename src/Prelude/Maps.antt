-- ===== src/Prelude/Maps.antt =====
-- Go maps with string keys, as association lists: `m[k]`, `m[k] = v`, `delete(m, k)`.
use mathlib.Core.Path.{◌≡◌, refl}
use mathlib.Core.Option.{Option, none, some}
use mathlib.Core.List.{List, [], ◌∷◌}
use Prim.Native.String.{String}
use native.Mathlib.Omega.{arith}
use text.Mathlib.Text.{◌==◌}
use text.Mathlib.TextEquality.{eq_iff}
use re_master.Prelude.Tests.{if◌then◌else◌}

abbrev pub Map {ℓ} : Type ℓ → Type ℓ
Map Value = List (String × Value)

module _ {ℓ} {Value : Type ℓ} where
  unfoldable pub lookup : String → Map Value → Option Value
  lookup key [] = none
  lookup key ((at, held) ∷ entries) = if at == key then some held else lookup key entries

  unfoldable pub insert : String → Value → Map Value → Map Value
  insert key new [] = (key, new) ∷ []
  insert key new ((at, held) ∷ entries) =
      let rest = insert key new entries in
      if at == key then (key, new) ∷ entries else (at, held) ∷ rest

  unfoldable pub erase : String → Map Value → Map Value
  erase key [] = []
  erase key ((at, held) ∷ entries) =
      let rest = erase key entries in if at == key then rest else (at, held) ∷ rest

  pub lookup-insert :
      (key asked : String) (new : Value) (entries : Map Value)
      → lookup asked (insert key new entries)
        ≡ (if key == asked then some new else lookup asked entries)
  unfolding lookup insert
  lookup-insert key asked new [] = refl
  lookup-insert key asked new ((at, held) ∷ entries) =
      let induction = lookup-insert key asked new entries in
      ground (arith, induction, eq_iff at asked, eq_iff at key, eq_iff key asked)

  pub lookup-erase :
      (key asked : String) (entries : Map Value)
      → lookup asked (erase key entries) ≡ (if key == asked then none else lookup asked entries)
  unfolding lookup erase
  lookup-erase key asked [] = ground arith
  lookup-erase key asked ((at, held) ∷ entries) =
      let induction = lookup-erase key asked entries in
      ground (arith, induction, eq_iff at key, eq_iff at asked, eq_iff key asked)

pub ruleset map_laws = (lookup-insert, lookup-erase)
