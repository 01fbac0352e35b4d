-- ===== src/Errors/Validator/Laws.antt =====
-- The validator keeps the first message of each key, and `Unique` decides that a list has no
-- repetition.
use re_master.Prelude.{
  String, ◌≡◌, Bool, Option, none, some, List, [], ◌∷◌, ◌==◌, arith, if◌then◌else◌, eq_iff,
}
use re_master.Prelude.Maps.{lookup, lookup-insert}
use re_master.Errors.Validator.{Validator, new, check}

-- A check of a key with its message, as `Check` is called.
pub record Rule : Type 0 where
  pub passes : Bool
  pub key : String
  pub message : String

abbrev pub run : List Rule → Validator → Validator
run [] v = v
run (r ∷ rs) v = run rs (check r.passes r.key r.message v)

-- The message of the first failing rule of the key.
abbrev pub first_failure : String → List Rule → Option String
first_failure k [] = none
first_failure k (r ∷ rs) =
    if r.passes
    then first_failure k rs
    else if r.key == k
    then some r.message
    else first_failure k rs

abbrev or_else : Option String → Option String → Option String
or_else none o = o
or_else (some m) o = some m

lookup-check :
    (k : String) (r : Rule) (v : Validator)
    → lookup k (check r.passes r.key r.message v).errors
      ≡ or_else
          (lookup k v.errors)
          (if r.passes then none else if r.key == k then some r.message else none)
unfolding check
lookup-check k r v = ground (arith, eq_iff r.key k, lookup-insert r.key k r.message v.errors)

lookup-run :
    (k : String) (rs : List Rule) (v : Validator)
    → lookup k (run rs v).errors ≡ or_else (lookup k v.errors) (first_failure k rs)
lookup-run k [] v = ground arith
lookup-run k (r ∷ rs) v =
    ground (arith, lookup-run k rs (check r.passes r.key r.message v), lookup-check k r v)

-- After any checks on a new validator, the message under a key is that of the first check of the
-- key that failed, and there is none if no check of the key failed.
lookup-run-new : (k : String) (rs : List Rule) → lookup k (run rs new).errors ≡ first_failure k rs
unfolding new lookup
lookup-run-new k rs = lookup-run k rs new
