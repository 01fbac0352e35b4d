-- ===== src/Errors/Validator.antt =====
-- shared/errors/validator.go. A regular expression is the test that the library makes of it; that of e-mail
-- addresses, `EmailRX`, which the program does not use, is left out.
pub mod Laws
pub mod Uniqueness
use re_master.Prelude.{
  ℕ, String, Bool, true, false, Option, none, some, List, [], ◌∷◌, ◌++◌, ◌||◌, any, length, nat_eq,
  is_empty, if◌then◌else◌,
}
use re_master.Prelude.Maps.{Map, lookup, insert}

pub record Validator : Type 0 where
  pub errors : Map String

unfoldable pub new : Validator
new = record { errors = [] }

unfoldable pub valid : Validator → Bool
valid v = nat_eq (length v.errors) 0

abbrev add_if_absent : Option String → String → String → Validator → Validator
add_if_absent (some m) key message v = v
add_if_absent none key message v = record { errors = insert key message v.errors }

unfoldable pub add_error : String → String → Validator → Validator
add_error key message v = add_if_absent (lookup key v.errors) key message v

unfoldable pub check : Bool → String → String → Validator → Validator
unfolding add_error
check ok key message v = if ok then v else add_error key message v

-- A `*regexp.Regexp`, by its method `MatchString`.
pub record Regexp : Type 0 where
  pub match_string : String → Bool

abbrev pub matches : String → Regexp → Bool
matches value rx = rx.match_string value

-- The comparison `==` of the type parameter `T comparable` is an argument.
module _ {T : Type 0} (eq : T → T → Bool) where
  unfoldable pub permitted_value : T → List T → Bool
  permitted_value value permitted = any (eq value) permitted

  -- The keys of `uniqueValues` after `uniqueValues[value] = true`.
  unfoldable pub add_key : T → List T → List T
  add_key value keys = if any (eq value) keys then keys else value ∷ keys

  unfoldable pub unique_values : List T → List T → List T
  unfolding add_key
  unique_values keys [] = keys
  unique_values keys (value ∷ values) = unique_values (add_key value keys) values

  unfoldable pub unique : List T → Bool
  unfolding unique_values
  unique values = nat_eq (length values) (length (unique_values [] values))
