-- ===== src/Auth/Models/Laws.antt =====
-- Which registrations the validation of models/auth.go accepts, and what it tells of the others.
use re_master.Prelude.{
  ◌≤◌, String, len, ◌≡◌, ◌≢◌, ◌↔◌, ◌⊎◌, refl, Bool, true, false, List, [], ◌∷◌, arith, eq_iff,
}
use re_master.Prelude.Text.{trim_space}
use re_master.Exec.{ok}
use re_master.Auth.Models.{
  RegisterRequest, bad_name, no_errors, register_errors, validate_register_request,
  user_type_client, user_type_master,
}

-- A name that is not blank, of 2 to 50 bytes.
pub record IsName (s : String) : Type 0 where
  pub not_blank : trim_space s ≢ ""
  pub at_least : 2 ≤ len s
  pub at_most : len s ≤ 50

pub record IsAcceptable (parse_address : String → Bool) (req : RegisterRequest) : Type 0 where
  pub email : parse_address req.email ≡ true
  pub password : 8 ≤ len req.password
  pub first_name : IsName req.first_name
  pub last_name : IsName req.last_name
  pub user_type : (req.user_type ≡ user_type_master) ⊎ (req.user_type ≡ user_type_client)

bad_name-IsName : (s : String) → bad_name s ≡ false → IsName s
unfolding bad_name
bad_name-IsName s h = ground (arith, eq_iff (trim_space s) "")

IsName-bad_name : (s : String) → IsName s → bad_name s ≡ false
unfolding bad_name
IsName-bad_name s h = ground (arith, eq_iff (trim_space s) "")

no_errors-eq-ok : (es : List String) → (no_errors es ≡ ok tt) ↔ (es ≡ [])
no_errors-eq-ok [] = (λ h. refl, λ e. refl)
no_errors-eq-ok (e ∷ es) = (λ h. absurd (ground arith), λ h. absurd (ground arith))

module _ (parse_address : String → Bool) (req : RegisterRequest) where
  no_errors-IsAcceptable : register_errors parse_address req ≡ [] → IsAcceptable parse_address req
  unfolding register_errors
  no_errors-IsAcceptable h = record {
    email = ground arith;
    password = ground arith;
    first_name = bad_name-IsName req.first_name (ground arith);
    last_name = bad_name-IsName req.last_name (ground arith);
    user_type =
        ground
          (arith, eq_iff req.user_type user_type_master, eq_iff req.user_type user_type_client);
  }

  IsAcceptable-no_errors : IsAcceptable parse_address req → register_errors parse_address req ≡ []
  unfolding register_errors
  IsAcceptable-no_errors a = ground (
    arith,
    IsName-bad_name req.first_name,
    IsName-bad_name req.last_name,
    eq_iff req.user_type user_type_master,
    eq_iff req.user_type user_type_client,
  )

  accepted-no_errors :
      validate_register_request parse_address req ≡ ok tt → register_errors parse_address req ≡ []
  unfolding validate_register_request
  accepted-no_errors h = (no_errors-eq-ok (register_errors parse_address req)).0 h

  no_errors-accepted :
      register_errors parse_address req ≡ [] → validate_register_request parse_address req ≡ ok tt
  unfolding validate_register_request
  no_errors-accepted e = (no_errors-eq-ok (register_errors parse_address req)).1 e

  -- A registration is accepted exactly if its address parses, its password has at least 8 bytes,
  -- its names are not blank and have 2 to 50 bytes, and its type is master or client. Nothing is
  -- asked of the phone number.
  pub validate_iff :
      (validate_register_request parse_address req ≡ ok tt) ↔ IsAcceptable parse_address req
  validate_iff = (
    λ h. no_errors-IsAcceptable (accepted-no_errors h),
    λ a. no_errors-accepted (IsAcceptable-no_errors a),
  )
