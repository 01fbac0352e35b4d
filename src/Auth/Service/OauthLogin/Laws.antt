-- ===== src/Auth/Service/OauthLogin/Laws.antt =====
-- The user that an OAuth login of service.go creates, against what the service asks for.
use re_master.Prelude.{◌≡◌, refl, true, false, arith}
use re_master.Errors.Types.{no_documents}
use re_master.Exec.{ok, err}
use re_master.Auth.Models.{User, RequestMetadata, user_type_client}
use re_master.Auth.Platform.{Platform, by_email}
use re_master.Auth.Oauth.{Profile}
use re_master.Auth.Repository.{get_by_email}
use re_master.Auth.Service.OauthLogin.{new_oauth_user, create_oauth_user, oauth_user}

module _ {W : Type 0} (p : Platform W) where
  created_user :
      (profile : Profile) (w : W) {user : User} {w' : W}
      → create_oauth_user p profile w ≡ (ok user, w')
      → (user.is_verified ≡ false)
        × (user.is_active ≡ true)
        × (user.email ≡ profile.email)
        × (user.user_type ≡ user_type_client)
  unfolding create_oauth_user
  created_user profile w h = ground arith

  -- If no user has the e-mail address of the profile, then the user of a successful login is a new
  -- one with that address, a client, active, and not verified, although it is built as verified.
  pub new_user-not_verified :
      (profile : Profile) (metadata : RequestMetadata) (w : W) {user : User} {w' : W}
      → (p.users_find_one (by_email profile.email) w).0 ≡ err no_documents
      → oauth_user p profile metadata w ≡ (ok user, w')
      → ((new_oauth_user profile).is_verified ≡ true)
        × (user.is_verified ≡ false)
        × (user.is_active ≡ true)
        × (user.email ≡ profile.email)
        × (user.user_type ≡ user_type_client)
  unfolding oauth_user get_by_email
  new_user-not_verified profile metadata w {user} {w'} missing h =
      let inserted : create_oauth_user p profile (p.users_find_one (by_email profile.email) w).1
          ≡ (ok user, w') =
        rw missing at h in
      let (verified, active, email, type) = created_user profile _ inserted in
      (refl, verified, active, email, type)
