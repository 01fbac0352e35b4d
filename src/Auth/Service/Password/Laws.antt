-- ===== src/Auth/Service/Password/Laws.antt =====
-- What `ChangePassword` of service.go has checked and written.
use re_master.Prelude.{ℕ, String, ◌≡◌, refl, [], ◌∷◌, arith}
use mathlib.Core.Path.{subst}
use re_master.Errors.Types.{Error, to_error, new_unauthorized_error}
use re_master.Exec.{Result, ok, err}
use re_master.Exec.Laws.{bind-eq-ok}
use re_master.Auth.Models.{User, ChangePasswordRequest}
use re_master.Auth.Platform.{Platform, by_id, set_password}
use re_master.Auth.Repository.{get_by_id, update_password}
use re_master.Auth.Service.Register.{bcrypt_cost}
use re_master.Auth.Service.Password.{check_old_password, change_password, new_hash, save_hash}

module _ {W : Type 0} (p : Platform W) where
  -- A user of the request whose old password has been compared with the stored one.
  pub record Checked (req : ChangePasswordRequest) (w : W) (user : User) : Type 0 where
    pub id : ℕ
    pub named : p.object_id_from_hex req.user_id ≡ ok id
    pub found : (p.users_find_one (by_id id) w).0 ≡ ok user
    pub matched : p.bcrypt_compare user.password req.old_password ≡ ok tt

  checked_by :
      (req : ChangePasswordRequest) (w : W) {user : User} {w' : W} (r : Result ℕ)
      → p.object_id_from_hex req.user_id ≡ r
      → check_old_password p req w ≡ (ok user, w')
      → Checked req w user
  unfolding check_old_password get_by_id
  checked_by req w (ok id) e h = record {
    id = id;
    named = e;
    found = ground arith;
    matched = ground arith;
  }
  checked_by req w (err x) e h = absurd (ground arith)

  check_old_password-world :
      (req : ChangePasswordRequest) (w : W) {user : User} {w' : W} (id : ℕ)
      → p.object_id_from_hex req.user_id ≡ ok id
      → check_old_password p req w ≡ (ok user, w')
      → w' ≡ (p.users_find_one (by_id id) w).1
  unfolding check_old_password get_by_id
  check_old_password-world req w id e h = ground arith

  new_hash-eq-ok :
      (password : String) (w : W) {hashed : String}
      → (new_hash p password w).0 ≡ ok hashed
      → ((p.bcrypt_generate password bcrypt_cost w).0 ≡ ok hashed)
        × ((new_hash p password w).1 ≡ (p.bcrypt_generate password bcrypt_cost w).1)
  unfolding new_hash
  new_hash-eq-ok password w h = ground arith

  save_hash-eq-ok :
      (id : ℕ) (hashed : String) (w : W) {u : Unit {0}} {w' : W}
      → save_hash p id hashed w ≡ (ok u, w')
      → p.users_update_one (by_id id) (set_password hashed ∷ []) w ≡ (ok u, w')
  unfolding save_hash update_password
  save_hash-eq-ok id hashed w h = ground arith

  -- What a change of the password has checked and written.
  pub record Changed (req : ChangePasswordRequest) (w w' : W) : Type 0 where
    pub user : User
    pub checked : Checked req w user
    pub hashed : String
    pub before : W
    pub hash : (p.bcrypt_generate req.new_password bcrypt_cost before).0 ≡ ok hashed
    pub written :
        p.users_update_one
          (by_id user.id)
          (set_password hashed ∷ [])
          (p.bcrypt_generate req.new_password bcrypt_cost before).1
        ≡ (ok tt, w')

  -- A change of the password that succeeds has found the user of the request, compared the old
  -- password with the stored hash, and written to that user alone a hash of the new password.
  pub change_password-Changed :
      (req : ChangePasswordRequest) (w : W) {w' : W}
      → change_password p req w ≡ (ok tt, w')
      → Changed req w w'
  unfolding change_password
  change_password-Changed req w {w'} h =
      let (user, got, h₁) = bind-eq-ok (check_old_password p req) _ w h in
      let (hashed, made, h₂) = bind-eq-ok (new_hash p req.new_password) _ _ h₁ in
      let before = (check_old_password p req w).1 in
      let (hash, after) = new_hash-eq-ok req.new_password before made in
      record {
        user = user;
        checked = checked_by req w _ refl (λ i. (got i, before));
        hashed = hashed;
        before = before;
        hash = hash;
        written =
            subst
              (λ (v : W).
                p.users_update_one (by_id user.id) (set_password hashed ∷ []) v ≡ (ok tt, w'))
              after (save_hash-eq-ok user.id hashed _ h₂);
      }

  -- With a wrong old password nothing is written: the answer is 401, and the world is that which
  -- the query for the user left.
  change_password_refused :
      (req : ChangePasswordRequest) (w : W) (id : ℕ) (user : User) (e : Error)
      → p.object_id_from_hex req.user_id ≡ ok id
      → (p.users_find_one (by_id id) w).0 ≡ ok user
      → p.bcrypt_compare user.password req.old_password ≡ err e
      → change_password p req w ≡ (
        err (to_error (new_unauthorized_error "old password is incorrect")),
        (p.users_find_one (by_id id) w).1,
      )
  unfolding change_password get_by_id
  change_password_refused req w id user e named found differs = rw (named, found, differs)
