-- ===== src/Samples/Users.antt =====
-- The platform in memory with a unique index on the addresses of users.
use re_master.Prelude.{
  String, ◌≡◌, refl, sym, ◌∙◌, ap, Option, none, some, List, [], ◌∷◌, ◌++◌, ◌==◌, eq_iff, arith,
  Bool-cases, inl, inr,
}
use re_master.Errors.Types.{Error, plain}
use re_master.Exec.{Result, ok, err, Exec}
use re_master.Auth.Models.{User}
use re_master.Auth.Platform.{Platform, by_email}
use re_master.Prelude.Text.{◌<>◌}
use re_master.Auth.Service.Register.{bcrypt_cost}
use re_master.Auth.Service.Register.FirstLogin.{StoresUsers}
use re_master.Samples.{World, platform, find_user, fits}

abbrev inserting : Result User → User → Exec World (Unit {0})
inserting (ok found) user w = (err (plain "E11000 duplicate key error"), w)
inserting (err e) user w = (ok tt, record w { users = w.users ++ user ∷ [] })

abbrev pub unique_platform : Platform World
unique_platform = record platform {
  users_insert_one = λ user w. inserting (find_user (by_email user.email) w.users) user w;
}

abbrev password_of : Result User → Option String
password_of (ok user) = some user.password
password_of (err e) = none

abbrev pub hash_of : String → World → Option String
hash_of address w = password_of (find_user (by_email address) w.users)

find_user-append :
    (address : String) (users : List User) (user : User) {e : Error}
    → find_user (by_email address) users ≡ err e
    → user.email ≡ address
    → find_user (by_email address) (users ++ user ∷ []) ≡ ok user
unfolding find_user fits
find_user-append address [] user h same = ground (arith, (eq_iff user.email address).1 same)
find_user-append address (first ∷ users) user {e} h same =
    elim (Bool-cases (first.email == address)) [
      | inl taken ↦ absurd (ground (arith, h, taken))
      | inr other ↦
          rw other (find_user-append address users user {e = e} (ground (arith, h, other)) same)
    ]

inserting-hash_of :
    (r : Result User) (address : String) (user : User) (w w' : World)
    → find_user (by_email address) w.users ≡ r
    → user.email ≡ address
    → inserting r user w ≡ (ok tt, w')
    → hash_of address w' ≡ some user.password
inserting-hash_of (ok found) address user w w' missing same h = cc
inserting-hash_of (err e) address user w w' missing same h =
    ap (hash_of address) (sym (ap (λ (r : Result (Unit {0}) × World). r.1) h))
    ∙ ap password_of (find_user-append address w.users user missing same)

password_of-eq-some :
    (r : Result User) {hashed : String}
    → password_of r ≡ some hashed
    → (user : User) × (r ≡ ok user) × (user.password ≡ hashed)
password_of-eq-some (ok user) h = (user, refl, ground (arith, h))
password_of-eq-some (err e) h = cc

made :
    (password hashed : String) (w w' : World)
    → unique_platform.bcrypt_generate password bcrypt_cost w ≡ (ok hashed, w')
    → "hash:" <> password ≡ hashed
made password hashed w w' h =
    let done : ok ("hash:" <> password) ≡ ok hashed = ap (λ (r : Result String × World). r.0) h in
    ground (arith, done)

pub unique_platform-StoresUsers :
    (address : String) → StoresUsers unique_platform address (hash_of address)
unique_platform-StoresUsers address = record {
  found = λ w hashed h. password_of-eq-some (find_user (by_email address) w.users) h;
  inserted = λ user w w' h same.
      inserting-hash_of (find_user (by_email user.email) w.users) address user w w'
        (ap (λ a. find_user (by_email a) w.users) (sym same)) same h;
  compares = λ password hashed w w' h.
      ground (arith, (eq_iff hashed ("hash:" <> password)).1 (sym (made password hashed w w' h)));
  after_now = λ w. refl;
  after_rand = λ w. refl;
  after_new_id = λ w. refl;
  after_token = λ t w. refl;
}
