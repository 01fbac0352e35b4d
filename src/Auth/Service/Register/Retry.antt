-- ===== src/Auth/Service/Register/Retry.antt =====
-- What `backoff.Retry` promises, and what it makes of `Create` of repository.go.
use re_master.Prelude.{ℕ, suc, ◌≡◌, ◌∙◌, true, false, arith}
use mathlib.Core.Path.{subst}
use re_master.Errors.Types.{Error}
use re_master.Exec.{Result, ok, err}
use re_master.Auth.Models.{User}
use re_master.Auth.Platform.{Platform}
use re_master.Auth.Repository.{create}
use re_master.Auth.Service.Register.{create_with_retry}

-- The runs of an operation with at most `k` retries: it stops at any result, and goes on after an
-- error, in the world that it finds after waiting.
pub data Attempts {W : Type 0} (op : User × W → Result (Unit {0}) × (User × W))
    : ℕ → User × W → Result (Unit {0}) × (User × W) → Type 0 where
  last : {k : ℕ} {s : User × W} {r : Result (Unit {0}) × (User × W)} → op s ≡ r → Attempts op k s r
  again :
      {k : ℕ} {s : User × W} {e : Error} {user : User} {w : W} (later : W)
      {r : Result (Unit {0}) × (User × W)}
      → op s ≡ (err e, (user, w))
      → Attempts op k (user, later) r
      → Attempts op (suc k) s r

abbrev pub Retries : {W : Type 0} → Platform W → Type 0
Retries {W} p =
    (k : ℕ) (op : User × W → Result (Unit {0}) × (User × W)) (s : User × W)
    → Attempts op k s (p.retry k op s)

-- A user with the data of another, whatever its identifier, times, flags and counters.
pub record SameData (a b : User) : Type 0 where
  pub email : a.email ≡ b.email
  pub password : a.password ≡ b.password
  pub first_name : a.first_name ≡ b.first_name
  pub last_name : a.last_name ≡ b.last_name
  pub phone : a.phone ≡ b.phone
  pub user_type : a.user_type ≡ b.user_type

module _ {W : Type 0} (p : Platform W) where
  pub create-SameData : (user : User) (w : W) → SameData (create p (user, w)).1.0 user
  unfolding create
  create-SameData user w = ground arith

  create-flags :
      (user : User) (w : W)
      → ((create p (user, w)).1.0.is_active ≡ true) × ((create p (user, w)).1.0.is_verified ≡ false)
  unfolding create
  create-flags user w = ground arith

SameData-trans : {a b c : User} → SameData a b → SameData b c → SameData a c
SameData-trans h k = record {
  email = h.email ∙ k.email;
  password = h.password ∙ k.password;
  first_name = h.first_name ∙ k.first_name;
  last_name = h.last_name ∙ k.last_name;
  phone = h.phone ∙ k.phone;
  user_type = h.user_type ∙ k.user_type;
}

-- What holds of the user that the runs of `Create` leave.
pub record Created (user given : User) : Type 0 where
  pub same : SameData user given
  pub active : user.is_active ≡ true
  pub not_verified : user.is_verified ≡ false

module _ {W : Type 0} (p : Platform W) where
  Attempts-Created :
      {k : ℕ} {s : User × W} {r : Result (Unit {0}) × (User × W)}
      → Attempts (create p) k s r
      → Created r.1.0 s.0
  Attempts-Created {s} (last e) =
      subst (λ (r : Result (Unit {0}) × (User × W)). Created r.1.0 s.0) e
        (record {
          same = create-SameData p s.0 s.1;
          active = (create-flags p s.0 s.1).0;
          not_verified = (create-flags p s.0 s.1).1;
        })
  Attempts-Created {s} (again later e rest) =
      let c = Attempts-Created rest in
      record {
        same = SameData-trans c.same (
            subst (λ (r : Result (Unit {0}) × (User × W)). SameData r.1.0 s.0) e
              (create-SameData p s.0 s.1));
        active = c.active;
        not_verified = c.not_verified;
      }

  pub create_with_retry-Created :
      Retries p
      → (given : User) (w : W) {user : User} → (create_with_retry p given w).0 ≡ ok user
      → Created user given
  unfolding create_with_retry
  create_with_retry-Created retries given w h =
      let c = Attempts-Created (retries 3 (create p) (given, w)) in
      subst (λ (u : User). Created u given) (ground arith) c
