-- ===== src/Samples/Laws.antt =====
-- The platform in memory meets the assumptions of the theorems.
use re_master.Prelude.{
  ℕ, zero, suc, String, ◌≡◌, ◌≢◌, refl, ap, Bool, true, some, List, [], ◌∷◌, ◌++◌, length, eq_iff,
  false, if◌then◌else◌, arith, none, ◌==◌, Bool-cases, inl, inr,
}
use re_master.Prelude.Text.{first_is, first_is-append}
use re_master.Errors.Types.{Error, plain, no_documents}
use re_master.Exec.{Result, ok, err}
use re_master.Auth.Models.{User, RefreshToken}
use re_master.Auth.Platform.{Platform, by_email, by_id, set_last_login_at, set_last_login_ip}
use re_master.Samples.{
  World, is_counter, platform, find_token, revoke, zeros, retry, find_user, change_where, fits,
  change,
}
use re_master.Auth.Cache.RateLimiter.{attempts_key}
use re_master.Auth.Cache.RefreshTokens.{token_key}
use re_master.Auth.Service.Login.BruteForce.{Counts}
use re_master.Auth.Service.Login.Refines.{Serves, accepts}
use re_master.Auth.Service.Refresh.Laws.{StoresToken}
use re_master.Auth.Service.Login.Session.{MakesToken, in_milliseconds}
use re_master.Auth.Service.Logout.Laws.{Fills, RejectsLength}
use re_master.Auth.Service.Register.Retry.{Retries, Attempts, last, again}

pub platform-Counts :
    (email : String)
    → Counts platform email (λ w. w.counter) (λ w. find_user (by_email email) w.users)
platform-Counts email = record {
  missing = λ w h. ground arith;
  present = λ w h. ground arith;
  finds = λ w. refl;
  after_get = λ w. (refl, refl);
  after_ttl = λ w. (refl, refl);
  after_find = λ w. (refl, refl);
  after_incr = λ w. (refl, refl);
}

find_token-revoke :
    (t : String) (ds : List RefreshToken) (s : RefreshToken)
    → find_token t ds ≡ some s
    → find_token t (revoke s.id ds) ≡ some (record s { is_revoked = true })
unfolding find_token revoke
find_token-revoke t [] s h = cc
find_token-revoke t (d ∷ ds) s h = ground (arith, eq_iff d.token t, find_token-revoke t ds s)

find_token-append :
    (t : String) (ds : List RefreshToken) (d : RefreshToken)
    → d.token ≢ t
    → find_token t (ds ++ d ∷ []) ≡ find_token t ds
unfolding find_token
find_token-append t [] d h = ground (arith, eq_iff d.token t)
find_token-append t (e ∷ ds) d h = ground (arith, find_token-append t ds d h)

pub platform-StoresToken :
    (token : String) → StoresToken platform token (λ w. find_token token w.tokens)
platform-StoresToken token = record {
  found = λ w s h. ground arith;
  is_found = λ w s h. ground arith;
  after_find = λ w. refl;
  after_revoke = λ w s h done. find_token-revoke token w.tokens s h;
  after_insert = λ w other h. find_token-append token w.tokens other h;
  after_user = λ w i. refl;
  after_now = λ w. refl;
  after_new_id = λ w. refl;
  after_rand = λ w. refl;
}

length-zeros : (n : ℕ) → length (zeros n) ≡ n
unfolding zeros
length-zeros zero = refl
length-zeros (suc n) = omega (arith, length-zeros n)

pub platform-Fills : Fills platform
platform-Fills w bytes h = ground (arith, length-zeros 32)

pub platform-RejectsLength : RejectsLength platform
platform-RejectsLength s h = (plain "the provided hex string is not a valid ObjectID", ground arith)

retry-Attempts :
    (k : ℕ) (op : User × World → Result (Unit {0}) × (User × World)) (s : User × World)
    (r : Result (Unit {0}) × (User × World))
    → op s ≡ r
    → Attempts op k r.1 (retry k op r.1)
    → Attempts op (suc k) s (elim r.0 [ ok u ↦ op s | err e ↦ retry k op r.1 ])
retry-Attempts k op s (ok u, t) e rest = last refl
retry-Attempts k op s (err x, (user, w)) e rest = again w e rest

pub platform-Retries : Retries platform
platform-Retries zero op s = last refl
platform-Retries (suc k) op s = retry-Attempts k op s (op s) refl (platform-Retries k op (op s).1)

is_no_documents :
    (email : String) (us : List User) (e : Error)
    → find_user (by_email email) us ≡ err e
    → e ≡ no_documents
unfolding find_user
is_no_documents email [] e h = cc
is_no_documents email (u ∷ us) e h = ground (arith, is_no_documents email us e)

-- The update of the last login changes no address and no password here.
find_user-update :
    (email ip : String) (id t : ℕ) (us : List User)
    → find_user
        (by_email email)
        (change_where (by_id id) (set_last_login_at t ∷ set_last_login_ip ip ∷ []) us)
      ≡ find_user (by_email email) us
unfolding find_user change_where fits change
find_user-update email ip id t [] = refl
find_user-update email ip id t (u ∷ us) = ground (arith, find_user-update email ip id t us)

-- A token's key is none of the counter's.
token_key-is_counter : (token : String) → is_counter (token_key token) ≡ false
unfolding first_is
token_key-is_counter token = first_is-append 108 "r" "efresh:token:" token

attempts_key-is_counter : (email : String) → is_counter (attempts_key email) ≡ true
unfolding first_is
attempts_key-is_counter email = first_is-append 108 "l" "ogin:attempts:" email

pub platform-Serves :
    (email : String)
    → Serves platform email (λ w. w.counter) (λ w. find_user (by_email email) w.users)
platform-Serves email = record {
  counts = platform-Counts email;
  answers = λ w. is_no_documents email w.users;
  after_reset = λ w. rw (attempts_key-is_counter email) (refl, refl);
  after_now = λ w. refl;
  after_rand = λ w. refl;
  after_set = λ token text d w. rw (token_key-is_counter token) refl;
  after_update = λ id t ip w.
      ap (λ (r : Result User). let v : ℕ × (String → Bool) = (w.counter, accepts platform r) in v)
        (find_user-update email ip id t w.users);
  after_new_id = λ w. refl;
  after_insert = λ t w. refl;
}

find_token-new :
    (token : String) (ds : List RefreshToken) (d : RefreshToken)
    → find_token token ds ≡ none
    → d.token ≡ token
    → find_token token (ds ++ d ∷ []) ≡ some d
unfolding find_token
find_token-new token [] d h same = ground (arith, (eq_iff d.token token).1 same)
find_token-new token (first ∷ ds) d h same = elim (Bool-cases (first.token == token)) [
  | inl taken ↦ absurd (ground (arith, h, taken))
  | inr other ↦ rw other (find_token-new token ds d (ground (arith, h, other)) same)
]

-- A write to Redis changes no document.
tokens-choose :
    (b : Bool) (v u : World) {ds : List RefreshToken}
    → v.tokens ≡ ds
    → u.tokens ≡ ds
    → (if b then v else u).tokens ≡ ds
tokens-choose true v u h k = h
tokens-choose false v u h k = k

-- The platform in memory with documents that keep times in milliseconds.
abbrev pub dated_platform : Platform World
dated_platform = record platform {
  tokens_insert_one = λ d w. (ok tt, record w { tokens = w.tokens ++ in_milliseconds d ∷ [] });
}

pub dated_platform-MakesToken :
    (token : String) → MakesToken dated_platform token (λ w. find_token token w.tokens)
dated_platform-MakesToken token =
    let base = platform-StoresToken token in
    record {
      stores = record {
        found = base.found;
        is_found = base.is_found;
        after_find = base.after_find;
        after_revoke = base.after_revoke;
        after_insert = λ w other h. find_token-append token w.tokens (in_milliseconds other) h;
        after_user = base.after_user;
        after_now = base.after_now;
        after_new_id = base.after_new_id;
        after_rand = base.after_rand;
      };
      after_new = λ w d new same done. find_token-new token w.tokens (in_milliseconds d) new same;
      after_get = λ key w. refl;
      after_del = λ key w. ap (find_token token) (tokens-choose (is_counter key) _ _ refl refl);
      after_set =
          λ key text d w. ap (find_token token) (tokens-choose (is_counter key) _ _ refl refl);
      after_query = λ f w. refl;
      after_update = λ f cs w. refl;
    }
