-- ===== src/Samples/Store.antt =====
-- The platform in memory with a Redis that keeps entries, in which a token is its owner's identifier.
use re_master.Prelude.{
  true, false, String, ◌≡◌, refl, sym, ◌∙◌, ap, Bool, ◌&&◌, Option, none, some, List, [], ◌∷◌, ◌==◌,
  eq_iff, nat_eq, arith, Bool-cases, inl, inr, if◌then◌else◌,
}
use re_master.Prelude.Maps.{Map, lookup, insert, erase, lookup-insert, lookup-erase}
use re_master.Errors.Types.{Error, redis_nil, plain}
use re_master.Exec.{Result, ok, err}
use re_master.Redis.{Redis}
use re_master.Auth.Platform.{Platform, RefreshTokenData}
use re_master.Auth.Cache.RateLimiter.{is_redis_nil}
use re_master.Auth.Cache.RefreshTokens.Laws.{Entries}
use re_master.Auth.Cache.RefreshTokens.RoundTrip.{Views, Stores}
use re_master.Samples.{World, platform, redis, first_id}

abbrev or_nil : Option String → Result String
or_nil none = err redis_nil
or_nil (some v) = ok v

abbrev keys_of : Map String → List String
keys_of [] = []
keys_of ((k, v) ∷ m) = k ∷ keys_of m

abbrev pub store : Redis World
store = record redis {
  get = λ k w. (or_nil (lookup k w.entries), w);
  set = λ k v d w. (ok tt, record w { entries = insert k v w.entries });
  del = λ k w. (ok tt, record w { entries = erase k w.entries });
  scan = λ pattern n w. ((keys_of w.entries, ok tt), w);
}

abbrev store_platform : Platform World
store_platform = record platform {
  redis = store;
  unmarshal = λ s. ok (record { user_id = s; token = ""; expires_at = 0; created_at = 0 });
}

-- One whose Redis does not answer for two keys: it gives no value for the one, and deletes not the other.
abbrev silent_get : String
silent_get = "refresh:token:c"

abbrev silent_del : String
silent_del = "refresh:token:d"

abbrev timeout : Error
timeout = plain "i/o timeout"

abbrev flaky : Redis World
flaky = record store {
  get = λ k w. (if k == silent_get then err timeout else or_nil (lookup k w.entries), w);
  del = λ k w.
      if k == silent_del
      then (err timeout, w)
      else (ok tt, record w { entries = erase k w.entries });
}

abbrev pub flaky_platform : Platform World
flaky_platform = record store_platform { redis = flaky }

or_nil-eq-ok : (o : Option String) {v : String} → or_nil o ≡ ok v → o ≡ some v
or_nil-eq-ok none h = cc
or_nil-eq-ok (some u) h = ground (arith, h)

or_nil-eq-err : (o : Option String) {e : Error} → or_nil o ≡ err e → o ≡ none
or_nil-eq-err none h = refl
or_nil-eq-err (some u) h = cc

flaky-holds : (k v : String) (w : World) → (flaky.get k w).0 ≡ ok v → lookup k w.entries ≡ some v
flaky-holds k v w h = elim (Bool-cases (k == silent_get)) [
  | inl quiet ↦ absurd (ground (arith, quiet, h))
  | inr answers ↦ or_nil-eq-ok (lookup k w.entries) (ground (arith, answers, h))
]

timeout-not_nil : (e : Error) → timeout ≡ e → is_redis_nil e ≡ true → ⊥
timeout-not_nil e same nil =
    let told : false ≡ is_redis_nil e = ap is_redis_nil same in ground (arith, told, nil)

flaky-holds_nothing :
    (k : String) (e : Error) (w : World)
    → (flaky.get k w).0 ≡ err e
    → is_redis_nil e ≡ true
    → lookup k w.entries ≡ none
flaky-holds_nothing k e w h nil = elim (Bool-cases (k == silent_get)) [
  | inl quiet ↦ absurd (timeout-not_nil e (ground (arith, quiet, h)) nil)
  | inr answers ↦ or_nil-eq-err (lookup k w.entries) {e = e} (ground (arith, answers, h))
]

flaky-after_del :
    (k : String) (w : World) (x : String)
    → (flaky.del k w).0 ≡ ok tt
    → lookup x (flaky.del k w).1.entries ≡ (if k == x then none else lookup x w.entries)
flaky-after_del k w x h = elim (Bool-cases (k == silent_del)) [
  | inl quiet ↦ absurd (ground (arith, quiet, h))
  | inr answers ↦ rw answers (lookup-erase k x w.entries)
]

flaky-after_failed_del :
    (k : String) (e : Error) (w : World) (x : String)
    → (flaky.del k w).0 ≡ err e
    → lookup x (flaky.del k w).1.entries ≡ lookup x w.entries
flaky-after_failed_del k e w x h = elim (Bool-cases (k == silent_del)) [
  | inl quiet ↦ rw quiet refl
  | inr answers ↦ absurd (ground (arith, answers, h))
]

pub flaky_platform-Entries : Entries flaky_platform (λ w k. lookup k w.entries)
flaky_platform-Entries = record {
  holds = flaky-holds;
  holds_nothing = flaky-holds_nothing;
  after_get = λ k w x. refl;
  after_del = flaky-after_del;
  after_failed_del = λ k e w x h. inl (flaky-after_failed_del k e w x h);
  after_scan = λ pattern n w x. refl;
}

-- One that encodes the tokens of one user with the expiry 90 that are saved at the time 5, each as its text.
abbrev remembered : String → RefreshTokenData
remembered token = record { user_id = first_id; token = token; expires_at = 90; created_at = 5 }

abbrev is_remembered : RefreshTokenData → Bool
is_remembered t = (t.user_id == first_id) && (nat_eq t.expires_at 90 && nat_eq t.created_at 5)

abbrev pub coding_platform : Platform World
coding_platform = record store_platform {
  marshal = λ t. if is_remembered t then ok t.token else err (plain "unsupported value");
  unmarshal = λ s. ok (remembered s);
}

pub coding_platform-Views : Views coding_platform (λ w k. lookup k w.entries)
coding_platform-Views = record {
  present = λ k v w h. ap or_nil h;
  missing = λ k w h. ap or_nil h;
  after_get = λ k w x. refl;
  after_del = λ k w x. lookup-erase k x w.entries;
  after_scan = λ pattern n w x. refl;
}

coding_platform-reads_back :
    (t : RefreshTokenData) (json : String)
    → coding_platform.marshal t ≡ ok json
    → coding_platform.unmarshal json ≡ ok t
coding_platform-reads_back t json h = elim (Bool-cases (is_remembered t)) [
  | inl kept ↦
      let whose : t.user_id ≡ first_id = (eq_iff t.user_id first_id).0 (ground (arith, kept)) in
      let until : t.expires_at ≡ 90 = ground (arith, kept) in
      let since : t.created_at ≡ 5 = ground (arith, kept) in
      let text : ok t.token ≡ ok json = rw kept at h in cc
  | inr other ↦ ground (arith, h, other)
]

pub coding_platform-Stores : Stores coding_platform (λ w k. lookup k w.entries)
coding_platform-Stores = record {
  after_set = λ k v d w w' h.
      ap (λ (u : World). lookup k u.entries) (sym (ap (λ (r : Result (Unit {0}) × World). r.1) h))
      ∙ ground (arith, lookup-insert k k v w.entries, (eq_iff k k).1 refl);
  reads_back = coding_platform-reads_back;
}
