-- ===== src/Auth/Cache/RefreshTokens/Laws.antt =====
-- What `RevokeAllUserTokens` of services/auth/cache/refresh_token_store.go deletes, and what it leaves where
-- Redis does not answer.
use re_master.Prelude.{
  ℕ, String, ◌≡◌, refl, sym, ap, ◌∙◌, Bool, true, false, ◌&&◌, ◌||◌, Option, none, some, List, [],
  ◌∷◌, any, ◌==◌, eq_iff, arith, Bool-cases, ◌⊎◌, inl, inr, if◌then◌else◌,
}
use mathlib.Core.Path.{subst}
use re_master.Errors.Types.{Error}
use re_master.Exec.{Result, ok, err}
use re_master.Auth.Platform.{Platform}
use re_master.Auth.Cache.RateLimiter.{is_redis_nil}
use re_master.Auth.Cache.RefreshTokens.{
  belongs, decoded, revoke_if_owned, revoke_keys, revoke_all_user_tokens,
}

-- What Redis does with its keys, if no other client writes: `view w k` is the value of a key. Each call may
-- fail; a deletion that fails has been done or not.
pub record Entries {W : Type 0} (p : Platform W) (view : W → String → Option String) : Type 0 where
  pub holds : (k v : String) (w : W) → (p.redis.get k w).0 ≡ ok v → view w k ≡ some v
  pub holds_nothing :
      (k : String) (e : Error) (w : W)
      → (p.redis.get k w).0 ≡ err e
      → is_redis_nil e ≡ true
      → view w k ≡ none
  pub after_get : (k : String) (w : W) (x : String) → view (p.redis.get k w).1 x ≡ view w x
  pub after_del :
      (k : String) (w : W) (x : String)
      → (p.redis.del k w).0 ≡ ok tt
      → view (p.redis.del k w).1 x ≡ (if k == x then none else view w x)
  pub after_failed_del :
      (k : String) (e : Error) (w : W) (x : String)
      → (p.redis.del k w).0 ≡ err e
      → (view (p.redis.del k w).1 x ≡ view w x)
        ⊎ (view (p.redis.del k w).1 x ≡ (if k == x then none else view w x))
  pub after_scan :
      (pattern : String) (n : ℕ) (w : W) (x : String)
      → view (p.redis.scan pattern n w).1 x ≡ view w x

module _ {W : Type 0} (p : Platform W) where
  -- Whether a value is that of a token of the user.
  abbrev pub owned : String → Option String → Bool
  owned hex_id none = false
  owned hex_id (some json) = belongs p hex_id (p.unmarshal json)

  -- In a round for a key Redis does not answer: it gives no value, and does not say that there is none; or
  -- the value is that of a token of the user, and its deletion fails.
  abbrev pub RoundFails : String → String → W → Type 0
  RoundFails hex_id k w =
      ((e : Error) × ((p.redis.get k w).0 ≡ err e) × (is_redis_nil e ≡ false))
      ⊎ ((json : String) × ((p.redis.get k w).0 ≡ ok json)
          × (belongs p hex_id (p.unmarshal json) ≡ true)
          × ((e : Error) × ((p.redis.del k (p.redis.get k w).1).0 ≡ err e)))

  -- In the run over the keys, a round for the key that is asked for fails.
  abbrev pub SomeFails : String → String → List String → W → Type 0
  SomeFails hex_id x [] w = ⊥
  SomeFails hex_id x (k ∷ ks) w =
      ((k ≡ x) × RoundFails hex_id k w) ⊎ SomeFails hex_id x ks (revoke_if_owned p hex_id k w)

-- Two deletions of a value in a row, of which the second sees what the first left.
settle :
    (f : Option String → Bool)
    → f none ≡ false
    → (first rest : Bool) (value mid end : Option String)
    → mid ≡ (if first && f value then none else value)
    → end ≡ (if rest && f mid then none else mid)
    → end ≡ (if (first || rest) && f value then none else value)
settle f silent true rest value mid end h k = elim (Bool-cases (f value)) [
  | inl gone ↦
      let left : mid ≡ none = ground (arith, gone, h) in
      ground (arith, k, left, silent, gone, ap f left)
  | inr stays ↦
      let left : mid ≡ value = ground (arith, stays, h) in ground (arith, k, left, stays, ap f left)
]
settle f silent false rest value mid end h k = ground (arith, k, h, ap f h)

module _ {W : Type 0} {p : Platform W} {view : W → String → Option String}
    (laws : Entries p view) where
  -- What becomes of a value: it is deleted if that is asked for and it is the user's, and otherwise, or
  -- with a failure, it stays.
  abbrev Ends : String → Bool → Type 0 → Option String → Option String → Type 0
  Ends hex_id asked Fails before after =
      (after ≡ (if asked && owned p hex_id before then none else before))
      ⊎ (Fails × (after ≡ before))

  -- A round for the key itself.
  deletion :
      (hex_id k json : String) (w : W) (r : Result (Unit {0}))
      → (p.redis.get k w).0 ≡ ok json
      → belongs p hex_id (p.unmarshal json) ≡ true
      → (p.redis.del k (p.redis.get k w).1).0 ≡ r
      → Ends hex_id true
          (RoundFails p hex_id k w)
          (view w k)
          (view (p.redis.del k (p.redis.get k w).1).1 k)
  deletion hex_id k json w (ok u) found whose done =
      let there = laws.holds k json w found in
      inl (
        ground (
          arith,
          there,
          whose,
          ap (owned p hex_id) there,
          (eq_iff k k).1 refl,
          laws.after_del k (p.redis.get k w).1 k done,
        ))
  deletion hex_id k json w (err e) found whose done =
      let there = laws.holds k json w found in
      elim (laws.after_failed_del k e (p.redis.get k w).1 k done) [
        | inl stays ↦ inr (inr (json, found, whose, (e, done)), stays ∙ laws.after_get k w k)
        | inr gone ↦
            inl (ground (arith, there, whose, ap (owned p hex_id) there, (eq_iff k k).1 refl, gone))
      ]

  round :
      (hex_id k : String) (w : W) (r : Result String)
      → (p.redis.get k w).0 ≡ r
      → Ends hex_id true
          (RoundFails p hex_id k w)
          (view w k)
          (view (revoke_if_owned p hex_id k w) k)
  unfolding revoke_if_owned
  round hex_id k w (err e) found = elim (Bool-cases (is_redis_nil e)) [
    | inl nil ↦
        let absent = laws.holds_nothing k e w found nil in
        inl (rw found (ground (arith, absent, ap (owned p hex_id) absent, laws.after_get k w k)))
    | inr failed ↦ inr (inl (e, found, failed), rw found (laws.after_get k w k))
  ]
  round hex_id k w (ok json) found = elim (Bool-cases (belongs p hex_id (p.unmarshal json))) [
    | inl whose ↦
        let deleted : revoke_if_owned p hex_id k w ≡ (p.redis.del k (p.redis.get k w).1).1 =
          rw (found, whose) refl in
        subst (λ u. Ends hex_id true (RoundFails p hex_id k w) (view w k) (view u k)) (sym deleted)
          (deletion hex_id k json w _ found whose refl)
    | inr other ↦
        let there = laws.holds k json w found in
        inl (
          rw (found, other)
            (ground (arith, there, other, ap (owned p hex_id) there, laws.after_get k w k)))
  ]

  -- A round for another key.
  deletion_elsewhere :
      (k x : String) (w : W) (r : Result (Unit {0}))
      → (p.redis.del k w).0 ≡ r
      → (k == x) ≡ false
      → view (p.redis.del k w).1 x ≡ view w x
  deletion_elsewhere k x w (ok u) done other = ground (arith, other, laws.after_del k w x done)
  deletion_elsewhere k x w (err e) done other = elim (laws.after_failed_del k e w x done) [
    | inl stays ↦ stays
    | inr gone ↦ ground (arith, other, gone)
  ]

  round_elsewhere :
      (hex_id k x : String) (w : W)
      → (k == x) ≡ false
      → view (revoke_if_owned p hex_id k w) x ≡ view w x
  unfolding revoke_if_owned
  round_elsewhere hex_id k x w other =
      let read = laws.after_get k w x in
      let w₁ = (p.redis.get k w).1 in
      let deleted = deletion_elsewhere k x w₁ _ refl other ∙ read in
      elim (Bool-cases (belongs p hex_id (decoded p (p.redis.get k w).0))) [
        | inl whose ↦ rw whose deleted
        | inr kept ↦ rw kept read
      ]

  -- The same, by the value under the key that is asked for.
  round_at :
      (hex_id k x : String) (w : W)
      → Ends hex_id
          (k == x)
          ((k ≡ x) × RoundFails p hex_id k w)
          (view w x)
          (view (revoke_if_owned p hex_id k w) x)
  round_at hex_id k x w = elim (Bool-cases (k == x)) [
    | inl same ↦
        let at_key = (eq_iff k x).0 same in
        let whole =
          subst
            (λ y.
              Ends hex_id true (RoundFails p hex_id k w) (view w y)
                (view (revoke_if_owned p hex_id k w) y))
            at_key (round hex_id k w _ refl) in
        elim whole [
          | inl clean ↦ inl (rw same clean)
          | inr (fails, stays) ↦ inr ((at_key, fails), stays)
        ]
    | inr other ↦ inl (rw other (round_elsewhere hex_id k x w other))
  ]

  -- What is left after a value that stayed, or was deleted, in a first round.
  both :
      (hex_id : String) (first rest : Bool) (F G : Type 0) (before mid after : Option String)
      → Ends hex_id first F before mid
      → Ends hex_id rest G mid after
      → Ends hex_id (first || rest) (F ⊎ G) before after
  both hex_id first rest F G before mid after (inl h) (inl k) =
      inl (settle (owned p hex_id) refl first rest before mid after h k)
  both hex_id first rest F G before mid after (inl h) (inr (fails, stays)) =
      elim (Bool-cases (first && owned p hex_id before)) [
        | inl gone ↦ inl (ground (arith, h, stays, gone))
        | inr kept ↦ inr (inr fails, ground (arith, h, stays, kept))
      ]
  both hex_id first rest F G before mid after (inr (fails, stays)) (inl k) =
      elim (Bool-cases (rest && owned p hex_id mid)) [
        | inl gone ↦ inl (ground (arith, k, stays, gone, ap (owned p hex_id) stays))
        | inr kept ↦ inr (inl fails, ground (arith, k, stays, kept))
      ]
  both hex_id first rest F G before mid after (inr (fails, stays)) (inr (fails', stays')) =
      inr (inl fails, stays' ∙ stays)

  view-revoke_keys :
      (hex_id x : String) (ks : List String) (w : W)
      → Ends hex_id
          (any (λ k. k == x) ks)
          (SomeFails p hex_id x ks w)
          (view w x)
          (view (revoke_keys p hex_id ks w) x)
  unfolding revoke_keys
  view-revoke_keys hex_id x [] w = inl refl
  view-revoke_keys hex_id x (k ∷ ks) w =
      let after = revoke_if_owned p hex_id k w in
      both hex_id (k == x) (any (λ l. l == x) ks) _ _ (view w x) (view after x) _
        (round_at hex_id k x w) (view-revoke_keys hex_id x ks after)

  -- With what Redis does with its keys, where each call may fail (`Entries`), and if no other client writes:
  -- for every key, `RevokeAllUserTokens` deletes it if the scan yields it and its value decodes to a
  -- token of the user, and leaves it as it was otherwise; or, and only if Redis does not answer in a
  -- round for that key, it leaves it as it was. Its error is that of the scan, whatever fails else.
  pub view-revoke_all_user_tokens :
      (user_id : ℕ) (x : String) (w : W)
      → let ((keys, last), w₁) = p.redis.scan "refresh:token:*" 100 w in
        let (result, w') = revoke_all_user_tokens p user_id w in
        ((view w' x ≡ (
            if any (λ k. k == x) keys && owned p (p.hex user_id) (view w x)
            then none
            else view w x))
          ⊎ (SomeFails p (p.hex user_id) x keys w₁ × (view w' x ≡ view w x)))
        × (result ≡ last)
  unfolding revoke_all_user_tokens
  view-revoke_all_user_tokens user_id x w =
      let ((keys, last), w₁) = p.redis.scan "refresh:token:*" 100 w in
      let (result, w') = revoke_all_user_tokens p user_id w in
      (
        subst
            (λ v.
              Ends (p.hex user_id) (any (λ k. k == x) keys) (SomeFails p (p.hex user_id) x keys w₁)
                v (view w' x))
            (laws.after_scan "refresh:token:*" 100 w x)
            (view-revoke_keys (p.hex user_id) x keys w₁),
        refl,
      )
