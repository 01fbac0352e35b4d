-- ===== src/Auth/Bearer.antt =====
-- services/auth/middleware/middleware.go, over gin's context `C` and the parsing of tokens, which are
-- parameters; nothing in the source uses it.
use re_master.Prelude.{
  String, ◌≡◌, ◌≢◌, refl, ◌∙◌, Bool, true, Option, none, some, ◌⊎◌, inl, inr, ◌==◌, eq_iff, arith,
  Bool-cases, if◌then◌else◌,
}
use re_master.Prelude.Text.{trim_prefix}
use re_master.Exec.{Result, ok, err}

-- A `*jwt.Token`: its field `Valid`, and the claims if they are a map, each found by its key.
pub record MapToken (V : Type 0) : Type 0 where
  pub valid : Bool
  pub claims : Option (String → V)

-- What the middleware asks of gin and of golang-jwt.
pub record Bearer (C V : Type 0) : Type 0 where
  pub get_header : String → C → String
  pub set : String → V → C → C
  -- `c.JSON(401, gin.H{"error": …})`
  pub unauthorized : String → C → C
  pub abort : C → C
  pub parse : String → String → C → Result (MapToken V)

module _ {C V : Type 0} (b : Bearer C V) where
  abbrev turn_away : String → C → C
  turn_away message c = b.abort (b.unauthorized message c)

  abbrev with_claims : Option (String → V) → C → C
  with_claims none c = c
  with_claims (some claims) c =
      b.set "user_type" (claims "user_type") (b.set "user_id" (claims "user_id") c)

  abbrev parsed : (C → C) → Result (MapToken V) → C → C
  parsed next (err e) c = turn_away "invalid token" c
  parsed next (ok token) c =
      if token.valid then next (with_claims token.claims c) else turn_away "invalid token" c

  unfoldable pub bearer_middleware : String → (C → C) → C → C
  unfolding trim_prefix
  bearer_middleware secret next c =
      let header = b.get_header "Authorization" c in
      if header == ""
      then turn_away "authorization header required" c
      else parsed next (b.parse secret (trim_prefix header "Bearer ") c) c

  parsed_cases :
      (next : C → C) (r : Result (MapToken V)) (c : C)
      → (parsed next r c ≡ turn_away "invalid token" c)
        ⊎ ((token : MapToken V) × (r ≡ ok token)
            × (token.valid ≡ true)
            × (parsed next r c ≡ next (with_claims token.claims c)))
  parsed_cases next (err e) c = inl refl
  parsed_cases next (ok token) c = elim (Bool-cases token.valid) [
    | inl valid ↦ inr (token, refl, valid, rw valid refl)
    | inr not_valid ↦ inl (rw not_valid refl)
  ]

  -- A request is let through only with a header from whose text, less a prefix that may be missing, the
  -- library has read a valid token; the rest of the chain sees that token's claims. Otherwise the
  -- request is answered with 401.
  bearer_cases :
      (secret : String) (next : C → C) (c : C)
      → ((message : String) × (bearer_middleware secret next c ≡ turn_away message c))
        ⊎ ((token : MapToken V) × (b.get_header "Authorization" c ≢ "")
            × (b.parse secret (trim_prefix (b.get_header "Authorization" c) "Bearer ") c ≡ ok token)
            × (token.valid ≡ true)
            × (bearer_middleware secret next c ≡ next (with_claims token.claims c)))
  unfolding bearer_middleware
  bearer_cases secret next c =
      let header = b.get_header "Authorization" c in
      let result = b.parse secret (trim_prefix header "Bearer ") c in
      elim (Bool-cases (header == "")) [
        | inl empty ↦ inl ("authorization header required", rw empty refl)
        | inr given ↦
            let same : bearer_middleware secret next c ≡ parsed next result c = rw given refl in
            elim (parsed_cases next result c) [
              | inl refused ↦ inl ("invalid token", same ∙ refused)
              | inr (token, read, valid, ran) ↦
                  inr
                    (token, (λ e. ground (arith, (eq_iff header "").1 e)), read, valid, same ∙ ran)
            ]
      ]
