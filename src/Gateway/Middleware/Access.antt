-- ===== src/Gateway/Middleware/Access.antt =====
-- Which requests RequireAuth and RequireRole of middleware/auth.go let through.
use re_master.Prelude.{
  String, ◌≡◌, ◌≢◌, refl, sym, ap, ◌∙◌, true, false, not, ◌||◌, ◌⊎◌, inl, inr, none, List, ◌==◌,
  eq_iff, arith, Bool-cases,
}
use mathlib.Core.Path.{subst}
use re_master.Prelude.Text.{◌<>◌, starts_with, trim_prefix, trim_prefix-append}
use re_master.Errors.Types.{new_unauthorized_error}
use re_master.Exec.{Result, ok, err}
use re_master.Auth.Proto as Pb
use re_master.Gateway.Context.{Gin, AuthClient, KeyValue, string_value}
use re_master.Gateway.Middleware.Auth.{refuse, validated, require_auth, require_role}

module _ {C : Type 0} (g : Gin C) (client : AuthClient C) where
  -- The service did not call the token valid: it failed, or said that it is not.
  abbrev pub IsInvalid : Result Pb.ValidateTokenResponse → Type 0
  IsInvalid (err e) = Unit
  IsInvalid (ok resp) = resp.valid ≡ false

  -- RequireAuth has answered 401, for one of three reasons, and in the context that it was given, or
  -- in the one that the call of the service has left: nothing else has run.
  pub data Refused (c result : C) : Type 0 where
    no_bearer :
        starts_with (g.get_header "Authorization" c) "Bearer " ≡ false
        → result ≡ refuse g (new_unauthorized_error "Missing or invalid Authorization header") c
        → Refused c result
    no_token :
        g.get_header "Authorization" c ≡ "Bearer "
        → result ≡ refuse g (new_unauthorized_error "Token is empty") c
        → Refused c result
    not_valid :
        (token : String) (answer : Result Pb.ValidateTokenResponse) (context : C)
        → token ≢ ""
        → g.get_header "Authorization" c ≡ "Bearer " <> token
        → client.validate_token (record { access_token = token }) c ≡ (answer, context)
        → IsInvalid answer
        → result ≡ refuse g (new_unauthorized_error "Invalid token") context
        → Refused c result

  -- The rest of the chain ran, for the owner of a bearer token that the service holds valid.
  pub record Passed (next : C → C) (c result : C) : Type 0 where
    pub token : String
    pub given : token ≢ ""
    pub header : g.get_header "Authorization" c ≡ "Bearer " <> token
    pub resp : Pb.ValidateTokenResponse
    pub context : C
    pub asked : client.validate_token (record { access_token = token }) c ≡ (ok resp, context)
    pub is_valid : resp.valid ≡ true
    pub ran : result ≡ next (g.set "user_id" (string_value resp.user_id) context)

  validated_cases :
      (next : C → C) (c : C) (token : String)
      → token ≢ ""
      → g.get_header "Authorization" c ≡ "Bearer " <> token
      → (answer : Result Pb.ValidateTokenResponse × C)
      → client.validate_token (record { access_token = token }) c ≡ answer
      → Refused c (validated g next answer) ⊎ Passed next c (validated g next answer)
  validated_cases next c token given header (err e, c') asked =
      inl (not_valid token (err e) c' given header asked tt refl)
  validated_cases next c token given header (ok resp, c') asked = elim (Bool-cases resp.valid) [
    | inl valid ↦ inr (record {
      token = token;
      given = given;
      header = header;
      resp = resp;
      context = c';
      asked = asked;
      is_valid = valid;
      ran = rw valid refl;
    })
    | inr invalid ↦ inl (not_valid token (ok resp) c' given header asked invalid (rw invalid refl))
  ]

  -- A header that is empty has no prefix.
  no_prefix :
      (header : String)
      → (header == "" || not (starts_with header "Bearer ")) ≡ true
      → starts_with header "Bearer " ≡ false
  no_prefix header bad = elim (Bool-cases (header == "")) [
    | inl empty ↦
        subst (λ h. starts_with h "Bearer " ≡ false) (sym ((eq_iff header "").0 empty)) refl
    | inr given ↦ ground (arith, bad, given)
  ]

  -- RequireAuth either answers 401, for a header without `Bearer `, an empty token, or a token that the
  -- authentication service has not called valid, and then nothing has run but the call of the
  -- service; or it runs the rest of the chain for a request whose header is `Bearer ` and a token
  -- that is not empty and that the service has just called valid, with the identifier that the
  -- service gave.
  pub require_auth_cases :
      (next : C → C) (c : C)
      → Refused c (require_auth g client next c) ⊎ Passed next c (require_auth g client next c)
  unfolding require_auth
  require_auth_cases next c =
      let header = g.get_header "Authorization" c in
      let token = trim_prefix header "Bearer " in
      elim (Bool-cases (header == "" || not (starts_with header "Bearer "))) [
        | inl bad ↦ inl (no_bearer (no_prefix header bad) (rw bad refl))
        | inr good ↦
            let whole = trim_prefix-append header "Bearer " (ground arith) in
            elim (Bool-cases (token == "")) [
              | inl empty ↦ inl (
                  no_token (whole ∙ ap (λ t. "Bearer " <> t) ((eq_iff token "").0 empty))
                    (rw (good, empty) refl))
              | inr given ↦
                  rw (good, given)
                    (validated_cases next c token (ground (arith, eq_iff token "")) whole _ refl)
            ]
      ]

  -- What the context and the client promise of its keys: a key keeps its value when another is set,
  -- and when the service is called.
  pub record KeepsRole : Type 0 where
    pub after_set :
        (v : KeyValue) (c : C) → g.get "user_role" (g.set "user_id" v c) ≡ g.get "user_role" c
    pub after_call :
        (req : Pb.ValidateTokenRequest) (c : C)
        → g.get "user_role" (client.validate_token req c).1 ≡ g.get "user_role" c

  -- RequireRole has answered 401, in the context that RequireAuth leaves when it passes.
  pub record NoRole (c result : C) : Type 0 where
    pub token : String
    pub user_id : String
    pub refused :
        result
        ≡ refuse g (new_unauthorized_error "Missing user role") (
            g.set "user_id"
              (string_value user_id)
              (client.validate_token (record { access_token = token }) c).1)

module _ {C : Type 0} (g : Gin C) (client : AuthClient C) (laws : KeepsRole g client) where
  role_missing :
      (roles : List String) (next : C → C) (c : C)
      → g.get "user_role" c ≡ none
      → require_role g roles next c ≡ refuse g (new_unauthorized_error "Missing user role") c
  unfolding require_role
  role_missing roles next c missing = rw missing refl

  -- If the key user_role is not set before, and the client's call and the setting of user_id keep it
  -- (`KeepsRole`): RequireRole after RequireAuth answers every request with 401, whatever the roles and
  -- the token, and the handlers behind it do not run: the answer is that of RequireAuth, or that the
  -- role is missing, in the context that the call of the service and the setting of user_id leave.
  pub require_role_never :
      (roles : List String) (next : C → C) (c : C)
      → g.get "user_role" c ≡ none
      → Refused g client c (require_auth g client (require_role g roles next) c)
        ⊎ NoRole g client c (require_auth g client (require_role g roles next) c)
  require_role_never roles next c missing =
      elim (require_auth_cases g client (require_role g roles next) c) [
        | inl refused ↦ inl refused
        | inr passed ↦
            let left = ap (λ (r : Result Pb.ValidateTokenResponse × C). r.1) (sym passed.asked) in
            let id = string_value passed.resp.user_id in
            let unset : g.get "user_role" (g.set "user_id" id passed.context) ≡ none =
              laws.after_set id passed.context
              ∙ ap (g.get "user_role") left
              ∙ laws.after_call (record { access_token = passed.token }) c
              ∙ missing in
            inr (record {
              token = passed.token;
              user_id = passed.resp.user_id;
              refused =
                  passed.ran
                  ∙ role_missing roles next _ unset
                  ∙ ap
                      (λ d.
                        refuse g (new_unauthorized_error "Missing user role")
                          (g.set "user_id" id d))
                      left;
            })
      ]
