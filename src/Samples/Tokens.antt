-- ===== src/Samples/Tokens.antt =====
-- The platform in memory with a library that signs the tokens of one user that expire after 900 seconds, and
-- reads them by the clock.
use re_master.Prelude.{
  ℕ, String, ◌≡◌, Bool, true, ◌&&◌, some, ◌==◌, eq_iff, ltb, nat_eq, arith, Bool-cases, inl, inr,
  if◌then◌else◌, refl, false,
}
use re_master.Errors.Types.{plain}
use re_master.Exec.{ok, err}
use re_master.Auth.Models.{GoTime, zero_time, at}
use re_master.Auth.Platform.{Platform, Claims}
use re_master.Auth.Jwt.{new_claims, whole_seconds}
use re_master.Auth.Service.Validate.Laws.{Signs}
use re_master.Samples.{World, platform, first_id, ada}

abbrev is_at : ℕ → GoTime → Bool
is_at t zero_time = false
is_at t (at u) = nat_eq u t

abbrev is_signed : Claims → Bool
is_signed c =
    (c.user_id == first_id)
    && ((c.email == ada.email)
        && ((c.user_type == ada.user_type)
            && (is_at 900000000000 c.registered_expires_at && is_at 0 c.issued_at)))

abbrev signed : Claims
signed = record {
  user_id = first_id;
  email = ada.email;
  user_type = ada.user_type;
  expires_at = zero_time;
  registered_expires_at = at 900000000000;
  issued_at = at 0;
}

abbrev pub signing_platform : Platform World
signing_platform = record platform {
  jwt_sign = λ key c. if is_signed c then ok "a.b.c" else err (plain "unsupported claims");
  jwt_parse = λ key text w. (
    if text == "a.b.c" && ltb w.clock 900000000000
        then ok (record { claims = some signed; valid = true })
        else err (plain "token is expired"),
    w,
  );
}

-- What was signed, and when it expires.
signed_as :
    (text id email type : String) (expires issued : ℕ)
    → signing_platform.jwt_sign "k" (new_claims id email type expires issued) ≡ ok text
    → (text ≡ "a.b.c")
      × (whole_seconds expires ≡ 900000000000)
      × (new_claims id email type expires issued ≡ signed)
unfolding new_claims
signed_as text id email type expires issued h =
    elim (Bool-cases (is_signed (new_claims id email type expires issued))) [
      | inl fits ↦
          let until : whole_seconds expires ≡ 900000000000 = ground (arith, fits) in
          let since : whole_seconds issued ≡ 0 = ground (arith, fits) in
          let whose : id ≡ first_id = (eq_iff id first_id).0 (ground (arith, fits)) in
          let address : email ≡ ada.email = (eq_iff email ada.email).0 (ground (arith, fits)) in
          let kind : type ≡ ada.user_type = (eq_iff type ada.user_type).0 (ground (arith, fits)) in
          let told : text ≡ "a.b.c" = ground (arith, fits, h) in
          (
            told,
            until,
            λ k. record {
              user_id = whose k;
              email = address k;
              user_type = kind k;
              expires_at = zero_time;
              registered_expires_at = at (until k);
              issued_at = at (since k);
            },
          )
      | inr other ↦ absurd (ground (arith, other, h))
    ]

pub signing_platform-Signs : Signs signing_platform (λ w. w.clock)
signing_platform-Signs = record {
  reads = λ key text id email type expires issued w h before.
      let (told, until, same) = signed_as text id email type expires issued h in
      let fresh : ltb w.clock 900000000000 ≡ true = ground (arith, before, until) in
      rw (same, (eq_iff text "a.b.c").1 told, fresh) refl;
  refuses = λ key text id email type expires issued w h after.
      let (told, until, same) = signed_as text id email type expires issued h in
      let late : ltb w.clock 900000000000 ≡ false = ground (arith, after, until) in
      (plain "token is expired", rw ((eq_iff text "a.b.c").1 told, late) refl);
}
