-- ===== src/Config/Loading/Laws.antt =====
-- When `LoadConfig` of shared/config.go gives a configuration, and which.
use re_master.Prelude.{◌≡◌, refl, ◌↔◌, true, Bool-cases, inl, inr}
use re_master.Exec.{Result, ok, err}
use re_master.Config.{Config, validate_config}
use re_master.Config.Laws.{IsSound, validate_config_iff}
use re_master.Config.Loading.{
  Viper, prepare, read_file, decode, load_config, bind_env_vars, found_or_not, accepted, decoded,
  loaded,
}

accepted-eq-ok :
    (read cfg : Config) (r : Result (Unit {0}))
    → (accepted read r ≡ ok cfg) ↔ ((read ≡ cfg) × (r ≡ ok tt))
accepted-eq-ok read cfg (ok u) = (λ e. (cc, refl), λ (same, e). cc)
accepted-eq-ok read cfg (err e) = (λ h. cc, λ (same, h). cc)

decoded-eq-ok :
    (r : Result Config) (cfg : Config)
    → (decoded r ≡ ok cfg) ↔ ((r ≡ ok cfg) × (validate_config cfg ≡ ok tt))
unfolding decoded
decoded-eq-ok (err e) cfg = (λ h. cc, λ (h, valid). cc)
decoded-eq-ok (ok read) cfg =
    let both = accepted-eq-ok read cfg (validate_config read) in
    (
      λ h. let (same, valid) = both.0 h in (cc, rw (← same) valid),
      λ (h, valid). let same : read ≡ cfg = cc in both.1 (same, rw same valid),
    )

module _ {W : Type 0} (v : Viper W) where
  -- The file was read, or is not there.
  abbrev pub Readable : Result (Unit {0}) → Type 0
  Readable (ok u) = Unit
  Readable (err e) = v.is_not_found e ≡ true

  found-Readable : (r : Result (Unit {0})) → Readable r → found_or_not v r ≡ ok tt
  found-Readable (ok u) readable = refl
  found-Readable (err e) missing = rw missing

  loaded-eq-ok :
      (r : Result (Unit {0})) (w : W) (cfg : Config)
      → ((loaded v (found_or_not v r, w)).0 ≡ ok cfg)
        ↔ (Readable r × ((decode v (bind_env_vars v w)).0 ≡ ok cfg))
  loaded-eq-ok (ok u) w cfg = (λ h. (tt, h), λ (u, h). h)
  loaded-eq-ok (err e) w cfg = elim (Bool-cases (v.is_not_found e)) [
    | inl missing ↦ rw missing (λ h. (refl, h), λ (m, h). h)
    | inr broken ↦ rw broken (λ h. cc, λ (m, h). cc)
  ]

  -- `LoadConfig` gives a configuration exactly if the file could be read or is not there, and, with the
  -- variables bound again, the settings decode to that configuration, and it is sound (`IsSound`).
  -- The `validate` tags of the structs are not consulted.
  pub load_config_iff :
      (w : W) (cfg : Config)
      → let (read, w') = v.read_in_config (prepare v w) in
        ((load_config v w).0 ≡ ok cfg)
        ↔ (Readable read × ((v.unmarshal (bind_env_vars v w')).0 ≡ ok cfg) × IsSound cfg)
  unfolding load_config read_file decode
  load_config_iff w cfg =
      let (read, w') = v.read_in_config (prepare v w) in
      let result = (v.unmarshal (bind_env_vars v w')).0 in
      let step = loaded-eq-ok read w' cfg in
      let last = decoded-eq-ok result cfg in
      let sound = validate_config_iff cfg in
      (
        λ h.
            let (readable, done) = step.0 h in
            let (same, valid) = last.0 done in (readable, same, sound.0 valid),
        λ (readable, same, is_sound). step.1 (readable, last.1 (same, sound.1 is_sound)),
      )
