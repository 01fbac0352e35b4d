-- ===== src/Config/Laws.antt =====
-- Which configurations `validateConfig` of shared/config.go accepts.
use re_master.Prelude.{◌≤◌, len, ◌≡◌, ◌≢◌, ◌↔◌, ◌⊎◌, ◌==◌, eq_iff, arith, Bool-cases, inl, inr}
use re_master.Exec.{ok}
use re_master.Config.{Config, validate_config, default_secret}

-- In production the secret is not the default one, and has at least 32 bytes.
pub record IsSecret (cfg : Config) : Type 0 where
  pub changed : cfg.jwt.secret_key ≢ default_secret
  pub long : 32 ≤ len cfg.jwt.secret_key

pub record IsSound (cfg : Config) : Type 0 where
  pub secret : (cfg.app.environment ≢ "production") ⊎ IsSecret cfg
  pub uri : cfg.mongo.uri ≢ ""
  pub database : cfg.mongo.database ≢ ""
  pub ports : cfg.http.port ≢ cfg.grpc.port

module _ (cfg : Config) where
  valid-IsSecret : validate_config cfg ≡ ok tt → cfg.app.environment ≡ "production" → IsSecret cfg
  unfolding validate_config
  valid-IsSecret h production = record {
    changed =
        ground (
          arith,
          eq_iff cfg.app.environment "production",
          eq_iff cfg.jwt.secret_key default_secret,
        );
    long = ground (arith, eq_iff cfg.app.environment "production");
  }

  valid-IsSound : validate_config cfg ≡ ok tt → IsSound cfg
  unfolding validate_config
  valid-IsSound h = record {
    secret = elim (Bool-cases (cfg.app.environment == "production")) [
      | inl production ↦
          inr (valid-IsSecret h (ground (arith, eq_iff cfg.app.environment "production")))
      | inr other ↦ inl (λ e. ground (arith, (eq_iff cfg.app.environment "production").1 e))
    ];
    uri = ground (arith, eq_iff cfg.mongo.uri "");
    database = ground (arith, eq_iff cfg.mongo.database "");
    ports = ground (arith, eq_iff cfg.http.port cfg.grpc.port);
  }

  IsSound-valid : IsSound cfg → validate_config cfg ≡ ok tt
  unfolding validate_config
  IsSound-valid s = elim s.secret [
    | inl other ↦ ground (
      arith,
      other,
      s.uri,
      s.database,
      s.ports,
      eq_iff cfg.app.environment "production",
      eq_iff cfg.mongo.uri "",
      eq_iff cfg.mongo.database "",
      eq_iff cfg.http.port cfg.grpc.port,
    )
    | inr secret ↦ ground (
      arith,
      secret.changed,
      secret.long,
      eq_iff cfg.jwt.secret_key default_secret,
      eq_iff cfg.mongo.uri "",
      eq_iff cfg.mongo.database "",
      eq_iff cfg.http.port cfg.grpc.port,
    )
  ]

  -- A configuration is accepted exactly if in production its secret is not the default one and has at
  -- least 32 bytes, and in any environment the URI and the name of the database are not empty and the
  -- two ports differ. Nothing else is asked, although the `validate` tags of the structs ask for more.
  pub validate_config_iff : (validate_config cfg ≡ ok tt) ↔ IsSound cfg
  validate_config_iff = (valid-IsSound, IsSound-valid)
