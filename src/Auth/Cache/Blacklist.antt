-- ===== src/Auth/Cache/Blacklist.antt =====
-- services/auth/cache/token_blacklist.go
use re_master.Prelude.{ℕ, String, Bool, ltb, if◌then◌else◌}
use re_master.Prelude.Int.{sub_ℕ, not_positive}
use re_master.Prelude.Text.{◌<>◌}
use re_master.Exec.{Exec, pure, read, ◌>>=◌}
use re_master.Redis.{Redis}

abbrev pub blacklist_key : String → String
blacklist_key jti = "blacklist:token:" <> jti

module _ {W : Type 0} (now : W → ℕ × W) (r : Redis W) where
  unfoldable pub add_to_blacklist : String → ℕ → Exec W (Unit {0})
  unfolding ◌>>=◌
  add_to_blacklist jti expires_at = do
    t ← read now
    if not_positive (sub_ℕ expires_at t)
        then pure tt
        else r.set (blacklist_key jti) "1" (sub_ℕ expires_at t)

module _ {W : Type 0} (r : Redis W) where
  unfoldable pub is_blacklisted : String → Exec W Bool
  unfolding ◌>>=◌
  is_blacklisted jti = do count ← r.exists (blacklist_key jti); pure (ltb 0 count)
