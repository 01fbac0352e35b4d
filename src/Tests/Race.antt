-- ===== src/Tests/Race.antt =====
-- Exchanges of one refresh token at the same time, on the platform in memory.
use re_master.Prelude.{◌≡◌, refl, some}
use re_master.Errors.Types.{to_error, new_unauthorized_error}
use re_master.Exec.{ok, err}
use re_master.Auth.Repository.{find_refresh_token, revoke_refresh_token}
use re_master.Auth.Service.Tokens.{no_metadata}
use re_master.Auth.Service.Refresh.{usable_token, refresh_token}
use re_master.Auth.Service.Refresh.Interleave.{checks, done, then, revoked_for_good}
use re_master.Samples.{World, platform, config, start, old_token, find_token}
use re_master.Samples.Laws.{platform-StoresToken}

old_there : find_token "old" start.tokens ≡ some old_token
unfolding find_token
old_there = refl

old_revoked : (revoke_refresh_token platform old_token.id start).0 ≡ ok tt
unfolding revoke_refresh_token
old_revoked = refl

abbrev marked : World
marked = (revoke_refresh_token platform old_token.id start).1

revoked_for_good_example :
    (refresh_token platform config "old" no_metadata (usable_token platform "old" marked).1).0
    ≡ err (to_error (new_unauthorized_error "refresh token has been revoked"))
revoked_for_good_example =
    revoked_for_good (platform-StoresToken "old") config no_metadata start
      (usable_token platform "old" marked).1 old_token old_there old_revoked
      (then (checks marked) (done (usable_token platform "old" marked).1))

old_usable : usable_token platform "old" start ≡ (ok old_token, start)
unfolding usable_token find_refresh_token find_token
old_usable = refl
