-- ===== src/Tests/Store.antt =====
-- Instances of the theorems on the store of refresh tokens, on a Redis that keeps entries.
use re_master.Prelude.{◌≡◌, ◌⊎◌, refl, ◌&&◌, none, [], ◌∷◌, any, ◌==◌, if◌then◌else◌}
use re_master.Prelude.Maps.{lookup, insert, erase}
use re_master.Auth.Cache.RefreshTokens.{
  save_refresh_token, find_refresh_token, revoke_refresh_token, revoke_all_user_tokens,
}
use re_master.Auth.Cache.RefreshTokens.Laws.{owned, SomeFails, view-revoke_all_user_tokens}
use re_master.Auth.Cache.RefreshTokens.RoundTrip.{data_of, save-find}
use re_master.Errors.Types.{plain}
use re_master.Exec.{ok, err}
use re_master.Samples.{World, start, first_id}
use re_master.Samples.Store.{
  flaky_platform, flaky_platform-Entries, coding_platform, coding_platform-Views,
  coding_platform-Stores,
}

abbrev four_tokens : World
four_tokens = record start {
  entries =
      ("refresh:token:a", first_id)
      ∷ ("refresh:token:b", "0000000000000000000000ff")
      ∷ ("refresh:token:c", first_id)
      ∷ ("refresh:token:d", first_id)
      ∷ [];
}

view-revoke_all_user_tokens_example :
    let ((keys, last), w₁) = flaky_platform.redis.scan "refresh:token:*" 100 four_tokens in
    let (result, w') = revoke_all_user_tokens flaky_platform 1 four_tokens in
    ((lookup "refresh:token:a" w'.entries ≡ (
        if any (λ k. k == "refresh:token:a") keys
          && owned flaky_platform
              (flaky_platform.hex 1)
              (lookup "refresh:token:a" four_tokens.entries)
        then none
        else lookup "refresh:token:a" four_tokens.entries))
      ⊎ (SomeFails flaky_platform (flaky_platform.hex 1) "refresh:token:a" keys w₁
          × (lookup "refresh:token:a" w'.entries ≡ lookup "refresh:token:a" four_tokens.entries)))
    × (result ≡ last)
view-revoke_all_user_tokens_example =
    view-revoke_all_user_tokens flaky_platform-Entries 1 "refresh:token:a" four_tokens

-- The failures are swallowed: the result is nil, and two tokens of the user stay, beside another user's.
others_stay : revoke_all_user_tokens flaky_platform 1 four_tokens ≡ (
  ok tt,
  record start {
    entries =
        ("refresh:token:b", "0000000000000000000000ff")
        ∷ ("refresh:token:c", first_id)
        ∷ ("refresh:token:d", first_id)
        ∷ [];
  },
)
unfolding revoke_all_user_tokens lookup erase
others_stay = refl

abbrev saved : World
saved = record start { entries = ("refresh:token:abc", "abc") ∷ [] }

saving : save_refresh_token coding_platform 1 "abc" 90 start ≡ (ok tt, saved)
unfolding save_refresh_token insert
saving = refl

save-find_example :
    ((find_refresh_token coding_platform "abc" saved).0
      ≡ ok (data_of coding_platform 1 "abc" 90 start))
    × ((find_refresh_token coding_platform "abc"
          (revoke_refresh_token coding_platform "abc"
            (find_refresh_token coding_platform "abc" saved).1).1).0
        ≡ err (plain "refresh token not found or expired"))
save-find_example =
    save-find coding_platform-Views coding_platform-Stores 1 "abc" 90 start saved saving
