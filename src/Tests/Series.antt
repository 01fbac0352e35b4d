-- ===== src/Tests/Series.antt =====
-- Series of logins and of requests, on the platform and the gateway in memory.
use re_master.Prelude.{◌+◌, ◌-◌, String, ◌≡◌, refl, List, [], ◌∷◌, map, length, length-append}
use Prim.Native.Nat.{min}
use re_master.Auth.Platform.{by_email}
use re_master.Auth.Service.Tokens.{no_metadata}
use re_master.Auth.Service.Login.BruteForce.{try_all}
use re_master.Auth.Service.Login.Gate.{locked, refused, admitted, gates}
use re_master.Auth.Service.Login.Refines.{accepts}
use re_master.Auth.Service.Login.Series.{AllAgree, logins_refine}
use re_master.Gateway.Context.{success}
use re_master.Gateway.Models.{no_data}
use re_master.Gateway.Middleware.Window.{Windows, requests, requests_bounded}
use re_master.Samples.{World, platform, config, start, find_user}
use re_master.Samples.Laws.{platform-Serves}
use re_master.Samples.Gateway.{Request, gin, counter}

abbrev address : String
address = "ada@example.org"

abbrev guesses : List String
guesses = "a" ∷ "b" ∷ "lovelace1" ∷ "c" ∷ "d" ∷ "e" ∷ "f" ∷ "g" ∷ "lovelace1" ∷ []

-- The right password resets the counter, and is refused after five more wrong ones.
verdicts : gates (map (accepts platform (find_user (by_email address) start.users)) guesses) 0 ≡ (
  refused ∷ refused ∷ admitted ∷ refused ∷ refused ∷ refused ∷ refused ∷ refused ∷ locked ∷ [],
  5,
)
unfolding find_user
verdicts = refl

logins_refine_example :
    let answer = λ (w : World). find_user (by_email address) w.users in
    let (expected, last) = gates (map (accepts platform (answer start)) guesses) 0 in
    AllAgree platform config address no_metadata answer expected guesses start
    × ((try_all platform config address no_metadata guesses start).counter ≡ last)
    × (accepts platform (answer (try_all platform config address no_metadata guesses start))
        ≡ accepts platform (answer start))
logins_refine_example = logins_refine (platform-Serves address) config no_metadata guesses start

abbrev answering : Request → Request
answering c = gin.json (success "ok" no_data) c

abbrev same_client : Request → Request
same_client c = c

abbrev first_request : Request
first_request = record {
  authorization = "";
  email = "";
  password = "";
  token = "";
  keys = [];
  errors = [];
  replies = [];
  headers = [];
  counter = 98;
  service = start;
}

counter-Windows : Windows gin counter answering same_client (λ c. c.counter) (λ c. length c.replies)
counter-Windows = record {
  incr = λ c. refl;
  incr_counts = λ c. (refl, refl);
  expire_keeps = λ key d c. (refl, refl);
  refuse_keeps = λ e c. (refl, refl);
  next_runs = λ c. (refl, length-append c.replies (success "ok" no_data ∷ []));
  renew_keeps = λ c. (refl, refl);
}

-- Two of five requests are left below the limit.
requests_bounded_example :
    let after = requests gin counter answering same_client 100 60000000000 5 first_request in
    (length after.replies ≡ 0 + min 5 (100 - 98)) × (after.counter ≡ 98 + 5)
requests_bounded_example =
    requests_bounded gin counter answering same_client 100 60000000000 counter-Windows 5
      first_request
