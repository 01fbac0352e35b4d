-- ===== src/Samples.antt =====
-- A platform in memory, on which the operations run in tests and the assumptions of the theorems
-- are shown to hold: one counter of failed logins, lists of documents, a clock that stands
-- still, and the entries of Redis, which Samples.Store uses.
pub mod Laws
pub mod Gateway
pub mod Store
pub mod Users
pub mod Tokens
pub mod Servers
use re_master.Prelude.{
  ℕ, zero, suc, ◌+◌, String, len, Bool, true, false, Option, none, some, List, [], ◌∷◌, ◌++◌, ◌==◌,
  nat_eq, if◌then◌else◌,
}
use re_master.Prelude.Maps.{Map, insert, erase}
use re_master.Prelude.Int.{ℤ, pos}
use re_master.Prelude.Text.{◌<>◌, first_is}
use re_master.Errors.Types.{Error, plain, no_documents, redis_nil}
use re_master.Exec.{Result, ok, err}
use re_master.Redis.{Redis}
use re_master.Auth.Models.{User, RefreshToken}
use re_master.Auth.Jwt.{JwtUtils, new_claims}
use re_master.Auth.Platform.{
  Platform, UserFilter, by_email, by_id, UserChange, set_password, RefreshTokenData, ParsedToken,
}

pub record World : Type 0 where
  pub counter : ℕ
  pub users : List User
  pub tokens : List RefreshToken
  pub clock : ℕ
  pub next_id : ℕ
  pub entries : Map String

abbrev pub first_id : String
first_id = "000000000000000000000001"

abbrev pub ada : User
ada = record {
  id = 1;
  email = "ada@example.org";
  password = "hash:lovelace1";
  first_name = "Ada";
  last_name = "Lovelace";
  phone = "123456";
  user_type = "client";
  google_id = "";
  google_email = "";
  profile_image = "";
  is_active = true;
  is_verified = false;
  created_at = 0;
  updated_at = 0;
  last_login_at = none;
  email_verified_at = none;
  login_attempts = 0;
  last_login_ip = "";
  password_change_at = 0;
  locked_until = none;
}

abbrev pub old_token : RefreshToken
old_token = record {
  id = 9;
  user_id = 1;
  token = "old";
  expires_at = 1000;
  created_at = 0;
  is_revoked = false;
  device_id = "";
  user_agent = "";
  ip = "";
}

abbrev pub start : World
start = record {
  counter = 0;
  users = ada ∷ [];
  tokens = old_token ∷ [];
  clock = 5;
  next_id = 10;
  entries = [];
}

abbrev pub config : JwtUtils
config = record { secret_key = "k"; access_token_ttl = 900; refresh_token_ttl = 86400 }

unfoldable pub fits : UserFilter → User → Bool
fits (by_email e) u = u.email == e
fits (by_id i) u = nat_eq u.id i

unfoldable pub find_user : UserFilter → List User → Result User
unfolding fits
find_user f [] = err no_documents
find_user f (u ∷ us) = if fits f u then ok u else find_user f us

unfoldable pub change : List UserChange → User → User
change (set_password h ∷ cs) u = change cs (record u { password = h })
change (c ∷ cs) u = change cs u
change [] u = u

unfoldable pub change_where : UserFilter → List UserChange → List User → List User
unfolding fits change
change_where f cs [] = []
change_where f cs (u ∷ us) = (if fits f u then change cs u else u) ∷ change_where f cs us

unfoldable pub find_token : String → List RefreshToken → Option RefreshToken
find_token t [] = none
find_token t (d ∷ ds) = if d.token == t then some d else find_token t ds

unfoldable pub revoke : ℕ → List RefreshToken → List RefreshToken
revoke i [] = []
revoke i (d ∷ ds) = (if nat_eq d.id i then record d { is_revoked = true } else d) ∷ revoke i ds

abbrev or_missing : Option RefreshToken → Result RefreshToken
or_missing none = err no_documents
or_missing (some d) = ok d

unfoldable pub zeros : ℕ → List ℕ
zeros zero = []
zeros (suc n) = 0 ∷ zeros n

abbrev pub retry :
    ℕ
    → (User × World → Result (Unit {0}) × (User × World))
    → User × World
    → Result (Unit {0}) × (User × World)
retry zero op s = op s
retry (suc k) op s = elim (op s).0 [ ok u ↦ op s | err e ↦ retry k op (op s).1 ]

-- The keys of the store that begin with an l are those of the counter, which a write sets here to the
-- length of the value.
abbrev pub is_counter : String → Bool
is_counter key = first_is 108 key

abbrev pub redis : Redis World
redis = record {
  get = λ k w. (err redis_nil, w);
  get_int = λ k w. (if nat_eq w.counter 0 then err redis_nil else ok w.counter, w);
  ttl = λ k w. (ok (pos 60), w);
  duration_text = λ d. "1m0s";
  incr_key = λ k w. (ok (w.counter + 1), record w { counter = w.counter + 1 });
  expire_key = λ k d w. (ok tt, w);
  pipeline = λ cs w. (ok tt, record w { counter = w.counter + 1 });
  set = λ k v d w. (
    ok tt,
    if is_counter k
        then record w { counter = len v }
        else record w { entries = insert k v w.entries },
  );
  del = λ k w. (
    ok tt,
    if is_counter k then record w { counter = 0 } else record w { entries = erase k w.entries },
  );
  exists = λ k w. (ok 0, w);
  scan = λ k n w. (([], ok tt), w);
}

abbrev pub platform : Platform World
platform = record {
  redis = redis;
  now = λ w. (w.clock, w);
  new_object_id = λ w. (w.next_id, record w { next_id = w.next_id + 1 });
  hex = λ i. if nat_eq i 1 then first_id else "0000000000000000000000ff";
  object_id_from_hex = λ s.
      if nat_eq (len s) 24
      then ok (if s == first_id then 1 else 255)
      else err (plain "the provided hex string is not a valid ObjectID");
  library_text = λ e. "library error";
  create_email_index = λ w. (ok tt, w);
  users_insert_one = λ u w. (ok tt, record w { users = w.users ++ u ∷ [] });
  users_find_one = λ f w. (find_user f w.users, w);
  users_update_one = λ f cs w. (ok tt, record w { users = change_where f cs w.users });
  users_find_one_and_update = λ f cs w. (find_user f w.users, w);
  tokens_insert_one = λ d w. (ok tt, record w { tokens = w.tokens ++ d ∷ [] });
  tokens_find_one = λ t w. (or_missing (find_token t w.tokens), w);
  tokens_set_revoked = λ i w. (ok tt, record w { tokens = revoke i w.tokens });
  retry = retry;
  bcrypt_generate = λ s cost w. (ok ("hash:" <> s), w);
  bcrypt_compare =
      λ h s. if h == "hash:" <> s then ok tt else err (plain "hashedPassword is not the hash");
  rand_read = λ n w. (ok (zeros n), w);
  jwt_sign = λ k c. ok ("jwt:" <> c.user_id);
  jwt_parse = λ k t w. (
    if t == "jwt:" <> first_id
        then ok (record {
          claims = some (new_claims first_id "ada@example.org" "client" 905 5);
          valid = true;
        })
        else err (plain "token is malformed"),
    w,
  );
  parse_address = λ s. if s == "" then false else true;
  marshal = λ d. ok d.token;
  unmarshal = λ s. err (plain "unexpected end of JSON input");
  idtoken_validate = λ t c w. (ok [], w);
  http_get = λ u w. (err (plain "no network"), w);
  decode_debug = λ s. ok false;
  decode_user = λ s. err (plain "unexpected end of JSON input");
}
