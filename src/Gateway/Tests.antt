-- ===== src/Gateway/Tests.antt =====
-- A session from its login to its logout; a token's hash is the token here.
use mesh_cart.Base.{◌≡◌, ◌↔◌, refl, String, List, [], ◌∷◌, true, false, some, arith}
use mesh_cart.Base.Int.{ℤ, pos, ◌+ℤ◌, ◌-ℤ◌}
use mesh_cart.Base.Text.{is_blank, trim_space, str_eq}
use mesh_cart.Base.TextMaps.{put_key}
use mesh_cart.App.Errors.{unauthorized}
use mesh_cart.App.Time.{before, add_seconds}
use mesh_cart.Sql.{ok, err}
use mesh_cart.Gateway.Session.{
  Session, SessionStore, empty_store, get_session, get_by_refresh_token_hash, save, rotate,
  rotate_found,
}
use mesh_cart.Gateway.Logic.{
  own, answered, AuthConfig, Circumstances, TokenData, login, refresh, logout, Visit, logs_in,
  refreshes, logs_out, visit, visit_all, login_answered, login_saved, refresh_found,
  refresh_answered, refresh_rotated, rotate_answered, build_token_response,
}
use mesh_cart.Gateway.Index.{IsIndexed}
use mesh_cart.Gateway.Rotation.{get_by_refresh_token_hash_iff}
use mesh_cart.Gateway.Steps.{AllDrawOk}
use mesh_cart.Gateway.Tokens.{
  IsNewId, IsNewHash, AnyId, OtherHash, visit_all-IsIndexed, refresh_once, logout_ends,
}
use mesh_cart.Gateway.Renewal.{login-refresh}

abbrev same_text : String → String
same_text t = t

abbrev config : AuthConfig
config = record { refresh_token_ttl = pos 3600; access_token_leeway = pos 30 }

abbrev at_time : ℤ → String → Circumstances
at_time unix token = record {
  now = record { unix = unix; nano = 0 };
  user_answer = answered (record {
    reply_code = 0;
    reply_user_id = pos 5;
    reply_username = "bob";
    reply_role = "user";
  });
  new_session_id = "id1";
  new_refresh_token = some token;
  sign = λ id user_id name role. some id;
}

abbrev first : Circumstances
first = at_time (pos 1700000000) "t1"

abbrev second : Circumstances
second = at_time (pos 1700000600) "t2"

abbrev third : Circumstances
third = at_time (pos 1700001200) "t3"

-- A store with the session of the first login.
abbrev bobs : Session
bobs = record {
  session_id = "id1";
  user_id = pos 5;
  username = "bob";
  role = "user";
  refresh_token_hash = "t1";
  expires_at = record { unix = pos 1700003600; nano = 0 };
  device_id = "";
  user_agent = "";
  ip = "";
  created_at = record { unix = pos 1700000000; nano = 0 };
  updated_at = record { unix = pos 1700000000; nano = 0 };
}

abbrev logged : SessionStore
logged = (login same_text config first "bob" "secret" empty_store).1

abbrev day : List Visit
day = logs_in first "bob" "secret" ∷ refreshes second "t1" ∷ logs_out "" (some "id1") ∷ []

empty-IsIndexed : IsIndexed empty_store
empty-IsIndexed = record {
  named = λ id x e. absurd (ground (arith, e));
  filled = λ id x e. absurd (ground (arith, e));
  indexed = λ id x e. absurd (ground (arith, e));
  backed = λ h id e. absurd (ground (arith, e));
}

day_fresh : AllDrawOk same_text config IsNewId IsNewHash day empty_store
unfolding visit login login_answered login_saved save put_key str_eq trim_space
day_fresh = ((refl, (refl, refl)), ((refl, refl), (tt, tt)))

visit_all-IsIndexed_example : IsIndexed (visit_all same_text config day empty_store)
visit_all-IsIndexed_example =
    visit_all-IsIndexed same_text config day empty_store day_fresh empty-IsIndexed

first_fresh :
    AllDrawOk same_text config IsNewId IsNewHash (logs_in first "bob" "secret" ∷ []) empty_store
first_fresh = ((refl, (refl, refl)), tt)

logged-IsIndexed : IsIndexed logged
unfolding visit_all visit
logged-IsIndexed =
    visit_all-IsIndexed same_text config (logs_in first "bob" "secret" ∷ []) empty_store first_fresh
      empty-IsIndexed

abbrev renewed_data : TokenData
renewed_data = record {
  token_session_id = "id1";
  access_token = "id1";
  refresh_token = "t2";
  refresh_expire_at = record { unix = pos 1700004200; nano = 0 };
}

first_refresh : (refresh same_text config second "t1" logged).0 ≡ ok renewed_data
unfolding login login_answered login_saved save put_key str_eq trim_space refresh refresh_found
    refresh_answered refresh_rotated rotate rotate_found rotate_answered build_token_response
    get_by_refresh_token_hash ◌+ℤ◌ ◌-ℤ◌
first_refresh = refl

next_fresh :
    AllDrawOk same_text config AnyId
      (OtherHash "t1")
      (refreshes third "t2" ∷ [])
      (refresh same_text config second "t1" logged).1
unfolding str_eq
next_fresh = (refl, tt)

other_token : str_eq "t1" "t2" ≡ false
unfolding str_eq
other_token = refl

refresh_once_example :
    (refresh same_text config third "t1" (
      visit_all same_text config
        (refreshes third "t2" ∷ [])
        (refresh same_text config second "t1" logged).1)).0
    ≡ err (own unauthorized)
refresh_once_example =
    refresh_once same_text config second third "t1" (refreshes third "t2" ∷ []) logged renewed_data
      first_refresh other_token next_fresh

trimmed : is_blank (trim_space "t1") ≡ false
unfolding trim_space
trimmed = refl

bobs_there : logged.sessions "id1" ≡ some bobs
unfolding login login_answered login_saved save put_key str_eq trim_space ◌+ℤ◌
bobs_there = refl

bobs_logout : (logout "" (some "id1") logged).0 ≡ ok tt
unfolding logout
bobs_logout = refl

logout_ends_example :
    (refresh same_text config second "t1"
      (visit_all same_text config [] (logout "" (some "id1") logged).1)).0
    ≡ err (own unauthorized)
logout_ends_example =
    logout_ends same_text config second "" "id1" "t1" bobs [] logged logged-IsIndexed bobs_there
      refl trimmed bobs_logout tt

get_by_refresh_token_hash_iff_example :
    (get_by_refresh_token_hash "t1" logged ≡ ok bobs)
    ↔ ((get_session "id1" logged ≡ ok bobs) × (bobs.refresh_token_hash ≡ "t1"))
get_by_refresh_token_hash_iff_example =
    get_by_refresh_token_hash_iff logged "t1" bobs logged-IsIndexed

abbrev logged_data : TokenData
logged_data = record {
  token_session_id = "id1";
  access_token = "id1";
  refresh_token = "t1";
  refresh_expire_at = record { unix = pos 1700003600; nano = 0 };
}

first-login : (login same_text config first "bob" "secret" empty_store).0 ≡ ok logged_data
unfolding login login_answered login_saved trim_space ◌+ℤ◌
first-login = refl

still_live :
    before
      (add_seconds (pos 0 -ℤ config.access_token_leeway) second.now)
      logged_data.refresh_expire_at
    ≡ true
unfolding ◌+ℤ◌ ◌-ℤ◌
still_live = refl

login-refresh_example :
    (d' : TokenData) × ((refresh same_text config second "t1" logged).0 ≡ ok d')
    × (d'.token_session_id ≡ "id1")
    × (d'.refresh_token ≡ "t2")
login-refresh_example =
    login-refresh same_text config first second "bob" "secret" "t2" empty_store logged_data
      (record {
        reply_code = 0;
        reply_user_id = pos 5;
        reply_username = "bob";
        reply_role = "user";
      })
      first-login refl trimmed still_live refl refl refl (λ id user_id name role. (id, refl))
