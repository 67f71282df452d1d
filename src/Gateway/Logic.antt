-- ===== src/Gateway/Logic.antt =====
-- gateway/internal/logic/user/{login,refresh_token,logout,token_helper}.go and logicutil/rpc_error.go,
-- over the store in memory. What a request meets outside of the gateway is its circumstances: the
-- clock, the reply of the user service, the drawn session id and token, the signing of the JWT.
-- `HashRefreshToken` is a parameter.
use mesh_cart.Base.{
  ℕ, String, Bool, List, [], ◌∷◌, Option, none, some, not, ◌==◌, ◌&&◌, ◌||◌, if◌then◌else◌,
}
use mesh_cart.Base.Int.{ℤ, pos, ◌-ℤ◌}
use mesh_cart.Base.Text.{is_blank, trim_space, str_eq}
use mesh_cart.App.Errors.{
  BizError, invalid_param, unauthorized, forbidden, internal_error, service_busy,
  service_unavailable,
}
use mesh_cart.App.Time.{Time, before, add_seconds}
use mesh_cart.Sql.{Result, ok, err}
use mesh_cart.Gateway.Session.{
  Session, SessionError, SessionStore, save, get_by_refresh_token_hash, delete_session, Rotation,
  rotate,
}

-- An error of a call, as far as `MapRPCError` tells them apart by their texts.
pub data RpcFault : Type 0 where
  timed_out refused other_fault : RpcFault

abbrev pub map_rpc_error : RpcFault → BizError
map_rpc_error timed_out = service_busy
map_rpc_error refused = service_unavailable
map_rpc_error other_fault = internal_error

-- The errors that are answered: the gateway's own, and those of the user service by their code.
pub data LogicError : Type 0 where
  own : BizError → LogicError
  remote : ℕ → LogicError

pub record UserReply : Type 0 where
  pub reply_code : ℕ
  pub reply_user_id : ℤ
  pub reply_username : String
  pub reply_role : String

pub data UserAnswer : Type 0 where
  call_failed : RpcFault → UserAnswer
  answered : UserReply → UserAnswer

-- The configuration: the life of a refresh token and the leeway, in seconds.
pub record AuthConfig : Type 0 where
  pub refresh_token_ttl : ℤ
  pub access_token_leeway : ℤ

pub record Circumstances : Type 0 where
  pub now : Time
  pub user_answer : UserAnswer
  -- `NewSessionID`, and `NewRefreshToken`, which may fail
  pub new_session_id : String
  pub new_refresh_token : Option String
  -- `TokenGenerator` on the session's id, its user, its name and its role
  pub sign : String → ℤ → String → String → Option String

-- UserLoginData and UserRefreshTokenData, as far as they agree; the times are not formatted.
pub record TokenData : Type 0 where
  pub token_session_id : String
  pub access_token : String
  pub refresh_token : String
  pub refresh_expire_at : Time

abbrev pub Answer : Type 0 → Type 0
Answer A = Result LogicError A × SessionStore

module _ (hash_of : String → String) (config : AuthConfig) (c : Circumstances) where
  abbrev pub new_session : UserReply → String → Session
  new_session reply token = record {
    session_id = c.new_session_id;
    user_id = reply.reply_user_id;
    username = reply.reply_username;
    role = reply.reply_role;
    refresh_token_hash = hash_of token;
    expires_at = add_seconds config.refresh_token_ttl c.now;
    device_id = "";
    user_agent = "";
    ip = "";
    created_at = c.now;
    updated_at = c.now;
  }

  unfoldable pub login_saved :
      UserReply → Option String → Option String → SessionStore → Answer TokenData
  login_saved reply none token s = (err (own internal_error), s)
  login_saved reply (some access) none s = (err (own internal_error), s)
  login_saved reply (some access) (some token) s = (
    ok (record {
      token_session_id = c.new_session_id;
      access_token = access;
      refresh_token = token;
      refresh_expire_at = add_seconds config.refresh_token_ttl c.now;
    }),
    save (new_session reply token) s,
  )

  unfoldable pub login_answered : UserAnswer → SessionStore → Answer TokenData
  login_answered (call_failed e) s = (err (own (map_rpc_error e)), s)
  login_answered (answered reply) s =
      if reply.reply_code == 0
      then login_saved reply
          (c.sign c.new_session_id reply.reply_user_id reply.reply_username reply.reply_role)
          c.new_refresh_token s
      else (err (remote reply.reply_code), s)

  -- `Login`, with the name and the password.
  unfoldable pub login : String → String → SessionStore → Answer TokenData
  login username password s =
      if is_blank (trim_space username) || is_blank (trim_space password)
      then (err (own invalid_param), s)
      else login_answered c.user_answer s

  -- `buildTokenResponse`
  unfoldable pub build_token_response :
      Session → String → Option String → Result LogicError TokenData
  build_token_response session token none = err (own internal_error)
  build_token_response session token (some access) = ok (record {
    token_session_id = session.session_id;
    access_token = access;
    refresh_token = token;
    refresh_expire_at = session.expires_at;
  })

  unfoldable pub rotate_answered :
      String → Result SessionError Session → Result LogicError TokenData
  rotate_answered token (err e) = err (own unauthorized)
  rotate_answered token (ok session) =
      build_token_response session token
        (c.sign session.session_id session.user_id session.username session.role)

  abbrev pub rotation : UserReply → String → Rotation
  rotation reply token = record {
    next_hash = hash_of token;
    next_expires_at = add_seconds config.refresh_token_ttl c.now;
    next_updated_at = c.now;
    next_username = reply.reply_username;
    next_role = reply.reply_role;
  }

  unfoldable pub refresh_rotated :
      Session → String → UserReply → Option String → SessionStore → Answer TokenData
  refresh_rotated session current reply none s = (err (own internal_error), s)
  refresh_rotated session current reply (some token) s =
      let (r, s') = rotate session.session_id current (rotation reply token) s in
      (rotate_answered token r, s')

  unfoldable pub refresh_answered : Session → String → UserAnswer → SessionStore → Answer TokenData
  refresh_answered session current (call_failed e) s = (err (own (map_rpc_error e)), s)
  refresh_answered session current (answered reply) s =
      if reply.reply_code == 0
      then refresh_rotated session current reply c.new_refresh_token s
      else (err (remote reply.reply_code), s)

  -- The session's expiry is not after the clock less the leeway.
  abbrev pub is_expired_session : Session → Bool
  is_expired_session session =
      not (before (add_seconds (pos 0 -ℤ config.access_token_leeway) c.now) session.expires_at)

  unfoldable pub refresh_found :
      String → Result SessionError Session → SessionStore → Answer TokenData
  refresh_found current (err e) s = (err (own unauthorized), s)
  refresh_found current (ok session) s =
      if is_expired_session session
      then (err (own unauthorized), delete_session session.session_id s)
      else refresh_answered session current c.user_answer s

  -- `Refresh`, with the token.
  unfoldable pub refresh : String → SessionStore → Answer TokenData
  refresh token s =
      if is_blank (trim_space token)
      then (err (own invalid_param), s)
      else refresh_found (hash_of token) (get_by_refresh_token_hash (hash_of token) s) s

-- `Logout`, with the session id of the request and that of the identity, where there is one.
unfoldable pub logout : String → Option String → SessionStore → Answer Unit
logout requested none s = (err (own unauthorized), s)
logout requested (some id) s =
    if is_blank id
    then (err (own unauthorized), s)
    else (if not (is_blank requested) && not (str_eq requested id)
        then (err (own forbidden), s)
        else (ok tt, delete_session id s))

pub data Visit : Type 0 where
  logs_in : Circumstances → String → String → Visit
  refreshes : Circumstances → String → Visit
  logs_out : String → Option String → Visit

module _ (hash_of : String → String) (config : AuthConfig) where
  unfoldable pub visit : Visit → SessionStore → SessionStore
  visit (logs_in c username password) s = (login hash_of config c username password s).1
  visit (refreshes c token) s = (refresh hash_of config c token s).1
  visit (logs_out requested id) s = (logout requested id s).1

  -- Requests one after the other.
  unfoldable pub visit_all : List Visit → SessionStore → SessionStore
  visit_all [] s = s
  visit_all (v ∷ vs) s = visit_all vs (visit v s)
