-- ===== src/Gateway/Session.antt =====
-- gateway/internal/auth/session_store.go: the sessions and the store in memory. Its methods hold the
-- lock from beginning to end, so that they run one after the other; sessions are copied on their way
-- in and out, so that they are values. A session that is nil is refused by Save and is left out.
use mesh_cart.Base.{String, Option, none, some, if◌then◌else◌}
use mesh_cart.Base.Int.{ℤ}
use mesh_cart.Base.Text.{is_blank, str_eq}
use mesh_cart.Base.TextMaps.{put_key, delete_key}
use mesh_cart.App.Time.{Time}
use mesh_cart.Sql.{Result, ok, err}

pub record Session : Type 0 where
  pub session_id : String
  pub user_id : ℤ
  pub username : String
  pub role : String
  pub refresh_token_hash : String
  pub expires_at : Time
  pub device_id : String
  pub user_agent : String
  pub ip : String
  pub created_at : Time
  pub updated_at : Time

pub data SessionError : Type 0 where
  session_not_found session_conflict : SessionError

-- `MemorySessionStore`
pub record SessionStore : Type 0 where
  pub sessions : String → Option Session
  pub refresh_index : String → Option String

abbrev pub empty_store : SessionStore
empty_store = record { sessions = λ id. none; refresh_index = λ h. none }

unfoldable pub save : Session → SessionStore → SessionStore
save session s = record {
  sessions = put_key session.session_id session s.sessions;
  refresh_index =
      if is_blank session.refresh_token_hash
      then s.refresh_index
      else put_key session.refresh_token_hash session.session_id s.refresh_index;
}

abbrev found_session : Option Session → Result SessionError Session
found_session none = err session_not_found
found_session (some session) = ok session

abbrev found_id : (String → Option Session) → Option String → Result SessionError Session
found_id sessions none = err session_not_found
found_id sessions (some id) = found_session (sessions id)

unfoldable pub get_session : String → SessionStore → Result SessionError Session
get_session id s = found_session (s.sessions id)

unfoldable pub get_by_refresh_token_hash : String → SessionStore → Result SessionError Session
get_by_refresh_token_hash hash s = found_id s.sessions (s.refresh_index hash)

abbrev pub drop_hash : Option Session → (String → Option String) → String → Option String
drop_hash none index = index
drop_hash (some session) index =
    if is_blank session.refresh_token_hash
    then index
    else delete_key session.refresh_token_hash index

-- `Delete`
unfoldable pub delete_session : String → SessionStore → SessionStore
delete_session id s = record {
  sessions = delete_key id s.sessions;
  refresh_index = drop_hash (s.sessions id) s.refresh_index;
}

-- What `Rotate` is given beside the id and the current hash.
pub record Rotation : Type 0 where
  pub next_hash : String
  pub next_expires_at : Time
  pub next_updated_at : Time
  pub next_username : String
  pub next_role : String

abbrev pub or_text : String → String → String
or_text new old = if is_blank new then old else new

abbrev pub rotated : Rotation → Session → Session
rotated r session = record session {
  refresh_token_hash = r.next_hash;
  expires_at = r.next_expires_at;
  updated_at = r.next_updated_at;
  username = or_text r.next_username session.username;
  role = or_text r.next_role session.role;
}

unfoldable pub rotate_found :
    String
    → String
    → Rotation
    → SessionStore
    → Option Session
    → Result SessionError Session × SessionStore
rotate_found id current r s none = (err session_not_found, s)
rotate_found id current r s (some session) =
    if str_eq session.refresh_token_hash current
    then (
      ok (rotated r session),
      record {
        sessions = put_key id (rotated r session) s.sessions;
        refresh_index = put_key r.next_hash id (delete_key current s.refresh_index);
      },
    )
    else (err session_conflict, s)

unfoldable pub rotate :
    String → String → Rotation → SessionStore → Result SessionError Session × SessionStore
rotate id current r s = rotate_found id current r s (s.sessions id)
