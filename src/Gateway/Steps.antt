-- ===== src/Gateway/Steps.antt =====
-- gateway/internal/logic/user: what a request does to the sessions, as steps of the store.
use mesh_cart.Base.{
  inl, inr, String, List, [], ◌∷◌, Option, none, some, Bool-cases, not, ◌==◌, ◌&&◌, ◌||◌,
}
use mesh_cart.Base.Text.{is_blank, trim_space, str_eq}
use mesh_cart.Sql.{Result, ok, err}
use mesh_cart.Gateway.Session.{
  Session, SessionError, SessionStore, save, get_by_refresh_token_hash, delete_session, Rotation,
  rotate,
}
use mesh_cart.Gateway.Logic.{
  UserAnswer, answered, UserReply, AuthConfig, Circumstances, login, login_answered, login_saved,
  new_session, refresh, refresh_found, refresh_answered, refresh_rotated, rotation,
  is_expired_session, logout, Visit, logs_in, refreshes, logs_out, visit, visit_all,
}

-- What a visit does to the store, where the drawn session ids and the hashes of the drawn tokens are
-- as asked.
pub data Step (IdOk HashOk : String → SessionStore → Type 0) (s : SessionStore)
    : SessionStore → Type 0 where
  stays : Step IdOk HashOk s s
  saves :
      (x : Session)
      → IdOk x.session_id s
      → HashOk x.refresh_token_hash s
      → Step IdOk HashOk s (save x s)
  deletes : (id : String) → Step IdOk HashOk s (delete_session id s)
  rotates :
      (id current : String) (r : Rotation)
      → HashOk r.next_hash s
      → Step IdOk HashOk s (rotate id current r s).1

module _ (hash_of : String → String) (config : AuthConfig)
    (IdOk HashOk : String → SessionStore → Type 0) where
  -- The hash of the token that is drawn, where one is.
  abbrev pub TokenOk : Option String → SessionStore → Type 0
  TokenOk none s = Unit
  TokenOk (some t) s = HashOk (hash_of t) s

  abbrev pub DrawsOk : Visit → SessionStore → Type 0
  DrawsOk (logs_in c username password) s = IdOk c.new_session_id s × TokenOk c.new_refresh_token s
  DrawsOk (refreshes c token) s = TokenOk c.new_refresh_token s
  DrawsOk (logs_out requested id) s = Unit

  abbrev pub AllDrawOk : List Visit → SessionStore → Type 0
  AllDrawOk [] s = Unit
  AllDrawOk (v ∷ vs) s = DrawsOk v s × AllDrawOk vs (visit hash_of config v s)

  abbrev Steps : SessionStore → SessionStore → Type 0
  Steps s s' = Step IdOk HashOk s s'

  login_saved-Step :
      (c : Circumstances) (reply : UserReply) (access token : Option String) (s : SessionStore)
      → IdOk c.new_session_id s
      → TokenOk token s
      → Steps s (login_saved hash_of config c reply access token s).1
  unfolding login_saved
  login_saved-Step c reply none token s i t = stays
  login_saved-Step c reply (some access) none s i t = stays
  login_saved-Step c reply (some access) (some token) s i t =
      saves (new_session hash_of config c reply token) i t

  login_answered-Step :
      (c : Circumstances) (a : UserAnswer) (s : SessionStore)
      → IdOk c.new_session_id s
      → TokenOk c.new_refresh_token s
      → Steps s (login_answered hash_of config c a s).1
  unfolding login_answered
  login_answered-Step c (UserAnswer.call_failed e) s i t = stays
  login_answered-Step c (answered reply) s i t = elim (Bool-cases (reply.reply_code == 0)) [
    | inl good ↦ rw good (login_saved-Step c reply _ c.new_refresh_token s i t)
    | inr bad ↦ rw bad stays
  ]

  refresh_rotated-Step :
      (c : Circumstances) (x : Session) (current : String) (reply : UserReply)
      (token : Option String) (s : SessionStore)
      → TokenOk token s
      → Steps s (refresh_rotated hash_of config c x current reply token s).1
  unfolding refresh_rotated
  refresh_rotated-Step c x current reply none s t = stays
  refresh_rotated-Step c x current reply (some token) s t =
      rotates x.session_id current (rotation hash_of config c reply token) t

  refresh_answered-Step :
      (c : Circumstances) (x : Session) (current : String) (a : UserAnswer) (s : SessionStore)
      → TokenOk c.new_refresh_token s
      → Steps s (refresh_answered hash_of config c x current a s).1
  unfolding refresh_answered
  refresh_answered-Step c x current (UserAnswer.call_failed e) s t = stays
  refresh_answered-Step c x current (answered reply) s t =
      elim (Bool-cases (reply.reply_code == 0)) [
        | inl good ↦ rw good (refresh_rotated-Step c x current reply c.new_refresh_token s t)
        | inr bad ↦ rw bad stays
      ]

  refresh_found-Step :
      (c : Circumstances) (current : String) (r : Result SessionError Session) (s : SessionStore)
      → TokenOk c.new_refresh_token s
      → Steps s (refresh_found hash_of config c current r s).1
  unfolding refresh_found
  refresh_found-Step c current (err e) s t = stays
  refresh_found-Step c current (ok x) s t =
      elim (Bool-cases (is_expired_session hash_of config c x)) [
        | inl over ↦ rw over (deletes x.session_id)
        | inr live ↦ rw live (refresh_answered-Step c x current c.user_answer s t)
      ]

  login-Step :
      (c : Circumstances) (username password : String) (s : SessionStore)
      → IdOk c.new_session_id s
      → TokenOk c.new_refresh_token s
      → Steps s (login hash_of config c username password s).1
  unfolding login
  login-Step c username password s i t =
      elim (Bool-cases (is_blank (trim_space username) || is_blank (trim_space password))) [
        | inl blank ↦ rw blank stays
        | inr full ↦ rw full (login_answered-Step c c.user_answer s i t)
      ]

  refresh-Step :
      (c : Circumstances) (token : String) (s : SessionStore)
      → TokenOk c.new_refresh_token s
      → Steps s (refresh hash_of config c token s).1
  unfolding refresh
  refresh-Step c token s t = elim (Bool-cases (is_blank (trim_space token))) [
    | inl blank ↦ rw blank stays
    | inr full ↦
        rw full
          (refresh_found-Step c (hash_of token) (get_by_refresh_token_hash (hash_of token) s) s t)
  ]

  logout-Step :
      (requested : String) (id : Option String) (s : SessionStore)
      → Steps s (logout requested id s).1
  unfolding logout
  logout-Step requested none s = stays
  logout-Step requested (some id) s = elim (Bool-cases (is_blank id)) [
    | inl blank ↦ rw blank stays
    | inr full ↦ elim (Bool-cases (not (is_blank requested) && not (str_eq requested id))) [
      | inl bad ↦ rw (full, bad) stays
      | inr fine ↦ rw (full, fine) (deletes id)
    ]
  ]

  visit-Step : (v : Visit) (s : SessionStore) → DrawsOk v s → Steps s (visit hash_of config v s)
  unfolding visit
  visit-Step (logs_in c username password) s (i, t) = login-Step c username password s i t
  visit-Step (refreshes c token) s t = refresh-Step c token s t
  visit-Step (logs_out requested id) s t = logout-Step requested id s

  -- What every step keeps, every sequence of visits keeps.
  pub visits-keep :
      (P : SessionStore → Type 0)
      → ((s s' : SessionStore) → Steps s s' → P s → P s')
      → (vs : List Visit) (s : SessionStore) → AllDrawOk vs s
      → P s
      → P (visit_all hash_of config vs s)
  unfolding visit_all
  visits-keep P k [] s a p = p
  visits-keep P k (v ∷ vs) s (d, a) p =
      visits-keep P k vs (visit hash_of config v s) a
        (k s (visit hash_of config v s) (visit-Step v s d) p)
