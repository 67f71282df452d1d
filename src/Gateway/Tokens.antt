-- ===== src/Gateway/Tokens.antt =====
-- The life of a refresh token: it renews its session once, and not after a logout.
use mathlib.Core.Path.{subst}
use mesh_cart.Base.{
  ◌≡◌, sym, ◌∙◌, inl, inr, String, List, false, Option, none, some, Bool-cases, not, ◌==◌, ◌&&◌,
  arith,
}
use mesh_cart.Base.Text.{is_blank, trim_space, str_eq}
use mesh_cart.Base.TextMaps.{
  Text-cases, delete_key, put_key-other, delete_key-same, delete_key-other,
}
use mesh_cart.App.Errors.{unauthorized}
use mesh_cart.Sql.{Result, ok, err}
use mesh_cart.Gateway.Session.{
  Session, SessionError, session_not_found, SessionStore, save, get_by_refresh_token_hash,
  delete_session, drop_hash, Rotation, rotate, rotate_found,
}
use mesh_cart.Gateway.Logic.{
  own, UserAnswer, answered, call_failed, UserReply, AuthConfig, Circumstances, TokenData, refresh,
  refresh_found, refresh_answered, refresh_rotated, rotation, is_expired_session, rotate_answered,
  logout, Visit, visit_all,
}
use mesh_cart.Gateway.Index.{IsIndexed, save-IsIndexed, delete-IsIndexed}
use mesh_cart.Gateway.Rotation.{rotate-IsIndexed}
use mesh_cart.Gateway.Steps.{Step, stays, saves, deletes, rotates, TokenOk, AllDrawOk, visits-keep}

-- No session has the id, and no index entry the hash, which is not empty.
abbrev pub IsNewId : String → SessionStore → Type 0
IsNewId id s = s.sessions id ≡ none

abbrev pub IsNewHash : String → SessionStore → Type 0
IsNewHash h s = (s.refresh_index h ≡ none) × (is_blank h ≡ false)

new_steps : (s s' : SessionStore) → Step IsNewId IsNewHash s s' → IsIndexed s → IsIndexed s'
new_steps s _ stays i = i
new_steps s _ (saves x new_id (new_hash, fine)) i = save-IsIndexed x s new_id new_hash fine i
new_steps s _ (deletes id) i = delete-IsIndexed id s i
new_steps s _ (rotates id current r (new_hash, fine)) i =
    rotate-IsIndexed id current r s new_hash fine i

-- Where the index of a session store and its sessions tell the same, each session has its id and a
-- token hash that is not empty, they do so after any sequence of logins, refreshes and logouts
-- whose drawn session ids no session has and whose drawn tokens have hashes that are not empty and
-- that the index does not have.
pub visit_all-IsIndexed :
    (hash_of : String → String) (config : AuthConfig) (vs : List Visit) (s : SessionStore)
    → AllDrawOk hash_of config IsNewId IsNewHash vs s
    → IsIndexed s
    → IsIndexed (visit_all hash_of config vs s)
visit_all-IsIndexed hash_of config vs s fresh i =
    visits-keep hash_of config IsNewId IsNewHash IsIndexed new_steps vs s fresh i

-- Any id, and any other hash.
abbrev pub AnyId : String → SessionStore → Type 0
AnyId id s = Unit {0}

abbrev pub OtherHash : String → String → SessionStore → Type 0
OtherHash h k s = str_eq h k ≡ false

abbrev Gone : String → SessionStore → Type 0
Gone h s = s.refresh_index h ≡ none

delete_key-Gone : (h k : String) (m : String → Option String) → m h ≡ none → delete_key k m h ≡ none
delete_key-Gone h k m e = elim (Text-cases h k) [
  | inl same ↦ subst (λ j. delete_key k m j ≡ none) (sym same) (delete_key-same k m)
  | inr apart ↦ delete_key-other k m h apart ∙ e
]

drop_hash-Gone :
    (h : String) (o : Option Session) (m : String → Option String)
    → m h ≡ none
    → drop_hash o m h ≡ none
drop_hash-Gone h none m e = e
drop_hash-Gone h (some x) m e = elim (Bool-cases (is_blank x.refresh_token_hash)) [
  | inl blank ↦ rw blank e
  | inr full ↦ rw full (delete_key-Gone h x.refresh_token_hash m e)
]

save-Gone :
    (h : String) (x : Session) (s : SessionStore)
    → str_eq h x.refresh_token_hash ≡ false
    → Gone h s
    → Gone h (save x s)
unfolding save
save-Gone h x s other e = elim (Bool-cases (is_blank x.refresh_token_hash)) [
  | inl blank ↦ rw blank e
  | inr full ↦ rw full (put_key-other x.refresh_token_hash x.session_id s.refresh_index h other ∙ e)
]

rotate_found-Gone :
    (h id current : String) (r : Rotation) (s : SessionStore) (o : Option Session)
    → str_eq h r.next_hash ≡ false
    → Gone h s
    → Gone h (rotate_found id current r s o).1
unfolding rotate_found
rotate_found-Gone h id current r s none other e = e
rotate_found-Gone h id current r s (some x) other e =
    elim (Bool-cases (str_eq x.refresh_token_hash current)) [
      | inr off ↦ rw off e
      | inl on ↦ rw on (
          put_key-other r.next_hash id (delete_key current s.refresh_index) h other
          ∙ delete_key-Gone h current s.refresh_index e)
    ]

Step-Gone :
    (h : String) (s s' : SessionStore) → Step AnyId (OtherHash h) s s' → Gone h s → Gone h s'
unfolding delete_session rotate
Step-Gone h s _ stays e = e
Step-Gone h s _ (saves x any_id other) e = save-Gone h x s other e
Step-Gone h s _ (deletes id) e = drop_hash-Gone h (s.sessions id) s.refresh_index e
Step-Gone h s _ (rotates id current r other) e =
    rotate_found-Gone h id current r s (s.sessions id) other e

not_found :
    (h : String) (s : SessionStore)
    → Gone h s
    → get_by_refresh_token_hash h s ≡ err session_not_found
unfolding get_by_refresh_token_hash
not_found h s gone = rw gone

module _ (hash_of : String → String) (config : AuthConfig) where
  -- A token that the index does not have is refused.
  refused_when :
      (c : Circumstances) (token : String) (s : SessionStore)
      → is_blank (trim_space token) ≡ false
      → Gone (hash_of token) s
      → (refresh hash_of config c token s).0 ≡ err (own unauthorized)
  unfolding refresh refresh_found
  refused_when c token s full gone = rw (full, not_found (hash_of token) s gone)

  refused_later :
      (vs : List Visit) (c : Circumstances) (token : String) (s : SessionStore)
      → is_blank (trim_space token) ≡ false
      → Gone (hash_of token) s
      → AllDrawOk hash_of config AnyId (OtherHash (hash_of token)) vs s
      → (refresh hash_of config c token (visit_all hash_of config vs s)).0 ≡ err (own unauthorized)
  refused_later vs c token s full gone others =
      refused_when c token (visit_all hash_of config vs s) full (
        visits-keep hash_of config AnyId (OtherHash (hash_of token)) (Gone (hash_of token))
          (Step-Gone (hash_of token)) vs s others gone)

  module _ (c : Circumstances) (current : String) (d : TokenData) where
    rotate_answered-Gone :
        (id token : String) (r : Rotation) (s : SessionStore) (o : Option Session)
        → str_eq current r.next_hash ≡ false
        → rotate_answered hash_of config c token (rotate_found id current r s o).0 ≡ ok d
        → Gone current (rotate_found id current r s o).1
    unfolding rotate_found rotate_answered
    rotate_answered-Gone id token r s none other e = absurd (ground arith)
    rotate_answered-Gone id token r s (some x) other e =
        elim (Bool-cases (str_eq x.refresh_token_hash current)) [
          | inr off ↦ absurd (ground arith)
          | inl on ↦ rw on (
              put_key-other r.next_hash id (delete_key current s.refresh_index) current other
              ∙ delete_key-same current s.refresh_index)
        ]

    refresh_rotated-Gone :
        (x : Session) (reply : UserReply) (token : Option String) (s : SessionStore)
        → TokenOk hash_of config AnyId (OtherHash current) token s
        → (refresh_rotated hash_of config c x current reply token s).0 ≡ ok d
        → Gone current (refresh_rotated hash_of config c x current reply token s).1
    unfolding refresh_rotated rotate
    refresh_rotated-Gone x reply none s other e = absurd (ground arith)
    refresh_rotated-Gone x reply (some token) s other e =
        rotate_answered-Gone x.session_id token (rotation hash_of config c reply token) s
          (s.sessions x.session_id) other e

    refresh_answered-Gone :
        (x : Session) (a : UserAnswer) (s : SessionStore)
        → TokenOk hash_of config AnyId (OtherHash current) c.new_refresh_token s
        → (refresh_answered hash_of config c x current a s).0 ≡ ok d
        → Gone current (refresh_answered hash_of config c x current a s).1
    unfolding refresh_answered
    refresh_answered-Gone x (call_failed f) s other e = absurd (ground arith)
    refresh_answered-Gone x (answered reply) s other e = elim (Bool-cases (reply.reply_code == 0)) [
      | inr bad ↦ absurd (ground arith)
      | inl good ↦ rw good (refresh_rotated-Gone x reply c.new_refresh_token s other (ground arith))
    ]

    refresh_found-Gone :
        (r : Result SessionError Session) (s : SessionStore)
        → TokenOk hash_of config AnyId (OtherHash current) c.new_refresh_token s
        → (refresh_found hash_of config c current r s).0 ≡ ok d
        → Gone current (refresh_found hash_of config c current r s).1
    unfolding refresh_found
    refresh_found-Gone (err f) s other e = absurd (ground arith)
    refresh_found-Gone (ok x) s other e =
        elim (Bool-cases (is_expired_session hash_of config c x)) [
          | inl over ↦ absurd (ground arith)
          | inr live ↦ rw live (refresh_answered-Gone x c.user_answer s other (ground arith))
        ]

  refresh-Gone :
      (c : Circumstances) (token : String) (d : TokenData) (s : SessionStore)
      → TokenOk hash_of config AnyId (OtherHash (hash_of token)) c.new_refresh_token s
      → (refresh hash_of config c token s).0 ≡ ok d
      → (is_blank (trim_space token) ≡ false)
        × Gone (hash_of token) (refresh hash_of config c token s).1
  unfolding refresh
  refresh-Gone c token d s other e = elim (Bool-cases (is_blank (trim_space token))) [
    | inl blank ↦ absurd (ground arith)
    | inr full ↦ (
      full,
      rw full (
          refresh_found-Gone c (hash_of token) d (get_by_refresh_token_hash (hash_of token) s) s
            other (ground arith)),
    )
  ]

-- Where a refresh with a token succeeds, and neither it nor a request of a later sequence of
-- logins, refreshes and logouts draws a token with the same hash, a refresh with that token after
-- the sequence is answered with unauthorized.
pub refresh_once :
    (hash_of : String → String) (config : AuthConfig) (c later : Circumstances) (token : String)
    (vs : List Visit) (s : SessionStore) (d : TokenData)
    → let s' = (refresh hash_of config c token s).1 in
      (refresh hash_of config c token s).0 ≡ ok d
      → TokenOk hash_of config AnyId (OtherHash (hash_of token)) c.new_refresh_token s
      → AllDrawOk hash_of config AnyId (OtherHash (hash_of token)) vs s'
      → (refresh hash_of config later token (visit_all hash_of config vs s')).0
        ≡ err (own unauthorized)
refresh_once hash_of config c later token vs s d done other others =
    let (full, gone) = refresh-Gone hash_of config c token d s other done in
    refused_later hash_of config vs later token (refresh hash_of config c token s).1 full gone
      others

logout-Gone :
    (requested id : String) (x : Session) (s : SessionStore)
    → IsIndexed s
    → s.sessions id ≡ some x
    → (logout requested (some id) s).0 ≡ ok tt
    → Gone x.refresh_token_hash (logout requested (some id) s).1
unfolding logout delete_session
logout-Gone requested id x s i there done = elim (Bool-cases (is_blank id)) [
  | inl blank ↦ absurd (ground arith)
  | inr full ↦ elim (Bool-cases (not (is_blank requested) && not (str_eq requested id))) [
    | inl bad ↦ absurd (ground arith)
    | inr fine ↦
        rw (full, fine, there, i.filled id x there)
          (delete_key-same x.refresh_token_hash s.refresh_index)
  ]
]

-- Where the index of a session store and its sessions tell the same and a logout of a session
-- succeeds, and no request of a later sequence of logins, refreshes and logouts draws a token with
-- the hash of the session's token, a refresh with the session's token, which is not blank, after
-- the sequence is answered with unauthorized.
pub logout_ends :
    (hash_of : String → String) (config : AuthConfig) (later : Circumstances)
    (requested id token : String) (x : Session) (vs : List Visit) (s : SessionStore)
    → let s' = (logout requested (some id) s).1 in
      IsIndexed s
      → s.sessions id ≡ some x
      → x.refresh_token_hash ≡ hash_of token
      → is_blank (trim_space token) ≡ false
      → (logout requested (some id) s).0 ≡ ok tt
      → AllDrawOk hash_of config AnyId (OtherHash (hash_of token)) vs s'
      → (refresh hash_of config later token (visit_all hash_of config vs s')).0
        ≡ err (own unauthorized)
logout_ends hash_of config later requested id token x vs s i there same full done others =
    refused_later hash_of config vs later token (logout requested (some id) s).1 full
      (subst (λ h. Gone h (logout requested (some id) s).1) same
        (logout-Gone requested id x s i there done))
      others
