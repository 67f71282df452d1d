-- ===== src/Gateway/Renewal.antt =====
-- A login's refresh token renews its session.
use mathlib.Core.Path.{subst}
use mesh_cart.Base.{
  ◌≡◌, refl, sym, ap, ◌∙◌, inl, inr, String, true, false, Option, none, some, Bool-cases, not, ◌==◌,
  ◌||◌, arith,
}
use mesh_cart.Base.Int.{ℤ, pos, ◌-ℤ◌}
use mesh_cart.Base.Text.{is_blank, trim_space}
use mesh_cart.Base.TextMaps.{put_key-same, str_eq_refl}
use mesh_cart.App.Time.{before, add_seconds}
use mesh_cart.Sql.{ok}
use mesh_cart.Gateway.Session.{
  Session, SessionStore, save, get_by_refresh_token_hash, Rotation, rotated, rotate, rotate_found,
}
use mesh_cart.Gateway.Logic.{
  UserAnswer, answered, call_failed, UserReply, AuthConfig, Circumstances, TokenData, login,
  login_answered, login_saved, new_session, refresh, refresh_found, refresh_answered,
  refresh_rotated, rotation, is_expired_session, rotate_answered, build_token_response,
}

module _ (hash_of : String → String) (config : AuthConfig) where
  -- The session that a login has saved.
  abbrev Saved : TokenData → SessionStore → SessionStore → Type 0
  Saved d s s' =
      (x : Session) × (s' ≡ save x s)
      × (x.refresh_token_hash ≡ hash_of d.refresh_token)
      × (x.session_id ≡ d.token_session_id)
      × (x.expires_at ≡ d.refresh_expire_at)

  login_saved-Saved :
      (c : Circumstances) (reply : UserReply) (access token : Option String) (s : SessionStore)
      (d : TokenData)
      → (login_saved hash_of config c reply access token s).0 ≡ ok d
      → Saved d s (login_saved hash_of config c reply access token s).1
  unfolding login_saved
  login_saved-Saved c reply none token s d e = absurd (ground arith)
  login_saved-Saved c reply (some access) none s d e = absurd (ground arith)
  login_saved-Saved c reply (some access) (some token) s d e =
      let given : TokenData = record {
        token_session_id = c.new_session_id;
        access_token = access;
        refresh_token = token;
        refresh_expire_at = add_seconds config.refresh_token_ttl c.now;
      } in
      let same : given ≡ d = ground arith in
      (
        new_session hash_of config c reply token,
        refl,
        ap (λ z. hash_of z.refresh_token) same,
        ap (λ z. z.token_session_id) same,
        ap (λ z. z.refresh_expire_at) same,
      )

  login_answered-Saved :
      (c : Circumstances) (a : UserAnswer) (s : SessionStore) (d : TokenData)
      → (login_answered hash_of config c a s).0 ≡ ok d
      → Saved d s (login_answered hash_of config c a s).1
  unfolding login_answered
  login_answered-Saved c (call_failed f) s d e = absurd (ground arith)
  login_answered-Saved c (answered reply) s d e = elim (Bool-cases (reply.reply_code == 0)) [
    | inr bad ↦ absurd (ground arith)
    | inl good ↦ rw good (login_saved-Saved c reply _ c.new_refresh_token s d (ground arith))
  ]

  login-Saved :
      (c : Circumstances) (username password : String) (s : SessionStore) (d : TokenData)
      → (login hash_of config c username password s).0 ≡ ok d
      → Saved d s (login hash_of config c username password s).1
  unfolding login
  login-Saved c username password s d e =
      elim (Bool-cases (is_blank (trim_space username) || is_blank (trim_space password))) [
        | inl blank ↦ absurd (ground arith)
        | inr full ↦ rw full (login_answered-Saved c c.user_answer s d (ground arith))
      ]

  found_by :
      (x : Session) (s : SessionStore)
      → is_blank x.refresh_token_hash ≡ false
      → get_by_refresh_token_hash x.refresh_token_hash (save x s) ≡ ok x
  unfolding get_by_refresh_token_hash save
  found_by x s full = rw (
    full,
    put_key-same x.refresh_token_hash x.session_id s.refresh_index,
    put_key-same x.session_id x s.sessions,
  )

  abbrev Signs : Circumstances → Type 0
  Signs c =
      (id : String) (user_id : ℤ) (username role : String)
      → (access : String) × (c.sign id user_id username role ≡ some access)

  abbrev Renewed : String → String → SessionStore → Circumstances → String → Type 0
  Renewed id token s c next =
      (d : TokenData) × ((refresh hash_of config c token s).0 ≡ ok d)
      × (d.token_session_id ≡ id)
      × (d.refresh_token ≡ next)

  turned :
      (x : Session) (s : SessionStore) (r : Rotation)
      → (rotate x.session_id x.refresh_token_hash r (save x s)).0 ≡ ok (rotated r x)
  unfolding rotate rotate_found save
  turned x s r = rw (put_key-same x.session_id x s.sessions, str_eq_refl x.refresh_token_hash)

  renews :
      (c : Circumstances) (x : Session) (s : SessionStore) (token next : String) (reply : UserReply)
      → x.refresh_token_hash ≡ hash_of token
      → is_blank (hash_of token) ≡ false
      → is_blank (trim_space token) ≡ false
      → is_expired_session hash_of config c x ≡ false
      → c.user_answer ≡ answered reply
      → reply.reply_code ≡ 0
      → c.new_refresh_token ≡ some next
      → Signs c
      → Renewed x.session_id token (save x s) c next
  unfolding refresh refresh_found refresh_answered refresh_rotated rotate_answered
      build_token_response
  renews c x s token next reply same full there live got good drawn signs =
      let r = rotation hash_of config c reply next in
      let y = rotated r x in
      let (access, signed) = signs y.session_id y.user_id y.username y.role in
      let found : get_by_refresh_token_hash (hash_of token) (save x s) ≡ ok x =
        subst (λ h. get_by_refresh_token_hash h (save x s) ≡ ok x) same
          (found_by x s (ap is_blank same ∙ full)) in
      let rotates : (rotate x.session_id (hash_of token) r (save x s)).0 ≡ ok y =
        subst (λ h. (rotate x.session_id h r (save x s)).0 ≡ ok y) same (turned x s r) in
      (
        record {
          token_session_id = y.session_id;
          access_token = access;
          refresh_token = next;
          refresh_expire_at = y.expires_at;
        },
        rw (there, found, live, got, good, drawn, rotates, signed),
        refl,
        refl,
      )

-- Where a login succeeds, a refresh right after it with its refresh token succeeds, keeps the
-- session's id and answers the newly drawn token, if the token and its hash are not blank, the
-- session has not expired, the user service answers the user, a token is drawn and the JWT is
-- signed.
pub login-refresh :
    (hash_of : String → String) (config : AuthConfig) (c later : Circumstances)
    (username password next : String) (s : SessionStore) (d : TokenData) (reply : UserReply)
    → (login hash_of config c username password s).0 ≡ ok d
    → is_blank (hash_of d.refresh_token) ≡ false
    → is_blank (trim_space d.refresh_token) ≡ false
    → before (add_seconds (pos 0 -ℤ config.access_token_leeway) later.now) d.refresh_expire_at
      ≡ true
    → later.user_answer ≡ answered reply
    → reply.reply_code ≡ 0
    → later.new_refresh_token ≡ some next
    → ((id : String) (user_id : ℤ) (name role : String)
        → (access : String) × (later.sign id user_id name role ≡ some access))
    → let s' = (login hash_of config c username password s).1 in
      (d' : TokenData) × ((refresh hash_of config later d.refresh_token s').0 ≡ ok d')
      × (d'.token_session_id ≡ d.token_session_id)
      × (d'.refresh_token ≡ next)
login-refresh hash_of config c later username password next s d reply done full there live got good
      drawn signs =
    let (x, saved, hash, id, until) = login-Saved hash_of config c username password s d done in
    let renewed =
      renews hash_of config later x s d.refresh_token next reply hash full there
        (ap (λ t. not (before (add_seconds (pos 0 -ℤ config.access_token_leeway) later.now) t))
            until
          ∙ ap not live)
        got good drawn signs in
    subst
      (λ k.
        Renewed hash_of config k d.refresh_token (login hash_of config c username password s).1
          later next)
      id
      (subst (λ s'. Renewed hash_of config x.session_id d.refresh_token s' later next) (sym saved)
        renewed)
