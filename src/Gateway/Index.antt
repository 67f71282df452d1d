-- ===== src/Gateway/Index.antt =====
-- The index of the refresh tokens and the sessions tell the same.
use mathlib.Core.Path.{subst}
use mesh_cart.Base.{
  ◌≡◌, sym, ap, ◌∙◌, inl, inr, String, false, Option, none, some, Option-cases, if◌then◌else◌,
  arith,
}
use mesh_cart.Base.Text.{is_blank, str_eq}
use mesh_cart.Base.TextMaps.{
  Text-cases, put_key, delete_key, put_key-same, put_key-other, put_key-cases, delete_key-other,
  delete_key-some, str_eq_refl,
}
use mesh_cart.Gateway.Session.{Session, SessionStore, save, delete_session}

pub record IsIndexed (s : SessionStore) : Type 0 where
  pub named : (id : String) (x : Session) → s.sessions id ≡ some x → x.session_id ≡ id
  pub filled :
      (id : String) (x : Session) → s.sessions id ≡ some x → is_blank x.refresh_token_hash ≡ false
  pub indexed :
      (id : String) (x : Session)
      → s.sessions id ≡ some x
      → s.refresh_index x.refresh_token_hash ≡ some id
  pub backed :
      (h id : String)
      → s.refresh_index h ≡ some id
      → (x : Session) × (s.sessions id ≡ some x) × (x.refresh_token_hash ≡ h)

module _ {A : Type 0} where
  pub some-inj : (a b : A) → some a ≡ some b → a ≡ b
  some-inj a b e = ground arith

  pub some_none : {B : Type 0} (o : Option A) (a : A) → o ≡ some a → o ≡ none → B
  some_none o a e f = absurd (ground arith)

pub apart_self : {a b : String} → a ≡ b → str_eq a b ≡ false → ⊥
apart_self {a} {b} e off =
    absurd (ground (arith, off, (sym (ap (λ z. str_eq z b) e)) ∙ off, str_eq_refl b))

-- A session with an id and a token that are new.
pub save-IsIndexed :
    (x : Session) (s : SessionStore)
    → s.sessions x.session_id ≡ none
    → s.refresh_index x.refresh_token_hash ≡ none
    → is_blank x.refresh_token_hash ≡ false
    → IsIndexed s
    → IsIndexed (save x s)
unfolding save
save-IsIndexed x s new_id new_hash there i =
    let index = put_key x.refresh_token_hash x.session_id s.refresh_index in
    let kept : IsIndexed
        (record { sessions = put_key x.session_id x s.sessions; refresh_index = index }) =
      record {
        named = λ id y e. elim (put_key-cases x.session_id x s.sessions id (some y) e) [
          | inl (at, f) ↦ ap (λ z. z.session_id) (sym (some-inj x y f)) ∙ sym at
          | inr (off, f) ↦ i.named id y f
        ];
        filled = λ id y e. elim (put_key-cases x.session_id x s.sessions id (some y) e) [
          | inl (at, f) ↦ subst (λ z. is_blank z.refresh_token_hash ≡ false) (some-inj x y f) there
          | inr (off, f) ↦ i.filled id y f
        ];
        indexed = λ id y e. elim (put_key-cases x.session_id x s.sessions id (some y) e) [
          | inl (at, f) ↦
              subst (λ z. index z.refresh_token_hash ≡ some id) (some-inj x y f)
                (put_key-same x.refresh_token_hash x.session_id s.refresh_index ∙ ap some (sym at))
          | inr (off, f) ↦ elim (Text-cases y.refresh_token_hash x.refresh_token_hash) [
            | inl same ↦
                some_none (s.refresh_index y.refresh_token_hash) id (i.indexed id y f)
                  (ap s.refresh_index same ∙ new_hash)
            | inr apart ↦
                put_key-other x.refresh_token_hash x.session_id s.refresh_index y.refresh_token_hash
                  apart
                ∙ i.indexed id y f
          ]
        ];
        backed = λ h id e.
            elim (put_key-cases x.refresh_token_hash x.session_id s.refresh_index h (some id) e) [
              | inl (at, f) ↦ (
                x,
                subst (λ j. put_key x.session_id x s.sessions j ≡ some x)
                    (some-inj x.session_id id f) (put_key-same x.session_id x s.sessions),
                sym at,
              )
              | inr (off, f) ↦
                  let (y, e', g) = i.backed h id f in
                  elim (Text-cases id x.session_id) [
                    | inl same ↦ some_none (s.sessions id) y e' (ap s.sessions same ∙ new_id)
                    | inr apart ↦ (y, put_key-other x.session_id x s.sessions id apart ∙ e', g)
                  ]
            ];
      } in
    subst
      (λ b. IsIndexed (record {
        sessions = put_key x.session_id x s.sessions;
        refresh_index = if b then s.refresh_index else index;
      }))
      (sym there) kept

drop-IsIndexed :
    (id : String) (x : Session) (s : SessionStore)
    → s.sessions id ≡ some x
    → IsIndexed s
    → IsIndexed (record {
      sessions = delete_key id s.sessions;
      refresh_index = delete_key x.refresh_token_hash s.refresh_index;
    })
drop-IsIndexed id x s there i = record {
  named = λ j y e. i.named j y (delete_key-some id s.sessions j y e).1;
  filled = λ j y e. i.filled j y (delete_key-some id s.sessions j y e).1;
  indexed = λ j y e.
      let (off, f) = delete_key-some id s.sessions j y e in
      elim (Text-cases y.refresh_token_hash x.refresh_token_hash) [
        | inl same ↦
            let at =
              some-inj j id
                (sym (i.indexed j y f) ∙ ap s.refresh_index same ∙ i.indexed id x there) in
            absurd (apart_self at off)
        | inr apart ↦
            delete_key-other x.refresh_token_hash s.refresh_index y.refresh_token_hash apart
            ∙ i.indexed j y f
      ];
  backed = λ h j e.
      let (off, f) = delete_key-some x.refresh_token_hash s.refresh_index h j e in
      let (y, e', g) = i.backed h j f in
      elim (Text-cases j id) [
        | inl same ↦
            let it = some-inj y x (sym e' ∙ ap s.sessions same ∙ there) in
            absurd (apart_self (sym g ∙ ap (λ z. z.refresh_token_hash) it) off)
        | inr apart ↦ (y, delete_key-other id s.sessions j apart ∙ e', g)
      ];
}

nothing-IsIndexed :
    (id : String) (s : SessionStore)
    → s.sessions id ≡ none
    → IsIndexed s
    → IsIndexed (record { sessions = delete_key id s.sessions; refresh_index = s.refresh_index })
nothing-IsIndexed id s nothing i = record {
  named = λ j y e. i.named j y (delete_key-some id s.sessions j y e).1;
  filled = λ j y e. i.filled j y (delete_key-some id s.sessions j y e).1;
  indexed = λ j y e. i.indexed j y (delete_key-some id s.sessions j y e).1;
  backed = λ h j e.
      let (y, e', g) = i.backed h j e in
      elim (Text-cases j id) [
        | inl same ↦ some_none (s.sessions j) y e' (ap s.sessions same ∙ nothing)
        | inr apart ↦ (y, delete_key-other id s.sessions j apart ∙ e', g)
      ];
}

pub delete-IsIndexed :
    (id : String) (s : SessionStore) → IsIndexed s → IsIndexed (delete_session id s)
unfolding delete_session
delete-IsIndexed id s i = elim (Option-cases (s.sessions id)) [
  | inl nothing ↦ rw nothing (nothing-IsIndexed id s nothing i)
  | inr (x, there) ↦ rw (there, i.filled id x there) (drop-IsIndexed id x s there i)
]
