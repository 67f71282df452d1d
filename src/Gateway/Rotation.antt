-- ===== src/Gateway/Rotation.antt =====
-- A rotation keeps the index, and what the index finds.
use mathlib.Core.Path.{subst}
use mesh_cart.Base.{
  ◌≡◌, ◌↔◌, sym, ap, ◌∙◌, inl, inr, String, false, none, some, Option-cases, arith,
}
use mesh_cart.Base.Text.{is_blank}
use mesh_cart.Base.TextMaps.{
  Text-cases, put_key, delete_key, put_key-same, put_key-other, put_key-cases, delete_key-other,
  delete_key-some, str_eq_refl,
}
use mesh_cart.Sql.{ok}
use mesh_cart.Gateway.Session.{
  Session, SessionStore, get_session, get_by_refresh_token_hash, Rotation, rotated, rotate,
  rotate_found,
}
use mesh_cart.Gateway.Index.{IsIndexed, some-inj, some_none, apart_self}

-- A token that is new takes the place of the session's.
turn-IsIndexed :
    (id : String) (x : Session) (r : Rotation) (s : SessionStore)
    → s.sessions id ≡ some x
    → s.refresh_index r.next_hash ≡ none
    → is_blank r.next_hash ≡ false
    → IsIndexed s
    → IsIndexed (record {
      sessions = put_key id (rotated r x) s.sessions;
      refresh_index = put_key r.next_hash id (delete_key x.refresh_token_hash s.refresh_index);
    })
turn-IsIndexed id x r s there new_hash fine i =
    let rest = delete_key x.refresh_token_hash s.refresh_index in
    let index = put_key r.next_hash id rest in
    record {
      named = λ j y e. elim (put_key-cases id (rotated r x) s.sessions j (some y) e) [
        | inl (at, f) ↦
            ap (λ z. z.session_id) (sym (some-inj (rotated r x) y f)) ∙ i.named id x there ∙ sym at
        | inr (off, f) ↦ i.named j y f
      ];
      filled = λ j y e. elim (put_key-cases id (rotated r x) s.sessions j (some y) e) [
        | inl (at, f) ↦
            subst (λ z. is_blank z.refresh_token_hash ≡ false) (some-inj (rotated r x) y f) fine
        | inr (off, f) ↦ i.filled j y f
      ];
      indexed = λ j y e. elim (put_key-cases id (rotated r x) s.sessions j (some y) e) [
        | inl (at, f) ↦
            subst (λ z. index z.refresh_token_hash ≡ some j) (some-inj (rotated r x) y f)
              (put_key-same r.next_hash id rest ∙ ap some (sym at))
        | inr (off, f) ↦ elim (Text-cases y.refresh_token_hash r.next_hash) [
          | inl same ↦
              some_none (s.refresh_index y.refresh_token_hash) j (i.indexed j y f)
                (ap s.refresh_index same ∙ new_hash)
          | inr apart ↦ elim (Text-cases y.refresh_token_hash x.refresh_token_hash) [
            | inl same ↦ absurd (
                apart_self
                  (some-inj j id
                    (sym (i.indexed j y f) ∙ ap s.refresh_index same ∙ i.indexed id x there))
                  off)
            | inr far ↦
                put_key-other r.next_hash id rest y.refresh_token_hash apart
                ∙ delete_key-other x.refresh_token_hash s.refresh_index y.refresh_token_hash far
                ∙ i.indexed j y f
          ]
        ]
      ];
      backed = λ h j e. elim (put_key-cases r.next_hash id rest h (some j) e) [
        | inl (at, f) ↦ (
          rotated r x,
          subst (λ k. put_key id (rotated r x) s.sessions k ≡ some (rotated r x)) (some-inj id j f)
              (put_key-same id (rotated r x) s.sessions),
          sym at,
        )
        | inr (off, f) ↦
            let (far, f') = delete_key-some x.refresh_token_hash s.refresh_index h j f in
            let (y, e', g) = i.backed h j f' in
            elim (Text-cases j id) [
              | inl same ↦
                  let it = some-inj y x (sym e' ∙ ap s.sessions same ∙ there) in
                  absurd (apart_self (sym g ∙ ap (λ z. z.refresh_token_hash) it) far)
              | inr apart ↦ (y, put_key-other id (rotated r x) s.sessions j apart ∙ e', g)
            ]
      ];
    }

pub rotate-IsIndexed :
    (id current : String) (r : Rotation) (s : SessionStore)
    → s.refresh_index r.next_hash ≡ none
    → is_blank r.next_hash ≡ false
    → IsIndexed s
    → IsIndexed (rotate id current r s).1
unfolding rotate rotate_found
rotate-IsIndexed id current r s new_hash fine i = elim (Option-cases (s.sessions id)) [
  | inl nothing ↦ rw nothing i
  | inr (x, there) ↦ elim (Text-cases x.refresh_token_hash current) [
    | inr off ↦ rw (there, off) i
    | inl same ↦
        subst (λ o. IsIndexed (rotate_found id current r s o).1) (sym there)
          (subst (λ h. IsIndexed (rotate_found id h r s (some x)).1) same
            (rw (str_eq_refl x.refresh_token_hash) (turn-IsIndexed id x r s there new_hash fine i)))
  ]
]

-- Where the index of a session store and its sessions tell the same, looking up a token's hash
-- answers a session exactly when looking up the session's id answers it and the hash is its
-- token's.
pub get_by_refresh_token_hash_iff :
    (s : SessionStore) (h : String) (x : Session)
    → IsIndexed s
    → (get_by_refresh_token_hash h s ≡ ok x)
      ↔ ((get_session x.session_id s ≡ ok x) × (x.refresh_token_hash ≡ h))
unfolding get_by_refresh_token_hash get_session
get_by_refresh_token_hash_iff s h x i = (to, of)
  where
    to :
        get_by_refresh_token_hash h s ≡ ok x
        → (get_session x.session_id s ≡ ok x) × (x.refresh_token_hash ≡ h)
    to e = elim (Option-cases (s.refresh_index h)) [
      | inl nothing ↦ absurd (ground arith)
      | inr (id, found) ↦
          let (y, there, g) = i.backed h id found in
          let same : y ≡ x = ground arith in
          subst (λ z. (get_session z.session_id s ≡ ok z) × (z.refresh_token_hash ≡ h)) same
            (subst (λ k. get_session k s ≡ ok y) (sym (i.named id y there)) (rw there), g)
    ]

    of :
        (get_session x.session_id s ≡ ok x) × (x.refresh_token_hash ≡ h)
        → get_by_refresh_token_hash h s ≡ ok x
    of (e, g) = elim (Option-cases (s.sessions x.session_id)) [
      | inl nothing ↦ absurd (ground arith)
      | inr (y, there) ↦
          let same : y ≡ x = ground arith in
          let found = i.indexed x.session_id y there in
          subst (λ k. get_by_refresh_token_hash k s ≡ ok x)
            (ap (λ z. z.refresh_token_hash) same ∙ g) (ground (arith, found))
    ]
