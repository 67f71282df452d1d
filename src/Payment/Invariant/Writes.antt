-- ===== src/Payment/Invariant/Writes.antt =====
-- The two writes that touch the payments and their events: a creation, and a transition.
use mathlib.Core.Path.{subst}
use mesh_cart.Base.{
  ◌+◌, ◌≡◌, refl, ap, ◌∙◌, inl, inr, List, [], ◌∷◌, ◌++◌, true, false, Option, none, some, ◌&&◌,
  if◌then◌else◌, Bool-cases, arith,
}
use mesh_cart.Base.Int.{ℤ, pos, eq_ℤ, eq_ℤ→eq, eq_ℤ-comm}
use mesh_cart.Base.Lists.{any, update_where, All, All-imp, All-append, All-update_where}
use mesh_cart.Base.Rows.{any-append, any-update_where}
use mesh_cart.Base.Unique.{UniqueBy-append, UniqueBy-update}
use mesh_cart.Payment.Model.{Payment, PaymentOutbox}
use mesh_cart.Payment.Tables.{has_payment_id, has_active}
use mesh_cart.Payment.Invariant.{
  id_of, is_pending, is_succeeded, told_id, is_id, events, Single, is_known, IsSound,
}

events-append :
    (k : ℤ) (rs ss : List PaymentOutbox) → events k (rs ++ ss) ≡ events k rs + events k ss
events-append k [] ss = omega arith
events-append k (r ∷ rs) ss = ground (arith, events-append k rs ss)

-- An event of a payment that is not there would be known.
no_events :
    (k : ℤ) (ps : List Payment) (rs : List PaymentOutbox)
    → All (λ r. is_known ps (told_id r.body) ≡ true) rs
    → any (has_payment_id k) ps ≡ false
    → events k rs ≡ 0
no_events k ps [] a h = refl
no_events k ps (r ∷ rs) a h =
    let off = of_other (told_id r.body) a.0 in rw off (no_events k ps rs a.1 h)
  where
    of_other : (o : Option ℤ) → is_known ps o ≡ true → is_id k o ≡ false
    of_other none e = refl
    of_other (some j) e = elim (Bool-cases (eq_ℤ j k)) [
      | inr off ↦ off
      | inl on ↦
          let there = subst (λ i. any (has_payment_id i) ps ≡ true) (eq_ℤ→eq j k on) e in
          absurd (ground arith)
    ]

is_known-append :
    (ps : List Payment) (p : Payment) (o : Option ℤ)
    → is_known ps o ≡ true
    → is_known (ps ++ p ∷ []) o ≡ true
is_known-append ps p none h = refl
is_known-append ps p (some k) h = ground (arith, any-append (has_payment_id k) ps (p ∷ []))

Single-append :
    (ps : List Payment) (p : Payment)
    → All (λ x. x.active_order_id ≡ (if is_pending x then some x.order_id else none)) ps
    → any (has_active p.order_id) ps ≡ false
    → Single ps
    → Single (ps ++ p ∷ [])
Single-append [] p a h s = ((λ _. refl), tt)
Single-append (x ∷ ps) p a h s = (
  (λ on. ground (
    arith,
    s.0 on,
    a.0,
    any-append (λ y. is_pending y && eq_ℤ y.order_id x.order_id) ps (p ∷ []),
    eq_ℤ-comm x.order_id p.order_id,
  )),
  Single-append ps p a.1 (ground arith) s.1,
)

pub created_Sound :
    (ps : List Payment) (os : List PaymentOutbox) (p : Payment)
    → IsSound ps os
    → any (has_payment_id p.payment_id) ps ≡ false
    → any (has_active p.order_id) ps ≡ false
    → p.status ≡ pos 1
    → p.active_order_id ≡ some p.order_id
    → IsSound (ps ++ p ∷ []) os
unfolding eq_ℤ
created_Sound ps os p g fresh free status active = record {
  active = All-append _ ps (p ∷ []) g.active (active ∙ ground arith, tt);
  unique = UniqueBy-append id_of ps p fresh g.unique;
  single = Single-append ps p g.active free g.single;
  told =
      All-append _ ps (p ∷ []) g.told
        (no_events p.payment_id ps os g.known fresh ∙ ground arith, tt);
  known =
      All-imp _ (λ r. is_known (ps ++ p ∷ []) (told_id r.body) ≡ true)
        (λ r h. is_known-append ps p (told_id r.body) h) os g.known;
}

module _ (k : ℤ) (to : ℤ) (f : Payment → Payment) (rs : List PaymentOutbox)
    (keeps : (x : Payment) → (f x).payment_id ≡ x.payment_id)
    (order : (x : Payment) → (f x).order_id ≡ x.order_id)
    (inactive : (x : Payment) → (f x).active_order_id ≡ none)
    (sets : (x : Payment) → (f x).status ≡ to) (leaves : eq_ℤ to (pos 1) ≡ false)
    (added : (j : ℤ) → events j rs ≡ (if eq_ℤ k j then (if eq_ℤ to (pos 2) then 1 else 0) else 0))
    (tells : All (λ r. told_id r.body ≡ some k) rs) where
  fewer_pending :
      (j : ℤ) (ps : List Payment)
      → any (λ x. is_pending x && eq_ℤ x.order_id j) ps ≡ false
      → any (λ x. is_pending x && eq_ℤ x.order_id j) (update_where (has_payment_id k) f ps) ≡ false
  fewer_pending j [] h = refl
  fewer_pending j (x ∷ ps) h =
      let rest = fewer_pending j ps (ground arith) in
      elim (Bool-cases (has_payment_id k x)) [
        | inl on ↦ rw (on, sets x, leaves) rest
        | inr off ↦ rw off (ground arith)
      ]

  Single-moved : (ps : List Payment) → Single ps → Single (update_where (has_payment_id k) f ps)
  Single-moved [] s = tt
  Single-moved (x ∷ ps) s = (first, Single-moved ps s.1)
    where
      first :
          is_pending (if has_payment_id k x then f x else x) ≡ true
          → any
              (λ y.
                is_pending y && eq_ℤ y.order_id (if has_payment_id k x then f x else x).order_id)
              (update_where (has_payment_id k) f ps)
            ≡ false
      first = elim (Bool-cases (has_payment_id k x)) [
        | inl on ↦ rw (on, sets x, leaves) (λ no. cc)
        | inr off ↦ rw off (λ yet. fewer_pending x.order_id ps (s.0 yet))
      ]

  told_moved :
      (ps : List Payment) (os : List PaymentOutbox)
      → All (λ p. events p.payment_id os ≡ (if is_succeeded p then 1 else 0)) ps
      → All (λ p. has_payment_id k p ≡ true → eq_ℤ p.status (pos 2) ≡ false) ps
      → All
          (λ p. events p.payment_id (os ++ rs) ≡ (if is_succeeded p then 1 else 0))
          (update_where (has_payment_id k) f ps)
  told_moved [] os a b = tt
  told_moved (x ∷ ps) os a b = (first, told_moved ps os a.1 b.1)
    where
      first :
          let y = if has_payment_id k x then f x else x in
          events y.payment_id (os ++ rs) ≡ (if is_succeeded y then 1 else 0)
      first = elim (Bool-cases (has_payment_id k x)) [
        | inl on ↦
            let none_yet : events x.payment_id os ≡ 0 = a.0 ∙ rw (b.0 on) in
            rw (on, keeps x, sets x)
              (events-append x.payment_id os rs
                ∙ ground (arith, none_yet, added x.payment_id, eq_ℤ-comm k x.payment_id))
        | inr off ↦ rw off (
            events-append x.payment_id os rs
            ∙ ground (arith, a.0, added x.payment_id, eq_ℤ-comm k x.payment_id))
      ]

  known_moved :
      (ps : List Payment) (o : Option ℤ)
      → is_known ps o ≡ true
      → is_known (update_where (has_payment_id k) f ps) o ≡ true
  known_moved ps none h = refl
  known_moved ps (some j) h =
      any-update_where (has_payment_id j) (has_payment_id k) f (λ x. ap (λ i. eq_ℤ i j) (keeps x))
        ps
      ∙ h

  pub moved_Sound :
      (ps : List Payment) (os : List PaymentOutbox)
      → IsSound ps os
      → All (λ x. has_payment_id k x ≡ true → eq_ℤ x.status (pos 2) ≡ false) ps
      → any (has_payment_id k) ps ≡ true
      → IsSound (update_where (has_payment_id k) f ps) (os ++ rs)
  moved_Sound ps os g before there = record {
    active =
        All-update_where _ (has_payment_id k) f (λ x on h. inactive x ∙ rw (sets x, leaves)) ps
          g.active;
    unique = UniqueBy-update id_of (has_payment_id k) f keeps ps g.unique;
    single = Single-moved ps g.single;
    told = told_moved ps os g.told before;
    known =
        All-append _ os rs
          (All-imp _ (λ r. is_known (update_where (has_payment_id k) f ps) (told_id r.body) ≡ true)
            (λ r h. known_moved ps (told_id r.body) h) os g.known)
          (All-imp _ (λ r. is_known (update_where (has_payment_id k) f ps) (told_id r.body) ≡ true)
            (λ r h. rw h (known_moved ps (some k) there)) rs tells);
  }
