-- ===== src/Order/History/Writes.antt =====
-- The two writes that touch the orders and their logs: a creation, and a transition.
use mathlib.Core.Path.{subst}
use mesh_cart.Base.{
  ◌≡◌, refl, sym, ap, ◌∙◌, inl, inr, List, [], ◌∷◌, ◌++◌, true, false, none, some, if◌then◌else◌,
  Bool-cases, arith,
}
use mesh_cart.Base.Int.{ℤ, pos, eq_ℤ, eq_ℤ→eq, eq_ℤ-refl, eq_ℤ-comm}
use mesh_cart.Base.Lists.{any, find, update_where, All, All-imp, All-append}
use mesh_cart.Base.Rows.{any-append, any-update_where}
use mesh_cart.Order.Model.{Order, OrderStatusLog}
use mesh_cart.Order.Tables.{has_order_id, is_order_in}
use mesh_cart.Order.History.{
  is_edge, history, UniqueOrders, IsLogged, history-append, history-unknown,
}

-- A log of an order that is not there would be known.
no_logs :
    (k : ℤ) (os : List Order) (ls : List OrderStatusLog)
    → All (λ l. any (has_order_id l.order_id) os ≡ true) ls
    → any (has_order_id k) os ≡ false
    → any (λ l. eq_ℤ l.order_id k) ls ≡ false
no_logs k os [] a h = refl
no_logs k os (l ∷ ls) a h = elim (Bool-cases (eq_ℤ l.order_id k)) [
  | inr off ↦ ground (arith, no_logs k os ls a.1)
  | inl on ↦
      let there = subst (λ j. any (has_order_id j) os ≡ true) (eq_ℤ→eq l.order_id k on) a.0 in
      absurd (ground arith)
]

told_append :
    (l : OrderStatusLog) (ls : List OrderStatusLog) (os : List Order)
    → any (has_order_id l.order_id) os ≡ false
    → All (λ o. history o.order_id (pos 0) ls ≡ some o.status) os
    → All (λ o. history o.order_id (pos 0) (ls ++ l ∷ []) ≡ some o.status) os
told_append l ls [] h a = tt
told_append l ls (o ∷ os) h a = (
  history-append o.order_id (pos 0) o.status ls (l ∷ []) a.0
      ∙ ground (arith, eq_ℤ-comm l.order_id o.order_id),
  told_append l ls os (ground arith) a.1,
)

UniqueOrders-append :
    (os : List Order) (o : Order)
    → any (has_order_id o.order_id) os ≡ false
    → UniqueOrders os
    → UniqueOrders (os ++ o ∷ [])
UniqueOrders-append [] o h u = (refl, tt)
UniqueOrders-append (x ∷ os) o h u = (
  ground (arith, any-append (has_order_id x.order_id) os (o ∷ []), eq_ℤ-comm x.order_id o.order_id),
  UniqueOrders-append os o (ground arith) u.1,
)

pub created_Logged :
    (os : List Order) (ls : List OrderStatusLog) (o : Order) (l : OrderStatusLog)
    → IsLogged os ls
    → any (has_order_id o.order_id) os ≡ false
    → l.order_id ≡ o.order_id
    → l.from_status ≡ pos 0
    → l.to_status ≡ o.status
    → is_edge (pos 0) o.status ≡ true
    → IsLogged (os ++ o ∷ []) (ls ++ l ∷ [])
created_Logged os ls o l g fresh of_order from to edge = record {
  told = All-append _ os (o ∷ []) (told_append l ls os (rw (of_order, fresh)) g.told) (
    history-append o.order_id (pos 0) (pos 0) ls (l ∷ [])
          (history-unknown o.order_id (pos 0) ls (no_logs o.order_id os ls g.known fresh))
        ∙ rw (of_order, eq_ℤ-refl o.order_id, from, to, edge, eq_ℤ-refl (pos 0)),
    tt,
  );
  unique = UniqueOrders-append os o fresh g.unique;
  known =
      All-append _ ls (l ∷ [])
        (All-imp _ (λ m. any (has_order_id m.order_id) (os ++ o ∷ []) ≡ true)
          (λ m h. ground (arith, any-append (has_order_id m.order_id) os (o ∷ []))) ls g.known)
        (
          ground (arith, any-append (has_order_id l.order_id) os (o ∷ []), eq_ℤ-refl o.order_id),
          tt,
        );
}

-- The order that a condition on its id and more finds has the status of each order with the id.
found_status :
    (k : ℤ) (froms : List ℤ) (os : List Order) (o : Order)
    → UniqueOrders os
    → find (is_order_in k froms) os ≡ some o
    → All (λ x. has_order_id k x ≡ true → x.status ≡ o.status) os
found_status k froms [] o u e = tt
found_status k froms (x ∷ os) o u e = elim (Bool-cases (has_order_id k x)) [
  | inr off ↦ ((λ on. cc), found_status k froms os o u.1 (ground arith))
  | inl on ↦
      let none_more : any (has_order_id k) os ≡ false =
        subst (λ j. any (has_order_id j) os ≡ false) (eq_ℤ→eq x.order_id k on) u.0 in
      ((λ _. first (nowhere os none_more)), apart os none_more)
]
  where
    nowhere :
        (ys : List Order) → any (has_order_id k) ys ≡ false → find (is_order_in k froms) ys ≡ none
    nowhere = elim [ [] ↦ λ h. refl | y ∷ (ys → ih) ↦ λ h. ground (arith, ih) ]

    first : find (is_order_in k froms) os ≡ none → x.status ≡ o.status
    first n = ground arith

    apart :
        (ys : List Order)
        → any (has_order_id k) ys ≡ false
        → All (λ x. has_order_id k x ≡ true → x.status ≡ o.status) ys
    apart = elim [
      | [] ↦ λ h. tt
      | y ∷ (ys → ih) ↦ λ h. ((λ on. absurd (ground arith)), ih (ground arith))
    ]

module _ (l : OrderStatusLog) (f : Order → Order)
    (keeps : (x : Order) → (f x).order_id ≡ x.order_id)
    (sets : (x : Order) → (f x).status ≡ l.to_status)
    (edge : is_edge l.from_status l.to_status ≡ true) where
  told_moved :
      (ls : List OrderStatusLog) (os : List Order)
      → All (λ o. history o.order_id (pos 0) ls ≡ some o.status) os
      → All (λ x. has_order_id l.order_id x ≡ true → x.status ≡ l.from_status) os
      → All
          (λ o. history o.order_id (pos 0) (ls ++ l ∷ []) ≡ some o.status)
          (update_where (has_order_id l.order_id) f os)
  told_moved ls [] a b = tt
  told_moved ls (o ∷ os) a b = elim (Bool-cases (has_order_id l.order_id o)) [
    | inr off ↦ (
      rw (off) (
          history-append o.order_id (pos 0) o.status ls (l ∷ []) a.0
          ∙ ground (arith, eq_ℤ-comm l.order_id o.order_id)),
      told_moved ls os a.1 b.1,
    )
    | inl on ↦ (
      rw (on, keeps o, sets o)
          (history-append o.order_id (pos 0) o.status ls (l ∷ []) a.0
            ∙ rw (eq_ℤ-comm l.order_id o.order_id, on, b.0 on, eq_ℤ-refl l.from_status, edge)),
      told_moved ls os a.1 b.1,
    )
  ]

  UniqueOrders-moved :
      (k : ℤ) (os : List Order)
      → UniqueOrders os
      → UniqueOrders (update_where (has_order_id k) f os)
  UniqueOrders-moved k [] u = tt
  UniqueOrders-moved k (o ∷ os) u = (same ∙ u.0, UniqueOrders-moved k os u.1)
    where
      same :
          any
            (has_order_id (if has_order_id k o then f o else o).order_id)
            (update_where (has_order_id k) f os)
          ≡ any (has_order_id o.order_id) os
      same = elim (Bool-cases (has_order_id k o)) [
        | inl on ↦ rw (
          on,
          keeps o,
          any-update_where (has_order_id o.order_id) (has_order_id k) f
              (λ x. ap (λ j. eq_ℤ j o.order_id) (keeps x)) os,
        )
        | inr off ↦ rw (
          off,
          any-update_where (has_order_id o.order_id) (has_order_id k) f
              (λ x. ap (λ j. eq_ℤ j o.order_id) (keeps x)) os,
        )
      ]

  pub moved_Logged :
      (os : List Order) (ls : List OrderStatusLog) (o : Order) (froms : List ℤ)
      → IsLogged os ls
      → find (is_order_in l.order_id froms) os ≡ some o
      → l.from_status ≡ o.status
      → any (has_order_id l.order_id) os ≡ true
      → IsLogged (update_where (has_order_id l.order_id) f os) (ls ++ l ∷ [])
  moved_Logged os ls o froms g e from there = record {
    told = told_moved ls os g.told (
        All-imp _ (λ x. has_order_id l.order_id x ≡ true → x.status ≡ l.from_status)
          (λ x h on. h on ∙ sym from) os (found_status l.order_id froms os o g.unique e));
    unique = UniqueOrders-moved l.order_id os g.unique;
    known =
        All-append _ ls (l ∷ [])
          (All-imp _
            (λ m.
              any (has_order_id m.order_id) (update_where (has_order_id l.order_id) f os) ≡ true)
            (λ m h. kept m.order_id ∙ h) ls g.known)
          (kept l.order_id ∙ there, tt);
  }
    where
      kept :
          (k : ℤ)
          → any (has_order_id k) (update_where (has_order_id l.order_id) f os)
            ≡ any (has_order_id k) os
      kept k =
          any-update_where (has_order_id k) (has_order_id l.order_id) f
            (λ x. ap (λ j. eq_ℤ j k) (keeps x)) os
