-- ===== src/Order/Repeats.antt =====
-- A request whose key is on record does nothing: the order service's idempotency.
pub mod Requests
use mesh_cart.Base.{
  ◌≡◌, refl, sym, ap, ◌∙◌, String, List, [], ◌∷◌, ◌++◌, Bool, true, false, Option, none, some, ◌||◌,
  if◌then◌else◌, arith,
}
use mesh_cart.Base.Int.{ℤ, pos, eq_ℤ, leb_ℤ}
use mesh_cart.Base.Lists.{any, find, is_empty}
use mesh_cart.Base.Rows.{any-find, find-true}
use mesh_cart.Base.Text.{trim_space, is_blank, str_eq}
use mesh_cart.Sql.{
  Fault, World, Query, Result, ok, err, duplicate_key, pure, raise, ◌>>=◌, ◌>>◌, statement, map_err,
  attempt,
}
use mesh_cart.Sql.Hoare.{
  Leaves, Leaves-bind, Leaves-given, Leaves-Keeps, Leaves-if, Ensures-Keeps, OnRows, Ensures,
  Ensures-bind, Ensures-if, Ensures-pure, Ensures-raise, Ensures-map_err, Ensures-statement,
  Ensures-raise_if, Ensures-weaken, Ensures-given, Ensures-attempt, Ensures-any_id,
  Ensures-take_row, Keeps, Keeps-pure, Keeps-raise, Keeps-bind, Keeps-if, Keeps-map_err,
  Keeps-statement, Keeps-raise_if, Keeps-take_row, Keeps-next_id, Keeps-attempt, Keeps-or_raise,
}
use mesh_cart.App.Errors.{BizError, order_idempotency_busy, order_state_conflict}
use mesh_cart.Order.Model.{
  OrderActionRecord, OrderDb, ActionStatus, action_pending, action_succeeded, action_failed,
  action_other,
}
use mesh_cart.Order.Errors.{
  OrderError, order_missing, invalid_order, state_conflict, action_record_not_found,
  action_record_exists, driver,
}
use mesh_cart.Order.Tables.{is_action, insert_action}
use mesh_cart.Order.Orders.{get_by_id}
use mesh_cart.Order.Actions.{get_action_record, create_action_record}
use mesh_cart.Order.Service.{Handler, RpcOrder}
use mesh_cart.Order.Service.Records.{
  found_action, find_action_record, reuse_existing, created_or_existing,
  create_pending_action_record, resolve_existing, resolve_pending_action_record,
  load_order_by_action_record, pending_record,
}

abbrev is_some : {A : Type 0} → Option A → Bool
is_some none = false
is_some (some a) = true

module _ {S : Type 0} (t k : String) (known : OrderActionRecord) (before : OrderDb S)
    (on_record : find (is_action t k) before.action_records ≡ some known) where
  abbrev Same : OrderDb S → Type 0
  Same d = d ≡ before

  abbrev clashes : ℤ → OrderActionRecord → Bool
  clashes id x = eq_ℤ x.id id || is_action t k x

  taken : (id : ℤ) (d : OrderDb S) → Same d → any (clashes id) d.action_records ≡ true
  taken id d h =
      ap (λ e. any (clashes id) e.action_records) h
      ∙ any-find (clashes id) (is_action t k) before.action_records known on_record hit
    where
      hit : clashes id known ≡ true
      hit =
          let picked = find-true (is_action t k) before.action_records known on_record in
          ground arith

  clash-Same :
      (r : OrderActionRecord) → r.action_type ≡ t → r.action_key ≡ k → Keeps Same (insert_action r)
  unfolding insert_action
  clash-Same r et ek = Keeps-statement _ λ d h.
      stored d h
        (any (λ x. eq_ℤ x.id r.id || is_action r.action_type r.action_key x) d.action_records)
        (rw (et, ek, taken r.id d h))
    where
      stored :
          (d : OrderDb S)
          → Same d
          → (c : Bool) → c ≡ true
          → Same
              (if◌then◌else◌ {A = Result Fault Unit × OrderDb S} c
                (err duplicate_key, d)
                (ok tt, record d { action_records = d.action_records ++ r ∷ [] })).1
      stored d h true e = h
      stored d h false e = absurd (ground arith)

  clash_fails :
      (r : OrderActionRecord)
      → r.action_type ≡ t
      → r.action_key ≡ k
      → Ensures Same (insert_action r) (λ _ _. ⊥)
  unfolding insert_action
  clash_fails r et ek = Ensures-statement _ λ d h.
      stored d
        (any (λ x. eq_ℤ x.id r.id || is_action r.action_type r.action_key x) d.action_records)
        (rw (et, ek, taken r.id d h))
    where
      stored :
          (d : OrderDb S) (c : Bool)
          → c ≡ true
          → OnRows
              (λ _ _. ⊥)
              (if c
                then (err duplicate_key, d)
                else (ok tt, record d { action_records = d.action_records ++ r ∷ [] }))
      stored d true e = tt
      stored d false e = absurd (ground arith)

  created-Same :
      (r : OrderActionRecord)
      → r.action_type ≡ t
      → r.action_key ≡ k
      → Keeps Same (create_action_record r)
  unfolding create_action_record
  created-Same r et ek = Keeps-bind (Keeps-raise_if _ _) λ _. Keeps-map_err _ (clash-Same r et ek)

  creation_fails :
      (r : OrderActionRecord)
      → r.action_type ≡ t
      → r.action_key ≡ k
      → Ensures Same (create_action_record r) (λ _ _. ⊥)
  unfolding create_action_record
  creation_fails r et ek =
      Ensures-bind (λ _. Same) (Ensures-weaken (λ d h. h) (λ _ d h. h.0) (Ensures-raise_if _ _))
        λ _. Ensures-map_err _ (clash_fails r et ek)

  -- What is handed on is the record of the other request, and is not to be done again.
  abbrev Reused : Option OrderActionRecord × Bool → OrderDb S → Type 0
  Reused p d = Same d × (p.1 ≡ false) × (is_some p.0 ≡ true)

  looked-Same : (a b : String) → Keeps Same (find_action_record a b)
  unfolding find_action_record get_action_record
  looked-Same a b = Keeps-bind (Keeps-attempt (Keeps-map_err _ (Keeps-take_row _))) found
    where
      found : (r : Result OrderError OrderActionRecord) → Keeps Same (found_action r)
      found (ok r) = Keeps-pure _
      found (err action_record_not_found) = Keeps-pure _
      found (err order_missing) = Keeps-raise _
      found (err invalid_order) = Keeps-raise _
      found (err state_conflict) = Keeps-raise _
      found (err action_record_exists) = Keeps-raise _
      found (err (driver f)) = Keeps-raise _

  reuse-Same : (o : Option OrderActionRecord) → Keeps Same (reuse_existing o)
  unfolding reuse_existing
  reuse-Same none = Keeps-raise _
  reuse-Same (some r) = Keeps-pure _

  reuse_Reused : (o : Option OrderActionRecord) → Ensures Same (reuse_existing o) Reused
  unfolding reuse_existing
  reuse_Reused none = Ensures-raise _
  reuse_Reused (some r) = Ensures-pure _ λ d h. (h, refl, refl)

  existing-Same :
      (r : OrderActionRecord) (o : Result OrderError Unit) → Keeps Same (created_or_existing r o)
  unfolding created_or_existing
  existing-Same r (ok _) = Keeps-pure _
  existing-Same r (err action_record_exists) = Keeps-bind (looked-Same _ _) reuse-Same
  existing-Same r (err order_missing) = Keeps-raise _
  existing-Same r (err invalid_order) = Keeps-raise _
  existing-Same r (err state_conflict) = Keeps-raise _
  existing-Same r (err action_record_not_found) = Keeps-raise _
  existing-Same r (err (driver f)) = Keeps-raise _

  abbrev is_failure : Result OrderError Unit → Bool
  is_failure (ok _) = false
  is_failure (err e) = true

  existing_Reused :
      (r : OrderActionRecord) (o : Result OrderError Unit)
      → is_failure o ≡ true
      → Ensures Same (created_or_existing r o) Reused
  unfolding created_or_existing
  existing_Reused r (ok _) e = absurd (ground arith)
  existing_Reused r (err action_record_exists) e =
      Ensures-bind (λ _. Same) (Ensures-Keeps (looked-Same _ _)) reuse_Reused
  existing_Reused r (err order_missing) e = Ensures-raise _
  existing_Reused r (err invalid_order) e = Ensures-raise _
  existing_Reused r (err state_conflict) e = Ensures-raise _
  existing_Reused r (err action_record_not_found) e = Ensures-raise _
  existing_Reused r (err (driver f)) e = Ensures-raise _

  module _ (order_id user_id : ℤ) where
    pending-Same : Keeps Same (create_pending_action_record t k order_id user_id)
    unfolding create_pending_action_record
    pending-Same = Keeps-if _ (Keeps-pure _) (
        Keeps-bind Keeps-next_id λ id.
          Keeps-bind
            (Keeps-attempt (created-Same (pending_record id t k order_id user_id) refl refl))
            (existing-Same _))

    pending_Reused :
        is_blank (trim_space k) ≡ false
        → Ensures Same (create_pending_action_record t k order_id user_id) Reused
    unfolding create_pending_action_record
    pending_Reused filled =
        Ensures-if (is_blank (trim_space k)) (λ e. absurd (ground arith))
          λ _.
            Ensures-bind (λ _. Same) (Ensures-Keeps Keeps-next_id)
              λ id.
                let r = pending_record id t k order_id user_id in
                Ensures-bind (λ o d. Same d × (is_failure o ≡ true))
                  (Ensures-attempt (λ o d. Same d × (is_failure o ≡ true))
                    (created-Same r refl refl)
                    (Ensures-weaken (λ d h. h) (λ _ d no. absurd no) (creation_fails r refl refl))
                    (λ e d h. (h, refl)))
                  λ o. Ensures-given λ e. existing_Reused r o e

    resolve_existing-Same : (p : Option OrderActionRecord × Bool) → Keeps Same (resolve_existing p)
    unfolding resolve_existing
    resolve_existing-Same (r, true) = Keeps-pure _
    resolve_existing-Same (none, false) = Keeps-pure _
    resolve_existing-Same (some r, false) = by_status r.status
      where
        by_status :
            (s : ActionStatus)
            → Keeps Same (elim s as (λ _. Handler S (Option OrderActionRecord × Bool)) [
              | action_succeeded ↦ pure (some r, false)
              | action_pending ↦ raise order_idempotency_busy
              | action_failed ↦ raise order_state_conflict
              | action_other _ ↦ raise order_state_conflict
            ])
        by_status action_succeeded = Keeps-pure _
        by_status action_pending = Keeps-raise _
        by_status action_failed = Keeps-raise _
        by_status (action_other _) = Keeps-raise _

    resolve_existing_done :
        (p : Option OrderActionRecord × Bool)
        → p.1 ≡ false
        → is_some p.0 ≡ true
        → Ensures Same (resolve_existing p) (λ q d. Same d × (q.1 ≡ false))
    unfolding resolve_existing
    resolve_existing_done (r, true) e f = absurd (ground arith)
    resolve_existing_done (none, false) e f = absurd (ground arith)
    resolve_existing_done (some r, false) e f = by_status r.status
      where
        by_status :
            (s : ActionStatus)
            → Ensures Same
                (elim s as (λ _. Handler S (Option OrderActionRecord × Bool)) [
                  | action_succeeded ↦ pure (some r, false)
                  | action_pending ↦ raise order_idempotency_busy
                  | action_failed ↦ raise order_state_conflict
                  | action_other _ ↦ raise order_state_conflict
                ])
                (λ q d. Same d × (q.1 ≡ false))
        by_status action_succeeded = Ensures-pure _ λ d h. (h, refl)
        by_status action_pending = Ensures-raise _
        by_status action_failed = Ensures-raise _
        by_status (action_other _) = Ensures-raise _

    loaded-Same : (r : Option OrderActionRecord) → Keeps Same (load_order_by_action_record r)
    unfolding load_order_by_action_record get_by_id
    loaded-Same none = Keeps-raise _
    loaded-Same (some r) =
        Keeps-if _ (Keeps-raise _)
          (Keeps-bind (Keeps-map_err _ (Keeps-map_err _ (Keeps-take_row _))) λ _. Keeps-pure _)

    -- What each handler does once it has its key.
    pub reused_Leaves :
        is_blank (trim_space k) ≡ false
        → (go : Option OrderActionRecord → Handler S RpcOrder)
        → Leaves Same
            (resolve_pending_action_record t k order_id user_id >>= λ r.
              if r.1 then go r.0 else load_order_by_action_record r.0)
            Same
    unfolding resolve_pending_action_record
    reused_Leaves filled go =
        Leaves-bind (Keeps-bind pending-Same resolve_existing-Same) (λ d h. h)
          (Ensures-bind Reused (pending_Reused filled) λ p.
            Ensures-weaken (λ d (h, e, f). (h, (e, f))) (λ _ d q. q)
              (Ensures-given λ (e, f). resolve_existing_done p e f))
          λ r. Leaves-given λ e. rw e (Leaves-Keeps Same (λ d h. h) (λ d h. h) (loaded-Same r.0))
