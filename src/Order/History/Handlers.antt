-- ===== src/Order/History/Handlers.antt =====
-- Every handler of the order service keeps the histories, whatever fails on the way and whatever
-- the services that it calls answer.
use mesh_cart.Base.{String, List, Bool, true, false, Option, none, some}
use mesh_cart.Base.Int.{ℤ, pos}
use mesh_cart.Sql.{Query, Result, ok, err, pure, raise}
use mesh_cart.Sql.Hoare.{
  Keeps, Keeps-pure, Keeps-raise, Keeps-bind, Keeps-if, Keeps-map_err, Keeps-attempt,
  Keeps-raise_if, Keeps-lift, Keeps-next_id,
}
use mesh_cart.App.Errors.{BizError, order_idempotency_busy, order_state_conflict}
use mesh_cart.Order.Model.{
  OrderStatusLog, OrderActionRecord, OrderDb, ActionStatus, action_pending, action_succeeded,
  action_failed, action_other,
}
use mesh_cart.Order.Errors.{
  OrderError, order_missing, invalid_order, state_conflict, action_record_not_found,
  action_record_exists, driver,
}
use mesh_cart.Order.Service.{Clients, Handler, call}
use mesh_cart.Order.Service.Items.{
  OrderItemInput, batch_get_active_products, validate_and_build_snapshots,
}
use mesh_cart.Order.Service.Records.{
  found_action, find_action_record, reuse_existing, created_or_existing,
  create_pending_action_record, resolve_existing, resolve_pending_action_record,
  mark_action_succeeded, mark_action_failed, fail_action, load_order_by_action_record,
  pending_record,
}
use mesh_cart.Order.History.{Grown}
use mesh_cart.Order.History.Tables.{
  get_by_id-Grown, get_action_record-Grown, create_action_record-Grown, mark-Grown,
}

module _ {S : Type 0} (earlier : List OrderStatusLog) where
  abbrev pub Stays : {E A : Type 0} → Query (OrderDb S) E A → Type 0
  Stays m = Keeps (Grown earlier) m

  pub call-Stays : {A : Type 0} (f : S → A × S) → Stays (call f)
  unfolding call
  call-Stays f = record { at = λ w h. h }

  find_action-Stays : (t k : String) → Stays (find_action_record t k)
  unfolding find_action_record
  find_action-Stays t k = Keeps-bind (Keeps-attempt (get_action_record-Grown earlier t k)) found
    where
      found : (r : Result OrderError OrderActionRecord) → Stays (found_action r)
      found (ok r) = Keeps-pure _
      found (err action_record_not_found) = Keeps-pure _
      found (err order_missing) = Keeps-raise _
      found (err invalid_order) = Keeps-raise _
      found (err state_conflict) = Keeps-raise _
      found (err action_record_exists) = Keeps-raise _
      found (err (driver f)) = Keeps-raise _

  create_pending-Stays :
      (t k : String) (order_id user_id : ℤ)
      → Stays (create_pending_action_record t k order_id user_id)
  unfolding create_pending_action_record created_or_existing reuse_existing
  create_pending-Stays t k order_id user_id = Keeps-if _ (Keeps-pure _) (
      Keeps-bind Keeps-next_id λ id.
        Keeps-bind
          (Keeps-attempt
            (create_action_record-Grown earlier (pending_record id t k order_id user_id)))
          (created (pending_record id t k order_id user_id)))
    where
      reuse : (r : Option OrderActionRecord) → Stays (reuse_existing r)
      reuse (some r) = Keeps-pure _
      reuse none = Keeps-raise _

      created :
          (r : OrderActionRecord) (o : Result OrderError Unit) → Stays (created_or_existing r o)
      created r (ok _) = Keeps-pure _
      created r (err action_record_exists) =
          Keeps-bind (find_action-Stays r.action_type r.action_key) reuse
      created r (err order_missing) = Keeps-raise _
      created r (err invalid_order) = Keeps-raise _
      created r (err state_conflict) = Keeps-raise _
      created r (err action_record_not_found) = Keeps-raise _
      created r (err (driver f)) = Keeps-raise _

  pub resolve-Stays :
      (t k : String) (order_id user_id : ℤ)
      → Stays (resolve_pending_action_record t k order_id user_id)
  unfolding resolve_pending_action_record resolve_existing
  resolve-Stays t k order_id user_id =
      Keeps-bind (create_pending-Stays t k order_id user_id) resolved
    where
      by_status :
          (r : OrderActionRecord) (s : ActionStatus)
          → Stays (elim s as (λ _. Handler S (Option OrderActionRecord × Bool)) [
            | action_succeeded ↦ pure (some r, false)
            | action_pending ↦ raise order_idempotency_busy
            | action_failed ↦ raise order_state_conflict
            | action_other _ ↦ raise order_state_conflict
          ])
      by_status r action_succeeded = Keeps-pure _
      by_status r action_pending = Keeps-raise _
      by_status r action_failed = Keeps-raise _
      by_status r (action_other _) = Keeps-raise _

      resolved : (r : Option OrderActionRecord × Bool) → Stays (resolve_existing r)
      resolved (r, true) = Keeps-pure _
      resolved (none, false) = Keeps-pure _
      resolved (some r, false) = by_status r r.status

  pub succeeded-Stays :
      (r : Option OrderActionRecord) (t k : String) (order_id : ℤ)
      → Stays (mark_action_succeeded r t k order_id)
  unfolding mark_action_succeeded
  succeeded-Stays r t k order_id =
      Keeps-if _ (Keeps-pure _)
        (Keeps-bind (Keeps-attempt (mark-Grown earlier _ _ t k order_id).0) λ _. Keeps-pure _)

  pub fail-Stays :
      {A : Type 0} (r : Option OrderActionRecord) (t k : String) (e : BizError)
      → Stays (fail_action {A = A} r t k e)
  unfolding fail_action mark_action_failed
  fail-Stays r t k e =
      Keeps-bind
        (Keeps-if _ (Keeps-pure _)
          (Keeps-bind (Keeps-attempt (mark-Grown earlier _ _ t k (pos 0)).1) λ _. Keeps-pure _))
        λ _. Keeps-raise _

  pub load-Stays : (r : Option OrderActionRecord) → Stays (load_order_by_action_record r)
  unfolding load_order_by_action_record
  load-Stays none = Keeps-raise _
  load-Stays (some r) =
      Keeps-if _ (Keeps-raise _)
        (Keeps-bind (Keeps-map_err _ (get_by_id-Grown earlier r.order_id)) λ _. Keeps-pure _)

  -- What follows the answer of the inventory service.
  pub answered-Stays :
      {A : Type 0} (o : Option BizError) {failed : BizError → Handler S A} {go : Handler S A}
      → ((e : BizError) → Stays (failed e))
      → Stays go
      → Stays (elim o [ some e ↦ failed e | none ↦ go ])
  answered-Stays none f g = g
  answered-Stays (some e) f g = f e

  pub validate-Stays :
      (clients : Clients S) (items : List (Option OrderItemInput))
      → Stays (validate_and_build_snapshots clients items)
  unfolding validate_and_build_snapshots batch_get_active_products
  validate-Stays clients items = Keeps-bind (Keeps-lift _) λ requested.
      Keeps-bind (call-Stays _) λ reply. Keeps-bind (Keeps-lift _) λ skus.
        Keeps-bind (Keeps-lift _) λ found. Keeps-bind (Keeps-raise_if _ _) λ _.
          Keeps-bind
            (Keeps-if _ (Keeps-pure _) (
              Keeps-bind (call-Stays _) λ r.
                Keeps-bind (Keeps-lift _) λ ps. Keeps-bind (Keeps-raise_if _ _) λ _. Keeps-lift _))
            λ products. Keeps-bind (Keeps-lift _) λ built. Keeps-pure _
