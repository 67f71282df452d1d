-- ===== src/Order/History/Requests.antt =====
-- Each request to the order service keeps the histories.
use mesh_cart.Base.{◌≡◌, refl, String, List, [], ◌∷◌, true, Option, not, ◌||◌, ◌&&◌, arith}
use mesh_cart.Base.Int.{ℤ, pos, eq_ℤ}
use mesh_cart.Sql.{Query, Result, ok, err}
use mesh_cart.Sql.Hoare.{
  Keeps-pure, Keeps-raise, Keeps-bind, Keeps-if, Keeps-map_err, Keeps-attempt, Keeps-or_raise,
  Keeps-next_id,
}
use mesh_cart.App.Errors.{BizError, order_state_conflict, order_payment_conflict}
use mesh_cart.App.Time.{Time, before, is_zero}
use mesh_cart.Inventory.Items.{ReservationItem}
use mesh_cart.Inventory.Service.{ReservationRequest}
use mesh_cart.Order.Model.{Order, OrderStatusLog, OrderActionRecord, OrderDb}
use mesh_cart.Order.Errors.{
  OrderError, order_missing, invalid_order, state_conflict, action_record_not_found,
  action_record_exists, driver,
}
use mesh_cart.Order.Service.{Clients, reserved, paid, cancelled, closed}
use mesh_cart.Order.Service.Items.{ValidatedOrderItem, Snapshots}
use mesh_cart.Order.Service.Create.{
  CreateOrderRequest, build_items, finish_create, reserve_and_create, do_create, create_order,
  new_order,
}
use mesh_cart.Order.Service.Cancel.{
  CancelOrderRequest, cancel_succeeded, cancel_failed, reconcile, finish_cancel, release_and_cancel,
  cancel_loaded, do_cancel, cancel_order, cancel_transition, cancel_reason_of,
}
use mesh_cart.Order.Service.Confirm.{
  ConfirmOrderPaidRequest, Payment, confirm_succeeded, confirm_failed, finish_confirm,
  deduct_and_pay, confirm_loaded, do_confirm, confirm_order_paid, pay_transition, paid_time,
  is_same_payment,
}
use mesh_cart.Order.Service.Close.{close_one, close_each, close_expired_orders, close_transition}
use mesh_cart.Order.History.{is_edge}
use mesh_cart.Order.History.Tables.{
  IsMeant, create-Grown, transition-Grown, get_by_order_id-Grown, get_by_id-Grown,
  list_expired_orders-Grown,
}
use mesh_cart.Order.History.Handlers.{
  Stays, call-Stays, resolve-Stays, succeeded-Stays, fail-Stays, load-Stays, answered-Stays,
  validate-Stays,
}

-- The transitions of the handlers are changes that are meant.
cancel-IsMeant : (order_id : ℤ) (reason : String) → IsMeant (cancel_transition order_id reason)
unfolding eq_ℤ
cancel-IsMeant order_id reason o h = ground arith

close-IsMeant : (order_id : ℤ) → IsMeant (close_transition order_id)
unfolding eq_ℤ
close-IsMeant order_id o h = ground arith

pay-IsMeant : (order_id : ℤ) (p : Payment) (t : Time) → IsMeant (pay_transition order_id p t)
unfolding eq_ℤ
pay-IsMeant order_id p t o h = ground arith

module _ {S : Type 0} (clients : Clients S) (earlier : List OrderStatusLog) where
  abbrev Kept : {E A : Type 0} → Query (OrderDb S) E A → Type 0
  Kept m = Stays earlier m

  build_items-Stays : (order_id : ℤ) (vs : List ValidatedOrderItem) → Kept (build_items order_id vs)
  unfolding build_items
  build_items-Stays order_id [] = Keeps-pure _
  build_items-Stays order_id (v ∷ vs) =
      Keeps-bind Keeps-next_id λ id. Keeps-bind (build_items-Stays order_id vs) λ rest. Keeps-pure _

  created-IsMeant : is_edge (pos 0) (pos 2) ≡ true
  unfolding eq_ℤ
  created-IsMeant = refl

  module _ (now : Time) (req : CreateOrderRequest) (key : String)
      (action : Option OrderActionRecord) where
    finished :
        (stocks : ReservationRequest) (o : Result OrderError Order)
        → Kept (finish_create clients now req key action stocks o)
    unfolding finish_create
    finished stocks (ok order) = Keeps-bind (succeeded-Stays earlier _ _ _ _) λ _. Keeps-pure _
    finished stocks (err e) = Keeps-bind (call-Stays earlier _) λ _. fail-Stays earlier _ _ _ _

    reserving :
        (order_id : ℤ) (b : Result BizError (Snapshots × List (Option ReservationItem)))
        → Kept (reserve_and_create clients now req key action order_id b)
    unfolding reserve_and_create
    reserving order_id (err e) = fail-Stays earlier _ _ _ _
    reserving order_id (ok (built, items)) = Keeps-bind (call-Stays earlier _) λ reply.
        answered-Stays earlier _ (λ e. fail-Stays earlier _ _ _ e)
          (Keeps-bind (build_items-Stays order_id built.items) λ rows.
            Keeps-bind
              (Keeps-attempt (
                create-Grown earlier (new_order now order_id req.user_id built.total) rows
                  created-IsMeant))
              (finished _))

  pub create-Stays : (now : Time) (req : CreateOrderRequest) → Kept (create_order clients now req)
  unfolding create_order do_create
  create-Stays now req = Keeps-if _ (Keeps-raise _) (
      Keeps-bind (Keeps-or_raise _ _) λ key. Keeps-bind (resolve-Stays earlier _ _ _ _) λ r.
        Keeps-if _
          (Keeps-bind Keeps-next_id λ order_id.
            Keeps-bind (Keeps-attempt (validate-Stays earlier clients req.items))
              (reserving now req key r.0 order_id))
          (load-Stays earlier r.0))

  module _ (req : CancelOrderRequest) (key : String) (action : Option OrderActionRecord) where
    cancelled-Stays : (order : Order) → Kept (cancel_succeeded clients req key action order)
    unfolding cancel_succeeded
    cancelled-Stays order = Keeps-bind (succeeded-Stays earlier _ _ _ _) λ _. Keeps-pure _

    not_cancelled-Stays : (e : BizError) → Kept (cancel_failed clients req key action e)
    unfolding cancel_failed
    not_cancelled-Stays e = fail-Stays earlier _ _ _ e

    finish_cancel-Stays :
        (order : Order) (o : Result OrderError Order)
        → Kept (finish_cancel clients req key action order o)
    unfolding finish_cancel reconcile
    finish_cancel-Stays order (ok updated) = cancelled-Stays _
    finish_cancel-Stays order (err state_conflict) =
        Keeps-bind (Keeps-map_err _ (get_by_order_id-Grown earlier _ _)) λ current.
          Keeps-if _ (cancelled-Stays _)
            (Keeps-if _ (not_cancelled-Stays _) (not_cancelled-Stays _))
    finish_cancel-Stays order (err order_missing) = not_cancelled-Stays _
    finish_cancel-Stays order (err invalid_order) = not_cancelled-Stays _
    finish_cancel-Stays order (err action_record_not_found) = not_cancelled-Stays _
    finish_cancel-Stays order (err action_record_exists) = not_cancelled-Stays _
    finish_cancel-Stays order (err (driver f)) = not_cancelled-Stays _

    cancel_loaded-Stays :
        (o : Result OrderError Order) → Kept (cancel_loaded clients req key action o)
    unfolding cancel_loaded release_and_cancel
    cancel_loaded-Stays (err e) = not_cancelled-Stays _
    cancel_loaded-Stays (ok order) = Keeps-if _ (cancelled-Stays _) (
        Keeps-if _ (not_cancelled-Stays _) (
          Keeps-if _
            (Keeps-bind (call-Stays earlier _) λ reply.
              answered-Stays earlier _ not_cancelled-Stays (
                Keeps-bind
                  (Keeps-attempt (
                    transition-Grown earlier _
                      (cancel-IsMeant order.order_id (cancel_reason_of req))))
                  (finish_cancel-Stays order)))
            (not_cancelled-Stays _)))

  pub cancel-Stays : (req : CancelOrderRequest) → Kept (cancel_order clients req)
  unfolding cancel_order do_cancel
  cancel-Stays req = Keeps-if _ (Keeps-raise _) (
      Keeps-bind (Keeps-or_raise _ _) λ key. Keeps-bind (resolve-Stays earlier _ _ _ _) λ r.
        Keeps-if _
          (Keeps-bind (Keeps-attempt (get_by_order_id-Grown earlier _ _))
            (cancel_loaded-Stays req key r.0))
          (load-Stays earlier r.0))

  module _ (now paid_now : Time) (p : Payment) (req : ConfirmOrderPaidRequest) (key : String)
      (action : Option OrderActionRecord) where
    paid-Stays :
        (order : Order) → Kept (confirm_succeeded clients now paid_now p req key action order)
    unfolding confirm_succeeded
    paid-Stays order = Keeps-bind (succeeded-Stays earlier _ _ _ _) λ _. Keeps-pure _

    not_paid-Stays : (e : BizError) → Kept (confirm_failed clients now paid_now p req key action e)
    unfolding confirm_failed
    not_paid-Stays e = fail-Stays earlier _ _ _ e

    finish_confirm-Stays :
        (order : Order) (o : Result OrderError Order)
        → Kept (finish_confirm clients now paid_now p req key action order o)
    unfolding finish_confirm
    finish_confirm-Stays order (ok updated) = paid-Stays _
    finish_confirm-Stays order (err e) = not_paid-Stays _

    deduct-Stays :
        (order : Order) → Kept (deduct_and_pay clients now paid_now p req key action order)
    unfolding deduct_and_pay
    deduct-Stays order = Keeps-bind (call-Stays earlier _) λ reply.
        answered-Stays earlier _ not_paid-Stays (
          Keeps-bind
            (Keeps-attempt (
              transition-Grown earlier _
                (pay-IsMeant order.order_id p (paid_time req.paid_at paid_now))))
            (finish_confirm-Stays order))

    confirm_loaded-Stays :
        (o : Result OrderError Order)
        → Kept (confirm_loaded clients now paid_now p req key action o)
    unfolding confirm_loaded
    confirm_loaded-Stays (err e) = not_paid-Stays _
    confirm_loaded-Stays (ok order) =
        Keeps-if (eq_ℤ order.status paid)
          (Keeps-if (is_same_payment order p) (paid-Stays order)
            (not_paid-Stays order_payment_conflict))
          (Keeps-if (eq_ℤ order.status closed || eq_ℤ order.status cancelled)
            (not_paid-Stays order_state_conflict)
            (Keeps-if (not (eq_ℤ order.status reserved)) (not_paid-Stays order_state_conflict) (
              Keeps-if (not (is_zero order.expire_at) && not (before now order.expire_at))
                (not_paid-Stays order_state_conflict) (deduct-Stays order))))

  pub confirm-Stays :
      (lower : String → String) (now paid_now : Time) (req : ConfirmOrderPaidRequest)
      → Kept (confirm_order_paid lower clients now paid_now req)
  unfolding confirm_order_paid do_confirm
  confirm-Stays lower now paid_now req = Keeps-if _ (Keeps-raise _) (
      Keeps-bind (resolve-Stays earlier _ _ _ _) λ r.
        Keeps-if _
          (Keeps-bind (Keeps-attempt (get_by_id-Grown earlier _))
            (confirm_loaded-Stays now paid_now _ req _ r.0))
          (load-Stays earlier r.0))

  close_each-Stays : (orders : List Order) → Kept (close_each clients orders)
  unfolding close_each close_one
  close_each-Stays [] = Keeps-pure _
  close_each-Stays (order ∷ orders) =
      Keeps-bind
        (Keeps-bind (call-Stays earlier _) λ reply.
          answered-Stays earlier _ (λ e. Keeps-pure _)
            (Keeps-bind (Keeps-attempt (transition-Grown earlier _ (close-IsMeant order.order_id)))
              λ _. Keeps-pure _))
        λ one. Keeps-bind (close_each-Stays orders) λ rest. Keeps-pure _

  pub close-Stays : (now : Time) (limit : ℤ) → Kept (close_expired_orders clients now limit)
  unfolding close_expired_orders
  close-Stays now limit =
      Keeps-bind (Keeps-map_err _ (list_expired_orders-Grown earlier now _)) close_each-Stays
