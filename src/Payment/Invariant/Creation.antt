-- ===== src/Payment/Invariant/Creation.antt =====
-- CreatePayment keeps the promises, whatever fails on the way.
use mesh_cart.Base.{refl, String, List, [], ◌∷◌, Option, none, some, not, ◌==◌, ◌||◌}
use mesh_cart.Base.Int.{ℤ, pos, eq_ℤ, leb_ℤ}
use mesh_cart.Sql.{Result, ok, err}
use mesh_cart.Sql.Hoare.{
  Keeps-pure, Keeps-raise, Keeps-bind, Keeps-if, Keeps-attempt, Keeps-next_id, Keeps-or_raise,
  Keeps-Leaves,
}
use mesh_cart.App.Errors.{BizError}
use mesh_cart.Order.Model.{
  ActionStatus, action_pending, action_succeeded, action_failed, action_other,
}
use mesh_cart.Order.Service.{Reply, unreachable, replied, RpcOrder}
use mesh_cart.Payment.Model.{Payment, PaymentActionRecord}
use mesh_cart.Payment.Errors.{
  PaymentError, payment_missing, invalid_payment, payment_conflicts, active_payment_exists,
  action_record_not_found, action_record_exists, driver,
}
use mesh_cart.Payment.Service.{
  OrderClient, Handler, pending, succeeded, expire_transition, is_mock, normalize_payment_method,
  is_payment_expired,
}
use mesh_cart.Payment.Service.Create.{
  CreateClock, CreatePaymentRequest, create_found_by, create_found, create_met_by, create_met,
  reuse_payment, create_failed, create_finished, finish_active, finish_create, store_new,
  create_for, create_new, create_listed, do_create, create_keyed, create_payment, new_payment,
}
use mesh_cart.Payment.Invariant.Tables.{IsSettled, close-G}
use mesh_cart.Payment.Invariant.Changes.{create-Good, list_Good, active_Good}
use mesh_cart.Payment.Invariant.Records.{
  find_action_Kept, create_pending_Kept, fail_Kept, finish_Kept, answer_Kept, or_else-Kept,
}
use mesh_cart.Payment.Invariant.Handlers.{IsHonest, call_Good}
use mesh_cart.Payment.Invariant.Requests.{Stays}

module _ {S : Type 0} (Confirmed : ℤ → String → S → Type 0) (client : OrderClient S)
    (honest : IsHonest client Confirmed) (held : Option Payment) (settled : IsSettled held) where
  abbrev St : {A : Type 0} → Handler S A → Type 0
  St m = Stays Confirmed client honest held settled m

  found_by : (r : PaymentActionRecord) (s : ActionStatus) → St (create_found_by r s)
  unfolding create_found_by
  found_by r action_succeeded = answer_Kept Confirmed held settled r
  found_by r action_pending = Keeps-raise _
  found_by r action_failed = Keeps-raise _
  found_by r (action_other _) = Keeps-raise _

  found : (o : Option PaymentActionRecord) → St (create_found o)
  unfolding create_found
  found none = Keeps-pure _
  found (some r) = found_by r r.status

  met_by : (r : PaymentActionRecord) (s : ActionStatus) → St (create_met_by r s)
  unfolding create_met_by
  met_by r action_succeeded = answer_Kept Confirmed held settled r
  met_by r action_pending = Keeps-pure _
  met_by r action_failed = Keeps-raise _
  met_by r (action_other _) = Keeps-raise _

  met : (o : Option PaymentActionRecord) → St (create_met o)
  unfolding create_met
  met none = Keeps-pure _
  met (some r) = met_by r r.status

  reused : (clock : CreateClock) (ps : List Payment) → St (reuse_payment clock ps)
  unfolding reuse_payment
  reused clock [] = Keeps-pure _
  reused clock (p ∷ ps) = Keeps-if (eq_ℤ p.status succeeded) (Keeps-pure _) (
      Keeps-if (not (eq_ℤ p.status pending)) (reused clock ps) (
        Keeps-if (is_payment_expired (clock.looked p.payment_id) p)
          (Keeps-bind
            (Keeps-attempt (
              Keeps-Leaves (
                close-G Confirmed held settled (expire_transition p (clock.closing p.payment_id))
                  (refl, refl, refl))))
            λ _. reused clock ps)
          (Keeps-pure _)))

  module _ (clock : CreateClock) (req : CreatePaymentRequest) (method request_id : String) where
    failing : (e : BizError) → St (create_failed client clock req method request_id e)
    unfolding create_failed
    failing e = fail_Kept Confirmed held settled _ _ e

    finishing : (p : Payment) → St (create_finished client clock req method request_id p)
    unfolding create_finished
    finishing p = finish_Kept Confirmed held settled _ _ p

    finish_active_St :
        (e : PaymentError) (r : Result PaymentError Payment)
        → St (finish_active client clock req method request_id e r)
    unfolding finish_active
    finish_active_St e (ok p) = finishing p
    finish_active_St e (err _) = failing _

    finish_create_St :
        (r : Result PaymentError Payment) → St (finish_create client clock req method request_id r)
    unfolding finish_create
    finish_create_St (ok p) = finishing p
    finish_create_St (err active_payment_exists) =
        Keeps-bind (Keeps-attempt (active_Good Confirmed held settled _ _)) (finish_active_St _)
    finish_create_St (err payment_missing) = failing _
    finish_create_St (err invalid_payment) = failing _
    finish_create_St (err payment_conflicts) = failing _
    finish_create_St (err action_record_not_found) = failing _
    finish_create_St (err action_record_exists) = failing _
    finish_create_St (err (driver f)) = failing _

    store_new_St :
        (e : Option BizError) (o : Option RpcOrder)
        → St (store_new client clock req method request_id e o)
    unfolding store_new
    store_new_St (some e) o = failing e
    store_new_St none none = failing _
    store_new_St none (some order) = Keeps-bind Keeps-next_id λ id.
        Keeps-bind
          (Keeps-attempt (
            create-Good Confirmed held settled (new_payment clock req method request_id id order)
              refl refl))
          finish_create_St

    create_for_St :
        (reply : Reply (Option RpcOrder)) → St (create_for client clock req method request_id reply)
    unfolding create_for
    create_for_St unreachable = failing _
    create_for_St (replied code o) = Keeps-if (code == 0) (store_new_St _ o) (failing _)

    create_new_St : (o : Option Payment) → St (create_new client clock req method request_id o)
    unfolding create_new
    create_new_St (some p) = finishing p
    create_new_St none =
        Keeps-bind
          (call_Good Confirmed client honest held settled
            (client.get_order req.user_id req.order_id)
            λ k id s. honest.get_keeps req.user_id req.order_id k id s)
          create_for_St

    create_listed_St :
        (r : Result PaymentError (List Payment))
        → St (create_listed client clock req method request_id r)
    unfolding create_listed
    create_listed_St (err e) = failing _
    create_listed_St (ok ps) = Keeps-bind (reused clock ps) create_new_St

    create_keyed_St : St (create_keyed client clock req method request_id)
    unfolding create_keyed do_create
    create_keyed_St = Keeps-bind (find_action_Kept Confirmed held settled _ _) λ existing.
        Keeps-bind (found existing) λ answer. or_else-Kept Confirmed held settled answer (
          Keeps-bind (create_pending_Kept Confirmed held settled _ _ _ _) λ m.
            Keeps-bind (met m) λ again.
              or_else-Kept Confirmed held settled again (
                Keeps-bind (Keeps-attempt (list_Good Confirmed held settled _ _)) create_listed_St))

  pub create_Stays :
      (lower : String → String) (clock : CreateClock) (req : CreatePaymentRequest)
      → St (create_payment lower client clock req)
  unfolding create_payment
  create_Stays lower clock req =
      let method = normalize_payment_method lower req.payment_method in
      Keeps-if (leb_ℤ req.order_id (pos 0) || leb_ℤ req.user_id (pos 0)) (Keeps-raise _) (
        Keeps-if (not (is_mock lower method)) (Keeps-raise _)
          (Keeps-bind (Keeps-or_raise _ _) λ id. create_keyed_St clock req method id))
