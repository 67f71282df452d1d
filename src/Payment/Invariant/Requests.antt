-- ===== src/Payment/Invariant/Requests.antt =====
-- The handlers of the payment service, as wholes, keep the promises.
use mathlib.Core.Path.{subst}
use mesh_cart.Base.{◌≡◌, refl, sym, String, true, Option, none, some, not, ◌||◌}
use mesh_cart.Base.Int.{ℤ, pos, eq_ℤ, eq_ℤ→eq, leb_ℤ}
use mesh_cart.Base.Decimal.{format_int}
use mesh_cart.Base.Lists.{find}
use mesh_cart.Base.Rows.{find-true}
use mesh_cart.Sql.{Result, ok, err}
use mesh_cart.Sql.Hoare.{
  Ensures, Ensures-attempt, Ensures-map_err, Ensures-take_row, Ensures-weaken, Keeps, Keeps-pure,
  Keeps-raise, Keeps-bind, Keeps-if, Keeps-map_err, Keeps-take_row, Keeps-attempt, Keeps-or_raise,
  Leaves, Leaves-Keeps, Leaves-if, Leaves-bind, Keeps-Leaves,
}
use mesh_cart.App.Errors.{BizError}
use mesh_cart.App.Time.{Time}
use mesh_cart.Order.Model.{
  ActionStatus, action_pending, action_succeeded, action_failed, action_other,
}
use mesh_cart.Order.Service.{payment_conflict}
use mesh_cart.Order.Service.Confirm.{ConfirmOrderPaidRequest}
use mesh_cart.Payment.Model.{Payment, PaymentActionRecord, PaymentDb}
use mesh_cart.Payment.Errors.{PaymentError}
use mesh_cart.Payment.Tables.{has_payment_id}
use mesh_cart.Payment.Payments.{get_by_payment_id, transition_status}
use mesh_cart.Payment.Service.{
  OrderClient, Handler, call, is_payment_expired, pending, succeeded, closed, is_mock,
  normalize_payment_method, expire_transition,
}
use mesh_cart.Payment.Service.Confirm.{
  ConfirmClock, ConfirmPaymentSuccessRequest, confirm_found_by, confirm_found, confirm_met_by,
  confirm_met, confirm_pending, confirm_failed, confirm_loaded, do_confirm, confirm_keyed,
  confirm_payment_success,
}
use mesh_cart.Payment.Service.Close.{
  ClosePaymentRequest, close_found_by, close_found, close_met_by, close_met, close_failed,
  finish_close, close_loaded, do_close, close_keyed, close_payment, close_transition, close_reason,
  get_payment, list_payments_by_order,
}
use mesh_cart.Payment.Invariant.Tables.{IsSettled, close-G}
use mesh_cart.Payment.Invariant.Changes.{Good, by_user_Good, list_Good}
use mesh_cart.Payment.Invariant.Records.{
  find_action_Kept, create_pending_Kept, fail_Kept, finish_Kept, answer_Kept, or_else-Kept,
}
use mesh_cart.Payment.Invariant.Handlers.{
  IsHonest, is_agreed, Kept, Loaded, call-Loaded, confirm_failed-Kept, confirm_finished-Kept,
  answered_Good,
}

module _ {S : Type 0} (Confirmed : ℤ → String → S → Type 0) (client : OrderClient S)
    (honest : IsHonest client Confirmed) (held : Option Payment) (settled : IsSettled held) where
  abbrev pub Stays : {A : Type 0} → Handler S A → Type 0
  Stays m = Kept Confirmed client honest held settled m

  expired_Stays :
      (p : Payment) (at : Time)
      → Keeps (Good Confirmed held settled) (transition_status (expire_transition p at))
  expired_Stays p at =
      Keeps-Leaves (close-G Confirmed held settled (expire_transition p at) (refl, refl, refl))

  asked :
      (p : Payment) (r : ConfirmOrderPaidRequest)
      → Keeps (Loaded Confirmed client honest held settled p) (call (client.confirm_order_paid r))
  asked p r =
      call-Loaded Confirmed client honest held settled p (client.confirm_order_paid r)
        λ k id s. honest.confirm_keeps r k id s

  agreed_to :
      (p : Payment) (r : ConfirmOrderPaidRequest)
      → r.order_id ≡ p.order_id
      → r.payment_id ≡ format_int p.payment_id
      → Ensures
          (Loaded Confirmed client honest held settled p)
          (call (client.confirm_order_paid r))
          (λ reply d.
            Loaded Confirmed client honest held settled p d
            × (is_agreed reply ≡ true → Confirmed p.order_id (format_int p.payment_id) d.others))
  unfolding call
  agreed_to p r order payment = record {
    at = λ w h. (
      (asked p r).at w h,
      λ on.
          subst
            (λ k. Confirmed k (format_int p.payment_id) (client.confirm_order_paid r w.db.others).1)
            order
            (subst (λ id. Confirmed r.order_id id (client.confirm_order_paid r w.db.others).1)
              payment (honest.confirm_told r w.db.others on)),
    );
  }

  module _ (topic : String) (clock : ConfirmClock) (req : ConfirmPaymentSuccessRequest)
      (method request_id trade_no : String) where
    pending_Leaves :
        (p : Payment)
        → Leaves
            (Loaded Confirmed client honest held settled p)
            (confirm_pending client topic clock req method request_id trade_no p)
            (Good Confirmed held settled)
    unfolding confirm_pending
    pending_Leaves p =
        Leaves-if (is_payment_expired clock.looked p)
          (Leaves-Keeps (Good Confirmed held settled) (λ d h. h.0) (λ d h. h)
            (Keeps-bind (Keeps-attempt (expired_Stays p clock.closing)) λ _.
              confirm_failed-Kept Confirmed client honest held settled topic clock req method
                request_id trade_no _))
          (Leaves-bind (asked p _) (λ d h. h.0) (agreed_to p _ refl refl)
            (answered_Good Confirmed client honest held settled topic clock req method request_id
              trade_no p))

    abbrev IsLoaded : Result PaymentError Payment → PaymentDb S → Type 0
    IsLoaded (err e) d = Good Confirmed held settled d
    IsLoaded (ok p) d = Loaded Confirmed client honest held settled p d

    IsLoaded-Leaves :
        (r : Result PaymentError Payment)
        → Leaves
            (IsLoaded r)
            (confirm_loaded client topic clock req method request_id trade_no r)
            (Good Confirmed held settled)
    unfolding confirm_loaded
    IsLoaded-Leaves (err e) =
        Leaves-Keeps (Good Confirmed held settled) (λ d h. h) (λ d h. h)
          (confirm_failed-Kept Confirmed client honest held settled topic clock req method
            request_id trade_no _)
    IsLoaded-Leaves (ok p) =
        Leaves-if (eq_ℤ p.status succeeded)
          (Leaves-if
            (payment_conflict p.payment_method method
              || payment_conflict p.payment_trade_no trade_no)
            (failing _)
            (Leaves-Keeps (Good Confirmed held settled) (λ d h. h.0) (λ d h. h)
              (confirm_finished-Kept Confirmed client honest held settled topic clock req method
                request_id trade_no p)))
          (Leaves-if (eq_ℤ p.status closed) (failing _)
            (Leaves-if (not (eq_ℤ p.status pending)) (failing _) (pending_Leaves p)))
      where
        failing :
            (e : BizError)
            → Leaves
                (Loaded Confirmed client honest held settled p)
                (confirm_failed client topic clock req method request_id trade_no e)
                (Good Confirmed held settled)
        failing e =
            Leaves-Keeps (Good Confirmed held settled) (λ d h. h.0) (λ d h. h)
              (confirm_failed-Kept Confirmed client honest held settled topic clock req method
                request_id trade_no e)

    do_confirm-Stays : Stays (do_confirm client topic clock req method request_id trade_no)
    unfolding do_confirm get_by_payment_id
    do_confirm-Stays = Keeps-Leaves (
        Leaves-bind (Keeps-attempt (Keeps-map_err _ (Keeps-take_row _))) (λ d h. h)
          (Ensures-attempt IsLoaded (Keeps-map_err _ (Keeps-take_row _))
            (Ensures-weaken (λ d h. h) (λ p d (g, e). (g, by_its_id p d e))
              (Ensures-map_err _ (Ensures-take_row _)))
            (λ e d h. h))
          IsLoaded-Leaves)
      where
        by_its_id :
            (p : Payment) (d : PaymentDb S)
            → find (has_payment_id req.payment_id) d.payments ≡ some p
            → find (has_payment_id p.payment_id) d.payments ≡ some p
        by_its_id p d e =
            subst (λ k. find (has_payment_id k) d.payments ≡ some p)
              (sym (
                eq_ℤ→eq p.payment_id req.payment_id
                  (find-true (has_payment_id req.payment_id) d.payments p e)))
              e

    found_Stays : (r : PaymentActionRecord) (s : ActionStatus) → Stays (confirm_found_by r s)
    unfolding confirm_found_by
    found_Stays r action_succeeded = answer_Kept Confirmed held settled r
    found_Stays r action_pending = Keeps-raise _
    found_Stays r action_failed = Keeps-pure _
    found_Stays r (action_other _) = Keeps-pure _

    met_Stays : (r : PaymentActionRecord) (s : ActionStatus) → Stays (confirm_met_by r s)
    unfolding confirm_met_by
    met_Stays r action_succeeded = answer_Kept Confirmed held settled r
    met_Stays r action_pending = Keeps-pure _
    met_Stays r action_failed = Keeps-pure _
    met_Stays r (action_other _) = Keeps-raise _

    found_all : (o : Option PaymentActionRecord) → Stays (confirm_found o)
    unfolding confirm_found
    found_all none = Keeps-pure _
    found_all (some r) = found_Stays r r.status

    met_all : (o : Option PaymentActionRecord) → Stays (confirm_met o)
    unfolding confirm_met
    met_all none = Keeps-pure _
    met_all (some r) = met_Stays r r.status

    confirm_keyed-Stays : Stays (confirm_keyed client topic clock req method request_id trade_no)
    unfolding confirm_keyed
    confirm_keyed-Stays = Keeps-bind (find_action_Kept Confirmed held settled _ _) λ existing.
        Keeps-bind (found_all existing) λ answer. or_else-Kept Confirmed held settled answer (
          Keeps-bind (create_pending_Kept Confirmed held settled _ _ _ _) λ met.
            Keeps-bind (met_all met)
              λ again. or_else-Kept Confirmed held settled again do_confirm-Stays)

  pub confirm_Stays :
      (lower : String → String) (topic : String) (clock : ConfirmClock)
      (req : ConfirmPaymentSuccessRequest)
      → Stays (confirm_payment_success lower client topic clock req)
  unfolding confirm_payment_success
  confirm_Stays lower topic clock req =
      let method = normalize_payment_method lower req.payment_method in
      Keeps-if (leb_ℤ req.payment_id (pos 0)) (Keeps-raise _) (
        Keeps-if (not (is_mock lower method)) (Keeps-raise _)
          (Keeps-bind (Keeps-or_raise _ _) λ id. confirm_keyed-Stays topic clock req method id _))

  module _ (now : Time) (req : ClosePaymentRequest) (key : String) where
    close_failed-Stays : (e : BizError) → Stays (close_failed now req key e)
    unfolding close_failed
    close_failed-Stays e = fail_Kept Confirmed held settled _ _ e

    finish_close-Stays : (r : Result PaymentError Payment) → Stays (finish_close now req key r)
    unfolding finish_close
    finish_close-Stays (ok p) = finish_Kept Confirmed held settled _ _ p
    finish_close-Stays (err e) = close_failed-Stays _

    close_loaded-Stays : (r : Result PaymentError Payment) → Stays (close_loaded now req key r)
    unfolding close_loaded
    close_loaded-Stays (err e) = close_failed-Stays _
    close_loaded-Stays (ok p) = Keeps-if (eq_ℤ p.status succeeded) (close_failed-Stays _) (
        Keeps-if (eq_ℤ p.status closed) (finish_Kept Confirmed held settled "close" key p) (
          Keeps-if (not (eq_ℤ p.status pending)) (close_failed-Stays _) (
            Keeps-bind
              (Keeps-attempt (
                Keeps-Leaves (
                  close-G Confirmed held settled (close_transition p now (close_reason req))
                    (refl, refl, refl))))
              finish_close-Stays)))

    close_found_Stays : (r : PaymentActionRecord) (s : ActionStatus) → Stays (close_found_by r s)
    unfolding close_found_by
    close_found_Stays r action_succeeded = answer_Kept Confirmed held settled r
    close_found_Stays r action_pending = Keeps-raise _
    close_found_Stays r action_failed = Keeps-pure _
    close_found_Stays r (action_other _) = Keeps-pure _

    close_met_Stays : (r : PaymentActionRecord) (s : ActionStatus) → Stays (close_met_by r s)
    unfolding close_met_by
    close_met_Stays r action_succeeded = answer_Kept Confirmed held settled r
    close_met_Stays r action_pending = Keeps-pure _
    close_met_Stays r action_failed = Keeps-raise _
    close_met_Stays r (action_other _) = Keeps-raise _

    close_found_all : (o : Option PaymentActionRecord) → Stays (close_found o)
    unfolding close_found
    close_found_all none = Keeps-pure _
    close_found_all (some r) = close_found_Stays r r.status

    close_met_all : (o : Option PaymentActionRecord) → Stays (close_met o)
    unfolding close_met
    close_met_all none = Keeps-pure _
    close_met_all (some r) = close_met_Stays r r.status

    close_keyed-Stays : Stays (close_keyed now req key)
    unfolding close_keyed do_close
    close_keyed-Stays = Keeps-bind (find_action_Kept Confirmed held settled _ _) λ existing.
        Keeps-bind (close_found_all existing) λ answer. or_else-Kept Confirmed held settled answer (
          Keeps-bind (create_pending_Kept Confirmed held settled _ _ _ _) λ met.
            Keeps-bind (close_met_all met) λ again. or_else-Kept Confirmed held settled again (
              Keeps-bind (Keeps-attempt (by_user_Good Confirmed held settled _ _))
                close_loaded-Stays))

  pub close_Stays : (now : Time) (req : ClosePaymentRequest) → Stays (close_payment now req)
  unfolding close_payment
  close_Stays now req = Keeps-if _ (Keeps-raise _) (close_keyed-Stays now req _)

  pub get_Stays : (payment_id user_id : ℤ) → Stays (get_payment payment_id user_id)
  unfolding get_payment
  get_Stays payment_id user_id =
      Keeps-if _ (Keeps-raise _)
        (Keeps-bind (Keeps-map_err _ (by_user_Good Confirmed held settled _ _)) λ _. Keeps-pure _)

  pub list_Stays : (order_id user_id : ℤ) → Stays (list_payments_by_order order_id user_id)
  unfolding list_payments_by_order
  list_Stays order_id user_id =
      Keeps-if _ (Keeps-raise _)
        (Keeps-bind (Keeps-map_err _ (list_Good Confirmed held settled _ _)) λ _. Keeps-pure _)
