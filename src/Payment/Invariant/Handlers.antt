-- ===== src/Payment/Invariant/Handlers.antt =====
-- Every handler of the payment service keeps the promises, whatever fails on the way, over an order
-- service that agrees to a payment only if it has confirmed it.
use mesh_cart.Base.{
  ◌≡◌, refl, ap, String, Bool, true, false, Option, none, some, ◌==◌, Bool-cases, inl, inr, arith,
}
use mesh_cart.Base.Int.{ℤ}
use mesh_cart.Base.Decimal.{format_int}
use mesh_cart.Base.Lists.{find}
use mesh_cart.Sql.{Result, ok, err}
use mesh_cart.Sql.Hoare.{
  Ensures, Ensures-bind, Ensures-pure, Ensures-any_id, Keeps, Keeps-pure, Keeps-bind, Keeps-next_id,
  Leaves, Leaves-Keeps, Leaves-bind, Leaves-then, Leaves-given, Leaves-attempt,
}
use mesh_cart.App.Errors.{BizError}
use mesh_cart.App.Time.{Time}
use mesh_cart.Mq.Outbox.{Envelope, marshal_envelope}
use mesh_cart.Order.Service.{Reply, unreachable, replied, RpcOrder}
use mesh_cart.Order.Service.Confirm.{ConfirmOrderPaidRequest, paid_time}
use mesh_cart.Payment.Model.{Payment, PaymentSucceededPayload, PaymentOutbox, PaymentDb}
use mesh_cart.Payment.Errors.{PaymentError}
use mesh_cart.Payment.Tables.{has_payment_id}
use mesh_cart.Payment.Service.{
  OrderClient, Handler, call, outbox_of_body, build_payment_succeeded_outbox, succeeded_envelope,
}
use mesh_cart.Payment.Service.Confirm.{
  ConfirmClock, ConfirmPaymentSuccessRequest, confirm_failed, confirm_finished, finish_confirm,
  store_success, succeed, confirm_answered, succeeded_payment, success_transition,
}
use mesh_cart.Payment.Invariant.{told_id}
use mesh_cart.Payment.Invariant.Tables.{IsSettled}
use mesh_cart.Payment.Invariant.Changes.{Good, Agreed, succeed_Leaves}
use mesh_cart.Payment.Invariant.Records.{fail_Kept, finish_Kept}
use mesh_cart.Base.Lists.{All-imp}

abbrev pub is_agreed : {A : Type 0} → Reply A → Bool
is_agreed unreachable = false
is_agreed (replied code _) = code == 0

-- What is relied on of the order service: it agrees to a payment only when it has confirmed the
-- order as paid by it, and never takes that back.
pub record IsHonest {S : Type 0} (client : OrderClient S) (Confirmed : ℤ → String → S → Type 0)
    : Type 0 where
  pub get_keeps :
      (user_id order_id k : ℤ) (id : String) (s : S)
      → Confirmed k id s
      → Confirmed k id (client.get_order user_id order_id s).1
  pub confirm_keeps :
      (req : ConfirmOrderPaidRequest) (k : ℤ) (id : String) (s : S)
      → Confirmed k id s
      → Confirmed k id (client.confirm_order_paid req s).1
  pub confirm_told :
      (req : ConfirmOrderPaidRequest) (s : S)
      → is_agreed (client.confirm_order_paid req s).0 ≡ true
      → Confirmed req.order_id req.payment_id (client.confirm_order_paid req s).1

marshal_same : {P : Type 0} (e b : Envelope P) → marshal_envelope e ≡ some b → b ≡ e
unfolding marshal_envelope
marshal_same e b h = ground arith

module _ {S : Type 0} (Confirmed : ℤ → String → S → Type 0) (client : OrderClient S)
    (honest : IsHonest client Confirmed) (held : Option Payment) (settled : IsSettled held) where
  abbrev pub Kept : {A : Type 0} → Handler S A → Type 0
  Kept m = Keeps (Good Confirmed held settled) m

  abbrev pub Loaded : Payment → PaymentDb S → Type 0
  Loaded p d =
      Good Confirmed held settled d × (find (has_payment_id p.payment_id) d.payments ≡ some p)

  pub call_Good :
      {A : Type 0} (f : S → A × S)
      → ((k : ℤ) (id : String) (s : S) → Confirmed k id s → Confirmed k id (f s).1)
      → Kept (call f)
  unfolding call
  call_Good f keeps = record {
    at = λ w (g, h, b). (
      g,
      h,
      All-imp _ (λ p. _) (λ p k on. keeps p.order_id (format_int p.payment_id) w.db.others (k on))
          w.db.payments b,
    );
  }

  pub call-Loaded :
      {A : Type 0} (p : Payment) (f : S → A × S)
      → ((k : ℤ) (id : String) (s : S) → Confirmed k id s → Confirmed k id (f s).1)
      → Keeps (Loaded p) (call f)
  unfolding call
  call-Loaded p f keeps = record { at = λ w (g, e). ((call_Good f keeps).at w g, e) }

  module _ (topic : String) (clock : ConfirmClock) (req : ConfirmPaymentSuccessRequest)
      (method request_id trade_no : String) where
    pub confirm_failed-Kept :
        (e : BizError) → Kept (confirm_failed client topic clock req method request_id trade_no e)
    unfolding confirm_failed
    confirm_failed-Kept e = fail_Kept Confirmed held settled _ _ e

    pub confirm_finished-Kept :
        (p : Payment) → Kept (confirm_finished client topic clock req method request_id trade_no p)
    unfolding confirm_finished
    confirm_finished-Kept p = finish_Kept Confirmed held settled _ _ p

    finish_confirm-Kept :
        (r : Result PaymentError Payment)
        → Kept (finish_confirm client topic clock req method request_id trade_no r)
    unfolding finish_confirm
    finish_confirm-Kept (ok p) = confirm_finished-Kept p
    finish_confirm-Kept (err e) = confirm_failed-Kept _

    abbrev IsTold : Payment → Option PaymentOutbox → Type 0
    IsTold p none = Unit
    IsTold p (some r) = told_id r.body ≡ some p.payment_id

    outbox-IsTold :
        (p q : Payment) (b : Option (Envelope PaymentSucceededPayload))
        → ((e : Envelope PaymentSucceededPayload)
            → b ≡ some e
            → told_id (some e) ≡ some p.payment_id)
        → Ensures
            (Agreed Confirmed held settled p)
            (outbox_of_body q topic b)
            (λ o d. Agreed Confirmed held settled p d × IsTold p o)
    unfolding outbox_of_body
    outbox-IsTold p q none k = Ensures-pure _ λ d h. (h, tt)
    outbox-IsTold p q (some e) k =
        Ensures-bind (λ _. Agreed Confirmed held settled p) (Ensures-any_id λ d h id. h)
          λ id. Ensures-pure _ λ d h. (h, k e refl)

    outbox_Agreed :
        (p q : Payment) (b : Option (Envelope PaymentSucceededPayload))
        → Keeps (Agreed Confirmed held settled p) (outbox_of_body {S = S} q topic b)
    unfolding outbox_of_body
    outbox_Agreed p q none = Keeps-pure _
    outbox_Agreed p q (some e) = Keeps-bind Keeps-next_id λ _. Keeps-pure _

    store_Leaves :
        (p : Payment) (at : Time) (o : Option PaymentOutbox)
        → IsTold p o
        → Leaves
            (Agreed Confirmed held settled p)
            (store_success client topic clock req method request_id trade_no p at o)
            (Good Confirmed held settled)
    unfolding store_success
    store_Leaves p at none k =
        Leaves-Keeps (Good Confirmed held settled) (λ d h. h.0) (λ d h. h) (confirm_failed-Kept _)
    store_Leaves p at (some r) k =
        Leaves-then
          (Leaves-attempt (
            succeed_Leaves Confirmed held settled (success_transition p method trade_no at r) p r
              (refl, refl, refl, refl, k)))
          finish_confirm-Kept

    succeed-Good :
        (p : Payment)
        → Leaves
            (Agreed Confirmed held settled p)
            (succeed client topic clock req method request_id trade_no p)
            (Good Confirmed held settled)
    unfolding succeed build_payment_succeeded_outbox
    succeed-Good p =
        let at = paid_time req.paid_at clock.succeeding in
        Leaves-bind (Keeps-bind Keeps-next_id λ id. outbox_Agreed p _ _) (λ d h. h.0)
          (Ensures-bind (λ _. Agreed Confirmed held settled p) (Ensures-any_id λ d h id. h)
            λ id. outbox-IsTold p (succeeded_payment p method trade_no at) _ λ e h.
              ap (λ x. told_id (some x))
                (marshal_same
                  (succeeded_envelope id (succeeded_payment p method trade_no at) at topic) e h))
          λ o. Leaves-given λ k. store_Leaves p at o k

    pub answered_Good :
        (p : Payment) (reply : Reply (Option RpcOrder))
        → Leaves
            (λ d.
              Loaded p d
              × (is_agreed reply ≡ true → Confirmed p.order_id (format_int p.payment_id) d.others))
            (confirm_answered client topic clock req method request_id trade_no p reply)
            (Good Confirmed held settled)
    unfolding confirm_answered
    answered_Good p unreachable =
        Leaves-Keeps (Good Confirmed held settled) (λ d h. h.0.0) (λ d h. h) (confirm_failed-Kept _)
    answered_Good p (replied code o) = elim (Bool-cases (code == 0)) [
      | inl on ↦ rw on (record { at = λ w (l, told). (succeed-Good p).at w (l.0, l.1, told refl) })
      | inr off ↦ rw off (
          Leaves-Keeps (Good Confirmed held settled) (λ d h. h.0.0) (λ d h. h)
            (confirm_failed-Kept _))
    ]
