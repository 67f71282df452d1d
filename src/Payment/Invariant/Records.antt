-- ===== src/Payment/Invariant/Records.antt =====
-- The records of actions, as the handlers use them, keep the promises.
use mesh_cart.Base.{String, Option, none, some}
use mesh_cart.Base.Int.{ℤ}
use mesh_cart.Sql.{Result, ok, err}
use mesh_cart.Sql.Hoare.{
  Keeps, Keeps-pure, Keeps-raise, Keeps-bind, Keeps-if, Keeps-map_err, Keeps-attempt, Keeps-next_id,
}
use mesh_cart.App.Errors.{BizError}
use mesh_cart.Payment.Model.{Payment, PaymentActionRecord}
use mesh_cart.Payment.Errors.{
  PaymentError, payment_missing, invalid_payment, payment_conflicts, active_payment_exists,
  action_record_not_found, action_record_exists, driver,
}
use mesh_cart.Payment.Service.{Handler, RpcPayment}
use mesh_cart.Payment.Service.Records.{
  found_action, find_action_record, reuse_existing, created_or_existing,
  create_pending_action_record, mark_action_succeeded, mark_action_failed, fail_action,
  finish_action, load_payment_by_action_record, answer_loaded, or_else, pending_record,
}
use mesh_cart.Payment.Invariant.Tables.{IsSettled, get_by_payment_id-G}
use mesh_cart.Payment.Invariant.Changes.{
  Good, get_action_Good, create_action_Good, succeeded_Good, failed_Good,
}

module _ {S : Type 0} (Confirmed : ℤ → String → S → Type 0) (held : Option Payment)
    (settled : IsSettled held) where
  abbrev Kept : {A : Type 0} → Handler S A → Type 0
  Kept m = Keeps (Good Confirmed held settled) m

  pub find_action_Kept : (t k : String) → Kept (find_action_record t k)
  unfolding find_action_record
  find_action_Kept t k =
      Keeps-bind (Keeps-attempt (get_action_Good Confirmed held settled t k)) found
    where
      found : (r : Result PaymentError PaymentActionRecord) → Kept (found_action r)
      found (ok r) = Keeps-pure _
      found (err action_record_not_found) = Keeps-pure _
      found (err payment_missing) = Keeps-raise _
      found (err invalid_payment) = Keeps-raise _
      found (err payment_conflicts) = Keeps-raise _
      found (err active_payment_exists) = Keeps-raise _
      found (err action_record_exists) = Keeps-raise _
      found (err (driver f)) = Keeps-raise _

  pub create_pending_Kept :
      (t k : String) (payment_id order_id : ℤ)
      → Kept (create_pending_action_record t k payment_id order_id)
  unfolding create_pending_action_record created_or_existing reuse_existing
  create_pending_Kept t k payment_id order_id = Keeps-if _ (Keeps-pure _) (
      Keeps-bind Keeps-next_id λ id.
        Keeps-bind
          (Keeps-attempt
            (create_action_Good Confirmed held settled (pending_record id t k payment_id order_id)))
          (created (pending_record id t k payment_id order_id)))
    where
      reuse : (r : Option PaymentActionRecord) → Kept (reuse_existing r)
      reuse (some r) = Keeps-pure _
      reuse none = Keeps-raise _

      created :
          (r : PaymentActionRecord) (o : Result PaymentError Unit) → Kept (created_or_existing r o)
      created r (ok _) = Keeps-pure _
      created r (err action_record_exists) =
          Keeps-bind (find_action_Kept r.action_type r.action_key) reuse
      created r (err payment_missing) = Keeps-raise _
      created r (err invalid_payment) = Keeps-raise _
      created r (err payment_conflicts) = Keeps-raise _
      created r (err active_payment_exists) = Keeps-raise _
      created r (err action_record_not_found) = Keeps-raise _
      created r (err (driver f)) = Keeps-raise _

  pub fail_Kept : {A : Type 0} (t k : String) (e : BizError) → Kept (fail_action {A = A} t k e)
  unfolding fail_action mark_action_failed
  fail_Kept t k e =
      Keeps-bind
        (Keeps-if _ (Keeps-pure _)
          (Keeps-bind (Keeps-attempt (failed_Good Confirmed held settled t k)) λ _. Keeps-pure _))
        λ _. Keeps-raise _

  pub finish_Kept : (t k : String) (p : Payment) → Kept (finish_action t k p)
  unfolding finish_action mark_action_succeeded
  finish_Kept t k p =
      Keeps-bind
        (Keeps-if _ (Keeps-pure _) (
          Keeps-bind (Keeps-attempt (succeeded_Good Confirmed held settled t k _ _))
            λ _. Keeps-pure _))
        λ _. Keeps-pure _

  pub answer_Kept : (r : PaymentActionRecord) → Kept (answer_loaded r)
  unfolding answer_loaded load_payment_by_action_record
  answer_Kept r =
      Keeps-bind
        (Keeps-if _ (Keeps-raise _) (
          Keeps-bind (Keeps-map_err _ (get_by_payment_id-G Confirmed held settled r.payment_id))
            λ _. Keeps-pure _))
        λ _. Keeps-pure _

  pub or_else-Kept :
      (o : Option RpcPayment) {go : Handler S RpcPayment} → Kept go → Kept (or_else o go)
  unfolding or_else
  or_else-Kept none k = k
  or_else-Kept (some p) k = Keeps-pure _
