-- ===== src/Payment/Repeats/Stuck.antt =====
-- A request to close a payment whose key is on record as failed.
use mathlib.Core.Path.{subst}
use mesh_cart.Base.{◌≡◌, ◌≢◌, refl, sym, String, false, Option, none, some, ◌||◌, arith}
use mesh_cart.Base.Int.{pos, leb_ℤ}
use mesh_cart.Base.Lists.{find}
use mesh_cart.Base.Text.{trim_space, is_blank}
use mesh_cart.Sql.{World, Query, Result, ok, err, ◌>>=◌}
use mesh_cart.Sql.Hoare.{
  Ensures, Ensures-bind, Ensures-pure, Ensures-raise, Ensures-if, Ensures-given, OnOk,
}
use mesh_cart.App.Time.{Time}
use mesh_cart.Order.Model.{action_failed}
use mesh_cart.Payment.Model.{PaymentActionRecord, PaymentDb}
use mesh_cart.Payment.Tables.{is_action}
use mesh_cart.Payment.Service.{RpcPayment, close_action_key}
use mesh_cart.Payment.Service.Records.{create_pending_action_record, or_else}
use mesh_cart.Payment.Service.Close.{
  ClosePaymentRequest, close_found_by, close_found, close_met_by, close_met, do_close, close_keyed,
  close_payment,
}
use mesh_cart.Payment.Repeats.{IsKnown, looked-IsKnown, pending_known}

-- A query that nothing leads to.
nowhere : {Db E A : Type 0} {Q : A → Db → Type 0} (m : Query Db E A) → Ensures (λ _. ⊥) m Q
nowhere m = record { at = λ w h. absurd h }

never_ok : {Db E A : Type 0} (r : Result E A × World Db) → OnOk (λ _ _. ⊥) r → (a : A) → r.0 ≢ ok a
never_ok (ok a, w) h b e = h
never_ok (err x, w) h b e = absurd (ground (arith, e))

module _ {S : Type 0} (known : PaymentActionRecord) (w : World (PaymentDb S)) (key : String)
    (filled : is_blank (trim_space key) ≡ false)
    (on_record : find (is_action "close" key) w.db.action_records ≡ some known)
    (failed : known.status ≡ action_failed) where
  abbrev Still : PaymentDb S → Type 0
  Still d = d ≡ w.db

  abbrev Unanswered : Option RpcPayment → PaymentDb S → Type 0
  Unanswered a d = Still d × (a ≡ none)

  goes_on :
      (o : Option PaymentActionRecord)
      → IsKnown "close" key known w.db on_record o
      → Ensures Still (close_found {S = S} o) Unanswered
  unfolding close_found close_found_by
  goes_on none h = Ensures-pure _ λ d s. (s, refl)
  goes_on (some r) h =
      subst (λ x. Ensures Still (close_found {S = S} (some x)) Unanswered) (sym h)
        (subst (λ s. Ensures Still (close_found_by {S = S} known s) Unanswered) (sym failed)
          (Ensures-pure _ λ d s. (s, refl)))

  met_raises : Ensures Still (close_met {S = S} (some known)) (λ _ _. ⊥)
  unfolding close_met close_met_by
  met_raises =
      subst (λ s. Ensures Still (close_met_by {S = S} known s) (λ _ _. ⊥)) (sym failed)
        (Ensures-raise _)

  stuck :
      (now : Time) (req : ClosePaymentRequest) → Ensures Still (close_keyed now req key) (λ _ _. ⊥)
  unfolding close_keyed or_else
  stuck now req =
      Ensures-bind (λ o d. Still d × IsKnown "close" key known w.db on_record o)
        (looked-IsKnown "close" key known w.db on_record)
        λ o. Ensures-given λ h. Ensures-bind Unanswered (goes_on o h) λ a. Ensures-given λ e.
          subst
            (λ a.
              Ensures Still
                (or_else a (
                  create_pending_action_record "close" key req.payment_id (pos 0) >>= λ m.
                  close_met m >>= λ again. or_else again (do_close now req key)))
                (λ _ _. ⊥))
            (sym e)
            (Ensures-bind (λ m d. Still d × (m ≡ some known))
              (pending_known "close" key known w.db on_record req.payment_id (pos 0) filled)
              λ m. Ensures-given λ f.
                subst
                  (λ m.
                    Ensures Still (close_met m >>= λ again. or_else again (do_close now req key))
                      (λ _ _. ⊥))
                  (sym f) (Ensures-bind (λ _ _. ⊥) met_raises λ again. nowhere _))

-- Where the action record of a closing with the request's key has failed, ClosePayment never
-- answers a payment, whatever statements fail.
pub close_payment_stuck :
    {S : Type 0} (known : PaymentActionRecord) (w : World (PaymentDb S)) (now : Time)
    (req : ClosePaymentRequest)
    → let key = close_action_key req.payment_id req.request_id in
      is_blank (trim_space key) ≡ false
      → find (is_action "close" key) w.db.action_records ≡ some known
      → known.status ≡ action_failed
      → (p : RpcPayment) → (close_payment now req w).0 ≢ ok p
unfolding close_payment
close_payment_stuck known w now req filled on_record failed =
    let key = close_action_key req.payment_id req.request_id in
    never_ok (close_payment now req w) (
      (Ensures-if (leb_ℤ req.payment_id (pos 0) || leb_ℤ req.user_id (pos 0)) (λ _. Ensures-raise _)
          (λ _. stuck known w key filled on_record failed now req)).at
        w refl)
