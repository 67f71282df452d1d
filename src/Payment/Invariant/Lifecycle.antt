-- ===== src/Payment/Invariant/Lifecycle.antt =====
-- The payment service over any number of requests.
use mesh_cart.Base.{◌≡◌, String, List, [], ◌∷◌, true, false, Option, none, some}
use mesh_cart.Base.Int.{ℤ}
use mesh_cart.Base.Decimal.{format_int}
use mesh_cart.Base.Lists.{find, All}
use mesh_cart.Sql.{World, pure, ◌>>◌}
use mesh_cart.Sql.Hoare.{Keeps, Keeps-pure, Keeps-bind}
use mesh_cart.App.Time.{Time}
use mesh_cart.Payment.Model.{Payment, PaymentDb}
use mesh_cart.Payment.Tables.{has_payment_id}
use mesh_cart.Payment.Service.{OrderClient, Handler}
use mesh_cart.Payment.Service.Create.{CreateClock, CreatePaymentRequest, create_payment}
use mesh_cart.Payment.Service.Confirm.{
  ConfirmClock, ConfirmPaymentSuccessRequest, confirm_payment_success,
}
use mesh_cart.Payment.Service.Close.{
  ClosePaymentRequest, close_payment, get_payment, list_payments_by_order,
}
use mesh_cart.Payment.Invariant.{is_pending, is_succeeded, IsSound}
use mesh_cart.Payment.Invariant.Tables.{IsSettled}
use mesh_cart.Payment.Invariant.Changes.{Good}
use mesh_cart.Payment.Invariant.Handlers.{IsHonest}
use mesh_cart.Payment.Invariant.Requests.{confirm_Stays, close_Stays, get_Stays, list_Stays}
use mesh_cart.Payment.Invariant.Creation.{create_Stays}

-- A request, with the clock's readings while it is handled.
pub data Request : Type 0 where
  creates : CreateClock → CreatePaymentRequest → Request
  confirms : ConfirmClock → ConfirmPaymentSuccessRequest → Request
  closes : Time → ClosePaymentRequest → Request
  gets : ℤ → ℤ → Request
  lists : ℤ → ℤ → Request

-- Nothing is asked of the order service.
abbrev Anything : {S : Type 0} → ℤ → String → S → Type 0
Anything k id s = Unit

module _ {S : Type 0} (lower : String → String) (client : OrderClient S) (topic : String) where
  -- One request; its reply or its error is dropped.
  unfoldable pub handle : Request → Handler S Unit
  handle (creates clock req) = create_payment lower client clock req >> pure tt
  handle (confirms clock req) = confirm_payment_success lower client topic clock req >> pure tt
  handle (closes now req) = close_payment now req >> pure tt
  handle (gets payment_id user_id) = get_payment payment_id user_id >> pure tt
  handle (lists order_id user_id) = list_payments_by_order order_id user_id >> pure tt

  unfoldable pub handle_all : List Request → World (PaymentDb S) → World (PaymentDb S)
  handle_all [] w = w
  handle_all (r ∷ rs) w = handle_all rs (handle r w).1

  module _ (Confirmed : ℤ → String → S → Type 0) (honest : IsHonest client Confirmed)
      (held : Option Payment) (settled : IsSettled held) where
    handle-Good : (r : Request) → Keeps (Good Confirmed held settled) (handle r)
    unfolding handle
    handle-Good (creates clock req) =
        Keeps-bind (create_Stays Confirmed client honest held settled lower clock req)
          λ _. Keeps-pure _
    handle-Good (confirms clock req) =
        Keeps-bind (confirm_Stays Confirmed client honest held settled lower topic clock req)
          λ _. Keeps-pure _
    handle-Good (closes now req) =
        Keeps-bind (close_Stays Confirmed client honest held settled now req) λ _. Keeps-pure _
    handle-Good (gets payment_id user_id) =
        Keeps-bind (get_Stays Confirmed client honest held settled payment_id user_id)
          λ _. Keeps-pure _
    handle-Good (lists order_id user_id) =
        Keeps-bind (list_Stays Confirmed client honest held settled order_id user_id)
          λ _. Keeps-pure _

    handle_all-Good :
        (rs : List Request) (w : World (PaymentDb S))
        → Good Confirmed held settled w.db
        → Good Confirmed held settled (handle_all rs w).db
    unfolding handle_all
    handle_all-Good [] w g = g
    handle_all-Good (r ∷ rs) w g = handle_all-Good rs (handle r w).1 ((handle-Good r).at w g)

  any_client : IsHonest client Anything
  any_client = record {
    get_keeps = λ _ _ _ _ _ _. tt;
    confirm_keeps = λ _ _ _ _ _. tt;
    confirm_told = λ _ _ _. tt;
  }

  All-Anything :
      (s : S) (ps : List Payment)
      → All (λ p. is_succeeded p ≡ true → Anything p.order_id (format_int p.payment_id) s) ps
  All-Anything s [] = tt
  All-Anything s (p ∷ ps) = ((λ _. tt), All-Anything s ps)

  -- From sound tables, any sequence of requests to create, confirm and close payments leaves sound
  -- tables, whatever statements fail and whatever the order service answers: a payment has its
  -- order's id in active_order_id exactly while it is pending; payment ids are unique; no two
  -- pending payments are of one order; the outbox has one event of every succeeded payment and
  -- none of the others; and no event is of a payment that is not there.
  pub handle_all-IsSound :
      (rs : List Request) (w : World (PaymentDb S))
      → IsSound w.db.payments w.db.outbox
      → IsSound (handle_all rs w).db.payments (handle_all rs w).db.outbox
  handle_all-IsSound rs w g =
      (handle_all-Good Anything any_client none tt rs w
        (g, tt, All-Anything w.db.others w.db.payments)).0

  -- From sound tables, a payment that is not pending has the same row after any sequence of
  -- requests to create, confirm and close payments, whatever statements fail and whatever the
  -- order service answers.
  pub settled_stays :
      (rs : List Request) (w : World (PaymentDb S)) (p : Payment)
      → IsSound w.db.payments w.db.outbox
      → find (has_payment_id p.payment_id) w.db.payments ≡ some p
      → is_pending p ≡ false
      → find (has_payment_id p.payment_id) (handle_all rs w).db.payments ≡ some p
  settled_stays rs w p g e settled =
      (handle_all-Good Anything any_client (some p) settled rs w
        (g, e, All-Anything w.db.others w.db.payments)).1

  -- Where the order service has noted every payment that it answers to have confirmed, and forgets
  -- none, then from sound tables whose succeeded payments it has noted, any sequence of requests
  -- to create, confirm and close payments leaves tables whose succeeded payments it has noted,
  -- with their orders, whatever statements fail.
  pub succeeded_backed :
      (Confirmed : ℤ → String → S → Type 0)
      → IsHonest client Confirmed
      → (rs : List Request) (w : World (PaymentDb S)) → IsSound w.db.payments w.db.outbox
      → All
          (λ p. is_succeeded p ≡ true → Confirmed p.order_id (format_int p.payment_id) w.db.others)
          w.db.payments
      → All
          (λ p.
            is_succeeded p ≡ true
            → Confirmed p.order_id (format_int p.payment_id) (handle_all rs w).db.others)
          (handle_all rs w).db.payments
  succeeded_backed Confirmed honest rs w g b =
      (handle_all-Good Confirmed honest none tt rs w (g, tt, b)).2
