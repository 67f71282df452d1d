-- ===== src/Payment/Repeats/Requests.antt =====
-- Requests to create, to confirm and to close a payment whose key is on record.
use mathlib.Core.Path.{subst}
use mesh_cart.Base.{◌≡◌, ◌≢◌, refl, sym, ◌∙◌, String, false, some, not, ◌||◌, arith}
use mesh_cart.Base.Int.{pos, leb_ℤ}
use mesh_cart.Base.Lists.{find}
use mesh_cart.Base.Text.{trim_space, is_blank}
use mesh_cart.Sql.{World, ◌>>=◌, or_raise, raise}
use mesh_cart.Sql.Hoare.{
  Leaves, Leaves-bind, Leaves-given, Leaves-Keeps, Leaves-if, Ensures, Ensures-raise,
  Ensures-or_raise, Keeps, Keeps-or_raise, Keeps-raise, Keeps-pure,
}
use mesh_cart.App.Errors.{BizError, invalid_param}
use mesh_cart.App.Time.{Time}
use mesh_cart.Order.Model.{
  ActionStatus, action_pending, action_succeeded, action_failed, action_other,
}
use mesh_cart.Order.Service.Records.{require_request_id}
use mesh_cart.Payment.Model.{PaymentActionRecord, PaymentDb}
use mesh_cart.Payment.Tables.{is_action}
use mesh_cart.Payment.Service.{
  OrderClient, Handler, RpcPayment, close_action_key, is_mock, normalize_payment_method,
}
use mesh_cart.Payment.Service.Create.{
  CreateClock, CreatePaymentRequest, create_found_by, create_found, create_met_by, create_met,
  do_create, create_keyed, create_payment,
}
use mesh_cart.Payment.Service.Confirm.{
  ConfirmClock, ConfirmPaymentSuccessRequest, confirm_found_by, confirm_found, confirm_met_by,
  confirm_met, do_confirm, confirm_keyed, confirm_payment_success, trade_no_of,
}
use mesh_cart.Payment.Service.Close.{
  ClosePaymentRequest, close_found_by, close_found, close_met_by, close_met, do_close, close_keyed,
  close_payment,
}
use mesh_cart.Payment.Repeats.{IsSome, answer-Same, answer-IsSome, keyed_Leaves}

module _ {S : Type 0} (known : PaymentActionRecord) (w : World (PaymentDb S)) where
  abbrev Still : PaymentDb S → Type 0
  Still d = d ≡ w.db

  rejected : (e : BizError) → Leaves Still (raise {A = RpcPayment} e) Still
  rejected e = Leaves-Keeps Still (λ d h. h) (λ d h. h) (Keeps-raise e)

  -- The key is read off the request.
  with_key :
      (request_id key : String) (go : String → Handler S RpcPayment)
      → require_request_id request_id ≡ some key
      → Leaves Still (go key) Still
      → Leaves Still (or_raise (require_request_id request_id) invalid_param >>= go) Still
  with_key request_id key go e left =
      Leaves-bind (Keeps-or_raise _ _) (λ d h. h) (Ensures-or_raise _ _)
        λ k. Leaves-given λ f. subst (λ k. Leaves Still (go k) Still) (some_inj (sym e ∙ f)) left
    where
      some_inj : {a b : String} → some a ≡ some b → a ≡ b
      some_inj h = ground arith

  module _ (key : String)
      (on_record : find (is_action "create" key) w.db.action_records ≡ some known) where
    create_found-Same :
        (s : ActionStatus) → s ≢ action_pending → Keeps Still (create_found_by {S = S} known s)
    unfolding create_found_by
    create_found-Same action_succeeded h = answer-Same "create" key known w.db on_record known
    create_found-Same action_pending h = absurd (h refl)
    create_found-Same action_failed h = Keeps-raise _
    create_found-Same (action_other _) h = Keeps-raise _

    create_met-Same :
        (s : ActionStatus)
        → s ≢ action_pending
        → Keeps Still (create_met_by {S = S} known s)
          × Ensures Still
              (create_met_by {S = S} known s)
              (λ o d. Still d × IsSome "create" key known w.db on_record o)
    unfolding create_met_by
    create_met-Same action_succeeded h = (
      answer-Same "create" key known w.db on_record known,
      answer-IsSome "create" key known w.db on_record known,
    )
    create_met-Same action_pending h = absurd (h refl)
    create_met-Same action_failed h = (Keeps-raise _, Ensures-raise _)
    create_met-Same (action_other _) h = (Keeps-raise _, Ensures-raise _)

  -- Where the action record of a creation with the request's trimmed id, which is not blank, is
  -- not pending, CreatePayment changes no row and calls no service that changes anything, whatever
  -- statements fail.
  pub create_payment_repeated :
      (lower : String → String) (client : OrderClient S) (clock : CreateClock)
      (req : CreatePaymentRequest) (key : String)
      → require_request_id req.request_id ≡ some key
      → is_blank (trim_space key) ≡ false
      → find (is_action "create" key) w.db.action_records ≡ some known
      → known.status ≢ action_pending
      → (create_payment lower client clock req w).1.db ≡ w.db
  unfolding create_payment create_keyed create_found create_met
  create_payment_repeated lower client clock req key e filled on_record done =
      let method = normalize_payment_method lower req.payment_method in
      let (kept, answers) = create_met-Same key on_record known.status done in
      (Leaves-if (leb_ℤ req.order_id (pos 0) || leb_ℤ req.user_id (pos 0)) (rejected _) (
          Leaves-if (not (is_mock lower method)) (rejected _) (
            with_key req.request_id key (create_keyed client clock req method) e (
              keyed_Leaves "create" key known w.db on_record (pos 0) req.order_id filled
                create_found create_met (do_create client clock req method key) (Keeps-pure _)
                (create_found-Same key on_record known.status done) kept answers)))).at
        w refl

  module _ (key : String)
      (on_record : find (is_action "confirm_success" key) w.db.action_records ≡ some known) where
    confirm_found-Same :
        (s : ActionStatus) → s ≡ action_succeeded → Keeps Still (confirm_found_by {S = S} known s)
    unfolding confirm_found_by
    confirm_found-Same action_succeeded h =
        answer-Same "confirm_success" key known w.db on_record known
    confirm_found-Same action_pending h = Keeps-raise _
    confirm_found-Same action_failed h = Keeps-pure _
    confirm_found-Same (action_other _) h = Keeps-pure _

    confirm_met-Same :
        (s : ActionStatus)
        → s ≡ action_succeeded
        → Keeps Still (confirm_met_by {S = S} known s)
          × Ensures Still
              (confirm_met_by {S = S} known s)
              (λ o d. Still d × IsSome "confirm_success" key known w.db on_record o)
    unfolding confirm_met_by
    confirm_met-Same action_succeeded h = (
      answer-Same "confirm_success" key known w.db on_record known,
      answer-IsSome "confirm_success" key known w.db on_record known,
    )
    confirm_met-Same action_pending h = absurd (ground (arith, h))
    confirm_met-Same action_failed h = absurd (ground (arith, h))
    confirm_met-Same (action_other _) h = absurd (ground (arith, h))

  -- Where the action record of a confirmation with the request's trimmed id, which is not blank,
  -- has succeeded, ConfirmPaymentSuccess changes no row and calls no service that changes
  -- anything, whatever statements fail.
  pub confirm_payment_repeated :
      (lower : String → String) (client : OrderClient S) (topic : String) (clock : ConfirmClock)
      (req : ConfirmPaymentSuccessRequest) (key : String)
      → require_request_id req.request_id ≡ some key
      → is_blank (trim_space key) ≡ false
      → find (is_action "confirm_success" key) w.db.action_records ≡ some known
      → known.status ≡ action_succeeded
      → (confirm_payment_success lower client topic clock req w).1.db ≡ w.db
  unfolding confirm_payment_success confirm_keyed confirm_found confirm_met
  confirm_payment_repeated lower client topic clock req key e filled on_record done =
      let method = normalize_payment_method lower req.payment_method in
      let (kept, answers) = confirm_met-Same key on_record known.status done in
      (Leaves-if (leb_ℤ req.payment_id (pos 0)) (rejected _) (
          Leaves-if (not (is_mock lower method)) (rejected _) (
            with_key req.request_id key
              (λ k. confirm_keyed client topic clock req method k (trade_no_of req)) e
              (keyed_Leaves "confirm_success" key known w.db on_record req.payment_id (pos 0) filled
                confirm_found confirm_met
                (do_confirm client topic clock req method key (trade_no_of req)) (Keeps-pure _)
                (confirm_found-Same key on_record known.status done) kept answers)))).at
        w refl

  module _ (key : String)
      (on_record : find (is_action "close" key) w.db.action_records ≡ some known) where
    close_found-Same :
        (s : ActionStatus) → s ≢ action_pending → Keeps Still (close_found_by {S = S} known s)
    unfolding close_found_by
    close_found-Same action_succeeded h = answer-Same "close" key known w.db on_record known
    close_found-Same action_pending h = absurd (h refl)
    close_found-Same action_failed h = Keeps-pure _
    close_found-Same (action_other _) h = Keeps-pure _

    close_met-Same :
        (s : ActionStatus)
        → s ≢ action_pending
        → Keeps Still (close_met_by {S = S} known s)
          × Ensures Still
              (close_met_by {S = S} known s)
              (λ o d. Still d × IsSome "close" key known w.db on_record o)
    unfolding close_met_by
    close_met-Same action_succeeded h = (
      answer-Same "close" key known w.db on_record known,
      answer-IsSome "close" key known w.db on_record known,
    )
    close_met-Same action_pending h = absurd (h refl)
    close_met-Same action_failed h = (Keeps-raise _, Ensures-raise _)
    close_met-Same (action_other _) h = (Keeps-raise _, Ensures-raise _)

  -- Where the action record of a closing with the request's key, its trimmed id or else the
  -- payment's id, is not pending, ClosePayment changes no row, whatever statements fail.
  pub close_payment_repeated :
      (now : Time) (req : ClosePaymentRequest)
      → let key = close_action_key req.payment_id req.request_id in
        is_blank (trim_space key) ≡ false
        → find (is_action "close" key) w.db.action_records ≡ some known
        → known.status ≢ action_pending
        → (close_payment now req w).1.db ≡ w.db
  unfolding close_payment close_keyed close_found close_met
  close_payment_repeated now req filled on_record done =
      let key = close_action_key req.payment_id req.request_id in
      let (kept, answers) = close_met-Same key on_record known.status done in
      (Leaves-if (leb_ℤ req.payment_id (pos 0) || leb_ℤ req.user_id (pos 0)) (rejected _) (
          keyed_Leaves "close" key known w.db on_record req.payment_id (pos 0) filled close_found
            close_met (do_close now req key) (Keeps-pure _)
            (close_found-Same key on_record known.status done) kept answers)).at
        w refl
