-- ===== src/Order/Repeats/Requests.antt =====
-- Requests to create, to cancel and to confirm an order whose key is on record.
use mathlib.Core.Path.{subst}
use mesh_cart.Base.{◌≡◌, refl, sym, ◌∙◌, String, false, Option, some, ◌||◌, if◌then◌else◌, arith}
use mesh_cart.Base.Int.{ℤ, pos, leb_ℤ}
use mesh_cart.Base.Lists.{find, is_empty}
use mesh_cart.Base.Text.{trim_space, is_blank}
use mesh_cart.Sql.{World, ◌>>=◌, or_raise, raise}
use mesh_cart.Sql.Hoare.{
  Leaves, Leaves-bind, Leaves-given, Leaves-Keeps, Leaves-if, Ensures-or_raise, Keeps-or_raise,
  Keeps-raise,
}
use mesh_cart.App.Errors.{BizError, invalid_param}
use mesh_cart.App.Time.{Time}
use mesh_cart.Order.Model.{OrderActionRecord, OrderDb}
use mesh_cart.Order.Tables.{is_action}
use mesh_cart.Order.Service.{Clients, Handler, RpcOrder}
use mesh_cart.Order.Service.Records.{
  require_request_id, resolve_pending_action_record, load_order_by_action_record,
}
use mesh_cart.Order.Service.Create.{CreateOrderRequest, create_order, do_create}
use mesh_cart.Order.Service.Cancel.{CancelOrderRequest, cancel_order, do_cancel}
use mesh_cart.Order.Service.Confirm.{
  ConfirmOrderPaidRequest, confirm_order_paid, do_confirm, payment_action_key, payment_of,
}
use mesh_cart.Order.Repeats.{reused_Leaves}

module _ {S : Type 0} (clients : Clients S) (known : OrderActionRecord)
    (w : World (OrderDb S)) where
  abbrev Still : OrderDb S → Type 0
  Still d = d ≡ w.db

  -- The key is read off the request, and then looked up.
  keyed :
      (t request_id key : String) (order_id user_id : ℤ)
      (go : String → Option OrderActionRecord → Handler S RpcOrder)
      → require_request_id request_id ≡ some key
      → is_blank (trim_space key) ≡ false
      → find (is_action t key) w.db.action_records ≡ some known
      → Leaves Still
          (or_raise (require_request_id request_id) invalid_param >>= λ k.
            resolve_pending_action_record t k order_id user_id >>= λ r.
            if r.1 then go k r.0 else load_order_by_action_record r.0)
          Still
  keyed t request_id key order_id user_id go e filled on_record =
      Leaves-bind (Keeps-or_raise _ _) (λ d h. h) (Ensures-or_raise _ _)
        λ k. Leaves-given λ f. same_key k (sym (some_inj (sym e ∙ f)))
    where
      some_inj : {a b : String} → some a ≡ some b → a ≡ b
      some_inj h = ground arith

      same_key :
          (k : String)
          → k ≡ key
          → Leaves Still
              (resolve_pending_action_record t k order_id user_id >>= λ r.
                if r.1 then go k r.0 else load_order_by_action_record r.0)
              Still
      same_key k h =
          subst
            (λ k.
              Leaves Still
                (resolve_pending_action_record t k order_id user_id >>= λ r.
                  if r.1 then go k r.0 else load_order_by_action_record r.0)
                Still)
            (sym h) (reused_Leaves t key known w.db on_record order_id user_id filled (go key))

  rejected : (e : BizError) → Leaves Still (raise {A = RpcOrder} e) Still
  rejected e = Leaves-Keeps Still (λ d h. h) (λ d h. h) (Keeps-raise e)

  -- Where an action record of a creation has the request's trimmed id, which is not blank,
  -- CreateOrder changes no row and calls no service that changes anything, whatever the record's
  -- status is and whatever statements fail.
  pub create_repeated :
      (now : Time) (req : CreateOrderRequest) (key : String)
      → require_request_id req.request_id ≡ some key
      → is_blank (trim_space key) ≡ false
      → find (is_action "create" key) w.db.action_records ≡ some known
      → (create_order clients now req w).1.db ≡ w.db
  unfolding create_order
  create_repeated now req key e filled on_record =
      (Leaves-if (leb_ℤ req.user_id (pos 0) || is_empty req.items) (rejected _) (
          keyed "create" req.request_id key (pos 0) req.user_id
            (λ k r. do_create clients now req k r) e filled on_record)).at
        w refl

  -- Where an action record of a cancellation has the request's trimmed id, which is not blank,
  -- CancelOrder changes no row and calls no service that changes anything, whatever the record's
  -- status is and whatever statements fail.
  pub cancel_repeated :
      (req : CancelOrderRequest) (key : String)
      → require_request_id req.request_id ≡ some key
      → is_blank (trim_space key) ≡ false
      → find (is_action "cancel" key) w.db.action_records ≡ some known
      → (cancel_order clients req w).1.db ≡ w.db
  unfolding cancel_order
  cancel_repeated req key e filled on_record =
      (Leaves-if (leb_ℤ req.user_id (pos 0) || leb_ℤ req.order_id (pos 0)) (rejected _) (
          keyed "cancel" req.request_id key req.order_id req.user_id
            (λ k r. do_cancel clients req k r) e filled on_record)).at
        w refl

  -- Where an action record of a payment has the request's key, which is not blank,
  -- ConfirmOrderPaid changes no row and calls no service that changes anything, whatever the
  -- record's status is and whatever statements fail.
  pub confirm_repeated :
      (lower : String → String) (now paid_now : Time) (req : ConfirmOrderPaidRequest)
      → is_blank (trim_space (payment_action_key req)) ≡ false
      → find (is_action "pay_confirm" (payment_action_key req)) w.db.action_records ≡ some known
      → (confirm_order_paid lower clients now paid_now req w).1.db ≡ w.db
  unfolding confirm_order_paid
  confirm_repeated lower now paid_now req filled on_record =
      (Leaves-if (leb_ℤ req.order_id (pos 0) || is_blank (trim_space req.payment_id)) (rejected _) (
          reused_Leaves "pay_confirm" (payment_action_key req) known w.db on_record req.order_id
            (pos 0) filled
            (λ r.
              do_confirm clients now paid_now (payment_of lower req) req (payment_action_key req)
                r))).at
        w refl
