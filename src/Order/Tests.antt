-- ===== src/Order/Tests.antt =====
-- The order service on small tables: runs, and the theorems at concrete inputs.
use mesh_cart.Base.{◌≡◌, refl, inl, String, List, [], ◌∷◌, true, false, Option, some, map, arith}
use mesh_cart.Base.Int.{ℤ, pos, eq_ℤ, ◌+ℤ◌, ◌*ℤ◌, wrap64, IsInt64}
use mesh_cart.Base.Lists.{All, find}
use mesh_cart.Base.Text.{str_eq, trim_space, is_blank}
use mesh_cart.Base.Rows.{In}
use mesh_cart.Sql.{World, quiet, ok, map_err, take_row, attempt, statement, ◌>>=◌}
use mesh_cart.Sql.Hoare.{OnOk}
use mesh_cart.App.Time.{Time}
use mesh_cart.Order.Model.{
  Order, OrderItem, OrderStatusLog, OrderDb, OrderActionRecord, action_succeeded,
}
use mesh_cart.Order.Tables.{is_action, insert_action, update_actions}
use mesh_cart.Order.Orders.{get_by_order_id, create_with_items}
use mesh_cart.Order.Actions.{
  create_action_record, update_some_action, mark_action_record_failed_by_id,
}
use mesh_cart.Order.Service.{Clients, replied, ProductSku, Product, reserved, paid}
use mesh_cart.Order.Service.Items.{OrderItemInput, ValidatedOrderItem, Snapshots, build_snapshots}
use mesh_cart.Order.Service.Records.{
  require_request_id, resolve_pending_action_record, create_pending_action_record,
  created_or_existing, resolve_existing, mark_action_failed, fail_action,
}
use mesh_cart.Order.Service.Create.{CreateOrderRequest, create_order, new_order}
use mesh_cart.Order.Service.Cancel.{
  CancelOrderRequest, cancel_order, do_cancel, cancel_loaded, cancel_failed,
}
use mesh_cart.Order.Service.Confirm.{
  ConfirmOrderPaidRequest, confirm_order_paid, payment_action_key,
}
use mesh_cart.Order.Stored.{IsCreated, create_with_items_done}
use mesh_cart.Order.Amounts.{
  AreOf, IsPriced, exact_total, build_snapshots-AreOf, build_snapshots_exact,
}
use mesh_cart.Order.Repeats.Requests.{create_repeated, cancel_repeated, confirm_repeated}
use mesh_cart.Order.History.{IsLogged}
use mesh_cart.Order.History.Lifecycle.{
  Request, creates, cancels, closes, handle, handle_all, handle_all-IsLogged, terminal_stays,
  is_terminal,
}

-- Services that know every SKU and agree to all.
abbrev agreeable : Clients Unit
agreeable = record {
  batch_get_sku = λ ids s. (
    replied 0 (
        map
          (λ k.
            some (record {
              id = k;
              spu_id = pos 3;
              title = "red";
              sale_price = pos 25;
              status = pos 1;
            }))
          ids),
    s,
  );
  batch_get_products = λ ids s.
      (replied 0 (map (λ k. some (record { id = k; title = "shirt"; status = pos 2 })) ids), s);
  reserve_stocks = λ r s. (replied 0 tt, s);
  release_stocks = λ r s. (replied 0 tt, s);
  confirm_stocks = λ r s. (replied 0 tt, s);
}

abbrev noon : Time
noon = record { unix = pos 1700000000; nano = 0 }

abbrev paid_order : Order
paid_order = record {
  order_id = pos 11;
  user_id = pos 5;
  status = paid;
  total_amount = pos 50;
  pay_amount = pos 50;
  expire_at = noon;
  cancel_reason = "";
  payment_id = "p";
  payment_method = "mock";
  payment_trade_no = "";
  paid_at = some noon;
  created_at = noon;
  items = [];
}

abbrev log_of : ℤ → ℤ → ℤ → OrderStatusLog
log_of id from to = record {
  id = id;
  order_id = pos 11;
  from_status = from;
  to_status = to;
  action_type = "";
  reason = "";
  external_ref = "";
}

abbrev books : World (OrderDb Unit)
books =
    quiet
      (record {
        orders = paid_order ∷ [];
        order_items = [];
        status_logs = log_of (pos 11) (pos 0) reserved ∷ log_of (pos 12) reserved paid ∷ [];
        action_records = [];
        others = tt;
      })
      (λ n. pos 100 +ℤ pos n) 0

books-IsLogged : IsLogged books.db.orders books.db.status_logs
unfolding eq_ℤ
books-IsLogged = record { told = (refl, tt); unique = (refl, tt); known = (refl, (refl, tt)) }

abbrev some_requests : List Request
some_requests =
    creates noon (record {
      user_id = pos 5;
      request_id = "r1";
      items = some (record { product_id = pos 3; sku_id = pos 7; quantity = pos 2 }) ∷ [];
    })
    ∷ cancels (record { user_id = pos 5; order_id = pos 11; request_id = "r2"; cancel_reason = "" })
    ∷ closes noon (pos 10)
    ∷ []

handle_all-IsLogged_example :
    IsLogged
      (handle_all (λ s. s) agreeable some_requests books).db.orders
      (handle_all (λ s. s) agreeable some_requests books).db.status_logs
handle_all-IsLogged_example =
    handle_all-IsLogged (λ s. s) agreeable some_requests books books-IsLogged

paid-is_terminal : is_terminal paid ≡ true
unfolding eq_ℤ
paid-is_terminal = refl

-- A cancellation of the paid order, which is refused.
abbrev refused : List Request
refused =
    cancels (record { user_id = pos 5; order_id = pos 11; request_id = "r2"; cancel_reason = "" })
    ∷ []

refused-In : In paid_order (handle_all (λ s. s) agreeable refused books).db.orders
unfolding handle_all handle cancel_order do_cancel cancel_loaded cancel_failed fail_action
    mark_action_failed mark_action_record_failed_by_id update_some_action update_actions
    require_request_id resolve_pending_action_record create_pending_action_record
    created_or_existing create_action_record insert_action resolve_existing get_by_order_id map_err
    take_row attempt statement ◌>>=◌ eq_ℤ str_eq trim_space ◌+ℤ◌
refused-In = inl refl

terminal_stays_example : paid_order.status ≡ paid_order.status
terminal_stays_example =
    terminal_stays (λ s. s) agreeable refused books paid_order paid_order books-IsLogged (inl refl)
      paid-is_terminal refused-In refl

abbrev shirt_item : OrderItem
shirt_item = record {
  id = pos 21;
  order_id = pos 20;
  product_id = pos 3;
  sku_id = pos 7;
  product_title_snapshot = "shirt";
  sku_title_snapshot = "red";
  sale_price_snapshot = pos 25;
  quantity = pos 2;
  subtotal_amount = pos 50;
}

abbrev shirt_order : Order
shirt_order = new_order noon (pos 20) (pos 5) (pos 50)

create_with_items_done_example :
    OnOk
      (IsCreated shirt_order (some shirt_item ∷ []) books.db)
      (create_with_items shirt_order (some shirt_item ∷ []) books)
create_with_items_done_example = create_with_items_done shirt_order (some shirt_item ∷ []) books

-- Two shirts at 25, and one at 30.
abbrev price_list : List (ℤ × ProductSku)
price_list =
    (
      pos 7,
      record { id = pos 7; spu_id = pos 3; title = "red"; sale_price = pos 25; status = pos 1 },
    )
    ∷ (
      pos 8,
      record { id = pos 8; spu_id = pos 3; title = "blue"; sale_price = pos 30; status = pos 1 },
    )
    ∷ []

abbrev catalogue : List (ℤ × Product)
catalogue = (pos 3, record { id = pos 3; title = "shirt"; status = pos 2 }) ∷ []

abbrev shirts : List (Option OrderItemInput)
shirts =
    some (record { product_id = pos 3; sku_id = pos 7; quantity = pos 2 })
    ∷ some (record { product_id = pos 3; sku_id = pos 8; quantity = pos 1 })
    ∷ []

abbrev shirt_line : ℤ → String → ℤ → ℤ → ℤ → ValidatedOrderItem
shirt_line sku title price quantity subtotal = record {
  product_id = pos 3;
  sku_id = sku;
  product_title_snapshot = "shirt";
  sku_title_snapshot = title;
  sale_price_snapshot = price;
  quantity = quantity;
  subtotal_amount = subtotal;
}

abbrev shirt_snapshots : Snapshots
shirt_snapshots = record {
  items =
      shirt_line (pos 7) "red" (pos 25) (pos 2) (pos 50)
      ∷ shirt_line (pos 8) "blue" (pos 30) (pos 1) (pos 30)
      ∷ [];
  total = pos 80;
}

shirts_built : build_snapshots price_list catalogue (pos 0) shirts ≡ ok shirt_snapshots
unfolding build_snapshots eq_ℤ ◌+ℤ◌ ◌*ℤ◌ wrap64 trim_space
shirts_built = refl

build_snapshots-AreOf_example : AreOf price_list shirts shirt_snapshots.items
build_snapshots-AreOf_example =
    build_snapshots-AreOf price_list catalogue (pos 0) shirts shirt_snapshots shirts_built

shirts-IsPriced : All IsPriced shirt_snapshots.items × IsInt64 (exact_total shirt_snapshots.items)
unfolding ◌+ℤ◌ ◌*ℤ◌
shirts-IsPriced = ((ground arith, (ground arith, tt)), (ground arith, ground arith))

build_snapshots_exact_example : shirt_snapshots.total ≡ exact_total shirt_snapshots.items
build_snapshots_exact_example =
    build_snapshots_exact price_list catalogue shirts shirt_snapshots shirts_built shirts-IsPriced.0
      shirts-IsPriced.1

-- Each of the three actions is on record with the key "k".
abbrev on_file : String → OrderActionRecord
on_file t = record {
  id = pos 31;
  action_type = t;
  action_key = "k";
  order_id = pos 11;
  user_id = pos 5;
  status = action_succeeded;
}

abbrev filed : String → World (OrderDb Unit)
filed t = record books { db = record books.db { action_records = on_file t ∷ [] } }

found_on_file :
    (find (is_action "create" "k") (filed "create").db.action_records ≡ some (on_file "create"))
    × (find (is_action "cancel" "k") (filed "cancel").db.action_records ≡ some (on_file "cancel"))
    × (find (is_action "pay_confirm" "k") (filed "pay_confirm").db.action_records
        ≡ some (on_file "pay_confirm"))
unfolding str_eq
found_on_file = (refl, refl, refl)

key_is_k : (require_request_id " k" ≡ some "k") × (is_blank (trim_space "k") ≡ false)
unfolding require_request_id trim_space
key_is_k = (refl, refl)

abbrev again : CreateOrderRequest
again = record { user_id = pos 5; request_id = " k"; items = shirts }

create_repeated_example :
    (create_order agreeable noon again (filed "create")).1.db ≡ (filed "create").db
create_repeated_example =
    create_repeated agreeable (on_file "create") (filed "create") noon again "k" key_is_k.0
      key_is_k.1 found_on_file.0

abbrev cancel_again : CancelOrderRequest
cancel_again = record { user_id = pos 5; order_id = pos 11; request_id = " k"; cancel_reason = "" }

cancel_repeated_example :
    (cancel_order agreeable cancel_again (filed "cancel")).1.db ≡ (filed "cancel").db
cancel_repeated_example =
    cancel_repeated agreeable (on_file "cancel") (filed "cancel") cancel_again "k" key_is_k.0
      key_is_k.1 found_on_file.1

abbrev pay_again : ConfirmOrderPaidRequest
pay_again = record {
  order_id = pos 11;
  payment_id = "p";
  payment_method = "mock";
  payment_trade_no = "";
  paid_at = pos 0;
  request_id = "k";
}

pay_found :
    (is_blank (trim_space (payment_action_key pay_again)) ≡ false)
    × (find
          (is_action "pay_confirm" (payment_action_key pay_again))
          (filed "pay_confirm").db.action_records
        ≡ some (on_file "pay_confirm"))
unfolding payment_action_key trim_space str_eq
pay_found = (refl, refl)

confirm_repeated_example :
    (confirm_order_paid (λ s. s) agreeable noon noon pay_again (filed "pay_confirm")).1.db
    ≡ (filed "pay_confirm").db
confirm_repeated_example =
    confirm_repeated agreeable (on_file "pay_confirm") (filed "pay_confirm") (λ s. s) noon noon
      pay_again pay_found.0 pay_found.1
