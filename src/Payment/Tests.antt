-- ===== src/Payment/Tests.antt =====
-- The payment service on small tables: runs, and the theorems at concrete inputs.
use mesh_cart.Base.{
  ◌+◌, ◌≡◌, ◌≢◌, refl, inl, inr, String, List, [], ◌∷◌, true, false, Option, none, some, arith,
}
use mesh_cart.Base.Int.{ℤ, pos, eq_ℤ}
use mesh_cart.Base.Decimal.{format_int}
use mesh_cart.Base.Lists.{All, find}
use mesh_cart.Base.Rows.{In}
use mesh_cart.Base.Text.{str_eq, trim_space, is_blank}
use mesh_cart.Sql.{World, quiet, ok}
use mesh_cart.App.Time.{Time}
use mesh_cart.Mq.Outbox.{outbox_pending, no_headers}
use mesh_cart.Order.Model.{ActionStatus, action_succeeded, action_failed}
use mesh_cart.Order.Service.{replied, RpcOrder}
use mesh_cart.Order.Service.Records.{require_request_id}
use mesh_cart.Payment.Model.{Payment, PaymentActionRecord, PaymentOutbox, PaymentDb}
use mesh_cart.Payment.Tables.{has_payment_id}
use mesh_cart.Payment.Service.{OrderClient, RpcPayment, close_action_key}
use mesh_cart.Payment.Service.Create.{CreateClock, CreatePaymentRequest, create_payment}
use mesh_cart.Payment.Service.Confirm.{
  ConfirmClock, ConfirmPaymentSuccessRequest, confirm_payment_success,
}
use mesh_cart.Payment.Service.Close.{ClosePaymentRequest, close_payment}
use mesh_cart.Payment.Invariant.{IsSound, is_succeeded, is_pending}
use mesh_cart.Payment.Invariant.Handlers.{IsHonest}
use mesh_cart.Payment.Invariant.Lifecycle.{
  Request, creates, confirms, closes, handle_all, handle_all-IsSound, settled_stays,
  succeeded_backed,
}
use mesh_cart.Payment.Repeats.Requests.{
  create_payment_repeated, confirm_payment_repeated, close_payment_repeated,
}
use mesh_cart.Payment.Repeats.Stuck.{close_payment_stuck}

abbrev noon : Time
noon = record { unix = pos 1700000000; nano = 0 }

abbrev later : Time
later = record { unix = pos 1700000600; nano = 0 }

abbrev payment : ℤ → ℤ → Option ℤ → ℤ → Payment
payment id order_id active status = record {
  payment_id = id;
  order_id = order_id;
  active_order_id = active;
  user_id = pos 5;
  status = status;
  payment_method = "mock";
  amount = pos 250;
  currency = "CNY";
  payment_trade_no = "";
  request_id = "r";
  expire_at = later;
  succeeded_at = none;
  closed_at = none;
  fail_reason = "";
  created_at = noon;
}

-- One payment is pending, one has succeeded.
abbrev open_payment : Payment
open_payment = payment (pos 1) (pos 7) (some (pos 7)) (pos 1)

abbrev done_payment : Payment
done_payment = payment (pos 2) (pos 8) none (pos 2)

abbrev done_event : PaymentOutbox
done_event = record {
  id = pos 90;
  topic = "payments";
  event_name = "payment.succeeded";
  event_key = "2";
  producer = "payment-service";
  headers_json = no_headers;
  body = some (record {
    id = "89";
    event_name = "payment.succeeded";
    topic = "payments";
    key = "2";
    producer = "payment-service";
    version = pos 1;
    occurred_at = noon;
    payload = some (record {
      payment_id = pos 2;
      order_id = pos 8;
      user_id = pos 5;
      amount = pos 250;
      payment_method = "mock";
      payment_trade_no = "";
      succeeded_at = pos 1700000000;
    });
  });
  status = outbox_pending;
  retry_count = pos 0;
  max_retries = pos 16;
  next_retry_at = none;
  published_at = none;
}

-- An order service that writes down what it confirms.
abbrev Log : Type 0
Log = List (ℤ × String)

abbrev an_order : RpcOrder
an_order = record {
  order_id = pos 9;
  user_id = pos 5;
  status = pos 2;
  total_amount = pos 250;
  pay_amount = pos 250;
  expire_at = pos 1700000600;
  items = [];
  cancel_reason = "";
  payment_id = "";
  paid_at = pos 0;
  payment_method = "";
  payment_trade_no = "";
}

abbrev agreeable : OrderClient Log
agreeable = record {
  get_order = λ user_id order_id s. (replied 0 (some an_order), s);
  confirm_order_paid = λ req s. (replied 0 (some an_order), (req.order_id, req.payment_id) ∷ s);
}

abbrev record_of : String → String → ActionStatus → PaymentActionRecord
record_of action_type key status = record {
  id = pos 40;
  action_type = action_type;
  action_key = key;
  payment_id = pos 2;
  order_id = pos 8;
  status = status;
}

abbrev world_with : List PaymentActionRecord → World (PaymentDb Log)
world_with records =
    quiet
      (record {
        payments = open_payment ∷ done_payment ∷ [];
        action_records = records;
        status_logs = [];
        outbox = done_event ∷ [];
        consume_records = [];
        others = (pos 8, format_int (pos 2)) ∷ [];
      })
      (λ n. pos (1000 + n)) 0

abbrev world : World (PaymentDb Log)
world = world_with []

abbrev as_is : String → String
as_is s = s

abbrev create_clock : CreateClock
create_clock = record {
  looked = λ id. noon;
  closing = λ id. noon;
  checked = noon;
  ttl = noon;
  created = noon;
}

abbrev confirm_clock : ConfirmClock
confirm_clock = record { looked = noon; closing = noon; succeeding = noon }

abbrev create_9 : CreatePaymentRequest
create_9 = record { order_id = pos 9; user_id = pos 5; payment_method = " mock"; request_id = "c1" }

abbrev confirm_1 : ConfirmPaymentSuccessRequest
confirm_1 = record {
  payment_id = pos 1;
  payment_method = "mock";
  payment_trade_no = "";
  paid_at = pos 1700000100;
  request_id = "k1";
}

abbrev close_1 : ClosePaymentRequest
close_1 = record { payment_id = pos 1; user_id = pos 5; reason = ""; request_id = "x1" }

abbrev requests : List Request
requests =
    creates create_clock create_9 ∷ confirms confirm_clock confirm_1 ∷ closes noon close_1 ∷ []

tables-IsSound : IsSound world.db.payments world.db.outbox
unfolding eq_ℤ
tables-IsSound = record {
  active = (refl, (refl, tt));
  unique = (refl, (refl, tt));
  single = ((λ _. refl), ((λ _. refl), tt));
  told = (refl, (refl, tt));
  known = (refl, tt);
}

handle_all-IsSound_example :
    let w' = handle_all as_is agreeable "payments" requests world in
    IsSound w'.db.payments w'.db.outbox
handle_all-IsSound_example =
    handle_all-IsSound as_is agreeable "payments" requests world tables-IsSound

found_done : find (has_payment_id (pos 2)) world.db.payments ≡ some done_payment
unfolding eq_ℤ
found_done = refl

done_not_pending : is_pending done_payment ≡ false
unfolding eq_ℤ
done_not_pending = refl

settled_stays_example :
    find (has_payment_id (pos 2)) (handle_all as_is agreeable "payments" requests world).db.payments
    ≡ some done_payment
settled_stays_example =
    settled_stays as_is agreeable "payments" requests world done_payment tables-IsSound found_done
      done_not_pending

-- What the order service has written down.
abbrev Confirmed : ℤ → String → Log → Type 0
Confirmed order_id payment_id s = In (order_id, payment_id) s

agreeable-IsHonest : IsHonest agreeable Confirmed
agreeable-IsHonest = record {
  get_keeps = λ user_id order_id k id s h. h;
  confirm_keeps = λ req k id s h. inr h;
  confirm_told = λ req s h. inl refl;
}

All-backed :
    All
      (λ p. is_succeeded p ≡ true → Confirmed p.order_id (format_int p.payment_id) world.db.others)
      world.db.payments
unfolding eq_ℤ
All-backed = ((λ h. absurd (ground (arith, h))), ((λ _. inl refl), tt))

succeeded_backed_example :
    let w' = handle_all as_is agreeable "payments" requests world in
    All
      (λ p. is_succeeded p ≡ true → Confirmed p.order_id (format_int p.payment_id) w'.db.others)
      w'.db.payments
succeeded_backed_example =
    succeeded_backed as_is agreeable "payments" Confirmed agreeable-IsHonest requests world
      tables-IsSound All-backed

key_of : (s t : String) → trim_space s ≡ t → is_blank t ≡ false → require_request_id s ≡ some t
unfolding require_request_id
key_of s t e f = rw (e, f)

trim_c1 : trim_space "c1" ≡ "c1"
unfolding trim_space
trim_c1 = refl

trim_k1 : trim_space "k1" ≡ "k1"
unfolding trim_space
trim_k1 = refl

create_payment_repeated_example :
    let w = world_with (record_of "create" "c1" action_succeeded ∷ []) in
    (create_payment as_is agreeable create_clock create_9 w).1.db ≡ w.db
unfolding trim_space str_eq
create_payment_repeated_example =
    create_payment_repeated (record_of "create" "c1" action_succeeded)
      (world_with (record_of "create" "c1" action_succeeded ∷ [])) as_is agreeable create_clock
      create_9 "c1" (key_of "c1" "c1" trim_c1 refl) refl refl (λ h. absurd (ground (arith, h)))

confirm_payment_repeated_example :
    let w = world_with (record_of "confirm_success" "k1" action_succeeded ∷ []) in
    (confirm_payment_success as_is agreeable "payments" confirm_clock confirm_1 w).1.db ≡ w.db
unfolding trim_space str_eq
confirm_payment_repeated_example =
    confirm_payment_repeated (record_of "confirm_success" "k1" action_succeeded)
      (world_with (record_of "confirm_success" "k1" action_succeeded ∷ [])) as_is agreeable
      "payments" confirm_clock confirm_1 "k1" (key_of "k1" "k1" trim_k1 refl) refl refl refl

close_payment_repeated_example :
    let w = world_with (record_of "close" "x1" action_succeeded ∷ []) in
    (close_payment noon close_1 w).1.db ≡ w.db
unfolding trim_space str_eq close_action_key
close_payment_repeated_example =
    close_payment_repeated (record_of "close" "x1" action_succeeded)
      (world_with (record_of "close" "x1" action_succeeded ∷ [])) noon close_1 refl refl
      (λ h. absurd (ground (arith, h)))

a_reply : RpcPayment
a_reply = record {
  payment_id = pos 1;
  order_id = pos 7;
  user_id = pos 5;
  status = pos 4;
  payment_method = "mock";
  amount = pos 250;
  currency = "CNY";
  payment_trade_no = "";
  expire_at = pos 1700000600;
  succeeded_at = pos 0;
  closed_at = pos 1700000000;
  fail_reason = "payment_closed";
}

close_payment_stuck_example :
    (close_payment noon close_1 (world_with (record_of "close" "x1" action_failed ∷ []))).0
    ≢ ok a_reply
unfolding trim_space str_eq close_action_key
close_payment_stuck_example =
    close_payment_stuck (record_of "close" "x1" action_failed)
      (world_with (record_of "close" "x1" action_failed ∷ [])) noon close_1 refl refl refl a_reply
