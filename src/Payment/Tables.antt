-- ===== src/Payment/Tables.antt =====
-- The SQL statements of services/payment-service/biz/repository: their conditions, and the unique keys
-- that a `Create` meets.
use mesh_cart.Base.{
  ℕ, String, Option, none, some, List, [], ◌∷◌, ◌++◌, Bool, false, ◌&&◌, ◌||◌, if◌then◌else◌,
}
use mesh_cart.Base.Int.{ℤ, eq_ℤ, leb_ℤ}
use mesh_cart.Base.Text.{str_eq}
use mesh_cart.Base.Lists.{any, update_where, count_where, mem_ℤ}
use mesh_cart.App.Time.{before, same_time}
use mesh_cart.Sql.{Fault, duplicate_key, ok, err, Query, statement}
use mesh_cart.Payment.Model.{
  Payment, PaymentActionRecord, PaymentStatusLog, PaymentConsumeRecord, PaymentOutbox, PaymentDb,
}

abbrev pub has_payment_id : ℤ → Payment → Bool
has_payment_id payment_id p = eq_ℤ p.payment_id payment_id

-- `payment_id = ? AND user_id = ?`
abbrev pub is_payment_of : ℤ → ℤ → Payment → Bool
is_payment_of payment_id user_id p = eq_ℤ p.payment_id payment_id && eq_ℤ p.user_id user_id

-- `payment_id = ? AND status IN ?`
abbrev pub is_payment_in : ℤ → List ℤ → Payment → Bool
is_payment_in payment_id statuses p = eq_ℤ p.payment_id payment_id && mem_ℤ p.status statuses

-- `order_id = ? AND user_id = ?`
abbrev pub is_for_order : ℤ → ℤ → Payment → Bool
is_for_order order_id user_id p = eq_ℤ p.order_id order_id && eq_ℤ p.user_id user_id

abbrev pub is_key : Option ℤ → ℤ → Bool
is_key none k = false
is_key (some j) k = eq_ℤ j k

-- `active_order_id = ?`
abbrev pub has_active : ℤ → Payment → Bool
has_active order_id p = is_key p.active_order_id order_id

-- `created_at DESC, payment_id DESC`
abbrev pub is_newer : Payment → Payment → Bool
is_newer a b =
    before b.created_at a.created_at
    || (same_time a.created_at b.created_at && leb_ℤ b.payment_id a.payment_id)

-- `action_type = ? AND action_key = ?`
abbrev pub is_action : String → String → PaymentActionRecord → Bool
is_action action_type action_key r =
    str_eq r.action_type action_type && str_eq r.action_key action_key

-- `consumer_group = ? AND event_id = ?`
abbrev pub is_consumed : String → String → PaymentConsumeRecord → Bool
is_consumed consumer_group event_id r =
    str_eq r.consumer_group consumer_group && str_eq r.event_id event_id

-- A row whose column is NULL meets no other at a unique key.
abbrev pub active_taken : Option ℤ → List Payment → Bool
active_taken none ps = false
active_taken (some k) ps = any (has_active k) ps

-- The unique key that an INSERT of a payment meets, if any: the primary key is looked at first.
pub data KeyClash : Type 0 where
  no_clash primary_key active_order_key : KeyClash

module _ {S : Type 0} where
  unfoldable pub insert_payment : Payment → Query (PaymentDb S) Fault KeyClash
  insert_payment p = statement λ d.
      if any (has_payment_id p.payment_id) d.payments
      then (ok primary_key, d)
      else if active_taken p.active_order_id d.payments
      then (ok active_order_key, d)
      else (ok no_clash, record d { payments = d.payments ++ p ∷ [] })

  unfoldable pub insert_log : PaymentStatusLog → Query (PaymentDb S) Fault Unit
  insert_log l = statement λ d.
      if any (λ t. eq_ℤ t.id l.id) d.status_logs
      then (err duplicate_key, d)
      else (ok tt, record d { status_logs = d.status_logs ++ l ∷ [] })

  unfoldable pub insert_outbox : PaymentOutbox → Query (PaymentDb S) Fault Unit
  insert_outbox r = statement λ d.
      if any (λ t. eq_ℤ t.id r.id) d.outbox
      then (err duplicate_key, d)
      else (ok tt, record d { outbox = d.outbox ++ r ∷ [] })

  -- The primary key and uk_payment_action_type_key.
  unfoldable pub insert_action : PaymentActionRecord → Query (PaymentDb S) Fault Unit
  insert_action r = statement λ d.
      if any (λ t. eq_ℤ t.id r.id || is_action r.action_type r.action_key t) d.action_records
      then (err duplicate_key, d)
      else (ok tt, record d { action_records = d.action_records ++ r ∷ [] })

  -- The primary key and uk_payment_consumer_event.
  unfoldable pub insert_consumed : PaymentConsumeRecord → Query (PaymentDb S) Fault Unit
  insert_consumed r = statement λ d.
      if any (λ t. eq_ℤ t.id r.id || is_consumed r.consumer_group r.event_id t) d.consume_records
      then (err duplicate_key, d)
      else (ok tt, record d { consume_records = d.consume_records ++ r ∷ [] })

  -- An UPDATE of the action records, with the number of rows that its condition picked.
  unfoldable pub update_actions :
      (PaymentActionRecord → Bool)
      → (PaymentActionRecord → PaymentActionRecord)
      → Query (PaymentDb S) Fault ℕ
  update_actions p f = statement λ d. (
    ok (count_where p d.action_records),
    record d { action_records = update_where p f d.action_records },
  )
