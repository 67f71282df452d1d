-- ===== src/Order/Tables.antt =====
-- The SQL statements of services/order-service/biz/repository/repository.go: their conditions, and
-- the unique keys that a `Create` meets.
use mesh_cart.Base.{
  ℕ, String, Option, none, some, List, [], ◌∷◌, ◌++◌, Bool, false, not, ◌&&◌, ◌||◌, if◌then◌else◌,
}
use mesh_cart.Base.Int.{ℤ, pos, eq_ℤ, leb_ℤ}
use mesh_cart.Base.Text.{str_eq}
use mesh_cart.Base.Lists.{any, select, update_where, count_where, mem_ℤ}
use mesh_cart.App.Time.{Time, before, same_time}
use mesh_cart.Sql.{Fault, duplicate_key, ok, err, Query, statement}
use mesh_cart.Order.Model.{Order, OrderItem, OrderStatusLog, OrderActionRecord, OrderDb}

abbrev pub has_order_id : ℤ → Order → Bool
has_order_id order_id o = eq_ℤ o.order_id order_id

-- `order_id = ? AND user_id = ?`
abbrev pub is_order_of : ℤ → ℤ → Order → Bool
is_order_of user_id order_id o = eq_ℤ o.order_id order_id && eq_ℤ o.user_id user_id

-- `order_id = ? AND status IN ?`
abbrev pub is_order_in : ℤ → List ℤ → Order → Bool
is_order_in order_id statuses o = eq_ℤ o.order_id order_id && mem_ℤ o.status statuses

-- `created_at DESC, order_id DESC`
abbrev pub is_newer : Order → Order → Bool
is_newer a b =
    before b.created_at a.created_at
    || (same_time a.created_at b.created_at && leb_ℤ b.order_id a.order_id)

-- `status IN (1, 2) AND expire_at <= ?`
abbrev pub is_expired : Time → Order → Bool
is_expired now o = mem_ℤ o.status (pos 1 ∷ pos 2 ∷ []) && not (before now o.expire_at)

-- `expire_at ASC, order_id ASC`
abbrev pub is_earlier : Order → Order → Bool
is_earlier a b =
    before a.expire_at b.expire_at
    || (same_time a.expire_at b.expire_at && leb_ℤ a.order_id b.order_id)

-- `action_type = ? AND action_key = ?`
abbrev pub is_action : String → String → OrderActionRecord → Bool
is_action action_type action_key r =
    str_eq r.action_type action_type && str_eq r.action_key action_key

-- One INSERT of several rows: an id that is taken, or that two of them share, fails it.
abbrev pub items_clash : List OrderItem → List OrderItem → Bool
items_clash taken [] = false
items_clash taken (i ∷ is) = any (λ t. eq_ℤ t.id i.id) taken || items_clash (i ∷ taken) is

module _ {S : Type 0} where
  -- `Preload("Items")`
  abbrev pub with_items : OrderDb S → Order → Order
  with_items d o = record o { items = select (λ i. eq_ℤ i.order_id o.order_id) d.order_items }

  abbrev pub load_items : OrderDb S → Option Order → Option Order
  load_items d none = none
  load_items d (some o) = some (with_items d o)

  unfoldable pub insert_order : Order → Query (OrderDb S) Fault Unit
  insert_order o = statement λ d.
      if any (has_order_id o.order_id) d.orders
      then (err duplicate_key, d)
      else (ok tt, record d { orders = d.orders ++ record o { items = [] } ∷ [] })

  unfoldable pub insert_items : List OrderItem → Query (OrderDb S) Fault Unit
  insert_items items = statement λ d.
      if items_clash d.order_items items
      then (err duplicate_key, d)
      else (ok tt, record d { order_items = d.order_items ++ items })

  unfoldable pub insert_log : OrderStatusLog → Query (OrderDb S) Fault Unit
  insert_log l = statement λ d.
      if any (λ t. eq_ℤ t.id l.id) d.status_logs
      then (err duplicate_key, d)
      else (ok tt, record d { status_logs = d.status_logs ++ l ∷ [] })

  -- The primary key and uk_order_action_type_key.
  unfoldable pub insert_action : OrderActionRecord → Query (OrderDb S) Fault Unit
  insert_action r = statement λ d.
      if any (λ t. eq_ℤ t.id r.id || is_action r.action_type r.action_key t) d.action_records
      then (err duplicate_key, d)
      else (ok tt, record d { action_records = d.action_records ++ r ∷ [] })

  -- An UPDATE of the action records, with the number of rows that its condition picked.
  unfoldable pub update_actions :
      (OrderActionRecord → Bool)
      → (OrderActionRecord → OrderActionRecord)
      → Query (OrderDb S) Fault ℕ
  update_actions p f = statement λ d. (
    ok (count_where p d.action_records),
    record d { action_records = update_where p f d.action_records },
  )
