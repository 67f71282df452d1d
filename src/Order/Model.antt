-- ===== src/Order/Model.antt =====
-- services/order-service/dal/model/model.go: the rows of the order tables.
-- An int32 and an int64 are integers. The columns updated_at and error_message, and created_at of the
-- tables other than orders, which no modelled query reads, are left out.
use mesh_cart.Base.{String, List, Option}
use mesh_cart.Base.Int.{ℤ}
use mesh_cart.App.Time.{Time}

pub record OrderItem : Type 0 where
  pub id : ℤ
  pub order_id : ℤ
  pub product_id : ℤ
  pub sku_id : ℤ
  pub product_title_snapshot : String
  pub sku_title_snapshot : String
  pub sale_price_snapshot : ℤ
  pub quantity : ℤ
  pub subtotal_amount : ℤ

-- The items are no column: a stored row has none, and a query with `Preload` fills them in.
pub record Order : Type 0 where
  pub order_id : ℤ
  pub user_id : ℤ
  pub status : ℤ
  pub total_amount : ℤ
  pub pay_amount : ℤ
  pub expire_at : Time
  pub cancel_reason : String
  pub payment_id : String
  pub payment_method : String
  pub payment_trade_no : String
  pub paid_at : Option Time
  pub created_at : Time
  pub items : List OrderItem

-- The column `status` of an action record.
pub data ActionStatus : Type 0 where
  action_pending action_succeeded action_failed : ActionStatus
  action_other : String → ActionStatus

pub record OrderActionRecord : Type 0 where
  pub id : ℤ
  pub action_type : String
  pub action_key : String
  pub order_id : ℤ
  pub user_id : ℤ
  pub status : ActionStatus

pub record OrderStatusLog : Type 0 where
  pub id : ℤ
  pub order_id : ℤ
  pub from_status : ℤ
  pub to_status : ℤ
  pub action_type : String
  pub reason : String
  pub external_ref : String

-- The four tables, beside the state `S` of the other services that the service calls.
pub record OrderDb (S : Type 0) : Type 0 where
  pub orders : List Order
  pub order_items : List OrderItem
  pub status_logs : List OrderStatusLog
  pub action_records : List OrderActionRecord
  pub others : S
