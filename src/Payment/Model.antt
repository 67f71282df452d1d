-- ===== src/Payment/Model.antt =====
-- services/payment-service/dal/model: the rows of the payment tables. The columns updated_at and
-- error_message, and created_at of the tables other than payments, which no modelled query reads, are
-- left out.
use mesh_cart.Base.{String, List, Option}
use mesh_cart.Base.Int.{ℤ}
use mesh_cart.App.Time.{Time}
use mesh_cart.Mq.Outbox.{OutboxRecord}
use mesh_cart.Order.Model.{ActionStatus}

pub record Payment : Type 0 where
  pub payment_id : ℤ
  pub order_id : ℤ
  pub active_order_id : Option ℤ
  pub user_id : ℤ
  pub status : ℤ
  pub payment_method : String
  pub amount : ℤ
  pub currency : String
  pub payment_trade_no : String
  pub request_id : String
  pub expire_at : Time
  pub succeeded_at : Option Time
  pub closed_at : Option Time
  pub fail_reason : String
  pub created_at : Time

pub record PaymentActionRecord : Type 0 where
  pub id : ℤ
  pub action_type : String
  pub action_key : String
  pub payment_id : ℤ
  pub order_id : ℤ
  pub status : ActionStatus

pub record PaymentStatusLog : Type 0 where
  pub id : ℤ
  pub payment_id : ℤ
  pub from_status : ℤ
  pub to_status : ℤ
  pub action_type : String
  pub reason : String
  pub external_ref : String

pub record PaymentConsumeRecord : Type 0 where
  pub id : ℤ
  pub consumer_group : String
  pub event_id : String
  pub event_name : String
  pub status : ActionStatus

-- biz/service/outbox.go: what the event of a succeeded payment tells.
pub record PaymentSucceededPayload : Type 0 where
  pub payment_id : ℤ
  pub order_id : ℤ
  pub user_id : ℤ
  pub amount : ℤ
  pub payment_method : String
  pub payment_trade_no : String
  pub succeeded_at : ℤ

abbrev pub PaymentOutbox : Type 0
PaymentOutbox = OutboxRecord PaymentSucceededPayload

-- The five tables, beside the state `S` of the order service.
pub record PaymentDb (S : Type 0) : Type 0 where
  pub payments : List Payment
  pub action_records : List PaymentActionRecord
  pub status_logs : List PaymentStatusLog
  pub outbox : List PaymentOutbox
  pub consume_records : List PaymentConsumeRecord
  pub others : S
