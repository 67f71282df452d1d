-- ===== src/Payment/Invariant.antt =====
-- What the payment tables promise: at most one payment of an order is pending, a payment has its event
-- in the outbox once if it has succeeded and never otherwise, and one that is not pending never
-- changes.
pub mod Writes
pub mod Tables
pub mod Changes
pub mod Records
pub mod Handlers
pub mod Requests
pub mod Creation
pub mod Lifecycle
use mesh_cart.Base.{
  ℕ, String, List, [], ◌∷◌, ◌++◌, Bool, true, false, Option, none, some, ◌&&◌, ◌≡◌, if◌then◌else◌,
}
use mesh_cart.Base.Int.{ℤ, pos, eq_ℤ}
use mesh_cart.Base.Decimal.{format_int}
use mesh_cart.Base.Lists.{any, find, count_where, All}
use mesh_cart.Base.Unique.{UniqueBy}
use mesh_cart.Mq.Outbox.{Envelope}
use mesh_cart.Payment.Model.{Payment, PaymentOutbox, PaymentSucceededPayload, PaymentDb}
use mesh_cart.Payment.Tables.{has_payment_id, has_active}

abbrev pub id_of : Payment → ℤ
id_of p = p.payment_id

abbrev pub is_pending : Payment → Bool
is_pending p = eq_ℤ p.status (pos 1)

abbrev pub is_succeeded : Payment → Bool
is_succeeded p = eq_ℤ p.status (pos 2)

-- The payment that a row of the outbox tells of.
abbrev pub payload_id : Option PaymentSucceededPayload → Option ℤ
payload_id none = none
payload_id (some b) = some b.payment_id

abbrev pub told_id : Option (Envelope PaymentSucceededPayload) → Option ℤ
told_id none = none
told_id (some e) = payload_id e.payload

abbrev pub is_id : ℤ → Option ℤ → Bool
is_id k none = false
is_id k (some j) = eq_ℤ j k

abbrev pub is_event_of : ℤ → PaymentOutbox → Bool
is_event_of k r = is_id k (told_id r.body)

abbrev pub events : ℤ → List PaymentOutbox → ℕ
events k rs = count_where (is_event_of k) rs

-- The order of a pending payment is not that of another payment that holds the order's key.
abbrev pub Single : List Payment → Type 0
Single [] = Unit
Single (p ∷ ps) =
    (is_pending p ≡ true → (any (λ x. is_pending x && eq_ℤ x.order_id p.order_id) ps ≡ false))
    × Single ps

abbrev pub is_known : List Payment → Option ℤ → Bool
is_known ps none = true
is_known ps (some k) = any (has_payment_id k) ps

pub record IsSound (payments : List Payment) (outbox : List PaymentOutbox) : Type 0 where
  pub active :
      All (λ p. p.active_order_id ≡ (if is_pending p then some p.order_id else none)) payments
  pub unique : UniqueBy id_of payments
  pub single : Single payments
  pub told : All (λ p. events p.payment_id outbox ≡ (if is_succeeded p then 1 else 0)) payments
  pub known : All (λ r. is_known payments (told_id r.body) ≡ true) outbox
