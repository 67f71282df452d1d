-- ===== src/Order/History.antt =====
-- The history of an order, as its status logs tell it, and what the tables promise of it.
pub mod Writes
pub mod Tables
pub mod Handlers
pub mod Requests
pub mod Lifecycle
use mesh_cart.Base.{
  ◌≡◌, refl, sym, ◌∙◌, List, [], ◌∷◌, ◌++◌, Bool, true, false, Option, none, some, ◌&&◌, ◌||◌,
  if◌then◌else◌, arith,
}
use mesh_cart.Base.Int.{ℤ, pos, eq_ℤ}
use mesh_cart.Base.Lists.{any, All, mem_ℤ}
use mesh_cart.Order.Model.{Order, OrderStatusLog, OrderDb}
use mesh_cart.Order.Tables.{has_order_id}

-- The changes of status that the service means to make: it creates a reserved order, pays a reserved
-- one, and cancels or closes one that is pending or reserved.
abbrev pub is_edge : ℤ → ℤ → Bool
is_edge from to =
    (eq_ℤ from (pos 0) && eq_ℤ to (pos 2))
    || (eq_ℤ from (pos 2) && eq_ℤ to (pos 3))
    || (mem_ℤ from (pos 1 ∷ pos 2 ∷ []) && mem_ℤ to (pos 4 ∷ pos 5 ∷ []))

-- What the logs of an order lead to from a status: each starts where the one before it ended, and is
-- a change that is meant.
abbrev pub history : ℤ → ℤ → List OrderStatusLog → Option ℤ
history order_id s [] = some s
history order_id s (l ∷ ls) =
    if eq_ℤ l.order_id order_id
    then (if eq_ℤ l.from_status s && is_edge l.from_status l.to_status
        then history order_id l.to_status ls
        else none)
    else history order_id s ls

abbrev pub UniqueOrders : List Order → Type 0
UniqueOrders [] = Unit
UniqueOrders (o ∷ os) = (any (has_order_id o.order_id) os ≡ false) × UniqueOrders os

-- The logs lead to each order's status, and there are none of an order that is not there.
pub record IsLogged (orders : List Order) (logs : List OrderStatusLog) : Type 0 where
  pub told : All (λ o. history o.order_id (pos 0) logs ≡ some o.status) orders
  pub unique : UniqueOrders orders
  pub known : All (λ l. any (has_order_id l.order_id) orders ≡ true) logs

-- The tables are so, and their logs go on where others ended.
abbrev pub Grown : {S : Type 0} → List OrderStatusLog → OrderDb S → Type 0
Grown earlier d =
    IsLogged d.orders d.status_logs
    × ((later : List OrderStatusLog) × (d.status_logs ≡ earlier ++ later))

pub history-append :
    (k s m : ℤ) (ls ms : List OrderStatusLog)
    → history k s ls ≡ some m
    → history k s (ls ++ ms) ≡ history k m ms
history-append k s m [] ms h = ground arith
history-append k s m (l ∷ ls) ms h =
    ground (arith, history-append k s m ls ms, history-append k l.to_status m ls ms)

pub history-unknown :
    (k s : ℤ) (ls : List OrderStatusLog)
    → any (λ l. eq_ℤ l.order_id k) ls ≡ false
    → history k s ls ≡ some s
history-unknown k s [] h = refl
history-unknown k s (l ∷ ls) h = ground (arith, history-unknown k s ls)
