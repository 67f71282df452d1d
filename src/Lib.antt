-- ===== src/Lib.antt =====
-- MeshCart, an online shop as a set of Go services: the inventory, the order, the payment and the
-- cart service, the outbox through which events leave, and the gateway's sessions.
--
-- The inventory service (services/inventory-service) keeps the stock rows, the reservations that
-- orders hold of them, and the branches of the saga that creates a product. The order service
-- (services/order-service) keeps the orders, their items, a log of the changes of their status, and
-- a record of each action, which makes requests idempotent. An order is created by reserving its
-- stocks at the inventory service and then storing it; a payment confirms the reservation and a
-- cancellation or an expiry releases it. The payment service (services/payment-service) keeps at
-- most one pending payment of an order, asks the order service to confirm it, and then writes the
-- succeeded payment and its event to its outbox in one transaction. The dispatcher (app/mq) takes
-- events from an outbox to a publisher. The cart service (services/cart-service) keeps a quantity
-- for each user and SKU. The gateway (gateway/internal) keeps a session for each login, which a
-- refresh token renews: each renewal draws a new token in place of the old one.
--
-- Base holds what the modules share: integers with the wrap-around of int64 and int32, lists,
-- texts, Go maps with integer and with text keys, rows of a table and their unique keys. Sql is the
-- database session of the repositories: `statement` runs on the rows unless the environment makes
-- it fail, `transaction` is gorm's, and Sql.Hoare has the rules about what a query ensures where it
-- succeeds and what it keeps in any case. The schedule of faults is an argument of every query, so
-- that a theorem about all worlds is about all schedules of lost connections, expired contexts,
-- lock timeouts and duplicate keys.
--
-- Inventory.Model, Inventory.Errors, Inventory.Items, Inventory.Tables, Inventory.Stocks,
-- Inventory.Branches and Inventory.Reservations are dal/model/model.go and
-- biz/repository/repository.go (CreateBatch is `create_batch`, Reserve is `reserve`, ConfirmDeduct
-- is `confirm_deduct` and so on); Inventory.Service and Inventory.Service.Saga are biz/service. The
-- proofs stand in Inventory.Accounts (the tables stay consistent), Inventory.Outcomes (what a
-- request leaves and what it refuses) and under Inventory.Service (the saga; Branches, Creations
-- and Repeats are about steps that are sent again). Order.Model, Order.Errors, Order.Tables,
-- Order.Orders and Order.Actions are the order service's dal/model/model.go and
-- biz/repository/repository.go; Order.Service and its children are biz/service, over a record
-- `Clients` of the calls to the other services. The proofs stand in Order.History (the life of an
-- order), Order.Stored (what is written), Order.Repeats (idempotency) and Order.Amounts.
-- Payment.Model, Payment.Errors, Payment.Tables, Payment.Payments and Payment.Actions are the
-- payment service's dal/model and biz/repository; Payment.Service and its children are biz/service,
-- over a record `OrderClient`. The proofs stand in Payment.Invariant (the payments, their events
-- and their order) and Payment.Repeats (idempotency). Mq.Outbox, Mq.Store and Mq.Dispatcher are
-- app/mq's outbox.go with envelope.go, gorm_store.go and dispatcher.go; Mq.Claims and Mq.Marks have
-- the lemmas on claims and marks, Mq.Delivery, Mq.Done and Mq.Stuck the proofs. Cart.Model,
-- Cart.Items and Cart.Service are the cart service's dal/model, biz/repository and biz/service;
-- Cart.View has the abstract cart, Cart.Keys the rows' keys, Cart.Changes, Cart.Removal and
-- Cart.Failures what the methods do to it, and Cart.Refinement the runs. Gateway.Session is
-- internal/auth/session_store.go's MemorySessionStore and Gateway.Logic is internal/logic/user's
-- login.go, refresh_token.go and logout.go over it; the proofs stand in Gateway.Index and
-- Gateway.Rotation (the index of the tokens), Gateway.Steps (requests as steps of the store),
-- Gateway.Tokens and Gateway.Renewal (the life of a token). Sql.Hoare.Quiet is about queries in a
-- world without faults, Sql.Hoare.Failure about those that change nothing where they fail. App
-- holds the business errors of app/common and of the errno packages, and Go's time.
--
-- Loops are recursion on the lists that they run over, so no fuel is needed; only the printing of
-- an integer has fuel, one more than the number, which has at most that many digits.
--
-- Not modelled: the product and user services, the rest of the gateway with its sessions in Redis,
-- the Kafka clients, and the semaphores of the inventory service's sku_guard.go. Transactions run
-- one after the other, with no interleaving, and an error of COMMIT is taken as one that has
-- applied nothing, although a connection lost at that moment leaves it open. Logs, metrics and
-- traces are left out, and so are the columns last_error and error_message, which nothing reads.
-- JSON texts are kept as what they encode; a time that does not encode is refused as Go refuses it.
-- An id of a generator is drawn from a function of the world, about which nothing is assumed.
-- Integer columns are unbounded; what Go computes in int64 or int32 wraps around.
pub mod Base
pub mod App
pub mod Sql
pub mod Inventory
pub mod Order
pub mod Mq
pub mod Payment
pub mod Cart
pub mod Gateway
