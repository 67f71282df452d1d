-- ===== src/Order/History/Lifecycle.antt =====
-- The life of an order over any number of requests to the order service.
use mathlib.Core.Path.{subst}
use mesh_cart.Base.{
  ◌≡◌, refl, sym, ap, ◌∙◌, inl, inr, String, List, [], ◌∷◌, ◌++◌, Bool, true, false, some,
  Bool-cases, arith,
}
use mesh_cart.Base.Int.{ℤ, pos, eq_ℤ, eq_ℤ→eq}
use mesh_cart.Base.Lists.{mem_ℤ, All}
use mesh_cart.Base.Rows.{In}
use mesh_cart.Sql.{World, pure, ◌>>◌}
use mesh_cart.Sql.Hoare.{Keeps-pure, Keeps-raise, Keeps-bind, Keeps-if, Keeps-map_err}
use mesh_cart.App.Time.{Time}
use mesh_cart.Order.Model.{Order, OrderStatusLog, OrderDb}
use mesh_cart.Order.Service.{Clients, Handler}
use mesh_cart.Order.Service.Create.{CreateOrderRequest, create_order}
use mesh_cart.Order.Service.Cancel.{CancelOrderRequest, cancel_order}
use mesh_cart.Order.Service.Confirm.{ConfirmOrderPaidRequest, confirm_order_paid}
use mesh_cart.Order.Service.Close.{close_expired_orders}
use mesh_cart.Order.Service.Queries.{get_order, list_orders}
use mesh_cart.Order.History.{is_edge, history, IsLogged, Grown, history-append}
use mesh_cart.Order.History.Tables.{get_by_order_id-Grown, list_by_user_id-Grown}
use mesh_cart.Order.History.Handlers.{Stays}
use mesh_cart.Order.History.Requests.{create-Stays, cancel-Stays, confirm-Stays, close-Stays}

-- A request, with the clock's readings while it is handled.
pub data Request : Type 0 where
  creates : Time → CreateOrderRequest → Request
  cancels : CancelOrderRequest → Request
  confirms : Time → Time → ConfirmOrderPaidRequest → Request
  closes : Time → ℤ → Request
  gets : ℤ → ℤ → Request
  lists : ℤ → ℤ → ℤ → Request

-- Paid, cancelled or closed.
abbrev pub is_terminal : ℤ → Bool
is_terminal s = mem_ℤ s (pos 3 ∷ pos 4 ∷ pos 5 ∷ [])

no_way_out : (s to : ℤ) → is_terminal s ≡ true → is_edge s to ≡ false
unfolding eq_ℤ
no_way_out s to h = ground arith

history-terminal :
    (k s m : ℤ) (ls : List OrderStatusLog) → is_terminal s ≡ true → history k s ls ≡ some m → m ≡ s
history-terminal k s m [] t h = ground arith
history-terminal k s m (l ∷ ls) t h = elim (Bool-cases (eq_ℤ l.order_id k)) [
  | inr off ↦ history-terminal k s m ls t (ground arith)
  | inl on ↦ elim (Bool-cases (eq_ℤ l.from_status s)) [
    | inr apart ↦ absurd (ground arith)
    | inl same ↦
        let stuck =
          subst (λ f. is_edge f l.to_status ≡ false) (sym (eq_ℤ→eq l.from_status s same))
            (no_way_out s l.to_status t) in
        absurd (ground arith)
  ]
]

All-at : {A : Type 0} (P : A → Type 0) (xs : List A) (a : A) → All P xs → In a xs → P a
All-at P [] a h i = absurd i
All-at P (x ∷ xs) a h (inl e) = subst P (sym e) h.0
All-at P (x ∷ xs) a h (inr i) = All-at P xs a h.1 i

append_nil : (ls : List OrderStatusLog) → ls ≡ ls ++ []
append_nil [] = refl
append_nil (l ∷ ls) = ap (λ m. l ∷ m) (append_nil ls)

module _ {S : Type 0} (lower : String → String) (clients : Clients S) where
  -- One request; its reply or its error is dropped.
  unfoldable pub handle : Request → Handler S Unit
  handle (creates now req) = create_order clients now req >> pure tt
  handle (cancels req) = cancel_order clients req >> pure tt
  handle (confirms now paid_now req) = confirm_order_paid lower clients now paid_now req >> pure tt
  handle (closes now limit) = close_expired_orders clients now limit >> pure tt
  handle (gets user_id order_id) = get_order user_id order_id >> pure tt
  handle (lists user_id page page_size) = list_orders user_id page page_size >> pure tt

  unfoldable pub handle_all : List Request → World (OrderDb S) → World (OrderDb S)
  handle_all [] w = w
  handle_all (r ∷ rs) w = handle_all rs (handle r w).1

  get-Stays :
      (earlier : List OrderStatusLog) (user_id order_id : ℤ)
      → Stays {S = S} earlier (get_order user_id order_id)
  unfolding get_order
  get-Stays earlier user_id order_id =
      Keeps-if _ (Keeps-raise _)
        (Keeps-bind (Keeps-map_err _ (get_by_order_id-Grown earlier _ _)) λ _. Keeps-pure _)

  list-Stays :
      (earlier : List OrderStatusLog) (user_id page page_size : ℤ)
      → Stays {S = S} earlier (list_orders user_id page page_size)
  unfolding list_orders
  list-Stays earlier user_id page page_size =
      Keeps-if _ (Keeps-raise _)
        (Keeps-bind (Keeps-map_err _ (list_by_user_id-Grown earlier _ _ _)) λ _. Keeps-pure _)

  handle-Stays : (earlier : List OrderStatusLog) (r : Request) → Stays earlier (handle r)
  unfolding handle
  handle-Stays earlier (creates now req) =
      Keeps-bind (create-Stays clients earlier now req) λ _. Keeps-pure _
  handle-Stays earlier (cancels req) =
      Keeps-bind (cancel-Stays clients earlier req) λ _. Keeps-pure _
  handle-Stays earlier (confirms now paid_now req) =
      Keeps-bind (confirm-Stays clients earlier lower now paid_now req) λ _. Keeps-pure _
  handle-Stays earlier (closes now limit) =
      Keeps-bind (close-Stays clients earlier now limit) λ _. Keeps-pure _
  handle-Stays earlier (gets user_id order_id) =
      Keeps-bind (get-Stays earlier user_id order_id) λ _. Keeps-pure _
  handle-Stays earlier (lists user_id page page_size) =
      Keeps-bind (list-Stays earlier user_id page page_size) λ _. Keeps-pure _

  grown :
      (earlier : List OrderStatusLog) (rs : List Request) (w : World (OrderDb S))
      → Grown earlier w.db
      → Grown earlier (handle_all rs w).db
  unfolding handle_all
  grown earlier [] w g = g
  grown earlier (r ∷ rs) w g = grown earlier rs (handle r w).1 ((handle-Stays earlier r).at w g)

  -- If the status logs tell the status of every order, they do so after any sequence of requests
  -- to the order service, whatever statements fail and whatever the called services answer: each
  -- log of an order starts from the status that the one before it led to, is a change that the
  -- service means to make (created as reserved; paid from reserved; cancelled or closed from
  -- pending or reserved), and the last one leads to the order's status; order ids stay unique, and
  -- no log is of an order that is not there.
  pub handle_all-IsLogged :
      (rs : List Request) (w : World (OrderDb S))
      → IsLogged w.db.orders w.db.status_logs
      → IsLogged (handle_all rs w).db.orders (handle_all rs w).db.status_logs
  handle_all-IsLogged rs w g =
      (grown w.db.status_logs rs w (g, ([], append_nil w.db.status_logs))).0

  -- If the status logs tell the status of every order, then after any sequence of requests to the
  -- order service, whatever fails or is answered, an order that was paid, cancelled or closed and
  -- is still there has the status that it had.
  pub terminal_stays :
      (rs : List Request) (w : World (OrderDb S)) (o o' : Order)
      → IsLogged w.db.orders w.db.status_logs
      → In o w.db.orders
      → is_terminal o.status ≡ true
      → In o' (handle_all rs w).db.orders
      → o'.order_id ≡ o.order_id
      → o'.status ≡ o.status
  terminal_stays rs w o o' g i t j same =
      let (after, (later, grew)) =
        grown w.db.status_logs rs w (g, ([], append_nil w.db.status_logs)) in
      let told =
        All-at (λ x. history x.order_id (pos 0) w.db.status_logs ≡ some x.status) w.db.orders o
          g.told i in
      let tells =
        All-at (λ x. history x.order_id (pos 0) (handle_all rs w).db.status_logs ≡ some x.status)
          (handle_all rs w).db.orders o' after.told j in
      history-terminal o.order_id o.status o'.status later t (
        sym (history-append o.order_id (pos 0) o.status w.db.status_logs later told)
        ∙ sym (ap (λ ls. history o.order_id (pos 0) ls) grew)
        ∙ sym (ap (λ k. history k (pos 0) (handle_all rs w).db.status_logs) same)
        ∙ tells)
