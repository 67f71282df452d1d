-- ===== src/Inventory/Service/Consistency.antt =====
-- The handlers of the inventory service keep the tables consistent, over any number of requests.
use mathlib.Core.Path.{subst}
use mesh_cart.Base.{
  ◌≡◌, refl, List, [], ◌∷◌, Bool, true, false, Option, none, some, String, ◌||◌, if◌then◌else◌,
  arith,
}
use mesh_cart.Base.Int.{ℤ, pos, leb_ℤ, ltb_ℤ, IsInt64}
use mesh_cart.Base.Lists.{All}
use mesh_cart.Sql.{World, Query, Result, ok, err, raise, pure, ◌>>=◌, ◌>>◌, map_err}
use mesh_cart.Sql.Hoare.{
  Keeps, Keeps-pure, Keeps-raise, Keeps-bind, Keeps-map_err, Keeps-if, Keeps-raise_if, Keeps-read,
  Keeps-take_row, Keeps-attempt, Keeps-bind-or_raise,
}
use mesh_cart.App.Errors.{BizError}
use mesh_cart.Inventory.Model.{InventoryStock, InventoryDb, InventoryTxBranch, TxAction}
use mesh_cart.Inventory.Items.{ReservationItem}
use mesh_cart.Inventory.Stocks.{get_by_sku_id}
use mesh_cart.Inventory.Branches.{get_tx_branch}
use mesh_cart.Inventory.Service.{
  Handler, ReservationRequest, StockInput, parse_reservation_items, reserve_sku_stocks,
  release_reserved_sku_stocks, confirm_deduct_reserved_sku_stocks, build_stocks, cons_stock,
  fresh_stock, init_sku_stocks, freeze_sku_stocks, adjust_stock, get_sku_stock, batch_get_sku_stock,
  check_saleable_stock,
}
use mesh_cart.Inventory.Service.Saga.{init_saga, init_forward}
use mesh_cart.Inventory.Accounts.{IsConsistent}
use mesh_cart.Inventory.Accounts.Invariant.{
  reserve-Keeps, release-Keeps, confirm_deduct-Keeps, list-Keeps,
}
use mesh_cart.Inventory.Accounts.Upkeep.{adjust_total_stock-Keeps, freeze_by_sku_ids-Keeps}
use mesh_cart.Inventory.Accounts.Creation.{
  IsFresh, create_batch-Keeps, create_batch_with_tx_branch-Keeps,
}

abbrev OnSome : {A : Type 0} → (A → Type 0) → Option A → Type 0
OnSome P none = Unit
OnSome P (some a) = P a

-- The rows that are built of valid inputs are fresh.
build_stocks-IsFresh :
    (stocks : List (Option StockInput)) → OnSome (All IsFresh) (build_stocks stocks)
unfolding build_stocks
build_stocks-IsFresh [] = tt
build_stocks-IsFresh (none ∷ rest) = tt
build_stocks-IsFresh (some i ∷ rest) =
    checked (leb_ℤ i.sku_id (pos 0) || ltb_ℤ i.total_stock (pos 0)) refl (build_stocks rest)
      (build_stocks-IsFresh rest)
  where
    checked :
        (bad : Bool)
        → (leb_ℤ i.sku_id (pos 0) || ltb_ℤ i.total_stock (pos 0)) ≡ bad
        → (built : Option (List InventoryStock)) → OnSome (All IsFresh) built
        → OnSome (All IsFresh) (if bad then none else cons_stock (fresh_stock i) built)
    checked true e built f = tt
    checked false e none f = tt
    checked false e (some ss) f = ((refl, refl, ground arith), f)

fresh :
    (stocks : List (Option StockInput)) (models : List InventoryStock)
    → build_stocks stocks ≡ some models
    → All IsFresh models
fresh stocks models e = subst (OnSome (All IsFresh)) e (build_stocks-IsFresh stocks)

-- A request of the service, with the guard's answer where the handler asks the guard.
pub data Call : Type 0 where
  reserves : Bool → ReservationRequest → Call
  releases confirms : ReservationRequest → Call
  inits : List (Option StockInput) → Call
  inits_in_saga : String → String → List (Option StockInput) → Call
  freezes batch_gets : List ℤ → Call
  adjusts : ℤ → ℤ → Call
  gets : ℤ → Call
  checks : ℤ → ℤ → Call

-- One request; its reply or its error is dropped.
unfoldable pub serve : Call → Handler Unit
serve (reserves admitted req) = reserve_sku_stocks admitted req >> pure tt
serve (releases req) = release_reserved_sku_stocks req >> pure tt
serve (confirms req) = confirm_deduct_reserved_sku_stocks req >> pure tt
serve (inits stocks) = init_sku_stocks stocks >> pure tt
serve (inits_in_saga g b stocks) = init_saga g b stocks >> pure tt
serve (freezes ids) = freeze_sku_stocks ids >> pure tt
serve (batch_gets ids) = batch_get_sku_stock ids >> pure tt
serve (adjusts sku total) = adjust_stock sku total >> pure tt
serve (gets sku) = get_sku_stock sku >> pure tt
serve (checks sku q) = check_saleable_stock sku q >> pure tt

unfoldable pub serve_all : List Call → World InventoryDb → World InventoryDb
serve_all [] w = w
serve_all (c ∷ cs) w = serve_all cs (serve c w).1

-- The number that a request to adjust carries is an int64.
abbrev pub IsTyped : Call → Type 0
IsTyped (adjusts sku total) = IsInt64 total
IsTyped _ = Unit

module _ {A : Type 0} where
  parsed-Keeps :
      (k : List ReservationItem → Handler A)
      → ((items : List ReservationItem) → Keeps IsConsistent (k items))
      → (r : Result BizError (List ReservationItem))
      → Keeps IsConsistent (elim r [ err e ↦ raise e | ok items ↦ k items ])
  parsed-Keeps k h (ok items) = h items
  parsed-Keeps k h (err e) = Keeps-raise e

  -- A repository call whose errors are mapped and whose rows are put into the reply.
  replied :
      {E B : Type 0} {m : Query InventoryDb E B} (h : E → BizError) (reply : B → A)
      → Keeps IsConsistent m
      → Keeps IsConsistent (map_err h m >>= λ rows. pure (reply rows))
  replied h reply k = Keeps-bind (Keeps-map_err h k) λ _. Keeps-pure _

  then_done : {m : Handler A} → Keeps IsConsistent m → Keeps IsConsistent (m >> pure tt)
  then_done k = Keeps-bind k λ _. Keeps-pure tt

reserves-Keeps :
    (admitted : Bool) (req : ReservationRequest)
    → Keeps IsConsistent (reserve_sku_stocks admitted req)
unfolding reserve_sku_stocks
reserves-Keeps admitted req =
    parsed-Keeps _ (λ items. Keeps-if _ (Keeps-raise _) (replied _ _ (reserve-Keeps _ _ items)))
      (parse_reservation_items req)

releases-Keeps : (req : ReservationRequest) → Keeps IsConsistent (release_reserved_sku_stocks req)
unfolding release_reserved_sku_stocks
releases-Keeps req =
    parsed-Keeps _ (λ items. replied _ _ (release-Keeps _ _ items)) (parse_reservation_items req)

confirms-Keeps :
    (req : ReservationRequest) → Keeps IsConsistent (confirm_deduct_reserved_sku_stocks req)
unfolding confirm_deduct_reserved_sku_stocks
confirms-Keeps req =
    parsed-Keeps _ (λ items. replied _ _ (confirm_deduct-Keeps _ _ items))
      (parse_reservation_items req)

inits-Keeps : (stocks : List (Option StockInput)) → Keeps IsConsistent (init_sku_stocks stocks)
unfolding init_sku_stocks
inits-Keeps stocks = Keeps-if _ (Keeps-raise _) (
    Keeps-bind-or_raise _ _
      λ models e. replied _ _ (create_batch-Keeps models (fresh stocks models e)))

get_tx_branch-Keeps : (g b : String) (a : TxAction) → Keeps IsConsistent (get_tx_branch g b a)
unfolding get_tx_branch
get_tx_branch-Keeps g b a = Keeps-map_err _ (Keeps-read _)

init_forward-Keeps :
    (g b : String) (stocks : List (Option StockInput)) (existing : Option InventoryTxBranch)
    → Keeps IsConsistent (init_forward g b stocks existing)
unfolding init_forward
init_forward-Keeps g b stocks existing = Keeps-if _ (replied _ _ (list-Keeps _)) (
    Keeps-bind-or_raise _ _
      λ models e. replied _ _ (create_batch_with_tx_branch-Keeps _ models (fresh stocks models e)))

init_saga-Keeps :
    (g b : String) (stocks : List (Option StockInput)) → Keeps IsConsistent (init_saga g b stocks)
unfolding init_saga
init_saga-Keeps g b stocks = Keeps-if _ (Keeps-raise _) (
    Keeps-bind (Keeps-map_err _ (get_tx_branch-Keeps _ _ _)) λ undone.
      Keeps-bind (Keeps-raise_if _ _) λ _.
        Keeps-bind (Keeps-map_err _ (get_tx_branch-Keeps _ _ _))
          λ existing. init_forward-Keeps g b stocks existing)

freezes-Keeps : (ids : List ℤ) → Keeps IsConsistent (freeze_sku_stocks ids)
unfolding freeze_sku_stocks
freezes-Keeps ids =
    Keeps-if _ (Keeps-raise _)
      (Keeps-bind (Keeps-raise_if _ _) λ _. replied _ _ (freeze_by_sku_ids-Keeps ids))

batch_gets-Keeps : (ids : List ℤ) → Keeps IsConsistent (batch_get_sku_stock ids)
unfolding batch_get_sku_stock
batch_gets-Keeps ids =
    Keeps-if _ (Keeps-pure _) (Keeps-bind (Keeps-raise_if _ _) λ _. replied _ _ (list-Keeps ids))

adjusts-Keeps : (sku total : ℤ) → IsInt64 total → Keeps IsConsistent (adjust_stock sku total)
unfolding adjust_stock
adjusts-Keeps sku total i =
    Keeps-bind (Keeps-raise_if _ _) λ _. replied _ _ (adjust_total_stock-Keeps sku total i)

get_by_sku_id-Keeps : (sku : ℤ) → Keeps IsConsistent (get_by_sku_id sku)
unfolding get_by_sku_id
get_by_sku_id-Keeps sku = Keeps-map_err _ (Keeps-take_row _)

gets-Keeps : (sku : ℤ) → Keeps IsConsistent (get_sku_stock sku)
unfolding get_sku_stock
gets-Keeps sku = Keeps-bind (Keeps-raise_if _ _) λ _. replied _ _ (get_by_sku_id-Keeps sku)

checks-Keeps : (sku q : ℤ) → Keeps IsConsistent (check_saleable_stock sku q)
unfolding check_saleable_stock
checks-Keeps sku q =
    Keeps-if _ (Keeps-pure _)
      (Keeps-bind (Keeps-attempt (get_by_sku_id-Keeps sku)) λ _. Keeps-pure _)

serve-Keeps : (c : Call) → IsTyped c → Keeps IsConsistent (serve c)
unfolding serve
serve-Keeps (reserves admitted req) t = then_done (reserves-Keeps admitted req)
serve-Keeps (releases req) t = then_done (releases-Keeps req)
serve-Keeps (confirms req) t = then_done (confirms-Keeps req)
serve-Keeps (inits stocks) t = then_done (inits-Keeps stocks)
serve-Keeps (inits_in_saga g b stocks) t = then_done (init_saga-Keeps g b stocks)
serve-Keeps (freezes ids) t = then_done (freezes-Keeps ids)
serve-Keeps (batch_gets ids) t = then_done (batch_gets-Keeps ids)
serve-Keeps (adjusts sku total) t = then_done (adjusts-Keeps sku total t)
serve-Keeps (gets sku) t = then_done (gets-Keeps sku)
serve-Keeps (checks sku q) t = then_done (checks-Keeps sku q)

-- From consistent tables, any sequence of requests to the inventory service (reserve, release,
-- confirm, create stock with or without a saga branch, freeze, adjust to an int64 total, and the
-- queries) leaves consistent tables, whatever statements fail: every stock row's total is its
-- reserved plus its available amount, neither negative; its reserved amount is what the reserved
-- reservations of its SKU hold; ids and SKUs stay unique; every reserved reservation is of a SKU
-- with a row.
pub serve_all-IsConsistent :
    (cs : List Call) (w : World InventoryDb)
    → All IsTyped cs
    → IsConsistent w.db
    → IsConsistent (serve_all cs w).db
unfolding serve_all
serve_all-IsConsistent [] w t c = c
serve_all-IsConsistent (call ∷ cs) w t c =
    serve_all-IsConsistent cs (serve call w).1 t.1 ((serve-Keeps call t.0).at w c)
