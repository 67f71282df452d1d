-- ===== src/Inventory/Outcomes/Failures.antt =====
-- Why the reservation of a new item fails.
use mathlib.Core.Path.{subst}
use mesh_cart.Base.{
  ℕ, ◌≡◌, refl, inl, inr, List, [], ◌∷◌, Bool, false, not, ◌&&◌, Option, none, some, String,
  if◌then◌else◌, Bool-cases, Option-cases, arith,
}
use mesh_cart.Base.Int.{ℤ, pos, eq_ℤ, eq_ℤ→eq, ltb_ℤ, leb_ℤ}
use mesh_cart.Base.Lists.{any, find, count_where, update_where}
use mesh_cart.Base.Rows.{find-none-any, update_where-count}
use mesh_cart.Sql.{quiet, Result, ok, err, ◌>>=◌, map_err, statement, take_row}
use mesh_cart.Inventory.Model.{InventoryStock, InventoryDb, reserved}
use mesh_cart.Inventory.Errors.{
  StockError, normalize_duplicate_error, stock_not_found, insufficient_stock, stock_frozen,
  reservation_conflict,
}
use mesh_cart.Inventory.Items.{ReservationItem}
use mesh_cart.Inventory.Tables.{
  has_sku, can_reserve, reserve_stock, update_stocks, insert_reservation, reservation_clashes,
}
use mesh_cart.Inventory.Accounts.{UniqueStocks}
use mesh_cart.Inventory.Outcomes.Steps.{row_of}
use mesh_cart.Inventory.Reservations.{
  reserve_new, classify_reserve_failure, classify_take_error, create_reservation,
}

count-elsewhere :
    (k q : ℤ) (ss : List InventoryStock)
    → any (has_sku k) ss ≡ false
    → count_where (can_reserve k q) ss ≡ 0
count-elsewhere k q [] h = refl
count-elsewhere k q (s ∷ ss) h = ground (arith, count-elsewhere k q ss)

abbrev is_enough : ℤ → InventoryStock → Bool
is_enough q s = eq_ℤ s.status (pos 1) && leb_ℤ q s.available_stock

-- The update picks the SKU's row or none.
count-found :
    (k q : ℤ) (ss : List InventoryStock) (s : InventoryStock)
    → UniqueStocks ss
    → find (has_sku k) ss ≡ some s
    → count_where (can_reserve k q) ss ≡ (if is_enough q s then 1 else 0)
count-found k q [] s u e = cc
count-found k q (x ∷ ss) s u e = elim (Bool-cases (has_sku k x)) [
  | inr off ↦ ground (arith, count-found k q ss s u.2)
  | inl on ↦
      let none_more =
        count-elsewhere k q ss
          (subst (λ j. any (has_sku j) ss ≡ false) (eq_ℤ→eq x.sku_id k on) u.0) in
      ground arith
]

-- What a reservation of a new item should answer: by the SKU's row, if there is one, and by whether
-- the new row's key is taken.
abbrev pub verdict : ℤ → Bool → Option InventoryStock → Result StockError Unit
verdict q taken none = err stock_not_found
verdict q taken (some s) =
    if not (eq_ℤ s.status (pos 1))
    then err stock_frozen
    else if ltb_ℤ s.available_stock q
    then err insufficient_stock
    else if taken
    then err reservation_conflict
    else ok tt

-- Where no statement fails and stock ids and SKUs are unique, the reservation of an item that has
-- none yet answers by the row of its SKU: stock_not_found if there is none, else stock_frozen if
-- its status is not 1, else insufficient_stock if less is available than asked for, else
-- reservation_conflict if the new row's id or key is taken, else success; it never answers that
-- the state conflicts.
pub reserve_new_lem :
    (biz_type biz_id : String) (item : ReservationItem) (d : InventoryDb) (ids : ℕ → ℤ) (n : ℕ)
    → UniqueStocks d.stocks
    → (reserve_new biz_type biz_id item (quiet d ids n)).0
      ≡ verdict item.quantity
          (any (reservation_clashes (row_of biz_type biz_id item reserved (ids n))) d.reservations)
          (find (has_sku item.sku_id) d.stocks)
unfolding reserve_new update_stocks classify_reserve_failure classify_take_error create_reservation
    insert_reservation normalize_duplicate_error map_err take_row statement ◌>>=◌
reserve_new_lem biz_type biz_id item d ids n u =
    let p = can_reserve item.sku_id item.quantity in
    let f = reserve_stock item.quantity in
    elim (Option-cases (find (has_sku item.sku_id) d.stocks)) [
      | inl e ↦
          let none_picked : count_where p d.stocks ≡ 0 =
            count-elsewhere item.sku_id item.quantity d.stocks
              (find-none-any (has_sku item.sku_id) d.stocks e) in
          rw (none_picked, update_where-count p f d.stocks none_picked, e)
      | inr (s, e) ↦
          let picked = count-found item.sku_id item.quantity d.stocks s u e in
          elim (Bool-cases (is_enough item.quantity s)) [
            | inl enough ↦ let one : count_where p d.stocks ≡ 1 = ground arith in ground arith
            | inr short ↦
                let none_picked : count_where p d.stocks ≡ 0 = ground arith in
                let same : update_where p f d.stocks ≡ d.stocks =
                  update_where-count p f d.stocks none_picked in
                ground arith
          ]
    ]
