-- ===== src/Inventory/Accounts/Steps.antt =====
-- One item of a Reserve, a Release or a ConfirmDeduct keeps the tables consistent.
use mesh_cart.Base.{
  ◌≡◌, refl, ◌≢◌, ap, ◌∙◌, List, [], ◌∷◌, ◌++◌, Bool, true, false, some, String, if◌then◌else◌,
  arith,
}
use mesh_cart.Base.Int.{ℤ, eq_ℤ}
use mesh_cart.Base.Lists.{any, find, update_where, count_where, All, All-append, All-update_where}
use mesh_cart.Base.Rows.{any-update_where, count_where-any, any-false-imp}
use mesh_cart.Sql.{ok, err, duplicate_key, map_err}
use mesh_cart.Sql.Hoare.{
  OnRows, Ensures, Ensures-bind, Ensures-map_err, Ensures-statement, Ensures-write, Ensures-next_id,
}
use mesh_cart.Inventory.Model.{InventoryStock, InventoryReservation, InventoryDb, ReservationStatus}
use mesh_cart.Inventory.Errors.{driver}
use mesh_cart.Inventory.Items.{ReservationItem, IsValid, build_reservation_payload}
use mesh_cart.Inventory.Tables.{has_sku, update_stocks, insert_reservation, reservation_clashes}
use mesh_cart.Inventory.Reservations.{ReservationMap, mark_reservation, create_reservation}
use mesh_cart.Inventory.Accounts.{
  is_live, held, Accounts, UniqueStocks, has_id, UniqueIds, IsCovered,
}
use mesh_cart.Inventory.Accounts.Stocks.{take_from, update-UniqueStocks, Accounts-ext}
use mesh_cart.Inventory.Accounts.Held.{settle, UniqueIds-append, UniqueIds-settle, take_from-share}
use mesh_cart.Inventory.Accounts.Settling.{
  Loaded, Ready, update-IsCovered, Loaded-settle, Loaded-append,
}

-- Between the two writes of a step: the stocks are already moved, the reservations not yet.
pub record Moved (h : (ℤ → ℤ) → ℤ → ℤ) (existing : ReservationMap) (items : List ReservationItem)
    (d : InventoryDb) : Type 0 where
  pub accounts : Accounts (h λ k. held k d.reservations) d.stocks
  pub unique_stocks : UniqueStocks d.stocks
  pub unique_ids : UniqueIds d.reservations
  pub covered : All (IsCovered d.stocks) d.reservations
  pub loaded : All (Loaded existing d.reservations) items

module _ (existing : ReservationMap) (item : ReservationItem) (items : List ReservationItem)
    (valid : IsValid (item ∷ items)) where
  module _ (p : InventoryStock → Bool) (f : InventoryStock → InventoryStock)
      (keeps : (s : InventoryStock) → (f s).sku_id ≡ s.sku_id)
      (keeps_id : (s : InventoryStock) → (f s).id ≡ s.id) (h : (ℤ → ℤ) → ℤ → ℤ)
      (moved : (g : ℤ → ℤ) (ss : List InventoryStock)
        → UniqueStocks ss
        → count_where p ss ≢ 0
        → Accounts g ss
        → Accounts (h g) (update_where p f ss))
      (of_sku : (s : InventoryStock) → p s ≡ true → has_sku item.sku_id s ≡ true) where
    -- The update of the stocks, where it picked a row.
    pub update-Moved :
        Ensures (Ready existing (item ∷ items)) (map_err driver (update_stocks p f)) (λ rows d.
          rows ≢ 0
          → Moved h existing (item ∷ items) d × (any (has_sku item.sku_id) d.stocks ≡ true))
    unfolding update_stocks
    update-Moved = Ensures-map_err driver (
        Ensures-statement _ λ d r some_row. (
          record {
            accounts = moved _ d.stocks r.consistent.unique_stocks some_row r.consistent.accounts;
            unique_stocks =
                update-UniqueStocks p f keeps keeps_id d.stocks r.consistent.unique_stocks;
            unique_ids = r.consistent.unique_ids;
            covered = update-IsCovered p f keeps d.stocks d.reservations r.consistent.covered;
            loaded = r.loaded;
          },
          any-update_where (has_sku item.sku_id) p f (λ x. ap (λ i. eq_ℤ i item.sku_id) (keeps x))
                d.stocks
              ∙ count_where-any p (has_sku item.sku_id) of_sku d.stocks some_row,
        ))

  -- Settling a live reservation whose stock was moved.
  pub mark-Ready :
      (r : InventoryReservation) (status : ReservationStatus) (payload : String)
      → existing item.sku_id ≡ some r
      → is_live r.status ≡ true
      → is_live status ≡ false
      → r.quantity ≡ item.quantity
      → Ensures
          (Moved (take_from item.sku_id item.quantity) existing (item ∷ items))
          (mark_reservation r.id status payload)
          (λ _. Ready existing items)
  unfolding mark_reservation
  mark-Ready r status payload e live dead eq =
      Ensures-map_err driver (Ensures-write _ λ d m. keep d m (m.loaded.0 r e))
    where
      keep :
          (d : InventoryDb)
          → Moved (take_from item.sku_id item.quantity) existing (item ∷ items) d
          → (find (has_id r.id) d.reservations ≡ some r) × (r.sku_id ≡ item.sku_id)
          → Ready existing items (record d {
            reservations = update_where (has_id r.id) (settle status payload) d.reservations;
          })
      keep d m (found, of_sku) = record {
        consistent = record {
          accounts =
              Accounts-ext _ _
                (take_from-share item.sku_id item.quantity r.id status payload d.reservations r
                  m.unique_ids found dead live of_sku eq)
                d.stocks m.accounts;
          unique_stocks = m.unique_stocks;
          unique_ids = UniqueIds-settle r.id status payload d.reservations m.unique_ids;
          covered =
              All-update_where (IsCovered d.stocks) (has_id r.id) (settle status payload)
                (λ x _ _ lives. cc) d.reservations m.covered;
        };
        loaded =
            Loaded-settle existing r.id status payload d.reservations r items found
              (rw of_sku valid.2) m.loaded.1;
      }

  abbrev pub new_row : String → String → ℤ → ReservationStatus → InventoryReservation
  new_row biz_type biz_id id status = record {
    id = id;
    biz_type = biz_type;
    biz_id = biz_id;
    sku_id = item.sku_id;
    quantity = item.quantity;
    status = status;
    payload_snapshot = build_reservation_payload biz_type biz_id item;
  }

  -- A new reservation, whose share the stocks already count.
  pub create-Ready :
      (biz_type biz_id : String) (status : ReservationStatus) (h : (ℤ → ℤ) → ℤ → ℤ)
      → ((rs : List InventoryReservation) (id k : ℤ)
          → h (λ j. held j rs) k ≡ held k (rs ++ new_row biz_type biz_id id status ∷ []))
      → Ensures
          (λ d.
            Moved h existing (item ∷ items) d
            × (is_live status ≡ true → any (has_sku item.sku_id) d.stocks ≡ true))
          (create_reservation biz_type biz_id item status)
          (λ _. Ready existing items)
  unfolding create_reservation insert_reservation
  create-Ready biz_type biz_id status h share_of = Ensures-bind _ Ensures-next_id λ id.
      Ensures-map_err _ (
        Ensures-statement _ λ d (m, has_stock).
          inserted id d m has_stock
            (any (reservation_clashes (new_row biz_type biz_id id status)) d.reservations) refl)
    where
      inserted :
          (id : ℤ) (d : InventoryDb)
          → Moved h existing (item ∷ items) d
          → (is_live status ≡ true → any (has_sku item.sku_id) d.stocks ≡ true)
          → (c : Bool)
          → any (reservation_clashes (new_row biz_type biz_id id status)) d.reservations ≡ c
          → OnRows
              (λ _. Ready existing items)
              (if c then (err duplicate_key, d) else (
                ok tt,
                record d {
                  reservations = d.reservations ++ new_row biz_type biz_id id status ∷ [];
                },
              ))
      inserted id d m has_stock true e = tt
      inserted id d m has_stock false e = record {
        consistent = record {
          accounts = Accounts-ext _ _ (share_of d.reservations id) d.stocks m.accounts;
          unique_stocks = m.unique_stocks;
          unique_ids =
              UniqueIds-append d.reservations (new_row biz_type biz_id id status)
                (any-false-imp (has_id id) (reservation_clashes (new_row biz_type biz_id id status))
                  (λ x. ground arith) d.reservations e)
                m.unique_ids;
          covered =
              All-append (IsCovered d.stocks) d.reservations
                (new_row biz_type biz_id id status ∷ []) m.covered (has_stock, tt);
        };
        loaded =
            Loaded-append existing d.reservations (new_row biz_type biz_id id status) items
              m.loaded.1;
      }

  pub Ready-tail : (d : InventoryDb) → Ready existing (item ∷ items) d → Ready existing items d
  Ready-tail d r = record { consistent = r.consistent; loaded = r.loaded.1 }
