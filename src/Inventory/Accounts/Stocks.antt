-- ===== src/Inventory/Accounts/Stocks.antt =====
-- How the accounts of the stock rows move under the updates of one SKU.
use mesh_cart.Base.{
  ◌≡◌, ◌≢◌, ap, sym, ◌∙◌, List, [], ◌∷◌, Bool, true, false, if◌then◌else◌, inl, inr, Bool-cases,
  arith,
}
use mesh_cart.Base.Int.{ℤ, pos, ◌+ℤ◌, ◌-ℤ◌, ◌≤ℤ◌, eq_ℤ, eq_ℤ→eq, int_laws}
use mesh_cart.Base.Lists.{any, All, update_where, count_where}
use mesh_cart.Base.Rows.{any-update_where, count_where-any}
use mesh_cart.Inventory.Model.{InventoryStock}
use mesh_cart.Inventory.Tables.{
  has_sku, can_reserve, reserve_stock, can_release, release_stock, can_confirm, confirm_stock,
}
use mesh_cart.Inventory.Accounts.{IsBalanced, Accounts, has_stock_id, UniqueStocks}

-- An update of the one row of a SKU, where it picked that row, changes the account of that SKU only.
module _ (sku : ℤ) (p : InventoryStock → Bool) (f : InventoryStock → InventoryStock)
    (on_sku : (s : InventoryStock) → p s ≡ true → has_sku sku s ≡ true)
    (R R' : InventoryStock → Type 0) (hit : (s : InventoryStock) → p s ≡ true → R s → R' (f s))
    (miss : (s : InventoryStock) → has_sku sku s ≡ false → R s → R' s) where
  untouched :
      (ss : List InventoryStock)
      → any (has_sku sku) ss ≡ false
      → All R ss
      → All R' (update_where p f ss)
  untouched [] h a = tt
  untouched (s ∷ ss) h a = (head, untouched ss (ground arith) a.1)
    where
      off : has_sku sku s ≡ false
      off = ground arith

      head : R' (if p s then f s else s)
      head = elim (Bool-cases (p s)) [ inl e ↦ rw e (hit s e a.0) | inr e ↦ rw e (miss s off a.0) ]

  pub update_one :
      (ss : List InventoryStock)
      → UniqueStocks ss
      → count_where p ss ≢ 0
      → All R ss
      → All R' (update_where p f ss)
  update_one [] u c a = tt
  update_one (s ∷ ss) u c a = elim (Bool-cases (p s)) [
    | inl e ↦ (rw e (hit s e a.0), untouched ss (alone e) a.1)
    | inr e ↦ (rw e (miss s (elsewhere e) a.0), update_one ss u.2 (later e) a.1)
  ]
    where
      alone : p s ≡ true → any (has_sku sku) ss ≡ false
      alone e = ap (λ k. any (has_sku k) ss) (sym (eq_ℤ→eq s.sku_id sku (on_sku s e))) ∙ u.0

      later : p s ≡ false → count_where p ss ≢ 0
      later e = ground arith

      elsewhere : p s ≡ false → has_sku sku s ≡ false
      elsewhere e = elim (Bool-cases (has_sku sku s)) [
        | inr off ↦ off
        | inl on ↦ cc (
          sym (ap (λ k. any (has_sku k) ss) (eq_ℤ→eq s.sku_id sku on)) ∙ u.0,
          count_where-any p (has_sku sku) on_sku ss (later e),
        )
      ]

-- The held amounts after one SKU's has gone up or down by `q`.
abbrev pub add_to : ℤ → ℤ → (ℤ → ℤ) → ℤ → ℤ
add_to sku q h k = if eq_ℤ k sku then h k +ℤ q else h k

abbrev pub take_from : ℤ → ℤ → (ℤ → ℤ) → ℤ → ℤ
take_from sku q h k = if eq_ℤ k sku then h k -ℤ q else h k

module _ (sku q : ℤ) (positive : pos 0 ≤ℤ q) (h : ℤ → ℤ) where
  abbrev Account : (ℤ → ℤ) → InventoryStock → Type 0
  Account h s = IsBalanced s × (s.reserved_stock ≡ h s.sku_id)

  reserve_hit :
      (s : InventoryStock)
      → can_reserve sku q s ≡ true
      → Account h s
      → Account (add_to sku q h) (reserve_stock q s)
  reserve_hit s e a = grind int_laws

  release_hit :
      (s : InventoryStock)
      → can_release sku q s ≡ true
      → Account h s
      → Account (take_from sku q h) (release_stock q s)
  release_hit s e a = grind int_laws

  confirm_hit :
      (s : InventoryStock)
      → can_confirm sku q s ≡ true
      → Account h s
      → Account (take_from sku q h) (confirm_stock q s)
  confirm_hit s e a = grind int_laws

  pub reserve-Accounts :
      (ss : List InventoryStock)
      → UniqueStocks ss
      → count_where (can_reserve sku q) ss ≢ 0
      → Accounts h ss
      → Accounts (add_to sku q h) (update_where (can_reserve sku q) (reserve_stock q) ss)
  reserve-Accounts =
      update_one sku (can_reserve sku q) (reserve_stock q) (λ s e. ground arith) (Account h)
        (Account (add_to sku q h)) reserve_hit (λ s e a. (a.0, rw e a.1))

  pub release-Accounts :
      (ss : List InventoryStock)
      → UniqueStocks ss
      → count_where (can_release sku q) ss ≢ 0
      → Accounts h ss
      → Accounts (take_from sku q h) (update_where (can_release sku q) (release_stock q) ss)
  release-Accounts =
      update_one sku (can_release sku q) (release_stock q) (λ s e. ground arith) (Account h)
        (Account (take_from sku q h)) release_hit (λ s e a. (a.0, rw e a.1))

  pub confirm-Accounts :
      (ss : List InventoryStock)
      → UniqueStocks ss
      → count_where (can_confirm sku q) ss ≢ 0
      → Accounts h ss
      → Accounts (take_from sku q h) (update_where (can_confirm sku q) (confirm_stock q) ss)
  confirm-Accounts =
      update_one sku (can_confirm sku q) (confirm_stock q) (λ s e. ground arith) (Account h)
        (Account (take_from sku q h)) confirm_hit (λ s e a. (a.0, rw e a.1))

-- An update that keeps the SKU ids keeps them unique, and keeps what is covered.
pub update-UniqueStocks :
    (p : InventoryStock → Bool) (f : InventoryStock → InventoryStock)
    → ((s : InventoryStock) → (f s).sku_id ≡ s.sku_id)
    → ((s : InventoryStock) → (f s).id ≡ s.id)
    → (ss : List InventoryStock) → UniqueStocks ss
    → UniqueStocks (update_where p f ss)
update-UniqueStocks p f k j [] u = tt
update-UniqueStocks p f k j (s ∷ ss) u = (
  rw same_sku
      (any-update_where (has_sku s.sku_id) p f (λ x. ap (λ i. eq_ℤ i s.sku_id) (k x)) ss ∙ u.0),
  rw same_id (any-update_where (has_stock_id s.id) p f (λ x. ap (λ i. eq_ℤ i s.id) (j x)) ss ∙ u.1),
  update-UniqueStocks p f k j ss u.2,
)
  where
    same_sku : (if p s then f s else s).sku_id ≡ s.sku_id
    same_sku = ground (arith, k s)

    same_id : (if p s then f s else s).id ≡ s.id
    same_id = ground (arith, j s)

pub Accounts-ext :
    (h h' : ℤ → ℤ)
    → ((k : ℤ) → h k ≡ h' k)
    → (ss : List InventoryStock) → Accounts h ss
    → Accounts h' ss
Accounts-ext h h' e [] a = tt
Accounts-ext h h' e (s ∷ ss) a = ((a.0.0, a.0.1 ∙ e s.sku_id), Accounts-ext h h' e ss a.1)
