-- ===== src/Inventory/Accounts/Creation.antt =====
-- CreateBatch, CreateBatchWithTxBranch and CompensateInitWithTxBranch keep the tables consistent.
use mesh_cart.Base.{
  ◌≡◌, refl, ap, sym, ◌∙◌, inl, inr, List, [], ◌∷◌, ◌++◌, Bool, true, false, not, Option, none,
  some, if◌then◌else◌, Bool-cases, arith,
}
use mesh_cart.Base.Int.{ℤ, pos, ◌+ℤ◌, ◌≤ℤ◌, eq_ℤ, eq_ℤ→eq, eq_ℤ-comm, int_laws}
use mesh_cart.Base.Lists.{
  any, is_empty, mem_ℤ, select, All, All-imp, All-append, All-select, All-imp₂,
}
use mesh_cart.Base.Rows.{any-append, any-select, any-false-select, any-false-imp}
use mesh_cart.Sql.{Fault, ok, err, duplicate_key, map_err}
use mesh_cart.Sql.Hoare.{
  OnRows, Ensures, Keeps, Ensures-bind, Ensures-if, Ensures-pure, Ensures-map_err, Ensures-write,
  Ensures-statement, Ensures-weaken, Keeps-pure, Keeps-bind, Keeps-if, Keeps-raise_if,
  Keeps-transaction,
}
use mesh_cart.Inventory.Model.{InventoryStock, InventoryReservation, InventoryTxBranch, InventoryDb}
use mesh_cart.Inventory.Errors.{StockError, driver}
use mesh_cart.Inventory.Tables.{has_sku, stock_clashes, insert_stock, is_branch, insert_branch}
use mesh_cart.Inventory.Stocks.{create_stocks, create_batch}
use mesh_cart.Inventory.Branches.{
  create_branch, update_branch, create_with_branch_body, create_batch_with_tx_branch, delete_stocks,
  compensate_body, compensate_init_with_tx_branch,
}
use mesh_cart.Inventory.Accounts.{
  is_live, share, held, has_stock_id, UniqueStocks, IsCovered, IsConsistent,
}

-- A row as InitSkuStocks makes it: nothing reserved, all of a total that is not negative available.
abbrev pub IsFresh : InventoryStock → Type 0
IsFresh s =
    (s.reserved_stock ≡ pos 0) × (s.available_stock ≡ s.total_stock) × (pos 0 ≤ℤ s.total_stock)

-- No live reservation is of a SKU that has no row.
held-uncovered :
    (k : ℤ) (ss : List InventoryStock) (rs : List InventoryReservation)
    → All (IsCovered ss) rs
    → any (has_sku k) ss ≡ false
    → held k rs ≡ pos 0
unfolding held
held-uncovered k ss [] c h = refl
held-uncovered k ss (r ∷ rs) c h = rw (held-uncovered k ss rs c.1 h, none_of_k) (omega int_laws)
  where
    none_of_k : share k r ≡ pos 0
    none_of_k = elim (Bool-cases (is_live r.status)) [
      | inr dead ↦ rw dead
      | inl live ↦ elim (Bool-cases (eq_ℤ r.sku_id k)) [
        | inr off ↦ rw (live, off)
        | inl on ↦ cc (sym (ap (λ j. any (has_sku j) ss) (eq_ℤ→eq r.sku_id k on)) ∙ c.0 live, h)
      ]
    ]

UniqueStocks-append :
    (ss : List InventoryStock) (s : InventoryStock)
    → any (stock_clashes s) ss ≡ false
    → UniqueStocks ss
    → UniqueStocks (ss ++ s ∷ [])
UniqueStocks-append [] s h u = (refl, refl, tt)
UniqueStocks-append (x ∷ ss) s h u = (
  rw (any-append (has_sku x.sku_id) ss (s ∷ [])) (ground (arith, eq_ℤ-comm s.sku_id x.sku_id)),
  rw (any-append (has_stock_id x.id) ss (s ∷ [])) (ground (arith, eq_ℤ-comm s.id x.id)),
  UniqueStocks-append ss s (ground arith) u.2,
)

insert-Consistent :
    (s : InventoryStock) (h : Fault → StockError)
    → IsFresh s
    → Ensures IsConsistent (map_err h (insert_stock s)) (λ _. IsConsistent)
unfolding insert_stock
insert-Consistent s h f =
    Ensures-map_err h
      (Ensures-statement _ λ d c. inserted d c (any (stock_clashes s) d.stocks) refl)
  where
    inserted :
        (d : InventoryDb)
        → IsConsistent d
        → (b : Bool) → any (stock_clashes s) d.stocks ≡ b
        → OnRows
            (λ _. IsConsistent)
            (if b
              then (err duplicate_key, d)
              else (ok tt, record d { stocks = d.stocks ++ s ∷ [] }))
    inserted d c true e = tt
    inserted d c false e = record {
      accounts = All-append _ d.stocks (s ∷ []) c.accounts (
        (
          rw (f.0, f.1) (omega (int_laws, f.2)),
          f.0
              ∙ sym (
                  held-uncovered s.sku_id d.stocks d.reservations c.covered (
                    any-false-imp (has_sku s.sku_id) (stock_clashes s) (λ x. ground arith) d.stocks
                      e)),
        ),
        tt,
      );
      unique_stocks = UniqueStocks-append d.stocks s e c.unique_stocks;
      unique_ids = c.unique_ids;
      covered =
          All-imp (IsCovered d.stocks) (IsCovered (d.stocks ++ s ∷ []))
            (λ r cov live. rw (any-append (has_sku r.sku_id) d.stocks (s ∷ []), cov live))
            d.reservations c.covered;
    }

pub create_stocks-Consistent :
    (ss : List InventoryStock)
    → All IsFresh ss
    → Ensures IsConsistent (create_stocks ss) (λ _. IsConsistent)
unfolding create_stocks
create_stocks-Consistent [] f = Ensures-pure tt λ d c. c
create_stocks-Consistent (s ∷ ss) f =
    Ensures-bind _ (insert-Consistent s _ f.0) λ _. create_stocks-Consistent ss f.1

pub create_batch-Keeps :
    (ss : List InventoryStock) → All IsFresh ss → Keeps IsConsistent (create_batch ss)
unfolding create_batch
create_batch-Keeps ss f = Keeps-if (is_empty ss) (Keeps-pure _) (
    Keeps-bind (Keeps-raise_if _ _)
      λ _. Keeps-bind (Keeps-transaction driver (create_stocks-Consistent ss f)) λ _. Keeps-pure _)

-- No live reservation is of one of these SKUs.
abbrev pub IsFree : List ℤ → InventoryDb → Type 0
IsFree sku_ids d =
    All (λ (r : InventoryReservation). is_live r.status ≡ true → mem_ℤ r.sku_id sku_ids ≡ false)
      d.reservations

-- The branches are no part of the accounts.
rebranch :
    (d : InventoryDb) (bs : List InventoryTxBranch) (n : ℤ)
    → IsConsistent d
    → IsConsistent (record d { branches = bs; next_branch_id = n })
rebranch d bs n c = record {
  accounts = c.accounts;
  unique_stocks = c.unique_stocks;
  unique_ids = c.unique_ids;
  covered = c.covered;
}

module _ (sku_ids : List ℤ) where
  abbrev pub IsFreed : InventoryDb → Type 0
  IsFreed d = IsConsistent d × IsFree sku_ids d

  insert_branch-Freed :
      (b : InventoryTxBranch) (h : Fault → StockError)
      → Ensures IsFreed (map_err h (insert_branch b)) (λ _. IsFreed)
  unfolding insert_branch
  insert_branch-Freed b h = Ensures-map_err h (
      Ensures-statement _
        λ d c. inserted d c (any (is_branch b.global_tx_id b.branch_id b.action) d.branches))
    where
      inserted :
          (d : InventoryDb)
          → IsFreed d
          → (clash : Bool)
          → OnRows
              (λ _. IsFreed)
              (if clash then (err duplicate_key, d) else (
                ok d.next_branch_id,
                record d {
                  branches = d.branches ++ record b { id = d.next_branch_id } ∷ [];
                  next_branch_id = d.next_branch_id +ℤ pos 1;
                },
              ))
      inserted d c true = tt
      inserted d c false = (rebranch d _ _ c.0, c.1)

  create_branch-Freed :
      (b : Option InventoryTxBranch) → Ensures IsFreed (create_branch b) (λ _. IsFreed)
  unfolding create_branch
  create_branch-Freed none = Ensures-pure _ λ d c. c
  create_branch-Freed (some b) =
      Ensures-bind _ (insert_branch-Freed b _) λ id. Ensures-pure _ λ d c. c

  update_branch-Freed :
      (b : Option InventoryTxBranch) → Ensures IsFreed (update_branch b) (λ _. IsFreed)
  unfolding update_branch
  update_branch-Freed none = Ensures-pure _ λ d c. c
  update_branch-Freed (some b) =
      Ensures-map_err driver (Ensures-write _ λ d c. (rebranch d _ d.next_branch_id c.0, c.1))

  select-UniqueStocks :
      (p : InventoryStock → Bool) (ss : List InventoryStock)
      → UniqueStocks ss
      → UniqueStocks (select p ss)
  select-UniqueStocks p [] u = tt
  select-UniqueStocks p (s ∷ ss) u = each (p s) (select-UniqueStocks p ss u.2)
    where
      each :
          (b : Bool)
          → UniqueStocks (select p ss)
          → UniqueStocks (if b then s ∷ select p ss else select p ss)
      each true v = (
        any-false-select (has_sku s.sku_id) p ss u.0,
        any-false-select (has_stock_id s.id) p ss u.1,
        v,
      )
      each false v = v

  abbrev is_kept : InventoryStock → Bool
  is_kept s = not (mem_ℤ s.sku_id sku_ids)

  kept :
      (r : InventoryReservation) (s : InventoryStock)
      → mem_ℤ r.sku_id sku_ids ≡ false
      → has_sku r.sku_id s ≡ true
      → is_kept s ≡ true
  kept r s out on = rw (eq_ℤ→eq s.sku_id r.sku_id on, out)

  delete-Freed : Ensures IsFreed (delete_stocks sku_ids) (λ _. IsFreed)
  unfolding delete_stocks
  delete-Freed =
      Ensures-if (is_empty sku_ids) (λ _. Ensures-pure _ λ d c. c)
        λ _. Ensures-map_err driver (Ensures-write _ λ d (c, free). (deleted d c free, free))
    where
      deleted :
          (d : InventoryDb)
          → IsConsistent d
          → IsFree sku_ids d
          → IsConsistent (record d { stocks = select is_kept d.stocks })
      deleted d c free = record {
        accounts = All-select _ is_kept d.stocks c.accounts;
        unique_stocks = select-UniqueStocks is_kept d.stocks c.unique_stocks;
        unique_ids = c.unique_ids;
        covered =
            All-imp₂ (IsCovered d.stocks)
              (λ r. is_live r.status ≡ true → mem_ℤ r.sku_id sku_ids ≡ false)
              (IsCovered (select is_kept d.stocks))
              (λ r cov out live.
                any-select (has_sku r.sku_id) is_kept d.stocks (λ s. kept r s (out live))
                ∙ cov live)
              d.reservations c.covered free;
      }

  -- Compensating the creation of stocks that no live reservation holds.
  pub compensate-Keeps :
      (b : Option InventoryTxBranch) → Keeps IsFreed (compensate_init_with_tx_branch b sku_ids)
  unfolding compensate_init_with_tx_branch compensate_body
  compensate-Keeps b = Keeps-transaction driver (
      Ensures-bind _ (create_branch-Freed b)
        λ created. Ensures-bind _ delete-Freed λ _. update_branch-Freed created)

-- Creating stocks together with the branch that records it.
pub create_batch_with_tx_branch-Keeps :
    (b : Option InventoryTxBranch) (ss : List InventoryStock)
    → All IsFresh ss
    → Keeps IsConsistent (create_batch_with_tx_branch b ss)
unfolding create_batch_with_tx_branch create_with_branch_body
create_batch_with_tx_branch-Keeps b ss f = Keeps-if (is_empty ss) (Keeps-pure _) (
    Keeps-bind (Keeps-raise_if _ _) λ _.
      Keeps-bind
        (Keeps-transaction driver (
          Ensures-bind (λ _. IsConsistent)
            (Ensures-weaken (λ d c. (c, no_skus d.reservations)) (λ _ d c. c.0)
              (create_branch-Freed [] b))
            λ created.
              Ensures-bind (λ _. IsConsistent) (create_stocks-Consistent ss f)
                λ _.
                  Ensures-weaken (λ d c. (c, no_skus d.reservations)) (λ _ d c. c.0)
                    (update_branch-Freed [] created)))
        λ _. Keeps-pure _)
  where
    no_skus :
        (rs : List InventoryReservation)
        → All (λ (r : InventoryReservation). is_live r.status ≡ true → mem_ℤ r.sku_id [] ≡ false) rs
    no_skus = elim [ [] ↦ tt | r ∷ (rs → ih) ↦ ((λ _. refl), ih) ]
