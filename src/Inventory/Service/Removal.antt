-- ===== src/Inventory/Service/Removal.antt =====
-- What a compensation of stock creation does to the stock rows.
use mathlib.Core.Path.{subst}
use mesh_cart.Base.{
  ◌≡◌, refl, ap, ◌∙◌, List, Bool, true, false, not, Option, none, some, String, ◌||◌, ◌++◌, [], ◌∷◌,
  if◌then◌else◌, sym,
}
use mesh_cart.Base.Int.{ℤ, pos, ◌+ℤ◌}
use mesh_cart.Base.Text.{trim_space, is_blank}
use mesh_cart.Base.Lists.{any, find, select, is_empty, mem_ℤ}
use mesh_cart.Base.Rows.{select-all}
use mesh_cart.Sql.{World, map_err, ok, err, duplicate_key}
use mesh_cart.Sql.Hoare.{
  Leaves, Leaves-Keeps, Leaves-if, Leaves-bind, Leaves-given, OnOk, OnRows, Ensures, Ensures-given,
  Ensures-bind, Ensures-if, Ensures-pure, Ensures-raise, Ensures-map_err, Ensures-weaken,
  Ensures-statement, Ensures-write, Ensures-read, Ensures-transaction, Keeps, Keeps-pure,
  Keeps-raise, Keeps-map_err, Keeps-read,
}
use mesh_cart.App.Errors.{BizError, internal_error}
use mesh_cart.Inventory.Model.{
  InventoryDb, InventoryStock, InventoryTxBranch, TxAction, init_sku_stocks_saga,
  compensate_init_sku_stocks_saga,
}
use mesh_cart.Inventory.Tables.{is_branch, insert_branch}
use mesh_cart.Inventory.Branches.{
  get_tx_branch, create_branch, update_branch, delete_stocks, compensate_body,
  compensate_init_with_tx_branch,
}
use mesh_cart.Inventory.Accounts.{IsConsistent}
use mesh_cart.Inventory.Accounts.Creation.{IsFree, IsFreed, compensate-Keeps}
use mesh_cart.Inventory.Service.Saga.{
  is_compensated, has_status, decode_branch, compensate_saga, compensate_forward,
}

-- The rows that a deletion of these SKUs leaves.
abbrev pub stocks_without : List ℤ → List InventoryStock → List InventoryStock
stocks_without ids = select λ s. not (mem_ℤ s.sku_id ids)

module _ (before : List InventoryStock) where
  abbrev Same : InventoryDb → Type 0
  Same d = d.stocks ≡ before

  insert_branch-Same : (b : InventoryTxBranch) → Ensures Same (insert_branch b) (λ _. Same)
  unfolding insert_branch
  insert_branch-Same b =
      Ensures-statement _
        λ d h. stored d h (any (is_branch b.global_tx_id b.branch_id b.action) d.branches)
    where
      stored :
          (d : InventoryDb)
          → Same d
          → (clash : Bool)
          → OnRows
              (λ _. Same)
              (if clash then (err duplicate_key, d) else (
                ok d.next_branch_id,
                record d {
                  branches = d.branches ++ record b { id = d.next_branch_id } ∷ [];
                  next_branch_id = d.next_branch_id +ℤ pos 1;
                },
              ))
      stored d h true = tt
      stored d h false = h

  create_branch-Same : (o : Option InventoryTxBranch) → Ensures Same (create_branch o) (λ _. Same)
  unfolding create_branch
  create_branch-Same none = Ensures-pure _ λ d h. h
  create_branch-Same (some b) =
      Ensures-bind (λ _. Same) (Ensures-map_err _ (insert_branch-Same b))
        λ id. Ensures-pure _ λ d h. h

  module _ (ids : List ℤ) where
    abbrev Removed : InventoryDb → Type 0
    Removed d = d.stocks ≡ stocks_without ids before

    delete_stocks-Removed : Ensures Same (delete_stocks ids) (λ _. Removed)
    unfolding delete_stocks
    delete_stocks-Removed =
        Ensures-if (is_empty ids) (λ e. Ensures-pure _ λ d h. h ∙ sym (nothing ids e))
          λ _. Ensures-map_err _ (Ensures-write _ λ d h. ap (stocks_without ids) h)
      where
        nothing : (is : List ℤ) → is_empty is ≡ true → stocks_without is before ≡ before
        nothing [] e = select-all _ before λ s. refl
        nothing (i ∷ is) e = cc

    update_branch-Removed :
        (o : Option InventoryTxBranch) → Ensures Removed (update_branch o) (λ _. Removed)
    unfolding update_branch
    update_branch-Removed none = Ensures-pure _ λ d h. h
    update_branch-Removed (some b) = Ensures-map_err _ (Ensures-write _ λ d h. h)

    removed :
        (o : Option InventoryTxBranch)
        → Ensures Same (compensate_init_with_tx_branch o ids) (λ _. Removed)
    unfolding compensate_init_with_tx_branch compensate_body
    removed o = Ensures-transaction _ (
        Ensures-bind (λ _. Same) (create_branch-Same o)
          λ created.
            Ensures-bind (λ _. Removed) delete_stocks-Removed λ _. update_branch-Removed created)

module _ (g b : String) (before : InventoryDb) where
  -- The lookup of a branch answers what the table says, and changes nothing.
  looked_up :
      (a : TxAction)
      → Ensures {E = BizError}
          (λ d. d ≡ before)
          (map_err (λ _. internal_error) (get_tx_branch g b a))
          (λ o d. (d ≡ before) × (find (is_branch g b a) before.branches ≡ o))
  unfolding get_tx_branch
  looked_up a = Ensures-map_err _ (
      Ensures-map_err _
        (Ensures-read _ λ d h. (h, ap (λ d. find (is_branch g b a) d.branches) (sym h))))

  -- The SKUs that a compensation deletes: those that the forward branch recorded, or those requested
  -- where there is none.
  abbrev pub undone_ids : List ℤ → List ℤ
  undone_ids requested =
      decode_branch (find (is_branch g b init_sku_stocks_saga) before.branches) requested

-- Where a saga branch is not on record as compensated, whatever statements fail: if its
-- compensation succeeds, the stock rows are those of before less the ones of the SKUs that the
-- creation recorded, or of the requested SKUs if no creation is on record.
pub compensate_saga_removes :
    (g b : String) (requested : List ℤ) (w : World InventoryDb)
    → has_status is_compensated (find (is_branch g b compensate_init_sku_stocks_saga) w.db.branches)
      ≡ false
    → OnOk
        (λ _ d. d.stocks ≡ stocks_without (undone_ids g b w.db requested) w.db.stocks)
        (compensate_saga g b requested w)
unfolding compensate_saga compensate_forward
compensate_saga_removes g b requested w fresh = done.at w refl
  where
    done :
        Ensures
          (λ d. d ≡ w.db)
          (compensate_saga g b requested)
          (λ _ d. d.stocks ≡ stocks_without (undone_ids g b w.db requested) w.db.stocks)
    done =
        Ensures-if (is_blank (trim_space g) || is_blank (trim_space b)) (λ _. Ensures-raise _)
          λ _. Ensures-bind _ (looked_up g b w.db compensate_init_sku_stocks_saga) λ o.
            Ensures-if (has_status is_compensated o) (λ e. Ensures-pure tt λ d (h, f). cc)
              λ _.
                Ensures-bind _
                  (Ensures-weaken (λ d (h, f). h) (λ a d h. h)
                    (looked_up g b w.db init_sku_stocks_saga))
                  λ forward. Ensures-given λ f. Ensures-map_err _ (
                    Ensures-weaken (λ d h. ap (λ d. d.stocks) h)
                      (λ _ d h.
                        h
                        ∙ ap (λ o. stocks_without (decode_branch o requested) w.db.stocks) (sym f))
                      (removed w.db.stocks (decode_branch forward requested) _))

module _ (g b : String) (requested : List ℤ) (before : InventoryDb) (c : IsConsistent before) where
  abbrev Is : InventoryDb → Type 0
  Is d = d ≡ before

  same_Consistent : (d : InventoryDb) → Is d → IsConsistent d
  same_Consistent d h = subst IsConsistent (sym h) c

  lookup-Keeps :
      (a : TxAction) → Keeps {E = BizError} Is (map_err (λ _. internal_error) (get_tx_branch g b a))
  unfolding get_tx_branch
  lookup-Keeps a = Keeps-map_err _ (Keeps-map_err _ (Keeps-read _))

  forward_Leaves :
      IsFree (undone_ids g b before requested) before
      → Leaves Is (compensate_forward g b requested) IsConsistent
  unfolding compensate_forward
  forward_Leaves free =
      Leaves-bind (lookup-Keeps init_sku_stocks_saga) same_Consistent
        (looked_up g b before init_sku_stocks_saga)
        λ forward. Leaves-given λ f.
          let ids = decode_branch forward requested in
          Leaves-Keeps (IsFreed ids)
            (λ d h.
              subst (IsFreed ids) (sym h)
                (c, subst (λ o. IsFree (decode_branch o requested) before) f free))
            (λ d (k, j). k) (Keeps-map_err _ (compensate-Keeps ids _))

-- From consistent tables where no reserved reservation is of a SKU that it deletes, the
-- compensation of a saga branch leaves consistent tables, whether it succeeds or not.
pub compensate_saga-IsConsistent :
    (g b : String) (requested : List ℤ) (w : World InventoryDb)
    → IsConsistent w.db
    → IsFree (undone_ids g b w.db requested) w.db
    → IsConsistent (compensate_saga g b requested w).1.db
unfolding compensate_saga
compensate_saga-IsConsistent g b requested w c free = whole.at w refl
  where
    whole : Leaves (λ d. d ≡ w.db) (compensate_saga g b requested) IsConsistent
    whole =
        Leaves-if (is_blank (trim_space g) || is_blank (trim_space b))
          (Leaves-Keeps _ (same_Consistent g b requested w.db c) (λ d k. k) (Keeps-raise _))
          (Leaves-bind (lookup-Keeps g b requested w.db c compensate_init_sku_stocks_saga)
            (same_Consistent g b requested w.db c)
            (looked_up g b w.db compensate_init_sku_stocks_saga)
            λ o.
              Leaves-if (has_status is_compensated o)
                (Leaves-given λ f.
                  Leaves-Keeps _ (same_Consistent g b requested w.db c) (λ d k. k) (Keeps-pure _))
                (Leaves-given λ f. forward_Leaves g b requested w.db c free))
