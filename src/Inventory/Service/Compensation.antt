-- ===== src/Inventory/Service/Compensation.antt =====
-- The saga branch of stock creation: a compensation is put on record, and one that came first bars
-- the creation.
use mesh_cart.Base.{
  ◌≡◌, refl, ap, ◌∙◌, List, [], ◌∷◌, ◌++◌, Bool, true, false, Option, none, some, String, ◌||◌,
  if◌then◌else◌, arith,
}
use mesh_cart.Base.Int.{ℤ, pos, ◌+ℤ◌, eq_ℤ}
use mesh_cart.Base.Text.{str_eq_iff, trim_space, is_blank}
use mesh_cart.Base.Lists.{find, any, update_where, is_empty}
use mesh_cart.Base.Rows.{find-append_new}
use mesh_cart.Sql.{World, is_err, ok, err, ◌>>=◌, map_err, read, duplicate_key}
use mesh_cart.Sql.Hoare.{
  OnOk, OnRows, Ensures, Ensures-bind, Ensures-if, Ensures-pure, Ensures-raise, Ensures-map_err,
  Ensures-statement, Ensures-write, Ensures-read, Ensures-transaction,
}
use mesh_cart.App.Errors.{BizError, internal_error}
use mesh_cart.Inventory.Model.{
  InventoryDb, InventoryStock, InventoryTxBranch, init_sku_stocks_saga,
  compensate_init_sku_stocks_saga, compensated, eq_action,
}
use mesh_cart.Inventory.Tables.{is_branch, insert_branch}
use mesh_cart.Inventory.Branches.{
  get_tx_branch, create_branch, update_branch, set_outcome, delete_stocks, compensate_body,
  compensate_init_with_tx_branch,
}
use mesh_cart.Inventory.Service.{StockInput}
use mesh_cart.Inventory.Service.Saga.{
  is_compensated, has_status, decode_branch, saga_branch, init_saga, compensate_saga,
  compensate_forward,
}

module _ (g b : String) where
  abbrev pub is_undone : InventoryTxBranch → Bool
  is_undone = is_branch g b compensate_init_sku_stocks_saga

  -- The branch has a compensation row, and it says that the compensation was done.
  abbrev pub IsCompensated : InventoryDb → Type 0
  IsCompensated d = has_status is_compensated (find is_undone d.branches) ≡ true

  -- Where a saga branch is on record as compensated, the creation of its stocks answers an error
  -- and changes no row, whatever statements fail.
  pub init_saga_barred :
      (stocks : List (Option StockInput)) (w : World InventoryDb)
      → IsCompensated w.db
      → (is_err (init_saga g b stocks w).0 ≡ true) × ((init_saga g b stocks w).1.db ≡ w.db)
  unfolding init_saga get_tx_branch map_err read ◌>>=◌
  init_saga_barred stocks w c = (ground arith, ground arith)

  keep_compensated :
      (p : InventoryTxBranch → Bool) (o : InventoryTxBranch)
      → is_compensated o.status ≡ true
      → (l : List InventoryTxBranch) → has_status is_compensated (find is_undone l) ≡ true
      → has_status is_compensated (find is_undone (update_where p (set_outcome o) l)) ≡ true
  keep_compensated p o c [] h = h
  keep_compensated p o c (x ∷ l) h = ground (arith, keep_compensated p o c l)

  module _ (ids : List ℤ) where
    abbrev undoing : InventoryTxBranch
    undoing = saga_branch g b compensate_init_sku_stocks_saga compensated ids

    abbrev Created : Option InventoryTxBranch → InventoryDb → Type 0
    Created o d = IsCompensated d × (has_status is_compensated o ≡ true)

    inserted :
        {P : InventoryDb → Type 0}
        → is_undone undoing ≡ true
        → Ensures P (insert_branch undoing) (λ _ d. IsCompensated d)
    unfolding insert_branch
    inserted {P} self = Ensures-statement _ λ d h. stored d _ refl
      where
        stored :
            (d : InventoryDb) (clash : Bool)
            → any is_undone d.branches ≡ clash
            → OnRows
                (λ _. IsCompensated)
                (if clash then (err duplicate_key, d) else (
                  ok d.next_branch_id,
                  record d {
                    branches = d.branches ++ record undoing { id = d.next_branch_id } ∷ [];
                    next_branch_id = d.next_branch_id +ℤ pos 1;
                  },
                ))
        stored d true e = tt
        stored d false e =
            ap (has_status is_compensated) (
              find-append_new is_undone d.branches (record undoing { id = d.next_branch_id }) e
                self)

    is_undone_self : is_undone undoing ≡ true
    unfolding eq_action
    is_undone_self = rw ((str_eq_iff g g).1 refl, (str_eq_iff b b).1 refl)

    created : {P : InventoryDb → Type 0} → Ensures P (create_branch (some undoing)) Created
    unfolding create_branch
    created =
        Ensures-bind (λ _ d. IsCompensated d) (Ensures-map_err _ (inserted is_undone_self))
          λ id. Ensures-pure _ λ d h. (h, refl)

    deleted :
        (P : InventoryDb → Type 0)
        (k : (d : InventoryDb) (ss : List InventoryStock) → P d → P (record d { stocks = ss }))
        → Ensures P (delete_stocks ids) (λ _ d. P d)
    unfolding delete_stocks
    deleted P k =
        Ensures-if (is_empty ids) (λ _. Ensures-pure _ λ d h. h)
          λ _. Ensures-map_err _ (Ensures-write _ λ d h. k d _ h)

    updated :
        (o : Option InventoryTxBranch)
        → Ensures (Created o) (update_branch o) (λ _ d. IsCompensated d)
    unfolding update_branch
    updated none = Ensures-pure _ λ d (h, e). h
    updated (some o) =
        Ensures-map_err _
          (Ensures-write _ λ d (h, e). keep_compensated (λ row. eq_ℤ row.id o.id) o e d.branches h)

    recorded :
        {P : InventoryDb → Type 0}
        → Ensures P (compensate_init_with_tx_branch (some undoing) ids) (λ _ d. IsCompensated d)
    unfolding compensate_init_with_tx_branch compensate_body
    recorded = Ensures-transaction _ (
        Ensures-bind Created created
          λ o. Ensures-bind (λ _. Created o) (deleted (Created o) λ d ss h. h) λ _. updated o)

  looked_up :
      Ensures {E = BizError}
        (λ _. Unit)
        (map_err (λ _. internal_error) (get_tx_branch g b compensate_init_sku_stocks_saga))
        (λ o d. find is_undone d.branches ≡ o)
  unfolding get_tx_branch
  looked_up = Ensures-map_err _ (Ensures-map_err _ (Ensures-read _ λ d h. refl))

  forward_looked_up :
      {P : InventoryDb → Type 0}
      → Ensures {E = BizError} P
          (map_err (λ _. internal_error) (get_tx_branch g b init_sku_stocks_saga))
          (λ _ _. Unit)
  unfolding get_tx_branch
  forward_looked_up = Ensures-map_err _ (Ensures-map_err _ (Ensures-read _ λ d h. tt))

  -- Whatever statements fail: where the compensation of a saga branch succeeds, the branch is on
  -- record as compensated.
  pub compensate_saga_done :
      (requested : List ℤ) (w : World InventoryDb)
      → OnOk (λ _. IsCompensated) (compensate_saga g b requested w)
  unfolding compensate_saga compensate_forward
  compensate_saga_done requested w = done.at w tt
    where
      done : Ensures (λ _. Unit) (compensate_saga g b requested) (λ _. IsCompensated)
      done =
          Ensures-if (is_blank (trim_space g) || is_blank (trim_space b)) (λ _. Ensures-raise _)
            λ _.
              Ensures-bind (λ o d. find is_undone d.branches ≡ o) looked_up
                λ o.
                  Ensures-if (has_status is_compensated o)
                    (λ e. Ensures-pure tt λ d h. ap (has_status is_compensated) h ∙ e)
                    λ _.
                      Ensures-bind (λ _ _. Unit) forward_looked_up
                        λ f. Ensures-map_err _ (recorded (decode_branch f requested))
