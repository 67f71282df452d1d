-- ===== src/Inventory/Service/Branches.antt =====
-- services/inventory-service/biz/service/saga.go: the row of a creation of stocks in the table of
-- saga branches.
use mesh_cart.Base.{
  ◌≡◌, refl, ap, ◌∙◌, inl, inr, List, [], ◌∷◌, ◌++◌, Bool, true, false, Option, none, some, String,
  map, ◌||◌, if◌then◌else◌, Option-cases, arith,
}
use mesh_cart.Base.Int.{ℤ, pos, ◌+ℤ◌, eq_ℤ, leb_ℤ, ltb_ℤ}
use mesh_cart.Base.Text.{str_eq_iff}
use mesh_cart.Base.Lists.{find, any, update_where, is_empty}
use mesh_cart.Base.Rows.{find-append_new, find-append_other, find-some-any}
use mesh_cart.Sql.{ok, err, duplicate_key}
use mesh_cart.Sql.Hoare.{
  OnRows, Ensures, Ensures-bind, Ensures-if, Ensures-pure, Ensures-raise_if, Ensures-map_err,
  Ensures-statement, Ensures-write, Ensures-read, Ensures-transaction, Ensures-given,
}
use mesh_cart.Inventory.Model.{
  InventoryDb, InventoryStock, InventoryTxBranch, init_sku_stocks_saga,
  compensate_init_sku_stocks_saga, succeeded, sku_ids, eq_action,
}
use mesh_cart.Inventory.Tables.{is_branch, insert_branch, stock_clashes, insert_stock}
use mesh_cart.Inventory.Stocks.{list_by_sku_ids, create_stocks}
use mesh_cart.Inventory.Branches.{
  create_branch, update_branch, set_outcome, create_with_branch_body, create_batch_with_tx_branch,
}
use mesh_cart.Inventory.Service.{
  StockInput, to_rpc_sku_stock, to_rpc_sku_stocks, build_stocks, cons_stock, fresh_stock,
}
use mesh_cart.Inventory.Service.Saga.{
  is_compensated, is_succeeded, has_status, decode_branch, saga_branch, ids_of,
}

-- The rows are as many as the inputs.
pub build_stocks-empty :
    (stocks : List (Option StockInput)) (models : List InventoryStock)
    → is_empty stocks ≡ false
    → build_stocks stocks ≡ some models
    → is_empty models ≡ false
unfolding build_stocks
build_stocks-empty [] models n h = cc
build_stocks-empty (none ∷ rest) models n h = cc
build_stocks-empty (some i ∷ rest) models n h =
    made (leb_ℤ i.sku_id (pos 0) || ltb_ℤ i.total_stock (pos 0)) (build_stocks rest) h
  where
    made :
        (bad : Bool) (built : Option (List InventoryStock))
        → (if bad then none else cons_stock (fresh_stock i) built) ≡ some models
        → is_empty models ≡ false
    made true built h = cc
    made false none h = cc
    made false (some ss) h = ground arith

pub ids_of-rpc : (ss : List InventoryStock) → map (λ s. s.sku_id) (to_rpc_sku_stocks ss) ≡ ids_of ss
unfolding to_rpc_sku_stocks to_rpc_sku_stock
ids_of-rpc [] = refl
ids_of-rpc (s ∷ ss) = ap (λ ids. s.sku_id ∷ ids) (ids_of-rpc ss)

pub listed : (P : InventoryDb → Type 0) (ids : List ℤ) → Ensures P (list_by_sku_ids ids) (λ _. P)
unfolding list_by_sku_ids
listed P ids =
    Ensures-if (is_empty ids) (λ _. Ensures-pure _ λ d h. h)
      λ _. Ensures-map_err _ (Ensures-read _ λ d h. h)

module _ (g b : String) where
  abbrev pub is_forward : InventoryTxBranch → Bool
  is_forward = is_branch g b init_sku_stocks_saga

  abbrev pub is_undone : InventoryTxBranch → Bool
  is_undone = is_branch g b compensate_init_sku_stocks_saga

  -- The branch is not on record as compensated.
  abbrev pub IsOpen : List InventoryTxBranch → Type 0
  IsOpen l = has_status is_compensated (find is_undone l) ≡ false

  -- The creation is on record as succeeded, and of these SKUs.
  abbrev pub IsCreated : List ℤ → List InventoryTxBranch → Type 0
  IsCreated ids l =
      (has_status is_succeeded (find is_forward l) ≡ true)
      × (decode_branch (find is_forward l) [] ≡ ids)

  abbrev pub Open : Option InventoryTxBranch → InventoryDb → Type 0
  Open existing d = IsOpen d.branches × (find is_forward d.branches ≡ existing)

  module _ (ids : List ℤ) where
    abbrev pub Done : List InventoryTxBranch → Type 0
    Done l = IsOpen l × IsCreated ids l

    abbrev pub doing : InventoryTxBranch
    doing = saga_branch g b init_sku_stocks_saga succeeded ids

    keep_uncompensated :
        (p : InventoryTxBranch → Bool) (o : InventoryTxBranch)
        → o.status ≡ succeeded
        → (l : List InventoryTxBranch) → IsOpen l
        → IsOpen (update_where p (set_outcome o) l)
    keep_uncompensated p o c [] h = h
    keep_uncompensated p o c (x ∷ l) h = ground (arith, keep_uncompensated p o c l)

    keep_created :
        (p : InventoryTxBranch → Bool) (o : InventoryTxBranch)
        → o.status ≡ succeeded
        → o.payload_snapshot ≡ sku_ids ids
        → (l : List InventoryTxBranch) → IsCreated ids l
        → IsCreated ids (update_where p (set_outcome o) l)
    keep_created p o c e [] h = h
    keep_created p o c e (x ∷ l) h = ground (arith, keep_created p o c e l)

    doing_names : (is_forward doing ≡ true) × (is_undone doing ≡ false)
    unfolding eq_action
    doing_names = (
      rw ((str_eq_iff g g).1 refl, (str_eq_iff b b).1 refl),
      rw ((str_eq_iff g g).1 refl, (str_eq_iff b b).1 refl),
    )

    module _ (existing : Option InventoryTxBranch) where
      inserted :
          Ensures (Open existing) (insert_branch doing) (λ _ d. Done d.branches × (existing ≡ none))
      unfolding insert_branch
      inserted = Ensures-statement _ λ d h. stored d h (any is_forward d.branches) refl
        where
          absent :
              (d : InventoryDb)
              → Open existing d
              → any is_forward d.branches ≡ false
              → existing ≡ none
          absent d h e = elim (Option-cases existing) [
            | inl n ↦ n
            | inr (r, s) ↦ cc (find-some-any is_forward d.branches r (h.1 ∙ s), e)
          ]

          stored :
              (d : InventoryDb)
              → Open existing d
              → (clash : Bool) → any is_forward d.branches ≡ clash
              → OnRows
                  (λ _ d. Done d.branches × (existing ≡ none))
                  (if clash then (err duplicate_key, d) else (
                    ok d.next_branch_id,
                    record d {
                      branches = d.branches ++ record doing { id = d.next_branch_id } ∷ [];
                      next_branch_id = d.next_branch_id +ℤ pos 1;
                    },
                  ))
          stored d h true e = tt
          stored d h false e =
              let row = record doing { id = d.next_branch_id } in
              let found = find-append_new is_forward d.branches row e doing_names.0 in
              let other = find-append_other is_undone d.branches row doing_names.1 in
              (
                (
                  ap (has_status is_compensated) other ∙ h.0,
                  (ap (has_status is_succeeded) found, ap (λ o. decode_branch o []) found),
                ),
                absent d h e,
              )

      abbrev Opened : Option InventoryTxBranch → InventoryDb → Type 0
      Opened o d = (Done d.branches × (existing ≡ none)) × IsDoing o
        where
          IsDoing : Option InventoryTxBranch → Type 0
          IsDoing none = Unit
          IsDoing (some r) = (r.status ≡ succeeded) × (r.payload_snapshot ≡ sku_ids ids)

      created : Ensures (Open existing) (create_branch (some doing)) Opened
      unfolding create_branch
      created =
          Ensures-bind (λ _ d. Done d.branches × (existing ≡ none)) (Ensures-map_err _ inserted)
            λ id. Ensures-pure _ λ d h. (h, (refl, refl))

      stocked :
          (o : Option InventoryTxBranch) (ss : List InventoryStock)
          → Ensures (Opened o) (create_stocks ss) (λ _. Opened o)
      unfolding create_stocks insert_stock
      stocked o [] = Ensures-pure _ λ d h. h
      stocked o (s ∷ ss) =
          Ensures-bind (λ _. Opened o)
            (Ensures-map_err _
              (Ensures-statement _ λ d h. stored d h (any (stock_clashes s) d.stocks)))
            λ _. stocked o ss
        where
          stored :
              (d : InventoryDb)
              → Opened o d
              → (clash : Bool)
              → OnRows
                  (λ _. Opened o)
                  (if clash
                    then (err duplicate_key, d)
                    else (ok tt, record d { stocks = d.stocks ++ s ∷ [] }))
          stored d h true = tt
          stored d h false = h

      updated :
          (o : Option InventoryTxBranch)
          → Ensures (Opened o) (update_branch o) (λ _ d. Done d.branches × (existing ≡ none))
      unfolding update_branch
      updated none = Ensures-pure _ λ d (h, e). h
      updated (some o) = Ensures-map_err _ (
          Ensures-write _ λ d (((free, made), n), (c, e)). (
            (
              keep_uncompensated (λ row. eq_ℤ row.id o.id) o c d.branches free,
              keep_created (λ row. eq_ℤ row.id o.id) o c e d.branches made,
            ),
            n,
          ))

      pub batch_created :
          (models : List InventoryStock)
          → is_empty models ≡ false
          → Ensures
              (Open existing)
              (create_batch_with_tx_branch (some doing) models)
              (λ ss d. (Done d.branches × (existing ≡ none)) × (ss ≡ models))
      unfolding create_batch_with_tx_branch create_with_branch_body
      batch_created models n =
          Ensures-if (is_empty models) (λ e. cc (e, n))
            λ _. Ensures-bind _ (Ensures-raise_if _ _) λ _. Ensures-given λ valid.
              Ensures-bind (λ _ d. Done d.branches × (existing ≡ none))
                (Ensures-transaction _ (
                  Ensures-bind Opened created
                    λ o. Ensures-bind (λ _. Opened o) (stocked o models) λ _. updated o))
                λ _. Ensures-pure _ λ d h. (h, refl)
