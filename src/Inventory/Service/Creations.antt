-- ===== src/Inventory/Service/Creations.antt =====
-- services/inventory-service/biz/service/saga.go: what a creation of stocks that succeeds leaves in
-- the table of saga branches.
use mesh_cart.Base.{
  ◌≡◌, refl, ap, sym, ◌∙◌, List, [], true, false, Option, none, some, String, map, ◌||◌, arith,
}
use mesh_cart.Base.Int.{ℤ}
use mesh_cart.Base.Text.{trim_space, is_blank}
use mesh_cart.Base.Lists.{find, is_empty}
use mesh_cart.Sql.{map_err}
use mesh_cart.Sql.Hoare.{
  Ensures, Ensures-bind, Ensures-if, Ensures-pure, Ensures-raise, Ensures-raise_if,
  Ensures-or_raise, Ensures-map_err, Ensures-read, Ensures-given, Ensures-weaken,
}
use mesh_cart.App.Errors.{BizError, internal_error}
use mesh_cart.Inventory.Model.{
  InventoryDb, InventoryTxBranch, init_sku_stocks_saga, compensate_init_sku_stocks_saga,
}
use mesh_cart.Inventory.Branches.{get_tx_branch}
use mesh_cart.Inventory.Service.{StockInput, SkuStock, to_rpc_sku_stocks}
use mesh_cart.Inventory.Service.Saga.{
  is_compensated, is_succeeded, has_status, decode_branch, ids_of, init_saga, init_forward,
}
use mesh_cart.Inventory.Service.Branches.{
  build_stocks-empty, ids_of-rpc, listed, is_forward, is_undone, IsOpen, IsCreated, Open,
  batch_created,
}

module _ (g b : String) where
  -- The SKUs of a creation: those on record before it, else those of its answer.
  abbrev pub on_record : Option InventoryTxBranch → List SkuStock → List ℤ
  on_record none answer = map (λ s. s.sku_id) answer
  on_record (some r) answer = decode_branch (some r) []

  on_record-succeeded :
      (o : Option InventoryTxBranch) (answer : List SkuStock)
      → has_status is_succeeded o ≡ true
      → on_record o answer ≡ decode_branch o []
  on_record-succeeded none answer e = cc
  on_record-succeeded (some r) answer e = refl

  module _ (before : Option InventoryTxBranch) where
    abbrev pub Recorded : List SkuStock → InventoryDb → Type 0
    Recorded answer d = IsOpen g b d.branches × IsCreated g b (on_record before answer) d.branches

    forward :
        (stocks : List (Option StockInput)) (existing : Option InventoryTxBranch)
        → is_empty stocks ≡ false
        → before ≡ existing
        → Ensures (Open g b existing) (init_forward g b stocks existing) Recorded
    unfolding init_forward
    forward stocks existing n same =
        Ensures-if (has_status is_succeeded existing)
          (λ e.
            Ensures-bind (λ _. Open g b existing)
              (Ensures-map_err _ (listed (Open g b existing) (decode_branch existing [])))
              λ found. Ensures-pure _ λ d (free, h). (
                free,
                (
                  ap (has_status is_succeeded) h ∙ e,
                  ap (λ o. decode_branch o []) h
                      ∙ sym (
                          ap (λ o. on_record o (to_rpc_sku_stocks found)) same
                          ∙ on_record-succeeded existing (to_rpc_sku_stocks found) e),
                ),
              ))
          λ _. Ensures-bind _ (Ensures-or_raise _ _) λ models. Ensures-given λ built.
            Ensures-bind _
              (Ensures-map_err _ (
                batch_created g b (ids_of models) existing models
                  (build_stocks-empty stocks models n built)))
              λ ss. Ensures-pure _ λ d (((free, (c, ids)), fresh), answer). (
                free,
                (
                  c,
                  ids
                      ∙ sym (
                          ap (λ o. on_record o (to_rpc_sku_stocks ss)) (same ∙ fresh)
                          ∙ ids_of-rpc ss
                          ∙ ap ids_of answer),
                ),
              )

    undone_looked_up :
        Ensures {E = BizError}
          (λ d. find (is_forward g b) d.branches ≡ before)
          (map_err (λ _. internal_error) (get_tx_branch g b compensate_init_sku_stocks_saga))
          (λ o d.
            (find (is_forward g b) d.branches ≡ before) × (find (is_undone g b) d.branches ≡ o))
    unfolding get_tx_branch
    undone_looked_up = Ensures-map_err _ (Ensures-map_err _ (Ensures-read _ λ d h. (h, refl)))

    forward_looked_up :
        Ensures {E = BizError}
          (Open g b before)
          (map_err (λ _. internal_error) (get_tx_branch g b init_sku_stocks_saga))
          (λ o d. Open g b before d × (before ≡ o))
    unfolding get_tx_branch
    forward_looked_up =
        Ensures-map_err _ (Ensures-map_err _ (Ensures-read _ λ d (free, h). ((free, h), sym h)))

    -- A creation that succeeds is on record, and no compensation of it.
    pub init_saga-Recorded :
        (stocks : List (Option StockInput))
        → Ensures (λ d. find (is_forward g b) d.branches ≡ before) (init_saga g b stocks) Recorded
    unfolding init_saga
    init_saga-Recorded stocks =
        Ensures-if (is_blank (trim_space g) || is_blank (trim_space b) || is_empty stocks)
          (λ _. Ensures-raise _)
          λ some_stocks. Ensures-bind _ undone_looked_up λ undone.
            Ensures-bind _ (Ensures-raise_if (has_status is_compensated undone) _) λ _.
              Ensures-given λ not_undone.
                Ensures-bind _
                  (Ensures-weaken (λ d (h, u). (ap (has_status is_compensated) u ∙ not_undone, h))
                    (λ _ d h. h) forward_looked_up)
                  λ existing. Ensures-given λ same.
                    Ensures-weaken (λ d (free, h). (free, h ∙ same)) (λ _ d h. h)
                      (forward stocks existing (ground arith) same)
