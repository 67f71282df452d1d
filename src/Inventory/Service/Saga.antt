-- ===== src/Inventory/Service/Saga.antt =====
-- services/inventory-service/biz/service/saga.go: the forward step of the product-creation saga,
-- and its compensation. Encoding a list of SKU ids as JSON never fails, and the decoded text is the
-- encoded list.
use mesh_cart.Base.{
  String, List, [], Bool, true, false, ◌||◌, Option, none, some, map, if◌then◌else◌,
}
use mesh_cart.Base.Int.{ℤ, pos}
use mesh_cart.Base.Lists.{is_empty}
use mesh_cart.Base.Text.{trim_space, is_blank}
use mesh_cart.Sql.{pure, raise, ◌>>=◌, ◌>>◌, raise_if, or_raise, map_err}
use mesh_cart.App.Errors.{invalid_param, internal_error}
use mesh_cart.Inventory.Model.{
  InventoryStock, InventoryTxBranch, TxAction, init_sku_stocks_saga,
  compensate_init_sku_stocks_saga, TxStatus, succeeded, compensated, SagaSnapshot, blank, sku_ids,
}
use mesh_cart.Inventory.Stocks.{list_by_sku_ids}
use mesh_cart.Inventory.Branches.{
  get_tx_branch, create_batch_with_tx_branch, compensate_init_with_tx_branch,
}
use mesh_cart.Inventory.Service.{
  Handler, map_repository_error, SkuStock, to_rpc_sku_stocks, StockInput, build_stocks,
}

abbrev pub is_succeeded : TxStatus → Bool
is_succeeded succeeded = true
is_succeeded _ = false

abbrev pub is_compensated : TxStatus → Bool
is_compensated compensated = true
is_compensated _ = false

-- `branch != nil && branch.Status == …`
abbrev pub has_status : (TxStatus → Bool) → Option InventoryTxBranch → Bool
has_status p none = false
has_status p (some b) = p b.status

-- `json.Unmarshal` of a snapshot into a payload, which keeps its ids where the text is empty.
abbrev pub decode : SagaSnapshot → List ℤ → List ℤ
decode blank ids = ids
decode (sku_ids ids) _ = ids

abbrev pub decode_branch : Option InventoryTxBranch → List ℤ → List ℤ
decode_branch none ids = ids
decode_branch (some b) ids = decode b.payload_snapshot ids

abbrev pub saga_branch : String → String → TxAction → TxStatus → List ℤ → InventoryTxBranch
saga_branch global_tx_id branch_id action status ids = record {
  id = pos 0;
  global_tx_id = global_tx_id;
  branch_id = branch_id;
  action = action;
  biz_id = pos 0;
  status = status;
  payload_snapshot = sku_ids ids;
  error_message = "";
}

abbrev pub ids_of : List InventoryStock → List ℤ
ids_of = map λ s. s.sku_id

-- The forward step, once it is known that the branch is not compensated.
unfoldable pub init_forward :
    String → String → List (Option StockInput) → Option InventoryTxBranch → Handler (List SkuStock)
init_forward global_tx_id branch_id stocks existing =
    if has_status is_succeeded existing
    then (do
      found ← map_err map_repository_error (list_by_sku_ids (decode_branch existing []))
      pure (to_rpc_sku_stocks found))
    else do
      models ← or_raise (build_stocks stocks) invalid_param
      created ← map_err map_repository_error (
          create_batch_with_tx_branch
            (some
              (saga_branch global_tx_id branch_id init_sku_stocks_saga succeeded (ids_of models)))
            models)
      pure (to_rpc_sku_stocks created)

unfoldable pub init_saga : String → String → List (Option StockInput) → Handler (List SkuStock)
init_saga global_tx_id branch_id stocks =
    if is_blank (trim_space global_tx_id) || is_blank (trim_space branch_id) || is_empty stocks
    then raise invalid_param
    else do
      undone ←
          map_err (λ _. internal_error)
            (get_tx_branch global_tx_id branch_id compensate_init_sku_stocks_saga)
      raise_if (has_status is_compensated undone) internal_error
      existing ←
          map_err (λ _. internal_error) (get_tx_branch global_tx_id branch_id init_sku_stocks_saga)
      init_forward global_tx_id branch_id stocks existing

-- The compensation, once it is known that it has not been done before.
unfoldable pub compensate_forward : String → String → List ℤ → Handler Unit
compensate_forward global_tx_id branch_id requested = do
  forward ←
      map_err (λ _. internal_error) (get_tx_branch global_tx_id branch_id init_sku_stocks_saga)
  let ids = decode_branch forward requested
  map_err (λ _. internal_error)
      (compensate_init_with_tx_branch
        (some (saga_branch global_tx_id branch_id compensate_init_sku_stocks_saga compensated ids))
        ids)

unfoldable pub compensate_saga : String → String → List ℤ → Handler Unit
compensate_saga global_tx_id branch_id requested =
    if is_blank (trim_space global_tx_id) || is_blank (trim_space branch_id)
    then raise invalid_param
    else do
      done ←
          map_err (λ _. internal_error)
            (get_tx_branch global_tx_id branch_id compensate_init_sku_stocks_saga)
      if has_status is_compensated done
          then pure tt
          else compensate_forward global_tx_id branch_id requested
