-- ===== src/Inventory/Model.antt =====
-- services/inventory-service/dal/model/model.go: the rows of the inventory tables.
-- An int64 is an integer. The columns created_at and updated_at, which the database fills and no
-- modelled query reads, are left out.
use mesh_cart.Base.{String, Bool, true, false, List, []}
use mesh_cart.Base.Int.{ℤ, pos}

pub record InventoryStock : Type 0 where
  pub id : ℤ
  pub sku_id : ℤ
  pub total_stock : ℤ
  pub reserved_stock : ℤ
  pub available_stock : ℤ
  pub status : ℤ
  pub version : ℤ

-- The column `action` holds one of the two texts that the service writes.
pub data TxAction : Type 0 where
  init_sku_stocks_saga compensate_init_sku_stocks_saga : TxAction

unfoldable pub eq_action : TxAction → TxAction → Bool
eq_action init_sku_stocks_saga init_sku_stocks_saga = true
eq_action compensate_init_sku_stocks_saga compensate_init_sku_stocks_saga = true
eq_action init_sku_stocks_saga compensate_init_sku_stocks_saga = false
eq_action compensate_init_sku_stocks_saga init_sku_stocks_saga = false

-- The column `status` of a branch: the two texts that the code names, or any other text.
pub data TxStatus : Type 0 where
  succeeded compensated : TxStatus
  other_status : String → TxStatus

-- The column `payload_snapshot` of a branch, decoded: the empty text, or the JSON of an
-- inventorySagaPayload, which is the list of its SKU ids.
pub data SagaSnapshot : Type 0 where
  blank : SagaSnapshot
  sku_ids : List ℤ → SagaSnapshot

pub record InventoryTxBranch : Type 0 where
  pub id : ℤ
  pub global_tx_id : String
  pub branch_id : String
  pub action : TxAction
  pub biz_id : ℤ
  pub status : TxStatus
  pub payload_snapshot : SagaSnapshot
  pub error_message : String

-- The column `status` of a reservation: the three texts that the code names, or any other text.
pub data ReservationStatus : Type 0 where
  reserved released confirmed : ReservationStatus
  unknown : String → ReservationStatus

pub record InventoryReservation : Type 0 where
  pub id : ℤ
  pub biz_type : String
  pub biz_id : String
  pub sku_id : ℤ
  pub quantity : ℤ
  pub status : ReservationStatus
  pub payload_snapshot : String

-- The three tables. The ids of tx branches are the table's AUTO_INCREMENT.
pub record InventoryDb : Type 0 where
  pub stocks : List InventoryStock
  pub reservations : List InventoryReservation
  pub branches : List InventoryTxBranch
  pub next_branch_id : ℤ

abbrev pub empty_db : InventoryDb
empty_db = record { stocks = []; reservations = []; branches = []; next_branch_id = pos 1 }
