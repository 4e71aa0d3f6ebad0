-- ===== src/Inventory/Data.antt =====
-- The data of packages/inventory/src/service.ts: its records, its inputs, the maps of the in-memory
-- service and the failures of its operations.
use eclipse_erp.Base.{ℕ, Option, List}
use eclipse_erp.Text.{Text}
use eclipse_erp.Dict.{Dict}
use eclipse_erp.Authorization.Service as Grants
use eclipse_erp.Authorization.Service.{Principal}
use eclipse_erp.Messaging.Service as Outbox

pub record Warehouse : Type 0 where
  pub id : Text
  pub tenant_id : Text
  pub legal_entity_id : Text
  pub primary_branch_id : Option Text
  pub name : Text

pub record Item : Type 0 where
  pub id : Text
  pub tenant_id : Text
  pub sku : Text
  pub name : Text
  pub unit_of_measure : Text

-- An entry of `balances`.
pub record Balance : Type 0 where
  pub on_hand : ℕ
  pub reserved : ℕ

pub record StockBalance : Type 0 where
  pub tenant_id : Text
  pub warehouse_id : Text
  pub item_id : Text
  pub on_hand : Text
  pub reserved : Text
  pub unit_of_measure : Text

pub data ReservationStatus : Type 0 where
  active released fulfilled : ReservationStatus

pub record Reservation : Type 0 where
  pub id : Text
  pub tenant_id : Text
  pub warehouse_id : Text
  pub item_id : Text
  pub quantity : Text
  pub idempotency_key : Option Text
  pub status : ReservationStatus

pub record CreateWarehouseInput : Type 0 where
  pub principal : Principal
  pub tenant_id : Text
  pub legal_entity_id : Text
  pub primary_branch_id : Option Text
  pub name : Text

-- The unit of measure is the schema's key with a default.
pub record CreateItemInput : Type 0 where
  pub principal : Principal
  pub tenant_id : Text
  pub sku : Text
  pub name : Text
  pub unit_of_measure : Option Text

pub record ReceiveStockInput : Type 0 where
  pub principal : Principal
  pub tenant_id : Text
  pub warehouse_id : Text
  pub item_id : Text
  pub quantity : Text
  pub legal_entity_id : Option Text
  pub reference_id : Option Text

pub record ReserveStockInput : Type 0 where
  pub principal : Principal
  pub tenant_id : Text
  pub warehouse_id : Text
  pub item_id : Text
  pub quantity : Text
  pub legal_entity_id : Option Text
  pub idempotency_key : Option Text

-- `ReleaseReservationInput` and `FulfillReservationInput`
pub record ReservationInput : Type 0 where
  pub principal : Principal
  pub tenant_id : Text
  pub reservation_id : Text

-- `StockTransferLine` and `StockTransfer`
pub record TransferLine : Type 0 where
  pub item_id : Text
  pub quantity : Text

pub data TransferStatus : Type 0 where
  draft confirmed completed : TransferStatus

pub record Transfer : Type 0 where
  pub id : Text
  pub tenant_id : Text
  pub legal_entity_id : Text
  pub source_warehouse_id : Text
  pub destination_warehouse_id : Text
  pub status : TransferStatus
  pub confirmed_at : Option Text
  pub completed_at : Option Text
  pub lines : List TransferLine

pub record CreateTransferInput : Type 0 where
  pub principal : Principal
  pub tenant_id : Text
  pub source_warehouse_id : Text
  pub destination_warehouse_id : Text
  pub lines : List TransferLine

-- `ConfirmStockTransferInput` and `CompleteStockTransferInput`
pub record TransferInput : Type 0 where
  pub principal : Principal
  pub tenant_id : Text
  pub transfer_id : Text

pub record AdjustStockInput : Type 0 where
  pub principal : Principal
  pub tenant_id : Text
  pub warehouse_id : Text
  pub item_id : Text
  pub adjustment : Text
  pub unit_of_measure : Text
  pub reason : Text
  pub command_id : Text
  pub correlation_id : Text
  pub causation_id : Option Text
  pub idempotency_key : Text

-- `StockCorrection`
pub record Correction : Type 0 where
  pub id : Text
  pub tenant_id : Text
  pub warehouse_id : Text
  pub item_id : Text
  pub adjustment : Text
  pub unit_of_measure : Text
  pub reason : Text
  pub idempotency_key : Text

pub record World : Type 0 where
  pub authorization : Grants.Store
  pub warehouses : Dict Warehouse
  pub items : Dict Item
  pub balances : Dict Balance
  pub reservations : Dict Reservation
  pub reservation_ids : Dict Text
  pub transfers : Dict Transfer

pub data Operation : Type 0 where
  release fulfill : Operation

pub data Failure : Type 0 where
  schema_error : Failure
  not_authorized : Grants.Failure → Failure
  warehouse_already_exists : (tenant_id name : Text) → Failure
  item_already_exists : (tenant_id sku : Text) → Failure
  reference_not_found : (tenant_id warehouse_id item_id : Text) → Failure
  legal_entity_mismatch : (tenant_id warehouse_id legal_entity_id : Text) → Failure
  reservation_legal_entity_mismatch : (tenant_id warehouse_id legal_entity_id : Text) → Failure
  idempotency_conflict : (tenant_id idempotency_key : Text) → Failure
  stock_unavailable : (tenant_id warehouse_id item_id requested : Text) → Failure
  reservation_not_found : (tenant_id reservation_id : Text) → Failure
  invalid_state : (tenant_id reservation_id : Text) → Operation → ReservationStatus → Failure
  same_warehouse : (tenant_id warehouse_id : Text) → Failure
  duplicate_item : (tenant_id item_id : Text) → Failure
  warehouse_not_found : (tenant_id warehouse_id : Text) → Failure
  different_legal_entity : (tenant_id source destination : Text) → Failure
  item_not_found : (tenant_id item_id : Text) → Failure
  transfer_not_found : (tenant_id transfer_id : Text) → Failure
  transfer_invalid_state : (tenant_id transfer_id : Text) → TransferStatus → Failure
  unit_mismatch : (tenant_id item_id expected actual : Text) → Failure
  correction_conflict : (tenant_id idempotency_key : Text) → Failure
  not_appended : Outbox.Failure → Failure
  -- the `TypeError` of a balance that is not there
  no_balance : Failure
