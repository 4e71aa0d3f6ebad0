-- ===== src/Inventory/Transfers.antt =====
-- `makeInventoryTestLayer` of packages/inventory/src/service.ts: transfers of stock between
-- warehouses.
pub mod Conserve
pub mod Created
use eclipse_erp.Base.{
  ℕ, zero, suc, ◌+◌, ◌-◌, ◌*◌, ◌/◌, ◌%◌, ◌^◌, ◌≤◌, ◌<◌, ◌≡◌, refl, sym, ap, ◌∙◌, subst, ◌≢◌, ◌↔◌,
  ◌⊎◌, inl, inr, Bool, true, false, not, ◌&&◌, ◌||◌, Option, none, some, List, [], ◌∷◌, ◌++◌, map,
  append_assoc, append-nil, arith, ltb, leb, ◌==◌, if◌then◌else◌, bool_eq, Bool-cases, Option-cases,
  and_true, ltb→lt, lt→ltb, leb→le, le→leb, eqb→eq, eqb_refl, eq→eqb, length, take, drop, replicate,
  any, all, find, filter, All, length-append, length-replicate, take-append-drop, length-drop,
  length-take, all_mono,
}
use eclipse_erp.Base.Effect.{Result, ok, err}
use eclipse_erp.Text.{Text, codes, text_eq}
use eclipse_erp.Text.Decimal.{value}
use eclipse_erp.Dict.{Dict, lookup, insert}
use eclipse_erp.Sales.Orders.{is_quantity}
use eclipse_erp.Inventory.Data.{
  Warehouse, Item, Balance, StockBalance, ReservationStatus, Reservation, ReceiveStockInput,
  ReserveStockInput, ReservationInput, TransferLine, TransferStatus, Transfer, CreateTransferInput,
  TransferInput, World, Operation, Failure, active, released, fulfilled, release, fulfill, draft,
  confirmed, completed, schema_error, not_authorized, reference_not_found, legal_entity_mismatch,
  reservation_legal_entity_mismatch, idempotency_conflict, stock_unavailable, reservation_not_found,
  invalid_state, same_warehouse, duplicate_item, warehouse_not_found, different_legal_entity,
  item_not_found, transfer_not_found, transfer_invalid_state, no_balance,
}
use eclipse_erp.Inventory.Service.{stock_key, permit, own_warehouse, own_item, balance_or_zero}

unfoldable pub valid_create_transfer : CreateTransferInput → Bool
valid_create_transfer i =
    leb 1 (length i.lines) && all (λ (l : TransferLine). is_quantity l.quantity) i.lines

-- The loop over the lines with the set of items seen: the first item that comes again.
unfoldable pub duplicate_item_of : List Text → List TransferLine → Option Text
duplicate_item_of seen [] = none
duplicate_item_of seen (l ∷ ls) =
    let rest = duplicate_item_of (l.item_id ∷ seen) ls in
    if any (text_eq l.item_id) seen then some l.item_id else rest

abbrev is_missing : Text → Dict Item → TransferLine → Bool
is_missing tenant items l = elim (own_item tenant (lookup l.item_id items)) [
  | none ↦ true
  | some item ↦ false
]

abbrev new_transfer : CreateTransferInput → (id legal_entity_id : Text) → Transfer
new_transfer i id entity = record {
  id = id;
  tenant_id = i.tenant_id;
  legal_entity_id = entity;
  source_warehouse_id = i.source_warehouse_id;
  destination_warehouse_id = i.destination_warehouse_id;
  status = TransferStatus.draft;
  confirmed_at = none;
  completed_at = none;
  lines = i.lines;
}

-- From the two warehouses on.
unfoldable pub store_transfer :
    CreateTransferInput
    → (id : Text) → (source destination : Warehouse) → World
    → Result Failure Transfer × World
store_transfer i id source destination w =
    let transfer = new_transfer i id source.legal_entity_id in
    if not (text_eq destination.legal_entity_id source.legal_entity_id)
    then (
      err (different_legal_entity i.tenant_id i.source_warehouse_id i.destination_warehouse_id),
      w,
    )
    else elim (find (is_missing i.tenant_id w.items) i.lines) [
      | some line ↦ (err (item_not_found i.tenant_id line.item_id), w)
      | none ↦ (ok transfer, record w { transfers = insert id transfer w.transfers })
    ]

unfoldable pub create_transfer :
    CreateTransferInput → (id : Text) → World → Result Failure Transfer × World
create_transfer i id w =
    if not (valid_create_transfer i)
    then (err schema_error, w)
    else elim (permit i.principal i.tenant_id (codes "inventory.stock_transfer.create") w) [
      | err e ↦ (err e, w)
      | ok d ↦
          if text_eq i.source_warehouse_id i.destination_warehouse_id
          then (err (same_warehouse i.tenant_id i.source_warehouse_id), w)
          else elim (duplicate_item_of [] i.lines) [
            | some item ↦ (err (duplicate_item i.tenant_id item), w)
            | none ↦ elim (own_warehouse i.tenant_id (lookup i.source_warehouse_id w.warehouses)) [
              | none ↦ (err (warehouse_not_found i.tenant_id i.source_warehouse_id), w)
              | some source ↦
                  elim (own_warehouse i.tenant_id
                    (lookup i.destination_warehouse_id w.warehouses)) [
                      | none ↦ (err (warehouse_not_found i.tenant_id i.destination_warehouse_id), w)
                      | some destination ↦ store_transfer i id source destination w
                    ]
            ]
          ]
    ]

unfoldable pub own_transfer : Text → Option Transfer → Option Transfer
own_transfer tenant none = none
own_transfer tenant (some t) = if text_eq t.tenant_id tenant then some t else none

-- A line whose stock at a warehouse is less than its quantity.
abbrev short_balance : TransferLine → Option Balance → Bool
short_balance l none = true
short_balance l (some b) = ltb b.on_hand (b.reserved + value l.quantity)

unfoldable pub is_short : Text → Text → Dict Balance → TransferLine → Bool
is_short tenant warehouse m l = short_balance l (lookup (stock_key tenant warehouse l.item_id) m)

-- The loop that takes the lines out of a warehouse; every balance is there, as was checked.
unfoldable pub take_lines : Text → Text → List TransferLine → Dict Balance → Dict Balance
take_lines tenant warehouse [] m = m
take_lines tenant warehouse (l ∷ ls) m =
    let key = stock_key tenant warehouse l.item_id in
    let b = balance_or_zero (lookup key m) in
    take_lines tenant warehouse ls
      (insert key (record b { on_hand = b.on_hand - value l.quantity }) m)

-- The loop that puts the lines into a warehouse.
unfoldable pub put_lines : Text → Text → List TransferLine → Dict Balance → Dict Balance
put_lines tenant warehouse [] m = m
put_lines tenant warehouse (l ∷ ls) m =
    let key = stock_key tenant warehouse l.item_id in
    let b = balance_or_zero (lookup key m) in
    put_lines tenant warehouse ls
      (insert key (record b { on_hand = b.on_hand + value l.quantity }) m)

unfoldable pub confirm_found :
    TransferInput → Transfer → (at : Text) → World → Result Failure Transfer × World
confirm_found i t at w =
    let done : Transfer = record t { status = TransferStatus.confirmed; confirmed_at = some at } in
    elim t.status [
      | TransferStatus.draft ↦
          elim (find (is_short i.tenant_id t.source_warehouse_id w.balances) t.lines) [
            | some l ↦
                (err (stock_unavailable i.tenant_id t.source_warehouse_id l.item_id l.quantity), w)
            | none ↦ (
              ok done,
              record w {
                balances = take_lines i.tenant_id t.source_warehouse_id t.lines w.balances;
                transfers = insert t.id done w.transfers;
              },
            )
          ]
      | _ ↦ (ok t, w)
    ]

unfoldable pub confirm_transfer :
    TransferInput → (at : Text) → World → Result Failure Transfer × World
confirm_transfer i at w =
    elim (permit i.principal i.tenant_id (codes "inventory.stock_transfer.confirm") w) [
      | err e ↦ (err e, w)
      | ok d ↦ elim (own_transfer i.tenant_id (lookup i.transfer_id w.transfers)) [
        | none ↦ (err (transfer_not_found i.tenant_id i.transfer_id), w)
        | some t ↦ confirm_found i t at w
      ]
    ]

unfoldable pub complete_found :
    TransferInput → Transfer → (at : Text) → World → Result Failure Transfer × World
complete_found i t at w =
    let done : Transfer = record t { status = TransferStatus.completed; completed_at = some at } in
    elim t.status [
      | TransferStatus.completed ↦ (ok t, w)
      | TransferStatus.draft ↦
          (err (transfer_invalid_state i.tenant_id i.transfer_id TransferStatus.draft), w)
      | TransferStatus.confirmed ↦ (
        ok done,
        record w {
          balances = put_lines i.tenant_id t.destination_warehouse_id t.lines w.balances;
          transfers = insert t.id done w.transfers;
        },
      )
    ]

unfoldable pub complete_transfer :
    TransferInput → (at : Text) → World → Result Failure Transfer × World
complete_transfer i at w =
    elim (permit i.principal i.tenant_id (codes "inventory.stock_transfer.complete") w) [
      | err e ↦ (err e, w)
      | ok d ↦ elim (own_transfer i.tenant_id (lookup i.transfer_id w.transfers)) [
        | none ↦ (err (transfer_not_found i.tenant_id i.transfer_id), w)
        | some t ↦ complete_found i t at w
      ]
    ]
