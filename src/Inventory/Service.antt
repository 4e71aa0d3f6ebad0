-- ===== src/Inventory/Service.antt =====
-- `makeInventoryTestLayer` of packages/inventory/src/service.ts: receiving, reserving, releasing and
-- fulfilling stock. An amount of stock is a natural number; a subtraction never goes below 0, since
-- what is reserved covers every active reservation.
use eclipse_erp.Base.{
  ℕ, ◌+◌, ◌-◌, Bool, true, not, ◌&&◌, Option, none, some, [], ◌∷◌, ◌++◌, ltb, if◌then◌else◌,
}
use eclipse_erp.Base.Effect.{Result, ok, err}
use eclipse_erp.Text.{Text, codes, text_eq, non_empty_string}
use eclipse_erp.Text.Decimal.{value, print}
use eclipse_erp.Dict.{Dict, lookup, insert}
use eclipse_erp.Authorization.Service.{Principal, Decision, authorize}
use eclipse_erp.Inventory.Data.{
  Warehouse, Item, Balance, StockBalance, ReservationStatus, Reservation, ReceiveStockInput,
  ReserveStockInput, ReservationInput, World, Failure, active, released, fulfilled, release,
  fulfill, schema_error, not_authorized, reference_not_found, legal_entity_mismatch,
  reservation_legal_entity_mismatch, idempotency_conflict, stock_unavailable, reservation_not_found,
  invalid_state, no_balance,
}
use eclipse_erp.Sales.Orders.{is_quantity}

abbrev colon : Text → Text → Text
colon a b = a ++ (b':' ∷ b)

unfoldable pub stock_key : Text → Text → Text → Text
stock_key tenant warehouse item = colon tenant (colon warehouse item)

unfoldable pub permit : Principal → Text → Text → World → Result Failure Decision
permit principal tenant capability w =
    elim (authorize (record { principal = principal; tenant_id = tenant; capability = capability })
      w.authorization) [ ok d ↦ ok d | err e ↦ err (not_authorized e) ]

-- `storedWarehouses.get(id)`, where it is the tenant's, and the same for items.
unfoldable pub own_warehouse : Text → Option Warehouse → Option Warehouse
own_warehouse tenant none = none
own_warehouse tenant (some h) = if text_eq h.tenant_id tenant then some h else none

unfoldable pub own_item : Text → Option Item → Option Item
own_item tenant none = none
own_item tenant (some t) = if text_eq t.tenant_id tenant then some t else none

-- `legalEntityId !== undefined && warehouse.legalEntityId !== legalEntityId`: the one asked for.
unfoldable pub mismatched : Option Text → Warehouse → Option Text
mismatched none h = none
mismatched (some e) h = if text_eq h.legal_entity_id e then none else some e

abbrev pub balance_or_zero : Option Balance → Balance
balance_or_zero none = record { on_hand = 0; reserved = 0 }
balance_or_zero (some b) = b

-- The receipt itself: the balance grows by the quantity.
unfoldable pub store_receipt :
    ReceiveStockInput → Item → World → Result Failure StockBalance × World
store_receipt i item w =
    let key = stock_key i.tenant_id i.warehouse_id i.item_id in
    let old = balance_or_zero (lookup key w.balances) in
    let next : Balance = record old { on_hand = old.on_hand + value i.quantity } in
    (
      ok (record {
        tenant_id = i.tenant_id;
        warehouse_id = i.warehouse_id;
        item_id = i.item_id;
        on_hand = print next.on_hand;
        reserved = print next.reserved;
        unit_of_measure = item.unit_of_measure;
      }),
      record w { balances = insert key next w.balances },
    )

module _ (is_uuid : Text → Bool) where
  abbrev optional_uuid : Option Text → Bool
  optional_uuid none = true
  optional_uuid (some s) = is_uuid s

  unfoldable pub valid_receive : ReceiveStockInput → Bool
  valid_receive i =
      is_quantity i.quantity && (optional_uuid i.legal_entity_id && optional_uuid i.reference_id)

  unfoldable pub receive_stock : ReceiveStockInput → World → Result Failure StockBalance × World
  receive_stock i w =
      if not (valid_receive i)
      then (err schema_error, w)
      else elim (permit i.principal i.tenant_id (codes "inventory.stock.receive") w) [
        | err e ↦ (err e, w)
        | ok d ↦ elim (own_warehouse i.tenant_id (lookup i.warehouse_id w.warehouses)) [
          | none ↦ (err (reference_not_found i.tenant_id i.warehouse_id i.item_id), w)
          | some warehouse ↦ elim (own_item i.tenant_id (lookup i.item_id w.items)) [
            | none ↦ (err (reference_not_found i.tenant_id i.warehouse_id i.item_id), w)
            | some item ↦ elim (mismatched i.legal_entity_id warehouse) [
              | some entity ↦ (err (legal_entity_mismatch i.tenant_id i.warehouse_id entity), w)
              | none ↦ store_receipt i item w
            ]
          ]
        ]
      ]

abbrev optional_non_empty : Option Text → Bool
optional_non_empty none = true
optional_non_empty (some s) = non_empty_string s

unfoldable pub valid_reserve : ReserveStockInput → Bool
valid_reserve i = is_quantity i.quantity && optional_non_empty i.idempotency_key

-- The legal entity that an input asks for and the warehouse does not have.
unfoldable pub reserve_mismatch : ReserveStockInput → Option Warehouse → Option Text
reserve_mismatch i warehouse = elim i.legal_entity_id [
  | none ↦ none
  | some e ↦ elim (own_warehouse i.tenant_id warehouse) [
    | none ↦ some e
    | some h ↦ mismatched (some e) h
  ]
]

-- The reservation that holds the idempotency key; a key without one reads the id "".
unfoldable pub existing_reservation : ReserveStockInput → World → Option Reservation
existing_reservation i w = elim i.idempotency_key [
  | none ↦ none
  | some key ↦ elim (lookup (colon i.tenant_id key) w.reservation_ids) [
    | none ↦ lookup [] w.reservations
    | some id ↦ lookup id w.reservations
  ]
]

unfoldable pub same_request : ReserveStockInput → Reservation → Bool
same_request i r =
    text_eq r.warehouse_id i.warehouse_id
    && (text_eq r.item_id i.item_id && text_eq r.quantity i.quantity)

abbrev pub new_reservation : ReserveStockInput → (id : Text) → Reservation
new_reservation i id = record {
  id = id;
  tenant_id = i.tenant_id;
  warehouse_id = i.warehouse_id;
  item_id = i.item_id;
  quantity = i.quantity;
  idempotency_key = i.idempotency_key;
  status = active;
}

abbrev pub key_ids : ReserveStockInput → (id : Text) → Dict Text → Dict Text
key_ids i id ids = elim i.idempotency_key [
  | none ↦ ids
  | some key ↦ insert (colon i.tenant_id key) id ids
]

-- From the balance on.
unfoldable pub store_reservation :
    ReserveStockInput → (id : Text) → World → Result Failure Reservation × World
store_reservation i id w =
    let key = stock_key i.tenant_id i.warehouse_id i.item_id in
    let unavailable = stock_unavailable i.tenant_id i.warehouse_id i.item_id i.quantity in
    elim (lookup key w.balances) [
      | none ↦ (err unavailable, w)
      | some b ↦ if ltb (b.on_hand - b.reserved) (value i.quantity) then (err unavailable, w) else (
        ok (new_reservation i id),
        record w {
          balances = insert key (record b { reserved = b.reserved + value i.quantity }) w.balances;
          reservations = insert id (new_reservation i id) w.reservations;
          reservation_ids = key_ids i id w.reservation_ids;
        },
      )
    ]

abbrev key_text : Option Text → Text
key_text none = []
key_text (some s) = s

unfoldable pub reserve_stock :
    ReserveStockInput → (id : Text) → World → Result Failure Reservation × World
reserve_stock i id w =
    if not (valid_reserve i)
    then (err schema_error, w)
    else elim (permit i.principal i.tenant_id (codes "inventory.stock.reserve") w) [
      | err e ↦ (err e, w)
      | ok d ↦ elim (reserve_mismatch i (lookup i.warehouse_id w.warehouses)) [
        | some entity ↦
            (err (reservation_legal_entity_mismatch i.tenant_id i.warehouse_id entity), w)
        | none ↦ elim (existing_reservation i w) [
          | some existing ↦
              if same_request i existing
              then (ok existing, w)
              else (err (idempotency_conflict i.tenant_id (key_text i.idempotency_key)), w)
          | none ↦ store_reservation i id w
        ]
      ]
    ]

unfoldable pub own_reservation : Text → Option Reservation → Option Reservation
own_reservation tenant none = none
own_reservation tenant (some r) = if text_eq r.tenant_id tenant then some r else none

-- The end of an active reservation: its balance is changed and its status set.
unfoldable pub close_reservation :
    Text
    → (Balance → ℕ → Balance)
    → ReservationStatus
    → Reservation
    → World
    → Result Failure Reservation × World
close_reservation tenant change status r w =
    let key = stock_key tenant r.warehouse_id r.item_id in
    let closed : Reservation = record r { status = status } in
    elim (lookup key w.balances) [
      | none ↦ (err no_balance, w)
      | some b ↦ (
        ok closed,
        record w {
          balances = insert key (change b (value r.quantity)) w.balances;
          reservations = insert r.id closed w.reservations;
        },
      )
    ]

abbrev pub unreserve : Balance → ℕ → Balance
unreserve b n = record b { reserved = b.reserved - n }

abbrev pub take_out : Balance → ℕ → Balance
take_out b n = record { on_hand = b.on_hand - n; reserved = b.reserved - n }

unfoldable pub release_found :
    ReservationInput → Reservation → World → Result Failure Reservation × World
release_found i r w = elim r.status [
  | active ↦ close_reservation i.tenant_id unreserve released r w
  | released ↦ (ok r, w)
  | fulfilled ↦ (err (invalid_state i.tenant_id i.reservation_id release fulfilled), w)
]

unfoldable pub fulfill_found :
    ReservationInput → Reservation → World → Result Failure Reservation × World
fulfill_found i r w = elim r.status [
  | active ↦ close_reservation i.tenant_id take_out fulfilled r w
  | released ↦ (err (invalid_state i.tenant_id i.reservation_id fulfill released), w)
  | fulfilled ↦ (ok r, w)
]

unfoldable pub release_reservation : ReservationInput → World → Result Failure Reservation × World
release_reservation i w =
    elim (permit i.principal i.tenant_id (codes "inventory.stock.release") w) [
      | err e ↦ (err e, w)
      | ok d ↦ elim (own_reservation i.tenant_id (lookup i.reservation_id w.reservations)) [
        | none ↦ (err (reservation_not_found i.tenant_id i.reservation_id), w)
        | some r ↦ release_found i r w
      ]
    ]

unfoldable pub fulfill_reservation : ReservationInput → World → Result Failure Reservation × World
fulfill_reservation i w =
    elim (permit i.principal i.tenant_id (codes "inventory.stock.fulfill") w) [
      | err e ↦ (err e, w)
      | ok d ↦ elim (own_reservation i.tenant_id (lookup i.reservation_id w.reservations)) [
        | none ↦ (err (reservation_not_found i.tenant_id i.reservation_id), w)
        | some r ↦ fulfill_found i r w
      ]
    ]
