-- ===== src/Inventory/Corrections.antt =====
-- `adjustStock` of the in-memory service of packages/inventory/src/service.ts: corrections of stock,
-- each of which appends an event.
pub mod Once
use eclipse_erp.Base.{
  ℕ, ◌+◌, ◌-◌, Bool, true, false, not, ◌&&◌, Option, none, some, [], ◌∷◌, ◌++◌, ltb, ◌==◌,
  if◌then◌else◌,
}
use eclipse_erp.Base.Effect.{Result, ok, err}
use eclipse_erp.Text.{Text, codes, text_eq, non_empty_string, trim}
use eclipse_erp.Text.Decimal.{value}
use eclipse_erp.Dict.{Dict, lookup, insert}
use eclipse_erp.Messaging.Events.{Platform, AppendEventInput}
use eclipse_erp.Messaging.Service as Outbox
use eclipse_erp.Sales.Orders.{is_quantity}
use eclipse_erp.Inventory.Data.{
  Item, Balance, AdjustStockInput, Correction, World, Failure, schema_error, reference_not_found,
  stock_unavailable, unit_mismatch, correction_conflict, not_appended,
}
use eclipse_erp.Inventory.Service.{stock_key, permit, own_warehouse, own_item, balance_or_zero}

-- What the corrections use of the service: its stock, the messaging service and
-- `correctionsByIdempotencyKey`.
pub record Store (Json : Type 0) : Type 0 where
  pub stock : World
  pub messaging : Outbox.Store Json
  pub corrections : Dict Correction

-- What the code takes from its platform: the upper case of a text, and the JSON value of the event.
pub record Environment (Json : Type 0) : Type 0 where
  pub platform : Platform Json
  pub upper : Text → Text
  pub payload : (correction_id warehouse_id item_id : Text) → Json

-- `SignedQuantity`: `/^-?[1-9]\d*$/`
unfoldable pub is_signed : Text → Bool
is_signed [] = false
is_signed (c ∷ s) = if c == b'-' then is_quantity s else is_quantity (c ∷ s)

-- `BigInt(adjustment)`, as what it adds and what it takes.
unfoldable pub adds : Text → ℕ
adds [] = 0
adds (c ∷ s) = if c == b'-' then 0 else value (c ∷ s)

unfoldable pub takes : Text → ℕ
takes [] = 0
takes (c ∷ s) = if c == b'-' then value s else 0

abbrev null_or_non_empty : Option Text → Bool
null_or_non_empty none = true
null_or_non_empty (some s) = non_empty_string s

unfoldable pub valid_adjust : AdjustStockInput → Bool
valid_adjust i =
    is_signed i.adjustment
    && (non_empty_string i.unit_of_measure
        && (non_empty_string i.reason
            && (non_empty_string i.command_id
                && (non_empty_string i.correlation_id
                    && (null_or_non_empty i.causation_id && non_empty_string i.idempotency_key)))))

abbrev trimmed : Option Text → Option Text
trimmed none = none
trimmed (some s) = some (trim s)

abbrev correction_key : AdjustStockInput → Text
correction_key i = i.tenant_id ++ (b':' ∷ trim i.idempotency_key)

module _ {Json : Type 0} (v : Environment Json) where
  abbrev pub unit_asked : AdjustStockInput → Text
  unit_asked i = v.upper (trim i.unit_of_measure)

  unfoldable pub same_correction : AdjustStockInput → Correction → Bool
  same_correction i c =
      text_eq c.warehouse_id i.warehouse_id
      && (text_eq c.item_id i.item_id
          && (text_eq c.adjustment i.adjustment
              && (text_eq c.unit_of_measure (unit_asked i) && text_eq c.reason (trim i.reason))))

  abbrev pub new_correction : AdjustStockInput → (id : Text) → Correction
  new_correction i id = record {
    id = id;
    tenant_id = i.tenant_id;
    warehouse_id = i.warehouse_id;
    item_id = i.item_id;
    adjustment = i.adjustment;
    unit_of_measure = unit_asked i;
    reason = trim i.reason;
    idempotency_key = trim i.idempotency_key;
  }

  unfoldable pub correction_event :
      AdjustStockInput → Correction → (event_id : Text) → (now : ℕ) → AppendEventInput Json
  correction_event i c event_id now = record {
    event_id = event_id;
    event_type = codes "inventory.stock.corrected";
    event_version = 1;
    tenant_id = i.tenant_id;
    aggregate_type = codes "stock_correction";
    aggregate_id = c.id;
    command_id = trim i.command_id;
    correlation_id = trim i.correlation_id;
    causation_id = trimmed i.causation_id;
    idempotency_key = trim i.idempotency_key;
    actor_principal_id = i.principal.user_account_id;
    occurred_at = v.platform.iso_string now;
    payload = v.payload c.id c.warehouse_id c.item_id;
  }

  -- The event is appended, then the balance and the correction are stored.
  unfoldable pub store_correction :
      AdjustStockInput
      → (id event_id : Text) → (now : ℕ) → Balance
      → Store Json
      → Result Failure Correction × Store Json
  store_correction i id event_id now b s =
      let made = new_correction i id in
      let next : Balance = record b {
        on_hand = (b.on_hand + adds i.adjustment) - takes i.adjustment;
      } in
      let w = s.stock in
      let (answer, messaging) =
        Outbox.append v.platform (correction_event i made event_id now) s.messaging in
      elim answer [
        | err e ↦ (err (not_appended e), record s { messaging = messaging })
        | ok event ↦ (
          ok made,
          record {
            stock = record w {
              balances = insert (stock_key i.tenant_id i.warehouse_id i.item_id) next w.balances;
            };
            messaging = messaging;
            corrections = insert (correction_key i) made s.corrections;
          },
        )
      ]

  -- From the balance on: what is left must cover what is reserved.
  unfoldable pub correct_balance :
      AdjustStockInput
      → (id event_id : Text) → (now : ℕ) → Store Json
      → Result Failure Correction × Store Json
  correct_balance i id event_id now s =
      let b =
        balance_or_zero
          (lookup (stock_key i.tenant_id i.warehouse_id i.item_id) s.stock.balances) in
      if ltb (b.on_hand + adds i.adjustment) (b.reserved + takes i.adjustment)
      then (err (stock_unavailable i.tenant_id i.warehouse_id i.item_id i.adjustment), s)
      else store_correction i id event_id now b s

  -- A correction under a key that is new.
  unfoldable pub correct_new :
      AdjustStockInput
      → (id event_id : Text) → (now : ℕ) → Store Json
      → Result Failure Correction × Store Json
  correct_new i id event_id now s =
      let missing = err (reference_not_found i.tenant_id i.warehouse_id i.item_id) in
      elim (own_warehouse i.tenant_id (lookup i.warehouse_id s.stock.warehouses)) [
        | none ↦ (missing, s)
        | some warehouse ↦ elim (own_item i.tenant_id (lookup i.item_id s.stock.items)) [
          | none ↦ (missing, s)
          | some item ↦
              if not (text_eq item.unit_of_measure (unit_asked i))
              then (
                err (unit_mismatch i.tenant_id i.item_id item.unit_of_measure (unit_asked i)),
                s,
              )
              else correct_balance i id event_id now s
        ]
      ]

  unfoldable pub adjust_stock :
      AdjustStockInput
      → (id event_id : Text) → (now : ℕ) → Store Json
      → Result Failure Correction × Store Json
  adjust_stock i id event_id now s =
      if not (valid_adjust i)
      then (err schema_error, s)
      else elim (permit i.principal i.tenant_id (codes "inventory.stock.adjust") s.stock) [
        | err e ↦ (err e, s)
        | ok d ↦ elim (lookup (correction_key i) s.corrections) [
          | some existing ↦
              if same_correction i existing
              then (ok existing, s)
              else (err (correction_conflict i.tenant_id (trim i.idempotency_key)), s)
          | none ↦ correct_new i id event_id now s
        ]
      ]
