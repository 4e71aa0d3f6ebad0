-- ===== src/Inventory/Reserved.antt =====
-- What is reserved, and what receiving and reserving do to it: packages/inventory/src/service.ts.
pub mod Close
pub mod Operations
use eclipse_erp.Base.{
  ℕ, zero, suc, ◌+◌, ◌-◌, ◌*◌, ◌/◌, ◌%◌, ◌^◌, ◌≤◌, ◌<◌, ◌≡◌, refl, sym, ap, ◌∙◌, subst, ◌≢◌, ◌↔◌,
  ◌⊎◌, inl, inr, Bool, true, false, not, ◌&&◌, ◌||◌, Option, none, some, List, [], ◌∷◌, ◌++◌, map,
  append_assoc, append-nil, arith, ltb, leb, ◌==◌, if◌then◌else◌, bool_eq, Bool-cases, Option-cases,
  and_true, ltb→lt, lt→ltb, leb→le, le→leb, eqb→eq, eqb_refl, eq→eqb, length, take, drop, replicate,
  any, all, find, filter, All, length-append, length-replicate, take-append-drop, length-drop,
  length-take, all_mono,
}
use eclipse_erp.Base.Effect.{Result, ok, err, Result-cases}
use eclipse_erp.Text.{Text, codes, text_eq, text_eq_refl, text_eq→eq}
use eclipse_erp.Text.Decimal.{value}
use eclipse_erp.Dict.{
  Dict, lookup, insert, total, total-insert, total-insert_new, lookup-insert, all-insert,
  lookup-all,
}
use eclipse_erp.Inventory.Data.{
  Warehouse, Item, Balance, StockBalance, ReservationStatus, Reservation, ReceiveStockInput,
  ReserveStockInput, ReservationInput, TransferLine, TransferStatus, Transfer, CreateTransferInput,
  TransferInput, World, Operation, Failure, active, released, fulfilled, release, fulfill, draft,
  confirmed, completed, schema_error, not_authorized, reference_not_found, legal_entity_mismatch,
  reservation_legal_entity_mismatch, idempotency_conflict, stock_unavailable, reservation_not_found,
  invalid_state, same_warehouse, duplicate_item, warehouse_not_found, different_legal_entity,
  item_not_found, transfer_not_found, transfer_invalid_state, no_balance,
}
use eclipse_erp.Inventory.Service.{
  balance_or_zero, key_ids, stock_key, store_receipt, receive_stock, new_reservation,
  store_reservation, reserve_stock, own_reservation, close_reservation, unreserve, take_out,
  release_found, fulfill_found, release_reservation, fulfill_reservation, own_warehouse, own_item,
  mismatched, valid_receive, valid_reserve, permit, existing_reservation, reserve_mismatch,
}

abbrev pub is_active : ReservationStatus → Bool
is_active active = true
is_active released = false
is_active fulfilled = false

abbrev pub key_of : Reservation → Text
key_of r = stock_key r.tenant_id r.warehouse_id r.item_id

-- What a reservation holds of the stock under a key.
unfoldable pub claim : Text → Reservation → ℕ
claim b r = if is_active r.status && text_eq b (key_of r) then value r.quantity else 0

abbrev pub reserved_of : Option Balance → ℕ
reserved_of none = 0
reserved_of (some b) = b.reserved

abbrev pub is_within : Option Balance → Bool
is_within none = true
is_within (some b) = leb b.reserved b.on_hand

abbrev pub is_keyed : Text × Reservation → Bool
is_keyed (k, r) = text_eq k r.id

-- What is reserved of each stock is what its active reservations hold, and no more than is on hand.
pub record IsStocked (w : World) : Type 0 where
  pub claimed : (b : Text) → reserved_of (lookup b w.balances) ≡ total (claim b) w.reservations
  pub within : (b : Text) → is_within (lookup b w.balances) ≡ true
  pub keyed : all is_keyed w.reservations ≡ true

pub reserved-insert :
    (k b : Text) (x : Balance) (m : Dict Balance)
    → reserved_of (lookup b (insert k x m))
      ≡ (if text_eq b k then x.reserved else reserved_of (lookup b m))
reserved-insert k b x m = ground (arith, lookup-insert k b x m)

pub within-insert :
    (k b : Text) (x : Balance) (m : Dict Balance)
    → is_within (lookup b m) ≡ true
    → x.reserved ≤ x.on_hand
    → is_within (lookup b (insert k x m)) ≡ true
within-insert k b x m h le = ground (arith, lookup-insert k b x m)

-- The keys that are equal are read alike.
pub same_claim :
    (w : World) (b k : Text)
    → IsStocked w
    → text_eq b k ≡ true
    → total (claim b) w.reservations ≡ reserved_of (lookup k w.balances)
same_claim w b k s e =
    subst (λ x. total (claim b) w.reservations ≡ reserved_of (lookup x w.balances))
      (text_eq→eq b k e) (sym (s.claimed b))

or_zero_reserved : (o : Option Balance) → (balance_or_zero o).reserved ≡ reserved_of o
or_zero_reserved none = refl
or_zero_reserved (some b) = refl

or_zero_within :
    (o : Option Balance)
    → is_within o ≡ true
    → (balance_or_zero o).reserved ≤ (balance_or_zero o).on_hand
or_zero_within none h = omega arith
or_zero_within (some b) h = ground arith

-- A new amount on hand that covers what is reserved.
pub on_hand-IsStocked :
    (key : Text) (n : ℕ) (w : World)
    → (balance_or_zero (lookup key w.balances)).reserved ≤ n
    → IsStocked w
    → IsStocked (record w {
      balances =
          insert key (record (balance_or_zero (lookup key w.balances)) { on_hand = n }) w.balances;
    })
on_hand-IsStocked key n w enough s =
    let next : Balance = record (balance_or_zero (lookup key w.balances)) { on_hand = n } in
    record {
      claimed = λ b. elim (Bool-cases (text_eq b key)) [
        | inl same ↦ ground (
          arith,
          same,
          reserved-insert key b next w.balances,
          or_zero_reserved (lookup key w.balances),
          same_claim w b key s same,
        )
        | inr other ↦ ground (arith, other, reserved-insert key b next w.balances, s.claimed b)
      ];
      within = λ b. within-insert key b next w.balances (s.within b) enough;
      keyed = s.keyed;
    }

pub store_receipt-IsStocked :
    (i : ReceiveStockInput) (item : Item) (w : World)
    → IsStocked w
    → IsStocked (store_receipt i item w).1
unfolding store_receipt
store_receipt-IsStocked i item w s =
    let key = stock_key i.tenant_id i.warehouse_id i.item_id in
    let old = balance_or_zero (lookup key w.balances) in
    on_hand-IsStocked key (old.on_hand + value i.quantity) w
      (omega (arith, or_zero_within (lookup key w.balances) (s.within key))) s

-- The world with a new reservation of stock that is there.
abbrev reserved_world : ReserveStockInput → (id : Text) → Balance → World → World
reserved_world i id b w = record w {
  balances =
      insert (stock_key i.tenant_id i.warehouse_id i.item_id)
        (record b { reserved = b.reserved + value i.quantity }) w.balances;
  reservations = insert id (new_reservation i id) w.reservations;
  reservation_ids = key_ids i id w.reservation_ids;
}

new-claim :
    (i : ReserveStockInput) (id b : Text)
    → claim b (new_reservation i id)
      ≡ (if text_eq b (stock_key i.tenant_id i.warehouse_id i.item_id) then value i.quantity else 0)
unfolding claim
new-claim i id b = refl

reserved_world-IsStocked :
    (i : ReserveStockInput) (id : Text) (b : Balance) (w : World)
    → lookup id w.reservations ≡ none
    → lookup (stock_key i.tenant_id i.warehouse_id i.item_id) w.balances ≡ some b
    → ltb (b.on_hand - b.reserved) (value i.quantity) ≡ false
    → IsStocked w
    → IsStocked (reserved_world i id b w)
reserved_world-IsStocked i id b w fresh e enough s =
    let key = stock_key i.tenant_id i.warehouse_id i.item_id in
    let next : Balance = record b { reserved = b.reserved + value i.quantity } in
    let new = new_reservation i id in
    let ok_before = s.within key in
    record {
      claimed = λ k.
          let grown = total-insert_new (claim k) id new w.reservations fresh in
          elim (Bool-cases (text_eq k key)) [
            | inl same ↦ ground (
              arith,
              same,
              e,
              grown,
              new-claim i id k,
              reserved-insert key k next w.balances,
              same_claim w k key s same,
            )
            | inr other ↦ ground (
              arith,
              other,
              grown,
              new-claim i id k,
              reserved-insert key k next w.balances,
              s.claimed k,
            )
          ];
      within = λ k.
          within-insert key k next w.balances (s.within k) (ground (arith, e, ok_before, enough));
      keyed = all-insert is_keyed id new w.reservations (text_eq_refl id) s.keyed;
    }

pub store_reservation-IsStocked :
    (i : ReserveStockInput) (id : Text) (w : World)
    → lookup id w.reservations ≡ none
    → IsStocked w
    → IsStocked (store_reservation i id w).1
unfolding store_reservation
store_reservation-IsStocked i id w fresh s =
    let key = stock_key i.tenant_id i.warehouse_id i.item_id in
    elim (Option-cases (lookup key w.balances)) [
      | inl e ↦ subst IsStocked (sym (ground (arith, e))) s
      | inr (b, e) ↦ elim (Bool-cases (ltb (b.on_hand - b.reserved) (value i.quantity))) [
        | inl short ↦ subst IsStocked (sym (ground (arith, e, short))) s
        | inr enough ↦
            subst IsStocked (sym (ground (arith, e, enough)))
              (reserved_world-IsStocked i id b w fresh e enough s)
      ]
    ]
