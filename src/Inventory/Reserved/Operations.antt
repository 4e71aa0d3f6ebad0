-- ===== src/Inventory/Reserved/Operations.antt =====
-- The operations on stock keep what is reserved: packages/inventory/src/service.ts.
use eclipse_erp.Base.{◌≡◌, sym, subst, inl, inr, Bool, none, arith, Bool-cases, Option-cases}
use eclipse_erp.Base.Effect.{Result-cases}
use eclipse_erp.Text.{Text, codes}
use eclipse_erp.Dict.{lookup}
use eclipse_erp.Inventory.Data.{ReceiveStockInput, ReserveStockInput, ReservationInput, World}
use eclipse_erp.Inventory.Service.{
  receive_stock, reserve_stock, own_reservation, release_reservation, fulfill_reservation,
  own_warehouse, own_item, mismatched, valid_receive, valid_reserve, permit, existing_reservation,
  reserve_mismatch,
}
use eclipse_erp.Inventory.Reserved.{IsStocked, store_receipt-IsStocked, store_reservation-IsStocked}
use eclipse_erp.Inventory.Reserved.Close.{unchanged, own_reservation-found, unreserve-IsStocked}

receive_stock-IsStocked :
    (is_uuid : Text → Bool) (i : ReceiveStockInput) (w : World)
    → IsStocked w
    → IsStocked (receive_stock is_uuid i w).1
unfolding receive_stock
receive_stock-IsStocked is_uuid i w s =
    elim (Result-cases (permit i.principal i.tenant_id (codes "inventory.stock.receive") w)) [
      | inr (x, p) ↦ unchanged (receive_stock is_uuid i w) w (ground (arith, p)) s
      | inl (d, p) ↦
          elim (Option-cases (own_warehouse i.tenant_id (lookup i.warehouse_id w.warehouses))) [
            | inl n ↦ unchanged (receive_stock is_uuid i w) w (ground (arith, p, n)) s
            | inr (h, n) ↦ elim (Option-cases (own_item i.tenant_id (lookup i.item_id w.items))) [
              | inl m ↦ unchanged (receive_stock is_uuid i w) w (ground (arith, p, n, m)) s
              | inr (t, m) ↦ elim (Option-cases (mismatched i.legal_entity_id h)) [
                | inr (x, y) ↦
                    unchanged (receive_stock is_uuid i w) w (ground (arith, p, n, m, y)) s
                | inl y ↦ elim (Bool-cases (valid_receive is_uuid i)) [
                  | inr bad ↦ unchanged (receive_stock is_uuid i w) w (ground (arith, bad)) s
                  | inl good ↦
                      subst IsStocked (sym (ground (arith, p, n, m, y, good)))
                        (store_receipt-IsStocked i t w s)
                ]
              ]
            ]
          ]
    ]

reserve_stock-IsStocked :
    (i : ReserveStockInput) (id : Text) (w : World)
    → lookup id w.reservations ≡ none
    → IsStocked w
    → IsStocked (reserve_stock i id w).1
unfolding reserve_stock
reserve_stock-IsStocked i id w fresh s =
    elim (Result-cases (permit i.principal i.tenant_id (codes "inventory.stock.reserve") w)) [
      | inr (x, p) ↦ unchanged (reserve_stock i id w) w (ground (arith, p)) s
      | inl (d, p) ↦ elim (Option-cases (reserve_mismatch i (lookup i.warehouse_id w.warehouses))) [
        | inr (x, n) ↦ unchanged (reserve_stock i id w) w (ground (arith, p, n)) s
        | inl n ↦ elim (Option-cases (existing_reservation i w)) [
          | inr (x, m) ↦ unchanged (reserve_stock i id w) w (ground (arith, p, n, m)) s
          | inl m ↦ elim (Bool-cases (valid_reserve i)) [
            | inr bad ↦ unchanged (reserve_stock i id w) w (ground (arith, bad)) s
            | inl good ↦
                subst IsStocked (sym (ground (arith, p, n, m, good)))
                  (store_reservation-IsStocked i id w fresh s)
          ]
        ]
      ]
    ]

close-IsStocked :
    (i : ReservationInput) (w : World)
    → IsStocked w
    → IsStocked (release_reservation i w).1 × IsStocked (fulfill_reservation i w).1
unfolding release_reservation fulfill_reservation
close-IsStocked i w s =
    let at = own_reservation i.tenant_id (lookup i.reservation_id w.reservations) in
    elim (Option-cases at) [
      | inl e ↦ (
        unchanged (release_reservation i w) w (ground (arith, e)) s,
        unchanged (fulfill_reservation i w) w (ground (arith, e)) s,
      )
      | inr (r, e) ↦
          let (there, own) = own_reservation-found i.tenant_id i.reservation_id r w s e in
          let after = unreserve-IsStocked i r w s there own in
          (
            elim (Result-cases
                (permit i.principal i.tenant_id (codes "inventory.stock.release") w)) [
                  | inl (d, p) ↦ subst IsStocked (sym (ground (arith, e, p))) after.0
                  | inr (x, p) ↦ unchanged (release_reservation i w) w (ground (arith, p)) s
                ],
            elim (Result-cases
                (permit i.principal i.tenant_id (codes "inventory.stock.fulfill") w)) [
                  | inl (d, p) ↦ subst IsStocked (sym (ground (arith, e, p))) after.1
                  | inr (x, p) ↦ unchanged (fulfill_reservation i w) w (ground (arith, p)) s
                ],
          )
    ]

-- Where every reservation is kept under its own id, and what is reserved of each stock equals what
-- its active reservations hold and is within what is on hand, receiving, reserving under an id that is new, releasing and fulfilling keep it
-- so.
pub operations-IsStocked :
    (w : World) (is_uuid : Text → Bool) (receive : ReceiveStockInput) (reserve : ReserveStockInput)
    (id : Text) (close : ReservationInput)
    → IsStocked w
    → lookup id w.reservations ≡ none
    → IsStocked (receive_stock is_uuid receive w).1
      × IsStocked (reserve_stock reserve id w).1
      × IsStocked (release_reservation close w).1
      × IsStocked (fulfill_reservation close w).1
operations-IsStocked w is_uuid receive reserve id close s fresh = (
  receive_stock-IsStocked is_uuid receive w s,
  reserve_stock-IsStocked reserve id w fresh s,
  (close-IsStocked close w s).0,
  (close-IsStocked close w s).1,
)
