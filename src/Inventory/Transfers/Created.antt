-- ===== src/Inventory/Transfers/Created.antt =====
-- The transfer that a creation stores: packages/inventory/src/service.ts.
use eclipse_erp.Base.{
  ◌≡◌, refl, sym, subst, inl, inr, true, false, none, some, List, [], ◌∷◌, arith, Bool-cases,
  Option-cases, any, find,
}
use eclipse_erp.Base.Effect.{Result, ok, Result-cases}
use eclipse_erp.Text.{Text, codes, text_eq, text_eq_refl, text_eq→eq}
use eclipse_erp.Dict.{lookup, lookup-insert_self}
use eclipse_erp.Inventory.Data.{
  Warehouse, TransferLine, TransferStatus, Transfer, CreateTransferInput, World, Failure,
}
use eclipse_erp.Inventory.Service.{permit, own_warehouse}
use eclipse_erp.Inventory.Transfers.{
  valid_create_transfer, duplicate_item_of, is_missing, new_transfer, store_transfer,
  create_transfer,
}
use eclipse_erp.Inventory.Transfers.Conserve.{are_distinct}

seen-absent :
    (x : Text) (seen : List Text) (ls : List TransferLine)
    → any (text_eq x) seen ≡ true
    → duplicate_item_of seen ls ≡ none
    → any (λ (k : TransferLine). text_eq k.item_id x) ls ≡ false
unfolding duplicate_item_of
seen-absent x seen [] a h = refl
seen-absent x seen (l ∷ ls) a h = elim (Bool-cases (text_eq l.item_id x)) [
  | inl same ↦
      let a' = subst (λ y. any (text_eq y) seen ≡ true) (sym (text_eq→eq l.item_id x same)) a in
      absurd (ground (arith, h, a'))
  | inr other ↦
      let rest = seen-absent x (l.item_id ∷ seen) ls (ground (arith, a)) (ground (arith, h)) in
      ground (arith, other, rest)
]

duplicate_item_of-are_distinct :
    (seen : List Text) (ls : List TransferLine)
    → duplicate_item_of seen ls ≡ none
    → are_distinct ls ≡ true
unfolding duplicate_item_of are_distinct
duplicate_item_of-are_distinct seen [] h = refl
duplicate_item_of-are_distinct seen (l ∷ ls) h =
    let later : duplicate_item_of (l.item_id ∷ seen) ls ≡ none = ground (arith, h) in
    let self : any (text_eq l.item_id) (l.item_id ∷ seen) ≡ true =
      ground (arith, text_eq_refl l.item_id) in
    ground (
      arith,
      seen-absent l.item_id (l.item_id ∷ seen) ls self later,
      duplicate_item_of-are_distinct (l.item_id ∷ seen) ls later,
    )

-- A transfer that was stored, with the balances left alone.
abbrev IsStored :
    CreateTransferInput → Text → World → Result Failure Transfer × World → Transfer → Type 0
IsStored i id w (r, w') t =
    (lookup id w'.transfers ≡ some t)
    × (t.status ≡ TransferStatus.draft)
    × (t.lines ≡ i.lines)
    × (w'.balances ≡ w.balances)

store_transfer-IsStored :
    (i : CreateTransferInput) (id : Text) (source destination : Warehouse) (w : World)
    (t : Transfer)
    → (store_transfer i id source destination w).0 ≡ ok t
    → IsStored i id w (store_transfer i id source destination w) t
unfolding store_transfer
store_transfer-IsStored i id source destination w t h =
    let made = new_transfer i id source.legal_entity_id in
    elim (Bool-cases (text_eq destination.legal_entity_id source.legal_entity_id)) [
      | inr e ↦ absurd (ground (arith, h, e))
      | inl e ↦ elim (Option-cases (find (is_missing i.tenant_id w.items) i.lines)) [
        | inr (l, f) ↦ absurd (ground (arith, h, e, f))
        | inl f ↦
            let is : made ≡ t = ground (arith, h, e, f) in
            ground (arith, h, e, f, is, lookup-insert_self id made w.transfers)
      ]
    ]

-- A creation that succeeded passed every check before the two warehouses.
create_transfer-stores :
    (i : CreateTransferInput) (id : Text) (w : World) (t : Transfer)
    → (create_transfer i id w).0 ≡ ok t
    → (duplicate_item_of [] i.lines ≡ none)
      × ((source : Warehouse) × (destination : Warehouse) × (create_transfer i id w
            ≡ store_transfer i id source destination w))
unfolding create_transfer
create_transfer-stores i id w t h = elim (Bool-cases (valid_create_transfer i)) [
  | inr v ↦ absurd (ground (arith, h, v))
  | inl v ↦
      elim (Result-cases
        (permit i.principal i.tenant_id (codes "inventory.stock_transfer.create") w)) [
          | inr (e, p) ↦ absurd (ground (arith, h, v, p))
          | inl (d, p) ↦
              elim (Bool-cases (text_eq i.source_warehouse_id i.destination_warehouse_id)) [
                | inl s ↦ absurd (ground (arith, h, v, p, s))
                | inr s ↦ elim (Option-cases (duplicate_item_of [] i.lines)) [
                  | inr (item, u) ↦ absurd (ground (arith, h, v, p, s, u))
                  | inl u ↦
                      elim (Option-cases
                        (own_warehouse i.tenant_id (lookup i.source_warehouse_id w.warehouses))) [
                          | inl a ↦ absurd (ground (arith, h, v, p, s, u, a))
                          | inr (source, a) ↦
                              elim (Option-cases (
                                own_warehouse i.tenant_id
                                  (lookup i.destination_warehouse_id w.warehouses))) [
                                    | inl b ↦ absurd (ground (arith, h, v, p, s, u, a, b))
                                    | inr (destination, b) ↦
                                        (u, (source, destination, rw (v, p, s, u, a, b) refl))
                                  ]
                        ]
                ]
              ]
        ]
]

-- When a creation answers a transfer, that transfer is stored under the drawn identifier, it is a
-- draft with the lines of the input, no two of its lines name one item, and no balance changed.
pub create_transfer-ready :
    (i : CreateTransferInput) (id : Text) (w : World) (t : Transfer)
    → (create_transfer i id w).0 ≡ ok t
    → (lookup id (create_transfer i id w).1.transfers ≡ some t)
      × (t.status ≡ TransferStatus.draft)
      × (t.lines ≡ i.lines)
      × (are_distinct t.lines ≡ true)
      × ((create_transfer i id w).1.balances ≡ w.balances)
create_transfer-ready i id w t h =
    let (u, (source, destination, e)) = create_transfer-stores i id w t h in
    let stored : IsStored i id w (create_transfer i id w) t =
      subst (λ r. IsStored i id w r t) (sym e)
        (store_transfer-IsStored i id source destination w t (subst (λ r. r.0 ≡ ok t) e h)) in
    let (found, status, lines, balances) = stored in
    (
      found,
      status,
      lines,
      subst (λ ls. are_distinct ls ≡ true) (sym lines)
          (duplicate_item_of-are_distinct [] i.lines u),
      balances,
    )
