-- ===== src/Sales/Oversized.antt =====
-- Orders that are created and cannot be confirmed: packages/sales/src/service.ts.
use eclipse_erp.Base.{ℕ, ◌^◌, ◌≤◌, ◌≡◌, refl, subst, true, false, some, arith, all}
use eclipse_erp.Base.Effect.{ok}
use eclipse_erp.Text.{Text, text_eq_refl}
use eclipse_erp.Dict.{insert, lookup-insert_self}
use eclipse_erp.Kernel.Amount.{is_major_amount}
use eclipse_erp.Sales.Orders.{
  SalesOrder, OrderStatus, CreateOrderInput, ConfirmOrderInput, valid_order_line,
  valid_create_order, print_cents, derive_total,
}
use eclipse_erp.Sales.Service.{
  Environment, World, found_order, new_order, store_order, create_order, confirm_draft,
  confirm_found, confirm_order,
}
use eclipse_erp.Sales.Lifecycle.{succeeds}
use eclipse_erp.Sales.Total.{order_cents, derive_total-valid, print_cents-oversized}

module _ {Json : Type 0} where
  -- An order that is created has valid lines, and is stored with their total.
  created :
      (i : CreateOrderInput) (id : Text) (o : SalesOrder) (w w' : World Json)
      → create_order i id w ≡ (ok o, w')
      → (all valid_order_line i.lines ≡ true) × (store_order i id w ≡ (ok o, w'))
  unfolding create_order valid_create_order
  created i id o w w' h = ground (arith, h)

  stored :
      (i : CreateOrderInput) (id total : Text) (o : SalesOrder) (w w' : World Json)
      → derive_total i.lines ≡ ok total
      → store_order i id w ≡ (ok o, w')
      → record w { orders = insert id (new_order i id total) w.orders } ≡ w'
  unfolding store_order
  stored i id total o w w' t h = ground (arith, t, h)

  -- Creating an order makes it the one that its tenant finds, with the sum of its lines.
  created-found :
      (i : CreateOrderInput) (id : Text) (o : SalesOrder) (w w' : World Json)
      → create_order i id w ≡ (ok o, w')
      → found_order i.tenant_id id w' ≡ some (new_order i id (print_cents (order_cents i.lines)))
  created-found i id o w w' h =
      let (valid, kept) = created i id o w w' h in
      let total = print_cents (order_cents i.lines) in
      let next = stored i id total o w w' (derive_total-valid i.lines valid) kept in
      subst (λ s. found_order i.tenant_id id s ≡ some (new_order i id total)) next
        (ground
          (arith, lookup-insert_self id (new_order i id total) w.orders, text_eq_refl i.tenant_id))

  module _ (v : Environment Json) where
    refused :
        (j : ConfirmOrderInput) (o : SalesOrder) (event_id : Text) (now : ℕ) (w : World Json)
        → found_order j.tenant_id j.order_id w ≡ some o
        → o.status ≡ OrderStatus.draft
        → is_major_amount o.total ≡ false
        → (succeeds (confirm_order v j event_id now w).0 ≡ false)
          × ((confirm_order v j event_id now w).1 ≡ w)
    unfolding confirm_order confirm_found confirm_draft
    refused j o event_id now w f c t = ground (arith, f, c, t)

    -- After an order has been created whose lines sum up to 10^20 cents or more, every confirmation of
    -- it under its tenant, by whomever and at whatever time, fails and changes nothing, so that the
    -- next one fails too.
    pub confirm_order-oversized :
        (i : CreateOrderInput) (id : Text) (o : SalesOrder) (w w' : World Json)
        → create_order i id w ≡ (ok o, w')
        → 10 ^ 20 ≤ order_cents i.lines
        → (j : ConfirmOrderInput) (event_id : Text) (now : ℕ) → j.tenant_id ≡ i.tenant_id
        → j.order_id ≡ id
        → (succeeds (confirm_order v j event_id now w').0 ≡ false)
          × ((confirm_order v j event_id now w').1 ≡ w')
    confirm_order-oversized i id o w w' h large j event_id now tenant order =
        refused j (new_order i id (print_cents (order_cents i.lines))) event_id now w'
          (rw (tenant, order) (created-found i id o w w' h)) refl
          (print_cents-oversized (order_cents i.lines) large)
