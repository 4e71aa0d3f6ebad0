-- ===== src/Sales/Advance.antt =====
-- What an operation may change of an order: packages/sales/src/service.ts.
use eclipse_erp.Base.{
  ℕ, ◌≡◌, refl, sym, subst, inl, inr, Bool, true, false, ◌&&◌, Option, none, some, arith, leb,
  Bool-cases, Option-cases,
}
use eclipse_erp.Base.Effect.{Result-cases}
use eclipse_erp.Text.{Text, text_eq, text_eq_refl, text_eq→eq}
use eclipse_erp.Dict.{Dict, lookup, insert, lookup-insert, lookup-all}
use eclipse_erp.Sales.Orders.{
  SalesOrder, OrderStatus, confirmed, cancelled, CreateOrderInput, ConfirmOrderInput, OrderInput,
  derive_total,
}
use eclipse_erp.Sales.Service.{
  Environment, World, found_order, new_order, store_order, create_order, confirm_draft,
  confirm_found, confirm_order, cancel_found, cancel_confirmed_order,
}
use eclipse_erp.Sales.Lifecycle.{IsOrderly, order_fits, found_order-lookup}

-- Drafts come before confirmed orders, and these before cancelled ones.
abbrev rank : OrderStatus → ℕ
rank OrderStatus.draft = 0
rank confirmed = 1
rank cancelled = 2

-- An order keeps its total and customer, and its status does not go back.
unfoldable pub advances : Option SalesOrder → Option SalesOrder → Bool
advances none after = true
advances (some o) none = false
advances (some o) (some d) =
    leb (rank o.status) (rank d.status)
    && (text_eq o.total d.total && text_eq o.customer_id d.customer_id)

advances_refl : (o : Option SalesOrder) → advances o o ≡ true
unfolding advances
advances_refl none = refl
advances_refl (some o) = ground (arith, text_eq_refl o.total, text_eq_refl o.customer_id)

insert-advances :
    (j k : Text) (o d : SalesOrder) (m : Dict SalesOrder)
    → lookup j m ≡ some o
    → advances (some o) (some d) ≡ true
    → advances (lookup k m) (lookup k (insert j d m)) ≡ true
insert-advances j k o d m h a = elim (Bool-cases (text_eq k j)) [
  | inl same ↦
      let here = subst (λ x. lookup x m ≡ some o) (sym (text_eq→eq k j same)) h in
      ground (arith, here, a, lookup-insert j k d m)
  | inr other ↦ ground (arith, lookup-insert j k d m, advances_refl (lookup k m))
]

fresh-advances :
    (j k : Text) (d : SalesOrder) (m : Dict SalesOrder)
    → lookup j m ≡ none
    → advances (lookup k m) (lookup k (insert j d m)) ≡ true
unfolding advances
fresh-advances j k d m h = elim (Bool-cases (text_eq k j)) [
  | inl same ↦
      let here = subst (λ x. lookup x m ≡ none) (sym (text_eq→eq k j same)) h in
      ground (arith, here)
  | inr other ↦ ground (arith, lookup-insert j k d m, advances_refl (lookup k m))
]

module _ {Json : Type 0} where
  store_order-advances :
      (i : CreateOrderInput) (id k : Text) (w : World Json)
      → lookup id w.orders ≡ none
      → advances (lookup k w.orders) (lookup k (store_order i id w).1.orders) ≡ true
  unfolding store_order
  store_order-advances i id k w h = elim (Result-cases (derive_total i.lines)) [
    | inl (total, e) ↦ ground (arith, e, fresh-advances id k (new_order i id total) w.orders h)
    | inr (reason, e) ↦ ground (arith, e, advances_refl (lookup k w.orders))
  ]

  confirm_draft-advances :
      (v : Environment Json) (i : ConfirmOrderInput) (o : SalesOrder) (event_id k : Text) (now : ℕ)
      (w : World Json)
      → lookup o.id w.orders ≡ some o
      → o.status ≡ OrderStatus.draft
      → advances (lookup k w.orders) (lookup k (confirm_draft v i o event_id now w).1.orders) ≡ true
  unfolding confirm_draft
  confirm_draft-advances v i o event_id k now w h c =
      let d : SalesOrder = record o {
        status = confirmed;
        confirmed_at = some (v.platform.iso_string now);
      } in
      let step : advances (some o) (some d) ≡ true =
        unfold advances in ground (arith, c, text_eq_refl o.total, text_eq_refl o.customer_id) in
      ground (arith, insert-advances o.id k o d w.orders h step, advances_refl (lookup k w.orders))

  cancel_found-advances :
      (i : OrderInput) (o : SalesOrder) (k : Text) (w : World Json)
      → lookup o.id w.orders ≡ some o
      → advances (lookup k w.orders) (lookup k (cancel_found i o w).1.orders) ≡ true
  unfolding cancel_found
  cancel_found-advances i o k w h =
      let d : SalesOrder = record o { status = cancelled } in
      let step : advances (some o) (some d) ≡ true =
        unfold advances in ground (arith, text_eq_refl o.total, text_eq_refl o.customer_id) in
      ground (arith, insert-advances o.id k o d w.orders h step, advances_refl (lookup k w.orders))

  -- An order that is found is stored under its own id.
  own_id :
      (tenant id : Text) (w : World Json) (o : SalesOrder)
      → IsOrderly w
      → found_order tenant id w ≡ some o
      → lookup o.id w.orders ≡ some o
  own_id tenant id w o h f =
      let there = found_order-lookup tenant id w o f in
      let own = lookup-all (order_fits w.confirmation_keys) id o w.orders h there in
      subst (λ x. lookup x w.orders ≡ some o) (text_eq→eq id o.id (ground arith)) there

  -- Where every order is kept under its own id, with a time and a key of its confirmation as its
  -- status asks for, no operation loses an order, changes its total or
  -- its customer, or takes its status back: creating one under an id that is new, confirming and
  -- cancelling leave every order where it was or further on.
  pub operations-advance :
      (w : World Json) (k : Text) (new : CreateOrderInput) (id : Text) (v : Environment Json)
      (confirm : ConfirmOrderInput) (event_id : Text) (now : ℕ) (cancel : OrderInput)
      → IsOrderly w
      → lookup id w.orders ≡ none
      → (advances (lookup k w.orders) (lookup k (create_order new id w).1.orders) ≡ true)
        × (advances (lookup k w.orders) (lookup k (confirm_order v confirm event_id now w).1.orders)
            ≡ true)
        × (advances (lookup k w.orders) (lookup k (cancel_confirmed_order cancel w).1.orders)
            ≡ true)
  unfolding create_order confirm_order confirm_found cancel_confirmed_order
  operations-advance w k new id v confirm event_id now cancel h n =
      let same = advances_refl (lookup k w.orders) in
      (
        ground (arith, same, store_order-advances new id k w n),
        elim (Option-cases (found_order confirm.tenant_id confirm.order_id w)) [
          | inl f ↦ ground (arith, same, f)
          | inr (o, f) ↦
              let at_id = own_id confirm.tenant_id confirm.order_id w o h f in
              ground (arith, same, f, confirm_draft-advances v confirm o event_id k now w at_id)
        ],
        elim (Option-cases (found_order cancel.tenant_id cancel.order_id w)) [
          | inl f ↦ ground (arith, same, f)
          | inr (o, f) ↦
              let at_id = own_id cancel.tenant_id cancel.order_id w o h f in
              ground (arith, same, f, cancel_found-advances cancel o k w at_id)
        ],
      )
