-- ===== src/Sales/Lifecycle.antt =====
-- The life of an order: packages/sales/src/service.ts.
use eclipse_erp.Base.{
  ℕ, ◌≡◌, inl, inr, Bool, true, false, not, ◌&&◌, Option, none, some, arith, Option-cases, all,
  all_mono,
}
use eclipse_erp.Base.Effect.{Result, ok, err, Result-cases}
use eclipse_erp.Text.{Text, text_eq, text_eq_refl}
use eclipse_erp.Dict.{
  Dict, lookup, insert, contains, lookup-insert_self, contains-insert, all-insert, lookup-all,
}
use eclipse_erp.Sales.Orders.{
  SalesOrder, OrderStatus, confirmed, cancelled, CreateOrderInput, ConfirmOrderInput, OrderInput,
  derive_total,
}
use eclipse_erp.Sales.Service.{
  Environment, World, Failure, found_order, new_order, store_order, create_order, confirm_draft,
  confirm_found, confirm_order, cancel_found, cancel_confirmed_order,
}

abbrev pub succeeds : {A : Type 0} → Result Failure A → Bool
succeeds (ok a) = true
succeeds (err e) = false

abbrev pub is_set : {A : Type 0} → Option A → Bool
is_set none = false
is_set (some a) = true

-- A draft has no time of confirmation; an order that was confirmed has one, and a key.
abbrev pub status_fits : OrderStatus → (at : Bool) → (key : Bool) → Bool
status_fits OrderStatus.draft at key = not at
status_fits OrderStatus.confirmed at key = at && key
status_fits OrderStatus.cancelled at key = at && key

abbrev pub order_fits : Dict Text → Text × SalesOrder → Bool
order_fits keys (k, o) =
    text_eq k o.id && status_fits o.status (is_set o.confirmed_at) (contains o.id keys)

fits_after :
    (keys : Dict Text) (k v : Text) (x : Text × SalesOrder)
    → order_fits keys x ≡ true
    → order_fits (insert k v keys) x ≡ true
fits_after keys k v x h = ground (arith, contains-insert k x.1.id v keys)

module _ {Json : Type 0} where
  -- Each order is kept under its own id, and its time and key fit its status.
  abbrev pub IsOrderly : World Json → Type 0
  IsOrderly w = all (order_fits w.confirmation_keys) w.orders ≡ true

  pub found_order-lookup :
      (tenant id : Text) (w : World Json) (o : SalesOrder)
      → found_order tenant id w ≡ some o
      → lookup id w.orders ≡ some o
  found_order-lookup tenant id w o h = elim (Option-cases (lookup id w.orders)) [
    | inl e ↦ absurd (ground (arith, e))
    | inr (x, e) ↦ ground (arith, e)
  ]

  confirm_draft-IsOrderly :
      (v : Environment Json) (i : ConfirmOrderInput) (o : SalesOrder) (event_id : Text) (now : ℕ)
      (w : World Json)
      → IsOrderly w
      → IsOrderly (confirm_draft v i o event_id now w).1
  unfolding confirm_draft
  confirm_draft-IsOrderly v i o event_id now w h =
      let at = v.platform.iso_string now in
      let done : SalesOrder = record o { status = confirmed; confirmed_at = some at } in
      let keys = insert o.id i.idempotency_key w.confirmation_keys in
      let old =
        all_mono (order_fits w.confirmation_keys) (order_fits keys) w.orders
          (fits_after w.confirmation_keys o.id i.idempotency_key) h in
      let own : order_fits keys (o.id, done) ≡ true =
        ground (
          arith,
          text_eq_refl o.id,
          lookup-insert_self o.id i.idempotency_key w.confirmation_keys,
        ) in
      ground (arith, h, all-insert (order_fits keys) o.id done w.orders own old)

  store_order-IsOrderly :
      (i : CreateOrderInput) (id : Text) (w : World Json)
      → IsOrderly w
      → IsOrderly (store_order i id w).1
  unfolding store_order
  store_order-IsOrderly i id w h = elim (Result-cases (derive_total i.lines)) [
    | inl (total, e) ↦
        let own : order_fits w.confirmation_keys (id, new_order i id total) ≡ true =
          ground (arith, text_eq_refl id) in
        ground (
          arith,
          h,
          e,
          all-insert (order_fits w.confirmation_keys) id (new_order i id total) w.orders own h,
        )
    | inr (reason, e) ↦ ground (arith, h, e)
  ]

  cancel_found-IsOrderly :
      (i : OrderInput) (o : SalesOrder) (w : World Json)
      → IsOrderly w
      → order_fits w.confirmation_keys (o.id, o) ≡ true
      → IsOrderly (cancel_found i o w).1
  unfolding cancel_found
  cancel_found-IsOrderly i o w h own =
      let done : SalesOrder = record o { status = cancelled } in
      ground (arith, h, own, all-insert (order_fits w.confirmation_keys) o.id done w.orders)

  -- An order that is found is stored under its own id.
  pub found-fits :
      (tenant id : Text) (w : World Json) (o : SalesOrder)
      → IsOrderly w
      → found_order tenant id w ≡ some o
      → order_fits w.confirmation_keys (o.id, o) ≡ true
  found-fits tenant id w o h e =
      let own =
        lookup-all (order_fits w.confirmation_keys) id o w.orders h
          (found_order-lookup tenant id w o e) in
      ground (arith, own, text_eq_refl o.id)

  -- Where it holds before, creating, confirming and cancelling orders keeps every order under its
  -- own id, drafts without a time of confirmation, and orders that were confirmed with a time and
  -- an idempotency key.
  pub operations-IsOrderly :
      (w : World Json)
      → IsOrderly w
      → ((i : CreateOrderInput) (id : Text) → IsOrderly (create_order i id w).1)
        × ((v : Environment Json) (i : ConfirmOrderInput) (event_id : Text) (now : ℕ)
            → IsOrderly (confirm_order v i event_id now w).1)
        × ((i : OrderInput) → IsOrderly (cancel_confirmed_order i w).1)
  unfolding create_order confirm_order confirm_found cancel_confirmed_order
  operations-IsOrderly w h = (
    λ i id. ground (arith, h, store_order-IsOrderly i id w),
    λ v i event_id now. elim (Option-cases (found_order i.tenant_id i.order_id w)) [
      | inl e ↦ ground (arith, h, e)
      | inr (o, e) ↦ ground (arith, h, e, confirm_draft-IsOrderly v i o event_id now w)
    ],
    λ i. elim (Option-cases (found_order i.tenant_id i.order_id w)) [
      | inl e ↦ ground (arith, h, e)
      | inr (o, e) ↦
          ground (
            arith,
            h,
            e,
            cancel_found-IsOrderly i o w h (found-fits i.tenant_id i.order_id w o h e),
          )
    ],
  )
