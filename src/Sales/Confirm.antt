-- ===== src/Sales/Confirm.antt =====
-- Confirming an order: packages/sales/src/service.ts.
use eclipse_erp.Base.{
  ℕ, ◌≡◌, refl, sym, ap, ◌∙◌, subst, ◌⊎◌, inl, inr, Bool, true, false, ◌&&◌, none, some, arith,
  Bool-cases, Option-cases,
}
use eclipse_erp.Base.Effect.{ok}
use eclipse_erp.Text.{Text, codes, text_eq, text_eq_refl, text_eq→eq}
use eclipse_erp.Dict.{lookup, lookup-insert_self, lookup-all}
use eclipse_erp.Sales.Orders.{
  SalesOrder, OrderStatus, confirmed, cancelled, ConfirmOrderInput, valid_confirm,
}
use eclipse_erp.Sales.Service.{
  Environment, World, found_order, permit, confirm_draft, same_key, confirm_found, confirm_order,
}
use eclipse_erp.Sales.Lifecycle.{succeeds, IsOrderly, order_fits, found_order-lookup}

Status-cases : (s : OrderStatus) → (s ≡ OrderStatus.draft) ⊎ ((s ≡ confirmed) ⊎ (s ≡ cancelled))
Status-cases OrderStatus.draft = inl refl
Status-cases confirmed = inr (inl refl)
Status-cases cancelled = inr (inr refl)

module _ {Json : Type 0} (v : Environment Json) where
  -- What an input is allowed and what it finds.
  abbrev admits : ConfirmOrderInput → World Json → Bool
  admits i w =
      valid_confirm i && succeeds (permit i.principal i.tenant_id (codes "sales.order.confirm") w)

  -- A confirmed order answers its own key with itself.
  confirm_order-known :
      (i : ConfirmOrderInput) (o : SalesOrder) (event_id : Text) (now : ℕ) (w : World Json)
      → admits i w ≡ true
      → found_order i.tenant_id i.order_id w ≡ some o
      → o.status ≡ confirmed
      → same_key i.idempotency_key (lookup o.id w.confirmation_keys) ≡ true
      → confirm_order v i event_id now w ≡ (ok o, w)
  unfolding confirm_order confirm_found
  confirm_order-known i o event_id now w a f c k = ground (arith, a, f, c, k)

  confirm_order-draft :
      (i : ConfirmOrderInput) (o : SalesOrder) (event_id : Text) (now : ℕ) (w : World Json)
      → admits i w ≡ true
      → found_order i.tenant_id i.order_id w ≡ some o
      → o.status ≡ OrderStatus.draft
      → confirm_order v i event_id now w ≡ confirm_draft v i o event_id now w
  unfolding confirm_order confirm_found
  confirm_order-draft i o event_id now w a f c = ground (arith, a, f, c)

  confirm_order-admits :
      (i : ConfirmOrderInput) (event_id : Text) (now : ℕ) (w : World Json)
      → succeeds (confirm_order v i event_id now w).0 ≡ true
      → admits i w ≡ true
  unfolding confirm_order
  confirm_order-admits i event_id now w h = ground arith

  -- The order as it is confirmed at a time.
  abbrev done : SalesOrder → ℕ → SalesOrder
  done o now = record o { status = confirmed; confirmed_at = some (v.platform.iso_string now) }

  -- What confirming a draft leaves.
  confirm_draft-succeeds :
      (i : ConfirmOrderInput) (o : SalesOrder) (event_id : Text) (now : ℕ) (w : World Json)
      → succeeds (confirm_draft v i o event_id now w).0 ≡ true
      → ((confirm_draft v i o event_id now w).0 ≡ ok (done o now))
        × ((confirm_draft v i o event_id now w).1.authorization ≡ w.authorization)
        × (lookup o.id (confirm_draft v i o event_id now w).1.orders ≡ some (done o now))
        × (lookup o.id (confirm_draft v i o event_id now w).1.confirmation_keys
            ≡ some i.idempotency_key)
  unfolding confirm_draft
  confirm_draft-succeeds i o event_id now w h = ground (
    arith,
    lookup-insert_self o.id (done o now) w.orders,
    lookup-insert_self o.id i.idempotency_key w.confirmation_keys,
  )

  -- A confirmation that succeeds has found a draft, or a confirmed order with its key.
  confirm_order-finds :
      (i : ConfirmOrderInput) (event_id : Text) (now : ℕ) (w : World Json)
      → found_order i.tenant_id i.order_id w ≡ none
      → succeeds (confirm_order v i event_id now w).0 ≡ false
  unfolding confirm_order
  confirm_order-finds i event_id now w f = ground (arith, f)

  confirm_order-key :
      (i : ConfirmOrderInput) (o : SalesOrder) (event_id : Text) (now : ℕ) (w : World Json)
      → found_order i.tenant_id i.order_id w ≡ some o
      → succeeds (confirm_order v i event_id now w).0 ≡ true
      → o.status ≡ confirmed
      → same_key i.idempotency_key (lookup o.id w.confirmation_keys) ≡ true
  unfolding confirm_order confirm_found
  confirm_order-key i o event_id now w f h c = ground (arith, f, c)

  confirm_order-cancelled :
      (i : ConfirmOrderInput) (o : SalesOrder) (event_id : Text) (now : ℕ) (w : World Json)
      → found_order i.tenant_id i.order_id w ≡ some o
      → o.status ≡ cancelled
      → succeeds (confirm_order v i event_id now w).0 ≡ false
  unfolding confirm_order confirm_found
  confirm_order-cancelled i o event_id now w f c = ground (arith, f, c)

  same_permit :
      (i : ConfirmOrderInput) (w w' : World Json)
      → w'.authorization ≡ w.authorization
      → admits i w ≡ true
      → admits i w' ≡ true
  unfolding permit
  same_permit i w w' e a = ground (arith, e, a)

  found_again :
      (tenant id : Text) (o d : SalesOrder) (w w' : World Json)
      → found_order tenant id w ≡ some o
      → lookup id w'.orders ≡ some d
      → d.tenant_id ≡ o.tenant_id
      → found_order tenant id w' ≡ some d
  found_again tenant id o d w w' f l e = elim (Option-cases (lookup id w.orders)) [
    | inl n ↦ absurd (ground (arith, n, f))
    | inr (x, m) ↦ elim (Bool-cases (text_eq x.tenant_id tenant)) [
      | inr t ↦ absurd (ground (arith, m, f, t))
      | inl t ↦
          let x_is : x ≡ o = ground (arith, m, f, t) in
          let same : d.tenant_id ≡ x.tenant_id =
            e ∙ sym (ap (λ (y : SalesOrder). y.tenant_id) x_is) in
          let t' = subst (λ y. text_eq y tenant ≡ true) (sym same) t in ground (arith, l, t')
    ]
  ]

  repeat_draft :
      (i : ConfirmOrderInput) (o : SalesOrder) (e e' : Text) (n n' : ℕ) (w : World Json)
      → IsOrderly w
      → admits i w ≡ true
      → found_order i.tenant_id i.order_id w ≡ some o
      → succeeds (confirm_draft v i o e n w).0 ≡ true
      → confirm_order v i e' n' (confirm_draft v i o e n w).1 ≡ confirm_draft v i o e n w
  unfolding same_key
  repeat_draft i o e e' n n' w orderly a f h =
      let d = confirm_draft v i o e n w in
      let (answer, auth, there, key) = confirm_draft-succeeds i o e n w h in
      let own =
        lookup-all (order_fits w.confirmation_keys) i.order_id o w.orders orderly
          (found_order-lookup i.tenant_id i.order_id w o f) in
      let id = text_eq→eq i.order_id o.id (ground arith) in
      let at_id : lookup i.order_id d.1.orders ≡ some (done o n) =
        subst (λ x. lookup x d.1.orders ≡ some (done o n)) (sym id) there in
      let known =
        confirm_order-known i (done o n) e' n' d.1 (same_permit i w d.1 auth a)
          (found_again i.tenant_id i.order_id o (done o n) w d.1 f at_id refl) refl
          (ground (arith, key, text_eq_refl i.idempotency_key)) in
      known ∙ ap (λ y. (y, d.1)) (sym answer)

  -- Where every order is kept under its own id, with a time and a key of its confirmation as its
  -- status asks for, a confirmation that succeeded may be repeated, with whatever new event id and time: it answers the same order, and changes no order, key or
  -- event.
  pub confirm_order-again :
      (i : ConfirmOrderInput) (e e' : Text) (n n' : ℕ) (w : World Json)
      → IsOrderly w
      → succeeds (confirm_order v i e n w).0 ≡ true
      → confirm_order v i e' n' (confirm_order v i e n w).1 ≡ confirm_order v i e n w
  confirm_order-again i e e' n n' w orderly h =
      let a = confirm_order-admits i e n w h in
      elim (Option-cases (found_order i.tenant_id i.order_id w)) [
        | inl f ↦ absurd (ground (arith, confirm_order-finds i e n w f, h))
        | inr (o, f) ↦ elim (Status-cases o.status) [
          | inl c ↦
              let ran = confirm_order-draft i o e n w a f c in
              let h' = subst (λ x. succeeds x.0 ≡ true) ran h in
              subst (λ x. confirm_order v i e' n' x.1 ≡ x) (sym ran)
                (repeat_draft i o e e' n n' w orderly a f h')
          | inr (inl c) ↦
              let k = confirm_order-key i o e n w f h c in
              subst (λ x. confirm_order v i e' n' x.1 ≡ x)
                (sym (confirm_order-known i o e n w a f c k))
                (confirm_order-known i o e' n' w a f c k)
          | inr (inr c) ↦ absurd (ground (arith, confirm_order-cancelled i o e n w f c, h))
        ]
      ]
