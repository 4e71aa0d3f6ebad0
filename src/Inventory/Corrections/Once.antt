-- ===== src/Inventory/Corrections/Once.antt =====
-- A correction is made once for a key and leaves what is reserved covered:
-- packages/inventory/src/service.ts.
use eclipse_erp.Base.{
  ℕ, ◌+◌, ◌-◌, ◌≡◌, sym, ap, ◌∙◌, subst, ◌⊎◌, inl, inr, true, some, arith, ltb, Bool-cases,
  Option-cases,
}
use eclipse_erp.Base.Effect.{ok, Result-cases}
use eclipse_erp.Text.{Text, codes, text_eq, text_eq_refl, trim}
use eclipse_erp.Dict.{lookup, insert, lookup-insert_self}
use eclipse_erp.Authorization.Service.{Decision}
use eclipse_erp.Messaging.Service as Outbox
use eclipse_erp.Inventory.Data.{Balance, AdjustStockInput, Correction}
use eclipse_erp.Inventory.Service.{stock_key, permit, own_warehouse, own_item, balance_or_zero}
use eclipse_erp.Inventory.Reserved.{IsStocked, on_hand-IsStocked}
use eclipse_erp.Inventory.Corrections.{
  Store, Environment, adds, takes, valid_adjust, correction_key, unit_asked, same_correction,
  new_correction, correction_event, store_correction, correct_balance, correct_new, adjust_stock,
}

module _ {Json : Type 0} (v : Environment Json) where
  -- The correction stands under its key, and the input is still allowed.
  abbrev IsMade : AdjustStockInput → Correction → Store Json → Type 0
  IsMade i c s =
      (valid_adjust i ≡ true)
      × ((d : Decision) × (permit i.principal i.tenant_id (codes "inventory.stock.adjust") s.stock
            ≡ ok d))
      × (lookup (correction_key i) s.corrections ≡ some c)
      × (same_correction v i c ≡ true)

  IsMade-adjust_stock :
      (i : AdjustStockInput) (id event_id : Text) (now : ℕ) (c : Correction) (s : Store Json)
      → IsMade i c s
      → adjust_stock v i id event_id now s ≡ (ok c, s)
  unfolding adjust_stock
  IsMade-adjust_stock i id event_id now c s (valid, (d, may), found, alike) =
      ground (arith, valid, may, found, alike)

  new_correction-same :
      (i : AdjustStockInput) (id : Text) → same_correction v i (new_correction v i id) ≡ true
  unfolding same_correction
  new_correction-same i id = ground (
    arith,
    text_eq_refl i.warehouse_id,
    text_eq_refl i.item_id,
    text_eq_refl i.adjustment,
    text_eq_refl (unit_asked v i),
    text_eq_refl (trim i.reason),
  )

  store_correction-made :
      (i : AdjustStockInput) (id event_id : Text) (now : ℕ) (b : Balance) (c : Correction)
      (s s' : Store Json)
      → store_correction v i id event_id now b s ≡ (ok c, s')
      → (lookup (correction_key i) s'.corrections ≡ some c)
        × (same_correction v i c ≡ true)
        × (s'.stock.authorization ≡ s.stock.authorization)
  unfolding store_correction
  store_correction-made i id event_id now b c s s' h =
      elim (Result-cases
        (Outbox.append v.platform (correction_event v i (new_correction v i id) event_id now)
          s.messaging).0) [
            | inr (e, bad) ↦ absurd (ground (arith, h, bad))
            | inl (e, sent) ↦
                let made = new_correction v i id in
                let is : made ≡ c = ground (arith, h, sent) in
                let kept : insert (correction_key i) made s.corrections ≡ s'.corrections =
                  ground (arith, h, sent) in
                (
                  subst (λ m. lookup (correction_key i) m ≡ some c) kept
                      (lookup-insert_self (correction_key i) made s.corrections ∙ ap some is),
                  subst (λ x. same_correction v i x ≡ true) is (new_correction-same i id),
                  ground (arith, h, sent),
                )
          ]

  correct_new-stored :
      (i : AdjustStockInput) (id event_id : Text) (now : ℕ) (c : Correction) (s s' : Store Json)
      → correct_new v i id event_id now s ≡ (ok c, s')
      → store_correction v i id event_id now
          (balance_or_zero
            (lookup (stock_key i.tenant_id i.warehouse_id i.item_id) s.stock.balances))
          s
        ≡ (ok c, s')
  unfolding correct_new correct_balance
  correct_new-stored i id event_id now c s s' h = ground (arith, h)

  adjust_stock-IsMade :
      (i : AdjustStockInput) (id event_id : Text) (now : ℕ) (c : Correction) (s s' : Store Json)
      → adjust_stock v i id event_id now s ≡ (ok c, s')
      → IsMade i c s'
  unfolding adjust_stock permit
  adjust_stock-IsMade i id event_id now c s s' h =
      elim (Result-cases
        (permit i.principal i.tenant_id (codes "inventory.stock.adjust") s.stock)) [
          | inr (e, bad) ↦ absurd (ground (arith, h, bad))
          | inl (d, may) ↦ elim (Option-cases (lookup (correction_key i) s.corrections)) [
            | inr (old, found) ↦
                let same_store : s ≡ s' = ground (arith, h, may, found) in
                subst (IsMade i c) same_store (
                  ground (arith, h),
                  (d, may),
                  ground (arith, h, may, found),
                  ground (arith, h, may, found),
                )
            | inl fresh ↦
                let ran : correct_new v i id event_id now s ≡ (ok c, s') =
                  ground (arith, h, may, fresh) in
                let (kept, alike, grants) =
                  store_correction-made i id event_id now
                    (balance_or_zero
                      (lookup (stock_key i.tenant_id i.warehouse_id i.item_id) s.stock.balances))
                    c s s' (correct_new-stored i id event_id now c s s' ran) in
                (ground (arith, h), (d, ground (arith, may, grants)), kept, alike)
          ]
        ]

  -- A correction that succeeded may be repeated with its key, under new identifiers and at any time:
  -- it returns the same correction, and neither stock nor events change.
  pub adjust_stock-again :
      (i : AdjustStockInput) (id event_id : Text) (now : ℕ) (c : Correction) (s s' : Store Json)
      → adjust_stock v i id event_id now s ≡ (ok c, s')
      → (id' event_id' : Text) (later : ℕ) → adjust_stock v i id' event_id' later s' ≡ (ok c, s')
  adjust_stock-again i id event_id now c s s' h id' event_id' later =
      IsMade-adjust_stock i id' event_id' later c s'
        (adjust_stock-IsMade i id event_id now c s s' h)

  correct_new-runs :
      (i : AdjustStockInput) (id event_id : Text) (now : ℕ) (s : Store Json)
      → ((correct_new v i id event_id now s).1 ≡ s)
        ⊎ ((correct_new v i id event_id now s).1 ≡ (correct_balance v i id event_id now s).1)
  unfolding correct_new
  correct_new-runs i id event_id now s =
      elim (Option-cases (own_warehouse i.tenant_id (lookup i.warehouse_id s.stock.warehouses))) [
        | inl n ↦ inl (ground (arith, n))
        | inr (h, n) ↦ elim (Option-cases (own_item i.tenant_id (lookup i.item_id s.stock.items))) [
          | inl m ↦ inl (ground (arith, n, m))
          | inr (t, m) ↦ elim (Bool-cases (text_eq t.unit_of_measure (unit_asked v i))) [
            | inr other ↦ inl (ground (arith, n, m, other))
            | inl same ↦ inr (ground (arith, n, m, same))
          ]
        ]
      ]

  adjust_stock-runs :
      (i : AdjustStockInput) (id event_id : Text) (now : ℕ) (s : Store Json)
      → ((adjust_stock v i id event_id now s).1 ≡ s)
        ⊎ ((adjust_stock v i id event_id now s).1 ≡ (correct_new v i id event_id now s).1)
  unfolding adjust_stock
  adjust_stock-runs i id event_id now s = elim (Bool-cases (valid_adjust i)) [
    | inr bad ↦ inl (ground (arith, bad))
    | inl good ↦
        elim (Result-cases
          (permit i.principal i.tenant_id (codes "inventory.stock.adjust") s.stock)) [
            | inr (e, denied) ↦ inl (ground (arith, good, denied))
            | inl (d, may) ↦ elim (Option-cases (lookup (correction_key i) s.corrections)) [
              | inr (old, found) ↦ inl (ground (arith, good, may, found))
              | inl fresh ↦ inr (ground (arith, good, may, fresh))
            ]
          ]
  ]

  correct_balance-IsStocked :
      (i : AdjustStockInput) (id event_id : Text) (now : ℕ) (s : Store Json)
      → IsStocked s.stock
      → IsStocked (correct_balance v i id event_id now s).1.stock
  unfolding correct_balance store_correction
  correct_balance-IsStocked i id event_id now s h =
      let key = stock_key i.tenant_id i.warehouse_id i.item_id in
      let b = balance_or_zero (lookup key s.stock.balances) in
      let event = correction_event v i (new_correction v i id) event_id now in
      elim (Bool-cases (ltb (b.on_hand + adds i.adjustment) (b.reserved + takes i.adjustment))) [
        | inl short ↦
            let same_stock : s.stock ≡ (correct_balance v i id event_id now s).1.stock =
              ground (arith, short) in
            subst IsStocked same_stock h
        | inr enough ↦ elim (Result-cases (Outbox.append v.platform event s.messaging).0) [
          | inr (e, bad) ↦
              let same_stock : s.stock ≡ (correct_balance v i id event_id now s).1.stock =
                ground (arith, enough, bad) in
              subst IsStocked same_stock h
          | inl (e, sent) ↦
              let left = (b.on_hand + adds i.adjustment) - takes i.adjustment in
              let w = s.stock in
              let next : Balance = record b { on_hand = left } in
              let stored : record w { balances = insert key next w.balances }
                  ≡ (correct_balance v i id event_id now s).1.stock =
                ground (arith, enough, sent) in
              subst IsStocked stored (on_hand-IsStocked key left w (ground (arith, enough)) h)
        ]
      ]

  -- Where every reservation is kept under its own id, and what is reserved of each stock equals what
  -- its active reservations hold and is within what is on hand, a correction keeps it so, whether it succeeds or fails.
  pub adjust_stock-IsStocked :
      (i : AdjustStockInput) (id event_id : Text) (now : ℕ) (s : Store Json)
      → IsStocked s.stock
      → IsStocked (adjust_stock v i id event_id now s).1.stock
  adjust_stock-IsStocked i id event_id now s h = elim (adjust_stock-runs i id event_id now s) [
    | inl none_done ↦ subst (λ x. IsStocked x.stock) (sym none_done) h
    | inr ran ↦
        subst (λ x. IsStocked x.stock) (sym ran)
          (elim (correct_new-runs i id event_id now s) [
            | inl none_done ↦ subst (λ x. IsStocked x.stock) (sym none_done) h
            | inr done ↦
                subst (λ x. IsStocked x.stock) (sym done)
                  (correct_balance-IsStocked i id event_id now s h)
          ])
  ]
