-- ===== src/Accounting/Periods/Closed.antt =====
-- What a closed period excludes: packages/accounting/src/service.ts.
use eclipse_erp.Base.{ℕ, ◌≡◌, ◌≢◌, subst, true, false, ◌&&◌, none, some, arith, take}
use eclipse_erp.Base.Effect.{ok}
use eclipse_erp.Text.{Text, text_eq, text_eq_refl}
use eclipse_erp.Text.Order.{text_le}
use eclipse_erp.Dict.{lookup, insert}
use eclipse_erp.Dict.Apart.{replaced-none}
use eclipse_erp.Accounting.Data.{
  Period, is_closed, ClosePeriodInput, PostRevenueInput, ReverseRevenueInput, JournalEntry, World,
}
use eclipse_erp.Accounting.Setup.{colon, close_period}
use eclipse_erp.Accounting.Journals.{Environment}
use eclipse_erp.Accounting.Revenue.{
  covers_day, may_post, post_total, post_revenue_for_order, reverse_order,
  reverse_revenue_for_order, revenue_reference, reversal_reference,
}
use eclipse_erp.Accounting.Periods.{IsPeriods, both_on, both_on_sym, covers_day-both_on, closes}

module _ {Json : Type 0} where
  closed-not_may_post :
      (tenant entity day : Text) (u : Period) (w : World Json)
      → lookup u.id w.periods ≡ some u
      → IsPeriods w
      → text_eq u.tenant_id tenant ≡ true
      → text_eq u.legal_entity_id entity ≡ true
      → (text_le u.starts_on day && text_le day u.ends_on) ≡ true
      → may_post tenant entity day
          (record w { periods = insert u.id (record u { status = is_closed }) w.periods })
        ≡ false
  unfolding may_post covers_day
  closed-not_may_post tenant entity day u w found (k, a) t e d =
      let closed : Period = record u { status = is_closed } in
      let none_open =
        replaced-none (both_on day) (both_on_sym day) (covers_day tenant entity day) u.id u closed
          w.periods found (λ q c. covers_day-both_on tenant entity day u q t e d c) (ground arith)
          (a day) in
      ground (arith, none_open)

  module _ (v : Environment Json) where
    shut-post_revenue :
        (k : PostRevenueInput) (id event_id : Text) (now : ℕ) (j : JournalEntry) (w w' : World Json)
        → may_post k.tenant_id k.legal_entity_id (take 10 (v.platform.iso_string now)) w ≡ false
        → lookup (colon k.tenant_id (revenue_reference k.legal_entity_id k.order_id)) w.journals
          ≡ none
        → post_revenue_for_order v k id event_id now w ≢ (ok j, w')
    unfolding post_revenue_for_order post_total
    shut-post_revenue k id event_id now j w w' shut fresh h = ground (arith, h, shut, fresh)

    shut-reverse_revenue :
        (k : ReverseRevenueInput) (id : Text) (now : ℕ) (j : JournalEntry) (w w' : World Json)
        → may_post k.tenant_id k.legal_entity_id (take 10 (v.platform.iso_string now)) w ≡ false
        → lookup (colon k.tenant_id (reversal_reference k.legal_entity_id k.order_id)) w.journals
          ≡ none
        → reverse_revenue_for_order v k id now w ≢ (ok j, w')
    unfolding reverse_revenue_for_order reverse_order
    shut-reverse_revenue k id now j w w' shut fresh h = ground (arith, h, shut, fresh)

    closed-may_post :
        (i : ClosePeriodInput) (p : Period) (day : Text) (w w' : World Json)
        → IsPeriods w
        → close_period i w ≡ (ok p, w')
        → (text_le p.starts_on day && text_le day p.ends_on) ≡ true
        → may_post p.tenant_id p.legal_entity_id day w' ≡ false
    closed-may_post i p day w w' periods h d =
        let (u, found, is, next) = closes i p w w' periods h in
        subst
          (λ q.
            (text_le q.starts_on day && text_le day q.ends_on) ≡ true
            → may_post q.tenant_id q.legal_entity_id day w' ≡ false)
          is
          (λ e.
            subst (λ s. may_post u.tenant_id u.legal_entity_id day s ≡ false) next
              (closed-not_may_post u.tenant_id u.legal_entity_id day u w found periods
                (text_eq_refl u.tenant_id) (text_eq_refl u.legal_entity_id) e))
          d

    -- Where every period stands under its identifier and no two periods of one legal entity have a
    -- day in common: once a period is closed, on a day that falls in it no revenue of its legal
    -- entity is posted for an order that has none and no reversal for an order that has none.
    pub closed-denies :
        (i : ClosePeriodInput) (p : Period) (now : ℕ) (w w' : World Json)
        → IsPeriods w
        → close_period i w ≡ (ok p, w')
        → (text_le p.starts_on (take 10 (v.platform.iso_string now))
            && text_le (take 10 (v.platform.iso_string now)) p.ends_on)
          ≡ true
        → ((k : PostRevenueInput) (id event_id : Text) (j : JournalEntry) (w'' : World Json)
            → k.tenant_id ≡ p.tenant_id
            → k.legal_entity_id ≡ p.legal_entity_id
            → lookup
                (colon k.tenant_id (revenue_reference k.legal_entity_id k.order_id))
                w'.journals
              ≡ none
            → post_revenue_for_order v k id event_id now w' ≢ (ok j, w''))
          × ((k : ReverseRevenueInput) (id : Text) (j : JournalEntry) (w'' : World Json)
              → k.tenant_id ≡ p.tenant_id
              → k.legal_entity_id ≡ p.legal_entity_id
              → lookup
                  (colon k.tenant_id (reversal_reference k.legal_entity_id k.order_id))
                  w'.journals
                ≡ none
              → reverse_revenue_for_order v k id now w' ≢ (ok j, w''))
    closed-denies i p now w w' periods h d =
        let today = take 10 (v.platform.iso_string now) in
        let shut = closed-may_post i p today w w' periods h d in
        (
          λ k id event_id j w'' t e fresh.
              shut-post_revenue k id event_id now j w' w'' (rw (t, e) shut) fresh,
          λ k id j w'' t e fresh. shut-reverse_revenue k id now j w' w'' (rw (t, e) shut) fresh,
        )
