-- ===== src/Accounting/Periods.antt =====
-- Periods that have no day in common: packages/accounting/src/service.ts.
pub mod Closed
use eclipse_erp.Base.{
  ℕ, ◌≡◌, ◌≢◌, refl, sym, ap, ◌∙◌, subst, inl, inr, Bool, true, false, not, ◌&&◌, Option, none,
  some, List, arith, any, all, if◌then◌else◌, Bool-cases, Option-cases, take, bool_eq,
}
use eclipse_erp.Base.Effect.{Result, ok, err, Result-cases}
use eclipse_erp.Text.{Text, codes, text_eq, text_eq_iff, text_eq_refl, text_eq→eq}
use eclipse_erp.Text.Order.{text_le, text_lt, text_lt_not}
use eclipse_erp.Dict.{Dict, lookup, insert, values, all-insert, lookup-all}
use eclipse_erp.Dict.Apart.{apart, any-false, insert-apart, replace-apart, replaced-none}
use eclipse_erp.Sales.Service as Sales
use eclipse_erp.Accounting.Data.{
  Period, PeriodStatus, is_open, is_closed, OpenPeriodInput, ClosePeriodInput, PostRevenueInput,
  ReverseRevenueInput, JournalEntry, World,
}
use eclipse_erp.Accounting.Setup.{
  colon, permit, overlaps_days, own_period, open_period, close_period,
}
use eclipse_erp.Accounting.Journals.{Environment}
use eclipse_erp.Accounting.Revenue.{
  covers_day, may_post, post_total, post_revenue_for_order, reverse_order,
  reverse_revenue_for_order, revenue_reference, reversal_reference,
}

-- The day is between the first and the last day of the period, both included.
abbrev pub falls_in : Text → Period → Bool
falls_in day p = text_le p.starts_on day && text_le day p.ends_on

-- Both periods are of one legal entity, and the day falls in both.
abbrev pub both_on : Text → Period → Period → Bool
both_on day p q =
    text_eq p.tenant_id q.tenant_id
    && (text_eq p.legal_entity_id q.legal_entity_id && (falls_in day p && falls_in day q))

abbrev pub is_keyed : Text × Period → Bool
is_keyed (k, p) = text_eq k p.id

text_eq_sym : (s t : Text) → text_eq s t ≡ text_eq t s
text_eq_sym s t = ground (arith, text_eq_iff s t, text_eq_iff t s)

pub both_on_sym : (day : Text) (p q : Period) → both_on day p q ≡ both_on day q p
both_on_sym day p q =
    ground
      (arith, text_eq_sym p.tenant_id q.tenant_id, text_eq_sym p.legal_entity_id q.legal_entity_id)

-- A day that falls in both periods makes them overlap.
both_on-overlaps :
    (day : Text) (p q : Period)
    → both_on day p q ≡ true
    → overlaps_days q.tenant_id q.legal_entity_id q.starts_on q.ends_on p ≡ true
unfolding overlaps_days
both_on-overlaps day p q h =
    ground (arith, h, text_lt_not q.ends_on day p.starts_on, text_lt_not p.ends_on day q.starts_on)

-- A day that a period has and another covers falls in both.
pub covers_day-both_on :
    (tenant entity day : Text) (p q : Period)
    → text_eq p.tenant_id tenant ≡ true
    → text_eq p.legal_entity_id entity ≡ true
    → falls_in day p ≡ true
    → covers_day tenant entity day q ≡ true
    → both_on day p q ≡ true
unfolding covers_day
covers_day-both_on tenant entity day p q t e d c =
    let q_tenant : text_eq q.tenant_id tenant ≡ true = ground (arith, c) in
    let q_entity : text_eq q.legal_entity_id entity ≡ true = ground (arith, c) in
    ground (
      arith,
      c,
      d,
      text_eq_iff p.tenant_id q.tenant_id,
      text_eq_iff p.legal_entity_id q.legal_entity_id,
      text_eq→eq p.tenant_id tenant t ∙ sym (text_eq→eq q.tenant_id tenant q_tenant),
      text_eq→eq p.legal_entity_id entity e ∙ sym (text_eq→eq q.legal_entity_id entity q_entity),
    )

module _ {Json : Type 0} where
  -- Every period stands under its identifier, and no day falls in two of one legal entity.
  abbrev pub IsPeriods : World Json → Type 0
  IsPeriods w =
      (all is_keyed w.periods ≡ true)
      × ((day : Text) → apart (both_on day) (values w.periods) ≡ true)

  open_period-IsPeriods :
      (i : OpenPeriodInput) (id : Text) (w : World Json)
      → IsPeriods w
      → IsPeriods (open_period i id w).1
  unfolding open_period
  open_period-IsPeriods i id w (k, a) =
      let taken = overlaps_days i.tenant_id i.legal_entity_id i.starts_on i.ends_on in
      let made : Period = record {
        id = id;
        tenant_id = i.tenant_id;
        legal_entity_id = i.legal_entity_id;
        starts_on = i.starts_on;
        ends_on = i.ends_on;
        status = is_open;
      } in
      elim (Bool-cases (any taken (values w.periods))) [
        | inl bad ↦ ground (arith, k, a, bad)
        | inr free ↦
            let keyed = all-insert is_keyed id made w.periods (text_eq_refl id) k in
            let disjoint : (day : Text)
                → apart (both_on day) (values (insert id made w.periods)) ≡ true =
              λ day. insert-apart (both_on day) (both_on_sym day) id made w.periods (a day) (
                any-false taken (λ x. both_on day x made) (values w.periods)
                  (λ x. both_on-overlaps day x made) free) in
            ground (arith, k, a, free, keyed, disjoint)
      ]

  -- The period that closing finds: it stands under its own identifier.
  pub closes :
      (i : ClosePeriodInput) (p : Period) (w w' : World Json)
      → IsPeriods w
      → close_period i w ≡ (ok p, w')
      → (u : Period) × (lookup u.id w.periods ≡ some u)
        × (record u { status = is_closed } ≡ p)
        × (record w { periods = insert u.id (record u { status = is_closed }) w.periods } ≡ w')
  unfolding close_period own_period
  closes i p w w' (k, a) h = elim (Option-cases (lookup i.period_id w.periods)) [
    | inl missing ↦ absurd (ground (arith, h, missing))
    | inr (u, found) ↦
        let key =
          text_eq→eq i.period_id u.id (lookup-all is_keyed i.period_id u w.periods k found) in
        (
          u,
          subst (λ x. lookup x w.periods ≡ some u) key found,
          ground (arith, h, found),
          ground (arith, h, found),
        )
  ]

  closed-IsPeriods :
      (u : Period) (w : World Json)
      → lookup u.id w.periods ≡ some u
      → IsPeriods w
      → IsPeriods (record w { periods = insert u.id (record u { status = is_closed }) w.periods })
  closed-IsPeriods u w found (k, a) =
      let closed : Period = record u { status = is_closed } in
      (
        all-insert is_keyed u.id closed w.periods (text_eq_refl u.id) k,
        λ day.
            replace-apart (both_on day) (both_on_sym day) u.id u closed w.periods found (λ x. refl)
              (a day),
      )

  close_period-IsPeriods :
      (i : ClosePeriodInput) (w : World Json) → IsPeriods w → IsPeriods (close_period i w).1
  unfolding close_period own_period
  close_period-IsPeriods i w (k, a) = elim (Option-cases (lookup i.period_id w.periods)) [
    | inl missing ↦ ground (arith, k, a, missing)
    | inr (u, found) ↦
        let key =
          text_eq→eq i.period_id u.id (lookup-all is_keyed i.period_id u w.periods k found) in
        let kept =
          closed-IsPeriods u w (subst (λ x. lookup x w.periods ≡ some u) key found) (k, a) in
        ground (arith, k, a, found, kept)
  ]

  -- Where every period stands under its identifier and no two periods of one legal entity have a
  -- day in common (one from the first to the last day of both, these included), this is so after opening a period and after closing one, whether they succeed or
  -- fail.
  pub operations-IsPeriods :
      (w : World Json)
      → IsPeriods w
      → ((i : OpenPeriodInput) (id : Text) → IsPeriods (open_period i id w).1)
        × ((i : ClosePeriodInput) → IsPeriods (close_period i w).1)
  operations-IsPeriods w h =
      (λ i id. open_period-IsPeriods i id w h, λ i. close_period-IsPeriods i w h)
