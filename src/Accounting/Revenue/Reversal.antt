-- ===== src/Accounting/Revenue/Reversal.antt =====
-- Reversing a posted revenue: packages/accounting/src/service.ts.
use eclipse_erp.Base.{
  ℕ, ◌≡◌, refl, sym, ap, ◌∙◌, subst, inl, inr, Bool, true, none, some, arith, Option-cases,
}
use eclipse_erp.Base.Effect.{ok, Result-cases}
use eclipse_erp.Text.{Text, codes, text_eq}
use eclipse_erp.Dict.{lookup, insert, lookup-insert_self}
use eclipse_erp.Authorization.Service.{Decision}
use eclipse_erp.Accounting.Data.{JournalLine, JournalEntry, ReverseRevenueInput, World}
use eclipse_erp.Accounting.Setup.{colon, permit}
use eclipse_erp.Accounting.Journals.{Environment}
use eclipse_erp.Accounting.Revenue.{
  reversal_journal, reverse_order, reverse_revenue_for_order, revenue_reference, reversal_reference,
}
use eclipse_erp.Accounting.Books.{debits, credits, debits-swapped, credits-swapped}

abbrev pub is_on : Text → JournalLine → Bool
is_on account l = text_eq l.account_id account

module _ {Json : Type 0} (v : Environment Json) where
  -- What a fresh reversal that succeeds has found and done.
  abbrev IsReversed :
      ReverseRevenueInput → Text → ℕ → JournalEntry → World Json → World Json → Type 0
  IsReversed i id now j w w' =
      (source : JournalEntry) × (lookup
          (colon i.tenant_id (revenue_reference i.legal_entity_id i.order_id)) w.journals
        ≡ some source)
      × (reversal_journal v i source id now ≡ j)
      × (record w {
        journals =
            insert (colon i.tenant_id (reversal_reference i.legal_entity_id i.order_id))
              (reversal_journal v i source id now) w.journals;
      }
          ≡ w')

  -- The checks before the reversal.
  abbrev IsAsked : ReverseRevenueInput → World Json → Type 0
  IsAsked i w =
      (v.platform.is_uuid i.order_id ≡ true)
      × ((d : Decision) × (permit i.principal i.tenant_id (codes "accounting.revenue.reverse") w
            ≡ ok d))

  reverse_order-IsReversed :
      (i : ReverseRevenueInput) (id : Text) (now : ℕ) (j : JournalEntry) (w w' : World Json)
      → lookup (colon i.tenant_id (reversal_reference i.legal_entity_id i.order_id)) w.journals
        ≡ none
      → reverse_order v i id now w ≡ (ok j, w')
      → IsReversed i id now j w w'
  unfolding reverse_order
  reverse_order-IsReversed i id now j w w' fresh h =
      elim (Option-cases
        (lookup (colon i.tenant_id (revenue_reference i.legal_entity_id i.order_id)) w.journals)) [
          | inl missing ↦ absurd (ground (arith, h, fresh, missing))
          | inr (source, found) ↦
              (source, found, ground (arith, h, fresh, found), ground (arith, h, fresh, found))
        ]

  reverse_revenue-IsAsked :
      (i : ReverseRevenueInput) (id : Text) (now : ℕ) (j : JournalEntry) (w w' : World Json)
      → reverse_revenue_for_order v i id now w ≡ (ok j, w')
      → IsAsked i w × (reverse_order v i id now w ≡ (ok j, w'))
  unfolding reverse_revenue_for_order
  reverse_revenue-IsAsked i id now j w w' h =
      elim (Result-cases (permit i.principal i.tenant_id (codes "accounting.revenue.reverse") w)) [
        | inr (e, bad) ↦ absurd (ground (arith, h, bad))
        | inl (d, may) ↦ ((ground (arith, h, may), (d, may)), ground (arith, h, may))
      ]

  reverse_revenue-found :
      (i : ReverseRevenueInput) (id : Text) (now : ℕ) (j : JournalEntry) (w : World Json)
      → IsAsked i w
      → lookup (colon i.tenant_id (reversal_reference i.legal_entity_id i.order_id)) w.journals
        ≡ some j
      → reverse_revenue_for_order v i id now w ≡ (ok j, w)
  unfolding reverse_revenue_for_order reverse_order
  reverse_revenue-found i id now j w (uuid, (d, may)) found = ground (arith, uuid, may, found)

  -- A reversal of the revenue of an order that succeeds where none is stored returns a journal that
  -- names the journal of the revenue as the one it reverses and that credits every account as much
  -- as that one debits it and debits it as much as that one credits it. Reversing the order again,
  -- at any time, returns the same journal and changes nothing.
  pub reverse_revenue-cancels :
      (i : ReverseRevenueInput) (id : Text) (now : ℕ) (j : JournalEntry) (w w' : World Json)
      → lookup (colon i.tenant_id (reversal_reference i.legal_entity_id i.order_id)) w.journals
        ≡ none
      → reverse_revenue_for_order v i id now w ≡ (ok j, w')
      → ((source : JournalEntry) × (lookup
              (colon i.tenant_id (revenue_reference i.legal_entity_id i.order_id))
              w.journals
            ≡ some source)
          × (j.reverses_entry_id ≡ some source.id)
          × ((account : Text)
              → debits (is_on account) j.lines ≡ credits (is_on account) source.lines)
          × ((account : Text)
              → credits (is_on account) j.lines ≡ debits (is_on account) source.lines))
        × ((again : Text) (later : ℕ) → reverse_revenue_for_order v i again later w' ≡ (ok j, w'))
  unfolding permit
  reverse_revenue-cancels i id now j w w' fresh h =
      let key = colon i.tenant_id (reversal_reference i.legal_entity_id i.order_id) in
      let (asked, ran) = reverse_revenue-IsAsked i id now j w w' h in
      let (source, found, made, stored) = reverse_order-IsReversed i id now j w w' fresh ran in
      let journal = reversal_journal v i source id now in
      let kept : lookup key w'.journals ≡ some j =
        subst (λ s. lookup key s.journals ≡ some j) stored
          (lookup-insert_self key journal w.journals ∙ ap some made) in
      (
        (
          source,
          found,
          ap (λ k. k.reverses_entry_id) (sym made),
          λ account.
              ap (λ k. debits (is_on account) k.lines) (sym made)
              ∙ debits-swapped (is_on account) source.lines (λ l. refl),
          λ account.
              ap (λ k. credits (is_on account) k.lines) (sym made)
              ∙ credits-swapped (is_on account) source.lines (λ l. refl),
        ),
        λ again later.
            reverse_revenue-found i again later j w' (subst (IsAsked i) stored asked) kept,
      )
