-- ===== src/Accounting/Books.antt =====
-- The books that posting keeps: packages/accounting/src/service.ts.
use eclipse_erp.Base.{
  ℕ, ◌+◌, ◌≡◌, refl, inl, inr, Bool, true, ◌&&◌, none, List, [], ◌∷◌, map, arith, ◌==◌,
  if◌then◌else◌, Option-cases, all,
}
use eclipse_erp.Base.Effect.{Result-cases}
use eclipse_erp.Text.{Text, text_eq, text_eq_refl, trim}
use eclipse_erp.Dict.{lookup, all-insert, lookup-all}
use eclipse_erp.Sales.Service as Sales
use eclipse_erp.Accounting.Data.{
  JournalLine, JournalEntry, Profile, PostJournalInput, PostRevenueInput, ReverseRevenueInput,
  World, to_minor,
}
use eclipse_erp.Accounting.Setup.{colon}
use eclipse_erp.Accounting.Journals.{
  Environment, check_lines, validate_lines, store_journal, post_journal, posted_journal,
}
use eclipse_erp.Accounting.Revenue.{
  revenue_journal, store_revenue, post_total, post_revenue_for_order, reversal_journal,
  reverse_order, reverse_revenue_for_order, revenue_reference, swapped,
}

unfoldable pub debits : (JournalLine → Bool) → List JournalLine → ℕ
debits f [] = 0
debits f (l ∷ ls) = (if f l then to_minor l.debit else 0) + debits f ls

unfoldable pub credits : (JournalLine → Bool) → List JournalLine → ℕ
credits f [] = 0
credits f (l ∷ ls) = (if f l then to_minor l.credit else 0) + credits f ls

abbrev pub every : JournalLine → Bool
every l = true

unfoldable pub is_balanced : List JournalLine → Bool
is_balanced lines = debits every lines == credits every lines

abbrev pub is_kept : Text × JournalEntry → Bool
is_kept (k, j) = is_balanced j.lines && text_eq k (colon j.tenant_id j.reference)

-- What `validateLines` lets pass, from the sums so far.
check_lines-balanced :
    (n d c : ℕ) (ls : List JournalLine)
    → check_lines n d c ls ≡ none
    → d + debits every ls ≡ c + credits every ls
unfolding check_lines debits credits
check_lines-balanced n d c [] h = ground arith
check_lines-balanced n d c (l ∷ ls) h =
    ground
      (arith, h, check_lines-balanced (n + 1) (d + to_minor l.debit) (c + to_minor l.credit) ls)

pub validate_lines-balanced :
    (ls : List JournalLine) → validate_lines ls ≡ none → is_balanced ls ≡ true
unfolding validate_lines is_balanced
validate_lines-balanced ls h = ground (arith, h, check_lines-balanced 0 0 0 ls)

pub debits-swapped :
    (f : JournalLine → Bool) (ls : List JournalLine)
    → ((l : JournalLine) → f (swapped l) ≡ f l)
    → debits f (map swapped ls) ≡ credits f ls
unfolding debits credits
debits-swapped f [] h = refl
debits-swapped f (l ∷ ls) h = ground (arith, h l, debits-swapped f ls h)

pub credits-swapped :
    (f : JournalLine → Bool) (ls : List JournalLine)
    → ((l : JournalLine) → f (swapped l) ≡ f l)
    → credits f (map swapped ls) ≡ debits f ls
unfolding debits credits
credits-swapped f [] h = refl
credits-swapped f (l ∷ ls) h = ground (arith, h l, credits-swapped f ls h)

swapped-balanced :
    (ls : List JournalLine) → is_balanced ls ≡ true → is_balanced (map swapped ls) ≡ true
unfolding is_balanced
swapped-balanced ls h =
    ground (arith, h, debits-swapped every ls (λ l. refl), credits-swapped every ls (λ l. refl))

module _ {Json : Type 0} where
  -- Every journal balances and stands under its tenant and reference.
  abbrev pub IsBooks : World Json → Type 0
  IsBooks w = all is_kept w.journals ≡ true

  post_journal-IsBooks :
      (v : Environment Json) (i : PostJournalInput) (id : Text) (now : ℕ) (w : World Json)
      → IsBooks w
      → IsBooks (post_journal v i id now w).1
  unfolding post_journal store_journal
  post_journal-IsBooks v i id now w h = elim (Option-cases (validate_lines i.lines)) [
    | inr (e, bad) ↦ ground (arith, h, bad)
    | inl good ↦
        let key = colon i.tenant_id (trim i.reference) in
        let journal = posted_journal v i id now in
        let kept =
          all-insert is_kept key journal w.journals
            (ground (arith, validate_lines-balanced i.lines good, text_eq_refl key)) h in
        ground (arith, h, good, kept)
  ]

  revenue-balanced :
      (v : Environment Json) (i : PostRevenueInput) (p : Profile) (amount id : Text) (now : ℕ)
      → is_balanced (revenue_journal v i p amount id now).lines ≡ true
  unfolding is_balanced debits credits
  revenue-balanced v i p amount id now = ground arith

  post_revenue-IsBooks :
      (v : Environment Json) (i : PostRevenueInput) (id event_id : Text) (now : ℕ) (w : World Json)
      → IsBooks w
      → IsBooks (post_revenue_for_order v i id event_id now w).1
  unfolding post_revenue_for_order post_total store_revenue
  post_revenue-IsBooks v i id event_id now w h =
      elim (Result-cases (
        Sales.get_confirmed_order_total
          (record { principal = i.principal; tenant_id = i.tenant_id; order_id = i.order_id })
          w.sales)) [
            | inr (e, bad) ↦ ground (arith, h, bad)
            | inl (amount, total) ↦
                elim (Option-cases (lookup (colon i.tenant_id i.legal_entity_id) w.profiles)) [
                  | inl no_profile ↦ ground (arith, h, total, no_profile)
                  | inr (p, found) ↦
                      let journal = revenue_journal v i p amount id now in
                      let key = colon i.tenant_id journal.reference in
                      let kept =
                        all-insert is_kept key journal w.journals
                          (ground (arith, revenue-balanced v i p amount id now, text_eq_refl key))
                          h in
                      ground (arith, h, total, found, kept)
                ]
          ]

  reverse-IsBooks :
      (v : Environment Json) (i : ReverseRevenueInput) (id : Text) (now : ℕ) (w : World Json)
      → IsBooks w
      → IsBooks (reverse_revenue_for_order v i id now w).1
  unfolding reverse_revenue_for_order reverse_order
  reverse-IsBooks v i id now w h =
      let source_key = colon i.tenant_id (revenue_reference i.legal_entity_id i.order_id) in
      elim (Option-cases (lookup source_key w.journals)) [
        | inl missing ↦ ground (arith, h, missing)
        | inr (source, found) ↦
            let journal = reversal_journal v i source id now in
            let key = colon i.tenant_id journal.reference in
            let old = lookup-all is_kept source_key source w.journals h found in
            let kept =
              all-insert is_kept key journal w.journals
                (ground (arith, swapped-balanced source.lines, old, text_eq_refl key)) h in
            ground (arith, h, found, kept)
      ]

  -- Where every stored journal balances - its debits and its credits have the same sum - and stands
  -- under its tenant and its reference, this is so after posting a journal, after posting the
  -- revenue of an order and after reversing it, whether they succeed or fail.
  pub operations-IsBooks :
      (v : Environment Json) (w : World Json)
      → IsBooks w
      → ((i : PostJournalInput) (id : Text) (now : ℕ) → IsBooks (post_journal v i id now w).1)
        × (((i : PostRevenueInput) (id event_id : Text) (now : ℕ)
              → IsBooks (post_revenue_for_order v i id event_id now w).1)
            × ((i : ReverseRevenueInput) (id : Text) (now : ℕ)
                → IsBooks (reverse_revenue_for_order v i id now w).1))
  operations-IsBooks v w h = (
    λ i id now. post_journal-IsBooks v i id now w h,
    (
      λ i id event_id now. post_revenue-IsBooks v i id event_id now w h,
      λ i id now. reverse-IsBooks v i id now w h,
    ),
  )
