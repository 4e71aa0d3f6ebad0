-- ===== src/Accounting/Revenue.antt =====
-- `makeAccountingTestLayer` of packages/accounting/src/service.ts: posting the revenue of an order and
-- reversing it.
pub mod Reversal
use eclipse_erp.Base.{
  ℕ, ◌+◌, Bool, true, false, not, ◌&&◌, ◌||◌, Option, none, some, List, [], ◌∷◌, ◌++◌, map, any,
  length, ltb, ◌==◌, if◌then◌else◌, take, bool_eq, find,
}
use eclipse_erp.Base.Effect.{Result, ok, err}
use eclipse_erp.Text.{Text, codes, text_eq, non_empty_string, trim}
use eclipse_erp.Text.Decimal.{print}
use eclipse_erp.Text.Order.{text_le, to_sorted}
use eclipse_erp.Dict.{Dict, lookup, insert, values, contains}
use eclipse_erp.Kernel.Amount.{is_major_amount}
use eclipse_erp.Messaging.Events.{Platform, AppendEventInput}
use eclipse_erp.Messaging.Service.{append}
use eclipse_erp.Sales.Service as Sales
use eclipse_erp.Accounting.Data.{
  Account, Configuration, JournalLine, JournalStatus, posted, reversed, JournalEntry, Period,
  PeriodStatus, is_open, Profile, PostJournalInput, PostRevenueInput, ReverseRevenueInput, World,
  Failure, schema_error, no_order_total, not_appended, account_not_found, profile_not_found,
  period_not_open, journal_conflict, revenue_not_found, invalid_line, unbalanced, to_minor,
  valid_post_journal, optional,
}
use eclipse_erp.Accounting.Setup.{colon, permit, own_account}
use eclipse_erp.Accounting.Journals.{Environment}

unfoldable pub revenue_reference : (legal_entity_id order_id : Text) → Text
revenue_reference entity order = colon (codes "revenue") (colon entity order)

unfoldable pub reversal_reference : (legal_entity_id order_id : Text) → Text
reversal_reference entity order = colon (codes "revenue-reversal") (colon entity order)

-- `existing.lines[0]?.debit !== amount` fails.
unfoldable pub first_debit_is : Text → List JournalLine → Bool
first_debit_is amount [] = false
first_debit_is amount (l ∷ ls) = text_eq l.debit amount

abbrev pub posts : Option Configuration → Bool
posts none = false
posts (some c) = c.posting_enabled

abbrev pub status_is_open : PeriodStatus → Bool
status_is_open is_open = true
status_is_open _ = false

-- An open period of the legal entity that the day falls in.
unfoldable pub covers_day : (tenant entity today : Text) → Period → Bool
covers_day tenant entity today p =
    text_eq p.tenant_id tenant
    && (text_eq p.legal_entity_id entity
        && (status_is_open p.status && (text_le p.starts_on today && text_le today p.ends_on)))

-- `causationId?.trim() ?? null`
abbrev pub trimmed : Option Text → Option Text
trimmed none = none
trimmed (some s) = some (trim s)

abbrev pub swapped : JournalLine → JournalLine
swapped l = record { account_id = l.account_id; debit = l.credit; credit = l.debit }

module _ {Json : Type 0} where
  -- Posting is enabled, and a period is open today.
  unfoldable pub may_post : (tenant entity today : Text) → World Json → Bool
  may_post tenant entity today w =
      posts (lookup (colon tenant entity) w.configurations)
      && any (covers_day tenant entity today) (values w.periods)

  unfoldable pub valid_post_revenue : Environment Json → PostRevenueInput → Bool
  valid_post_revenue v i =
      v.platform.is_uuid i.order_id
      && (optional is_major_amount i.amount
          && (non_empty_string i.command_id
              && (non_empty_string i.correlation_id && optional non_empty_string i.causation_id)))

  abbrev pub revenue_journal :
      Environment Json → PostRevenueInput → Profile → (amount id : Text) → (now : ℕ) → JournalEntry
  revenue_journal v i profile amount id now = record {
    id = id;
    tenant_id = i.tenant_id;
    reference = revenue_reference i.legal_entity_id i.order_id;
    status = posted;
    posted_at = v.platform.iso_string now;
    reverses_entry_id = none;
    lines =
        (record { account_id = profile.receivable_account_id; debit = amount; credit = codes "0" })
        ∷ ((record { account_id = profile.revenue_account_id; debit = codes "0"; credit = amount })
            ∷ []);
  }

  unfoldable pub revenue_event :
      Environment Json → PostRevenueInput → JournalEntry → (event_id : Text) → AppendEventInput Json
  revenue_event v i journal event_id = record {
    event_id = event_id;
    event_type = codes "accounting.revenue.posted";
    event_version = 1;
    tenant_id = i.tenant_id;
    aggregate_type = codes "journal_entry";
    aggregate_id = journal.id;
    command_id = trim i.command_id;
    correlation_id = trim i.correlation_id;
    causation_id = trimmed i.causation_id;
    idempotency_key = i.order_id;
    actor_principal_id = i.principal.user_account_id;
    occurred_at = journal.posted_at;
    payload = v.payload journal.id i.legal_entity_id i.order_id;
  }

  -- The event is appended, then the journal is stored.
  unfoldable pub store_revenue :
      Environment Json
      → PostRevenueInput
      → JournalEntry
      → (event_id : Text) → World Json
      → Result Failure JournalEntry × World Json
  store_revenue v i journal event_id w =
      let (answer, messaging) =
        append v.platform (revenue_event v i journal event_id) w.sales.messaging in
      let sent = record w.sales { messaging = messaging } in
      elim answer [
        | err e ↦ (err (not_appended e), record w { sales = sent })
        | ok event ↦ (
          ok journal,
          record w {
            sales = sent;
            journals = insert (colon i.tenant_id journal.reference) journal w.journals;
          },
        )
      ]

  -- From the total of the order on.
  unfoldable pub post_total :
      Environment Json
      → PostRevenueInput
      → (amount id event_id : Text) → (now : ℕ) → World Json
      → Result Failure JournalEntry × World Json
  post_total v i amount id event_id now w =
      let reference = revenue_reference i.legal_entity_id i.order_id in
      let today = take 10 (v.platform.iso_string now) in
      elim (lookup (colon i.tenant_id reference) w.journals) [
        | some existing ↦
            if first_debit_is amount existing.lines
            then (ok existing, w)
            else (err (journal_conflict i.tenant_id reference), w)
        | none ↦ elim (lookup (colon i.tenant_id i.legal_entity_id) w.profiles) [
          | none ↦ (err (profile_not_found i.tenant_id i.legal_entity_id), w)
          | some profile ↦
              if not (may_post i.tenant_id i.legal_entity_id today w)
              then (err (period_not_open i.tenant_id i.legal_entity_id), w)
              else store_revenue v i (revenue_journal v i profile amount id now) event_id w
        ]
      ]

  unfoldable pub post_revenue_for_order :
      Environment Json
      → PostRevenueInput
      → (id event_id : Text) → (now : ℕ) → World Json
      → Result Failure JournalEntry × World Json
  post_revenue_for_order v i id event_id now w =
      if not (valid_post_revenue v i)
      then (err schema_error, w)
      else elim (permit i.principal i.tenant_id (codes "accounting.revenue.post") w) [
        | err e ↦ (err e, w)
        | ok d ↦
            elim (Sales.get_confirmed_order_total
              (record { principal = i.principal; tenant_id = i.tenant_id; order_id = i.order_id })
              w.sales) [
                | err e ↦ (err (no_order_total e), w)
                | ok amount ↦ post_total v i amount id event_id now w
              ]
      ]

  abbrev pub reversal_journal :
      Environment Json → ReverseRevenueInput → JournalEntry → (id : Text) → (now : ℕ) → JournalEntry
  reversal_journal v i source id now = record {
    id = id;
    tenant_id = i.tenant_id;
    reference = reversal_reference i.legal_entity_id i.order_id;
    status = reversed;
    posted_at = v.platform.iso_string now;
    reverses_entry_id = some source.id;
    lines = map swapped source.lines;
  }

  -- From the authorization on.
  unfoldable pub reverse_order :
      Environment Json
      → ReverseRevenueInput
      → (id : Text) → (now : ℕ) → World Json
      → Result Failure JournalEntry × World Json
  reverse_order v i id now w =
      let key = colon i.tenant_id (reversal_reference i.legal_entity_id i.order_id) in
      let today = take 10 (v.platform.iso_string now) in
      elim (lookup key w.journals) [
        | some existing ↦ (ok existing, w)
        | none ↦
            if not (contains (colon i.tenant_id i.legal_entity_id) w.profiles)
            then (err (profile_not_found i.tenant_id i.legal_entity_id), w)
            else if not (may_post i.tenant_id i.legal_entity_id today w)
            then (err (period_not_open i.tenant_id i.legal_entity_id), w)
            else elim (lookup (colon i.tenant_id (revenue_reference i.legal_entity_id i.order_id))
                w.journals) [
                  | none ↦ (err (revenue_not_found i.tenant_id i.legal_entity_id i.order_id), w)
                  | some source ↦
                      let journal = reversal_journal v i source id now in
                      (ok journal, record w { journals = insert key journal w.journals })
                ]
      ]

  unfoldable pub reverse_revenue_for_order :
      Environment Json
      → ReverseRevenueInput
      → (id : Text) → (now : ℕ) → World Json
      → Result Failure JournalEntry × World Json
  reverse_revenue_for_order v i id now w =
      if not (v.platform.is_uuid i.order_id)
      then (err schema_error, w)
      else elim (permit i.principal i.tenant_id (codes "accounting.revenue.reverse") w) [
        | err e ↦ (err e, w)
        | ok d ↦ reverse_order v i id now w
      ]
