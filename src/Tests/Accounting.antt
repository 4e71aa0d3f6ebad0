-- ===== src/Tests/Accounting.antt =====
-- A confirmed order whose revenue is posted and reversed, a journal of two lines, and a period that
-- is closed.
use eclipse_erp.Base.{ℕ, ◌≡◌, ◌≢◌, refl, true, ◌&&◌, none, some, [], ◌∷◌, length, take}
use eclipse_erp.Base.Effect.{ok}
use eclipse_erp.Base.Reordered.{swap}
use eclipse_erp.Text.{Text, codes, text_eq, non_empty_string, trim}
use eclipse_erp.Text.Decimal.{value, print, pad_start, strip_zeros, pad_end}
use eclipse_erp.Text.Order.{text_lt, text_le, put, to_sorted}
use eclipse_erp.Dict.{lookup, insert, values}
use eclipse_erp.Dict.Apart.{apart}
use eclipse_erp.Kernel.Amount.{
  span_digits, decimal_match, is_major_amount, scale_match, major_to_minor,
  require_exact_major_to_minor,
}
use eclipse_erp.Ledger.Port.{positive_integer}
use eclipse_erp.Authorization.Capabilities.{is_capability, capability_ids}
use eclipse_erp.Authorization.Service.{
  Principal, membership_key, has_grant, add_grant, authorize, with_initial_grants, GrantInput,
}
use eclipse_erp.Messaging.Events.{
  after_template, is_zone, is_fraction_zone, iso_timestamp, instant_string, valid_append,
  envelope_matches,
}
use eclipse_erp.Messaging.Service.{event_key, dedupe_key, event_by_dedupe, same_object, append}
use eclipse_erp.Sales.Orders.{OrderStatus, SalesOrder}
use eclipse_erp.Sales.Service as Sales
use eclipse_erp.Accounting.Data.{
  AccountType, asset, revenue, Account, postgresql, JournalLine, JournalEntry, Period, is_open,
  is_closed, Profile, ClosePeriodInput, OpenPeriodInput, PostJournalInput, PostRevenueInput,
  ReverseRevenueInput, World, to_minor, valid_line, valid_post_journal,
}
use eclipse_erp.Accounting.Setup.{
  colon, permit, own_account, overlaps_days, own_period, open_period, close_period,
}
use eclipse_erp.Accounting.Journals.{
  Environment, normalize_lines, texts_eq, check_lines, validate_lines, store_journal, post_journal,
  posted_journal,
}
use eclipse_erp.Accounting.Revenue.{
  revenue_reference, reversal_reference, first_debit_is, covers_day, may_post, valid_post_revenue,
  revenue_journal, revenue_event, store_revenue, post_total, post_revenue_for_order,
  reversal_journal, reverse_order, reverse_revenue_for_order,
}
use eclipse_erp.Accounting.Books.{debits, credits, is_balanced, IsBooks, operations-IsBooks}
use eclipse_erp.Accounting.Journals.Repeat.{post_journal-Reordered}
use eclipse_erp.Accounting.Revenue.Reversal.{is_on, reverse_revenue-cancels}
use eclipse_erp.Accounting.Periods.{IsPeriods, operations-IsPeriods}
use eclipse_erp.Accounting.Periods.Closed.{closed-denies}
use eclipse_erp.Tests.Messaging.{platform}

abbrev environment : Environment ℕ
environment = record {
  platform = record platform { iso_string = λ n. codes "2026-01-02T03:04:05.678Z" };
  payload = λ journal entity order. length journal;
}

abbrev ann : Principal
ann = record { user_account_id = codes "ann"; session_id = codes "s" }

abbrev may : Text → GrantInput
may capability = record {
  user_account_id = codes "ann";
  tenant_id = codes "t";
  capability = capability;
}

abbrev order : SalesOrder
order = record {
  id = codes "o1";
  tenant_id = codes "t";
  customer_id = codes "c1";
  quotation_id = none;
  status = OrderStatus.confirmed;
  confirmed_at = some (codes "2026-01-01T00:00:00.000Z");
  total = codes "37.50";
  lines = [];
}

abbrev sold : Sales.World ℕ
sold = record {
  authorization =
      with_initial_grants
        (may (codes "accounting.journal.post")
          ∷ (may (codes "accounting.revenue.post")
              ∷ (may (codes "accounting.revenue.reverse")
                  ∷ (may (codes "accounting.period.open")
                      ∷ (may (codes "accounting.period.close")
                          ∷ (may (codes "sales.order.read") ∷ []))))))
        (record { memberships = []; grants = [] });
  messaging = record { events = []; event_ids = []; receipts = []; clock = 0 };
  customers = [];
  quotations = [];
  orders = (codes "o1", order) ∷ [];
  confirmation_keys = [];
}

abbrev account : Text → AccountType → Account
account id type = record { id = id; tenant_id = codes "t"; code = id; name = id; type = type }

abbrev january : Period
january = record {
  id = codes "p1";
  tenant_id = codes "t";
  legal_entity_id = codes "le";
  starts_on = codes "2026-01-01";
  ends_on = codes "2026-01-31";
  status = is_open;
}

abbrev firm : World ℕ
firm = record {
  sales = sold;
  configurations =
      (
        codes "t:le",
        record {
          tenant_id = codes "t";
          legal_entity_id = codes "le";
          base_currency = codes "EUR";
          fiscal_year_start_month = 1;
          posting_enabled = true;
          financial_engine = postgresql;
        },
      )
      ∷ [];
  profiles =
      (
        codes "t:le",
        record {
          tenant_id = codes "t";
          legal_entity_id = codes "le";
          receivable_account_id = codes "a1";
          revenue_account_id = codes "a2";
        },
      )
      ∷ [];
  periods = (codes "p1", january) ∷ [];
  accounts =
      (codes "a1", account (codes "a1") asset) ∷ ((codes "a2", account (codes "a2") revenue) ∷ []);
  journals = [];
  controls = [];
  artifacts = [];
}

abbrev debit : Text → JournalLine
debit id = record { account_id = id; debit = codes "5.00"; credit = codes "0" }

abbrev credit : Text → JournalLine
credit id = record { account_id = id; debit = codes "0"; credit = codes "5" }

abbrev journal : PostJournalInput
journal = record {
  principal = ann;
  tenant_id = codes "t";
  reference = codes " r ";
  lines = debit (codes "a1") ∷ (credit (codes "a2") ∷ []);
}

abbrev sale : PostRevenueInput
sale = record {
  principal = ann;
  tenant_id = codes "t";
  legal_entity_id = codes "le";
  order_id = codes "o1";
  amount = none;
  command_id = codes "cmd";
  correlation_id = codes "x";
  causation_id = none;
}

abbrev refund : ReverseRevenueInput
refund = record {
  principal = ann;
  tenant_id = codes "t";
  legal_entity_id = codes "le";
  order_id = codes "o1";
}

abbrev closing : ClosePeriodInput
closing = record {
  principal = ann;
  tenant_id = codes "t";
  legal_entity_id = codes "le";
  period_id = codes "p1";
}

abbrev profile : Profile
profile = record {
  tenant_id = codes "t";
  legal_entity_id = codes "le";
  receivable_account_id = codes "a1";
  revenue_account_id = codes "a2";
}

abbrev kept : World ℕ
kept = (post_journal environment journal (codes "j1") 5 firm).1

abbrev earned : World ℕ
earned = (post_revenue_for_order environment sale (codes "j1") (codes "e1") 5 firm).1

abbrev refunded : World ℕ
refunded = (reverse_revenue_for_order environment refund (codes "j2") 6 earned).1

abbrev income : JournalEntry
income = revenue_journal environment sale profile (codes "37.50") (codes "j1") 5

abbrev shut : World ℕ
shut = (close_period closing firm).1

running : ℕ
unfolding with_initial_grants Sales.get_confirmed_order_total Sales.permit
    require_exact_major_to_minor major_to_minor scale_match decimal_match span_digits
    is_major_amount strip_zeros pad_end pad_start value print authorize is_capability capability_ids
    membership_key has_grant add_grant append valid_append instant_string iso_timestamp
    is_fraction_zone is_zone after_template non_empty_string positive_integer event_key dedupe_key
    event_by_dedupe same_object envelope_matches lookup insert values text_eq trim text_lt put
    to_sorted apart to_minor valid_line valid_post_journal permit own_account overlaps_days
    own_period open_period close_period normalize_lines texts_eq check_lines validate_lines
    revenue_reference reversal_reference first_debit_is covers_day may_post store_journal
    post_journal valid_post_revenue revenue_event store_revenue post_total post_revenue_for_order
    reverse_order reverse_revenue_for_order debits credits is_balanced
running = 0

income_test :
    post_revenue_for_order environment sale (codes "j1") (codes "e1") 5 firm ≡ (ok income, earned)
unfolding running
income_test = refl

firm-IsBooks : IsBooks kept
unfolding running
firm-IsBooks = refl

operations-IsBooks_example :
    ((i : PostJournalInput) (id : Text) (now : ℕ)
      → IsBooks (post_journal environment i id now kept).1)
    × (((i : PostRevenueInput) (id event_id : Text) (now : ℕ)
          → IsBooks (post_revenue_for_order environment i id event_id now kept).1)
        × ((i : ReverseRevenueInput) (id : Text) (now : ℕ)
            → IsBooks (reverse_revenue_for_order environment i id now kept).1))
operations-IsBooks_example = operations-IsBooks environment kept firm-IsBooks

journal_test :
    post_journal environment journal (codes "j1") 5 firm
    ≡ (ok (posted_journal environment journal (codes "j1") 5), kept)
unfolding running
journal_test = refl

post_journal-Reordered_example :
    post_journal environment
      (record journal { lines = credit (codes "a2") ∷ (debit (codes "a1") ∷ []) })
      (codes "j9")
      9
      kept
    ≡ (ok (posted_journal environment journal (codes "j1") 5), kept)
post_journal-Reordered_example =
    post_journal-Reordered environment journal (codes "j1") 5
      (posted_journal environment journal (codes "j1") 5) firm kept journal_test
      (credit (codes "a2") ∷ (debit (codes "a1") ∷ [])) (codes "j9") 9
      (swap (debit (codes "a1")) (credit (codes "a2")) [])

abbrev reversal : JournalEntry
reversal = reversal_journal environment refund income (codes "j2") 6

fresh :
    lookup (colon (codes "t") (reversal_reference (codes "le") (codes "o1"))) earned.journals ≡ none
unfolding running
fresh = refl

refund_test :
    reverse_revenue_for_order environment refund (codes "j2") 6 earned ≡ (ok reversal, refunded)
unfolding running
refund_test = refl

reverse_revenue-cancels_example :
    ((source : JournalEntry) × (lookup
          (colon (codes "t") (revenue_reference (codes "le") (codes "o1")))
          earned.journals
        ≡ some source)
      × (reversal.reverses_entry_id ≡ some source.id)
      × ((a : Text) → debits (is_on a) reversal.lines ≡ credits (is_on a) source.lines)
      × ((a : Text) → credits (is_on a) reversal.lines ≡ debits (is_on a) source.lines))
    × ((again : Text) (later : ℕ)
        → reverse_revenue_for_order environment refund again later refunded
          ≡ (ok reversal, refunded))
reverse_revenue-cancels_example =
    reverse_revenue-cancels environment refund (codes "j2") 6 reversal earned refunded fresh
      refund_test

firm-IsPeriods : IsPeriods firm
unfolding running
firm-IsPeriods = (refl, λ day. refl)

operations-IsPeriods_example :
    ((i : OpenPeriodInput) (id : Text) → IsPeriods (open_period i id firm).1)
    × ((i : ClosePeriodInput) → IsPeriods (close_period i firm).1)
operations-IsPeriods_example = operations-IsPeriods firm firm-IsPeriods

abbrev closed : Period
closed = record january { status = is_closed }

closing_test : close_period closing firm ≡ (ok closed, shut)
unfolding running
closing_test = refl

day_in :
    (text_le closed.starts_on (take 10 (codes "2026-01-02T03:04:05.678Z"))
      && text_le (take 10 (codes "2026-01-02T03:04:05.678Z")) closed.ends_on)
    ≡ true
unfolding running
day_in = refl

closed-denies_example :
    ((k : PostRevenueInput) (id event_id : Text) (j : JournalEntry) (w : World ℕ)
      → k.tenant_id ≡ codes "t"
      → k.legal_entity_id ≡ codes "le"
      → lookup (colon k.tenant_id (revenue_reference k.legal_entity_id k.order_id)) shut.journals
        ≡ none
      → post_revenue_for_order environment k id event_id 5 shut ≢ (ok j, w))
    × ((k : ReverseRevenueInput) (id : Text) (j : JournalEntry) (w : World ℕ)
        → k.tenant_id ≡ codes "t"
        → k.legal_entity_id ≡ codes "le"
        → lookup (colon k.tenant_id (reversal_reference k.legal_entity_id k.order_id)) shut.journals
          ≡ none
        → reverse_revenue_for_order environment k id 5 shut ≢ (ok j, w))
closed-denies_example =
    closed-denies environment closing closed 5 firm shut firm-IsPeriods closing_test day_in
