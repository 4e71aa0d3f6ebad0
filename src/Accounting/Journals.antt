-- ===== src/Accounting/Journals.antt =====
-- `makeAccountingTestLayer` of packages/accounting/src/service.ts: posting journals.
pub mod Repeat
use eclipse_erp.Base.{
  ℕ, ◌+◌, Bool, true, false, not, ◌&&◌, ◌||◌, Option, none, some, List, [], ◌∷◌, ◌++◌, map, any,
  length, ltb, ◌==◌, if◌then◌else◌, take, bool_eq, find,
}
use eclipse_erp.Base.Effect.{Result, ok, err}
use eclipse_erp.Text.{Text, codes, text_eq, non_empty_string, trim}
use eclipse_erp.Text.Decimal.{print}
use eclipse_erp.Text.Order.{text_le, to_sorted}
use eclipse_erp.Dict.{Dict, lookup, insert, values, contains}
use eclipse_erp.Kernel.Amount.{is_major_amount}
use eclipse_erp.Messaging.Events.{Platform, AppendEventInput}
use eclipse_erp.Messaging.Service.{append}
use eclipse_erp.Sales.Service as Sales
use eclipse_erp.Accounting.Data.{
  Account, Configuration, JournalLine, JournalStatus, posted, reversed, JournalEntry, Period,
  PeriodStatus, is_open, Profile, PostJournalInput, PostRevenueInput, ReverseRevenueInput, World,
  Failure, schema_error, no_order_total, not_appended, account_not_found, profile_not_found,
  period_not_open, journal_conflict, revenue_not_found, invalid_line, unbalanced, to_minor,
  valid_post_journal, optional,
}
use eclipse_erp.Accounting.Setup.{colon, permit, own_account}

-- What the code takes from its platform, and the JSON value of the event of a posted revenue.
pub record Environment (Json : Type 0) : Type 0 where
  pub platform : Platform Json
  pub payload : (journal_id legal_entity_id order_id : Text) → Json

-- `normalizeLines`
abbrev pub normal_line : JournalLine → Text
normal_line l = colon l.account_id (colon (print (to_minor l.debit)) (print (to_minor l.credit)))

unfoldable pub normalize_lines : List JournalLine → List Text
normalize_lines lines = to_sorted (map normal_line lines)

-- `JSON.stringify(a) !== JSON.stringify(b)` fails, on lists of strings.
unfoldable pub texts_eq : List Text → List Text → Bool
texts_eq [] [] = true
texts_eq [] (t ∷ ts) = false
texts_eq (s ∷ ss) [] = false
texts_eq (s ∷ ss) (t ∷ ts) = text_eq s t && texts_eq ss ts

-- The loop of `validateLines` from an index, with the sums so far.
unfoldable pub check_lines : (index debit credit : ℕ) → List JournalLine → Option Failure
check_lines index debit credit [] =
    if debit == credit then none else some (unbalanced (print debit) (print credit))
check_lines index debit credit (l ∷ ls) =
    let d = to_minor l.debit in
    let c = to_minor l.credit in
    let rest = check_lines (index + 1) (debit + d) (credit + c) ls in
    if bool_eq (ltb 0 d) (ltb 0 c) then some (invalid_line index) else rest

unfoldable pub validate_lines : List JournalLine → Option Failure
validate_lines lines =
    if ltb (length lines) 2
    then some (unbalanced (codes "0") (codes "0"))
    else check_lines 0 0 0 lines

module _ {Json : Type 0} where
  -- The whole of `decoded.lines.some(...)` over the accounts.
  abbrev pub foreign_line : Text → World Json → JournalLine → Bool
  foreign_line tenant w l = elim (own_account tenant (lookup l.account_id w.accounts)) [
    | none ↦ true
    | some a ↦ false
  ]

  abbrev pub posted_journal :
      (v : Environment Json) → PostJournalInput → (id : Text) → (now : ℕ) → JournalEntry
  posted_journal v i id now = record {
    id = id;
    tenant_id = i.tenant_id;
    reference = trim i.reference;
    status = posted;
    posted_at = v.platform.iso_string now;
    reverses_entry_id = none;
    lines = i.lines;
  }

  -- From the accounts on.
  unfoldable pub store_journal :
      Environment Json
      → PostJournalInput
      → (id : Text) → (now : ℕ) → World Json
      → Result Failure JournalEntry × World Json
  store_journal v i id now w =
      let reference = trim i.reference in
      let key = colon i.tenant_id reference in
      let journal = posted_journal v i id now in
      elim (lookup key w.journals) [
        | some existing ↦
            if texts_eq (normalize_lines existing.lines) (normalize_lines i.lines)
            then (ok existing, w)
            else (err (journal_conflict i.tenant_id reference), w)
        | none ↦ (ok journal, record w { journals = insert key journal w.journals })
      ]

  unfoldable pub post_journal :
      Environment Json
      → PostJournalInput
      → (id : Text) → (now : ℕ) → World Json
      → Result Failure JournalEntry × World Json
  post_journal v i id now w =
      if not (valid_post_journal v.platform.is_uuid i)
      then (err schema_error, w)
      else elim (permit i.principal i.tenant_id (codes "accounting.journal.post") w) [
        | err e ↦ (err e, w)
        | ok d ↦ elim (validate_lines i.lines) [
          | some e ↦ (err e, w)
          | none ↦
              if any (foreign_line i.tenant_id w) i.lines
              then (err (account_not_found i.tenant_id), w)
              else store_journal v i id now w
        ]
      ]
