-- ===== src/Ledger/Memory.antt =====
-- The in-memory ledger of packages/accounting/src/financial-ledger.ts
-- (`makeFinancialLedgerTestLayer`): accounts, balances and the outcome of every operation, with the
-- failures that its options inject. Its `Map`s are dictionaries and its `Set`s lists of texts; the
-- JSON fingerprint of a journal is the record of the values that it prints.
pub mod Operations
pub mod Post
pub mod Outcomes
pub mod DoubleEntry
pub mod Sound
pub mod Accounts
pub mod Overwrite
use eclipse_erp.Base.{
  ℕ, zero, suc, ◌+◌, ◌-◌, ◌*◌, ◌/◌, ◌%◌, ◌^◌, ◌≤◌, ◌<◌, ◌≡◌, refl, sym, ap, ◌∙◌, subst, ◌≢◌, ◌↔◌,
  ◌⊎◌, inl, inr, Bool, true, false, not, ◌&&◌, ◌||◌, Option, none, some, List, [], ◌∷◌, ◌++◌, map,
  append_assoc, append-nil, arith, ltb, leb, ◌==◌, if◌then◌else◌, bool_eq, Bool-cases, Option-cases,
  and_true, ltb→lt, lt→ltb, leb→le, le→leb, eqb→eq, eqb_refl, eq→eqb, length, take, drop, replicate,
  any, all, find, filter, All, length-append, length-replicate, take-append-drop, length-drop,
  length-take,
}
use eclipse_erp.Base.Effect.{Result, ok, err}
use eclipse_erp.Text.{Text, text_eq, option_is, to_upper, codes}
use eclipse_erp.Text.Decimal.{print}
use eclipse_erp.Dict.{Dict, lookup, insert, values, merge}
use eclipse_erp.Ledger.Port.{
  Constraint, unconstrained, debits_must_not_exceed_credits, credits_must_not_exceed_debits,
  CreateExecutionAccountInput, JournalLine, PostJournalInput, GetBalanceInput, AccountOutcome,
  ExecutionOutcome, BalanceOutcome, invalid_account, constraint_violation, mapping_mismatch,
  conflicting_replay, unavailable, response_lost, not_found, SchemaError, schema_error,
  valid_account_input, valid_journal_input, valid_balance_input,
}
use eclipse_erp.Ledger.Journal.{u128_max, debit_of, credit_of, validate_journal}

pub record Balance : Type 0 where
  pub debits_posted_minor : ℕ
  pub credits_posted_minor : ℕ

-- What `JSON.stringify` prints of a journal.
pub record Fingerprint : Type 0 where
  pub journal_id : Text
  pub reference : Text
  pub currency : Text
  pub mapping_version : ℕ
  pub lines : List Text

pub record Operation : Type 0 where
  pub fingerprint : Fingerprint
  pub outcome : ExecutionOutcome

-- The `Map`s and `Set`s that the layer closes over.
pub record Store : Type 0 where
  pub accounts : Dict CreateExecutionAccountInput
  pub balances : Dict Balance
  pub operations : Dict Operation
  pub lost : List Text
  pub failed_before : List Text

-- `TestAdapterOptions`
pub record Options : Type 0 where
  pub lose_response_for : Option Text
  pub fail_before_submission_for : Option Text
  pub unavailable_for : Option Text
  pub corrupt_transfer_ids_for : Option Text

-- `set.has(t)` and `set.add(t)`
abbrev pub has : Text → List Text → Bool
has t set = any (text_eq t) set

abbrev pub add : Text → List Text → List Text
add t set = if has t set then set else set ++ (t ∷ [])

abbrev pub colon_join : Text → Text → Text
colon_join s t = s ++ (b':' ∷ t)

-- `accountKey`
unfoldable pub account_key : Text → Text → Text → Text → ℕ → Text
account_key tenant_id legal_entity_id account_id currency mapping_version = colon_join tenant_id (
    colon_join legal_entity_id
      (colon_join account_id (colon_join (to_upper currency) (print mapping_version))))

abbrev pub input_key : CreateExecutionAccountInput → Text
input_key a = account_key a.tenant_id a.legal_entity_id a.account_id a.currency a.mapping_version

abbrev pub balance_key : PostJournalInput → Text → Text
balance_key i account_id =
    account_key i.tenant_id i.legal_entity_id account_id i.currency i.mapping_version

-- `operationKey`
unfoldable pub operation_key : PostJournalInput → Text
operation_key i = colon_join i.tenant_id (colon_join i.legal_entity_id i.operation_id)

-- `normalizeLines`
unfoldable pub normalize_lines : List JournalLine → List Text
normalize_lines = map (λ l. colon_join l.account_id (colon_join l.debit_minor l.credit_minor))

unfoldable pub fingerprint_of : PostJournalInput → Fingerprint
fingerprint_of i = record {
  journal_id = i.journal_id;
  reference = i.reference;
  currency = to_upper i.currency;
  mapping_version = i.mapping_version;
  lines = normalize_lines i.lines;
}

unfoldable pub texts_eq : List Text → List Text → Bool
texts_eq [] [] = true
texts_eq [] (t ∷ ts) = false
texts_eq (s ∷ ss) [] = false
texts_eq (s ∷ ss) (t ∷ ts) = text_eq s t && texts_eq ss ts

unfoldable pub fingerprint_eq : Fingerprint → Fingerprint → Bool
unfolding texts_eq
fingerprint_eq a b =
    text_eq a.journal_id b.journal_id
    && (text_eq a.reference b.reference
        && (text_eq a.currency b.currency
            && (a.mapping_version == b.mapping_version && texts_eq a.lines b.lines)))
