-- ===== src/Ledger/Memory/Post.antt =====
-- `postJournal`, `reconcileJournal` and `getBalance` of the in-memory ledger, stage by stage.
use eclipse_erp.Base.{
  Bool, true, false, not, ◌&&◌, ◌||◌, none, some, List, [], ◌∷◌, if◌then◌else◌, any,
}
use eclipse_erp.Base.Effect.{Result, ok, err}
use eclipse_erp.Text.{Text, text_eq, option_is, codes}
use eclipse_erp.Text.Decimal.{print}
use eclipse_erp.Dict.{Dict, lookup, insert, values, merge}
use eclipse_erp.Ledger.Port.{
  PostJournalInput, GetBalanceInput, ExecutionOutcome, BalanceOutcome, invalid_account,
  constraint_violation, conflicting_replay, unavailable, response_lost, not_found, SchemaError,
  schema_error, valid_journal_input, valid_balance_input,
}
use eclipse_erp.Ledger.Journal.{validate_journal}
use eclipse_erp.Ledger.Memory.{
  Balance, Operation, Store, Options, has, add, account_key, input_key, operation_key,
  fingerprint_of, fingerprint_eq,
}
use eclipse_erp.Ledger.Memory.Operations.{
  expected_test_transfer_ids, account_inputs, line_balances, debits_and_credits_one,
  accepted_outcome,
}

abbrev pub is_nil : List Text → Bool
is_nil [] = true
is_nil (t ∷ ts) = false

-- The outcome is stored; the reply may then be lost, once.
unfoldable pub reply : Options → PostJournalInput → Store → ExecutionOutcome × Store
reply o i s =
    if option_is o.lose_response_for i.operation_id && not (has (operation_key i) s.lost)
    then (
      ExecutionOutcome.unknown i.operation_id response_lost,
      record s { lost = add (operation_key i) s.lost },
    )
    else (accepted_outcome o i, s)

-- The new balances and the outcome are written.
unfoldable pub commit : Options → PostJournalInput → Dict Balance → Store → Store
commit o i next_balances s = record s {
  balances = merge next_balances s.balances;
  operations =
      insert (operation_key i)
        (record { fingerprint = fingerprint_of i; outcome = accepted_outcome o i }) s.operations;
}

-- A journal that is new: its lines are applied to the balances, or it is rejected.
unfoldable pub record_journal : Options → PostJournalInput → Store → ExecutionOutcome × Store
record_journal o i s = elim (line_balances s i i.lines []) [
  | none ↦ (ExecutionOutcome.rejected i.operation_id constraint_violation, s)
  | some next_balances ↦
      if is_nil (expected_test_transfer_ids i) || debits_and_credits_one i.lines
      then (ExecutionOutcome.rejected i.operation_id constraint_violation, s)
      else reply o i (commit o i next_balances s)
]

-- The answer to a journal whose operation is known.
unfoldable pub replay : PostJournalInput → Operation → ExecutionOutcome
replay i existing =
    if fingerprint_eq existing.fingerprint (fingerprint_of i)
    then existing.outcome
    else ExecutionOutcome.manual_recovery i.operation_id conflicting_replay

unfoldable pub known_accounts : Store → PostJournalInput → Bool
known_accounts s i =
    not (any (λ l. not (any (λ a. text_eq a.account_id l.account_id) (account_inputs s i))) i.lines)

-- From the account check on.
unfoldable pub book : Options → PostJournalInput → Store → ExecutionOutcome × Store
book o i s =
    if not (known_accounts s i)
    then (ExecutionOutcome.rejected i.operation_id invalid_account, s)
    else elim (lookup (operation_key i) s.operations) [
      | some existing ↦ (replay i existing, s)
      | none ↦ record_journal o i s
    ]

-- From the validation on.
unfoldable pub validated : Options → PostJournalInput → Store → ExecutionOutcome × Store
validated o i s = elim (validate_journal i) [ some outcome ↦ (outcome, s) | none ↦ book o i s ]

-- The injected failures, then the journal itself.
unfoldable pub submit : Options → PostJournalInput → Store → ExecutionOutcome × Store
submit o i s =
    if option_is o.unavailable_for i.operation_id
    then (ExecutionOutcome.unknown i.operation_id unavailable, s)
    else if option_is o.fail_before_submission_for i.operation_id
        && not (has (operation_key i) s.failed_before)
    then (
      ExecutionOutcome.unknown i.operation_id response_lost,
      record s { failed_before = add (operation_key i) s.failed_before },
    )
    else validated o i s

unfoldable pub post_journal :
    Options → PostJournalInput → Store → Result SchemaError ExecutionOutcome × Store
post_journal o i s =
    if not (valid_journal_input i)
    then (err schema_error, s)
    else let (outcome, s') = submit o i s in (ok outcome, s')

unfoldable pub reconcile_journal :
    Options → PostJournalInput → Store → Result SchemaError ExecutionOutcome
reconcile_journal o i s =
    if not (valid_journal_input i)
    then err schema_error
    else if option_is o.unavailable_for i.operation_id
    then ok (ExecutionOutcome.unknown i.operation_id unavailable)
    else elim (lookup (operation_key i) s.operations) [
      | none ↦ ok (ExecutionOutcome.unknown i.operation_id not_found)
      | some existing ↦ ok (replay i existing)
    ]

abbrev pub request_key : GetBalanceInput → Text
request_key i = account_key i.tenant_id i.legal_entity_id i.account_id i.currency i.mapping_version

unfoldable pub get_balance : GetBalanceInput → Store → Result SchemaError BalanceOutcome
get_balance i s =
    if not (valid_balance_input i)
    then err schema_error
    else if not (any (λ a. text_eq (input_key a) (request_key i)) (values s.accounts))
    then ok (BalanceOutcome.not_found i.account_id)
    else elim (lookup (request_key i) s.balances) [
      | none ↦ ok (BalanceOutcome.not_found i.account_id)
      | some b ↦ ok (
          BalanceOutcome.available i.account_id i.mapping_version (codes "0")
            (print b.debits_posted_minor) (codes "0") (print b.credits_posted_minor))
    ]
