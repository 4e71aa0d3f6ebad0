-- ===== src/Tests/Ledger.antt =====
-- The ledger on two accounts and a journal of 10.00 from one to the other.
use eclipse_erp.Base.{ℕ, ◌+◌, ◌≡◌, refl, ◌≢◌, ◌↔◌, true, none, List, [], ◌∷◌, arith}
use eclipse_erp.Base.Effect.{ok}
use eclipse_erp.Text.{Text, codes, text_eq, text_ne, non_empty_string, currency_code, to_upper}
use eclipse_erp.Text.Decimal.{value, print}
use eclipse_erp.Dict.{total, lookup, insert, merge, values}
use eclipse_erp.Kernel.Amount.{is_minor_amount}
use eclipse_erp.Ledger.Port.{
  CreateExecutionAccountInput, JournalLine, PostJournalInput, ExecutionOutcome, positive_integer,
  valid_account_input, valid_journal_input, unbalanced,
}
use eclipse_erp.Ledger.Journal.{add_line, add_lines, validate_journal}
use eclipse_erp.Ledger.Journal.Balanced.{
  IsBalanced, validate_journal_iff, total_debit, total_credit,
}
use eclipse_erp.Ledger.Memory.{
  Store, Options, account_key, operation_key, fingerprint_of, normalize_lines,
}
use eclipse_erp.Ledger.Memory.Operations.{
  create_execution_account, accepted_outcome, account_inputs, apply_line, line_balances,
  violates_constraint, debits_and_credits_one, expected_test_transfer_ids, returned_transfer_ids,
}
use eclipse_erp.Ledger.Memory.Post.{
  post_journal, submit, validated, book, record_journal, reply, commit, known_accounts,
}
use eclipse_erp.Ledger.Memory.Outcomes.{answers_accepted, post_journal-once}
use eclipse_erp.Ledger.Memory.Sound.{IsSound, post_journal-IsSound}
use eclipse_erp.Ledger.Journal.{validation_reason, debit_of}
use eclipse_erp.Ledger.Memory.DoubleEntry.{debits, credits}
use eclipse_erp.Ledger.Memory.Overwrite.{post_journal-overwrites}
use eclipse_erp.Ledger.Memory.Accounts.{create_account-IsSound}

abbrev account : Text → CreateExecutionAccountInput
account id = record {
  tenant_id = codes "t";
  legal_entity_id = codes "e";
  account_id = id;
  currency = codes "EUR";
  mapping_version = 1;
  balance_constraint = none;
}

abbrev line : Text → Text → Text → JournalLine
line id debit credit = record { account_id = id; debit_minor = debit; credit_minor = credit }

abbrev journal : List JournalLine → PostJournalInput
journal lines = record {
  tenant_id = codes "t";
  legal_entity_id = codes "e";
  operation_id = codes "op";
  journal_id = codes "j";
  reference = codes "r";
  currency = codes "EUR";
  mapping_version = 1;
  lines = lines;
}

abbrev cash_lines : List JournalLine
cash_lines =
    line (codes "a") (codes "1000") (codes "0") ∷ line (codes "b") (codes "0") (codes "1000") ∷ []

abbrev empty : Store
empty = record { accounts = []; balances = []; operations = []; lost = []; failed_before = [] }

abbrev no_failures : Options
no_failures = record {
  lose_response_for = none;
  fail_before_submission_for = none;
  unavailable_for = none;
  corrupt_transfer_ids_for = none;
}

-- Both accounts, by the program's own operation.
opened : Store
opened =
    (create_execution_account (account (codes "b"))
      (create_execution_account (account (codes "a")) empty).1).1

empty-IsSound : IsSound empty
empty-IsSound = record {
  keyed = tt;
  covered = λ k e. unfold lookup in refl;
  double_entry = unfold total in refl;
}

opened-IsSound : IsSound opened
unfolding opened
opened-IsSound =
    create_account-IsSound (account (codes "b"))
      (create_execution_account (account (codes "a")) empty).1
      (create_account-IsSound (account (codes "a")) empty empty-IsSound)

post_journal-IsSound_example : IsSound (post_journal no_failures (journal cash_lines) opened).1
post_journal-IsSound_example =
    post_journal-IsSound no_failures (journal cash_lines) opened opened-IsSound
      ((different, tt), (tt, tt))
  where
    different : codes "b" ≢ codes "a"
    different = text_ne (codes "b") (codes "a") (unfold text_eq in refl)

cash-IsBalanced : IsBalanced cash_lines
unfolding total_debit total_credit value
cash-IsBalanced = omega arith

-- The code that the runs go through.
running : ℕ
unfolding post_journal submit validated book record_journal reply commit known_accounts
    account_inputs line_balances apply_line violates_constraint debits_and_credits_one
    accepted_outcome expected_test_transfer_ids returned_transfer_ids operation_key fingerprint_of
    normalize_lines account_key to_upper text_eq lookup insert merge values value print
    valid_journal_input valid_account_input positive_integer non_empty_string currency_code
    is_minor_amount validate_journal validation_reason add_line add_lines create_execution_account
    opened
running = 0

cash_accepted : answers_accepted (post_journal no_failures (journal cash_lines) opened).0 ≡ true
unfolding running
cash_accepted = refl

post_journal-once_example :
    post_journal no_failures
      (journal cash_lines)
      (post_journal no_failures (journal cash_lines) opened).1
    ≡ post_journal no_failures (journal cash_lines) opened
post_journal-once_example = post_journal-once no_failures (journal cash_lines) opened cash_accepted

short_rejected :
    (post_journal no_failures (journal []) opened).0
    ≡ ok (ExecutionOutcome.rejected (codes "op") unbalanced)
unfolding running
short_rejected = refl

validate_journal_iff_example :
    (validate_journal (journal cash_lines) ≡ none) ↔ IsBalanced cash_lines
validate_journal_iff_example = validate_journal_iff (journal cash_lines)

-- Two debits of 1.00 and 2.00 on one account, and the credit of both on another.
abbrev twice_lines : List JournalLine
twice_lines =
    line (codes "a") (codes "100") (codes "0")
    ∷ line (codes "a") (codes "200") (codes "0")
    ∷ line (codes "b") (codes "0") (codes "300")
    ∷ []

twice_accepted : answers_accepted (post_journal no_failures (journal twice_lines) opened).0 ≡ true
unfolding running
twice_accepted = refl

post_journal-overwrites_example :
    let s' = (post_journal no_failures (journal twice_lines) opened).1 in
    debits s'.balances + debit_of (line (codes "a") (codes "100") (codes "0")) ≡ credits s'.balances
unfolding running
post_journal-overwrites_example =
    post_journal-overwrites no_failures (journal twice_lines) opened
      (line (codes "a") (codes "100") (codes "0")) (line (codes "a") (codes "200") (codes "0"))
      (line (codes "b") (codes "0") (codes "300")) refl refl (text_ne (codes "b") (codes "a") refl)
      (omega arith, omega arith, omega arith) opened-IsSound refl twice_accepted
