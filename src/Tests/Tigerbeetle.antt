-- ===== src/Tests/Tigerbeetle.antt =====
-- The adapter on a server that keeps what it is sent, and a journal of 10.00 between two accounts.
use eclipse_erp.Base.{
  ℕ, ◌+◌, ◌*◌, ◌%◌, ◌≡◌, refl, true, none, some, List, [], ◌∷◌, ◌++◌, map, arith, ◌==◌, any, filter,
}
use eclipse_erp.Text.{Text, codes, text_eq, non_empty_string, currency_code, to_upper}
use eclipse_erp.Text.Decimal.{value, print}
use eclipse_erp.Dict.{lookup, insert}
use eclipse_erp.Kernel.Amount.{is_minor_amount}
use eclipse_erp.Ledger.Port.{
  CreateExecutionAccountInput, JournalLine, PostJournalInput, positive_integer, valid_account_input,
  valid_journal_input,
}
use eclipse_erp.Ledger.Journal.{add_line, add_lines, validation_reason, validate_journal}
use eclipse_erp.Ledger.Journal.Balanced.{IsBalanced, total_debit, total_credit}
use eclipse_erp.Ledger.Pairing.{pair_lines, pair_loop, debit_sides, credit_sides}
use eclipse_erp.Ledger.Pairing.Conserves.{line_debit, line_credit}
use eclipse_erp.Ledger.Memory.Outcomes.{answers_accepted}
use eclipse_erp.Ledger.Tigerbeetle.{
  Client, Adapter, Transfer, Account, big_endian, legal_id, digest_id, account_id_of,
  transfer_id_of, is_valid_config, bit_or,
}
use eclipse_erp.Ledger.Tigerbeetle.Operations.{
  account_outcome, account_of, balance_constraint_flags, checked_account, request_account,
  create_execution_account, is_conflicting_replay, max_timestamp,
}
use eclipse_erp.Ledger.Tigerbeetle.Transfers.{
  flags_at, line_scope, checked_pairs, transfer_of, transfers_from, transfers_of, is_refused,
  classify, answer, post_journal, by_id, same_transfer, is_mismatch, compare_found,
  reconcile_journal, expected_transfer_ids,
}
use eclipse_erp.Ledger.Tigerbeetle.Posting.{
  sent_debit, sent_credit, IsChain, has_id, transfers-move,
}
use eclipse_erp.Ledger.Tigerbeetle.Confirmed.{is_confirmed, answered_ids, post_journal-confirmed}
use eclipse_erp.Ledger.Tigerbeetle.Reconciled.{all_found, reconcile_journal-confirmed}
use eclipse_erp.Ledger.Tigerbeetle.Opened.{answers_account}

-- What the server holds.
record Server : Type 0 where
  accounts : List Account
  transfers : List Transfer

abbrev server : Client Server
server = record {
  create_accounts = λ accounts w. (
    some (map (λ a. record { status = 1; timestamp = 7 }) accounts),
    record w { accounts = accounts ++ w.accounts },
  );
  create_transfers = λ ts w. (
    some (map (λ t. record { status = 1; timestamp = 7 }) ts),
    record w { transfers = ts ++ w.transfers },
  );
  lookup_accounts = λ ids w. some (filter (λ (a : Account). any (λ i. i == a.id) ids) w.accounts);
  lookup_transfers =
      λ ids w. some (filter (λ (t : Transfer). any (λ i. i == t.id) ids) w.transfers);
}

-- A digest of one byte.
abbrev text_hash : ℕ → Text → ℕ
text_hash n [] = n
text_hash n (c ∷ s) = text_hash ((n * 31 + c) % 251) s

abbrev hash : ℕ → List Text → ℕ
hash n [] = n
hash n (t ∷ ts) = hash (text_hash n t) ts

abbrev adapter : Adapter Server
adapter = record {
  client = server;
  config = record {
    cluster_id = 0;
    replica_addresses = codes "3000" ∷ [];
    ledger = 1;
    code = 10;
    currency = codes "EUR";
  };
  runtime = record {
    account_flags = record {
      none_set = 0;
      history = 8;
      debits_must_not_exceed_credits = 2;
      credits_must_not_exceed_debits = 4;
    };
    transfer_flags = record { none_set = 0; linked = 1 };
    create_account_status = record {
      created = 1;
      exists = 21;
      exists_with_different_flags = 15;
      exists_with_different_user_data_128 = 16;
      exists_with_different_user_data_64 = 17;
      exists_with_different_user_data_32 = 18;
      exists_with_different_ledger = 19;
      exists_with_different_code = 20;
    };
    create_transfer_status = record {
      created = 1;
      exists = 46;
      debit_account_not_found = 21;
      credit_account_not_found = 22;
      debit_account_already_closed = 65;
      credit_account_already_closed = 66;
      exists_with_different_flags = 36;
      exists_with_different_pending_id = 40;
      exists_with_different_timeout = 44;
      exists_with_different_debit_account_id = 37;
      exists_with_different_credit_account_id = 38;
      exists_with_different_amount = 39;
      exists_with_different_user_data_128 = 41;
      exists_with_different_user_data_64 = 42;
      exists_with_different_user_data_32 = 43;
      exists_with_different_ledger = 45;
      exists_with_different_code = 35;
    };
  };
  digest = λ parts. hash 1 parts ∷ [];
}

abbrev empty : Server
empty = record { accounts = []; transfers = [] }

abbrev account : CreateExecutionAccountInput
account = record {
  tenant_id = codes "t";
  legal_entity_id = codes "e";
  account_id = codes "a";
  currency = codes "EUR";
  mapping_version = 1;
  balance_constraint = none;
}

abbrev line : Text → Text → Text → JournalLine
line id debit credit = record { account_id = id; debit_minor = debit; credit_minor = credit }

abbrev cash_lines : List JournalLine
cash_lines =
    line (codes "a") (codes "1000") (codes "0") ∷ (line (codes "b") (codes "0") (codes "1000") ∷ [])

abbrev journal : PostJournalInput
journal = record {
  tenant_id = codes "t";
  legal_entity_id = codes "e";
  operation_id = codes "op";
  journal_id = codes "j";
  reference = codes "r";
  currency = codes "EUR";
  mapping_version = 1;
  lines = cash_lines;
}

-- The code that the runs go through.
running : ℕ
unfolding post_journal checked_pairs answer classify transfers_of transfers_from transfer_of
    is_refused is_conflicting_replay max_timestamp flags_at by_id same_transfer is_mismatch
    compare_found reconcile_journal account_id_of transfer_id_of digest_id legal_id big_endian
    pair_lines pair_loop debit_sides credit_sides text_eq lookup insert to_upper value print
    valid_journal_input valid_account_input positive_integer non_empty_string currency_code
    is_minor_amount validate_journal validation_reason add_line add_lines create_execution_account
    request_account checked_account account_of account_outcome balance_constraint_flags bit_or
    is_valid_config
running = 0

valid_test : is_valid_config adapter.config ≡ true
unfolding running
valid_test = refl

cash-IsBalanced : IsBalanced cash_lines
unfolding total_debit total_credit value
cash-IsBalanced = omega arith

-- The first account's id.
abbrev key : ℕ
key = account_id_of adapter.digest (line_scope journal (codes "a"))

transfers-move_example :
    (sent_debit key (transfers_of adapter journal (pair_lines cash_lines))
      ≡ line_debit (has_id adapter journal key) cash_lines)
    × (sent_credit key (transfers_of adapter journal (pair_lines cash_lines))
        ≡ line_credit (has_id adapter journal key) cash_lines)
    × IsChain adapter.runtime (transfers_of adapter journal (pair_lines cash_lines))
transfers-move_example = transfers-move adapter journal cash-IsBalanced key

posted : answers_accepted (post_journal adapter journal empty).0 ≡ true
unfolding running
posted = refl

abbrev sent : List Transfer
sent = transfers_of adapter journal (pair_lines cash_lines)

post_journal-confirmed_example :
    IsBalanced cash_lines
    × (is_confirmed adapter sent (server.create_transfers sent empty).0 ≡ true)
    × (answered_ids (post_journal adapter journal empty).0 ≡ expected_transfer_ids adapter journal)
post_journal-confirmed_example = post_journal-confirmed adapter journal empty posted

reconciled :
    answers_accepted (reconcile_journal adapter journal (post_journal adapter journal empty).1)
    ≡ true
unfolding running
reconciled = refl

reconcile_journal-confirmed_example :
    IsBalanced cash_lines
    × (all_found adapter sent (
          server.lookup_transfers
            (map (λ (t : Transfer). t.id) sent)
            (post_journal adapter journal empty).1)
        ≡ true)
reconcile_journal-confirmed_example =
    reconcile_journal-confirmed adapter journal (post_journal adapter journal empty).1 reconciled

opened : answers_account (create_execution_account adapter account empty).0 ≡ true
unfolding running
opened = refl
