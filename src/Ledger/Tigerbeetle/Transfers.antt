-- ===== src/Ledger/Tigerbeetle/Transfers.antt =====
-- `makeAdapter` of packages/kernel/src/tigerbeetle.ts: posting and reconciling a journal, and
-- reading a balance.
use eclipse_erp.Base.{
  ℕ, ◌+◌, ◌-◌, Bool, true, not, ◌&&◌, ◌||◌, Option, none, some, List, [], ◌∷◌, map, ltb, ◌==◌,
  if◌then◌else◌, length, any, find,
}
use eclipse_erp.Base.Effect.{Result, ok, err}
use eclipse_erp.Text.{Text, text_eq}
use eclipse_erp.Text.Decimal.{print}
use eclipse_erp.Dict.{Dict, lookup, insert}
use eclipse_erp.Ledger.Port.{
  PostJournalInput, GetBalanceInput, ExecutionOutcome, BalanceOutcome, constraint_violation,
  mapping_mismatch, conflicting_replay, unavailable, response_lost, not_found, SchemaError,
  schema_error, valid_journal_input, valid_balance_input,
}
use eclipse_erp.Ledger.Journal.{validate_journal}
use eclipse_erp.Ledger.Pairing.{TransferPair, pair_lines}
use eclipse_erp.Ledger.Tigerbeetle.{
  Config, Account, Transfer, Outcome, Runtime, Adapter, account_id_of, transfer_id_of, bit_and,
}
use eclipse_erp.Ledger.Tigerbeetle.Operations.{
  is_conflicting_replay, rejection_reason, max_timestamp, same_currency, find_account,
}

-- The scope of an account that a journal names.
abbrev pub line_scope : PostJournalInput → Text → GetBalanceInput
line_scope i account = record {
  tenant_id = i.tenant_id;
  legal_entity_id = i.legal_entity_id;
  account_id = account;
  currency = i.currency;
  mapping_version = i.mapping_version;
}

-- `index < pairs.length - 1 ? linked : none`
unfoldable pub flags_at : Runtime → (index n : ℕ) → ℕ
flags_at r index n =
    if ltb index (n - 1) then r.transfer_flags.linked else r.transfer_flags.none_set

-- The journal as far as both operations read it: the pairs, or the outcome that ends the operation.
unfoldable pub checked_pairs :
    Config → PostJournalInput → Result ExecutionOutcome (List TransferPair)
checked_pairs c i =
    let pairs = pair_lines i.lines in
    if not (same_currency c i.currency)
    then err (ExecutionOutcome.manual_recovery i.operation_id mapping_mismatch)
    else elim (validate_journal i) [
      | some outcome ↦ err outcome
      | none ↦
          if length pairs == 0 || any (λ p. text_eq p.debit_account_id p.credit_account_id) pairs
          then err (ExecutionOutcome.rejected i.operation_id constraint_violation)
          else ok pairs
    ]

abbrev pub printed_ids : List Transfer → List Text
printed_ids ts = map (λ (t : Transfer). print t.id) ts

-- `new Map(transfers.map((transfer) => [transfer.id.toString(), transfer]))`
unfoldable pub by_id : List Transfer → Dict Transfer → Dict Transfer
by_id [] m = m
by_id (t ∷ ts) m = by_id ts (insert (print t.id) t m)

module _ {W : Type 0} (a : Adapter W) where
  -- The transfer of a pair: what `postJournal` sends, and what `reconcileJournal` expects.
  unfoldable pub transfer_of : PostJournalInput → (n index : ℕ) → TransferPair → Transfer
  transfer_of i n index p = record {
    id = transfer_id_of a.digest i index;
    debit_account_id = account_id_of a.digest (line_scope i p.debit_account_id);
    credit_account_id = account_id_of a.digest (line_scope i p.credit_account_id);
    amount = p.amount;
    pending_id = 0;
    user_data_128 = 0;
    user_data_64 = 0;
    user_data_32 = i.mapping_version;
    timeout = 0;
    ledger = a.config.ledger;
    code = a.config.code;
    flags = flags_at a.runtime index n;
    timestamp = 0;
  }

  -- The loop over the pairs, from an index on.
  unfoldable pub transfers_from :
      PostJournalInput → (n index : ℕ) → List TransferPair → List Transfer
  transfers_from i n index [] = []
  transfers_from i n index (p ∷ ps) = transfer_of i n index p ∷ transfers_from i n (index + 1) ps

  unfoldable pub transfers_of : PostJournalInput → List TransferPair → List Transfer
  transfers_of i pairs = transfers_from i (length pairs) 0 pairs

  -- `result.status !== created && result.status !== exists`
  unfoldable pub is_refused : Outcome → Bool
  is_refused o = not (
      o.status == a.runtime.create_transfer_status.created
      || o.status == a.runtime.create_transfer_status.exists)

  -- The outcome for a list of results, one for each transfer.
  unfoldable pub classify : PostJournalInput → List Transfer → List Outcome → ExecutionOutcome
  classify i ts os = elim (find (λ o. is_conflicting_replay o.status a.runtime) os) [
    | some conflict ↦ ExecutionOutcome.manual_recovery i.operation_id conflicting_replay
    | none ↦ elim (find is_refused os) [
      | some rejection ↦
          ExecutionOutcome.rejected i.operation_id (rejection_reason rejection.status a.runtime)
      | none ↦
          ExecutionOutcome.accepted i.operation_id i.mapping_version
            (print (max_timestamp 0 (map (λ (o : Outcome). o.timestamp) os))) (length ts)
            (printed_ids ts)
    ]
  ]

  -- The answer to the batch; a call that throws, or answers too little, is a lost response.
  unfoldable pub answer :
      PostJournalInput → List Transfer → Option (List Outcome) → ExecutionOutcome
  answer i ts none = ExecutionOutcome.unknown i.operation_id response_lost
  answer i ts (some os) =
      if not (length os == length ts)
      then ExecutionOutcome.unknown i.operation_id response_lost
      else classify i ts os

  unfoldable pub post_journal : PostJournalInput → W → Result SchemaError ExecutionOutcome × W
  post_journal i w =
      if not (valid_journal_input i)
      then (err schema_error, w)
      else elim (checked_pairs a.config i) [
        | err outcome ↦ (ok outcome, w)
        | ok pairs ↦
            let ts = transfers_of i pairs in
            let (results, w') = a.client.create_transfers ts w in (ok (answer i ts results), w')
      ]

  -- `pairs.map((_, index) => transferId(decoded, index))`, printed, from an index on.
  unfoldable pub expected_ids_from : PostJournalInput → (index : ℕ) → List TransferPair → List Text
  expected_ids_from i index [] = []
  expected_ids_from i index (p ∷ ps) =
      print (transfer_id_of a.digest i index) ∷ expected_ids_from i (index + 1) ps

  unfoldable pub expected_transfer_ids : PostJournalInput → Result SchemaError (List Text)
  expected_transfer_ids i =
      if not (valid_journal_input i)
      then err schema_error
      else ok (expected_ids_from i 0 (pair_lines i.lines))

  -- The negation of the comparison of a transfer that was found with the one expected.
  unfoldable pub same_transfer : Transfer → Transfer → Bool
  same_transfer actual expected =
      actual.debit_account_id == expected.debit_account_id
      && (actual.credit_account_id == expected.credit_account_id
          && (actual.amount == expected.amount
              && (actual.pending_id == 0
                  && (actual.user_data_128 == 0
                      && (actual.user_data_64 == 0
                          && (actual.timeout == 0
                              && (actual.ledger == a.config.ledger
                                  && (actual.code == a.config.code
                                      && (actual.user_data_32 == expected.user_data_32
                                          && actual.flags == expected.flags)))))))))

  -- A transfer that is expected and was not found as it should be.
  unfoldable pub is_mismatch : Dict Transfer → Transfer → Bool
  is_mismatch m expected = elim (lookup (print expected.id) m) [
    | none ↦ true
    | some actual ↦ not (same_transfer actual expected)
  ]

  -- The outcome for what the lookup answered.
  unfoldable pub compare_found :
      PostJournalInput → List Transfer → Option (List Transfer) → ExecutionOutcome
  compare_found i expected none = ExecutionOutcome.unknown i.operation_id unavailable
  compare_found i expected (some found) =
      if length found == 0
      then ExecutionOutcome.unknown i.operation_id not_found
      else if not (length found == length expected) || any (is_mismatch (by_id found [])) expected
      then ExecutionOutcome.manual_recovery i.operation_id mapping_mismatch
      else ExecutionOutcome.accepted i.operation_id i.mapping_version
          (print (max_timestamp 0 (map (λ (t : Transfer). t.timestamp) found))) (length expected)
          (printed_ids expected)

  unfoldable pub reconcile_journal : PostJournalInput → W → Result SchemaError ExecutionOutcome
  reconcile_journal i w =
      if not (valid_journal_input i) then err schema_error else elim (checked_pairs a.config i) [
        | err outcome ↦ ok outcome
        | ok pairs ↦
            let ts = transfers_of i pairs in
            ok (compare_found i ts (a.client.lookup_transfers (map (λ (t : Transfer). t.id) ts) w))
      ]

  -- The checks of an account that was found.
  unfoldable pub is_expected_account : GetBalanceInput → Account → Bool
  is_expected_account i t =
      t.ledger == a.config.ledger
      && (t.code == a.config.code
          && (t.user_data_128 == 0
              && (t.user_data_64 == 0
                  && (t.user_data_32 == i.mapping_version
                      && (t.reserved == 0
                          && bit_and 32 t.flags a.runtime.account_flags.history
                            == a.runtime.account_flags.history)))))

  unfoldable pub balance_of : GetBalanceInput → ℕ → Option (List Account) → BalanceOutcome
  balance_of i id none = BalanceOutcome.unknown i.account_id unavailable
  balance_of i id (some accounts) = elim (find_account id (some accounts)) [
    | none ↦ BalanceOutcome.not_found i.account_id
    | some t ↦
        if is_expected_account i t
        then BalanceOutcome.available i.account_id i.mapping_version (print t.debits_pending)
            (print t.debits_posted) (print t.credits_pending) (print t.credits_posted)
        else BalanceOutcome.manual_recovery i.account_id mapping_mismatch
  ]

  unfoldable pub get_balance : GetBalanceInput → W → Result SchemaError BalanceOutcome
  get_balance i w =
      let id = account_id_of a.digest i in
      if not (valid_balance_input i)
      then err schema_error
      else if not (same_currency a.config i.currency)
      then ok (BalanceOutcome.manual_recovery i.account_id mapping_mismatch)
      else ok (balance_of i id (a.client.lookup_accounts (id ∷ []) w))
