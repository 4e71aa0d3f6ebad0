-- ===== src/Ledger/Tigerbeetle/Operations.antt =====
-- `makeAdapter` of packages/kernel/src/tigerbeetle.ts: the operations on the client. An operation
-- that only looks things up leaves the server as it is.
use eclipse_erp.Base.{
  ℕ, Bool, not, ◌&&◌, ◌||◌, Option, none, some, List, [], ◌∷◌, ltb, ◌==◌, if◌then◌else◌, any, find,
}
use eclipse_erp.Base.Effect.{Result, ok, err}
use eclipse_erp.Text.{Text, text_eq, to_upper}
use eclipse_erp.Text.Decimal.{print}
use eclipse_erp.Ledger.Port.{
  Constraint, unconstrained, debits_must_not_exceed_credits, credits_must_not_exceed_debits,
  CreateExecutionAccountInput, GetBalanceInput, AccountOutcome, RejectionReason, invalid_account,
  constraint_violation, mapping_mismatch, response_lost, SchemaError, schema_error,
  valid_account_input,
}
use eclipse_erp.Ledger.Tigerbeetle.{
  Config, AccountStatus, TransferStatus, Account, Outcome, Runtime, Adapter, account_id_of, bit_or,
}

-- `balanceConstraintFlags`
unfoldable pub balance_constraint_flags : Option Constraint → Runtime → ℕ
balance_constraint_flags none r = r.account_flags.none_set
balance_constraint_flags (some unconstrained) r = r.account_flags.none_set
balance_constraint_flags (some debits_must_not_exceed_credits) r =
    r.account_flags.debits_must_not_exceed_credits
balance_constraint_flags (some credits_must_not_exceed_debits) r =
    r.account_flags.credits_must_not_exceed_debits

-- `[...].includes(status)`
abbrev pub is_among : ℕ → List ℕ → Bool
is_among n ns = any (λ m. n == m) ns

abbrev account_mismatches : AccountStatus → List ℕ
account_mismatches s =
    s.exists_with_different_flags
    ∷ (s.exists_with_different_user_data_128
        ∷ (s.exists_with_different_user_data_64
            ∷ (s.exists_with_different_user_data_32
                ∷ (s.exists_with_different_ledger ∷ (s.exists_with_different_code ∷ [])))))

abbrev missing_accounts : TransferStatus → List ℕ
missing_accounts s =
    s.debit_account_not_found
    ∷ (s.credit_account_not_found
        ∷ (s.debit_account_already_closed ∷ (s.credit_account_already_closed ∷ [])))

abbrev transfer_conflicts : TransferStatus → List ℕ
transfer_conflicts s =
    s.exists_with_different_flags
    ∷ (s.exists_with_different_pending_id
        ∷ (s.exists_with_different_timeout
            ∷ (s.exists_with_different_debit_account_id
                ∷ (s.exists_with_different_credit_account_id
                    ∷ (s.exists_with_different_amount
                        ∷ (s.exists_with_different_user_data_128
                            ∷ (s.exists_with_different_user_data_64
                                ∷ (s.exists_with_different_user_data_32
                                    ∷ (s.exists_with_different_ledger
                                        ∷ (s.exists_with_different_code ∷ []))))))))))

unfoldable pub account_outcome : CreateExecutionAccountInput → Outcome → Runtime → AccountOutcome
account_outcome i o r =
    if o.status == r.create_account_status.created || o.status == r.create_account_status.exists
    then AccountOutcome.accepted i.account_id i.mapping_version (print o.timestamp)
    else if is_among o.status (account_mismatches r.create_account_status)
    then AccountOutcome.manual_recovery i.account_id mapping_mismatch
    else AccountOutcome.rejected i.account_id constraint_violation

unfoldable pub rejection_reason : ℕ → Runtime → RejectionReason
rejection_reason status r =
    if is_among status (missing_accounts r.create_transfer_status)
    then invalid_account
    else constraint_violation

-- `isConflictingReplay`
unfoldable pub is_conflicting_replay : ℕ → Runtime → Bool
is_conflicting_replay status r = is_among status (transfer_conflicts r.create_transfer_status)

-- `maxTimestamp`, from the greatest seen so far
unfoldable pub max_timestamp : ℕ → List ℕ → ℕ
max_timestamp n [] = n
max_timestamp n (t ∷ ts) = max_timestamp (if ltb n t then t else n) ts

abbrev pub same_currency : Config → Text → Bool
same_currency c currency = text_eq (to_upper currency) (to_upper c.currency)

-- The scope of an account, from the input that creates it.
abbrev pub scope_of : CreateExecutionAccountInput → GetBalanceInput
scope_of i = record {
  tenant_id = i.tenant_id;
  legal_entity_id = i.legal_entity_id;
  account_id = i.account_id;
  currency = i.currency;
  mapping_version = i.mapping_version;
}

-- The account that `createExecutionAccount` asks for.
unfoldable pub account_of : Config → Runtime → ℕ → CreateExecutionAccountInput → Account
account_of c r id i = record {
  id = id;
  debits_pending = 0;
  debits_posted = 0;
  credits_pending = 0;
  credits_posted = 0;
  user_data_128 = 0;
  user_data_64 = 0;
  user_data_32 = i.mapping_version;
  reserved = 0;
  ledger = c.ledger;
  code = c.code;
  flags = bit_or 32 r.account_flags.history (balance_constraint_flags i.balance_constraint r);
  timestamp = 0;
}

-- The negation of the comparison of an existing account with the one asked for.
unfoldable pub same_account : Account → Account → Bool
same_account a b =
    a.ledger == b.ledger
    && (a.code == b.code
        && (a.user_data_128 == b.user_data_128
            && (a.user_data_64 == b.user_data_64
                && (a.user_data_32 == b.user_data_32
                    && (a.reserved == b.reserved && a.flags == b.flags)))))

-- `existingAccounts?.find((candidate) => candidate.id === id)`
unfoldable pub find_account : ℕ → Option (List Account) → Option Account
find_account id none = none
find_account id (some accounts) = find (λ a. a.id == id) accounts

abbrev pub head : Option (List Outcome) → Option Outcome
head none = none
head (some []) = none
head (some (o ∷ os)) = some o

module _ {W : Type 0} where
  -- The outcome for the first result, with the check of an account that exists.
  unfoldable pub checked_account :
      Adapter W → CreateExecutionAccountInput → Account → Outcome → W → AccountOutcome
  checked_account a i account o w =
      if o.status == a.runtime.create_account_status.exists
      then elim (find_account account.id (a.client.lookup_accounts (account.id ∷ []) w)) [
        | none ↦ AccountOutcome.manual_recovery i.account_id mapping_mismatch
        | some existing ↦
            if same_account existing account
            then account_outcome i o a.runtime
            else AccountOutcome.manual_recovery i.account_id mapping_mismatch
      ]
      else account_outcome i o a.runtime

  -- From the request on: the first result, if there is one.
  unfoldable pub request_account : Adapter W → CreateExecutionAccountInput → W → AccountOutcome × W
  request_account a i w =
      let account = account_of a.config a.runtime (account_id_of a.digest (scope_of i)) i in
      let (results, w') = a.client.create_accounts (account ∷ []) w in
      elim (head results) [
        | none ↦ (AccountOutcome.unknown i.account_id response_lost, w')
        | some o ↦ (checked_account a i account o w', w')
      ]

  unfoldable pub create_execution_account :
      Adapter W → CreateExecutionAccountInput → W → Result SchemaError AccountOutcome × W
  create_execution_account a i w =
      if not (valid_account_input i)
      then (err schema_error, w)
      else if not (same_currency a.config i.currency)
      then (ok (AccountOutcome.manual_recovery i.account_id mapping_mismatch), w)
      else let (outcome, w') = request_account a i w in (ok outcome, w')
