-- ===== src/Ledger/Memory/Operations.antt =====
-- The operations of the in-memory ledger, each as a function of the store that returns its outcome
-- and the store after it.
use eclipse_erp.Base.{
  ℕ, zero, suc, ◌+◌, ◌-◌, Bool, true, false, not, ◌&&◌, ◌||◌, Option, none, some, List, [], ◌∷◌,
  map, ltb, ◌==◌, if◌then◌else◌, length, any, find, filter,
}
use eclipse_erp.Base.Effect.{Result, ok, err}
use eclipse_erp.Text.{Text, text_eq, option_is, to_upper, codes}
use eclipse_erp.Text.Decimal.{print}
use eclipse_erp.Dict.{Dict, lookup, insert, values}
use eclipse_erp.Ledger.Port.{
  Constraint, unconstrained, debits_must_not_exceed_credits, credits_must_not_exceed_debits,
  CreateExecutionAccountInput, JournalLine, PostJournalInput, AccountOutcome, ExecutionOutcome,
  mapping_mismatch, SchemaError, schema_error, valid_account_input,
}
use eclipse_erp.Ledger.Journal.{u128_max, debit_of, credit_of}
use eclipse_erp.Ledger.Memory.{
  Balance, Store, Options, colon_join, input_key, balance_key, operation_key,
}

-- `account.balanceConstraint ?? "none"`
abbrev pub constraint_of : CreateExecutionAccountInput → Constraint
constraint_of a = elim a.balance_constraint [ none ↦ unconstrained | some c ↦ c ]

abbrev pub constraint_eq : Constraint → Constraint → Bool
constraint_eq unconstrained unconstrained = true
constraint_eq debits_must_not_exceed_credits debits_must_not_exceed_credits = true
constraint_eq credits_must_not_exceed_debits credits_must_not_exceed_debits = true
constraint_eq _ _ = false

unfoldable pub same_account_input : CreateExecutionAccountInput → CreateExecutionAccountInput → Bool
same_account_input a b =
    text_eq a.tenant_id b.tenant_id
    && (text_eq a.legal_entity_id b.legal_entity_id
        && (text_eq a.account_id b.account_id
            && (text_eq (to_upper a.currency) (to_upper b.currency)
                && (a.mapping_version == b.mapping_version
                    && constraint_eq (constraint_of a) (constraint_of b)))))

abbrev violates : Constraint → Balance → Bool
violates debits_must_not_exceed_credits b = ltb b.credits_posted_minor b.debits_posted_minor
violates credits_must_not_exceed_debits b = ltb b.debits_posted_minor b.credits_posted_minor
violates unconstrained b = false

unfoldable pub violates_constraint : CreateExecutionAccountInput → Balance → Bool
violates_constraint a b = violates (constraint_of a) b

-- The loop of `expectedTestTransferIds` on the amounts that are left, with fuel for its rounds: it
-- counts the transfers.
unfoldable pub count_loop : ℕ → List ℕ → List ℕ → ℕ
count_loop zero ds cs = 0
count_loop (suc fuel) [] cs = 0
count_loop (suc fuel) (d ∷ ds) [] = 0
count_loop (suc fuel) (d ∷ ds) (c ∷ cs) =
    let amount = if ltb d c then d else c in
    let ds' = if d - amount == 0 then ds else (d - amount) ∷ ds in
    let cs' = if c - amount == 0 then cs else (c - amount) ∷ cs in count_loop fuel ds' cs' + 1

-- `Array.from({ length }, (_, index) => ...)`, from an index on.
unfoldable pub transfer_ids_from : Text → ℕ → ℕ → List Text
transfer_ids_from key index zero = []
transfer_ids_from key index (suc n) =
    colon_join (codes "transfer") (colon_join key (print index))
    ∷ transfer_ids_from key (index + 1) n

unfoldable pub transfer_count : List JournalLine → ℕ
unfolding count_loop
transfer_count lines =
    let debits = filter (ltb 0) (map debit_of lines) in
    let credits = filter (ltb 0) (map credit_of lines) in
    count_loop (length debits + length credits) debits credits

unfoldable pub expected_test_transfer_ids : PostJournalInput → List Text
unfolding transfer_count transfer_ids_from
expected_test_transfer_ids i = transfer_ids_from (operation_key i) 0 (transfer_count i.lines)

-- The accounts that a journal may name.
unfoldable pub account_inputs : Store → PostJournalInput → List CreateExecutionAccountInput
account_inputs s i =
    filter
      (λ a.
        text_eq a.tenant_id i.tenant_id
        && (text_eq a.legal_entity_id i.legal_entity_id
            && (text_eq (to_upper a.currency) (to_upper i.currency)
                && (a.mapping_version == i.mapping_version))))
      (values s.accounts)

unfoldable pub create_execution_account :
    CreateExecutionAccountInput → Store → Result SchemaError AccountOutcome × Store
create_execution_account i s =
    if not (valid_account_input i)
    then (err schema_error, s)
    else elim (lookup (input_key i) s.accounts) [
      | some existing ↦ (
        ok (
            if same_account_input existing i
            then AccountOutcome.accepted i.account_id i.mapping_version (codes "0")
            else AccountOutcome.manual_recovery i.account_id mapping_mismatch),
        s,
      )
      | none ↦ (
        ok (AccountOutcome.accepted i.account_id i.mapping_version (codes "0")),
        record s {
          accounts = insert (input_key i) i s.accounts;
          balances =
              insert (input_key i) (record { debits_posted_minor = 0; credits_posted_minor = 0 })
                s.balances;
        },
      )
    ]

-- A line on the balance that was read, kept among the new balances; `none` is the rejection.
unfoldable pub apply_line :
    Text
    → JournalLine
    → Option Balance
    → Option CreateExecutionAccountInput
    → Dict Balance
    → Option (Dict Balance)
apply_line key l none account acc = some acc
apply_line key l (some current) none acc = some acc
apply_line key l (some current) (some account) acc =
    let next : Balance = record {
      debits_posted_minor = current.debits_posted_minor + debit_of l;
      credits_posted_minor = current.credits_posted_minor + credit_of l;
    } in
    if ltb u128_max next.debits_posted_minor
      || (ltb u128_max next.credits_posted_minor || violates_constraint account next)
    then none
    else some (insert key next acc)

-- The loop over the lines; the balances read are those from before the journal.
unfoldable pub line_balances :
    Store → PostJournalInput → List JournalLine → Dict Balance → Option (Dict Balance)
line_balances s i [] acc = some acc
line_balances s i (l ∷ ls) acc =
    elim (apply_line (balance_key i l.account_id) l (lookup (balance_key i l.account_id) s.balances)
      (find (λ a. text_eq a.account_id l.account_id) (account_inputs s i)) acc) [
        | none ↦ none
        | some acc' ↦ line_balances s i ls acc'
      ]

-- An account that a journal both debits and credits.
unfoldable pub debits_and_credits_one : List JournalLine → Bool
debits_and_credits_one lines =
    any
      (λ l.
        ltb 0 (debit_of l)
        && any (λ c. text_eq c.account_id l.account_id && ltb 0 (credit_of c)) lines)
      lines

-- `id:corrupt` for the first transfer, where the option asks for it.
unfoldable pub returned_transfer_ids : Options → PostJournalInput → List Text
returned_transfer_ids o i = elim (expected_test_transfer_ids i) [
  | [] ↦ []
  | id ∷ ids ↦
      (if option_is o.corrupt_transfer_ids_for i.operation_id
        then colon_join id (codes "corrupt")
        else id)
      ∷ ids
]

unfoldable pub accepted_outcome : Options → PostJournalInput → ExecutionOutcome
accepted_outcome o i =
    ExecutionOutcome.accepted i.operation_id i.mapping_version (codes "0")
      (length (returned_transfer_ids o i)) (returned_transfer_ids o i)
