-- ===== src/Ledger/Port.antt =====
-- packages/accounting/src/financial-ledger.ts: the inputs and outcomes of the ledger port, with the
-- checks that their schemas make. Strings stay texts, also where they hold an amount.
use eclipse_erp.Base.{ℕ, Bool, ◌&&◌, Option, List, leb, all}
use eclipse_erp.Text.{Text, non_empty_string, currency_code}
use eclipse_erp.Kernel.Amount.{is_minor_amount}

pub data Constraint : Type 0 where
  unconstrained : Constraint
  debits_must_not_exceed_credits : Constraint
  credits_must_not_exceed_debits : Constraint

pub data RejectionReason : Type 0 where
  invalid_account invalid_amount unbalanced constraint_violation : RejectionReason

pub data RecoveryReason : Type 0 where
  mapping_mismatch conflicting_replay : RecoveryReason
  reconciliation_required engine_routing_changed : RecoveryReason

pub data UnknownReason : Type 0 where
  unavailable response_lost not_found : UnknownReason

pub record CreateExecutionAccountInput : Type 0 where
  pub tenant_id : Text
  pub legal_entity_id : Text
  pub account_id : Text
  pub currency : Text
  pub mapping_version : ℕ
  pub balance_constraint : Option Constraint

pub record JournalLine : Type 0 where
  pub account_id : Text
  pub debit_minor : Text
  pub credit_minor : Text

pub record PostJournalInput : Type 0 where
  pub tenant_id : Text
  pub legal_entity_id : Text
  pub operation_id : Text
  pub journal_id : Text
  pub reference : Text
  pub currency : Text
  pub mapping_version : ℕ
  pub lines : List JournalLine

pub record GetBalanceInput : Type 0 where
  pub tenant_id : Text
  pub legal_entity_id : Text
  pub account_id : Text
  pub currency : Text
  pub mapping_version : ℕ

pub data AccountOutcome : Type 0 where
  accepted : (account_id : Text) (mapping_version : ℕ) (accepted_at : Text) → AccountOutcome
  rejected : (account_id : Text) → RejectionReason → AccountOutcome
  unknown : (account_id : Text) → UnknownReason → AccountOutcome
  manual_recovery : (account_id : Text) → RecoveryReason → AccountOutcome

pub data ExecutionOutcome : Type 0 where
  accepted :
      (operation_id : Text) (mapping_version : ℕ) (accepted_at : Text) (transfer_count : ℕ)
      (transfer_ids : List Text)
      → ExecutionOutcome
  rejected : (operation_id : Text) → RejectionReason → ExecutionOutcome
  unknown : (operation_id : Text) → UnknownReason → ExecutionOutcome
  manual_recovery : (operation_id : Text) → RecoveryReason → ExecutionOutcome

pub data BalanceOutcome : Type 0 where
  available :
      (account_id : Text) (mapping_version : ℕ)
      (debits_pending_minor debits_posted_minor credits_pending_minor credits_posted_minor : Text)
      → BalanceOutcome
  not_found : (account_id : Text) → BalanceOutcome
  unknown : (account_id : Text) → UnknownReason → BalanceOutcome
  manual_recovery : (account_id : Text) → RecoveryReason → BalanceOutcome

-- `Schema.SchemaError`
pub data SchemaError : Type 0 where
  schema_error : SchemaError

-- `PositiveInteger`: a 32-bit integer from 1 up.
unfoldable pub positive_integer : ℕ → Bool
positive_integer n = leb 1 n && leb n 0x7fffffff

unfoldable pub valid_account_input : CreateExecutionAccountInput → Bool
valid_account_input i =
    non_empty_string i.tenant_id
    && (non_empty_string i.legal_entity_id
        && (non_empty_string i.account_id
            && (currency_code i.currency && positive_integer i.mapping_version)))

unfoldable pub valid_line : JournalLine → Bool
valid_line l =
    non_empty_string l.account_id
    && (is_minor_amount l.debit_minor && is_minor_amount l.credit_minor)

unfoldable pub valid_journal_input : PostJournalInput → Bool
unfolding valid_line
valid_journal_input i =
    non_empty_string i.tenant_id
    && (non_empty_string i.legal_entity_id
        && (non_empty_string i.operation_id
            && (non_empty_string i.journal_id
                && (non_empty_string i.reference
                    && (currency_code i.currency
                        && (positive_integer i.mapping_version && all valid_line i.lines))))))

unfoldable pub valid_balance_input : GetBalanceInput → Bool
valid_balance_input i =
    non_empty_string i.tenant_id
    && (non_empty_string i.legal_entity_id
        && (non_empty_string i.account_id
            && (currency_code i.currency && positive_integer i.mapping_version)))
