-- ===== src/Accounting/Data.antt =====
-- The data of packages/accounting/src/service.ts: its records, its inputs with the checks of their
-- schemas, the maps of the in-memory service and the failures of its operations.
use eclipse_erp.Base.{
  ℕ, Bool, true, false, not, ◌&&◌, ◌||◌, Option, none, some, List, [], ◌∷◌, leb, ltb, ◌==◌, all,
}
use eclipse_erp.Base.Effect.{ok, err}
use eclipse_erp.Text.{Text, codes, text_eq, non_empty_string}
use eclipse_erp.Text.Order.{text_le}
use eclipse_erp.Dict.{Dict}
use eclipse_erp.Kernel.Amount.{is_major_amount, require_exact_major_to_minor}
use eclipse_erp.Messaging.Events.{after_template, is_done}
use eclipse_erp.Messaging.Service as Outbox
use eclipse_erp.Authorization.Service as Grants
use eclipse_erp.Authorization.Service.{Principal}
use eclipse_erp.Sales.Service as Sales
use eclipse_erp.Accounting.Evidence.{Evidence, Artifact}

pub data AccountType : Type 0 where
  asset liability equity revenue expense : AccountType

pub record Account : Type 0 where
  pub id : Text
  pub tenant_id : Text
  pub code : Text
  pub name : Text
  pub type : AccountType

-- `FinancialEngine`
pub data Engine : Type 0 where
  postgresql tigerbeetle : Engine

-- `AccountingConfiguration`; the schema allows one precision, 2.
pub record Configuration : Type 0 where
  pub tenant_id : Text
  pub legal_entity_id : Text
  pub base_currency : Text
  pub fiscal_year_start_month : ℕ
  pub posting_enabled : Bool
  pub financial_engine : Engine

pub record JournalLine : Type 0 where
  pub account_id : Text
  pub debit : Text
  pub credit : Text

pub data JournalStatus : Type 0 where
  posted reversed : JournalStatus

pub record JournalEntry : Type 0 where
  pub id : Text
  pub tenant_id : Text
  pub reference : Text
  pub status : JournalStatus
  pub posted_at : Text
  pub reverses_entry_id : Option Text
  pub lines : List JournalLine

pub data PeriodStatus : Type 0 where
  is_open is_closed : PeriodStatus

-- `AccountingPeriod`
pub record Period : Type 0 where
  pub id : Text
  pub tenant_id : Text
  pub legal_entity_id : Text
  pub starts_on : Text
  pub ends_on : Text
  pub status : PeriodStatus

-- `RevenuePostingProfile`
pub record Profile : Type 0 where
  pub tenant_id : Text
  pub legal_entity_id : Text
  pub receivable_account_id : Text
  pub revenue_account_id : Text

pub data CutoverStatus : Type 0 where
  on_postgresql preparing verification_pending approved activating on_tigerbeetle : CutoverStatus

-- `FinancialCutoverControl`; its source and target engines are constants.
pub record Control : Type 0 where
  pub tenant_id : Text
  pub legal_entity_id : Text
  pub status : CutoverStatus
  pub cutover_watermark : Option Text
  pub verification_hash : Option Text
  pub opening_balance_verified : Bool
  pub historical_boundary_verified : Bool
  pub reconciliation_healthy : Bool
  pub backup_recovery_verified : Bool
  pub evidence_artifact_id : Option Text
  pub unresolved_accepted_operations : ℕ
  pub approved_by : Option Text
  pub approved_at : Option Text
  pub activated_by : Option Text
  pub activated_at : Option Text
  pub last_error : Option Text

-- `PrepareTigerBeetleCutoverInput` and `ActivateTigerBeetleCutoverInput`
pub record CutoverInput : Type 0 where
  pub principal : Principal
  pub tenant_id : Text
  pub legal_entity_id : Text

pub record RecordArtifactInput : Type 0 where
  pub principal : Principal
  pub tenant_id : Text
  pub evidence : Evidence

-- `ApproveTigerBeetleCutoverInput`
pub record ApproveInput : Type 0 where
  pub principal : Principal
  pub tenant_id : Text
  pub legal_entity_id : Text
  pub evidence_artifact_id : Text

pub record ConfigureInput : Type 0 where
  pub principal : Principal
  pub tenant_id : Text
  pub legal_entity_id : Text
  pub base_currency : Text
  pub fiscal_year_start_month : ℕ
  pub posting_enabled : Bool
  pub financial_engine : Option Engine

pub record CreateAccountInput : Type 0 where
  pub principal : Principal
  pub tenant_id : Text
  pub code : Text
  pub name : Text
  pub type : AccountType

pub record ProfileInput : Type 0 where
  pub principal : Principal
  pub tenant_id : Text
  pub legal_entity_id : Text
  pub receivable_account_id : Text
  pub revenue_account_id : Text

pub record OpenPeriodInput : Type 0 where
  pub principal : Principal
  pub tenant_id : Text
  pub legal_entity_id : Text
  pub starts_on : Text
  pub ends_on : Text

pub record ClosePeriodInput : Type 0 where
  pub principal : Principal
  pub tenant_id : Text
  pub legal_entity_id : Text
  pub period_id : Text

pub record PostJournalInput : Type 0 where
  pub principal : Principal
  pub tenant_id : Text
  pub reference : Text
  pub lines : List JournalLine

pub record PostRevenueInput : Type 0 where
  pub principal : Principal
  pub tenant_id : Text
  pub legal_entity_id : Text
  pub order_id : Text
  pub amount : Option Text
  pub command_id : Text
  pub correlation_id : Text
  pub causation_id : Option Text

pub record ReverseRevenueInput : Type 0 where
  pub principal : Principal
  pub tenant_id : Text
  pub legal_entity_id : Text
  pub order_id : Text

-- The state of the in-memory service with that of the sales service, which it calls, and of the
-- authorization and messaging services that both call.
pub record World (Json : Type 0) : Type 0 where
  pub sales : Sales.World Json
  pub configurations : Dict Configuration
  pub profiles : Dict Profile
  pub periods : Dict Period
  pub accounts : Dict Account
  pub journals : Dict JournalEntry
  pub controls : Dict Control
  pub artifacts : Dict Artifact

pub data BlockedReason : Type 0 where
  activation_gates_pending not_prepared verification_mismatch ledger_not_configured : BlockedReason

-- The reasons of `FinancialVerificationArtifactInvalid`
pub data InvalidReason : Type 0 where
  scope_mismatch incomplete mismatch stale unsigned : InvalidReason

pub data Failure : Type 0 where
  schema_error : Failure
  not_authorized : Grants.Failure → Failure
  no_order_total : Sales.Failure → Failure
  not_appended : Outbox.Failure → Failure
  cutover_blocked : (tenant_id legal_entity_id : Text) → BlockedReason → Failure
  artifact_not_found : (tenant_id artifact_id : Text) → Failure
  artifact_invalid : (tenant_id legal_entity_id : Text) → InvalidReason → Failure
  engine_activated legal_entity_not_found : (tenant_id legal_entity_id : Text) → Failure
  configuration_already_exists : (tenant_id legal_entity_id : Text) → Failure
  account_already_exists : (tenant_id code : Text) → Failure
  account_not_found : (tenant_id : Text) → Failure
  invalid_profile : (tenant_id legal_entity_id : Text) → Failure
  profile_already_exists : (tenant_id legal_entity_id : Text) → Failure
  profile_not_found : (tenant_id legal_entity_id : Text) → Failure
  period_overlap : (tenant_id legal_entity_id : Text) → Failure
  period_not_found : (tenant_id legal_entity_id period_id : Text) → Failure
  period_not_open : (tenant_id legal_entity_id : Text) → Failure
  journal_conflict : (tenant_id reference : Text) → Failure
  revenue_not_found : (tenant_id legal_entity_id order_id : Text) → Failure
  invalid_line : (index : ℕ) → Failure
  unbalanced : (debit credit : Text) → Failure

-- `toMinor`. It throws where the amount is no amount, which the schema of a line excludes.
unfoldable pub to_minor : Text → ℕ
to_minor s = elim (require_exact_major_to_minor s 2) [ ok n ↦ n | err e ↦ 0 ]

-- `JournalLine`: an account's identifier and two amounts, of which exactly one is positive.
unfoldable pub valid_line : (is_uuid : Text → Bool) → JournalLine → Bool
valid_line is_uuid l =
    let debit = to_minor l.debit in
    let credit = to_minor l.credit in
    is_uuid l.account_id
    && (is_major_amount l.debit
        && (is_major_amount l.credit
            && ((ltb 0 debit && credit == 0) || (ltb 0 credit && debit == 0))))

unfoldable pub valid_post_journal : (is_uuid : Text → Bool) → PostJournalInput → Bool
valid_post_journal is_uuid i = non_empty_string i.reference && all (valid_line is_uuid) i.lines

-- `CurrencyCode`: `/^[A-Za-z]{3}$/`
abbrev is_letter : ℕ → Bool
is_letter c = (leb b'A' c && leb c b'Z') || (leb b'a' c && leb c b'z')

unfoldable pub any_currency_code : Text → Bool
any_currency_code (a ∷ b ∷ c ∷ []) = is_letter a && (is_letter b && is_letter c)
any_currency_code _ = false

-- `IsoDate`: `/^\d{4}-\d{2}-\d{2}$/`
unfoldable pub iso_date : Text → Bool
iso_date s = is_done (after_template (codes "dddd-dd-dd") s)

unfoldable pub valid_configure : ConfigureInput → Bool
valid_configure i =
    any_currency_code i.base_currency
    && (leb 1 i.fiscal_year_start_month && leb i.fiscal_year_start_month 12)

unfoldable pub valid_open_period : OpenPeriodInput → Bool
valid_open_period i = iso_date i.starts_on && (iso_date i.ends_on && text_le i.starts_on i.ends_on)

unfoldable pub valid_profile : ProfileInput → Bool
valid_profile i = not (text_eq i.receivable_account_id i.revenue_account_id)

abbrev pub optional : (Text → Bool) → Option Text → Bool
optional p none = true
optional p (some s) = p s
