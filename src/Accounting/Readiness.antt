-- ===== src/Accounting/Readiness.antt =====
-- packages/accounting/src/financial-readiness.ts: the comparison of two snapshots of financial facts,
-- and the evidence that is built of it.
pub mod Facts
pub mod Agree
pub mod Opening
use eclipse_erp.Base.{
  ℕ, ◌+◌, Bool, true, false, not, ◌&&◌, Option, none, some, List, [], ◌∷◌, ◌++◌, map, ◌==◌, length,
  if◌then◌else◌,
}
use eclipse_erp.Text.{Text, codes, text_eq}
use eclipse_erp.Text.Decimal.{value, print}
use eclipse_erp.Dict.{Dict, lookup, insert, contains, merge}
use eclipse_erp.Accounting.Evidence.{EvidenceKind, Completeness, Evidence}
use eclipse_erp.Accounting.Setup.{colon}
use eclipse_erp.Accounting.Journals.{texts_eq}

-- The statuses of an operation, of a transfer and of a journal are their names.
pub record OperationFact : Type 0 where
  pub operation_id : Text
  pub status : Text
  pub currency : Text
  pub mapping_version : ℕ

pub record TransferFact : Type 0 where
  pub operation_id : Text
  pub position : ℕ
  pub status : Text
  pub transfer_id : Text
  pub debit_account_id : Text
  pub credit_account_id : Text
  pub amount_minor : Text
  pub currency : Text
  pub mapping_version : ℕ

pub record BalanceFact : Type 0 where
  pub account_id : Text
  pub currency : Text
  pub mapping_version : ℕ
  pub debits_posted_minor : Text
  pub credits_posted_minor : Text

pub record ProjectionFact : Type 0 where
  pub operation_id : Text
  pub journal_status : Text
  pub transfer_ids : List Text

-- `FinancialFactSnapshot`
pub record Snapshot : Type 0 where
  pub operations : List OperationFact
  pub transfers : List TransferFact
  pub balances : List BalanceFact
  pub projections : List ProjectionFact

pub data MismatchKind : Type 0 where
  missing_operation unexpected_operation operation_mismatch : MismatchKind
  missing_transfer unexpected_transfer transfer_mismatch : MismatchKind
  balance_mismatch projection_mismatch : MismatchKind

pub record Mismatch : Type 0 where
  pub kind : MismatchKind
  pub key : Text
  pub detail : Text

-- `sortedJson(a) === sortedJson(b)`, on facts with their fields in the order of the schema
unfoldable pub same_operation : OperationFact → OperationFact → Bool
same_operation a b =
    text_eq a.operation_id b.operation_id
    && (text_eq a.status b.status
        && (text_eq a.currency b.currency && a.mapping_version == b.mapping_version))

unfoldable pub same_fact : TransferFact → TransferFact → Bool
same_fact a b =
    text_eq a.operation_id b.operation_id
    && (a.position == b.position
        && (text_eq a.status b.status
            && (text_eq a.transfer_id b.transfer_id
                && (text_eq a.debit_account_id b.debit_account_id
                    && (text_eq a.credit_account_id b.credit_account_id
                        && (text_eq a.amount_minor b.amount_minor
                            && (text_eq a.currency b.currency
                                && a.mapping_version == b.mapping_version)))))))

unfoldable pub same_balance : BalanceFact → BalanceFact → Bool
same_balance a b =
    text_eq a.account_id b.account_id
    && (text_eq a.currency b.currency
        && (a.mapping_version == b.mapping_version
            && (text_eq a.debits_posted_minor b.debits_posted_minor
                && text_eq a.credits_posted_minor b.credits_posted_minor)))

unfoldable pub same_projection : ProjectionFact → ProjectionFact → Bool
same_projection a b =
    text_eq a.operation_id b.operation_id
    && (text_eq a.journal_status b.journal_status && texts_eq a.transfer_ids b.transfer_ids)

-- `factKey`
abbrev pub transfer_fact_key : TransferFact → Text
transfer_fact_key f = colon f.operation_id (print f.position)

abbrev pub balance_fact_key : BalanceFact → Text
balance_fact_key f = colon f.account_id (colon f.currency (print f.mapping_version))

-- How a comparison reports a key.
pub record Reports : Type 0 where
  pub missing : Text → Mismatch
  pub differs : Text → Mismatch
  pub unexpected : Text → Mismatch

module _ {V : Type 0} where
  -- `new Map(facts.map((fact) => [key, fact]))`
  abbrev pub map_of : (V → Text) → List V → Dict V
  map_of key facts = merge (map (λ f. (key f, f)) facts) []

  -- The loop over the map of the source.
  unfoldable pub source_loop : Reports → (V → V → Bool) → Dict V → Dict V → List Mismatch
  source_loop r same target [] = []
  source_loop r same target ((k, s) ∷ source) =
      let rest = source_loop r same target source in
      elim (lookup k target) [
        | none ↦ r.missing k ∷ rest
        | some t ↦ if same s t then rest else r.differs k ∷ rest
      ]

  -- The loop over the keys of the map of the target.
  unfoldable pub target_loop : Reports → Dict V → Dict V → List Mismatch
  target_loop r source [] = []
  target_loop r source ((k, t) ∷ target) =
      let rest = target_loop r source target in
      if contains k source then rest else r.unexpected k ∷ rest

  unfoldable pub compare_maps : Reports → (V → V → Bool) → Dict V → Dict V → List Mismatch
  compare_maps r same source target =
      source_loop r same target source ++ target_loop r source target

abbrev pub report : MismatchKind → (detail : Text) → Text → Mismatch
report kind detail key = record { kind = kind; key = key; detail = detail }

abbrev pub operation_reports : Reports
operation_reports = record {
  missing = report missing_operation (codes "target");
  differs = report operation_mismatch (codes "metadata");
  unexpected = report unexpected_operation (codes "target");
}

abbrev pub transfer_reports : Reports
transfer_reports = record {
  missing = report missing_transfer (codes "target");
  differs = report transfer_mismatch (codes "identity_or_amount");
  unexpected = report unexpected_transfer (codes "target");
}

abbrev pub balance_reports : Reports
balance_reports = record {
  missing = report balance_mismatch (codes "missing");
  differs = report balance_mismatch (codes "amount");
  unexpected = report balance_mismatch (codes "unexpected");
}

abbrev pub projection_reports : Reports
projection_reports = record {
  missing = report projection_mismatch (codes "missing");
  differs = report projection_mismatch (codes "state");
  unexpected = report projection_mismatch (codes "unexpected");
}

-- The mismatches of `compareFinancialFactSnapshots`; its `ok` says that there are none.
unfoldable pub compare_snapshots : (source target : Snapshot) → List Mismatch
compare_snapshots s t =
    compare_maps operation_reports same_operation
      (map_of (λ (f : OperationFact). f.operation_id) s.operations)
      (map_of (λ (f : OperationFact). f.operation_id) t.operations)
    ++ (compare_maps transfer_reports same_fact (map_of transfer_fact_key s.transfers)
          (map_of transfer_fact_key t.transfers)
        ++ (compare_maps balance_reports same_balance (map_of balance_fact_key s.balances)
              (map_of balance_fact_key t.balances)
            ++ compare_maps projection_reports same_projection
                (map_of (λ (f : ProjectionFact). f.operation_id) s.projections)
                (map_of (λ (f : ProjectionFact). f.operation_id) t.projections)))

-- `FinancialVerificationEvidenceSource`
pub record EvidenceSource : Type 0 where
  pub tenant_id : Text
  pub legal_entity_id : Text
  pub kind : EvidenceKind
  pub completeness : Completeness
  pub scope : Text
  pub mapping_version : ℕ
  pub currency : Text
  pub source_watermark : Text
  pub target_watermark : Text
  pub source_snapshot_ref : Text
  pub target_snapshot_ref : Text
  pub source : Snapshot
  pub target : Snapshot
  pub started_at : Text
  pub completed_at : Text

-- `hashJson` of the four lists, and the upper case of a text
pub record Digests : Type 0 where
  pub of_operations : List OperationFact → Text
  pub of_balances : List BalanceFact → Text
  pub of_transfers : List TransferFact → Text
  pub of_projections : List ProjectionFact → Text
  pub upper : Text → Text

-- The sum in `sumBalance`; the schema excludes what is no number.
unfoldable pub sum_minor : (BalanceFact → Text) → List BalanceFact → ℕ
sum_minor field [] = 0
sum_minor field (f ∷ fs) = value (field f) + sum_minor field fs

abbrev pub sum_balance : (BalanceFact → Text) → List BalanceFact → Text
sum_balance field facts = print (sum_minor field facts)

abbrev pub debits_of : BalanceFact → Text
debits_of f = f.debits_posted_minor

abbrev pub credits_of : BalanceFact → Text
credits_of f = f.credits_posted_minor

unfoldable pub build_evidence : Digests → EvidenceSource → Evidence
build_evidence d i = record {
  tenant_id = i.tenant_id;
  legal_entity_id = i.legal_entity_id;
  kind = i.kind;
  completeness = i.completeness;
  scope = i.scope;
  schema_version = 1;
  mapping_version = i.mapping_version;
  currency = d.upper i.currency;
  source_watermark = i.source_watermark;
  target_watermark = i.target_watermark;
  source_snapshot_ref = i.source_snapshot_ref;
  target_snapshot_ref = i.target_snapshot_ref;
  operation_set_hash = d.of_operations i.source.operations;
  account_balance_hash = d.of_balances i.source.balances;
  transfer_set_hash = d.of_transfers i.source.transfers;
  projection_hash = some (d.of_projections i.source.projections);
  source_debit_minor = sum_balance debits_of i.source.balances;
  source_credit_minor = sum_balance credits_of i.source.balances;
  target_debit_minor = sum_balance debits_of i.target.balances;
  target_credit_minor = sum_balance credits_of i.target.balances;
  account_count = length i.source.balances;
  operation_count = length i.source.operations;
  transfer_count = length i.source.transfers;
  mismatch_count = length (compare_snapshots i.source i.target);
  started_at = i.started_at;
  completed_at = i.completed_at;
}
