-- ===== src/Accounting/Evidence.antt =====
-- The evidence for a change of the financial engine: `FinancialVerificationEvidence` of
-- packages/accounting/src/financial-readiness.ts and the artifact of
-- packages/accounting/src/service.ts that signs it.
use eclipse_erp.Base.{
  ℕ, Bool, true, false, ◌&&◌, Option, none, some, List, [], ◌∷◌, leb, ltb, ◌==◌, ◌||◌, all, length,
}
use eclipse_erp.Text.{Text, codes, non_empty_string, currency_code}
use eclipse_erp.Kernel.Amount.{is_minor_amount}
use eclipse_erp.Messaging.Events.{Platform, instant_string}

pub data EvidenceKind : Type 0 where
  opening_balance historical_boundary backup_restore failure_matrix projection_rebuild :
      EvidenceKind
  cutover_rehearsal observability : EvidenceKind

pub data Completeness : Type 0 where
  bounded full fenced : Completeness

pub record Evidence : Type 0 where
  pub tenant_id : Text
  pub legal_entity_id : Text
  pub kind : EvidenceKind
  pub completeness : Completeness
  pub scope : Text
  pub schema_version : ℕ
  pub mapping_version : ℕ
  pub currency : Text
  pub source_watermark : Text
  pub target_watermark : Text
  pub source_snapshot_ref : Text
  pub target_snapshot_ref : Text
  pub operation_set_hash : Text
  pub account_balance_hash : Text
  pub transfer_set_hash : Text
  pub projection_hash : Option Text
  pub source_debit_minor : Text
  pub source_credit_minor : Text
  pub target_debit_minor : Text
  pub target_credit_minor : Text
  pub account_count : ℕ
  pub operation_count : ℕ
  pub transfer_count : ℕ
  pub mismatch_count : ℕ
  pub started_at : Text
  pub completed_at : Text

-- `Hash`: `/^[0-9a-f]{64}$/`
abbrev is_hex : ℕ → Bool
is_hex c = (leb b'0' c && leb c b'9') || (leb b'a' c && leb c b'f')

unfoldable pub is_hash : Text → Bool
is_hash s = length s == 64 && all is_hex s

abbrev hash_or_null : Option Text → Bool
hash_or_null none = true
hash_or_null (some s) = is_hash s

-- `Count` and `PositiveSmallInt`
abbrev is_count : ℕ → Bool
is_count n = leb n 2147483647

abbrev is_small : ℕ → Bool
is_small n = ltb 0 n && leb n 32767

-- `>=` on times, where an invalid date is NaN
abbrev not_before : Option ℕ → Option ℕ → Bool
not_before (some m) (some n) = leb n m
not_before _ _ = false

unfoldable pub valid_evidence : {Json : Type 0} → Platform Json → Evidence → Bool
valid_evidence p e =
    all p.is_uuid (e.tenant_id ∷ (e.legal_entity_id ∷ []))
    && (all non_empty_string (
          e.scope
          ∷ (e.source_watermark
              ∷ (e.target_watermark ∷ (e.source_snapshot_ref ∷ (e.target_snapshot_ref ∷ [])))))
        && (all is_small (e.schema_version ∷ (e.mapping_version ∷ []))
            && (currency_code e.currency
                && (all is_hash
                      (e.operation_set_hash ∷ (e.account_balance_hash ∷ (e.transfer_set_hash ∷ [])))
                    && (hash_or_null e.projection_hash
                        && (all is_minor_amount (
                              e.source_debit_minor
                              ∷ (e.source_credit_minor
                                  ∷ (e.target_debit_minor ∷ (e.target_credit_minor ∷ []))))
                            && (all is_count (
                                  e.account_count
                                  ∷ (e.operation_count
                                      ∷ (e.transfer_count ∷ (e.mismatch_count ∷ []))))
                                && (all (instant_string p) (e.started_at ∷ (e.completed_at ∷ []))
                                    && not_before (p.time_of e.completed_at)
                                        (p.time_of e.started_at)))))))))

pub data ArtifactStatus : Type 0 where
  verified rejected : ArtifactStatus

-- `FinancialVerificationArtifact`; the schema allows one algorithm, Ed25519.
pub record Artifact : Type 0 where
  pub id : Text
  pub tenant_id : Text
  pub legal_entity_id : Text
  pub artifact_hash : Text
  pub signing_key_id : Text
  pub signature : Text
  pub status : ArtifactStatus
  pub evidence : Evidence
  pub producer_principal_id : Text
  pub created_at : Text

-- `FinancialVerificationVerifierService` and `FinancialVerificationSignerService`: what they verify
-- and sign is bytes, and they may fail.
pub record Signer : Type 0 where
  pub key_id : Text
  pub verify : (payload signature : List ℕ) → Option Bool
  pub sign : (payload : List ℕ) → Option (List ℕ)

-- A value of a field of the evidence, as `JSON.stringify` takes it.
pub data Field : Type 0 where
  text : Text → Field
  number : ℕ → Field
  null : Field

abbrev text_or_null : Option Text → Field
text_or_null none = null
text_or_null (some s) = text s

unfoldable pub kind_name : EvidenceKind → Text
kind_name opening_balance = codes "opening_balance"
kind_name historical_boundary = codes "historical_boundary"
kind_name backup_restore = codes "backup_restore"
kind_name failure_matrix = codes "failure_matrix"
kind_name projection_rebuild = codes "projection_rebuild"
kind_name cutover_rehearsal = codes "cutover_rehearsal"
kind_name observability = codes "observability"

unfoldable pub completeness_name : Completeness → Text
completeness_name bounded = codes "bounded"
completeness_name full = codes "full"
completeness_name fenced = codes "fenced"

-- `evidenceKeys.map((key) => [key, evidence[key]])`
unfoldable pub canonical : Evidence → List (Text × Field)
canonical e =
    (codes "tenantId", text e.tenant_id)
    ∷ ((codes "legalEntityId", text e.legal_entity_id)
        ∷ ((codes "kind", text (kind_name e.kind))
            ∷ ((codes "completeness", text (completeness_name e.completeness))
                ∷ ((codes "scope", text e.scope)
                    ∷ ((codes "schemaVersion", number e.schema_version)
                        ∷ ((codes "mappingVersion", number e.mapping_version)
                            ∷ ((codes "currency", text e.currency)
                                ∷ ((codes "sourceWatermark", text e.source_watermark)
                                    ∷ ((codes "targetWatermark", text e.target_watermark)
                                        ∷ ((codes "sourceSnapshotRef", text e.source_snapshot_ref)
                                            ∷ ((
                                              codes "targetSnapshotRef",
                                              text e.target_snapshot_ref,
                                            )
                                                ∷ ((
                                                  codes "operationSetHash",
                                                  text e.operation_set_hash,
                                                )
                                                    ∷ ((
                                                      codes "accountBalanceHash",
                                                      text e.account_balance_hash,
                                                    )
                                                        ∷ ((
                                                          codes "transferSetHash",
                                                          text e.transfer_set_hash,
                                                        )
                                                            ∷ ((
                                                            codes "projectionHash",
                                                            text_or_null e.projection_hash,
                                                            )
                                                            ∷ ((
                                                            codes "sourceDebitMinor",
                                                            text e.source_debit_minor,
                                                            )
                                                            ∷ ((
                                                            codes "sourceCreditMinor",
                                                            text e.source_credit_minor,
                                                            )
                                                            ∷ ((
                                                            codes "targetDebitMinor",
                                                            text e.target_debit_minor,
                                                            )
                                                            ∷ ((
                                                            codes "targetCreditMinor",
                                                            text e.target_credit_minor,
                                                            )
                                                            ∷ ((
                                                            codes "accountCount",
                                                            number e.account_count,
                                                            )
                                                            ∷ ((
                                                            codes "operationCount",
                                                            number e.operation_count,
                                                            )
                                                            ∷ ((
                                                            codes "transferCount",
                                                            number e.transfer_count,
                                                            )
                                                            ∷ ((
                                                            codes "mismatchCount",
                                                            number e.mismatch_count,
                                                            )
                                                            ∷ ((
                                                            codes "startedAt",
                                                            text e.started_at,
                                                            )
                                                            ∷ ((
                                                            codes "completedAt",
                                                            text e.completed_at,
                                                            )
                                                            ∷ [])))))))))))))))))))))))))

-- The services for signatures that may be provided, and what the language and its libraries do: the
-- bytes of a text, base64url, and the digest of the evidence's fields, printed as JSON.
pub record Keys : Type 0 where
  pub signer : Option Signer
  pub keyring : Option ((key_id : Text) → (payload signature : List ℕ) → Option Bool)
  pub bytes : Text → List ℕ
  pub encode : List ℕ → Text
  pub decode : Text → Option (List ℕ)
  pub digest : List (Text × Field) → Text

-- `hashFinancialVerificationEvidence`
abbrev pub hash_of : Keys → Evidence → Text
hash_of k e = k.digest (canonical e)
