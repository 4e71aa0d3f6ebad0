-- ===== src/Accounting/Cutover.antt =====
-- `makeAccountingTestLayer` of packages/accounting/src/service.ts: recording the signed evidence for a
-- change of the financial engine, and approving the change by it.
pub mod Signed
pub mod Approved
pub mod Recorded
pub mod Controls
use eclipse_erp.Base.{
  ℕ, Bool, true, false, not, ◌&&◌, ◌||◌, Option, none, some, List, [], ◌∷◌, ltb, ◌==◌,
  if◌then◌else◌,
}
use eclipse_erp.Base.Effect.{Result, ok, err}
use eclipse_erp.Text.{Text, codes, text_eq}
use eclipse_erp.Dict.{Dict, lookup, insert}
use eclipse_erp.Messaging.Events.{Platform}
use eclipse_erp.Accounting.Evidence.{
  EvidenceKind, cutover_rehearsal, Evidence, valid_evidence, ArtifactStatus, verified, rejected,
  Artifact, Signer, Keys, hash_of,
}
use eclipse_erp.Accounting.Data.{
  Configuration, CutoverStatus, on_postgresql, preparing, approved, on_tigerbeetle, Control,
  RecordArtifactInput, ApproveInput, World, Failure, schema_error, cutover_blocked, not_prepared,
  verification_mismatch, artifact_not_found, artifact_invalid, InvalidReason, scope_mismatch,
  incomplete, mismatch, stale, unsigned,
}
use eclipse_erp.Accounting.Setup.{colon, permit}

-- `configuration?.baseCurrency`
abbrev pub currency_is : Text → Option Configuration → Bool
currency_is currency none = false
currency_is currency (some c) = text_eq c.base_currency currency

abbrev pub is_rehearsal : EvidenceKind → Bool
is_rehearsal cutover_rehearsal = true
is_rehearsal _ = false

abbrev pub is_verified : ArtifactStatus → Bool
is_verified verified = true
is_verified rejected = false

abbrev pub text_is : Option Text → Text → Bool
text_is none s = false
text_is (some t) s = text_eq t s

-- The artifact that a signature makes of the evidence.
abbrev pub new_artifact :
    {Json : Type 0}
    → Platform Json
    → Keys
    → RecordArtifactInput
    → (key_id : Text) → (signed : List ℕ) → (id : Text) → (now : ℕ) → Artifact
new_artifact p k i key_id signed id now = record {
  id = id;
  tenant_id = i.tenant_id;
  legal_entity_id = i.evidence.legal_entity_id;
  artifact_hash = hash_of k i.evidence;
  signing_key_id = key_id;
  signature = k.encode signed;
  status = if i.evidence.mismatch_count == 0 then verified else rejected;
  evidence = i.evidence;
  producer_principal_id = i.principal.user_account_id;
  created_at = p.iso_string now;
}

-- The artifact fits the legal entity and its currency.
abbrev pub in_scope : ApproveInput → Option Configuration → Artifact → Bool
in_scope i configuration a =
    text_eq a.legal_entity_id i.legal_entity_id && currency_is a.evidence.currency configuration

-- The artifact is the verified one of a rehearsal without mismatches.
abbrev pub is_passed : Artifact → Bool
is_passed a =
    is_verified a.status && (is_rehearsal a.evidence.kind && a.evidence.mismatch_count == 0)

-- The failure of an artifact that is out of scope or not passed.
abbrev pub reason_of : ApproveInput → Option Configuration → Artifact → InvalidReason
reason_of i configuration a =
    if not (in_scope i configuration a)
    then scope_mismatch
    else if ltb 0 a.evidence.mismatch_count
    then mismatch
    else incomplete

-- Whether the signature holds, by the keyring where there is one and by the signer of its key
-- otherwise.
unfoldable pub check_signature : Keys → Artifact → Result InvalidReason Bool
check_signature k a = elim (k.decode a.signature) [
  | none ↦ err unsigned
  | some signature ↦ elim k.keyring [
    | some verify ↦ elim (verify a.signing_key_id (k.bytes a.artifact_hash) signature) [
      | none ↦ err stale
      | some valid ↦ ok valid
    ]
    | none ↦ elim k.signer [
      | none ↦ err unsigned
      | some s ↦ elim (s.verify (k.bytes a.artifact_hash) signature) [
        | none ↦ err unsigned
        | some valid ↦ ok valid
      ]
    ]
  ]
]

-- Why no service can check the artifact's signature, where none can.
unfoldable pub no_verifier : Keys → Artifact → Option InvalidReason
no_verifier k a = elim k.keyring [
  | some verify ↦ none
  | none ↦ elim k.signer [
    | none ↦ some unsigned
    | some s ↦ if text_eq a.signing_key_id s.key_id then none else some stale
  ]
]

-- What is wrong with an artifact, in the order of the tests.
unfoldable pub refusal :
    Keys → ApproveInput → Option Configuration → Artifact → Option InvalidReason
refusal k i configuration a =
    if not (in_scope i configuration a && is_passed a)
    then some (reason_of i configuration a)
    else elim (no_verifier k a) [
      | some reason ↦ some reason
      | none ↦
          if not (text_eq (hash_of k a.evidence) a.artifact_hash)
          then some mismatch
          else elim (check_signature k a) [
            | err reason ↦ some reason
            | ok valid ↦ if valid then none else some unsigned
          ]
    ]

abbrev pub approved_control :
    {Json : Type 0} → Platform Json → ApproveInput → Artifact → (now : ℕ) → Control → Control
approved_control p i a now current = record current {
  status = approved;
  cutover_watermark = some a.evidence.target_watermark;
  verification_hash = some a.artifact_hash;
  opening_balance_verified = true;
  historical_boundary_verified = true;
  reconciliation_healthy = true;
  backup_recovery_verified = true;
  evidence_artifact_id = some a.id;
  approved_by = some i.principal.user_account_id;
  approved_at = some (p.iso_string now);
}

module _ {Json : Type 0} (p : Platform Json) (k : Keys) where
  -- From the authorization on.
  unfoldable pub store_artifact :
      RecordArtifactInput
      → (id : Text) → (now : ℕ) → World Json
      → Result Failure Artifact × World Json
  store_artifact i id now w =
      let entity = i.evidence.legal_entity_id in
      if not (text_eq i.evidence.tenant_id i.tenant_id)
        || not
            (currency_is i.evidence.currency (lookup (colon i.tenant_id entity) w.configurations))
      then (err (artifact_invalid i.tenant_id entity scope_mismatch), w)
      else elim k.signer [
        | none ↦ (err (artifact_invalid i.tenant_id entity unsigned), w)
        | some s ↦ elim (s.sign (k.bytes (hash_of k i.evidence))) [
          | none ↦ (err (artifact_invalid i.tenant_id entity unsigned), w)
          | some signed ↦
              let artifact = new_artifact p k i s.key_id signed id now in
              (ok artifact, record w { artifacts = insert id artifact w.artifacts })
        ]
      ]

  unfoldable pub record_artifact :
      RecordArtifactInput
      → (id : Text) → (now : ℕ) → World Json
      → Result Failure Artifact × World Json
  record_artifact i id now w =
      if not (valid_evidence p i.evidence)
      then (err schema_error, w)
      else elim (permit i.principal i.tenant_id (codes "accounting.financial_evidence.record") w) [
        | err e ↦ (err e, w)
        | ok d ↦ store_artifact i id now w
      ]

  -- A control whose change is prepared but not approved.
  unfoldable pub approve_prepared :
      ApproveInput → Control → (now : ℕ) → World Json → Result Failure Control × World Json
  approve_prepared i current now w =
      let key = colon i.tenant_id i.legal_entity_id in
      elim (lookup i.evidence_artifact_id w.artifacts) [
        | none ↦ (err (artifact_not_found i.tenant_id i.evidence_artifact_id), w)
        | some a ↦ elim (refusal k i (lookup key w.configurations) a) [
          | some reason ↦ (err (artifact_invalid i.tenant_id i.legal_entity_id reason), w)
          | none ↦
              let done = approved_control p i a now current in
              (ok done, record w { controls = insert key done w.controls })
        ]
      ]

  -- A control that is there, by its status.
  unfoldable pub approve_control :
      ApproveInput → Control → (now : ℕ) → World Json → Result Failure Control × World Json
  approve_control i current now w = elim current.status [
    | on_postgresql ↦ (err (cutover_blocked i.tenant_id i.legal_entity_id not_prepared), w)
    | on_tigerbeetle ↦ (ok current, w)
    | approved ↦
        if text_is current.evidence_artifact_id i.evidence_artifact_id
        then (ok current, w)
        else (err (cutover_blocked i.tenant_id i.legal_entity_id verification_mismatch), w)
    | _ ↦ approve_prepared i current now w
  ]

  unfoldable pub approve_cutover :
      ApproveInput → (now : ℕ) → World Json → Result Failure Control × World Json
  approve_cutover i now w =
      if not (p.is_uuid i.legal_entity_id && p.is_uuid i.evidence_artifact_id)
      then (err schema_error, w)
      else elim (permit i.principal i.tenant_id (codes "accounting.financial_engine.activate") w) [
        | err e ↦ (err e, w)
        | ok d ↦ elim (lookup (colon i.tenant_id i.legal_entity_id) w.controls) [
          | none ↦ (err (cutover_blocked i.tenant_id i.legal_entity_id not_prepared), w)
          | some current ↦ approve_control i current now w
        ]
      ]
