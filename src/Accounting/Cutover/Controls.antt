-- ===== src/Accounting/Cutover/Controls.antt =====
-- The controls of the change of the financial engine: packages/accounting/src/service.ts.
use eclipse_erp.Base.{
  ℕ, ◌≡◌, inl, inr, Bool, true, false, not, ◌&&◌, ◌||◌, Option, none, some, arith, ◌==◌, all,
  Option-cases,
}
use eclipse_erp.Text.{Text, text_eq, text_eq_refl}
use eclipse_erp.Dict.{Dict, lookup, all-insert, lookup-all}
use eclipse_erp.Messaging.Events.{Platform}
use eclipse_erp.Accounting.Evidence.{Keys}
use eclipse_erp.Accounting.Data.{
  CutoverStatus, preparing, approved, activating, on_tigerbeetle, Control, CutoverInput,
  RecordArtifactInput, ApproveInput, ConfigureInput, World,
}
use eclipse_erp.Accounting.Setup.{
  colon, new_control, test_control, store_configuration, configure_legal_entity, prepare_cutover,
  activate_cutover,
}
use eclipse_erp.Accounting.Cutover.{
  approved_control, store_artifact, record_artifact, approve_prepared, approve_control,
  approve_cutover,
}

abbrev is_given : Option Text → Bool
is_given none = false
is_given (some s) = true

abbrev pub needs_approval : CutoverStatus → Bool
needs_approval approved = true
needs_approval activating = true
needs_approval on_tigerbeetle = true
needs_approval _ = false

abbrev pub is_activated : CutoverStatus → Bool
is_activated on_tigerbeetle = true
is_activated _ = false

-- The two checks of `FinancialCutoverControl` that relate its fields, on the metadata of an approval
-- and of an activation. The refinements of single fields (a text that is not empty, a UUID, a time)
-- are not part of it.
unfoldable pub valid_control : Control → Bool
valid_control c =
    (not (needs_approval c.status)
      || (c.opening_balance_verified
          && (c.historical_boundary_verified
              && (c.reconciliation_healthy
                  && (c.backup_recovery_verified
                      && (c.unresolved_accepted_operations == 0
                          && (is_given c.cutover_watermark
                              && (is_given c.verification_hash
                                  && (is_given c.evidence_artifact_id
                                      && (is_given c.approved_by && is_given c.approved_at))))))))))
    && (not (is_activated c.status) || (is_given c.activated_by && is_given c.activated_at))

-- A control that is valid, without unresolved operations, under its tenant and legal entity.
abbrev pub is_controlled : Text × Control → Bool
is_controlled (key, c) =
    text_eq key (colon c.tenant_id c.legal_entity_id)
    && (c.unresolved_accepted_operations == 0 && valid_control c)

test_control-all :
    (tenant entity : Text) (m : Dict Control)
    → all is_controlled m ≡ true
    → all is_controlled (test_control tenant entity m).1 ≡ true
unfolding test_control valid_control
test_control-all tenant entity m h = elim (Option-cases (lookup (colon tenant entity) m)) [
  | inr (c, found) ↦ ground (arith, h, found)
  | inl missing ↦
      let made =
        all-insert is_controlled (colon tenant entity) (new_control tenant entity) m
          (ground (arith, text_eq_refl (colon tenant entity))) h in
      ground (arith, missing, made)
]

test_control-valid :
    (tenant entity : Text) (m : Dict Control)
    → all is_controlled m ≡ true
    → is_controlled (colon tenant entity, (test_control tenant entity m).0) ≡ true
unfolding test_control valid_control
test_control-valid tenant entity m h = elim (Option-cases (lookup (colon tenant entity) m)) [
  | inr (c, found) ↦
      ground (arith, found, lookup-all is_controlled (colon tenant entity) c m h found)
  | inl missing ↦ ground (arith, missing, text_eq_refl (colon tenant entity))
]

module _ {Json : Type 0} where
  abbrev pub IsControlled : World Json → Type 0
  IsControlled w = all is_controlled w.controls ≡ true

  configure-IsControlled :
      (i : ConfigureInput) (w : World Json)
      → IsControlled w
      → IsControlled (configure_legal_entity i w).1
  unfolding configure_legal_entity store_configuration
  configure-IsControlled i w h =
      ground (arith, h, test_control-all i.tenant_id i.legal_entity_id w.controls h)

  prepare-IsControlled :
      (is_uuid : Text → Bool) (i : CutoverInput) (w : World Json)
      → IsControlled w
      → IsControlled (prepare_cutover is_uuid i w).1
  unfolding prepare_cutover valid_control
  prepare-IsControlled is_uuid i w h =
      let key = colon i.tenant_id i.legal_entity_id in
      let made = test_control i.tenant_id i.legal_entity_id w.controls in
      let valid = test_control-valid i.tenant_id i.legal_entity_id w.controls h in
      let kept = test_control-all i.tenant_id i.legal_entity_id w.controls h in
      let prepared : Control = record made.0 { status = preparing } in
      let stored = all-insert is_controlled key prepared made.1 (ground (arith, valid)) kept in
      ground (arith, h, kept, stored)

  activate-IsControlled :
      (is_uuid : Text → Bool) (i : CutoverInput) (w : World Json)
      → IsControlled w
      → IsControlled (activate_cutover is_uuid i w).1
  unfolding activate_cutover
  activate-IsControlled is_uuid i w h = ground (arith, h)

  module _ (p : Platform Json) (k : Keys) where
    record-IsControlled :
        (i : RecordArtifactInput) (id : Text) (now : ℕ) (w : World Json)
        → IsControlled w
        → IsControlled (record_artifact p k i id now w).1
    unfolding record_artifact store_artifact
    record-IsControlled i id now w h = ground (arith, h)

    approve_prepared-IsControlled :
        (i : ApproveInput) (current : Control) (now : ℕ) (w : World Json)
        → IsControlled w
        → lookup (colon i.tenant_id i.legal_entity_id) w.controls ≡ some current
        → IsControlled (approve_prepared p k i current now w).1
    unfolding approve_prepared valid_control
    approve_prepared-IsControlled i current now w h found =
        let key = colon i.tenant_id i.legal_entity_id in
        let old = lookup-all is_controlled key current w.controls h found in
        elim (Option-cases (lookup i.evidence_artifact_id w.artifacts)) [
          | inl missing ↦ ground (arith, h, missing)
          | inr (a, there) ↦
              let done = approved_control p i a now current in
              let kept = all-insert is_controlled key done w.controls (ground (arith, old)) h in
              ground (arith, h, there, kept)
        ]

    approve-IsControlled :
        (i : ApproveInput) (now : ℕ) (w : World Json)
        → IsControlled w
        → IsControlled (approve_cutover p k i now w).1
    unfolding approve_cutover approve_control
    approve-IsControlled i now w h =
        elim (Option-cases (lookup (colon i.tenant_id i.legal_entity_id) w.controls)) [
          | inl missing ↦ ground (arith, h, missing)
          | inr (current, found) ↦
              ground (arith, h, found, approve_prepared-IsControlled i current now w h found)
        ]

    -- Where every control stands under its tenant and legal entity, has no unresolved operations and
    -- passes the two checks of its schema that relate its fields - from its approval on it is verified
    -- in all four respects and names its watermark, its evidence with its hash, and who approved it
    -- and when, and once it is activated by whom and when - this is so
    -- after configuring a legal entity, preparing the change of its engine, recording evidence,
    -- approving the change and activating it, whether they succeed or fail.
    pub operations-IsControlled :
        (w : World Json)
        → IsControlled w
        → ((i : ConfigureInput) → IsControlled (configure_legal_entity i w).1)
          × ((i : CutoverInput) → IsControlled (prepare_cutover p.is_uuid i w).1)
          × ((i : RecordArtifactInput) (id : Text) (now : ℕ)
              → IsControlled (record_artifact p k i id now w).1)
          × ((i : ApproveInput) (now : ℕ) → IsControlled (approve_cutover p k i now w).1)
          × ((i : CutoverInput) → IsControlled (activate_cutover p.is_uuid i w).1)
    operations-IsControlled w h = (
      λ i. configure-IsControlled i w h,
      λ i. prepare-IsControlled p.is_uuid i w h,
      λ i id now. record-IsControlled i id now w h,
      λ i now. approve-IsControlled i now w h,
      λ i. activate-IsControlled p.is_uuid i w h,
    )
