-- ===== src/Accounting/Cutover/Approved.antt =====
-- What approving the change of the financial engine rests on: packages/accounting/src/service.ts.
use eclipse_erp.Accounting.Cutover.Signed.{IsSigned, check_signature-IsSigned}
use eclipse_erp.Base.{
  ℕ, ◌≡◌, refl, sym, ap, ◌∙◌, subst, inl, inr, Bool, true, false, Option, none, some, arith,
  Option-cases,
}
use eclipse_erp.Base.Effect.{ok, Result-cases}
use eclipse_erp.Text.{Text, text_eq, text_eq→eq}
use eclipse_erp.Dict.{lookup, insert, lookup-insert_self}
use eclipse_erp.Messaging.Events.{Platform}
use eclipse_erp.Accounting.Evidence.{
  Artifact, ArtifactStatus, verified, rejected, EvidenceKind, cutover_rehearsal, opening_balance,
  historical_boundary, backup_restore, failure_matrix, projection_rebuild, observability, Keys,
  canonical, hash_of,
}
use eclipse_erp.Accounting.Data.{
  CutoverStatus, preparing, verification_pending, activating, Control, Configuration, ApproveInput,
  World,
}
use eclipse_erp.Accounting.Setup.{colon, permit}
use eclipse_erp.Accounting.Cutover.{
  in_scope, is_passed, approved_control, check_signature, no_verifier, is_verified, is_rehearsal,
  refusal, approve_prepared, approve_control, approve_cutover,
}

-- A change that is under way and not approved.
abbrev pub is_prepared : CutoverStatus → Bool
is_prepared preparing = true
is_prepared verification_pending = true
is_prepared activating = true
is_prepared _ = false

refusal-none :
    (k : Keys) (i : ApproveInput) (c : Option Configuration) (a : Artifact)
    → refusal k i c a ≡ none
    → (in_scope i c a ≡ true)
      × (is_passed a ≡ true)
      × (text_eq (hash_of k a.evidence) a.artifact_hash ≡ true)
      × (check_signature k a ≡ ok true)
unfolding refusal
refusal-none k i c a h = elim (Result-cases (check_signature k a)) [
  | inr (e, bad) ↦ absurd (ground (arith, h, bad))
  | inl (b, checked) ↦
      (ground (arith, h), ground (arith, h), ground (arith, h), ground (arith, h, checked))
]

refusal-no_verifier :
    (k : Keys) (i : ApproveInput) (c : Option Configuration) (a : Artifact)
    → refusal k i c a ≡ none
    → no_verifier k a ≡ none
unfolding refusal
refusal-no_verifier k i c a h = ground (arith, h)

is_verified-only : (s : ArtifactStatus) → is_verified s ≡ true → s ≡ verified
is_verified-only verified h = refl
is_verified-only rejected h = absurd (ground (arith, h))

is_rehearsal-only : (s : EvidenceKind) → is_rehearsal s ≡ true → s ≡ cutover_rehearsal
is_rehearsal-only cutover_rehearsal h = refl
is_rehearsal-only opening_balance h = absurd (ground (arith, h))
is_rehearsal-only historical_boundary h = absurd (ground (arith, h))
is_rehearsal-only backup_restore h = absurd (ground (arith, h))
is_rehearsal-only failure_matrix h = absurd (ground (arith, h))
is_rehearsal-only projection_rebuild h = absurd (ground (arith, h))
is_rehearsal-only observability h = absurd (ground (arith, h))

in_scope-only :
    (i : ApproveInput) (c : Option Configuration) (a : Artifact)
    → in_scope i c a ≡ true
    → (a.legal_entity_id ≡ i.legal_entity_id)
      × (s : Configuration) × (c ≡ some s)
      × (s.base_currency ≡ a.evidence.currency)
in_scope-only i none a h = absurd (ground (arith, h))
in_scope-only i (some s) a h = (
  text_eq→eq a.legal_entity_id i.legal_entity_id (ground (arith, h)),
  s,
  refl,
  text_eq→eq s.base_currency a.evidence.currency (ground (arith, h)),
)

module _ (k : Keys) where
  refusal-any_tenant :
      (i : ApproveInput) (c : Option Configuration) (a : Artifact) (t : Text)
      → refusal k i c (record a { tenant_id = t }) ≡ refusal k i c a
  unfolding refusal check_signature no_verifier
  refusal-any_tenant i c a t = refl

module _ {Json : Type 0} (p : Platform Json) (k : Keys) where
  approve_cutover-prepared :
      (i : ApproveInput) (now : ℕ) (c current : Control) (w w' : World Json)
      → lookup (colon i.tenant_id i.legal_entity_id) w.controls ≡ some current
      → is_prepared current.status ≡ true
      → approve_cutover p k i now w ≡ (ok c, w')
      → approve_prepared p k i current now w ≡ (ok c, w')
  unfolding approve_cutover approve_control
  approve_cutover-prepared i now c current w w' found prepared h =
      ground (arith, found, prepared, h)

  -- The artifact that an approval rests on.
  abbrev pub IsApprovedBy : ApproveInput → World Json → Artifact → Type 0
  IsApprovedBy i w a =
      (lookup i.evidence_artifact_id w.artifacts ≡ some a)
      × (a.legal_entity_id ≡ i.legal_entity_id)
      × ((s : Configuration) × (lookup (colon i.tenant_id i.legal_entity_id) w.configurations
            ≡ some s)
          × (s.base_currency ≡ a.evidence.currency))
      × (a.status ≡ verified)
      × (a.evidence.kind ≡ cutover_rehearsal)
      × (a.evidence.mismatch_count ≡ 0)
      × (k.digest (canonical a.evidence) ≡ a.artifact_hash)
      × IsSigned k a

  refusal-IsApprovedBy :
      (i : ApproveInput) (w : World Json) (a : Artifact)
      → lookup i.evidence_artifact_id w.artifacts ≡ some a
      → refusal k i (lookup (colon i.tenant_id i.legal_entity_id) w.configurations) a ≡ none
      → IsApprovedBy i w a
  refusal-IsApprovedBy i w a there passed =
      let c = lookup (colon i.tenant_id i.legal_entity_id) w.configurations in
      let (scope, tested, hashed, signed) = refusal-none k i c a passed in
      let (entity, settings, there_too, currency) = in_scope-only i c a scope in
      (
        there,
        entity,
        (settings, there_too, currency),
        is_verified-only a.status (ground (arith, tested)),
        is_rehearsal-only a.evidence.kind (ground (arith, tested)),
        ground (arith, tested),
        text_eq→eq (hash_of k a.evidence) a.artifact_hash hashed,
        check_signature-IsSigned k a signed (refusal-no_verifier k i c a passed),
      )

  -- A change that is under way is approved only by an artifact that is stored under the identifier
  -- of the input, is of the input's legal entity and in the currency that is configured for it, is
  -- verified, is of a rehearsal that counted no mismatch, names the hash of its own evidence, and
  -- bears a signature that decodes and that the keyring accepts for this hash under the artifact's
  -- key, or, where there is no keyring, the signer that has this key. The control that is returned
  -- is approved, names the artifact's hash and the target watermark of its evidence, and is stored.
  pub approve_cutover-verified :
      (i : ApproveInput) (now : ℕ) (c current : Control) (w w' : World Json)
      → lookup (colon i.tenant_id i.legal_entity_id) w.controls ≡ some current
      → is_prepared current.status ≡ true
      → approve_cutover p k i now w ≡ (ok c, w')
      → (a : Artifact) × IsApprovedBy i w a
        × (c.status ≡ CutoverStatus.approved)
        × (c.verification_hash ≡ some a.artifact_hash)
        × (c.cutover_watermark ≡ some a.evidence.target_watermark)
        × (lookup (colon i.tenant_id i.legal_entity_id) w'.controls ≡ some c)
  unfolding approve_prepared
  approve_cutover-verified i now c current w w' found prepared h =
      let key = colon i.tenant_id i.legal_entity_id in
      let ran = approve_cutover-prepared i now c current w w' found prepared h in
      elim (Option-cases (lookup i.evidence_artifact_id w.artifacts)) [
        | inl missing ↦ absurd (ground (arith, ran, missing))
        | inr (a, there) ↦ elim (Option-cases (refusal k i (lookup key w.configurations) a)) [
          | inr (r, refused) ↦ absurd (ground (arith, ran, there, refused))
          | inl passed ↦
              let done = approved_control p i a now current in
              let is : done ≡ c = ground (arith, ran, there, passed) in
              let next : record w { controls = insert key done w.controls } ≡ w' =
                ground (arith, ran, there, passed) in
              (
                a,
                refusal-IsApprovedBy i w a there passed,
                ap (λ x. x.status) (sym is),
                ap (λ x. x.verification_hash) (sym is),
                ap (λ x. x.cutover_watermark) (sym is),
                subst (λ s. lookup key s.controls ≡ some c) next
                    (lookup-insert_self key done w.controls ∙ ap some is),
              )
        ]
      ]

  approve_prepared-any_tenant :
      (i : ApproveInput) (now : ℕ) (a : Artifact) (t : Text) (current : Control) (w : World Json)
      → lookup i.evidence_artifact_id w.artifacts ≡ some a
      → (approve_prepared p k i current now (record w {
        artifacts = insert i.evidence_artifact_id (record a { tenant_id = t }) w.artifacts;
      })).0
        ≡ (approve_prepared p k i current now w).0
  unfolding approve_prepared
  approve_prepared-any_tenant i now a t current w there =
      let other : Artifact = record a { tenant_id = t } in
      let found = lookup-insert_self i.evidence_artifact_id other w.artifacts in
      ground (
        arith,
        there,
        found,
        refusal-any_tenant k i (lookup (colon i.tenant_id i.legal_entity_id) w.configurations) a t,
      )

  -- An approval answers the same whatever tenant the artifact that it names belongs to, so that one
  -- tenant's evidence approves the change of another's legal entity of the same identifier.
  pub approve_cutover-any_tenant :
      (i : ApproveInput) (now : ℕ) (a : Artifact) (t : Text) (w : World Json)
      → lookup i.evidence_artifact_id w.artifacts ≡ some a
      → (approve_cutover p k i now (record w {
        artifacts = insert i.evidence_artifact_id (record a { tenant_id = t }) w.artifacts;
      })).0
        ≡ (approve_cutover p k i now w).0
  unfolding approve_cutover approve_control permit
  approve_cutover-any_tenant i now a t w there =
      elim (Option-cases (lookup (colon i.tenant_id i.legal_entity_id) w.controls)) [
        | inl missing ↦ ground (arith, missing)
        | inr (current, found) ↦
            ground (arith, found, approve_prepared-any_tenant i now a t current w there)
      ]
