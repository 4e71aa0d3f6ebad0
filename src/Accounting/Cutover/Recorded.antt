-- ===== src/Accounting/Cutover/Recorded.antt =====
-- Evidence from its recording to the approval by it: packages/accounting/src/service.ts.
use eclipse_erp.Base.{
  ℕ, ◌≡◌, ap, ◌∙◌, subst, inl, inr, Bool, true, ◌&&◌, Option, none, some, List, arith, ◌==◌,
  Option-cases,
}
use eclipse_erp.Base.Effect.{ok}
use eclipse_erp.Text.{Text, codes, text_eq_refl}
use eclipse_erp.Dict.{lookup, insert, lookup-insert_self}
use eclipse_erp.Authorization.Service.{Principal, Decision}
use eclipse_erp.Messaging.Events.{Platform}
use eclipse_erp.Accounting.Evidence.{Artifact, Keys, Signer, hash_of, valid_evidence}
use eclipse_erp.Accounting.Data.{Control, Configuration, RecordArtifactInput, ApproveInput, World}
use eclipse_erp.Accounting.Setup.{colon, permit}
use eclipse_erp.Accounting.Cutover.{
  currency_is, is_rehearsal, new_artifact, approved_control, check_signature, no_verifier, refusal,
  store_artifact, record_artifact, approve_prepared, approve_control, approve_cutover,
}
use eclipse_erp.Accounting.Cutover.Approved.{is_prepared}

-- What is relied on in signatures and in base64url: a signature of the signer holds, for it and for
-- the keyring under the signer's key, and what is encoded decodes.
pub record IsKeys (k : Keys) : Type 0 where
  pub decodes : (b : List ℕ) → k.decode (k.encode b) ≡ some b
  pub verifies :
      (s : Signer) (m g : List ℕ) → k.signer ≡ some s → s.sign m ≡ some g → s.verify m g ≡ some true
  pub holds :
      (s : Signer) (v : Text → List ℕ → List ℕ → Option Bool) (m g : List ℕ)
      → k.signer ≡ some s
      → k.keyring ≡ some v
      → s.sign m ≡ some g
      → v s.key_id m g ≡ some true

-- The approval of the change by the evidence that a recording stores.
abbrev pub approval_of : RecordArtifactInput → Principal → Text → ApproveInput
approval_of i principal id = record {
  principal = principal;
  tenant_id = i.tenant_id;
  legal_entity_id = i.evidence.legal_entity_id;
  evidence_artifact_id = id;
}

module _ {Json : Type 0} (p : Platform Json) (k : Keys) where
  -- What a recording that succeeds has done.
  abbrev IsRecorded : RecordArtifactInput → Text → ℕ → Artifact → World Json → World Json → Type 0
  IsRecorded i id now a w w' =
      (s : Signer) × (g : List ℕ) × (k.signer ≡ some s)
      × (s.sign (k.bytes (hash_of k i.evidence)) ≡ some g)
      × (new_artifact p k i s.key_id g id now ≡ a)
      × (record w { artifacts = insert id (new_artifact p k i s.key_id g id now) w.artifacts } ≡ w')

  record_artifact-IsRecorded :
      (i : RecordArtifactInput) (id : Text) (now : ℕ) (a : Artifact) (w w' : World Json)
      → record_artifact p k i id now w ≡ (ok a, w')
      → IsRecorded i id now a w w'
        × (currency_is i.evidence.currency
              (lookup (colon i.tenant_id i.evidence.legal_entity_id) w.configurations)
            ≡ true)
        × (p.is_uuid i.evidence.legal_entity_id ≡ true)
  unfolding record_artifact store_artifact valid_evidence
  record_artifact-IsRecorded i id now a w w' h = elim (Option-cases k.signer) [
    | inl missing ↦ absurd (ground (arith, h, missing))
    | inr (s, here) ↦ elim (Option-cases (s.sign (k.bytes (hash_of k i.evidence)))) [
      | inl failed ↦ absurd (ground (arith, h, here, failed))
      | inr (g, signed) ↦ (
        (s, g, here, signed, ground (arith, h, here, signed), ground (arith, h, here, signed)),
        ground (arith, h),
        ground (arith, h),
      )
    ]
  ]

  new_artifact-checked :
      (i : RecordArtifactInput) (s : Signer) (g : List ℕ) (id : Text) (now : ℕ)
      → IsKeys k
      → k.signer ≡ some s
      → s.sign (k.bytes (hash_of k i.evidence)) ≡ some g
      → (check_signature k (new_artifact p k i s.key_id g id now) ≡ ok true)
        × (no_verifier k (new_artifact p k i s.key_id g id now) ≡ none)
  unfolding check_signature no_verifier
  new_artifact-checked i s g id now keys here signed =
      let m = k.bytes (hash_of k i.evidence) in
      elim (Option-cases k.keyring) [
        | inl none_there ↦ (
          ground (arith, keys.decodes g, here, none_there, keys.verifies s m g here signed),
          ground (arith, here, none_there, text_eq_refl s.key_id),
        )
        | inr (v, there) ↦ (
          ground (arith, keys.decodes g, there, keys.holds s v m g here there signed),
          ground (arith, there),
        )
      ]

  new_artifact-passes :
      (i : RecordArtifactInput) (s : Signer) (g : List ℕ) (id : Text) (now : ℕ) (q : Principal)
      (c : Option Configuration)
      → IsKeys k
      → k.signer ≡ some s
      → s.sign (k.bytes (hash_of k i.evidence)) ≡ some g
      → currency_is i.evidence.currency c ≡ true
      → is_rehearsal i.evidence.kind ≡ true
      → (i.evidence.mismatch_count == 0) ≡ true
      → refusal k (approval_of i q id) c (new_artifact p k i s.key_id g id now) ≡ none
  unfolding refusal
  new_artifact-passes i s g id now q c keys here signed currency kind none_wrong =
      let (checked, verifier) = new_artifact-checked i s g id now keys here signed in
      ground (
        arith,
        currency,
        kind,
        none_wrong,
        checked,
        verifier,
        text_eq_refl i.evidence.legal_entity_id,
        text_eq_refl (hash_of k i.evidence),
      )

  -- An artifact that passes every test approves a change that is under way.
  stored-approves :
      (j : ApproveInput) (d : Decision) (a : Artifact) (current : Control) (now : ℕ)
      (w : World Json)
      → (p.is_uuid j.legal_entity_id && p.is_uuid j.evidence_artifact_id) ≡ true
      → permit j.principal j.tenant_id (codes "accounting.financial_engine.activate") w ≡ ok d
      → lookup (colon j.tenant_id j.legal_entity_id) w.controls ≡ some current
      → is_prepared current.status ≡ true
      → lookup j.evidence_artifact_id w.artifacts ≡ some a
      → refusal k j (lookup (colon j.tenant_id j.legal_entity_id) w.configurations) a ≡ none
      → (approve_cutover p k j now w).0 ≡ ok (approved_control p j a now current)
  unfolding approve_cutover approve_control approve_prepared
  stored-approves j d a current now w uuids may found prepared stored passes =
      ground (arith, uuids, may, found, prepared, stored, passes)

  -- Where signatures of the signer hold and base64url decodes: evidence of a rehearsal without
  -- mismatches that is recorded approves the change of its legal entity's engine, for a caller who
  -- may approve it and while the change is under way.
  pub recorded-approves :
      (i : RecordArtifactInput) (id : Text) (now : ℕ) (a : Artifact) (w w' : World Json)
      → IsKeys k
      → record_artifact p k i id now w ≡ (ok a, w')
      → is_rehearsal i.evidence.kind ≡ true
      → (i.evidence.mismatch_count == 0) ≡ true
      → p.is_uuid id ≡ true
      → (q : Principal) (d : Decision) (current : Control) (later : ℕ)
      → permit q i.tenant_id (codes "accounting.financial_engine.activate") w' ≡ ok d
      → lookup (colon i.tenant_id i.evidence.legal_entity_id) w'.controls ≡ some current
      → is_prepared current.status ≡ true
      → (approve_cutover p k (approval_of i q id) later w').0
        ≡ ok (approved_control p (approval_of i q id) a later current)
  recorded-approves i id now a w w' keys h kind none_wrong uuid q d current later may found
        prepared =
      let ((s, g, here, signed, is, next), currency, entity) =
        record_artifact-IsRecorded i id now a w w' h in
      let stored : lookup id w'.artifacts ≡ some a =
        subst (λ x. lookup id x.artifacts ≡ some a) next
          (lookup-insert_self id (new_artifact p k i s.key_id g id now) w.artifacts ∙ ap some is) in
      let key = colon i.tenant_id i.evidence.legal_entity_id in
      let passes : refusal k (approval_of i q id) (lookup key w'.configurations) a ≡ none =
        subst (λ x. refusal k (approval_of i q id) (lookup key x.configurations) a ≡ none) next
          (subst (λ x. refusal k (approval_of i q id) (lookup key w.configurations) x ≡ none) is
            (new_artifact-passes i s g id now q (lookup key w.configurations) keys here signed
              currency kind none_wrong)) in
      stored-approves (approval_of i q id) d a current later w' (ground (arith, entity, uuid)) may
        found prepared stored passes
