-- ===== src/Accounting/Readiness/Agree.antt =====
-- What a comparison without mismatches says of the facts:
-- packages/accounting/src/financial-readiness.ts.
use eclipse_erp.Base.{
  ◌≡◌, refl, sym, subst, ◌↔◌, inl, inr, Bool, true, false, Option, none, some, List, [], ◌∷◌, ◌++◌,
  arith, ◌==◌, ap, ◌∙◌, length, Bool-cases, Option-cases, map,
}
use eclipse_erp.Text.{Text, text_eq, text_eq_refl, text_eq→eq}
use eclipse_erp.Dict.{Dict, lookup, contains}
use eclipse_erp.Dict.Distinct.{distinct, merge-distinct}
use eclipse_erp.Accounting.Readiness.Facts.{
  Decides, last_of, last_lookup, same_operation-Decides, same_fact-Decides, same_balance-Decides,
  same_projection-Decides,
}
use eclipse_erp.Accounting.Readiness.{
  OperationFact, ProjectionFact, Snapshot, Reports, same_operation, same_fact, same_balance,
  same_projection, transfer_fact_key, balance_fact_key, map_of, source_loop, target_loop,
  compare_maps, compare_snapshots, operation_reports, transfer_reports, balance_reports,
  projection_reports, EvidenceSource, Digests, build_evidence,
}

append-empty : {A : Type 0} (xs ys : List A) → xs ++ ys ≡ [] → (xs ≡ []) × (ys ≡ [])
append-empty [] ys h = (refl, h)
append-empty (x ∷ xs) ys h = absurd (ground (arith, h))

module _ {V : Type 0} (same : V → V → Bool) where
  -- Both are there and the same, or both are missing.
  unfoldable pub agrees : Option V → Option V → Bool
  agrees none none = true
  agrees (some s) (some t) = same s t
  agrees none (some t) = false
  agrees (some s) none = false

  module _ (r : Reports) where
    source_loop-agrees :
        (target source : Dict V) (k : Text) (s : V)
        → source_loop r same target source ≡ []
        → lookup k source ≡ some s
        → agrees (some s) (lookup k target) ≡ true
    unfolding source_loop lookup agrees
    source_loop-agrees target [] k s h e = absurd (ground (arith, e))
    source_loop-agrees target ((j, w) ∷ source) k s h e = elim (Bool-cases (text_eq k j)) [
      | inr miss ↦
          source_loop-agrees target source k s (ground (arith, h)) (ground (arith, e, miss))
      | inl hit ↦
          let is : w ≡ s = ground (arith, e, hit) in
          let head : agrees (some w) (lookup j target) ≡ true = ground (arith, h) in
          subst (λ x. agrees (some x) (lookup k target) ≡ true) is
            (subst (λ x. agrees (some w) (lookup x target) ≡ true) (sym (text_eq→eq k j hit)) head)
    ]

    agrees-source_loop :
        (target source : Dict V)
        → distinct source ≡ true
        → ((k : Text) (s : V) → lookup k source ≡ some s → agrees (some s) (lookup k target) ≡ true)
        → source_loop r same target source ≡ []
    unfolding source_loop lookup agrees distinct
    agrees-source_loop target [] d h = refl
    agrees-source_loop target ((j, w) ∷ source) d h =
        let rest =
          agrees-source_loop target source (ground (arith, d))
            (λ k s e. h k s (ground (arith, e, d, text_eq→eq k j))) in
        let head : agrees (some w) (lookup j target) ≡ true =
          h j w (ground (arith, text_eq_refl j)) in
        ground (arith, rest, head)

    target_loop-contains :
        (source target : Dict V) (k : Text)
        → target_loop r source target ≡ []
        → contains k target ≡ true
        → contains k source ≡ true
    unfolding target_loop lookup
    target_loop-contains source [] k h e = absurd (ground (arith, e))
    target_loop-contains source ((j, w) ∷ target) k h e = elim (Bool-cases (text_eq k j)) [
      | inr miss ↦
          target_loop-contains source target k (ground (arith, h)) (ground (arith, e, miss))
      | inl hit ↦
          let head : contains j source ≡ true = ground (arith, h) in
          subst (λ x. contains x source ≡ true) (sym (text_eq→eq k j hit)) head
    ]

    contains-target_loop :
        (source target : Dict V)
        → ((k : Text) → contains k target ≡ true → contains k source ≡ true)
        → target_loop r source target ≡ []
    unfolding target_loop lookup
    contains-target_loop source [] h = refl
    contains-target_loop source ((j, w) ∷ target) h =
        let rest = contains-target_loop source target (λ k e. h k (ground (arith, e))) in
        let head = h j (ground (arith, text_eq_refl j)) in ground (arith, rest, head)

    -- The maps agree under every key.
    pub compare_maps_iff :
        (source target : Dict V)
        → distinct source ≡ true
        → (compare_maps r same source target ≡ [])
          ↔ ((k : Text) → agrees (lookup k source) (lookup k target) ≡ true)
    unfolding compare_maps agrees
    compare_maps_iff source target d = (there, back)
      where
        there :
            compare_maps r same source target ≡ []
            → (k : Text) → agrees (lookup k source) (lookup k target) ≡ true
        there h k =
            let (left, right) =
              append-empty (source_loop r same target source) (target_loop r source target) h in
            elim (Option-cases (lookup k source)) [
              | inr (s, e) ↦ rw e (source_loop-agrees target source k s left e)
              | inl e ↦ ground (arith, e, target_loop-contains source target k right)
            ]

        back :
            ((k : Text) → agrees (lookup k source) (lookup k target) ≡ true)
            → compare_maps r same source target ≡ []
        back h =
            let left =
              agrees-source_loop target source d
                (λ k s e. subst (λ x. agrees x (lookup k target) ≡ true) e (h k)) in
            let right = contains-target_loop source target (λ k e. ground (arith, e, h k)) in
            rw (left, right) refl

abbrev pub operation_id_of : OperationFact → Text
operation_id_of f = f.operation_id

abbrev pub projection_id_of : ProjectionFact → Text
projection_id_of f = f.operation_id

-- Under every key the last operation, transfer, balance and projection of the two snapshots are
-- equal, or missing in both.
abbrev pub IsAgreed : (source target : Snapshot) → Type 0
IsAgreed s t =
    (k : Text)
    → (last_of operation_id_of k s.operations ≡ last_of operation_id_of k t.operations)
      × (last_of transfer_fact_key k s.transfers ≡ last_of transfer_fact_key k t.transfers)
      × (last_of balance_fact_key k s.balances ≡ last_of balance_fact_key k t.balances)
      × (last_of projection_id_of k s.projections ≡ last_of projection_id_of k t.projections)

agrees_iff :
    {V : Type 0} (same : V → V → Bool)
    → Decides same
    → (x y : Option V) → (agrees same x y ≡ true) ↔ (x ≡ y)
unfolding agrees
agrees_iff same d none none = (λ h. refl, λ e. refl)
agrees_iff same d none (some t) = (λ h. absurd (ground (arith, h)), λ e. absurd (ground (arith, e)))
agrees_iff same d (some s) none = (λ h. absurd (ground (arith, h)), λ e. absurd (ground (arith, e)))
agrees_iff same d (some s) (some t) =
    (λ h. ap some ((d s t).0 h), λ e. (d s t).1 (ground (arith, e)))

maps_iff :
    {V : Type 0} (key : V → Text) (same : V → V → Bool) (r : Reports)
    → Decides same
    → (source target : List V)
    → (compare_maps r same (map_of key source) (map_of key target) ≡ [])
      ↔ ((k : Text) → last_of key k source ≡ last_of key k target)
unfolding distinct
maps_iff key same r d source target =
    let compared =
      compare_maps_iff same r (map_of key source) (map_of key target)
        (merge-distinct (map (λ f. (key f, f)) source) [] refl) in
    let at = λ (k : Text).
      agrees_iff same d (lookup k (map_of key source)) (lookup k (map_of key target)) in
    (
      λ h k.
          sym (last_lookup key k source) ∙ ((at k).0 (compared.0 h k) ∙ last_lookup key k target),
      λ h.
          compared.1
            (λ k. (at k).1 (last_lookup key k source ∙ (h k ∙ sym (last_lookup key k target)))),
    )

compare_snapshots_iff : (s t : Snapshot) → (compare_snapshots s t ≡ []) ↔ IsAgreed s t
unfolding compare_snapshots
compare_snapshots_iff s t =
    let operations =
      maps_iff operation_id_of same_operation operation_reports same_operation-Decides s.operations
        t.operations in
    let transfers =
      maps_iff transfer_fact_key same_fact transfer_reports same_fact-Decides s.transfers
        t.transfers in
    let balances =
      maps_iff balance_fact_key same_balance balance_reports same_balance-Decides s.balances
        t.balances in
    let projections =
      maps_iff projection_id_of same_projection projection_reports same_projection-Decides
        s.projections t.projections in
    (
      λ h k.
          let (a, rest) = append-empty _ _ h in
          let (b, rest2) = append-empty _ _ rest in
          let (c, d) = append-empty _ _ rest2 in
          (operations.0 a k, transfers.0 b k, balances.0 c k, projections.0 d k),
      λ h.
          rw
            (
              operations.1 (λ k. (h k).0),
              transfers.1 (λ k. (h k).1),
              balances.1 (λ k. (h k).2),
              projections.1 (λ k. (h k).3),
            )
            refl,
    )

pub length-empty : {A : Type 0} (xs : List A) → (length xs == 0) ≡ true → xs ≡ []
length-empty [] h = refl
length-empty (x ∷ xs) h = absurd (ground (arith, h))

-- Evidence is built without mismatches exactly when the last facts of the two snapshots are equal:
-- under every operation's identifier the last operation of the source is equal, in every field, to
-- the last one of the target or both are missing, and the same holds of the transfers under
-- operation and position, of the balances under account, currency and mapping version, and of the
-- projections under their operation. Of several facts under one key only the last counts.
pub build_evidence-agrees :
    (d : Digests) (i : EvidenceSource)
    → ((build_evidence d i).mismatch_count == 0 ≡ true) ↔ IsAgreed i.source i.target
unfolding build_evidence
build_evidence-agrees d i = (
  λ h.
      (compare_snapshots_iff i.source i.target).0
        (length-empty (compare_snapshots i.source i.target) h),
  λ h. rw ((compare_snapshots_iff i.source i.target).1 h) refl,
)
