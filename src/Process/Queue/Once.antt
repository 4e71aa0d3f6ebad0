-- ===== src/Process/Queue/Once.antt =====
-- One job for a key: packages/process/src/service.ts.
use eclipse_erp.Base.{
  ℕ, ◌+◌, ◌≡◌, refl, sym, ◌∙◌, subst, inl, inr, Bool, true, not, ◌&&◌, none, some, List, [], ◌∷◌,
  ◌++◌, arith, ltb, Bool-cases, Option-cases, any, find, filter,
}
use eclipse_erp.Base.Effect.{ok}
use eclipse_erp.Text.{Text, text_eq, text_eq_refl, text_eq→eq}
use eclipse_erp.Messaging.Events.{Platform}
use eclipse_erp.Process.Jobs.{
  Row, DurableJob, DurableJobInput, ClaimInput, LeaseInput, valid_lease, valid_fail, valid_claim,
  valid_enqueue, int_max,
}
use eclipse_erp.Process.Queue.{
  Table, has_id, set_where, is_job, holds, renewed, done, given_up, claimable, lease_to, lease_row,
  first, same_key, new_row, durable_job, enqueue, claim_job, renew_job, complete_job, fail_job,
  with_lease,
}
use eclipse_erp.Process.Queue.Rows.{find-update}
use eclipse_erp.Process.Queue.Phases.{Call, enqueues, claims, renews, completes, fails, step, run}
use eclipse_erp.Process.Queue.Phases.Refines.{with_lease-table}

module _ {Json : Type 0} (i : DurableJobInput Json) (job : DurableJob Json) where
  -- The job of the input's key, as its caller knows it.
  abbrev IsKept : Table Json → Type 0
  IsKept t = (r : Row Json) × (find (same_key i) t ≡ some r) × (durable_job r ≡ job)

  set_where-IsKept :
      (p : Row Json → Bool) (f : Row Json → Row Json) (t : Table Json)
      → ((r : Row Json) → same_key i (f r) ≡ same_key i r)
      → ((r : Row Json) → durable_job (f r) ≡ durable_job r)
      → IsKept t
      → IsKept (set_where p f t)
  set_where-IsKept p f t key same (r, found, is) = elim (Bool-cases (p r)) [
    | inl hit ↦ (f r, ground (arith, find-update (same_key i) p f t key, found, hit), same r ∙ is)
    | inr miss ↦ (r, ground (arith, find-update (same_key i) p f t key, found, miss), is)
  ]

  append-IsKept : (t : Table Json) (x : Row Json) → IsKept t → IsKept (t ++ (x ∷ []))
  append-IsKept t x (r, found, is) = (r, kept t found, is)
    where
      kept :
          (t : Table Json)
          → find (same_key i) t ≡ some r
          → find (same_key i) (t ++ (x ∷ [])) ≡ some r
      kept [] e = cc
      kept (y ∷ t) e = ground (arith, e, kept t)

  module _ (p : Platform Json) where
    with_lease-IsKept :
        (j : LeaseInput) (now : ℕ) (set : Row Json → Row Json → Row Json) (t : Table Json)
        → ((c r : Row Json) → same_key i (set c r) ≡ same_key i r)
        → ((c r : Row Json) → durable_job (set c r) ≡ durable_job r)
        → IsKept t
        → IsKept (with_lease p j now set t).1
    with_lease-IsKept j now set t key same k = elim (with_lease-table p j now set t) [
      | inl e ↦ subst IsKept (sym e) k
      | inr (c, _, _, e) ↦
          subst IsKept (sym e)
            (set_where-IsKept (λ r. is_job j r && holds j now r) (set c) t (key c) (same c) k)
    ]

    enqueues-IsKept :
        (j : DurableJobInput Json) (id : Text) (now : ℕ) (t : Table Json)
        → IsKept t
        → IsKept (enqueue p j id now t).1
    unfolding enqueue
    enqueues-IsKept j id now t k = elim (Bool-cases (valid_enqueue p j)) [
      | inr bad ↦ rw (bad, enqueue) k
      | inl good ↦ elim (Option-cases (find (same_key j) t)) [
        | inr (r, e) ↦ rw (good, e, enqueue) k
        | inl e ↦ elim (Bool-cases (any (has_id id) t)) [
          | inl taken ↦ rw (good, e, taken, enqueue) k
          | inr free ↦ rw (good, e, free, enqueue) (append-IsKept t (new_row j id now) k)
        ]
      ]
    ]

    claims-IsKept :
        (j : ClaimInput) (token : Text) (now : ℕ) (locked : Text → Bool) (t : Table Json)
        → IsKept t
        → IsKept (claim_job p j token now locked t).1
    unfolding claim_job lease_row same_key
    claims-IsKept j token now locked t k = elim (Bool-cases (valid_claim p j)) [
      | inr bad ↦ rw (bad, claim_job) k
      | inl good ↦
          elim (Option-cases (first (filter (λ r. claimable j now r && not (locked r.id)) t))) [
            | inl e ↦ rw (good, e, claim_job) k
            | inr (row, e) ↦ elim (Bool-cases (ltb int_max (row.attempts + 1))) [
              | inl big ↦ rw (good, e, big, claim_job, lease_row) k
              | inr fits ↦
                  rw (good, e, fits, claim_job, lease_row)
                    (set_where-IsKept (has_id row.id)
                      (lease_to j.worker_id token now (row.attempts + 1)) t (λ r. refl) (λ r. refl)
                      k)
            ]
          ]
    ]

    step-IsKept : (c : Call Json) (t : Table Json) → IsKept t → IsKept (step p c t)
    unfolding step renew_job complete_job fail_job same_key
    step-IsKept (enqueues j id now) t k = enqueues-IsKept j id now t k
    step-IsKept (claims j token now locked) t k = claims-IsKept j token now locked t k
    step-IsKept (renews j now) t k = elim (Bool-cases (valid_lease p j)) [
      | inr bad ↦ rw (bad, step, renew_job) k
      | inl good ↦
          rw (good, step, renew_job)
            (with_lease-IsKept j now (renewed now) t (λ c r. refl) (λ c r. refl) k)
    ]
    step-IsKept (completes j now) t k = elim (Bool-cases (valid_lease p j)) [
      | inr bad ↦ rw (bad, step, complete_job) k
      | inl good ↦
          rw (good, step, complete_job)
            (with_lease-IsKept j now (done now) t (λ c r. refl) (λ c r. refl) k)
    ]
    step-IsKept (fails j now) t k = elim (Bool-cases (valid_fail p j)) [
      | inr bad ↦ rw (bad, step, fail_job) k
      | inl good ↦
          rw (good, step, fail_job)
            (with_lease-IsKept j.lease now (given_up p j now) t (λ c r. refl) (λ c r. refl) k)
    ]

    run-IsKept : (cs : List (Call Json)) (t : Table Json) → IsKept t → IsKept (run p cs t)
    unfolding run
    run-IsKept [] t k = k
    run-IsKept (c ∷ cs) t k = run-IsKept cs (step p c t) (step-IsKept c t k)

module _ {Json : Type 0} (p : Platform Json) where
  find-last :
      (q : Row Json → Bool) (t : Table Json) (x : Row Json)
      → find q t ≡ none
      → q x ≡ true
      → find q (t ++ (x ∷ [])) ≡ some x
  find-last q [] x e h = ground (arith, h)
  find-last q (y ∷ t) x e h = ground (arith, e, h, find-last q t x)

  same_key-new :
      (i : DurableJobInput Json) (id : Text) (now : ℕ) → same_key i (new_row i id now) ≡ true
  unfolding same_key
  same_key-new i id now =
      ground
        (arith, text_eq_refl i.tenant_id, text_eq_refl i.job_type, text_eq_refl i.idempotency_key)

  enqueue-IsKept :
      (i : DurableJobInput Json) (id : Text) (now : ℕ) (t : Table Json) (job : DurableJob Json)
      → (enqueue p i id now t).0 ≡ ok job
      → IsKept i job (enqueue p i id now t).1
  unfolding enqueue
  enqueue-IsKept i id now t job h = elim (Bool-cases (valid_enqueue p i)) [
    | inr bad ↦ absurd (ground (arith, h, bad))
    | inl good ↦ elim (Option-cases (find (same_key i) t)) [
      | inr (r, e) ↦ (r, ground (arith, good, e), ground (arith, h, good, e))
      | inl e ↦ elim (Bool-cases (any (has_id id) t)) [
        | inl taken ↦ absurd (ground (arith, h, good, e, taken))
        | inr free ↦ (
          new_row i id now,
          ground (
            arith,
            good,
            e,
            free,
            find-last (same_key i) t (new_row i id now) e (same_key-new i id now),
          ),
          ground (arith, h, good, e, free),
        )
      ]
    ]
  ]

  find-same_key :
      (i j : DurableJobInput Json) (t : Table Json)
      → i.tenant_id ≡ j.tenant_id
      → i.job_type ≡ j.job_type
      → i.idempotency_key ≡ j.idempotency_key
      → find (same_key j) t ≡ find (same_key i) t
  unfolding same_key
  find-same_key i j [] a b c = refl
  find-same_key i j (r ∷ t) a b c = ground (arith, a, b, c, find-same_key i j t a b c)

  kept-again :
      (i j : DurableJobInput Json) (id : Text) (now : ℕ) (job : DurableJob Json) (t : Table Json)
      → find (same_key j) t ≡ find (same_key i) t
      → valid_enqueue p j ≡ true
      → IsKept i job t
      → enqueue p j id now t ≡ (ok job, t)
  unfolding enqueue
  kept-again i j id now job t e valid (r, found, is) = ground (arith, e, valid, found, is)

  -- Once an enqueuing answered a job, every later one with its tenant, type and key answers the same
  -- job, with the first priority, payload and correlation whatever the later ones are, and changes
  -- nothing, after any sequence of calls in between. The later input passes its schema.
  pub enqueue-again :
      (i j : DurableJobInput Json) (id id' : Text) (now now' : ℕ) (t : Table Json)
      (job : DurableJob Json) (cs : List (Call Json))
      → (enqueue p i id now t).0 ≡ ok job
      → (text_eq i.tenant_id j.tenant_id
          && (text_eq i.job_type j.job_type && text_eq i.idempotency_key j.idempotency_key))
        ≡ true
      → valid_enqueue p j ≡ true
      → let later = run p cs (enqueue p i id now t).1 in
        enqueue p j id' now' later ≡ (ok job, later)
  enqueue-again i j id id' now now' t job cs h same valid =
      let later = run p cs (enqueue p i id now t).1 in
      let kept = run-IsKept i job p cs (enqueue p i id now t).1 (enqueue-IsKept i id now t job h) in
      let tenant = text_eq→eq i.tenant_id j.tenant_id (ground (arith, same)) in
      let type = text_eq→eq i.job_type j.job_type (ground (arith, same)) in
      let key = text_eq→eq i.idempotency_key j.idempotency_key (ground (arith, same)) in
      kept-again i j id' now' job later (find-same_key i j later tenant type key) valid kept
