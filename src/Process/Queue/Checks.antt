-- ===== src/Process/Queue/Checks.antt =====
-- The checks and keys of the table `process.jobs` of db/schema/process.ts, under the operations of
-- packages/process/src/service.ts.
use eclipse_erp.Base.{
  ℕ, ◌+◌, ◌≡◌, refl, sym, ◌∙◌, subst, inl, inr, Bool, true, false, not, ◌&&◌, ◌||◌, none, [], ◌∷◌,
  arith, ltb, leb, if◌then◌else◌, Bool-cases, Option-cases, any, all, find, filter, bool_eq,
}
use eclipse_erp.Text.{Text, text_eq, text_eq_iff, non_empty_string}
use eclipse_erp.Messaging.Events.{Platform}
use eclipse_erp.Process.Jobs.{
  JobStatus, completed, Row, DurableJobInput, ClaimInput, LeaseInput, FailInput, is_some,
  is_job_type, optional, lease_state, postgres_int, valid_lease, valid_fail, valid_claim,
  valid_enqueue, int_max,
}
use eclipse_erp.Process.Queue.{
  Table, has_id, set_where, is_job, holds, renewed, done, given_up, claimable, lease_to, lease_row,
  first, is_pending, same_key, new_row, enqueue, claim_job, renew_job, complete_job, fail_job,
  with_lease, max_attempts, is_exhausted,
}
use eclipse_erp.Process.Queue.Rows.{
  are_apart, are_keyed, are_keyed-append, are_keyed-set_where, only_row, first-filter-find,
  all-filter_same, are_apart-set_where, are_apart-append, all-set_where, all-append, all-first,
}
use eclipse_erp.Process.Queue.Phases.{Call, enqueues, claims, renews, completes, fails, step}
use eclipse_erp.Process.Queue.Phases.Refines.{with_lease-table, holds-held}

abbrev is_completed : JobStatus → Bool
is_completed completed = true
is_completed _ = false

module _ {Json : Type 0} where
  -- The `check`s of the table and the range of its columns. `[^[:space:]]` is read as `\S`.
  unfoldable pub passes_checks : Row Json → Bool
  passes_checks r =
      is_job_type r.job_type
      && (non_empty_string r.idempotency_key
          && (non_empty_string r.correlation_id
              && (postgres_int r.priority
                  && (leb r.attempts int_max
                      && (lease_state r.status r.lease_until r.lease_owner r.lease_token
                          && (optional non_empty_string r.lease_owner
                              && bool_eq (is_completed r.status) (is_some r.completed_at)))))))

  -- A job waits for an attempt only while it has some left.
  unfoldable pub has_attempts : Row Json → Bool
  has_attempts r = if is_pending r.status then ltb r.attempts max_attempts else true

  -- The columns of the key `process_jobs_tenant_type_key`.
  unfoldable pub same_columns : Row Json → Row Json → Bool
  same_columns a b =
      text_eq b.tenant_id a.tenant_id
      && (text_eq b.job_type a.job_type && text_eq b.idempotency_key a.idempotency_key)

pub record IsQueue {Json : Type 0} (t : Table Json) : Type 0 where
  pub keyed : are_keyed t ≡ true
  pub unique : are_apart same_columns t ≡ true
  pub checked : all passes_checks t ≡ true
  pub bounded : all has_attempts t ≡ true

module _ {Json : Type 0} where
  same_columns-swap : (a b : Row Json) → same_columns a b ≡ same_columns b a
  unfolding same_columns
  same_columns-swap a b = ground (
    arith,
    text_eq_iff a.tenant_id b.tenant_id,
    text_eq_iff b.tenant_id a.tenant_id,
    text_eq_iff a.job_type b.job_type,
    text_eq_iff b.job_type a.job_type,
    text_eq_iff a.idempotency_key b.idempotency_key,
    text_eq_iff b.idempotency_key a.idempotency_key,
  )

  -- An update that leaves the keys alone and sets the rows to rows that pass.
  set_where-IsQueue :
      (s p : Row Json → Bool) (f : Row Json → Row Json) (t : Table Json)
      → ((r : Row Json) → (f r).id ≡ r.id)
      → ((a b : Row Json) → same_columns a (f b) ≡ same_columns a b)
      → ((a : Row Json) → same_columns (f a) ≡ same_columns a)
      → all s t ≡ true
      → ((r : Row Json)
          → s r ≡ true
          → p r ≡ true
          → passes_checks r ≡ true
          → passes_checks (f r) ≡ true)
      → ((r : Row Json)
          → s r ≡ true
          → p r ≡ true
          → has_attempts r ≡ true
          → has_attempts (f r) ≡ true)
      → IsQueue t
      → IsQueue (set_where p f t)
  set_where-IsQueue s p f t id right left known passes attempts q = record {
    keyed = are_keyed-set_where p f t id ∙ q.keyed;
    unique = are_apart-set_where same_columns p f t right left ∙ q.unique;
    checked = all-set_where passes_checks s p f t passes known q.checked;
    bounded = all-set_where has_attempts s p f t attempts known q.bounded;
  }

  module _ (p : Platform Json) where
    -- The rows that a caller with a lease sets.
    renewed-passes :
        (i : LeaseInput) (now : ℕ) (c r : Row Json)
        → (is_job i r && holds i now r) ≡ true
        → passes_checks r ≡ true
        → passes_checks (renewed now c r) ≡ true
    unfolding passes_checks lease_state
    renewed-passes i now c r h e =
        let (u, early, is, st, _, _) = holds-held i now r (ground (arith, h)) in
        ground (arith, e, st)

    done-passes :
        (i : LeaseInput) (now : ℕ) (c r : Row Json)
        → (is_job i r && holds i now r) ≡ true
        → passes_checks r ≡ true
        → passes_checks (done now c r) ≡ true
    unfolding passes_checks lease_state
    done-passes i now c r h e = ground (arith, e)

    given_up-passes :
        (i : FailInput) (now : ℕ) (c r : Row Json)
        → (is_job i.lease r && holds i.lease now r) ≡ true
        → passes_checks r ≡ true
        → passes_checks (given_up p i now c r) ≡ true
    unfolding passes_checks lease_state
    given_up-passes i now c r h e = ground (arith, e)

    given_up-has :
        (i : FailInput) (now : ℕ) (c r : Row Json)
        → is_exhausted r ≡ is_exhausted c
        → has_attempts r ≡ true
        → (is_job i.lease r && holds i.lease now r) ≡ true
        → has_attempts (given_up p i now c r) ≡ true
    unfolding has_attempts
    given_up-has i now c r x b m = ground (arith, x)

    -- Whatever a caller with a lease sets.
    with_lease-IsQueue :
        (i : LeaseInput) (now : ℕ) (set : Row Json → Row Json → Row Json) (t : Table Json)
        → ((c r : Row Json) → (set c r).id ≡ r.id)
        → ((c a b : Row Json) → same_columns a (set c b) ≡ same_columns a b)
        → ((c a : Row Json) → same_columns (set c a) ≡ same_columns a)
        → ((c r : Row Json)
            → (is_job i r && holds i now r) ≡ true
            → passes_checks r ≡ true
            → passes_checks (set c r) ≡ true)
        → ((c r : Row Json)
            → is_exhausted r ≡ is_exhausted c
            → has_attempts r ≡ true
            → (is_job i r && holds i now r) ≡ true
            → has_attempts (set c r) ≡ true)
        → IsQueue t
        → IsQueue (with_lease p i now set t).1
    with_lease-IsQueue i now set t id right left passes attempts q =
        elim (with_lease-table p i now set t) [
          | inl e ↦ subst IsQueue (sym e) q
          | inr (c, found, h, e) ↦
              let as_current = λ (r : Row Json). bool_eq (is_exhausted r) (is_exhausted c) in
              subst IsQueue (sym e) (
                set_where-IsQueue (λ r. not (is_job i r) || as_current r)
                  (λ r. is_job i r && holds i now r) (set c) t (id c) (right c) (left c)
                  (only_row i.job_id (is_job i) as_current t c (λ r m. ground arith) q.keyed found
                    (ground arith))
                  (λ r s m b. passes c r m b) (λ r s m b. attempts c r (ground (arith, s, m)) b m)
                  q)
        ]

    none-any : (q : Row Json → Bool) (t : Table Json) → find q t ≡ none → any q t ≡ false
    none-any q [] h = refl
    none-any q (r ∷ t) h = ground (arith, none-any q t)

    new_key :
        (i : DurableJobInput Json) (id : Text) (now : ℕ) (t : Table Json)
        → find (same_key i) t ≡ none
        → any (same_columns (new_row i id now)) t ≡ false
    unfolding same_key same_columns
    new_key i id now t e = none-any (same_key i) t e

    new_passes :
        (i : DurableJobInput Json) (id : Text) (now : ℕ)
        → valid_enqueue p i ≡ true
        → passes_checks (new_row i id now) ≡ true
    unfolding valid_enqueue passes_checks lease_state
    new_passes i id now v = ground arith

    new_has :
        (i : DurableJobInput Json) (id : Text) (now : ℕ) → has_attempts (new_row i id now) ≡ true
    unfolding has_attempts
    new_has i id now = refl

    lease-passes :
        (i : ClaimInput) (token : Text) (now attempts : ℕ) (r : Row Json)
        → valid_claim p i ≡ true
        → ltb int_max attempts ≡ false
        → is_completed r.status ≡ false
        → passes_checks r ≡ true
        → passes_checks (lease_to i.worker_id token now attempts r) ≡ true
    unfolding valid_claim passes_checks lease_state
    lease-passes i token now attempts r v fits c b = ground arith

    claimable-open :
        (i : ClaimInput) (now : ℕ) (r : Row Json)
        → claimable i now r ≡ true
        → not (is_completed r.status) ≡ true
    unfolding claimable
    claimable-open i now r h = ground arith

    lease-has :
        (worker token : Text) (now attempts : ℕ) (r : Row Json)
        → has_attempts (lease_to worker token now attempts r) ≡ true
    unfolding has_attempts
    lease-has worker token now attempts r = refl

    enqueues-IsQueue :
        (i : DurableJobInput Json) (id : Text) (now : ℕ) (t : Table Json)
        → IsQueue t
        → IsQueue (enqueue p i id now t).1
    unfolding enqueue
    enqueues-IsQueue i id now t q = elim (Bool-cases (valid_enqueue p i)) [
      | inr bad ↦ rw (bad, enqueue) q
      | inl good ↦ elim (Option-cases (find (same_key i) t)) [
        | inr (r, e) ↦ rw (good, e, enqueue) q
        | inl e ↦ elim (Bool-cases (any (has_id id) t)) [
          | inl taken ↦ rw (good, e, taken, enqueue) q
          | inr free ↦
              let row = new_row i id now in
              rw (good, e, free, enqueue)
                (record {
                  keyed = are_keyed-append t row q.keyed free;
                  unique =
                      are_apart-append same_columns t row same_columns-swap q.unique
                        (new_key i id now t e);
                  checked = all-append passes_checks t row q.checked (new_passes i id now good);
                  bounded = all-append has_attempts t row q.bounded (new_has i id now);
                })
        ]
      ]
    ]

    claims-IsQueue :
        (i : ClaimInput) (token : Text) (now : ℕ) (locked : Text → Bool) (t : Table Json)
        → IsQueue t
        → IsQueue (claim_job p i token now locked t).1
    unfolding claim_job lease_row same_columns
    claims-IsQueue i token now locked t q = elim (Bool-cases (valid_claim p i)) [
      | inr bad ↦ rw (bad, claim_job) q
      | inl good ↦
          let may = λ (r : Row Json). claimable i now r && not (locked r.id) in
          elim (Option-cases (first (filter may t))) [
            | inl e ↦ rw (good, e, claim_job) q
            | inr (row, e) ↦ elim (Bool-cases (ltb int_max (row.attempts + 1))) [
              | inl big ↦ rw (good, e, big, claim_job, lease_row) q
              | inr fits ↦
                  let open_row = λ (r : Row Json). not (is_completed r.status) in
                  let there = first-filter-find may t row q.keyed e in
                  let taken = all-first may (filter may t) row (all-filter_same may t) e in
                  rw (good, e, fits, claim_job, lease_row)
                    (set_where-IsQueue (λ r. not (has_id row.id r) || open_row r) (has_id row.id)
                      (lease_to i.worker_id token now (row.attempts + 1)) t (λ r. refl)
                      (λ a b. refl) (λ a. refl)
                      (only_row row.id (has_id row.id) open_row t row (λ r m. m) q.keyed there
                        (claimable-open i now row (ground (arith, taken))))
                      (λ r s m b.
                        lease-passes i token now (row.attempts + 1) r good fits
                          (ground (arith, s, m)) b)
                      (λ r s m b. lease-has i.worker_id token now (row.attempts + 1) r) q)
            ]
          ]
    ]

    renews-IsQueue :
        (i : LeaseInput) (now : ℕ) (t : Table Json) → IsQueue t → IsQueue (renew_job p i now t).1
    unfolding renew_job has_attempts same_columns
    renews-IsQueue i now t q = elim (Bool-cases (valid_lease p i)) [
      | inr bad ↦ rw (bad, renew_job) q
      | inl good ↦
          rw (good, renew_job)
            (with_lease-IsQueue i now (renewed now) t (λ c r. refl) (λ c a b. refl) (λ c a. refl)
              (renewed-passes i now) (λ c r x b m. b) q)
    ]

    completes-IsQueue :
        (i : LeaseInput) (now : ℕ) (t : Table Json) → IsQueue t → IsQueue (complete_job p i now t).1
    unfolding complete_job has_attempts same_columns
    completes-IsQueue i now t q = elim (Bool-cases (valid_lease p i)) [
      | inr bad ↦ rw (bad, complete_job) q
      | inl good ↦
          rw (good, complete_job)
            (with_lease-IsQueue i now (done now) t (λ c r. refl) (λ c a b. refl) (λ c a. refl)
              (done-passes i now) (λ c r x b m. refl) q)
    ]

    fails-IsQueue :
        (i : FailInput) (now : ℕ) (t : Table Json) → IsQueue t → IsQueue (fail_job p i now t).1
    unfolding fail_job same_columns
    fails-IsQueue i now t q = elim (Bool-cases (valid_fail p i)) [
      | inr bad ↦ rw (bad, fail_job) q
      | inl good ↦
          rw (good, fail_job)
            (with_lease-IsQueue i.lease now (given_up p i now) t (λ c r. refl) (λ c a b. refl)
              (λ c a. refl) (given_up-passes i now) (given_up-has i now) q)
    ]

    -- Every call keeps what the table's checks and its two keys require, the range of the attempts
    -- and of the priority, and that a job that waits has been attempted fewer than three times.
    pub step-IsQueue : (c : Call Json) (t : Table Json) → IsQueue t → IsQueue (step p c t)
    unfolding step
    step-IsQueue (enqueues i id now) t q = enqueues-IsQueue i id now t q
    step-IsQueue (claims i token now locked) t q = claims-IsQueue i token now locked t q
    step-IsQueue (renews i now) t q = renews-IsQueue i now t q
    step-IsQueue (completes i now) t q = completes-IsQueue i now t q
    step-IsQueue (fails i now) t q = fails-IsQueue i now t q
