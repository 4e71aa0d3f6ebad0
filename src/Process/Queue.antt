-- ===== src/Process/Queue.antt =====
-- The queue of packages/process/src/service.ts: `makeProcessJobEnqueuer` and the operations on jobs
-- of `makeProcessService`. The table is the list of its rows, and a transaction, which locks the
-- rows that it reads, is one step. The identifier of a new row, the token of a lease, the time and
-- the rows that other transactions hold locked are arguments.
pub mod Rows
pub mod Phases
pub mod Checks
pub mod Claims
pub mod Once
use eclipse_erp.Base.{
  ℕ, ◌+◌, ◌*◌, Bool, true, false, not, ◌&&◌, ◌||◌, Option, none, some, List, [], ◌∷◌, ◌++◌, map,
  ltb, leb, if◌then◌else◌, any, find, filter,
}
use eclipse_erp.Base.Effect.{Result, ok, err}
use eclipse_erp.Base.Int.{ltb_ℤ}
use eclipse_erp.Text.{Text, text_eq}
use eclipse_erp.Text.Order.{text_lt}
use eclipse_erp.Messaging.Events.{Platform}
use eclipse_erp.Process.Jobs.{
  JobStatus, pending, leased, completed, failed, manual_recovery, Row, ProcessJob, DurableJobInput,
  DurableJob, ClaimInput, LeaseInput, FailInput, Failure, schema_error, job_not_found,
  job_lease_lost, job_corrupt, out_of_range, duplicate_key, int_max, is_leased, valid_enqueue,
  valid_claim, valid_lease, valid_fail, valid_job, to_process_job,
}

abbrev pub Table : Type 0 → Type 0
Table Json = List (Row Json)

abbrev pub lease_duration : ℕ
lease_duration = 5 * 60000

abbrev pub max_attempts : ℕ
max_attempts = 3

abbrev pub is_pending : JobStatus → Bool
is_pending pending = true
is_pending _ = false

-- `lte(column, t)` and `gt(column, t)` on a column that may be null.
abbrev pub null_or_after : Option ℕ → ℕ → Bool
null_or_after none t = false
null_or_after (some u) t = ltb t u

abbrev pub reached : Option ℕ → ℕ → Bool
reached none t = false
reached (some u) t = leb u t

abbrev pub text_is : Option Text → Text → Bool
text_is none t = false
text_is (some s) t = text_eq s t

module _ {Json : Type 0} where
  abbrev pub has_id : Text → Row Json → Bool
  has_id id r = text_eq r.id id

  -- The rows after `update … set … where …`, and the first row that it returns.
  unfoldable pub set_where : (Row Json → Bool) → (Row Json → Row Json) → Table Json → Table Json
  set_where p f [] = []
  set_where p f (r ∷ rs) = (if p r then f r else r) ∷ set_where p f rs

  unfoldable pub returning :
      (Row Json → Bool) → (Row Json → Row Json) → Table Json → Option (Row Json)
  returning p f t = elim (find p t) [ none ↦ none | some r ↦ some (f r) ]

  -- `orderBy(desc(priority), asc(scheduledAt), asc(id))`
  unfoldable pub precedes : Row Json → Row Json → Bool
  precedes a b =
      if ltb_ℤ b.priority a.priority
      then true
      else if ltb_ℤ a.priority b.priority
      then false
      else if ltb a.scheduled_at b.scheduled_at
      then true
      else if ltb b.scheduled_at a.scheduled_at
      then false
      else text_lt a.id b.id

  -- `limit(1)` of the rows in that order.
  unfoldable pub first : Table Json → Option (Row Json)
  first [] = none
  first (r ∷ rs) = elim (first rs) [
    | none ↦ some r
    | some best ↦ if precedes best r then some best else some r
  ]

  unfoldable pub same_key : DurableJobInput Json → Row Json → Bool
  same_key i r =
      text_eq r.tenant_id i.tenant_id
      && (text_eq r.job_type i.job_type && text_eq r.idempotency_key i.idempotency_key)

  abbrev pub durable_job : Row Json → DurableJob Json
  durable_job r = record {
    job_id = r.id;
    input = record {
      tenant_id = r.tenant_id;
      job_type = r.job_type;
      idempotency_key = r.idempotency_key;
      priority = r.priority;
      payload = r.payload;
      correlation_id = r.correlation_id;
    };
  }

  -- The row that the insertion makes, with the defaults of the table.
  abbrev pub new_row : DurableJobInput Json → (id : Text) → (now : ℕ) → Row Json
  new_row i id now = record {
    id = id;
    tenant_id = i.tenant_id;
    job_type = i.job_type;
    idempotency_key = i.idempotency_key;
    priority = i.priority;
    status = pending;
    scheduled_at = now;
    lease_until = none;
    lease_owner = none;
    lease_token = none;
    attempts = 0;
    payload = i.payload;
    last_error = none;
    correlation_id = i.correlation_id;
    completed_at = none;
    updated_at = now;
  }

  -- A row that a claim of the input may take. The database compares its `uuid` columns whatever the
  -- case of their letters; here identifiers are texts, written in one case.
  unfoldable pub claimable : ClaimInput → (now : ℕ) → Row Json → Bool
  claimable i now r =
      text_eq r.tenant_id i.tenant_id
      && (leb r.scheduled_at now
          && ((is_pending r.status || (is_leased r.status && reached r.lease_until now))
              && elim i.job_type [ none ↦ true | some type ↦ text_eq r.job_type type ]))

  abbrev pub lease_to : (worker token : Text) → (now : ℕ) → (attempts : ℕ) → Row Json → Row Json
  lease_to worker token now attempts r = record r {
    status = leased;
    lease_until = some (now + lease_duration);
    lease_owner = some worker;
    lease_token = some token;
    attempts = attempts;
    updated_at = now;
  }

  -- `eq(id, jobId)` and `eq(tenantId, tenantId)`
  abbrev pub is_job : LeaseInput → Row Json → Bool
  is_job i r = text_eq r.id i.job_id && text_eq r.tenant_id i.tenant_id

  -- The lease of the worker with the token, which has not expired.
  unfoldable pub holds : LeaseInput → (now : ℕ) → Row Json → Bool
  holds i now r =
      is_leased r.status
      && (null_or_after r.lease_until now
          && (text_is r.lease_owner i.worker_id && text_is r.lease_token i.lease_token))

  abbrev pub renewed : (now : ℕ) → Row Json → Row Json → Row Json
  renewed now current r = record r { lease_until = some (now + lease_duration); updated_at = now }

  abbrev pub done : (now : ℕ) → Row Json → Row Json → Row Json
  done now current r = record r {
    status = completed;
    lease_until = none;
    lease_owner = none;
    lease_token = none;
    completed_at = some now;
    updated_at = now;
  }

  -- `exhausted`
  abbrev pub is_exhausted : Row Json → Bool
  is_exhausted current = leb max_attempts current.attempts

  abbrev pub status_after : Row Json → (retry_at : Option Text) → JobStatus
  status_after current retry_at =
      if is_exhausted current
      then manual_recovery
      else elim retry_at [ none ↦ failed | some s ↦ pending ]

module _ {Json : Type 0} (p : Platform Json) where
  unfoldable pub enqueue :
      DurableJobInput Json
      → (id : Text) → (now : ℕ) → Table Json
      → Result Failure (DurableJob Json) × Table Json
  enqueue i id now t =
      if not (valid_enqueue p i) then (err schema_error, t) else elim (find (same_key i) t) [
        | some r ↦ (ok (durable_job r), t)
        | none ↦
            if any (has_id id) t
            then (err duplicate_key, t)
            else (ok (durable_job (new_row i id now)), t ++ (new_row i id now ∷ []))
      ]

  -- `decodeJob`
  unfoldable pub decode_job : LeaseInput → Row Json → Result Failure (ProcessJob Json)
  decode_job i r =
      let job = to_process_job p r in
      if valid_job p job then ok job else err (job_corrupt i.tenant_id i.job_id)

  -- What a claim answers for the row that its update returned.
  abbrev claimed : Text → Option (Row Json) → Result Failure (Option (ProcessJob Json))
  claimed tenant none = ok none
  claimed tenant (some r) =
      let job = to_process_job p r in
      if valid_job p job then ok (some job) else err (job_corrupt tenant r.id)

  -- The update of a claim.
  unfoldable pub lease_row :
      ClaimInput
      → (token : Text) → (now : ℕ) → Row Json
      → Table Json
      → Result Failure (Option (ProcessJob Json)) × Table Json
  lease_row i token now row t =
      let f = lease_to i.worker_id token now (row.attempts + 1) in
      if ltb int_max (row.attempts + 1)
      then (err out_of_range, t)
      else (claimed i.tenant_id (returning (has_id row.id) f t), set_where (has_id row.id) f t)

  unfoldable pub claim_job :
      ClaimInput
      → (token : Text) → (now : ℕ) → (locked : Text → Bool) → Table Json
      → Result Failure (Option (ProcessJob Json)) × Table Json
  claim_job i token now locked t =
      if not (valid_claim p i)
      then (err schema_error, t)
      else elim (first (filter (λ r. claimable i now r && not (locked r.id)) t)) [
        | none ↦ (ok none, t)
        | some row ↦ lease_row i token now row t
      ]

  -- The transaction that renewing, completing and failing share: the job, the test of its lease, and
  -- the update under the same conditions.
  unfoldable pub with_lease :
      LeaseInput
      → (now : ℕ) → (set : Row Json → Row Json → Row Json) → Table Json
      → Result Failure (ProcessJob Json) × Table Json
  with_lease i now set t = elim (find (is_job i) t) [
    | none ↦ (err (job_not_found i.tenant_id i.job_id), t)
    | some current ↦
        let q = λ (r : Row Json). is_job i r && holds i now r in
        if not (holds i now current)
        then (err (job_lease_lost i.tenant_id i.job_id), t)
        else elim (returning q (set current) t) [
          | none ↦ (err (job_lease_lost i.tenant_id i.job_id), set_where q (set current) t)
          | some r ↦ (decode_job i r, set_where q (set current) t)
        ]
  ]

  unfoldable pub renew_job :
      LeaseInput → (now : ℕ) → Table Json → Result Failure (ProcessJob Json) × Table Json
  renew_job i now t =
      if not (valid_lease p i) then (err schema_error, t) else with_lease i now (renewed now) t

  unfoldable pub complete_job :
      LeaseInput → (now : ℕ) → Table Json → Result Failure (ProcessJob Json) × Table Json
  complete_job i now t =
      if not (valid_lease p i) then (err schema_error, t) else with_lease i now (done now) t

  -- `new Date(retryAt)`, where the job is to be tried again; a date without a time is refused before.
  abbrev pub next_time : Row Json → Option Text → ℕ → ℕ
  next_time current none old = old
  next_time current (some s) old =
      if is_exhausted current then old else elim (p.time_of s) [ none ↦ old | some t ↦ t ]

  abbrev pub given_up : FailInput → (now : ℕ) → Row Json → Row Json → Row Json
  given_up i now current r = record r {
    status = status_after current i.retry_at;
    lease_until = none;
    lease_owner = none;
    lease_token = none;
    scheduled_at = next_time current i.retry_at r.scheduled_at;
    last_error = some i.error;
    completed_at = none;
    updated_at = now;
  }

  unfoldable pub fail_job :
      FailInput → (now : ℕ) → Table Json → Result Failure (ProcessJob Json) × Table Json
  fail_job i now t =
      if not (valid_fail p i)
      then (err schema_error, t)
      else with_lease i.lease now (given_up i now) t
