-- ===== src/Process/Jobs.antt =====
-- The jobs of packages/process/src/service.ts: rows of the table `process.jobs`, what callers read
-- and write, and the checks of the schemas. Times are milliseconds.
use eclipse_erp.Base.{ℕ, Bool, true, false, not, ◌&&◌, ◌||◌, Option, none, some, leb, if◌then◌else◌}
use eclipse_erp.Base.Int.{ℤ, pos, negsuc, leb_ℤ}
use eclipse_erp.Text.{Text, codes, text_eq, non_empty_string}
use eclipse_erp.Messaging.Events.{Platform, instant_string}

pub data JobStatus : Type 0 where
  pending leased completed failed manual_recovery : JobStatus

-- A row of `processJobs`.
pub record Row (Json : Type 0) : Type 0 where
  pub id : Text
  pub tenant_id : Text
  pub job_type : Text
  pub idempotency_key : Text
  pub priority : ℤ
  pub status : JobStatus
  pub scheduled_at : ℕ
  pub lease_until : Option ℕ
  pub lease_owner : Option Text
  pub lease_token : Option Text
  pub attempts : ℕ
  pub payload : Json
  pub last_error : Option Text
  pub correlation_id : Text
  pub completed_at : Option ℕ
  pub updated_at : ℕ

-- `ProcessJob`
pub record ProcessJob (Json : Type 0) : Type 0 where
  pub job_id : Text
  pub tenant_id : Text
  pub job_type : Text
  pub idempotency_key : Text
  pub priority : ℤ
  pub status : JobStatus
  pub scheduled_at : Text
  pub lease_until : Option Text
  pub lease_owner : Option Text
  pub lease_token : Option Text
  pub attempts : ℕ
  pub payload : Json
  pub correlation_id : Text

pub record DurableJobInput (Json : Type 0) : Type 0 where
  pub tenant_id : Text
  pub job_type : Text
  pub idempotency_key : Text
  pub priority : ℤ
  pub payload : Json
  pub correlation_id : Text

pub record DurableJob (Json : Type 0) : Type 0 where
  pub job_id : Text
  pub input : DurableJobInput Json

pub record ClaimInput : Type 0 where
  pub tenant_id : Text
  pub worker_id : Text
  pub job_type : Option Text

-- `ProcessJobRenewInput` and `ProcessJobCompleteInput`
pub record LeaseInput : Type 0 where
  pub tenant_id : Text
  pub worker_id : Text
  pub job_id : Text
  pub lease_token : Text

-- `ProcessJobFailInput`: the lease with the error, and the time of the next attempt.
pub record FailInput : Type 0 where
  pub lease : LeaseInput
  pub error : Text
  pub retry_at : Option Text

-- The last two are the errors of the database: a number that does not fit an `integer` column, and
-- a key that is there.
pub data Failure : Type 0 where
  schema_error : Failure
  job_not_found job_lease_lost job_corrupt : (tenant_id job_id : Text) → Failure
  out_of_range duplicate_key : Failure

abbrev pub int_max : ℕ
int_max = 2147483647

-- `PostgresInt`
unfoldable pub postgres_int : ℤ → Bool
postgres_int n = leb_ℤ (negsuc int_max) n && leb_ℤ n (pos int_max)

-- `ProcessJobType`
unfoldable pub is_job_type : Text → Bool
is_job_type s =
    text_eq s (codes "process.order_confirmation.post_commit")
    || (text_eq s (codes "process.order_cancellation.post_commit")
        || (text_eq s (codes "process.order_fulfillment.post_commit")
            || (text_eq s (codes "accounting.financial_operation.submit")
                || text_eq s (codes "accounting.financial_operation.reconcile"))))

abbrev pub optional : (Text → Bool) → Option Text → Bool
optional p none = true
optional p (some s) = p s

abbrev pub is_some {ℓ} : {A : Type ℓ} → Option A → Bool
is_some none = false
is_some (some a) = true

abbrev pub is_leased : JobStatus → Bool
is_leased leased = true
is_leased _ = false

-- The filter of the schema and the check `process_jobs_lease_state_check`: the metadata of a lease
-- are all there in a leased job, and none is in another.
unfoldable pub lease_state {ℓ} :
    {A : Type ℓ} → JobStatus → Option A → (owner token : Option Text) → Bool
lease_state status until owner token =
    if is_leased status
    then is_some until && (is_some owner && is_some token)
    else not (is_some until) && (not (is_some owner) && not (is_some token))

module _ {Json : Type 0} (p : Platform Json) where
  unfoldable pub valid_enqueue : DurableJobInput Json → Bool
  valid_enqueue i =
      p.is_uuid i.tenant_id
      && (non_empty_string i.job_type
          && (non_empty_string i.idempotency_key
              && (postgres_int i.priority
                  && (non_empty_string i.correlation_id && is_job_type i.job_type))))

  unfoldable pub valid_claim : ClaimInput → Bool
  valid_claim i =
      p.is_uuid i.tenant_id && (non_empty_string i.worker_id && optional is_job_type i.job_type)

  unfoldable pub valid_lease : LeaseInput → Bool
  valid_lease i =
      p.is_uuid i.tenant_id
      && (non_empty_string i.worker_id && (p.is_uuid i.job_id && p.is_uuid i.lease_token))

  unfoldable pub valid_fail : FailInput → Bool
  valid_fail i =
      valid_lease i.lease && (non_empty_string i.error && optional (instant_string p) i.retry_at)

  -- The checks of `ProcessJob`.
  unfoldable pub valid_job : ProcessJob Json → Bool
  valid_job j =
      p.is_uuid j.job_id
      && (p.is_uuid j.tenant_id
          && (is_job_type j.job_type
              && (non_empty_string j.idempotency_key
                  && (postgres_int j.priority
                      && (instant_string p j.scheduled_at
                          && (optional (instant_string p) j.lease_until
                              && (optional non_empty_string j.lease_owner
                                  && (optional p.is_uuid j.lease_token
                                      && (leb j.attempts int_max
                                          && (non_empty_string j.correlation_id
                                              && lease_state j.status j.lease_until j.lease_owner
                                                  j.lease_token))))))))))

  abbrev iso : Option ℕ → Option Text
  iso none = none
  iso (some t) = some (p.iso_string t)

  unfoldable pub to_process_job : Row Json → ProcessJob Json
  to_process_job r = record {
    job_id = r.id;
    tenant_id = r.tenant_id;
    job_type = r.job_type;
    idempotency_key = r.idempotency_key;
    priority = r.priority;
    status = r.status;
    scheduled_at = p.iso_string r.scheduled_at;
    lease_until = iso r.lease_until;
    lease_owner = r.lease_owner;
    lease_token = r.lease_token;
    attempts = r.attempts;
    payload = r.payload;
    correlation_id = r.correlation_id;
  }
