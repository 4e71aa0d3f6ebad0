-- ===== src/Tests/Process.antt =====
-- Two jobs, and workers that claim them.
use eclipse_erp.Base.{
  ℕ, ◌+◌, ◌-◌, ◌≤◌, ◌≡◌, refl, ◌⊎◌, true, Option, none, some, List, [], ◌∷◌, find, map, length,
}
use eclipse_erp.Base.Effect.{ok}
use eclipse_erp.Base.Int.{ℤ, pos, negsuc}
use eclipse_erp.Text.{Text, codes, text_eq, non_empty_string}
use eclipse_erp.Text.Order.{text_lt}
use eclipse_erp.Text.Decimal.{is_digit}
use eclipse_erp.Kernel.Amount.{span_digits}
use eclipse_erp.Messaging.Events.{
  Platform, instant_string, iso_timestamp, after_template, is_fraction_zone, is_zone,
}
use eclipse_erp.Process.Jobs.{
  leased, Row, ProcessJob, DurableJobInput, DurableJob, ClaimInput, LeaseInput, FailInput,
  is_job_type, postgres_int, lease_state, valid_enqueue, valid_claim, valid_lease, valid_fail,
  valid_job, to_process_job,
}
use eclipse_erp.Process.Queue.{
  Table, has_id, set_where, returning, precedes, first, same_key, claimable, holds, lease_to,
  enqueue, decode_job, lease_row, claim_job, with_lease, renew_job, complete_job, fail_job,
}
use eclipse_erp.Process.Queue.Rows.{are_apart}
use eclipse_erp.Process.Queue.Phases.{
  Phase, held, waiting, held_phase, phase_of, phase, Call, enqueues, claims, completes, fails, Move,
  step, run,
}
use eclipse_erp.Process.Queue.Phases.Refines.{step-Move}
use eclipse_erp.Process.Queue.Phases.Leases.{is_stranger, run-exclusive}
use eclipse_erp.Process.Queue.Checks.{IsQueue, step-IsQueue}
use eclipse_erp.Process.Queue.Claims.First.{IsFree, IsBefore, claim_job-first}
use eclipse_erp.Process.Queue.Claims.Drain.{count, has_room, unlocked, may, claims-drain}

abbrev platform : Platform ℕ
platform = record {
  is_uuid = non_empty_string;
  equals = λ a b. true;
  time_of = λ s. some 900000;
  iso_string = λ t. codes "2026-01-01T00:00:00Z";
}

abbrev job : Text → ℤ → DurableJobInput ℕ
job key priority = record {
  tenant_id = codes "t";
  job_type = codes "process.order_confirmation.post_commit";
  idempotency_key = key;
  priority = priority;
  payload = 1;
  correlation_id = codes "c";
}

abbrev one : Table ℕ
one = (enqueue platform (job (codes "k1") (negsuc 4)) (codes "j1") 100 []).1

-- The second job is enqueued later and is more urgent.
abbrev two : Table ℕ
two = (enqueue platform (job (codes "k2") (pos 100)) (codes "j2") 200 one).1

abbrev who : Text → ClaimInput
who worker = record { tenant_id = codes "t"; worker_id = worker; job_type = none }

abbrev lease : (worker job token : Text) → LeaseInput
lease worker job token = record {
  tenant_id = codes "t";
  worker_id = worker;
  job_id = job;
  lease_token = token;
}

abbrev taken : Table ℕ
taken = (claim_job platform (who (codes "ann")) (codes "a") 300 unlocked two).1

abbrev ended : Table ℕ
ended = (complete_job platform (lease (codes "ann") (codes "j2") (codes "a")) 400 taken).1

abbrev gives_up : Text → Text → FailInput
gives_up worker token = record {
  lease = lease worker (codes "j2") token;
  error = codes "no answer";
  retry_at = some (codes "2026-01-01T00:15:00Z");
}

running : ℕ
unfolding enqueue claim_job lease_row renew_job complete_job fail_job with_lease decode_job
    returning set_where first precedes text_lt same_key claimable holds valid_enqueue valid_claim
    valid_lease valid_fail valid_job to_process_job lease_state is_job_type postgres_int
    instant_string iso_timestamp after_template is_fraction_zone is_zone is_digit span_digits
    non_empty_string text_eq are_apart phase_of held_phase is_stranger step run count has_room
running = 0

taken_test : phase (codes "j2") taken ≡ held (codes "ann") (codes "a") 300300
unfolding running
taken_test = refl

ended_test : phase (codes "j2") ended ≡ Phase.done
unfolding running
ended_test = refl

retried_test :
    phase (codes "j2") (fail_job platform (gives_up (codes "ann") (codes "a")) 400 taken).1
    ≡ waiting 900000
unfolding running
retried_test = refl

-- A claim after the lease expired takes the job over.
over_test :
    phase (codes "j2") (claim_job platform (who (codes "bob")) (codes "b") 300300 unlocked taken).1
    ≡ held (codes "bob") (codes "b") 600300
unfolding running
over_test = refl

step-Move_example :
    Move {Json = ℕ}
      (claims (who (codes "ann")) (codes "a") 300 unlocked)
      (phase (codes "j2") two)
      (phase (codes "j2") (step platform (claims (who (codes "ann")) (codes "a") 300 unlocked) two))
unfolding running
step-Move_example =
    step-Move platform (claims (who (codes "ann")) (codes "a") 300 unlocked) two (codes "j2") refl

abbrev others : List (Call ℕ)
others =
    (claims (who (codes "bob")) (codes "b") 310 unlocked)
    ∷ ((completes (lease (codes "bob") (codes "j2") (codes "a")) 320)
        ∷ ((fails (gives_up (codes "ann") (codes "old")) 330) ∷ []))

run-exclusive_example :
    phase (codes "j2") (run platform others taken) ≡ held (codes "ann") (codes "a") 300300
unfolding running
run-exclusive_example =
    run-exclusive platform others taken (codes "j2") (codes "ann") (codes "a") 300300 refl refl refl

abbrev taken_row : Row ℕ
taken_row = record {
  id = codes "j2";
  tenant_id = codes "t";
  job_type = codes "process.order_confirmation.post_commit";
  idempotency_key = codes "k2";
  priority = pos 100;
  status = leased;
  scheduled_at = 200;
  lease_until = some 300300;
  lease_owner = some (codes "ann");
  lease_token = some (codes "a");
  attempts = 1;
  payload = 1;
  last_error = none;
  correlation_id = codes "c";
  completed_at = none;
  updated_at = 300;
}

empty-IsQueue : IsQueue {Json = ℕ} []
unfolding are_apart
empty-IsQueue = record { keyed = refl; unique = refl; checked = refl; bounded = refl }

one-IsQueue : IsQueue one
unfolding step
one-IsQueue =
    step-IsQueue platform (enqueues (job (codes "k1") (negsuc 4)) (codes "j1") 100) [] empty-IsQueue

step-IsQueue_example :
    IsQueue (step platform (enqueues (job (codes "k2") (pos 100)) (codes "j2") 200) one)
step-IsQueue_example =
    step-IsQueue platform (enqueues (job (codes "k2") (pos 100)) (codes "j2") 200) one one-IsQueue

abbrev first_answer : Option (ProcessJob ℕ)
first_answer = some (to_process_job platform taken_row)

claim_job-first_example :
    ((first_answer ≡ none)
      × ((x : Row ℕ)
          → find (has_id x.id) two ≡ some x
          → ¬ (IsFree (who (codes "ann")) 300 unlocked x)))
    ⊎ ((row : Row ℕ) × (find (has_id row.id) two ≡ some row)
        × IsFree (who (codes "ann")) 300 unlocked row
        × ((x : Row ℕ)
            → find (has_id x.id) two ≡ some x
            → IsFree (who (codes "ann")) 300 unlocked x
            → ¬ (IsBefore x row))
        × (first_answer
            ≡ some (
                to_process_job platform
                  (lease_to (codes "ann") (codes "a") 300 (row.attempts + 1) row))))
unfolding running
claim_job-first_example =
    claim_job-first platform (who (codes "ann")) (codes "a") 300 unlocked two first_answer refl refl
      refl

abbrev tokens : List Text
tokens = codes "a" ∷ (codes "b" ∷ [])

abbrev drained : Table ℕ
drained = run platform (map (λ (k : Text). claims (who (codes "ann")) k 300 unlocked) tokens) two

claims-drain_example :
    (count (may (who (codes "ann")) 300) drained
      ≡ count (may (who (codes "ann")) 300) two - length tokens)
    × (count (may (who (codes "ann")) 300) two ≤ length tokens
        → claim_job platform (who (codes "ann")) (codes "c") 300 unlocked drained
          ≡ (ok none, drained))
unfolding running
claims-drain_example =
    claims-drain platform (who (codes "ann")) tokens (codes "c") 300 two refl refl refl

abbrev first_job : DurableJob ℕ
first_job = record { job_id = codes "j2"; input = job (codes "k2") (pos 100) }
