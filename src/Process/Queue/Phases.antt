-- ===== src/Process/Queue/Phases.antt =====
-- What the queue of packages/process/src/service.ts promises of one job: a machine whose moves are
-- guarded by the lease, and the calls of the queue as steps.
pub mod Refines
pub mod Leases
use eclipse_erp.Base.{
  ℕ, ◌+◌, ◌≤◌, ◌<◌, ◌≡◌, Bool, true, false, Option, none, some, List, [], ◌∷◌, find,
}
use eclipse_erp.Text.{Text}
use eclipse_erp.Messaging.Events.{Platform}
use eclipse_erp.Process.Jobs.{
  JobStatus, pending, leased, completed, failed, manual_recovery, Row, DurableJobInput, ClaimInput,
  LeaseInput, FailInput,
}
use eclipse_erp.Process.Queue.{
  Table, has_id, lease_duration, enqueue, claim_job, renew_job, complete_job, fail_job,
}

-- A leased row without the metadata of its lease is what the table's check refuses.
pub data Phase : Type 0 where
  absent done abandoned in_recovery refused : Phase
  waiting : (from : ℕ) → Phase
  held : (owner token : Text) → (until : ℕ) → Phase

unfoldable pub held_phase : (owner token : Option Text) → (until : Option ℕ) → Phase
held_phase (some o) (some k) (some u) = held o k u
held_phase _ _ _ = refused

module _ {Json : Type 0} where
  unfoldable pub phase_of : Row Json → Phase
  phase_of r = elim r.status [
    | pending ↦ waiting r.scheduled_at
    | leased ↦ held_phase r.lease_owner r.lease_token r.lease_until
    | completed ↦ done
    | failed ↦ abandoned
    | manual_recovery ↦ in_recovery
  ]

  abbrev pub phase_or_absent : Option (Row Json) → Phase
  phase_or_absent none = absent
  phase_or_absent (some r) = phase_of r

  abbrev pub phase : Text → Table Json → Phase
  phase k t = phase_or_absent (find (has_id k) t)

pub data Kind : Type 0 where
  enqueuing claiming renewing completing failing : Kind

-- A call of the queue with the time at which it is made.
pub data Call (Json : Type 0) : Type 0 where
  enqueues : DurableJobInput Json → (id : Text) → (now : ℕ) → Call Json
  claims : ClaimInput → (token : Text) → (now : ℕ) → (locked : Text → Bool) → Call Json
  renews completes : LeaseInput → (now : ℕ) → Call Json
  fails : FailInput → (now : ℕ) → Call Json

module _ {Json : Type 0} where
  abbrev pub kind : Call Json → Kind
  kind (enqueues i id now) = enqueuing
  kind (claims i token now locked) = claiming
  kind (renews i now) = renewing
  kind (completes i now) = completing
  kind (fails i now) = failing

  abbrev pub at : Call Json → ℕ
  at (enqueues i id now) = now
  at (claims i token now locked) = now
  at (renews i now) = now
  at (completes i now) = now
  at (fails i now) = now

  -- Who calls, and with which token.
  abbrev pub worker : Call Json → Text
  worker (enqueues i id now) = []
  worker (claims i token now locked) = i.worker_id
  worker (renews i now) = i.worker_id
  worker (completes i now) = i.worker_id
  worker (fails i now) = i.lease.worker_id

  abbrev pub token_of : Call Json → Text
  token_of (enqueues i id now) = []
  token_of (claims i token now locked) = token
  token_of (renews i now) = i.lease_token
  token_of (completes i now) = i.lease_token
  token_of (fails i now) = i.lease.lease_token

  -- The moves of a job under a call. Only a claim takes a job, when it is due or its lease has
  -- expired, or it shows no lease that the table accepts; only the call of the holder, before the lease expires, prolongs or ends the lease.
  pub data Move (c : Call Json) (v w : Phase) : Type 0 where
    stay : w ≡ v → Move c v w
    arrive : kind c ≡ enqueuing → v ≡ absent → w ≡ waiting (at c) → Move c v w
    take :
        (u : ℕ)
        → kind c ≡ claiming
        → v ≡ waiting u
        → u ≤ at c
        → w ≡ held (worker c) (token_of c) (at c + lease_duration)
        → Move c v w
    take_over :
        (o k : Text) (u : ℕ)
        → kind c ≡ claiming
        → v ≡ held o k u
        → u ≤ at c
        → w ≡ held (worker c) (token_of c) (at c + lease_duration)
        → Move c v w
    repair :
        kind c ≡ claiming
        → v ≡ refused
        → w ≡ held (worker c) (token_of c) (at c + lease_duration)
        → Move c v w
    prolong :
        (u : ℕ)
        → kind c ≡ renewing
        → v ≡ held (worker c) (token_of c) u
        → at c < u
        → w ≡ held (worker c) (token_of c) (at c + lease_duration)
        → Move c v w
    finish :
        (u : ℕ)
        → kind c ≡ completing
        → v ≡ held (worker c) (token_of c) u
        → at c < u
        → w ≡ done
        → Move c v w
    retry :
        (u from : ℕ)
        → kind c ≡ failing
        → v ≡ held (worker c) (token_of c) u
        → at c < u
        → w ≡ waiting from
        → Move c v w
    abandon :
        (u : ℕ)
        → kind c ≡ failing
        → v ≡ held (worker c) (token_of c) u
        → at c < u
        → w ≡ abandoned
        → Move c v w
    escalate :
        (u : ℕ)
        → kind c ≡ failing
        → v ≡ held (worker c) (token_of c) u
        → at c < u
        → w ≡ in_recovery
        → Move c v w

module _ {Json : Type 0} (p : Platform Json) where
  unfoldable pub step : Call Json → Table Json → Table Json
  step (enqueues i id now) t = (enqueue p i id now t).1
  step (claims i token now locked) t = (claim_job p i token now locked t).1
  step (renews i now) t = (renew_job p i now t).1
  step (completes i now) t = (complete_job p i now t).1
  step (fails i now) t = (fail_job p i now t).1

  unfoldable pub run : List (Call Json) → Table Json → Table Json
  run [] t = t
  run (c ∷ cs) t = run cs (step c t)
