-- ===== src/Process/Queue/Claims/First.antt =====
-- Which job a claim takes: packages/process/src/service.ts.
use eclipse_erp.Base.{
  ℕ, ◌+◌, ◌≤◌, ◌<◌, ◌≡◌, ◌⊎◌, refl, sym, ap, subst, inl, inr, Bool, true, false, not, ◌&&◌, ◌||◌,
  Option, none, some, [], ◌∷◌, arith, any, find, Bool-cases,
}
use eclipse_erp.Base.Int.{ltb_ℤ}
use eclipse_erp.Base.Effect.{ok}
use eclipse_erp.Text.{Text, text_eq, text_eq_refl, text_eq→eq, text_eq_iff}
use eclipse_erp.Text.Order.{text_lt}
use eclipse_erp.Messaging.Events.{Platform}
use eclipse_erp.Process.Jobs.{
  Row, JobStatus, pending, leased, completed, failed, manual_recovery, ProcessJob, ClaimInput,
  valid_claim, is_leased, to_process_job,
}
use eclipse_erp.Process.Queue.{
  Table, has_id, precedes, claimable, is_pending, reached, lease_to, claim_job,
}
use eclipse_erp.Process.Queue.Rows.{are_keyed, all-find}
use eclipse_erp.Process.Queue.Claims.{claim_job-taken}

-- What the status and the lease allow.
open_to-IsFree :
    (s : JobStatus) (until : Option ℕ) (now : ℕ)
    → (is_pending s || (is_leased s && reached until now)) ≡ true
    → (s ≡ pending) ⊎ ((s ≡ leased) × (u : ℕ) × (until ≡ some u) × (u ≤ now))
open_to-IsFree pending until now h = inl refl
open_to-IsFree leased none now h = absurd (ground (arith, h))
open_to-IsFree leased (some u) now h = inr (refl, u, refl, ground (arith, h))
open_to-IsFree completed until now h = absurd (ground (arith, h))
open_to-IsFree failed until now h = absurd (ground (arith, h))
open_to-IsFree manual_recovery until now h = absurd (ground (arith, h))

asked :
    (o : Option Text) (type : Text)
    → (elim o [ none ↦ true | some t ↦ text_eq type t ]) ≡ true
    → (o ≡ none) ⊎ (o ≡ some type)
asked none type h = inl refl
asked (some t) type h = inr (ap some (sym (text_eq→eq type t h)))

open_to :
    (s : JobStatus) (until : Option ℕ) (now : ℕ)
    → (s ≡ pending) ⊎ ((s ≡ leased) × (u : ℕ) × (until ≡ some u) × (u ≤ now))
    → (is_pending s || (is_leased s && reached until now)) ≡ true
open_to s until now (inl e) = rw e refl
open_to s until now (inr (e, u, l, b)) = rw (e, l) (ground (arith, b))

asks :
    (o : Option Text) (type : Text)
    → (o ≡ none) ⊎ (o ≡ some type)
    → (elim o [ none ↦ true | some t ↦ text_eq type t ]) ≡ true
asks o type (inl e) = rw e refl
asks o type (inr e) = rw e (text_eq_refl type)

module _ {Json : Type 0} where
  -- The job is the caller's to take: of its tenant, due, waiting or held by a lease that has
  -- expired, of the type that is asked for, and locked by no other transaction.
  abbrev pub IsFree : ClaimInput → (now : ℕ) → (locked : Text → Bool) → Row Json → Type 0
  IsFree i now locked r =
      (r.tenant_id ≡ i.tenant_id)
      × (r.scheduled_at ≤ now)
      × ((r.status ≡ pending)
          ⊎ ((r.status ≡ leased) × (u : ℕ) × (r.lease_until ≡ some u) × (u ≤ now)))
      × ((i.job_type ≡ none) ⊎ (i.job_type ≡ some r.job_type))
      × (locked r.id ≡ false)

  -- The first job has the higher priority, or the same and the earlier time, or both the same and
  -- the lower identifier.
  abbrev pub IsBefore : Row Json → Row Json → Type 0
  IsBefore x r =
      (ltb_ℤ r.priority x.priority ≡ true)
      ⊎ ((x.priority ≡ r.priority)
          × ((x.scheduled_at < r.scheduled_at)
              ⊎ ((x.scheduled_at ≡ r.scheduled_at) × (text_lt x.id r.id ≡ true))))

  claimable-IsFree :
      (i : ClaimInput) (now : ℕ) (locked : Text → Bool) (r : Row Json)
      → (claimable i now r && not (locked r.id)) ≡ true
      → IsFree i now locked r
  unfolding claimable
  claimable-IsFree i now locked r h = (
    text_eq→eq r.tenant_id i.tenant_id (ground (arith, h)),
    ground (arith, h),
    open_to-IsFree r.status r.lease_until now (ground (arith, h)),
    asked i.job_type r.job_type (ground (arith, h)),
    ground (arith, h),
  )

  IsFree-claimable :
      (i : ClaimInput) (now : ℕ) (locked : Text → Bool) (r : Row Json)
      → IsFree i now locked r
      → (claimable i now r && not (locked r.id)) ≡ true
  unfolding claimable
  IsFree-claimable i now locked r (tenant, due, state, type, free) = ground (
    arith,
    text_eq_iff r.tenant_id i.tenant_id,
    tenant,
    due,
    open_to r.status r.lease_until now state,
    asks i.job_type r.job_type type,
    free,
  )

  precedes-IsBefore : (x r : Row Json) → IsBefore x r → precedes x r ≡ true
  unfolding precedes
  precedes-IsBefore x r (inl higher) = ground (arith, higher)
  precedes-IsBefore x r (inr (same, inl earlier)) = ground (arith, same, earlier)
  precedes-IsBefore x r (inr (same, inr (at_once, lower))) = ground (arith, same, at_once, lower)

  any-find :
      (q p : Row Json → Bool) (t : Table Json) (r : Row Json)
      → any q t ≡ false
      → find p t ≡ some r
      → q r ≡ false
  any-find q p [] r h e = absurd (ground (arith, e))
  any-find q p (x ∷ t) r h e = elim (Bool-cases (p x)) [
    | inl hit ↦
        let is : x ≡ r = ground (arith, e, hit) in subst (λ y. q y ≡ false) is (ground (arith, h))
    | inr miss ↦ any-find q p t r (ground (arith, h)) (ground (arith, e, miss))
  ]

  module _ (p : Platform Json) where
    -- Where the identifiers of the rows differ, the input passes its schema and the claim succeeds:
    -- a claim that answers no job leaves none that is its caller's to take, and a claim that answers
    -- a job answers one that was, with the caller's lease and one attempt more. No other job that
    -- was the caller's to take has a higher priority, or the same priority and an earlier time, or
    -- both the same and a lower identifier.
    pub claim_job-first :
        (i : ClaimInput) (token : Text) (now : ℕ) (locked : Text → Bool) (t : Table Json)
        (answer : Option (ProcessJob Json))
        → are_keyed t ≡ true
        → valid_claim p i ≡ true
        → (claim_job p i token now locked t).0 ≡ ok answer
        → ((answer ≡ none)
            × ((x : Row Json) → find (has_id x.id) t ≡ some x → ¬ (IsFree i now locked x)))
          ⊎ ((row : Row Json) × (find (has_id row.id) t ≡ some row)
              × IsFree i now locked row
              × ((x : Row Json)
                  → find (has_id x.id) t ≡ some x
                  → IsFree i now locked x
                  → ¬ (IsBefore x row))
              × (answer
                  ≡ some
                      (to_process_job p (lease_to i.worker_id token now (row.attempts + 1) row))))
    claim_job-first i token now locked t answer keyed valid h =
        let may = λ (r : Row Json). claimable i now r && not (locked r.id) in
        elim (claim_job-taken p i token now locked t answer keyed valid h) [
          | inl (nothing, no_free) ↦ inl (
            nothing,
            λ x found free.
                let taken = IsFree-claimable i now locked x free in
                ground (arith, taken, any-find may (has_id x.id) t x no_free found),
          )
          | inr (row, found, allowed, least, is) ↦ inr (
            row,
            found,
            claimable-IsFree i now locked row allowed,
            λ x there free before.
                let taken = IsFree-claimable i now locked x free in
                let late =
                  all-find (λ y. not (may y) || not (precedes y row)) (has_id x.id) t x least
                    there in
                ground (arith, taken, late, precedes-IsBefore x row before),
            is,
          )
        ]
