-- ===== src/Process/Queue/Phases/Leases.antt =====
-- Leases over sequences of calls: packages/process/src/service.ts.
use eclipse_erp.Base.{
  ℕ, ◌+◌, ◌≡◌, ◌≢◌, refl, sym, ◌∙◌, subst, inl, inr, Bool, true, false, not, ◌&&◌, some, List, [],
  ◌∷◌, arith, ltb, Bool-cases, Option-cases, any, all, find, filter, and_true,
}
use eclipse_erp.Base.Effect.{err}
use eclipse_erp.Text.{Text, text_eq, text_eq_iff}
use eclipse_erp.Messaging.Events.{Platform}
use eclipse_erp.Process.Jobs.{Row, LeaseInput, FailInput, job_lease_lost, valid_fail}
use eclipse_erp.Process.Queue.{
  Table, has_id, is_job, holds, renewed, done, given_up, claimable, lease_to, lease_row, first,
  new_row, enqueue, claim_job, renew_job, complete_job, fail_job, with_lease,
}
use eclipse_erp.Process.Queue.Rows.{are_keyed, are_keyed-set_where, are_keyed-append}
use eclipse_erp.Process.Queue.Phases.{
  Phase, abandoned, in_recovery, held, phase_of, phase, Call, enqueues, claims, renews, completes,
  fails, at, worker, token_of, Move, stay, arrive, take, take_over, repair, prolong, finish, retry,
  abandon, escalate, step, run,
}
use eclipse_erp.Process.Queue.Phases.Refines.{with_lease-table, step-Move, holds-held}

-- A call of another than the holder of a lease, made before the lease expires.
unfoldable pub is_stranger : {Json : Type 0} → (owner token : Text) → (until : ℕ) → Call Json → Bool
is_stranger owner token until c =
    ltb (at c) until && not (text_eq (worker c) owner && text_eq (token_of c) token)

abbrev pub is_settled : Phase → Bool
is_settled Phase.done = true
is_settled abandoned = true
is_settled in_recovery = true
is_settled _ = false

module _ {Json : Type 0} where
  stranger-not_holder :
      (c : Call Json) (o k : Text) (u v : ℕ)
      → is_stranger o k u c ≡ true
      → held o k u ≢ held (worker c) (token_of c) v
  unfolding is_stranger
  stranger-not_holder c o k u v s e =
      let own : o ≡ worker c = cc in
      let tok : k ≡ token_of c = cc in
      ground (arith, s, text_eq_iff (worker c) o, text_eq_iff (token_of c) k, own, tok)

  Move-held :
      (c : Call Json) (o k : Text) (u : ℕ) (w : Phase)
      → is_stranger o k u c ≡ true
      → Move c (held o k u) w
      → w ≡ held o k u
  unfolding is_stranger
  Move-held c o k u w s (stay e) = e
  Move-held c o k u w s (arrive kd e f) = cc
  Move-held c o k u w s (take v kd e le f) = cc
  Move-held c o k u w s (take_over o' k' v kd e le f) =
      let same : u ≡ v = cc in absurd (ground (arith, s, le, same))
  Move-held c o k u w s (repair kd e f) = cc
  Move-held c o k u w s (prolong v kd e lt f) = absurd (stranger-not_holder c o k u v s e)
  Move-held c o k u w s (finish v kd e lt f) = absurd (stranger-not_holder c o k u v s e)
  Move-held c o k u w s (retry v x kd e lt f) = absurd (stranger-not_holder c o k u v s e)
  Move-held c o k u w s (abandon v kd e lt f) = absurd (stranger-not_holder c o k u v s e)
  Move-held c o k u w s (escalate v kd e lt f) = absurd (stranger-not_holder c o k u v s e)

  Move-settled : (c : Call Json) (v w : Phase) → is_settled v ≡ true → Move c v w → w ≡ v
  Move-settled c v w s (stay e) = e
  Move-settled c v w s (arrive kd e f) = absurd (ground (arith, s, e))
  Move-settled c v w s (take u kd e le f) = absurd (ground (arith, s, e))
  Move-settled c v w s (take_over o k u kd e le f) = absurd (ground (arith, s, e))
  Move-settled c v w s (repair kd e f) = absurd (ground (arith, s, e))
  Move-settled c v w s (prolong u kd e lt f) = absurd (ground (arith, s, e))
  Move-settled c v w s (finish u kd e lt f) = absurd (ground (arith, s, e))
  Move-settled c v w s (retry u x kd e lt f) = absurd (ground (arith, s, e))
  Move-settled c v w s (abandon u kd e lt f) = absurd (ground (arith, s, e))
  Move-settled c v w s (escalate u kd e lt f) = absurd (ground (arith, s, e))

  module _ (p : Platform Json) where
    with_lease-keyed :
        (i : LeaseInput) (now : ℕ) (set : Row Json → Row Json → Row Json) (t : Table Json)
        → ((c r : Row Json) → (set c r).id ≡ r.id)
        → are_keyed t ≡ true
        → are_keyed (with_lease p i now set t).1 ≡ true
    with_lease-keyed i now set t keeps h = elim (with_lease-table p i now set t) [
      | inl e ↦ subst (λ x. are_keyed x ≡ true) (sym e) h
      | inr (c, _, _, e) ↦
          subst (λ x. are_keyed x ≡ true) (sym e)
            (are_keyed-set_where (λ r. is_job i r && holds i now r) (set c) t (keeps c) ∙ h)
    ]

    pub step-keyed :
        (c : Call Json) (t : Table Json) → are_keyed t ≡ true → are_keyed (step p c t) ≡ true
    unfolding step enqueue claim_job lease_row renew_job complete_job fail_job
    step-keyed (enqueues i id now) t h = elim (Bool-cases (any (has_id id) t)) [
      | inl taken ↦ ground (arith, h, taken)
      | inr free ↦ ground (arith, h, free, are_keyed-append t (new_row i id now) h free)
    ]
    step-keyed (claims i token now locked) t h =
        elim (Option-cases (first (filter (λ r. claimable i now r && not (locked r.id)) t))) [
          | inl e ↦ ground (arith, h, e)
          | inr (row, e) ↦ ground (
            arith,
            h,
            e,
            are_keyed-set_where (has_id row.id) (lease_to i.worker_id token now (row.attempts + 1))
                t (λ r. refl),
          )
        ]
    step-keyed (renews i now) t h =
        ground (arith, h, with_lease-keyed i now (renewed now) t (λ c r. refl) h)
    step-keyed (completes i now) t h =
        ground (arith, h, with_lease-keyed i now (done now) t (λ c r. refl) h)
    step-keyed (fails i now) t h =
        ground (arith, h, with_lease-keyed i.lease now (given_up p i now) t (λ c r. refl) h)

    -- Before a lease expires, no sequence of calls of others, with whatever tokens, changes or ends
    -- it: the job is still held by the worker, with the token and until the time of the lease. The
    -- identifiers of the rows differ.
    pub run-exclusive :
        (cs : List (Call Json)) (t : Table Json) (k owner token : Text) (until : ℕ)
        → are_keyed t ≡ true
        → phase k t ≡ held owner token until
        → all (is_stranger owner token until) cs ≡ true
        → phase k (run p cs t) ≡ held owner token until
    unfolding run
    run-exclusive [] t k owner token until u h s = h
    run-exclusive (c ∷ cs) t k owner token until u h s =
        let moved = subst (λ v. Move c v (phase k (step p c t))) h (step-Move p c t k u) in
        let (first_is, rest_are) =
          and_true (is_stranger owner token until c) (all (is_stranger owner token until) cs) s in
        run-exclusive cs (step p c t) k owner token until (step-keyed c t u)
          (Move-held c owner token until (phase k (step p c t)) first_is moved) rest_are

    -- A job that is completed, failed for good or in manual recovery stays so under every sequence
    -- of calls. The identifiers of the rows differ.
    pub run-settled :
        (cs : List (Call Json)) (t : Table Json) (k : Text)
        → are_keyed t ≡ true
        → is_settled (phase k t) ≡ true
        → phase k (run p cs t) ≡ phase k t
    unfolding run
    run-settled [] t k u h = refl
    run-settled (c ∷ cs) t k u h =
        let same = Move-settled c (phase k t) (phase k (step p c t)) h (step-Move p c t k u) in
        run-settled cs (step p c t) k (step-keyed c t u)
          (subst (λ v. is_settled v ≡ true) (sym same) h)
        ∙ same

    -- A caller that does not hold the lease of a job, since the worker or the token is another or
    -- the lease has expired, is told that the lease is lost, whether it renews, completes or fails
    -- the job, and the table stays as it is. The inputs pass their schemas.
    pub stale-lost :
        (i : FailInput) (now : ℕ) (t : Table Json) (r : Row Json) (owner token : Text) (until : ℕ)
        → valid_fail p i ≡ true
        → find (is_job i.lease) t ≡ some r
        → phase_of r ≡ held owner token until
        → (text_eq owner i.lease.worker_id && (text_eq token i.lease.lease_token && ltb now until))
          ≡ false
        → let lost = err (job_lease_lost i.lease.tenant_id i.lease.job_id) in
          (renew_job p i.lease now t ≡ (lost, t))
          × (complete_job p i.lease now t ≡ (lost, t))
          × (fail_job p i now t ≡ (lost, t))
    unfolding renew_job complete_job fail_job with_lease valid_fail
    stale-lost i now t r owner token until v f h s =
        let not_held : holds i.lease now r ≡ false = elim (Bool-cases (holds i.lease now r)) [
          | inr no_hold ↦ no_hold
          | inl hold ↦
              let (u, early, is, _, _, _) = holds-held i.lease now r hold in
              let eq : held owner token until ≡ held i.lease.worker_id i.lease.lease_token u =
                sym h ∙ is in
              let own : owner ≡ i.lease.worker_id = cc in
              let tok : token ≡ i.lease.lease_token = cc in
              let tim : until ≡ u = cc in
              absurd (
                ground (
                  arith,
                  s,
                  early,
                  text_eq_iff owner i.lease.worker_id,
                  text_eq_iff token i.lease.lease_token,
                  own,
                  tok,
                  tim,
                ))
        ] in
        (
          ground (arith, v, f, not_held),
          ground (arith, v, f, not_held),
          ground (arith, v, f, not_held),
        )
