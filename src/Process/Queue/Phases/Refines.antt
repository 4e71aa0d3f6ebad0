-- ===== src/Process/Queue/Phases/Refines.antt =====
-- Every call of the queue moves each job as the machine allows: packages/process/src/service.ts.
use eclipse_erp.Base.{
  ℕ, ◌+◌, ◌≤◌, ◌<◌, ◌≡◌, refl, sym, ap, ◌∙◌, subst, ◌⊎◌, inl, inr, Bool, true, not, ◌&&◌, none,
  some, [], ◌∷◌, ◌++◌, arith, ltb, if◌then◌else◌, Bool-cases, Option-cases, any, find, filter,
}
use eclipse_erp.Text.{Text, text_eq, text_eq→eq}
use eclipse_erp.Messaging.Events.{Platform}
use eclipse_erp.Process.Jobs.{
  leased, Row, DurableJobInput, ClaimInput, LeaseInput, FailInput, valid_lease, valid_fail,
  valid_claim, valid_enqueue, int_max,
}
use eclipse_erp.Process.Queue.{
  Table, has_id, lease_duration, set_where, returning, is_job, holds, renewed, done, given_up,
  claimable, lease_to, lease_row, first, same_key, new_row, is_exhausted, is_pending, enqueue,
  claim_job, renew_job, complete_job, fail_job, with_lease,
}
use eclipse_erp.Process.Queue.Rows.{
  find-set_where, are_keyed, first-filter-find, all-first, all-filter_same, find_holds,
}
use eclipse_erp.Process.Queue.Phases.{
  refused, waiting, held, held_phase, phase_of, phase, Call, enqueues, claims, renews, completes,
  fails, Move, stay, arrive, take, take_over, repair, prolong, finish, retry, abandon, escalate,
  step,
}

module _ {Json : Type 0} where
  -- A row whose lease the caller holds.
  pub holds-held :
      (i : LeaseInput) (now : ℕ) (r : Row Json)
      → holds i now r ≡ true
      → (u : ℕ) × (now < u)
        × (phase_of r ≡ held i.worker_id i.lease_token u)
        × (r.status ≡ leased)
        × (r.lease_owner ≡ some i.worker_id)
        × (r.lease_token ≡ some i.lease_token)
  unfolding holds phase_of held_phase
  holds-held i now r h = elim (Option-cases r.lease_until) [
    | inl e ↦ absurd (ground (arith, h, e))
    | inr (u, e) ↦ elim (Option-cases r.lease_owner) [
      | inl f ↦ absurd (ground (arith, h, f))
      | inr (o, f) ↦ elim (Option-cases r.lease_token) [
        | inl g ↦ absurd (ground (arith, h, g))
        | inr (k, g) ↦
            let same_owner : o ≡ i.worker_id = text_eq→eq o i.worker_id (ground (arith, h, f)) in
            let same_token : k ≡ i.lease_token =
              text_eq→eq k i.lease_token (ground (arith, h, g)) in
            let is : r.status ≡ leased = ground (arith, h) in
            (
              u,
              ground (arith, h, e),
              ground (arith, is, e, f, g, same_owner, same_token),
              is,
              cc (f, same_owner),
              cc (g, same_token),
            )
      ]
    ]
  ]

  module _ (p : Platform Json) where
    -- What the shared transaction does to the table.
    pub with_lease-table :
        (i : LeaseInput) (now : ℕ) (set : Row Json → Row Json → Row Json) (t : Table Json)
        → ((with_lease p i now set t).1 ≡ t)
          ⊎ ((current : Row Json) × (find (is_job i) t ≡ some current)
              × (holds i now current ≡ true)
              × ((with_lease p i now set t).1
                  ≡ set_where (λ r. is_job i r && holds i now r) (set current) t))
    unfolding with_lease
    with_lease-table i now set t = elim (Option-cases (find (is_job i) t)) [
      | inl e ↦ inl (ground (arith, e))
      | inr (current, e) ↦ elim (Bool-cases (holds i now current)) [
        | inr h ↦ inl (ground (arith, e, h))
        | inl h ↦
            let q = λ (r : Row Json). is_job i r && holds i now r in
            elim (Option-cases (returning q (set current) t)) [
              | inl f ↦ inr (current, e, h, ground (arith, e, h, f))
              | inr (r, f) ↦ inr (current, e, h, ground (arith, e, h, f))
            ]
      ]
    ]

    -- So a job is left alone, or was held by the caller and is set.
    with_lease-phase :
        (i : LeaseInput) (now : ℕ) (set : Row Json → Row Json → Row Json) (t : Table Json)
        (k : Text)
        → ((c r : Row Json) → (set c r).id ≡ r.id)
        → (phase k (with_lease p i now set t).1 ≡ phase k t)
          ⊎ ((c : Row Json) × (r : Row Json) × (holds i now r ≡ true)
              × (phase k t ≡ phase_of r)
              × (phase k (with_lease p i now set t).1 ≡ phase_of (set c r)))
    with_lease-phase i now set t k keeps = elim (with_lease-table i now set t) [
      | inl e ↦ inl (ap (phase k) e)
      | inr (c, _, h, e) ↦
          let q = λ (r : Row Json). is_job i r && holds i now r in
          let found = find-set_where k q (set c) t (keeps c) in
          elim (Option-cases (find (has_id k) t)) [
            | inl missing ↦ inl (ground (arith, e, found, missing))
            | inr (r, there) ↦ elim (Bool-cases (q r)) [
              | inr other ↦ inl (ground (arith, e, found, there, other))
              | inl mine ↦ inr (
                c,
                r,
                ground (arith, mine),
                ground (arith, there),
                ground (arith, e, found, there, mine),
              )
            ]
          ]
    ]

    renews-Move :
        (i : LeaseInput) (now : ℕ) (t : Table Json) (k : Text)
        → Move {Json = Json} (renews i now) (phase k t) (phase k (renew_job p i now t).1)
    unfolding renew_job phase_of held_phase
    renews-Move i now t k = elim (Bool-cases (valid_lease p i)) [
      | inr bad ↦ stay (ground (arith, bad))
      | inl good ↦ elim (with_lease-phase i now (renewed now) t k (λ c r. refl)) [
        | inl same ↦ stay (ground (arith, good, same))
        | inr (c, r, h, before, after) ↦
            let (u, early, is, leased_r, owner, token) = holds-held i now r h in
            prolong u refl (before ∙ is) early (ground (arith, good, after, leased_r, owner, token))
      ]
    ]

    completes-Move :
        (i : LeaseInput) (now : ℕ) (t : Table Json) (k : Text)
        → Move {Json = Json} (completes i now) (phase k t) (phase k (complete_job p i now t).1)
    unfolding complete_job phase_of
    completes-Move i now t k = elim (Bool-cases (valid_lease p i)) [
      | inr bad ↦ stay (ground (arith, bad))
      | inl good ↦ elim (with_lease-phase i now (done now) t k (λ c r. refl)) [
        | inl same ↦ stay (ground (arith, good, same))
        | inr (c, r, h, before, after) ↦
            let (u, early, is, _, _, _) = holds-held i now r h in
            finish u refl (before ∙ is) early (ground (arith, good, after))
      ]
    ]

    fails-Move :
        (i : FailInput) (now : ℕ) (t : Table Json) (k : Text)
        → Move {Json = Json} (fails i now) (phase k t) (phase k (fail_job p i now t).1)
    unfolding fail_job phase_of
    fails-Move i now t k = elim (Bool-cases (valid_fail p i)) [
      | inr bad ↦ stay (ground (arith, bad))
      | inl good ↦ elim (with_lease-phase i.lease now (given_up p i now) t k (λ c r. refl)) [
        | inl same ↦ stay (ground (arith, good, same))
        | inr (c, r, h, before, after) ↦
            let (u, early, is, _, _, _) = holds-held i.lease now r h in
            elim (Bool-cases (is_exhausted c)) [
              | inl spent ↦ escalate u refl (before ∙ is) early (ground (arith, good, after, spent))
              | inr fresh ↦ elim (Option-cases i.retry_at) [
                | inl never ↦
                    abandon u refl (before ∙ is) early (ground (arith, good, after, fresh, never))
                | inr (s, e) ↦
                    retry u (given_up p i now c r).scheduled_at refl (before ∙ is) early
                      (ground (arith, good, after, fresh, e))
              ]
            ]
      ]
    ]

    find-append :
        (k : Text) (t : Table Json) (r : Row Json)
        → find (has_id k) (t ++ (r ∷ [])) ≡ elim (find (has_id k) t) [
          | none ↦ if has_id k r then some r else none
          | some x ↦ some x
        ]
    find-append k [] r = ground arith
    find-append k (x ∷ t) r = ground (arith, find-append k t r)

    enqueues-Move :
        (i : DurableJobInput Json) (id : Text) (now : ℕ) (t : Table Json) (k : Text)
        → Move {Json = Json} (enqueues i id now) (phase k t) (phase k (enqueue p i id now t).1)
    unfolding enqueue phase_of
    enqueues-Move i id now t k = elim (Bool-cases (valid_enqueue p i)) [
      | inr bad ↦ stay (ground (arith, bad))
      | inl good ↦ elim (Option-cases (find (same_key i) t)) [
        | inr (r, e) ↦ stay (ground (arith, good, e))
        | inl e ↦ elim (Bool-cases (any (has_id id) t)) [
          | inl taken ↦ stay (ground (arith, good, e, taken))
          | inr free ↦
              let put = find-append k t (new_row i id now) in
              elim (Option-cases (find (has_id k) t)) [
                | inr (x, there) ↦ stay (ground (arith, good, e, free, put, there))
                | inl missing ↦ elim (Bool-cases (text_eq id k)) [
                  | inr other ↦ stay (ground (arith, good, e, free, put, missing, other))
                  | inl own ↦
                      arrive refl (ground (arith, missing))
                        (ground (arith, good, e, free, put, missing, own))
                ]
              ]
        ]
      ]
    ]

    -- A row that a claim takes: it is due, or the lease that it shows has expired.
    claimable-phase :
        (i : ClaimInput) (now : ℕ) (r : Row Json)
        → claimable i now r ≡ true
        → ((u : ℕ) × (phase_of r ≡ waiting u) × (u ≤ now))
          ⊎ ((o : Text) × (k : Text) × (u : ℕ) × (phase_of r ≡ held o k u) × (u ≤ now))
          ⊎ (phase_of r ≡ refused)
    unfolding claimable phase_of held_phase
    claimable-phase i now r h = elim (Bool-cases (is_pending r.status)) [
      | inl waits ↦ inl (r.scheduled_at, ground (arith, waits), ground (arith, h))
      | inr leased_r ↦
          let is : r.status ≡ leased = ground (arith, h, leased_r) in
          elim (Option-cases r.lease_until) [
            | inl e ↦ absurd (ground (arith, h, is, e))
            | inr (u, e) ↦
                let early : u ≤ now = ground (arith, h, is, e) in
                elim (Option-cases r.lease_owner) [
                  | inl f ↦ inr (inr (ground (arith, is, e, f)))
                  | inr (o, f) ↦ elim (Option-cases r.lease_token) [
                    | inl g ↦ inr (inr (ground (arith, is, e, f, g)))
                    | inr (k, g) ↦ inr (inl (o, k, u, ground (arith, is, e, f, g), early))
                  ]
                ]
          ]
    ]

    claims-Move :
        (i : ClaimInput) (token : Text) (now : ℕ) (locked : Text → Bool) (t : Table Json) (k : Text)
        → are_keyed t ≡ true
        → Move {Json = Json}
            (claims i token now locked)
            (phase k t)
            (phase k (claim_job p i token now locked t).1)
    unfolding claim_job lease_row phase_of held_phase
    claims-Move i token now locked t k keyed = elim (Bool-cases (valid_claim p i)) [
      | inr bad ↦ stay (ground (arith, bad))
      | inl good ↦
          let q = λ (r : Row Json). claimable i now r && not (locked r.id) in
          elim (Option-cases (first (filter q t))) [
            | inl e ↦ stay (ground (arith, good, e))
            | inr (row, e) ↦ elim (Bool-cases (ltb int_max (row.attempts + 1))) [
              | inl big ↦ stay (ground (arith, good, e, big))
              | inr fits ↦
                  let f = lease_to i.worker_id token now (row.attempts + 1) in
                  let there = first-filter-find q t row keyed e in
                  let found = find-set_where k (has_id row.id) f t (λ r. refl) in
                  let may : q row ≡ true = all-first q (filter q t) row (all-filter_same q t) e in
                  elim (Option-cases (find (has_id k) t)) [
                    | inl missing ↦ stay (ground (arith, good, e, fits, found, missing))
                    | inr (r, here) ↦ elim (Bool-cases (text_eq r.id row.id)) [
                      | inr other ↦ stay (ground (arith, good, e, fits, found, here, other))
                      | inl own ↦
                          let own_key : r.id ≡ k =
                            text_eq→eq r.id k (find_holds (has_id k) t r here) in
                          let row_key : row.id ≡ k = sym (text_eq→eq r.id row.id own) ∙ own_key in
                          let same : find (has_id k) t ≡ some row =
                            subst (λ x. find (has_id x) t ≡ some row) row_key there in
                          let before : phase k t ≡ phase_of row = ground (arith, same) in
                          let after : phase k (claim_job p i token now locked t).1
                              ≡ held i.worker_id token (now + lease_duration) =
                            ground (arith, good, e, fits, found, here, own) in
                          elim (claimable-phase i now row (ground (arith, may))) [
                            | inl (u, is, due) ↦ take u refl (before ∙ is) due after
                            | inr (inl (o, old, u, is, due)) ↦
                                take_over o old u refl (before ∙ is) due after
                            | inr (inr is) ↦ repair refl (before ∙ is) after
                          ]
                    ]
                  ]
            ]
          ]
    ]

    -- Under every call, every job stays as it is or makes a move of the machine: it arrives by an
    -- enqueuing, is taken by a claim when it is due or when its lease has expired, and leaves a lease,
    -- or has it prolonged, only by a call with the worker and the token of the lease, made before it
    -- expires. A leased row that the table's own check of leases refuses may also be taken by any
    -- claim, whatever its metadata say. The identifiers of the rows differ.
    pub step-Move :
        (c : Call Json) (t : Table Json) (k : Text)
        → are_keyed t ≡ true
        → Move c (phase k t) (phase k (step p c t))
    unfolding step
    step-Move (enqueues i id now) t k keyed = enqueues-Move i id now t k
    step-Move (claims i token now locked) t k keyed = claims-Move i token now locked t k keyed
    step-Move (renews i now) t k keyed = renews-Move i now t k
    step-Move (completes i now) t k keyed = completes-Move i now t k
    step-Move (fails i now) t k keyed = fails-Move i now t k
