-- ===== src/Process/Queue/Claims/Drain.antt =====
-- A caller that keeps claiming gets every job that it may take: packages/process/src/service.ts.
use eclipse_erp.Base.{
  ℕ, ◌+◌, ◌-◌, ◌≤◌, ◌≡◌, refl, sym, subst, inl, inr, Bool, true, false, not, ◌&&◌, ◌||◌, none, some,
  List, [], ◌∷◌, map, arith, ltb, if◌then◌else◌, Bool-cases, Option-cases, any, all, find, filter,
  length,
}
use eclipse_erp.Base.Effect.{ok}
use eclipse_erp.Text.{Text, text_eq, text_eq→eq}
use eclipse_erp.Messaging.Events.{Platform}
use eclipse_erp.Process.Jobs.{Row, ClaimInput, valid_claim, int_max}
use eclipse_erp.Process.Queue.{
  Table, has_id, set_where, first, claimable, lease_to, lease_row, claim_job,
}
use eclipse_erp.Process.Queue.Rows.{
  are_apart, are_keyed, first-filter-find, all-first, all-filter_same, are_keyed-set_where,
  all-set_where, all-true, all-find,
}
use eclipse_erp.Process.Queue.Phases.{claims, step, run}

-- No row is locked by another transaction.
abbrev pub unlocked : Text → Bool
unlocked id = false

module _ {Json : Type 0} where
  unfoldable pub count : (Row Json → Bool) → Table Json → ℕ
  count q [] = 0
  count q (r ∷ t) = (if q r then 1 else 0) + count q t

  -- An update of rows that are not there.
  set_where-other :
      (k : Text) (f : Row Json → Row Json) (t : Table Json)
      → any (has_id k) t ≡ false
      → set_where (has_id k) f t ≡ t
  unfolding set_where
  set_where-other k f [] h = refl
  set_where-other k f (r ∷ t) h = ground (arith, h, set_where-other k f t)

  -- An update that ends what is counted of its row takes one off the count.
  count-set_where :
      (q : Row Json → Bool) (k : Text) (f : Row Json → Row Json) (t : Table Json) (row : Row Json)
      → are_keyed t ≡ true
      → find (has_id k) t ≡ some row
      → q row ≡ true
      → q (f row) ≡ false
      → count q (set_where (has_id k) f t) + 1 ≡ count q t
  unfolding count set_where are_apart
  count-set_where q k f [] row u e h g = cc
  count-set_where q k f (r ∷ t) row u e h g = elim (Bool-cases (text_eq r.id k)) [
    | inr other ↦ ground (arith, other, e, h, g, count-set_where q k f t row (ground (arith, u)))
    | inl own ↦
        let is : r ≡ row = ground (arith, e, own) in
        let here : q r ≡ true = subst (λ x. q x ≡ true) (sym is) h in
        let gone : q (f r) ≡ false = subst (λ x. q (f x) ≡ false) (sym is) g in
        let alone : any (has_id k) t ≡ false =
          subst (λ x. any (has_id x) t ≡ false) (text_eq→eq r.id k own) (ground (arith, u)) in
        ground (arith, own, here, gone, set_where-other k f t alone)
  ]

  none_counted : (q : Row Json → Bool) (t : Table Json) → count q t ≡ 0 → any q t ≡ false
  unfolding count
  none_counted q [] h = refl
  none_counted q (r ∷ t) h = ground (arith, h, none_counted q t)

  none-filter : (q : Row Json → Bool) (t : Table Json) → any q t ≡ false → filter q t ≡ []
  none-filter q [] h = refl
  none-filter q (r ∷ t) h = ground (arith, h, none-filter q t)

  abbrev pub may : ClaimInput → (now : ℕ) → Row Json → Bool
  may i now r = claimable i now r && not (unlocked r.id)

  -- A job that may be taken can be counted as one more attempt.
  unfoldable pub has_room : ClaimInput → (now : ℕ) → Row Json → Bool
  has_room i now r = not (may i now r) || ltb r.attempts int_max

  lease_to-taken :
      (i : ClaimInput) (worker token : Text) (now attempts : ℕ) (r : Row Json)
      → may i now (lease_to worker token now attempts r) ≡ false
  unfolding claimable
  lease_to-taken i worker token now attempts r = ground arith

  count-first : (q : Row Json → Bool) (t : Table Json) → first (filter q t) ≡ none → count q t ≡ 0
  unfolding count first
  count-first q [] h = refl
  count-first q (r ∷ t) h = ground (arith, h, count-first q t)

  row_fits :
      (i : ClaimInput) (now : ℕ) (r : Row Json)
      → has_room i now r ≡ true
      → may i now r ≡ true
      → ltb int_max (r.attempts + 1) ≡ false
  unfolding has_room
  row_fits i now r h m = ground (arith, h, m)

  room-lease :
      (i : ClaimInput) (now : ℕ) (worker token : Text) (attempts : ℕ) (r : Row Json)
      → has_room i now (lease_to worker token now attempts r) ≡ true
  unfolding has_room
  room-lease i now worker token attempts r =
      ground (arith, lease_to-taken i worker token now attempts r)

  module _ (p : Platform Json) where
    claim-none :
        (i : ClaimInput) (token : Text) (now : ℕ) (t : Table Json)
        → valid_claim p i ≡ true
        → count (may i now) t ≡ 0
        → claim_job p i token now unlocked t ≡ (ok none, t)
    unfolding claim_job first
    claim-none i token now t valid h =
        let empty = none-filter (may i now) t (none_counted (may i now) t h) in
        ground (arith, valid, empty)

    -- One claim takes one job, if there is one.
    claim-counts :
        (i : ClaimInput) (token : Text) (now : ℕ) (t : Table Json)
        → are_keyed t ≡ true
        → valid_claim p i ≡ true
        → all (has_room i now) t ≡ true
        → let after = (claim_job p i token now unlocked t).1 in
          (count (may i now) after ≡ count (may i now) t - 1)
          × (are_keyed after ≡ true)
          × (all (has_room i now) after ≡ true)
    unfolding claim_job lease_row
    claim-counts i token now t keyed valid room =
        elim (Option-cases (first (filter (may i now) t))) [
          | inl e ↦ (
            ground (arith, valid, e, count-first (may i now) t),
            ground (arith, valid, e),
            ground (arith, valid, e, room),
          )
          | inr (row, e) ↦
              let f = lease_to i.worker_id token now (row.attempts + 1) in
              let there = first-filter-find (may i now) t row keyed e in
              let allowed =
                all-first (may i now) (filter (may i now) t) row (all-filter_same (may i now) t)
                  e in
              let fits =
                row_fits i now row (all-find (has_room i now) (has_id row.id) t row room there)
                  allowed in
              let fewer =
                count-set_where (may i now) row.id f t row keyed there allowed
                  (lease_to-taken i i.worker_id token now (row.attempts + 1) row) in
              let keeps = are_keyed-set_where (has_id row.id) f t (λ r. refl) in
              let rooms =
                all-set_where (has_room i now) (λ r. true) (has_id row.id) f t
                  (λ r s m b. room-lease i now i.worker_id token (row.attempts + 1) r) (all-true t)
                  room in
              (
                ground (arith, valid, e, fits, fewer),
                ground (arith, valid, e, fits, keeps, keyed),
                ground (arith, valid, e, fits, rooms),
              )
        ]

    -- As many claims as there are jobs to take, one after the other at one time while no other
    -- transaction holds a row, leave none: each claim that finds a job takes exactly one, and the
    -- next claim answers no job and changes nothing. The identifiers of the rows differ, the input
    -- passes its schema, and the attempts of no job to be taken are at the limit of the column.
    pub claims-drain :
        (i : ClaimInput) (tokens : List Text) (token : Text) (now : ℕ) (t : Table Json)
        → are_keyed t ≡ true
        → valid_claim p i ≡ true
        → all (has_room i now) t ≡ true
        → let after = run p (map (λ (k : Text). claims i k now unlocked) tokens) t in
          (count (may i now) after ≡ count (may i now) t - length tokens)
          × (count (may i now) t ≤ length tokens
              → claim_job p i token now unlocked after ≡ (ok none, after))
    unfolding run step
    claims-drain i [] token now t keyed valid room =
        (omega arith, λ h. claim-none i token now t valid (omega (arith, h)))
    claims-drain i (k ∷ tokens) token now t keyed valid room =
        let (fewer, keyed', room') = claim-counts i k now t keyed valid room in
        let (rest, ended) =
          claims-drain i tokens token now (claim_job p i k now unlocked t).1 keyed' valid room' in
        (omega (arith, fewer, rest), λ h. ended (omega (arith, fewer, h)))
