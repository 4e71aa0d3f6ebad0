-- ===== src/Process/Queue/Claims.antt =====
-- What a claim finds in the table, by the program's own order: packages/process/src/service.ts.
pub mod First
pub mod Drain
use eclipse_erp.Base.{
  ℕ, ◌+◌, ◌≤◌, ◌<◌, ◌≡◌, ◌≢◌, refl, sym, ap, ◌∙◌, subst, ◌⊎◌, inl, inr, Bool, true, false, not,
  ◌&&◌, ◌||◌, Option, none, some, List, [], ◌∷◌, ◌++◌, arith, ltb, leb, if◌then◌else◌, Bool-cases,
  Option-cases, any, all, find, filter, and_true, all_mono,
}
use eclipse_erp.Base.Effect.{Result, ok, err}
use eclipse_erp.Text.{Text, text_eq}
use eclipse_erp.Text.Order.{text_lt_self, text_lt_not, text_lt_asym}
use eclipse_erp.Messaging.Events.{Platform}
use eclipse_erp.Process.Jobs.{
  Row, ProcessJob, ClaimInput, valid_claim, valid_job, int_max, to_process_job,
}
use eclipse_erp.Process.Queue.{
  Table, has_id, set_where, returning, precedes, first, claimable, lease_to, lease_row,
  lease_duration, claim_job,
}
use eclipse_erp.Process.Queue.Rows.{
  are_keyed, first-filter-find, all-first, all-filter_same, find-set_where, find_holds,
}

module _ {Json : Type 0} where
  precedes_self : (a : Row Json) → precedes a a ≡ false
  unfolding precedes
  precedes_self a = ground (arith, text_lt_self a.id)

  precedes_not :
      (a b c : Row Json) → precedes a b ≡ false → precedes b c ≡ false → precedes a c ≡ false
  unfolding precedes
  precedes_not a b c h k = ground (arith, h, k, text_lt_not a.id b.id c.id)

  precedes_asym : (a b : Row Json) → precedes a b ≡ true → precedes b a ≡ false
  unfolding precedes
  precedes_asym a b h = ground (arith, h, text_lt_asym a.id b.id)

  first-some : (r : Row Json) (t : Table Json) → first (r ∷ t) ≢ none
  unfolding first
  first-some r t = ground arith

  no_rows : (q : Row Json → Bool) (t : Table Json) → first t ≡ none → all q t ≡ true
  no_rows q [] h = refl
  no_rows q (r ∷ t) h = absurd (first-some r t h)

  -- No row precedes the first.
  first_lem :
      (t : Table Json) (r : Row Json) → first t ≡ some r → all (λ x. not (precedes x r)) t ≡ true
  unfolding first
  first_lem [] r e = cc
  first_lem (y ∷ t) r e = elim (Option-cases (first t)) [
    | inl none_left ↦
        let is : y ≡ r = ground (arith, e, none_left) in
        let self = subst (λ z. precedes z z ≡ false) is (precedes_self y) in
        ground (
          arith,
          subst (λ z. precedes z r ≡ false) (sym is) self,
          no_rows (λ x. not (precedes x r)) t none_left,
        )
    | inr (best, found) ↦
        let rest = first_lem t best found in
        elim (Bool-cases (precedes best y)) [
          | inl before ↦
              let is : best ≡ r = ground (arith, e, found, before) in
              subst (λ z. all (λ x. not (precedes x z)) (y ∷ t) ≡ true) is
                (ground (arith, rest, precedes_asym best y before))
          | inr after ↦
              let is : y ≡ r = ground (arith, e, found, after) in
              let others =
                all_mono (λ x. not (precedes x best)) (λ x. not (precedes x y)) t
                  (λ x h. ground (arith, h, precedes_not x best y, after)) rest in
              subst (λ z. all (λ x. not (precedes x z)) (y ∷ t) ≡ true) is
                (ground (arith, others, precedes_self y))
        ]
  ]

  unfiltered :
      (q s : Row Json → Bool) (t : Table Json)
      → all s (filter q t) ≡ true
      → all (λ r. not (q r) || s r) t ≡ true
  unfiltered q s [] h = refl
  unfiltered q s (r ∷ t) h = ground (arith, h, unfiltered q s t)

  first-none : (q : Row Json → Bool) (t : Table Json) → first (filter q t) ≡ none → any q t ≡ false
  first-none q [] h = refl
  first-none q (r ∷ t) h = elim (Bool-cases (q r)) [
    | inr skip ↦ ground (arith, skip, first-none q t (ground (arith, h, skip)))
    | inl kept ↦ absurd (first-some r (filter q t) (ground (arith, h, kept)))
  ]

  module _ (p : Platform Json) where
    -- What a claim answers, in terms of its own tests.
    pub claim_job-taken :
        (i : ClaimInput) (token : Text) (now : ℕ) (locked : Text → Bool) (t : Table Json)
        (answer : Option (ProcessJob Json))
        → are_keyed t ≡ true
        → valid_claim p i ≡ true
        → (claim_job p i token now locked t).0 ≡ ok answer
        → let may = λ (r : Row Json). claimable i now r && not (locked r.id) in
          ((answer ≡ none) × (any may t ≡ false))
          ⊎ ((row : Row Json) × (find (has_id row.id) t ≡ some row)
              × (may row ≡ true)
              × (all (λ x. not (may x) || not (precedes x row)) t ≡ true)
              × (answer
                  ≡ some
                      (to_process_job p (lease_to i.worker_id token now (row.attempts + 1) row))))
    unfolding claim_job lease_row returning
    claim_job-taken i token now locked t answer keyed valid h =
        let may = λ (r : Row Json). claimable i now r && not (locked r.id) in
        elim (Option-cases (first (filter may t))) [
          | inl e ↦ inl (ground (arith, valid, e, h), first-none may t e)
          | inr (row, e) ↦
              let there = first-filter-find may t row keyed e in
              let allowed = all-first may (filter may t) row (all-filter_same may t) e in
              let least =
                unfiltered may (λ x. not (precedes x row)) t (first_lem (filter may t) row e) in
              let new = lease_to i.worker_id token now (row.attempts + 1) row in
              elim (Bool-cases (ltb int_max (row.attempts + 1))) [
                | inl big ↦ absurd (ground (arith, valid, e, h, big))
                | inr fits ↦ elim (Bool-cases (valid_job p (to_process_job p new))) [
                  | inr bad ↦ absurd (ground (arith, valid, e, h, fits, there, bad))
                  | inl good ↦
                      inr
                        (row, there, allowed, least, ground (arith, valid, e, h, fits, there, good))
                ]
              ]
        ]
