-- ===== src/Ledger/Tigerbeetle/Confirmed.antt =====
-- What an accepted answer of the adapter says of the server: packages/kernel/src/tigerbeetle.ts.
use eclipse_erp.Base.{
  ℕ, ◌+◌, ◌≡◌, refl, ap, inl, inr, Bool, true, false, ◌&&◌, ◌||◌, Option, none, some, List, [], ◌∷◌,
  arith, ◌==◌, Option-cases, length, all, find,
}
use eclipse_erp.Base.Effect.{Result, ok, err}
use eclipse_erp.Text.{Text}
use eclipse_erp.Text.Decimal.{print}
use eclipse_erp.Ledger.Port.{PostJournalInput, ExecutionOutcome, SchemaError}
use eclipse_erp.Ledger.Journal.{validate_journal}
use eclipse_erp.Ledger.Journal.Balanced.{IsBalanced, validate_journal_iff}
use eclipse_erp.Ledger.Pairing.{TransferPair, pair_lines}
use eclipse_erp.Ledger.Memory.Outcomes.{is_accepted, answers_accepted}
use eclipse_erp.Ledger.Tigerbeetle.{Transfer, Outcome, Adapter, transfer_id_of}
use eclipse_erp.Ledger.Tigerbeetle.Transfers.{
  checked_pairs, transfer_of, transfers_from, transfers_of, printed_ids, is_refused, classify,
  answer, post_journal, expected_ids_from, expected_transfer_ids,
}

-- The transfer ids of an accepted answer.
unfoldable pub answered_ids : Result SchemaError ExecutionOutcome → Result SchemaError (List Text)
answered_ids (ok (ExecutionOutcome.accepted op v at n ids)) = ok ids
answered_ids (ok _) = ok []
answered_ids (err e) = err e

module _ {W : Type 0} (a : Adapter W) where
  abbrev is_taken : Outcome → Bool
  is_taken o =
      o.status == a.runtime.create_transfer_status.created
      || o.status == a.runtime.create_transfer_status.exists

  -- The server answered for every transfer that it created it or has it.
  unfoldable pub is_confirmed : List Transfer → Option (List Outcome) → Bool
  is_confirmed ts none = false
  is_confirmed ts (some os) = length os == length ts && all is_taken os

  validate-is_accepted :
      (i : PostJournalInput) (o : ExecutionOutcome)
      → validate_journal i ≡ some o
      → is_accepted o ≡ false
  unfolding validate_journal
  validate-is_accepted i o h = ground arith

  -- The operation goes on, or would end with an acceptance.
  abbrev goes_on : Result ExecutionOutcome (List TransferPair) → Bool
  goes_on (ok ps) = true
  goes_on (err o) = is_accepted o

  -- The checks hand on the pairs of a valid journal, or end the operation without acceptance.
  pub checked_pairs-goes_on :
      (i : PostJournalInput)
      → goes_on (checked_pairs a.config i) ≡ true
      → (checked_pairs a.config i ≡ ok (pair_lines i.lines)) × (validate_journal i ≡ none)
  unfolding checked_pairs
  checked_pairs-goes_on i h = elim (Option-cases (validate_journal i)) [
    | inl e ↦ ground arith
    | inr (o, e) ↦ absurd (ground (arith, validate-is_accepted i o e))
  ]

  refused_none : (os : List Outcome) → find (is_refused a) os ≡ none → all is_taken os ≡ true
  unfolding is_refused
  refused_none [] h = refl
  refused_none (o ∷ os) h = ground (arith, refused_none os)

  classify-accepted :
      (i : PostJournalInput) (ts : List Transfer) (os : List Outcome)
      → is_accepted (classify a i ts os) ≡ true
      → (all is_taken os ≡ true) × (answered_ids (ok (classify a i ts os)) ≡ ok (printed_ids ts))
  unfolding answered_ids classify
  classify-accepted i ts os h = ground (arith, refused_none os)

  answer-accepted :
      (i : PostJournalInput) (ts : List Transfer) (r : Option (List Outcome))
      → is_accepted (answer a i ts r) ≡ true
      → (is_confirmed ts r ≡ true) × (answered_ids (ok (answer a i ts r)) ≡ ok (printed_ids ts))
  unfolding is_confirmed answer
  answer-accepted i ts none h = absurd (ground arith)
  answer-accepted i ts (some os) h = ground (arith, classify-accepted i ts os)

  printed_ids-transfers :
      (i : PostJournalInput) (n index : ℕ) (ps : List TransferPair)
      → printed_ids (transfers_from a i n index ps) ≡ expected_ids_from a i index ps
  unfolding transfers_from transfer_of expected_ids_from
  printed_ids-transfers i n index [] = refl
  printed_ids-transfers i n index (p ∷ ps) =
      ap (◌∷◌ (print (transfer_id_of a.digest i index))) (printed_ids-transfers i n (index + 1) ps)

  -- An accepted answer means that the journal balances, that the server confirmed every transfer of
  -- the batch, and that the ids in the answer are those that `expectedTransferIds` foretells.
  pub post_journal-confirmed :
      (i : PostJournalInput) (w : W)
      → answers_accepted (post_journal a i w).0 ≡ true
      → IsBalanced i.lines
        × (is_confirmed
              (transfers_of a i (pair_lines i.lines))
              (a.client.create_transfers (transfers_of a i (pair_lines i.lines)) w).0
            ≡ true)
        × (answered_ids (post_journal a i w).0 ≡ expected_transfer_ids a i)
  unfolding post_journal transfers_of expected_transfer_ids
  post_journal-confirmed i w h =
      let (e, v) = checked_pairs-goes_on i (ground arith) in
      let ts = transfers_from a i (length (pair_lines i.lines)) 0 (pair_lines i.lines) in
      let sent = (a.client.create_transfers ts w).0 in
      let (confirmed, ids) = answer-accepted i ts sent (ground (arith, e)) in
      (
        (validate_journal_iff i).0 v,
        confirmed,
        ground (
          arith,
          e,
          ids,
          printed_ids-transfers i (length (pair_lines i.lines)) 0 (pair_lines i.lines),
        ),
      )
