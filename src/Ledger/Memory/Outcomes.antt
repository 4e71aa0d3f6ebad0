-- ===== src/Ledger/Memory/Outcomes.antt =====
-- What the answers of the in-memory ledger promise: a failure changes no balance, and an operation
-- has one outcome however often it is submitted.
use eclipse_erp.Base.{
  ◌≡◌, refl, ◌⊎◌, inl, inr, Bool, true, false, some, List, [], ◌∷◌, arith, Option-cases,
}
use eclipse_erp.Base.Effect.{Result, ok, err}
use eclipse_erp.Text.{Text, option_is, text_eq_refl}
use eclipse_erp.Dict.{Dict, lookup, lookup-insert_self}
use eclipse_erp.Ledger.Port.{PostJournalInput, ExecutionOutcome, SchemaError, RejectionReason}
use eclipse_erp.Ledger.Memory.{
  Balance, Store, Options, operation_key, fingerprint_of, fingerprint_eq, texts_eq, Fingerprint,
}
use eclipse_erp.Ledger.Memory.Operations.{accepted_outcome, line_balances, account_inputs}
use eclipse_erp.Ledger.Memory.Post.{
  reply, commit, record_journal, replay, known_accounts, book, validated, submit, post_journal,
  reconcile_journal,
}

texts_eq_refl : (ts : List Text) → texts_eq ts ts ≡ true
unfolding texts_eq
texts_eq_refl [] = refl
texts_eq_refl (t ∷ ts) = rw (text_eq_refl t) (texts_eq_refl ts)

fingerprint_eq_refl : (f : Fingerprint) → fingerprint_eq f f ≡ true
unfolding fingerprint_eq
fingerprint_eq_refl f =
    rw
      (
        text_eq_refl f.journal_id,
        text_eq_refl f.reference,
        text_eq_refl f.currency,
        texts_eq_refl f.lines,
      )
      (ground arith)

-- A rejected journal leaves the store as it was.
pub post_journal-rejected :
    (o : Options) (i : PostJournalInput) (s : Store) {op : Text} {reason : RejectionReason}
    → (post_journal o i s).0 ≡ ok (ExecutionOutcome.rejected op reason)
    → (post_journal o i s).1 ≡ s
unfolding post_journal submit validated book record_journal reply accepted_outcome
post_journal-rejected o i s h = ground arith

-- The store after a journal that was booked for the first time.
abbrev WasRecorded : Options → PostJournalInput → Store → Type 0
WasRecorded o i s =
    lookup (operation_key i) s.operations
    ≡ some (record { fingerprint = fingerprint_of i; outcome = accepted_outcome o i })

commit-WasRecorded :
    (o : Options) (i : PostJournalInput) (b : Dict Balance) (s : Store)
    → WasRecorded o i (commit o i b s)
unfolding commit
commit-WasRecorded o i b s = lookup-insert_self (operation_key i) _ s.operations

record_journal-cases :
    (o : Options) (i : PostJournalInput) (s : Store)
    → let s' = (record_journal o i s).1 in (s' ≡ s) ⊎ WasRecorded o i s'
unfolding record_journal reply
record_journal-cases o i s = elim (Option-cases (line_balances s i i.lines [])) [
  | inl nothing ↦ ground arith
  | inr (b, e) ↦ ground (arith, commit-WasRecorded o i b s)
]

-- Nothing that the ledger keeps for its books has changed.
abbrev pub SameBooks : Store → Store → Type 0
SameBooks s' s = (s'.balances ≡ s.balances) × (s'.operations ≡ s.operations)

submit-cases :
    (o : Options) (i : PostJournalInput) (s : Store)
    → let s' = (submit o i s).1 in
      SameBooks s' s ⊎ ((option_is o.unavailable_for i.operation_id ≡ false) × WasRecorded o i s')
unfolding submit validated book
submit-cases o i s = ground (arith, record_journal-cases o i s)

replay-recorded :
    (o : Options) (i : PostJournalInput)
    → replay i (record { fingerprint = fingerprint_of i; outcome = accepted_outcome o i })
      ≡ accepted_outcome o i
unfolding replay
replay-recorded o i = rw (fingerprint_eq_refl (fingerprint_of i))

-- Whatever a call of `postJournal` answers, and whichever failure is injected, it has either left the
-- balances and the recorded operations alone, or `reconcileJournal` on the same journal now answers
-- with the accepted outcome: no journal is booked without a record that can be read back.
pub post_journal-reconciles :
    (o : Options) (i : PostJournalInput) (s : Store)
    → let s' = (post_journal o i s).1 in
      SameBooks s' s ⊎ (reconcile_journal o i s' ≡ ok (accepted_outcome o i))
unfolding post_journal reconcile_journal
post_journal-reconciles o i s = ground (arith, submit-cases o i s, replay-recorded o i)

-- The outcome `accepted`.
abbrev pub is_accepted : ExecutionOutcome → Bool
is_accepted (ExecutionOutcome.accepted op v at n ids) = true
is_accepted _ = false

abbrev pub answers_accepted : Result SchemaError ExecutionOutcome → Bool
answers_accepted (ok outcome) = is_accepted outcome
answers_accepted (err e) = false

commit-fields :
    (o : Options) (i : PostJournalInput) (b : Dict Balance) (s : Store)
    → ((commit o i b s).accounts ≡ s.accounts) × ((commit o i b s).failed_before ≡ s.failed_before)
unfolding commit
commit-fields o i b s = (refl, refl)

record_journal-again :
    (o : Options) (i : PostJournalInput) (s : Store)
    → is_accepted (record_journal o i s).0 ≡ true
    → (WasRecorded o i (record_journal o i s).1)
      × ((record_journal o i s).0 ≡ accepted_outcome o i)
      × ((record_journal o i s).1.accounts ≡ s.accounts)
      × ((record_journal o i s).1.failed_before ≡ s.failed_before)
unfolding record_journal reply
record_journal-again o i s h = elim (Option-cases (line_balances s i i.lines [])) [
  | inl nothing ↦ ground arith
  | inr (b, e) ↦ ground (arith, commit-WasRecorded o i b s, commit-fields o i b s)
]

known_accounts-same :
    (s s' : Store) (i : PostJournalInput)
    → s'.accounts ≡ s.accounts
    → known_accounts s' i ≡ known_accounts s i
unfolding known_accounts account_inputs
known_accounts-same s s' i e = rw e

book-again :
    (o : Options) (i : PostJournalInput) (s : Store)
    → is_accepted (book o i s).0 ≡ true
    → (book o i (book o i s).1 ≡ book o i s) × ((book o i s).1.failed_before ≡ s.failed_before)
unfolding book
book-again o i s h = ground (
  arith,
  record_journal-again o i s,
  known_accounts-same s (record_journal o i s).1 i,
  replay-recorded o i,
)

-- An accepted journal may be submitted again: the same answer comes back, and the store stays as
-- the first call left it.
pub post_journal-once :
    (o : Options) (i : PostJournalInput) (s : Store)
    → answers_accepted (post_journal o i s).0 ≡ true
    → post_journal o i (post_journal o i s).1 ≡ post_journal o i s
unfolding post_journal submit validated
post_journal-once o i s h = ground (arith, book-again o i s)
