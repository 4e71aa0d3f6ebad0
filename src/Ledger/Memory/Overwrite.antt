-- ===== src/Ledger/Memory/Overwrite.antt =====
-- A journal with two lines on one account: every line is added to the balance from before the
-- journal (financial-ledger.ts, lines 396 to 424), so the later line takes the place of the earlier.
use eclipse_erp.Base.{
  ◌+◌, ◌<◌, ◌≡◌, refl, sym, ap, ◌∙◌, subst, ◌≢◌, inl, inr, true, none, some, List, [], ◌∷◌, arith,
  Option-cases, All,
}
use eclipse_erp.Text.{Text, text_eq_refl}
use eclipse_erp.Dict.{Dict, lookup, insert, merge}
use eclipse_erp.Ledger.Port.{JournalLine, PostJournalInput}
use eclipse_erp.Ledger.Journal.{debit_of, credit_of, validate_journal}
use eclipse_erp.Ledger.Journal.Balanced.{
  total_debit, total_credit, IsBalanced, validate_journal_iff,
}
use eclipse_erp.Ledger.Memory.{Balance, Store, Options, balance_key, operation_key}
use eclipse_erp.Ledger.Memory.Operations.{line_balances}
use eclipse_erp.Ledger.Memory.Post.{
  commit, reply, record_journal, known_accounts, book, validated, submit, post_journal,
}
use eclipse_erp.Ledger.Memory.Outcomes.{answers_accepted}
use eclipse_erp.Ledger.Memory.DoubleEntry.{
  HasBalance, debits, credits, insert_fresh, insert-IsFresh, line_balances-total,
  line_balances-cons,
}
use eclipse_erp.Ledger.Memory.Sound.{IsSound, known-lines}

insert-insert_single : (k : Text) (v w : Balance) → insert k v (insert k w []) ≡ insert k v []
unfolding insert
insert-insert_single k v w = rw (text_eq_refl k)

-- A debit on an account, a second debit on the same account, and a credit on another.
module _ (s : Store) (i : PostJournalInput) (l m n : JournalLine) where
  overwrite_total :
      {next : Dict Balance}
      → All (HasBalance s i) (l ∷ m ∷ n ∷ [])
      → m.account_id ≡ l.account_id
      → n.account_id ≢ m.account_id
      → line_balances s i (l ∷ m ∷ n ∷ []) [] ≡ some next
      → (debits (merge next s.balances) ≡ debits s.balances + debit_of m + debit_of n)
        × (credits (merge next s.balances) ≡ credits s.balances + credit_of m + credit_of n)
  overwrite_total {next} hb same other h =
      let (cur, a, ec, da, ca, rest) = line_balances-cons s i l (m ∷ n ∷ []) [] hb.0 h in
      let (cur', b, ec', db, cb, rest') =
        line_balances-cons s i m (n ∷ []) (insert (balance_key i l.account_id) a []) hb.1.0 rest in
      let key = balance_key i m.account_id in
      let single : insert key b (insert (balance_key i l.account_id) a []) ≡ insert key b [] =
        rw same (insert-insert_single (balance_key i l.account_id) b a) in
      let one =
        insert_fresh key b cur' (debit_of m) (credit_of m) [] s.balances ec' (unfold lookup in refl)
          db cb in
      let last =
        line_balances-total s i (n ∷ []) (insert key b []) {acc' = next} (hb.1.1.0, tt) (tt, tt)
          (insert-IsFresh i m b [] (n ∷ []) (other, tt) (unfold lookup in refl, tt))
          (ap (line_balances s i (n ∷ [])) (sym single) ∙ rest') in
      (
        unfold merge total_debit in omega (arith, one.0, last.0),
        unfold merge total_credit in omega (arith, one.1, last.1),
      )

-- An accepted answer to a new operation has gone through every stage.
post_journal-commits :
    (o : Options) (i : PostJournalInput) (s : Store)
    → lookup (operation_key i) s.operations ≡ none
    → answers_accepted (post_journal o i s).0 ≡ true
    → (next : Dict Balance) × (line_balances s i i.lines [] ≡ some next)
      × ((post_journal o i s).1.balances ≡ merge next s.balances)
      × (validate_journal i ≡ none)
      × (known_accounts s i ≡ true)
unfolding post_journal submit validated book record_journal reply commit validate_journal
post_journal-commits o i s new h = elim (Option-cases (line_balances s i i.lines [])) [
  | inl nothing ↦ absurd (ground arith)
  | inr (next, e) ↦ (next, e, ground arith, ground arith, ground arith)
]

-- The sides of three lines that balance.
sides_of :
    (l m n : JournalLine)
    → IsBalanced (l ∷ m ∷ n ∷ [])
    → (0 < debit_of l) × (0 < debit_of m) × (0 < credit_of n)
    → (debit_of n ≡ 0) × (credit_of m ≡ 0) × (credit_of n ≡ debit_of l + debit_of m)
unfolding total_debit total_credit
sides_of l m n b p = ground (arith, b.one_sided, b.balanced)

-- When a journal debits one account twice and credits another, and is accepted as a new operation,
-- the first of the two debits is missing from the balances afterwards: the books that were sound
-- now differ by its amount.
pub post_journal-overwrites :
    (o : Options) (i : PostJournalInput) (s : Store) (l m n : JournalLine)
    → i.lines ≡ l ∷ m ∷ n ∷ []
    → m.account_id ≡ l.account_id
    → n.account_id ≢ m.account_id
    → (0 < debit_of l) × (0 < debit_of m) × (0 < credit_of n)
    → IsSound s
    → lookup (operation_key i) s.operations ≡ none
    → answers_accepted (post_journal o i s).0 ≡ true
    → let s' = (post_journal o i s).1 in debits s'.balances + debit_of l ≡ credits s'.balances
post_journal-overwrites o i s l m n lines same other positive sound new h =
    let (next, e, books, valid, known) = post_journal-commits o i s new h in
    let balanced = subst IsBalanced lines ((validate_journal_iff i).0 valid) in
    let found =
      subst (All (HasBalance s i)) lines
        (known-lines s i i.lines sound (unfold known_accounts in ground arith)) in
    let sums =
      overwrite_total s i l m n {next = next} found same other
        (ap (λ (ls : List JournalLine). line_balances s i ls []) (sym lines) ∙ e) in
    let facts = sides_of l m n balanced positive in
    rw books (omega (arith, sums.0, sums.1, facts, sound.double_entry))
