-- ===== src/Ledger/Memory/Sound.antt =====
-- The invariant of the in-memory ledger, and that creating accounts and posting journals keep it.
use eclipse_erp.Base.{
  ◌≡◌, refl, sym, subst, ◌⊎◌, inl, inr, Bool, true, false, not, ◌&&◌, ◌||◌, none, some, List, [],
  ◌∷◌, arith, ◌==◌, Bool-cases, Option-cases, any, find, filter, All,
}
use eclipse_erp.Text.{Text, text_eq, text_eq_iff, to_upper}
use eclipse_erp.Dict.{
  covers-insert_left, Dict, lookup, insert, merge, values, is_some, contains, covers,
  contains-merge, lookup-merge-covers,
}
use eclipse_erp.Ledger.Port.{CreateExecutionAccountInput, JournalLine, PostJournalInput}
use eclipse_erp.Ledger.Journal.{validate_journal}
use eclipse_erp.Ledger.Journal.Balanced.{total_debit, total_credit, validate_journal_iff}
use eclipse_erp.Ledger.Memory.{Balance, Store, Options, account_key, balance_key, input_key}
use eclipse_erp.Ledger.Memory.Operations.{
  line_balances, account_inputs, expected_test_transfer_ids, debits_and_credits_one,
}
use eclipse_erp.Ledger.Memory.Post.{
  is_nil, commit, reply, record_journal, known_accounts, book, validated, submit, post_journal,
}
use eclipse_erp.Ledger.Memory.DoubleEntry.{
  HasDistinctAccounts, HasBalance, IsFresh, debits, credits, line_balances-total,
  line_balances-cons,
}

-- An account stands under its own key and has a balance.
abbrev pub IsKeyed : Dict Balance → Text × CreateExecutionAccountInput → Type 0
IsKeyed balances e = (e.0 ≡ input_key e.1) × (contains e.0 balances ≡ true)

pub record IsSound (s : Store) : Type 0 where
  pub keyed : All (IsKeyed s.balances) s.accounts
  pub covered : (k : Text) → lookup k s.accounts ≡ none → lookup k s.balances ≡ none
  pub double_entry : debits s.balances ≡ credits s.balances

same_key :
    (a : CreateExecutionAccountInput) (i : PostJournalInput) (x : Text)
    → a.tenant_id ≡ i.tenant_id
    → a.legal_entity_id ≡ i.legal_entity_id
    → a.account_id ≡ x
    → to_upper a.currency ≡ to_upper i.currency
    → a.mapping_version ≡ i.mapping_version
    → input_key a ≡ balance_key i x
unfolding account_key
same_key a i x t e c u v = rw (t, e, c, u, v)

-- An account that the journal may name, by its identifier, has its balance under the journal's key.
inputs-contains :
    (i : PostJournalInput) (x : Text) (b : Dict Balance) (es : Dict CreateExecutionAccountInput)
    → All (IsKeyed b) es
    → any
        (λ a. text_eq a.account_id x)
        (filter
          (λ a.
            text_eq a.tenant_id i.tenant_id
            && (text_eq a.legal_entity_id i.legal_entity_id
                && (text_eq (to_upper a.currency) (to_upper i.currency)
                    && (a.mapping_version == i.mapping_version))))
          (values es))
      ≡ true
    → contains (balance_key i x) b ≡ true
unfolding values
inputs-contains i x b [] k h = cc
inputs-contains i x b ((j, a) ∷ es) k h = ground (
  arith,
  inputs-contains i x b es k.1,
  same_key a i x,
  text_eq_iff a.tenant_id i.tenant_id,
  text_eq_iff a.legal_entity_id i.legal_entity_id,
  text_eq_iff a.account_id x,
  text_eq_iff (to_upper a.currency) (to_upper i.currency),
)

any→find : {A : Type 0} (p : A → Bool) (xs : List A) → any p xs ≡ true → is_some (find p xs) ≡ true
any→find p [] h = cc
any→find p (x ∷ xs) h = ground (arith, any→find p xs)

known-line :
    (s : Store) (i : PostJournalInput) (l : JournalLine)
    → IsSound s
    → any (λ a. text_eq a.account_id l.account_id) (account_inputs s i) ≡ true
    → HasBalance s i l
known-line s i l sound h = (
  inputs-contains i l.account_id s.balances s.accounts sound.keyed (unfold account_inputs in h),
  any→find (λ a. text_eq a.account_id l.account_id) (account_inputs s i) h,
)

pub known-lines :
    (s : Store) (i : PostJournalInput) (ls : List JournalLine)
    → IsSound s
    → any (λ l. not (any (λ a. text_eq a.account_id l.account_id) (account_inputs s i))) ls ≡ false
    → All (HasBalance s i) ls
known-lines s i [] sound h = tt
known-lines s i (l ∷ ls) sound h =
    (known-line s i l sound (ground arith), known-lines s i ls sound (ground arith))

line_balances-covers :
    (s : Store) (i : PostJournalInput) (ls : List JournalLine) (acc : Dict Balance)
    {acc' : Dict Balance}
    → All (HasBalance s i) ls
    → covers acc s.balances ≡ true
    → line_balances s i ls acc ≡ some acc'
    → covers acc' s.balances ≡ true
line_balances-covers s i [] acc hb c h = unfold line_balances in ground arith
line_balances-covers s i (l ∷ ls) acc {acc'} hb c h =
    let (cur, next, ec, dn, cn, rest) = line_balances-cons s i l ls acc hb.0 h in
    line_balances-covers s i ls (insert (balance_key i l.account_id) next acc) {acc' = acc'} hb.1
      (covers-insert_left acc s.balances (balance_key i l.account_id) next c hb.0.0) rest

merge-IsKeyed :
    (n b : Dict Balance) (es : Dict CreateExecutionAccountInput)
    → All (IsKeyed b) es
    → All (IsKeyed (merge n b)) es
merge-IsKeyed n b [] h = tt
merge-IsKeyed n b (e ∷ es) h = ((h.0.0, contains-merge e.0 n b h.0.1), merge-IsKeyed n b es h.1)

nil-IsFresh : (i : PostJournalInput) (ls : List JournalLine) → All (IsFresh i []) ls
nil-IsFresh i [] = tt
nil-IsFresh i (l ∷ ls) = (unfold lookup in refl, nil-IsFresh i ls)

commit-IsSound :
    (o : Options) (i : PostJournalInput) (s : Store) {next : Dict Balance}
    → IsSound s
    → All (HasBalance s i) i.lines
    → HasDistinctAccounts i.lines
    → total_debit i.lines ≡ total_credit i.lines
    → line_balances s i i.lines [] ≡ some next
    → IsSound (commit o i next s)
unfolding commit
commit-IsSound o i s {next} sound hb hd balanced h =
    let sums = line_balances-total s i i.lines [] {acc' = next} hb hd (nil-IsFresh i i.lines) h in
    let over = line_balances-covers s i i.lines [] {acc' = next} hb (unfold covers in refl) h in
    record {
      keyed = merge-IsKeyed next s.balances s.accounts sound.keyed;
      covered = λ k e. lookup-merge-covers k next s.balances over (sound.covered k e);
      double_entry = unfold merge in omega (arith, sums.0, sums.1, sound.double_entry, balanced);
    }

IsSound-same :
    (s s' : Store) → s'.accounts ≡ s.accounts → s'.balances ≡ s.balances → IsSound s → IsSound s'
IsSound-same s s' ea eb sound = record {
  keyed =
      subst (λ (a : Dict CreateExecutionAccountInput). All (IsKeyed s'.balances) a) (sym ea)
        (subst (λ (b : Dict Balance). All (IsKeyed b) s.accounts) (sym eb) sound.keyed);
  covered = λ k e. rw eb (sound.covered k (rw ea at e));
  double_entry = rw eb sound.double_entry;
}

-- The accounts and balances of one store are those of another.
abbrev SameLedger : Store → Store → Type 0
SameLedger s' s = (s'.accounts ≡ s.accounts) × (s'.balances ≡ s.balances)

record_journal-store :
    (o : Options) (i : PostJournalInput) (s : Store)
    → let s' = (record_journal o i s).1 in
      SameLedger s' s
      ⊎ ((next : Dict Balance) × (line_balances s i i.lines [] ≡ some next)
          × SameLedger s' (commit o i next s))
unfolding record_journal reply
record_journal-store o i s = elim (Option-cases (line_balances s i i.lines [])) [
  | inl nothing ↦ inl (ground arith)
  | inr (next, e) ↦
      elim (Bool-cases (is_nil (expected_test_transfer_ids i) || debits_and_credits_one i.lines)) [
        | inl refused ↦ inl (ground arith)
        | inr taken ↦ inr (next, e, ground arith)
      ]
]

submit-store :
    (o : Options) (i : PostJournalInput) (s : Store)
    → let s' = (submit o i s).1 in
      SameLedger s' s
      ⊎ ((validate_journal i ≡ none)
          × (known_accounts s i ≡ true)
          × (s' ≡ (record_journal o i s).1))
unfolding submit validated book
submit-store o i s = ground arith

record_journal-IsSound :
    (o : Options) (i : PostJournalInput) (s : Store)
    → IsSound s
    → HasDistinctAccounts i.lines
    → validate_journal i ≡ none
    → known_accounts s i ≡ true
    → IsSound (record_journal o i s).1
record_journal-IsSound o i s sound hd valid known = elim (record_journal-store o i s) [
  | inl same ↦ IsSound-same s (record_journal o i s).1 same.0 same.1 sound
  | inr (next, e, same) ↦ IsSound-same (commit o i next s) (record_journal o i s).1 same.0 same.1 (
      commit-IsSound o i s {next = next} sound
        (known-lines s i i.lines sound (unfold known_accounts in ground arith)) hd
        ((validate_journal_iff i).0 valid).balanced e)
]

post_journal-store :
    (o : Options) (i : PostJournalInput) (s : Store)
    → ((post_journal o i s).1 ≡ s) ⊎ ((post_journal o i s).1 ≡ (submit o i s).1)
unfolding post_journal
post_journal-store o i s = ground arith

submit-IsSound :
    (o : Options) (i : PostJournalInput) (s : Store)
    → IsSound s
    → HasDistinctAccounts i.lines
    → IsSound (submit o i s).1
submit-IsSound o i s sound hd = elim (submit-store o i s) [
  | inl same ↦ IsSound-same s (submit o i s).1 same.0 same.1 sound
  | inr (valid, known, e) ↦
      subst IsSound (sym e) (record_journal-IsSound o i s sound hd valid known)
]

-- Posting a journal whose lines name different accounts keeps sound books sound, whatever the
-- answer and whichever failure is injected: every account has its balance, no balance stands
-- without an account, and over all accounts the debits equal the credits.
pub post_journal-IsSound :
    (o : Options) (i : PostJournalInput) (s : Store)
    → IsSound s
    → HasDistinctAccounts i.lines
    → IsSound (post_journal o i s).1
post_journal-IsSound o i s sound hd = elim (post_journal-store o i s) [
  | inl e ↦ subst IsSound (sym e) sound
  | inr e ↦ subst IsSound (sym e) (submit-IsSound o i s sound hd)
]
