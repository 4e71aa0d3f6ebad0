-- ===== src/Ledger/Memory/DoubleEntry.antt =====
-- The books stay balanced: over all accounts, what is debited equals what is credited.
use eclipse_erp.Base.{
  ℕ, ◌+◌, ◌≡◌, refl, ◌∙◌, ◌≢◌, inl, inr, true, Option, none, some, List, [], ◌∷◌, arith,
  Option-cases, find, All,
}
use eclipse_erp.Text.{Text, text_eq, append_left_cancel, append_right_cancel}
use eclipse_erp.Dict.{
  Dict, lookup, insert, merge, total, is_some, contains, insert-new, merge-snoc, lookup-merge-none,
  lookup-insert_ne, total-insert,
}
use eclipse_erp.Ledger.Port.{CreateExecutionAccountInput, JournalLine, PostJournalInput}
use eclipse_erp.Ledger.Journal.{debit_of, credit_of}
use eclipse_erp.Ledger.Journal.Balanced.{total_debit, total_credit}
use eclipse_erp.Ledger.Memory.{Balance, Store, account_key, balance_key}
use eclipse_erp.Ledger.Memory.Operations.{apply_line, line_balances, account_inputs}

-- The accounts of a journal's lines are different.
abbrev pub HasDistinctAccounts : List JournalLine → Type 0
HasDistinctAccounts [] = Unit
HasDistinctAccounts (l ∷ ls) = All (λ m. m.account_id ≢ l.account_id) ls × HasDistinctAccounts ls

balance_key-injective :
    (i : PostJournalInput) (a b : Text) → balance_key i a ≡ balance_key i b → a ≡ b
unfolding account_key
balance_key-injective i a b h = append_right_cancel a b _ (
    inner (append_left_cancel i.legal_entity_id _ _ (inner (append_left_cancel i.tenant_id _ _ h))))
  where
    inner : {c : ℕ} {s t : Text} → c ∷ s ≡ c ∷ t → s ≡ t
    inner h = cc

-- A line finds its account and its balance.
abbrev pub HasBalance : Store → PostJournalInput → JournalLine → Type 0
HasBalance s i l =
    (contains (balance_key i l.account_id) s.balances ≡ true)
    × (is_some (find (λ a. text_eq a.account_id l.account_id) (account_inputs s i)) ≡ true)

abbrev pub IsFresh : PostJournalInput → Dict Balance → JournalLine → Type 0
IsFresh i acc l = lookup (balance_key i l.account_id) acc ≡ none

abbrev pub debits : Dict Balance → ℕ
debits = total (λ b. b.debits_posted_minor)

abbrev pub credits : Dict Balance → ℕ
credits = total (λ b. b.credits_posted_minor)

pub insert_fresh :
    (k : Text) (next cur : Balance) (d c : ℕ) (acc b : Dict Balance)
    → lookup k b ≡ some cur
    → lookup k acc ≡ none
    → next.debits_posted_minor ≡ cur.debits_posted_minor + d
    → next.credits_posted_minor ≡ cur.credits_posted_minor + c
    → (debits (merge (insert k next acc) b) ≡ debits (merge acc b) + d)
      × (credits (merge (insert k next acc) b) ≡ credits (merge acc b) + c)
insert_fresh k next cur d c acc b hb ha hd hc =
    let same : merge (insert k next acc) b ≡ insert k next (merge acc b) =
      rw (insert-new k next acc ha) (merge-snoc acc b k next) in
    let there = lookup-merge-none k acc b ha ∙ hb in
    rw same (
      omega (arith, total-insert (λ x. x.debits_posted_minor) k next cur (merge acc b) there, hd),
      omega (arith, total-insert (λ x. x.credits_posted_minor) k next cur (merge acc b) there, hc),
    )

apply_line-some :
    (key : Text) (l : JournalLine) (cur : Balance) (a : CreateExecutionAccountInput)
    (acc : Dict Balance) {acc' : Dict Balance}
    → apply_line key l (some cur) (some a) acc ≡ some acc'
    → (next : Balance) × (acc' ≡ insert key next acc)
      × (next.debits_posted_minor ≡ cur.debits_posted_minor + debit_of l)
      × (next.credits_posted_minor ≡ cur.credits_posted_minor + credit_of l)
unfolding apply_line
apply_line-some key l cur a acc h = (
  record {
    debits_posted_minor = cur.debits_posted_minor + debit_of l;
    credits_posted_minor = cur.credits_posted_minor + credit_of l;
  },
  ground arith,
  refl,
  refl,
)

pub insert-IsFresh :
    (i : PostJournalInput) (l : JournalLine) (next : Balance) (acc : Dict Balance)
    (ls : List JournalLine)
    → All (λ m. m.account_id ≢ l.account_id) ls
    → All (IsFresh i acc) ls
    → All (IsFresh i (insert (balance_key i l.account_id) next acc)) ls
insert-IsFresh i l next acc [] d f = tt
insert-IsFresh i l next acc (m ∷ ls) d f = (
  lookup-insert_ne (balance_key i l.account_id) (balance_key i m.account_id) next acc
        (λ e. d.0 (balance_key-injective i m.account_id l.account_id e))
      ∙ f.0,
  insert-IsFresh i l next acc ls d.1 f.1,
)

pub there : {A : Type 0} (o : Option A) → is_some o ≡ true → (v : A) × (o ≡ some v)
there none h = cc
there (some v) h = (v, refl)

pub line_balances-cons :
    (s : Store) (i : PostJournalInput) (l : JournalLine) (ls : List JournalLine)
    (acc : Dict Balance) {acc' : Dict Balance}
    → HasBalance s i l
    → line_balances s i (l ∷ ls) acc ≡ some acc'
    → (cur : Balance) × (next : Balance) × (lookup (balance_key i l.account_id) s.balances
        ≡ some cur)
      × (next.debits_posted_minor ≡ cur.debits_posted_minor + debit_of l)
      × (next.credits_posted_minor ≡ cur.credits_posted_minor + credit_of l)
      × (line_balances s i ls (insert (balance_key i l.account_id) next acc) ≡ some acc')
unfolding line_balances
line_balances-cons s i l ls acc {acc'} hb h =
    let (cur, ec) = there (lookup (balance_key i l.account_id) s.balances) hb.0 in
    let (a, ea) = there (find (λ a. text_eq a.account_id l.account_id) (account_inputs s i)) hb.1 in
    elim (Option-cases (apply_line (balance_key i l.account_id) l (some cur) (some a) acc)) [
      | inl nothing ↦ ground arith
      | inr (b, eb) ↦
          let (next, en, dn, cn) = apply_line-some (balance_key i l.account_id) l cur a acc eb in
          (cur, next, ec, dn, cn, ground arith)
    ]

-- The new balances, put over the old, add the lines up.
pub line_balances-total :
    (s : Store) (i : PostJournalInput) (ls : List JournalLine) (acc : Dict Balance)
    {acc' : Dict Balance}
    → All (HasBalance s i) ls
    → HasDistinctAccounts ls
    → All (IsFresh i acc) ls
    → line_balances s i ls acc ≡ some acc'
    → (debits (merge acc' s.balances) ≡ debits (merge acc s.balances) + total_debit ls)
      × (credits (merge acc' s.balances) ≡ credits (merge acc s.balances) + total_credit ls)
unfolding line_balances total_debit total_credit
line_balances-total s i [] acc hb hd hf h = ground arith
line_balances-total s i (l ∷ ls) acc {acc'} hb hd hf h =
    let (cur, next, ec, dn, cn, rest) = line_balances-cons s i l ls acc hb.0 h in
    let key = balance_key i l.account_id in
    let one = insert_fresh key next cur (debit_of l) (credit_of l) acc s.balances ec hf.0 dn cn in
    let more =
      line_balances-total s i ls (insert key next acc) {acc' = acc'} hb.1 hd.1
        (insert-IsFresh i l next acc ls hd.0 hf.1) rest in
    (omega (arith, one.0, more.0), omega (arith, one.1, more.1))
