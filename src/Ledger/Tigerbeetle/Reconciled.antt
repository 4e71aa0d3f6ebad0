-- ===== src/Ledger/Tigerbeetle/Reconciled.antt =====
-- What reconciling a journal establishes: packages/kernel/src/tigerbeetle.ts.
use eclipse_erp.Base.{
  ℕ, ◌≡◌, refl, sym, ap, ◌∙◌, subst, ◌⊎◌, inl, inr, Bool, true, false, ◌&&◌, Option, none, some,
  List, [], ◌∷◌, map, arith, ◌==◌, Bool-cases, Option-cases, length, any, all,
}
use eclipse_erp.Text.{Text, text_eq, text_eq_iff}
use eclipse_erp.Text.Decimal.{print, value, value-print}
use eclipse_erp.Dict.{Dict, lookup, insert, lookup-insert}
use eclipse_erp.Ledger.Port.{PostJournalInput}
use eclipse_erp.Ledger.Journal.Balanced.{IsBalanced, validate_journal_iff}
use eclipse_erp.Ledger.Pairing.{pair_lines}
use eclipse_erp.Ledger.Memory.Outcomes.{is_accepted, answers_accepted}
use eclipse_erp.Ledger.Tigerbeetle.{Transfer, Adapter}
use eclipse_erp.Ledger.Tigerbeetle.Transfers.{
  transfers_of, by_id, same_transfer, is_mismatch, compare_found, reconcile_journal,
}
use eclipse_erp.Ledger.Tigerbeetle.Confirmed.{checked_pairs-goes_on}

print_injective : (m n : ℕ) → text_eq (print m) (print n) ≡ true → (m == n) ≡ true
print_injective m n h =
    let e = ap value ((text_eq_iff (print m) (print n)).0 h) in
    ground (arith, e, value-print m, value-print n)

inserted :
    (k : Text) (u t : Transfer) (m : Dict Transfer)
    → lookup k (insert (print u.id) u m) ≡ some t
    → ((text_eq k (print u.id) ≡ true) × (u ≡ t)) ⊎ (lookup k m ≡ some t)
inserted k u t m h =
    let e = sym (lookup-insert (print u.id) k u m) ∙ h in
    elim (Bool-cases (text_eq k (print u.id))) [
      | inl same ↦ inl (same, ground (arith, e))
      | inr other ↦ inr (ground (arith, e))
    ]

module _ {W : Type 0} (a : Adapter W) where
  -- A transfer of the server is the one expected: of the same id, accounts, amount, mapping version
  -- and flags, on the ledger and with the code of the configuration, and without the fields that
  -- posting leaves at 0.
  abbrev is_match : Transfer → Transfer → Bool
  is_match e t =
      e.id == t.id
      && (e.debit_account_id == t.debit_account_id
          && (e.credit_account_id == t.credit_account_id
              && (e.amount == t.amount
                  && (e.user_data_32 == t.user_data_32
                      && (e.flags == t.flags
                          && (t.ledger == a.config.ledger
                              && (t.code == a.config.code
                                  && (t.pending_id == 0
                                      && (t.user_data_128 == 0
                                          && (t.user_data_64 == 0 && t.timeout == 0))))))))))

  same_transfer-match :
      (e t : Transfer) → same_transfer a t e ≡ true → (e.id == t.id) ≡ true → is_match e t ≡ true
  unfolding same_transfer
  same_transfer-match e t s h = ground (arith, s, h)

  -- Every transfer expected is among those found, and there are no others.
  unfoldable pub all_found : List Transfer → Option (List Transfer) → Bool
  all_found expected none = false
  all_found expected (some found) =
      length found == length expected && all (λ e. any (is_match e) found) expected

  by_id-found :
      (e t : Transfer) (ts : List Transfer) (m : Dict Transfer)
      → same_transfer a t e ≡ true
      → lookup (print e.id) (by_id ts m) ≡ some t
      → (any (is_match e) ts ≡ true) ⊎ (lookup (print e.id) m ≡ some t)
  unfolding by_id
  by_id-found e t [] m s h = inr h
  by_id-found e t (u ∷ ts) m s h = elim (by_id-found e t ts (insert (print u.id) u m) s h) [
    | inl found ↦ inl (ground (arith, found))
    | inr there ↦ elim (inserted (print e.id) u t m there) [
      | inl (same, eq) ↦
          let s' = subst (λ x. same_transfer a x e ≡ true) (sym eq) s in
          inl (ground (arith, same_transfer-match e u s' (print_injective e.id u.id same)))
      | inr below ↦ inr below
    ]
  ]

  matched :
      (found : List Transfer) (e : Transfer)
      → is_mismatch a (by_id found []) e ≡ false
      → any (is_match e) found ≡ true
  unfolding is_mismatch lookup
  matched found e h = elim (Option-cases (lookup (print e.id) (by_id found []))) [
    | inl n ↦ absurd (ground (arith, n))
    | inr (t, s) ↦ elim (by_id-found e t found [] (ground (arith, s)) s) [
      | inl there ↦ there
      | inr none_there ↦ absurd (ground arith)
    ]
  ]

  all_matched :
      (found es : List Transfer)
      → any (is_mismatch a (by_id found [])) es ≡ false
      → all (λ e. any (is_match e) found) es ≡ true
  all_matched found [] h = refl
  all_matched found (e ∷ es) h = ground (arith, all_matched found es, matched found e)

  compare_found-accepted :
      (i : PostJournalInput) (es : List Transfer) (r : Option (List Transfer))
      → is_accepted (compare_found a i es r) ≡ true
      → all_found es r ≡ true
  unfolding compare_found all_found
  compare_found-accepted i es none h = absurd (ground arith)
  compare_found-accepted i es (some found) h = ground (arith, all_matched found es)

  -- An accepted reconciliation means that the journal balances, and that the server returned for its
  -- ids exactly as many transfers as the journal has, among them each one with the accounts, the
  -- amount, the mapping version and the flags that posting the journal gives it, with the ledger and
  -- the code of the configuration, and with no pending transfer, no further user data and no timeout.
  pub reconcile_journal-confirmed :
      (i : PostJournalInput) (w : W)
      → answers_accepted (reconcile_journal a i w) ≡ true
      → IsBalanced i.lines
        × (all_found (transfers_of a i (pair_lines i.lines)) (
              a.client.lookup_transfers
                (map (λ (t : Transfer). t.id) (transfers_of a i (pair_lines i.lines)))
                w)
            ≡ true)
  unfolding reconcile_journal
  reconcile_journal-confirmed i w h =
      let (e, v) = checked_pairs-goes_on a i (ground arith) in
      let ts = transfers_of a i (pair_lines i.lines) in
      (
        (validate_journal_iff i).0 v,
        compare_found-accepted i ts (a.client.lookup_transfers (map (λ (t : Transfer). t.id) ts) w)
            (ground (arith, e)),
      )
