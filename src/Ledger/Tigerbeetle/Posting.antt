-- ===== src/Ledger/Tigerbeetle/Posting.antt =====
-- What posting a journal sends, and what its outcomes mean: packages/kernel/src/tigerbeetle.ts.
use eclipse_erp.Base.{
  ℕ, ◌+◌, ◌≡◌, refl, ap, ◌∙◌, subst, Bool, List, [], ◌∷◌, arith, ◌==◌, if◌then◌else◌, length,
}
use eclipse_erp.Text.{Text}
use eclipse_erp.Ledger.Port.{PostJournalInput}
use eclipse_erp.Ledger.Journal.Balanced.{IsBalanced}
use eclipse_erp.Ledger.Pairing.{TransferPair, pair_lines}
use eclipse_erp.Ledger.Pairing.Conserves.{
  paired_debit, paired_credit, line_debit, line_credit, pair_lines-conserves,
}
use eclipse_erp.Ledger.Tigerbeetle.{Transfer, Runtime, Adapter, account_id_of}
use eclipse_erp.Ledger.Tigerbeetle.Transfers.{
  line_scope, flags_at, transfer_of, transfers_from, transfers_of,
}

-- What the transfers debit and credit to the TigerBeetle account with an id.
unfoldable pub sent_debit : ℕ → List Transfer → ℕ
sent_debit k [] = 0
sent_debit k (t ∷ ts) = (if k == t.debit_account_id then t.amount else 0) + sent_debit k ts

unfoldable pub sent_credit : ℕ → List Transfer → ℕ
sent_credit k [] = 0
sent_credit k (t ∷ ts) = (if k == t.credit_account_id then t.amount else 0) + sent_credit k ts

-- Every transfer but the last is linked to the next: the server posts all of them or none.
unfoldable pub IsChain : Runtime → List Transfer → Type 0
IsChain r [] = Unit
IsChain r (t ∷ []) = t.flags ≡ r.transfer_flags.none_set
IsChain r (t ∷ (u ∷ ts)) = (t.flags ≡ r.transfer_flags.linked) × IsChain r (u ∷ ts)

module _ {W : Type 0} (a : Adapter W) (i : PostJournalInput) where
  -- The accounts of the journal that have a TigerBeetle id.
  abbrev pub has_id : ℕ → Text → Bool
  has_id k account = k == account_id_of a.digest (line_scope i account)

  sent_debit-transfers :
      (k n index : ℕ) (ps : List TransferPair)
      → sent_debit k (transfers_from a i n index ps) ≡ paired_debit (has_id k) ps
  unfolding sent_debit transfers_from transfer_of paired_debit
  sent_debit-transfers k n index [] = refl
  sent_debit-transfers k n index (p ∷ ps) =
      ap (λ x. (if has_id k p.debit_account_id then p.amount else 0) + x)
        (sent_debit-transfers k n (index + 1) ps)

  sent_credit-transfers :
      (k n index : ℕ) (ps : List TransferPair)
      → sent_credit k (transfers_from a i n index ps) ≡ paired_credit (has_id k) ps
  unfolding sent_credit transfers_from transfer_of paired_credit
  sent_credit-transfers k n index [] = refl
  sent_credit-transfers k n index (p ∷ ps) =
      ap (λ x. (if has_id k p.credit_account_id then p.amount else 0) + x)
        (sent_credit-transfers k n (index + 1) ps)

  transfers-IsChain :
      (index : ℕ) (ps : List TransferPair)
      → IsChain a.runtime (transfers_from a i (index + length ps) index ps)
  unfolding IsChain transfers_from transfer_of flags_at
  transfers-IsChain index [] = tt
  transfers-IsChain index (p ∷ []) = ground arith
  transfers-IsChain index (p ∷ (q ∷ ps)) =
      let n = index + length (p ∷ (q ∷ ps)) in
      (
        ground arith,
        subst (λ m. IsChain a.runtime (transfers_from a i m (index + 1) (q ∷ ps))) (omega arith)
            (transfers-IsChain (index + 1) (q ∷ ps)),
      )

  -- The batch that posting a balanced journal sends debits every account of the server by what the
  -- lines whose account has its id debit, credits it by what they credit, and is one linked chain.
  pub transfers-move :
      IsBalanced i.lines
      → (k : ℕ)
      → (sent_debit k (transfers_of a i (pair_lines i.lines)) ≡ line_debit (has_id k) i.lines)
        × (sent_credit k (transfers_of a i (pair_lines i.lines)) ≡ line_credit (has_id k) i.lines)
        × IsChain a.runtime (transfers_of a i (pair_lines i.lines))
  unfolding transfers_of
  transfers-move b k =
      let ps = pair_lines i.lines in
      let kept = pair_lines-conserves i.lines (has_id k) b in
      (
        sent_debit-transfers k (length ps) 0 ps ∙ kept.0,
        sent_credit-transfers k (length ps) 0 ps ∙ kept.1,
        subst (λ n. IsChain a.runtime (transfers_from a i n 0 ps)) (omega arith)
            (transfers-IsChain 0 ps),
      )
