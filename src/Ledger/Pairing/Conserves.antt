-- ===== src/Ledger/Pairing/Conserves.antt =====
-- Pairing keeps every account's debits and credits.
use eclipse_erp.Base.{
  Bool, ℕ, zero, suc, ◌+◌, ◌≤◌, ◌<◌, ◌≡◌, refl, sym, ◌∙◌, List, [], ◌∷◌, arith, if◌then◌else◌,
  length, All,
}
use eclipse_erp.Text.{Text}
use eclipse_erp.Ledger.Port.{JournalLine}
use eclipse_erp.Ledger.Journal.{debit_of, credit_of}
use eclipse_erp.Ledger.Journal.Balanced.{total_debit, total_credit, IsBalanced}
use eclipse_erp.Ledger.Pairing.{
  Side, TransferPair, debit_sides, credit_sides, advance, pair_amount, pair_loop, pair_lines,
}

unfoldable pub side_sum : List Side → ℕ
side_sum [] = 0
side_sum (s ∷ ss) = s.remaining + side_sum ss

-- What the sides hold for a set of accounts.
unfoldable pub side_of : (Text → Bool) → List Side → ℕ
side_of f [] = 0
side_of f (s ∷ ss) = (if f s.account_id then s.remaining else 0) + side_of f ss

-- What the pairs debit and credit to a set of accounts.
unfoldable pub paired_debit : (Text → Bool) → List TransferPair → ℕ
paired_debit f [] = 0
paired_debit f (p ∷ ps) = (if f p.debit_account_id then p.amount else 0) + paired_debit f ps

unfoldable pub paired_credit : (Text → Bool) → List TransferPair → ℕ
paired_credit f [] = 0
paired_credit f (p ∷ ps) = (if f p.credit_account_id then p.amount else 0) + paired_credit f ps

abbrev pub IsPositive : Side → Type 0
IsPositive s = 0 < s.remaining

abbrev pub HasAmount : TransferPair → Type 0
HasAmount p = 0 < p.amount

-- One round, for the sides that are left.
advance-IsPositive :
    (s : Side) (n : ℕ) (ss : List Side) → All IsPositive ss → All IsPositive (advance s n ss)
advance-IsPositive s n ss h = ground arith

advance-sum :
    (s : Side) (n : ℕ) (ss : List Side)
    → n ≤ s.remaining
    → side_sum (advance s n ss) + n ≡ side_sum (s ∷ ss)
unfolding side_sum
advance-sum s n ss h = ground arith

advance-side :
    (f : Text → Bool) (s : Side) (n : ℕ) (ss : List Side)
    → n ≤ s.remaining
    → side_of f (advance s n ss) + (if f s.account_id then n else 0) ≡ side_of f (s ∷ ss)
unfolding side_of
advance-side f s n ss h = ground arith

length-advance :
    (s t : Side) (ss ts : List Side)
    → length (advance s (pair_amount s t) ss) + length (advance t (pair_amount s t) ts)
      ≤ suc (length ss + length ts)
length-advance s t ss ts = ground arith

amount-le : (d c : Side) → (pair_amount d c ≤ d.remaining) × (pair_amount d c ≤ c.remaining)
amount-le d c = ground arith

sides_empty : (cs : List Side) → All IsPositive cs → side_sum cs ≡ 0 → cs ≡ []
unfolding side_sum
sides_empty [] h e = refl
sides_empty (c ∷ cs) h e = absurd (omega (arith, h.0))

no_sides :
    (f : Text → Bool) (ss : List Side) → All IsPositive ss → side_sum ss ≡ 0 → side_of f ss ≡ 0
unfolding side_of
no_sides f ss h e = rw (sides_empty ss h e)

-- Each round takes the same amount off both sides; at the end nothing is left on either.
pair_loop-conserves :
    (f : Text → Bool) (fuel : ℕ) (ds cs : List Side)
    → length ds + length cs ≤ fuel
    → All IsPositive ds
    → All IsPositive cs
    → side_sum ds ≡ side_sum cs
    → (paired_debit f (pair_loop fuel ds cs) ≡ side_of f ds)
      × (paired_credit f (pair_loop fuel ds cs) ≡ side_of f cs)
unfolding pair_loop paired_debit paired_credit
pair_loop-conserves f zero [] [] h pd pc e = unfold side_of in (refl, refl)
pair_loop-conserves f zero [] (c ∷ cs) h pd pc e = absurd (omega arith)
pair_loop-conserves f zero (d ∷ ds) cs h pd pc e = absurd (omega arith)
pair_loop-conserves f (suc fuel) [] cs h pd pc e =
    (unfold side_of in refl, sym (no_sides f cs pc (sym (unfold side_sum in e))))
pair_loop-conserves f (suc fuel) (d ∷ ds) [] h pd pc e =
    (sym (no_sides f (d ∷ ds) pd (unfold side_sum in e)), unfold side_of in refl)
pair_loop-conserves f (suc fuel) (d ∷ ds) (c ∷ cs) h pd pc e =
    let n = pair_amount d c in
    let le = amount-le d c in
    let ih =
      pair_loop-conserves f fuel (advance d n ds) (advance c n cs)
        (omega (arith, length-advance d c ds cs, h)) (advance-IsPositive d n ds pd.1)
        (advance-IsPositive c n cs pc.1)
        (omega (arith, advance-sum d n ds le.0, advance-sum c n cs le.1, e)) in
    (
      omega (arith, ih.0, advance-side f d n ds le.0),
      omega (arith, ih.1, advance-side f c n cs le.1),
    )

pair_loop-HasAmount :
    (fuel : ℕ) (ds cs : List Side)
    → All IsPositive ds
    → All IsPositive cs
    → All HasAmount (pair_loop fuel ds cs)
unfolding pair_loop
pair_loop-HasAmount zero ds cs pd pc = tt
pair_loop-HasAmount (suc fuel) [] cs pd pc = tt
pair_loop-HasAmount (suc fuel) (d ∷ ds) [] pd pc = tt
pair_loop-HasAmount (suc fuel) (d ∷ ds) (c ∷ cs) pd pc =
    let n = pair_amount d c in
    (
      ground (arith, pd.0, pc.0),
      pair_loop-HasAmount fuel (advance d n ds) (advance c n cs) (advance-IsPositive d n ds pd.1)
          (advance-IsPositive c n cs pc.1),
    )

-- What the lines debit and credit to a set of accounts.
unfoldable pub line_debit : (Text → Bool) → List JournalLine → ℕ
line_debit f [] = 0
line_debit f (l ∷ ls) = (if f l.account_id then debit_of l else 0) + line_debit f ls

unfoldable pub line_credit : (Text → Bool) → List JournalLine → ℕ
line_credit f [] = 0
line_credit f (l ∷ ls) = (if f l.account_id then credit_of l else 0) + line_credit f ls

debit_sides-line :
    (f : Text → Bool) (ls : List JournalLine) → side_of f (debit_sides ls) ≡ line_debit f ls
unfolding debit_sides side_of line_debit
debit_sides-line f [] = refl
debit_sides-line f (l ∷ ls) = ground (arith, debit_sides-line f ls)

credit_sides-line :
    (f : Text → Bool) (ls : List JournalLine) → side_of f (credit_sides ls) ≡ line_credit f ls
unfolding credit_sides side_of line_credit
credit_sides-line f [] = refl
credit_sides-line f (l ∷ ls) = ground (arith, credit_sides-line f ls)

debit_sides-sum :
    (ls : List JournalLine)
    → (side_sum (debit_sides ls) ≡ total_debit ls) × All IsPositive (debit_sides ls)
unfolding debit_sides side_sum total_debit
debit_sides-sum [] = (refl, tt)
debit_sides-sum (l ∷ ls) = ground (arith, debit_sides-sum ls)

credit_sides-sum :
    (ls : List JournalLine)
    → (side_sum (credit_sides ls) ≡ total_credit ls) × All IsPositive (credit_sides ls)
unfolding credit_sides side_sum total_credit
credit_sides-sum [] = (refl, tt)
credit_sides-sum (l ∷ ls) = ground (arith, credit_sides-sum ls)

-- The transfers of a journal that balances debit every set of accounts by what its lines debit,
-- credit it by what they credit, and each moves a positive amount.
pub pair_lines-conserves :
    (lines : List JournalLine) (f : Text → Bool)
    → IsBalanced lines
    → (paired_debit f (pair_lines lines) ≡ line_debit f lines)
      × (paired_credit f (pair_lines lines) ≡ line_credit f lines)
      × All HasAmount (pair_lines lines)
pair_lines-conserves lines f b =
    let (ds, pd) = debit_sides-sum lines in
    let (cs, pc) = credit_sides-sum lines in
    let fuel = length (debit_sides lines) + length (credit_sides lines) in
    let kept =
      pair_loop-conserves f fuel (debit_sides lines) (credit_sides lines) (omega arith) pd pc
        (ds ∙ b.balanced ∙ sym cs) in
    unfold pair_lines in
    (
      kept.0 ∙ debit_sides-line f lines,
      kept.1 ∙ credit_sides-line f lines,
      pair_loop-HasAmount fuel (debit_sides lines) (credit_sides lines) pd pc,
    )
