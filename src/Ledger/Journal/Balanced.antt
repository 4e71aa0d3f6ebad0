-- ===== src/Ledger/Journal/Balanced.antt =====
-- What the validation lets through: exactly the journals that balance.
use eclipse_erp.Base.{
  ℕ, ◌+◌, ◌≤◌, ◌<◌, ◌≡◌, ◌↔◌, ◌⊎◌, inl, inr, none, some, List, [], ◌∷◌, arith, Option-cases, length,
  All,
}
use eclipse_erp.Ledger.Port.{JournalLine, PostJournalInput}
use eclipse_erp.Ledger.Journal.{
  u128_max, debit_of, credit_of, add_line, add_lines, validation_reason, validate_journal,
}

unfoldable pub total_debit : List JournalLine → ℕ
total_debit [] = 0
total_debit (l ∷ ls) = debit_of l + total_debit ls

unfoldable pub total_credit : List JournalLine → ℕ
total_credit [] = 0
total_credit (l ∷ ls) = credit_of l + total_credit ls

-- Exactly one side of the line is positive.
abbrev pub IsOneSided : JournalLine → Type 0
IsOneSided l = ((0 < debit_of l) × (credit_of l ≡ 0)) ⊎ ((debit_of l ≡ 0) × (0 < credit_of l))

-- The specification of a journal that may be posted.
pub record IsBalanced (lines : List JournalLine) : Type 0 where
  pub two_lines : 2 ≤ length lines
  pub one_sided : All IsOneSided lines
  pub bounded : total_debit lines ≤ u128_max
  pub balanced : total_debit lines ≡ total_credit lines

add_line-some :
    (l : JournalLine) (d c : ℕ) {t : ℕ × ℕ}
    → add_line l (d, c) ≡ some t
    → IsOneSided l × (t ≡ (d + debit_of l, c + credit_of l)) × (t.0 ≤ u128_max)
unfolding add_line
add_line-some l d c h = ground arith

add_lines-some :
    (ls : List JournalLine) (d c : ℕ) {t : ℕ × ℕ}
    → d ≤ u128_max
    → add_lines ls (d, c) ≡ some t
    → All IsOneSided ls
      × (t ≡ (d + total_debit ls, c + total_credit ls))
      × (d + total_debit ls ≤ u128_max)
unfolding add_lines total_debit total_credit
add_lines-some [] d c b h = (tt, ground arith, omega arith)
add_lines-some (l ∷ ls) d c {t} b h = elim (Option-cases (add_line l (d, c))) [
  | inl nothing ↦ ground arith
  | inr (t', e) ↦ ground (
    arith,
    add_line-some l d c {t = t'} e,
    add_lines-some ls (d + debit_of l) (c + credit_of l) {t = t},
  )
]

add_lines-total :
    (ls : List JournalLine) (d c : ℕ)
    → All IsOneSided ls
    → d + total_debit ls ≤ u128_max
    → c + total_credit ls ≤ u128_max
    → add_lines ls (d, c) ≡ some (d + total_debit ls, c + total_credit ls)
unfolding add_lines add_line total_debit total_credit
add_lines-total [] d c h bd bc = ground arith
add_lines-total (l ∷ ls) d c h bd bc =
    ground (arith, add_lines-total ls (d + debit_of l) (c + credit_of l) h.1)

reason_sound : (lines : List JournalLine) → validation_reason lines ≡ none → IsBalanced lines
unfolding validation_reason
reason_sound lines h = elim (Option-cases (add_lines lines (0, 0))) [
  | inl nothing ↦ ground arith
  | inr (t, e) ↦ ground (arith, add_lines-some lines 0 0 (omega arith) e)
]

reason_complete : (lines : List JournalLine) → IsBalanced lines → validation_reason lines ≡ none
unfolding validation_reason
reason_complete lines b = ground (arith, add_lines-total lines 0 0 b.one_sided)

-- A journal passes the validation exactly when it has two lines or more, each debits or credits a
-- positive amount and never both, and the debits and the credits add up to one total within 128 bits.
pub validate_journal_iff : (i : PostJournalInput) → (validate_journal i ≡ none) ↔ IsBalanced i.lines
unfolding validate_journal
validate_journal_iff i =
    (λ h. reason_sound i.lines (ground arith), λ b. ground (arith, reason_complete i.lines b))
