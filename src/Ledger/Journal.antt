-- ===== src/Ledger/Journal.antt =====
-- The validation of a journal before it is posted: `validateJournal` of financial-ledger.ts and
-- `journalValidation` of tigerbeetle.ts.
pub mod Balanced
use eclipse_erp.Base.{
  ℕ, zero, suc, ◌+◌, ◌-◌, ◌*◌, ◌/◌, ◌%◌, ◌^◌, ◌≤◌, ◌<◌, ◌≡◌, refl, sym, ap, ◌∙◌, subst, ◌≢◌, ◌↔◌,
  ◌⊎◌, inl, inr, Bool, true, false, not, ◌&&◌, ◌||◌, Option, none, some, List, [], ◌∷◌, ◌++◌, map,
  append_assoc, append-nil, arith, ltb, leb, ◌==◌, if◌then◌else◌, bool_eq, Bool-cases, Option-cases,
  and_true, ltb→lt, lt→ltb, leb→le, le→leb, eqb→eq, eqb_refl, eq→eqb, length, take, drop, replicate,
  any, all, find, filter, All, length-append, length-replicate, take-append-drop, length-drop,
  length-take,
}
use eclipse_erp.Text.{Text}
use eclipse_erp.Text.Decimal.{value}
use eclipse_erp.Ledger.Port.{
  JournalLine, PostJournalInput, ExecutionOutcome, RejectionReason, invalid_amount, unbalanced,
}

-- `U128_MAX`
abbrev pub u128_max : ℕ
u128_max = 2 ^ 128 - 1

abbrev pub debit_of : JournalLine → ℕ
debit_of l = value l.debit_minor

abbrev pub credit_of : JournalLine → ℕ
credit_of l = value l.credit_minor

-- The body of the loop over the lines: the totals after a line, or the rejection.
unfoldable pub add_line : JournalLine → ℕ × ℕ → Option (ℕ × ℕ)
add_line l (debit, credit) =
    if (ltb u128_max (debit_of l) || ltb u128_max (credit_of l))
      || bool_eq (ltb 0 (debit_of l)) (ltb 0 (credit_of l))
    then none
    else if ltb u128_max (debit + debit_of l) || ltb u128_max (credit + credit_of l)
    then none
    else some (debit + debit_of l, credit + credit_of l)

unfoldable pub add_lines : List JournalLine → ℕ × ℕ → Option (ℕ × ℕ)
add_lines [] totals = some totals
add_lines (l ∷ ls) totals = elim (add_line l totals) [
  | none ↦ none
  | some totals' ↦ add_lines ls totals'
]

-- The reason to reject the journal, if there is one.
unfoldable pub validation_reason : List JournalLine → Option RejectionReason
validation_reason lines =
    if ltb (length lines) 2 then some unbalanced else elim (add_lines lines (0, 0)) [
      | none ↦ some invalid_amount
      | some (debit, credit) ↦ if debit == credit then none else some unbalanced
    ]

-- `validateJournal(input)`; `none` is `undefined`.
unfoldable pub validate_journal : PostJournalInput → Option ExecutionOutcome
validate_journal i = elim (validation_reason i.lines) [
  | none ↦ none
  | some reason ↦ some (ExecutionOutcome.rejected i.operation_id reason)
]
