-- ===== src/Ledger/Pairing.antt =====
-- The pairing of debit and credit lines into transfers: `pairLines` of tigerbeetle.ts, and the
-- count of the same loop in `expectedTestTransferIds` of financial-ledger.ts.
pub mod Conserves
use eclipse_erp.Base.{
  ℕ, zero, suc, ◌+◌, ◌-◌, ◌*◌, ◌/◌, ◌%◌, ◌^◌, ◌≤◌, ◌<◌, ◌≡◌, refl, sym, ap, ◌∙◌, subst, ◌≢◌, ◌↔◌,
  ◌⊎◌, inl, inr, Bool, true, false, not, ◌&&◌, ◌||◌, Option, none, some, List, [], ◌∷◌, ◌++◌, map,
  append_assoc, append-nil, arith, ltb, leb, ◌==◌, if◌then◌else◌, bool_eq, Bool-cases, Option-cases,
  and_true, ltb→lt, lt→ltb, leb→le, le→leb, eqb→eq, eqb_refl, eq→eqb, length, take, drop, replicate,
  any, all, find, filter, All, length-append, length-replicate, take-append-drop, length-drop,
  length-take,
}
use eclipse_erp.Text.{Text}
use eclipse_erp.Ledger.Port.{JournalLine}
use eclipse_erp.Ledger.Journal.{debit_of, credit_of}

-- An entry of `debits` or `credits`: an account and what is left of its amount.
pub record Side : Type 0 where
  pub account_id : Text
  pub remaining : ℕ

pub record TransferPair : Type 0 where
  pub debit_account_id : Text
  pub credit_account_id : Text
  pub amount : ℕ

unfoldable pub debit_sides : List JournalLine → List Side
debit_sides [] = []
debit_sides (l ∷ ls) =
    let rest = debit_sides ls in
    if ltb 0 (debit_of l)
    then record { account_id = l.account_id; remaining = debit_of l } ∷ rest
    else rest

unfoldable pub credit_sides : List JournalLine → List Side
credit_sides [] = []
credit_sides (l ∷ ls) =
    let rest = credit_sides ls in
    if ltb 0 (credit_of l)
    then record { account_id = l.account_id; remaining = credit_of l } ∷ rest
    else rest

-- `side.remaining -= amount`, and the index moves on when nothing is left.
abbrev pub advance : Side → ℕ → List Side → List Side
advance s amount rest =
    let left = s.remaining - amount in
    if left == 0 then rest else record s { remaining = left } ∷ rest

abbrev pub pair_amount : Side → Side → ℕ
pair_amount d c = if ltb d.remaining c.remaining then d.remaining else c.remaining

-- The `while` loop on the sides not yet used up, with fuel for its rounds.
unfoldable pub pair_loop : ℕ → List Side → List Side → List TransferPair
pair_loop zero ds cs = []
pair_loop (suc fuel) [] cs = []
pair_loop (suc fuel) (d ∷ ds) [] = []
pair_loop (suc fuel) (d ∷ ds) (c ∷ cs) =
    let amount = pair_amount d c in
    record { debit_account_id = d.account_id; credit_account_id = c.account_id; amount = amount }
    ∷ pair_loop fuel (advance d amount ds) (advance c amount cs)

-- Each round uses up a side, so as many rounds as there are sides are enough.
unfoldable pub pair_lines : List JournalLine → List TransferPair
pair_lines lines =
    let debits = debit_sides lines in
    let credits = credit_sides lines in pair_loop (length debits + length credits) debits credits
