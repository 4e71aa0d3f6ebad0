-- ===== src/Kernel/Amount.antt =====
-- packages/kernel/src/financial-amount.ts: exact conversion between decimal major amounts and
-- integer minor amounts. A text is a list of code units, a bigint that is never negative a number.
pub mod Shape
pub mod Exact
pub mod RoundTrip
use eclipse_erp.Base.{
  ℕ, zero, suc, ◌+◌, ◌-◌, ◌*◌, ◌^◌, ◌≤◌, ◌≡◌, Bool, true, false, ◌&&◌, ◌||◌, not, Option, none,
  some, List, [], ◌∷◌, ◌++◌, arith, ltb, leb, ◌==◌, if◌then◌else◌, length, take, drop, all,
}
use eclipse_erp.Base.Effect.{Result, ok, err}
use eclipse_erp.Text.{Text, codes}
use eclipse_erp.Text.Decimal.{is_digit, is_empty, value, print, pad_end, pad_start, strip_zeros}

-- `FINANCIAL_LEDGER_MAX_MINOR`
abbrev pub ledger_max_minor : ℕ
ledger_max_minor = 2 ^ 128 - 1

pub data FailureReason : Type 0 where
  invalid_format fractional_precision invalid_exponent overflow : FailureReason

abbrev pub AmountResult : Type 0
AmountResult = Result FailureReason Text

-- The longest prefix of digits, and the rest.
unfoldable pub span_digits : Text → Text × Text
span_digits [] = ([], [])
span_digits (c ∷ s) =
    let (digits, rest) = span_digits s in if is_digit c then (c ∷ digits, rest) else ([], c ∷ s)

-- What follows the whole part: nothing, or a point and digits up to the end.
abbrev pub decimal_tail : Text → Text → Option (Text × Text)
decimal_tail whole [] = some (whole, [])
decimal_tail whole (c ∷ s) =
    if c == b'.' && (not (is_empty s) && all is_digit s) then some (whole, s) else none

-- `decimalPattern.exec(value)`, with `match[2] ?? ""`: the groups of `/^(\d+)(?:\.(\d+))?$/`.
unfoldable pub decimal_match : Text → Option (Text × Text)
unfolding span_digits
decimal_match s =
    let (whole, rest) = span_digits s in if is_empty whole then none else decimal_tail whole rest

-- `FinancialMajorAmount`, the schema of a public amount: `/^\d{1,18}(\.\d{1,2})?$/`
unfoldable pub is_major_amount : Text → Bool
is_major_amount s = elim (decimal_match s) [
  | none ↦ false
  | some (whole, fraction) ↦ leb (length whole) 18 && (leb (length fraction) 2)
]

-- `minorPattern.test(value)`: `/^(0|[1-9]\d*)$/`
unfoldable pub is_minor_amount : Text → Bool
is_minor_amount [] = false
is_minor_amount (c ∷ s) = (c == b'0' && is_empty s) || (leb b'1' c && leb c b'9' && all is_digit s)

-- `Number.isSafeInteger` and the lower bound hold of every natural number up to 38.
abbrev pub valid_exponent : ℕ → Bool
valid_exponent exponent = leb exponent 38

-- `text || "0"`
abbrev pub or_zero : Text → Text
or_zero [] = codes "0"
or_zero (c ∷ s) = c ∷ s

-- The part of `majorToMinor` after the match.
unfoldable pub scale_match : ℕ → Text × Text → AmountResult
scale_match exponent (whole, digits) =
    let fraction = strip_zeros digits in
    if ltb exponent (length fraction)
    then err fractional_precision
    else let scale = 10 ^ exponent in
      let minor = value whole * scale + value (or_zero (pad_end exponent fraction)) in
      if ltb ledger_max_minor minor then err overflow else ok (print minor)

unfoldable pub major_to_minor : Text → ℕ → AmountResult
major_to_minor s exponent =
    if not (valid_exponent exponent) then err invalid_exponent else elim (decimal_match s) [
      | none ↦ err invalid_format
      | some groups ↦ scale_match exponent groups
    ]

-- `requireExactMajorToMinor`; the error is the `RangeError` that it throws.
unfoldable pub require_exact_major_to_minor : Text → ℕ → Result FailureReason ℕ
require_exact_major_to_minor s exponent = elim (major_to_minor s exponent) [
  | ok minor ↦ ok (value minor)
  | err reason ↦ err reason
]

unfoldable pub minor_to_major : Text → ℕ → AmountResult
minor_to_major s exponent =
    if not (valid_exponent exponent)
    then err invalid_exponent
    else if not (is_minor_amount s)
    then err invalid_format
    else let minor = value s in
      if ltb ledger_max_minor minor
      then err overflow
      else if exponent == 0
      then ok (print minor)
      else let digits = pad_start (exponent + 1) (print minor) in
        let point = length digits - exponent in ok (take point digits ++ (b'.' ∷ drop point digits))
