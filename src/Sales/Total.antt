-- ===== src/Sales/Total.antt =====
-- The total of an order: `deriveTotal` of packages/sales/src/service.ts.
use native.Mathlib.Nat.{pow-le-pow_right}
use eclipse_erp.Base.{
  false, ℕ, zero, suc, ◌+◌, ◌*◌, ◌/◌, ◌%◌, ◌^◌, ◌≤◌, ◌<◌, ◌≡◌, ap, ◌∙◌, subst, true, some, List, [],
  ◌∷◌, arith, length, all, length-append,
}
use eclipse_erp.Base.Effect.{Result, ok, err}
use eclipse_erp.Text.{Text}
use eclipse_erp.Text.Decimal.{
  value, print, print_fuel, pad_start, pad_end, strip_zeros, value-print, value-pad_start,
  length-pad_start,
}
use eclipse_erp.Text.Decimal.Digits.{
  IsDigits-print, IsDigits-pad_start, value-lt, length-strip_zeros, pad_end-strip_zeros,
}
use eclipse_erp.Kernel.Amount.{
  FailureReason, scale_match, decimal_match, is_major_amount, major_to_minor, or_zero,
  ledger_max_minor, require_exact_major_to_minor,
}
use eclipse_erp.Kernel.Amount.Shape.{decimal_match-point}
use eclipse_erp.Kernel.Amount.Exact.{value-or_zero}
use eclipse_erp.Kernel.Amount.RoundTrip.{nonempty, major_to_minor-match, require_exact-major}
use eclipse_erp.Sales.Orders.{OrderLine, valid_order_line, add_cents, print_cents, derive_total}

one_digit : (fuel n : ℕ) → n < 10 → length (print_fuel fuel n) ≤ 1
unfolding print_fuel
one_digit zero n h = omega arith
one_digit (suc fuel) n h = ground arith

two_digits : (fuel n : ℕ) → n < 100 → length (print_fuel fuel n) ≤ 2
unfolding print_fuel
two_digits zero n h = omega arith
two_digits (suc fuel) n h = ground (
  arith,
  one_digit fuel (n / 10),
  length-append (print_fuel fuel (n / 10)) ((b'0' + n % 10) ∷ []),
)

print_nonempty : (n : ℕ) → 0 < length (print n)
unfolding print print_fuel
print_nonempty n = ground (arith, length-append (print_fuel n (n / 10)) ((b'0' + n % 10) ∷ []))

abbrev whole : ℕ → Text
whole c = print (c / 100)

abbrev fraction : ℕ → Text
fraction c = pad_start 2 (print (c % 100))

length-fraction : (c : ℕ) → length (fraction c) ≡ 2
unfolding print
length-fraction c =
    let two = two_digits (suc (c % 100)) (c % 100) (omega arith) in
    omega (arith, two, length-pad_start 2 (print (c % 100)))

value-fraction : (c : ℕ) → value (fraction c) ≡ c % 100
value-fraction c = value-pad_start 2 (print (c % 100)) ∙ value-print (c % 100)

decimal_match-cents : (c : ℕ) → decimal_match (print_cents c) ≡ some (whole c, fraction c)
unfolding print_cents
decimal_match-cents c =
    decimal_match-point (whole c) (fraction c) (IsDigits-print (c / 100))
      (IsDigits-pad_start 2 (print (c % 100)) (IsDigits-print (c % 100)))
      (nonempty (whole c) (print_nonempty (c / 100)))
      (nonempty (fraction c) (omega (arith, length-fraction c)))

kept_zeros : (c : ℕ) → pad_end 2 (strip_zeros (fraction c)) ≡ fraction c
kept_zeros c =
    subst (λ n. pad_end n (strip_zeros (fraction c)) ≡ fraction c) (length-fraction c)
      (pad_end-strip_zeros (fraction c))

split_cents :
    (c : ℕ) → value (whole c) * 10 ^ 2 + value (or_zero (pad_end 2 (strip_zeros (fraction c)))) ≡ c
split_cents c =
    rw
      (
        value-or_zero (pad_end 2 (strip_zeros (fraction c))),
        kept_zeros c,
        value-fraction c,
        value-print (c / 100),
      )
      (omega arith)

scale_match-cents :
    (c : ℕ) → c ≤ ledger_max_minor → scale_match 2 (whole c, fraction c) ≡ ok (print c)
unfolding scale_match
scale_match-cents c h =
    let short : length (strip_zeros (fraction c)) ≤ 2 =
      omega (arith, length-strip_zeros (fraction c), length-fraction c) in
    rw (split_cents c) (ground arith)

pub print_cents-major_to_minor :
    (c : ℕ) → c ≤ ledger_max_minor → major_to_minor (print_cents c) 2 ≡ ok (print c)
print_cents-major_to_minor c h =
    major_to_minor-match (print_cents c) 2 (whole c, fraction c) (omega arith)
      (decimal_match-cents c)
    ∙ scale_match-cents c h

-- What a line costs, in cents, where its price is an amount.
unfoldable pub line_cents : OrderLine → ℕ
line_cents l = elim (require_exact_major_to_minor l.unit_price 2) [
  | ok price ↦ value l.quantity * price
  | err reason ↦ 0
]

unfoldable pub order_cents : List OrderLine → ℕ
order_cents [] = 0
order_cents (l ∷ ls) = line_cents l + order_cents ls

add_cents-valid :
    (total : ℕ) (ls : List OrderLine)
    → all valid_order_line ls ≡ true
    → add_cents total ls ≡ ok (total + order_cents ls)
unfolding add_cents order_cents line_cents valid_order_line
add_cents-valid total [] h = ap ok (omega arith)
add_cents-valid total (l ∷ ls) h =
    let (price, e, b) = require_exact-major l.unit_price (ground arith) in
    let rest = add_cents-valid (total + value l.quantity * price) ls (ground arith) in
    ground (arith, e, rest)

abbrev printed : Result FailureReason ℕ → Result FailureReason Text
printed (ok cents) = ok (print_cents cents)
printed (err reason) = err reason

pub derive_total-valid :
    (lines : List OrderLine)
    → all valid_order_line lines ≡ true
    → derive_total lines ≡ ok (print_cents (order_cents lines))
unfolding derive_total
derive_total-valid lines h =
    ap printed (add_cents-valid 0 lines h) ∙ ap (λ c. ok (print_cents c)) (omega arith)

short_print : (n : ℕ) → length (print n) ≤ 18 → n < 10 ^ 18
short_print n h =
    let below = value-lt (print n) (IsDigits-print n) in
    omega (arith, below, value-print n, pow-le-pow_right {n = 10} (omega arith) h)

-- From 10^20 cents on, the schema of amounts does not admit a printed total.
pub print_cents-oversized : (c : ℕ) → 10 ^ 20 ≤ c → is_major_amount (print_cents c) ≡ false
unfolding is_major_amount
print_cents-oversized c h = ground (arith, decimal_match-cents c, short_print (c / 100))

-- The total of valid lines is the sum of quantity times price, printed with two decimals, and the
-- amount conversion reads it back to exactly that sum, where the sum is within the ledger's
-- greatest amount.
pub derive_total-exact :
    (lines : List OrderLine)
    → all valid_order_line lines ≡ true
    → order_cents lines ≤ ledger_max_minor
    → (derive_total lines ≡ ok (print_cents (order_cents lines)))
      × (major_to_minor (print_cents (order_cents lines)) 2 ≡ ok (print (order_cents lines)))
derive_total-exact lines h small =
    (derive_total-valid lines h, print_cents-major_to_minor (order_cents lines) small)
