-- ===== src/Kernel/Amount/Shape.antt =====
-- The patterns on the texts that the conversions themselves produce.
use eclipse_erp.Base.{
  ℕ, zero, suc, ◌+◌, ◌/◌, ◌%◌, ◌<◌, ◌≡◌, refl, Bool, true, false, ◌&&◌, [], ◌∷◌, ◌++◌, arith, ltb,
  leb, some, all, inl, inr, Bool-cases,
}
use eclipse_erp.Text.{Text}
use eclipse_erp.Text.Decimal.{is_digit, is_empty, print_fuel, print}
use eclipse_erp.Text.Decimal.Digits.{IsDigits, IsDigits-append}
use eclipse_erp.Kernel.Amount.{span_digits, decimal_match, decimal_tail, is_minor_amount}

-- Digits that do not begin with 0.
unfoldable pub is_leading : Text → Bool
is_leading [] = false
is_leading (c ∷ s) = leb b'1' c && leb c b'9' && all is_digit s

is_leading-snoc :
    (s : Text) (c : ℕ) → is_leading s ≡ true → is_digit c ≡ true → is_leading (s ++ (c ∷ [])) ≡ true
unfolding is_leading
is_leading-snoc [] c h d = cc
is_leading-snoc (x ∷ s) c h d = ground (arith, IsDigits-append s (c ∷ []))

is_leading-print_fuel : (f n : ℕ) → n < f → 0 < n → is_leading (print_fuel f n) ≡ true
unfolding print_fuel
is_leading-print_fuel zero n h p = elim h [ ]
is_leading-print_fuel (suc f) n h p = elim (Bool-cases (ltb n 10)) [
  | inl small ↦ rw small (unfold is_leading in ground arith)
  | inr large ↦ rw large (
      is_leading-snoc (print_fuel f (n / 10)) (b'0' + n % 10)
        (is_leading-print_fuel f (n / 10) (ground arith) (ground arith)) (ground arith))
]

is_minor-leading : (s : Text) → is_leading s ≡ true → is_minor_amount s ≡ true
unfolding is_leading is_minor_amount
is_minor-leading [] h = cc
is_minor-leading (c ∷ s) h = ground arith

-- What `toString` prints is a minor amount.
pub is_minor_amount-print : (n : ℕ) → is_minor_amount (print n) ≡ true
unfolding print
is_minor_amount-print zero = unfold is_minor_amount print_fuel in refl
is_minor_amount-print (suc n) =
    is_minor-leading (print_fuel (suc (suc n)) (suc n))
      (is_leading-print_fuel (suc (suc n)) (suc n) (omega arith) (omega arith))

span_digits-point : (s t : Text) → IsDigits s → span_digits (s ++ (b'.' ∷ t)) ≡ (s, b'.' ∷ t)
unfolding span_digits
span_digits-point [] t h = refl
span_digits-point (c ∷ s) t h = ground (arith, span_digits-point s t)

span_digits-all : (s : Text) → IsDigits s → span_digits s ≡ (s, [])
unfolding span_digits
span_digits-all [] h = refl
span_digits-all (c ∷ s) h = ground (arith, span_digits-all s)

-- A whole part, a point and a fraction are matched as such.
pub decimal_match-point :
    (s t : Text)
    → IsDigits s
    → IsDigits t
    → is_empty s ≡ false
    → is_empty t ≡ false
    → decimal_match (s ++ (b'.' ∷ t)) ≡ some (s, t)
unfolding decimal_match
decimal_match-point s t hs ht ns nt = rw (span_digits-point s t hs) (ground arith)

pub decimal_match-whole :
    (s : Text) → IsDigits s → is_empty s ≡ false → decimal_match s ≡ some (s, [])
unfolding decimal_match
decimal_match-whole s hs ns = rw (span_digits-all s hs) (ground arith)

span_digits-IsDigits : (s : Text) → IsDigits (span_digits s).0
unfolding span_digits
span_digits-IsDigits [] = refl
span_digits-IsDigits (c ∷ s) = ground (arith, span_digits-IsDigits s)

decimal_tail-IsDigits :
    (w s : Text) {g : Text × Text}
    → IsDigits w
    → decimal_tail w s ≡ some g
    → IsDigits g.0 × IsDigits g.1
decimal_tail-IsDigits w [] h e = ground arith
decimal_tail-IsDigits w (c ∷ s) h e = ground arith

-- Both groups of a match are digits.
pub decimal_match-IsDigits :
    (s : Text) {g : Text × Text} → decimal_match s ≡ some g → IsDigits g.0 × IsDigits g.1
unfolding decimal_match
decimal_match-IsDigits s h =
    ground
      (arith, decimal_tail-IsDigits (span_digits s).0 (span_digits s).1, span_digits-IsDigits s)
