-- ===== src/Text/Decimal.antt =====
-- Numbers as texts: `BigInt(s)` on digits, `n.toString()`, `padStart`, `padEnd` and the trailing
-- zeros that `replace(/0+$/, "")` strips.
pub mod Digits
use Prim.Native.Nat.{max}
use native.Mathlib.Nat.{pow-succ'}
use eclipse_erp.Base.{
  ℕ, zero, suc, ◌+◌, ◌-◌, ◌*◌, ◌/◌, ◌%◌, ◌^◌, ◌≤◌, ◌<◌, ◌≡◌, refl, sym, ap, ◌∙◌, Bool, true, false,
  ◌&&◌, ◌||◌, not, List, [], ◌∷◌, ◌++◌, append_assoc, append-nil, arith, ltb, leb, ◌==◌,
  if◌then◌else◌, length, replicate, all, length-append, length-replicate, inl, inr, Bool-cases,
}
use eclipse_erp.Text.{Text}

abbrev pub is_digit : ℕ → Bool
is_digit c = leb b'0' c && leb c b'9'

abbrev pub is_empty : Text → Bool
is_empty [] = true
is_empty (c ∷ s) = false

unfoldable pub value_from : ℕ → Text → ℕ
value_from acc [] = acc
value_from acc (c ∷ s) = value_from (acc * 10 + (c - b'0')) s

-- `BigInt(s)` of a text of digits; `BigInt("")` is 0.
unfoldable pub value : Text → ℕ
unfolding value_from
value s = value_from 0 s

unfoldable pub print_fuel : ℕ → ℕ → Text
print_fuel zero n = []
print_fuel (suc f) n =
    let rest = print_fuel f (n / 10) in
    if ltb n 10 then (b'0' + n) ∷ [] else rest ++ ((b'0' + n % 10) ∷ [])

-- `n.toString()`
unfoldable pub print : ℕ → Text
unfolding print_fuel
print n = print_fuel (suc n) n

-- `s.padEnd(n, "0")` and `s.padStart(n, "0")`
unfoldable pub pad_end : ℕ → Text → Text
pad_end n s = s ++ replicate (n - length s) b'0'

unfoldable pub pad_start : ℕ → Text → Text
pad_start n s = replicate (n - length s) b'0' ++ s

-- `s.replace(/0+$/, "")`
unfoldable pub strip_zeros : Text → Text
strip_zeros [] = []
strip_zeros (c ∷ s) =
    let rest = strip_zeros s in if (c == b'0') && is_empty rest then [] else c ∷ rest

-- Shifting by a digit.
pow_ten : (n : ℕ) → 10 ^ suc n ≡ 10 * 10 ^ n
pow_ten n = pow-succ' 10 n

shift_step :
    (acc d v p q w : ℕ)
    → q ≡ 10 * p
    → w ≡ (0 * 10 + d) * p + v
    → (acc * 10 + d) * p + v ≡ acc * q + w
shift_step acc d v p q w e h = rw (e, h) (omega arith)

value_from-shift : (acc : ℕ) (s : Text) → value_from acc s ≡ acc * 10 ^ length s + value_from 0 s
unfolding value_from
value_from-shift acc [] = omega arith
value_from-shift acc (c ∷ s) =
    value_from-shift (acc * 10 + (c - b'0')) s
    ∙ shift_step acc (c - b'0') (value_from 0 s) (10 ^ length s) (10 ^ suc (length s))
        (value_from (0 * 10 + (c - b'0')) s) (pow_ten (length s))
        (value_from-shift (0 * 10 + (c - b'0')) s)

value_from-append :
    (acc : ℕ) (s t : Text) → value_from acc (s ++ t) ≡ value_from (value_from acc s) t
unfolding value_from
value_from-append acc [] t = refl
value_from-append acc (c ∷ s) t = value_from-append (acc * 10 + (c - b'0')) s t

pub value-append : (s t : Text) → value (s ++ t) ≡ value s * 10 ^ length t + value t
unfolding value
value-append s t = value_from-append 0 s t ∙ value_from-shift (value_from 0 s) t

pub value-replicate_zero : (n : ℕ) → value (replicate n b'0') ≡ 0
unfolding value
value-replicate_zero zero = refl
value-replicate_zero (suc n) = value-replicate_zero n

pub value-pad_start : (n : ℕ) (s : Text) → value (pad_start n s) ≡ value s
unfolding pad_start
value-pad_start n s =
    value-append (replicate (n - length s) b'0') s
    ∙ rw (value-replicate_zero (n - length s)) (omega arith)

pub length-pad_start : (n : ℕ) (s : Text) → length (pad_start n s) ≡ max n (length s)
unfolding pad_start
length-pad_start n s = omega (
  arith,
  length-append (replicate (n - length s) b'0') s,
  length-replicate {A = ℕ} (n - length s) b'0',
)

ltb-false : (a b : ℕ) → ltb a b ≡ false → b ≤ a
ltb-false a b h = ground arith

-- `n.toString()` reads back as `n`.
value-print_fuel : (f n : ℕ) → n < f → value (print_fuel f n) ≡ n
unfolding print_fuel
value-print_fuel zero n h = elim h [ ]
value-print_fuel (suc f) n h = elim (Bool-cases (ltb n 10)) [
  | inl small ↦ rw small (unfold value in omega arith)
  | inr large ↦ rw large (
      rw
        (
          value-append (print_fuel f (n / 10)) ((b'0' + n % 10) ∷ []),
          value-print_fuel f (n / 10) (omega (arith, ltb-false n 10 large)),
        )
        (unfold value in omega arith))
]

pub value-print : (n : ℕ) → value (print n) ≡ n
unfolding print
value-print n = value-print_fuel (suc n) n (omega arith)
