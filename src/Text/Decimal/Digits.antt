-- ===== src/Text/Decimal/Digits.antt =====
-- The shape of printed numbers: all digits, no leading zero; stripping and padding undo each other.
use eclipse_erp.Base.{
  ℕ, zero, suc, ◌+◌, ◌-◌, ◌*◌, ◌/◌, ◌%◌, ◌^◌, ◌≤◌, ◌<◌, ◌≡◌, refl, ap, inl, inr, true, ◌&&◌, [],
  ◌∷◌, ◌++◌, arith, ltb, ◌==◌, Bool-cases, and_true, length, take, drop, replicate, all,
}
use eclipse_erp.Text.{Text}
use native.Mathlib.Nat.{pow-succ'}
use eclipse_erp.Text.Decimal.{
  value, value-append, is_digit, is_empty, print_fuel, print, pad_end, pad_start, strip_zeros,
}

abbrev pub IsDigits : Text → Type 0
IsDigits s = all is_digit s ≡ true

pub IsDigits-append : (s t : Text) → IsDigits s → IsDigits t → IsDigits (s ++ t)
IsDigits-append [] t hs ht = ht
IsDigits-append (c ∷ s) t hs ht = ground (arith, IsDigits-append s t)

pub IsDigits-take : (n : ℕ) (s : Text) → IsDigits s → IsDigits (take n s)
IsDigits-take zero s h = refl
IsDigits-take (suc n) [] h = refl
IsDigits-take (suc n) (c ∷ s) h = ground (arith, IsDigits-take n s)

pub IsDigits-drop : (n : ℕ) (s : Text) → IsDigits s → IsDigits (drop n s)
IsDigits-drop zero s h = h
IsDigits-drop (suc n) [] h = refl
IsDigits-drop (suc n) (c ∷ s) h = IsDigits-drop n s (and_true _ _ h).1

IsDigits-replicate : (n : ℕ) → IsDigits (replicate n b'0')
IsDigits-replicate zero = refl
IsDigits-replicate (suc n) = IsDigits-replicate n

pub IsDigits-pad_start : (n : ℕ) (s : Text) → IsDigits s → IsDigits (pad_start n s)
unfolding pad_start
IsDigits-pad_start n s h =
    IsDigits-append (replicate (n - length s) b'0') s (IsDigits-replicate (n - length s)) h

digit_of : (d : ℕ) → d < 10 → is_digit (b'0' + d) ≡ true
digit_of d h = ground arith

pub IsDigits-print_fuel : (f n : ℕ) → IsDigits (print_fuel f n)
unfolding print_fuel
IsDigits-print_fuel zero n = refl
IsDigits-print_fuel (suc f) n = elim (Bool-cases (ltb n 10)) [
  | inl small ↦ rw small (ground arith)
  | inr large ↦ rw large (
      IsDigits-append (print_fuel f (n / 10)) ((b'0' + n % 10) ∷ [])
        (IsDigits-print_fuel f (n / 10)) (ground arith))
]

pub IsDigits-print : (n : ℕ) → IsDigits (print n)
unfolding print
IsDigits-print n = IsDigits-print_fuel (suc n) n

-- Stripping the trailing zeros and padding to the old length gives the text back.
pub length-strip_zeros : (s : Text) → length (strip_zeros s) ≤ length s
unfolding strip_zeros
length-strip_zeros [] = omega arith
length-strip_zeros (c ∷ s) = ground (arith, length-strip_zeros s)

strip_zeros-nil : (s : Text) → strip_zeros s ≡ [] → s ≡ replicate (length s) b'0'
unfolding strip_zeros
strip_zeros-nil [] h = refl
strip_zeros-nil (c ∷ s) h = ground (arith, strip_zeros-nil s)

suc_sub : (a b : ℕ) → suc a - suc b ≡ a - b
suc_sub a b = omega arith

pub pad_end-strip_zeros : (s : Text) → pad_end (length s) (strip_zeros s) ≡ s
unfolding pad_end strip_zeros
pad_end-strip_zeros [] = refl
pad_end-strip_zeros (c ∷ s) = elim (Bool-cases (c == b'0' && is_empty (strip_zeros s))) [
  | inl gone ↦ rw gone (ground (arith, strip_zeros-nil s))
  | inr stays ↦
      rw stays
        (rw (suc_sub (length s) (length (strip_zeros s))) (ap (◌∷◌ c) (pad_end-strip_zeros s)))
]

digit-value : (c : ℕ) → is_digit c ≡ true → value (c ∷ []) < 10
unfolding value
digit-value c h = ground arith

lt_step : (d v p : ℕ) → d < 10 → v < p → d * p + v < 10 * p
lt_step d v p h k = grind arith

-- A text of digits is below the power of its length.
pub value-lt : (s : Text) → IsDigits s → value s < 10 ^ length s
value-lt [] h = unfold value in omega arith
value-lt (c ∷ s) h =
    rw (value-append (c ∷ []) s, pow-succ' 10 (length s))
      (lt_step (value (c ∷ [])) (value s) (10 ^ length s)
        (digit-value c (and_true (is_digit c) (all is_digit s) h).0)
        (value-lt s (and_true (is_digit c) (all is_digit s) h).1))
