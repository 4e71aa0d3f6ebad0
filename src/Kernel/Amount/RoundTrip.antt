-- ===== src/Kernel/Amount/RoundTrip.antt =====
-- Printing a minor amount as a major one and reading it back, and the amounts of the public schema.
use native.Mathlib.Nat.{lt_of_mul-lt-mul_right, pow-le-pow_right}
use eclipse_erp.Base.{
  ℕ, zero, suc, ◌+◌, ◌-◌, ◌*◌, ◌^◌, ◌≤◌, ◌<◌, ◌≡◌, refl, sym, ap, ◌∙◌, inl, inr, true, false, some,
  [], ◌∷◌, ◌++◌, arith, Option-cases, length, take, drop, length-append, take-append-drop,
  length-drop, length-take,
}
use eclipse_erp.Base.Effect.{ok}
use eclipse_erp.Text.{Text}
use eclipse_erp.Text.Decimal.{
  is_empty, value, print, pad_end, pad_start, strip_zeros, value-append, value-print,
  value-pad_start, length-pad_start,
}
use eclipse_erp.Text.Decimal.Digits.{
  IsDigits, IsDigits-take, IsDigits-drop, IsDigits-append, IsDigits-pad_start, IsDigits-print,
  length-strip_zeros, pad_end-strip_zeros, value-lt,
}
use eclipse_erp.Kernel.Amount.{
  decimal_match, scale_match, major_to_minor, minor_to_major, is_minor_amount,
  require_exact_major_to_minor, is_major_amount, or_zero, ledger_max_minor,
}
use eclipse_erp.Kernel.Amount.Shape.{
  is_minor_amount-print, decimal_match-point, decimal_match-whole, decimal_match-IsDigits,
}
use eclipse_erp.Kernel.Amount.Exact.{value-or_zero, minor_of, minor_of-exact, pow_add}

-- The padded digits of `n`, split before the last `e`.
abbrev padded : ℕ → ℕ → Text
padded n e = pad_start (e + 1) (print n)

abbrev point : ℕ → ℕ → ℕ
point n e = length (padded n e) - e

length-padded : (n e : ℕ) → e + 1 ≤ length (padded n e)
length-padded n e = omega (arith, length-pad_start (e + 1) (print n))

length-fraction : (n e : ℕ) → length (drop (point n e) (padded n e)) ≡ e
length-fraction n e = omega (arith, length-drop (point n e) (padded n e), length-padded n e)

pub nonempty : (s : Text) → 0 < length s → is_empty s ≡ false
nonempty [] h = absurd (omega arith)
nonempty (c ∷ s) h = refl

-- The digits before and after the point, put together again.
joined :
    (n e : ℕ)
    → value (take (point n e) (padded n e)) * 10 ^ e + value (drop (point n e) (padded n e)) ≡ n
joined n e =
    ap
      (λ (k : ℕ).
        value (take (point n e) (padded n e)) * 10 ^ k + value (drop (point n e) (padded n e)))
      (sym (length-fraction n e))
    ∙ sym (value-append (take (point n e) (padded n e)) (drop (point n e) (padded n e)))
    ∙ ap value (take-append-drop (point n e) (padded n e))
    ∙ value-pad_start (e + 1) (print n)
    ∙ value-print n

-- The split digits scale back to `n`.
split_value :
    (n e : ℕ)
    → value (take (point n e) (padded n e)) * 10 ^ e
        + value (or_zero (pad_end e (strip_zeros (drop (point n e) (padded n e)))))
      ≡ n
split_value n e = rw (value-or_zero (pad_end e (strip_zeros (drop (point n e) (padded n e))))) (
    ap (λ (t : ℕ). value (take (point n e) (padded n e)) * 10 ^ e + t)
      (ap value (unstrip (drop (point n e) (padded n e)) e (length-fraction n e)))
    ∙ joined n e)
  where
    unstrip : (s : Text) (k : ℕ) → length s ≡ k → pad_end k (strip_zeros s) ≡ s
    unstrip s k h = ap (λ (j : ℕ). pad_end j (strip_zeros s)) (sym h) ∙ pad_end-strip_zeros s

scale_match-split :
    (n e : ℕ)
    → n ≤ ledger_max_minor
    → scale_match e (take (point n e) (padded n e), drop (point n e) (padded n e)) ≡ ok (print n)
unfolding scale_match
scale_match-split n e h =
    let short : length (strip_zeros (drop (point n e) (padded n e))) ≤ e =
      omega (arith, length-strip_zeros (drop (point n e) (padded n e)), length-fraction n e) in
    rw (split_value n e) (ground arith)

is_minor_amount-nonempty : (s : Text) → is_minor_amount s ≡ true → is_empty s ≡ false
unfolding is_minor_amount
is_minor_amount-nonempty [] h = cc
is_minor_amount-nonempty (c ∷ s) h = refl

decimal_match-split :
    (n e : ℕ)
    → decimal_match (
        take (point n (suc e)) (padded n (suc e))
        ++ (b'.' ∷ drop (point n (suc e)) (padded n (suc e))))
      ≡ some (take (point n (suc e)) (padded n (suc e)), drop (point n (suc e)) (padded n (suc e)))
decimal_match-split n e =
    let digits = IsDigits-pad_start (suc e + 1) (print n) (IsDigits-print n) in
    let before = length-take (point n (suc e)) (padded n (suc e)) (omega arith) in
    decimal_match-point (take (point n (suc e)) (padded n (suc e)))
      (drop (point n (suc e)) (padded n (suc e)))
      (IsDigits-take (point n (suc e)) (padded n (suc e)) digits)
      (IsDigits-drop (point n (suc e)) (padded n (suc e)) digits)
      (nonempty (take (point n (suc e)) (padded n (suc e)))
        (omega (arith, before, length-padded n (suc e))))
      (nonempty (drop (point n (suc e)) (padded n (suc e)))
        (omega (arith, length-fraction n (suc e))))

pub major_to_minor-match :
    (s : Text) (e : ℕ) (g : Text × Text)
    → e ≤ 38
    → decimal_match s ≡ some g
    → major_to_minor s e ≡ scale_match e g
unfolding major_to_minor
major_to_minor-match s e g h m = ground arith

value-zero : value (b'0' ∷ []) ≡ 0
unfolding value
value-zero = refl

whole_scale : (n : ℕ) → n ≤ ledger_max_minor → scale_match 0 (print n, []) ≡ ok (print n)
unfolding scale_match strip_zeros pad_end
whole_scale n h = rw (value-print n, value-zero) (ground arith)

-- A minor amount within 128 bits is printed at any exponent that is allowed, and what is printed
-- converts back to it.
pub minor_to_major-round_trip :
    (n e : ℕ)
    → n ≤ ledger_max_minor
    → e ≤ 38
    → (m : Text) × (minor_to_major (print n) e ≡ ok m) × (major_to_minor m e ≡ ok (print n))
minor_to_major-round_trip n zero h he = (
  print n,
  unfold minor_to_major in rw (is_minor_amount-print n, value-print n) (ground arith),
  major_to_minor-match (print n) 0 (print n, []) he
        (decimal_match-whole (print n) (IsDigits-print n)
          (is_minor_amount-nonempty (print n) (is_minor_amount-print n)))
      ∙ whole_scale n h,
)
minor_to_major-round_trip n (suc e) h he = (
  take (point n (suc e)) (padded n (suc e)) ++ (b'.' ∷ drop (point n (suc e)) (padded n (suc e))),
  unfold minor_to_major in rw (is_minor_amount-print n, value-print n) (ground arith),
  major_to_minor-match _ (suc e) _ he (decimal_match-split n e) ∙ scale_match-split n (suc e) h,
)

major_shape :
    (s : Text)
    → is_major_amount s ≡ true
    → (w : Text) × (f : Text) × (decimal_match s ≡ some (w, f)) × (length w ≤ 18) × (length f ≤ 2)
unfolding is_major_amount
major_shape s h = elim (Option-cases (decimal_match s)) [
  | inl nothing ↦ ground arith
  | inr (g, e) ↦ (g.0, g.1, e, ground arith, ground arith)
]

below_scale : (n v w f : ℕ) → n * f ≡ v * 100 → v < w * f → n < w * 100
below_scale n v w f e h = lt_of_mul-lt-mul_right f (rw e (omega (arith, h)))

minor_of-lt :
    (w f : Text)
    → IsDigits w
    → IsDigits f
    → length w ≤ 18
    → length f ≤ 2
    → minor_of 2 (w, f) < 10 ^ 20
minor_of-lt w f hw hf lw lf =
    let written : value (w ++ f) < 10 ^ length w * 10 ^ length f =
      rw (sym (pow_add (length w) (length f)), sym (length-append w f))
        (value-lt (w ++ f) (IsDigits-append w f hw hf)) in
    let scaled =
      below_scale (minor_of 2 (w, f)) (value (w ++ f)) (10 ^ length w) (10 ^ length f)
        (minor_of-exact 2 w f (omega (arith, length-strip_zeros f))) written in
    omega (arith, scaled, pow-le-pow_right {n = 10} (omega arith) lw)

scale_match-fits :
    (w f : Text)
    → length f ≤ 2
    → minor_of 2 (w, f) < 10 ^ 20
    → scale_match 2 (w, f) ≡ ok (print (minor_of 2 (w, f)))
unfolding scale_match minor_of
scale_match-fits w f h b = ground (arith, length-strip_zeros f)

require_exact-ok :
    (s : Text) {r : Text}
    → major_to_minor s 2 ≡ ok r
    → require_exact_major_to_minor s 2 ≡ ok (value r)
unfolding require_exact_major_to_minor
require_exact-ok s h = ground arith

-- An amount that the public schema admits converts at two decimals, to less than 10^20: the
-- conversion at an invariant boundary does not throw.
pub require_exact-major :
    (s : Text)
    → is_major_amount s ≡ true
    → (n : ℕ) × (require_exact_major_to_minor s 2 ≡ ok n) × (n < 10 ^ 20)
require_exact-major s h =
    let (w, f, e, lw, lf) = major_shape s h in
    let (dw, df) = decimal_match-IsDigits s e in
    let small = minor_of-lt w f dw df lw lf in
    let done = major_to_minor-match s 2 (w, f) (omega arith) e ∙ scale_match-fits w f lf small in
    (minor_of 2 (w, f), require_exact-ok s done ∙ ap ok (value-print (minor_of 2 (w, f))), small)
