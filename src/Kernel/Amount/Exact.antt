-- ===== src/Kernel/Amount/Exact.antt =====
-- Conversions lose nothing: the arithmetic of the major-to-minor direction.
use native.Mathlib.Nat.{pow-succ', zero-add, suc-add, mul_assoc}
use eclipse_erp.Base.{
  ℕ, zero, suc, ◌+◌, ◌-◌, ◌*◌, ◌^◌, ◌≤◌, ◌≡◌, refl, sym, ap, ◌∙◌, [], ◌∷◌, ◌++◌, arith, some, true,
  false, ◌⊎◌, inl, inr, all, length, replicate, length-replicate, append-nil,
}
use eclipse_erp.Base.Effect.{ok}
use eclipse_erp.Text.{Text}
use eclipse_erp.Text.Decimal.{
  is_digit, is_empty, value, print, pad_end, strip_zeros, value-append, value-replicate_zero,
  value-print,
}
use eclipse_erp.Text.Decimal.Digits.{length-strip_zeros, pad_end-strip_zeros}
use eclipse_erp.Kernel.Amount.Shape.{decimal_match-IsDigits}
use eclipse_erp.Kernel.Amount.{
  span_digits, decimal_match, decimal_tail, scale_match, major_to_minor, or_zero, ledger_max_minor,
}

pub pow_add : (a b : ℕ) → 10 ^ (a + b) ≡ 10 ^ a * 10 ^ b
pow_add zero b = rw zero-add (omega arith)
pow_add (suc a) b =
    rw (suc-add, pow-succ' 10 (a + b), pow-succ' 10 a, pow_add a b)
      (sym (mul_assoc 10 (10 ^ a) (10 ^ b)))

-- The number that a padded fraction denotes.
pub value-pad_end : (n : ℕ) (s : Text) → value (pad_end n s) ≡ value s * 10 ^ (n - length s)
unfolding pad_end
value-pad_end n s =
    value-append s (replicate (n - length s) b'0')
    ∙ rw (value-replicate_zero (n - length s), length-replicate {A = ℕ} (n - length s) b'0')
        (omega arith)

pub value-or_zero : (s : Text) → value (or_zero s) ≡ value s
unfolding value
value-or_zero [] = refl
value-or_zero (c ∷ s) = refl

-- The two ways round the square: pad to the exponent, or to the length that was written.
cross_scale : (k e f : ℕ) → k ≤ e → k ≤ f → 10 ^ (e - k) * 10 ^ f ≡ 10 ^ (f - k) * 10 ^ e
cross_scale k e f ke kf =
    sym (pow_add (e - k) f) ∙ ap (λ (n : ℕ). 10 ^ n) (omega arith) ∙ pow_add (f - k) e

exact_sum : (w v pe pf p q : ℕ) → p * pf ≡ q * pe → (w * pe + v * p) * pf ≡ (w * pf + v * q) * pe
exact_sum w v pe pf p q h = omega (arith, ap (λ (t : ℕ). v * t) h)

-- The fraction as written, from the stripped one.
value-fraction :
    (f : Text) → value f ≡ value (strip_zeros f) * 10 ^ (length f - length (strip_zeros f))
value-fraction f = ap value (sym (pad_end-strip_zeros f)) ∙ value-pad_end (length f) (strip_zeros f)

-- The minor amount that a match denotes at an exponent.
unfoldable pub minor_of : ℕ → Text × Text → ℕ
minor_of e (w, f) = value w * 10 ^ e + value (or_zero (pad_end e (strip_zeros f)))

pub minor_of-exact :
    (e : ℕ) (w f : Text)
    → length (strip_zeros f) ≤ e
    → minor_of e (w, f) * 10 ^ length f ≡ value (w ++ f) * 10 ^ e
unfolding minor_of
minor_of-exact e w f h =
    rw
      (
        value-or_zero (pad_end e (strip_zeros f)),
        value-pad_end e (strip_zeros f),
        value-append w f,
        value-fraction f,
      )
      (exact_sum (value w) (value (strip_zeros f)) (10 ^ e) (10 ^ length f) _ _
        (cross_scale (length (strip_zeros f)) e (length f) h (length-strip_zeros f)))

scale_match-ok :
    (e : ℕ) (w f : Text) {r : Text}
    → scale_match e (w, f) ≡ ok r
    → (length (strip_zeros f) ≤ e)
      × (minor_of e (w, f) ≤ ledger_max_minor)
      × (r ≡ print (minor_of e (w, f)))
unfolding scale_match minor_of
scale_match-ok e w f h = ground arith

match_of :
    (s : Text) (e : ℕ) {r : Text}
    → major_to_minor s e ≡ ok r
    → (g : Text × Text) × (decimal_match s ≡ some g) × (scale_match e g ≡ ok r)
unfolding major_to_minor
match_of s e h = ground arith

-- The prefix of digits and the rest are the text.
span_digits-append : (s : Text) → (span_digits s).0 ++ (span_digits s).1 ≡ s
unfolding span_digits
span_digits-append [] = refl
span_digits-append (c ∷ s) = ground (arith, span_digits-append s)

-- The text is a whole part of digits, alone or with a point and a fraction of digits after it.
abbrev pub IsWritten : Text → Text → Text → Type 0
IsWritten s w f =
    (is_empty w ≡ false)
    × (all is_digit w ≡ true)
    × (all is_digit f ≡ true)
    × (((s ≡ w) × (f ≡ [])) ⊎ ((s ≡ w ++ (b'.' ∷ f)) × (is_empty f ≡ false)))

-- What the tail accepts: nothing, or a point and a fraction.
decimal_tail-written :
    (w rest : Text) {v f : Text}
    → decimal_tail w rest ≡ some (v, f)
    → (v ≡ w) × (((rest ≡ []) × (f ≡ [])) ⊎ ((rest ≡ b'.' ∷ f) × (is_empty f ≡ false)))
decimal_tail-written w [] h = ground (arith, h)
decimal_tail-written w (c ∷ rest) h = ground (arith, h)

written_shape :
    (s w rest f : Text)
    → w ++ rest ≡ s
    → ((rest ≡ []) × (f ≡ [])) ⊎ ((rest ≡ b'.' ∷ f) × (is_empty f ≡ false))
    → ((s ≡ w) × (f ≡ [])) ⊎ ((s ≡ w ++ (b'.' ∷ f)) × (is_empty f ≡ false))
written_shape s w rest f e (inl (none_left, no_fraction)) =
    inl (sym e ∙ ap (λ t. w ++ t) none_left ∙ append-nil w, no_fraction)
written_shape s w rest f e (inr (point, some_fraction)) =
    inr (sym e ∙ ap (λ t. w ++ t) point, some_fraction)

decimal_match-tail :
    (s w f : Text)
    → decimal_match s ≡ some (w, f)
    → (is_empty (span_digits s).0 ≡ false)
      × (decimal_tail (span_digits s).0 (span_digits s).1 ≡ some (w, f))
unfolding decimal_match
decimal_match-tail s w f h = ground (arith, h)

decimal_match-IsWritten : (s w f : Text) → decimal_match s ≡ some (w, f) → IsWritten s w f
decimal_match-IsWritten s w f h =
    let (full, tail) = decimal_match-tail s w f h in
    let (same, shape) = decimal_tail-written (span_digits s).0 (span_digits s).1 tail in
    let (whole, fraction) = decimal_match-IsDigits s h in
    (
      rw same full,
      whole,
      fraction,
      written_shape s w (span_digits s).1 f (rw same (span_digits-append s)) shape,
    )

-- When a conversion succeeds, the text is a whole part of digits, alone or followed by a point and a
-- fraction of digits, the result denotes exactly the amount that was written (scaling either to the
-- other's precision gives the same number), it is printed with no leading zero, and it is within
-- 128 bits.
pub major_to_minor-exact :
    (s : Text) (e : ℕ) {r : Text}
    → major_to_minor s e ≡ ok r
    → (w : Text) × (f : Text) × IsWritten s w f
      × (value r * 10 ^ length f ≡ value (w ++ f) * 10 ^ e)
      × (r ≡ print (value r))
      × (value r ≤ ledger_max_minor)
major_to_minor-exact s e {r} h =
    let (g, matched, scaled) = match_of s e h in
    let (short, bounded, printed) = scale_match-ok e g.0 g.1 scaled in
    let same : value r ≡ minor_of e g = ap value printed ∙ value-print (minor_of e g) in
    (
      g.0,
      g.1,
      decimal_match-IsWritten s g.0 g.1 matched,
      rw same (minor_of-exact e g.0 g.1 short),
      rw same printed,
      rw same bounded,
    )
