-- ===== src/Tests/Amount.antt =====
-- Amounts at concrete texts.
use eclipse_erp.Base.{ℕ, ◌*◌, ◌^◌, ◌≤◌, ◌<◌, ◌≡◌, refl, ◌++◌, arith, length}
use eclipse_erp.Base.Effect.{ok, err}
use eclipse_erp.Text.{Text, codes}
use eclipse_erp.Text.Decimal.{value, print, pad_end, pad_start, strip_zeros}
use eclipse_erp.Kernel.Amount.{
  ledger_max_minor, overflow, fractional_precision, invalid_format, decimal_match, is_minor_amount,
  scale_match, major_to_minor, minor_to_major, require_exact_major_to_minor, is_major_amount,
}
use eclipse_erp.Kernel.Amount.Exact.{IsWritten, major_to_minor-exact}
use eclipse_erp.Kernel.Amount.RoundTrip.{minor_to_major-round_trip, require_exact-major}

major_of_minor : minor_to_major (codes "1230") 2 ≡ ok (codes "12.30")
unfolding minor_to_major is_minor_amount value print pad_start
major_of_minor = refl

minor_of_major : major_to_minor (codes "12.3") 2 ≡ ok (codes "1230")
unfolding major_to_minor decimal_match scale_match value print pad_end strip_zeros
minor_of_major = refl

trailing_zeros : major_to_minor (codes "12.3000") 2 ≡ ok (codes "1230")
unfolding major_to_minor decimal_match scale_match value print pad_end strip_zeros
trailing_zeros = refl

too_precise : major_to_minor (codes "0.001") 2 ≡ err fractional_precision
unfolding major_to_minor decimal_match scale_match value print pad_end strip_zeros
too_precise = refl

too_large : major_to_minor (codes "340282366920938463463374607431768211456") 0 ≡ err overflow
unfolding major_to_minor decimal_match scale_match value print pad_end strip_zeros
too_large = refl

no_point_alone : major_to_minor (codes "12.") 2 ≡ err invalid_format
unfolding major_to_minor decimal_match
no_point_alone = refl

major_to_minor-exact_example :
    (w : Text) × (f : Text) × IsWritten (codes "12.3") w f
    × (value (codes "1230") * 10 ^ length f ≡ value (w ++ f) * 10 ^ 2)
    × (codes "1230" ≡ print (value (codes "1230")))
    × (value (codes "1230") ≤ ledger_max_minor)
major_to_minor-exact_example =
    major_to_minor-exact (codes "12.3") 2 {r = codes "1230"} minor_of_major

minor_to_major-round_trip_example :
    (m : Text) × (minor_to_major (print 1230) 2 ≡ ok m) × (major_to_minor m 2 ≡ ok (print 1230))
minor_to_major-round_trip_example = minor_to_major-round_trip 1230 2 (omega arith) (omega arith)

require_exact-major_example :
    (n : ℕ) × (require_exact_major_to_minor (codes "12.3") 2 ≡ ok n) × (n < 10 ^ 20)
unfolding is_major_amount decimal_match
require_exact-major_example = require_exact-major (codes "12.3") refl
