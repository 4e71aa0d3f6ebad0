-- ===== src/Text/Order.antt =====
-- The order of strings by their code units, `s < t` and `s <= t`, and sorting, `toSorted`.
use eclipse_erp.Base.{
  ◌≡◌, refl, ◌∙◌, ap, Bool, true, false, not, List, [], ◌∷◌, arith, ltb, if◌then◌else◌,
}
use eclipse_erp.Base.Reordered.{Reordered, same, keep, swap, chain}
use eclipse_erp.Text.{Text}

unfoldable pub text_lt : Text → Text → Bool
text_lt [] [] = false
text_lt [] (d ∷ t) = true
text_lt (c ∷ s) [] = false
text_lt (c ∷ s) (d ∷ t) =
    let rest = text_lt s t in if ltb c d then true else if ltb d c then false else rest

abbrev pub text_le : Text → Text → Bool
text_le s t = not (text_lt t s)

pub text_lt_self : (s : Text) → text_lt s s ≡ false
unfolding text_lt
text_lt_self [] = refl
text_lt_self (c ∷ s) = ground (arith, text_lt_self s)

-- What is not before what is not before a text is not before it.
pub text_lt_not : (s t u : Text) → text_lt s t ≡ false → text_lt t u ≡ false → text_lt s u ≡ false
unfolding text_lt
text_lt_not [] [] [] h k = refl
text_lt_not [] [] (e ∷ u) h k = k
text_lt_not [] (d ∷ t) u h k = absurd (ground (arith, h))
text_lt_not (c ∷ s) [] [] h k = refl
text_lt_not (c ∷ s) [] (e ∷ u) h k = absurd (ground (arith, k))
text_lt_not (c ∷ s) (d ∷ t) [] h k = refl
text_lt_not (c ∷ s) (d ∷ t) (e ∷ u) h k = ground (arith, h, k, text_lt_not s t u)

pub text_lt_asym : (s t : Text) → text_lt s t ≡ true → text_lt t s ≡ false
unfolding text_lt
text_lt_asym [] [] h = refl
text_lt_asym [] (d ∷ t) h = refl
text_lt_asym (c ∷ s) [] h = absurd (ground (arith, h))
text_lt_asym (c ∷ s) (d ∷ t) h = ground (arith, h, text_lt_asym s t)

-- Texts of which neither is before the other are one text.
pub text_lt_antisym : (s t : Text) → text_lt s t ≡ false → text_lt t s ≡ false → s ≡ t
unfolding text_lt
text_lt_antisym [] [] h k = refl
text_lt_antisym [] (d ∷ t) h k = absurd (ground (arith, h))
text_lt_antisym (c ∷ s) [] h k = absurd (ground (arith, k))
text_lt_antisym (c ∷ s) (d ∷ t) h k = ground (arith, h, k, text_lt_antisym s t)

unfoldable pub put : Text → List Text → List Text
put s [] = s ∷ []
put s (t ∷ ts) = if text_lt t s then t ∷ put s ts else s ∷ (t ∷ ts)

-- The language's sorting of strings; which algorithm it runs does not show in the result.
unfoldable pub to_sorted : List Text → List Text
to_sorted [] = []
to_sorted (s ∷ ts) = put s (to_sorted ts)

put_comm : (s t : Text) (us : List Text) → put s (put t us) ≡ put t (put s us)
unfolding put
put_comm s t [] = ground (arith, text_lt_asym s t, text_lt_asym t s, text_lt_antisym s t)
put_comm s t (u ∷ us) = ground (
  arith,
  put_comm s t us,
  text_lt_asym s t,
  text_lt_asym t s,
  text_lt_antisym s t,
  text_lt_not u s t,
  text_lt_not u t s,
  text_lt_asym u t,
  text_lt_asym u s,
)

pub to_sorted-Reordered : {ts us : List Text} → Reordered ts us → to_sorted ts ≡ to_sorted us
unfolding to_sorted
to_sorted-Reordered (same ts) = refl
to_sorted-Reordered (keep s r) = ap (put s) (to_sorted-Reordered r)
to_sorted-Reordered (swap s t ts) = put_comm s t (to_sorted ts)
to_sorted-Reordered (chain r q) = to_sorted-Reordered r ∙ to_sorted-Reordered q
