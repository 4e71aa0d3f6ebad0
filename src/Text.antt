-- ===== src/Text.antt =====
-- JavaScript strings as sequences of code units.
pub mod Decimal
pub mod Order
use Prim.Native.Char.{code}
use Prim.Native.String.{String}
use eclipse_erp.Base.{
  ℕ, zero, suc, ◌+◌, ◌-◌, ◌*◌, ◌/◌, ◌%◌, ◌^◌, ◌≤◌, ◌<◌, ◌≡◌, refl, sym, ap, ◌∙◌, subst, ◌≢◌, ◌↔◌,
  ◌⊎◌, inl, inr, Bool, true, false, not, ◌&&◌, ◌||◌, Option, none, some, List, [], ◌∷◌, ◌++◌, map,
  append_assoc, append-nil, arith, ltb, leb, ◌==◌, if◌then◌else◌, bool_eq, Bool-cases, Option-cases,
  and_true, ltb→lt, lt→ltb, leb→le, le→leb, eqb→eq, eqb_refl, eq→eqb, length, take, drop, replicate,
  any, all, find, filter, All, length-append, length-replicate, take-append-drop, length-drop,
  length-take,
}

abbrev pub Text : Type 0
Text = List ℕ

-- The code units of an ASCII literal.
abbrev pub codes : String → Text
codes String.[] = []
codes (String.◌∷◌ c s) = code c ∷ codes s

-- `a === b` on strings.
unfoldable pub text_eq : Text → Text → Bool
text_eq [] [] = true
text_eq [] (d ∷ t) = false
text_eq (c ∷ s) [] = false
text_eq (c ∷ s) (d ∷ t) = c == d && text_eq s t

pub text_eq→eq : (s t : Text) → text_eq s t ≡ true → s ≡ t
unfolding text_eq
text_eq→eq [] [] h = refl
text_eq→eq [] (d ∷ t) h = ground arith
text_eq→eq (c ∷ s) [] h = ground arith
text_eq→eq (c ∷ s) (d ∷ t) h = ground (arith, text_eq→eq s t)

pub text_eq_refl : (s : Text) → text_eq s s ≡ true
unfolding text_eq
text_eq_refl [] = refl
text_eq_refl (c ∷ s) = ground (arith, text_eq_refl s)

pub text_eq_iff : (s t : Text) → (text_eq s t ≡ true) ↔ (s ≡ t)
text_eq_iff s t = (text_eq→eq s t, λ e. rw e (text_eq_refl t))

-- `Option` of a text compared with a text: `options.x === id`, where `x` may be undefined.
abbrev pub option_is : Option Text → Text → Bool
option_is none t = false
option_is (some s) t = text_eq s t

-- The class `\s` of the language's regular expressions.
unfoldable pub is_space : ℕ → Bool
is_space c =
    (leb 9 c && leb c 13)
    || (c == 32)
    || (c == 160)
    || (c == 0x1680)
    || (leb 0x2000 c && leb c 0x200a)
    || (c == 0x2028)
    || (c == 0x2029)
    || (c == 0x202f)
    || (c == 0x205f)
    || (c == 0x3000)
    || (c == 0xfeff)

-- `Schema.isPattern(/\S/)`: some code unit is not white space.
unfoldable pub non_empty_string : Text → Bool
unfolding is_space
non_empty_string s = any (λ c. not (is_space c)) s

-- `/^[A-Z]{3}$/`
abbrev is_capital : ℕ → Bool
is_capital c = leb b'A' c && leb c b'Z'

unfoldable pub currency_code : Text → Bool
currency_code (a ∷ b ∷ c ∷ []) = is_capital a && (is_capital b && is_capital c)
currency_code _ = false

-- `toUpperCase` on ASCII, which is where the program applies it to a currency code.
abbrev upper_unit : ℕ → ℕ
upper_unit c = if leb b'a' c && leb c b'z' then c - 32 else c

unfoldable pub to_upper : Text → Text
to_upper s = map upper_unit s

-- What stands behind a common prefix, and before a common suffix, is determined.
pub append_left_cancel : (p s t : Text) → p ++ s ≡ p ++ t → s ≡ t
append_left_cancel [] s t h = h
append_left_cancel (c ∷ p) s t h = append_left_cancel p s t (cc)

pub append_right_cancel : (s t u : Text) → s ++ u ≡ t ++ u → s ≡ t
append_right_cancel [] [] u h = refl
append_right_cancel [] (c ∷ t) u h = absurd (omega (arith, ap length h, length-append t u))
append_right_cancel (c ∷ s) [] u h = absurd (omega (arith, ap length h, length-append s u))
append_right_cancel (c ∷ s) (d ∷ t) u h = cc (append_right_cancel s t u (cc))

pub text_ne : (s t : Text) → text_eq s t ≡ false → s ≢ t
text_ne s t h e = cc (h, (text_eq_iff s t).1 e)

-- `s.startsWith(p)`
unfoldable pub starts_with : Text → Text → Bool
starts_with [] s = true
starts_with (c ∷ p) [] = false
starts_with (c ∷ p) (d ∷ s) = c == d && starts_with p s

pub starts_with-append : (p s : Text) → starts_with p (p ++ s) ≡ true
unfolding starts_with
starts_with-append [] s = refl
starts_with-append (c ∷ p) s = ground (arith, starts_with-append p s)

-- `s.trim()`
abbrev drop_spaces : Text → Text
drop_spaces [] = []
drop_spaces (c ∷ s) = let rest = drop_spaces s in if is_space c then rest else c ∷ s

abbrev drop_end_spaces : Text → Text
drop_end_spaces [] = []
drop_end_spaces (c ∷ s) = elim (drop_end_spaces s) [
  | [] ↦ if is_space c then [] else c ∷ []
  | d ∷ rest ↦ c ∷ (d ∷ rest)
]

unfoldable pub trim : Text → Text
trim s = drop_end_spaces (drop_spaces s)
