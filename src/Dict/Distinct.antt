-- ===== src/Dict/Distinct.antt =====
-- Maps whose entries have different keys, as every map that is built by insertion.
use eclipse_erp.Base.{◌≡◌, refl, inl, inr, Bool, true, not, ◌&&◌, [], ◌∷◌, arith, Bool-cases}
use eclipse_erp.Text.{Text, text_eq, text_eq_iff}
use eclipse_erp.Dict.{Dict, lookup, insert, contains, merge, lookup-insert}

unfoldable pub distinct : {V : Type 0} → Dict V → Bool
distinct [] = true
distinct ((k, v) ∷ m) = not (contains k m) && distinct m

module _ {V : Type 0} where
  insert-distinct :
      (k : Text) (v : V) (m : Dict V) → distinct m ≡ true → distinct (insert k v m) ≡ true
  unfolding distinct insert lookup
  insert-distinct k v [] h = refl
  insert-distinct k v ((j, w) ∷ m) h = elim (Bool-cases (text_eq k j)) [
    | inl hit ↦ ground (arith, h, hit)
    | inr miss ↦ ground (
      arith,
      h,
      miss,
      insert-distinct k v m,
      lookup-insert k j v m,
      text_eq_iff k j,
      text_eq_iff j k,
    )
  ]

  pub merge-distinct : (n m : Dict V) → distinct m ≡ true → distinct (merge n m) ≡ true
  unfolding merge
  merge-distinct [] m h = h
  merge-distinct ((k, v) ∷ n) m h = merge-distinct n (insert k v m) (insert-distinct k v m h)
