-- ===== src/Dict/Unique.antt =====
-- A map in which values that are alike stand under one key, such as names that are unique.
use eclipse_erp.Base.{
  ◌≡◌, subst, inl, inr, Bool, true, false, some, [], ◌∷◌, arith, Bool-cases, any,
}
use eclipse_erp.Text.{Text, text_eq, text_eq→eq}
use eclipse_erp.Dict.{Dict, lookup, insert, values, lookup-insert}

-- Two keys with values that are alike are one key.
unfoldable pub IsUnique : {V : Type 0} → (V → V → Bool) → Dict V → Type 0
IsUnique {V} alike m =
    (a b : Text) (x y : V) → lookup a m ≡ some x → lookup b m ≡ some y → alike x y ≡ true → a ≡ b

module _ {V : Type 0} (alike : V → V → Bool) where
  pub none_alike :
      (p : V → Bool) (k : Text) (v : V) (m : Dict V)
      → any p (values m) ≡ false
      → lookup k m ≡ some v
      → p v ≡ false
  unfolding lookup values
  none_alike p k v [] h e = absurd (ground (arith, e))
  none_alike p k v ((j, w) ∷ m) h e = elim (Bool-cases (text_eq k j)) [
    | inl same ↦
        let w_is : w ≡ v = ground (arith, e, same) in
        subst (λ x. p x ≡ false) w_is (ground (arith, h))
    | inr other ↦ none_alike p k v m (ground (arith, h)) (ground (arith, e, other))
  ]

  -- A value that is like no other may be added.
  pub insert-IsUnique :
      (k : Text) (v : V) (m : Dict V)
      → ((x y : V) → alike x y ≡ alike y x)
      → IsUnique alike m
      → any (λ x. alike x v) (values m) ≡ false
      → IsUnique alike (insert k v m)
  unfolding IsUnique
  insert-IsUnique k v m swap u h a b x y fa fb s =
      let at : (c : Text) (z : V) → lookup c (insert k v m) ≡ some z → text_eq c k ≡ true → v ≡ z =
        λ c z f e. ground (arith, lookup-insert k c v m, f, e) in
      let old : (c : Text) (z : V)
          → lookup c (insert k v m) ≡ some z
          → text_eq c k ≡ false
          → lookup c m ≡ some z =
        λ c z f e. ground (arith, lookup-insert k c v m, f, e) in
      elim (Bool-cases (text_eq a k)) [
        | inl ea ↦ elim (Bool-cases (text_eq b k)) [
          | inl eb ↦ cc (text_eq→eq a k ea, text_eq→eq b k eb)
          | inr eb ↦ absurd (
              ground (
                arith,
                s,
                at a x fa ea,
                swap x y,
                subst (λ z. alike y z ≡ false) (at a x fa ea)
                    (none_alike (λ z. alike z v) b y m h (old b y fb eb)),
              ))
        ]
        | inr ea ↦ elim (Bool-cases (text_eq b k)) [
          | inl eb ↦ absurd (
              ground (
                arith,
                s,
                subst (λ z. alike x z ≡ false) (at b y fb eb)
                    (none_alike (λ z. alike z v) a x m h (old a x fa ea)),
              ))
          | inr eb ↦ u a b x y (old a x fa ea) (old b y fb eb) s
        ]
      ]
