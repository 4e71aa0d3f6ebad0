-- ===== src/Dict/Apart.antt =====
-- A map of which no two values are alike, such as periods that have no day in common.
use eclipse_erp.Base.{
  ◌≡◌, refl, sym, subst, ◌∙◌, inl, inr, Bool, true, false, not, ◌&&◌, some, List, [], ◌∷◌, arith,
  Bool-cases, any,
}
use eclipse_erp.Text.{Text, text_eq}
use eclipse_erp.Dict.{Dict, lookup, insert, values}
use eclipse_erp.Dict.Unique.{none_alike}

unfoldable pub apart : {V : Type 0} → (V → V → Bool) → List V → Bool
apart alike [] = true
apart alike (v ∷ vs) = not (any (alike v) vs) && apart alike vs

pub any-false :
    {V : Type 0} (p q : V → Bool) (vs : List V)
    → ((x : V) → q x ≡ true → p x ≡ true)
    → any p vs ≡ false
    → any q vs ≡ false
any-false p q [] i h = refl
any-false p q (x ∷ vs) i h = ground (arith, h, i x, any-false p q vs i)

module _ {V : Type 0} (alike : V → V → Bool) where
  -- A value under which another is put, which is like what it is like.
  any-replaced :
      (p : V → Bool) (k : Text) (u v : V) (m : Dict V)
      → lookup k m ≡ some u
      → p v ≡ p u
      → any p (values (insert k v m)) ≡ any p (values m)
  unfolding lookup insert values
  any-replaced p k u v [] e h = absurd (ground (arith, e))
  any-replaced p k u v ((j, w) ∷ m) e h = elim (Bool-cases (text_eq k j)) [
    | inl hit ↦
        let is : w ≡ u = ground (arith, e, hit) in
        ground (arith, hit, subst (λ x. p v ≡ p x) (sym is) h)
    | inr miss ↦ ground (arith, miss, any-replaced p k u v m (ground (arith, e, miss)) h)
  ]

  any-inserted :
      (p : V → Bool) (k : Text) (v : V) (m : Dict V)
      → any p (values m) ≡ false
      → p v ≡ false
      → any p (values (insert k v m)) ≡ false
  unfolding insert values
  any-inserted p k v [] h e = ground (arith, e)
  any-inserted p k v ((j, w) ∷ m) h e = ground (arith, h, e, any-inserted p k v m)

  module _ (mirror : (x y : V) → alike x y ≡ alike y x) where
    -- A value that is like no other may be put.
    pub insert-apart :
        (k : Text) (v : V) (m : Dict V)
        → apart alike (values m) ≡ true
        → any (λ x. alike x v) (values m) ≡ false
        → apart alike (values (insert k v m)) ≡ true
    unfolding apart insert values
    insert-apart k v [] a h = refl
    insert-apart k v ((j, w) ∷ m) a h = elim (Bool-cases (text_eq k j)) [
      | inl hit ↦
          let free : any (alike v) (values m) ≡ false =
            any-false (λ x. alike x v) (alike v) (values m) (λ x e. mirror x v ∙ e)
              (ground (arith, h)) in
          ground (arith, hit, a, free)
      | inr miss ↦
          let free : any (alike w) (values (insert k v m)) ≡ false =
            any-inserted (alike w) k v m (ground (arith, a)) (ground (arith, h)) in
          ground (arith, miss, a, h, free, insert-apart k v m)
    ]

    -- A value may be put for one that is like the same values.
    pub replace-apart :
        (k : Text) (u v : V) (m : Dict V)
        → lookup k m ≡ some u
        → ((x : V) → alike v x ≡ alike u x)
        → apart alike (values m) ≡ true
        → apart alike (values (insert k v m)) ≡ true
    unfolding apart lookup insert values
    replace-apart k u v [] e s a = absurd (ground (arith, e))
    replace-apart k u v ((j, w) ∷ m) e s a = elim (Bool-cases (text_eq k j)) [
      | inl hit ↦
          let is : u ≡ w = ground (arith, e, hit) in
          let free : any (alike v) (values m) ≡ false =
            any-false (alike w) (alike v) (values m)
              (λ x l. subst (λ y. alike y x ≡ true) is (sym (s x) ∙ l)) (ground (arith, a)) in
          ground (arith, hit, a, free)
      | inr miss ↦
          let found : lookup k m ≡ some u = ground (arith, e, miss) in
          let like : alike w v ≡ alike w u = mirror w v ∙ (s w ∙ mirror u w) in
          ground (
            arith,
            miss,
            a,
            any-replaced (alike w) k u v m found like,
            replace-apart k u v m found s,
          )
    ]

    -- Where a test holds of values only that are like one of the map's, and fails of what is put for
    -- that one, it holds of none.
    pub replaced-none :
        (p : V → Bool) (k : Text) (u v : V) (m : Dict V)
        → lookup k m ≡ some u
        → ((x : V) → p x ≡ true → alike u x ≡ true)
        → p v ≡ false
        → apart alike (values m) ≡ true
        → any p (values (insert k v m)) ≡ false
    unfolding apart lookup insert values
    replaced-none p k u v [] e i h a = absurd (ground (arith, e))
    replaced-none p k u v ((j, w) ∷ m) e i h a = elim (Bool-cases (text_eq k j)) [
      | inl hit ↦
          let is : u ≡ w = ground (arith, e, hit) in
          let rest : any p (values m) ≡ false =
            any-false (alike w) p (values m) (λ x l. subst (λ y. alike y x ≡ true) is (i x l))
              (ground (arith, a)) in
          ground (arith, hit, h, rest)
      | inr miss ↦
          let found : lookup k m ≡ some u = ground (arith, e, miss) in
          let other : alike w u ≡ false =
            none_alike alike (alike w) k u m (ground (arith, a)) found in
          ground (arith, miss, a, other, mirror w u, i w, replaced-none p k u v m found i h)
    ]
