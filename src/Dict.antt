-- ===== src/Dict.antt =====
-- The language's `Map` with string keys, in insertion order, and its `Set` of strings.
pub mod Unique
pub mod Apart
pub mod Distinct
use eclipse_erp.Base.{
  ℕ, ◌+◌, ◌≡◌, refl, sym, subst, ◌≢◌, inl, inr, Bool, true, false, ◌&&◌, Option, none, some, List,
  [], ◌∷◌, ◌++◌, arith, if◌then◌else◌, Bool-cases, and_true, all,
}
use eclipse_erp.Text.{Text, text_eq, text_eq_iff, text_eq_refl}

abbrev pub Dict {ℓ} : Type ℓ → Type ℓ
Dict V = List (Text × V)

module _ {ℓ} {V : Type ℓ} where
  -- `m.get(k)`
  unfoldable pub lookup : Text → Dict V → Option V
  lookup k [] = none
  lookup k ((j, v) ∷ m) = if text_eq k j then some v else lookup k m

  -- `m.set(k, v)`: an entry that is there keeps its place.
  unfoldable pub insert : Text → V → Dict V → Dict V
  insert k v [] = (k, v) ∷ []
  insert k v ((j, w) ∷ m) = if text_eq k j then (j, v) ∷ m else (j, w) ∷ insert k v m

  -- `m.delete(k)`
  unfoldable pub erase : Text → Dict V → Dict V
  erase k [] = []
  erase k ((j, w) ∷ m) = let rest = erase k m in if text_eq k j then rest else (j, w) ∷ rest

  -- `[...m.values()]`
  unfoldable pub values : Dict V → List V
  values [] = []
  values ((j, v) ∷ m) = v ∷ values m

  -- `for (const [k, v] of n) m.set(k, v)`
  unfoldable pub merge : Dict V → Dict V → Dict V
  merge [] m = m
  merge ((k, v) ∷ n) m = merge n (insert k v m)

  pub lookup-insert :
      (k j : Text) (v : V) (m : Dict V)
      → lookup j (insert k v m) ≡ (if text_eq j k then some v else lookup j m)
  unfolding lookup insert
  lookup-insert k j v [] = refl
  lookup-insert k j v ((i, w) ∷ m) =
      ground (arith, text_eq_iff k i, text_eq_iff j i, text_eq_iff j k, lookup-insert k j v m)

  pub lookup-erase :
      (k j : Text) (m : Dict V) → lookup j (erase k m) ≡ (if text_eq j k then none else lookup j m)
  unfolding lookup erase
  lookup-erase k j [] = ground arith
  lookup-erase k j ((i, w) ∷ m) =
      ground (arith, text_eq_iff k i, text_eq_iff j i, text_eq_iff j k, lookup-erase k j m)

  pub lookup-insert_self : (k : Text) (v : V) (m : Dict V) → lookup k (insert k v m) ≡ some v
  lookup-insert_self k v m = rw (lookup-insert k k v m, text_eq_refl k)

  pub lookup-insert_ne :
      (k j : Text) (v : V) (m : Dict V) → j ≢ k → lookup j (insert k v m) ≡ lookup j m
  lookup-insert_ne k j v m h = ground (arith, lookup-insert k j v m, text_eq_iff j k)

  -- A new key goes to the end.
  pub insert-new :
      (k : Text) (v : V) (m : Dict V) → lookup k m ≡ none → insert k v m ≡ m ++ ((k, v) ∷ [])
  unfolding lookup insert
  insert-new k v [] h = refl
  insert-new k v ((j, w) ∷ m) h = ground (arith, insert-new k v m)

  pub merge-snoc :
      (n m : Dict V) (k : Text) (v : V) → merge (n ++ ((k, v) ∷ [])) m ≡ insert k v (merge n m)
  unfolding merge
  merge-snoc [] m k v = refl
  merge-snoc ((j, w) ∷ n) m k v = merge-snoc n (insert j w m) k v

  pub lookup-merge-none :
      (k : Text) (n m : Dict V) → lookup k n ≡ none → lookup k (merge n m) ≡ lookup k m
  unfolding lookup merge
  lookup-merge-none k [] m h = refl
  lookup-merge-none k ((j, w) ∷ n) m h =
      ground (arith, lookup-merge-none k n (insert j w m), lookup-insert j k w m)

-- A number of each value, summed.
module _ {ℓ} {V : Type ℓ} (f : V → ℕ) where
  unfoldable pub total : Dict V → ℕ
  total [] = 0
  total ((j, v) ∷ m) = f v + total m

  pub total-insert :
      (k : Text) (v old : V) (m : Dict V)
      → lookup k m ≡ some old
      → total (insert k v m) + f old ≡ total m + f v
  unfolding lookup insert total
  total-insert k v old [] h = cc
  total-insert k v old ((j, w) ∷ m) h = ground (arith, total-insert k v old m)

  pub total-insert_new :
      (k : Text) (v : V) (m : Dict V) → lookup k m ≡ none → total (insert k v m) ≡ total m + f v
  unfolding lookup insert total
  total-insert_new k v [] h = omega arith
  total-insert_new k v ((j, w) ∷ m) h = ground (arith, total-insert_new k v m)

module _ {ℓ} {V : Type ℓ} where
  abbrev pub is_some : Option V → Bool
  is_some none = false
  is_some (some v) = true

  -- `m.has(k)`
  abbrev pub contains : Text → Dict V → Bool
  contains k m = is_some (lookup k m)

  -- What is there stays there.
  pub contains-insert :
      (k j : Text) (v : V) (m : Dict V) → contains j m ≡ true → contains j (insert k v m) ≡ true
  contains-insert k j v m h = ground (arith, lookup-insert k j v m)

  pub contains-merge :
      (k : Text) (n m : Dict V) → contains k m ≡ true → contains k (merge n m) ≡ true
  unfolding merge
  contains-merge k [] m h = h
  contains-merge k ((j, w) ∷ n) m h = contains-merge k n (insert j w m) (contains-insert j k w m h)

  -- Every key of the first is a key of the second.
  unfoldable pub covers : Dict V → Dict V → Bool
  covers [] m = true
  covers ((j, v) ∷ n) m = contains j m && covers n m

  pub covers-append :
      (n n' m : Dict V) → covers n m ≡ true → covers n' m ≡ true → covers (n ++ n') m ≡ true
  unfolding covers
  covers-append [] n' m h h' = h'
  covers-append ((j, v) ∷ n) n' m h h' = ground (arith, covers-append n n' m)

  covers-insert :
      (n m : Dict V) (k : Text) (v : V) → covers n m ≡ true → covers n (insert k v m) ≡ true
  unfolding covers
  covers-insert [] m k v h = refl
  covers-insert ((j, w) ∷ n) m k v h =
      ground (arith, covers-insert n m k v, contains-insert k j v m)

  pub covers-insert_left :
      (n m : Dict V) (k : Text) (v : V)
      → covers n m ≡ true
      → contains k m ≡ true
      → covers (insert k v n) m ≡ true
  unfolding covers insert
  covers-insert_left [] m k v h c = ground arith
  covers-insert_left ((j, w) ∷ n) m k v h c = ground (arith, covers-insert_left n m k v)

  pub lookup-insert-none :
      (k j : Text) (v : V) (m : Dict V)
      → contains k m ≡ true
      → lookup j m ≡ none
      → lookup j (insert k v m) ≡ none
  lookup-insert-none k j v m h e = ground (arith, lookup-insert k j v m, text_eq_iff j k)

  -- Merging entries whose keys are there adds no key.
  pub lookup-merge-covers :
      (k : Text) (n m : Dict V)
      → covers n m ≡ true
      → lookup k m ≡ none
      → lookup k (merge n m) ≡ none
  unfolding covers merge
  lookup-merge-covers k [] m h e = e
  lookup-merge-covers k ((j, w) ∷ n) m h e =
      lookup-merge-covers k n (insert j w m)
        (covers-insert n m j w (and_true (contains j m) (covers n m) h).1)
        (lookup-insert-none j k w m (and_true (contains j m) (covers n m) h).0 e)

  -- What holds of every entry.
  pub all-insert :
      (f : Text × V → Bool) (k : Text) (v : V) (m : Dict V)
      → f (k, v) ≡ true
      → all f m ≡ true
      → all f (insert k v m) ≡ true
  unfolding insert
  all-insert f k v [] h a = ground arith
  all-insert f k v ((j, w) ∷ m) h a = elim (Bool-cases (text_eq k j)) [
    | inl same ↦
        let h' = subst (λ x. f (x, v) ≡ true) ((text_eq_iff k j).0 same) h in ground (arith, h')
    | inr other ↦ ground (arith, all-insert f k v m h)
  ]

  pub lookup-all :
      (f : Text × V → Bool) (k : Text) (v : V) (m : Dict V)
      → all f m ≡ true
      → lookup k m ≡ some v
      → f (k, v) ≡ true
  unfolding lookup
  lookup-all f k v [] a h = absurd (ground arith)
  lookup-all f k v ((j, w) ∷ m) a h = elim (Bool-cases (text_eq k j)) [
    | inl same ↦
        let w_is : w ≡ v = ground (arith, h) in
        let a' : f (j, w) ≡ true = ground arith in
        subst (λ x. f (x, v) ≡ true) (sym ((text_eq_iff k j).0 same))
          (subst (λ x. f (j, x) ≡ true) w_is a')
    | inr other ↦ lookup-all f k v m (ground arith) (ground (arith, h))
  ]
