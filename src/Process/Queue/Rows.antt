-- ===== src/Process/Queue/Rows.antt =====
-- The rows of a table under an update: packages/process/src/service.ts.
use eclipse_erp.Base.{
  ◌≡◌, refl, sym, ap, subst, inl, inr, Bool, true, false, not, ◌&&◌, ◌||◌, Option, none, some, [],
  ◌∷◌, ◌++◌, arith, if◌then◌else◌, Bool-cases, Option-cases, any, all, find, filter,
}
use eclipse_erp.Text.{Text, text_eq, text_eq_refl, text_eq_iff}
use eclipse_erp.Process.Jobs.{Row}
use eclipse_erp.Process.Queue.{Table, set_where, has_id, first, precedes}

module _ {Json : Type 0} where
  -- A row of the table after an update.
  abbrev pub revised :
      (Row Json → Bool) → (Row Json → Row Json) → Option (Row Json) → Option (Row Json)
  revised p f none = none
  revised p f (some r) = some (if p r then f r else r)

  -- A row that is found by columns that the update leaves alone.
  pub find-update :
      (q p : Row Json → Bool) (f : Row Json → Row Json) (t : Table Json)
      → ((r : Row Json) → q (f r) ≡ q r)
      → find q (set_where p f t) ≡ revised p f (find q t)
  unfolding set_where
  find-update q p f [] same = refl
  find-update q p f (r ∷ t) same = ground (arith, same r, find-update q p f t same)

  pub find-set_where :
      (k : Text) (p : Row Json → Bool) (f : Row Json → Row Json) (t : Table Json)
      → ((r : Row Json) → (f r).id ≡ r.id)
      → find (has_id k) (set_where p f t) ≡ revised p f (find (has_id k) t)
  find-set_where k p f t same = find-update (has_id k) p f t (λ r. ap (λ x. text_eq x k) (same r))

  -- What holds of every row, and of every row that is set, holds of every row afterwards, where of
  -- every row before something more may be known.
  pub all-set_where :
      (q s p : Row Json → Bool) (f : Row Json → Row Json) (t : Table Json)
      → ((r : Row Json) → s r ≡ true → p r ≡ true → q r ≡ true → q (f r) ≡ true)
      → all s t ≡ true
      → all q t ≡ true
      → all q (set_where p f t) ≡ true
  unfolding set_where
  all-set_where q s p f [] keep k h = refl
  all-set_where q s p f (r ∷ t) keep k h = ground (arith, keep r, all-set_where q s p f t keep)

  pub all-find :
      (q p : Row Json → Bool) (t : Table Json) (r : Row Json)
      → all q t ≡ true
      → find p t ≡ some r
      → q r ≡ true
  all-find q p [] r h e = cc
  all-find q p (x ∷ t) r h e = elim (Bool-cases (p x)) [
    | inl hit ↦
        let is : x ≡ r = ground (arith, e, hit) in subst (λ y. q y ≡ true) is (ground (arith, h))
    | inr miss ↦ all-find q p t r (ground (arith, h)) (ground (arith, e, miss))
  ]

  pub find_holds :
      (p : Row Json → Bool) (t : Table Json) (r : Row Json) → find p t ≡ some r → p r ≡ true
  find_holds p [] r e = cc
  find_holds p (x ∷ t) r e = elim (Bool-cases (p x)) [
    | inl hit ↦ let is : x ≡ r = ground (arith, e, hit) in subst (λ y. p y ≡ true) is hit
    | inr miss ↦ find_holds p t r (ground (arith, e, miss))
  ]

  -- What holds of every row holds of the first.
  pub all-first :
      (q : Row Json → Bool) (t : Table Json) (r : Row Json)
      → all q t ≡ true
      → first t ≡ some r
      → q r ≡ true
  unfolding first
  all-first q [] r h e = cc
  all-first q (x ∷ t) r h e = elim (Option-cases (first t)) [
    | inl none_left ↦
        let is : x ≡ r = ground (arith, e, none_left) in
        subst (λ y. q y ≡ true) is (ground (arith, h))
    | inr (best, found) ↦
        let rest = all-first q t best (ground (arith, h)) found in
        elim (Bool-cases (precedes best x)) [
          | inl before ↦
              let is : best ≡ r = ground (arith, e, found, before) in
              subst (λ y. q y ≡ true) is rest
          | inr after ↦
              let is : x ≡ r = ground (arith, e, found, after) in
              subst (λ y. q y ≡ true) is (ground (arith, h))
        ]
  ]

  pub all-filter_same : (p : Row Json → Bool) (t : Table Json) → all p (filter p t) ≡ true
  all-filter_same p [] = refl
  all-filter_same p (r ∷ t) = ground (arith, all-filter_same p t)

  pub all-filter :
      (q p : Row Json → Bool) (t : Table Json) → all q t ≡ true → all q (filter p t) ≡ true
  all-filter q p [] h = refl
  all-filter q p (r ∷ t) h = ground (arith, all-filter q p t)

  -- No row is the same as a later one in the columns of a key.
  unfoldable pub are_apart : (Row Json → Row Json → Bool) → Table Json → Bool
  are_apart same [] = true
  are_apart same (r ∷ t) = not (any (same r) t) && are_apart same t

  -- The identifiers of the rows differ: the primary key.
  abbrev pub are_keyed : Table Json → Bool
  are_keyed = are_apart (λ r. has_id r.id)

  not-any : (q : Row Json → Bool) (t : Table Json) → any q t ≡ false → all (λ r. not (q r)) t ≡ true
  not-any q [] h = refl
  not-any q (r ∷ t) h = ground (arith, not-any q t)

  pub first-filter-find :
      (p : Row Json → Bool) (t : Table Json) (r : Row Json)
      → are_keyed t ≡ true
      → first (filter p t) ≡ some r
      → find (has_id r.id) t ≡ some r
  unfolding are_apart first
  first-filter-find p [] r u e = cc
  first-filter-find p (x ∷ t) r u e =
      let later = λ (e' : first (filter p t) ≡ some r).
        let other =
          all-first (λ y. not (has_id x.id y)) (filter p t) r
            (all-filter (λ y. not (has_id x.id y)) p t
              (not-any (has_id x.id) t (ground (arith, u))))
            e' in
        let miss : text_eq x.id r.id ≡ false =
          ground (arith, other, text_eq_iff x.id r.id, text_eq_iff r.id x.id) in
        let found = first-filter-find p t r (ground (arith, u)) e' in
        let goal : find (has_id r.id) (x ∷ t) ≡ some r = ground (arith, miss, found) in goal in
      let here = λ (is : x ≡ r).
        let goal : find (has_id r.id) (x ∷ t) ≡ some r =
          subst (λ y. find (has_id y.id) (x ∷ t) ≡ some y) is (ground (arith, text_eq_refl x.id)) in
        goal in
      elim (Bool-cases (p x)) [
        | inr no_x ↦ later (ground (arith, e, no_x))
        | inl yes_x ↦ elim (Option-cases (first (filter p t))) [
          | inl none_left ↦ here (ground (arith, e, yes_x, none_left))
          | inr (best, found) ↦ elim (Bool-cases (precedes best x)) [
            | inl before ↦
                let is : best ≡ r = ground (arith, e, yes_x, found, before) in
                later (subst (λ y. first (filter p t) ≡ some y) is found)
            | inr after ↦ here (ground (arith, e, yes_x, found, after))
          ]
        ]
      ]

  -- An update that leaves a column alone, and an insertion of a row that is no other's.
  any-set_where :
      (q p : Row Json → Bool) (f : Row Json → Row Json) (t : Table Json)
      → ((r : Row Json) → q (f r) ≡ q r)
      → any q (set_where p f t) ≡ any q t
  unfolding set_where
  any-set_where q p f [] keep = refl
  any-set_where q p f (r ∷ t) keep = ground (arith, keep r, any-set_where q p f t keep)

  pub are_apart-set_where :
      (same : Row Json → Row Json → Bool) (p : Row Json → Bool) (f : Row Json → Row Json)
      (t : Table Json)
      → ((a b : Row Json) → same a (f b) ≡ same a b)
      → ((a : Row Json) → same (f a) ≡ same a)
      → are_apart same (set_where p f t) ≡ are_apart same t
  unfolding set_where are_apart
  are_apart-set_where same p f [] right left = refl
  are_apart-set_where same p f (r ∷ t) right left = ground (
    arith,
    any-set_where (same r) p f t (right r),
    are_apart-set_where same p f t right left,
    ap (λ q. any q (set_where p f t)) (left r),
  )

  pub are_keyed-set_where :
      (p : Row Json → Bool) (f : Row Json → Row Json) (t : Table Json)
      → ((r : Row Json) → (f r).id ≡ r.id)
      → are_keyed (set_where p f t) ≡ are_keyed t
  are_keyed-set_where p f t keeps =
      are_apart-set_where (λ r. has_id r.id) p f t (λ a b. ap (λ x. text_eq x a.id) (keeps b))
        (λ a. ap has_id (keeps a))

  any-append :
      (q : Row Json → Bool) (t : Table Json) (r : Row Json)
      → any q (t ++ (r ∷ [])) ≡ (any q t || q r)
  any-append q [] r = ground arith
  any-append q (x ∷ t) r = ground (arith, any-append q t r)

  pub are_apart-append :
      (same : Row Json → Row Json → Bool) (t : Table Json) (r : Row Json)
      → ((a b : Row Json) → same a b ≡ same b a)
      → are_apart same t ≡ true
      → any (same r) t ≡ false
      → are_apart same (t ++ (r ∷ [])) ≡ true
  unfolding are_apart
  are_apart-append same [] r swap h n = refl
  are_apart-append same (x ∷ t) r swap h n =
      ground (arith, are_apart-append same t r swap, any-append (same x) t r, swap x r)

  has_id-swap : (a b : Row Json) → has_id a.id b ≡ has_id b.id a
  has_id-swap a b = ground (arith, text_eq_iff a.id b.id, text_eq_iff b.id a.id)

  pub are_keyed-append :
      (t : Table Json) (r : Row Json)
      → are_keyed t ≡ true
      → any (has_id r.id) t ≡ false
      → are_keyed (t ++ (r ∷ [])) ≡ true
  are_keyed-append t r h n = are_apart-append (λ x. has_id x.id) t r has_id-swap h n

  pub all-append :
      (q : Row Json → Bool) (t : Table Json) (r : Row Json)
      → all q t ≡ true
      → q r ≡ true
      → all q (t ++ (r ∷ [])) ≡ true
  all-append q [] r h e = ground (arith, e)
  all-append q (x ∷ t) r h e = ground (arith, all-append q t r)

  none_other :
      (x : Row Json) (k : Text) (q : Row Json → Bool) (t : Table Json)
      → ((r : Row Json) → q r ≡ true → text_eq r.id k ≡ true)
      → text_eq x.id k ≡ true
      → any (has_id x.id) t ≡ false
      → any q t ≡ false
  none_other x k q [] by e h = refl
  none_other x k q (r ∷ t) by e h = ground (
    arith,
    e,
    none_other x k q t by e,
    by r,
    text_eq_iff x.id k,
    text_eq_iff r.id k,
    text_eq_iff r.id x.id,
  )

  pub any-all :
      (q s : Row Json → Bool) (t : Table Json)
      → any q t ≡ false
      → all (λ r. not (q r) || s r) t ≡ true
  any-all q s [] h = refl
  any-all q s (r ∷ t) h = ground (arith, any-all q s t)

  -- A condition on the identifier is met by one row: what holds of the row that is found holds of
  -- every row that meets the condition.
  pub only_row :
      (k : Text) (q s : Row Json → Bool) (t : Table Json) (current : Row Json)
      → ((r : Row Json) → q r ≡ true → text_eq r.id k ≡ true)
      → are_keyed t ≡ true
      → find q t ≡ some current
      → s current ≡ true
      → all (λ r. not (q r) || s r) t ≡ true
  unfolding are_apart
  only_row k q s [] current by u e h = refl
  only_row k q s (x ∷ t) current by u e h = elim (Bool-cases (q x)) [
    | inr other ↦
        ground (
          arith,
          other,
          only_row k q s t current by (ground (arith, u)) (ground (arith, e, other)) h,
        )
    | inl own ↦
        let is : x ≡ current = ground (arith, e, own) in
        let others = none_other x k q t by (by x own) (ground (arith, u)) in
        ground (arith, own, subst (λ r. s r ≡ true) (sym is) h, any-all q s t others)
  ]

  pub all-true : (t : Table Json) → all (λ (r : Row Json). true) t ≡ true
  all-true [] = refl
  all-true (r ∷ t) = all-true t
