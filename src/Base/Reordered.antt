-- ===== src/Base/Reordered.antt =====
-- Lists with the same elements, as often.
use mathlib.Core.Path.{◌≡◌, refl, ◌∙◌}
use mathlib.Core.Bool.{Bool}
use mathlib.Core.List.{List, ◌∷◌, map}
use native.Mathlib.Omega.{arith}
use eclipse_erp.Base.Lists.{all, any, length}

pub data Reordered {A : Type 0} : List A → List A → Type 0 where
  same : (xs : List A) → Reordered xs xs
  keep : (x : A) {xs ys : List A} → Reordered xs ys → Reordered (x ∷ xs) (x ∷ ys)
  swap : (x y : A) (xs : List A) → Reordered (x ∷ (y ∷ xs)) (y ∷ (x ∷ xs))
  chain : {xs ys zs : List A} → Reordered xs ys → Reordered ys zs → Reordered xs zs

module _ {A : Type 0} where
  pub map-Reordered :
      {B : Type 0} (f : A → B) {xs ys : List A} → Reordered xs ys → Reordered (map f xs) (map f ys)
  map-Reordered f (same xs) = same (map f xs)
  map-Reordered f (keep x r) = keep (f x) (map-Reordered f r)
  map-Reordered f (swap x y xs) = swap (f x) (f y) (map f xs)
  map-Reordered f (chain r q) = chain (map-Reordered f r) (map-Reordered f q)

  pub all-Reordered : (p : A → Bool) {xs ys : List A} → Reordered xs ys → all p xs ≡ all p ys
  all-Reordered p (same xs) = refl
  all-Reordered p (keep x r) = ground (arith, all-Reordered p r)
  all-Reordered p (swap x y xs) = ground arith
  all-Reordered p (chain r q) = all-Reordered p r ∙ all-Reordered p q

  pub any-Reordered : (p : A → Bool) {xs ys : List A} → Reordered xs ys → any p xs ≡ any p ys
  any-Reordered p (same xs) = refl
  any-Reordered p (keep x r) = ground (arith, any-Reordered p r)
  any-Reordered p (swap x y xs) = ground arith
  any-Reordered p (chain r q) = any-Reordered p r ∙ any-Reordered p q

  pub length-Reordered : {xs ys : List A} → Reordered xs ys → length xs ≡ length ys
  length-Reordered (same xs) = refl
  length-Reordered (keep x r) = omega (arith, length-Reordered r)
  length-Reordered (swap x y xs) = refl
  length-Reordered (chain r q) = length-Reordered r ∙ length-Reordered q
