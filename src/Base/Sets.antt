-- ===== src/Base/Sets.antt =====
-- Python's membership tests, set inclusion and set size over lists of keys.
use Prim.Native.Nat.{suc, ◌≤◌}
use mathlib.Core.Path.{◌≡◌, refl, ◌∙◌}
use mathlib.Core.Logic.{◌⊎◌, inl, inr, ∥∥₁_elim}
use mathlib.Core.Bool.{Bool, true, false, ◌&&◌, ◌||◌}
use mathlib.Core.List.Perm
use mathlib.Core.List.{List, [], ◌∷◌, ◌++◌, Perm, Permᴰ}
use native.Mathlib.Omega.{arith}
use coinjoin_pipeline.Base.Lists.{length}
use coinjoin_pipeline.Base.Tests.{Equality, ◌==◌, if◌then◌else◌, Bool-cases, ==-refl, ==→≡}

Bool-set : IsSet Bool
Bool-set = hlevel

module _ {ℓ} {A : Type ℓ} ⦃e : Equality A⦄ where
  -- `a in xs`
  unfoldable pub contains : A → List A → Bool
  contains a [] = false
  contains a (x ∷ xs) = a == x || contains a xs

  infix 50 ◌∈◌
  abbrev pub ◌∈◌ : A → List A → Type 0
  a ∈ xs = contains a xs ≡ true

  -- `set(xs) <= set(ys)`
  unfoldable pub subset : List A → List A → Bool
  subset [] ys = true
  subset (x ∷ xs) ys = contains x ys && subset xs ys

  -- `set(xs) & set(ys)` is not empty
  unfoldable pub intersects : List A → List A → Bool
  intersects xs [] = false
  intersects xs (y ∷ ys) = contains y xs || intersects xs ys

  -- `set(xs)`, each element once
  unfoldable pub to_set : List A → List A
  to_set [] = []
  to_set (x ∷ xs) = let rest = to_set xs in if contains x rest then rest else x ∷ rest

  -- `xs.remove(a)`: the first element equal to `a`
  unfoldable pub remove : A → List A → List A
  remove a [] = []
  remove a (x ∷ xs) = let rest = remove a xs in if x == a then xs else x ∷ rest

  -- No element stands twice.
  abbrev pub IsDistinct : List A → Type 0
  IsDistinct [] = Unit
  IsDistinct (x ∷ xs) = (contains x xs ≡ false) × IsDistinct xs

  pub contains-append :
      (a : A) (xs ys : List A) → contains a (xs ++ ys) ≡ (contains a xs || contains a ys)
  unfolding contains
  contains-append a [] ys = refl
  contains-append a (x ∷ xs) ys = ground (arith, contains-append a xs ys)

  pub contains-head : (a : A) (xs : List A) → a ∈ a ∷ xs
  unfolding contains
  contains-head a xs = ground (arith, ==-refl a)

  contains-permᴰ : (a : A) {xs ys : List A} → Permᴰ xs ys → contains a xs ≡ contains a ys
  unfolding contains
  contains-permᴰ a Permᴰ.nil = refl
  contains-permᴰ a (Permᴰ.cons p ps) = cc (contains-permᴰ a ps)
  contains-permᴰ a (Permᴰ.swap {a = x} {b = y} {l = l} p q) = ground arith
  contains-permᴰ a (Permᴰ.trans p q) = contains-permᴰ a p ∙ contains-permᴰ a q

  pub contains-perm : (a : A) {xs ys : List A} → Perm xs ys → contains a xs ≡ contains a ys
  contains-perm a p = ∥∥₁_elim p (Bool-set _ _) (contains-permᴰ a)

  IsDistinct-permᴰ : {xs ys : List A} → Permᴰ xs ys → IsDistinct xs → IsDistinct ys
  unfolding contains
  IsDistinct-permᴰ Permᴰ.nil d = d
  IsDistinct-permᴰ (Permᴰ.cons {a = x} p ps) d =
      (cc (contains-permᴰ x ps, d.0), IsDistinct-permᴰ ps d.1)
  IsDistinct-permᴰ (Permᴰ.swap {a = x} {b = y} {l = l} p q) d =
      ground (arith, e.equals_iff x y, e.equals_iff y x)
  IsDistinct-permᴰ (Permᴰ.trans p q) d = IsDistinct-permᴰ q (IsDistinct-permᴰ p d)

  IsDistinct-prop : (xs : List A) → IsProp (IsDistinct xs)
  IsDistinct-prop [] = hlevel
  IsDistinct-prop (x ∷ xs) = hlevel (Bool-set, IsDistinct-prop xs)

  pub IsDistinct-perm : {xs ys : List A} → Perm xs ys → IsDistinct xs → IsDistinct ys
  IsDistinct-perm {ys} p d = ∥∥₁_elim p (IsDistinct-prop ys) (λ q. IsDistinct-permᴰ q d)

  pub remove-perm : (a : A) (xs : List A) → a ∈ xs → Perm (a ∷ remove a xs) xs
  unfolding remove contains
  remove-perm a [] h = cc
  remove-perm a (x ∷ xs) h = elim (Bool-cases (x == a)) [
    | inl y ↦ rw y (rw (==→≡ x a y) Perm.rfl)
    | inr n ↦ rw n (
        Perm.trans (Perm.swap x a _)
          (Perm.cons x (remove-perm a xs (ground (arith, e.equals_iff x a, e.equals_iff a x)))))
  ]

  pub length-remove : (a : A) (xs : List A) → a ∈ xs → suc (length (remove a xs)) ≡ length xs
  unfolding remove contains
  length-remove a [] h = cc
  length-remove a (x ∷ xs) h =
      ground (arith, length-remove a xs, e.equals_iff x a, e.equals_iff a x)

  pub length-to_set-le : (xs : List A) → length (to_set xs) ≤ length xs
  unfolding to_set
  length-to_set-le [] = omega arith
  length-to_set-le (x ∷ xs) = ground (arith, length-to_set-le xs)

  pub contains-to_set : (a : A) (xs : List A) → contains a (to_set xs) ≡ contains a xs
  unfolding to_set contains
  contains-to_set a [] = refl
  contains-to_set a (x ∷ xs) =
      ground (arith, contains-to_set a xs, contains-to_set x xs, e.equals_iff a x)

  -- A list is as long as its set exactly when its elements are distinct.
  pub IsDistinct-of_length : (xs : List A) → length (to_set xs) ≡ length xs → IsDistinct xs
  unfolding to_set
  IsDistinct-of_length [] h = tt
  IsDistinct-of_length (x ∷ xs) h =
      ground (arith, contains-to_set x xs, length-to_set-le xs, IsDistinct-of_length xs)

  pub length-to_set : (xs : List A) → IsDistinct xs → length (to_set xs) ≡ length xs
  unfolding to_set
  length-to_set [] d = refl
  length-to_set (x ∷ xs) d = ground (arith, contains-to_set x xs, length-to_set xs d.1)

  -- `subset` decides inclusion.
  pub subset-mem : (xs ys : List A) (a : A) → subset xs ys ≡ true → a ∈ xs → a ∈ ys
  unfolding subset contains
  subset-mem [] ys a h m = cc
  subset-mem (x ∷ xs) ys a h m = ground (arith, subset-mem xs ys a, e.equals_iff a x)

  pub mem-subset : (xs ys : List A) → ((a : A) → a ∈ xs → a ∈ ys) → subset xs ys ≡ true
  unfolding subset contains
  mem-subset [] ys h = refl
  mem-subset (x ∷ xs) ys h =
      ground (arith, h x, ==-refl x, mem-subset xs ys (λ a m. h a (ground arith)))

  pub mem-intersects : (a : A) (xs ys : List A) → a ∈ xs → a ∈ ys → intersects xs ys ≡ true
  unfolding intersects contains
  mem-intersects a xs [] p q = cc
  mem-intersects a xs (y ∷ ys) p q = ground (arith, mem-intersects a xs ys p, e.equals_iff a y)

  pub intersects-mem : (xs ys : List A) → intersects xs ys ≡ true → (a : A) × (a ∈ xs) × (a ∈ ys)
  unfolding intersects contains
  intersects-mem xs [] h = cc
  intersects-mem xs (y ∷ ys) h = elim (Bool-cases (contains y xs)) [
    | inl p ↦ (y, p, ground (arith, ==-refl y))
    | inr n ↦ let (a, p, q) = intersects-mem xs ys (ground arith) in (a, p, ground arith)
  ]

  pub mem_of_remove : (a b : A) (xs : List A) → a ∈ remove b xs → a ∈ xs
  unfolding remove contains
  mem_of_remove a b [] h = h
  mem_of_remove a b (x ∷ xs) h = ground (arith, mem_of_remove a b xs)

  pub mem-remove : (a b : A) (xs : List A) → a ∈ xs → ((a == b) ≡ true) ⊎ (a ∈ remove b xs)
  unfolding remove contains
  mem-remove a b [] h = cc
  mem-remove a b (x ∷ xs) h =
      ground (arith, mem-remove a b xs, e.equals_iff a b, e.equals_iff x b, e.equals_iff a x)
