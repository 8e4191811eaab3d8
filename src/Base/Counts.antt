-- ===== src/Base/Counts.antt =====
-- How often a number stands in a list: lists with equal counts are equal up to order.
use mathlib.Core.Path.{◌≡◌, refl}
use mathlib.Core.List.{List, [], ◌∷◌, ◌++◌}
use Prim.Native.Nat.{ℕ, ◌+◌, ◌<◌}
use native.Mathlib.Omega.{arith}
use coinjoin_pipeline.Base.Tests.{if◌then◌else◌, nat_beq, nat_equality}
use coinjoin_pipeline.Base.Lists.{sum}
use coinjoin_pipeline.Base.Sets.{remove}

-- 1 where the numbers are equal, else 0.
unfoldable pub same : ℕ → ℕ → ℕ
same a x = if nat_beq a x then 1 else 0

unfoldable pub count : ℕ → List ℕ → ℕ
count a [] = 0
count a (x ∷ xs) = same a x + count a xs

pub count-nil : (a : ℕ) → count a [] ≡ 0
unfolding count
count-nil a = refl

pub count-cons : (a x : ℕ) (xs : List ℕ) → count a (x ∷ xs) ≡ same a x + count a xs
unfolding count
count-cons a x xs = refl

pub count-append : (a : ℕ) (xs ys : List ℕ) → count a (xs ++ ys) ≡ count a xs + count a ys
unfolding count
count-append a [] ys = omega arith
count-append a (x ∷ xs) ys = omega (arith, count-append a xs ys)

pub same_self : (a : ℕ) → same a a ≡ 1
unfolding same
same_self a = ground arith

pub sum-remove : (v : ℕ) (xs : List ℕ) → 0 < count v xs → sum (remove v xs) + v ≡ sum xs
unfolding count same remove
sum-remove v [] h = absurd (omega arith)
sum-remove v (x ∷ xs) h = ground (arith, sum-remove v xs)

pub count-remove :
    (a v : ℕ) (xs : List ℕ) → 0 < count v xs → count a xs ≡ same a v + count a (remove v xs)
unfolding count same remove
count-remove a v [] h = absurd (omega arith)
count-remove a v (x ∷ xs) h = ground (arith, count-remove a v xs)

pub sum-eq_of_counts : (xs ys : List ℕ) → ((a : ℕ) → count a xs ≡ count a ys) → sum xs ≡ sum ys
sum-eq_of_counts [] [] h = refl
sum-eq_of_counts [] (y ∷ ys) h =
    absurd (omega (arith, h y, count-nil y, count-cons y y ys, same_self y))
sum-eq_of_counts (x ∷ xs) ys h =
    let there : 0 < count x ys = omega (arith, h x, count-cons x x xs, same_self x) in
    omega (
      arith,
      sum-remove x ys there,
      sum-eq_of_counts xs (remove x ys)
          (λ a. omega (arith, h a, count-cons a x xs, count-remove a x ys there)),
    )
