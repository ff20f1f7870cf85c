-- ===== src/Base/Sums.antt =====
-- Sums over an initial range of numbers, and the number of times that a number stands in a list.
use Prim.Native.Nat.{ℕ, zero, suc, ◌+◌, ◌≤◌, ◌<◌}
use mathlib.Core.Path.{◌≡◌, refl}
use mathlib.Core.Logic.{inl, inr}
use mathlib.Core.Bool.{Bool, false}
use mathlib.Core.List.{List, [], ◌∷◌, ◌++◌}
use native.Mathlib.Omega.{arith}
use ssd_waf.Base.Tests.{◌==◌, if◌then◌else◌, Bool-cases}
use ssd_waf.Base.Maps.{count_from}

-- f 0 + … + f (n - 1).
unfoldable pub sum_to : (ℕ → ℕ) → ℕ → ℕ
sum_to f zero = 0
sum_to f (suc n) = sum_to f n + f n

pub sum_to-same : (f g : ℕ → ℕ) (n : ℕ) → ((j : ℕ) → j < n → g j ≡ f j) → sum_to g n ≡ sum_to f n
unfolding sum_to
sum_to-same f g zero h = refl
sum_to-same f g (suc n) h =
    omega (arith, h n (omega arith), sum_to-same f g n (λ j b. h j (omega arith)))

-- A change at one place of the range.
pub sum_to-change :
    (f g : ℕ → ℕ) (n s : ℕ)
    → ((j : ℕ) → (s == j) ≡ false → g j ≡ f j)
    → s < n
    → sum_to g n + f s ≡ sum_to f n + g s
unfolding sum_to
sum_to-change f g zero s h b = absurd (omega arith)
sum_to-change f g (suc n) s h b = elim (Bool-cases (s == n)) [
  | inl e ↦ ground (arith, e, sum_to-same f g n (λ j c. h j (ground arith)))
  | inr e ↦ ground (arith, e, h n e, sum_to-change f g n s h)
]

pub sum_to-le : (f : ℕ → ℕ) (n s : ℕ) → s < n → f s ≤ sum_to f n
unfolding sum_to
sum_to-le f zero s b = absurd (omega arith)
sum_to-le f (suc n) s b = ground (arith, sum_to-le f n s)

pub sum_to-zero : (f : ℕ → ℕ) (n : ℕ) → ((j : ℕ) → f j ≡ 0) → sum_to f n ≡ 0
unfolding sum_to
sum_to-zero f zero h = refl
sum_to-zero f (suc n) h = omega (arith, h n, sum_to-zero f n h)

unfoldable pub count : ℕ → List ℕ → ℕ
count k [] = 0
count k (x ∷ xs) = (if k == x then 1 else 0) + count k xs

pub count-append : (k : ℕ) (xs ys : List ℕ) → count k (xs ++ ys) ≡ count k xs + count k ys
unfolding count
count-append k [] ys = omega arith
count-append k (x ∷ xs) ys = omega (arith, count-append k xs ys)

-- No bit is set where none is counted.
pub count_from-zero :
    (f : ℕ → Bool) (i k j : ℕ) → count_from f i k ≡ 0 → i ≤ j → j < i + k → f j ≡ false
unfolding count_from
count_from-zero f i zero j e lo hi = absurd (omega arith)
count_from-zero f i (suc k) j e lo hi = ground (arith, count_from-zero f (i + 1) k j)
