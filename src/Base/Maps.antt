-- ===== src/Base/Maps.antt =====
-- Hash maps and vectors addressed by numbers, as functions; vectors used as stacks and queues, as
-- lists; and the number of pages that a bit vector marks in a range.
use Prim.Native.Nat.{ℕ, zero, suc, ◌+◌, ◌≤◌, ◌<◌}
use mathlib.Core.Path.{◌≡◌, refl}
use mathlib.Core.Bool.{Bool, true, false, ◌||◌}
use mathlib.Core.List.{List, [], ◌∷◌}
use native.Mathlib.Omega.{arith}
use ssd_waf.Base.Tests.{◌==◌, if◌then◌else◌}

-- `m[k] = v`.
abbrev pub update {ℓ} : {A : Type ℓ} → (ℕ → A) → ℕ → A → ℕ → A
update m k v j = if k == j then v else m j

-- Is `k` in the list?
unfoldable pub contains : ℕ → List ℕ → Bool
contains k [] = false
contains k (x ∷ xs) = k == x || contains k xs

-- No number stands twice in the list.
abbrev pub Distinct : List ℕ → Type 0
Distinct [] = Unit {0}
Distinct (x ∷ xs) = (contains x xs ≡ false) × Distinct xs

-- The number of set bits among `i`, …, `i + k - 1`.
unfoldable pub count_from : (ℕ → Bool) → ℕ → ℕ → ℕ
count_from f i zero = 0
count_from f i (suc k) = (if f i then 1 else 0) + count_from f (i + 1) k

pub count_from-le : (f : ℕ → Bool) (i k : ℕ) → count_from f i k ≤ k
unfolding count_from
count_from-le f i zero = omega arith
count_from-le f i (suc k) = ground (arith, count_from-le f (i + 1) k)

-- A write below the range is not seen.
pub count_from-update_below :
    (f : ℕ → Bool) (i k j : ℕ) (v : Bool) → j < i → count_from (update f j v) i k ≡ count_from f i k
unfolding count_from
count_from-update_below f i zero j v h = refl
count_from-update_below f i (suc k) j v h =
    ground (arith, count_from-update_below f (i + 1) k j v (omega arith))

-- Setting a bit that is clear, in the range.
pub count_from-set :
    (f : ℕ → Bool) (i k j : ℕ)
    → i ≤ j
    → j < i + k
    → f j ≡ false
    → count_from (update f j true) i k ≡ count_from f i k + 1
unfolding count_from
count_from-set f i zero j lo hi e = absurd (omega arith)
count_from-set f i (suc k) j lo hi e =
    ground (arith, count_from-update_below f (i + 1) k j true, count_from-set f (i + 1) k j)

-- Clearing a bit that is set, in the range.
pub count_from-clear :
    (f : ℕ → Bool) (i k j : ℕ)
    → i ≤ j
    → j < i + k
    → f j ≡ true
    → count_from (update f j false) i k + 1 ≡ count_from f i k
unfolding count_from
count_from-clear f i zero j lo hi e = absurd (omega arith)
count_from-clear f i (suc k) j lo hi e =
    ground (arith, count_from-update_below f (i + 1) k j false, count_from-clear f (i + 1) k j)

pub count_from-none : (f : ℕ → Bool) (i k : ℕ) → ((j : ℕ) → f j ≡ false) → count_from f i k ≡ 0
unfolding count_from
count_from-none f i zero h = refl
count_from-none f i (suc k) h = ground (arith, h i, count_from-none f (i + 1) k h)
