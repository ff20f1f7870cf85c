-- ===== src/Base/Queues.antt =====
-- Lists of keys as queues: the key at the front leaves, or a key from its place.
use Prim.Native.Nat.{ℕ, suc, ◌+◌}
use mathlib.Core.Path.{◌≡◌, refl}
use mathlib.Core.Logic.{inl, inr}
use mathlib.Core.Bool.{true, false, not, ◌&&◌, ◌||◌}
use mathlib.Core.List.{List, [], ◌∷◌, ◌++◌}
use native.Mathlib.Omega.{arith}
use ssd_waf.Base.Tests.{◌==◌, if◌then◌else◌, Bool-cases}
use ssd_waf.Base.Maps.{contains, Distinct}

module _ {ℓ} {A : Type ℓ} where
  abbrev pub length : List A → ℕ
  length [] = 0
  length (x ∷ xs) = suc (length xs)

  pub length-append : (xs ys : List A) → length (xs ++ ys) ≡ length xs + length ys
  length-append [] ys = omega arith
  length-append (x ∷ xs) ys = omega (arith, length-append xs ys)

abbrev pub drop_first : List ℕ → List ℕ
drop_first [] = []
drop_first (x ∷ xs) = xs

-- The node of the key is taken out of the list.
unfoldable pub remove_key : ℕ → List ℕ → List ℕ
remove_key k [] = []
remove_key k (x ∷ xs) = if k == x then xs else x ∷ remove_key k xs

pub contains-append :
    (xs ys : List ℕ) (k : ℕ) → contains k (xs ++ ys) ≡ (contains k xs || contains k ys)
unfolding contains
contains-append [] ys k = ground arith
contains-append (x ∷ xs) ys k = ground (arith, contains-append xs ys k)

pub append-Distinct :
    (xs : List ℕ) (k : ℕ) → Distinct xs → contains k xs ≡ false → Distinct (xs ++ (k ∷ []))
unfolding contains
append-Distinct [] k d h = (refl, tt)
append-Distinct (x ∷ xs) k d h =
    (ground (arith, d.0, contains-append xs (k ∷ []) x), append-Distinct xs k d.1 (ground arith))

pub drop_first-contains :
    (q : List ℕ) (k : ℕ) → contains k (drop_first q) ≡ true → contains k q ≡ true
unfolding contains
drop_first-contains [] k h = h
drop_first-contains (x ∷ xs) k h = ground (arith, h)

pub contains-remove_key :
    (k : ℕ) (q : List ℕ) (j : ℕ)
    → Distinct q
    → contains j (remove_key k q) ≡ (not (k == j) && contains j q)
unfolding contains remove_key
contains-remove_key k [] j d = ground arith
contains-remove_key k (x ∷ xs) j d = ground (arith, d.0, contains-remove_key k xs j d.1)

pub remove_key-Distinct : (k : ℕ) (q : List ℕ) → Distinct q → Distinct (remove_key k q)
unfolding remove_key
remove_key-Distinct k [] d = tt
remove_key-Distinct k (x ∷ xs) d = elim (Bool-cases (k == x)) [
  | inl h ↦ rw h d.1
  | inr h ↦ rw h (ground (arith, d.0, contains-remove_key k xs x d.1), remove_key-Distinct k xs d.1)
]

pub length-remove_key :
    (k : ℕ) (q : List ℕ) → contains k q ≡ true → length (remove_key k q) + 1 ≡ length q
unfolding contains remove_key
length-remove_key k [] h = ground arith
length-remove_key k (x ∷ xs) h = ground (arith, length-remove_key k xs)
