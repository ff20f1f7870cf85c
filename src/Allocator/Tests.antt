-- ===== src/Allocator/Tests.antt =====
-- Runs of the allocator.
use ssd_waf.Base.{
  ℕ, ◌+◌, ◌/◌, ◌≡◌, ◌↔◌, refl, arith, false, [], ◌∷◌, update, contains, count_from, ok, fault, sym,
  subst, ltb,
}
use ssd_waf.Allocator.{Allocator, IsAllocator, Taken, push_down, init, alloc, free, used}
use ssd_waf.Allocator.Stack.{init-IsAllocator, alloc-IsAllocator, free-IsAllocator, alloc-fault}

-- Three blocks of 4 bytes.
abbrev three : Allocator
three = record {
  block_size = 4;
  total_size = 12;
  max_blocks = 3;
  allocated = λ _. false;
  free_list = 0 ∷ 1 ∷ 2 ∷ [];
}

init-three : init 12 4 ≡ ok three
unfolding init push_down
init-three = refl

three-IsAllocator : IsAllocator three
unfolding init push_down
three-IsAllocator =
    let (a, q, w, n, h) = init-IsAllocator 12 4 (omega arith) (omega arith) (omega arith) in
    valid-ok a (sym q) w
  where
    valid-ok : (a : Allocator) → ok a ≡ ok three → IsAllocator a → IsAllocator three
    valid-ok a q w = subst IsAllocator (inner q) w
      where
        inner : ok a ≡ ok three → a ≡ three
        inner q = cc

init-IsAllocator_example :
    (a : Allocator) × (init 12 4 ≡ ok a)
    × IsAllocator a
    × (a.max_blocks ≡ 12 / 4)
    × ((i : ℕ) → a.allocated i ≡ false)
init-IsAllocator_example = init-IsAllocator 12 4 (omega arith) (omega arith) (omega arith)

alloc-IsAllocator_example :
    (t : Allocator) × (id : ℕ) × (alloc three ≡ ok (t, id)) × Taken three t id
unfolding count_from
alloc-IsAllocator_example = alloc-IsAllocator three three-IsAllocator (omega arith)

-- The first two blocks are taken.
abbrev two_taken : Allocator
two_taken = record three { allocated = λ i. ltb i 2; free_list = 2 ∷ [] }

two_taken-IsAllocator : IsAllocator two_taken
unfolding contains count_from
two_taken-IsAllocator = record {
  distinct = (refl, tt);
  in_range = λ i h. ground arith;
  free_or_allocated = λ i h. ground arith;
  counted = refl;
}

free-IsAllocator_example :
    (t : Allocator) × (free two_taken 1 ≡ ok t)
    × IsAllocator t
    × (t.allocated ≡ update two_taken.allocated 1 false)
    × (t.max_blocks ≡ 3)
    × (used t + 1 ≡ used two_taken)
free-IsAllocator_example = free-IsAllocator two_taken two_taken-IsAllocator 1 (omega arith) refl

alloc-fault_example : (alloc two_taken ≡ fault) ↔ (used two_taken ≡ 3)
alloc-fault_example = alloc-fault two_taken two_taken-IsAllocator
