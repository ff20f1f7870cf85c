-- ===== src/Allocator.antt =====
-- `DummyAllocator`, allocator.h and allocator.cpp: cache blocks are numbered, and the free ones are
-- on a stack.
pub mod Stack
mod Tests
use ssd_waf.Base.{
  ℕ, zero, suc, ◌+◌, ◌-◌, ◌*◌, ◌/◌, ◌%◌, ◌≤◌, ◌<◌, ◌≡◌, ◌∙◌, refl, sym, ap, fun_ext, Bool, true,
  false, not, ◌||◌, Option, none, some, arith, List, [], ◌∷◌, length, ltb, leb, lt→ltb, subst, ◌==◌,
  if◌then◌else◌, update, contains, Distinct, count_from, count_from-le, count_from-set,
  count_from-clear, count_from-none, Result, ok, fault, ◌>>=◌, ◌↔◌,
}

-- `allocated` has `max_blocks` entries; the head of `free_list` is the top of the stack.
pub record Allocator : Type 0 where
  pub block_size : ℕ
  pub total_size : ℕ
  pub max_blocks : ℕ
  pub allocated : ℕ → Bool
  pub free_list : List ℕ

-- `i`, `i - 1`, …, 0 pushed in this order.
unfoldable pub push_down : ℕ → List ℕ → List ℕ
push_down zero s = 0 ∷ s
push_down (suc i) s = push_down i (suc i ∷ s)

-- Without a block the first number pushed is the highest of 64 bits. A division by 0 aborts.
unfoldable pub init : ℕ → ℕ → Result Allocator
init total_bytes block_bytes =
    if block_bytes == 0
    then fault
    else ok (record {
      block_size = block_bytes;
      total_size = total_bytes;
      max_blocks = total_bytes / block_bytes;
      allocated = λ _. false;
      free_list =
          push_down ((total_bytes / block_bytes + 0xFFFFFFFFFFFFFFFF) % 0x10000000000000000) [];
    })

unfoldable pub alloc : Allocator → Result (Allocator × ℕ)
alloc a = elim a.free_list [
  | [] ↦ fault
  | id ∷ rest ↦
      if ltb id a.max_blocks
      then ok (record a { allocated = update a.allocated id true; free_list = rest }, id)
      else fault
]

unfoldable pub free : Allocator → ℕ → Result Allocator
free a id =
    if leb a.max_blocks id
    then fault
    else if not (a.allocated id)
    then fault
    else ok (record a { allocated = update a.allocated id false; free_list = id ∷ a.free_list })

-- The stack holds each block that is not allocated, once.
pub record IsAllocator (a : Allocator) : Type 0 where
  pub distinct : Distinct a.free_list
  pub in_range : (i : ℕ) → contains i a.free_list ≡ true → i < a.max_blocks
  pub free_or_allocated : (i : ℕ) → i < a.max_blocks → contains i a.free_list ≡ not (a.allocated i)
  pub counted : length a.free_list + count_from a.allocated 0 a.max_blocks ≡ a.max_blocks

-- The number of allocated blocks.
abbrev pub used : Allocator → ℕ
used a = count_from a.allocated 0 a.max_blocks

-- `alloc` gave the block: it was free, it is allocated now, no other block changes, and `free` of it
-- gives back the state before.
pub record Taken (a t : Allocator) (id : ℕ) : Type 0 where
  pub valid : IsAllocator t
  pub in_range : id < a.max_blocks
  pub was_free : a.allocated id ≡ false
  pub allocated : t.allocated ≡ update a.allocated id true
  pub same_blocks : t.max_blocks ≡ a.max_blocks
  pub more : used t ≡ used a + 1
  pub back : free t id ≡ ok a
