-- ===== src/Allocator/Stack.antt =====
-- The operations of the allocator on valid states.
use ssd_waf.Base.{
  ℕ, zero, suc, ◌+◌, ◌-◌, ◌/◌, ◌%◌, ◌≤◌, ◌<◌, ◌≡◌, ◌∙◌, refl, sym, ap, fun_ext, Bool, true, false,
  ◌||◌, arith, List, [], ◌∷◌, length, ltb, leb, lt→ltb, subst, ◌==◌, update, contains, Distinct,
  count_from-set, count_from-clear, count_from-none, ok, fault, ◌↔◌,
}
use ssd_waf.Allocator.{Allocator, push_down, init, alloc, free, IsAllocator, used, Taken}

contains-push_down :
    (i : ℕ) (s : List ℕ) (j : ℕ) → contains j (push_down i s) ≡ (ltb j (i + 1) || contains j s)
unfolding push_down contains
contains-push_down zero s j = ground arith
contains-push_down (suc i) s j = ground (arith, contains-push_down i (suc i ∷ s) j)

length-push_down : (i : ℕ) (s : List ℕ) → length (push_down i s) ≡ i + 1 + length s
unfolding push_down
length-push_down zero s = omega arith
length-push_down (suc i) s = omega (arith, length-push_down i (suc i ∷ s))

push_down-Distinct :
    (i : ℕ) (s : List ℕ)
    → Distinct s
    → ((j : ℕ) → j ≤ i → contains j s ≡ false)
    → Distinct (push_down i s)
unfolding push_down contains
push_down-Distinct zero s d h = (h 0 (omega arith), d)
push_down-Distinct (suc i) s d h =
    push_down-Distinct i (suc i ∷ s) (h (suc i) (omega arith), d) (λ j le. ground (arith, h j))

-- On a number of bytes for one block or more, whose number is below 2^64, the constructor gives a
-- valid allocator with no block allocated.
pub init-IsAllocator :
    (total_bytes block_bytes : ℕ)
    → 0 < block_bytes
    → 0 < total_bytes / block_bytes
    → total_bytes / block_bytes < 0x10000000000000000
    → (a : Allocator) × (init total_bytes block_bytes ≡ ok a)
      × IsAllocator a
      × (a.max_blocks ≡ total_bytes / block_bytes)
      × ((i : ℕ) → a.allocated i ≡ false)
unfolding init contains
init-IsAllocator total block pos some_blocks fit =
    let n = total / block in
    let top : (n + 0xFFFFFFFFFFFFFFFF) % 0x10000000000000000 ≡ n - 1 = omega arith in
    let nonzero : (block == 0) ≡ false = ground arith in
    (
      record {
        block_size = block;
        total_size = total;
        max_blocks = n;
        allocated = λ _. false;
        free_list = push_down ((n + 0xFFFFFFFFFFFFFFFF) % 0x10000000000000000) [];
      },
      rw nonzero,
      record {
        distinct =
            push_down-Distinct ((n + 0xFFFFFFFFFFFFFFFF) % 0x10000000000000000) [] tt
              (λ j le. refl);
        in_range = λ i h.
            ground (
              arith,
              contains-push_down ((n + 0xFFFFFFFFFFFFFFFF) % 0x10000000000000000) [] i,
              top,
            );
        free_or_allocated = λ i h.
            ground (
              arith,
              contains-push_down ((n + 0xFFFFFFFFFFFFFFFF) % 0x10000000000000000) [] i,
              top,
            );
        counted = omega (
          arith,
          length-push_down ((n + 0xFFFFFFFFFFFFFFFF) % 0x10000000000000000) [],
          top,
          count_from-none (λ _. false) 0 n (λ _. refl),
        );
      },
      refl,
      λ i. refl,
    )

leb-below : (i n : ℕ) → i < n → leb n i ≡ false
leb-below i n h = ground arith

update-same : (f : ℕ → Bool) (i : ℕ) (v : Bool) → update f i v i ≡ v
update-same f i v = ground arith

clear-set : (f : ℕ → Bool) (i : ℕ) → f i ≡ false → update (update f i true) i false ≡ f
clear-set f i h = fun_ext (λ j. ground arith)

module _ (a : Allocator) (w : IsAllocator a) where
  alloc-top :
      (id : ℕ) (rest : List ℕ)
      → a.free_list ≡ id ∷ rest
      → (t : Allocator) × (alloc a ≡ ok (t, id)) × Taken a t id
  unfolding alloc free contains
  alloc-top id rest e =
      let d : Distinct (id ∷ rest) = subst Distinct e w.distinct in
      let inside : contains id a.free_list ≡ true = rw e (ground arith) in
      let lt = w.in_range id inside in
      let was_free : a.allocated id ≡ false = ground (arith, w.free_or_allocated id lt) in
      let more =
        count_from-set a.allocated 0 a.max_blocks id (omega arith) (omega arith) was_free in
      let in_rest : (j : ℕ) → contains j a.free_list ≡ (j == id || contains j rest) =
        λ j. rw e refl in
      let t : Allocator = record a { allocated = update a.allocated id true; free_list = rest } in
      let reopened : free t id
          ≡ ok (record a {
            allocated = update (update a.allocated id true) id false;
            free_list = id ∷ rest;
          }) =
        rw (leb-below id a.max_blocks lt) (rw (update-same a.allocated id true)) in
      (
        t,
        rw e (rw (lt→ltb id a.max_blocks lt)),
        record {
          valid = record {
            distinct = d.1;
            in_range = λ i h. w.in_range i (ground (arith, in_rest i));
            free_or_allocated = λ i h. ground (arith, in_rest i, w.free_or_allocated i h, d.0);
            counted = omega (arith, more, w.counted, ap length e);
          };
          in_range = lt;
          was_free = was_free;
          allocated = refl;
          same_blocks = refl;
          more = more;
          back =
              reopened
              ∙ (ap (λ (f : ℕ → Bool). ok (record a { allocated = f; free_list = id ∷ rest }))
                    (clear-set a.allocated id was_free)
                  ∙ ap (λ (l : List ℕ). ok (record a { free_list = l })) (sym e));
        },
      )

  -- In a valid allocator, while not all blocks are allocated, `alloc` gives a block that was free: it is allocated now, no
  -- other block changes, and `free` of it gives back the state before.
  pub alloc-IsAllocator :
      used a < a.max_blocks → (t : Allocator) × (id : ℕ) × (alloc a ≡ ok (t, id)) × Taken a t id
  alloc-IsAllocator room = from_pool a.free_list refl
    where
      from_pool :
          (pool : List ℕ)
          → a.free_list ≡ pool
          → (t : Allocator) × (id : ℕ) × (alloc a ≡ ok (t, id)) × Taken a t id
      from_pool [] e = absurd (omega (arith, w.counted, ap length e))
      from_pool (id ∷ rest) e = let (t, q, r) = alloc-top id rest e in (t, id, q, r)

  -- In a valid allocator, `free` of an allocated block succeeds: it is free now, no other block
  -- changes, one block fewer is allocated, and the allocator stays valid.
  pub free-IsAllocator :
      (id : ℕ)
      → id < a.max_blocks
      → a.allocated id ≡ true
      → (t : Allocator) × (free a id ≡ ok t)
        × IsAllocator t
        × (t.allocated ≡ update a.allocated id false)
        × (t.max_blocks ≡ a.max_blocks)
        × (used t + 1 ≡ used a)
  unfolding free contains
  free-IsAllocator id lt busy =
      let inside : leb a.max_blocks id ≡ false = ground arith in
      let outside : contains id a.free_list ≡ false = ground (arith, w.free_or_allocated id lt) in
      let less = count_from-clear a.allocated 0 a.max_blocks id (omega arith) (omega arith) busy in
      (
        record a { allocated = update a.allocated id false; free_list = id ∷ a.free_list },
        rw inside (rw busy),
        record {
          distinct = (outside, w.distinct);
          in_range = λ i h. ground (arith, w.in_range i);
          free_or_allocated = λ i h. ground (arith, w.free_or_allocated i h);
          counted = omega (arith, less, w.counted);
        },
        refl,
        refl,
        less,
      )

  -- In a valid allocator, `alloc` fails exactly if all blocks are allocated.
  pub alloc-fault : (alloc a ≡ fault) ↔ (used a ≡ a.max_blocks)
  unfolding alloc
  alloc-fault = from_pool a.free_list refl
    where
      from_pool : (pool : List ℕ) → a.free_list ≡ pool → (alloc a ≡ fault) ↔ (used a ≡ a.max_blocks)
      from_pool [] e = ((λ _. omega (arith, w.counted, ap length e)), λ _. rw e)
      from_pool (id ∷ rest) e =
          let (t, q, r) = alloc-top id rest e in
          ((λ f. cc), λ u. absurd (omega (arith, w.counted, ap length e, u)))
