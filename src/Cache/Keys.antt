-- ===== src/Cache/Keys.antt =====
-- The list, the map and the allocator of a cache agree.
use ssd_waf.Base.{
  append-Distinct, contains-append, ℕ, ◌+◌, ◌-◌, ◌<◌, ◌≡◌, ◌≢◌, ◌∙◌, inl, inr, refl, sym, ap, subst,
  Bool, true, false, ◌||◌, none, some, arith, List, [], ◌∷◌, ◌++◌, length, length-append,
  if◌then◌else◌, ◌==◌, update, contains, Distinct, count_from-none, ok, Option-cases,
}
use native.Mathlib.Decide.{ℕ_discrete}
use ssd_waf.Allocator.{Allocator, alloc, free, used, Taken}
use ssd_waf.Allocator.Stack.{alloc-IsAllocator, free-IsAllocator}
use ssd_waf.Allocator
use ssd_waf.Cache.{Table, empty_table, exists, block_of, insert_entry, pop_oldest}

pub record IsTable (t : Table) : Type 0 where
  pub distinct : Distinct t.cache_list
  pub listed : (k : ℕ) → contains k t.cache_list ≡ exists t k
  pub sized : t.map_size ≡ length t.cache_list
  pub held :
      (k i : ℕ)
      → t.entry k ≡ some i
      → (i < t.allocator.max_blocks) × (t.allocator.allocated i ≡ true)
  -- No two keys share a block.
  pub apart : (k k' i : ℕ) → t.entry k ≡ some i → t.entry k' ≡ some i → k ≡ k'
  pub allocator_valid : Allocator.IsAllocator t.allocator
  pub used_blocks : used t.allocator ≡ length t.cache_list

pub empty-IsTable :
    (a : Allocator)
    → Allocator.IsAllocator a
    → ((i : ℕ) → a.allocated i ≡ false)
    → IsTable (empty_table a)
unfolding exists contains
empty-IsTable a w h = record {
  distinct = tt;
  listed = λ k. refl;
  sized = refl;
  held = λ k i e. absurd (ground arith);
  apart = λ k k' i e e'. cc;
  allocator_valid = w;
  used_blocks = count_from-none a.allocated 0 a.max_blocks h;
}

-- A key that exists has a block, which `block_of` gives.
pub entry-exists :
    (t : Table) (k : ℕ) → exists t k ≡ true → (id : ℕ) × (t.entry k ≡ some id) × (block_of t k ≡ id)
unfolding exists block_of
entry-exists t k h = elim (Option-cases (t.entry k)) [
  | inl e ↦ absurd (ground arith)
  | inr (id, e) ↦ (id, e, rw (e, block_of))
]

pop_oldest-eq :
    (t : Table) (oldest : ℕ) (rest : List ℕ) (id : ℕ) (a : Allocator)
    → t.cache_list ≡ oldest ∷ rest
    → block_of t oldest ≡ id
    → free t.allocator id ≡ ok a
    → pop_oldest t
      ≡ ok (
        record {
          cache_list = rest;
          entry = update t.entry oldest none;
          map_size = if exists t oldest then t.map_size - 1 else t.map_size;
          allocator = a;
        },
        oldest,
        id,
      )
unfolding pop_oldest exists
pop_oldest-eq t oldest rest id a e same q = rw (e, pop_oldest) (rw same (rw q))

module _ (t : Table) (w : IsTable t) where
  pub insert_entry-IsTable :
      (key : ℕ)
      → exists t key ≡ false
      → length t.cache_list < t.allocator.max_blocks
      → (u : Table) × (id : ℕ) × (insert_entry t key ≡ ok (u, id))
        × IsTable u
        × (u.cache_list ≡ t.cache_list ++ (key ∷ []))
        × (u.allocator.max_blocks ≡ t.allocator.max_blocks)
        × (id < t.allocator.max_blocks)
  unfolding insert_entry exists contains
  insert_entry-IsTable key new room =
      let (a, id, q, v) =
        alloc-IsAllocator t.allocator w.allocator_valid (omega (arith, w.used_blocks)) in
      let marks : (j : ℕ) → a.allocated j ≡ update t.allocator.allocated id true j =
        λ j. ap (λ (f : ℕ → Bool). f j) v.allocated in
      let taken : (k : ℕ) → t.entry k ≢ some id =
        λ k e. ground (arith, w.held k id e, v.was_free) in
      let u : Table = record {
        cache_list = t.cache_list ++ (key ∷ []);
        entry = update t.entry key (some id);
        map_size = if exists t key then t.map_size else t.map_size + 1;
        allocator = a;
      } in
      (
        u,
        id,
        rw (q, insert_entry),
        record {
          distinct = append-Distinct t.cache_list key w.distinct (w.listed key ∙ new);
          listed = λ k. ground (arith, w.listed k, contains-append t.cache_list (key ∷ []) k);
          sized = ground (arith, w.sized, length-append t.cache_list (key ∷ []));
          held = λ k i e. elim (ℕ_discrete key k) [
            | yes same ↦ (ground (arith, v.in_range, v.same_blocks), ground (arith, marks i))
            | no other ↦
                let old = w.held k i (ground arith) in
                (ground (arith, old.0, v.same_blocks), ground (arith, old.1, marks i))
          ];
          apart = λ k k' i e e'. ground (arith, taken k, taken k', w.apart k k' i);
          allocator_valid = v.valid;
          used_blocks = omega (arith, v.more, w.used_blocks, length-append t.cache_list (key ∷ []));
        },
        refl,
        v.same_blocks,
        v.in_range,
      )

  pub pop_oldest-IsTable :
      (oldest : ℕ) (rest : List ℕ)
      → t.cache_list ≡ oldest ∷ rest
      → (u : Table) × (id : ℕ) × (pop_oldest t ≡ ok (u, oldest, id))
        × IsTable u
        × (u.cache_list ≡ rest)
        × (u.allocator.max_blocks ≡ t.allocator.max_blocks)
        × (id < t.allocator.max_blocks)
  unfolding pop_oldest exists contains
  pop_oldest-IsTable oldest rest e =
      let here : exists t oldest ≡ true = sym (w.listed oldest) ∙ rw e (ground arith) in
      let (id, at, same) = entry-exists t oldest here in
      let (lt, busy) = w.held oldest id at in
      let (a, q, v, freed, blocks, less) =
        free-IsAllocator t.allocator w.allocator_valid id lt busy in
      let d : Distinct (oldest ∷ rest) = subst Distinct e w.distinct in
      let listed : (k : ℕ) → (k == oldest || contains k rest) ≡ exists t k =
        λ k. subst (λ (l : List ℕ). contains k l ≡ exists t k) e (w.listed k) in
      let cleared : (j : ℕ) → a.allocated j ≡ update t.allocator.allocated id false j =
        λ j. ap (λ (f : ℕ → Bool). f j) freed in
      let u : Table = record {
        cache_list = rest;
        entry = update t.entry oldest none;
        map_size = if exists t oldest then t.map_size - 1 else t.map_size;
        allocator = a;
      } in
      (
        u,
        id,
        pop_oldest-eq t oldest rest id a e same q,
        record {
          distinct = d.1;
          listed = λ k. ground (arith, listed k, d.0);
          sized = ground (arith, here, w.sized, ap length e);
          held = λ k i h.
              let old = w.held k i (ground arith) in
              let other : id ≢ i = λ s. ground (arith, w.apart k oldest i) in
              (ground (arith, old.0, blocks), ground (arith, old.1, cleared i));
          apart = λ k k' i h h'. ground (arith, w.apart k k' i);
          allocator_valid = v;
          used_blocks = omega (arith, less, w.used_blocks, ap length e);
        },
        refl,
        blocks,
        lt,
      )
