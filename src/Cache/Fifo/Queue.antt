-- ===== src/Cache/Fifo/Queue.antt =====
-- `batch_insert` of the FIFO cache against a queue of keys.
use ssd_waf.Base.{
  drop_first, drop_first-contains, ℕ, suc, ◌+◌, ◌*◌, ◌/◌, ◌%◌, ◌≤◌, ◌<◌, ◌≡◌, ◌∙◌, inl, inr, refl,
  sym, ap, subst, Bool, true, false, arith, List, [], ◌∷◌, ◌++◌, length, length-append,
  if◌then◌else◌, leb, contains, ok, Bool-cases,
}
use native.Mathlib.Nat.{mul-div_cancel, mod-eq_of_lt, mul-le-mul_left}
use ssd_waf.Allocator
use ssd_waf.Allocator.Stack.{init-IsAllocator}
use ssd_waf.Cache.{empty_table, exists}
use ssd_waf.Cache.Keys.{empty-IsTable, insert_entry-IsTable}
use ssd_waf.Cache.Fifo.{
  FifoCache, init, insert_block, batch_insert, IsCache, fifo_step, fifo_run, fifo_misses,
  total_size, make_room-Roomy,
}

-- What a batch does to the cache.
pub record Inserted (s : FifoCache) (bs : List (ℕ × ℕ)) (t : FifoCache) : Type 0 where
  pub cache : IsCache t
  pub queue : t.table.cache_list ≡ fifo_run s.capacity s.table.cache_list bs
  pub same_capacity : t.capacity ≡ s.capacity
  pub size : t.write_size_to_cache ≡ s.write_size_to_cache + total_size bs
  pub evicted :
      t.evicted_blocks + length t.table.cache_list
      ≡ s.evicted_blocks + length s.table.cache_list + fifo_misses s.capacity s.table.cache_list bs

insert_block-hit :
    (s : FifoCache) (k n : ℕ)
    → IsCache s
    → exists s.table k ≡ true
    → (t : FifoCache) × (insert_block s (k, n) ≡ ok t) × Inserted s ((k, n) ∷ []) t
unfolding insert_block fifo_run fifo_step fifo_misses total_size
insert_block-hit s k n w h =
    let here : contains k s.table.cache_list ≡ true = w.table.listed k ∙ h in
    (
      record s { write_size_to_cache = s.write_size_to_cache + n },
      rw h,
      record {
        cache = record {
          table = w.table;
          some_capacity = w.some_capacity;
          backed = w.backed;
          bounded = w.bounded;
        };
        queue = rw here;
        same_capacity = refl;
        size = omega arith;
        evicted = rw here (omega arith);
      },
    )

insert_block-miss :
    (s : FifoCache) (k n : ℕ)
    → IsCache s
    → exists s.table k ≡ false
    → (t : FifoCache) × (insert_block s (k, n) ≡ ok t) × Inserted s ((k, n) ∷ []) t
unfolding insert_block fifo_run fifo_step fifo_misses total_size
insert_block-miss s k n w h =
    let away : contains k s.table.cache_list ≡ false = w.table.listed k ∙ h in
    let (r, q, v) = make_room-Roomy s.table.map_size s w in
    let size : s.table.map_size + 1 ≡ suc s.table.map_size = omega arith in
    let kept : contains k (
          if leb s.capacity (length s.table.cache_list)
          then drop_first s.table.cache_list
          else s.table.cache_list)
        ≡ false =
      ground (arith, away, drop_first-contains s.table.cache_list k) in
    let new : exists r.table k ≡ false =
      sym (v.cache.table.listed k)
      ∙ subst (λ (l : List ℕ). contains k l ≡ false) (sym v.queue) kept in
    let (u, id, e, x, l, blocks, _) =
      insert_entry-IsTable r.table v.cache.table k new (omega (arith, v.room, v.cache.backed)) in
    (
      record r { table = u; write_size_to_cache = r.write_size_to_cache + n },
      rw h (rw size (rw q (rw e))),
      record {
        cache = record {
          table = x;
          some_capacity = v.cache.some_capacity;
          backed = omega (arith, v.cache.backed, blocks);
          bounded = omega (arith, v.room, ap length l, length-append r.table.cache_list (k ∷ []));
        };
        queue = rw away (l ∙ ap (λ (q : List ℕ). q ++ (k ∷ [])) v.queue);
        same_capacity = v.same_capacity;
        size = omega (arith, v.same_size);
        evicted =
            rw away
              (omega (arith, v.evicted, ap length l, length-append r.table.cache_list (k ∷ [])));
      },
    )

pub insert_block-Inserted :
    (s : FifoCache) (b : ℕ × ℕ)
    → IsCache s
    → (t : FifoCache) × (insert_block s b ≡ ok t) × Inserted s (b ∷ []) t
insert_block-Inserted s (k, n) w = elim (Bool-cases (exists s.table k)) [
  | inl h ↦ insert_block-hit s k n w h
  | inr h ↦ insert_block-miss s k n w h
]

Inserted-cons :
    (s t u : FifoCache) (b : ℕ × ℕ) (bs : List (ℕ × ℕ))
    → Inserted s (b ∷ []) t
    → Inserted t bs u
    → Inserted s (b ∷ bs) u
unfolding fifo_run fifo_misses total_size
Inserted-cons s t u (k, n) bs f g = record {
  cache = g.cache;
  queue = g.queue ∙ rw (f.same_capacity, f.queue);
  same_capacity = g.same_capacity ∙ f.same_capacity;
  size = omega (arith, f.size, g.size);
  evicted =
      let misses : fifo_misses t.capacity t.table.cache_list bs
          ≡ fifo_misses s.capacity (fifo_step s.capacity s.table.cache_list k) bs =
        rw (f.same_capacity, f.queue) in
      omega (arith, f.evicted, g.evicted, misses);
}

-- On a well-formed cache every batch ends without a failing assertion, and the cache's keys, from
-- the oldest on, are those of a first-in first-out queue of its capacity: a hit changes nothing, a
-- miss drops the first key of a full queue and appends the new key. The bytes of all blocks are
-- counted, and each miss adds a key or an eviction.
pub batch_insert-Inserted :
    (bs : List (ℕ × ℕ)) (s : FifoCache)
    → IsCache s
    → (t : FifoCache) × (batch_insert s bs ≡ ok t) × Inserted s bs t
unfolding batch_insert fifo_run fifo_misses total_size
batch_insert-Inserted [] s w = (
  s,
  refl,
  record {
    cache = w;
    queue = refl;
    same_capacity = refl;
    size = omega arith;
    evicted = omega arith;
  },
)
batch_insert-Inserted (b ∷ bs) s w =
    let (t, q, f) = insert_block-Inserted s b w in
    let (u, r, g) = batch_insert-Inserted bs t f.cache in (u, rw q r, Inserted-cons s t u b bs f g)

-- With a positive capacity and a positive block size whose product is below 2^63, where the signed
-- 64-bit product does not overflow, the constructor gives a well-formed cache without keys.
pub init-IsCache :
    (capacity cache_block_size : ℕ) (filled : Bool)
    → 0 < capacity
    → 0 < cache_block_size
    → capacity * cache_block_size < 0x8000000000000000
    → (s : FifoCache) × (init capacity cache_block_size filled ≡ ok s)
      × IsCache s
      × (s.table.cache_list ≡ [])
      × (s.capacity ≡ capacity)
unfolding init exists contains
init-IsCache cap size filled pos size_pos small =
    let blocks : cap * size / size ≡ cap = mul-div_cancel cap size_pos in
    let no_overflow : cap * size % 0x10000000000000000 ≡ cap * size = mod-eq_of_lt (omega arith) in
    let fewer : cap ≤ cap * size = grind (arith, mul-le-mul_left cap size_pos) in
    let (a, q, v, n, none_used) =
      init-IsAllocator (cap * size) size size_pos (omega (arith, blocks))
        (omega (arith, blocks, fewer)) in
    let e : Allocator.init (cap * size % 0x10000000000000000) size ≡ ok a =
      ap (λ (bytes : ℕ). Allocator.init bytes size) no_overflow ∙ q in
    (
      record {
        table = empty_table a;
        capacity = cap;
        cache_filled = filled;
        write_size_to_cache = 0;
        evicted_blocks = 0;
      },
      rw e,
      record {
        table = empty-IsTable a v none_used;
        some_capacity = pos;
        backed = omega (arith, n, blocks);
        bounded = omega arith;
      },
      refl,
      refl,
    )
