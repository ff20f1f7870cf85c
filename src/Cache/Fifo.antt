-- ===== src/Cache/Fifo.antt =====
-- `FIFOCache`, fifo_cache.h and fifo_cache.cpp, without the trace file.
pub mod Queue
use ssd_waf.Base.{
  append-Distinct, contains-append, contains-remove_key, drop_first, drop_first-contains,
  length-remove_key, remove_key, remove_key-Distinct, ℕ, zero, suc, ◌+◌, ◌-◌, ◌*◌, ◌%◌, ◌≤◌, ◌<◌,
  ◌≡◌, ◌∙◌, inl, inr, refl, sym, ap, subst, Bool, true, false, not, Option, none, some, arith, List,
  [], ◌∷◌, ◌++◌, length, length-append, map, if◌then◌else◌, ltb, leb, lt→ltb, contains, Result, ok,
  fault, spin, ◌>>=◌, Bool-cases,
}
use ssd_waf.Allocator
use ssd_waf.Cache.{Table, empty_table, exists, insert_entry, pop_oldest}
use ssd_waf.Cache.Keys.{IsTable, insert_entry-IsTable, pop_oldest-IsTable}

-- `cacheMap`, `cacheList` and the allocator are the table; the counters are `ICache`'s.
pub record FifoCache : Type 0 where
  pub table : Table
  pub capacity : ℕ
  pub cache_filled : Bool
  pub write_size_to_cache : ℕ
  pub evicted_blocks : ℕ

-- The constructor does not set `cache_filled`: its value is an argument. The size of the cache is a
-- 64-bit product.
unfoldable pub init : ℕ → ℕ → Bool → Result FifoCache
init capacity cache_block_size filled = do
  a ← Allocator.init (capacity * cache_block_size % 0x10000000000000000) cache_block_size
  ok (record {
    table = empty_table a;
    capacity = capacity;
    cache_filled = filled;
    write_size_to_cache = 0;
    evicted_blocks = 0;
  })

unfoldable pub evict_one_block : FifoCache → Result FifoCache
evict_one_block s = do
  (t, _, _) ← pop_oldest s.table
  ok (record s { table = t; cache_filled = true })

-- The loop in `batch_insert` that makes room for a block.
unfoldable pub make_room : ℕ → FifoCache → Result FifoCache
make_room zero s = if leb s.capacity s.table.map_size then spin else ok s
make_room (suc fuel) s = elim (leb s.capacity s.table.map_size) [
  | true ↦
      evict_one_block s >>= λ t. make_room fuel (record t { evicted_blocks = t.evicted_blocks + 1 })
  | false ↦ ok s
]

-- A round of the loop over the new blocks, each with the size of its part of the request. `touch`
-- does nothing.
unfoldable pub insert_block : FifoCache → ℕ × ℕ → Result FifoCache
insert_block s (block, lba_size) = do
  t ←
      (if exists s.table block then ok s else do
        r ← make_room (s.table.map_size + 1) s
        (table, _) ← insert_entry r.table block
        ok (record r { table = table }))
  ok (record t { write_size_to_cache = t.write_size_to_cache + lba_size })

unfoldable pub batch_insert : FifoCache → List (ℕ × ℕ) → Result FifoCache
batch_insert s [] = ok s
batch_insert s (b ∷ bs) = insert_block s b >>= λ t. batch_insert t bs

-- The cache keeps to its capacity, for which the allocator has blocks.
pub record IsCache (s : FifoCache) : Type 0 where
  pub table : IsTable s.table
  pub some_capacity : 0 < s.capacity
  pub backed : s.capacity ≤ s.table.allocator.max_blocks
  pub bounded : length s.table.cache_list ≤ s.capacity

-- A first-in first-out queue of at most `cap` keys.
unfoldable pub fifo_step : ℕ → List ℕ → ℕ → List ℕ
fifo_step cap q k =
    if contains k q then q else (if leb cap (length q) then drop_first q else q) ++ (k ∷ [])

unfoldable pub fifo_run : ℕ → List ℕ → List (ℕ × ℕ) → List ℕ
fifo_run cap q [] = q
fifo_run cap q ((k, _) ∷ bs) = fifo_run cap (fifo_step cap q k) bs

-- The misses of a batch, each at its turn.
unfoldable pub fifo_misses : ℕ → List ℕ → List (ℕ × ℕ) → ℕ
fifo_misses cap q [] = 0
fifo_misses cap q ((k, _) ∷ bs) =
    (if contains k q then 0 else 1) + fifo_misses cap (fifo_step cap q k) bs

unfoldable pub total_size : List (ℕ × ℕ) → ℕ
total_size [] = 0
total_size ((_, n) ∷ bs) = n + total_size bs

-- There is room for a block: the queue lost its first key if it was full.
record Roomy (s t : FifoCache) : Type 0 where
  cache : IsCache t
  room : length t.table.cache_list < t.capacity
  queue : t.table.cache_list ≡ (
      if leb s.capacity (length s.table.cache_list)
      then drop_first s.table.cache_list
      else s.table.cache_list)
  same_capacity : t.capacity ≡ s.capacity
  same_size : t.write_size_to_cache ≡ s.write_size_to_cache
  evicted :
      t.evicted_blocks + length t.table.cache_list ≡ s.evicted_blocks + length s.table.cache_list

not_full :
    (fuel : ℕ) (s : FifoCache) → leb s.capacity s.table.map_size ≡ false → make_room fuel s ≡ ok s
unfolding make_room
not_full zero s h = rw h
not_full (suc fuel) s h = rw (h, make_room)

make_room-full :
    (fuel : ℕ) (s : FifoCache) (oldest : ℕ) (rest : List ℕ)
    → IsCache s
    → s.table.cache_list ≡ oldest ∷ rest
    → s.capacity ≤ length s.table.cache_list
    → (t : FifoCache) × (make_room (suc fuel) s ≡ ok t) × Roomy s t
unfolding make_room evict_one_block
make_room-full fuel s oldest rest w e full =
    let (u, id, q, x, l, blocks, _) = pop_oldest-IsTable s.table w.table oldest rest e in
    let filled : leb s.capacity s.table.map_size ≡ true = ground (arith, w.table.sized) in
    let filled' : leb s.capacity (length s.table.cache_list) ≡ true = ground arith in
    let t : FifoCache = record s {
      table = u;
      cache_filled = true;
      evicted_blocks = s.evicted_blocks + 1;
    } in
    let size : length u.cache_list + 1 ≡ length s.table.cache_list =
      omega (arith, ap length l, ap length e) in
    let vacant : leb s.capacity u.map_size ≡ false = ground (arith, x.sized, w.bounded) in
    (
      t,
      rw (filled, make_room) (rw q (not_full fuel t vacant)),
      record {
        cache = record {
          table = x;
          some_capacity = w.some_capacity;
          backed = omega (arith, w.backed, blocks);
          bounded = omega (arith, w.bounded);
        };
        room = omega (arith, w.bounded);
        queue = rw (filled', e) l;
        same_capacity = refl;
        same_size = refl;
        evicted = omega arith;
      },
    )

make_room-Roomy :
    (fuel : ℕ) (s : FifoCache)
    → IsCache s
    → (t : FifoCache) × (make_room (suc fuel) s ≡ ok t) × Roomy s t
make_room-Roomy fuel s w = elim (Bool-cases (leb s.capacity (length s.table.cache_list))) [
  | inl full ↦ from_list s.table.cache_list refl (ground arith)
  | inr vacant ↦ (
    s,
    not_full (suc fuel) s (ground (arith, w.table.sized)),
    record {
      cache = w;
      room = ground arith;
      queue = rw vacant;
      same_capacity = refl;
      same_size = refl;
      evicted = refl;
    },
  )
]
  where
    from_list :
        (l : List ℕ)
        → s.table.cache_list ≡ l
        → s.capacity ≤ length s.table.cache_list
        → (t : FifoCache) × (make_room (suc fuel) s ≡ ok t) × Roomy s t
    from_list [] e full = absurd (omega (arith, w.some_capacity, ap length e))
    from_list (oldest ∷ rest) e full = make_room-full fuel s oldest rest w e full
