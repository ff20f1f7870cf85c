-- ===== src/Cache/Lru.antt =====
-- `LRUCache`, lru_cache.h and lru_cache.cpp, and what it inherits of `ICache` (icache.cpp), without
-- the trace and log files.
pub mod Recency
pub mod Eviction
pub mod Room
pub mod Insert
pub mod Batch
use ssd_waf.Base.{
  append-Distinct, contains-append, contains-remove_key, drop_first, drop_first-contains,
  length-remove_key, remove_key, remove_key-Distinct, ℕ, zero, suc, ◌+◌, ◌-◌, ◌*◌, ◌%◌, Bool, true,
  false, ◌&&◌, Option, none, some, List, [], ◌∷◌, ◌++◌, if◌then◌else◌, ◌==◌, ltb, leb, update,
  contains, length, Result, ok, fault, spin, ◌>>=◌,
}
use ssd_waf.Allocator
use ssd_waf.Device.{Device}
use ssd_waf.Cache.{Table, empty_table, exists, block_of, insert_entry, pop_oldest}

pub data OpType : Type 0 where
  read : OpType
  write : OpType
  trim : OpType

abbrev pub is_write : OpType → Bool
is_write write = true
is_write read = false
is_write trim = false

-- `EffectiveCapacity`; the second number is the floating-point `ceil(base * kCacheOpRatio)`.
unfoldable pub effective_capacity : ℕ → ℕ → ℕ
effective_capacity base ceil_op =
    if base == 0
    then 0
    else let op_blocks = if ceil_op == 0 then 1 else ceil_op in
      if ltb op_blocks base then base - op_blocks else 1

-- `touch`: the key moves to the back, with the block that it has.
unfoldable pub touch : Table → ℕ → Table
touch t key = elim (t.entry key) [
  | none ↦ t
  | some id ↦ record t {
    cache_list = remove_key key t.cache_list ++ (key ∷ []);
    entry = update t.entry key (some id);
  }
]

-- `cache_ftl` is the flash of the cache, `ftl` that of the cold store.
pub record LruCache (d : Device) : Type 0 where
  pub table : Table
  pub capacity : ℕ
  pub cache_block_size : ℕ
  pub cache_filled : Bool
  pub cache_ftl : d.State
  pub ftl : d.State
  pub write_size_to_cache : ℕ
  pub evicted_blocks : ℕ
  pub next_write_size_to_cache : ℕ

module _ (d : Device) where
  -- The constructor, for devices that were constructed. The size of the cache is a 64-bit product.
  unfoldable pub init : ℕ → ℕ → ℕ → d.State → d.State → Result (LruCache d)
  init capacity ceil_op cache_block_size cache_ftl ftl = do
    let c = effective_capacity capacity ceil_op
    a ← Allocator.init (c * cache_block_size % 0x10000000000000000) cache_block_size
    ok (record {
      table = empty_table a;
      capacity = c;
      cache_block_size = cache_block_size;
      cache_filled = false;
      cache_ftl = cache_ftl;
      ftl = ftl;
      write_size_to_cache = 0;
      evicted_blocks = 0;
      next_write_size_to_cache = 10 * 1024 * 1024 * 1024;
    })

  -- `ICache::_evict_one_block`: an evicted block is written to the cold store.
  unfoldable pub evict_to_cold : LruCache d → ℕ → ℕ → OpType → Result (LruCache d)
  evict_to_cold s lba_offset lba_size op_type = do
    t ← (if is_write op_type then d.write s.ftl lba_offset lba_size 0 else ok s.ftl)
    ok (record s {
      ftl = t;
      next_write_size_to_cache =
          if ltb s.next_write_size_to_cache s.write_size_to_cache
          then s.next_write_size_to_cache + 10 * 1024 * 1024 * 1024
          else s.next_write_size_to_cache;
    })

  unfoldable pub evict_one_block : LruCache d → Result (LruCache d)
  evict_one_block s = do
    (table, oldest, id) ← pop_oldest s.table
    c ← d.trim s.cache_ftl (id * s.cache_block_size) s.cache_block_size
    let t = record s { table = table; cache_ftl = c; cache_filled = true }
    evict_to_cold t (oldest * s.cache_block_size) s.cache_block_size write

  unfoldable pub make_room : ℕ → LruCache d → Result (LruCache d)
  make_room zero s = if leb s.capacity s.table.map_size then spin else ok s
  make_room (suc fuel) s = elim (leb s.capacity s.table.map_size) [
    | true ↦ evict_one_block s >>= λ t.
        make_room fuel (record t { evicted_blocks = t.evicted_blocks + 1 })
    | false ↦ ok s
  ]

  -- The part of a request that falls into a block is written to its place in the cache.
  unfoldable pub write_block : LruCache d → ℕ → ℕ → ℕ → OpType → Result (LruCache d)
  write_block s alloc_id lba_size stream_id op_type =
      if is_write op_type && ltb 0 lba_size
      then (d.write s.cache_ftl (alloc_id * s.cache_block_size) lba_size stream_id >>= λ c.
          ok (record s { cache_ftl = c }))
      else ok s

  unfoldable pub insert_block : ℕ → OpType → LruCache d → ℕ × ℕ → Result (LruCache d)
  insert_block stream_id op_type s (block, lba_size) = do
    t ←
        (if exists s.table block
          then write_block (record s { table = touch s.table block }) (block_of s.table block)
              lba_size stream_id op_type
          else do
            r ← make_room (s.table.map_size + 1) s
            (table, alloc_id) ← insert_entry r.table block
            write_block (record r { table = table }) alloc_id lba_size stream_id op_type)
    ok (record t { write_size_to_cache = t.write_size_to_cache + lba_size })

  unfoldable pub batch_insert : ℕ → OpType → LruCache d → List (ℕ × ℕ) → Result (LruCache d)
  batch_insert stream_id op_type s [] = ok s
  batch_insert stream_id op_type s (b ∷ bs) =
      insert_block stream_id op_type s b >>= λ t. batch_insert stream_id op_type t bs

-- The keys of a cache of `cap` keys, the least recently used first.
unfoldable pub lru_step : ℕ → List ℕ → ℕ → List ℕ
lru_step cap q k =
    if contains k q
    then remove_key k q ++ (k ∷ [])
    else (if leb cap (length q) then drop_first q else q) ++ (k ∷ [])

unfoldable pub lru_run : ℕ → List ℕ → List (ℕ × ℕ) → List ℕ
lru_run cap q [] = q
lru_run cap q ((k, _) ∷ bs) = lru_run cap (lru_step cap q k) bs
