-- ===== src/Cache.antt =====
-- What the FIFO and the LRU cache share (fifo_cache.cpp, lru_cache.cpp): the list of keys, the map
-- from keys to blocks, and the allocator of the blocks.
pub mod Keys
pub mod Fifo
pub mod Lru
mod Tests
use ssd_waf.Base.{
  ℕ, ◌+◌, ◌-◌, Bool, true, false, Option, none, some, List, [], ◌∷◌, ◌++◌, if◌then◌else◌, update,
  Result, ok, fault, ◌>>=◌,
}
use ssd_waf.Allocator.{Allocator, alloc, free}

-- `cacheList`, its front first; `cacheMap` as a function to `allocated_id`, and its size. The other
-- half of an entry, the iterator, is the key's place in the list.
pub record Table : Type 0 where
  pub cache_list : List ℕ
  pub entry : ℕ → Option ℕ
  pub map_size : ℕ
  pub allocator : Allocator

-- No key, and all blocks of the allocator.
abbrev pub empty_table : Allocator → Table
empty_table a = record { cache_list = []; entry = λ _. none; map_size = 0; allocator = a }

unfoldable pub exists : Table → ℕ → Bool
exists t key = elim (t.entry key) [ none ↦ false | some _ ↦ true ]

-- A new key goes to the back of the list, with a new block.
unfoldable pub insert_entry : Table → ℕ → Result (Table × ℕ)
insert_entry t key = do
  (a, alloc_id) ← alloc t.allocator
  ok (
    record {
      cache_list = t.cache_list ++ (key ∷ []);
      entry = update t.entry key (some alloc_id);
      map_size = if exists t key then t.map_size else t.map_size + 1;
      allocator = a;
    },
    alloc_id,
  )

-- `cacheMap[key].allocated_id`, which makes an entry with block 0 where there is none.
unfoldable pub block_of : Table → ℕ → ℕ
block_of t key = elim (t.entry key) [ none ↦ 0 | some id ↦ id ]

-- The key at the front leaves, and its block is freed. `front` of an empty list is undefined.
unfoldable pub pop_oldest : Table → Result (Table × ℕ × ℕ)
pop_oldest t = elim t.cache_list [
  | [] ↦ fault
  | oldest ∷ rest ↦ do
    a ← free t.allocator (block_of t oldest)
    ok (
      record {
        cache_list = rest;
        entry = update t.entry oldest none;
        map_size = if exists t oldest then t.map_size - 1 else t.map_size;
        allocator = a;
      },
      oldest,
      block_of t oldest,
    )
]
