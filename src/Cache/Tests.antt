-- ===== src/Cache/Tests.antt =====
-- Runs of the FIFO and the LRU cache with room for two blocks of 8 bytes, over the
-- translation layer.
use ssd_waf.Base.{
  remove_key, ℕ, ◌*◌, ◌≡◌, refl, arith, false, none, List, [], ◌∷◌, contains, Result, ok, fault,
  spin, thrown, ◌>>=◌, sym, subst, ◌∙◌,
}
use ssd_waf.Allocator
use ssd_waf.Device.{Accepts}
use ssd_waf.Device.Examples.{flash_runs, flash, Ready, flash-Accepts, fresh, fresh-Ready}
use ssd_waf.Cache.{exists, block_of, insert_entry, pop_oldest}
use ssd_waf.Cache.Fifo
use ssd_waf.Cache.Fifo.{FifoCache, fifo_run, fifo_step, fifo_misses, total_size}
use ssd_waf.Cache.Fifo.Queue.{Inserted, init-IsCache, batch_insert-Inserted}
use ssd_waf.Cache.Lru
use ssd_waf.Cache.Lru.{
  LruCache, OpType, read, write, trim, lru_run, lru_step, touch, effective_capacity,
}
use ssd_waf.Cache.Lru.Eviction
use ssd_waf.Cache.Lru.Batch.{AllFit, batch_insert-lru, init-lru}

program : Unit {0}
unfolding flash_runs contains exists block_of insert_entry pop_oldest Allocator.init
    Allocator.push_down Allocator.alloc Allocator.free Fifo.init Fifo.evict_one_block Fifo.make_room
    Fifo.insert_block Fifo.batch_insert fifo_run fifo_step fifo_misses total_size Lru.init
    Lru.evict_to_cold Lru.evict_one_block Lru.make_room Lru.write_block Lru.insert_block
    Lru.batch_insert lru_run lru_step remove_key touch effective_capacity
program = tt

-- The keys 5, 6, 5, 7 with 8, 4, 8 and 2 bytes.
abbrev batch : List (ℕ × ℕ)
batch = (5, 8) ∷ (6, 4) ∷ (5, 8) ∷ (7, 2) ∷ []

fifo_keys : Result FifoCache → List ℕ
fifo_keys (ok s) = s.table.cache_list
fifo_keys fault = []
fifo_keys thrown = []
fifo_keys spin = []

-- The second request of key 5 does not save it.
fifo-batch : fifo_keys (Fifo.init 2 8 false >>= λ s. Fifo.batch_insert s batch) ≡ 6 ∷ 7 ∷ []
unfolding program fifo_keys
fifo-batch = refl

abbrev fifo_empty : FifoCache
fifo_empty = record {
  table = record {
    cache_list = [];
    entry = λ _. none;
    map_size = 0;
    allocator = record {
      block_size = 8;
      total_size = 16;
      max_blocks = 2;
      allocated = λ _. false;
      free_list = 0 ∷ 1 ∷ [];
    };
  };
  capacity = 2;
  cache_filled = false;
  write_size_to_cache = 0;
  evicted_blocks = 0;
}

init-IsCache_example :
    (s : FifoCache) × (Fifo.init 2 8 false ≡ ok s)
    × Fifo.IsCache s
    × (s.table.cache_list ≡ [])
    × (s.capacity ≡ 2)
init-IsCache_example = init-IsCache 2 8 false (omega arith) (omega arith) (omega arith)

IsCache-ok :
    {A : Type 0} (P : A → Type 0) (r : Result A) (a b : A) → r ≡ ok a → r ≡ ok b → P a → P b
IsCache-ok P r a b q e w = subst P (inner (sym q ∙ e)) w
  where
    inner : ok a ≡ ok b → a ≡ b
    inner h = cc

fifo_empty-IsCache : Fifo.IsCache fifo_empty
unfolding program
fifo_empty-IsCache =
    let (s, q, w, l, c) = init-IsCache 2 8 false (omega arith) (omega arith) (omega arith) in
    IsCache-ok Fifo.IsCache (Fifo.init 2 8 false) s fifo_empty q refl w

batch_insert-Inserted_example :
    (t : FifoCache) × (Fifo.batch_insert fifo_empty batch ≡ ok t) × Inserted fifo_empty batch t
batch_insert-Inserted_example = batch_insert-Inserted batch fifo_empty fifo_empty-IsCache

on_cache : Accepts flash Ready 2 16 20
on_cache = flash-Accepts 2 16 refl (omega arith)

on_cold : Accepts flash Ready 2 64 20
on_cold = flash-Accepts 2 64 refl (omega arith)

lru_keys : Result (LruCache flash) → List ℕ
lru_keys (ok s) = s.table.cache_list
lru_keys fault = []
lru_keys thrown = []
lru_keys spin = []

-- The second request of key 5 saves it; one of three blocks is kept for over-provisioning.
lru-batch :
    lru_keys (Lru.init flash 3 1 8 fresh fresh >>= λ s. Lru.batch_insert flash 0 write s batch)
    ≡ 5 ∷ 7 ∷ []
unfolding program lru_keys
lru-batch = refl

abbrev lru_empty : LruCache flash
lru_empty = record {
  table = fifo_empty.table;
  capacity = 2;
  cache_block_size = 8;
  cache_filled = false;
  cache_ftl = fresh;
  ftl = fresh;
  write_size_to_cache = 0;
  evicted_blocks = 0;
  next_write_size_to_cache = 10 * 1024 * 1024 * 1024;
}

init-lru_example :
    (s : LruCache flash) × (Lru.init flash 3 1 8 fresh fresh ≡ ok s)
    × Eviction.IsCache flash Ready 2 16 64 20 0 0 s
    × (s.table.cache_list ≡ [])
    × (s.capacity ≡ 2)
unfolding program
init-lru_example =
    init-lru flash Ready 2 16 64 20 on_cache on_cold 3 1 8 fresh fresh (omega arith) (omega arith)
      (omega arith) refl (omega arith) fresh-Ready fresh-Ready

lru_empty-IsCache : Eviction.IsCache flash Ready 2 16 64 20 0 0 lru_empty
unfolding program
lru_empty-IsCache =
    let (s, q, w, l, c) =
      init-lru flash Ready 2 16 64 20 on_cache on_cold 3 1 8 fresh fresh (omega arith) (omega arith)
        (omega arith) refl (omega arith) fresh-Ready fresh-Ready in
    IsCache-ok (Eviction.IsCache flash Ready 2 16 64 20 0 0) (Lru.init flash 3 1 8 fresh fresh) s
      lru_empty q refl w

batch_insert-lru_example :
    (t : LruCache flash) × (Lru.batch_insert flash 0 write lru_empty batch ≡ ok t)
    × Eviction.Inserted flash Ready 2 16 64 20 4 4 lru_empty t (5 ∷ 7 ∷ []) 22
unfolding program AllFit
batch_insert-lru_example =
    batch_insert-lru flash Ready 2 16 64 20 on_cache on_cold batch 0 write lru_empty 0
      lru_empty-IsCache (omega arith)
      (
        omega arith,
        omega arith,
        refl,
        (
          omega arith,
          omega arith,
          refl,
          (omega arith, omega arith, refl, (omega arith, omega arith, refl, tt)),
        ),
      )
