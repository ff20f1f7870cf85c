-- ===== src/LogFifo.antt =====
-- `LogFIFOCache`, log_fifo_cache.h and log_fifo_cache.cpp: a ring of blocks over the cold store,
-- without the trace files.
mod Tests
pub mod Ring
pub mod Insert
pub mod Batch
use ssd_waf.Base.{
  ℕ, zero, suc, ◌+◌, ◌-◌, ◌*◌, ◌/◌, ◌%◌, Bool, true, false, not, ◌&&◌, Option, none, some, List, [],
  ◌∷◌, if◌then◌else◌, ◌==◌, ltb, leb, update, Result, ok, ◌>>=◌,
}
use ssd_waf.Device.{Device}
use ssd_waf.FairyWren.Cache.{ten_gb}

pub record LogEntry : Type 0 where
  pub key : ℕ
  pub valid : Bool

-- `capacity` is the size of `log_buffer`. The members after `ftl` are `ICache`'s.
pub record LogFifo (d : Device) : Type 0 where
  pub cache_block_size : ℕ
  pub capacity : ℕ
  pub log_buffer : ℕ → LogEntry
  pub write_ptr : ℕ
  pub mapping : ℕ → Option ℕ
  pub mapping_size : ℕ
  pub old_write_ptr : ℕ
  pub ftl : d.State
  pub write_size_to_cache : ℕ
  pub evicted_blocks : ℕ
  pub next_write_size_to_cache : ℕ

abbrev pub evicted_block_size : ℕ
evicted_block_size = 1

module _ (d : Device) where
  unfoldable pub init : d.State → ℕ → ℕ → LogFifo d
  init ftl capacity cache_block_size = record {
    cache_block_size = cache_block_size;
    capacity = if capacity == 0 then 1 else capacity;
    log_buffer = λ _. record { key = 0; valid = false };
    write_ptr = 0;
    mapping = λ _. none;
    mapping_size = 0;
    old_write_ptr = 0;
    ftl = ftl;
    write_size_to_cache = 0;
    evicted_blocks = 0;
    next_write_size_to_cache = ten_gb;
  }

  -- `ICache::_evict_one_block` for a write of the block of a key.
  unfoldable pub write_back : LogFifo d → ℕ → Result (LogFifo d)
  write_back s key = do
    t ← d.write s.ftl (key * s.cache_block_size) s.cache_block_size 0
    ok (record s {
      ftl = t;
      next_write_size_to_cache =
          if ltb s.next_write_size_to_cache s.write_size_to_cache
          then s.next_write_size_to_cache + ten_gb
          else s.next_write_size_to_cache;
    })

  -- The entry at a place is not valid any more.
  unfoldable pub clear_entry : LogFifo d → ℕ → LogFifo d
  clear_entry s pos = record s {
    log_buffer = update s.log_buffer pos (record (s.log_buffer pos) { valid = false });
  }

  -- `mapping.erase`.
  unfoldable pub erase_key : LogFifo d → ℕ → LogFifo d
  erase_key s key = elim (s.mapping key) [
    | none ↦ s
    | some _ ↦ record s { mapping = update s.mapping key none; mapping_size = s.mapping_size - 1 }
  ]

  -- Another block of the range, if it was written before this batch.
  unfoldable pub evict_neighbour : LogFifo d → ℕ → Result (LogFifo d)
  evict_neighbour s key = elim (s.mapping key) [
    | none ↦ ok s
    | some pos ↦
        let diff_b = (s.old_write_ptr + s.capacity - pos) % s.capacity in
        let diff_c = (s.write_ptr + s.capacity - pos) % s.capacity in
        if not (diff_b == 0) && not (diff_c == 0) && leb diff_b diff_c
        then (do t ← write_back s key; ok (erase_key (clear_entry t pos) key))
        else ok s
  ]

  -- The loop over the blocks of the range of an evicted block: `k` of them are left.
  unfoldable pub evict_range : ℕ → LogFifo d → ℕ → ℕ → Result (LogFifo d)
  evict_range zero s old_key index = ok s
  evict_range (suc k) s old_key index =
      (if index == old_key then ok s else evict_neighbour s index) >>= λ t.
      evict_range k t old_key (index + 1)

  unfoldable pub leads_here : LogFifo d → ℕ → Bool
  leads_here s key = elim (s.mapping key) [ none ↦ false | some pos ↦ pos == s.write_ptr ]

  unfoldable pub evict_one_block : LogFifo d → Result (LogFifo d)
  evict_one_block s = do
    let old_key = (s.log_buffer s.write_ptr).key
    let t = if leads_here s old_key then erase_key s old_key else s
    u ← write_back (clear_entry t t.write_ptr) old_key
    evict_range evicted_block_size u old_key (old_key / evicted_block_size * evicted_block_size)

  -- The older version of a block is given up.
  unfoldable pub forget : LogFifo d → ℕ → ℕ → Result (LogFifo d)
  forget s key lba_size = elim (s.mapping key) [
    | none ↦ d.trim s.ftl (key * s.cache_block_size) lba_size >>= λ t. ok (record s { ftl = t })
    | some pos ↦ ok (erase_key (clear_entry s pos) key)
  ]

  unfoldable pub make_room : LogFifo d → Result (LogFifo d)
  make_room s =
      if (s.log_buffer s.write_ptr).valid
      then (do
        t ← evict_one_block s
        ok (record t { evicted_blocks = t.evicted_blocks + evicted_block_size }))
      else ok s

  unfoldable pub append : LogFifo d → ℕ → ℕ → LogFifo d
  append s key lba_size = record s {
    log_buffer = update s.log_buffer s.write_ptr (record { key = key; valid = true });
    mapping = update s.mapping key (some s.write_ptr);
    mapping_size = elim (s.mapping key) [ none ↦ s.mapping_size + 1 | some _ ↦ s.mapping_size ];
    write_ptr = (s.write_ptr + 1) % s.capacity;
    write_size_to_cache = s.write_size_to_cache + lba_size;
  }

  unfoldable pub insert_block : LogFifo d → ℕ → ℕ → Result (LogFifo d)
  insert_block s key lba_size = do
    t ← forget s key lba_size
    u ← make_room t
    ok (append u key lba_size)

  unfoldable pub insert_blocks : LogFifo d → List (ℕ × ℕ) → Result (LogFifo d)
  insert_blocks s [] = ok s
  insert_blocks s ((key, lba_size) ∷ bs) = insert_block s key lba_size >>= λ t. insert_blocks t bs

  abbrev pub batch_insert : LogFifo d → List (ℕ × ℕ) → Result (LogFifo d)
  batch_insert s bs = insert_blocks (record s { old_write_ptr = s.write_ptr }) bs
