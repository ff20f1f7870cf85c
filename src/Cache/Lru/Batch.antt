-- ===== src/Cache/Lru/Batch.antt =====
-- `batch_insert` of the LRU cache over devices that accept a number of writes, against a list ordered by use.
use ssd_waf.Base.{
  ◌/◌, ℕ, ◌+◌, ◌*◌, ◌%◌, ◌≤◌, ◌<◌, ◌≡◌, ◌∙◌, refl, sym, ap, subst, false, arith, List, [], ◌∷◌,
  contains, length, suc, ok,
}
use ssd_waf.Device.{Device, Accepts}
use native.Mathlib.Nat.{mul-div_cancel, mod-eq_of_lt, mul-le-mul_left}
use ssd_waf.Allocator
use ssd_waf.Allocator.Stack.{init-IsAllocator}
use ssd_waf.Cache.{empty_table}
use ssd_waf.Cache.Keys.{empty-IsTable}
use ssd_waf.Cache.Fifo.{total_size}
use ssd_waf.Cache.Lru.{init, effective_capacity, OpType, LruCache, batch_insert, lru_step, lru_run}
use ssd_waf.Cache.Lru.Eviction.{IsCache, Inserted}
use ssd_waf.Cache.Lru.Insert.{Step-trans, insert_block-Inserted}

-- The requests fit: each block lies in the cold store, and its part of the request in the block.
unfoldable pub AllFit : ℕ → ℕ → ℕ → List (ℕ × ℕ) → Type 0
AllFit unit_size block_size cold_limit [] = Unit
AllFit unit_size block_size cold_limit ((k, n) ∷ bs) =
    (k * block_size + block_size ≤ cold_limit)
    × (n ≤ block_size)
    × (n % unit_size ≡ 0)
    × AllFit unit_size block_size cold_limit bs

module _ (d : Device) (Ready : ℕ → d.State → Type 0) (unit_size cache_limit cold_limit quota : ℕ)
    (on_cache : Accepts d Ready unit_size cache_limit quota)
    (on_cold : Accepts d Ready unit_size cold_limit quota) where
  abbrev Ok : ℕ → LruCache d → Type 0
  Ok n s = IsCache d Ready unit_size cache_limit cold_limit quota n n s

  abbrev To : ℕ → LruCache d → LruCache d → List ℕ → ℕ → Type 0
  To used s t q n = Inserted d Ready unit_size cache_limit cold_limit quota used used s t q n

  -- On a well-formed cache over devices that accept a number of writes of whole units below their
  -- limits, a batch of no more blocks than are left of that number, which lie in the cold store and
  -- whose sizes are whole units of at most a block, ends without a failing assertion, whatever the
  -- operation: the cache is well formed, its keys from the least recently used on are those of a
  -- list of its capacity ordered by use, the bytes of all blocks are counted, and of the number of
  -- each device one write is used up for each block.
  pub batch_insert-lru :
      (bs : List (ℕ × ℕ)) (st : ℕ) (op : OpType) (s : LruCache d) (used : ℕ)
      → Ok used s
      → used + length bs ≤ quota
      → AllFit unit_size s.cache_block_size cold_limit bs
      → (t : LruCache d) × (batch_insert d st op s bs ≡ ok t)
        × To (used + length bs) s t (lru_run s.capacity s.table.cache_list bs) (total_size bs)
  unfolding batch_insert AllFit lru_run total_size
  batch_insert-lru [] st op s used w left fits = (
    s,
    refl,
    record {
      cache = subst (λ (n : ℕ). Ok n s) (omega arith) w;
      queue = refl;
      same_capacity = refl;
      same_blocks = refl;
      size = omega arith;
    },
  )
  batch_insert-lru ((k, n) ∷ bs) st op s used w left (fits, small, aligned, rest) =
      let (t, q, f) =
        insert_block-Inserted d Ready unit_size cache_limit cold_limit quota on_cache on_cold used
          used st op s k n (omega (arith, left)) (omega (arith, left)) w fits small aligned in
      let (u, r, g) =
        batch_insert-lru bs st op t (used + 1) f.cache (omega (arith, left))
          (subst (λ (b : ℕ). AllFit unit_size b cold_limit bs) (sym f.same_blocks) rest) in
      let sum : used + 1 + length bs ≡ used + suc (length bs) = omega arith in
      let queue : lru_run t.capacity t.table.cache_list bs
          ≡ lru_run s.capacity (lru_step s.capacity s.table.cache_list k) bs =
        rw (f.same_capacity, f.queue) in
      (
        u,
        rw q r,
        Step-trans d Ready unit_size cache_limit cold_limit quota on_cache on_cold (used + 1)
            (used + 1) _ _ s t u (lru_step s.capacity s.table.cache_list k) _ n (total_size bs) f
            (subst (λ (l : List ℕ). To (used + suc (length bs)) t u l (total_size bs)) queue
              (subst
                (λ (m : ℕ). To m t u (lru_run t.capacity t.table.cache_list bs) (total_size bs)) sum
                g)),
      )

  -- With a positive capacity left after over-provisioning, a positive block size of whole units
  -- whose product with it is below 2^64, and devices that are ready and a cache device that is
  -- large enough, the constructor gives a well-formed cache without keys.
  pub init-lru :
      (capacity ceil_op block_size : ℕ) (c f : d.State)
      → 0 < effective_capacity capacity ceil_op
      → effective_capacity capacity ceil_op * block_size < 0x10000000000000000
      → 0 < block_size
      → block_size % unit_size ≡ 0
      → effective_capacity capacity ceil_op * block_size ≤ cache_limit
      → Ready 0 c
      → Ready 0 f
      → (s : LruCache d) × (init d capacity ceil_op block_size c f ≡ ok s)
        × Ok 0 s
        × (s.table.cache_list ≡ [])
        × (s.capacity ≡ effective_capacity capacity ceil_op)
  unfolding init contains
  init-lru capacity ceil_op size c f pos small size_pos whole fits rc rf =
      let cap = effective_capacity capacity ceil_op in
      let blocks : cap * size / size ≡ cap = mul-div_cancel cap size_pos in
      let no_overflow : cap * size % 0x10000000000000000 ≡ cap * size = mod-eq_of_lt small in
      let fewer : cap ≤ cap * size = grind (arith, mul-le-mul_left cap size_pos) in
      let (a, q, v, n, none_used) =
        init-IsAllocator (cap * size) size size_pos (omega (arith, blocks))
          (omega (arith, blocks, fewer)) in
      let e : Allocator.init (cap * size % 0x10000000000000000) size ≡ ok a =
        ap (λ (bytes : ℕ). Allocator.init bytes size) no_overflow ∙ q in
      let same : a.max_blocks ≡ cap = n ∙ blocks in
      (
        record {
          table = empty_table a;
          capacity = cap;
          cache_block_size = size;
          cache_filled = false;
          cache_ftl = c;
          ftl = f;
          write_size_to_cache = 0;
          evicted_blocks = 0;
          next_write_size_to_cache = 10 * 1024 * 1024 * 1024;
        },
        rw e,
        record {
          table = empty-IsTable a v none_used;
          some_capacity = pos;
          backed = omega (arith, same);
          bounded = omega arith;
          some_bytes = size_pos;
          whole = whole;
          cache_fits = subst (λ (m : ℕ). m * size ≤ cache_limit) (sym same) fits;
          cold_fits = λ k h. absurd (ground arith);
          cache_ready = rc;
          cold_ready = rf;
        },
        refl,
        refl,
      )
