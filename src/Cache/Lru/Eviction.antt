-- ===== src/Cache/Lru/Eviction.antt =====
-- Eviction and the write of a block in the LRU cache, over devices that accept a number of writes.
use native.Mathlib.Nat.{mul-le-mul_right}
use ssd_waf.Base.{
  ℕ, ◌+◌, ◌*◌, ◌%◌, ◌≤◌, ◌<◌, ◌≡◌, inl, inr, refl, sym, ap, subst, true, ◌||◌, ◌&&◌, arith, List,
  ◌∷◌, length, if◌then◌else◌, ◌==◌, ltb, contains, ok, Bool-cases,
}
use ssd_waf.Device.{Device, Accepts, multiple}
use ssd_waf.Cache.Keys.{IsTable, pop_oldest-IsTable}
use ssd_waf.Cache.Lru.{OpType, is_write, LruCache, evict_to_cold, evict_one_block, write_block}

inside : (a n b : ℕ) → a < n → a * b + b ≤ n * b
inside a n b h = grind (arith, mul-le-mul_right b h)

module _ (d : Device) (Ready : ℕ → d.State → Type 0)
    (unit_size cache_limit cold_limit quota : ℕ) where
  pub record IsCache (c f : ℕ) (s : LruCache d) : Type 0 where
    pub table : IsTable s.table
    pub some_capacity : 0 < s.capacity
    pub backed : s.capacity ≤ s.table.allocator.max_blocks
    pub bounded : length s.table.cache_list ≤ s.capacity
    pub some_bytes : 0 < s.cache_block_size
    pub whole : s.cache_block_size % unit_size ≡ 0
    pub cache_fits : s.table.allocator.max_blocks * s.cache_block_size ≤ cache_limit
    pub cold_fits :
        (k : ℕ)
        → contains k s.table.cache_list ≡ true
        → k * s.cache_block_size + s.cache_block_size ≤ cold_limit
    pub cache_ready : Ready c s.cache_ftl
    pub cold_ready : Ready f s.ftl

  -- A step of a batch: the rest of the cache is as before.
  pub record Inserted (c f : ℕ) (s t : LruCache d) (q : List ℕ) (n : ℕ) : Type 0 where
    pub cache : IsCache c f t
    pub queue : t.table.cache_list ≡ q
    pub same_capacity : t.capacity ≡ s.capacity
    pub same_blocks : t.cache_block_size ≡ s.cache_block_size
    pub size : t.write_size_to_cache ≡ s.write_size_to_cache + n

  module _ (on_cache : Accepts d Ready unit_size cache_limit quota)
      (on_cold : Accepts d Ready unit_size cold_limit quota) where
    -- A write that was not made is counted.
    skip-IsCache : (c f : ℕ) (s : LruCache d) → IsCache c f s → IsCache (c + 1) f s
    skip-IsCache c f s w = record {
      table = w.table;
      some_capacity = w.some_capacity;
      backed = w.backed;
      bounded = w.bounded;
      some_bytes = w.some_bytes;
      whole = w.whole;
      cache_fits = w.cache_fits;
      cold_fits = w.cold_fits;
      cache_ready = on_cache.skip-Ready s.cache_ftl c w.cache_ready;
      cold_ready = w.cold_ready;
    }

    pub skip_cold-IsCache : (c f : ℕ) (s : LruCache d) → IsCache c f s → IsCache c (f + 1) s
    skip_cold-IsCache c f s w = record {
      table = w.table;
      some_capacity = w.some_capacity;
      backed = w.backed;
      bounded = w.bounded;
      some_bytes = w.some_bytes;
      whole = w.whole;
      cache_fits = w.cache_fits;
      cold_fits = w.cold_fits;
      cache_ready = w.cache_ready;
      cold_ready = on_cold.skip-Ready s.ftl f w.cold_ready;
    }

    pub evict_one_block-Inserted :
        (c f : ℕ) (s : LruCache d) (oldest : ℕ) (rest : List ℕ)
        → f < quota
        → IsCache c f s
        → s.table.cache_list ≡ oldest ∷ rest
        → (t : LruCache d) × (evict_one_block d s ≡ ok t)
          × Inserted c (f + 1) s t rest 0
          × (t.table.map_size + 1 ≡ s.table.map_size)
    unfolding evict_one_block evict_to_cold contains
    evict_one_block-Inserted c f s oldest rest lt_quota w e =
        let (u, id, q, x, l, blocks, lt) = pop_oldest-IsTable s.table w.table oldest rest e in
        let (c', qc, rc) =
          on_cache.trim-Ready s.cache_ftl (id * s.cache_block_size) s.cache_block_size c
            w.cache_ready (multiple unit_size id s.cache_block_size w.whole) w.whole
            (omega (
              arith,
              inside id s.table.allocator.max_blocks s.cache_block_size lt,
              w.cache_fits,
            )) in
        let kept : (k : ℕ) → contains k s.table.cache_list ≡ (k == oldest || contains k rest) =
          λ k. rw e refl in
        let (f', qf, rf) =
          on_cold.write-Ready s.ftl (oldest * s.cache_block_size) s.cache_block_size 0 f
            w.cold_ready lt_quota (multiple unit_size oldest s.cache_block_size w.whole) w.whole
            w.some_bytes (w.cold_fits oldest (ground (arith, kept oldest))) in
        let t : LruCache d = record s {
          table = u;
          cache_ftl = c';
          cache_filled = true;
          ftl = f';
          next_write_size_to_cache =
              if ltb s.next_write_size_to_cache s.write_size_to_cache
              then s.next_write_size_to_cache + 10 * 1024 * 1024 * 1024
              else s.next_write_size_to_cache;
        } in
        (
          t,
          rw q (rw qc (rw qf)),
          record {
            cache = record {
              table = x;
              some_capacity = w.some_capacity;
              backed = omega (arith, w.backed, blocks);
              bounded = omega (arith, w.bounded, ap length l, ap length e);
              some_bytes = w.some_bytes;
              whole = w.whole;
              cache_fits =
                  subst (λ (n : ℕ). n * s.cache_block_size ≤ cache_limit) (sym blocks) w.cache_fits;
              cold_fits = λ k h. w.cold_fits k (ground (arith, kept k, ap (contains k) l));
              cache_ready = rc;
              cold_ready = rf;
            };
            queue = l;
            same_capacity = refl;
            same_blocks = refl;
            size = omega arith;
          },
          omega (arith, x.sized, w.table.sized, ap length l, ap length e),
        )

    pub write_block-Inserted :
        (c f : ℕ) (s : LruCache d) (id n st : ℕ) (op : OpType)
        → c < quota
        → IsCache c f s
        → id < s.table.allocator.max_blocks
        → n ≤ s.cache_block_size
        → n % unit_size ≡ 0
        → (t : LruCache d) × (write_block d s id n st op ≡ ok t)
          × Inserted (c + 1) f s t s.table.cache_list 0
    unfolding write_block
    write_block-Inserted c f s id n st op lt_quota w lt small aligned =
        elim (Bool-cases (is_write op && ltb 0 n)) [
          | inl h ↦
              let (c', q, r) =
                on_cache.write-Ready s.cache_ftl (id * s.cache_block_size) n st c w.cache_ready
                  lt_quota (multiple unit_size id s.cache_block_size w.whole) aligned (ground arith)
                  (omega (
                    arith,
                    inside id s.table.allocator.max_blocks s.cache_block_size lt,
                    w.cache_fits,
                  )) in
              (
                record s { cache_ftl = c' },
                rw h (rw q),
                record {
                  cache = record {
                    table = w.table;
                    some_capacity = w.some_capacity;
                    backed = w.backed;
                    bounded = w.bounded;
                    some_bytes = w.some_bytes;
                    whole = w.whole;
                    cache_fits = w.cache_fits;
                    cold_fits = w.cold_fits;
                    cache_ready = r;
                    cold_ready = w.cold_ready;
                  };
                  queue = refl;
                  same_capacity = refl;
                  same_blocks = refl;
                  size = omega arith;
                },
              )
          | inr h ↦ (
            s,
            rw h,
            record {
              cache = skip-IsCache c f s w;
              queue = refl;
              same_capacity = refl;
              same_blocks = refl;
              size = omega arith;
            },
          )
        ]
