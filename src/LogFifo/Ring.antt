-- ===== src/LogFifo/Ring.antt =====
-- `LogFIFOCache` keeps its ring and its map in agreement.
use native.Mathlib.Nat.{mod-lt}
use ssd_waf.Base.{
  ℕ, ◌+◌, ◌-◌, ◌*◌, ◌%◌, ◌≤◌, ◌<◌, ◌≡◌, sym, ap, refl, Bool, true, false, none, some, update, arith,
  count_from, count_from-set, count_from-clear, count_from-none, fun_ext,
}
use ssd_waf.Device.{Device}
use ssd_waf.LogFifo.{LogFifo, init, clear_entry, erase_key, append}

module _ (d : Device) (Ready : ℕ → d.State → Type 0) (unit_size limit quota : ℕ) where
  abbrev pub valid_at : LogFifo d → ℕ → Bool
  valid_at s p = (s.log_buffer p).valid

  -- The map leads each of its keys to the valid entry of the key, and every valid entry has its key
  -- in the map; each block of the cache has a place in the store, which has writes left for all.
  pub record IsRing (s : LogFifo d) : Type 0 where
    pub inside : s.write_ptr < s.capacity
    pub entry-inside : (k p : ℕ) → s.mapping k ≡ some p → p < s.capacity
    pub entry-valid : (k p : ℕ) → s.mapping k ≡ some p → valid_at s p ≡ true
    pub entry-key : (k p : ℕ) → s.mapping k ≡ some p → (s.log_buffer p).key ≡ k
    pub indexed : (p : ℕ) → valid_at s p ≡ true → s.mapping (s.log_buffer p).key ≡ some p
    pub sized : s.mapping_size ≡ count_from (valid_at s) 0 s.capacity
    pub ready : Ready s.evicted_blocks s.ftl
    pub within : s.evicted_blocks + s.mapping_size ≤ quota
    pub some_bytes : 0 < s.cache_block_size
    pub whole : s.cache_block_size % unit_size ≡ 0
    pub fits :
        (k p : ℕ) → s.mapping k ≡ some p → k * s.cache_block_size + s.cache_block_size ≤ limit

  pub init-IsRing :
      (ftl : d.State) (capacity block_size : ℕ)
      → Ready 0 ftl
      → 0 < block_size
      → block_size % unit_size ≡ 0
      → IsRing (init d ftl capacity block_size)
  unfolding init
  init-IsRing ftl capacity block_size r some_bytes whole = record {
    inside = ground arith;
    entry-inside = λ k p e. cc;
    entry-valid = λ k p e. cc;
    entry-key = λ k p e. cc;
    indexed = λ p v. cc;
    sized = sym (count_from-none _ 0 _ (λ j. refl));
    ready = r;
    within = omega arith;
    some_bytes = some_bytes;
    whole = whole;
    fits = λ k p e. cc;
  }

  module _ (s : LogFifo d) (w : IsRing s) where
    -- The entry of a key is given up.
    module _ (key pos : ℕ) (e : s.mapping key ≡ some pos) where
      abbrev pub without : LogFifo d
      without = record s {
        log_buffer = update s.log_buffer pos (record (s.log_buffer pos) { valid = false });
        mapping = update s.mapping key none;
        mapping_size = s.mapping_size - 1;
      }

      pub erase-ok : erase_key d (clear_entry d s pos) key ≡ without
      unfolding erase_key clear_entry
      erase-ok = rw (e, erase_key) refl

      cleared-bits : (j : ℕ) → valid_at without j ≡ update (valid_at s) pos false j
      cleared-bits j = ground arith

      pub fewer : s.mapping_size ≡ without.mapping_size + 1
      fewer =
          let c =
            count_from-clear (valid_at s) 0 s.capacity pos (omega arith)
              (omega (arith, w.entry-inside key pos e)) (w.entry-valid key pos e) in
          omega (arith, c, w.sized)

      pub without-IsRing : IsRing without
      without-IsRing = record {
        inside = w.inside;
        entry-inside = λ k p h. ground (arith, h, w.entry-inside k p);
        entry-valid = λ k p h.
            ground (arith, h, e, w.entry-valid k p, w.entry-key k p, w.entry-key key pos e);
        entry-key = λ k p h. ground (arith, h, w.entry-key k p);
        indexed = λ p v. ground (arith, v, w.indexed p, e);
        sized =
            let c =
              count_from-clear (valid_at s) 0 s.capacity pos (omega arith)
                (omega (arith, w.entry-inside key pos e)) (w.entry-valid key pos e) in
            let same : count_from (valid_at without) 0 s.capacity
                ≡ count_from (update (valid_at s) pos false) 0 s.capacity =
              ap (λ (f : ℕ → Bool). count_from f 0 s.capacity) (fun_ext cleared-bits) in
            omega (arith, c, w.sized, same);
        ready = w.ready;
        within = omega (arith, w.within, fewer);
        some_bytes = w.some_bytes;
        whole = w.whole;
        fits = λ k p h. ground (arith, h, w.fits k p);
      }

    -- A new block, whose place is free.
    module _ (key lba_size : ℕ) (free : valid_at s s.write_ptr ≡ false)
        (absent : s.mapping key ≡ none)
        (place : key * s.cache_block_size + s.cache_block_size ≤ limit)
        (left : s.evicted_blocks + s.mapping_size < quota) where
      set-bits :
          (j : ℕ) → valid_at (append d s key lba_size) j ≡ update (valid_at s) s.write_ptr true j
      unfolding append
      set-bits j = ground arith

      pub append-IsRing : IsRing (append d s key lba_size)
      unfolding append
      append-IsRing = record {
        inside = mod-lt (s.write_ptr + 1) (omega (arith, w.inside));
        entry-inside = λ k p h. ground (arith, h, w.entry-inside k p, w.inside);
        entry-valid = λ k p h. ground (arith, h, w.entry-valid k p);
        entry-key = λ k p h. ground (arith, h, w.entry-key k p, w.entry-valid k p, free);
        indexed = λ p v. ground (arith, v, w.indexed p, absent);
        sized =
            let c =
              count_from-set (valid_at s) 0 s.capacity s.write_ptr (omega arith)
                (omega (arith, w.inside)) free in
            let same : count_from (valid_at (append d s key lba_size)) 0 s.capacity
                ≡ count_from (update (valid_at s) s.write_ptr true) 0 s.capacity =
              ap (λ (f : ℕ → Bool). count_from f 0 s.capacity) (fun_ext set-bits) in
            ground (arith, c, w.sized, same, absent);
        ready = w.ready;
        within = ground (arith, left, absent);
        some_bytes = w.some_bytes;
        whole = w.whole;
        fits = λ k p h. ground (arith, h, w.fits k p, place);
      }
