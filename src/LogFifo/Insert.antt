-- ===== src/LogFifo/Insert.antt =====
-- `batch_insert` of `LogFIFOCache`: each block takes the place at the write pointer.
use ssd_waf.Base.{
  ℕ, ◌+◌, ◌-◌, ◌*◌, ◌/◌, ◌%◌, ◌≤◌, ◌<◌, ◌≡◌, ◌∙◌, sym, ap, refl, inl, inr, Bool, true, false,
  Option, none, some, if◌then◌else◌, ◌==◌, update, arith, ltb, Bool-cases, ok,
}
use ssd_waf.Device.{Device, Accepts, multiple}
use ssd_waf.LogFifo.{
  LogFifo, write_back, clear_entry, erase_key, evict_range, leads_here, evict_one_block, forget,
  make_room,
}
use ssd_waf.FairyWren.Cache.{ten_gb}
use ssd_waf.LogFifo.Ring.{IsRing, without, erase-ok, fewer, without-IsRing}

-- Does the entry lead to this place?
abbrev pub points : Option ℕ → ℕ → Bool
points none p = false
points (some q) p = p == q

abbrev pub mapped : Option ℕ → ℕ
mapped none = 0
mapped (some p) = 1

-- The loop over a range of one block does nothing.
evict_range_self :
    (d : Device) (s : LogFifo d) (key : ℕ) → evict_range d 1 s key (key / 1 * 1) ≡ ok s
unfolding evict_range
evict_range_self d s key = let self : (key / 1 * 1 == key) ≡ true = ground arith in rw self refl

module _ (d : Device) (Ready : ℕ → d.State → Type 0) (unit_size limit quota : ℕ) where
  -- A step that leaves the ring where it is.
  pub record Stays (s t : LogFifo d) : Type 0 where
    pub ring : IsRing d Ready unit_size limit quota t
    pub same_ptr : t.write_ptr ≡ s.write_ptr
    pub same_capacity : t.capacity ≡ s.capacity
    pub same_bytes : t.cache_block_size ≡ s.cache_block_size
    pub same_written : t.write_size_to_cache ≡ s.write_size_to_cache

  -- The block of a key has taken the place at the write pointer: whatever stood there has left the
  -- cache and is counted as evicted, unless it was the key's own, and no other entry has changed.
  pub record Placed (s t : LogFifo d) (key lba_size : ℕ) : Type 0 where
    pub ring : IsRing d Ready unit_size limit quota t
    pub next : t.write_ptr ≡ (s.write_ptr + 1) % s.capacity
    pub same_capacity : t.capacity ≡ s.capacity
    pub same_bytes : t.cache_block_size ≡ s.cache_block_size
    pub written : t.write_size_to_cache ≡ s.write_size_to_cache + lba_size
    pub entries :
        (k : ℕ)
        → t.mapping k ≡ (
            if key == k
            then some s.write_ptr
            else if points (s.mapping k) s.write_ptr
            then none
            else s.mapping k)
    pub conserved :
        t.evicted_blocks + t.mapping_size + mapped (s.mapping key)
        ≡ s.evicted_blocks + s.mapping_size + 1

  module _ (a : Accepts d Ready unit_size limit quota) where
    pub forget-Stays :
        (s : LogFifo d) (key lba_size : ℕ)
        → IsRing d Ready unit_size limit quota s
        → key * s.cache_block_size + lba_size ≤ limit
        → lba_size % unit_size ≡ 0
        → (t : LogFifo d) × (forget d s key lba_size ≡ ok t)
          × Stays s t
          × ((k : ℕ) → t.mapping k ≡ (if key == k then none else s.mapping k))
          × (t.evicted_blocks ≡ s.evicted_blocks)
          × (t.mapping_size + mapped (s.mapping key) ≡ s.mapping_size)
    unfolding forget
    forget-Stays s key lba_size w inside whole = from_entry (s.mapping key) refl
      where
        from_entry :
            (o : Option ℕ)
            → s.mapping key ≡ o
            → (t : LogFifo d) × (forget d s key lba_size ≡ ok t)
              × Stays s t
              × ((k : ℕ) → t.mapping k ≡ (if key == k then none else s.mapping k))
              × (t.evicted_blocks ≡ s.evicted_blocks)
              × (t.mapping_size + mapped (s.mapping key) ≡ s.mapping_size)
        from_entry none e =
            let (ftl, q, r) =
              a.trim-Ready s.ftl (key * s.cache_block_size) lba_size s.evicted_blocks w.ready
                (multiple unit_size key s.cache_block_size w.whole) whole inside in
            (
              record s { ftl = ftl },
              rw (e, forget) (rw q refl),
              record {
                ring = record {
                  inside = w.inside;
                  entry-inside = w.entry-inside;
                  entry-valid = w.entry-valid;
                  entry-key = w.entry-key;
                  indexed = w.indexed;
                  sized = w.sized;
                  ready = r;
                  within = w.within;
                  some_bytes = w.some_bytes;
                  whole = w.whole;
                  fits = w.fits;
                };
                same_ptr = refl;
                same_capacity = refl;
                same_bytes = refl;
                same_written = refl;
              },
              λ k. ground (arith, e),
              refl,
              ground (arith, e),
            )
        from_entry (some pos) e = (
          without d Ready unit_size limit quota s w key pos e,
          rw (e, forget)
              (ap (λ (t : LogFifo d). ok t) (erase-ok d Ready unit_size limit quota s w key pos e)),
          record {
            ring = without-IsRing d Ready unit_size limit quota s w key pos e;
            same_ptr = refl;
            same_capacity = refl;
            same_bytes = refl;
            same_written = refl;
          },
          λ k. refl,
          refl,
          ground (arith, e, fewer d Ready unit_size limit quota s w key pos e),
        )

    -- An evicted block is written back.
    module _ (s : LogFifo d) (w : IsRing d Ready unit_size limit quota s)
        (taken : (s.log_buffer s.write_ptr).valid ≡ true) where
      abbrev old_key : ℕ
      old_key = (s.log_buffer s.write_ptr).key

      here : s.mapping old_key ≡ some s.write_ptr
      here = w.indexed s.write_ptr taken

      abbrev left : LogFifo d
      left = without d Ready unit_size limit quota s w old_key s.write_ptr here

      abbrev erased : LogFifo d
      erased = record s {
        mapping = update s.mapping old_key none;
        mapping_size = s.mapping_size - 1;
      }

      erase-erased : erase_key d s old_key ≡ erased
      unfolding erase_key
      erase-erased = rw (here, erase_key) refl

      leads : leads_here d s old_key ≡ true
      unfolding leads_here
      leads = rw (here, leads_here) (ground arith)

      abbrev stored : d.State → LogFifo d
      stored ftl = record left {
        ftl = ftl;
        next_write_size_to_cache =
            if ltb s.next_write_size_to_cache s.write_size_to_cache
            then s.next_write_size_to_cache + ten_gb
            else s.next_write_size_to_cache;
      }

      -- The eviction is counted by the caller.
      abbrev counted : LogFifo d → LogFifo d
      counted t = record t { evicted_blocks = t.evicted_blocks + 1 }

      evict-Stays :
          (t : LogFifo d) × (evict_one_block d s ≡ ok t)
          × Stays s (counted t)
          × ((k : ℕ)
              → t.mapping k ≡ (if points (s.mapping k) s.write_ptr then none else s.mapping k))
          × ((t.log_buffer t.write_ptr).valid ≡ false)
          × (t.evicted_blocks ≡ s.evicted_blocks)
          × (t.mapping_size + 1 ≡ s.mapping_size)
      unfolding evict_one_block write_back clear_entry
      evict-Stays =
          let less = fewer d Ready unit_size limit quota s w old_key s.write_ptr here in
          let left_over : s.evicted_blocks < quota = omega (arith, w.within, less) in
          let v = without-IsRing d Ready unit_size limit quota s w old_key s.write_ptr here in
          let (ftl, q, r) =
            a.write-Ready s.ftl (old_key * s.cache_block_size) s.cache_block_size 0 s.evicted_blocks
              w.ready left_over (multiple unit_size old_key s.cache_block_size w.whole) w.whole
              w.some_bytes (w.fits old_key s.write_ptr here) in
          (
            stored ftl,
            rw leads (rw erase-erased (rw q (evict_range_self d (stored ftl) old_key))),
            record {
              ring = record {
                inside = v.inside;
                entry-inside = v.entry-inside;
                entry-valid = v.entry-valid;
                entry-key = v.entry-key;
                indexed = v.indexed;
                sized = v.sized;
                ready = r;
                within = omega (arith, w.within, less);
                some_bytes = v.some_bytes;
                whole = v.whole;
                fits = v.fits;
              };
              same_ptr = refl;
              same_capacity = refl;
              same_bytes = refl;
              same_written = refl;
            },
            λ k. elim (Bool-cases (old_key == k)) [
              | inl same ↦
                  let e : old_key ≡ k = ground (arith, same) in
                  let there : s.mapping k ≡ some s.write_ptr = ap s.mapping (sym e) ∙ here in
                  ground (arith, same, there)
              | inr other ↦ other_entry k (s.mapping k) refl other
            ],
            ground arith,
            refl,
            sym (fewer d Ready unit_size limit quota s w old_key s.write_ptr here),
          )
        where
          other_entry :
              (k : ℕ) (o : Option ℕ)
              → s.mapping k ≡ o
              → (old_key == k) ≡ false
              → update s.mapping old_key none k
                ≡ (if points (s.mapping k) s.write_ptr then none else s.mapping k)
          other_entry k none e ne = ground (arith, e, ne)
          other_entry k (some p) e ne =
              let key = w.entry-key k p e in
              let apart : (p == s.write_ptr) ≡ false = elim (Bool-cases (p == s.write_ptr)) [
                | inl same ↦
                    let at : p ≡ s.write_ptr = ground (arith, same) in
                    let one : old_key ≡ k = ap (λ (i : ℕ). (s.log_buffer i).key) (sym at) ∙ key in
                    absurd (ground (arith, one, ne))
                | inr other ↦ other
              ] in
              ground (arith, e, ne, apart)

    pub make_room-Stays :
        (s : LogFifo d)
        → IsRing d Ready unit_size limit quota s
        → (t : LogFifo d) × (make_room d s ≡ ok t)
          × Stays s t
          × ((k : ℕ)
              → t.mapping k ≡ (if points (s.mapping k) s.write_ptr then none else s.mapping k))
          × ((t.log_buffer t.write_ptr).valid ≡ false)
          × (t.evicted_blocks + t.mapping_size ≡ s.evicted_blocks + s.mapping_size)
    unfolding make_room
    make_room-Stays s w = elim (Bool-cases (s.log_buffer s.write_ptr).valid) [
      | inl taken ↦
          let (t, e, x, m, v, same, n) = evict-Stays s w taken in
          (
            record t { evicted_blocks = t.evicted_blocks + 1 },
            rw taken (rw e refl),
            x,
            m,
            v,
            omega (arith, same, n),
          )
      | inr vacant ↦ (
        s,
        rw vacant refl,
        record {
          ring = w;
          same_ptr = refl;
          same_capacity = refl;
          same_bytes = refl;
          same_written = refl;
        },
        λ k. not_here k (s.mapping k) refl vacant,
        vacant,
        refl,
      )
    ]
      where
        not_here :
            (k : ℕ) (o : Option ℕ)
            → s.mapping k ≡ o
            → (s.log_buffer s.write_ptr).valid ≡ false
            → s.mapping k ≡ (if points (s.mapping k) s.write_ptr then none else s.mapping k)
        not_here k none e f = ground (arith, e)
        not_here k (some p) e f =
            let v = w.entry-valid k p e in
            let apart : (p == s.write_ptr) ≡ false = elim (Bool-cases (p == s.write_ptr)) [
              | inl same ↦
                  let at : p ≡ s.write_ptr = ground (arith, same) in
                  absurd (ground (arith, sym v ∙ ap (λ (i : ℕ). (s.log_buffer i).valid) at ∙ f))
              | inr other ↦ other
            ] in
            ground (arith, e, apart)
