-- ===== src/FairyWren/Invalidate.antt =====
-- `invalidate` of `FairyWrenCache`: the old place of a block that the host writes is given up.
use ssd_waf.Base.{
  ℕ, ◌+◌, ◌*◌, ◌%◌, ◌≤◌, ◌≡◌, refl, Bool, true, false, Option, none, some, if◌then◌else◌, ◌==◌, ltb,
  arith, ok,
}
use ssd_waf.Device.{Device, Accepts, multiple}
use ssd_waf.FairyWren.Log.{Loc, Log}
use ssd_waf.FairyWren.Index.{live-written}
use ssd_waf.FairyWren.Places.{is_some}
use ssd_waf.FairyWren.Invariant.{Inv, home_of}
use ssd_waf.FairyWren.Cache.{FairyWren, invalidate}
use ssd_waf.FairyWren.Blocks.{current-ok, forgotten, forget-ok, forget-erase, forget-Inv}
use ssd_waf.FairyWren.Safe.{Stored}

abbrev pub no_flight : ℕ → Bool
no_flight _ = false

abbrev pub is_mapped : Log → ℕ → Bool
is_mapped l key = is_some (l.mapping key)

module _ (d : Device) (Ready : ℕ → d.State → Type 0) (unit_size limit quota : ℕ) where
  -- Between the calls no segment is in flight.
  pub record IsCache (s : FairyWren d) : Type 0 where
    pub inv : Inv no_flight s.log
    pub stored : Stored d Ready unit_size limit quota s

  -- The host's block has a place in the cold store, and the request is of whole units.
  abbrev pub Fits : ℕ → ℕ × ℕ → Type 0
  Fits block_size (key, lba_sz) =
      (key * block_size + block_size ≤ limit)
      × (key * block_size + lba_sz ≤ limit)
      × (lba_sz % unit_size ≡ 0)

  -- The old place of a block is given up.
  pub record Invalidated (s t : FairyWren d) (key : ℕ) : Type 0 where
    pub cache : IsCache t
    pub absent : t.log.mapping key ≡ none
    pub others : (k : ℕ) → (key == k) ≡ false → t.log.mapping k ≡ s.log.mapping k
    pub smaller : t.log.mapping_size + (if is_mapped s.log key then 1 else 0) ≡ s.log.mapping_size
    pub same_evicted : t.evicted_blocks ≡ s.evicted_blocks
    pub same_bytes : t.cache_block_size ≡ s.cache_block_size
    pub same_time : t.log_cache_timestamp ≡ s.log_cache_timestamp
    pub same_written : t.write_size_to_cache ≡ s.write_size_to_cache
    pub same_regions : t.log.regions ≡ s.log.regions
    pub same_ptr : (j : ℕ) → (t.log.segments j).write_ptr ≡ (s.log.segments j).write_ptr
    pub same_size : t.log.segment_size_blocks ≡ s.log.segment_size_blocks
    pub same_total : t.log.total_segments ≡ s.log.total_segments

  module _ (a : Accepts d Ready unit_size limit quota) where
    pub invalidate-Invalidated :
        (s : FairyWren d) (key lba_sz : ℕ)
        → IsCache s
        → Fits s.cache_block_size (key, lba_sz)
        → (t : FairyWren d) × (invalidate d s key lba_sz ≡ ok t) × Invalidated s t key
    unfolding invalidate
    invalidate-Invalidated s key lba_sz w (place, inside, whole) =
        from_mapping (s.log.mapping key) refl
      where
        from_mapping :
            (o : Option Loc)
            → s.log.mapping key ≡ o
            → (t : FairyWren d) × (invalidate d s key lba_sz ≡ ok t) × Invalidated s t key
        from_mapping none e =
            let (ftl, q, r) =
              a.trim-Ready s.ftl (key * s.cache_block_size) lba_sz s.evicted_blocks w.stored.ready
                (multiple unit_size key s.cache_block_size w.stored.whole) whole inside in
            (
              record s { ftl = ftl },
              rw (e, invalidate) (rw q refl),
              record {
                cache = record {
                  inv = w.inv;
                  stored = record {
                    ready = r;
                    within = w.stored.within;
                    some_bytes = w.stored.some_bytes;
                    whole = w.stored.whole;
                    fits = w.stored.fits;
                  };
                };
                absent = e;
                others = λ k ne. refl;
                smaller = ground (arith, e);
                same_evicted = refl;
                same_bytes = refl;
                same_time = refl;
                same_written = refl;
                same_regions = refl;
                same_ptr = λ j. refl;
                same_size = refl;
                same_total = refl;
              },
            )
        from_mapping (some loc) e =
            let b = w.inv.index.entry-below key loc.seg loc.idx e in
            let v = w.inv.index.entry-live key loc.seg loc.idx e in
            let (kind, home) = home_of no_flight s.log w.inv loc.seg b in
            let (x, size) = forget-Inv no_flight s.log w.inv key loc.seg loc.idx kind e home in
            let fits : ltb loc.idx s.log.segment_size_blocks ≡ true = ground (
              arith,
              live-written s.log.segment_size_blocks s.log.total_segments s.log.segments
                  s.log.mapping s.log.mapping_size w.inv.index loc.seg loc.idx v,
            ) in
            let l = forgotten s.log key loc.seg loc.idx kind in
            (
              record s { log = l; invalidate_blocks = s.invalidate_blocks + 1 },
              rw (e, invalidate)
                  (rw fits (
                    rw v (
                      rw (current-ok s.log loc.seg kind home) (
                        rw (forget-ok no_flight s.log w.inv key loc.seg loc.idx kind e home) (
                          rw (forget-erase no_flight s.log w.inv key loc.seg loc.idx kind e home)
                            refl))))),
              record {
                cache = record {
                  inv = x;
                  stored = record {
                    ready = w.stored.ready;
                    within = omega (arith, w.stored.within, size);
                    some_bytes = w.stored.some_bytes;
                    whole = w.stored.whole;
                    fits = λ k h. w.stored.fits k (ground (arith, h));
                  };
                };
                absent = ground arith;
                others = λ k ne. rw ne refl;
                smaller = ground (arith, e, size);
                same_evicted = refl;
                same_bytes = refl;
                same_time = refl;
                same_written = refl;
                same_regions = refl;
                same_ptr = λ j. ground arith;
                same_size = refl;
                same_total = refl;
              },
            )
