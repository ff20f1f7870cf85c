-- ===== src/FairyWren/Tests.antt =====
-- Runs of `FairyWrenCache` with six segments of two blocks of 4 bytes, over the translation layer.
use ssd_waf.Base.{
  ℕ, ◌+◌, ◌*◌, ◌/◌, ◌≤◌, ◌<◌, ◌≡◌, refl, sym, ◌∙◌, inl, inr, subst, arith, true, false, Bool, List,
  [], ◌∷◌, Result, ok, fault, spin, thrown, ◌>>=◌,
}
use ssd_waf.Histogram
use ssd_waf.Histogram.{Histogram}
use ssd_waf.LogSegment
use ssd_waf.Device.{Accepts}
use ssd_waf.Device.Examples.{flash_runs, flash, Ready, flash-Accepts, fresh, fresh-Ready}
use ssd_waf.FairyWren.Log.{fwlog, hot, cold, region, Log}
use ssd_waf.FairyWren.Log
use ssd_waf.FairyWren.Cache.{FairyWren, Histograms}
use ssd_waf.FairyWren.Cache
use ssd_waf.FairyWren.Collect
use ssd_waf.FairyWren.Collect.{ensure_active_segment}
use ssd_waf.FairyWren.Host.{maybe_run_gc, batch_insert}
use ssd_waf.FairyWren.Host
use ssd_waf.FairyWren.Safe.{Passes}
use ssd_waf.FairyWren.Copy.{Finds}
use ssd_waf.FairyWren.Find.{fwlog-Finds}
use ssd_waf.FairyWren.Invalidate.{no_flight, IsCache, Fits}
use ssd_waf.FairyWren.Collections.{maybe_run_gc-Passes}
use ssd_waf.FairyWren.Batch.{AllFit, batch_insert-Served}
use ssd_waf.FairyWren.Init.{
  partition, partition-parts, init, new_cache, fill_regions, set_total, blank,
}
use ssd_waf.FairyWren.Init
use ssd_waf.FairyWren.Fresh.{Empty, init-Empty}

program : Unit {0}
unfolding flash_runs Histogram.init Histogram.bucket Histogram.inc LogSegment.full LogSegment.reset
    Init.partition Init.add_free Init.fill_region Init.fill_regions Init.initialize_regions
    Init.blank Init.new_histograms Init.init Host.append_host_block Host.needs_gc Host.maybe_run_gc
    Host.insert_blocks Host.batch_insert Collect.relocate Collect.migrate_block Collect.copy_blocks
    Collect.count_migrated Collect.copy_valid_blocks Collect.compact Collect.exchange
    Collect.reclaim_victim Collect.reclaim_into Collect.reclaim_cold_victim
    Collect.reclaim_from_cold Collect.force_reclaim Collect.take_after Collect.take_or_force
    Collect.obtain Collect.use_active Collect.ensure_step Collect.ensure_active_segment
    Cache.drop_block Cache.erase_key Cache.set_key Cache.put_block Cache.append_block
    Cache.move_block Cache.leads_to Cache.evict_to_cold Cache.drop_blocks Cache.count_evicted
    Cache.drop_segment Cache.invalidate Log.current_region Log.adjust_region_valid Log.move_valid
    Log.move_segment_region Log.take_free_segment Log.release_segment_to_free Log.push_to_fifo
    Log.retire Log.close_active_segment Log.refill Log.pop_front Log.pop_victim Log.give_segment
    Log.hand_over Log.steal_free_segment Log.retire_full Log.open_segment
program = tt

flash_accepts : Accepts flash Ready 4 80 20
flash_accepts = flash-Accepts 4 80 refl (omega arith)

-- One half of what is left is the second region's.
abbrev round_fwlog : ℕ → ℕ
round_fwlog n = n * 5 / 100

abbrev round_hot : ℕ → ℕ
round_hot n = (n + 1) / 2

abbrev ceil_ratio : ℕ → ℕ → ℕ
ceil_ratio n p = (n * p + 999) / 1000

partition-four : partition round_fwlog round_hot 4 ≡ (1, 2, 1)
unfolding partition
partition-four = refl

partition-parts_example :
    ((partition round_fwlog round_hot 4).0
        + (partition round_fwlog round_hot 4).1
        + (partition round_fwlog round_hot 4).2
      ≡ 4)
    × (0 < (partition round_fwlog round_hot 4).0)
    × (2 < 4 → 0 < (partition round_fwlog round_hot 4).2)
partition-parts_example = partition-parts round_fwlog round_hot 4 (omega arith)

init-Empty_example :
    (s : FairyWren flash) × (init flash round_fwlog round_hot 40 fresh 12 4 8 ≡ ok s)
    × Empty flash Ready 4 80 20 round_fwlog round_hot s fresh 4
init-Empty_example =
    init-Empty flash Ready 4 80 20 round_fwlog round_hot 40 fresh 12 4 8 fresh-Ready (omega arith)
      refl (omega arith)

abbrev evictions : Result (FairyWren flash) → ℕ × ℕ × ℕ
evictions (ok s) = (s.evicted_blocks, s.log.mapping_size, s.ftl.nand_write_pages)
evictions fault = (1000, 0, 0)
evictions thrown = (2000, 0, 0)
evictions spin = (3000, 0, 0)

abbrev from_ok : Result (FairyWren flash) → FairyWren flash → FairyWren flash
from_ok (ok s) other = s
from_ok fault other = other
from_ok thrown other = other
from_ok spin other = other

abbrev is_ok : Result (FairyWren flash) → Bool
is_ok (ok s) = true
is_ok fault = false
is_ok thrown = false
is_ok spin = false

from_ok-ok :
    (m : Result (FairyWren flash)) (other : FairyWren flash)
    → is_ok m ≡ true
    → m ≡ ok (from_ok m other)
from_ok-ok (ok s) other e = refl
from_ok-ok fault other e = cc
from_ok-ok thrown other e = cc
from_ok-ok spin other e = cc

abbrev buckets : ℕ → ℕ → Histogram
buckets granularity max_buckets = record {
  granularity = granularity;
  max_buckets = max_buckets;
  counts = λ _. 0;
}

abbrev no_stats : Histograms
no_stats = record {
  evicted_ages = buckets 10 40;
  evicted_blocks = buckets 1 20;
  migrated_blocks = buckets 1 20;
  evicted_ages_with_segment = buckets 10 40;
  migrated_ages_with_segment = buckets 10 40;
  migrated_ages = buckets 10 40;
}

abbrev started : FairyWren flash
started =
    new_cache flash round_fwlog round_hot no_stats fresh 4 8
      (fill_regions (set_total (set_total (set_total (blank 2 6) fwlog 1) hot 3) cold 2) (1, 3, 2))

started-run : init flash round_fwlog round_hot 40 fresh 12 4 8 ≡ ok started
unfolding program
started-run = refl

started-IsCache : IsCache flash Ready 4 80 20 started
started-IsCache =
    let (s, e, x) =
      init-Empty flash Ready 4 80 20 round_fwlog round_hot 40 fresh 12 4 8 fresh-Ready (omega arith)
        refl (omega arith) in
    let same : s ≡ started = cc (e, started-run) in subst (IsCache flash Ready 4 80 20) same x.cache

-- Sixteen blocks, of which two are written twice.
abbrev batch : List (ℕ × ℕ)
batch =
    (5, 4)
    ∷ (6, 4)
    ∷ (5, 4)
    ∷ (7, 4)
    ∷ (8, 4)
    ∷ (9, 4)
    ∷ (6, 4)
    ∷ (10, 4)
    ∷ (11, 4)
    ∷ (12, 4)
    ∷ (13, 4)
    ∷ (14, 4)
    ∷ (15, 4)
    ∷ (16, 4)
    ∷ (17, 4)
    ∷ (18, 4)
    ∷ []

batch-run : evictions (batch_insert flash ceil_ratio 4 false started batch) ≡ (10, 4, 10)
unfolding program
batch-run = refl

-- With one segment in the third region, a victim that is partly valid has no place to go.
small_cold-thrown :
    evictions (
      init flash round_fwlog round_hot 40 fresh 8 4 8 >>= λ s.
      batch_insert flash ceil_ratio 4 false s batch)
    ≡ (2000, 0, 0)
unfolding program
small_cold-thrown = refl

abbrev written : FairyWren flash
written = from_ok (batch_insert flash ceil_ratio 4 false started batch) started

written-ok : is_ok (batch_insert flash ceil_ratio 4 false started batch) ≡ true
unfolding program
written-ok = refl

written-run : batch_insert flash ceil_ratio 4 false started batch ≡ ok written
written-run = from_ok-ok (batch_insert flash ceil_ratio 4 false started batch) started written-ok

batch-AllFit : AllFit flash Ready 4 80 20 4 batch
unfolding AllFit
batch-AllFit =
    let fits : (k : ℕ) → k ≤ 18 → Fits flash Ready 4 80 20 4 (k, 4) =
      λ k h. (omega (arith, h), omega (arith, h), refl) in
    (
      fits 5 (omega arith),
      (
        fits 6 (omega arith),
        (
          fits 5 (omega arith),
          (
            fits 7 (omega arith),
            (
              fits 8 (omega arith),
              (
                fits 9 (omega arith),
                (
                  fits 6 (omega arith),
                  (
                    fits 10 (omega arith),
                    (
                      fits 11 (omega arith),
                      (
                        fits 12 (omega arith),
                        (
                          fits 13 (omega arith),
                          (
                            fits 14 (omega arith),
                            (
                              fits 15 (omega arith),
                              (
                                fits 16 (omega arith),
                                (fits 17 (omega arith), (fits 18 (omega arith), tt)),
                              ),
                            ),
                          ),
                        ),
                      ),
                    ),
                  ),
                ),
              ),
            ),
          ),
        ),
      ),
    )

started-room : started.evicted_blocks + started.log.mapping_size + 16 ≤ 20
unfolding program
started-room = omega arith

fwlog-Finds_example : Finds flash Ready 4 80 20 (ensure_active_segment flash 4) fwlog true
fwlog-Finds_example = fwlog-Finds flash Ready 4 80 20 flash_accepts 0

written-IsCache : IsCache flash Ready 4 80 20 written
written-IsCache =
    elim (batch_insert-Served flash Ready 4 80 20 flash_accepts ceil_ratio 0 started batch
      started-IsCache batch-AllFit started-room) [
        | inl (e, r) ↦ absurd (ground (arith, sym written-run ∙ e))
        | inr (t, e, x) ↦
            let same : t ≡ written = cc (e, written-run) in
            subst (IsCache flash Ready 4 80 20) same x.cache
      ]

maybe_run_gc-Passes_example :
    (t : FairyWren flash) × (maybe_run_gc flash ceil_ratio 3 written ≡ ok t)
    × IsCache flash Ready 4 80 20 t
    × Passes flash no_flight written t
maybe_run_gc-Passes_example =
    maybe_run_gc-Passes flash Ready 4 80 20 flash_accepts ceil_ratio 0 written written-IsCache
