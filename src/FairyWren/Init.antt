-- ===== src/FairyWren/Init.antt =====
-- The constructor of `FairyWrenCache` and `initialize_regions`. `round_fwlog n` and `round_hot n`
-- stand for the floating-point `round(n * fwlog_ratio)` and `round(n * hot_ratio_of_remaining)`; the
-- files of statistics are open.
use ssd_waf.Base.{
  ℕ, zero, suc, ◌+◌, ◌-◌, ◌*◌, ◌/◌, ◌%◌, ◌^◌, ◌<◌, ◌≡◌, true, ◌&&◌, none, some, [], if◌then◌else◌,
  ◌==◌, ltb, update, min, max, arith, Result, ok, fault, thrown, ◌>>=◌,
}
use ssd_waf.LogSegment.{new_segment, reset}
use ssd_waf.Histogram
use ssd_waf.Device.{Device}
use ssd_waf.FairyWren.Log.{
  RegionKind, fwlog, hot, cold, Log, region, set_region, set_segment, push_free,
}
use ssd_waf.FairyWren.Cache.{Histograms, FairyWren, ten_gb}

module _ (round_fwlog round_hot : ℕ → ℕ) where
  -- The numbers of segments of the three regions.
  unfoldable pub partition : ℕ → ℕ × ℕ × ℕ
  partition total_segments =
      let fwlog_segments = min (max 1 (round_fwlog total_segments)) total_segments in
      let remaining = total_segments - fwlog_segments in
      let hot_segments =
        if ltb 0 remaining then min (max 1 (round_hot remaining)) remaining else remaining in
      let cold_segments = total_segments - fwlog_segments - hot_segments in
      if cold_segments == 0 && ltb 1 total_segments
      then if ltb 1 hot_segments
        then (fwlog_segments, hot_segments - 1, cold_segments + 1)
        else if ltb 1 fwlog_segments
        then (fwlog_segments - 1, hot_segments, cold_segments + 1)
        else (fwlog_segments, hot_segments, cold_segments)
      else (fwlog_segments, hot_segments, cold_segments)

  -- With a segment or more, the parts are those of the whole, and the first region has one; the
  -- third has one if there are three.
  pub partition-parts :
      (total : ℕ)
      → 0 < total
      → ((partition total).0 + (partition total).1 + (partition total).2 ≡ total)
        × (0 < (partition total).0)
        × (2 < total → 0 < (partition total).2)
  unfolding partition
  partition-parts total some_segment = (ground arith, ground arith, λ h. ground arith)

-- A segment goes to a region's free list.
unfoldable pub add_free : Log → RegionKind → ℕ → Log
add_free l kind seg =
    let m = push_free (set_segment l seg (reset (l.segments seg))) kind seg in
    record m { segment_region = update m.segment_region seg (some kind) }

-- A loop that gives `k` segments to a region, with the iterator's place.
unfoldable pub fill_region : ℕ → Log → RegionKind → ℕ → Log × ℕ
fill_region zero l kind it = (l, it)
fill_region (suc k) l kind it =
    let rest = fill_region k (add_free l kind it) kind (it + 1) in
    if ltb it l.total_segments then rest else (l, it)

abbrev pub set_total : Log → RegionKind → ℕ → Log
set_total l kind n = set_region l kind (record (region l kind) { total_segments = n })

unfoldable pub fill_regions : Log → ℕ × ℕ × ℕ → Log
fill_regions l (fwlog_segments, hot_segments, cold_segments) =
    let (l1, it1) = fill_region fwlog_segments l fwlog 0 in
    let (l2, it2) = fill_region hot_segments l1 hot it1 in
    (fill_region l.total_segments l2 cold it2).0

unfoldable pub initialize_regions : (ℕ → ℕ) → (ℕ → ℕ) → Log → Result Log
initialize_regions round_fwlog round_hot l =
    let (f, h, c) = partition round_fwlog round_hot l.total_segments in
    if f + h + c == l.total_segments
    then ok (fill_regions (set_total (set_total (set_total l fwlog f) hot h) cold c) (f, h, c))
    else fault

-- The members before `initialize_regions`.
unfoldable pub blank : ℕ → ℕ → Log
blank segment_size_blocks total_segments = record {
  segment_size_blocks = segment_size_blocks;
  total_segments = total_segments;
  segments = λ _. new_segment 0;
  regions =
      λ _. record { total_segments = 0; free_segments = []; fifo_segments = []; active = none };
  segment_region = λ _. none;
  mapping = λ _. none;
  mapping_size = 0;
  region_valid_blocks = λ _. 0;
}

unfoldable pub new_histograms : ℕ → Result Histograms
new_histograms interval = do
  evicted_ages ← Histogram.init (interval / 4) 40 true
  evicted_blocks ← Histogram.init 1 20 true
  migrated_blocks ← Histogram.init 1 20 true
  evicted_ages_with_segment ← Histogram.init (interval / 4) 40 true
  migrated_ages_with_segment ← Histogram.init (interval / 4) 40 true
  migrated_ages ← Histogram.init (interval / 4) 40 true
  ok (record {
    evicted_ages = evicted_ages;
    evicted_blocks = evicted_blocks;
    migrated_blocks = migrated_blocks;
    evicted_ages_with_segment = evicted_ages_with_segment;
    migrated_ages_with_segment = migrated_ages_with_segment;
    migrated_ages = migrated_ages;
  })

module _ (d : Device) (round_fwlog round_hot : ℕ → ℕ) where
  abbrev pub new_cache : Histograms → d.State → ℕ → ℕ → Log → FairyWren d
  new_cache histograms ftl cache_block_size segment_bytes l = record {
    cache_block_size = cache_block_size;
    log_cache_timestamp = 0;
    log = l;
    histograms = histograms;
    migrated_blocks = 0;
    invalidate_blocks = 0;
    next_stats_print_bytes = segment_bytes;
    ftl = ftl;
    write_size_to_cache = 0;
    evicted_blocks = 0;
    next_write_size_to_cache = ten_gb;
  }

  -- A block of no bytes divides by zero. `uint64_t` arithmetic is modulo 2 ^ 64.
  unfoldable pub init : ℕ → d.State → ℕ → ℕ → ℕ → Result (FairyWren d)
  init interval ftl cache_block_count cache_block_size segment_bytes = do
    histograms ← new_histograms interval
    let segment_size_blocks = segment_bytes / cache_block_size
    let segments = cache_block_count * cache_block_size % 2 ^ 64 / segment_bytes
    if cache_block_size == 0 then fault else if segment_size_blocks == 0 then thrown else (do
      l ←
          initialize_regions round_fwlog round_hot
            (blank segment_size_blocks (if segments == 0 then 1 else segments))
      ok (new_cache histograms ftl cache_block_size segment_bytes l))
