-- ===== src/FairyWren/Cache.antt =====
-- The whole state of `FairyWrenCache`, and its operations on the blocks of a segment.
use ssd_waf.Base.{
  ℕ, zero, suc, ◌+◌, ◌-◌, ◌*◌, ◌%◌, ◌^◌, Bool, true, false, ◌&&◌, Option, none, some, if◌then◌else◌,
  ◌==◌, ltb, update, Result, ok, fault, ◌>>=◌,
}
use ssd_waf.LogSegment.{Block}
use ssd_waf.Histogram.{Histogram, inc}
use ssd_waf.Device.{Device}
use ssd_waf.FairyWren.Log.{RegionKind, Loc, Log, set_segment, current_region, adjust_region_valid}

pub record Histograms : Type 0 where
  pub evicted_ages : Histogram
  pub evicted_blocks : Histogram
  pub migrated_blocks : Histogram
  pub evicted_ages_with_segment : Histogram
  pub migrated_ages_with_segment : Histogram
  pub migrated_ages : Histogram

-- The members after `ftl` are `ICache`'s.
pub record FairyWren (d : Device) : Type 0 where
  pub cache_block_size : ℕ
  pub log_cache_timestamp : ℕ
  pub log : Log
  pub histograms : Histograms
  pub migrated_blocks : ℕ
  pub invalidate_blocks : ℕ
  pub next_stats_print_bytes : ℕ
  pub ftl : d.State
  pub write_size_to_cache : ℕ
  pub evicted_blocks : ℕ
  pub next_write_size_to_cache : ℕ

-- `uint64_t` a - b.
abbrev pub age : ℕ → ℕ → ℕ
age now before = (now + 2 ^ 64 - before) % 2 ^ 64

-- The ratios, in thousandths.
abbrev pub hot_critical_ratio : ℕ
hot_critical_ratio = 15

abbrev pub hot_relax_ratio : ℕ
hot_relax_ratio = 50

abbrev pub cold_critical_ratio : ℕ
cold_critical_ratio = 15

abbrev pub fwlog_critical_ratio : ℕ
fwlog_critical_ratio = 150

abbrev pub ten_gb : ℕ
ten_gb = 10 * 1024 * 1024 * 1024

-- The block at `idx` is not valid any more, and its segment has one valid block fewer.
unfoldable pub drop_block : Log → ℕ → ℕ → Log
drop_block l seg idx =
    let g = l.segments seg in
    set_segment l seg (record g {
      valid_cnt = if ltb 0 g.valid_cnt then g.valid_cnt - 1 else g.valid_cnt;
      blocks = update g.blocks idx (record (g.blocks idx) { valid = false });
    })

-- `mapping_.erase`.
unfoldable pub erase_key : Log → ℕ → Log
erase_key l key = elim (l.mapping key) [
  | none ↦ l
  | some _ ↦ record l { mapping = update l.mapping key none; mapping_size = l.mapping_size - 1 }
]

-- `mapping_[key] = …`.
unfoldable pub set_key : Log → ℕ → Loc → Log
set_key l key loc = record l {
  mapping = update l.mapping key (some loc);
  mapping_size = elim (l.mapping key) [ none ↦ l.mapping_size + 1 | some _ ↦ l.mapping_size ];
}

-- A block is written at the write pointer of a segment, beyond which the vector ends.
unfoldable pub put_block : Log → ℕ → Block → Result Log
put_block l seg b =
    let g = l.segments seg in
    if ltb g.write_ptr l.segment_size_blocks
    then ok (
        set_segment l seg (record g {
          write_ptr = g.write_ptr + 1;
          valid_cnt = g.valid_cnt + 1;
          blocks = update g.blocks g.write_ptr b;
        }))
    else fault

unfoldable pub append_block : Log → ℕ → ℕ → ℕ → Result Log
append_block l seg key timestamp =
    let loc : Loc = record { seg = seg; idx = (l.segments seg).write_ptr } in
    do
      m ← put_block l seg (record { key = key; valid = true; create_timestamp = timestamp })
      kind ← current_region m seg
      adjust_region_valid (set_key m key loc) kind 1 0

-- The block at `idx` of `src` is written to the segment `dest`, where the entry of its key leads, and
-- is given up at its old place.
unfoldable pub move_block : Log → ℕ → ℕ → RegionKind → ℕ → RegionKind → ℕ → Result Log
move_block l src idx src_kind dest dest_kind key =
    let loc : Loc = record { seg = dest; idx = (l.segments dest).write_ptr } in
    do
      p ← put_block l dest (record ((l.segments src).blocks idx) { valid = true })
      m ← adjust_region_valid (set_key p key loc) dest_kind 1 0
      adjust_region_valid (drop_block m src idx) src_kind 0 1

-- Does the entry of the index lead to this place?
unfoldable pub leads_to : Option Loc → ℕ → ℕ → Bool
leads_to none seg idx = false
leads_to (some loc) seg idx = loc.seg == seg && loc.idx == idx

module _ (d : Device) where
  -- `ICache::_evict_one_block` for a write: the block goes to the cold store.
  unfoldable pub evict_to_cold : FairyWren d → ℕ → ℕ → Result (FairyWren d)
  evict_to_cold s lba_offset lba_size = do
    t ← d.write s.ftl lba_offset lba_size 0
    ok (record s {
      ftl = t;
      next_write_size_to_cache =
          if ltb s.next_write_size_to_cache s.write_size_to_cache
          then s.next_write_size_to_cache + ten_gb
          else s.next_write_size_to_cache;
    })

  -- The rounds of `drop_segment`: `k` blocks are left, `idx` is the next one.
  unfoldable pub drop_blocks : ℕ → FairyWren d → ℕ → ℕ → ℕ → Result (FairyWren d × ℕ)
  drop_blocks zero s seg idx evicted = ok (s, evicted)
  drop_blocks (suc k) s seg idx evicted =
      let b = (s.log.segments seg).blocks idx in
      let g = s.log.segments seg in
      let l =
        set_segment (erase_key s.log b.key) seg
          (record g { blocks = update g.blocks idx (record b { valid = false }) }) in
      let h = record s.histograms {
        evicted_ages =
            inc s.histograms.evicted_ages (age s.log_cache_timestamp b.create_timestamp) 1;
      } in
      let rest = (do
        t ←
            evict_to_cold (record s { log = l; histograms = h }) (b.key * s.cache_block_size)
              s.cache_block_size
        drop_blocks k (record t { evicted_blocks = t.evicted_blocks + 1 }) seg (idx + 1)
            (evicted + 1)) in
      let skipped = drop_blocks k s seg (idx + 1) evicted in if b.valid then rest else skipped

  unfoldable pub count_evicted : FairyWren d → ℕ → ℕ → FairyWren d
  count_evicted s seg evicted =
      if ltb 0 evicted
      then record s {
        histograms = record s.histograms {
          evicted_blocks = inc s.histograms.evicted_blocks evicted 1;
          evicted_ages_with_segment =
              inc s.histograms.evicted_ages_with_segment
                (age s.log_cache_timestamp (s.log.segments seg).create_timestamp) 1;
        };
      }
      else s

  -- All valid blocks of the segment are evicted.
  unfoldable pub drop_segment : FairyWren d → ℕ → Result (FairyWren d)
  drop_segment s seg = do
    kind ← current_region s.log seg
    l ← adjust_region_valid s.log kind 0 (s.log.segments seg).valid_cnt
    (t, evicted) ← drop_blocks l.segment_size_blocks (record s { log = l }) seg 0 0
    let u = count_evicted t seg evicted
    ok (record u {
      log = set_segment u.log seg (record (u.log.segments seg) { valid_cnt = 0; write_ptr = 0 });
    })

  -- The host overwrites the block: its place in the log, or in the cold store, is given up.
  unfoldable pub invalidate : FairyWren d → ℕ → ℕ → Result (FairyWren d)
  invalidate s key lba_sz = elim (s.log.mapping key) [
    | none ↦ d.trim s.ftl (key * s.cache_block_size) lba_sz >>= λ t. ok (record s { ftl = t })
    | some loc ↦
        (if ltb loc.idx s.log.segment_size_blocks && ((s.log.segments loc.seg).blocks loc.idx).valid
          then (do
            kind ← current_region s.log loc.seg
            l ← adjust_region_valid (drop_block s.log loc.seg loc.idx) kind 0 1
            ok (record s { log = l; invalidate_blocks = s.invalidate_blocks + 1 }))
          else ok s)
        >>= λ t. ok (record t { log = erase_key t.log key })
  ]
