-- ===== src/FairyWren/Collect.antt =====
-- The garbage collection of `FairyWrenCache` (fairywren_cache.cpp): migration, the reclaiming of a
-- victim in each region, and the choice of an active segment, which reclaims when it finds none.
use ssd_waf.Base.{
  ℕ, zero, suc, ◌+◌, Bool, true, false, not, ◌&&◌, Option, none, some, if◌then◌else◌, ◌==◌, ltb,
  Result, ok, spin, ◌>>=◌,
}
use ssd_waf.Histogram.{inc}
use ssd_waf.Device.{Device}
use ssd_waf.FairyWren.Log.{
  RegionKind, fwlog, hot, cold, region_index, Log, region, current_region, adjust_region_valid,
  move_segment_region, take_free_segment, push_back, push_front, release_segment_to_free,
  pop_victim, steal_free_segment, retire_full, open_segment,
}
use ssd_waf.FairyWren.Cache.{FairyWren, move_block, age, drop_block, leads_to, drop_segment}

module _ (d : Device) where
  -- What `ensure_active_segment` does when it is called again: a region, and whether to reclaim.
  abbrev pub Ensure : Type 0
  Ensure = FairyWren d → RegionKind → Bool → Result (FairyWren d × Option ℕ)

  -- A block that the index leads to goes to the active segment of the region `dest`.
  unfoldable pub relocate : Ensure → FairyWren d → ℕ → ℕ → RegionKind → Result (FairyWren d × Bool)
  relocate ensure s src idx dest = do
    let b = (s.log.segments src).blocks idx
    src_kind ← current_region s.log src
    (t, o) ← ensure s dest (not (region_index dest == region_index src_kind))
    elim o [
      | none ↦ ok (t, false)
      | some dest_seg ↦ do
        dest_kind ← current_region t.log dest_seg
        n ← move_block t.log src idx src_kind dest_seg dest_kind b.key
        ok (
          record t {
            log = n;
            migrated_blocks = t.migrated_blocks + 1;
            histograms = record t.histograms {
              migrated_ages =
                  inc t.histograms.migrated_ages (age s.log_cache_timestamp b.create_timestamp) 1;
            };
          },
          true,
        )
    ]

  unfoldable pub migrate_block :
      Ensure → FairyWren d → ℕ → ℕ → RegionKind → Result (FairyWren d × Bool)
  migrate_block ensure s src idx dest =
      let b = (s.log.segments src).blocks idx in
      if not b.valid
      then ok (s, true)
      else (if leads_to (s.log.mapping b.key) src idx then relocate ensure s src idx dest else do
        kind ← current_region s.log src
        l ← adjust_region_valid (drop_block s.log src idx) kind 0 1
        ok (record s { log = l }, true))

  -- The rounds of `copy_valid_blocks`: `k` blocks are left, `idx` is the next one.
  unfoldable pub copy_blocks :
      Ensure → RegionKind → ℕ → FairyWren d → ℕ → ℕ → ℕ → Result (FairyWren d × Bool × ℕ)
  copy_blocks ensure dest zero s src idx moved = ok (s, true, moved)
  copy_blocks ensure dest (suc k) s src idx moved =
      let rest = (do
        (t, done) ← migrate_block ensure s src idx dest
        elim done [
          | true ↦ copy_blocks ensure dest k t src (idx + 1) (moved + 1)
          | false ↦ ok (t, false, moved)
        ]) in
      let skipped = copy_blocks ensure dest k s src (idx + 1) moved in
      if ((s.log.segments src).blocks idx).valid then rest else skipped

  unfoldable pub count_migrated : FairyWren d → ℕ → ℕ → FairyWren d
  count_migrated s src moved =
      if ltb 0 moved
      then record s {
        histograms = record s.histograms {
          migrated_blocks = inc s.histograms.migrated_blocks moved 1;
          migrated_ages_with_segment =
              inc s.histograms.migrated_ages_with_segment
                (age s.log_cache_timestamp (s.log.segments src).create_timestamp) 1;
        };
      }
      else s

  unfoldable pub copy_valid_blocks :
      Ensure → FairyWren d → ℕ → RegionKind → Result (FairyWren d × Bool)
  copy_valid_blocks ensure s src dest = do
    (t, moved_all, moved) ← copy_blocks ensure dest s.log.segment_size_blocks s src 0 0
    let u = count_migrated t src moved
    ok (u, moved_all && (u.log.segments src).valid_cnt == 0)

  -- The valid blocks of a victim are copied, and it is free, or it goes back to the queue's front.
  unfoldable pub compact :
      Ensure → FairyWren d → RegionKind → RegionKind → ℕ → Result (FairyWren d × Bool)
  compact ensure s kind dest victim = do
    (t, done) ← copy_valid_blocks ensure s victim dest
    elim done [
      | true ↦ release_segment_to_free t.log kind victim >>= λ l. ok (record t { log = l }, true)
      | false ↦ ok (record t { log = push_front t.log kind victim }, false)
    ]

  -- A victim all of whose blocks are valid changes places with a free segment of `dest`.
  unfoldable pub exchange :
      Ensure → FairyWren d → RegionKind → RegionKind → ℕ → Result (FairyWren d × Bool)
  exchange ensure s kind dest victim = do
    (l, stolen) ← steal_free_segment s.log dest kind
    elim stolen [
      | true ↦ move_segment_region l victim dest >>= λ m.
          ok (record s { log = push_back m dest victim }, true)
      | false ↦ compact ensure (record s { log = l }) kind dest victim
    ]

  unfoldable pub reclaim_victim :
      Ensure → FairyWren d → RegionKind → RegionKind → ℕ → Result (FairyWren d × Bool)
  reclaim_victim ensure s kind dest victim =
      let valid_cnt = (s.log.segments victim).valid_cnt in
      if valid_cnt == 0
      then (release_segment_to_free s.log kind victim >>= λ l. ok (record s { log = l }, true))
      else if valid_cnt == s.log.segment_size_blocks
      then exchange ensure s kind dest victim
      else compact ensure s kind dest victim

  -- The text that `reclaim_from_fwlog` and `reclaim_from_hot` share.
  unfoldable pub reclaim_into :
      Ensure → FairyWren d → RegionKind → RegionKind → Result (FairyWren d × Bool)
  reclaim_into ensure s kind dest = do
    (l, o) ← pop_victim s.log kind
    elim o [
      | none ↦ ok (record s { log = l }, false)
      | some victim ↦ reclaim_victim ensure (record s { log = l }) kind dest victim
    ]

  abbrev pub reclaim_from_fwlog : Ensure → FairyWren d → Result (FairyWren d × Bool)
  reclaim_from_fwlog ensure s = reclaim_into ensure s fwlog hot

  abbrev pub reclaim_from_hot : Ensure → FairyWren d → Result (FairyWren d × Bool)
  reclaim_from_hot ensure s = reclaim_into ensure s hot cold

  unfoldable pub reclaim_cold_victim : Ensure → FairyWren d → ℕ → Result (FairyWren d × Bool)
  reclaim_cold_victim ensure s victim =
      let valid_cnt = (s.log.segments victim).valid_cnt in
      if valid_cnt == 0
      then (release_segment_to_free s.log cold victim >>= λ l. ok (record s { log = l }, true))
      else if valid_cnt == s.log.segment_size_blocks
      then (do
        t ← drop_segment d s victim
        l ← release_segment_to_free t.log cold victim
        ok (record t { log = l }, true))
      else compact ensure s cold cold victim

  unfoldable pub reclaim_from_cold : Ensure → FairyWren d → Result (FairyWren d × Bool)
  reclaim_from_cold ensure s = do
    (l, o) ← pop_victim s.log cold
    elim o [
      | none ↦ ok (record s { log = l }, false)
      | some victim ↦ reclaim_cold_victim ensure (record s { log = l }) victim
    ]

  -- `a() || b()` on operations: the second runs if the first returns false.
  abbrev pub or_else :
      Result (FairyWren d × Bool)
      → (FairyWren d → Result (FairyWren d × Bool))
      → Result (FairyWren d × Bool)
  or_else m f = m >>= λ r. elim r.1 [ true ↦ ok r | false ↦ f r.0 ]

  unfoldable pub force_reclaim : Ensure → FairyWren d → RegionKind → Result (FairyWren d × Bool)
  force_reclaim ensure s fwlog =
      or_else (or_else (reclaim_from_fwlog ensure s) (reclaim_from_hot ensure))
        (reclaim_from_cold ensure)
  force_reclaim ensure s hot = or_else (reclaim_from_hot ensure s) (reclaim_from_cold ensure)
  force_reclaim ensure s cold = reclaim_from_cold ensure s

  unfoldable pub take_after : RegionKind → FairyWren d × Bool → FairyWren d × Option ℕ
  take_after kind (s, true) = let (o, l) = take_free_segment s.log kind in (record s { log = l }, o)
  take_after kind (s, false) = (s, none)

  unfoldable pub take_or_force :
      Ensure → FairyWren d → RegionKind → Bool → Option ℕ × Log → Result (FairyWren d × Option ℕ)
  take_or_force ensure s kind allow_force (some seg, l) = ok (record s { log = l }, some seg)
  take_or_force ensure s kind true (none, l) =
      force_reclaim ensure (record s { log = l }) kind >>= λ r. ok (take_after kind r)
  take_or_force ensure s kind false (none, l) = ok (record s { log = l }, none)

  -- A free segment of the region, after a collection if there is none.
  unfoldable pub obtain : Ensure → FairyWren d → RegionKind → Bool → Result (FairyWren d × Option ℕ)
  unfolding take_or_force
  obtain ensure s kind allow_force =
      take_or_force ensure s kind allow_force (take_free_segment s.log kind)

  unfoldable pub use_active :
      Ensure → FairyWren d → RegionKind → Bool → Option ℕ → Result (FairyWren d × Option ℕ)
  use_active ensure s kind allow_force (some seg) = ok (s, some seg)
  use_active ensure s kind allow_force none = do
    (t, o) ← obtain ensure s kind allow_force
    elim o [
      | none ↦ ok (t, none)
      | some seg ↦ open_segment t.log kind t.log_cache_timestamp seg >>= λ m.
          ok (record t { log = m }, some seg)
    ]

  unfoldable pub ensure_step : Ensure → Ensure
  unfolding use_active
  ensure_step ensure s kind allow_force = do
    l ← retire_full s.log kind
    use_active ensure (record s { log = l }) kind allow_force (region l kind).active

  -- The fuel bounds the depth of the calls.
  unfoldable pub ensure_active_segment : ℕ → Ensure
  ensure_active_segment zero = λ s kind allow_force. spin
  ensure_active_segment (suc fuel) = ensure_step (ensure_active_segment fuel)
