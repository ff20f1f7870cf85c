-- ===== src/FairyWren/Relocation.antt =====
-- A block of the log of `FairyWrenCache` is appended, or moved to the active segment of a region.
use ssd_waf.Base.{
  ℕ, ◌+◌, ◌-◌, ◌<◌, ◌≡◌, refl, inl, inr, Bool, true, false, none, some, ◌==◌, ltb, update, arith,
  Bool-cases, fun_ext, ok,
}
use ssd_waf.LogSegment.{Block}
use ssd_waf.FairyWren.Log.{RegionKind, region_index, Log, region, set_segment}
use ssd_waf.FairyWren.Index.{at, is_live}
use ssd_waf.FairyWren.Places.{counted-le}
use ssd_waf.FairyWren.Invariant.{Inv}
use ssd_waf.FairyWren.Cache.{append_block, move_block}
use ssd_waf.FairyWren.Blocks.{
  adjust-ok, current-ok, dropped, forgotten, forget-Inv, grown, appended, append-Inv,
  active-grounded, some-valid, drop_block-ok, put_block-ok, set_key-new, set_key-old,
}

module _ (fly : ℕ → Bool) (l : Log) (w : Inv fly l) where
  pub append_block-ok :
      (seg : ℕ) (kind : RegionKind) (key timestamp : ℕ)
      → (region l kind).active ≡ some seg
      → (l.segments seg).write_ptr < l.segment_size_blocks
      → l.mapping key ≡ none
      → (m : Log) × (append_block l seg key timestamp ≡ ok m)
        × Inv fly m
        × (m.mapping ≡ update l.mapping key (some (at seg (l.segments seg).write_ptr)))
        × (m.mapping_size ≡ l.mapping_size + 1)
        × (m.segment_size_blocks ≡ l.segment_size_blocks)
        × (m.total_segments ≡ l.total_segments)
  unfolding append_block
  append_block-ok seg kind key timestamp active room absent =
      let b : Block = record { key = key; valid = true; create_timestamp = timestamp } in
      let m = appended l seg kind b in
      let fits : ltb (l.segments seg).write_ptr l.segment_size_blocks ≡ true = ground arith in
      let (home, _, _, _) = active-grounded fly l w kind seg active in
      (
        m,
        rw (put_block-ok l seg b room) (
            rw (current-ok (set_segment l seg (grown l seg b)) seg kind home) (
              rw
                (set_key-new (set_segment l seg (grown l seg b)) key
                  (at seg (l.segments seg).write_ptr) absent)
                (adjust-ok _ kind 1 0 (ground arith)))),
        append-Inv fly l w seg kind b active room refl absent,
        refl,
        refl,
        refl,
        refl,
      )

  -- The block at a place that the index leads to moves to the active segment of another region, or
  -- of its own, which is not the segment that it leaves.
  module _ (src idx : ℕ) (src_kind : RegionKind) (v : is_live (l.segments src) idx ≡ true)
      (src_home : l.segment_region src ≡ some src_kind) (dest : ℕ) (dest_kind : RegionKind)
      (active : (region l dest_kind).active ≡ some dest)
      (room : (l.segments dest).write_ptr < l.segment_size_blocks)
      (apart : (src == dest) ≡ false) where
    abbrev pub key : ℕ
    key = ((l.segments src).blocks idx).key

    abbrev pub without : Log
    without = forgotten l key src idx src_kind

    abbrev pub carried : Block
    carried = record ((l.segments src).blocks idx) { valid = true }

    abbrev pub relocated : Log
    relocated = appended without dest dest_kind carried

    pub relocated-Inv : Inv fly relocated
    relocated-Inv =
        let (x, _) = forget-Inv fly l w key src idx src_kind (w.index.indexed src idx v) src_home in
        let room' : (without.segments dest).write_ptr < without.segment_size_blocks =
          ground (arith, apart) in
        append-Inv fly without x dest dest_kind carried active room' refl (ground arith)

    -- The log after the block has been put at its new place, and is still counted at the old one.
    abbrev doubled : Log
    doubled = record (set_segment l dest (grown l dest carried)) {
      mapping = update l.mapping key (some (at dest (l.segments dest).write_ptr));
      region_valid_blocks =
          update l.region_valid_blocks (region_index dest_kind)
            (l.region_valid_blocks (region_index dest_kind) + 1 - 0);
    }

    src_counted : 0 < (l.segments src).valid_cnt
    src_counted = some-valid fly l w src idx v

    src_region_counted : 0 < l.region_valid_blocks (region_index src_kind)
    src_region_counted = omega (
      arith,
      src_counted,
      counted-le l w.counted src_kind src src_home
          (w.index.entry-below key src idx (w.index.indexed src idx v)),
    )

    same_segments : update doubled.segments src (dropped doubled src idx) ≡ relocated.segments
    same_segments = fun_ext (λ j. elim (Bool-cases (src == j)) [
      | inl here ↦ ground (arith, apart, here)
      | inr other ↦ ground (arith, apart, other)
    ])

    same_mapping : doubled.mapping ≡ relocated.mapping
    same_mapping = fun_ext (λ j. ground (arith, apart))

    pub same_mapping_size : l.mapping_size ≡ relocated.mapping_size
    same_mapping_size =
        (forget-Inv fly l w key src idx src_kind (w.index.indexed src idx v) src_home).1

    same_counts :
        update doubled.region_valid_blocks
          (region_index src_kind)
          (doubled.region_valid_blocks (region_index src_kind) + 0 - 1)
        ≡ relocated.region_valid_blocks
    same_counts = fun_ext (λ j. ground (arith, src_region_counted))

    pub move_block-ok : move_block l src idx src_kind dest dest_kind key ≡ ok relocated
    unfolding move_block
    move_block-ok =
        let placed = set_segment l dest (grown l dest carried) in
        let live_here : 0 < (doubled.segments src).valid_cnt = ground (arith, apart, src_counted) in
        rw (put_block-ok l dest carried room) (
          rw
            (set_key-old placed key (at dest (l.segments dest).write_ptr) (at src idx)
              (w.index.indexed src idx v))
            (rw
              (adjust-ok (record placed { mapping = doubled.mapping }) dest_kind 1 0 (ground arith))
              (rw (drop_block-ok doubled src idx live_here) (
                rw
                  (adjust-ok (set_segment doubled src (dropped doubled src idx)) src_kind 0 1
                    (ground (arith, src_region_counted)))
                  (λ p. ok (record l {
                    segments = same_segments p;
                    mapping = same_mapping p;
                    mapping_size = same_mapping_size p;
                    region_valid_blocks = same_counts p;
                  }))))))
