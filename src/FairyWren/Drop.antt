-- ===== src/FairyWren/Drop.antt =====
-- `drop_segment` of `FairyWrenCache`: all valid blocks of a segment in flight are evicted.
use ssd_waf.Base.{
  ℕ, zero, suc, ◌+◌, ◌-◌, ◌*◌, ◌%◌, ◌≤◌, ◌<◌, ◌≡◌, ◌∙◌, ap, subst, refl, inl, inr, Bool, true,
  false, none, some, if◌then◌else◌, ◌==◌, ltb, update, arith, Bool-cases, count_from-none,
  sum_to-same, ok,
}
use ssd_waf.LogSegment.{LogSegment}
use ssd_waf.Histogram.{inc}
use ssd_waf.Device.{Device, Accepts, multiple}
use ssd_waf.FairyWren.Log.{RegionKind, region_index, Log, set_segment, adjust_region_valid}
use ssd_waf.FairyWren.Index.{IsIndex, is_live, live, cleared-size, clear-IsIndex, blank-IsIndex}
use ssd_waf.FairyWren.Places.{is_some, IsPlaced, IsCounted, resegment}
use ssd_waf.FairyWren.Invariant.{Inv}
use ssd_waf.FairyWren.Cache.{
  Histograms, FairyWren, age, ten_gb, erase_key, evict_to_cold, drop_blocks, count_evicted,
  drop_segment,
}
use ssd_waf.FairyWren.Blocks.{recount-IsCounted, count-enough, adjust-ok, current-ok}
use ssd_waf.FairyWren.Safe.{Stored, Passes, Passes-refl, Passes-trans, Stored-Passes}

-- The segment `v` counts for nothing any more; its blocks before `idx` are not valid.
pub record Dropping (fly : ℕ → Bool) (v idx : ℕ) (l : Log) : Type 0 where
  pub some_size : 0 < l.segment_size_blocks
  pub index : IsIndex l.segment_size_blocks l.total_segments l.segments l.mapping l.mapping_size
  pub exact :
      (s : ℕ)
      → (v == s) ≡ false
      → (l.segments s).valid_cnt ≡ live l.segment_size_blocks (l.segments s)
  pub placed : IsPlaced l.total_segments fly l.segments l.regions l.segment_region
  pub counted :
      IsCounted l.total_segments
        (update l.segments v (record (l.segments v) { valid_cnt = 0 }))
        l.segment_region
        l.region_valid_blocks
  pub dead : (i : ℕ) → i < idx → is_live (l.segments v) i ≡ false

-- A segment one of whose blocks is not valid any more, but which still counts it.
abbrev pub voided : Log → ℕ → ℕ → LogSegment
voided l v i = record (l.segments v) {
  blocks = update (l.segments v).blocks i (record ((l.segments v).blocks i) { valid = false });
}

abbrev pub evicted : Log → ℕ → ℕ → Log
evicted l v i = record l {
  segments = update l.segments v (voided l v i);
  mapping = update l.mapping ((l.segments v).blocks i).key none;
  mapping_size = l.mapping_size - 1;
}

module _ (fly : ℕ → Bool) (v idx : ℕ) (l : Log) (w : Dropping fly v idx l) where
  pub skip-Dropping : is_live (l.segments v) idx ≡ false → Dropping fly v (idx + 1) l
  skip-Dropping h = record {
    some_size = w.some_size;
    index = w.index;
    exact = w.exact;
    placed = w.placed;
    counted = w.counted;
    dead = λ i b. elim (Bool-cases (i == idx)) [
      | inl e ↦ let same : i ≡ idx = ground arith in rw same h
      | inr e ↦ w.dead i (ground arith)
    ];
  }

  module _ (h : is_live (l.segments v) idx ≡ true) where
    pub evicted-Dropping : Dropping fly v (idx + 1) (evicted l v idx)
    evicted-Dropping = record {
      some_size = w.some_size;
      index =
          clear-IsIndex l.segment_size_blocks l.total_segments l.segments l.mapping l.mapping_size
            w.index v idx (voided l v idx) h refl refl;
      exact = λ s ne. ground (arith, w.exact s ne, ne);
      placed =
          resegment l.total_segments fly l.segments l.regions l.segment_region w.placed
            (evicted l v idx).segments (λ s e. ground (arith, e));
      counted = λ r. w.counted r ∙ sum_to-same _ _ l.total_segments (λ s b. ground arith);
      dead = λ i b. ground (arith, w.dead i);
    }

    pub evicted-size : l.mapping_size ≡ (evicted l v idx).mapping_size + 1
    evicted-size = omega (
      arith,
      cleared-size l.segment_size_blocks l.total_segments l.segments l.mapping l.mapping_size
          w.index v idx (voided l v idx) h refl refl,
    )

    pub erase-evicted :
        set_segment (erase_key l ((l.segments v).blocks idx).key) v (voided l v idx)
        ≡ evicted l v idx
    unfolding erase_key
    erase-evicted = rw (w.index.indexed v idx h, erase_key) refl

-- All valid blocks of the segment are evicted.
abbrev pub emptied : Log → ℕ → LogSegment
emptied l v = record (l.segments v) { valid_cnt = 0; write_ptr = 0 }

pub emptied-Inv :
    (fly : ℕ → Bool) (v : ℕ) (l : Log)
    → Dropping fly v l.segment_size_blocks l
    → Inv fly (set_segment l v (emptied l v))
emptied-Inv fly v l w =
    let dead : (i : ℕ) → is_live (l.segments v) i ≡ false = λ i.
      elim (Bool-cases (ltb i l.segment_size_blocks)) [
        | inl b ↦ w.dead i (ground arith)
        | inr b ↦ w.index.unwritten v i (ground (arith, w.index.write_ptr-le v))
      ] in
    let none_live = count_from-none (is_live (l.segments v)) 0 l.segment_size_blocks dead in
    record {
      some_size = w.some_size;
      index =
          blank-IsIndex l.segment_size_blocks l.total_segments l.segments l.mapping l.mapping_size
            w.index v (emptied l v) none_live (omega arith) dead;
      exact = λ s. ground (arith, w.exact s, none_live);
      placed =
          resegment l.total_segments fly l.segments l.regions l.segment_region w.placed
            (update l.segments v (emptied l v)) (λ s e. ground (arith, e));
      counted = λ r. w.counted r ∙ sum_to-same _ _ l.total_segments (λ s b. ground arith);
    }

-- At the start the region gives up the count of the segment.
abbrev pub uncounted : Log → ℕ → RegionKind → Log
uncounted l v kind = record l {
  region_valid_blocks =
      update l.region_valid_blocks (region_index kind)
        (l.region_valid_blocks (region_index kind) + 0 - (l.segments v).valid_cnt);
}

pub uncounted-Dropping :
    (fly : ℕ → Bool) (v : ℕ) (l : Log) (kind : RegionKind)
    → Inv fly l
    → v < l.total_segments
    → l.segment_region v ≡ some kind
    → Dropping fly v 0 (uncounted l v kind)
      × (adjust_region_valid l kind 0 (l.segments v).valid_cnt ≡ ok (uncounted l v kind))
uncounted-Dropping fly v l kind w b home =
    let g = record (l.segments v) { valid_cnt = 0 } in
    (
      record {
        some_size = w.some_size;
        index = w.index;
        exact = λ s ne. w.exact s;
        placed = w.placed;
        counted =
            recount-IsCounted l.total_segments l.segments l.segment_region l.region_valid_blocks
              w.counted v kind g 0 (l.segments v).valid_cnt b home (omega arith);
        dead = λ i x. absurd (omega arith);
      },
      adjust-ok l kind 0 (l.segments v).valid_cnt (
          count-enough l.total_segments l.segments l.segment_region l.region_valid_blocks w.counted
            v kind g 0 (l.segments v).valid_cnt b home (omega arith)),
    )

module _ (d : Device) (Ready : ℕ → d.State → Type 0) (unit_size limit quota : ℕ)
    (a : Accepts d Ready unit_size limit quota) (fly : ℕ → Bool) (v : ℕ) where
  abbrev few : ℕ → Bool
  few = update fly v false

  abbrev next_write : FairyWren d → ℕ
  next_write s =
      if ltb s.next_write_size_to_cache s.write_size_to_cache
      then s.next_write_size_to_cache + ten_gb
      else s.next_write_size_to_cache

  -- An evicted block goes to the cold store.
  pub evict_to_cold-ok :
      (s : FairyWren d) (key : ℕ)
      → Ready s.evicted_blocks s.ftl
      → s.evicted_blocks < quota
      → s.cache_block_size % unit_size ≡ 0
      → 0 < s.cache_block_size
      → key * s.cache_block_size + s.cache_block_size ≤ limit
      → (ftl : d.State) × (evict_to_cold d s (key * s.cache_block_size) s.cache_block_size
          ≡ ok (record s { ftl = ftl; next_write_size_to_cache = next_write s }))
        × Ready (s.evicted_blocks + 1) ftl
  unfolding evict_to_cold
  evict_to_cold-ok s key r left whole some_bytes fits =
      let (ftl, e, r') =
        a.write-Ready s.ftl (key * s.cache_block_size) s.cache_block_size 0 s.evicted_blocks r left
          (multiple unit_size key s.cache_block_size whole) whole some_bytes fits in
      (ftl, rw e refl, r')

  -- What the rest of the loop leaves: the segment stays in its region.
  pub record Dropped (s t : FairyWren d) (idx : ℕ) : Type 0 where
    pub dropping : Dropping fly v idx t.log
    pub stored : Stored d Ready unit_size limit quota t
    pub passes : Passes d few s t
    pub stays : t.log.segment_region v ≡ s.log.segment_region v
    pub same_regions : t.log.regions ≡ s.log.regions

  -- A round that evicts a block.
  module _ (s : FairyWren d) (idx : ℕ) (w : Dropping fly v idx s.log)
      (st : Stored d Ready unit_size limit quota s) (h : is_live (s.log.segments v) idx ≡ true)
      (hs : Histograms) where
    abbrev key : ℕ
    key = ((s.log.segments v).blocks idx).key

    abbrev before : FairyWren d
    before = record s { log = evicted s.log v idx; histograms = hs }

    abbrev after : d.State → FairyWren d
    after ftl = record before {
      ftl = ftl;
      next_write_size_to_cache = next_write before;
      evicted_blocks = s.evicted_blocks + 1;
    }

    round-Dropped :
        (ftl : d.State) × (evict_to_cold d before (key * s.cache_block_size) s.cache_block_size
          ≡ ok (record before { ftl = ftl; next_write_size_to_cache = next_write before }))
        × Dropped s (after ftl) (idx + 1)
    round-Dropped =
        let fits = st.fits key (ap is_some (w.index.indexed v idx h)) in
        let left : s.evicted_blocks < quota =
          omega (arith, st.within, evicted-size fly v idx s.log w h) in
        let (ftl, e, r) = evict_to_cold-ok before key st.ready left st.whole st.some_bytes fits in
        let p : Passes d few s (after ftl) = record {
          same_bytes = refl;
          same_time = refl;
          same_written = refl;
          same_size = refl;
          same_total = refl;
          still = λ j f. ground arith;
          home = λ j f. refl;
          shrinks = λ k x. ground (arith, x);
          conserved = omega (arith, evicted-size fly v idx s.log w h);
        } in
        (
          ftl,
          e,
          record {
            dropping = evicted-Dropping fly v idx s.log w h;
            stored = Stored-Passes d Ready unit_size limit quota few s (after ftl) st p r;
            passes = p;
            stays = refl;
            same_regions = refl;
          },
        )

  Dropped-trans : (s t u : FairyWren d) (i j : ℕ) → Dropped s t i → Dropped t u j → Dropped s u j
  Dropped-trans s t u i j x y = record {
    dropping = y.dropping;
    stored = y.stored;
    passes = Passes-trans d few s t u x.passes y.passes;
    stays = y.stays ∙ x.stays;
    same_regions = y.same_regions ∙ x.same_regions;
  }

  drop_blocks-Dropped :
      (k : ℕ) (s : FairyWren d) (idx n : ℕ)
      → Dropping fly v idx s.log
      → Stored d Ready unit_size limit quota s
      → (t : FairyWren d) × (m : ℕ) × (drop_blocks d k s v idx n ≡ ok (t, m))
        × Dropped s t (idx + k)
  unfolding drop_blocks
  drop_blocks-Dropped zero s idx n w st = (
    s,
    n,
    refl,
    record {
      dropping = subst (λ (i : ℕ). Dropping fly v i s.log) (omega arith) w;
      stored = st;
      passes = Passes-refl d few s;
      stays = refl;
      same_regions = refl;
    },
  )
  drop_blocks-Dropped (suc k) s idx n w st = elim (Bool-cases (is_live (s.log.segments v) idx)) [
    | inl h ↦
        let hs : Histograms = record s.histograms {
          evicted_ages =
              inc s.histograms.evicted_ages
                (age s.log_cache_timestamp ((s.log.segments v).blocks idx).create_timestamp) 1;
        } in
        let (ftl, e, x) = round-Dropped s idx w st h hs in
        let u = after s idx w st h hs ftl in
        let (t, m, e', y) = drop_blocks-Dropped k u (idx + 1) (n + 1) x.dropping x.stored in
        (
          t,
          m,
          rw h (rw (erase-evicted fly v idx s.log w h) (rw e e')),
          subst (λ (i : ℕ). Dropped s t i) (omega arith)
              (Dropped-trans s u t (idx + 1) (idx + 1 + k) x y),
        )
    | inr h ↦
        let (t, m, e, x) =
          drop_blocks-Dropped k s (idx + 1) n (skip-Dropping fly v idx s.log w h) st in
        (t, m, rw h e, subst (λ (i : ℕ). Dropped s t i) (omega arith) x)
  ]

  count_evicted-same :
      (s : FairyWren d) (n : ℕ)
      → (hs : Histograms) × (count_evicted d s v n ≡ record s { histograms = hs })
  unfolding count_evicted
  count_evicted-same s n = elim (Bool-cases (ltb 0 n)) [
    | inl h ↦ (
      record s.histograms {
        evicted_blocks = inc s.histograms.evicted_blocks n 1;
        evicted_ages_with_segment =
            inc s.histograms.evicted_ages_with_segment
              (age s.log_cache_timestamp (s.log.segments v).create_timestamp) 1;
      },
      rw h refl,
    )
    | inr h ↦ (s.histograms, rw h refl)
  ]

  -- A segment in flight is dropped: it has no valid block any more.
  pub drop_segment-Passes :
      (s : FairyWren d) (kind : RegionKind)
      → Inv fly s.log
      → Stored d Ready unit_size limit quota s
      → fly v ≡ true
      → s.log.segment_region v ≡ some kind
      → (t : FairyWren d) × (drop_segment d s v ≡ ok t)
        × Inv fly t.log
        × Stored d Ready unit_size limit quota t
        × Passes d few s t
        × ((t.log.segments v).valid_cnt ≡ 0)
        × (t.log.segment_region v ≡ some kind)
        × (t.log.regions ≡ s.log.regions)
  unfolding drop_segment
  drop_segment-Passes s kind w st f home =
      let b = w.placed.flying v f in
      let (x, counted) = uncounted-Dropping fly v s.log kind w b home in
      let start : FairyWren d = record s { log = uncounted s.log v kind } in
      let st' : Stored d Ready unit_size limit quota start = record {
        ready = st.ready;
        within = st.within;
        some_bytes = st.some_bytes;
        whole = st.whole;
        fits = st.fits;
      } in
      let (t, m, e, y) = drop_blocks-Dropped s.log.segment_size_blocks start 0 0 x st' in
      let (hs, same) = count_evicted-same t m in
      let done : Dropping fly v t.log.segment_size_blocks t.log =
        subst (λ (i : ℕ). Dropping fly v i t.log) (omega (arith, y.passes.same_size)) y.dropping in
      let u : FairyWren d = record t {
        histograms = hs;
        log = set_segment t.log v (emptied t.log v);
      } in
      (
        u,
        rw (current-ok s.log v kind home) (rw counted (rw e (rw same refl))),
        emptied-Inv fly v t.log done,
        record {
          ready = y.stored.ready;
          within = y.stored.within;
          some_bytes = y.stored.some_bytes;
          whole = y.stored.whole;
          fits = y.stored.fits;
        },
        record {
          same_bytes = y.passes.same_bytes;
          same_time = y.passes.same_time;
          same_written = y.passes.same_written;
          same_size = y.passes.same_size;
          same_total = y.passes.same_total;
          still = λ j g. ground (arith, y.passes.still j g);
          home = y.passes.home;
          shrinks = y.passes.shrinks;
          conserved = y.passes.conserved;
        },
        ground arith,
        y.stays ∙ home,
        y.same_regions,
      )
