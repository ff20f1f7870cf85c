-- ===== src/FairyWren/Copy.antt =====
-- The migration of blocks in `FairyWrenCache`: whatever the active segment that a region finds, the
-- blocks of a segment in flight move there one by one, until the region finds none.
use ssd_waf.Base.{
  ℕ, zero, suc, ◌+◌, ◌<◌, ◌≡◌, ◌∙◌, sym, ap, subst, refl, inl, inr, Bool, true, false, not, ◌&&◌,
  Option, none, some, ◌==◌, ltb, update, arith, Bool-cases, ok,
}
use ssd_waf.LogSegment.{LogSegment}
use ssd_waf.Histogram.{inc}
use ssd_waf.Device.{Device}
use ssd_waf.FairyWren.Log.{RegionKind, region_index, Log, region}
use ssd_waf.FairyWren.Index.{is_live}
use ssd_waf.FairyWren.Invariant.{Inv}
use ssd_waf.FairyWren.Cache.{Histograms, FairyWren, age, move_block, leads_to}
use ssd_waf.FairyWren.Collect.{
  Ensure, relocate, migrate_block, copy_blocks, count_migrated, copy_valid_blocks,
}
use ssd_waf.FairyWren.Blocks.{current-ok, active-grounded}
use ssd_waf.FairyWren.Relocation.{relocated, relocated-Inv, same_mapping_size, move_block-ok}
use ssd_waf.FairyWren.Safe.{Stored, Passes, Passes-refl, Passes-trans, Passes-fewer, Stored-Passes}

-- A region before the `b`-th without an active segment has none afterwards.
abbrev pub Quiet : ℕ → Log → Log → Type 0
Quiet b l m = (r : ℕ) → r < b → (l.regions r).active ≡ none → (m.regions r).active ≡ none

-- The active segment that was found has room for a block.
abbrev pub HasRoom : Log → RegionKind → Option ℕ → Type 0
HasRoom l kind none = Unit {0}
HasRoom l kind (some seg) =
    ((region l kind).active ≡ some seg) × ((l.segments seg).write_ptr < l.segment_size_blocks)

module _ (d : Device) (Ready : ℕ → d.State → Type 0) (unit_size limit quota : ℕ) where
  -- The state after an operation during which some segments stay in flight, and which opens a
  -- segment in no region before the `b`-th.
  pub record Kept (b : ℕ) (fly : ℕ → Bool) (s t : FairyWren d) : Type 0 where
    pub inv : Inv fly t.log
    pub stored : Stored d Ready unit_size limit quota t
    pub passes : Passes d fly s t
    pub quiet : Quiet b s.log t.log

  -- The search for an active segment always ends, and keeps the state well formed.
  pub record Finds (ensure : Ensure d) (kind : RegionKind) (allow_force : Bool) : Type 0 where
    pub find :
        (fly : ℕ → Bool) (s : FairyWren d)
        → Inv fly s.log
        → Stored d Ready unit_size limit quota s
        → (t : FairyWren d) × (o : Option ℕ) × (ensure s kind allow_force ≡ ok (t, o))
          × Kept (region_index kind) fly s t
          × HasRoom t.log kind o

  module _ (ensure : Ensure d) (fly : ℕ → Bool) (src : ℕ) (src_kind dest : RegionKind)
      (finds : Finds ensure dest (not (region_index dest == region_index src_kind)))
      (f : fly src ≡ true) where
    abbrev few : ℕ → Bool
    few = update fly src false

    -- After a step of the migration: no block before `idx` is valid, if all blocks have moved.
    pub record Copied (s t : FairyWren d) (done : Bool) (idx : ℕ) : Type 0 where
      pub inv : Inv fly t.log
      pub stored : Stored d Ready unit_size limit quota t
      pub passes : Passes d few s t
      pub stays : t.log.segment_region src ≡ some src_kind
      pub quiet : Quiet (region_index dest) s.log t.log
      pub dead : done ≡ true → (i : ℕ) → i < idx → is_live (t.log.segments src) i ≡ false

    -- A block that moves to the segment that was found.
    module _ (s t : FairyWren d) (idx : ℕ) (k : Kept (region_index dest) fly s t)
        (home : s.log.segment_region src ≡ some src_kind)
        (dead : (i : ℕ) → i < idx → is_live (s.log.segments src) i ≡ false)
        (v : is_live (s.log.segments src) idx ≡ true) (dest_seg : ℕ)
        (found : HasRoom t.log dest (some dest_seg)) where
      home' : t.log.segment_region src ≡ some src_kind
      home' = k.passes.home src f ∙ home

      v' : is_live (t.log.segments src) idx ≡ true
      v' = ap (λ (g : LogSegment). is_live g idx) (k.passes.still src f) ∙ v

      apart : (src == dest_seg) ≡ false
      apart =
          let (_, _, grounded, _) = active-grounded fly t.log k.inv dest dest_seg found.0 in
          ground (arith, f, grounded)

      same_key : ((s.log.segments src).blocks idx).key ≡ ((t.log.segments src).blocks idx).key
      same_key = ap (λ (g : LogSegment). (g.blocks idx).key) (sym (k.passes.still src f))

      abbrev moved : Log
      moved =
          relocated fly t.log k.inv src idx src_kind v' home' dest_seg dest found.0 found.1 apart

      moved-ok :
          move_block t.log src idx src_kind dest_seg dest ((s.log.segments src).blocks idx).key
          ≡ ok moved
      moved-ok =
          ap (move_block t.log src idx src_kind dest_seg dest) same_key
          ∙ move_block-ok fly t.log k.inv src idx src_kind v' home' dest_seg dest found.0 found.1
              apart

      moved-Copied :
          (hs : Histograms)
          → Copied s
              (record t { log = moved; migrated_blocks = t.migrated_blocks + 1; histograms = hs })
              true
              (idx + 1)
      moved-Copied hs =
          let t' : FairyWren d = record t {
            log = moved;
            migrated_blocks = t.migrated_blocks + 1;
            histograms = hs;
          } in
          let (_, _, grounded, _) = active-grounded fly t.log k.inv dest dest_seg found.0 in
          let size =
            same_mapping_size fly t.log k.inv src idx src_kind v' home' dest_seg dest found.0
              found.1 apart in
          let entry = k.inv.index.indexed src idx v' in
          let p : Passes d few t t' = record {
            same_bytes = refl;
            same_time = refl;
            same_written = refl;
            same_size = refl;
            same_total = refl;
            still = λ j g. ground (arith, grounded);
            home = λ j g. refl;
            shrinks = λ key x. ground (arith, x, entry);
            conserved = omega (arith, size);
          } in
          let here = Passes-fewer d fly few s t (λ j g. ground arith) k.passes in
          let whole = Passes-trans d few s t t' here p in
          record {
            inv =
                relocated-Inv fly t.log k.inv src idx src_kind v' home' dest_seg dest found.0
                  found.1 apart;
            stored = Stored-Passes d Ready unit_size limit quota few t t' k.stored p k.stored.ready;
            passes = whole;
            stays = home';
            quiet = k.quiet;
            dead = λ e i b.
                ground (
                  arith,
                  apart,
                  dead i,
                  ap (λ (g : LogSegment). is_live g i) (k.passes.still src f),
                );
          }

    relocate-Copied :
        (s : FairyWren d) (idx : ℕ)
        → Inv fly s.log
        → Stored d Ready unit_size limit quota s
        → s.log.segment_region src ≡ some src_kind
        → ((i : ℕ) → i < idx → is_live (s.log.segments src) i ≡ false)
        → is_live (s.log.segments src) idx ≡ true
        → (t : FairyWren d) × (done : Bool) × (relocate d ensure s src idx dest ≡ ok (t, done))
          × Copied s t done (idx + 1)
    unfolding relocate
    relocate-Copied s idx w st home dead v =
        let (t, o, e, k, found) = finds.find fly s w st in from_found t o e k found
      where
        from_found :
            (t : FairyWren d) (o : Option ℕ)
            → ensure s dest (not (region_index dest == region_index src_kind)) ≡ ok (t, o)
            → Kept (region_index dest) fly s t
            → HasRoom t.log dest o
            → (u : FairyWren d) × (done : Bool) × (relocate d ensure s src idx dest ≡ ok (u, done))
              × Copied s u done (idx + 1)
        from_found t none e k found = (
          t,
          false,
          rw (current-ok s.log src src_kind home) (rw e refl),
          record {
            inv = k.inv;
            stored = k.stored;
            passes = Passes-fewer d fly few s t (λ j g. ground arith) k.passes;
            stays = k.passes.home src f ∙ home;
            quiet = k.quiet;
            dead = λ x i b. cc;
          },
        )
        from_found t (some dest_seg) e k found =
            let (there, _, _, _) = active-grounded fly t.log k.inv dest dest_seg found.0 in
            let hs : Histograms = record t.histograms {
              migrated_ages =
                  inc t.histograms.migrated_ages
                    (age s.log_cache_timestamp ((s.log.segments src).blocks idx).create_timestamp)
                    1;
            } in
            (
              record t {
                log = moved s t idx k home dead v dest_seg found;
                migrated_blocks = t.migrated_blocks + 1;
                histograms = hs;
              },
              true,
              rw (current-ok s.log src src_kind home) (
                  rw e (
                    rw (current-ok t.log dest_seg dest there)
                      (rw (moved-ok s t idx k home dead v dest_seg found) refl))),
              moved-Copied s t idx k home dead v dest_seg found hs,
            )

    -- The round of the loop at a valid block.
    migrate_block-Copied :
        (s : FairyWren d) (idx : ℕ)
        → Inv fly s.log
        → Stored d Ready unit_size limit quota s
        → s.log.segment_region src ≡ some src_kind
        → ((i : ℕ) → i < idx → is_live (s.log.segments src) i ≡ false)
        → is_live (s.log.segments src) idx ≡ true
        → (t : FairyWren d) × (done : Bool) × (migrate_block d ensure s src idx dest ≡ ok (t, done))
          × Copied s t done (idx + 1)
    unfolding migrate_block leads_to
    migrate_block-Copied s idx w st home dead v =
        let leads : leads_to (s.log.mapping ((s.log.segments src).blocks idx).key) src idx ≡ true =
          ground (arith, w.index.indexed src idx v) in
        let (t, done, e, c) = relocate-Copied s idx w st home dead v in
        (t, done, rw v (rw leads e), c)

    Copied-trans :
        (s t u : FairyWren d) (done : Bool) (i : ℕ)
        → Passes d few s t
        → Quiet (region_index dest) s.log t.log
        → Copied t u done i
        → Copied s u done i
    Copied-trans s t u done i a q c = record {
      inv = c.inv;
      stored = c.stored;
      passes = Passes-trans d few s t u a c.passes;
      stays = c.stays;
      quiet = λ r b x. c.quiet r b (q r b x);
      dead = c.dead;
    }

    copy_blocks-Copied :
        (k : ℕ) (s : FairyWren d) (idx n : ℕ)
        → Inv fly s.log
        → Stored d Ready unit_size limit quota s
        → s.log.segment_region src ≡ some src_kind
        → ((i : ℕ) → i < idx → is_live (s.log.segments src) i ≡ false)
        → (t : FairyWren d) × (done : Bool) × (m : ℕ) × (copy_blocks d ensure dest k s src idx n
            ≡ ok (t, done, m))
          × Copied s t done (idx + k)
    unfolding copy_blocks
    copy_blocks-Copied zero s idx n w st home dead = (
      s,
      true,
      n,
      refl,
      record {
        inv = w;
        stored = st;
        passes = Passes-refl d few s;
        stays = home;
        quiet = λ r b x. x;
        dead = λ e i b. dead i (omega arith);
      },
    )
    copy_blocks-Copied (suc k) s idx n w st home dead =
        elim (Bool-cases (is_live (s.log.segments src) idx)) [
          | inl v ↦
              let (t, done, e, c) = migrate_block-Copied s idx w st home dead v in
              from_round v t done e c (λ u. copy_blocks-Copied k u (idx + 1) (n + 1))
          | inr v ↦
              let (t, done, m, e, c) = copy_blocks-Copied k s (idx + 1) n w st home (λ i b.
                elim (Bool-cases (i == idx)) [
                  | inl same ↦ let same' : i ≡ idx = ground arith in rw same' v
                  | inr other ↦ dead i (ground arith)
                ]) in
              (t, done, m, rw v e, subst (λ (i : ℕ). Copied s t done i) (omega arith) c)
        ]
      where
        from_round :
            is_live (s.log.segments src) idx ≡ true
            → (t : FairyWren d) (done : Bool) → migrate_block d ensure s src idx dest ≡ ok (t, done)
            → Copied s t done (idx + 1)
            → ((t : FairyWren d)
                → Inv fly t.log
                → Stored d Ready unit_size limit quota t
                → t.log.segment_region src ≡ some src_kind
                → ((i : ℕ) → i < idx + 1 → is_live (t.log.segments src) i ≡ false)
                → (u : FairyWren d) × (all : Bool) × (m : ℕ) × (copy_blocks d ensure dest k t src
                      (idx + 1)
                      (n + 1)
                    ≡ ok (u, all, m))
                  × Copied t u all (idx + 1 + k))
            → (u : FairyWren d) × (all : Bool) × (m : ℕ) × (copy_blocks d ensure dest
                  (suc k)
                  s
                  src
                  idx
                  n
                ≡ ok (u, all, m))
              × Copied s u all (idx + suc k)
        from_round v t false e c rest = (
          t,
          false,
          n,
          rw v (rw e refl),
          record {
            inv = c.inv;
            stored = c.stored;
            passes = c.passes;
            stays = c.stays;
            quiet = c.quiet;
            dead = λ x i b. cc;
          },
        )
        from_round v t true e c rest =
            let (u, all, m, e', c') = rest t c.inv c.stored c.stays (c.dead refl) in
            (
              u,
              all,
              m,
              rw v (rw e e'),
              subst (λ (i : ℕ). Copied s u all i) (omega arith)
                  (Copied-trans s t u all (idx + 1 + k) c.passes c.quiet c'),
            )

    count_migrated-same :
        (s : FairyWren d) (n : ℕ)
        → (hs : Histograms) × (count_migrated d s src n ≡ record s { histograms = hs })
    unfolding count_migrated
    count_migrated-same s n = elim (Bool-cases (ltb 0 n)) [
      | inl h ↦ (
        record s.histograms {
          migrated_blocks = inc s.histograms.migrated_blocks n 1;
          migrated_ages_with_segment =
              inc s.histograms.migrated_ages_with_segment
                (age s.log_cache_timestamp (s.log.segments src).create_timestamp) 1;
        },
        rw h refl,
      )
      | inr h ↦ (s.histograms, rw h refl)
    ]

    -- The copy of a segment: if it succeeds, the segment has no valid block left.
    pub record Emptied (s t : FairyWren d) (done : Bool) : Type 0 where
      pub inv : Inv fly t.log
      pub stored : Stored d Ready unit_size limit quota t
      pub passes : Passes d few s t
      pub stays : t.log.segment_region src ≡ some src_kind
      pub quiet : Quiet (region_index dest) s.log t.log
      pub none_valid : done ≡ true → (t.log.segments src).valid_cnt ≡ 0

    pub copy_valid_blocks-Emptied :
        (s : FairyWren d)
        → Inv fly s.log
        → Stored d Ready unit_size limit quota s
        → s.log.segment_region src ≡ some src_kind
        → (t : FairyWren d) × (done : Bool) × (copy_valid_blocks d ensure s src dest ≡ ok (t, done))
          × Emptied s t done
    unfolding copy_valid_blocks
    copy_valid_blocks-Emptied s w st home =
        let (t, all, m, e, c) =
          copy_blocks-Copied s.log.segment_size_blocks s 0 0 w st home
            (λ i b. absurd (omega arith)) in
        let (hs, same) = count_migrated-same t m in
        (
          record t { histograms = hs },
          all && (t.log.segments src).valid_cnt == 0,
          rw e (rw same refl),
          record {
            inv = c.inv;
            stored = record {
              ready = c.stored.ready;
              within = c.stored.within;
              some_bytes = c.stored.some_bytes;
              whole = c.stored.whole;
              fits = c.stored.fits;
            };
            passes = record {
              same_bytes = c.passes.same_bytes;
              same_time = c.passes.same_time;
              same_written = c.passes.same_written;
              same_size = c.passes.same_size;
              same_total = c.passes.same_total;
              still = c.passes.still;
              home = c.passes.home;
              shrinks = c.passes.shrinks;
              conserved = c.passes.conserved;
            };
            stays = c.stays;
            quiet = c.quiet;
            none_valid = λ x. ground (arith, x);
          },
        )

  -- Where the region finds no active segment, nothing is copied and nothing changes.
  module _ (ensure : Ensure d) (src : ℕ) (src_kind dest : RegionKind) (fly : ℕ → Bool)
      (s : FairyWren d) (w : Inv fly s.log) (home : s.log.segment_region src ≡ some src_kind)
      (none_found : ensure s dest (not (region_index dest == region_index src_kind))
        ≡ ok (s, none)) where
    migrate_block-stuck :
        (idx : ℕ)
        → is_live (s.log.segments src) idx ≡ true
        → migrate_block d ensure s src idx dest ≡ ok (s, false)
    unfolding migrate_block leads_to relocate
    migrate_block-stuck idx v =
        let leads : leads_to (s.log.mapping ((s.log.segments src).blocks idx).key) src idx ≡ true =
          ground (arith, w.index.indexed src idx v) in
        rw v (rw leads (rw (current-ok s.log src src_kind home) (rw none_found refl)))

    copy_blocks-stuck :
        (k idx n : ℕ) → (all : Bool) × (copy_blocks d ensure dest k s src idx n ≡ ok (s, all, n))
    unfolding copy_blocks
    copy_blocks-stuck zero idx n = (true, refl)
    copy_blocks-stuck (suc k) idx n = elim (Bool-cases (is_live (s.log.segments src) idx)) [
      | inl v ↦ (false, rw v (rw (migrate_block-stuck idx v) refl))
      | inr v ↦ let (all, e) = copy_blocks-stuck k (idx + 1) n in (all, rw v e)
    ]

    pub copy_valid_blocks-stuck :
        (done : Bool) × (copy_valid_blocks d ensure s src dest ≡ ok (s, done))
    unfolding copy_valid_blocks count_migrated
    copy_valid_blocks-stuck =
        let (all, e) = copy_blocks-stuck s.log.segment_size_blocks 0 0 in
        (all && (s.log.segments src).valid_cnt == 0, rw e refl)
