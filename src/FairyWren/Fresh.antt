-- ===== src/FairyWren/Fresh.antt =====
-- The constructor of `FairyWrenCache` yields a well-formed state.
use ssd_waf.Base.{
  min, ℕ, zero, suc, ◌+◌, ◌*◌, ◌/◌, ◌%◌, ◌^◌, ◌≤◌, ◌<◌, ◌≡◌, ◌∙◌, sym, subst, refl, inl, inr, true,
  false, none, [], ◌∷◌, if◌then◌else◌, ◌==◌, ltb, arith, Bool-cases, count, count-append,
  sum_to-zero, count_from-none, ok,
}
use ssd_waf.Histogram
use ssd_waf.Device.{Device}
use ssd_waf.LogSegment.{reset}
use ssd_waf.FairyWren.Log.{RegionKind, fwlog, hot, cold, Log, region}
use ssd_waf.FairyWren.Cache.{Histograms, FairyWren}
use ssd_waf.FairyWren.Index.{is_live}
use ssd_waf.FairyWren.Places.{lives, is_some, holds}
use ssd_waf.FairyWren.Invariant.{Inv}
use ssd_waf.FairyWren.Invalidate.{no_flight, IsCache}
use ssd_waf.FairyWren.Init.{
  add_free, fill_region, fill_regions, initialize_regions, blank, partition, partition-parts,
  set_total, new_histograms, new_cache, init,
}

-- The first `n` segments are in the lists of the regions, and no block is valid.
record Started (n : ℕ) (l : Log) : Type 0 where
  some_size : 0 < l.segment_size_blocks
  unmapped : (key : ℕ) → l.mapping key ≡ none
  no_entries : l.mapping_size ≡ 0
  at_start : (s : ℕ) → (l.segments s).write_ptr ≡ 0
  none_valid : (s : ℕ) → (l.segments s).valid_cnt ≡ 0
  dead : (s i : ℕ) → is_live (l.segments s) i ≡ false
  uncounted : (r : ℕ) → l.region_valid_blocks r ≡ 0
  placed : (r s : ℕ) → holds (l.regions r) s ≡ (if lives (l.segment_region s) r then 1 else 0)
  assigned : (s : ℕ) → is_some (l.segment_region s) ≡ ltb s n

blank-Started : (size total : ℕ) → 0 < size → Started 0 (blank size total)
unfolding blank count
blank-Started size total some_size = record {
  some_size = some_size;
  unmapped = λ key. refl;
  no_entries = refl;
  at_start = λ s. refl;
  none_valid = λ s. refl;
  dead = λ s i. refl;
  uncounted = λ r. refl;
  placed = λ r s. refl;
  assigned = λ s. ground arith;
}

blank-some : (size n : ℕ) → 0 < (blank size (if n == 0 then 1 else n)).total_segments
unfolding blank
blank-some size n = ground arith

Started-Inv : (l : Log) → Started l.total_segments l → Inv no_flight l
Started-Inv l w = record {
  some_size = w.some_size;
  index = record {
    write_ptr-le = λ s. omega (arith, w.at_start s);
    unwritten = λ s i h. w.dead s i;
    entry-below = λ key s i e. ground (arith, w.unmapped key);
    entry-live = λ key s i e. ground (arith, w.unmapped key);
    entry-key = λ key s i e. ground (arith, w.unmapped key);
    indexed = λ s i v. ground (arith, w.dead s i);
    sized =
        w.no_entries ∙ sym (sum_to-zero _ l.total_segments (λ s. count_from-none _ 0 _ (w.dead s)));
  };
  exact = λ s. w.none_valid s ∙ sym (count_from-none _ 0 _ (w.dead s));
  placed = record {
    placed = w.placed;
    assigned = w.assigned;
    flying = λ s e. cc;
    freed = λ r s h. w.none_valid s;
  };
  counted = λ r.
      w.uncounted r ∙ sym (sum_to-zero _ l.total_segments (λ s. ground (arith, w.none_valid s)));
}

add_free-Started :
    (n : ℕ) (l : Log) (kind : RegionKind) → Started n l → Started (n + 1) (add_free l kind n)
unfolding add_free reset count
add_free-Started n l kind w = record {
  some_size = w.some_size;
  unmapped = w.unmapped;
  no_entries = w.no_entries;
  at_start = λ s. ground (arith, w.at_start s);
  none_valid = λ s. ground (arith, w.none_valid s);
  dead = λ s i. ground (arith, w.dead s i);
  uncounted = w.uncounted;
  placed = λ r s.
      ground
        (arith, w.placed r s, w.assigned s, count-append s (region l kind).free_segments (n ∷ []));
  assigned = λ s. ground (arith, w.assigned s);
}

set_total-Started :
    (n k : ℕ) (l : Log) (kind : RegionKind) → Started n l → Started n (set_total l kind k)
set_total-Started n k l kind w = record {
  some_size = w.some_size;
  unmapped = w.unmapped;
  no_entries = w.no_entries;
  at_start = w.at_start;
  none_valid = w.none_valid;
  dead = w.dead;
  uncounted = w.uncounted;
  placed = λ r s. ground (arith, w.placed r s);
  assigned = w.assigned;
}

add_free-same :
    (l : Log) (kind : RegionKind) (j : ℕ)
    → ((add_free l kind j).total_segments ≡ l.total_segments)
      × ((add_free l kind j).segment_size_blocks ≡ l.segment_size_blocks)
unfolding add_free
add_free-same l kind j = (refl, refl)

-- A loop stops at the end of the segments.
fill-Started :
    (k : ℕ) (l : Log) (kind : RegionKind) (it : ℕ)
    → it ≤ l.total_segments
    → Started it l
    → Started (fill_region k l kind it).1 (fill_region k l kind it).0
      × ((fill_region k l kind it).1 ≡ min (it + k) l.total_segments)
      × ((fill_region k l kind it).0.total_segments ≡ l.total_segments)
      × ((fill_region k l kind it).0.segment_size_blocks ≡ l.segment_size_blocks)
unfolding fill_region
fill-Started zero l kind it h w = (w, ground arith, refl, refl)
fill-Started (suc k) l kind it h w = elim (Bool-cases (ltb it l.total_segments)) [
  | inl more ↦ rw more (
      let (x, e, total, size) =
        fill-Started k (add_free l kind it) kind (it + 1)
          (ground (arith, more, (add_free-same l kind it).0)) (add_free-Started it l kind w) in
      let (same_total, same_size) = add_free-same l kind it in
      (x, e ∙ ground (arith, same_total), total ∙ same_total, size ∙ same_size))
  | inr end ↦ rw end (w, ground (arith, end), refl, refl)
]

module _ (l : Log) (f h c : ℕ) (sum : f + h + c ≡ l.total_segments) (w : Started 0 l) where
  abbrev first : Log × ℕ
  first = fill_region f l fwlog 0

  abbrev second : Log × ℕ
  second = fill_region h first.0 hot first.1

  first-Started :
      Started f first.0
      × (first.1 ≡ f)
      × (first.0.total_segments ≡ l.total_segments)
      × (first.0.segment_size_blocks ≡ l.segment_size_blocks)
  first-Started =
      let (x, e, t, z) = fill-Started f l fwlog 0 (omega arith) w in
      let at : first.1 ≡ f = ground (arith, e, sum) in
      (subst (λ (n : ℕ). Started n first.0) at x, at, t, z)

  second-Started :
      Started (f + h) second.0
      × (second.1 ≡ f + h)
      × (second.0.total_segments ≡ l.total_segments)
      × (second.0.segment_size_blocks ≡ l.segment_size_blocks)
  second-Started =
      let (x, at, t, z) = first-Started in
      let (y, e, t', z') =
        fill-Started h first.0 hot first.1 (omega (arith, at, t, sum))
          (subst (λ (n : ℕ). Started n first.0) (sym at) x) in
      let at' : second.1 ≡ f + h = ground (arith, e, at, t, sum) in
      (subst (λ (n : ℕ). Started n second.0) at' y, at', t' ∙ t, z' ∙ z)

  fill_regions-Started :
      Started l.total_segments (fill_regions l (f, h, c))
      × ((fill_regions l (f, h, c)).total_segments ≡ l.total_segments)
      × ((fill_regions l (f, h, c)).segment_size_blocks ≡ l.segment_size_blocks)
  unfolding fill_regions
  fill_regions-Started =
      let (x, at, t, z) = second-Started in
      let (y, e, t', z') =
        fill-Started l.total_segments second.0 cold second.1 (omega (arith, at, t, sum))
          (subst (λ (n : ℕ). Started n second.0) (sym at) x) in
      (
        subst (λ (n : ℕ). Started n (fill_region l.total_segments second.0 cold second.1).0)
            (ground (arith, e, t)) y,
        t' ∙ t,
        z' ∙ z,
      )

module _ (round_fwlog round_hot : ℕ → ℕ) where
  initialize_regions-Started :
      (l : Log)
      → 0 < l.total_segments
      → Started 0 l
      → (m : Log) × (initialize_regions round_fwlog round_hot l ≡ ok m)
        × Started m.total_segments m
        × (m.total_segments ≡ l.total_segments)
        × (m.segment_size_blocks ≡ l.segment_size_blocks)
  unfolding initialize_regions
  initialize_regions-Started l some_segment w =
      let p = partition round_fwlog round_hot l.total_segments in
      let (sum, _, _) = partition-parts round_fwlog round_hot l.total_segments some_segment in
      let sized : Log = set_total (set_total (set_total l fwlog p.0) hot p.1) cold p.2 in
      let filled : Log = fill_regions sized (p.0, p.1, p.2) in
      let counted : Started 0 sized =
        set_total-Started 0 p.2 _ cold
          (set_total-Started 0 p.1 _ hot (set_total-Started 0 p.0 l fwlog w)) in
      let (x, t, z) = fill_regions-Started sized p.0 p.1 p.2 sum counted in
      let whole : (p.0 + p.1 + p.2 == l.total_segments) ≡ true = ground (arith, sum) in
      (filled, rw whole refl, subst (λ (n : ℕ). Started n filled) (sym t) x, t, z)

new_histograms-ok : (interval : ℕ) → (h : Histograms) × (new_histograms interval ≡ ok h)
unfolding new_histograms Histogram.init
new_histograms-ok interval = (_, refl)

module _ (d : Device) (Ready : ℕ → d.State → Type 0) (unit_size limit quota : ℕ)
    (round_fwlog round_hot : ℕ → ℕ) where
  -- The new cache.
  pub record Empty (s : FairyWren d) (ftl : d.State) (block_size : ℕ) : Type 0 where
    pub cache : IsCache d Ready unit_size limit quota s
    pub unmapped : (key : ℕ) → s.log.mapping key ≡ none
    pub no_entries : s.log.mapping_size ≡ 0
    pub none_evicted : s.evicted_blocks ≡ 0
    pub none_written : s.write_size_to_cache ≡ 0
    pub start : s.log_cache_timestamp ≡ 0
    pub bytes : s.cache_block_size ≡ block_size
    pub store : s.ftl ≡ ftl

  -- The constructor yields an empty well-formed cache over a store that is ready, when a segment has
  -- room for a block of some bytes, which is of whole units of the store.
  pub init-Empty :
      (interval : ℕ) (ftl : d.State) (block_count block_size segment_bytes : ℕ)
      → Ready 0 ftl
      → 0 < block_size
      → block_size % unit_size ≡ 0
      → 0 < segment_bytes / block_size
      → (s : FairyWren d) × (init d round_fwlog round_hot interval ftl block_count block_size
            segment_bytes
          ≡ ok s)
        × Empty s ftl block_size
  unfolding init
  init-Empty interval ftl block_count block_size segment_bytes ready some_bytes whole some_size =
      let count = block_count * block_size % 2 ^ 64 / segment_bytes in
      let total = if count == 0 then 1 else count in
      let (h, e) = new_histograms-ok interval in
      let (l, q, x, _, _) =
        initialize_regions-Started round_fwlog round_hot (blank (segment_bytes / block_size) total)
          (blank-some (segment_bytes / block_size) count)
          (blank-Started (segment_bytes / block_size) total some_size) in
      let bytes : (block_size == 0) ≡ false = ground (arith, some_bytes) in
      let size : (segment_bytes / block_size == 0) ≡ false = ground (arith, some_size) in
      (
        new_cache d round_fwlog round_hot h ftl block_size segment_bytes l,
        rw e (rw bytes (rw size (rw q refl))),
        record {
          cache = record {
            inv = Started-Inv l x;
            stored = record {
              ready = ready;
              within = omega (arith, x.no_entries);
              some_bytes = some_bytes;
              whole = whole;
              fits = λ key m. ground (arith, x.unmapped key, m);
            };
          };
          unmapped = x.unmapped;
          no_entries = x.no_entries;
          none_evicted = refl;
          none_written = refl;
          start = refl;
          bytes = refl;
          store = refl;
        },
      )
