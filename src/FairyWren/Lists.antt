-- ===== src/FairyWren/Lists.antt =====
-- The operations of `FairyWrenCache` on the lists of the regions keep the log well formed.
use ssd_waf.Base.{
  ℕ, ◌+◌, ◌<◌, ◌≡◌, ◌∙◌, sym, ap, subst, refl, Bool, true, false, ◌&&◌, Option, none, some, List,
  [], ◌∷◌, ◌++◌, if◌then◌else◌, ◌==◌, update, arith, fun_ext, count, count-append, ok,
}
use ssd_waf.LogSegment.{LogSegment, reset}
use ssd_waf.FairyWren.Log.{
  RegionKind, region_index, RegionState, Log, region, set_region, set_segment, move_segment_region,
  take_free_segment, release_segment_to_free, give_segment, open_segment,
}
use ssd_waf.FairyWren.Index.{is_live}
use ssd_waf.FairyWren.Places.{holds, IsCounted, lift, move-IsCounted}
use ssd_waf.FairyWren.Invariant.{Inv, Steps, Vacates, lives-eq, home_of, blank-Inv, arrive-Inv}

pub take_free-none :
    (l : Log) (kind : RegionKind)
    → (region l kind).free_segments ≡ []
    → take_free_segment l kind ≡ (none, l)
unfolding take_free_segment
take_free-none l kind e = rw (e, take_free_segment)

pub take_free-some :
    (l : Log) (kind : RegionKind) (seg : ℕ) (rest : List ℕ)
    → (region l kind).free_segments ≡ seg ∷ rest
    → take_free_segment l kind
      ≡ (some seg, set_region l kind (record (region l kind) { free_segments = rest }))
unfolding take_free_segment
take_free-some l kind seg rest e = rw (e, take_free_segment)

module _ (fly : ℕ → Bool) (l : Log) (w : Inv fly l) where
  -- The front of a free list takes off.
  pub take_free-Inv :
      (kind : RegionKind) (seg : ℕ) (rest : List ℕ)
      → (region l kind).free_segments ≡ seg ∷ rest
      → Inv
          (update fly seg true)
          (set_region l kind (record (region l kind) { free_segments = rest }))
        × (fly seg ≡ false)
        × (l.segment_region seg ≡ some kind)
        × (seg < l.total_segments)
        × ((l.segments seg).valid_cnt ≡ 0)
  unfolding count
  take_free-Inv kind seg rest e =
      let (p, f, h, b) =
        lift l.total_segments fly l.segments l.regions l.segment_region w.placed seg kind
          (update l.regions (region_index kind) (record (region l kind) { free_segments = rest }))
          (λ r s. ground (arith, ap (count s) e))
          (λ r s x. ground (arith, w.placed.freed r s, ap (count s) e)) in
      (
        record {
          some_size = w.some_size;
          index = w.index;
          exact = w.exact;
          placed = p;
          counted = w.counted;
        },
        f,
        lives-eq _ kind h,
        b,
        w.placed.freed (region_index kind) seg (ground (arith, ap (count seg) e)),
      )

  -- The front of a queue takes off.
  pub pop_front-Inv :
      (kind : RegionKind) (seg : ℕ) (rest : List ℕ)
      → (region l kind).fifo_segments ≡ seg ∷ rest
      → Inv
          (update fly seg true)
          (set_region l kind (record (region l kind) { fifo_segments = rest }))
        × (fly seg ≡ false)
        × (l.segment_region seg ≡ some kind)
        × (seg < l.total_segments)
  unfolding count
  pop_front-Inv kind seg rest e =
      let (p, f, h, b) =
        lift l.total_segments fly l.segments l.regions l.segment_region w.placed seg kind
          (update l.regions (region_index kind) (record (region l kind) { fifo_segments = rest }))
          (λ r s. ground (arith, ap (count s) e)) (λ r s x. ground (arith, w.placed.freed r s)) in
      (
        record {
          some_size = w.some_size;
          index = w.index;
          exact = w.exact;
          placed = p;
          counted = w.counted;
        },
        f,
        lives-eq _ kind h,
        b,
      )

  -- A segment in flight without valid blocks is reset, and comes down in a region.
  module _ (kind : RegionKind) (seg : ℕ) (g : LogSegment) (next : ℕ → RegionState)
      (f : fly seg ≡ true) (e : (l.segments seg).valid_cnt ≡ 0) (e' : g.valid_cnt ≡ 0)
      (ptr : g.write_ptr ≡ 0) (dead : (i : ℕ) → is_live g i ≡ false)
      (same : (r s : ℕ)
        → holds (next r) s
          ≡ holds (l.regions r) s + (if region_index kind == r && seg == s then 1 else 0))
      (empty : (r s : ℕ)
        → 0 < count s (next r).free_segments
        → (update l.segments seg g s).valid_cnt ≡ 0) where
    abbrev blank : Inv fly (set_segment l seg g)
    blank = blank-Inv fly l w seg g e e' (omega arith) dead

    pub settle-Inv :
        (m : Log) × (move_segment_region
            (record l { segments = update l.segments seg g; regions = next })
            seg
            kind
          ≡ ok m)
        × Inv (update fly seg false) m
        × Steps (update fly seg false) l m
        × (m.regions ≡ next)
        × (m.segments ≡ update l.segments seg g)
        × (m.segment_region ≡ update l.segment_region seg (some kind))
    settle-Inv =
        let b = w.placed.flying seg f in
        let (old, at_home) = home_of fly l w seg b in
        let (counts, moved, c) =
          move-IsCounted (record l { segments = update l.segments seg g; regions = next })
            blank.counted seg kind old at_home b in
        (
          _,
          moved,
          arrive-Inv fly (set_segment l seg g) blank seg kind next counts f same empty c,
          record {
            same_size = refl;
            same_total = refl;
            same_mapping = refl;
            same_mapping_size = refl;
            still = λ s x. ground arith;
            home = λ s x. ground arith;
          },
          refl,
          refl,
          refl,
        )

  module _ (kind : RegionKind) (seg : ℕ) (f : fly seg ≡ true)
      (e : (l.segments seg).valid_cnt ≡ 0) where
    -- It goes to the back of a free list.
    abbrev one_more_free : RegionState
    one_more_free = record (region l kind) {
      free_segments = (region l kind).free_segments ++ (seg ∷ []);
    }

    give-quiet :
        (r : ℕ)
        → (l.regions r).active ≡ none
        → (update l.regions (region_index kind) one_more_free r).active ≡ none
    give-quiet r e = ground (arith, e)

    pub give-Inv :
        (m : Log) × (give_segment l kind seg ≡ ok m)
        × Inv (update fly seg false) m
        × Steps (update fly seg false) l m
        × Vacates l m
    unfolding give_segment reset count
    give-Inv =
        let (m, moved, v, s, n, _, _) =
          settle-Inv kind seg (reset (l.segments seg))
            (update l.regions (region_index kind) one_more_free) f e refl refl (λ i. refl)
            (λ r s. ground (arith, count-append s (region l kind).free_segments (seg ∷ [])))
            (λ r s x. ground (
              arith,
              w.placed.freed r s,
              count-append s (region l kind).free_segments (seg ∷ []),
            )) in
        (m, moved, v, s, λ r e. ap (λ (x : ℕ → RegionState). (x r).active) n ∙ give-quiet r e)

    pub release-Inv :
        (m : Log) × (release_segment_to_free l kind seg ≡ ok m)
        × Inv (update fly seg false) m
        × Steps (update fly seg false) l m
        × Vacates l m
    unfolding release_segment_to_free give_segment
    release-Inv =
        let (m, moved, v, s, n) = give-Inv in
        let none_valid : ((l.segments seg).valid_cnt == 0) ≡ true = ground arith in
        (m, rw none_valid moved, v, s, n)

    -- It becomes the active segment of a region that has none.
    pub open-Inv :
        (timestamp : ℕ)
        → (region l kind).active ≡ none
        → (m : Log) × (open_segment l kind timestamp seg ≡ ok m)
          × Inv (update fly seg false) m
          × Steps (update fly seg false) l m
          × ((region m kind).active ≡ some seg)
          × ((m.segments seg).write_ptr ≡ 0)
          × (m.segment_region seg ≡ some kind)
          × ((r : ℕ)
              → (region_index kind == r) ≡ false
              → (m.regions r).active ≡ (l.regions r).active)
    unfolding open_segment reset count
    open-Inv timestamp vacant =
        let (m, moved, v, s, r, g, h) =
          settle-Inv kind seg (record (reset (l.segments seg)) { create_timestamp = timestamp })
            (update l.regions (region_index kind) (record (region l kind) { active = some seg })) f
            e refl refl (λ i. refl) (λ r s. ground (arith, vacant))
            (λ r s x. ground (arith, w.placed.freed r s)) in
        (
          m,
          moved,
          v,
          s,
          ground (arith, ap (λ (x : ℕ → RegionState). (x (region_index kind)).active) r),
          ground (arith, ap (λ (x : ℕ → LogSegment). (x seg).write_ptr) g),
          ap (λ (x : ℕ → Option RegionKind). x seg) h ∙ ground arith,
          λ j ne. ground (arith, ne, ap (λ (x : ℕ → RegionState). (x j).active) r),
        )

  -- A segment in flight comes down in its own region, or in another one.
  module _ (seg : ℕ) (kind : RegionKind) (next : ℕ → RegionState) (f : fly seg ≡ true)
      (same : (r s : ℕ)
        → holds (next r) s
          ≡ holds (l.regions r) s + (if region_index kind == r && seg == s then 1 else 0))
      (empty : (r s : ℕ) → 0 < count s (next r).free_segments → (l.segments s).valid_cnt ≡ 0) where
    pub return-Inv :
        l.segment_region seg ≡ some kind → Inv (update fly seg false) (record l { regions = next })
    return-Inv home =
        let kept : update l.segment_region seg (some kind) ≡ l.segment_region =
          fun_ext (λ s. ground (arith, home)) in
        let counted' =
          subst
            (λ (h : ℕ → Option RegionKind).
              IsCounted l.total_segments l.segments h l.region_valid_blocks)
            (sym kept) w.counted in
        subst
          (λ (h : ℕ → Option RegionKind).
            Inv (update fly seg false) (record l { regions = next; segment_region = h }))
          kept (arrive-Inv fly l w seg kind next l.region_valid_blocks f same empty counted')

    pub transfer-Inv :
        (m : Log) × (move_segment_region l seg kind ≡ ok m)
        × Inv (update fly seg false) (record m { regions = next })
        × Steps (update fly seg false) l (record m { regions = next })
        × (m.regions ≡ l.regions)
    transfer-Inv =
        let b = w.placed.flying seg f in
        let (old, at_home) = home_of fly l w seg b in
        let (counts, moved, c) = move-IsCounted l w.counted seg kind old at_home b in
        (
          _,
          moved,
          arrive-Inv fly l w seg kind next counts f same empty c,
          record {
            same_size = refl;
            same_total = refl;
            same_mapping = refl;
            same_mapping_size = refl;
            still = λ s x. refl;
            home = λ s x. ground arith;
          },
          refl,
        )
