-- ===== src/FairyWren/Blocks.antt =====
-- A block of the log of `FairyWrenCache` is given up, appended or moved: the log stays well formed.
use ssd_waf.Base.{
  ℕ, ◌+◌, ◌-◌, ◌<◌, ◌≡◌, subst, refl, Bool, true, false, Option, none, some, ltb, update, arith,
  count, sum_to, sum_to-change, sum_to-le, ok,
}
use ssd_waf.LogSegment.{Block, LogSegment}
use ssd_waf.FairyWren.Log.{
  RegionKind, region_index, Loc, Log, region, set_segment, current_region, adjust_region_valid,
}
use ssd_waf.FairyWren.Index.{
  IsIndex, at, is_live, live-cleared, live-put, cleared-size, clear-IsIndex, put-IsIndex,
}
use ssd_waf.FairyWren.Places.{lives, IsCounted, valid_in, resegment}
use ssd_waf.FairyWren.Invariant.{Inv, lives-eq}
use ssd_waf.FairyWren.Cache.{drop_block, erase_key, set_key, put_block}

-- A segment without one of its valid blocks.
abbrev pub dropped : Log → ℕ → ℕ → LogSegment
dropped l s i = record (l.segments s) {
  valid_cnt = (l.segments s).valid_cnt - 1;
  blocks = update (l.segments s).blocks i (record ((l.segments s).blocks i) { valid = false });
}

-- The log without a block, which still has an entry.
abbrev pub unlinked : Log → ℕ → ℕ → RegionKind → Log
unlinked l s i kind = record (set_segment l s (dropped l s i)) {
  region_valid_blocks =
      update l.region_valid_blocks (region_index kind)
        (l.region_valid_blocks (region_index kind) + 0 - 1);
}

-- The log without a block, and without its entry.
abbrev pub forgotten : Log → ℕ → ℕ → ℕ → RegionKind → Log
forgotten l key s i kind = record l {
  segments = update l.segments s (dropped l s i);
  mapping = update l.mapping key none;
  mapping_size = l.mapping_size - 1;
  region_valid_blocks =
      update l.region_valid_blocks (region_index kind)
        (l.region_valid_blocks (region_index kind) + 0 - 1);
}

-- A segment with one more block.
abbrev pub grown : Log → ℕ → Block → LogSegment
grown l seg b = record (l.segments seg) {
  write_ptr = (l.segments seg).write_ptr + 1;
  valid_cnt = (l.segments seg).valid_cnt + 1;
  blocks = update (l.segments seg).blocks (l.segments seg).write_ptr b;
}

-- The log with one more block, and its entry.
abbrev pub appended : Log → ℕ → RegionKind → Block → Log
appended l seg kind b = record l {
  segments = update l.segments seg (grown l seg b);
  mapping = update l.mapping b.key (some (at seg (l.segments seg).write_ptr));
  mapping_size = l.mapping_size + 1;
  region_valid_blocks =
      update l.region_valid_blocks (region_index kind)
        (l.region_valid_blocks (region_index kind) + 1 - 0);
}

-- The count of a region follows a change of one of its segments.
module _ (total : ℕ) (segments : ℕ → LogSegment) (segment_region : ℕ → Option RegionKind)
    (counts : ℕ → ℕ) (w : IsCounted total segments segment_region counts) where
  module _ (seg : ℕ) (kind : RegionKind) (g : LogSegment) (plus minus : ℕ) (inside : seg < total)
      (home : segment_region seg ≡ some kind)
      (grown : g.valid_cnt + minus ≡ (segments seg).valid_cnt + plus) where
    change :
        (r : ℕ)
        → sum_to (valid_in (update segments seg g) segment_region r) total
            + valid_in segments segment_region r seg
          ≡ counts r + valid_in (update segments seg g) segment_region r seg
    change r = omega (
      arith,
      w r,
      sum_to-change (valid_in segments segment_region r)
          (valid_in (update segments seg g) segment_region r) total seg (λ j ne. rw ne) inside,
    )

    pub count-enough : ltb (counts (region_index kind) + plus) minus ≡ false
    count-enough = ground (
      arith,
      home,
      w (region_index kind),
      sum_to-le (valid_in segments segment_region (region_index kind)) total seg inside,
    )

    pub recount-IsCounted :
        IsCounted total
          (update segments seg g)
          segment_region
          (update counts (region_index kind) (counts (region_index kind) + plus - minus))
    recount-IsCounted r = ground (arith, home, change r, count-enough)

pub adjust-ok :
    (l : Log) (kind : RegionKind) (plus minus : ℕ)
    → ltb (l.region_valid_blocks (region_index kind) + plus) minus ≡ false
    → adjust_region_valid l kind plus minus
      ≡ ok (record l {
        region_valid_blocks =
            update l.region_valid_blocks
              (region_index kind)
              (l.region_valid_blocks (region_index kind) + plus - minus);
      })
unfolding adjust_region_valid
adjust-ok l kind plus minus h = rw h refl

pub current-ok :
    (l : Log) (seg : ℕ) (kind : RegionKind)
    → l.segment_region seg ≡ some kind
    → current_region l seg ≡ ok kind
unfolding current_region
current-ok l seg kind e = rw (e, current_region)

pub drop_block-ok :
    (l : Log) (s i : ℕ)
    → 0 < (l.segments s).valid_cnt
    → drop_block l s i ≡ set_segment l s (dropped l s i)
unfolding drop_block
drop_block-ok l s i p =
    let counted : ltb 0 (l.segments s).valid_cnt ≡ true = ground arith in rw counted refl

pub put_block-ok :
    (l : Log) (seg : ℕ) (b : Block)
    → (l.segments seg).write_ptr < l.segment_size_blocks
    → put_block l seg b ≡ ok (set_segment l seg (grown l seg b))
unfolding put_block
put_block-ok l seg b room =
    let fits : ltb (l.segments seg).write_ptr l.segment_size_blocks ≡ true = ground arith in
    rw fits refl

pub set_key-new :
    (l : Log) (key : ℕ) (loc : Loc)
    → l.mapping key ≡ none
    → set_key l key loc
      ≡ record l { mapping = update l.mapping key (some loc); mapping_size = l.mapping_size + 1 }
unfolding set_key
set_key-new l key loc e = rw (e, set_key) refl

pub set_key-old :
    (l : Log) (key : ℕ) (loc old : Loc)
    → l.mapping key ≡ some old
    → set_key l key loc ≡ record l { mapping = update l.mapping key (some loc) }
unfolding set_key
set_key-old l key loc old e = rw (e, set_key) refl

module _ (fly : ℕ → Bool) (l : Log) (w : Inv fly l) where
  -- A segment with a valid block counts it.
  pub some-valid : (s i : ℕ) → is_live (l.segments s) i ≡ true → 0 < (l.segments s).valid_cnt
  some-valid s i v = omega (
    arith,
    w.exact s,
    live-cleared l.segment_size_blocks l.total_segments l.segments l.mapping l.mapping_size w.index
        s i (dropped l s i) v refl refl,
  )

  -- A block that the index leads to is given up, and so is its entry.
  module _ (key s i : ℕ) (kind : RegionKind) (e : l.mapping key ≡ some (at s i))
      (home : l.segment_region s ≡ some kind) where
    forget-IsIndex :
        IsIndex l.segment_size_blocks l.total_segments
          (forgotten l key s i kind).segments
          (forgotten l key s i kind).mapping
          (forgotten l key s i kind).mapping_size
    forget-IsIndex =
        subst
          (λ (k : ℕ).
            IsIndex l.segment_size_blocks l.total_segments (update l.segments s (dropped l s i))
              (update l.mapping k none) (l.mapping_size - 1))
          (w.index.entry-key key s i e)
          (clear-IsIndex l.segment_size_blocks l.total_segments l.segments l.mapping l.mapping_size
            w.index s i (dropped l s i) (w.index.entry-live key s i e) refl refl)

    forget-counted : ltb (l.region_valid_blocks (region_index kind) + 0) 1 ≡ false
    forget-counted =
        count-enough l.total_segments l.segments l.segment_region l.region_valid_blocks w.counted s
          kind (dropped l s i) 0 1 (w.index.entry-below key s i e) home
          (omega (arith, some-valid s i (w.index.entry-live key s i e)))

    pub forget-ok : adjust_region_valid (drop_block l s i) kind 0 1 ≡ ok (unlinked l s i kind)
    forget-ok =
        rw (drop_block-ok l s i (some-valid s i (w.index.entry-live key s i e)))
          (adjust-ok (set_segment l s (dropped l s i)) kind 0 1 forget-counted)

    pub forget-erase : erase_key (unlinked l s i kind) key ≡ forgotten l key s i kind
    unfolding erase_key
    forget-erase = rw (e, erase_key) refl

    pub forget-Inv :
        Inv fly (forgotten l key s i kind)
        × (l.mapping_size ≡ (forgotten l key s i kind).mapping_size + 1)
    forget-Inv =
        let v = w.index.entry-live key s i e in
        let b = w.index.entry-below key s i e in
        let some_here = some-valid s i v in
        (
          record {
            some_size = w.some_size;
            index = forget-IsIndex;
            exact = λ j. ground (
              arith,
              w.exact j,
              w.exact s,
              live-cleared l.segment_size_blocks l.total_segments l.segments l.mapping
                  l.mapping_size w.index s i (dropped l s i) v refl refl,
            );
            placed =
                resegment l.total_segments fly l.segments l.regions l.segment_region w.placed
                  (update l.segments s (dropped l s i)) (λ j h. ground (arith, h));
            counted =
                recount-IsCounted l.total_segments l.segments l.segment_region l.region_valid_blocks
                  w.counted s kind (dropped l s i) 0 1 b home (omega arith);
          },
          omega (
            arith,
            cleared-size l.segment_size_blocks l.total_segments l.segments l.mapping l.mapping_size
                w.index s i (dropped l s i) v refl refl,
          ),
        )

  -- The active segment of a region is in no free list, and not in flight.
  pub active-grounded :
      (kind : RegionKind) (seg : ℕ)
      → (region l kind).active ≡ some seg
      → (l.segment_region seg ≡ some kind)
        × (seg < l.total_segments)
        × (fly seg ≡ false)
        × ((r : ℕ) → count seg (l.regions r).free_segments ≡ 0)
  active-grounded kind seg e =
      let here = w.placed.placed (region_index kind) seg in
      let home : lives (l.segment_region seg) (region_index kind) ≡ true =
        ground (arith, here, e) in
      let home' : l.segment_region seg ≡ some kind = lives-eq _ kind home in
      (
        home',
        ground (arith, w.placed.assigned seg, home'),
        ground (arith, here, e),
        λ r. ground (arith, here, e, home', w.placed.placed r seg),
      )

  -- A block of a key without entry is put into the active segment of a region.
  module _ (seg : ℕ) (kind : RegionKind) (b : Block) (active : (region l kind).active ≡ some seg)
      (room : (l.segments seg).write_ptr < l.segment_size_blocks) (v : b.valid ≡ true)
      (absent : l.mapping b.key ≡ none) where
    pub append-Inv : Inv fly (appended l seg kind b)
    append-Inv =
        let (home, inside, grounded, not_free) = active-grounded kind seg active in
        record {
          some_size = w.some_size;
          index =
              put-IsIndex l.segment_size_blocks l.total_segments l.segments l.mapping l.mapping_size
                w.index seg (grown l seg b) b inside room v absent refl refl;
          exact = λ j. ground (
            arith,
            w.exact j,
            w.exact seg,
            live-put l.segment_size_blocks l.total_segments l.segments l.mapping l.mapping_size
                w.index seg (grown l seg b) b inside room v absent refl refl,
          );
          placed = record {
            placed = w.placed.placed;
            assigned = w.placed.assigned;
            flying = w.placed.flying;
            freed = λ r j x. ground (arith, w.placed.freed r j, not_free r);
          };
          counted =
              recount-IsCounted l.total_segments l.segments l.segment_region l.region_valid_blocks
                w.counted seg kind (grown l seg b) 1 0 inside home (omega arith);
        }
