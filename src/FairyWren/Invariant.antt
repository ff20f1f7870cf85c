-- ===== src/FairyWren/Invariant.antt =====
-- The well-formedness of the log of `FairyWrenCache` (Inv), while some segments are in flight, that
-- is in no list, and what an operation on the lists leaves alone (Steps).
use ssd_waf.Base.{
  ℕ, ◌+◌, ◌≤◌, ◌<◌, ◌≡◌, ◌∙◌, sym, ap, refl, Bool, true, false, ◌&&◌, Option, none, some,
  if◌then◌else◌, ◌==◌, update, arith, fun_ext, count, count_from-none, sum_to-same,
}
use ssd_waf.LogSegment.{LogSegment}
use ssd_waf.FairyWren.Log.{
  RegionKind, fwlog, hot, cold, region_index, RegionState, Log, set_segment,
}
use ssd_waf.FairyWren.Index.{IsIndex, is_live, live, blank-IsIndex}
use ssd_waf.FairyWren.Places.{lives, holds, IsPlaced, IsCounted, land, resegment}

pub record Inv (fly : ℕ → Bool) (l : Log) : Type 0 where
  pub some_size : 0 < l.segment_size_blocks
  pub index : IsIndex l.segment_size_blocks l.total_segments l.segments l.mapping l.mapping_size
  pub exact : (s : ℕ) → (l.segments s).valid_cnt ≡ live l.segment_size_blocks (l.segments s)
  pub placed : IsPlaced l.total_segments fly l.segments l.regions l.segment_region
  pub counted : IsCounted l.total_segments l.segments l.segment_region l.region_valid_blocks

-- The index is the same, and so are the segments in flight.
pub record Steps (fly : ℕ → Bool) (l m : Log) : Type 0 where
  pub same_size : m.segment_size_blocks ≡ l.segment_size_blocks
  pub same_total : m.total_segments ≡ l.total_segments
  pub same_mapping : m.mapping ≡ l.mapping
  pub same_mapping_size : m.mapping_size ≡ l.mapping_size
  pub still : (s : ℕ) → fly s ≡ true → m.segments s ≡ l.segments s
  pub home : (s : ℕ) → fly s ≡ true → m.segment_region s ≡ l.segment_region s

-- A region without an active segment has none afterwards.
abbrev pub Vacates : Log → Log → Type 0
Vacates l m = (r : ℕ) → (l.regions r).active ≡ none → (m.regions r).active ≡ none

pub Steps-trans : (fly : ℕ → Bool) (l m n : Log) → Steps fly l m → Steps fly m n → Steps fly l n
Steps-trans fly l m n a b = record {
  same_size = b.same_size ∙ a.same_size;
  same_total = b.same_total ∙ a.same_total;
  same_mapping = b.same_mapping ∙ a.same_mapping;
  same_mapping_size = b.same_mapping_size ∙ a.same_mapping_size;
  still = λ s f. b.still s f ∙ a.still s f;
  home = λ s f. b.home s f ∙ a.home s f;
}

-- Fewer segments in flight are kept, too.
pub Steps-fewer :
    (fly few : ℕ → Bool) (l m : Log)
    → ((s : ℕ) → few s ≡ true → fly s ≡ true)
    → Steps fly l m
    → Steps few l m
Steps-fewer fly few l m h a = record {
  same_size = a.same_size;
  same_total = a.same_total;
  same_mapping = a.same_mapping;
  same_mapping_size = a.same_mapping_size;
  still = λ s f. a.still s (h s f);
  home = λ s f. a.home s (h s f);
}

pub kind_eq : (j k : RegionKind) → (region_index j == region_index k) ≡ true → j ≡ k
kind_eq fwlog fwlog h = refl
kind_eq fwlog hot h = cc
kind_eq fwlog cold h = cc
kind_eq hot fwlog h = cc
kind_eq hot hot h = refl
kind_eq hot cold h = cc
kind_eq cold fwlog h = cc
kind_eq cold hot h = cc
kind_eq cold cold h = refl

pub lives-eq :
    (o : Option RegionKind) (kind : RegionKind) → lives o (region_index kind) ≡ true → o ≡ some kind
lives-eq none kind h = cc
lives-eq (some j) kind h = ap some (kind_eq j kind h)

-- A flight that ends where it began changes nothing.
pub landed-fly : (fly : ℕ → Bool) (v : ℕ) → fly v ≡ false → update (update fly v true) v false ≡ fly
landed-fly fly v f = fun_ext (λ s. ground arith)

module _ (fly : ℕ → Bool) (l : Log) (w : Inv fly l) where
  pub home_of : (s : ℕ) → s < l.total_segments → (k : RegionKind) × (l.segment_region s ≡ some k)
  home_of s b = from_option (l.segment_region s) refl
    where
      from_option :
          (o : Option RegionKind)
          → l.segment_region s ≡ o
          → (k : RegionKind) × (l.segment_region s ≡ some k)
      from_option none e = absurd (ground (arith, w.placed.assigned s, e))
      from_option (some k) e = (k, e)

  -- A segment without valid blocks is reset.
  pub blank-Inv :
      (seg : ℕ) (g : LogSegment)
      → (l.segments seg).valid_cnt ≡ 0
      → g.valid_cnt ≡ 0
      → g.write_ptr ≤ l.segment_size_blocks
      → ((i : ℕ) → is_live g i ≡ false)
      → Inv fly (set_segment l seg g)
  blank-Inv seg g e e' ptr f =
      let empty : live l.segment_size_blocks g ≡ 0 =
        count_from-none (is_live g) 0 l.segment_size_blocks f in
      record {
        some_size = w.some_size;
        index =
            blank-IsIndex l.segment_size_blocks l.total_segments l.segments l.mapping l.mapping_size
              w.index seg g (sym (w.exact seg) ∙ e) ptr f;
        exact = λ s. ground (arith, w.exact s, e', empty);
        placed =
            resegment l.total_segments fly l.segments l.regions l.segment_region w.placed
              (update l.segments seg g) (λ s h. ground (arith, h, e'));
        counted =
            λ r. w.counted r ∙ sum_to-same _ _ l.total_segments (λ s b. ground (arith, e, e'));
      }

  -- A segment in flight comes down in a region, with the regions' new counts.
  pub arrive-Inv :
      (seg : ℕ) (kind : RegionKind) (next : ℕ → RegionState) (counts : ℕ → ℕ)
      → fly seg ≡ true
      → ((r s : ℕ)
          → holds (next r) s
            ≡ holds (l.regions r) s + (if region_index kind == r && seg == s then 1 else 0))
      → ((r s : ℕ) → 0 < count s (next r).free_segments → (l.segments s).valid_cnt ≡ 0)
      → IsCounted l.total_segments l.segments (update l.segment_region seg (some kind)) counts
      → Inv (update fly seg false) (record l {
        regions = next;
        segment_region = update l.segment_region seg (some kind);
        region_valid_blocks = counts;
      })
  arrive-Inv seg kind next counts f same empty c = record {
    some_size = w.some_size;
    index = w.index;
    exact = w.exact;
    placed =
        land l.total_segments fly l.segments l.regions l.segment_region w.placed seg kind next f
          same empty;
    counted = c;
  }
