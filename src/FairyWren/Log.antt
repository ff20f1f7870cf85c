-- ===== src/FairyWren/Log.antt =====
-- The segments, the regions and the index of `FairyWrenCache`, and the operations on them.
use ssd_waf.Base.{
  ℕ, ◌+◌, ◌-◌, Bool, true, false, Option, none, some, List, [], ◌∷◌, ◌++◌, if◌then◌else◌, ◌==◌, ltb,
  update, Result, ok, fault, ◌>>=◌,
}
use ssd_waf.LogSegment.{LogSegment, full, reset}

-- `COUNT`, the size of the arrays, is no region.
pub data RegionKind : Type 0 where
  fwlog : RegionKind
  hot : RegionKind
  cold : RegionKind

abbrev pub region_index : RegionKind → ℕ
region_index fwlog = 0
region_index hot = 1
region_index cold = 2

-- The fronts of the deques are the heads of the lists.
pub record RegionState : Type 0 where
  pub total_segments : ℕ
  pub free_segments : List ℕ
  pub fifo_segments : List ℕ
  pub active : Option ℕ

pub record Loc : Type 0 where
  pub seg : ℕ
  pub idx : ℕ

-- A segment's address is its number in `all_segments_`; `regions_` and `region_valid_blocks_` are
-- addressed by `region_index`, `mapping_` and its size by keys.
pub record Log : Type 0 where
  pub segment_size_blocks : ℕ
  pub total_segments : ℕ
  pub segments : ℕ → LogSegment
  pub regions : ℕ → RegionState
  pub segment_region : ℕ → Option RegionKind
  pub mapping : ℕ → Option Loc
  pub mapping_size : ℕ
  pub region_valid_blocks : ℕ → ℕ

abbrev pub region : Log → RegionKind → RegionState
region l kind = l.regions (region_index kind)

abbrev pub set_region : Log → RegionKind → RegionState → Log
set_region l kind r = record l { regions = update l.regions (region_index kind) r }

abbrev pub set_segment : Log → ℕ → LogSegment → Log
set_segment l seg g = record l { segments = update l.segments seg g }

unfoldable pub current_region : Log → ℕ → Result RegionKind
current_region l seg = elim (l.segment_region seg) [ none ↦ fault | some kind ↦ ok kind ]

-- The signed `delta` is the difference of two numbers.
unfoldable pub adjust_region_valid : Log → RegionKind → ℕ → ℕ → Result Log
adjust_region_valid l kind plus minus =
    let idx = region_index kind in
    let old = l.region_valid_blocks idx in
    if ltb (old + plus) minus
    then fault
    else ok
        (record l { region_valid_blocks = update l.region_valid_blocks idx (old + plus - minus) })

unfoldable pub move_valid : Log → RegionKind → RegionKind → ℕ → Result Log
move_valid l old_kind new_kind valid_cnt =
    if region_index old_kind == region_index new_kind
    then ok l
    else adjust_region_valid l old_kind 0 valid_cnt >>= λ m.
        adjust_region_valid m new_kind valid_cnt 0

unfoldable pub move_segment_region : Log → ℕ → RegionKind → Result Log
move_segment_region l seg new_kind = elim (l.segment_region seg) [
  | none ↦ ok (record l { segment_region = update l.segment_region seg (some new_kind) })
  | some old_kind ↦ do
    m ← move_valid l old_kind new_kind (l.segments seg).valid_cnt
    ok (record m { segment_region = update m.segment_region seg (some new_kind) })
]

unfoldable pub take_free_segment : Log → RegionKind → Option ℕ × Log
take_free_segment l kind = elim (region l kind).free_segments [
  | [] ↦ (none, l)
  | seg ∷ rest ↦ (some seg, set_region l kind (record (region l kind) { free_segments = rest }))
]

abbrev pub push_free : Log → RegionKind → ℕ → Log
push_free l kind seg =
    set_region l kind
      (record (region l kind) { free_segments = (region l kind).free_segments ++ (seg ∷ []) })

abbrev pub push_back : Log → RegionKind → ℕ → Log
push_back l kind seg =
    set_region l kind
      (record (region l kind) { fifo_segments = (region l kind).fifo_segments ++ (seg ∷ []) })

abbrev pub push_front : Log → RegionKind → ℕ → Log
push_front l kind seg =
    set_region l kind
      (record (region l kind) { fifo_segments = seg ∷ (region l kind).fifo_segments })

abbrev pub set_active : Log → RegionKind → Option ℕ → Log
set_active l kind o = set_region l kind (record (region l kind) { active = o })

-- A segment always has `segment_size_blocks_` blocks, so that the first assertion holds.
unfoldable pub release_segment_to_free : Log → RegionKind → ℕ → Result Log
release_segment_to_free l kind seg =
    if (l.segments seg).valid_cnt == 0
    then move_segment_region (push_free (set_segment l seg (reset (l.segments seg))) kind seg) seg
        kind
    else fault

unfoldable pub push_to_fifo : Log → RegionKind → ℕ → Result Log
push_to_fifo l kind seg =
    if (l.segments seg).valid_cnt == 0
    then release_segment_to_free l kind seg
    else ok (push_back l kind seg)

-- The active segment goes to the queue, and the region has none.
unfoldable pub retire : Log → RegionKind → ℕ → Result Log
retire l kind seg = push_to_fifo l kind seg >>= λ m. ok (set_active m kind none)

unfoldable pub close_active_segment : Log → RegionKind → Result Log
close_active_segment l kind = elim (region l kind).active [
  | none ↦ ok l
  | some seg ↦ retire l kind seg
]

-- With an empty queue, the active segment is the victim, unless it has no valid block.
unfoldable pub refill : Log → RegionKind → List ℕ → Option ℕ → Result Log
refill l kind [] (some seg) = if ltb 0 (l.segments seg).valid_cnt then retire l kind seg else ok l
refill l kind [] none = ok l
refill l kind (_ ∷ _) active = ok l

unfoldable pub pop_front : Log → RegionKind → Log × Option ℕ
pop_front l kind = elim (region l kind).fifo_segments [
  | [] ↦ (l, none)
  | seg ∷ rest ↦ (set_region l kind (record (region l kind) { fifo_segments = rest }), some seg)
]

unfoldable pub pop_victim : Log → RegionKind → Result (Log × Option ℕ)
pop_victim l kind = do
  m ← refill l kind (region l kind).fifo_segments (region l kind).active
  ok (pop_front m kind)

-- A segment that was taken from a free list goes to the receiver's.
unfoldable pub give_segment : Log → RegionKind → ℕ → Result Log
give_segment l receiver seg =
    move_segment_region (push_free (set_segment l seg (reset (l.segments seg))) receiver seg) seg
      receiver

unfoldable pub hand_over : RegionKind → Option ℕ × Log → Result (Log × Bool)
hand_over receiver (none, l) = ok (l, false)
hand_over receiver (some seg, l) = give_segment l receiver seg >>= λ m. ok (m, true)

unfoldable pub steal_free_segment : Log → RegionKind → RegionKind → Result (Log × Bool)
unfolding hand_over
steal_free_segment l donor receiver = hand_over receiver (take_free_segment l donor)

-- The first part of `ensure_active_segment`: a full active segment goes to the queue.
unfoldable pub retire_full : Log → RegionKind → Result Log
retire_full l kind = elim (region l kind).active [
  | none ↦ ok l
  | some seg ↦ if full l.segment_size_blocks (l.segments seg) then retire l kind seg else ok l
]

-- Its last part: a segment that was free is the active one.
unfoldable pub open_segment : Log → RegionKind → ℕ → ℕ → Result Log
open_segment l kind timestamp seg =
    move_segment_region
      (set_active
        (set_segment l seg (record (reset (l.segments seg)) { create_timestamp = timestamp })) kind
        (some seg))
      seg kind
