-- ===== src/Policy.antt =====
-- The interface of the eviction policies, `EvictPolicy` of evict_policy.h, as its clients use it.
pub mod Heap
pub mod Greedy
pub mod Fifo
pub mod MultiQueue
use ssd_waf.Base.{ℕ, ◌≡◌, Bool, true, false, ◌&&◌, ◌||◌, not, Option, some, ◌==◌}

-- The fields of a segment that a policy reads (segment.h); a segment's address is a number.
pub record Segment : Type 0 where
  pub write_ptr : ℕ
  pub valid_cnt : ℕ
  pub class_num : ℕ
  pub create_timestamp : ℕ

-- The virtual methods. A method that changes the policy returns its new state.
pub record EvictPolicy : Type 1 where
  pub State : Type 0
  pub choose_segment : State → Option ℕ × State
  pub add : State → ℕ → Segment → State
  pub remove : State → ℕ → State
  pub update_segment : State → ℕ → Segment → State
  -- Is the segment among those that the policy may choose?
  pub tracks : State → ℕ → Bool
  pub IsSound : State → Type 0

-- What a client relies on: `add` adds exactly its segment, `remove` removes exactly its segment,
-- `update_segment` neither, `choose_segment` may drop but never adds; a victim is one of the segments
-- that were added, and the state stays sound if no segment is added twice.
pub record IsLawful (p : EvictPolicy) : Type 0 where
  pub tracks-add :
      (s : p.State) (i : ℕ) (g : Segment) (j : ℕ)
      → p.tracks (p.add s i g) j ≡ ((i == j) || p.tracks s j)
  pub tracks-remove :
      (s : p.State) (i j : ℕ) → p.tracks (p.remove s i) j ≡ (not (i == j) && p.tracks s j)
  pub tracks-update :
      (s : p.State) (i : ℕ) (g : Segment) (j : ℕ)
      → p.tracks (p.update_segment s i g) j ≡ p.tracks s j
  pub tracks-choose :
      (s : p.State) (j : ℕ) → p.tracks (p.choose_segment s).1 j ≡ true → p.tracks s j ≡ true
  pub choose-tracks :
      (s : p.State) (v : ℕ) → p.IsSound s → (p.choose_segment s).0 ≡ some v → p.tracks s v ≡ true
  pub add-IsSound :
      (s : p.State) (i : ℕ) (g : Segment)
      → p.IsSound s
      → p.tracks s i ≡ false
      → p.IsSound (p.add s i g)
  pub remove-IsSound : (s : p.State) (i : ℕ) → p.IsSound s → p.IsSound (p.remove s i)
  pub update-IsSound :
      (s : p.State) (i : ℕ) (g : Segment) → p.IsSound s → p.IsSound (p.update_segment s i g)
  pub choose-IsSound : (s : p.State) → p.IsSound s → p.IsSound (p.choose_segment s).1
