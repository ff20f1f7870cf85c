-- ===== src/FairyWren/Places.antt =====
-- The lists of the regions hold each segment once, except those in flight (IsPlaced), and the
-- regions' counts are the sums over their segments (IsCounted).
use ssd_waf.Base.{
  ℕ, ◌+◌, ◌-◌, ◌≤◌, ◌<◌, ◌≡◌, ◌∙◌, refl, inl, inr, Bool, true, false, not, ◌&&◌, Option, none, some,
  if◌then◌else◌, ◌==◌, ltb, update, arith, Bool-cases, count, sum_to, sum_to-change, sum_to-le, ok,
}
use ssd_waf.LogSegment.{LogSegment}
use ssd_waf.FairyWren.Log.{
  RegionKind, region_index, RegionState, Log, adjust_region_valid, move_valid, move_segment_region,
}

abbrev pub lives : Option RegionKind → ℕ → Bool
lives none r = false
lives (some kind) r = region_index kind == r

abbrev pub is_some {ℓ} : {A : Type ℓ} → Option A → Bool
is_some none = false
is_some (some _) = true

-- Is the segment the active one?
abbrev pub holds_active : Option ℕ → ℕ → ℕ
holds_active none s = 0
holds_active (some a) s = if s == a then 1 else 0

-- How often a region's lists hold the segment.
abbrev pub holds : RegionState → ℕ → ℕ
holds r s = count s r.free_segments + count s r.fifo_segments + holds_active r.active s

pub record IsPlaced (total : ℕ) (fly : ℕ → Bool) (segments : ℕ → LogSegment)
    (regions : ℕ → RegionState) (segment_region : ℕ → Option RegionKind) : Type 0 where
  pub placed :
      (r s : ℕ) → holds (regions r) s ≡ (if not (fly s) && lives (segment_region s) r then 1 else 0)
  pub assigned : (s : ℕ) → is_some (segment_region s) ≡ ltb s total
  pub flying : (s : ℕ) → fly s ≡ true → s < total
  pub freed : (r s : ℕ) → 0 < count s (regions r).free_segments → (segments s).valid_cnt ≡ 0

-- The number of valid blocks of a region's segments.
abbrev pub valid_in : (ℕ → LogSegment) → (ℕ → Option RegionKind) → ℕ → ℕ → ℕ
valid_in segments segment_region r s =
    if lives (segment_region s) r then (segments s).valid_cnt else 0

abbrev pub IsCounted : ℕ → (ℕ → LogSegment) → (ℕ → Option RegionKind) → (ℕ → ℕ) → Type 0
IsCounted total segments segment_region counts =
    (r : ℕ) → counts r ≡ sum_to (valid_in segments segment_region r) total

module _ (total : ℕ) (fly : ℕ → Bool) (segments : ℕ → LogSegment) (regions : ℕ → RegionState)
    (segment_region : ℕ → Option RegionKind)
    (w : IsPlaced total fly segments regions segment_region) where
  -- A segment in flight comes down in a region.
  pub land :
      (v : ℕ) (kind : RegionKind) (next : ℕ → RegionState)
      → fly v ≡ true
      → ((r s : ℕ)
          → holds (next r) s
            ≡ holds (regions r) s + (if region_index kind == r && v == s then 1 else 0))
      → ((r s : ℕ) → 0 < count s (next r).free_segments → (segments s).valid_cnt ≡ 0)
      → IsPlaced total (update fly v false) segments next (update segment_region v (some kind))
  land v kind next f same empty = record {
    placed = λ r s. ground (arith, w.placed r s, same r s);
    assigned = λ s. ground (arith, w.assigned s, w.flying v f);
    flying = λ s e. ground (arith, w.flying s);
    freed = empty;
  }

  -- A segment leaves the lists of its region.
  pub lift :
      (v : ℕ) (kind : RegionKind) (next : ℕ → RegionState)
      → ((r s : ℕ)
          → holds (regions r) s
            ≡ holds (next r) s + (if region_index kind == r && v == s then 1 else 0))
      → ((r s : ℕ) → 0 < count s (next r).free_segments → (segments s).valid_cnt ≡ 0)
      → IsPlaced total (update fly v true) segments next segment_region
        × (fly v ≡ false)
        × (lives (segment_region v) (region_index kind) ≡ true)
        × (v < total)
  lift v kind next same empty =
      let grounded : fly v ≡ false =
        ground (arith, w.placed (region_index kind) v, same (region_index kind) v) in
      let home : lives (segment_region v) (region_index kind) ≡ true =
        ground (arith, w.placed (region_index kind) v, same (region_index kind) v) in
      let inside : v < total = ground (arith, w.assigned v, home) in
      (
        record {
          placed = λ r s. ground (arith, w.placed r s, same r s, grounded, home);
          assigned = w.assigned;
          flying = λ s e. ground (arith, w.flying s, inside);
          freed = empty;
        },
        grounded,
        home,
        inside,
      )

  -- The lists hold what they held.
  pub shuffle :
      (next : ℕ → RegionState)
      → ((r s : ℕ) → holds (next r) s ≡ holds (regions r) s)
      → ((r s : ℕ) → 0 < count s (next r).free_segments → (segments s).valid_cnt ≡ 0)
      → IsPlaced total fly segments next segment_region
  shuffle next same empty = record {
    placed = λ r s. same r s ∙ w.placed r s;
    assigned = w.assigned;
    flying = w.flying;
    freed = empty;
  }

  -- The segments change, except those that are free.
  pub resegment :
      (next : ℕ → LogSegment)
      → ((s : ℕ) → (segments s).valid_cnt ≡ 0 → (next s).valid_cnt ≡ 0)
      → IsPlaced total fly next regions segment_region
  resegment next h = record {
    placed = w.placed;
    assigned = w.assigned;
    flying = w.flying;
    freed = λ r s e. h s (w.freed r s e);
  }

module _ (l : Log)
    (w : IsCounted l.total_segments l.segments l.segment_region l.region_valid_blocks) where
  -- A region has at least the valid blocks of each of its segments.
  pub counted-le :
      (kind : RegionKind) (s : ℕ)
      → l.segment_region s ≡ some kind
      → s < l.total_segments
      → (l.segments s).valid_cnt ≤ l.region_valid_blocks (region_index kind)
  counted-le kind s e b = ground (
    arith,
    e,
    w (region_index kind),
    sum_to-le (valid_in l.segments l.segment_region (region_index kind)) l.total_segments s b,
  )

  module _ (seg : ℕ) (kind old : RegionKind) (e : l.segment_region seg ≡ some old)
      (inside : seg < l.total_segments) where
    abbrev next_region : ℕ → Option RegionKind
    next_region = update l.segment_region seg (some kind)

    moved :
        (r : ℕ)
        → sum_to (valid_in l.segments next_region r) l.total_segments
            + (if region_index old == r then (l.segments seg).valid_cnt else 0)
          ≡ l.region_valid_blocks r
            + (if region_index kind == r then (l.segments seg).valid_cnt else 0)
    moved r = ground (
      arith,
      e,
      w r,
      sum_to-change (valid_in l.segments l.segment_region r) (valid_in l.segments next_region r)
          l.total_segments seg (λ j ne. rw ne) inside,
    )

    taken : ℕ → ℕ
    taken =
        update l.region_valid_blocks (region_index old)
          (l.region_valid_blocks (region_index old) + 0 - (l.segments seg).valid_cnt)

    given : ℕ → ℕ
    unfolding taken
    given =
        update taken (region_index kind)
          (taken (region_index kind) + (l.segments seg).valid_cnt - 0)

    move_valid-apart :
        (region_index old == region_index kind) ≡ false
        → move_valid l old kind (l.segments seg).valid_cnt
          ≡ ok (record l { region_valid_blocks = given })
    unfolding move_valid adjust_region_valid given taken
    move_valid-apart apart =
        let first : ltb (l.region_valid_blocks (region_index old) + 0) (l.segments seg).valid_cnt
            ≡ false =
          ground (arith, counted-le old seg e inside) in
        let second : ltb (l.region_valid_blocks (region_index kind) + (l.segments seg).valid_cnt) 0
            ≡ false =
          ground arith in
        simp (apart, first, second)

    pub move-IsCounted :
        (counts : ℕ → ℕ) × (move_segment_region l seg kind
          ≡ ok (record l { segment_region = next_region; region_valid_blocks = counts }))
        × IsCounted l.total_segments l.segments next_region counts
    unfolding move_segment_region move_valid given taken
    move-IsCounted = elim (Bool-cases (region_index old == region_index kind)) [
      | inl same ↦ (
        l.region_valid_blocks,
        rw (e, move_segment_region) (rw same refl),
        λ r. ground (arith, moved r),
      )
      | inr apart ↦ (
        given,
        rw (e, move_segment_region) (rw (move_valid-apart apart) refl),
        λ r. ground (arith, apart, moved r, counted-le old seg e inside),
      )
    ]
