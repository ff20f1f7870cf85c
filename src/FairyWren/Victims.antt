-- ===== src/FairyWren/Victims.antt =====
-- The active segment of a region of `FairyWrenCache` retires to its queue, a victim leaves the
-- queue, and a free segment moves to another region: the log stays well formed.
use ssd_waf.Base.{
  ℕ, ◌<◌, ◌≡◌, sym, ap, subst, refl, inl, inr, Bool, true, false, Option, none, some, List, [], ◌∷◌,
  ◌==◌, ltb, leb, update, arith, Bool-cases, fun_ext, count, count-append, Result, ok, ◌>>=◌,
}
use ssd_waf.LogSegment.{full, reset}
use ssd_waf.FairyWren.Log.{
  RegionKind, region_index, Log, region, set_region, set_segment, push_free, push_back, set_active,
  release_segment_to_free, push_to_fifo, retire, close_active_segment, refill, pop_front,
  pop_victim, steal_free_segment, retire_full,
}
use ssd_waf.FairyWren.Places.{lives, holds, IsPlaced, shuffle, move-IsCounted}
use ssd_waf.FairyWren.Invariant.{Inv, Steps, Vacates, lives-eq, landed-fly, blank-Inv}
use ssd_waf.FairyWren.Lists.{take_free-none, take_free-some, take_free-Inv, pop_front-Inv, give-Inv}

pub Steps-refl : (fly : ℕ → Bool) (l : Log) → Steps fly l l
Steps-refl fly l = record {
  same_size = refl;
  same_total = refl;
  same_mapping = refl;
  same_mapping_size = refl;
  still = λ s f. refl;
  home = λ s f. refl;
}

-- The segments in flight when one may have taken off.
abbrev pub aloft : (ℕ → Bool) → Option ℕ → ℕ → Bool
aloft fly none = fly
aloft fly (some v) = update fly v true

-- A victim was not in flight, and comes from the region.
abbrev pub TookOff : (ℕ → Bool) → Log → RegionKind → Option ℕ → Type 0
TookOff fly l kind none = Unit {0}
TookOff fly l kind (some v) =
    (fly v ≡ false) × (l.segment_region v ≡ some kind) × (v < l.total_segments)

module _ (fly : ℕ → Bool) (l : Log) (w : Inv fly l) where
  -- What the lists hold when the active segment of a region has gone to one of them.
  module _ (kind : RegionKind) (seg : ℕ) (active : (region l kind).active ≡ some seg) where
    active-home : (l.segment_region seg ≡ some kind) × (seg < l.total_segments) × (fly seg ≡ false)
    unfolding count
    active-home =
        let here = w.placed.placed (region_index kind) seg in
        let home : lives (l.segment_region seg) (region_index kind) ≡ true =
          ground (arith, here, active) in
        (
          lives-eq _ kind home,
          ground (arith, w.placed.assigned seg, home),
          ground (arith, here, active),
        )

    abbrev to_free : Log
    to_free = set_active (push_free l kind seg) kind none

    abbrev to_queue : Log
    to_queue = set_active (push_back l kind seg) kind none

    to_free-holds : (r s : ℕ) → holds (to_free.regions r) s ≡ holds (l.regions r) s
    unfolding count
    to_free-holds r s =
        ground (arith, active, count-append s (region l kind).free_segments (seg ∷ []))

    to_queue-holds : (r s : ℕ) → holds (to_queue.regions r) s ≡ holds (l.regions r) s
    unfolding count
    to_queue-holds r s =
        ground (arith, active, count-append s (region l kind).fifo_segments (seg ∷ []))

    -- A segment without valid blocks is released.
    retire-dead :
        (l.segments seg).valid_cnt ≡ 0
        → (m : Log) × (retire l kind seg ≡ ok m)
          × Inv fly m
          × Steps fly l m
          × Vacates l m
          × ((region m kind).active ≡ none)
    unfolding retire push_to_fifo release_segment_to_free reset count
    retire-dead e =
        let (home, inside, grounded) = active-home in
        let g = reset (l.segments seg) in
        let v = blank-Inv fly l w seg g e refl (omega arith) (λ i. refl) in
        let (counts, moved, c) =
          move-IsCounted (push_free (set_segment l seg g) kind seg) v.counted seg kind kind home
            inside in
        let same : update l.segment_region seg (some kind) ≡ l.segment_region =
          fun_ext (λ s. ground (arith, home)) in
        let dead : ((l.segments seg).valid_cnt == 0) ≡ true = ground arith in
        let m : Log = record to_free {
          segments = update l.segments seg g;
          segment_region = update l.segment_region seg (some kind);
          region_valid_blocks = counts;
        } in
        (
          m,
          rw dead (ap (λ (r : Result Log). r >>= λ n. ok (set_active n kind none)) moved),
          record {
            some_size = w.some_size;
            index = v.index;
            exact = v.exact;
            placed =
                subst
                  (λ (h : ℕ → Option RegionKind).
                    IsPlaced l.total_segments fly (update l.segments seg g) to_free.regions h)
                  (sym same)
                  (shuffle l.total_segments fly (update l.segments seg g) l.regions l.segment_region
                    v.placed to_free.regions to_free-holds
                    (λ r s x. ground (
                      arith,
                      w.placed.freed r s,
                      count-append s (region l kind).free_segments (seg ∷ []),
                    )));
            counted = c;
          },
          record {
            same_size = refl;
            same_total = refl;
            same_mapping = refl;
            same_mapping_size = refl;
            still = λ s f. ground (arith, grounded);
            home = λ s f. ground (arith, grounded);
          },
          λ r x. ground (arith, x),
          ground arith,
        )

    pub retire-Inv :
        (m : Log) × (retire l kind seg ≡ ok m)
        × Inv fly m
        × Steps fly l m
        × Vacates l m
        × ((region m kind).active ≡ none)
    unfolding retire push_to_fifo
    retire-Inv = elim (Bool-cases ((l.segments seg).valid_cnt == 0)) [
      | inl dead ↦ retire-dead (ground arith)
      | inr alive ↦ (
        to_queue,
        rw alive refl,
        record {
          some_size = w.some_size;
          index = w.index;
          exact = w.exact;
          placed =
              shuffle l.total_segments fly l.segments l.regions l.segment_region w.placed
                to_queue.regions to_queue-holds (λ r s x. ground (arith, w.placed.freed r s));
          counted = w.counted;
        },
        record {
          same_size = refl;
          same_total = refl;
          same_mapping = refl;
          same_mapping_size = refl;
          still = λ s f. refl;
          home = λ s f. refl;
        },
        λ r x. ground (arith, x),
        ground arith,
      )
    ]

  pub close_active_segment-Inv :
      (kind : RegionKind)
      → (m : Log) × (close_active_segment l kind ≡ ok m)
        × Inv fly m
        × Steps fly l m
        × Vacates l m
        × ((region m kind).active ≡ none)
  unfolding close_active_segment
  close_active_segment-Inv kind = from_active (region l kind).active refl
    where
      from_active :
          (o : Option ℕ)
          → (region l kind).active ≡ o
          → (m : Log) × (close_active_segment l kind ≡ ok m)
            × Inv fly m
            × Steps fly l m
            × Vacates l m
            × ((region m kind).active ≡ none)
      from_active none e = (l, rw (e, close_active_segment), w, Steps-refl fly l, λ r x. x, e)
      from_active (some seg) e =
          let (m, q, v, s, z, n) = retire-Inv kind seg e in
          (m, rw (e, close_active_segment) q, v, s, z, n)

  -- The active segment that is left over has room for a block.
  pub retire_full-Inv :
      (kind : RegionKind)
      → (m : Log) × (retire_full l kind ≡ ok m)
        × Inv fly m
        × Steps fly l m
        × ((seg : ℕ)
            → (region m kind).active ≡ some seg
            → (m.segments seg).write_ptr < m.segment_size_blocks)
        × Vacates l m
  unfolding retire_full full
  retire_full-Inv kind = from_active (region l kind).active refl
    where
      from_active :
          (o : Option ℕ)
          → (region l kind).active ≡ o
          → (m : Log) × (retire_full l kind ≡ ok m)
            × Inv fly m
            × Steps fly l m
            × ((seg : ℕ)
                → (region m kind).active ≡ some seg
                → (m.segments seg).write_ptr < m.segment_size_blocks)
            × Vacates l m
      from_active none e = (
        l,
        rw (e, retire_full),
        w,
        Steps-refl fly l,
        λ seg h. absurd (ground (arith, e)),
        λ r x. x,
      )
      from_active (some a) e =
          elim (Bool-cases (leb l.segment_size_blocks (l.segments a).write_ptr)) [
            | inl filled ↦
                let (m, q, v, s, z, n) = retire-Inv kind a e in
                (m, rw (e, retire_full) (rw filled q), v, s, λ seg h. absurd (ground (arith, n)), z)
            | inr vacant ↦ (
              l,
              rw (e, retire_full) (rw vacant refl),
              w,
              Steps-refl fly l,
              λ seg h. let same : a ≡ seg = cc in ground (arith, same),
              λ r x. x,
            )
          ]

  refill-Inv :
      (kind : RegionKind)
      → (m : Log) × (refill l kind (region l kind).fifo_segments (region l kind).active ≡ ok m)
        × Inv fly m
        × Steps fly l m
        × Vacates l m
  unfolding refill
  refill-Inv kind = from_lists (region l kind).fifo_segments (region l kind).active refl
    where
      from_lists :
          (q : List ℕ) (o : Option ℕ)
          → (region l kind).active ≡ o
          → (m : Log) × (refill l kind q o ≡ ok m) × Inv fly m × Steps fly l m × Vacates l m
      from_lists [] none e = (l, refl, w, Steps-refl fly l, λ r x. x)
      from_lists [] (some seg) e = elim (Bool-cases (ltb 0 (l.segments seg).valid_cnt)) [
        | inl alive ↦ let (m, q, v, s, z, _) = retire-Inv kind seg e in (m, rw alive q, v, s, z)
        | inr dead ↦ (l, rw dead refl, w, Steps-refl fly l, λ r x. x)
      ]
      from_lists (_ ∷ _) o e = (l, refl, w, Steps-refl fly l, λ r x. x)

  -- The victim, if there is one, takes off.
  pub pop_victim-Inv :
      (kind : RegionKind)
      → (m : Log) × (o : Option ℕ) × (pop_victim l kind ≡ ok (m, o))
        × Inv (aloft fly o) m
        × Steps fly l m
        × TookOff fly m kind o
        × Vacates l m
  unfolding pop_victim pop_front
  pop_victim-Inv kind =
      let (m, q, v, s, z) = refill-Inv kind in
      from_queue m q v s z (region m kind).fifo_segments refl
    where
      from_queue :
          (m : Log)
          → refill l kind (region l kind).fifo_segments (region l kind).active ≡ ok m
          → Inv fly m
          → Steps fly l m
          → Vacates l m
          → (queue : List ℕ) → (region m kind).fifo_segments ≡ queue
          → (n : Log) × (o : Option ℕ) × (pop_victim l kind ≡ ok (n, o))
            × Inv (aloft fly o) n
            × Steps fly l n
            × TookOff fly n kind o
            × Vacates l n
      from_queue m q v s z [] e = (m, none, rw q (rw (e, pop_front)), v, s, tt, z)
      from_queue m q v s z (seg ∷ rest) e =
          let (x, f, h, b) = pop_front-Inv fly m v kind seg rest e in
          (
            set_region m kind (record (region m kind) { fifo_segments = rest }),
            some seg,
            rw q (rw (e, pop_front)),
            x,
            record {
              same_size = s.same_size;
              same_total = s.same_total;
              same_mapping = s.same_mapping;
              same_mapping_size = s.same_mapping_size;
              still = s.still;
              home = s.home;
            },
            (f, h, b),
            λ r x. ground (arith, z r x),
          )

  -- A free segment, if there is one, moves to another region.
  pub steal_free_segment-Inv :
      (donor receiver : RegionKind)
      → (m : Log) × (stolen : Bool) × (steal_free_segment l donor receiver ≡ ok (m, stolen))
        × Inv fly m
        × Steps fly l m
        × Vacates l m
  unfolding steal_free_segment
  steal_free_segment-Inv donor receiver = from_free (region l donor).free_segments refl
    where
      from_free :
          (free : List ℕ)
          → (region l donor).free_segments ≡ free
          → (m : Log) × (stolen : Bool) × (steal_free_segment l donor receiver ≡ ok (m, stolen))
            × Inv fly m
            × Steps fly l m
            × Vacates l m
      from_free [] e = (
        l,
        false,
        rw (take_free-none l donor e, steal_free_segment),
        w,
        Steps-refl fly l,
        λ r x. x,
      )
      from_free (seg ∷ rest) e =
          let (x, f, _, _, c) = take_free-Inv fly l w donor seg rest e in
          let n = set_region l donor (record (region l donor) { free_segments = rest }) in
          let (m, q, v, s, z) = give-Inv (update fly seg true) n x receiver seg (ground arith) c in
          (
            m,
            true,
            rw (take_free-some l donor seg rest e, steal_free_segment) (rw q),
            subst (λ (h : ℕ → Bool). Inv h m) (landed-fly fly seg f) v,
            let s' : Steps fly n m =
                  subst (λ (h : ℕ → Bool). Steps h n m) (landed-fly fly seg f) s in
                record {
                  same_size = s'.same_size;
                  same_total = s'.same_total;
                  same_mapping = s'.same_mapping;
                  same_mapping_size = s'.same_mapping_size;
                  still = s'.still;
                  home = s'.home;
                },
            λ r x. z r (ground (arith, x)),
          )
