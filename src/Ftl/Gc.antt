-- ===== src/Ftl/Gc.antt =====
-- `RunGC` as a whole: the choice of the victim, the loop over its pages and the erase.
use native.Mathlib.Decide.{ℕ_discrete, dec_lt}
use native.Mathlib.Nat.{lt_of_mul-lt-mul_left}
use ssd_waf.Base.{
  ℕ, ◌+◌, ◌*◌, ◌≤◌, ◌<◌, ◌≡◌, ◌≢◌, inl, inr, sym, ◌∙◌, refl, Bool, true, false, some, arith, length,
  contains, count_from, count_from-le, ◌==◌, subst, Option-cases,
}
use ssd_waf.Policy.{EvictPolicy, IsLawful}
use ssd_waf.Ftl.{Geometry, pages_per_block, Ftl, ok, erase_block, run_gc}
use ssd_waf.Ftl.Invariant.{Except, Inv}
use ssd_waf.Ftl.Pool.{pass, choose-Inv, erase-Inv}
use ssd_waf.Ftl.Room.{gc_room, capacity, Frame}
use ssd_waf.Ftl.Migrate.{Migrated}
use ssd_waf.Ftl.Sweep.{migrate_from-Migrated}

module _ (pol : EvictPolicy) (geo : Geometry) where
  -- The victim is no stream's active block, or the collector will replace it before the erase.
  pub record Unused (e : Except) (s : Ftl pol.State) (v : ℕ) : Type 0 where
    pub by_host : (st : ℕ) → e.idle_stream st ≡ false → s.active_blk st ≢ some v
    pub by_others : (st : ℕ) → st ≢ 0 → s.gc_active_blk st ≢ some v
    pub by_gc : s.gc_active_blk 0 ≡ some v → 0 < (s.blocks v).valid_cnt

  -- `RunGC` ended; `freed` is its result.
  pub record Collected (e : Except) (s t : Ftl pol.State) (freed : Bool) : Type 0 where
    pub inv : Inv pol geo e t
    pub frame : Frame pol geo s t
    pub kept : length s.free_pool ≤ length t.free_pool
    pub written : s.nand_write_pages ≤ t.nand_write_pages
    pub gains : freed ≡ true → capacity geo s < capacity geo t
    pub balance :
        freed ≡ true
        → t.nand_write_pages + capacity geo t
          ≡ s.nand_write_pages + capacity geo s + pages_per_block geo
    pub erased :
        freed ≡ true
        → (v : ℕ) × ((pol.choose_segment s.policy).0 ≡ some v)
          × (contains v t.free_pool ≡ true)
          × ((t.blocks v).write_ptr ≡ 0)
    pub idle :
        freed ≡ false
        → (t.free_pool ≡ s.free_pool)
          × (t.nand_write_pages ≡ s.nand_write_pages)
          × (t.blocks ≡ s.blocks)
          × (t.lpn_to_ppn ≡ s.lpn_to_ppn)

  pub gc_room-le : (s : Ftl pol.State) → gc_room geo s ≤ pages_per_block geo
  unfolding gc_room
  gc_room-le s = ground arith

-- Blocks from pages.
blocks_of_pages : (p a b : ℕ) → p * b < p * a + 2 * p → b ≤ a + 1
blocks_of_pages p a b h = omega (arith, lt_of_mul-lt-mul_left p {m = b} {n = a + 2} (omega arith))

pub pages_of_block : (p a : ℕ) → 0 < a → p ≤ p * a
pages_of_block p a h = grind arith

module _ (pol : EvictPolicy) (law : IsLawful pol) (geo : Geometry)
    (some_pages : 0 < pages_per_block geo) where
  -- The policy chose; nothing else changed.
  abbrev pub chosen : Ftl pol.State → Ftl pol.State
  chosen s = record s { policy = (pol.choose_segment s.policy).1 }

  chosen-Inv : (e : Except) (s : Ftl pol.State) → Inv pol geo e s → Inv pol geo e (chosen s)
  chosen-Inv e s inv = record {
    shape = record {
      sized = inv.sized;
      ids = inv.ids;
      below = inv.below;
      in_range = inv.in_range;
      counted = inv.counted;
      free_ok = inv.free_ok;
      free_distinct = inv.free_distinct;
      gc_active_ok = inv.gc_active_ok;
      tracked_ok = λ b h. inv.tracked_ok b (law.tracks-choose s.policy b h);
      policy_sound = law.choose-IsSound s.policy inv.policy_sound;
      roomy = inv.roomy;
      addressable = inv.addressable;
    };
    forward = inv.forward;
    backward = inv.backward;
    active_ok = inv.active_ok;
  }

  module _ (e : Except) (s : Ftl pol.State) (inv : Inv pol geo e s) (fresh : e.moved ≡ 0)
      (spare : 0 < length s.free_pool) (v : ℕ) (choice : (pol.choose_segment s.policy).0 ≡ some v)
      (unused : Unused pol geo e s v)
      (reclaimable : (s.blocks v).valid_cnt < pages_per_block geo) where
    victim_facts :
        (v < s.num_blocks)
        × (pages_per_block geo ≤ (s.blocks v).write_ptr)
        × (contains v s.free_pool ≡ false)
    victim_facts = inv.tracked_ok v (law.choose-tracks s.policy v inv.policy_sound choice)

    enough : count_from (s.blocks v).valid 0 (pages_per_block geo) ≤ capacity geo s
    enough = omega (
      arith,
      count_from-le (s.blocks v).valid 0 (pages_per_block geo),
      pages_of_block (pages_per_block geo) (length s.free_pool) spare,
    )

    module _ (u : Ftl pol.State)
        (m : Migrated pol geo
          (pass e v (pages_per_block geo))
          (chosen s)
          (count_from (s.blocks v).valid 0 (pages_per_block geo))
          u) where
      replaced : (st : ℕ) → u.gc_active_blk st ≢ some v
      replaced st = elim (ℕ_discrete st 0) [
        | yes q ↦ rw q (ground (arith, m.current, m.moved_current, unused.by_gc, inv.counted v))
        | no n ↦ λ h. unused.by_others st n (sym (m.frame.gc_others st n) ∙ h)
      ]

      erase-capacity : capacity geo (erase_block pol geo u v) ≡ capacity geo u + pages_per_block geo
      unfolding erase_block gc_room
      erase-capacity = ground (arith, replaced 0)

      collected-Inv : Inv pol geo e (erase_block pol geo u v)
      collected-Inv =
          subst (λ i. Inv pol geo (pass e e.victim i) (erase_block pol geo u v)) (sym fresh)
            (choose-Inv pol law geo (pass e 0 0) _
              (erase-Inv pol law geo (pass e v (pages_per_block geo)) u m.inv refl some_pages
                (ground (arith, victim_facts, m.frame.num_blocks)) m.victim_used
                (λ st q h. unused.by_host st q (rw (← m.frame.active_blk) h)) replaced)
              e.victim refl)

      collected-Frame : Frame pol geo s (erase_block pol geo u v)
      unfolding erase_block
      collected-Frame = record {
        num_blocks = m.frame.num_blocks;
        mapped = m.frame.mapped;
        active_blk = m.frame.active_blk;
        gc_others = m.frame.gc_others;
        host_write_pages = m.frame.host_write_pages;
        total_nand_pages = m.frame.total_nand_pages;
      }

      reclaimed : count_from (s.blocks v).valid 0 (pages_per_block geo) < pages_per_block geo
      reclaimed = rw (← inv.counted v) reclaimable

      collected-kept : length s.free_pool ≤ length (erase_block pol geo u v).free_pool
      unfolding erase_block
      collected-kept = omega (
        arith,
        blocks_of_pages (pages_per_block geo) (length u.free_pool) (length s.free_pool)
            (omega (arith, m.spent, reclaimed, gc_room-le pol geo u)),
      )

      collected : Collected pol geo e s (erase_block pol geo u v) true
      unfolding erase_block gc_room contains
      collected = record {
        inv = collected-Inv;
        frame = collected-Frame;
        kept = collected-kept;
        written = omega (arith, m.copied);
        gains = λ _. omega (arith, erase-capacity, m.spent, reclaimed);
        balance = λ _. omega (arith, erase-capacity, m.spent, m.copied);
        erased = λ _. (v, choice, ground arith, ground arith);
        idle = λ h. cc;
      }

    pub run_gc-freed :
        (t : Ftl pol.State) × (run_gc pol geo s ≡ ok (t, true)) × Collected pol geo e s t true
    unfolding run_gc gc_room
    run_gc-freed =
        let (lt, full_v, used) = victim_facts in
        let (u, q, m) =
          migrate_from-Migrated pol law geo some_pages (pages_per_block geo) (pass e v 0) (chosen s)
            (choose-Inv pol law geo e (chosen s) (chosen-Inv e s inv) v fresh) full_v used
            (omega arith) enough in
        let short : ((s.blocks v).valid_cnt == pages_per_block geo) ≡ false = ground arith in
        (erase_block pol geo u v, rw (choice, run_gc) (rw short (rw q)), collected u m)

  module _ (e : Except) (s : Ftl pol.State) (inv : Inv pol geo e s) where
    chosen-Collected : Collected pol geo e s (chosen s) false
    unfolding gc_room
    chosen-Collected = record {
      inv = chosen-Inv e s inv;
      frame = record {
        num_blocks = refl;
        mapped = λ l. refl;
        active_blk = refl;
        gc_others = λ st h. refl;
        host_write_pages = refl;
        total_nand_pages = refl;
      };
      kept = omega arith;
      written = omega arith;
      gains = λ h. cc;
      balance = λ h. cc;
      erased = λ h. cc;
      idle = λ _. (refl, refl, refl, refl);
    }

    -- With no victim, or one with no page to reclaim, nothing happens.
    pub run_gc-idle :
        ((v : ℕ)
          → (pol.choose_segment s.policy).0 ≡ some v
          → (s.blocks v).valid_cnt ≡ pages_per_block geo)
        → (run_gc pol geo s ≡ ok (chosen s, false)) × Collected pol geo e s (chosen s) false
    unfolding run_gc
    run_gc-idle h = elim (Option-cases (pol.choose_segment s.policy).0) [
      | inl c ↦ (rw (c, run_gc), chosen-Collected)
      | inr (v, c) ↦
          let stuck : ((s.blocks v).valid_cnt == pages_per_block geo) ≡ true =
            ground (arith, h v c) in
          (rw (c, run_gc) (rw stuck), chosen-Collected)
    ]

    -- `RunGC` never aborts while a block is spare, keeps the state well formed and the same logical
    -- pages mapped, and gains capacity exactly when it says that it freed a block.
    pub run_gc-total :
        e.moved ≡ 0
        → 0 < length s.free_pool
        → ((v : ℕ) → (pol.choose_segment s.policy).0 ≡ some v → Unused pol geo e s v)
        → (t : Ftl pol.State) × (freed : Bool) × (run_gc pol geo s ≡ ok (t, freed))
          × Collected pol geo e s t freed
    run_gc-total fresh spare unused = elim (Option-cases (pol.choose_segment s.policy).0) [
      | inl c ↦ let (q, w) = run_gc-idle (λ v h. ground arith) in (chosen s, false, q, w)
      | inr (v, c) ↦ elim (dec_lt (s.blocks v).valid_cnt (pages_per_block geo)) [
        | yes lt ↦
            let (t, q, w) = run_gc-freed e s inv fresh spare v c (unused v c) lt in (t, true, q, w)
        | no ge ↦
            let (q, w) = run_gc-idle (λ u h.
              let same : v ≡ u = ground arith in
              rw (← same) (
                omega (
                  arith,
                  inv.counted v,
                  count_from-le (s.blocks v).valid 0 (pages_per_block geo),
                ))) in
            (chosen s, false, q, w)
      ]
    ]
