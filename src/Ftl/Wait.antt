-- ===== src/Ftl/Wait.antt =====
-- The loop in `AllocateNewActiveBlock` that collects garbage until four blocks are free.
use native.Mathlib.Nat.{lt_of_mul-lt-mul_left}
use ssd_waf.Base.{
  ℕ, zero, suc, ◌+◌, ◌*◌, ◌≤◌, ◌<◌, ◌≡◌, inl, inr, refl, ap, true, false, some, arith, length, ltb,
  lt→ltb, Bool-cases,
}
use ssd_waf.Policy.{EvictPolicy, IsLawful}
use ssd_waf.Ftl.{
  Geometry, pages_per_block, gc_trigger_threshold, Ftl, ok, spin, run_gc, wait_for_space,
}
use ssd_waf.Ftl.Invariant.{Except, Inv}
use ssd_waf.Ftl.Room.{capacity, Frame}
use ssd_waf.Ftl.Gc.{chosen, run_gc-idle, Unused, run_gc-freed, gc_room-le}
use ssd_waf.Ftl.Sweep.{Frame-refl, Frame-trans}

module _ (pol : EvictPolicy) (geo : Geometry) where
  -- For `fuel` rounds each collection finds a victim with a page to reclaim.
  unfoldable pub Productive : Except → ℕ → Ftl pol.State → Type 0
  Productive e zero s = Unit
  Productive e (suc fuel) s =
      length s.free_pool < gc_trigger_threshold
      → (v : ℕ) × ((pol.choose_segment s.policy).0 ≡ some v)
        × Unused pol geo e s v
        × ((s.blocks v).valid_cnt < pages_per_block geo)
        × ((t : Ftl pol.State) → run_gc pol geo s ≡ ok (t, true) → Productive e fuel t)

  -- The wait is over.
  pub record Waited (e : Except) (s t : Ftl pol.State) : Type 0 where
    pub inv : Inv pol geo e t
    pub frame : Frame pol geo s t
    pub written : s.nand_write_pages ≤ t.nand_write_pages
    pub enough : gc_trigger_threshold ≤ length t.free_pool

module _ (pol : EvictPolicy) (law : IsLawful pol) (geo : Geometry)
    (some_pages : 0 < pages_per_block geo) (e : Except) (fresh : e.moved ≡ 0) where
  waited : (s : Ftl pol.State) → Inv pol geo e s → 3 < length s.free_pool → Waited pol geo e s s
  waited s inv four = record {
    inv = inv;
    frame = Frame-refl pol geo s;
    written = omega arith;
    enough = four;
  }

  -- On a well-formed state with a spare block, where each collection finds a victim with a page to
  -- reclaim that no stream uses, the wait for four free blocks ends after at most as many
  -- collections as pages are missing to more than four blocks, by the fuel: the state is well
  -- formed, four blocks are free, the set of mapped pages and the host's blocks and count are the
  -- same, and the NAND count is no smaller.
  pub wait-Waited :
      (fuel : ℕ) (s : Ftl pol.State)
      → Inv pol geo e s
      → 0 < length s.free_pool
      → Productive pol geo e fuel s
      → 4 * pages_per_block geo < capacity geo s + fuel
      → (t : Ftl pol.State) × (wait_for_space pol geo fuel s ≡ ok t) × Waited pol geo e s t
  unfolding wait_for_space Productive
  wait-Waited zero s inv spare p c =
      let four : 3 < length s.free_pool =
        lt_of_mul-lt-mul_left (pages_per_block geo) (omega (arith, gc_room-le pol geo s)) in
      let done : ltb (length s.free_pool) gc_trigger_threshold ≡ false = ground arith in
      (s, rw done, waited s inv four)
  wait-Waited (suc fuel) s inv spare p c =
      elim (Bool-cases (ltb (length s.free_pool) gc_trigger_threshold)) [
        | inl short ↦
            let (v, choice, unused, reclaimable, next) = p (ground arith) in
            let (t, q, w) =
              run_gc-freed pol law geo some_pages e s inv fresh spare v choice unused reclaimable in
            let (u, r, x) =
              wait-Waited fuel t w.inv (omega (arith, w.kept)) (next t q)
                (omega (arith, w.gains refl)) in
            (
              u,
              rw (short, wait_for_space) (rw q r),
              record {
                inv = x.inv;
                frame = Frame-trans pol geo s t u w.frame x.frame;
                written = omega (arith, w.written, x.written);
                enough = x.enough;
              },
            )
        | inr done ↦ (s, rw (done, wait_for_space), waited s inv (ground arith))
      ]

  -- On a well-formed state with fewer than four free blocks, with a victim that has no page to
  -- reclaim, or none at all, and a policy whose choice changes nothing, the loop never ends:
  -- whatever the fuel, it runs out.
  pub wait-spin :
      (fuel : ℕ) (s : Ftl pol.State)
      → Inv pol geo e s
      → length s.free_pool < gc_trigger_threshold
      → (pol.choose_segment s.policy).1 ≡ s.policy
      → ((v : ℕ)
          → (pol.choose_segment s.policy).0 ≡ some v
          → (s.blocks v).valid_cnt ≡ pages_per_block geo)
      → wait_for_space pol geo fuel s ≡ spin
  unfolding wait_for_space
  wait-spin zero s inv short same stuck = rw (lt→ltb _ _ short)
  wait-spin (suc fuel) s inv short same stuck =
      let (q, _) = run_gc-idle pol law geo some_pages e s inv stuck in
      let again : chosen pol law geo some_pages s ≡ s = ap (λ p. record s { policy = p }) same in
      rw (lt→ltb _ _ short, wait_for_space)
        (rw q (rw again (wait-spin fuel s inv short same stuck)))
