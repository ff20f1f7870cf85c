-- ===== src/Ftl/Fits.antt =====
-- `Write` of a range that fits into the stream's active block and the free pool.
use ssd_waf.Base.{
  ℕ, zero, suc, ◌+◌, ◌*◌, ◌≤◌, ◌<◌, ◌≡◌, ◌∙◌, inl, inr, refl, true, arith, length, leb, ltb, lt→ltb,
  ◌&&◌, ◌||◌, Option-cases,
}
use native.Mathlib.Nat.{lt_of_mul-lt-mul_left, mul-le-mul_left}
use ssd_waf.Policy.{EvictPolicy, IsLawful}
use ssd_waf.Ftl.{Geometry, pages_per_block, not_allocated, Ftl, ok, get_ppn}
use ssd_waf.Ftl.Host.{start_lpn, num_pages, is_aligned, write, write_from}
use ssd_waf.Ftl.Invariant.{Except, no_except, IsValid}
use ssd_waf.Ftl.Changes.{lose}
use ssd_waf.Ftl.Pool.{retire}
use ssd_waf.Ftl.Room.{is_mapped}
use ssd_waf.Ftl.Wait.{Productive}
use ssd_waf.Ftl.Alloc.{CanAllocate}
use ssd_waf.Ftl.Forget.{forget, forget-SamePages}
use ssd_waf.Ftl.Quiet.{space, host_room, write_page-space, SamePages-space}
use ssd_waf.Ftl.Write.{
  Written, write_page-Written, Written-refl, Written-trans, charge, charged-IsValid,
}

module _ (pol : EvictPolicy) (geo : Geometry) where
  productive :
      (e : Except) (fuel : ℕ) (s : Ftl pol.State)
      → 4 ≤ length s.free_pool
      → Productive pol geo e fuel s
  unfolding Productive
  productive e zero s h = tt
  productive e (suc fuel) s h = λ short. absurd (omega arith)

  -- With four free blocks the wait for one is over at once.
  can_allocate :
      (e : Except) (fuel : ℕ) (s : Ftl pol.State) (st : ℕ)
      → 0 < fuel
      → pages_per_block geo * 3 < space geo s st
      → CanAllocate pol geo e fuel s st
  unfolding CanAllocate host_room
  can_allocate e fuel s st some_fuel h = λ filled.
      let r : host_room geo s st ≡ 0 = elim (Option-cases (s.active_blk st)) [
        | inl q ↦ rw (q, host_room)
        | inr (b, q) ↦ ground (arith, filled b q)
      ] in
      let four : 3 < length s.free_pool =
        lt_of_mul-lt-mul_left (pages_per_block geo) (omega (arith, r, h)) in
      (
        productive (retire e st) fuel s four,
        omega (arith, mul-le-mul_left (pages_per_block geo) four),
      )

module _ (pol : EvictPolicy) (law : IsLawful pol) (geo : Geometry)
    (some_pages : 0 < pages_per_block geo) where
  write_from-fits :
      (rounds fuel : ℕ) (s : Ftl pol.State) (x st : ℕ)
      → IsValid pol geo s
      → 0 < fuel
      → 3 ≤ length s.free_pool
      → x + rounds ≤ not_allocated
      → pages_per_block geo * 3 + rounds ≤ space geo s st
      → (t : Ftl pol.State) × (write_from pol geo fuel s x rounds st ≡ ok t)
        × Written pol geo s x rounds t
        × (t.nand_write_pages ≡ s.nand_write_pages)
        × (space geo t st + rounds ≡ space geo s st)
  unfolding write_from
  write_from-fits zero fuel s x st inv some_fuel spare small fits =
      (s, refl, Written-refl pol geo s x inv spare, refl, omega arith)
  write_from-fits (suc rounds) fuel s x st inv some_fuel spare small fits =
      let same = SamePages-space pol geo s _ st (forget-SamePages pol geo s (get_ppn s x)) in
      let can =
        can_allocate pol geo (lose no_except x) fuel (forget pol geo s x) st some_fuel
          (omega (arith, same)) in
      let (t, q, w) =
        write_page-Written pol law geo some_pages fuel s x st inv spare (omega arith) can in
      let (shrunk, nand) = write_page-space pol geo fuel s t x st some_pages (omega arith) q in
      let (u, r, v, nand', shrunk') =
        write_from-fits rounds fuel t (x + 1) st w.inv some_fuel w.spare (omega arith)
          (omega (arith, shrunk)) in
      (
        u,
        rw q r,
        Written-trans pol geo s t u x rounds w v,
        nand' ∙ nand,
        omega (arith, shrunk, shrunk'),
      )

  -- On a well-formed state with three free blocks, a write of an aligned, non-empty range of pages
  -- below the highest number that fits, with three blocks to spare, into the stream's active block
  -- and the free pool ends without a failing assertion and without a garbage collection (one round
  -- of fuel is enough): each page of the range is counted once for the host and once for NAND, so
  -- write amplification is 1, and takes one page of the room; exactly the pages of the range are
  -- mapped besides those that were, and the state is well formed.
  pub write-fits :
      (fuel : ℕ) (s : Ftl pol.State) (lba_offset byte_size st : ℕ)
      → IsValid pol geo s
      → 0 < fuel
      → 3 ≤ length s.free_pool
      → is_aligned geo lba_offset byte_size ≡ true
      → 0 < byte_size
      → start_lpn geo lba_offset + num_pages geo lba_offset byte_size ≤ not_allocated
      → pages_per_block geo * 3 + num_pages geo lba_offset byte_size ≤ space geo s st
      → (t : Ftl pol.State) × (write pol geo fuel s lba_offset byte_size st ≡ ok t)
        × IsValid pol geo t
        × ((l : ℕ)
            → is_mapped t l ≡ (
                (leb (start_lpn geo lba_offset) l
                  && ltb l (start_lpn geo lba_offset + num_pages geo lba_offset byte_size))
                || is_mapped s l))
        × (t.host_write_pages ≡ s.host_write_pages + num_pages geo lba_offset byte_size)
        × (t.nand_write_pages ≡ s.nand_write_pages + num_pages geo lba_offset byte_size)
        × (space geo t st + num_pages geo lba_offset byte_size ≡ space geo s st)
  unfolding write host_room
  write-fits fuel s off size st inv some_fuel spare aligned pos small fits =
      let n = num_pages geo off size in
      let (t, q, w, nand, shrunk) =
        write_from-fits n fuel (charge pol geo s n) (start_lpn geo off) st
          (charged-IsValid pol geo s _ _ inv) some_fuel spare small fits in
      (t, rw aligned (rw (lt→ltb 0 size pos) q), w.inv, w.mapped, w.host_write_pages, nand, shrunk)
