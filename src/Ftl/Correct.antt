-- ===== src/Ftl/Correct.antt =====
-- The operations of ftl.cpp on well-formed states: garbage collection, `Trim`, the constructor, and
-- a victim that is still a stream's active block.
use ssd_waf.Base.{
  ℕ, ◌+◌, ◌≤◌, ◌<◌, ◌≡◌, ◌⊎◌, inl, inr, refl, Bool, true, false, not, ◌&&◌, some, arith, length,
  contains, Bool-cases, subst, ◌==◌, leb,
}
use ssd_waf.Policy.{EvictPolicy, IsLawful}
use ssd_waf.Ftl.{Geometry, pages_per_block, Ftl, ok, full, run_gc, get_or_allocate_active_block}
use ssd_waf.Ftl.Host.{start_lpn, end_lpn, trim_rounds, is_aligned, trim, trim_from}
use ssd_waf.Ftl.Invariant.{no_except, IsValid}
use ssd_waf.Ftl.Pool.{retire, retire-Inv}
use ssd_waf.Ftl.Room.{is_mapped, capacity}
use ssd_waf.Ftl.Gc.{Unused, run_gc-total, run_gc-freed}
use ssd_waf.Ftl.Forget.{trim_from-IsValid, trim_from-is_mapped}

module _ (pol : EvictPolicy) (law : IsLawful pol) (geo : Geometry)
    (some_pages : 0 < pages_per_block geo) where
  -- On a well-formed state with a spare block, whose victim is in use by no stream, RunGC ends
  -- without a failing assertion, keeps the state well formed and the set of mapped logical pages,
  -- and loses no free block. If it frees a block, the pages that the collector can still write,
  -- those left in its own active block and those of the free pool, grow, and these and the pages
  -- written so far grow by one block in sum; if not, the blocks, the free pool and the mapping are
  -- unchanged.
  pub run_gc-IsValid :
      (s : Ftl pol.State)
      → IsValid pol geo s
      → 0 < length s.free_pool
      → ((v : ℕ) → (pol.choose_segment s.policy).0 ≡ some v → Unused pol geo no_except s v)
      → (t : Ftl pol.State) × (freed : Bool) × (run_gc pol geo s ≡ ok (t, freed))
        × IsValid pol geo t
        × ((l : ℕ) → is_mapped t l ≡ is_mapped s l)
        × (length s.free_pool ≤ length t.free_pool)
        × (((freed ≡ true)
              × (capacity geo s < capacity geo t)
              × (t.nand_write_pages + capacity geo t
                  ≡ s.nand_write_pages + capacity geo s + pages_per_block geo))
            ⊎ ((freed ≡ false)
                × (t.blocks ≡ s.blocks)
                × (t.free_pool ≡ s.free_pool)
                × (t.lpn_to_ppn ≡ s.lpn_to_ppn)))
  run_gc-IsValid s inv spare unused =
      let (t, freed, q, w) =
        run_gc-total pol law geo some_pages no_except s inv refl spare unused in
      (
        t,
        freed,
        q,
        w.inv,
        w.frame.mapped,
        w.kept,
        elim (Bool-cases freed) [
          | inl h ↦ inl (h, w.gains h, w.balance h)
          | inr h ↦ let (f, _, b, m) = w.idle h in inr (h, b, f, m)
        ],
      )

  -- A victim that is still a stream's active block is freed while it stays that stream's block: the
  -- next page of the stream goes to a block of the free pool. The condition is a well-formed state
  -- with a spare block, where the victim has a page to reclaim and no other stream uses it.
  pub run_gc-reuses_active :
      (s : Ftl pol.State) (st v fuel : ℕ)
      → IsValid pol geo s
      → 0 < length s.free_pool
      → (pol.choose_segment s.policy).0 ≡ some v
      → (s.blocks v).valid_cnt < pages_per_block geo
      → s.active_blk st ≡ some v
      → Unused pol geo (retire no_except st) s v
      → (t : Ftl pol.State) × (run_gc pol geo s ≡ ok (t, true))
        × (contains v t.free_pool ≡ true)
        × (get_or_allocate_active_block pol geo fuel t st ≡ ok (t, v))
  unfolding get_or_allocate_active_block full
  run_gc-reuses_active s st v fuel inv spare choice reclaimable active unused =
      let (t, q, w) =
        run_gc-freed pol law geo some_pages (retire no_except st) s
          (retire-Inv pol law geo no_except s inv st) refl spare v choice unused reclaimable in
      let (v', choice', free, empty) = w.erased refl in
      let same : v' ≡ v = ground arith in
      let current : t.active_blk st ≡ some v = rw w.frame.active_blk active in
      let empty' : (t.blocks v).write_ptr ≡ 0 =
        subst (λ (b : ℕ). (t.blocks b).write_ptr ≡ 0) same empty in
      let has_room : leb (pages_per_block geo) (t.blocks v).write_ptr ≡ false = ground arith in
      (
        t,
        q,
        subst (λ (b : ℕ). contains b t.free_pool ≡ true) same free,
        rw (current, get_or_allocate_active_block) (rw has_room),
      )

  -- A trim of an aligned range on a well-formed state ends without a failing assertion, keeps the
  -- state well formed, and unmaps exactly the pages from the first to the last of the range, none if
  -- the range is empty.
  pub trim-total :
      (s : Ftl pol.State) (lba_offset byte_size : ℕ)
      → IsValid pol geo s
      → is_aligned geo lba_offset byte_size ≡ true
      → (t : Ftl pol.State) × (trim pol geo s lba_offset byte_size ≡ ok t)
        × IsValid pol geo t
        × ((l : ℕ)
            → is_mapped t l ≡ (
                not (
                  not (byte_size == 0)
                  && (leb (start_lpn geo lba_offset) l && leb l (end_lpn geo lba_offset byte_size)))
                && is_mapped s l))
  unfolding trim trim_rounds
  trim-total s off size inv aligned = elim (Bool-cases (size == 0)) [
    | inl void ↦ (s, rw aligned (rw void), inv, λ l. rw void (ground arith))
    | inr pos ↦ (
      trim_from pol geo s (start_lpn geo off) (trim_rounds geo off size),
      rw aligned (rw pos),
      trim_from-IsValid pol law geo some_pages (trim_rounds geo off size) s (start_lpn geo off) inv,
      λ l. rw pos (
          ground (
            arith,
            trim_from-is_mapped pol law geo some_pages (trim_rounds geo off size) s
                (start_lpn geo off) l inv,
          )),
    )
  ]
