-- ===== src/Ftl/Write.antt =====
-- `Write` of ftl.cpp: every page of the range is placed, and the state stays well formed.
use ssd_waf.Base.{
  ℕ, zero, suc, ◌+◌, ◌≤◌, ◌<◌, ◌≡◌, ◌∙◌, refl, ap, true, false, ◌&&◌, ◌||◌, arith, Option, length,
  ◌==◌, ltb, lt→ltb, leb,
}
use ssd_waf.Policy.{EvictPolicy, IsLawful}
use ssd_waf.Ftl.{
  Geometry, pages_per_block, not_allocated, Ftl, ok, full, set_block, set_ppn, next_ppn, get_ppn,
  program_page,
}
use ssd_waf.Ftl.Host.{start_lpn, num_pages, is_aligned, write, place_page, write_page, write_from}
use ssd_waf.Ftl.Invariant.{Except, no_except, Inv, IsValid, Shape-frame}
use ssd_waf.Ftl.Append.{append_page, append-Inv, next_ppn-eq}
use ssd_waf.Ftl.Changes.{lose}
use ssd_waf.Ftl.Pool.{Inv-unmapped}
use ssd_waf.Ftl.Room.{is_mapped}
use ssd_waf.Ftl.Migrate.{page-lt-total}
use ssd_waf.Ftl.Gc.{pages_of_block}
use ssd_waf.Ftl.Alloc.{Allocated, CanAllocate, get_or_allocate-Allocated}
use ssd_waf.Ftl.Forget.{forget, forget-SamePages, forget-Inv}

module _ (pol : EvictPolicy) (geo : Geometry) where
  abbrev use_block : Ftl pol.State → ℕ → Ftl pol.State
  use_block s b = set_block s b (record (s.blocks b) { is_free = false })

  -- `isFree` is written and never read.
  use_block-Inv :
      (e : Except) (s : Ftl pol.State) (b : ℕ) → Inv pol geo e s → Inv pol geo e (use_block s b)
  use_block-Inv e s b inv = record {
    shape = record {
      sized = λ c. ground (arith, inv.sized c);
      ids = λ c. ground (arith, inv.ids c);
      below = λ c i h. ground (arith, inv.below c i);
      in_range = λ c i h. ground (arith, inv.in_range c i);
      counted = λ c. ground (arith, inv.counted c);
      free_ok = λ c h. ((inv.free_ok c h).0, λ j. ground (arith, (inv.free_ok c h).1 j));
      free_distinct = inv.free_distinct;
      gc_active_ok = inv.gc_active_ok;
      tracked_ok = λ c h. ground (arith, inv.tracked_ok c h);
      policy_sound = inv.policy_sound;
      roomy = inv.roomy;
      addressable = inv.addressable;
    };
    forward = λ l p u m. ground (arith, inv.forward l p u m);
    backward = λ c i v m. inv.backward c i (ground arith) m;
    active_ok = inv.active_ok;
  }

  -- The logical pages `lo`, …, `lo + n - 1` were written.
  pub record Written (s : Ftl pol.State) (lo n : ℕ) (t : Ftl pol.State) : Type 0 where
    pub inv : IsValid pol geo t
    pub spare : 3 ≤ length t.free_pool
    pub mapped : (l : ℕ) → is_mapped t l ≡ ((leb lo l && ltb l (lo + n)) || is_mapped s l)
    pub host_write_pages : t.host_write_pages ≡ s.host_write_pages
    pub nand_write_pages : s.nand_write_pages ≤ t.nand_write_pages

  pub Written-refl :
      (s : Ftl pol.State) (x : ℕ) → IsValid pol geo s → 3 ≤ length s.free_pool → Written s x 0 s
  Written-refl s x inv spare = record {
    inv = inv;
    spare = spare;
    mapped = λ l. ground arith;
    host_write_pages = refl;
    nand_write_pages = omega arith;
  }

  pub Written-trans :
      (s t u : Ftl pol.State) (x rounds : ℕ)
      → Written s x 1 t
      → Written t (x + 1) rounds u
      → Written s x (suc rounds) u
  Written-trans s t u x rounds w v = record {
    inv = v.inv;
    spare = v.spare;
    mapped = λ l. ground (arith, w.mapped l, v.mapped l);
    host_write_pages = v.host_write_pages ∙ w.host_write_pages;
    nand_write_pages = omega (arith, w.nand_write_pages, v.nand_write_pages);
  }

  abbrev pub charge : Ftl pol.State → ℕ → Ftl pol.State
  charge s n = record s {
    host_write_pages = s.host_write_pages + n;
    nand_write_pages = s.nand_write_pages + n;
  }

  pub charged-IsValid :
      (s : Ftl pol.State) (h n : ℕ)
      → IsValid pol geo s
      → IsValid pol geo (record s { host_write_pages = h; nand_write_pages = n })
  charged-IsValid s h n inv = record {
    shape = Shape-frame pol geo s _ _ _ _ _ inv.shape;
    forward = inv.forward;
    backward = inv.backward;
    active_ok = inv.active_ok;
  }

  -- Every page of the range finds room, garbage collection included.
  unfoldable pub CanWrite : ℕ → Ftl pol.State → ℕ → ℕ → ℕ → Type 0
  CanWrite fuel s x zero st = Unit
  CanWrite fuel s x (suc rounds) st =
      CanAllocate pol geo (lose no_except x) fuel (forget pol geo s x) st
      × ((t : Ftl pol.State)
          → write_page pol geo fuel s x st ≡ ok (t, true)
          → CanWrite fuel t (x + 1) rounds st)

module _ (pol : EvictPolicy) (law : IsLawful pol) (geo : Geometry)
    (some_pages : 0 < pages_per_block geo) where
  module _ (s u : Ftl pol.State) (x st b : ℕ) (small : x < not_allocated)
      (w : Allocated pol geo (lose no_except x) (forget pol geo s x) st u b) where
    placed : Ftl pol.State
    placed = use_block pol geo (append_page pol geo u b x) b

    place_page-placed : place_page pol geo u x b ≡ ok (placed, true)
    unfolding place_page placed append_page program_page set_ppn full
    place_page-placed =
        let real : (b == not_allocated) ≡ false = ground (
          arith,
          w.b_lt,
          pages_of_block u.num_blocks (pages_per_block geo) some_pages,
          w.inv.roomy,
          w.inv.addressable,
        ) in
        let has_room : leb (pages_per_block geo) (u.blocks b).write_ptr ≡ false =
          ground (arith, w.room) in
        let lt : ltb (next_ppn geo (u.blocks b)) u.total_nand_pages ≡ true =
          rw (next_ppn-eq pol geo u b (w.inv.ids b))
            (lt→ltb _ _ (page-lt-total pol geo _ u w.inv b (u.blocks b).write_ptr w.b_lt w.room)) in
        rw real (rw has_room (rw lt))

    placed-Written : Written pol geo s x 1 placed
    unfolding placed append_page program_page
    placed-Written = record {
      inv =
          Inv-unmapped pol law geo _ placed no_except.unmapped (λ l. ground arith)
            (use_block-Inv pol geo _ _ b (
              append-Inv pol law geo _ u b x w.inv (ground arith) small w.b_lt w.room w.used
                (λ _. omega arith)));
      spare = w.spare;
      mapped = λ l. ground (
        arith,
        w.mapped l,
        ap (λ (m : ℕ → Option ℕ). m l) (forget-SamePages pol geo s (get_ppn s x)).maps,
      );
      host_write_pages =
          w.host_write_pages ∙ (forget-SamePages pol geo s (get_ppn s x)).host_write_pages;
      nand_write_pages =
          omega (arith, w.written, (forget-SamePages pol geo s (get_ppn s x)).nand_write_pages);
    }

  pub write_page-Written :
      (fuel : ℕ) (s : Ftl pol.State) (x st : ℕ)
      → IsValid pol geo s
      → 3 ≤ length s.free_pool
      → x < not_allocated
      → CanAllocate pol geo (lose no_except x) fuel (forget pol geo s x) st
      → (t : Ftl pol.State) × (write_page pol geo fuel s x st ≡ ok (t, true))
        × Written pol geo s x 1 t
  unfolding write_page
  write_page-Written fuel s x st inv spare small can =
      let pool = ap length (forget-SamePages pol geo s (get_ppn s x)).free_pool in
      let (u, b, q, w) =
        get_or_allocate-Allocated pol law geo some_pages (lose no_except x) refl st refl fuel
          (forget pol geo s x) (forget-Inv pol law geo some_pages s x inv) (omega (arith, pool))
          can in
      (
        placed s u x st b small w,
        rw (q, write_page) (place_page-placed s u x st b small w),
        placed-Written s u x st b small w,
      )

  write_from-Written :
      (rounds fuel : ℕ) (s : Ftl pol.State) (x st : ℕ)
      → IsValid pol geo s
      → 3 ≤ length s.free_pool
      → x + rounds ≤ not_allocated
      → CanWrite pol geo fuel s x rounds st
      → (t : Ftl pol.State) × (write_from pol geo fuel s x rounds st ≡ ok t)
        × Written pol geo s x rounds t
  unfolding write_from CanWrite
  write_from-Written zero fuel s x st inv spare small can =
      (s, refl, Written-refl pol geo s x inv spare)
  write_from-Written (suc rounds) fuel s x st inv spare small can =
      let (t, q, w) = write_page-Written fuel s x st inv spare (omega arith) can.0 in
      let (u, r, v) =
        write_from-Written rounds fuel t (x + 1) st w.inv w.spare (omega arith) (can.1 t q) in
      (u, rw q r, Written-trans pol geo s t u x rounds w v)

  -- On a well-formed state with three spare blocks, a write of an aligned, non-empty range of pages
  -- below the highest number, each of which finds room (its garbage collections included), ends
  -- without a failing assertion, keeps the state well formed and three blocks spare, maps exactly
  -- the pages of the range besides those that were mapped, counts the host's pages once, and at
  -- least as many pages of NAND.
  pub write-total :
      (fuel : ℕ) (s : Ftl pol.State) (lba_offset byte_size st : ℕ)
      → IsValid pol geo s
      → 3 ≤ length s.free_pool
      → is_aligned geo lba_offset byte_size ≡ true
      → 0 < byte_size
      → start_lpn geo lba_offset + num_pages geo lba_offset byte_size ≤ not_allocated
      → CanWrite pol geo fuel
          (charge pol geo s (num_pages geo lba_offset byte_size))
          (start_lpn geo lba_offset)
          (num_pages geo lba_offset byte_size)
          st
      → (t : Ftl pol.State) × (write pol geo fuel s lba_offset byte_size st ≡ ok t)
        × IsValid pol geo t
        × ((l : ℕ)
            → is_mapped t l ≡ (
                (leb (start_lpn geo lba_offset) l
                  && ltb l (start_lpn geo lba_offset + num_pages geo lba_offset byte_size))
                || is_mapped s l))
        × (t.host_write_pages ≡ s.host_write_pages + num_pages geo lba_offset byte_size)
        × (s.nand_write_pages + num_pages geo lba_offset byte_size ≤ t.nand_write_pages)
        × (3 ≤ length t.free_pool)
  unfolding write
  write-total fuel s off size st inv spare aligned pos small can =
      let n = num_pages geo off size in
      let (t, q, w) =
        write_from-Written n fuel (charge pol geo s n) (start_lpn geo off) st
          (charged-IsValid pol geo s _ _ inv) spare small can in
      (
        t,
        rw aligned (rw (lt→ltb 0 size pos) q),
        w.inv,
        w.mapped,
        w.host_write_pages,
        w.nand_write_pages,
        w.spare,
      )
