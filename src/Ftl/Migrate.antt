-- ===== src/Ftl/Migrate.antt =====
-- `RunGC` copies a page of the victim.
use ssd_waf.Base.{
  ℕ, ◌+◌, ◌*◌, ◌≤◌, ◌<◌, ◌≡◌, ◌≢◌, ◌⊎◌, inr, true, false, some, arith, contains, ◌==◌, ltb, lt→ltb,
  leb,
}
use ssd_waf.Policy.{EvictPolicy, IsLawful}
use ssd_waf.Ftl.{
  Geometry, pages_per_block, not_allocated, Ftl, ok, full, next_ppn, get_lpn, set_ppn, program_page,
  get_or_allocate_gc_active_block, migrate_page,
}
use ssd_waf.Ftl.Invariant.{Except, Inv, Shape-frame, page}
use ssd_waf.Ftl.Append.{append_page, append-Inv, next_ppn-eq}
use ssd_waf.Ftl.Changes.{lose}
use ssd_waf.Ftl.Pool.{pass, Inv-unmapped, pass-lose-Inv}
use ssd_waf.Ftl.Room.{is_mapped, gc_room, capacity, Frame, HasRoom, get_or_allocate-HasRoom}

module _ (pol : EvictPolicy) (geo : Geometry) where
  pub page-lt-total :
      (e : Except) (s : Ftl pol.State)
      → Inv pol geo e s
      → (b i : ℕ) → b < s.num_blocks
      → i < pages_per_block geo
      → page pol geo b i < s.total_nand_pages
  page-lt-total e s inv b i h k = grind (arith, inv.roomy)

  pub counted-Inv :
      (e : Except) (s : Ftl pol.State) (n : ℕ)
      → Inv pol geo e s
      → Inv pol geo e (record s { nand_write_pages = n })
  counted-Inv e s n inv = record {
    shape = Shape-frame pol geo s _ _ _ _ _ inv.shape;
    forward = inv.forward;
    backward = inv.backward;
    active_ok = inv.active_ok;
  }

  -- `m` pages of the victim were moved.
  pub record Migrated (e : Except) (s : Ftl pol.State) (m : ℕ) (t : Ftl pol.State) : Type 0 where
    pub inv : Inv pol geo e t
    pub same_victim : t.blocks e.victim ≡ s.blocks e.victim
    pub victim_used : contains e.victim t.free_pool ≡ false
    pub spent : capacity geo t + m ≡ capacity geo s
    pub copied : t.nand_write_pages ≡ s.nand_write_pages + m
    pub current : (t.gc_active_blk 0 ≡ s.gc_active_blk 0) ⊎ (t.gc_active_blk 0 ≢ some e.victim)
    pub moved_current : 0 < m → t.gc_active_blk 0 ≢ some e.victim
    pub frame : Frame pol geo s t

module _ (pol : EvictPolicy) (law : IsLawful pol) (geo : Geometry) where
  module _ (e : Except) (s : Ftl pol.State) (inv : Inv pol geo e s)
      (some_pages : 0 < pages_per_block geo)
      (v_full : pages_per_block geo ≤ (s.blocks e.victim).write_ptr)
      (v_used : contains e.victim s.free_pool ≡ false)
      (valid : (s.blocks e.victim).valid e.moved ≡ true) where
    module _ (t : Ftl pol.State) (b x : ℕ) (w : HasRoom pol geo e s e.victim t b)
        (small : x < not_allocated)
        (at_x : t.ppn_to_lpn (page pol geo e.victim e.moved) ≡ some x) where
      abbrev charged : Ftl pol.State
      charged = record t { nand_write_pages = t.nand_write_pages + 1 }

      found-get_lpn :
          get_lpn charged ((charged.blocks e.victim).id * pages_per_block geo + e.moved) ≡ ok x
      unfolding get_lpn
      found-get_lpn =
          let lt : page pol geo e.victim e.moved < t.total_nand_pages =
            page-lt-total pol geo e t w.inv e.victim e.moved
              (ground (arith, w.inv.in_range e.victim e.moved, w.same_victim))
              (omega (arith, inv.below e.victim e.moved valid, inv.sized e.victim)) in
          rw (w.inv.ids e.victim) (ground (arith, at_x))

      found-set_ppn :
          set_ppn (program_page pol geo charged b) x (next_ppn geo (charged.blocks b))
          ≡ ok (append_page pol geo charged b x)
      unfolding set_ppn append_page program_page
      found-set_ppn =
          let lt : ltb (next_ppn geo (t.blocks b)) t.total_nand_pages ≡ true =
            rw (next_ppn-eq pol geo t b (w.inv.ids b)) (
              lt→ltb _ _
                (page-lt-total pol geo e t w.inv b (t.blocks b).write_ptr w.b_lt w.room)) in
          rw lt

      migrate_page-found :
          get_or_allocate_gc_active_block pol geo s 0 ≡ ok (t, b)
          → migrate_page pol geo s e.victim e.moved ≡ ok (append_page pol geo charged b x)
      unfolding migrate_page full
      migrate_page-found q =
          let has_room : leb (pages_per_block geo) (t.blocks b).write_ptr ≡ false =
            ground (arith, w.room) in
          let real : (x == not_allocated) ≡ false = ground arith in
          rw (q, migrate_page) (rw has_room (rw found-get_lpn (rw real found-set_ppn)))

      advanced : Except
      advanced = pass e e.victim (e.moved + 1)

      -- The state after the page was copied.
      found-Inv : e.unmapped x ≡ false → Inv pol geo advanced (append_page pol geo charged b x)
      unfolding advanced
      found-Inv fresh =
          Inv-unmapped pol law geo _ _ e.unmapped (λ l. ground (arith, fresh))
            (append-Inv pol law geo (lose advanced x) charged b x
              (pass-lose-Inv pol law geo e charged (counted-Inv pol geo e t _ w.inv) x
                (ground (arith, w.same_victim)) at_x)
              (ground arith) small w.b_lt w.room w.used (λ q. absurd (w.b_ne q)))

      found-mapped :
          t.lpn_to_ppn x ≡ some (page pol geo e.victim e.moved)
          → (l : ℕ) → is_mapped (append_page pol geo charged b x) l ≡ is_mapped s l
      unfolding append_page program_page
      found-mapped x_at l = ground (arith, w.frame.mapped l)

      found-spent : gc_room geo (append_page pol geo charged b x) + 1 ≡ gc_room geo t
      unfolding append_page program_page gc_room
      found-spent = rw (w.current, gc_room) (ground (arith, w.room))

      found-Migrated :
          e.unmapped x ≡ false
          → t.lpn_to_ppn x ≡ some (page pol geo e.victim e.moved)
          → Migrated pol geo advanced s 1 (append_page pol geo charged b x)
      unfolding append_page program_page gc_room advanced
      found-Migrated fresh x_at = record {
        inv = found-Inv fresh;
        same_victim = ground (arith, w.same_victim, w.b_ne);
        victim_used = w.victim_used;
        spent = ground (arith, found-spent, w.same_capacity);
        copied = ground (arith, w.same_nand);
        current = inr (ground (arith, w.current, w.b_ne));
        moved_current = λ _. ground (arith, w.current, w.b_ne);
        frame = record {
          num_blocks = w.frame.num_blocks;
          mapped = found-mapped x_at;
          active_blk = w.frame.active_blk;
          gc_others = w.frame.gc_others;
          host_write_pages = w.frame.host_write_pages;
          total_nand_pages = w.frame.total_nand_pages;
        };
      }

    pub migrate_page-Migrated :
        0 < capacity geo s
        → (t : Ftl pol.State) × (migrate_page pol geo s e.victim e.moved ≡ ok t)
          × Migrated pol geo (pass e e.victim (e.moved + 1)) s 1 t
    unfolding advanced
    migrate_page-Migrated c =
        let (t, b, q, w) =
          get_or_allocate-HasRoom pol law geo e s e.victim inv some_pages v_full v_used c in
        let (x, fresh, small, at_x, x_at) =
          w.inv.backward e.victim e.moved (ground (arith, w.same_victim)) (λ _. omega arith) in
        (_, migrate_page-found t b x w small at_x q, found-Migrated t b x w small at_x fresh x_at)
