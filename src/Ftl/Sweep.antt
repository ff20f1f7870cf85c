-- ===== src/Ftl/Sweep.antt =====
-- The loop of `RunGC` over the victim's pages, of which it copies the valid ones.
use ssd_waf.Base.{
  ℕ, zero, suc, ◌+◌, ◌≤◌, ◌<◌, ◌≡◌, inl, inr, ap, sym, ◌∙◌, refl, false, arith, contains,
  count_from, subst, Bool-cases,
}
use ssd_waf.Policy.{EvictPolicy, IsLawful}
use ssd_waf.Ftl.{Geometry, pages_per_block, Block, Ftl, ok, full, migrate_from}
use ssd_waf.Ftl.Invariant.{Except, Inv}
use ssd_waf.Ftl.Pool.{pass, pass-Inv}
use ssd_waf.Ftl.Room.{capacity, Frame}
use ssd_waf.Ftl.Migrate.{Migrated, migrate_page-Migrated}

module _ (pol : EvictPolicy) (geo : Geometry) where
  pub Frame-refl : (s : Ftl pol.State) → Frame pol geo s s
  Frame-refl s = record {
    num_blocks = refl;
    mapped = λ l. refl;
    active_blk = refl;
    gc_others = λ st h. refl;
    host_write_pages = refl;
    total_nand_pages = refl;
  }

  pub Frame-trans :
      (s t u : Ftl pol.State) → Frame pol geo s t → Frame pol geo t u → Frame pol geo s u
  Frame-trans s t u f g = record {
    num_blocks = g.num_blocks ∙ f.num_blocks;
    mapped = λ l. g.mapped l ∙ f.mapped l;
    active_blk = g.active_blk ∙ f.active_blk;
    gc_others = λ st h. g.gc_others st h ∙ f.gc_others st h;
    host_write_pages = g.host_write_pages ∙ f.host_write_pages;
    total_nand_pages = g.total_nand_pages ∙ f.total_nand_pages;
  }

  Migrated-refl :
      (e : Except) (s : Ftl pol.State)
      → Inv pol geo e s
      → contains e.victim s.free_pool ≡ false
      → Migrated pol geo e s 0 s
  Migrated-refl e s inv used = record {
    inv = inv;
    same_victim = refl;
    victim_used = used;
    spent = omega arith;
    copied = omega arith;
    current = inl refl;
    moved_current = λ h. elim h [ ];
    frame = Frame-refl s;
  }

  Migrated-trans :
      (e e' : Except) (s t u : Ftl pol.State) (m n : ℕ)
      → e'.victim ≡ e.victim
      → Migrated pol geo e s m t
      → Migrated pol geo e' t n u
      → Migrated pol geo e' s (m + n) u
  Migrated-trans e e' s t u m n v f g = record {
    inv = g.inv;
    same_victim = ground (arith, g.same_victim, f.same_victim);
    victim_used = g.victim_used;
    spent = omega (arith, f.spent, g.spent);
    copied = omega (arith, f.copied, g.copied);
    current = ground (arith, f.current, g.current);
    moved_current = λ h. ground (arith, f.moved_current, g.moved_current, g.current);
    frame = Frame-trans s t u f.frame g.frame;
  }

module _ (pol : EvictPolicy) (law : IsLawful pol) (geo : Geometry)
    (some_pages : 0 < pages_per_block geo) where
  -- The loop copies every valid page, and no assertion fails while the capacity lasts.
  pub migrate_from-Migrated :
      (rounds : ℕ) (e : Except) (s : Ftl pol.State)
      → Inv pol geo e s
      → pages_per_block geo ≤ (s.blocks e.victim).write_ptr
      → contains e.victim s.free_pool ≡ false
      → e.moved + rounds ≡ pages_per_block geo
      → count_from (s.blocks e.victim).valid e.moved rounds ≤ capacity geo s
      → (t : Ftl pol.State) × (migrate_from pol geo s e.victim e.moved rounds ≡ ok t)
        × Migrated pol geo
            (pass e e.victim (pages_per_block geo))
            s
            (count_from (s.blocks e.victim).valid e.moved rounds)
            t
  unfolding migrate_from count_from
  migrate_from-Migrated zero e s inv full used end c = (
    s,
    refl,
    Migrated-refl pol geo _ s (subst (λ i. Inv pol geo (pass e e.victim i) s) (omega arith) inv)
        used,
  )
  migrate_from-Migrated (suc rounds) e s inv filled used end c =
      elim (Bool-cases ((s.blocks e.victim).valid e.moved)) [
        | inl is_valid ↦
            let (t, q, m) =
              migrate_page-Migrated pol law geo e s inv some_pages filled used is_valid
                (ground arith) in
            let same : count_from (t.blocks e.victim).valid (e.moved + 1) rounds
                ≡ count_from (s.blocks e.victim).valid (e.moved + 1) rounds =
              ap (λ (b : Block). count_from b.valid (e.moved + 1) rounds) m.same_victim in
            let (u, r, n) =
              migrate_from-Migrated rounds (pass e e.victim (e.moved + 1)) t m.inv
                (subst (λ (b : Block). pages_per_block geo ≤ b.write_ptr) (sym m.same_victim)
                  filled)
                m.victim_used (omega arith) (ground (arith, m.spent, same)) in
            (
              u,
              rw is_valid (rw q r),
              subst (λ i. Migrated pol geo (pass e e.victim (pages_per_block geo)) s i u)
                  (ground (arith, same))
                  (Migrated-trans pol geo (pass e e.victim (e.moved + 1))
                    (pass e e.victim (pages_per_block geo)) s t u 1
                    (count_from (t.blocks e.victim).valid (e.moved + 1) rounds) refl m n),
            )
        | inr invalid ↦
            let (u, r, n) =
              migrate_from-Migrated rounds (pass e e.victim (e.moved + 1)) s
                (pass-Inv pol law geo e s inv invalid) filled used (omega arith) (ground arith) in
            (
              u,
              rw invalid r,
              subst (λ i. Migrated pol geo (pass e e.victim (pages_per_block geo)) s i u)
                  (ground arith) n,
            )
      ]
