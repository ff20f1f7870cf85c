-- ===== src/Ftl/Alloc.antt =====
-- `GetOrAllocateActiveBlock`: the block that a page of the host goes to.
use ssd_waf.Base.{
  ℕ, ◌+◌, ◌*◌, ◌≤◌, ◌<◌, ◌≡◌, ◌≢◌, inl, inr, refl, ap, false, some, arith, List, [], ◌∷◌, length,
  contains, leb, Bool-cases, Option-cases, update,
}
use ssd_waf.Policy.{EvictPolicy, IsLawful}
use ssd_waf.Ftl.{
  Geometry, pages_per_block, Ftl, ok, full, take_free_block, allocate_new_active_block,
  get_or_allocate_active_block,
}
use ssd_waf.Ftl.Invariant.{Except, Inv}
use ssd_waf.Ftl.Pool.{Inv-idle, retire, detach, detach-Inv, detached, claim-Inv, retire-Inv}
use ssd_waf.Ftl.Room.{is_mapped, capacity}
use ssd_waf.Ftl.Wait.{Productive, Waited, wait-Waited}

module _ (pol : EvictPolicy) (geo : Geometry) where
  -- The stream has a block with room.
  pub record Allocated (e : Except) (s : Ftl pol.State) (st : ℕ) (t : Ftl pol.State) (b : ℕ)
      : Type 0 where
    pub inv : Inv pol geo e t
    pub b_lt : b < t.num_blocks
    pub room : (t.blocks b).write_ptr < pages_per_block geo
    pub used : contains b t.free_pool ≡ false
    pub spare : 3 ≤ length t.free_pool
    pub current : t.active_blk st ≡ some b
    pub others : (st' : ℕ) → st' ≢ st → t.active_blk st' ≡ s.active_blk st'
    pub mapped : (l : ℕ) → is_mapped t l ≡ is_mapped s l
    pub num_blocks : t.num_blocks ≡ s.num_blocks
    pub host_write_pages : t.host_write_pages ≡ s.host_write_pages
    pub written : s.nand_write_pages ≤ t.nand_write_pages

  -- The stream's block has room, or the wait for a new one succeeds.
  unfoldable pub CanAllocate : Except → ℕ → Ftl pol.State → ℕ → Type 0
  CanAllocate e fuel s st =
      ((b : ℕ) → s.active_blk st ≡ some b → pages_per_block geo ≤ (s.blocks b).write_ptr)
      → Productive pol geo (retire e st) fuel s × (4 * pages_per_block geo < capacity geo s + fuel)

module _ (pol : EvictPolicy) (law : IsLawful pol) (geo : Geometry)
    (some_pages : 0 < pages_per_block geo) (e : Except) (fresh : e.moved ≡ 0) (st : ℕ)
    (busy : e.idle_stream st ≡ false) where
  take-Allocated :
      (s t : Ftl pol.State) (pool : List ℕ)
      → t.free_pool ≡ pool
      → Waited pol geo (retire e st) s t
      → (u : Ftl pol.State) × (b : ℕ) × (take_free_block pol geo t st ≡ (u, b))
        × Allocated pol geo e s st u b
  unfolding take_free_block
  take-Allocated s t [] p w = absurd (omega (arith, w.enough, ap length p))
  take-Allocated s t (f ∷ rest) p w =
      let (f_lt, f_used) = detached pol law geo _ t f rest w.inv p some_pages in
      let i = detach-Inv pol law geo _ t f rest w.inv p some_pages in
      (
        record (detach t f rest) { active_blk = update t.active_blk st (some f) },
        f,
        rw (p, take_free_block),
        record {
          inv =
              Inv-idle pol law geo _ _ e.idle_stream (λ j. ground (arith, busy))
                (claim-Inv pol law geo _ _ st f i f_lt f_used);
          b_lt = f_lt;
          room = ground arith;
          used = f_used;
          spare = omega (arith, w.enough, ap length p);
          current = ground arith;
          others = λ j h. ground (arith, w.frame.active_blk);
          mapped = w.frame.mapped;
          num_blocks = w.frame.num_blocks;
          host_write_pages = w.frame.host_write_pages;
          written = w.written;
        },
      )

  pub allocate-Allocated :
      (fuel : ℕ) (s : Ftl pol.State)
      → Inv pol geo e s
      → 0 < length s.free_pool
      → Productive pol geo (retire e st) fuel s
      → 4 * pages_per_block geo < capacity geo s + fuel
      → (u : Ftl pol.State) × (b : ℕ) × (allocate_new_active_block pol geo fuel s st ≡ ok (u, b))
        × Allocated pol geo e s st u b
  unfolding allocate_new_active_block
  allocate-Allocated fuel s inv spare p c =
      let (t, q, w) =
        wait-Waited pol law geo some_pages (retire e st) fresh fuel s
          (retire-Inv pol law geo e s inv st) spare p c in
      let (u, b, r, a) = take-Allocated s t t.free_pool refl w in
      (u, b, rw (q, allocate_new_active_block) (rw r), a)

  -- With three spare blocks before, there are three afterwards.
  pub get_or_allocate-Allocated :
      (fuel : ℕ) (s : Ftl pol.State)
      → Inv pol geo e s
      → 3 ≤ length s.free_pool
      → CanAllocate pol geo e fuel s st
      → (u : Ftl pol.State) × (b : ℕ) × (get_or_allocate_active_block pol geo fuel s st ≡ ok (u, b))
        × Allocated pol geo e s st u b
  unfolding get_or_allocate_active_block CanAllocate full
  get_or_allocate-Allocated fuel s inv spare can = elim (Option-cases (s.active_blk st)) [
    | inl h ↦
        let (p, c) = can (λ b q. ground arith) in
        let (u, b, r, a) = allocate-Allocated fuel s inv (omega arith) p c in
        (u, b, rw (h, get_or_allocate_active_block) r, a)
    | inr (b, h) ↦ elim (Bool-cases (leb (pages_per_block geo) (s.blocks b).write_ptr)) [
      | inl filled ↦
          let (p, c) = can (λ b' q. ground arith) in
          let (u, b', r, a) = allocate-Allocated fuel s inv (omega arith) p c in
          (u, b', rw (h, get_or_allocate_active_block) (rw filled r), a)
      | inr has_room ↦ (
        s,
        b,
        rw (h, get_or_allocate_active_block) (rw has_room),
        record {
          inv = inv;
          b_lt = (inv.active_ok st b busy h).0;
          room = ground arith;
          used = (inv.active_ok st b busy h).1;
          spare = spare;
          current = h;
          others = λ j n. refl;
          mapped = λ l. refl;
          num_blocks = refl;
          host_write_pages = refl;
          written = omega arith;
        },
      )
    ]
  ]
