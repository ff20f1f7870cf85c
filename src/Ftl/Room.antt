-- ===== src/Ftl/Room.antt =====
-- `RunGC` finds a block with room for a page of the victim: `GetOrAllocateGCActiveBlock`.
use ssd_waf.Base.{
  ℕ, ◌+◌, ◌-◌, ◌*◌, ◌≤◌, ◌<◌, ◌≡◌, ◌≢◌, inl, inr, ap, refl, Bool, true, false, none, some, arith,
  List, [], ◌∷◌, length, contains, update, leb, Bool-cases, Option-cases,
}
use ssd_waf.Policy.{EvictPolicy, IsLawful}
use ssd_waf.Ftl.{
  Geometry, pages_per_block, Ftl, ok, full, allocate_new_gc_active_block,
  get_or_allocate_gc_active_block,
}
use ssd_waf.Ftl.Invariant.{Except, Inv}
use ssd_waf.Ftl.Pool.{detach, detach-Inv, detached, gc_claim-Inv, f-free, used-rest}

abbrev pub is_mapped : {S : Type 0} → Ftl S → ℕ → Bool
is_mapped s l = elim (s.lpn_to_ppn l) [ none ↦ false | some _ ↦ true ]

module _ (geo : Geometry) {S : Type 0} where
  -- The pages that are left in the collector's active block.
  unfoldable pub gc_room : Ftl S → ℕ
  gc_room s = elim (s.gc_active_blk 0) [
    | none ↦ 0
    | some b ↦ pages_per_block geo - (s.blocks b).write_ptr
  ]

  -- The pages that the collector can still write.
  abbrev pub capacity : Ftl S → ℕ
  capacity s = gc_room s + pages_per_block geo * length s.free_pool

module _ (pol : EvictPolicy) (geo : Geometry) where
  -- What the collector leaves alone.
  pub record Frame (s t : Ftl pol.State) : Type 0 where
    pub num_blocks : t.num_blocks ≡ s.num_blocks
    pub mapped : (l : ℕ) → is_mapped t l ≡ is_mapped s l
    pub active_blk : t.active_blk ≡ s.active_blk
    pub gc_others : (st : ℕ) → st ≢ 0 → t.gc_active_blk st ≡ s.gc_active_blk st
    pub host_write_pages : t.host_write_pages ≡ s.host_write_pages
    pub total_nand_pages : t.total_nand_pages ≡ s.total_nand_pages

  -- A block with room was found for a page of the victim.
  pub record HasRoom (e : Except) (s : Ftl pol.State) (v : ℕ) (t : Ftl pol.State) (b : ℕ)
      : Type 0 where
    pub inv : Inv pol geo e t
    pub b_lt : b < t.num_blocks
    pub room : (t.blocks b).write_ptr < pages_per_block geo
    pub used : contains b t.free_pool ≡ false
    pub b_ne : b ≢ v
    pub same_victim : t.blocks v ≡ s.blocks v
    pub victim_used : contains v t.free_pool ≡ false
    pub same_capacity : capacity geo t ≡ capacity geo s
    pub current : t.gc_active_blk 0 ≡ some b
    pub same_nand : t.nand_write_pages ≡ s.nand_write_pages
    pub frame : Frame s t

module _ (pol : EvictPolicy) (law : IsLawful pol) (geo : Geometry) where
  module _ (e : Except) (s : Ftl pol.State) (v : ℕ) (inv : Inv pol geo e s)
      (some_pages : 0 < pages_per_block geo) (v_full : pages_per_block geo ≤ (s.blocks v).write_ptr)
      (v_used : contains v s.free_pool ≡ false) where
    capacity-detach :
        (f : ℕ) (rest : List ℕ)
        → s.free_pool ≡ f ∷ rest
        → gc_room geo s ≡ 0
        → capacity geo
            (record (detach s f rest) { gc_active_blk = update s.gc_active_blk 0 (some f) })
          ≡ capacity geo s
    unfolding gc_room
    capacity-detach f rest p r = rw (r, p) (ground arith)

    allocate-HasRoom :
        (pool : List ℕ)
        → s.free_pool ≡ pool
        → gc_room geo s ≡ 0
        → 0 < capacity geo s
        → (t : Ftl pol.State) × (b : ℕ) × (allocate_new_gc_active_block pol geo s 0 ≡ ok (t, b))
          × HasRoom pol geo e s v t b
    unfolding allocate_new_gc_active_block
    allocate-HasRoom [] p r c = absurd (grind (arith, ap length p))
    allocate-HasRoom (f ∷ rest) p r c =
        let f_in : contains f s.free_pool ≡ true = f-free pol law geo e s f rest inv p some_pages in
        let (f_lt, f_used) = detached pol law geo e s f rest inv p some_pages in
        (
          record (detach s f rest) { gc_active_blk = update s.gc_active_blk 0 (some f) },
          f,
          rw (p, allocate_new_gc_active_block),
          record {
            inv =
                gc_claim-Inv pol law geo e _ 0 f
                  (detach-Inv pol law geo e s f rest inv p some_pages) f_lt f_used;
            b_lt = f_lt;
            room = ground arith;
            used = f_used;
            b_ne = ground arith;
            same_victim = ground arith;
            victim_used = (used-rest pol law geo e s f rest inv p some_pages v v_used).0;
            same_capacity = capacity-detach f rest p r;
            current = refl;
            same_nand = refl;
            frame = record {
              num_blocks = refl;
              mapped = λ l. refl;
              active_blk = refl;
              gc_others = λ st h. ground arith;
              host_write_pages = refl;
              total_nand_pages = refl;
            };
          },
        )

    stay-HasRoom :
        (b : ℕ)
        → s.gc_active_blk 0 ≡ some b
        → (s.blocks b).write_ptr < pages_per_block geo
        → HasRoom pol geo e s v s b
    stay-HasRoom b h r = record {
      inv = inv;
      b_lt = (inv.gc_active_ok 0 b h).0;
      room = r;
      used = (inv.gc_active_ok 0 b h).1;
      b_ne = λ q. ground arith;
      same_victim = refl;
      victim_used = v_used;
      same_capacity = refl;
      current = h;
      same_nand = refl;
      frame = record {
        num_blocks = refl;
        mapped = λ l. refl;
        active_blk = refl;
        gc_others = λ st n. refl;
        host_write_pages = refl;
        total_nand_pages = refl;
      };
    }

    -- While the collector has capacity, it finds room: the assertion in
    -- `AllocateNewGCActiveBlock` holds.
    pub get_or_allocate-HasRoom :
        0 < capacity geo s
        → (t : Ftl pol.State) × (b : ℕ) × (get_or_allocate_gc_active_block pol geo s 0 ≡ ok (t, b))
          × HasRoom pol geo e s v t b
    unfolding get_or_allocate_gc_active_block full gc_room
    get_or_allocate-HasRoom c = elim (Option-cases (s.gc_active_blk 0)) [
      | inl h ↦
          let (t, b, q, w) = allocate-HasRoom s.free_pool refl (rw (h, gc_room)) c in
          (t, b, rw (h, get_or_allocate_gc_active_block) q, w)
      | inr (b, h) ↦ elim (Bool-cases (leb (pages_per_block geo) (s.blocks b).write_ptr)) [
        | inl is_full ↦
            let (t, b', q, w) =
              allocate-HasRoom s.free_pool refl (rw (h, gc_room) (ground arith)) c in
            (t, b', rw (h, get_or_allocate_gc_active_block) (rw is_full q), w)
        | inr has_room ↦ (
          s,
          b,
          rw (h, get_or_allocate_gc_active_block) (rw has_room),
          stay-HasRoom b h (ground arith),
        )
      ]
    ]
