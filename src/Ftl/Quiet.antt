-- ===== src/Ftl/Quiet.antt =====
-- `Write` while the free pool lasts: no garbage is collected, and each page takes one page of room.
use native.Mathlib.Nat.{lt_of_mul-lt-mul_left}
use ssd_waf.Base.{
  ℕ, zero, suc, ◌+◌, ◌-◌, ◌*◌, ◌≤◌, ◌<◌, ◌≡◌, ◌∙◌, sym, inl, inr, refl, ap, true, false, Option,
  none, some, arith, List, [], ◌∷◌, length, leb, ltb, Bool-cases, Option-cases, update,
}
use ssd_waf.Policy.{EvictPolicy}
use ssd_waf.Ftl.{
  Geometry, pages_per_block, Ftl, ok, full, program_page, set_ppn, get_ppn, wait_for_space,
  take_free_block, allocate_new_active_block, get_or_allocate_active_block,
}
use ssd_waf.Ftl.Host.{place_page, write_page}
use ssd_waf.Ftl.Pool.{detach}
use ssd_waf.Ftl.Forget.{forget, SamePages, forget-SamePages}

module _ (geo : Geometry) {S : Type 0} where
  -- The pages that are left in the stream's active block.
  unfoldable pub host_room : Ftl S → ℕ → ℕ
  host_room s st = elim (s.active_blk st) [
    | none ↦ 0
    | some b ↦ pages_per_block geo - (s.blocks b).write_ptr
  ]

  -- The pages that the stream could write if it had the whole free pool.
  abbrev pub space : Ftl S → ℕ → ℕ
  space s st = host_room s st + pages_per_block geo * length s.free_pool

module _ (pol : EvictPolicy) (geo : Geometry) where
  pub wait-done :
      (fuel : ℕ) (s : Ftl pol.State)
      → ltb (length s.free_pool) 4 ≡ false
      → wait_for_space pol geo fuel s ≡ ok s
  unfolding wait_for_space
  wait-done zero s h = rw h
  wait-done (suc fuel) s h = rw (h, wait_for_space)

  -- A block was found, and no page was copied for it.
  pub record Quiet (s : Ftl pol.State) (st : ℕ) (u : Ftl pol.State) (b : ℕ) : Type 0 where
    pub current : u.active_blk st ≡ some b
    pub room : (u.blocks b).write_ptr < pages_per_block geo
    pub same_space : space geo u st ≡ space geo s st
    pub same_nand : u.nand_write_pages ≡ s.nand_write_pages

  take-Quiet :
      (fuel : ℕ) (s : Ftl pol.State) (st : ℕ) (pool : List ℕ)
      → 0 < pages_per_block geo
      → s.free_pool ≡ pool
      → host_room geo s st ≡ 0
      → 3 < length s.free_pool
      → (u : Ftl pol.State) × (b : ℕ) × (allocate_new_active_block pol geo fuel s st ≡ ok (u, b))
        × Quiet s st u b
  unfolding allocate_new_active_block take_free_block host_room
  take-Quiet fuel s st [] pos e r four = absurd (omega (arith, ap length e))
  take-Quiet fuel s st (f ∷ rest) pos e r four =
      let done : ltb (length s.free_pool) 4 ≡ false = ground arith in
      (
        record (detach s f rest) { active_blk = update s.active_blk st (some f) },
        f,
        rw (wait-done fuel s done) (rw (e, take_free_block)),
        record {
          current = ground arith;
          room = ground arith;
          same_space = rw (r, e) (ground arith);
          same_nand = refl;
        },
      )

  pub get_or_allocate-Quiet :
      (fuel : ℕ) (s : Ftl pol.State) (st : ℕ)
      → 0 < pages_per_block geo
      → pages_per_block geo * 3 < space geo s st
      → (u : Ftl pol.State) × (b : ℕ) × (get_or_allocate_active_block pol geo fuel s st ≡ ok (u, b))
        × Quiet s st u b
  unfolding get_or_allocate_active_block full host_room
  get_or_allocate-Quiet fuel s st pos h = elim (Option-cases (s.active_blk st)) [
    | inl q ↦
        let r : host_room geo s st ≡ 0 = rw (q, host_room) in
        let (u, b, e, w) = take-Quiet fuel s st s.free_pool pos refl r (four r) in
        (u, b, rw (q, get_or_allocate_active_block) e, w)
    | inr (b, q) ↦ elim (Bool-cases (leb (pages_per_block geo) (s.blocks b).write_ptr)) [
      | inl filled ↦
          let r : host_room geo s st ≡ 0 = rw (q, host_room) (ground arith) in
          let (u, b', e, w) = take-Quiet fuel s st s.free_pool pos refl r (four r) in
          (u, b', rw (q, get_or_allocate_active_block) (rw filled e), w)
      | inr has_room ↦ (
        s,
        b,
        rw (q, get_or_allocate_active_block) (rw has_room),
        record { current = q; room = ground arith; same_space = refl; same_nand = refl },
      )
    ]
  ]
    where
      four : host_room geo s st ≡ 0 → 3 < length s.free_pool
      four r = lt_of_mul-lt-mul_left (pages_per_block geo) (omega (arith, r, h))

  -- What a placed page changes of the room.
  pub record Placed (u : Ftl pol.State) (b : ℕ) (t : Ftl pol.State) : Type 0 where
    pub active_blk : t.active_blk ≡ u.active_blk
    pub free_pool : t.free_pool ≡ u.free_pool
    pub nand_write_pages : t.nand_write_pages ≡ u.nand_write_pages
    pub pointer : (t.blocks b).write_ptr ≡ (u.blocks b).write_ptr + 1

  pub place_page-Placed :
      (u t : Ftl pol.State) (x b : ℕ) → place_page pol geo u x b ≡ ok (t, true) → Placed u b t
  unfolding place_page program_page set_ppn
  place_page-Placed u t x b e = record {
    active_blk = ground arith;
    free_pool = ground arith;
    nand_write_pages = ground arith;
    pointer = ground arith;
  }

  pub Placed-space :
      (u t : Ftl pol.State) (st b : ℕ)
      → u.active_blk st ≡ some b
      → (u.blocks b).write_ptr < pages_per_block geo
      → Placed u b t
      → space geo t st + 1 ≡ space geo u st
  unfolding host_room
  Placed-space u t st b current room w =
      let same : t.active_blk st ≡ some b =
        ap (λ (m : ℕ → Option ℕ). m st) w.active_blk ∙ current in
      let pool : length t.free_pool ≡ length u.free_pool = ap length w.free_pool in
      ground (arith, same, pool, w.pointer)

  pub SamePages-space :
      (s t : Ftl pol.State) (st : ℕ) → SamePages pol geo s t → space geo t st ≡ space geo s st
  unfolding host_room
  SamePages-space s t st w =
      let same : t.active_blk st ≡ s.active_blk st = ap (λ (m : ℕ → Option ℕ). m st) w.active_blk in
      let pool : length t.free_pool ≡ length s.free_pool = ap length w.free_pool in
      elim (Option-cases (s.active_blk st)) [
        | inl h ↦ ground (arith, same, pool)
        | inr (b, h) ↦ ground (arith, same, pool, w.pointers b)
      ]

  -- A page of `Write` takes one page of the room, and no page is copied.
  pub write_page-space :
      (fuel : ℕ) (s t : Ftl pol.State) (x st : ℕ)
      → 0 < pages_per_block geo
      → pages_per_block geo * 3 < space geo s st
      → write_page pol geo fuel s x st ≡ ok (t, true)
      → (space geo t st + 1 ≡ space geo s st) × (t.nand_write_pages ≡ s.nand_write_pages)
  unfolding write_page
  write_page-space fuel s t x st pos h e =
      let f = forget pol geo s x in
      let w = forget-SamePages pol geo s (get_ppn s x) in
      let same = SamePages-space s f st w in
      let (u, b, q, v) = get_or_allocate-Quiet fuel f st pos (omega (arith, same, h)) in
      let p : place_page pol geo u x b ≡ ok (t, true) = sym (rw (q, write_page) refl) ∙ e in
      let z = place_page-Placed u t x b p in
      (
        (omega (arith, Placed-space u t st b v.current v.room z, v.same_space, same)),
        z.nand_write_pages ∙ (v.same_nand ∙ w.nand_write_pages),
      )

  pub host_room-le : (s : Ftl pol.State) (st : ℕ) → host_room geo s st ≤ pages_per_block geo
  unfolding host_room
  host_room-le s st = ground arith
