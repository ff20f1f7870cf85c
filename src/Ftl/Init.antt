-- ===== src/Ftl/Init.antt =====
-- The constructor of `PageMappingFTL`: it ends exactly on devices of four blocks or more.
use native.Mathlib.Nat.{le-div_iff_mul-le, div-mul-le_self, mul-le-mul_left, mul_assoc}
use ssd_waf.Base.{
  ℕ, zero, suc, ◌+◌, ◌-◌, ◌*◌, ◌/◌, ◌≤◌, ◌<◌, ◌≡◌, refl, ap, true, false, none, some, arith, List,
  ◌∷◌, length, contains, Distinct, count_from-none, update, ltb, lt→ltb,
}
use ssd_waf.Policy.{EvictPolicy, IsLawful}
use ssd_waf.Ftl.{
  Geometry, pages_per_block, not_allocated, Ftl, ok, spin, run_gc, wait_for_space, take_free_block,
  allocate_new_active_block,
}
use ssd_waf.Ftl.Host.{push_all, blank, init}
use ssd_waf.Ftl.Invariant.{no_except, IsValid}
use ssd_waf.Ftl.Pool.{detach, detach-Inv, detached, claim-Inv, Inv-idle}
use ssd_waf.Ftl.Room.{is_mapped}

contains-push_all : (n b : ℕ) → contains b (push_all n) ≡ ltb b n
unfolding contains push_all
contains-push_all zero b = ground arith
contains-push_all (suc n) b = ground (arith, contains-push_all n b)

push_all-Distinct : (n : ℕ) → Distinct (push_all n)
unfolding push_all
push_all-Distinct zero = tt
push_all-Distinct (suc n) = (ground (arith, contains-push_all n n), push_all-Distinct n)

length-push_all : (n : ℕ) → length (push_all n) ≡ n
unfolding push_all
length-push_all zero = refl
length-push_all (suc n) = ap suc (length-push_all n)

-- The blocks' pages are no more than the device's pages.
blocks-fit : (total page block : ℕ) → 0 < page → total / block * (block / page) ≤ total / page
blocks-fit total page block pos =
    (le-div_iff_mul-le {k = page} {x = total / block * (block / page)} {y = total} pos).1 (
      omega (
        arith,
        mul_assoc (total / block) (block / page) page,
        mul-le-mul_left (total / block) (div-mul-le_self block page),
        div-mul-le_self total block,
      ))

module _ (pol : EvictPolicy) (geo : Geometry) where
  wait-done :
      (fuel : ℕ) (s : Ftl pol.State)
      → ltb (length s.free_pool) 4 ≡ false
      → wait_for_space pol geo fuel s ≡ ok s
  unfolding wait_for_space
  wait-done zero s h = rw h
  wait-done (suc fuel) s h = rw (h, wait_for_space)

  take-first :
      (s : Ftl pol.State) (st f : ℕ) (rest : List ℕ)
      → s.free_pool ≡ f ∷ rest
      → take_free_block pol geo s st
        ≡ (record (detach s f rest) { active_blk = update s.active_blk st (some f) }, f)
  unfolding take_free_block
  take-first s st f rest h = rw (h, take_free_block)

  blank-spin :
      (fuel : ℕ) (s : Ftl pol.State)
      → ltb (length s.free_pool) 4 ≡ true
      → pol.choose_segment s.policy ≡ (none, s.policy)
      → wait_for_space pol geo fuel s ≡ spin
  unfolding wait_for_space run_gc
  blank-spin zero s h idle = rw h
  blank-spin (suc fuel) s h idle =
      let same : record s { policy = (pol.choose_segment s.policy).1 } ≡ s =
        ap (λ r. record s { policy = r.1 }) idle in
      let first_of : (pol.choose_segment s.policy).0 ≡ none = ap (λ r. r.0) idle in
      let again : run_gc pol geo s
          ≡ ok (record s { policy = (pol.choose_segment s.policy).1 }, false) =
        rw (first_of, run_gc) in
      rw (h, wait_for_space) (rw again (rw same (blank-spin fuel s h idle)))

  -- With fewer than four blocks, and a policy that has no victim and whose choice changes nothing,
  -- the constructor does not end: whatever the fuel, it runs out.
  pub init-spin :
      (fuel : ℕ) (p : pol.State) (total_bytes : ℕ)
      → total_bytes / geo.block_size < 4
      → pol.choose_segment p ≡ (none, p)
      → init pol geo fuel p total_bytes ≡ spin
  unfolding init allocate_new_active_block blank
  init-spin fuel p total_bytes few idle = rw (
      blank-spin fuel (blank pol geo p total_bytes)
        (rw (length-push_all (total_bytes / geo.block_size)) (lt→ltb _ _ few)) idle)

module _ (pol : EvictPolicy) (law : IsLawful pol) (geo : Geometry)
    (some_pages : 0 < pages_per_block geo) (page_pos : 0 < geo.page_size) (p : pol.State)
    (sound : pol.IsSound p) (nothing : (i : ℕ) → pol.tracks p i ≡ false) (total_bytes : ℕ) where
  -- The blank device, with its size known.
  sized_blank : Ftl pol.State
  sized_blank = record (blank pol geo p total_bytes) {
    total_nand_pages = total_bytes / geo.page_size;
  }

  sized_blank-IsValid : total_bytes / geo.page_size < not_allocated → IsValid pol geo sized_blank
  unfolding sized_blank blank pages_per_block
  sized_blank-IsValid small = record {
    shape = record {
      sized = λ b. omega arith;
      ids = λ b. refl;
      below = λ b i h. cc;
      in_range = λ b i h. cc;
      counted = λ b.
          ground
            (arith, count_from-none (λ _. false) 0 (geo.block_size / geo.page_size) (λ _. refl));
      free_ok =
          λ b h. (ground (arith, contains-push_all (total_bytes / geo.block_size) b), λ i. refl);
      free_distinct = push_all-Distinct (total_bytes / geo.block_size);
      gc_active_ok = λ st b h. cc;
      tracked_ok = λ b h. ground (arith, nothing b);
      policy_sound = sound;
      roomy = blocks-fit total_bytes geo.page_size geo.block_size page_pos;
      addressable = small;
    };
    forward = λ l q u h. cc;
    backward = λ b i h m. cc;
    active_ok = λ st b u h. cc;
  }

  first : ℕ → Ftl pol.State
  first m = record (detach sized_blank m (push_all m)) {
    active_blk = update (λ _. none) 0 (some m);
  }

  init-found :
      (m fuel : ℕ)
      → total_bytes / geo.block_size ≡ suc m
      → 3 ≤ m
      → init pol geo fuel p total_bytes ≡ ok (first m)
  unfolding init allocate_new_active_block first blank sized_blank push_all
  init-found m fuel e h =
      let s = blank pol geo p total_bytes in
      let pool : s.free_pool ≡ m ∷ push_all m = blank_pool m e in
      let done : ltb (length s.free_pool) 4 ≡ false = rw pool (ground (arith, length-push_all m)) in
      rw (wait-done pol geo fuel s done) (rw (take-first pol geo s 0 m (push_all m) pool))
    where
      blank_pool :
          (m : ℕ)
          → total_bytes / geo.block_size ≡ suc m
          → (blank pol geo p total_bytes).free_pool ≡ m ∷ push_all m
      blank_pool m e = ap push_all e

  -- On a device of at least four blocks and an addressable number of pages, with a sound policy
  -- that tracks nothing, the constructor ends: the state is well formed, no logical page is mapped,
  -- one block is taken from the free pool, and nothing is counted.
  pub init-IsValid :
      (fuel : ℕ)
      → 4 ≤ total_bytes / geo.block_size
      → total_bytes / geo.page_size < not_allocated
      → (s : Ftl pol.State) × (init pol geo fuel p total_bytes ≡ ok s)
        × IsValid pol geo s
        × ((l : ℕ) → is_mapped s l ≡ false)
        × (length s.free_pool + 1 ≡ total_bytes / geo.block_size)
        × (s.host_write_pages ≡ 0)
        × (s.nand_write_pages ≡ 0)
  unfolding first sized_blank blank push_all
  init-IsValid fuel four small =
      let m = total_bytes / geo.block_size - 1 in
      let e : total_bytes / geo.block_size ≡ suc m = omega arith in
      let pool : sized_blank.free_pool ≡ m ∷ push_all m = ap push_all e in
      let inv = sized_blank-IsValid small in
      let (m_lt, used) =
        detached pol law geo no_except sized_blank m (push_all m) inv pool some_pages in
      (
        first m,
        init-found m fuel e (omega arith),
        Inv-idle pol law geo _ (first m) no_except.idle_stream (λ st. ground arith)
            (claim-Inv pol law geo no_except _ 0 m
              (detach-Inv pol law geo no_except sized_blank m (push_all m) inv pool some_pages) m_lt
              used),
        λ l. refl,
        omega (arith, length-push_all m),
        refl,
        refl,
      )
