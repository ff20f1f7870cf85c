-- ===== src/Ftl/Forget.antt =====
-- What `Write` and `Trim` do first with a logical page: its old physical page loses its validity.
use ssd_waf.Base.{
  ℕ, ◌+◌, ◌<◌, ◌≡◌, ◌⊎◌, leb, ltb, zero, suc, inl, inr, refl, ap, false, not, ◌&&◌, none, arith,
  Option, length, Option-cases, ◌==◌,
}
use ssd_waf.Policy.{EvictPolicy, IsLawful}
use ssd_waf.Ftl.{
  Geometry, pages_per_block, not_allocated, Ftl, get_ppn, unmap, invalidate_ppn, clear_page,
}
use ssd_waf.Ftl.Host.{trim_page, trim_from}
use ssd_waf.Ftl.Invariant.{no_except, Inv, IsValid}
use ssd_waf.Ftl.Changes.{lose, lose-Inv, unmap-Inv, invalidate-Inv, mapped-lt}
use ssd_waf.Ftl.Pool.{Inv-unmapped}
use ssd_waf.Ftl.Room.{is_mapped, gc_room, capacity}

module _ (pol : EvictPolicy) (geo : Geometry) where
  -- `InvalidatePpn(GetPpn(lpn))`.
  abbrev pub forget : Ftl pol.State → ℕ → Ftl pol.State
  forget s x = invalidate_ppn pol geo s (get_ppn s x)

  -- What it leaves alone.
  pub record SamePages (s t : Ftl pol.State) : Type 0 where
    pub maps : t.lpn_to_ppn ≡ s.lpn_to_ppn
    pub num_blocks : t.num_blocks ≡ s.num_blocks
    pub free_pool : t.free_pool ≡ s.free_pool
    pub active_blk : t.active_blk ≡ s.active_blk
    pub gc_active_blk : t.gc_active_blk ≡ s.gc_active_blk
    pub nand_write_pages : t.nand_write_pages ≡ s.nand_write_pages
    pub host_write_pages : t.host_write_pages ≡ s.host_write_pages
    pub pointers : (b : ℕ) → (t.blocks b).write_ptr ≡ (s.blocks b).write_ptr

  pub forget-SamePages : (s : Ftl pol.State) (p : ℕ) → SamePages s (invalidate_ppn pol geo s p)
  unfolding invalidate_ppn clear_page
  forget-SamePages s p = record {
    maps = ground arith;
    num_blocks = ground arith;
    free_pool = ground arith;
    active_blk = ground arith;
    gc_active_blk = ground arith;
    nand_write_pages = ground arith;
    host_write_pages = ground arith;
    pointers = λ b. ground arith;
  }

  pub SamePages-capacity : (s t : Ftl pol.State) → SamePages s t → capacity geo t ≡ capacity geo s
  unfolding gc_room
  SamePages-capacity s t w =
      let same : t.gc_active_blk 0 ≡ s.gc_active_blk 0 =
        ap (λ (m : ℕ → Option ℕ). m 0) w.gc_active_blk in
      let pool : length t.free_pool ≡ length s.free_pool = ap length w.free_pool in
      elim (Option-cases (s.gc_active_blk 0)) [
        | inl h ↦ ground (arith, same, pool)
        | inr (b, h) ↦ ground (arith, same, pool, w.pointers b)
      ]

  -- Nothing is done at a logical page that is not mapped.
  forget-unmapped : (s : Ftl pol.State) (x : ℕ) → s.lpn_to_ppn x ≡ none → forget s x ≡ s
  unfolding get_ppn invalidate_ppn
  forget-unmapped s x h = rw (h, get_ppn)

module _ (pol : EvictPolicy) (law : IsLawful pol) (geo : Geometry)
    (some_pages : 0 < pages_per_block geo) where
  pub forget-Inv :
      (s : Ftl pol.State) (x : ℕ)
      → IsValid pol geo s
      → Inv pol geo (lose no_except x) (forget pol geo s x)
  unfolding get_ppn
  forget-Inv s x inv = elim (Option-cases (s.lpn_to_ppn x)) [
    | inl h ↦ rw (forget-unmapped pol geo s x h) (lose-Inv pol law geo no_except s inv x h)
    | inr (p, h) ↦
        rw (h, get_ppn) (invalidate-Inv pol law geo no_except s x p inv some_pages refl h)
  ]

  trim_page-eq :
      (s : Ftl pol.State) (x : ℕ)
      → IsValid pol geo s
      → ((s.lpn_to_ppn x ≡ none) × (trim_page pol geo s x ≡ s))
        ⊎ (trim_page pol geo s x ≡ unmap (forget pol geo s x) x)
  unfolding trim_page get_ppn
  trim_page-eq s x inv = elim (Option-cases (s.lpn_to_ppn x)) [
    | inl h ↦ inl (h, rw (h, get_ppn))
    | inr (p, h) ↦
        let lt = mapped-lt pol law geo no_except s x p inv some_pages refl h in
        let real : (p == not_allocated) ≡ false = ground arith in inr (rw (h, get_ppn) (rw real))
  ]

  -- A page of `Trim`.
  pub trim_page-IsValid :
      (s : Ftl pol.State) (x : ℕ) → IsValid pol geo s → IsValid pol geo (trim_page pol geo s x)
  trim_page-IsValid s x inv = elim (trim_page-eq s x inv) [
    | inl (_, q) ↦ rw q inv
    | inr q ↦ rw q (
        Inv-unmapped pol law geo _ _ no_except.unmapped (λ l. ground arith)
          (unmap-Inv pol law geo _ (forget pol geo s x) (forget-Inv s x inv) x (ground arith)))
  ]

  pub trim_page-is_mapped :
      (s : Ftl pol.State) (x l : ℕ)
      → IsValid pol geo s
      → is_mapped (trim_page pol geo s x) l ≡ (not (x == l) && is_mapped s l)
  unfolding unmap
  trim_page-is_mapped s x l inv = elim (trim_page-eq s x inv) [
    | inl (h, q) ↦ rw q (ground (arith, h))
    | inr q ↦
        let same : (forget pol geo s x).lpn_to_ppn l ≡ s.lpn_to_ppn l =
          ap (λ (m : ℕ → Option ℕ). m l) (forget-SamePages pol geo s (get_ppn s x)).maps in
        rw q (ground (arith, same))
  ]

  pub trim_from-IsValid :
      (rounds : ℕ) (s : Ftl pol.State) (x : ℕ)
      → IsValid pol geo s
      → IsValid pol geo (trim_from pol geo s x rounds)
  unfolding trim_from
  trim_from-IsValid zero s x inv = inv
  trim_from-IsValid (suc n) s x inv =
      trim_from-IsValid n (trim_page pol geo s x) (x + 1) (trim_page-IsValid s x inv)

  pub trim_from-is_mapped :
      (rounds : ℕ) (s : Ftl pol.State) (x l : ℕ)
      → IsValid pol geo s
      → is_mapped (trim_from pol geo s x rounds) l
        ≡ (not (leb x l && ltb l (x + rounds)) && is_mapped s l)
  unfolding trim_from
  trim_from-is_mapped zero s x l inv = ground arith
  trim_from-is_mapped (suc n) s x l inv = ground (
    arith,
    trim_from-is_mapped n (trim_page pol geo s x) (x + 1) l (trim_page-IsValid s x inv),
    trim_page-is_mapped s x l inv,
  )
