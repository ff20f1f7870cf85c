-- ===== src/Device/Flash.antt =====
-- `PageMappingFTL` as a device for a number of writes: while the free pool holds enough blocks for
-- them, whatever their streams, each is accepted and needs no garbage collection.
use native.Mathlib.Nat.{
  mul-le-mul_left, mul-le-mul_right, div-lt_iff_lt-mul, lt_of_mul-lt-mul_left, mod-eq-zero_of_dvd,
  dvd_of_mod-eq-zero, dvd_trans,
}
use ssd_waf.Base.{
  ℕ, zero, suc, ◌+◌, ◌-◌, ◌*◌, ◌/◌, ◌%◌, ◌≤◌, ◌<◌, ◌≡◌, ◌∙◌, ap, refl, true, arith, inl, inr,
  length, Option-cases, Bool-cases, ◌==◌, ok,
}
use ssd_waf.Policy.{EvictPolicy, IsLawful}
use ssd_waf.Ftl.{
  Geometry, Ftl, get_ppn, unmap, pages_per_block, sectors_per_page, not_allocated, word_size,
}
use ssd_waf.Ftl.Host.{
  start_lpn, num_pages, is_aligned, write, trim, trim_page, trim_from, trim_rounds,
}
use ssd_waf.Ftl.Invariant.{IsValid}
use ssd_waf.Ftl.Quiet.{host_room}
use ssd_waf.Ftl.Fits.{write-fits}
use ssd_waf.Ftl.Forget.{forget-SamePages}
use ssd_waf.Ftl.Correct.{trim-total}
use ssd_waf.Ftl.Span.{span-num_pages, end_lpn-eq}
use ssd_waf.Device.{Accepts, ftl_device}

-- A write of at most `pages` pages takes at most a block for each. The blocks for one write and
-- four more are kept spare.
pub record Serves (pol : EvictPolicy) (geo : Geometry) (pages quota n : ℕ) (s : Ftl pol.State)
    : Type 0 where
  pub inv : IsValid pol geo s
  pub spare : 4 + (quota - n) * (pages + 1) ≤ length s.free_pool

remaining : (q n p : ℕ) → n < q → (q - n) * (p + 1) ≡ (q - (n + 1)) * (p + 1) + (p + 1)
remaining q n p h =
    let e : q - n ≡ suc (q - (n + 1)) = omega arith in ap (λ (m : ℕ). m * (p + 1)) e ∙ omega arith

-- Each page takes at most a block.
enough : (ppb m free : ℕ) → 0 < ppb → 3 + (m + 1) ≤ free → ppb * 3 + m ≤ ppb * free
enough ppb m free pos h = omega (arith, mul-le-mul_left ppb h, mul-le-mul_right (m + 1) pos)

used : (ppb m free left : ℕ) → 0 < ppb → ppb * free ≤ ppb + ppb * left + m → free ≤ left + (m + 1)
used ppb m free left pos h =
    let h' : ppb * free < ppb * (left + (m + 2)) = omega (arith, h, mul-le-mul_right (m + 1) pos) in
    omega (arith, lt_of_mul-lt-mul_left ppb h')

-- The last page of a range below the limit is one of the limit's pages.
last_page :
    (a limit pages page : ℕ) → 0 < page → limit ≤ pages * page → a < limit → a / page < pages
last_page a limit pages page pos h lt =
    (div-lt_iff_lt-mul {k = page} {x = a} {y = pages} pos).1 (omega (arith, h))

module _ (pol : EvictPolicy) (geo : Geometry) where
  host_room-le : (s : Ftl pol.State) (st : ℕ) → host_room geo s st ≤ pages_per_block geo
  unfolding host_room
  host_room-le s st = elim (Option-cases (s.active_blk st)) [
    | inl q ↦ rw (q, host_room) (omega arith)
    | inr (b, q) ↦ rw (q, host_room) (omega arith)
  ]

  trim_page-free_pool :
      (s : Ftl pol.State) (x : ℕ) → (trim_page pol geo s x).free_pool ≡ s.free_pool
  unfolding trim_page unmap
  trim_page-free_pool s x = elim (Bool-cases (get_ppn s x == not_allocated)) [
    | inl h ↦ rw h
    | inr h ↦ rw h (forget-SamePages pol geo s (get_ppn s x)).free_pool
  ]

  trim_from-free_pool :
      (rounds : ℕ) (s : Ftl pol.State) (x : ℕ)
      → (trim_from pol geo s x rounds).free_pool ≡ s.free_pool
  unfolding trim_from
  trim_from-free_pool zero s x = refl
  trim_from-free_pool (suc n) s x =
      trim_from-free_pool n (trim_page pol geo s x) (x + 1) ∙ trim_page-free_pool s x

  trim-free_pool :
      (s t : Ftl pol.State) (off size : ℕ)
      → is_aligned geo off size ≡ true
      → trim pol geo s off size ≡ ok t
      → t.free_pool ≡ s.free_pool
  unfolding trim
  trim-free_pool s t off size aligned q = elim (Bool-cases (size == 0)) [
    | inl void ↦ ground (arith, void)
    | inr pos ↦
        ground (arith, pos, trim_from-free_pool (trim_rounds geo off size) s (start_lpn geo off))
  ]

module _ (pol : EvictPolicy) (law : IsLawful pol) (geo : Geometry) (fuel pages quota : ℕ)
    (unit_size limit : ℕ) (some_fuel : 0 < fuel) (some_pages : 0 < pages_per_block geo)
    (whole : geo.sector_size * sectors_per_page geo ≡ geo.page_size) (page_pos : 0 < geo.page_size)
    (sectors : unit_size % geo.sector_size ≡ 0) (in_pages : limit ≤ pages * geo.page_size)
    (in_word : limit ≤ word_size) (addressed : pages ≤ not_allocated) where
  abbrev Ready : ℕ → Ftl pol.State → Type 0
  Ready n s = Serves pol geo pages quota n s

  sector_multiple : (a : ℕ) → a % unit_size ≡ 0 → a % geo.sector_size ≡ 0
  sector_multiple a h = mod-eq-zero_of_dvd geo.sector_size (
      dvd_trans geo.sector_size (dvd_of_mod-eq-zero geo.sector_size sectors)
        (dvd_of_mod-eq-zero unit_size h))

  aligned :
      (off size : ℕ) → off % unit_size ≡ 0 → size % unit_size ≡ 0 → is_aligned geo off size ≡ true
  aligned off size a b = ground (arith, sector_multiple off a, sector_multiple size b)

  -- The pages of a request below the limit.
  span :
      (off size : ℕ)
      → 0 < size
      → off + size ≤ limit
      → start_lpn geo off + num_pages geo off size ≤ pages
  span off size pos fits =
      let last : (off + size - 1) / geo.page_size < pages =
        last_page (off + size - 1) limit pages geo.page_size page_pos in_pages (omega arith) in
      let in_word' : off + size ≤ word_size = omega arith in
      let e = end_lpn-eq geo off size pos in_word' whole page_pos in
      let (n, _) =
        span-num_pages geo off size pos in_word' whole page_pos (omega (arith, e, last)) in
      omega (arith, n, e, last)

  write-Ready :
      (s : Ftl pol.State) (off size st n : ℕ)
      → Ready n s
      → n < quota
      → off % unit_size ≡ 0
      → size % unit_size ≡ 0
      → 0 < size
      → off + size ≤ limit
      → (t : Ftl pol.State) × (write pol geo fuel s off size st ≡ ok t) × Ready (n + 1) t
  write-Ready s off size st n r lt a b pos fits =
      let m = num_pages geo off size in
      let few = span off size pos fits in
      let left = remaining quota n pages lt in
      let blocks : 3 + (m + 1) ≤ length s.free_pool = omega (arith, r.spare, left, few) in
      let room = enough (pages_per_block geo) m (length s.free_pool) some_pages blocks in
      let (t, q, v, _, _, _, shrunk) =
        write-fits pol law geo some_pages fuel s off size st r.inv some_fuel (omega arith)
          (aligned off size a b) pos (omega (arith, few)) (omega (arith, room)) in
      let kept : length s.free_pool ≤ length t.free_pool + (m + 1) =
        used (pages_per_block geo) m (length s.free_pool) (length t.free_pool) some_pages
          (omega (arith, shrunk, host_room-le pol geo t st)) in
      (t, q, record { inv = v; spare = omega (arith, r.spare, left, few, kept) })

  -- The FTL over a lawful policy, with some fuel, accepts a number of writes of whole units below a
  -- limit on any streams, in a well-formed state whose free pool has at least four blocks and, for
  -- each write that is left of the number, one more than the limit has pages: a write ends without
  -- a failing assertion and leaves such a state with one write fewer left, a trim such a state with
  -- as many. Pages are of whole sectors, units are of whole sectors, and the limit has addressable
  -- pages and is at most 2^64.
  pub ftl-Accepts : Accepts (ftl_device pol geo fuel) Ready unit_size limit quota
  ftl-Accepts = record {
    write-Ready = write-Ready;
    trim-Ready = λ s off size n r a b fits.
        let (t, q, v, _) =
          trim-total pol law geo some_pages s off size r.inv (aligned off size a b) in
        let same = trim-free_pool pol geo s t off size (aligned off size a b) q in
        (t, q, record { inv = v; spare = omega (arith, r.spare, ap length same) });
    skip-Ready = λ s n r. record {
      inv = r.inv;
      spare =
          let fewer : quota - (n + 1) ≤ quota - n = omega arith in
          omega (arith, r.spare, mul-le-mul_right (pages + 1) fewer);
    };
  }
