-- ===== src/Ftl/Tests.antt =====
-- Runs of the FTL on a small geometry, with the greedy policy over a list: blocks of four pages.
mod Examples
use ssd_waf.Base.{
  thrown, ℕ, ◌+◌, ◌-◌, ◌*◌, ◌/◌, ◌≤◌, ◌<◌, ◌≡◌, refl, arith, Bool, true, false, length, subst,
  Option, none, some, List, [], ◌∷◌, map,
}
use ssd_waf.Policy.Heap.{gt}
use ssd_waf.Policy.Heap.Lists.{list_heap, list_heap-IsHeap, node, put, top, better}
use ssd_waf.Policy.{EvictPolicy, IsLawful}
use ssd_waf.Policy.Greedy
use ssd_waf.Ftl.{
  Geometry, sectors_per_page, pages_per_block, Ftl, Result, ok, fault, spin, not_allocated, ◌>>=◌,
  full, next_ppn, get_ppn, get_lpn, set_ppn, unmap, clear_page, invalidate_ppn, program_page,
  allocate_new_gc_active_block, get_or_allocate_gc_active_block, migrate_page, migrate_from,
  erase_block, run_gc, wait_for_space, take_free_block, allocate_new_active_block,
  get_or_allocate_active_block,
}
use ssd_waf.Ftl.Invariant.{no_except, IsValid, Shape}
use ssd_waf.Ftl.Room.{is_mapped, capacity, gc_room}
use ssd_waf.Ftl.Init.{init-IsValid, init-spin}
use ssd_waf.Ftl.Correct.{trim-total}
use ssd_waf.Ftl.Fits.{write-fits}
use ssd_waf.Ftl.Quiet.{host_room, space}
use ssd_waf.Ftl.Host.{
  start_lpn, end_lpn, num_pages, trim_rounds, push_all, place_page, write_page, write_from, write,
  trim_page, trim_from, trim, blank, init,
}

abbrev pub small : Geometry
small = record { page_size = 8; sector_size = 2; block_size = 32 }

abbrev pub pol : EvictPolicy
pol = Greedy.policy list_heap

unfoldable pub program : Unit {0}
unfolding gt node put top better Greedy.init Greedy.add Greedy.remove Greedy.update_segment
    Greedy.choose_segment Greedy.tracks sectors_per_page pages_per_block trim_rounds full next_ppn
    get_ppn get_lpn set_ppn unmap clear_page invalidate_ppn program_page
    allocate_new_gc_active_block get_or_allocate_gc_active_block migrate_page migrate_from
    erase_block run_gc wait_for_space take_free_block allocate_new_active_block
    get_or_allocate_active_block start_lpn end_lpn num_pages push_all place_page write_page
    write_from write trim_page trim_from trim blank init gc_room host_room
program = tt

-- The state at the end of a run that succeeds.
abbrev pub final : Result (Ftl pol.State) → Ftl pol.State
final (ok s) = s
final fault = blank pol small (Greedy.init list_heap) 0
final thrown = blank pol small (Greedy.init list_heap) 0
final spin = blank pol small (Greedy.init list_heap) 0

-- A device of five blocks.
abbrev device : Ftl pol.State
device = final (init pol small 8 (Greedy.init list_heap) 160)

-- Stream 0 writes the logical pages 1 to 4: block 4 is full.
abbrev written : Ftl pol.State
written = final (write pol small 8 device 8 32 0)

-- It writes them again, to block 3: three blocks are free, and block 4 has no valid page.
abbrev rewritten : Ftl pol.State
rewritten = final (write pol small 8 written 8 32 0)

-- It writes two of them again: block 4 has two valid pages.
abbrev half_rewritten : Ftl pol.State
half_rewritten = final (write pol small 8 written 8 16 0)

mapping : Ftl pol.State → List (Option ℕ)
mapping s = map s.lpn_to_ppn (0 ∷ 1 ∷ 2 ∷ 3 ∷ 4 ∷ 5 ∷ [])

written-mapping : mapping written ≡ none ∷ some 16 ∷ some 17 ∷ some 18 ∷ some 19 ∷ none ∷ []
unfolding program mapping
written-mapping = refl

rewritten-mapping : mapping rewritten ≡ none ∷ some 12 ∷ some 13 ∷ some 14 ∷ some 15 ∷ none ∷ []
unfolding program mapping
rewritten-mapping = refl

half_rewritten-mapping :
    mapping half_rewritten ≡ none ∷ some 12 ∷ some 13 ∷ some 18 ∷ some 19 ∷ none ∷ []
unfolding program mapping
half_rewritten-mapping = refl

-- A collection moves the two valid pages of block 4 to block 2.
collected : Result (Ftl pol.State × Bool) → List (Option ℕ)
collected (ok (s, _)) = mapping s
collected fault = []
collected thrown = []
collected spin = []

run_gc-mapping :
    collected (run_gc pol small half_rewritten)
    ≡ none ∷ some 12 ∷ some 13 ∷ some 8 ∷ some 9 ∷ none ∷ []
unfolding program mapping collected
run_gc-mapping = refl

IsValid-final :
    (r : Result (Ftl pol.State)) (t : Ftl pol.State)
    → r ≡ ok t
    → IsValid pol small t
    → IsValid pol small (final r)
IsValid-final r t q w = rw q w

pub law : IsLawful pol
law = Greedy.policy-IsLawful list_heap list_heap-IsHeap

pub some_pages : 0 < pages_per_block small
unfolding program
some_pages = omega arith

device-IsValid : IsValid pol small device
unfolding program
device-IsValid =
    let (t, q, w, _, _, _, _) =
      init-IsValid pol law small some_pages (omega arith) (Greedy.init list_heap)
        (Greedy.init-IsSound list_heap list_heap-IsHeap) (λ i. refl) 160 8 (omega arith)
        (omega arith) in
    IsValid-final (init pol small 8 (Greedy.init list_heap) 160) t q w

written-IsValid : IsValid pol small written
unfolding program
written-IsValid =
    let (t, q, w, _, _, _, _) =
      write-fits pol law small some_pages 8 device 8 32 0 device-IsValid (omega arith) (omega arith)
        refl (omega arith) (omega arith) (omega arith) in
    IsValid-final (write pol small 8 device 8 32 0) t q w

rewritten-IsValid : IsValid pol small rewritten
unfolding program
rewritten-IsValid =
    let (t, q, w, _, _, _, _) =
      write-fits pol law small some_pages 8 written 8 32 0 written-IsValid (omega arith)
        (omega arith) refl (omega arith) (omega arith) (omega arith) in
    IsValid-final (write pol small 8 written 8 32 0) t q w

half_rewritten-IsValid : IsValid pol small half_rewritten
unfolding program
half_rewritten-IsValid =
    let (t, q, w, _, _, _, _) =
      write-fits pol law small some_pages 8 written 8 16 0 written-IsValid (omega arith)
        (omega arith) refl (omega arith) (omega arith) (omega arith) in
    IsValid-final (write pol small 8 written 8 16 0) t q w

-- Page 1 is trimmed: block 4, still the block of stream 0, has three valid pages.
abbrev trimmed : Ftl pol.State
trimmed = final (trim pol small written 8 8)

trimmed-IsValid : IsValid pol small trimmed
unfolding program
trimmed-IsValid =
    let (t, q, w, _) = trim-total pol law small some_pages written 8 8 written-IsValid refl in
    IsValid-final (trim pol small written 8 8) t q w

-- Stream 0 writes eight pages: two blocks are full of valid pages, and three are free.
abbrev filled : Ftl pol.State
filled = final (write pol small 8 device 8 64 0)

filled-IsValid : IsValid pol small filled
unfolding program
filled-IsValid =
    let (t, q, w, _, _, _, _) =
      write-fits pol law small some_pages 8 device 8 64 0 device-IsValid (omega arith) (omega arith)
        refl (omega arith) (omega arith) (omega arith) in
    IsValid-final (write pol small 8 device 8 64 0) t q w
