-- ===== src/Ftl/Tests/Examples.antt =====
-- The theorems on the FTL applied to the runs.
use ssd_waf.Base.{
  thrown, ℕ, ◌*◌, ◌+◌, ◌/◌, ◌≤◌, ◌<◌, ◌≡◌, ◌⊎◌, ◌↔◌, refl, ap, subst, arith, Bool, true, false, not,
  ◌&&◌, ◌||◌, some, length, contains, leb, ltb,
}
use ssd_waf.Policy.Greedy
use ssd_waf.Policy.Heap.Lists.{list_heap, list_heap-IsHeap}
use ssd_waf.Ftl.{Ftl, Result, ok, fault, spin, run_gc, wait_for_space, get_or_allocate_active_block}
use ssd_waf.Ftl.Host.{num_pages, trim_rounds, init, write, trim}
use ssd_waf.Ftl.Invariant.{Except, no_except, IsValid}
use ssd_waf.Ftl.Room.{is_mapped, capacity}
use ssd_waf.Ftl.Init.{init-IsValid, init-spin}
use ssd_waf.Ftl.Gc.{Unused}
use ssd_waf.Ftl.Wait.{Waited, wait-Waited, wait-spin, Productive}
use ssd_waf.Ftl.Fits.{write-fits}
use ssd_waf.Ftl.Span.{span-touched, span-num_pages}
use ssd_waf.Ftl.Quiet.{space}
use ssd_waf.Ftl.Write.{write-total, CanWrite, charge}
use ssd_waf.Ftl.Alloc.{CanAllocate}
use ssd_waf.Ftl.Correct.{run_gc-IsValid, run_gc-reuses_active, trim-total}
use ssd_waf.Ftl.Tests.{
  filled, filled-IsValid, trimmed, trimmed-IsValid, small, pol, law, some_pages, program, written,
  rewritten, half_rewritten, written-IsValid, rewritten-IsValid, half_rewritten-IsValid,
}

init-IsValid_example :
    (s : Ftl pol.State) × (init pol small 8 (Greedy.init list_heap) 160 ≡ ok s)
    × IsValid pol small s
    × ((l : ℕ) → is_mapped s l ≡ false)
    × (length s.free_pool + 1 ≡ 160 / 32)
    × (s.host_write_pages ≡ 0)
    × (s.nand_write_pages ≡ 0)
unfolding program
init-IsValid_example =
    init-IsValid pol law small some_pages (omega arith) (Greedy.init list_heap)
      (Greedy.init-IsSound list_heap list_heap-IsHeap) (λ i. refl) 160 8 (omega arith) (omega arith)

init-spin_example : init pol small 8 (Greedy.init list_heap) 96 ≡ spin
unfolding program
init-spin_example = init-spin pol small 8 (Greedy.init list_heap) 96 (omega arith) refl

write-fits_example :
    (t : Ftl pol.State) × (write pol small 8 written 8 16 0 ≡ ok t)
    × IsValid pol small t
    × ((l : ℕ) → is_mapped t l ≡ ((leb 1 l && ltb l 3) || is_mapped written l))
    × (t.host_write_pages ≡ 6)
    × (t.nand_write_pages ≡ 6)
    × (space small t 0 + 2 ≡ 16)
unfolding program
write-fits_example =
    write-fits pol law small some_pages 8 written 8 16 0 written-IsValid (omega arith) (omega arith)
      refl (omega arith) (omega arith) (omega arith)

half_rewritten-Unused :
    (v : ℕ)
    → (pol.choose_segment half_rewritten.policy).0 ≡ some v
    → Unused pol small no_except half_rewritten v
unfolding program
half_rewritten-Unused v h =
    let q : 4 ≡ v = cc in
    subst (Unused pol small no_except half_rewritten) q (record {
      by_host = λ st u e. ground arith;
      by_others = λ st n e. ground arith;
      by_gc = λ e. ground arith;
    })

run_gc-IsValid_example :
    (t : Ftl pol.State) × (freed : Bool) × (run_gc pol small half_rewritten ≡ ok (t, freed))
    × IsValid pol small t
    × ((l : ℕ) → is_mapped t l ≡ is_mapped half_rewritten l)
    × (3 ≤ length t.free_pool)
    × (((freed ≡ true)
          × (12 < capacity small t)
          × (t.nand_write_pages + capacity small t ≡ 6 + 12 + 4))
        ⊎ ((freed ≡ false)
            × (t.blocks ≡ half_rewritten.blocks)
            × (t.free_pool ≡ half_rewritten.free_pool)
            × (t.lpn_to_ppn ≡ half_rewritten.lpn_to_ppn)))
unfolding program
run_gc-IsValid_example =
    run_gc-IsValid pol law small some_pages half_rewritten half_rewritten-IsValid (omega arith)
      half_rewritten-Unused

run_gc-reuses_active_example :
    (t : Ftl pol.State) × (run_gc pol small trimmed ≡ ok (t, true))
    × (contains 4 t.free_pool ≡ true)
    × (get_or_allocate_active_block pol small 8 t 0 ≡ ok (t, 4))
unfolding program
run_gc-reuses_active_example =
    run_gc-reuses_active pol law small some_pages trimmed 0 4 8 trimmed-IsValid (omega arith) refl
      (omega arith) refl
      (record {
        by_host = λ st u e. ground arith;
        by_others = λ st n e. ground arith;
        by_gc = λ e. ground arith;
      })

trim-total_example :
    (t : Ftl pol.State) × (trim pol small written 8 8 ≡ ok t)
    × IsValid pol small t
    × ((l : ℕ) → is_mapped t l ≡ (not (true && (leb 1 l && leb l 1)) && is_mapped written l))
unfolding program
trim-total_example = trim-total pol law small some_pages written 8 8 written-IsValid refl

span-touched_example : ((2 ≤ 4) × (4 ≤ 5)) ↔ ((4 * 8 < 48) × (18 < 4 * 8 + 8))
unfolding program
span-touched_example = span-touched small 18 30 (omega arith) (omega arith) refl (omega arith) 4

span-num_pages_example :
    (2 + num_pages small 18 30 ≡ 5 + 1) × (num_pages small 18 30 ≡ trim_rounds small 18 30)
unfolding program
span-num_pages_example =
    span-num_pages small 18 30 (omega arith) (omega arith) refl (omega arith) (omega arith)

free_blocks : Result (Ftl pol.State × Bool) → ℕ
free_blocks (ok (s, _)) = length s.free_pool
free_blocks fault = 0
free_blocks thrown = 0
free_blocks spin = 0

-- The collection of block 4, which has no valid page, ends the wait.
rewritten-Productive :
    (e : Except) (h n : ℕ)
    → Productive pol small e 5 (record rewritten { host_write_pages = h; nand_write_pages = n })
unfolding program Productive free_blocks
rewritten-Productive e h n = λ short. (
  4,
  refl,
  record {
    by_host = λ st u e. ground arith;
    by_others = λ st n e. ground arith;
    by_gc = λ e. ground arith;
  },
  omega arith,
  λ t q short'.
      let four : 4 ≡ length t.free_pool = ap free_blocks q in absurd (omega (arith, four, short')),
)

wait-Waited_example :
    (t : Ftl pol.State) × (wait_for_space pol small 5 rewritten ≡ ok t)
    × Waited pol small no_except rewritten t
unfolding program
wait-Waited_example =
    wait-Waited pol law small some_pages no_except refl 5 rewritten rewritten-IsValid (omega arith)
      (rewritten-Productive no_except 8 8) (omega arith)

rewritten-CanWrite : CanWrite pol small 5 (charge pol small rewritten 1) 5 1 0
unfolding program CanWrite CanAllocate
rewritten-CanWrite = ((λ filled. (rewritten-Productive _ 9 9, omega arith)), λ t q. tt)

write-total_example :
    (t : Ftl pol.State) × (write pol small 5 rewritten 40 8 0 ≡ ok t)
    × IsValid pol small t
    × ((l : ℕ) → is_mapped t l ≡ ((leb 5 l && ltb l 6) || is_mapped rewritten l))
    × (t.host_write_pages ≡ 9)
    × (9 ≤ t.nand_write_pages)
    × (3 ≤ length t.free_pool)
unfolding program
write-total_example =
    write-total pol law small some_pages 5 rewritten 40 8 0 rewritten-IsValid (omega arith) refl
      (omega arith) (omega arith) rewritten-CanWrite

filled_victim :
    (v : ℕ) → (pol.choose_segment filled.policy).0 ≡ some v → (filled.blocks v).valid_cnt ≡ 4
unfolding program
filled_victim v h = let q : 3 ≡ v = cc in subst (λ (v : ℕ). (filled.blocks v).valid_cnt ≡ 4) q refl

wait-spin_example : wait_for_space pol small 8 filled ≡ spin
unfolding program
wait-spin_example =
    wait-spin pol law small some_pages no_except refl 8 filled filled-IsValid (omega arith) refl
      filled_victim
