-- ===== src/Device/Examples.antt =====
-- The translation layer over the small geometry, as a device of 250 blocks for twenty writes, below
-- a limit of 80 bytes: ten pages.
use ssd_waf.Base.{ℕ, ◌%◌, ◌≤◌, ◌≡◌, ◌∙◌, sym, refl, subst, arith, ok}
use ssd_waf.Policy.Heap.Lists.{list_heap, list_heap-IsHeap}
use ssd_waf.Policy.Greedy
use ssd_waf.Ftl.{
  Ftl, pages_per_block, sectors_per_page, wait_for_space, take_free_block,
  allocate_new_active_block,
}
use ssd_waf.Ftl.Host.{init, blank, push_all}
use ssd_waf.Ftl.Init.{init-IsValid}
use ssd_waf.Ftl.Tests
use ssd_waf.Ftl.Tests.{small, pol, law, some_pages, final}
use ssd_waf.Device.{Device, Accepts, ftl_device}
use ssd_waf.Device.Flash.{Serves, ftl-Accepts}

unfoldable pub flash_runs : Unit {0}
unfolding Tests.program
flash_runs = tt

abbrev pub flash : Device
flash = ftl_device pol small 8

abbrev pub Ready : ℕ → Ftl pol.State → Type 0
Ready n s = Serves pol small 10 20 n s

pub flash-Accepts :
    (unit_size limit : ℕ) → unit_size % 2 ≡ 0 → limit ≤ 80 → Accepts flash Ready unit_size limit 20
unfolding pages_per_block sectors_per_page
flash-Accepts unit_size limit h lt =
    ftl-Accepts pol law small 8 10 20 unit_size limit (omega arith) some_pages refl (omega arith) h
      (omega arith) (omega arith) (omega arith)

abbrev pub fresh : Ftl pol.State
fresh = final (init pol small 8 (Greedy.init list_heap) 8000)

fresh-run : init pol small 8 (Greedy.init list_heap) 8000 ≡ ok fresh
unfolding init blank push_all allocate_new_active_block take_free_block wait_for_space Greedy.init
fresh-run = refl

ok-eq : (a b : Ftl pol.State) → ok a ≡ ok b → a ≡ b
ok-eq a b h = cc

pub fresh-Ready : Ready 0 fresh
unfolding Greedy.tracks Greedy.init pages_per_block
fresh-Ready =
    let (t, q, w, _, n, _, _) =
      init-IsValid pol law small some_pages (omega arith) (Greedy.init list_heap)
        (Greedy.init-IsSound list_heap list_heap-IsHeap) (λ i. refl) 8000 8 (omega arith)
        (omega arith) in
    subst (λ (s : Ftl pol.State). Ready 0 s) (ok-eq t fresh (sym q ∙ fresh-run))
      (record { inv = w; spare = omega (arith, n) })

ftl-Accepts_example : Accepts flash Ready 4 80 20
unfolding pages_per_block sectors_per_page
ftl-Accepts_example =
    ftl-Accepts pol law small 8 10 20 4 80 (omega arith) some_pages refl (omega arith) refl
      (omega arith) (omega arith) (omega arith)
