-- ===== src/LogFifo/Tests.antt =====
-- Runs of `LogFIFOCache` with a ring of two blocks of 4 bytes, over the translation layer.
use ssd_waf.Base.{
  sym, subst, ◌∙◌, ℕ, ◌+◌, ◌*◌, ◌%◌, ◌≤◌, ◌≡◌, refl, arith, false, none, List, [], ◌∷◌, Result, ok,
  fault, spin, thrown,
}
use ssd_waf.Device.{Accepts}
use ssd_waf.Device.Examples.{flash_runs, flash, Ready, flash-Accepts, fresh, fresh-Ready}
use ssd_waf.LogFifo
use ssd_waf.LogFifo.{LogFifo, batch_insert, insert_block}
use ssd_waf.LogFifo.Ring.{IsRing, init-IsRing}
use ssd_waf.LogFifo.Insert.{Placed}
use ssd_waf.LogFifo.Batch.{AllFit, Ran, insert_block-Placed, batch_insert-Ran}

program : Unit {0}
unfolding flash_runs LogFifo.init LogFifo.write_back LogFifo.clear_entry LogFifo.erase_key
    LogFifo.evict_neighbour LogFifo.evict_range LogFifo.leads_here LogFifo.evict_one_block
    LogFifo.forget LogFifo.make_room LogFifo.append LogFifo.insert_block LogFifo.insert_blocks
program = tt

flash_accepts : Accepts flash Ready 4 80 20
flash_accepts = flash-Accepts 4 80 refl (omega arith)

abbrev evictions : Result (LogFifo flash) → ℕ × ℕ × ℕ × ℕ
evictions (ok s) = (s.evicted_blocks, s.mapping_size, s.write_ptr, s.ftl.nand_write_pages)
evictions fault = (1000, 0, 0, 0)
evictions thrown = (2000, 0, 0, 0)
evictions spin = (3000, 0, 0, 0)

abbrev batch : List (ℕ × ℕ)
batch = (5, 4) ∷ (6, 4) ∷ (6, 4) ∷ (7, 4) ∷ []

abbrev first_two : List (ℕ × ℕ)
first_two = (5, 4) ∷ (6, 4) ∷ []

abbrev from_ok : Result (LogFifo flash) → LogFifo flash → LogFifo flash
from_ok (ok s) other = s
from_ok fault other = other
from_ok thrown other = other
from_ok spin other = other

abbrev started : LogFifo flash
started = record {
  cache_block_size = 4;
  capacity = 2;
  log_buffer = λ _. record { key = 0; valid = false };
  write_ptr = 0;
  mapping = λ _. none;
  mapping_size = 0;
  old_write_ptr = 0;
  ftl = fresh;
  write_size_to_cache = 0;
  evicted_blocks = 0;
  next_write_size_to_cache = 10 * 1024 * 1024 * 1024;
}

-- The third block takes the place of key 5, and leaves the place of its older version to key 7.
batch-run : evictions (batch_insert flash started batch) ≡ (1, 2, 0, 1)
unfolding program
batch-run = refl

started-IsRing : IsRing flash Ready 4 80 20 started
unfolding program
started-IsRing = init-IsRing flash Ready 4 80 20 fresh 2 4 fresh-Ready (omega arith) refl

batch-AllFit : AllFit 4 4 80 batch
unfolding AllFit
batch-AllFit =
    let fits : (k : ℕ) → k ≤ 7 → (k * 4 + 4 ≤ 80) × (k * 4 + 4 ≤ 80) × (4 % 4 ≡ 0) =
      λ k h. (omega (arith, h), omega (arith, h), refl) in
    let a = fits 5 (omega arith) in
    let b = fits 6 (omega arith) in
    let c = fits 7 (omega arith) in
    (a.0, a.1, a.2, (b.0, b.1, b.2, (b.0, b.1, b.2, (c.0, c.1, c.2, tt))))

batch_insert-Ran_example :
    (t : LogFifo flash) × (batch_insert flash started batch ≡ ok t)
    × Ran flash Ready 4 80 20 flash_accepts started t batch
batch_insert-Ran_example =
    batch_insert-Ran flash Ready 4 80 20 flash_accepts batch started started-IsRing batch-AllFit
      (omega arith)

-- The ring is full with keys 5 and 6.
abbrev full : LogFifo flash
full = from_ok (batch_insert flash started first_two) started

full-run : batch_insert flash started first_two ≡ ok full
unfolding program
full-run = refl

full-counts : (full.evicted_blocks ≡ 0) × (full.mapping_size ≡ 2)
unfolding program
full-counts = (refl, refl)

ok-eq : (a b : LogFifo flash) → ok a ≡ ok b → a ≡ b
ok-eq a b h = cc

full-IsRing : IsRing flash Ready 4 80 20 full
unfolding AllFit
full-IsRing =
    let (t, q, x) =
      batch_insert-Ran flash Ready 4 80 20 flash_accepts first_two started started-IsRing
        ((omega arith, omega arith, refl, (omega arith, omega arith, refl, tt))) (omega arith) in
    subst (IsRing flash Ready 4 80 20) (ok-eq t full (sym q ∙ full-run)) x.ring

full_bytes : full.cache_block_size ≡ 4
unfolding program
full_bytes = refl

-- Key 7 takes the place of key 5, which is evicted.
full_insert-run : evictions (insert_block flash full 7 4) ≡ (1, 2, 1, 1)
unfolding program
full_insert-run = refl

insert_block-Placed_example :
    (t : LogFifo flash) × (insert_block flash full 7 4 ≡ ok t)
    × Placed flash Ready 4 80 20 full t 7 4
insert_block-Placed_example =
    insert_block-Placed flash Ready 4 80 20 flash_accepts full 7 4 full-IsRing
      (omega (arith, full_bytes)) (omega (arith, full_bytes)) refl
      (omega (arith, full-counts.0, full-counts.1))
