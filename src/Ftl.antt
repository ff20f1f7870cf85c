-- ===== src/Ftl.antt =====
-- The page-mapping flash translation layer, ftl.h and ftl.cpp: logical pages are appended to an
-- active block for each stream, and garbage collection moves the valid pages of a victim block to
-- a block of its own and frees the victim. `assert` aborts in the program's build: it is `fault`
-- here. `spin` says that the fuel of the waiting loop ran out.
pub mod Host
pub mod Invariant
pub mod Append
pub mod Changes
pub mod Pool
pub mod Room
pub mod Migrate
pub mod Sweep
pub mod Gc
pub mod Wait
pub mod Alloc
pub mod Forget
pub mod Quiet
pub mod Write
pub mod Fits
pub mod Init
pub mod Span
pub mod Correct
pub mod Tests
use ssd_waf.Base.{
  ℕ, zero, suc, ◌+◌, ◌-◌, ◌*◌, ◌/◌, ◌%◌, ◌≡◌, Bool, true, false, ◌&&◌, ◌||◌, not, Option, none,
  some, List, [], ◌∷◌, length, ltb, leb, ◌==◌, if◌then◌else◌, update,
}
pub use ssd_waf.Base.{Result, ok, fault, spin, ◌>>=◌}
use ssd_waf.Policy.{EvictPolicy, Segment}

-- NAND_PAGE_SIZE, SECTOR_SIZE and NAND_BLOCK_SIZE, which a build may override.
pub record Geometry : Type 0 where
  pub page_size : ℕ
  pub sector_size : ℕ
  pub block_size : ℕ

abbrev pub default_geometry : Geometry
default_geometry = record { page_size = 4 * 1024; sector_size = 512; block_size = 32 * 1024 * 1024 }

unfoldable pub sectors_per_page : Geometry → ℕ
sectors_per_page geo = geo.page_size / geo.sector_size

unfoldable pub pages_per_block : Geometry → ℕ
pages_per_block geo = geo.block_size / geo.page_size

abbrev pub word_size : ℕ
word_size = 0x10000000000000000

abbrev pub not_allocated : ℕ
not_allocated = 0xFFFFFFFFFFFFFFFF

abbrev pub gc_trigger_threshold : ℕ
gc_trigger_threshold = 4

-- `--x` on a `size_t`.
abbrev pub decrement : ℕ → ℕ
decrement x = if x == 0 then 0xFFFFFFFFFFFFFFFF else x - 1

-- `valid` has `pages_per_block` entries. Nothing here sets the other fields of the base class.
pub record Block : Type 0 where
  pub id : ℕ
  pub valid : ℕ → Bool
  pub is_free : Bool
  pub write_ptr : ℕ
  pub valid_cnt : ℕ

abbrev pub new_block : ℕ → Block
new_block i = record { id = i; valid = λ _. false; is_free = true; write_ptr = 0; valid_cnt = 0 }

-- What a policy sees of a block.
abbrev pub segment_of : Block → Segment
segment_of b = record {
  write_ptr = b.write_ptr;
  valid_cnt = b.valid_cnt;
  class_num = 0;
  create_timestamp = 0;
}

-- `blocks` has `num_blocks` entries; the head of `free_pool` is the back of the vector. The two
-- counters, which only grow, are kept without their wrap-around: the getters apply it.
pub record Ftl (S : Type 0) : Type 0 where
  pub num_blocks : ℕ
  pub blocks : ℕ → Block
  pub lpn_to_ppn : ℕ → Option ℕ
  pub ppn_to_lpn : ℕ → Option ℕ
  pub free_pool : List ℕ
  pub active_blk : ℕ → Option ℕ
  pub gc_active_blk : ℕ → Option ℕ
  pub policy : S
  pub nand_write_pages : ℕ
  pub host_write_pages : ℕ
  pub total_nand_pages : ℕ

-- `Block::full`, `Block::reset` and `Block::NextPpn`.
module _ (geo : Geometry) where
  unfoldable pub full : Block → Bool
  full b = leb (pages_per_block geo) b.write_ptr

  unfoldable pub next_ppn : Block → ℕ
  next_ppn b = b.id * pages_per_block geo + b.write_ptr

abbrev pub reset : Block → Block
reset b = record b { is_free = true; write_ptr = 0; valid_cnt = 0 }

-- The write pointer and the bits of a block that leaves the free pool.
abbrev pub open_block : Block → Block
open_block b = record b { write_ptr = 0; valid_cnt = 0; is_free = false; valid = λ _. false }

module _ {S : Type 0} where
  unfoldable pub get_ppn : Ftl S → ℕ → ℕ
  get_ppn s lpn = elim (s.lpn_to_ppn lpn) [ none ↦ not_allocated | some ppn ↦ ppn ]

  unfoldable pub unmap : Ftl S → ℕ → Ftl S
  unmap s lpn = record s { lpn_to_ppn = update s.lpn_to_ppn lpn none }

  unfoldable pub get_lpn : Ftl S → ℕ → Result ℕ
  get_lpn s ppn =
      if ltb ppn s.total_nand_pages
      then elim (s.ppn_to_lpn ppn) [ none ↦ ok not_allocated | some lpn ↦ ok lpn ]
      else fault

  unfoldable pub set_ppn : Ftl S → ℕ → ℕ → Result (Ftl S)
  set_ppn s lpn ppn =
      if ltb ppn s.total_nand_pages
      then ok (record s {
        lpn_to_ppn = update s.lpn_to_ppn lpn (some ppn);
        ppn_to_lpn = update s.ppn_to_lpn ppn (some lpn);
      })
      else fault

  abbrev pub set_block : Ftl S → ℕ → Block → Ftl S
  set_block s i b = record s { blocks = update s.blocks i b }

module _ (pol : EvictPolicy) (geo : Geometry) where
  -- The update of a block whose page loses its validity.
  unfoldable pub clear_page : Ftl pol.State → ℕ → ℕ → Ftl pol.State
  clear_page s blk_id page_idx =
      let old = s.blocks blk_id in
      let blk = record old {
        valid = update old.valid page_idx false;
        valid_cnt = decrement old.valid_cnt;
      } in
      record s {
        blocks = update s.blocks blk_id blk;
        policy =
            if full geo blk then pol.update_segment s.policy blk_id (segment_of blk) else s.policy;
      }

  unfoldable pub invalidate_ppn : Ftl pol.State → ℕ → Ftl pol.State
  invalidate_ppn s ppn =
      if ppn == not_allocated
      then s
      else let blk_id = ppn / pages_per_block geo in
        let page_idx = ppn % pages_per_block geo in
        let t = if (s.blocks blk_id).valid page_idx then clear_page s blk_id page_idx else s in
        record t { ppn_to_lpn = update t.ppn_to_lpn ppn none }

  -- A page of the block is written: the block fills up by one, and a full one goes to the policy.
  unfoldable pub program_page : Ftl pol.State → ℕ → Ftl pol.State
  program_page s blk_id =
      let old = s.blocks blk_id in
      let blk = record old {
        valid = update old.valid old.write_ptr true;
        valid_cnt = old.valid_cnt + 1;
        write_ptr = old.write_ptr + 1;
      } in
      record s {
        blocks = update s.blocks blk_id blk;
        policy = if full geo blk then pol.add s.policy blk_id (segment_of blk) else s.policy;
      }

  -- The block at the back of the free pool, emptied, becomes the stream's.
  unfoldable pub allocate_new_gc_active_block : Ftl pol.State → ℕ → Result (Ftl pol.State × ℕ)
  allocate_new_gc_active_block s stream_id = elim s.free_pool [
    | [] ↦ fault
    | blk_id ∷ rest ↦ ok (
      record s {
        blocks = update s.blocks blk_id (open_block (s.blocks blk_id));
        free_pool = rest;
        gc_active_blk = update s.gc_active_blk stream_id (some blk_id);
      },
      blk_id,
    )
  ]

  unfoldable pub get_or_allocate_gc_active_block : Ftl pol.State → ℕ → Result (Ftl pol.State × ℕ)
  get_or_allocate_gc_active_block s stream_id = elim (s.gc_active_blk stream_id) [
    | none ↦ allocate_new_gc_active_block s stream_id
    | some b ↦ if full geo (s.blocks b) then allocate_new_gc_active_block s stream_id else ok (s, b)
  ]

  -- The loop's body in `RunGC` at a valid page.
  unfoldable pub migrate_page : Ftl pol.State → ℕ → ℕ → Result (Ftl pol.State)
  migrate_page s victim_id idx = do
    (s1, blk_id) ← get_or_allocate_gc_active_block s 0
    let s2 = record s1 { nand_write_pages = s1.nand_write_pages + 1 }
    lpn ←
        (if full geo (s2.blocks blk_id)
          then fault
          else get_lpn s2 ((s2.blocks victim_id).id * pages_per_block geo + idx))
    (if lpn == not_allocated
        then fault
        else set_ppn (program_page s2 blk_id) lpn (next_ppn geo (s2.blocks blk_id)))

  unfoldable pub migrate_from : Ftl pol.State → ℕ → ℕ → ℕ → Result (Ftl pol.State)
  migrate_from s victim_id idx zero = ok s
  migrate_from s victim_id idx (suc rounds) = do
    t ← (if (s.blocks victim_id).valid idx then migrate_page s victim_id idx else ok s)
    migrate_from t victim_id (idx + 1) rounds

  -- The source block is reset and goes back to the free pool.
  unfoldable pub erase_block : Ftl pol.State → ℕ → Ftl pol.State
  erase_block s victim_id = record s {
    blocks = update s.blocks victim_id (record (reset (s.blocks victim_id)) { valid = λ _. false });
    policy = pol.remove s.policy victim_id;
    free_pool = victim_id ∷ s.free_pool;
  }

  -- The result says whether a block was freed.
  unfoldable pub run_gc : Ftl pol.State → Result (Ftl pol.State × Bool)
  run_gc s =
      let t = record s { policy = (pol.choose_segment s.policy).1 } in
      elim (pol.choose_segment s.policy).0 [
        | none ↦ ok (t, false)
        | some victim_id ↦
            if (t.blocks victim_id).valid_cnt == pages_per_block geo then ok (t, false) else do
              u ← migrate_from t victim_id 0 (pages_per_block geo)
              ok (erase_block u victim_id, true)
      ]

  -- `while (freePool_.size() < GC_TRIGGER_THRESHOLD) RunGC();` for at most `fuel` rounds.
  unfoldable pub wait_for_space : ℕ → Ftl pol.State → Result (Ftl pol.State)
  wait_for_space zero s = if ltb (length s.free_pool) gc_trigger_threshold then spin else ok s
  wait_for_space (suc fuel) s = elim (ltb (length s.free_pool) gc_trigger_threshold) [
    | true ↦ run_gc s >>= λ r. wait_for_space fuel r.0
    | false ↦ ok s
  ]

  unfoldable pub take_free_block : Ftl pol.State → ℕ → Ftl pol.State × ℕ
  take_free_block s stream_id = elim s.free_pool [
    | [] ↦ (s, not_allocated)
    | blk_id ∷ rest ↦ (
      record s {
        blocks = update s.blocks blk_id (open_block (s.blocks blk_id));
        free_pool = rest;
        active_blk = update s.active_blk stream_id (some blk_id);
      },
      blk_id,
    )
  ]

  unfoldable pub allocate_new_active_block : ℕ → Ftl pol.State → ℕ → Result (Ftl pol.State × ℕ)
  allocate_new_active_block fuel s stream_id = do
    t ← wait_for_space fuel s
    ok (take_free_block t stream_id)

  unfoldable pub get_or_allocate_active_block : ℕ → Ftl pol.State → ℕ → Result (Ftl pol.State × ℕ)
  get_or_allocate_active_block fuel s stream_id = elim (s.active_blk stream_id) [
    | none ↦ allocate_new_active_block fuel s stream_id
    | some b ↦
        if full geo (s.blocks b) then allocate_new_active_block fuel s stream_id else ok (s, b)
  ]
