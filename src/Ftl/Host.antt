-- ===== src/Ftl/Host.antt =====
-- What the host calls of ftl.cpp: the constructor, `Write` and `Trim`.
use ssd_waf.Base.{
  ℕ, zero, suc, ◌+◌, ◌-◌, ◌/◌, ◌%◌, Bool, true, false, ◌&&◌, none, List, [], ◌∷◌, ltb, ◌==◌,
  if◌then◌else◌,
}
use ssd_waf.Policy.{EvictPolicy}
use ssd_waf.Ftl.{
  Geometry, sectors_per_page, not_allocated, word_size, new_block, Ftl, Result, ok, fault, ◌>>=◌,
  full, next_ppn, set_block, get_ppn, set_ppn, unmap, invalidate_ppn, program_page,
  allocate_new_active_block, get_or_allocate_active_block,
}

-- The first and the last logical page that a byte range touches, and the number of pages in
-- between, in 64-bit arithmetic.
unfoldable pub start_lpn : Geometry → ℕ → ℕ
start_lpn geo lba_offset = lba_offset / geo.sector_size / sectors_per_page geo

unfoldable pub end_lpn : Geometry → ℕ → ℕ → ℕ
end_lpn geo lba_offset byte_size =
    (lba_offset + byte_size - 1) % word_size / geo.sector_size / sectors_per_page geo

unfoldable pub num_pages : Geometry → ℕ → ℕ → ℕ
num_pages geo lba_offset byte_size =
    (end_lpn geo lba_offset byte_size + word_size - start_lpn geo lba_offset + 1) % word_size

-- The rounds of the loop in `Trim`, which compares page numbers.
unfoldable pub trim_rounds : Geometry → ℕ → ℕ → ℕ
trim_rounds geo lba_offset byte_size =
    end_lpn geo lba_offset byte_size + 1 - start_lpn geo lba_offset

abbrev pub is_aligned : Geometry → ℕ → ℕ → Bool
is_aligned geo lba_offset byte_size =
    lba_offset % geo.sector_size == 0 && byte_size % geo.sector_size == 0

-- 0, …, n - 1 pushed in this order: the last is at the back.
unfoldable pub push_all : ℕ → List ℕ
push_all zero = []
push_all (suc n) = n ∷ push_all n

module _ (pol : EvictPolicy) (geo : Geometry) where
  -- One round of the loop in `Write`; the flag tells the loop to go on.
  unfoldable pub place_page : Ftl pol.State → ℕ → ℕ → Result (Ftl pol.State × Bool)
  place_page s cur_lpn blk_id =
      if blk_id == not_allocated
      then ok (s, false)
      else if full geo (s.blocks blk_id)
      then fault
      else do
        let t = program_page pol geo s blk_id
        let u = set_block t blk_id (record (t.blocks blk_id) { is_free = false })
        v ← set_ppn u cur_lpn (next_ppn geo (s.blocks blk_id))
        ok (v, true)

  unfoldable pub write_page : ℕ → Ftl pol.State → ℕ → ℕ → Result (Ftl pol.State × Bool)
  write_page fuel s cur_lpn stream_id = do
    let t = invalidate_ppn pol geo s (get_ppn s cur_lpn)
    (u, blk_id) ← get_or_allocate_active_block pol geo fuel t stream_id
    place_page u cur_lpn blk_id

  unfoldable pub write_from : ℕ → Ftl pol.State → ℕ → ℕ → ℕ → Result (Ftl pol.State)
  write_from fuel s cur_lpn zero stream_id = ok s
  write_from fuel s cur_lpn (suc rounds) stream_id = write_page fuel s cur_lpn stream_id >>= λ r.
      elim r.1 [ true ↦ write_from fuel r.0 (cur_lpn + 1) rounds stream_id | false ↦ ok r.0 ]

  unfoldable pub write : ℕ → Ftl pol.State → ℕ → ℕ → ℕ → Result (Ftl pol.State)
  write fuel s lba_offset byte_size stream_id =
      let n = num_pages geo lba_offset byte_size in
      let t = record s {
        host_write_pages = s.host_write_pages + n;
        nand_write_pages = s.nand_write_pages + n;
      } in
      if is_aligned geo lba_offset byte_size && ltb 0 byte_size
      then write_from fuel t (start_lpn geo lba_offset) n stream_id
      else fault

  -- One round of the loop in `Trim`.
  unfoldable pub trim_page : Ftl pol.State → ℕ → Ftl pol.State
  trim_page s cur_lpn =
      let old = get_ppn s cur_lpn in
      if old == not_allocated then s else unmap (invalidate_ppn pol geo s old) cur_lpn

  unfoldable pub trim_from : Ftl pol.State → ℕ → ℕ → Ftl pol.State
  trim_from s cur_lpn zero = s
  trim_from s cur_lpn (suc rounds) = trim_from (trim_page s cur_lpn) (cur_lpn + 1) rounds

  unfoldable pub trim : Ftl pol.State → ℕ → ℕ → Result (Ftl pol.State)
  trim s lba_offset byte_size =
      if is_aligned geo lba_offset byte_size
      then if byte_size == 0
        then ok s
        else ok (trim_from s (start_lpn geo lba_offset) (trim_rounds geo lba_offset byte_size))
      else fault

  -- The state of the constructor before its `AllocateNewActiveBlock(0)`, whose counters are not
  -- initialised yet and not read: the block that stream 0 gets makes no use of them.
  unfoldable pub blank : pol.State → ℕ → Ftl pol.State
  blank policy total_bytes = record {
    num_blocks = total_bytes / geo.block_size;
    blocks = new_block;
    lpn_to_ppn = λ _. none;
    ppn_to_lpn = λ _. none;
    free_pool = push_all (total_bytes / geo.block_size);
    active_blk = λ _. none;
    gc_active_blk = λ _. none;
    policy = policy;
    nand_write_pages = 0;
    host_write_pages = 0;
    total_nand_pages = 0;
  }

  unfoldable pub init : ℕ → pol.State → ℕ → Result (Ftl pol.State)
  init fuel policy total_bytes = do
    (s, _) ← allocate_new_active_block pol geo fuel (blank policy total_bytes) 0
    ok (record s {
      nand_write_pages = 0;
      host_write_pages = 0;
      total_nand_pages = total_bytes / geo.page_size;
    })

module _ {S : Type 0} where
  unfoldable pub get_host_write_pages : Ftl S → ℕ
  get_host_write_pages s = s.host_write_pages % word_size

  unfoldable pub get_nand_write_pages : Ftl S → ℕ
  get_nand_write_pages s = s.nand_write_pages % word_size
