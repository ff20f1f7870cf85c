-- ===== src/Ftl/Invariant.antt =====
-- The well-formedness of the FTL's state, also in the middle of an operation.
use native.Mathlib.Nat.{mul-add-div_right, mul-add-mod_self_right, div-eq_of_lt, mod-eq_of_lt}
use ssd_waf.Base.{
  ℕ, ◌+◌, ◌*◌, ◌/◌, ◌%◌, ◌≤◌, ◌<◌, ◌≡◌, ◌∙◌, Bool, true, false, Option, some, arith, contains,
  Distinct, count_from,
}
use ssd_waf.Policy.{EvictPolicy}
use ssd_waf.Ftl.{Geometry, pages_per_block, not_allocated, Ftl}

-- What an operation has broken for the moment: logical pages whose mapping is out of date, streams
-- whose active block is about to be replaced, and the pages of a victim, below `moved`, that were
-- moved and whose bits are still set.
pub record Except : Type 0 where
  pub unmapped : ℕ → Bool
  pub idle_stream : ℕ → Bool
  pub victim : ℕ
  pub moved : ℕ

abbrev pub no_except : Except
no_except = record { unmapped = λ _. false; idle_stream = λ _. false; victim = 0; moved = 0 }

pub page_div : (p b i : ℕ) → i < p → (b * p + i) / p ≡ b
page_div p b i h =
    let e = mul-add-div_right {m = p} (omega arith) b i in
    omega (arith, e, div-eq_of_lt {n = i} {m = p} h)

pub page_mod : (p b i : ℕ) → i < p → (b * p + i) % p ≡ i
page_mod p b i h = mul-add-mod_self_right b p i ∙ mod-eq_of_lt h

module _ (pol : EvictPolicy) (geo : Geometry) where
  abbrev pub valid_at : Ftl pol.State → ℕ → Bool
  valid_at s ppn = (s.blocks (ppn / pages_per_block geo)).valid (ppn % pages_per_block geo)

  abbrev pub page : ℕ → ℕ → ℕ
  page b i = b * pages_per_block geo + i

  -- The blocks, the free pool and the policy.
  pub record Shape (s : Ftl pol.State) : Type 0 where
    pub sized : (b : ℕ) → (s.blocks b).write_ptr ≤ pages_per_block geo
    pub ids : (b : ℕ) → (s.blocks b).id ≡ b
    pub below : (b i : ℕ) → (s.blocks b).valid i ≡ true → i < (s.blocks b).write_ptr
    pub in_range : (b i : ℕ) → (s.blocks b).valid i ≡ true → b < s.num_blocks
    pub counted :
        (b : ℕ) → (s.blocks b).valid_cnt ≡ count_from (s.blocks b).valid 0 (pages_per_block geo)
    pub free_ok :
        (b : ℕ)
        → contains b s.free_pool ≡ true
        → (b < s.num_blocks) × ((i : ℕ) → (s.blocks b).valid i ≡ false)
    pub free_distinct : Distinct s.free_pool
    pub gc_active_ok :
        (st b : ℕ)
        → s.gc_active_blk st ≡ some b
        → (b < s.num_blocks) × (contains b s.free_pool ≡ false)
    -- The policy may choose full blocks only.
    pub tracked_ok :
        (b : ℕ)
        → pol.tracks s.policy b ≡ true
        → (b < s.num_blocks)
          × (pages_per_block geo ≤ (s.blocks b).write_ptr)
          × (contains b s.free_pool ≡ false)
    pub policy_sound : pol.IsSound s.policy
    pub roomy : s.num_blocks * pages_per_block geo ≤ s.total_nand_pages
    pub addressable : s.total_nand_pages < not_allocated

  -- It does not depend on the maps, the host's active blocks and the counters.
  pub Shape-frame :
      (s : Ftl pol.State) (l q a : ℕ → Option ℕ) (n h : ℕ)
      → Shape s
      → Shape (record s {
        lpn_to_ppn = l;
        ppn_to_lpn = q;
        active_blk = a;
        nand_write_pages = n;
        host_write_pages = h;
      })
  Shape-frame s l q a n h w = record {
    sized = w.sized;
    ids = w.ids;
    below = w.below;
    in_range = w.in_range;
    counted = w.counted;
    free_ok = w.free_ok;
    free_distinct = w.free_distinct;
    gc_active_ok = w.gc_active_ok;
    tracked_ok = w.tracked_ok;
    policy_sound = w.policy_sound;
    roomy = w.roomy;
    addressable = w.addressable;
  }

  pub record Inv (e : Except) (s : Ftl pol.State) : Type 0 where
    pub shape : Shape s
    pub open shape use *
    -- A mapped logical page lies at a valid page that maps back to it.
    pub forward :
        (l p : ℕ)
        → e.unmapped l ≡ false
        → s.lpn_to_ppn l ≡ some p
        → (valid_at s p ≡ true)
          × (s.ppn_to_lpn p ≡ some l)
          × (p / pages_per_block geo ≡ e.victim → e.moved ≤ p % pages_per_block geo)
    -- A valid page belongs to the logical page that is mapped to it.
    pub backward :
        (b i : ℕ)
        → (s.blocks b).valid i ≡ true
        → (b ≡ e.victim → e.moved ≤ i)
        → (l : ℕ) × (e.unmapped l ≡ false)
          × (l < not_allocated)
          × (s.ppn_to_lpn (page b i) ≡ some l)
          × (s.lpn_to_ppn l ≡ some (page b i))
    pub active_ok :
        (st b : ℕ)
        → e.idle_stream st ≡ false
        → s.active_blk st ≡ some b
        → (b < s.num_blocks) × (contains b s.free_pool ≡ false)

  -- The state between two calls.
  abbrev pub IsValid : Ftl pol.State → Type 0
  IsValid s = Inv no_except s
