-- ===== src/Ftl/Append.antt =====
-- A page appended to a block that has room keeps the state well formed: the common end of the
-- rounds of `Write` and of `RunGC`.
use ssd_waf.Base.{
  ◌⊎◌, inl, inr, ℕ, ◌+◌, ◌*◌, ◌/◌, ◌%◌, ◌≤◌, ◌<◌, ◌≡◌, ◌≢◌, ap, sym, ◌∙◌, true, false, some, arith,
  contains, count_from-set, update,
}
use ssd_waf.Policy.{EvictPolicy, IsLawful}
use ssd_waf.Ftl.{
  Geometry, pages_per_block, not_allocated, Ftl, full, next_ppn, segment_of, program_page,
}
use ssd_waf.Ftl.Invariant.{Except, Inv, page, page_div, page_mod, valid_at}

-- The logical page has its mapping again.
abbrev pub restore : Except → ℕ → Except
restore e x = record e { unmapped = update e.unmapped x false }

module _ (pol : EvictPolicy) (geo : Geometry) where
  pub next_ppn-eq :
      (s : Ftl pol.State) (b : ℕ)
      → (s.blocks b).id ≡ b
      → next_ppn geo (s.blocks b) ≡ page pol geo b (s.blocks b).write_ptr
  unfolding next_ppn
  next_ppn-eq s b h = ap (λ (i : ℕ). i * pages_per_block geo + (s.blocks b).write_ptr) h

  unfoldable pub append_page : Ftl pol.State → ℕ → ℕ → Ftl pol.State
  append_page s b x = record t {
    lpn_to_ppn = update t.lpn_to_ppn x (some (next_ppn geo (s.blocks b)));
    ppn_to_lpn = update t.ppn_to_lpn (next_ppn geo (s.blocks b)) (some x);
  }
    where
      t : Ftl pol.State
      t = program_page pol geo s b

module _ (pol : EvictPolicy) (law : IsLawful pol) (geo : Geometry) where
  module _ (e : Except) (s : Ftl pol.State) (b x : ℕ) (inv : Inv pol geo e s)
      (open_x : e.unmapped x ≡ true) (small : x < not_allocated) (b_lt : b < s.num_blocks)
      (room : (s.blocks b).write_ptr < pages_per_block geo)
      (b_used : contains b s.free_pool ≡ false)
      (b_ne : b ≡ e.victim → e.moved ≤ (s.blocks b).write_ptr) where
    np-eq : next_ppn geo (s.blocks b) ≡ page pol geo b (s.blocks b).write_ptr
    np-eq = next_ppn-eq pol geo s b (inv.ids b)

    np-div : next_ppn geo (s.blocks b) / pages_per_block geo ≡ b
    np-div = rw np-eq (page_div _ b _ room)

    np-mod : next_ppn geo (s.blocks b) % pages_per_block geo ≡ (s.blocks b).write_ptr
    np-mod = rw np-eq (page_mod _ b _ room)

    append-forward :
        (l p : ℕ)
        → (restore e x).unmapped l ≡ false
        → (append_page pol geo s b x).lpn_to_ppn l ≡ some p
        → (valid_at pol geo (append_page pol geo s b x) p ≡ true)
          × ((append_page pol geo s b x).ppn_to_lpn p ≡ some l)
          × (p / pages_per_block geo ≡ e.victim → e.moved ≤ p % pages_per_block geo)
    unfolding append_page program_page
    append-forward l p h m =
        ground (arith, np-div, np-mod, b_ne, inv.forward l p, inv.below b (p % pages_per_block geo))

    np-page :
        (c i : ℕ)
        → i < pages_per_block geo
        → page pol geo c i ≡ next_ppn geo (s.blocks b)
        → (c ≡ b) × (i ≡ (s.blocks b).write_ptr)
    np-page c i lt h = (
      sym (page_div _ c i lt) ∙ ap (λ (p : ℕ). p / pages_per_block geo) h ∙ np-div,
      sym (page_mod _ c i lt) ∙ ap (λ (p : ℕ). p % pages_per_block geo) h ∙ np-mod,
    )

    old-ne : (c i : ℕ) → (s.blocks c).valid i ≡ true → page pol geo c i ≢ next_ppn geo (s.blocks b)
    old-ne c i h q =
        let (ec, ei) = np-page c i (omega (arith, inv.below c i h, inv.sized c)) q in
        ground (arith, inv.below b (s.blocks b).write_ptr)

    -- A valid page is the one that is written, or was valid before.
    append-valid :
        (c i : ℕ)
        → ((append_page pol geo s b x).blocks c).valid i ≡ true
        → ((c ≡ b) × (i ≡ (s.blocks b).write_ptr)) ⊎ ((s.blocks c).valid i ≡ true)
    unfolding append_page program_page
    append-valid c i h = ground arith

    append-backward :
        (c i : ℕ)
        → ((append_page pol geo s b x).blocks c).valid i ≡ true
        → (c ≡ e.victim → e.moved ≤ i)
        → (l : ℕ) × ((restore e x).unmapped l ≡ false)
          × (l < not_allocated)
          × ((append_page pol geo s b x).ppn_to_lpn (page pol geo c i) ≡ some l)
          × ((append_page pol geo s b x).lpn_to_ppn l ≡ some (page pol geo c i))
    unfolding append_page program_page
    append-backward c i h m = elim (append-valid c i h) [
      | inl (p, q) ↦ (x, ground arith, small, ground (arith, np-eq), ground (arith, np-eq))
      | inr old ↦
          let other = old-ne c i old in
          let (l, u, lt, pl, lp) = inv.backward c i old m in
          (l, ground arith, lt, ground arith, ground arith)
    ]

    append-tracked :
        (c : ℕ)
        → pol.tracks (append_page pol geo s b x).policy c ≡ true
        → (c < s.num_blocks)
          × (pages_per_block geo ≤ ((append_page pol geo s b x).blocks c).write_ptr)
          × (contains c s.free_pool ≡ false)
    unfolding append_page program_page full
    append-tracked c h = ground (
      arith,
      inv.tracked_ok c,
      law.tracks-add s.policy b
          (segment_of (record (s.blocks b) {
            valid = update (s.blocks b).valid (s.blocks b).write_ptr true;
            valid_cnt = (s.blocks b).valid_cnt + 1;
            write_ptr = (s.blocks b).write_ptr + 1;
          }))
          c,
    )

    pub append-Inv : Inv pol geo (restore e x) (append_page pol geo s b x)
    unfolding append_page program_page full
    append-Inv = record {
      shape = record {
        sized = λ c. ground (arith, inv.sized c);
        ids = λ c. ground (arith, inv.ids c);
        below = λ c i h. ground (arith, inv.below c i);
        in_range = λ c i h. ground (arith, inv.in_range c i);
        counted = λ c. ground (
          arith,
          inv.counted c,
          count_from-set (s.blocks b).valid 0 (pages_per_block geo) (s.blocks b).write_ptr,
          inv.below b (s.blocks b).write_ptr,
        );
        free_ok = λ c h. ((inv.free_ok c h).0, λ j. ground (arith, (inv.free_ok c h).1 j));
        free_distinct = inv.free_distinct;
        gc_active_ok = inv.gc_active_ok;
        tracked_ok = append-tracked;
        policy_sound = ground (
          arith,
          inv.policy_sound,
          inv.tracked_ok b,
          law.add-IsSound s.policy b (
              segment_of (record (s.blocks b) {
                valid = update (s.blocks b).valid (s.blocks b).write_ptr true;
                valid_cnt = (s.blocks b).valid_cnt + 1;
                write_ptr = (s.blocks b).write_ptr + 1;
              })),
        );
        roomy = inv.roomy;
        addressable = inv.addressable;
      };
      forward = append-forward;
      backward = append-backward;
      active_ok = inv.active_ok;
    }
