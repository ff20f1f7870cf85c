-- ===== src/Ftl/Changes.antt =====
-- The other changes of the FTL's state keep it well formed: a page loses its validity, a mapping is
-- dropped, a block leaves the free pool, a victim's page is passed, and a victim is erased.
use native.Mathlib.Nat.{div-add-mod', mod-lt}
use ssd_waf.Base.{
  ℕ, ◌/◌, ◌%◌, ◌≤◌, ◌<◌, ◌≡◌, ◌≢◌, ap, sym, ◌∙◌, true, false, none, some, arith, count_from-clear,
  update,
}
use ssd_waf.Policy.{EvictPolicy, IsLawful}
use ssd_waf.Ftl.{
  Geometry, pages_per_block, not_allocated, Block, Ftl, full, segment_of, decrement, unmap,
  clear_page, invalidate_ppn,
}
use ssd_waf.Ftl.Invariant.{Except, Inv, Shape-frame, page, page_div, page_mod, valid_at}
use ssd_waf.Ftl.Append.{restore}

-- The logical page's mapping is out of date.
abbrev pub lose : Except → ℕ → Except
lose e x = record e { unmapped = update e.unmapped x true }

module _ (pol : EvictPolicy) (law : IsLawful pol) (geo : Geometry) where
  module _ (e : Except) (s : Ftl pol.State) (x p : ℕ) (inv : Inv pol geo e s)
      (some_pages : 0 < pages_per_block geo) (mapped : e.unmapped x ≡ false)
      (at_p : s.lpn_to_ppn x ≡ some p) where
    split : (q : ℕ) → page pol geo (q / pages_per_block geo) (q % pages_per_block geo) ≡ q
    split q = div-add-mod' q (pages_per_block geo)

    pub mapped-lt : p < not_allocated
    mapped-lt =
        let v = (inv.forward x p mapped at_p).0 in
        grind (
          arith,
          inv.in_range (p / pages_per_block geo) (p % pages_per_block geo) v,
          split p,
          inv.roomy,
          inv.addressable,
          mod-lt p some_pages,
        )

    p_valid : valid_at pol geo s p ≡ true
    p_valid = (inv.forward x p mapped at_p).0

    -- The page is valid, so its block changes.
    cleared : Ftl pol.State
    cleared = record t { ppn_to_lpn = update t.ppn_to_lpn p none }
      where
        t : Ftl pol.State
        t = clear_page pol geo s (p / pages_per_block geo) (p % pages_per_block geo)

    invalidate-eq : invalidate_ppn pol geo s p ≡ cleared
    unfolding invalidate_ppn cleared
    invalidate-eq = ground (arith, mapped-lt, p_valid)

    clear-valid :
        (c i : ℕ)
        → (cleared.blocks c).valid i ≡ true
        → ((s.blocks c).valid i ≡ true)
          × ¬ ((p / pages_per_block geo ≡ c) × (p % pages_per_block geo ≡ i))
    unfolding cleared clear_page
    clear-valid c i h = ground arith

    clear-ne : (c i : ℕ) → (cleared.blocks c).valid i ≡ true → page pol geo c i ≢ p
    clear-ne c i h q =
        let (old, other) = clear-valid c i h in
        let lt : i < pages_per_block geo = omega (arith, inv.below c i old, inv.sized c) in
        other (
          ap (λ (r : ℕ). r / pages_per_block geo) (sym q) ∙ page_div _ c i lt,
          ap (λ (r : ℕ). r % pages_per_block geo) (sym q) ∙ page_mod _ c i lt,
        )

    clear-forward :
        (l q : ℕ)
        → (lose e x).unmapped l ≡ false
        → cleared.lpn_to_ppn l ≡ some q
        → (valid_at pol geo cleared q ≡ true)
          × (cleared.ppn_to_lpn q ≡ some l)
          × (q / pages_per_block geo ≡ e.victim → e.moved ≤ q % pages_per_block geo)
    unfolding cleared clear_page
    clear-forward l q h m =
        ground (arith, inv.forward l q, inv.forward x p mapped at_p, split p, split q)

    clear-backward :
        (c i : ℕ)
        → (cleared.blocks c).valid i ≡ true
        → (c ≡ e.victim → e.moved ≤ i)
        → (l : ℕ) × ((lose e x).unmapped l ≡ false)
          × (l < not_allocated)
          × (cleared.ppn_to_lpn (page pol geo c i) ≡ some l)
          × (cleared.lpn_to_ppn l ≡ some (page pol geo c i))
    unfolding cleared clear_page
    clear-backward c i h m =
        let (old, _) = clear-valid c i h in
        let ne = clear-ne c i h in
        let (l, u, lt, pl, lp) = inv.backward c i old m in
        (l, ground arith, lt, ground arith, ground arith)

    cleared-Inv : Inv pol geo (lose e x) cleared
    unfolding cleared clear_page full
    cleared-Inv = record {
      shape = record {
        sized = λ c. ground (arith, inv.sized c);
        ids = λ c. ground (arith, inv.ids c);
        below = λ c i h. ground (arith, inv.below c i);
        in_range = λ c i h. ground (arith, inv.in_range c i);
        counted = λ c. ground (
          arith,
          inv.counted c,
          p_valid,
          mod-lt p some_pages,
          count_from-clear (s.blocks c).valid 0 (pages_per_block geo) (p % pages_per_block geo),
        );
        free_ok = λ c h. ((inv.free_ok c h).0, λ j. ground (arith, (inv.free_ok c h).1 j));
        free_distinct = inv.free_distinct;
        gc_active_ok = inv.gc_active_ok;
        tracked_ok = λ c h. ground (
          arith,
          inv.tracked_ok c,
          law.tracks-update s.policy (p / pages_per_block geo) (segment_of cleared_block) c,
        );
        policy_sound = ground (
          arith,
          inv.policy_sound,
          law.update-IsSound s.policy (p / pages_per_block geo) (segment_of cleared_block),
        );
        roomy = inv.roomy;
        addressable = inv.addressable;
      };
      forward = clear-forward;
      backward = clear-backward;
      active_ok = inv.active_ok;
    }
      where
        cleared_block : Block
        cleared_block = record (s.blocks (p / pages_per_block geo)) {
          valid = update (s.blocks (p / pages_per_block geo)).valid (p % pages_per_block geo) false;
          valid_cnt = decrement (s.blocks (p / pages_per_block geo)).valid_cnt;
        }

    pub invalidate-Inv : Inv pol geo (lose e x) (invalidate_ppn pol geo s p)
    invalidate-Inv = rw invalidate-eq cleared-Inv

  module _ (e : Except) (s : Ftl pol.State) (inv : Inv pol geo e s) where
    -- A logical page that is not mapped may as well be out of date.
    pub lose-Inv : (x : ℕ) → s.lpn_to_ppn x ≡ none → Inv pol geo (lose e x) s
    lose-Inv x h = record {
      shape = inv.shape;
      forward = λ l q u m. ground (arith, inv.forward l q);
      backward =
          λ c i v m. let (l, u, lt, pl, lp) = inv.backward c i v m in (l, ground arith, lt, pl, lp);
      active_ok = inv.active_ok;
    }

    pub unmap-Inv : (x : ℕ) → e.unmapped x ≡ true → Inv pol geo (restore e x) (unmap s x)
    unfolding unmap
    unmap-Inv x h = record {
      shape = Shape-frame pol geo s _ _ _ _ _ inv.shape;
      forward = λ l q u m. ground (arith, inv.forward l q);
      backward = λ c i v m.
          let (l, u, lt, pl, lp) = inv.backward c i v m in (l, ground arith, lt, pl, ground arith);
      active_ok = inv.active_ok;
    }
