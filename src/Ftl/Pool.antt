-- ===== src/Ftl/Pool.antt =====
-- A block leaves the free pool, becomes active, or comes back as the erased victim; and the pages of
-- a victim are passed one by one.
use ssd_waf.Base.{
  ℕ, ◌+◌, ◌%◌, ◌≤◌, ◌<◌, ◌≡◌, ◌≢◌, ◌⊎◌, inl, inr, refl, Bool, true, false, some, arith, List, ◌∷◌,
  contains, Distinct, count_from-none, update, subst, fun_ext,
}
use native.Mathlib.Nat.{mod-lt, div-add-mod'}
use ssd_waf.Policy.{EvictPolicy, IsLawful}
use ssd_waf.Ftl.{Geometry, pages_per_block, Ftl, open_block, erase_block}
use ssd_waf.Ftl.Invariant.{Except, Inv, Shape-frame, page, page_div, page_mod}
use ssd_waf.Ftl.Changes.{lose}

-- The state with the block at the back of the pool taken out and emptied.
abbrev pub detach : {S : Type 0} → Ftl S → ℕ → List ℕ → Ftl S
detach s f rest = record s {
  blocks = update s.blocks f (open_block (s.blocks f));
  free_pool = rest;
}

abbrev pub claim : Except → ℕ → Except
claim e st = record e { idle_stream = update e.idle_stream st false }

abbrev pub retire : Except → ℕ → Except
retire e st = record e { idle_stream = update e.idle_stream st true }

abbrev pub pass : Except → ℕ → ℕ → Except
pass e v i = record e { victim = v; moved = i }

module _ (pol : EvictPolicy) (law : IsLawful pol) (geo : Geometry) where
  pub Inv-unmapped :
      (e : Except) (s : Ftl pol.State) (u : ℕ → Bool)
      → ((l : ℕ) → e.unmapped l ≡ u l)
      → Inv pol geo e s
      → Inv pol geo (record e { unmapped = u }) s
  Inv-unmapped e s u h = subst (λ w. Inv pol geo (record e { unmapped = w }) s) (fun_ext h)

  pub Inv-idle :
      (e : Except) (s : Ftl pol.State) (u : ℕ → Bool)
      → ((st : ℕ) → e.idle_stream st ≡ u st)
      → Inv pol geo e s
      → Inv pol geo (record e { idle_stream = u }) s
  Inv-idle e s u h = subst (λ w. Inv pol geo (record e { idle_stream = w }) s) (fun_ext h)

  module _ (e : Except) (s : Ftl pol.State) (f : ℕ) (rest : List ℕ) (inv : Inv pol geo e s)
      (pool : s.free_pool ≡ f ∷ rest) (some_pages : 0 < pages_per_block geo) where
    rest-Distinct : (contains f rest ≡ false) × Distinct rest
    rest-Distinct = subst Distinct pool inv.free_distinct

    pub f-free : contains f s.free_pool ≡ true
    unfolding contains
    f-free = rw pool (ground arith)

    pub used-rest : (c : ℕ) → contains c s.free_pool ≡ false → (contains c rest ≡ false) × (c ≢ f)
    unfolding contains
    used-rest c h =
        let k : contains c (f ∷ rest) ≡ false = subst (λ l. contains c l ≡ false) pool h in
        (ground arith, ground arith)

    rest-free : (c : ℕ) → contains c rest ≡ true → contains c s.free_pool ≡ true
    unfolding contains
    rest-free c h = rw pool (ground arith)

    pub detach-Inv : Inv pol geo e (detach s f rest)
    detach-Inv = record {
      shape = record {
        sized = λ c. ground (arith, inv.sized c);
        ids = λ c. ground (arith, inv.ids c);
        below = λ c i h. ground (arith, inv.below c i);
        in_range = λ c i h. ground (arith, inv.in_range c i);
        counted = λ c. ground (
          arith,
          inv.counted c,
          count_from-none (λ _. false) 0 (pages_per_block geo) (λ _. refl),
        );
        free_ok = λ c h. (
          (inv.free_ok c (rest-free c h)).0,
          λ i. ground (arith, (inv.free_ok c (rest-free c h)).1 i),
        );
        free_distinct = rest-Distinct.1;
        gc_active_ok = λ st c h. ground (arith, inv.gc_active_ok st c h, used-rest c);
        tracked_ok = λ c h. ground (arith, inv.tracked_ok c h, used-rest c);
        policy_sound = inv.policy_sound;
        roomy = inv.roomy;
        addressable = inv.addressable;
      };
      forward = λ l p u m.
          ground (arith, inv.forward l p, (inv.free_ok f f-free).1 (p % pages_per_block geo));
      backward = λ c i v m. inv.backward c i (ground arith) m;
      active_ok = λ st c u h. ground (arith, inv.active_ok st c u h, used-rest c);
    }

    -- The block that was taken.
    pub detached : (f < s.num_blocks) × (contains f rest ≡ false)
    detached = ((inv.free_ok f f-free).0, rest-Distinct.0)

  module _ (e : Except) (s : Ftl pol.State) (st b : ℕ) (inv : Inv pol geo e s)
      (b_lt : b < s.num_blocks) (used : contains b s.free_pool ≡ false) where
    pub claim-Inv :
        Inv pol geo (claim e st) (record s { active_blk = update s.active_blk st (some b) })
    claim-Inv = record {
      shape = Shape-frame pol geo s _ _ _ _ _ inv.shape;
      forward = inv.forward;
      backward = inv.backward;
      active_ok = λ t c u h. ground (arith, inv.active_ok t c);
    }

    pub gc_claim-Inv :
        Inv pol geo e (record s { gc_active_blk = update s.gc_active_blk st (some b) })
    gc_claim-Inv = record {
      shape = record {
        sized = inv.sized;
        ids = inv.ids;
        below = inv.below;
        in_range = inv.in_range;
        counted = inv.counted;
        free_ok = inv.free_ok;
        free_distinct = inv.free_distinct;
        gc_active_ok = λ t c h. ground (arith, inv.gc_active_ok t c);
        tracked_ok = inv.tracked_ok;
        policy_sound = inv.policy_sound;
        roomy = inv.roomy;
        addressable = inv.addressable;
      };
      forward = inv.forward;
      backward = inv.backward;
      active_ok = inv.active_ok;
    }

  module _ (e : Except) (s : Ftl pol.State) (inv : Inv pol geo e s) where
    pub retire-Inv : (st : ℕ) → Inv pol geo (retire e st) s
    retire-Inv st = record {
      shape = inv.shape;
      forward = inv.forward;
      backward = inv.backward;
      active_ok = λ t c u h. ground (arith, inv.active_ok t c);
    }

    -- Nothing of the new victim was moved yet.
    pub choose-Inv : (v : ℕ) → e.moved ≡ 0 → Inv pol geo (pass e v 0) s
    choose-Inv v h = record {
      shape = inv.shape;
      forward = λ l p u m. ground (arith, inv.forward l p u m);
      backward = λ c i q m. inv.backward c i q (λ _. omega arith);
      active_ok = inv.active_ok;
    }

    -- An invalid page of the victim is passed.
    pub pass-Inv :
        (s.blocks e.victim).valid e.moved ≡ false → Inv pol geo (pass e e.victim (e.moved + 1)) s
    pass-Inv h = record {
      shape = inv.shape;
      forward =
          λ l p u m. let (v, pl, far) = inv.forward l p u m in (v, pl, λ k. ground (arith, far k));
      backward = λ c i q m. inv.backward c i q (λ k. omega (arith, m k));
      active_ok = inv.active_ok;
    }

    pass-lose-ne :
        (x : ℕ)
        → (s.blocks e.victim).valid e.moved ≡ true
        → s.ppn_to_lpn (page pol geo e.victim e.moved) ≡ some x
        → (c i l : ℕ) → (s.blocks c).valid i ≡ true
        → (c ≡ e.victim → e.moved + 1 ≤ i)
        → s.lpn_to_ppn l ≡ some (page pol geo c i)
        → l ≢ x
    pass-lose-ne x h lx c i l q m lp lx' =
        let (l', u, lt, pl, lp') = inv.backward e.victim e.moved h (λ _. omega arith) in
        let i_lt : i < pages_per_block geo = omega (arith, inv.below c i q, inv.sized c) in
        let j_lt : e.moved < pages_per_block geo =
          omega (arith, inv.below e.victim e.moved h, inv.sized e.victim) in
        ground (
          arith,
          page_div (pages_per_block geo) c i i_lt,
          page_mod (pages_per_block geo) c i i_lt,
          page_div (pages_per_block geo) e.victim e.moved j_lt,
          page_mod (pages_per_block geo) e.victim e.moved j_lt,
        )

    -- A valid page of the victim is passed, and the mapping of its logical page is out of date.
    pub pass-lose-Inv :
        (x : ℕ)
        → (s.blocks e.victim).valid e.moved ≡ true
        → s.ppn_to_lpn (page pol geo e.victim e.moved) ≡ some x
        → Inv pol geo (lose (pass e e.victim (e.moved + 1)) x) s
    pass-lose-Inv x h lx = record {
      shape = inv.shape;
      forward = λ l p u m.
          let (v, pl, far) = inv.forward l p (ground arith) m in
          (v, pl, λ k. ground (arith, far k, div-add-mod' p (pages_per_block geo)));
      backward = λ c i q m.
          let (l, u, lt, pl, lp) = inv.backward c i q (λ k. omega (arith, m k)) in
          (l, ground (arith, pass-lose-ne x h lx c i l q m lp), lt, pl, lp);
      active_ok = inv.active_ok;
    }

    erased-free :
        (c : ℕ)
        → contains c (e.victim ∷ s.free_pool) ≡ true
        → (c ≡ e.victim) ⊎ (contains c s.free_pool ≡ true)
    unfolding contains
    erased-free c h = ground arith

    -- All pages of the victim were passed: it may be erased.
    pub erase-Inv :
        e.moved ≡ pages_per_block geo
        → 0 < pages_per_block geo
        → e.victim < s.num_blocks
        → contains e.victim s.free_pool ≡ false
        → ((st : ℕ) → e.idle_stream st ≡ false → s.active_blk st ≢ some e.victim)
        → ((st : ℕ) → s.gc_active_blk st ≢ some e.victim)
        → Inv pol geo (pass e 0 0) (erase_block pol geo s e.victim)
    unfolding erase_block contains
    erase-Inv done pos lt used idle gc_idle = record {
      shape = record {
        sized = λ c. ground (arith, inv.sized c);
        ids = λ c. ground (arith, inv.ids c);
        below = λ c i h. ground (arith, inv.below c i);
        in_range = λ c i h. ground (arith, inv.in_range c i);
        counted = λ c. ground (
          arith,
          inv.counted c,
          count_from-none (λ _. false) 0 (pages_per_block geo) (λ _. refl),
        );
        free_ok = λ c h. elim (erased-free c h) [
          | inl k ↦ (rw k lt, λ i. ground arith)
          | inr k ↦ ((inv.free_ok c k).0, λ i. ground (arith, (inv.free_ok c k).1 i))
        ];
        free_distinct = (used, inv.free_distinct);
        gc_active_ok = λ st c h. ground (arith, inv.gc_active_ok st c h, gc_idle st);
        tracked_ok = λ c h. ground (arith, inv.tracked_ok c, law.tracks-remove s.policy e.victim c);
        policy_sound = law.remove-IsSound s.policy e.victim inv.policy_sound;
        roomy = inv.roomy;
        addressable = inv.addressable;
      };
      forward = λ l p u m. ground (arith, inv.forward l p, mod-lt p pos);
      backward = λ c i q m. inv.backward c i (ground arith) (λ k. ground arith);
      active_ok = λ st c u h. ground (arith, inv.active_ok st c u h, idle st);
    }
