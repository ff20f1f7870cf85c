-- ===== src/FairyWren/Find.antt =====
-- `ensure_active_segment` of `FairyWrenCache`: it finds an active segment with room, or none, in
-- calls at most four deep.
use ssd_waf.Base.{
  ℕ, suc, ◌≤◌, ◌<◌, ◌≡◌, ◌∙◌, sym, ap, subst, refl, Bool, true, false, Option, none, some, List, [],
  ◌∷◌, update, arith, Result, ok,
}
use ssd_waf.Device.{Device, Accepts}
use ssd_waf.FairyWren.Log.{
  RegionKind, fwlog, hot, cold, region_index, Log, region, set_region, take_free_segment, refill,
  pop_front, pop_victim, retire_full, open_segment,
}
use ssd_waf.FairyWren.Invariant.{Inv, Steps, Vacates, landed-fly}
use ssd_waf.FairyWren.Lists.{take_free-none, take_free-some, take_free-Inv, open-Inv}
use ssd_waf.FairyWren.Victims.{aloft, TookOff, pop_victim-Inv, retire_full-Inv}
use ssd_waf.FairyWren.Cache.{FairyWren}
use ssd_waf.FairyWren.Collect.{
  Ensure, copy_valid_blocks, reclaim_from_cold, force_reclaim, take_after, take_or_force, obtain,
  use_active, ensure_step, ensure_active_segment,
}
use ssd_waf.FairyWren.Safe.{Stored, Passes, Passes-refl, Passes-trans, Passes-Steps, Stored-Passes}
use ssd_waf.FairyWren.Copy.{Quiet, Kept, Finds, HasRoom, copy_valid_blocks-stuck}
use ssd_waf.FairyWren.Reclaim.{Kept-Steps, Kept-trans, reclaim_cold_victim-Kept}
use ssd_waf.FairyWren.Ensure.{
  Reclaims, or_else-Reclaims, reclaim_into-Reclaims, reclaim_from_cold-Reclaims,
}

refill-vacant :
    (l : Log) (kind : RegionKind) (queue : List ℕ) (o : Option ℕ)
    → o ≡ none
    → refill l kind queue o ≡ ok l
unfolding refill
refill-vacant l kind [] none e = refl
refill-vacant l kind [] (some seg) e = cc
refill-vacant l kind (v ∷ rest) o e = refl

pop_front-free :
    (l : Log) (kind : RegionKind)
    → (region (pop_front l kind).0 kind).free_segments ≡ (region l kind).free_segments
unfolding pop_front
pop_front-free l kind = from_queue (region l kind).fifo_segments refl
  where
    from_queue :
        (queue : List ℕ)
        → (region l kind).fifo_segments ≡ queue
        → (region (pop_front l kind).0 kind).free_segments ≡ (region l kind).free_segments
    from_queue [] x = rw (x, pop_front) refl
    from_queue (v ∷ rest) x = rw (x, pop_front) (ground arith)

-- With no active segment, the choice of a victim leaves the free list alone.
pop_victim-free :
    (l m : Log) (kind : RegionKind) (o : Option ℕ)
    → (region l kind).active ≡ none
    → pop_victim l kind ≡ ok (m, o)
    → (region m kind).free_segments ≡ (region l kind).free_segments
unfolding pop_victim
pop_victim-free l m kind o e q =
    let all : pop_victim l kind ≡ ok (pop_front l kind) =
      rw (refill-vacant l kind (region l kind).fifo_segments (region l kind).active e) refl in
    let same : pop_front l kind ≡ (m, o) = cc in
    ap (λ (p : Log × Option ℕ). (region p.0 kind).free_segments) (sym same) ∙ pop_front-free l kind

module _ (d : Device) (Ready : ℕ → d.State → Type 0) (unit_size limit quota : ℕ)
    (a : Accepts d Ready unit_size limit quota) where
  -- Without active and free segments, the third region finds no active segment.
  abbrev FindsNone : Ensure d → Type 0
  FindsNone ensure =
      (s : FairyWren d)
      → (region s.log cold).active ≡ none
      → (region s.log cold).free_segments ≡ []
      → ensure s cold false ≡ ok (s, none)

  -- What a region has when it looked for a free segment.
  abbrev Obtained : RegionKind → (ℕ → Bool) → FairyWren d → FairyWren d → Option ℕ → Type 0
  Obtained kind fly s t none = Kept d Ready unit_size limit quota (suc (region_index kind)) fly s t
  Obtained kind fly s t (some seg) =
      Inv (update fly seg true) t.log
      × Stored d Ready unit_size limit quota t
      × Passes d fly s t
      × Quiet (suc (region_index kind)) s.log t.log
      × (fly seg ≡ false)
      × ((t.log.segments seg).valid_cnt ≡ 0)

  module _ (kind : RegionKind) (fly : ℕ → Bool) (s t : FairyWren d)
      (k : Kept d Ready unit_size limit quota (suc (region_index kind)) fly s t) where
    module _ (seg : ℕ) (rest : List ℕ) (e : (region t.log kind).free_segments ≡ seg ∷ rest) where
      abbrev without : Log
      without = set_region t.log kind (record (region t.log kind) { free_segments = rest })

      front-Obtained : Obtained kind fly s (record t { log = without }) (some seg)
      front-Obtained =
          let t' : FairyWren d = record t { log = without } in
          let (v, f, _, _, c) = take_free-Inv fly t.log k.inv kind seg rest e in
          let p : Passes d fly t t' = Passes-Steps d fly t without (record {
            same_size = refl;
            same_total = refl;
            same_mapping = refl;
            same_mapping_size = refl;
            still = λ j x. refl;
            home = λ j x. refl;
          }) in
          (
            v,
            Stored-Passes d Ready unit_size limit quota fly t t' k.stored p k.stored.ready,
            Passes-trans d fly s t t' k.passes p,
            λ r b x. ground (arith, k.quiet r b x),
            f,
            c,
          )

    taken-Obtained :
        (o : Option ℕ) × (l : Log) × (take_free_segment t.log kind ≡ (o, l))
        × Obtained kind fly s (record t { log = l }) o
    taken-Obtained = from_free (region t.log kind).free_segments refl
      where
        from_free :
            (free : List ℕ)
            → (region t.log kind).free_segments ≡ free
            → (o : Option ℕ) × (l : Log) × (take_free_segment t.log kind ≡ (o, l))
              × Obtained kind fly s (record t { log = l }) o
        from_free [] e = (none, t.log, take_free-none t.log kind e, k)
        from_free (seg ∷ rest) e = (
          some seg,
          without seg rest e,
          take_free-some t.log kind seg rest e,
          front-Obtained seg rest e,
        )

  module _ (ensure : Ensure d) where
    -- The third region without active and free segments: the collection opens no segment.
    cold_stuck-Kept :
        Finds d Ready unit_size limit quota ensure cold false
        → FindsNone ensure
        → (fly : ℕ → Bool) (s : FairyWren d) → Inv fly s.log
        → Stored d Ready unit_size limit quota s
        → (region s.log cold).active ≡ none
        → (region s.log cold).free_segments ≡ []
        → (t : FairyWren d) × (done : Bool) × (reclaim_from_cold d ensure s ≡ ok (t, done))
          × Kept d Ready unit_size limit quota 3 fly s t
    unfolding reclaim_from_cold
    cold_stuck-Kept finds finds_none fly s w st vacant empty =
        let (l, o, e, v, b, took, z) = pop_victim-Inv fly s.log w cold in
        from_victim l o e v b took z
      where
        from_victim :
            (l : Log) (o : Option ℕ)
            → pop_victim s.log cold ≡ ok (l, o)
            → Inv (aloft fly o) l
            → Steps fly s.log l
            → TookOff fly l cold o
            → Vacates s.log l
            → (t : FairyWren d) × (done : Bool) × (reclaim_from_cold d ensure s ≡ ok (t, done))
              × Kept d Ready unit_size limit quota 3 fly s t
        from_victim l none e v b took z = (
          record s { log = l },
          false,
          rw e refl,
          Kept-Steps d Ready unit_size limit quota 3 fly s l st v b (λ r i. z r),
        )
        from_victim l (some victim) e v b took z =
            let s' : FairyWren d = record s { log = l } in
            let p = Passes-Steps d fly s l b in
            let empty' = pop_victim-free s.log l cold (some victim) vacant e ∙ empty in
            let nothing : ensure s' cold false ≡ ok (s', none) =
              finds_none s' (z 2 vacant) empty' in
            let quietly : (t : FairyWren d) (done : Bool)
                → copy_valid_blocks d ensure s' victim cold ≡ ok (t, done)
                → Quiet 2 s'.log t.log
                → Quiet 3 s'.log t.log =
              λ t done x y r i n.
                let (done', same) =
                  copy_valid_blocks-stuck d Ready unit_size limit quota ensure victim cold cold
                    (update fly victim true) s' v took.1 nothing in
                let back : s' ≡ t = cc in
                ap (λ (u : FairyWren d). (u.log.regions r).active) (sym back) ∙ n in
            let (t, done, q, k) =
              reclaim_cold_victim-Kept d Ready unit_size limit quota 3 fly a ensure s' victim took.0
                v (Stored-Passes d Ready unit_size limit quota fly s s' st p st.ready) took.1
                quietly finds in
            (
              t,
              done,
              rw e q,
              Kept-trans d Ready unit_size limit quota 3 fly s s' t p (λ r i. z r) k,
            )

    -- The collection that a region starts when it has neither an active nor a free segment.
    pub record Forces (kind : RegionKind) : Type 0 where
      pub force :
          (fly : ℕ → Bool) (s : FairyWren d)
          → Inv fly s.log
          → Stored d Ready unit_size limit quota s
          → (region s.log kind).active ≡ none
          → (region s.log kind).free_segments ≡ []
          → (t : FairyWren d) × (done : Bool) × (force_reclaim d ensure s kind ≡ ok (t, done))
            × Kept d Ready unit_size limit quota (suc (region_index kind)) fly s t

    pub Reclaims-fewer :
        (few : ℕ) (f : FairyWren d → Result (FairyWren d × Bool))
        → few ≤ 2
        → Reclaims d Ready unit_size limit quota a 2 f
        → Reclaims d Ready unit_size limit quota a few f
    Reclaims-fewer few f h x = record {
      run = λ fly s w st.
          let (t, done, e, k) = x.run fly s w st in
          (
            t,
            done,
            e,
            record {
              inv = k.inv;
              stored = k.stored;
              passes = k.passes;
              quiet = λ r b. k.quiet r (omega (arith, h, b));
            },
          );
    }

    fwlog-Forces :
        Finds d Ready unit_size limit quota ensure hot true
        → Finds d Ready unit_size limit quota ensure cold true
        → Finds d Ready unit_size limit quota ensure cold false
        → Forces fwlog
    unfolding force_reclaim
    fwlog-Forces into_hot into_cold within_cold =
        let all =
          or_else-Reclaims d Ready unit_size limit quota a 1 _ _
            (or_else-Reclaims d Ready unit_size limit quota a 1 _ _
              (reclaim_into-Reclaims d Ready unit_size limit quota a ensure 1 fwlog hot
                (omega arith) into_hot)
              (reclaim_into-Reclaims d Ready unit_size limit quota a ensure 1 hot cold (omega arith)
                into_cold))
            (Reclaims-fewer 1 _ (omega arith)
              (reclaim_from_cold-Reclaims d Ready unit_size limit quota a ensure within_cold)) in
        record { force = λ fly s w st vacant empty. all.run fly s w st }

    hot-Forces :
        Finds d Ready unit_size limit quota ensure cold true
        → Finds d Ready unit_size limit quota ensure cold false
        → Forces hot
    unfolding force_reclaim
    hot-Forces into_cold within_cold =
        let all =
          or_else-Reclaims d Ready unit_size limit quota a 2 _ _
            (reclaim_into-Reclaims d Ready unit_size limit quota a ensure 2 hot cold (omega arith)
              into_cold)
            (reclaim_from_cold-Reclaims d Ready unit_size limit quota a ensure within_cold) in
        record { force = λ fly s w st vacant empty. all.run fly s w st }

    cold-Forces :
        Finds d Ready unit_size limit quota ensure cold false → FindsNone ensure → Forces cold
    unfolding force_reclaim
    cold-Forces within_cold finds_none = record { force = cold_stuck-Kept within_cold finds_none }

    -- A free segment, perhaps after a collection.
    obtain-Obtained :
        (kind : RegionKind) (allow_force : Bool)
        → (allow_force ≡ true → Forces kind)
        → (fly : ℕ → Bool) (s : FairyWren d) → Inv fly s.log
        → Stored d Ready unit_size limit quota s
        → (region s.log kind).active ≡ none
        → (t : FairyWren d) × (o : Option ℕ) × (obtain d ensure s kind allow_force ≡ ok (t, o))
          × Obtained kind fly s t o
    unfolding obtain take_or_force take_after
    obtain-Obtained kind allow_force forces fly s w st vacant =
        from_free (region s.log kind).free_segments refl allow_force forces
      where
        start : Kept d Ready unit_size limit quota (suc (region_index kind)) fly s s
        start = record { inv = w; stored = st; passes = Passes-refl d fly s; quiet = λ r b x. x }

        from_force :
            (t : FairyWren d) (done : Bool)
            → take_free_segment s.log kind ≡ (none, s.log)
            → force_reclaim d ensure s kind ≡ ok (t, done)
            → Kept d Ready unit_size limit quota (suc (region_index kind)) fly s t
            → (u : FairyWren d) × (o : Option ℕ) × (obtain d ensure s kind true ≡ ok (u, o))
              × Obtained kind fly s u o
        from_force t true e q k =
            let (o, l, e', x) = taken-Obtained kind fly s t k in
            (record t { log = l }, o, rw e (rw q (rw e' refl)), x)
        from_force t false e q k = (t, none, rw e (rw q refl), k)

        from_free :
            (free : List ℕ)
            → (region s.log kind).free_segments ≡ free
            → (allow : Bool) → (allow ≡ true → Forces kind)
            → (t : FairyWren d) × (o : Option ℕ) × (obtain d ensure s kind allow ≡ ok (t, o))
              × Obtained kind fly s t o
        from_free [] e true f =
            let (t, done, q, k) = (f refl).force fly s w st vacant e in
            from_force t done (take_free-none s.log kind e) q k
        from_free [] e false f = (s, none, rw (take_free-none s.log kind e) refl, start)
        from_free (seg ∷ rest) e allow f = (
          record s {
            log = set_region s.log kind (record (region s.log kind) { free_segments = rest });
          },
          some seg,
          rw (take_free-some s.log kind seg rest e) refl,
          front-Obtained kind fly s s start seg rest e,
        )

    -- The segment that was free becomes the active one.
    opened :
        (kind : RegionKind) (fly : ℕ → Bool) (s t : FairyWren d) (seg : ℕ)
        → Obtained kind fly s t (some seg)
        → (region s.log kind).active ≡ none
        → (m : Log) × (open_segment t.log kind t.log_cache_timestamp seg ≡ ok m)
          × Kept d Ready unit_size limit quota (region_index kind) fly s (record t { log = m })
          × HasRoom m kind (some seg)
    opened kind fly s t seg (v, st, p, q, f, c) vacant =
        let up : ℕ → Bool = update fly seg true in
        let (m, e, v', b, act, ptr, home, others) =
          open-Inv up t.log v kind seg (ground arith) c t.log_cache_timestamp
            (q (region_index kind) (omega arith) vacant) in
        let back = landed-fly fly seg f in
        let b' = subst (λ (h : ℕ → Bool). Steps h t.log m) back b in
        let p' = Passes-Steps d fly t m b' in
        let t' : FairyWren d = record t { log = m } in
        (
          m,
          e,
          record {
            inv = subst (λ (h : ℕ → Bool). Inv h m) back v';
            stored = Stored-Passes d Ready unit_size limit quota fly t t' st p' st.ready;
            passes = Passes-trans d fly s t t' p p';
            quiet = λ r lt x. others r (ground arith) ∙ q r (omega arith) x;
          },
          (act, omega (arith, ptr, v'.some_size)),
        )

    pub ensure_step-Finds :
        (kind : RegionKind) (allow_force : Bool)
        → (allow_force ≡ true → Forces kind)
        → Finds d Ready unit_size limit quota (ensure_step d ensure) kind allow_force
    unfolding ensure_step
    ensure_step-Finds kind allow_force forces = record {
      find = λ fly s w st.
          let (l, e, v, b, room, z) = retire_full-Inv fly s.log w kind in
          from_active fly s w st l e v b room z (region l kind).active refl;
    }
      where
        from_obtained :
            (fly : ℕ → Bool) (s : FairyWren d) (l : Log)
            → retire_full s.log kind ≡ ok l
            → (region l kind).active ≡ none
            → Kept d Ready unit_size limit quota (region_index kind) fly s (record s { log = l })
            → (t : FairyWren d) (o : Option ℕ)
            → obtain d ensure (record s { log = l }) kind allow_force ≡ ok (t, o)
            → Obtained kind fly (record s { log = l }) t o
            → (u : FairyWren d) × (p : Option ℕ) × (ensure_step d ensure s kind allow_force
                ≡ ok (u, p))
              × Kept d Ready unit_size limit quota (region_index kind) fly s u
              × HasRoom u.log kind p
        from_obtained fly s l e vacant k t none q x = (
          t,
          none,
          rw e (rw (vacant, use_active) (rw q refl)),
          Kept-trans d Ready unit_size limit quota (region_index kind) fly s (record s { log = l })
              t k.passes k.quiet
              (record {
                inv = x.inv;
                stored = x.stored;
                passes = x.passes;
                quiet = λ r b. x.quiet r (omega arith);
              }),
          tt,
        )
        from_obtained fly s l e vacant k t (some seg) q x =
            let (m, e', k', h) = opened kind fly (record s { log = l }) t seg x vacant in
            (
              record t { log = m },
              some seg,
              rw e (rw (vacant, use_active) (rw q (rw e' refl))),
              Kept-trans d Ready unit_size limit quota (region_index kind) fly s
                  (record s { log = l }) (record t { log = m }) k.passes k.quiet k',
              h,
            )

        from_active :
            (fly : ℕ → Bool) (s : FairyWren d)
            → Inv fly s.log
            → Stored d Ready unit_size limit quota s
            → (l : Log) → retire_full s.log kind ≡ ok l
            → Inv fly l
            → Steps fly s.log l
            → ((seg : ℕ)
                → (region l kind).active ≡ some seg
                → (l.segments seg).write_ptr < l.segment_size_blocks)
            → Vacates s.log l
            → (active : Option ℕ) → (region l kind).active ≡ active
            → (t : FairyWren d) × (o : Option ℕ) × (ensure_step d ensure s kind allow_force
                ≡ ok (t, o))
              × Kept d Ready unit_size limit quota (region_index kind) fly s t
              × HasRoom t.log kind o
        from_active fly s w st l e v b room z (some seg) act = (
          record s { log = l },
          some seg,
          rw e (rw (act, use_active) refl),
          Kept-Steps d Ready unit_size limit quota (region_index kind) fly s l st v b (λ r i. z r),
          (act, room seg act),
        )
        from_active fly s w st l e v b room z none act =
            let k =
              Kept-Steps d Ready unit_size limit quota (region_index kind) fly s l st v b
                (λ r i. z r) in
            let (t, o, q, x) =
              obtain-Obtained kind allow_force forces fly (record s { log = l }) v k.stored act in
            from_obtained fly s l e act k t o q x

  ensure_FindsNone : (fuel : ℕ) → FindsNone (ensure_active_segment d (suc fuel))
  unfolding ensure_active_segment ensure_step retire_full obtain take_or_force
  ensure_FindsNone fuel s vacant empty =
      rw (vacant, retire_full) (rw (vacant, use_active) (rw (take_free-none s.log cold empty) refl))

  -- One call is enough without a collection, and each region before adds one.
  pub plain-Finds :
      (fuel : ℕ) (kind : RegionKind)
      → Finds d Ready unit_size limit quota (ensure_active_segment d (suc fuel)) kind false
  unfolding ensure_active_segment
  plain-Finds fuel kind = ensure_step-Finds (ensure_active_segment d fuel) kind false (λ e. cc)

  pub cold-Finds :
      (fuel : ℕ)
      → Finds d Ready unit_size limit quota (ensure_active_segment d (suc (suc fuel))) cold true
  unfolding ensure_active_segment
  cold-Finds fuel =
      let inner = ensure_active_segment d (suc fuel) in
      ensure_step-Finds inner cold true
        (λ e. cold-Forces inner (plain-Finds fuel cold) (ensure_FindsNone fuel))

  pub hot-Finds :
      (fuel : ℕ)
      → Finds d Ready unit_size limit quota
          (ensure_active_segment d (suc (suc (suc fuel))))
          hot
          true
  unfolding ensure_active_segment
  hot-Finds fuel =
      let inner = ensure_active_segment d (suc (suc fuel)) in
      ensure_step-Finds inner hot true
        (λ e. hot-Forces inner (cold-Finds fuel) (plain-Finds (suc fuel) cold))

  -- The search for the first region's active segment ends in four calls inside one another, with
  -- the collections that it starts, whatever segments are in flight, on a well-formed state whose
  -- store accepts a number of writes that the evictions and the entries do not exceed: the state
  -- stays well formed, no segment in flight changes, and the segment that is found is the region's
  -- active one and has room.
  pub fwlog-Finds :
      (fuel : ℕ)
      → Finds d Ready unit_size limit quota
          (ensure_active_segment d (suc (suc (suc (suc fuel)))))
          fwlog
          true
  unfolding ensure_active_segment
  fwlog-Finds fuel =
      let inner = ensure_active_segment d (suc (suc (suc fuel))) in
      ensure_step-Finds inner fwlog true (λ e.
        fwlog-Forces inner (hot-Finds fuel) (cold-Finds (suc fuel))
          (plain-Finds (suc (suc fuel)) cold))
