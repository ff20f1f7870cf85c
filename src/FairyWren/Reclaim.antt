-- ===== src/FairyWren/Reclaim.antt =====
-- The reclaiming of a victim in `FairyWrenCache`: it always ends, without a failing assertion, and
-- keeps the state well formed; a block leaves the cache only as an evicted one.
use ssd_waf.Base.{
  ℕ, ◌≤◌, ◌≡◌, ◌∙◌, sym, ap, subst, refl, inl, inr, Bool, true, false, not, none, some, [], ◌∷◌,
  ◌++◌, ◌==◌, update, arith, Bool-cases, count, count-append, Result, ok, ◌>>=◌,
}
use ssd_waf.Device.{Device, Accepts}
use ssd_waf.FairyWren.Log.{
  RegionKind, cold, region_index, RegionState, Log, region, push_back, push_front,
  move_segment_region, release_segment_to_free, steal_free_segment,
}
use ssd_waf.FairyWren.Invariant.{Inv, Steps, Vacates, Steps-fewer, landed-fly}
use ssd_waf.FairyWren.Lists.{release-Inv, return-Inv, transfer-Inv}
use ssd_waf.FairyWren.Victims.{steal_free_segment-Inv}
use ssd_waf.FairyWren.Cache.{FairyWren, drop_segment}
use ssd_waf.FairyWren.Collect.{
  Ensure, copy_valid_blocks, compact, exchange, reclaim_victim, reclaim_cold_victim,
}
use ssd_waf.FairyWren.Safe.{Stored, Passes, Passes-refl, Passes-trans, Passes-Steps, Stored-Passes}
use ssd_waf.FairyWren.Drop.{drop_segment-Passes}
use ssd_waf.FairyWren.Copy.{Quiet, Kept, Finds, Emptied, copy_valid_blocks-Emptied}

push_back-quiet :
    (l : Log) (kind : RegionKind) (seg r : ℕ)
    → (l.regions r).active ≡ none
    → ((push_back l kind seg).regions r).active ≡ none
push_back-quiet l kind seg r e = ground (arith, e)

module _ (d : Device) (Ready : ℕ → d.State → Type 0) (unit_size limit quota lowest : ℕ)
    (fly : ℕ → Bool) where
  -- An operation on the lists, from a state with a segment in flight to one without it.
  pub Kept-Steps :
      (s : FairyWren d) (l : Log)
      → Stored d Ready unit_size limit quota s
      → Inv fly l
      → Steps fly s.log l
      → Quiet lowest s.log l
      → Kept d Ready unit_size limit quota lowest fly s (record s { log = l })
  Kept-Steps s l st w a q =
      let p = Passes-Steps d fly s l a in
      record {
        inv = w;
        stored =
            Stored-Passes d Ready unit_size limit quota fly s (record s { log = l }) st p st.ready;
        passes = p;
        quiet = q;
      }

  pub Kept-trans :
      (s t u : FairyWren d)
      → Passes d fly s t
      → Quiet lowest s.log t.log
      → Kept d Ready unit_size limit quota lowest fly t u
      → Kept d Ready unit_size limit quota lowest fly s u
  Kept-trans s t u a q k = record {
    inv = k.inv;
    stored = k.stored;
    passes = Passes-trans d fly s t u a k.passes;
    quiet = λ r x e. k.quiet r x (q r x e);
  }

  module _ (a : Accepts d Ready unit_size limit quota) (ensure : Ensure d) (s : FairyWren d)
      (kind : RegionKind) (victim : ℕ) (grounded : fly victim ≡ false)
      (w : Inv (update fly victim true) s.log) (st : Stored d Ready unit_size limit quota s)
      (home : s.log.segment_region victim ≡ some kind) where
    abbrev up : ℕ → Bool
    up = update fly victim true

    in_flight : up victim ≡ true
    in_flight = ground arith

    landed : update up victim false ≡ fly
    landed = landed-fly fly victim grounded

    released-Kept :
        (t : FairyWren d)
        → Inv up t.log
        → Stored d Ready unit_size limit quota t
        → Passes d (update up victim false) s t
        → Quiet lowest s.log t.log
        → (t.log.segments victim).valid_cnt ≡ 0
        → (l : Log) × (release_segment_to_free t.log kind victim ≡ ok l)
          × Kept d Ready unit_size limit quota lowest fly s (record t { log = l })
    released-Kept t x y p still e =
        let (l, q, v, a', z) = release-Inv up t.log x kind victim in_flight e in
        let v' = subst (λ (h : ℕ → Bool). Inv h l) landed v in
        let a'' = subst (λ (h : ℕ → Bool). Steps h t.log l) landed a' in
        let p' = subst (λ (h : ℕ → Bool). Passes d h s t) landed p in
        (
          l,
          q,
          Kept-trans s t (record t { log = l }) p' still (Kept-Steps t l y v' a'' (λ r i. z r)),
        )

    returned-Kept :
        (t : FairyWren d)
        → Inv up t.log
        → Stored d Ready unit_size limit quota t
        → Passes d (update up victim false) s t
        → Quiet lowest s.log t.log
        → t.log.segment_region victim ≡ some kind
        → Kept d Ready unit_size limit quota lowest fly s
            (record t { log = push_front t.log kind victim })
    unfolding count
    returned-Kept t x y p still stays =
        let l = push_front t.log kind victim in
        let v =
          return-Inv up t.log x victim kind l.regions in_flight (λ r s. ground arith)
            (λ r s e. ground (arith, x.placed.freed r s)) stays in
        Kept-trans s t (record t { log = l }) (subst (λ (h : ℕ → Bool). Passes d h s t) landed p)
          still
          (Kept-Steps t l y (subst (λ (h : ℕ → Bool). Inv h l) landed v)
            (record {
              same_size = refl;
              same_total = refl;
              same_mapping = refl;
              same_mapping_size = refl;
              still = λ j f. refl;
              home = λ j f. refl;
            })
            (λ r i e. ground (arith, e)))

    -- The victim goes to the queue of another region.
    transferred-Kept :
        (dest : RegionKind) (t : FairyWren d)
        → Inv up t.log
        → Stored d Ready unit_size limit quota t
        → Passes d fly s t
        → Quiet lowest s.log t.log
        → (l : Log) × (move_segment_region t.log victim dest ≡ ok l)
          × Kept d Ready unit_size limit quota lowest fly s
              (record t { log = push_back l dest victim })
    unfolding count
    transferred-Kept dest t x y p still =
        let n = push_back t.log dest victim in
        let (l, q, v, a', r) =
          transfer-Inv up t.log x victim dest n.regions in_flight
            (λ r s. ground (arith, count-append s (region t.log dest).fifo_segments (victim ∷ [])))
            (λ r s e. ground (arith, x.placed.freed r s)) in
        let after : (ℕ → RegionState) → ℕ → RegionState = λ g.
          update g (region_index dest) (record (g (region_index dest)) {
            fifo_segments = (g (region_index dest)).fifo_segments ++ (victim ∷ []);
          }) in
        let next : (ℕ → RegionState) → Log = λ g. record l { regions = after g } in
        let v' = subst (λ (g : ℕ → RegionState). Inv (update up victim false) (next g)) (sym r) v in
        let b =
          subst (λ (g : ℕ → RegionState). Steps (update up victim false) t.log (next g)) (sym r)
            a' in
        (
          l,
          q,
          Kept-trans s t (record t { log = push_back l dest victim }) p still
              (Kept-Steps t (push_back l dest victim) y
                (subst (λ (h : ℕ → Bool). Inv h (push_back l dest victim)) landed v')
                (subst (λ (h : ℕ → Bool). Steps h t.log (push_back l dest victim)) landed b)
                (λ i x e.
                  push_back-quiet l dest victim i
                    (ap (λ (g : ℕ → RegionState). (g i).active) r ∙ e))),
        )

    -- The copy opens no segment in a region before the lowest one.
    abbrev pub CopiesQuietly : RegionKind → Type 0
    CopiesQuietly dest =
        (t : FairyWren d) (done : Bool)
        → copy_valid_blocks d ensure s victim dest ≡ ok (t, done)
        → Quiet (region_index dest) s.log t.log
        → Quiet lowest s.log t.log

    compact-Kept :
        (dest : RegionKind)
        → CopiesQuietly dest
        → Finds d Ready unit_size limit quota ensure dest
            (not (region_index dest == region_index kind))
        → (t : FairyWren d) × (done : Bool) × (compact d ensure s kind dest victim ≡ ok (t, done))
          × Kept d Ready unit_size limit quota lowest fly s t
    unfolding compact
    compact-Kept dest quietly finds =
        let (t, done, e, c) =
          copy_valid_blocks-Emptied d Ready unit_size limit quota ensure up victim kind dest finds
            in_flight s w st home in
        from_copy t done e c
      where
        from_copy :
            (t : FairyWren d) (done : Bool)
            → copy_valid_blocks d ensure s victim dest ≡ ok (t, done)
            → Emptied d Ready unit_size limit quota ensure up victim kind dest finds in_flight s t
                done
            → (u : FairyWren d) × (b : Bool) × (compact d ensure s kind dest victim ≡ ok (u, b))
              × Kept d Ready unit_size limit quota lowest fly s u
        from_copy t true e c =
            let (l, q, k) =
              released-Kept t c.inv c.stored c.passes (quietly t true e c.quiet)
                (c.none_valid refl) in
            (record t { log = l }, true, rw e (rw q refl), k)
        from_copy t false e c = (
          record t { log = push_front t.log kind victim },
          false,
          rw e refl,
          returned-Kept t c.inv c.stored c.passes (quietly t false e c.quiet) c.stays,
        )

  -- What a victim becomes in the state after it took off.
  module _ (a : Accepts d Ready unit_size limit quota) (ensure : Ensure d) (s : FairyWren d)
      (kind : RegionKind) (victim : ℕ) (grounded : fly victim ≡ false)
      (w : Inv (update fly victim true) s.log) (st : Stored d Ready unit_size limit quota s)
      (home : s.log.segment_region victim ≡ some kind) where
    abbrev Reclaims : Result (FairyWren d × Bool) → Type 0
    Reclaims r =
        (t : FairyWren d) × (done : Bool) × (r ≡ ok (t, done))
        × Kept d Ready unit_size limit quota lowest fly s t

    fewer : (l : Log) → Steps (update fly victim true) s.log l → Steps fly s.log l
    fewer l b = Steps-fewer (update fly victim true) fly s.log l (λ j f. ground (arith, f)) b

    exchange-Kept :
        (dest : RegionKind)
        → lowest ≤ region_index dest
        → Finds d Ready unit_size limit quota ensure dest
            (not (region_index dest == region_index kind))
        → Reclaims (exchange d ensure s kind dest victim)
    unfolding exchange
    exchange-Kept dest low finds =
        let (l, stolen, e, v, b, z) =
          steal_free_segment-Inv (update fly victim true) s.log w dest kind in
        from_steal l stolen e v b z
      where
        from_steal :
            (l : Log) (stolen : Bool)
            → steal_free_segment s.log dest kind ≡ ok (l, stolen)
            → Inv (update fly victim true) l
            → Steps (update fly victim true) s.log l
            → Vacates s.log l
            → Reclaims (exchange d ensure s kind dest victim)
        from_steal l true e v b z =
            let s' : FairyWren d = record s { log = l } in
            let p = Passes-Steps d fly s l (fewer l b) in
            let (m, q, k) =
              transferred-Kept a ensure s kind victim grounded w st home dest s' v
                (Stored-Passes d Ready unit_size limit quota fly s s' st p st.ready) p
                (λ r i. z r) in
            (record s { log = push_back m dest victim }, true, rw e (rw q refl), k)
        from_steal l false e v b z =
            let s' : FairyWren d = record s { log = l } in
            let p = Passes-Steps d fly s l (fewer l b) in
            let (t, done, q, k) =
              compact-Kept a ensure s' kind victim grounded v
                (Stored-Passes d Ready unit_size limit quota fly s s' st p st.ready)
                (b.home victim (ground arith) ∙ home) dest (λ t done x y r i. y r (omega arith))
                finds in
            (t, done, rw e q, Kept-trans s s' t p (λ r i. z r) k)

    freed-Reclaims :
        (s.log.segments victim).valid_cnt ≡ 0
        → Reclaims
            (release_segment_to_free s.log kind victim >>= λ l. ok (record s { log = l }, true))
    freed-Reclaims e =
        let (l, q, k) =
          released-Kept a ensure s kind victim grounded w st home s w st
            (Passes-refl d (update (update fly victim true) victim false) s) (λ r i x. x) e in
        (record s { log = l }, true, rw q refl, k)

    -- A victim of the first two regions.
    pub reclaim_victim-Kept :
        (dest : RegionKind)
        → lowest ≤ region_index dest
        → Finds d Ready unit_size limit quota ensure dest
            (not (region_index dest == region_index kind))
        → Reclaims (reclaim_victim d ensure s kind dest victim)
    unfolding reclaim_victim
    reclaim_victim-Kept dest low finds =
        elim (Bool-cases ((s.log.segments victim).valid_cnt == 0)) [
          | inl dead ↦ let (t, b, e, k) = freed-Reclaims (ground arith) in (t, b, rw dead e, k)
          | inr alive ↦
              elim (Bool-cases ((s.log.segments victim).valid_cnt == s.log.segment_size_blocks)) [
                | inl filled ↦
                    let (t, b, e, k) = exchange-Kept dest low finds in
                    (t, b, rw alive (rw filled e), k)
                | inr holes ↦
                    let (t, b, e, k) =
                      compact-Kept a ensure s kind victim grounded w st home dest
                        (λ t done x y r i. y r (omega arith)) finds in
                    (t, b, rw alive (rw holes e), k)
              ]
        ]

  -- A victim of the last region: its blocks are evicted if all of them are valid.
  module _ (a : Accepts d Ready unit_size limit quota) (ensure : Ensure d) (s : FairyWren d)
      (victim : ℕ) (grounded : fly victim ≡ false) (w : Inv (update fly victim true) s.log)
      (st : Stored d Ready unit_size limit quota s)
      (home : s.log.segment_region victim ≡ some cold) where
    dropped-Reclaims :
        (t : FairyWren d) × (done : Bool) × ((drop_segment d s victim >>= λ t.
        release_segment_to_free t.log cold victim >>= λ l.
        let r : FairyWren d × Bool = (record t { log = l }, true) in ok r)
          ≡ ok (t, done))
        × Kept d Ready unit_size limit quota lowest fly s t
    dropped-Reclaims =
        let up : ℕ → Bool = update fly victim true in
        let (t, e, v, st', p, z, _, same) =
          drop_segment-Passes d Ready unit_size limit quota a up victim s cold w st (ground arith)
            home in
        let (l, q, k) =
          released-Kept a ensure s cold victim grounded w st home t v st' p
            (λ r i x. ap (λ (g : ℕ → RegionState). (g r).active) same ∙ x) z in
        (record t { log = l }, true, rw e (rw q refl), k)

    pub reclaim_cold_victim-Kept :
        CopiesQuietly a ensure s cold victim grounded w st home cold
        → Finds d Ready unit_size limit quota ensure cold false
        → (t : FairyWren d) × (done : Bool) × (reclaim_cold_victim d ensure s victim ≡ ok (t, done))
          × Kept d Ready unit_size limit quota lowest fly s t
    unfolding reclaim_cold_victim
    reclaim_cold_victim-Kept quietly finds =
        elim (Bool-cases ((s.log.segments victim).valid_cnt == 0)) [
          | inl dead ↦
              let (t, b, e, k) =
                freed-Reclaims a ensure s cold victim grounded w st home (ground arith) in
              (t, b, rw dead e, k)
          | inr alive ↦
              elim (Bool-cases ((s.log.segments victim).valid_cnt == s.log.segment_size_blocks)) [
                | inl filled ↦
                    let (t, b, e, k) = dropped-Reclaims in (t, b, rw alive (rw filled e), k)
                | inr holes ↦
                    let (t, b, e, k) =
                      compact-Kept a ensure s cold victim grounded w st home cold quietly finds in
                    (t, b, rw alive (rw holes e), k)
              ]
        ]
