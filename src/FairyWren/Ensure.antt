-- ===== src/FairyWren/Ensure.antt =====
-- The search for an active segment in `FairyWrenCache` with the collections that it starts: it ends
-- after at most four calls inside one another, and keeps the state well formed.
use ssd_waf.Base.{ℕ, ◌≤◌, ◌≡◌, refl, Bool, true, false, not, Option, none, some, ◌==◌, Result, ok}
use ssd_waf.Device.{Device, Accepts}
use ssd_waf.FairyWren.Log.{RegionKind, cold, region_index, Log, pop_victim}
use ssd_waf.FairyWren.Invariant.{Inv, Steps, Vacates}
use ssd_waf.FairyWren.Victims.{aloft, TookOff, pop_victim-Inv}
use ssd_waf.FairyWren.Cache.{FairyWren}
use ssd_waf.FairyWren.Collect.{Ensure, reclaim_into, reclaim_from_cold, or_else}
use ssd_waf.FairyWren.Safe.{Stored, Passes-Steps, Stored-Passes}
use ssd_waf.FairyWren.Copy.{Kept, Finds}
use ssd_waf.FairyWren.Reclaim.{
  Kept-Steps, Kept-trans, reclaim_victim-Kept, reclaim_cold_victim-Kept,
}

module _ (d : Device) (Ready : ℕ → d.State → Type 0) (unit_size limit quota : ℕ)
    (a : Accepts d Ready unit_size limit quota) where
  -- An operation that reclaims always ends, keeps the state well formed, and opens a segment in
  -- no region before the lowest one.
  pub record Reclaims (lowest : ℕ) (reclaim : FairyWren d → Result (FairyWren d × Bool))
      : Type 0 where
    pub run :
        (fly : ℕ → Bool) (s : FairyWren d)
        → Inv fly s.log
        → Stored d Ready unit_size limit quota s
        → (t : FairyWren d) × (done : Bool) × (reclaim s ≡ ok (t, done))
          × Kept d Ready unit_size limit quota lowest fly s t

  pub or_else-Reclaims :
      (lowest : ℕ) (f g : FairyWren d → Result (FairyWren d × Bool))
      → Reclaims lowest f
      → Reclaims lowest g
      → Reclaims lowest (λ s. or_else d (f s) g)
  or_else-Reclaims lowest f g x y = record {
    run = λ fly s w st. let (t, done, e, k) = x.run fly s w st in second fly s t done e k;
  }
    where
      second :
          (fly : ℕ → Bool) (s t : FairyWren d) (done : Bool)
          → f s ≡ ok (t, done)
          → Kept d Ready unit_size limit quota lowest fly s t
          → (u : FairyWren d) × (b : Bool) × (or_else d (f s) g ≡ ok (u, b))
            × Kept d Ready unit_size limit quota lowest fly s u
      second fly s t true e k = (t, true, rw e refl, k)
      second fly s t false e k =
          let (u, b, q, k') = y.run fly t k.inv k.stored in
          (
            u,
            b,
            rw e q,
            Kept-trans d Ready unit_size limit quota lowest fly s t u k.passes k.quiet k',
          )

  module _ (ensure : Ensure d) where
    -- The first two regions.
    pub reclaim_into-Reclaims :
        (lowest : ℕ) (kind dest : RegionKind)
        → lowest ≤ region_index dest
        → Finds d Ready unit_size limit quota ensure dest
            (not (region_index dest == region_index kind))
        → Reclaims lowest (λ s. reclaim_into d ensure s kind dest)
    unfolding reclaim_into
    reclaim_into-Reclaims lowest kind dest low finds = record {
      run = λ fly s w st.
          let (l, o, e, v, b, took, z) = pop_victim-Inv fly s.log w kind in
          from_victim fly s st l o e v b took z;
    }
      where
        from_victim :
            (fly : ℕ → Bool) (s : FairyWren d)
            → Stored d Ready unit_size limit quota s
            → (l : Log) (o : Option ℕ) → pop_victim s.log kind ≡ ok (l, o)
            → Inv (aloft fly o) l
            → Steps fly s.log l
            → TookOff fly l kind o
            → Vacates s.log l
            → (t : FairyWren d) × (done : Bool) × (reclaim_into d ensure s kind dest ≡ ok (t, done))
              × Kept d Ready unit_size limit quota lowest fly s t
        from_victim fly s st l none e v b took z = (
          record s { log = l },
          false,
          rw e refl,
          Kept-Steps d Ready unit_size limit quota lowest fly s l st v b (λ r i. z r),
        )
        from_victim fly s st l (some victim) e v b took z =
            let s' : FairyWren d = record s { log = l } in
            let p = Passes-Steps d fly s l b in
            let (t, done, q, k) =
              reclaim_victim-Kept d Ready unit_size limit quota lowest fly a ensure s' kind victim
                took.0 v (Stored-Passes d Ready unit_size limit quota fly s s' st p st.ready) took.1
                dest low finds in
            (
              t,
              done,
              rw e q,
              Kept-trans d Ready unit_size limit quota lowest fly s s' t p (λ r i. z r) k,
            )

    pub reclaim_from_cold-Reclaims :
        Finds d Ready unit_size limit quota ensure cold false
        → Reclaims 2 (reclaim_from_cold d ensure)
    unfolding reclaim_from_cold
    reclaim_from_cold-Reclaims finds = record {
      run = λ fly s w st.
          let (l, o, e, v, b, took, z) = pop_victim-Inv fly s.log w cold in
          from_victim fly s st l o e v b took z;
    }
      where
        from_victim :
            (fly : ℕ → Bool) (s : FairyWren d)
            → Stored d Ready unit_size limit quota s
            → (l : Log) (o : Option ℕ) → pop_victim s.log cold ≡ ok (l, o)
            → Inv (aloft fly o) l
            → Steps fly s.log l
            → TookOff fly l cold o
            → Vacates s.log l
            → (t : FairyWren d) × (done : Bool) × (reclaim_from_cold d ensure s ≡ ok (t, done))
              × Kept d Ready unit_size limit quota 2 fly s t
        from_victim fly s st l none e v b took z = (
          record s { log = l },
          false,
          rw e refl,
          Kept-Steps d Ready unit_size limit quota 2 fly s l st v b (λ r i. z r),
        )
        from_victim fly s st l (some victim) e v b took z =
            let s' : FairyWren d = record s { log = l } in
            let p = Passes-Steps d fly s l b in
            let (t, done, q, k) =
              reclaim_cold_victim-Kept d Ready unit_size limit quota 2 fly a ensure s' victim took.0
                v (Stored-Passes d Ready unit_size limit quota fly s s' st p st.ready) took.1
                (λ t done x y. y) finds in
            (
              t,
              done,
              rw e q,
              Kept-trans d Ready unit_size limit quota 2 fly s s' t p (λ r i. z r) k,
            )
