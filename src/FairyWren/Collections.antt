-- ===== src/FairyWren/Collections.antt =====
-- `maybe_run_gc` of `FairyWrenCache`: the collections that follow a host's block.
use ssd_waf.Base.{
  ℕ, suc, ◌≡◌, refl, ap, Bool, false, arith, Result, ok, ◌>>=◌, inl, inr, Bool-cases,
}
use ssd_waf.Device.{Device, Accepts}
use ssd_waf.FairyWren.Log.{RegionKind, fwlog, hot, cold}
use ssd_waf.FairyWren.Cache.{FairyWren}
use ssd_waf.FairyWren.Collect.{ensure_active_segment}
use ssd_waf.FairyWren.Host.{needs_gc, reclaim_if, maybe_run_gc}
use ssd_waf.FairyWren.Safe.{Passes, Passes-refl}
use ssd_waf.FairyWren.Ensure.{
  Reclaims, or_else-Reclaims, reclaim_into-Reclaims, reclaim_from_cold-Reclaims,
}
use ssd_waf.FairyWren.Find.{plain-Finds, cold-Finds, hot-Finds, Reclaims-fewer}
use ssd_waf.FairyWren.Invalidate.{no_flight, IsCache}

module _ (d : Device) (Ready : ℕ → d.State → Type 0) (unit_size limit quota : ℕ)
    (a : Accepts d Ready unit_size limit quota) (ceil_ratio : ℕ → ℕ → ℕ) where
  -- An operation that runs only when the region is short of free segments.
  reclaim_if-Reclaims :
      (kind : RegionKind) (ratio : ℕ) (f : FairyWren d → Result (FairyWren d × Bool))
      → Reclaims d Ready unit_size limit quota a 0 f
      → Reclaims d Ready unit_size limit quota a 0 (reclaim_if d ceil_ratio kind ratio f)
  reclaim_if-Reclaims kind ratio f x = record {
    run = λ fly s w st. elim (Bool-cases (needs_gc d ceil_ratio s kind ratio)) [
      | inl short ↦ let (t, done, e, k) = x.run fly s w st in (t, done, rw short e, k)
      | inr plenty ↦ (
        s,
        false,
        rw plenty refl,
        record { inv = w; stored = st; passes = Passes-refl d fly s; quiet = λ r b v. v },
      )
    ];
  }

  -- On a well-formed cache, whose store accepts a number of writes that the evictions and the
  -- entries do not exceed, the collections after a host's block always end, with three calls inside
  -- one another at most, and keep the state well formed: no block enters the cache, and those that
  -- leave it are counted.
  pub maybe_run_gc-Passes :
      (fuel : ℕ) (s : FairyWren d)
      → IsCache d Ready unit_size limit quota s
      → (t : FairyWren d) × (maybe_run_gc d ceil_ratio (suc (suc (suc fuel))) s ≡ ok t)
        × IsCache d Ready unit_size limit quota t
        × Passes d no_flight s t
  unfolding maybe_run_gc
  maybe_run_gc-Passes fuel s w =
      let ensure = ensure_active_segment d (suc (suc (suc fuel))) in
      let from_hot =
        reclaim_into-Reclaims d Ready unit_size limit quota a ensure 0 hot cold (omega arith)
          (cold-Finds d Ready unit_size limit quota a (suc fuel)) in
      let from_cold = Reclaims-fewer d Ready unit_size limit quota a ensure 0 _ (omega arith) (
        reclaim_from_cold-Reclaims d Ready unit_size limit quota a ensure
          (plain-Finds d Ready unit_size limit quota a (suc (suc fuel)) cold)) in
      let from_fwlog =
        reclaim_into-Reclaims d Ready unit_size limit quota a ensure 0 fwlog hot (omega arith)
          (hot-Finds d Ready unit_size limit quota a fuel) in
      let all =
        or_else-Reclaims d Ready unit_size limit quota a 0 _ _
          (or_else-Reclaims d Ready unit_size limit quota a 0 _ _
            (or_else-Reclaims d Ready unit_size limit quota a 0 _ _
              (reclaim_if-Reclaims hot _ _ from_hot) (reclaim_if-Reclaims cold _ _ from_cold))
            (reclaim_if-Reclaims fwlog _ _ from_fwlog))
          (reclaim_if-Reclaims hot _ _ from_hot) in
      let (t, done, e, k) = all.run no_flight s w.inv w.stored in
      (
        t,
        ap (λ (m : Result (FairyWren d × Bool)). m >>= λ r. ok r.0) e,
        record { inv = k.inv; stored = k.stored },
        k.passes,
      )
