-- ===== src/FairyWren/Append.antt =====
-- `append_host_block` of `FairyWrenCache`: the host's block is written to the first region's active
-- segment.
use ssd_waf.Base.{
  ℕ, suc, ◌+◌, ◌*◌, ◌<◌, ◌≤◌, ◌≡◌, ◌∙◌, sym, ap, subst, refl, inl, inr, ◌⊎◌, true, false, Option,
  none, some, [], ◌==◌, update, arith, Bool-cases, ok, thrown,
}
use ssd_waf.Device.{Device, Accepts}
use ssd_waf.FairyWren.Log.{fwlog, RegionState, Loc, Log, region}
use ssd_waf.FairyWren.Index.{at}
use ssd_waf.FairyWren.Places.{is_some}
use ssd_waf.FairyWren.Invariant.{Inv}
use ssd_waf.FairyWren.Cache.{FairyWren, append_block, invalidate}
use ssd_waf.FairyWren.Collect.{ensure_active_segment}
use ssd_waf.FairyWren.Host.{append_host_block}
use ssd_waf.FairyWren.Relocation.{append_block-ok}
use ssd_waf.FairyWren.Copy.{Kept, HasRoom}
use ssd_waf.FairyWren.Refusal.{ensure-empty}
use ssd_waf.FairyWren.Find.{fwlog-Finds}
use ssd_waf.FairyWren.Invalidate.{
  no_flight, is_mapped, IsCache, Fits, Invalidated, invalidate-Invalidated,
}

module _ (d : Device) (Ready : ℕ → d.State → Type 0) (unit_size limit quota : ℕ) where
  -- The block of the key is in the cache, and the counts have grown by it.
  pub record Written (s t : FairyWren d) (key lba_sz : ℕ) : Type 0 where
    pub cache : IsCache d Ready unit_size limit quota t
    pub mapped : is_mapped t.log key ≡ true
    pub same_bytes : t.cache_block_size ≡ s.cache_block_size
    pub time : t.log_cache_timestamp ≡ s.log_cache_timestamp + 1
    pub written : t.write_size_to_cache ≡ s.write_size_to_cache + lba_sz
    pub no_loss : t.evicted_blocks + t.log.mapping_size ≤ s.evicted_blocks + s.log.mapping_size + 1
    pub no_gain : s.evicted_blocks + s.log.mapping_size ≤ t.evicted_blocks + t.log.mapping_size
    pub others : (k : ℕ) → (key == k) ≡ false → is_mapped t.log k ≡ true → is_mapped s.log k ≡ true

  module _ (a : Accepts d Ready unit_size limit quota) where
    module _ (s t : FairyWren d) (key lba_sz : ℕ)
        (k : Kept d Ready unit_size limit quota 0 no_flight s t) (seg : ℕ)
        (found : HasRoom t.log fwlog (some seg))
        (fits : Fits d Ready unit_size limit quota s.cache_block_size (key, lba_sz))
        (left : s.evicted_blocks + s.log.mapping_size < quota) where
      module _ (u : FairyWren d) (x : Invalidated d Ready unit_size limit quota t u key) (m : Log)
          (v : Inv no_flight m)
          (index : m.mapping
            ≡ update u.log.mapping key (some (at seg (u.log.segments seg).write_ptr)))
          (larger : m.mapping_size ≡ u.log.mapping_size + 1) where
        abbrev final : FairyWren d
        final = record u {
          log = m;
          log_cache_timestamp = u.log_cache_timestamp + 1;
          write_size_to_cache = u.write_size_to_cache + lba_sz;
        }

        bytes : u.cache_block_size ≡ s.cache_block_size
        bytes = x.same_bytes ∙ k.passes.same_bytes

        entry :
            (j : ℕ)
            → m.mapping j
              ≡ update u.log.mapping key (some (at seg (u.log.segments seg).write_ptr)) j
        entry j = ap (λ (f : ℕ → Option Loc). f j) index

        old : (j : ℕ) → (key == j) ≡ false → m.mapping j ≡ t.log.mapping j
        old j ne = entry j ∙ rw ne (x.others j ne)

        places :
            (j : ℕ) → is_mapped m j ≡ true → j * u.cache_block_size + u.cache_block_size ≤ limit
        places j h = elim (Bool-cases (key == j)) [
          | inl same ↦
              let e : key ≡ j = ground (arith, same) in
              let b = fits.0 in
              subst (λ (i : ℕ). i * u.cache_block_size + u.cache_block_size ≤ limit) e
                (subst (λ (n : ℕ). key * n + n ≤ limit) (sym bytes) b)
          | inr other ↦
              let b = k.stored.fits j (sym (ap is_some (old j other)) ∙ h) in
              subst (λ (n : ℕ). j * n + n ≤ limit) (sym x.same_bytes) b
        ]

        final-Written : Written s final key lba_sz
        final-Written = record {
          cache = record {
            inv = v;
            stored = record {
              ready = x.cache.stored.ready;
              within = ground (arith, larger, x.smaller, x.same_evicted, k.passes.conserved, left);
              some_bytes = x.cache.stored.some_bytes;
              whole = x.cache.stored.whole;
              fits = places;
            };
          };
          mapped = ground (arith, entry key);
          same_bytes = bytes;
          time = ap (λ (n : ℕ). n + 1) (x.same_time ∙ k.passes.same_time);
          written = ap (λ (n : ℕ). n + lba_sz) (x.same_written ∙ k.passes.same_written);
          no_loss = ground (arith, larger, x.smaller, x.same_evicted, k.passes.conserved);
          no_gain = ground (arith, larger, x.smaller, x.same_evicted, k.passes.conserved);
          others = λ j ne h. k.passes.shrinks j (sym (ap is_some (old j ne)) ∙ h);
        }

      write-Written :
          (u : FairyWren d) × (invalidate d t key lba_sz ≡ ok u)
          × (m : Log) × (append_block u.log seg key u.log_cache_timestamp ≡ ok m)
          × Written s
              (record u {
                log = m;
                log_cache_timestamp = u.log_cache_timestamp + 1;
                write_size_to_cache = u.write_size_to_cache + lba_sz;
              })
              key
              lba_sz
      write-Written =
          let fits' =
            subst (λ (n : ℕ). Fits d Ready unit_size limit quota n (key, lba_sz))
              (sym k.passes.same_bytes) fits in
          let (u, e, x) =
            invalidate-Invalidated d Ready unit_size limit quota a t key lba_sz
              (record { inv = k.inv; stored = k.stored }) fits' in
          from_invalidated u e x
        where
          from_invalidated :
              (u : FairyWren d)
              → invalidate d t key lba_sz ≡ ok u
              → Invalidated d Ready unit_size limit quota t u key
              → (u : FairyWren d) × (invalidate d t key lba_sz ≡ ok u)
                × (m : Log) × (append_block u.log seg key u.log_cache_timestamp ≡ ok m)
                × Written s
                    (record u {
                      log = m;
                      log_cache_timestamp = u.log_cache_timestamp + 1;
                      write_size_to_cache = u.write_size_to_cache + lba_sz;
                    })
                    key
                    lba_sz
          from_invalidated u e x =
              let (m, e', v, index, larger, _, _) =
                append_block-ok no_flight u.log x.cache.inv seg fwlog key u.log_cache_timestamp
                  (ap (λ (f : ℕ → RegionState). (f 0).active) x.same_regions ∙ found.0)
                  (omega (arith, found.1, x.same_ptr seg, x.same_size)) x.absent in
              (u, e, m, e', final-Written u x m v index larger)

    -- Four calls inside one another are enough for the host's block to be written, unless the first
    -- region has no free segment and the collections bring none, when it throws.
    pub append_host_block-Written :
        (fuel : ℕ) (s : FairyWren d) (key lba_sz : ℕ)
        → IsCache d Ready unit_size limit quota s
        → Fits d Ready unit_size limit quota s.cache_block_size (key, lba_sz)
        → s.evicted_blocks + s.log.mapping_size < quota
        → ((append_host_block d (suc (suc (suc (suc fuel)))) s key lba_sz ≡ thrown)
            × ((region s.log fwlog).free_segments ≡ []))
          ⊎ ((t : FairyWren d) × (append_host_block d (suc (suc (suc (suc fuel)))) s key lba_sz
                ≡ ok t)
              × Written s t key lba_sz)
    unfolding append_host_block
    append_host_block-Written fuel s key lba_sz w fits left =
        let (t, o, e, k, found) =
          (fwlog-Finds d Ready unit_size limit quota a fuel).find no_flight s w.inv w.stored in
        from_segment t o e k found
      where
        from_segment :
            (t : FairyWren d) (o : Option ℕ)
            → ensure_active_segment d (suc (suc (suc (suc fuel)))) s fwlog true ≡ ok (t, o)
            → Kept d Ready unit_size limit quota 0 no_flight s t
            → HasRoom t.log fwlog o
            → ((append_host_block d (suc (suc (suc (suc fuel)))) s key lba_sz ≡ thrown)
                × ((region s.log fwlog).free_segments ≡ []))
              ⊎ ((u : FairyWren d) × (append_host_block d (suc (suc (suc (suc fuel)))) s key lba_sz
                    ≡ ok u)
                  × Written s u key lba_sz)
        from_segment t none e k found =
            inl (rw e refl, ensure-empty d (suc (suc (suc fuel))) s fwlog true t e)
        from_segment t (some seg) e k found =
            let (u, q, m, r, x) = write-Written s t key lba_sz k seg found fits left in
            inr (_, rw e (rw q (rw r refl)), x)
