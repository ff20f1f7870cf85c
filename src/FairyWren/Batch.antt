-- ===== src/FairyWren/Batch.antt =====
-- `batch_insert` of `FairyWrenCache`: a request, whose blocks are appended one after the other, each
-- followed by collections.
use ssd_waf.Base.{
  ℕ, suc, ◌+◌, ◌≤◌, ◌≡◌, ◌∙◌, sym, ap, subst, refl, inl, inr, ◌⊎◌, true, false, List, [], ◌∷◌, ◌++◌,
  map, length, contains, ◌==◌, arith, ok, thrown,
}
use ssd_waf.Device.{Device, Accepts}
use ssd_waf.FairyWren.Log.{fwlog, region}
use ssd_waf.FairyWren.Cache.{FairyWren}
use ssd_waf.FairyWren.Host.{insert_blocks, batch_insert}
use ssd_waf.FairyWren.Safe.{Passes}
use ssd_waf.FairyWren.Invalidate.{no_flight, is_mapped, IsCache, Fits}
use ssd_waf.FairyWren.Append.{Written, append_host_block-Written}
use ssd_waf.FairyWren.Collections.{maybe_run_gc-Passes}

-- The bytes of the blocks of a request.
unfoldable pub total_bytes : List (ℕ × ℕ) → ℕ
total_bytes [] = 0
total_bytes ((key, lba_sz) ∷ bs) = lba_sz + total_bytes bs

unfoldable pub AllFit :
    (d : Device) (Ready : ℕ → d.State → Type 0) (unit_size limit quota block_size : ℕ)
    → List (ℕ × ℕ)
    → Type 0
AllFit d Ready unit_size limit quota block_size [] = Unit {0}
AllFit d Ready unit_size limit quota block_size (b ∷ bs) =
    Fits d Ready unit_size limit quota block_size b
    × AllFit d Ready unit_size limit quota block_size bs

module _ (d : Device) (Ready : ℕ → d.State → Type 0) (unit_size limit quota : ℕ) where
  -- The state after a request: its blocks are counted, and no other block has entered the cache.
  pub record Served (s t : FairyWren d) (bs : List (ℕ × ℕ)) : Type 0 where
    pub cache : IsCache d Ready unit_size limit quota t
    pub same_bytes : t.cache_block_size ≡ s.cache_block_size
    pub time : t.log_cache_timestamp ≡ s.log_cache_timestamp + length bs
    pub written : t.write_size_to_cache ≡ s.write_size_to_cache + total_bytes bs
    pub no_loss :
        t.evicted_blocks + t.log.mapping_size ≤ s.evicted_blocks + s.log.mapping_size + length bs
    pub no_gain : s.evicted_blocks + s.log.mapping_size ≤ t.evicted_blocks + t.log.mapping_size
    pub others :
        (k : ℕ)
        → contains k (map (λ b. b.0) bs) ≡ false
        → is_mapped t.log k ≡ true
        → is_mapped s.log k ≡ true

  module _ (a : Accepts d Ready unit_size limit quota) (ceil_ratio : ℕ → ℕ → ℕ) (fuel : ℕ) where
    abbrev depth : ℕ
    depth = suc (suc (suc (suc fuel)))

    Served-none : (s : FairyWren d) → IsCache d Ready unit_size limit quota s → Served s s []
    unfolding total_bytes
    Served-none s w = record {
      cache = w;
      same_bytes = refl;
      time = omega arith;
      written = omega arith;
      no_loss = omega arith;
      no_gain = omega arith;
      others = λ k h m. m;
    }

    Served-step :
        (s t u v : FairyWren d) (key lba_sz : ℕ) (bs : List (ℕ × ℕ))
        → Written d Ready unit_size limit quota s t key lba_sz
        → Passes d no_flight t u
        → Served u v bs
        → Served s v ((key, lba_sz) ∷ bs)
    unfolding total_bytes contains
    Served-step s t u v key lba_sz bs x p y = record {
      cache = y.cache;
      same_bytes = y.same_bytes ∙ (p.same_bytes ∙ x.same_bytes);
      time = ground (arith, y.time, p.same_time, x.time);
      written = ground (arith, y.written, p.same_written, x.written);
      no_loss = ground (arith, y.no_loss, p.conserved, x.no_loss);
      no_gain = ground (arith, y.no_gain, p.conserved, x.no_gain);
      others = λ k h m.
          let ne : (key == k) ≡ false = ground (arith, h) in
          let later : contains k (map (λ b. b.0) bs) ≡ false = ground (arith, h) in
          x.others k ne (p.shrinks k (y.others k later m));
    }

    -- The request throws at one of its blocks, when the first region has no free segment: those
    -- before it have been served.
    pub record Refused (s : FairyWren d) (bs : List (ℕ × ℕ)) : Type 0 where
      pub before : List (ℕ × ℕ)
      pub after : List (ℕ × ℕ)
      pub last : FairyWren d
      pub split : bs ≡ before ++ after
      pub served : insert_blocks d ceil_ratio depth s before ≡ ok last
      pub good : Served s last before
      pub no_segment : (region last.log fwlog).free_segments ≡ []

    insert_blocks-Served :
        (s : FairyWren d) (bs : List (ℕ × ℕ))
        → IsCache d Ready unit_size limit quota s
        → AllFit d Ready unit_size limit quota s.cache_block_size bs
        → s.evicted_blocks + s.log.mapping_size + length bs ≤ quota
        → ((insert_blocks d ceil_ratio depth s bs ≡ thrown) × Refused s bs)
          ⊎ ((t : FairyWren d) × (insert_blocks d ceil_ratio depth s bs ≡ ok t) × Served s t bs)
    unfolding insert_blocks AllFit total_bytes contains
    insert_blocks-Served s [] w fit left = inr (s, refl, Served-none s w)
    insert_blocks-Served s ((key, lba_sz) ∷ bs) w (fits, fit) left =
        elim (append_host_block-Written d Ready unit_size limit quota a fuel s key lba_sz w fits
          (omega (arith, left))) [
            | inl (e, empty) ↦ inl (
              rw e refl,
              record {
                before = [];
                after = (key, lba_sz) ∷ bs;
                last = s;
                split = refl;
                served = refl;
                good = Served-none s w;
                no_segment = empty;
              },
            )
            | inr (t, e, x) ↦
                let (u, q, y, p) =
                  maybe_run_gc-Passes d Ready unit_size limit quota a ceil_ratio (suc fuel) t
                    x.cache in
                let fit' =
                  subst (λ (n : ℕ). AllFit d Ready unit_size limit quota n bs)
                    (sym (p.same_bytes ∙ x.same_bytes)) fit in
                elim (insert_blocks-Served u bs y fit'
                  (omega (arith, left, x.no_loss, p.conserved))) [
                    | inl (r, y') ↦ inl (
                      rw e (rw q r),
                      record {
                        before = (key, lba_sz) ∷ y'.before;
                        after = y'.after;
                        last = y'.last;
                        split = ap (λ (l : List (ℕ × ℕ)). (key, lba_sz) ∷ l) y'.split;
                        served = rw e (rw q y'.served);
                        good = Served-step s t u y'.last key lba_sz y'.before x p y'.good;
                        no_segment = y'.no_segment;
                      },
                    )
                    | inr (v, r, z) ↦
                        inr (v, rw e (rw q r), Served-step s t u v key lba_sz bs x p z)
                  ]
          ]

    pub batch_insert-Served :
        (s : FairyWren d) (bs : List (ℕ × ℕ))
        → IsCache d Ready unit_size limit quota s
        → AllFit d Ready unit_size limit quota s.cache_block_size bs
        → s.evicted_blocks + s.log.mapping_size + length bs ≤ quota
        → ((batch_insert d ceil_ratio depth false s bs ≡ thrown) × Refused s bs)
          ⊎ ((t : FairyWren d) × (batch_insert d ceil_ratio depth false s bs ≡ ok t)
              × Served s t bs)
    unfolding batch_insert
    batch_insert-Served = insert_blocks-Served
