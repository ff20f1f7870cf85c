-- ===== src/FairyWren/Safe.antt =====
-- The well-formedness of the whole state of `FairyWrenCache` over a device that accepts requests
-- (Safe), and what a collection leaves alone (Passes).
use ssd_waf.Base.{
  ℕ, ◌+◌, ◌*◌, ◌%◌, ◌≤◌, ◌<◌, ◌≡◌, ◌∙◌, sym, ap, subst, refl, Bool, true, Option, arith,
}
use ssd_waf.Device.{Device}
use ssd_waf.FairyWren.Log.{Loc, Log}
use ssd_waf.FairyWren.Places.{is_some}
use ssd_waf.FairyWren.Invariant.{Steps}
use ssd_waf.FairyWren.Cache.{FairyWren}

-- The cold store is ready, and has a place for each block of the cache, and writes left for all.
pub record Stored (d : Device) (Ready : ℕ → d.State → Type 0) (unit_size limit quota : ℕ)
    (s : FairyWren d) : Type 0 where
  pub ready : Ready s.evicted_blocks s.ftl
  pub within : s.evicted_blocks + s.log.mapping_size ≤ quota
  pub some_bytes : 0 < s.cache_block_size
  pub whole : s.cache_block_size % unit_size ≡ 0
  pub fits :
      (key : ℕ)
      → is_some (s.log.mapping key) ≡ true
      → key * s.cache_block_size + s.cache_block_size ≤ limit

-- No block enters the cache, and those that leave it are counted as evicted.
pub record Passes (d : Device) (fly : ℕ → Bool) (s t : FairyWren d) : Type 0 where
  pub same_bytes : t.cache_block_size ≡ s.cache_block_size
  pub same_time : t.log_cache_timestamp ≡ s.log_cache_timestamp
  pub same_written : t.write_size_to_cache ≡ s.write_size_to_cache
  pub same_size : t.log.segment_size_blocks ≡ s.log.segment_size_blocks
  pub same_total : t.log.total_segments ≡ s.log.total_segments
  pub still : (j : ℕ) → fly j ≡ true → t.log.segments j ≡ s.log.segments j
  pub home : (j : ℕ) → fly j ≡ true → t.log.segment_region j ≡ s.log.segment_region j
  pub shrinks : (key : ℕ) → is_some (t.log.mapping key) ≡ true → is_some (s.log.mapping key) ≡ true
  pub conserved : t.evicted_blocks + t.log.mapping_size ≡ s.evicted_blocks + s.log.mapping_size

module _ (d : Device) (fly : ℕ → Bool) where
  pub Passes-refl : (s : FairyWren d) → Passes d fly s s
  Passes-refl s = record {
    same_bytes = refl;
    same_time = refl;
    same_written = refl;
    same_size = refl;
    same_total = refl;
    still = λ j f. refl;
    home = λ j f. refl;
    shrinks = λ key h. h;
    conserved = refl;
  }

  pub Passes-trans : (s t u : FairyWren d) → Passes d fly s t → Passes d fly t u → Passes d fly s u
  Passes-trans s t u a b = record {
    same_bytes = b.same_bytes ∙ a.same_bytes;
    same_time = b.same_time ∙ a.same_time;
    same_written = b.same_written ∙ a.same_written;
    same_size = b.same_size ∙ a.same_size;
    same_total = b.same_total ∙ a.same_total;
    still = λ j f. b.still j f ∙ a.still j f;
    home = λ j f. b.home j f ∙ a.home j f;
    shrinks = λ key h. a.shrinks key (b.shrinks key h);
    conserved = b.conserved ∙ a.conserved;
  }

  -- An operation on the lists.
  pub Passes-Steps :
      (s : FairyWren d) (l : Log) → Steps fly s.log l → Passes d fly s (record s { log = l })
  Passes-Steps s l a = record {
    same_bytes = refl;
    same_time = refl;
    same_written = refl;
    same_size = a.same_size;
    same_total = a.same_total;
    still = a.still;
    home = a.home;
    shrinks = λ key h. ap (λ (m : ℕ → Option Loc). is_some (m key)) (sym a.same_mapping) ∙ h;
    conserved = ap (λ (n : ℕ). s.evicted_blocks + n) a.same_mapping_size;
  }

  pub Passes-fewer :
      (few : ℕ → Bool) (s t : FairyWren d)
      → ((j : ℕ) → few j ≡ true → fly j ≡ true)
      → Passes d fly s t
      → Passes d few s t
  Passes-fewer few s t h a = record {
    same_bytes = a.same_bytes;
    same_time = a.same_time;
    same_written = a.same_written;
    same_size = a.same_size;
    same_total = a.same_total;
    still = λ j f. a.still j (h j f);
    home = λ j f. a.home j (h j f);
    shrinks = a.shrinks;
    conserved = a.conserved;
  }

module _ (d : Device) (Ready : ℕ → d.State → Type 0) (unit_size limit quota : ℕ) where
  -- The store has a place for the blocks that are left.
  pub Stored-Passes :
      (fly : ℕ → Bool) (s t : FairyWren d)
      → Stored d Ready unit_size limit quota s
      → Passes d fly s t
      → Ready t.evicted_blocks t.ftl
      → Stored d Ready unit_size limit quota t
  Stored-Passes fly s t w a r = record {
    ready = r;
    within = omega (arith, w.within, a.conserved);
    some_bytes = omega (arith, w.some_bytes, a.same_bytes);
    whole = ap (λ (n : ℕ). n % unit_size) a.same_bytes ∙ w.whole;
    fits = λ key h.
        subst (λ (n : ℕ). key * n + n ≤ limit) (sym a.same_bytes) (w.fits key (a.shrinks key h));
  }
