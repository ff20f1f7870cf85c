-- ===== src/FairyWren/Host.antt =====
-- What the host calls of `FairyWrenCache` (fairywren_cache.cpp). `ceil_ratio n p` stands for the
-- floating-point `ceil(n * p / 1000)`.
use ssd_waf.Base.{
  ℕ, ◌+◌, Bool, true, false, not, ◌&&◌, none, some, List, [], ◌∷◌, length, if◌then◌else◌, ◌==◌, leb,
  ltb, ◌%◌, ◌^◌, Result, ok, thrown, ◌>>=◌, max,
}
use ssd_waf.Device.{Device}
use ssd_waf.FairyWren.Log.{RegionKind, fwlog, hot, cold, region}
use ssd_waf.FairyWren.Cache.{
  FairyWren, ten_gb, hot_critical_ratio, hot_relax_ratio, cold_critical_ratio, fwlog_critical_ratio,
  append_block, invalidate,
}
use ssd_waf.FairyWren.Collect.{
  reclaim_from_fwlog, reclaim_from_hot, reclaim_from_cold, or_else, ensure_active_segment,
}

module _ (d : Device) where
  abbrev pub exists : FairyWren d → ℕ → Bool
  exists s key = elim (s.log.mapping key) [ none ↦ false | some _ ↦ true ]

  abbrev pub is_cache_filled : FairyWren d → Bool
  is_cache_filled s = elim (region s.log fwlog).free_segments [ [] ↦ true | _ ∷ _ ↦ false ]

  -- The file is open; the result tells whether a line is written to it.
  unfoldable pub print_stats : FairyWren d → FairyWren d × Bool
  print_stats s = if ltb s.write_size_to_cache s.next_stats_print_bytes then (s, false) else (
    record s { next_stats_print_bytes = (s.next_stats_print_bytes + ten_gb) % 2 ^ 64 },
    true,
  )

  unfoldable pub append_host_block : ℕ → FairyWren d → ℕ → ℕ → Result (FairyWren d)
  append_host_block fuel s key lba_sz = do
    (t, o) ← ensure_active_segment d fuel s fwlog true
    elim o [
      | none ↦ thrown
      | some seg ↦ do
        u ← invalidate d t key lba_sz
        l ← append_block u.log seg key u.log_cache_timestamp
        ok (record u {
          log = l;
          log_cache_timestamp = u.log_cache_timestamp + 1;
          write_size_to_cache = u.write_size_to_cache + lba_sz;
        })
    ]

  module _ (ceil_ratio : ℕ → ℕ → ℕ) where
    unfoldable pub needs_gc : FairyWren d → RegionKind → ℕ → Bool
    needs_gc s kind ratio =
        let reg = region s.log kind in
        not (reg.total_segments == 0)
        && leb (length reg.free_segments) (max (ceil_ratio reg.total_segments ratio) 1)

    -- `if (needs_gc(…)) { if (reclaim()) return; }`
    abbrev pub reclaim_if :
        RegionKind
        → ℕ
        → (FairyWren d → Result (FairyWren d × Bool))
        → FairyWren d
        → Result (FairyWren d × Bool)
    reclaim_if kind ratio reclaim s = if needs_gc s kind ratio then reclaim s else ok (s, false)

    unfoldable pub maybe_run_gc : ℕ → FairyWren d → Result (FairyWren d)
    maybe_run_gc fuel s =
        let ensure = ensure_active_segment d fuel in
        or_else d
          (or_else d
            (or_else d (reclaim_if hot hot_critical_ratio (reclaim_from_hot d ensure) s)
              (reclaim_if cold cold_critical_ratio (reclaim_from_cold d ensure)))
            (reclaim_if fwlog fwlog_critical_ratio (reclaim_from_fwlog d ensure)))
          (reclaim_if hot hot_relax_ratio (reclaim_from_hot d ensure))
        >>= λ r. ok r.0

    unfoldable pub insert_blocks : ℕ → FairyWren d → List (ℕ × ℕ) → Result (FairyWren d)
    insert_blocks fuel s [] = ok s
    insert_blocks fuel s ((key, lba_sz) ∷ bs) = do
      t ← append_host_block fuel s key lba_sz
      u ← maybe_run_gc fuel t
      insert_blocks fuel u bs

    -- The first argument after the fuel tells whether the request is a read.
    unfoldable pub batch_insert : ℕ → Bool → FairyWren d → List (ℕ × ℕ) → Result (FairyWren d)
    batch_insert fuel is_read s new_blocks =
        if is_read then ok s else insert_blocks fuel s new_blocks
