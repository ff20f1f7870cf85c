-- ===== src/Device.antt =====
-- What the caches call of `PageMappingFTL`: requests on byte ranges, which may fail.
pub mod Flash
pub mod Examples
use native.Mathlib.Nat.{mod-eq-zero_of_dvd, dvd_of_mod-eq-zero, dvd-mul_left_of_dvd}
use ssd_waf.Base.{◌*◌, ℕ, ◌+◌, ◌%◌, ◌≤◌, ◌<◌, ◌≡◌, Result, ok}
use ssd_waf.Policy.{EvictPolicy}
use ssd_waf.Ftl.{Geometry, Ftl}
use ssd_waf.Ftl.Host

pub record Device : Type 1 where
  pub State : Type 0
  -- The offset, the number of bytes and the stream.
  pub write : State → ℕ → ℕ → ℕ → Result State
  pub trim : State → ℕ → ℕ → Result State

-- The translation layer as a device.
abbrev pub ftl_device : EvictPolicy → Geometry → ℕ → Device
ftl_device pol geo fuel = record {
  State = Ftl pol.State;
  write = Host.write pol geo fuel;
  trim = Host.trim pol geo;
}

-- A device that serves a number of writes: while `n` of them, fewer than the quota, are used up, it
-- accepts each request of whole units below a limit; a trim uses up none.
pub record Accepts (d : Device) (Ready : ℕ → d.State → Type 0) (unit_size limit quota : ℕ)
    : Type 0 where
  pub write-Ready :
      (s : d.State) (offset size stream_id n : ℕ)
      → Ready n s
      → n < quota
      → offset % unit_size ≡ 0
      → size % unit_size ≡ 0
      → 0 < size
      → offset + size ≤ limit
      → (t : d.State) × (d.write s offset size stream_id ≡ ok t) × Ready (n + 1) t
  pub trim-Ready :
      (s : d.State) (offset size n : ℕ)
      → Ready n s
      → offset % unit_size ≡ 0
      → size % unit_size ≡ 0
      → offset + size ≤ limit
      → (t : d.State) × (d.trim s offset size ≡ ok t) × Ready n t
  -- A write that is not made may be counted.
  pub skip-Ready : (s : d.State) (n : ℕ) → Ready n s → Ready (n + 1) s

pub multiple : (u a b : ℕ) → b % u ≡ 0 → a * b % u ≡ 0
multiple u a b h = mod-eq-zero_of_dvd u (dvd-mul_left_of_dvd u (dvd_of_mod-eq-zero u h) a)
