-- ===== src/Ftl/Span.antt =====
-- The pages that a byte range touches, as `Write` and `Trim` compute them.
use native.Mathlib.Nat.{
  div-div-eq-div-mul, div-mul-le_self, div-lt_iff_lt-mul, le-div_iff_mul-le, mod-eq_of_lt,
}
use ssd_waf.Base.{ℕ, ◌+◌, ◌-◌, ◌*◌, ◌/◌, ◌%◌, ◌≤◌, ◌<◌, ◌≡◌, ◌↔◌, ap, arith}
use ssd_waf.Ftl.{Geometry, sectors_per_page, word_size}
use ssd_waf.Ftl.Host.{start_lpn, end_lpn, num_pages, trim_rounds}

module _ (geo : Geometry) (off size : ℕ) (pos : 0 < size) (bytes_fit : off + size ≤ word_size)
    (whole : geo.sector_size * sectors_per_page geo ≡ geo.page_size)
    (page_pos : 0 < geo.page_size) where
  pub start_lpn-eq : start_lpn geo off ≡ off / geo.page_size
  unfolding start_lpn
  start_lpn-eq =
      rw (div-div-eq-div-mul off geo.sector_size (sectors_per_page geo))
        (ap (λ (p : ℕ). off / p) whole)

  pub end_lpn-eq : end_lpn geo off size ≡ (off + size - 1) / geo.page_size
  unfolding end_lpn
  end_lpn-eq =
      let in_word : (off + size - 1) % word_size ≡ off + size - 1 = mod-eq_of_lt (omega arith) in
      rw in_word (
        rw (div-div-eq-div-mul (off + size - 1) geo.sector_size (sectors_per_page geo))
          (ap (λ (p : ℕ). (off + size - 1) / p) whole))

  -- For a non-empty range of bytes below 2^64 and pages of a whole number of sectors, a page lies
  -- between the first and the last that `Write` and `Trim` compute exactly if it shares a byte with
  -- the range.
  pub span-touched :
      (l : ℕ)
      → ((start_lpn geo off ≤ l) × (l ≤ end_lpn geo off size))
        ↔ ((l * geo.page_size < off + size) × (off < l * geo.page_size + geo.page_size))
  span-touched l =
      let from_first = div-lt_iff_lt-mul {k = geo.page_size} {x = off} {y = l + 1} page_pos in
      let to_last = le-div_iff_mul-le {k = geo.page_size} {x = l} {y = off + size - 1} page_pos in
      (
        (λ (lo, hi). (
          omega (arith, to_last.0 (omega (arith, hi, end_lpn-eq))),
          omega (arith, from_first.0 (omega (arith, lo, start_lpn-eq))),
        )),
        (λ (hi, lo). (
          omega (arith, start_lpn-eq, from_first.1 (omega (arith, lo))),
          omega (arith, end_lpn-eq, to_last.1 (omega (arith, hi))),
        )),
      )

  -- Under the same conditions `Write` counts these pages: one more than the last less the first.
  pub span-num_pages :
      end_lpn geo off size + 1 < word_size
      → (start_lpn geo off + num_pages geo off size ≡ end_lpn geo off size + 1)
        × (num_pages geo off size ≡ trim_rounds geo off size)
  unfolding num_pages trim_rounds
  span-num_pages h =
      let first_byte : off / geo.page_size ≤ (off + size - 1) / geo.page_size =
        (le-div_iff_mul-le {k = geo.page_size} {x = off / geo.page_size} {y = off + size - 1}
            page_pos).1
          (omega (arith, div-mul-le_self off geo.page_size)) in
      (
        omega (arith, start_lpn-eq, end_lpn-eq, first_byte),
        omega (arith, start_lpn-eq, end_lpn-eq, first_byte),
      )
