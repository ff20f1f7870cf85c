-- ===== src/Streams.antt =====
-- The choice of streams: `set_stream_interval` (istream.cpp) and the classifier `HotCold`
-- (hot_cold.cpp).
mod Tests
pub mod Table
use native.Mathlib.Nat.{mod-eq_of_lt, mul-mod_left, div-add-mod', mod-lt}
use ssd_waf.Base.{
  ℕ, ◌+◌, ◌-◌, ◌*◌, ◌/◌, ◌%◌, ◌^◌, ◌≤◌, ◌<◌, ◌≡◌, ◌∙◌, sym, ap, refl, inl, inr, Bool, true, false,
  not, ◌&&◌, if◌then◌else◌, ◌==◌, ltb, leb, max, arith, Bool-cases,
}

-- A third of the cache's blocks, or one.
unfoldable pub least_interval : ℕ → ℕ
least_interval cache_block_count = if cache_block_count / 3 == 0 then 1 else cache_block_count / 3

-- The interval in whole segments; the sum and the product are `uint64_t`.
unfoldable pub stream_interval : ℕ → ℕ → ℕ
stream_interval cache_block_count segment_size_blocks =
    let computed = least_interval cache_block_count in
    let aligned =
      (computed + segment_size_blocks + 2 ^ 64 - 1)
      % 2 ^ 64
      / segment_size_blocks
      * segment_size_blocks
      % 2 ^ 64 in
    if ltb 0 segment_size_blocks
    then if aligned == 0 then segment_size_blocks else aligned
    else computed

-- The stream of a block: the first one, if it was created not long ago. The times are `uint64_t`.
unfoldable pub classify : ℕ → ℕ → ℕ
classify global_timestamp created_timestamp =
    if leb ((global_timestamp + 2 ^ 64 - created_timestamp) % 2 ^ 64) (16 * 1024 * 1024 / 4)
      && not (created_timestamp == 2 ^ 64 - 1)
    then 0
    else 1

least_interval-some : (n : ℕ) → 0 < least_interval n
unfolding least_interval
least_interval-some n = ground arith

third-le : (n : ℕ) → n / 3 ≤ least_interval n
unfolding least_interval
third-le n = ground arith

-- With segments of a block or more, and no overflow, the interval is the least number of whole
-- segments that is no smaller than a third of the cache's blocks, and than one block.
pub stream_interval-least :
    (cache_block_count segment_size_blocks : ℕ)
    → 0 < segment_size_blocks
    → least_interval cache_block_count + segment_size_blocks ≤ 2 ^ 64
    → (stream_interval cache_block_count segment_size_blocks % segment_size_blocks ≡ 0)
      × (0 < stream_interval cache_block_count segment_size_blocks)
      × (cache_block_count / 3 ≤ stream_interval cache_block_count segment_size_blocks)
      × (stream_interval cache_block_count segment_size_blocks
          < least_interval cache_block_count + segment_size_blocks)
unfolding stream_interval
stream_interval-least n size some_block small =
    let c = least_interval n in
    let wrap : (c + size + 2 ^ 64 - 1) % 2 ^ 64 ≡ c + size - 1 = omega (arith, some_block, small) in
    let rounded : ℕ = (c + size - 1) / size * size in
    let whole = div-add-mod' (c + size - 1) size in
    let part : (c + size - 1) % size < size = mod-lt (c + size - 1) some_block in
    let first : 0 < c = least_interval-some n in
    let third : n / 3 ≤ c = third-le n in
    let low : c ≤ rounded = omega (arith, whole, part, some_block) in
    let high : rounded < c + size = omega (arith, whole, some_block) in
    let fits : rounded % 2 ^ 64 ≡ rounded = mod-eq_of_lt (omega (arith, high, small)) in
    let has : ltb 0 size ≡ true = ground (arith, some_block) in
    let positive : (rounded == 0) ≡ false = ground (arith, low, first) in
    let value : stream_interval n size ≡ rounded = rw has (rw wrap (rw fits (rw positive refl))) in
    let multiple : rounded % size ≡ 0 = mul-mod_left ((c + size - 1) / size) size in
    (
      ap (λ (i : ℕ). i % size) value ∙ multiple,
      omega (arith, value, low, first),
      omega (arith, value, low, third),
      omega (arith, value, high),
    )
