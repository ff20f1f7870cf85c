-- ===== src/Histogram/Tests.antt =====
-- Keys in a histogram of three buckets.
use ssd_waf.Base.{ℕ, ◌+◌, ◌^◌, ◌≡◌, ◌<◌, refl, arith, false, sum_to, ◌==◌}
use ssd_waf.Histogram.{Histogram, bucket, inc, inc-counted}

abbrev ages : Histogram
ages = record { granularity = 10; max_buckets = 3; counts = λ _. 4 }

last-bucket : bucket ages 99 ≡ 2
unfolding bucket
last-bucket = refl

sum-small : sum_to ages.counts ages.max_buckets + 5 < 2 ^ 64
unfolding sum_to
sum-small = omega arith

inc-counted_example :
    (bucket ages 25 < ages.max_buckets)
    × ((inc ages 25 5).counts (bucket ages 25) ≡ ages.counts (bucket ages 25) + 5)
    × ((b : ℕ) → (bucket ages 25 == b) ≡ false → (inc ages 25 5).counts b ≡ ages.counts b)
    × (sum_to (inc ages 25 5).counts ages.max_buckets ≡ sum_to ages.counts ages.max_buckets + 5)
inc-counted_example = inc-counted ages 25 5 (omega arith) sum-small
