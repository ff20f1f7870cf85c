-- ===== src/Histogram.antt =====
-- `Histogram`, histogram.h and histogram.cpp, without its name and the file that the destructor
-- writes.
mod Tests
use ssd_waf.Base.{
  ℕ, ◌+◌, ◌-◌, ◌/◌, ◌%◌, ◌^◌, ◌<◌, ◌≡◌, Bool, ◌||◌, not, false, sum_to, sum_to-le, sum_to-change,
  Bool-cases, inl, inr, refl, if◌then◌else◌, ◌==◌, leb, update, arith, Result, ok, thrown,
}

pub record Histogram : Type 0 where
  pub granularity : ℕ
  pub max_buckets : ℕ
  pub counts : ℕ → ℕ

-- The constructor; the last argument tells whether there is a file.
unfoldable pub init : ℕ → ℕ → Bool → Result Histogram
init granularity max_buckets has_file =
    if not has_file || max_buckets == 0
    then thrown
    else ok (record {
      granularity = if granularity == 0 then 1 else granularity;
      max_buckets = max_buckets;
      counts = λ _. 0;
    })

-- The bucket of a key: the last one if the vector ends before it.
unfoldable pub bucket : Histogram → ℕ → ℕ
bucket h key =
    let index = key / h.granularity in if leb h.max_buckets index then h.max_buckets - 1 else index

unfoldable pub inc : Histogram → ℕ → ℕ → Histogram
unfolding bucket
inc h key n = record h {
  counts = update h.counts (bucket h key) ((h.counts (bucket h key) + n) % 2 ^ 64);
}

bucket-below : (h : Histogram) (key : ℕ) → 0 < h.max_buckets → bucket h key < h.max_buckets
unfolding bucket
bucket-below h key some_bucket = elim (Bool-cases (leb h.max_buckets (key / h.granularity))) [
  | inl beyond ↦ ground (arith, beyond)
  | inr within ↦ ground (arith, within)
]

-- With a bucket or more, and counts that stay below 2^64, a key is counted in the bucket that
-- `bucket` gives, within the vector, and the sum of the counts grows by what is added.
pub inc-counted :
    (h : Histogram) (key n : ℕ)
    → 0 < h.max_buckets
    → sum_to h.counts h.max_buckets + n < 2 ^ 64
    → (bucket h key < h.max_buckets)
      × ((inc h key n).counts (bucket h key) ≡ h.counts (bucket h key) + n)
      × ((b : ℕ) → (bucket h key == b) ≡ false → (inc h key n).counts b ≡ h.counts b)
      × (sum_to (inc h key n).counts h.max_buckets ≡ sum_to h.counts h.max_buckets + n)
unfolding inc
inc-counted h key n some_bucket small =
    let inside = bucket-below h key some_bucket in
    let le = sum_to-le h.counts h.max_buckets (bucket h key) inside in
    let here : (inc h key n).counts (bucket h key) ≡ h.counts (bucket h key) + n =
      ground (arith, le, small) in
    let others : (b : ℕ) → (bucket h key == b) ≡ false → (inc h key n).counts b ≡ h.counts b =
      λ b ne. ground (arith, ne) in
    let change =
      sum_to-change h.counts (inc h key n).counts h.max_buckets (bucket h key) others inside in
    (inside, here, others, omega (arith, change, here))
