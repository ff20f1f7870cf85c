-- ===== src/LogSegment.antt =====
-- `LogCacheSegment`, log_cache_segment.h and segment.h: a segment of the log, with the blocks that
-- it holds. The size of `blocks`, which never changes, is an argument where it is read.
use ssd_waf.Base.{ℕ, ◌-◌, ◌^◌, Bool, false, leb}

pub record Block : Type 0 where
  pub key : ℕ
  pub valid : Bool
  pub create_timestamp : ℕ

pub record LogSegment : Type 0 where
  pub write_ptr : ℕ
  pub valid_cnt : ℕ
  pub class_num : ℕ
  pub create_timestamp : ℕ
  pub blocks : ℕ → Block

-- The constructor, with the default values of the blocks.
abbrev pub new_segment : ℕ → LogSegment
new_segment create_timestamp = record {
  write_ptr = 0;
  valid_cnt = 0;
  class_num = 0;
  create_timestamp = create_timestamp;
  blocks = λ _. record { key = 0; valid = false; create_timestamp = 2 ^ 64 - 1 };
}

unfoldable pub full : ℕ → LogSegment → Bool
full size g = leb size g.write_ptr

unfoldable pub reset : LogSegment → LogSegment
reset g = record g {
  write_ptr = 0;
  valid_cnt = 0;
  blocks = λ i. record (g.blocks i) { valid = false };
}
