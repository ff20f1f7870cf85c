-- ===== src/Streams/Tests.antt =====
-- Intervals of a cache of 100 blocks with segments of 8, and the age that is hot.
use ssd_waf.Base.{
  ◌+◌, ◌-◌, ◌/◌, ◌%◌, ◌^◌, ◌<◌, ◌≤◌, ◌≡◌, refl, arith, some, none, if◌then◌else◌, ◌==◌,
}
use ssd_waf.Streams.Table.{FifoTable, query, record_write, query-record_write}
use ssd_waf.Streams.{least_interval, stream_interval, classify, stream_interval-least}

interval-hundred : stream_interval 100 8 ≡ 40
unfolding stream_interval least_interval
interval-hundred = refl

-- A block that was never created counts as cold.
classify-never : classify 10 (2 ^ 64 - 1) ≡ 1
unfolding classify
classify-never = refl

classify-young : classify 4194310 6 ≡ 0
unfolding classify
classify-young = refl

small : least_interval 100 + 8 ≤ 2 ^ 64
unfolding least_interval
small = omega arith

stream_interval-least_example :
    (stream_interval 100 8 % 8 ≡ 0)
    × (0 < stream_interval 100 8)
    × (100 / 3 ≤ stream_interval 100 8)
    × (stream_interval 100 8 < least_interval 100 + 8)
stream_interval-least_example = stream_interval-least 100 8 (omega arith) small

-- Address 7 was written at place 3, and 9 after it.
abbrev ring : FifoTable
ring = record {
  tail = 5;
  head = 3;
  position = λ a. if a == 7 then some 3 else if a == 9 then some 4 else none;
  array = λ p. if p == 3 then 7 else 9;
}

query-seven : query ring 7 ≡ 2
unfolding query
query-seven = refl

query-missing : query ring 8 ≡ 2 ^ 32 - 1
unfolding query
query-missing = refl

query-record_write_example : query (record_write ring 7 2 100) 7 ≡ 1
query-record_write_example = query-record_write ring 7 2 100 (omega arith) (omega arith)
