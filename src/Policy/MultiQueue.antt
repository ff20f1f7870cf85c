-- ===== src/Policy/MultiQueue.antt =====
-- `MultiQueueEvictPolicy`, evict_policy_multiqueue.h and evict_policy_multiqueue.cpp: a queue of
-- segments for each range of ages, of which the oldest is served first.
pub mod Order
mod Tests
use ssd_waf.Base.{
  ℕ, zero, suc, ◌+◌, ◌-◌, ◌/◌, ◌%◌, ◌≤◌, ◌<◌, ◌≡◌, ◌↔◌, ◌∙◌, sym, ap, subst, inl, inr, refl, Bool,
  true, false, not, ◌&&◌, ◌||◌, Option, none, some, arith, List, [], ◌∷◌, ◌++◌, contains, Distinct,
  remove_key, contains-append, append-Distinct, contains-remove_key, remove_key-Distinct,
  if◌then◌else◌, ◌==◌, ltb, leb, update, Result, ok, fault, Bool-cases, Option-cases,
}
use ssd_waf.Policy.{Segment}

abbrev pub max_queue_size : ℕ
max_queue_size = 16

-- An entry of `handle` is a segment's queue and its place there. `g_valid_cnt` is not initialised.
pub record MultiQueue : Type 0 where
  pub queue : ℕ → List ℕ
  pub handle : ℕ → Option ℕ
  pub g_valid_cnt : ℕ → ℕ
  pub age_granularity : ℕ

unfoldable pub init : ℕ → (ℕ → ℕ) → MultiQueue
init input_age_granularity garbage = record {
  queue = λ _. [];
  handle = λ _. none;
  g_valid_cnt = garbage;
  age_granularity = input_age_granularity;
}

-- The quotient becomes an `int`: `none` stands for a negative one.
unfoldable pub get_queue_id : MultiQueue → ℕ → Option ℕ
get_queue_id s age =
    if s.age_granularity == 0
    then some 0
    else let stream_id = age / s.age_granularity % 0x100000000 in
      if leb 0x80000000 stream_id
      then none
      else if leb max_queue_size stream_id
      then some (max_queue_size - 1)
      else some stream_id

unfoldable pub add : MultiQueue → ℕ → Segment → ℕ → Result MultiQueue
add s seg g current_time =
    elim (get_queue_id s
      ((current_time + 0x10000000000000000 - g.create_timestamp) % 0x10000000000000000)) [
        | none ↦ fault
        | some queue_id ↦ ok (record s {
          queue = update s.queue queue_id (s.queue queue_id ++ (seg ∷ []));
          handle = update s.handle seg (some queue_id);
          g_valid_cnt =
              update s.g_valid_cnt queue_id
                ((s.g_valid_cnt queue_id + g.valid_cnt) % 0x10000000000000000);
        })
      ]

unfoldable pub remove : MultiQueue → ℕ → Segment → MultiQueue
remove s seg g = elim (s.handle seg) [
  | none ↦ s
  | some queue_id ↦ record s {
    queue = update s.queue queue_id (remove_key seg (s.queue queue_id));
    handle = update s.handle seg none;
    g_valid_cnt =
        update s.g_valid_cnt queue_id
          ((s.g_valid_cnt queue_id + 0x10000000000000000 - g.valid_cnt) % 0x10000000000000000);
  }
]

unfoldable pub update_segment : MultiQueue → ℕ → MultiQueue
update_segment s seg = elim (s.handle seg) [
  | none ↦ s
  | some queue_id ↦ record s {
    g_valid_cnt =
        update s.g_valid_cnt queue_id
          ((s.g_valid_cnt queue_id + 0xFFFFFFFFFFFFFFFF) % 0x10000000000000000);
  }
]

-- The loop over the queues below `n`, the highest first.
unfoldable pub choose_below : ℕ → MultiQueue → Result (ℕ × MultiQueue)
choose_below zero s = fault
choose_below (suc i) s = elim (s.queue i) [
  | [] ↦ choose_below i s
  | victim ∷ rest ↦
      ok (victim, record s { queue = update s.queue i rest; handle = update s.handle victim none })
]

unfoldable pub choose_segment : MultiQueue → Result (ℕ × MultiQueue)
choose_segment s = choose_below max_queue_size s

unfoldable pub is_at : ℕ → Option ℕ → Bool
is_at q none = false
is_at q (some p) = p == q

-- A segment stands in the queue of its handle, once, and in no other.
pub record IsMulti (s : MultiQueue) : Type 0 where
  pub distinct : (q : ℕ) → Distinct (s.queue q)
  pub listed : (k q : ℕ) → contains k (s.queue q) ≡ is_at q (s.handle k)
