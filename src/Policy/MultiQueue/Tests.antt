-- ===== src/Policy/MultiQueue/Tests.antt =====
-- Runs of the multi-queue policy, with ranges of 10 ticks.
use ssd_waf.Base.{
  ℕ, ◌<◌, ◌≡◌, ◌↔◌, ◌++◌, refl, arith, Option, none, some, [], ◌∷◌, contains, update, ◌||◌, ◌==◌,
  if◌then◌else◌, zero, suc, Distinct, Bool-cases, inl, inr, Result, ok, fault, spin, thrown, ◌>>=◌,
}
use ssd_waf.Policy.{Segment}
use ssd_waf.Policy.MultiQueue.{
  max_queue_size, MultiQueue, init, get_queue_id, add, remove, choose_below, choose_segment, is_at,
  IsMulti,
}
use ssd_waf.Policy.MultiQueue.Order.{
  add-IsMulti, remove-IsMulti, choose_segment-highest, choose_segment-fault,
}

abbrev born : ℕ → Segment
born t = record { write_ptr = 8; valid_cnt = 3; class_num = 0; create_timestamp = t }

abbrev start : MultiQueue
start = init 10 (λ _. 0)

chosen : Result MultiQueue → Option ℕ
chosen (ok s) = elim (choose_segment s) [ ok (v, _) ↦ some v | _ ↦ none ]
chosen fault = none
chosen thrown = none
chosen spin = none

-- At time 100 segment 4 is 5 ticks old, segment 7 is 40.
chosen-oldest : chosen (add start 4 (born 95) 100 >>= λ s. add s 7 (born 60) 100) ≡ some 7
unfolding chosen init add get_queue_id choose_segment choose_below
chosen-oldest = refl

-- Segments 4 and 5 in queue 0, and 7 in queue 4.
abbrev three : MultiQueue
three = record {
  queue = λ q. elim q [ zero ↦ 4 ∷ 5 ∷ [] | suc p ↦ if p == 3 then 7 ∷ [] else [] ];
  handle = λ k. if k == 4 || k == 5 then some 0 else if k == 7 then some 4 else none;
  g_valid_cnt = λ _. 0;
  age_granularity = 10;
}

three-IsMulti : IsMulti three
unfolding contains is_at
three-IsMulti = record { distinct = distinct; listed = λ k q. listed k q }
  where
    distinct : (q : ℕ) → Distinct (three.queue q)
    distinct zero = (refl, (refl, tt))
    distinct (suc p) = elim (Bool-cases (p == 3)) [ inl h ↦ rw h (refl, tt) | inr h ↦ rw h tt ]

    listed : (k q : ℕ) → contains k (three.queue q) ≡ is_at q (three.handle k)
    listed k zero = ground arith
    listed k (suc p) = ground arith

choose_segment-highest_example :
    (t : MultiQueue) × (choose_segment three ≡ ok (7, t))
    × IsMulti t
    × (t.queue ≡ update three.queue 4 [])
    × (t.handle 7 ≡ none)
choose_segment-highest_example =
    choose_segment-highest three three-IsMulti 4 7 [] (omega arith) refl above
  where
    above : (j : ℕ) → 4 < j → j < max_queue_size → three.queue j ≡ []
    above zero lo hi = absurd (omega arith)
    above (suc p) lo hi = ground arith

choose_segment-fault_example :
    (choose_segment three ≡ fault) ↔ ((j : ℕ) → j < 16 → three.queue j ≡ [])
choose_segment-fault_example = choose_segment-fault three three-IsMulti

add-IsMulti_example :
    (t : MultiQueue) × (q : ℕ) × (add three 9 (born 80) 100 ≡ ok t)
    × IsMulti t
    × (q < max_queue_size)
    × (t.handle 9 ≡ some q)
    × (t.queue q ≡ three.queue q ++ (9 ∷ []))
add-IsMulti_example =
    add-IsMulti three three-IsMulti 9 (born 80) 100 refl (omega arith) (omega arith) (omega arith)

remove-IsMulti_example :
    IsMulti (remove three 5 (born 80)) × ((remove three 5 (born 80)).handle 5 ≡ none)
remove-IsMulti_example = remove-IsMulti three three-IsMulti 5 (born 80)
