-- ===== src/Policy/Greedy/Tests.antt =====
-- The greedy policy over a list.
use ssd_waf.Base.{ℕ, ◌≤◌, ◌≡◌, ◌&&◌, ◌==◌, if◌then◌else◌, refl, some, none}
use ssd_waf.Policy.Greedy.Counts.{count_of, is_some, operations-count_of}
use ssd_waf.Policy.{Segment}
use ssd_waf.Policy.Heap.{HeapNode, gt}
use ssd_waf.Policy.Heap.Lists.{list_heap, list_heap-IsHeap, node, put, top, better}
use ssd_waf.Policy.Greedy.{
  Greedy, init, add, remove, choose_segment, IsSound, init-IsSound, add-IsSound,
  choose_segment-fewest, tracks, update_segment,
}

abbrev segment : ℕ → Segment
segment n = record { write_ptr = 8; valid_cnt = n; class_num = 0; create_timestamp = 0 }

-- The segments 1, 2 and 3 with 5, 2 and 7 valid pages.
abbrev three : Greedy list_heap.State
three =
    add list_heap (add list_heap (add list_heap (init list_heap) 1 (segment 5)) 2 (segment 2)) 3
      (segment 7)

three-IsSound : IsSound list_heap three
unfolding gt node put top better init add tracks
three-IsSound =
    let law = list_heap-IsHeap in
    add-IsSound list_heap law _
      (add-IsSound list_heap law _
        (add-IsSound list_heap law _ (init-IsSound list_heap law) 1 (segment 5) refl) 2 (segment 2)
        refl)
      3 (segment 7) refl

choose-three : (choose_segment list_heap three).0 ≡ some 2
unfolding gt node put top better init add choose_segment
choose-three = refl

remove-three : (choose_segment list_heap (remove list_heap three 2)).0 ≡ some 1
unfolding gt node put top better init add remove choose_segment
remove-three = refl

update-three : (choose_segment list_heap (update_segment list_heap three 3 (segment 1))).0 ≡ some 3
unfolding gt node put top better init add update_segment choose_segment
update-three = refl

choose_segment-fewest_example :
    (kv : ℕ) × (m : HeapNode) × (three.handle 2 ≡ some kv)
    × (list_heap.node three.heap kv ≡ some m)
    × (m.cnt ≤ 5)
unfolding gt node put top better init add choose_segment
choose_segment-fewest_example =
    choose_segment-fewest list_heap list_heap-IsHeap three three-IsSound 2 1 0
      (record { cnt = 5; seg = 1 }) refl refl refl

-- Segment 3 gets the count 1.
operations-count_of_example :
    (count_of list_heap (add list_heap three 3 (segment 1)) 3
      ≡ (if 3 == 3 then some 1 else count_of list_heap three 3))
    × (count_of list_heap (remove list_heap three 3) 3
        ≡ (if 3 == 3 then none else count_of list_heap three 3))
    × (count_of list_heap (update_segment list_heap three 3 (segment 1)) 3
        ≡ (if 3 == 3 && tracks list_heap three 3 then some 1 else count_of list_heap three 3))
    × (count_of list_heap (choose_segment list_heap three).1 3 ≡ count_of list_heap three 3)
    × (is_some (count_of list_heap three 3) ≡ tracks list_heap three 3)
operations-count_of_example =
    operations-count_of list_heap list_heap-IsHeap three three-IsSound 3 (segment 1) 3
