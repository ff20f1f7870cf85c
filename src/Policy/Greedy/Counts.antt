-- ===== src/Policy/Greedy/Counts.antt =====
-- `GreedyEvictPolicy` as a map from the segments that it tracks to the counts of valid pages by which
-- it compares them.
use ssd_waf.Base.{
  ℕ, ◌≡◌, ◌&&◌, ◌==◌, if◌then◌else◌, Bool, true, false, Option, none, some, arith, inl, inr, ap,
  Option-cases, Bool-cases,
}
use ssd_waf.Policy.{Segment}
use ssd_waf.Policy.Heap.{Heap, IsHeap, HeapNode}
use ssd_waf.Policy.Greedy.{Greedy, add, remove, update_segment, choose_segment, tracks, IsSound}

-- The count in the node that a segment's handle stands for.
unfoldable pub count_of : (h : Heap) → Greedy h.State → ℕ → Option ℕ
count_of h s i = elim (s.handle i) [
  | none ↦ none
  | some k ↦ elim (h.node s.heap k) [ none ↦ none | some n ↦ some n.cnt ]
]

abbrev pub is_some : Option ℕ → Bool
is_some none = false
is_some (some n) = true

module _ (h : Heap) (law : IsHeap h) (s : Greedy h.State) (w : IsSound h s) (i : ℕ) (g : Segment)
    (j : ℕ) where
  abbrev new : HeapNode
  new = record { cnt = g.valid_cnt; seg = i }

  count_of-add : count_of h (add h s i g) j ≡ (if i == j then some g.valid_cnt else count_of h s j)
  unfolding count_of add
  count_of-add = elim (Bool-cases (i == j)) [
    | inl q ↦ ground (arith, q, law.node-push s.heap new (h.push s.heap new).1)
    | inr q ↦ elim (Option-cases (s.handle j)) [
      | inl e ↦ ground (arith, q, e)
      | inr (k, e) ↦
          let (n, at_k, seg) = w.of_handle j k e in
          ground (arith, q, e, at_k, law.push-fresh s.heap new, law.node-push s.heap new k)
    ]
  ]

  count_of-remove : count_of h (remove h s i) j ≡ (if i == j then none else count_of h s j)
  unfolding count_of remove
  count_of-remove = elim (Option-cases (s.handle i)) [
    | inl q ↦ ground (arith, q)
    | inr (k, q) ↦
        let (m, at_m, seg_m) = w.of_handle i k q in
        elim (Option-cases (s.handle j)) [
          | inl e ↦ ground (arith, q, e)
          | inr (k', e) ↦
              let (n, at_n, seg_n) = w.of_handle j k' e in
              ground (arith, q, e, at_m, at_n, seg_m, seg_n, law.node-erase s.heap k k')
        ]
  ]

  count_of-update :
      count_of h (update_segment h s i g) j
      ≡ (if i == j && tracks h s i then some g.valid_cnt else count_of h s j)
  unfolding count_of update_segment tracks
  count_of-update = elim (Option-cases (s.handle i)) [
    | inl q ↦ ground (arith, q)
    | inr (k, q) ↦
        let (m, at_m, seg_m) = w.of_handle i k q in
        elim (Option-cases (s.handle j)) [
          | inl e ↦ ground (arith, q, e)
          | inr (k', e) ↦
              let (n, at_n, seg_n) = w.of_handle j k' e in
              ground (arith, q, e, at_m, at_n, seg_m, seg_n, law.node-modify s.heap k new m k' at_m)
        ]
  ]

  count_of-tracks : is_some (count_of h s j) ≡ tracks h s j
  unfolding count_of tracks
  count_of-tracks = elim (Option-cases (s.handle j)) [
    | inl e ↦ ground (arith, e)
    | inr (k, e) ↦ let (n, at_k, seg) = w.of_handle j k e in ground (arith, e, at_k)
  ]

  choose_segment-same : (choose_segment h s).1 ≡ s
  unfolding choose_segment
  choose_segment-same = elim (Option-cases (h.top s.heap)) [
    | inl q ↦ rw (q, choose_segment)
    | inr (n, q) ↦ rw (q, choose_segment)
  ]

  -- In a sound state of the policy over a heap as documented, the policy acts on the map of its
  -- segments to the counts by which it compares them: add sets the segment's count to its valid
  -- pages, update does so for a segment that is tracked, remove takes the segment out, all leave
  -- every other segment's count, and choose_segment leaves all. Exactly the tracked segments have a
  -- count.
  pub operations-count_of :
      (count_of h (add h s i g) j ≡ (if i == j then some g.valid_cnt else count_of h s j))
      × (count_of h (remove h s i) j ≡ (if i == j then none else count_of h s j))
      × (count_of h (update_segment h s i g) j
          ≡ (if i == j && tracks h s i then some g.valid_cnt else count_of h s j))
      × (count_of h (choose_segment h s).1 j ≡ count_of h s j)
      × (is_some (count_of h s j) ≡ tracks h s j)
  operations-count_of = (
    count_of-add,
    count_of-remove,
    count_of-update,
    ap (λ (t : Greedy h.State). count_of h t j) choose_segment-same,
    count_of-tracks,
  )
