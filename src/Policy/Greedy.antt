-- ===== src/Policy/Greedy.antt =====
-- `GreedyEvictPolicy`, evict_policy_greedy.h and evict_policy_greedy.cpp: the victim is the segment
-- with the fewest valid pages.
mod Tests
pub mod Counts
use ssd_waf.Base.{
  ℕ, ◌≤◌, ◌≡◌, Bool, true, false, Option, none, some, arith, update, inl, inr, Option-cases,
}
use native.Mathlib.Decide.{ℕ_discrete}
use ssd_waf.Policy.{Segment, EvictPolicy, IsLawful}
use ssd_waf.Policy.Heap.{Heap, IsHeap, HeapNode, gt}

pub record Greedy (S : Type 0) : Type 0 where
  pub heap : S
  pub handle : ℕ → Option ℕ

module _ (h : Heap) where
  unfoldable pub init : Greedy h.State
  init = record { heap = h.empty; handle = λ _. none }

  unfoldable pub add : Greedy h.State → ℕ → Segment → Greedy h.State
  add s i g =
      let (heap, k) = h.push s.heap (record { cnt = g.valid_cnt; seg = i }) in
      record { heap = heap; handle = update s.handle i (some k) }

  unfoldable pub remove : Greedy h.State → ℕ → Greedy h.State
  remove s i = elim (s.handle i) [
    | none ↦ s
    | some k ↦ record { heap = h.erase s.heap k; handle = update s.handle i none }
  ]

  unfoldable pub update_segment : Greedy h.State → ℕ → Segment → Greedy h.State
  update_segment s i g = elim (s.handle i) [
    | none ↦ s
    | some k ↦ record s { heap = h.modify s.heap k (record { cnt = g.valid_cnt; seg = i }) }
  ]

  unfoldable pub choose_segment : Greedy h.State → Option ℕ × Greedy h.State
  choose_segment s = elim (h.top s.heap) [ none ↦ (none, s) | some n ↦ (some n.seg, s) ]

  unfoldable pub tracks : Greedy h.State → ℕ → Bool
  tracks s i = elim (s.handle i) [ none ↦ false | some _ ↦ true ]

  -- Handles and nodes correspond.
  pub record IsSound (s : Greedy h.State) : Type 0 where
    pub of_handle :
        (i k : ℕ) → s.handle i ≡ some k → (n : HeapNode) × (h.node s.heap k ≡ some n) × (n.seg ≡ i)
    pub of_node : (k : ℕ) (n : HeapNode) → h.node s.heap k ≡ some n → s.handle n.seg ≡ some k

  abbrev pub policy : EvictPolicy
  policy = record {
    State = Greedy h.State;
    choose_segment = choose_segment;
    add = add;
    remove = remove;
    update_segment = update_segment;
    tracks = tracks;
    IsSound = IsSound;
  }

module _ (h : Heap) (law : IsHeap h) where
  pub init-IsSound : IsSound h (init h)
  unfolding init
  init-IsSound = record {
    of_handle = λ i k e. ground arith;
    of_node = λ k n e. ground (arith, law.node-empty k);
  }

  module _ (s : Greedy h.State) (w : IsSound h s) where
    add-of_handle :
        (i : ℕ) (g : Segment) (j k : ℕ)
        → (add h s i g).handle j ≡ some k
        → (n : HeapNode) × (h.node (add h s i g).heap k ≡ some n) × (n.seg ≡ j)
    unfolding add
    add-of_handle i g j k e = elim (ℕ_discrete i j) [
      | yes q ↦ (
        record { cnt = g.valid_cnt; seg = i },
        ground (arith, law.node-push s.heap (record { cnt = g.valid_cnt; seg = i }) k),
        q,
      )
      | no q ↦
          let (n, at_k, seg) = w.of_handle j k (ground arith) in
          (
            n,
            ground (
              arith,
              law.push-fresh s.heap (record { cnt = g.valid_cnt; seg = i }),
              law.node-push s.heap (record { cnt = g.valid_cnt; seg = i }) k,
            ),
            seg,
          )
    ]

    add-IsSound : (i : ℕ) (g : Segment) → tracks h s i ≡ false → IsSound h (add h s i g)
    unfolding add tracks
    add-IsSound i g new = record {
      of_handle = add-of_handle i g;
      of_node = λ k n e.
          ground
            (arith, w.of_node k n, law.node-push s.heap (record { cnt = g.valid_cnt; seg = i }) k);
    }

    remove-IsSound : (i : ℕ) → IsSound h (remove h s i)
    unfolding remove
    remove-IsSound i = elim (Option-cases (s.handle i)) [
      | inl q ↦ rw (q, remove) w
      | inr (k, q) ↦
          rw (q, remove)
            (record {
              of_handle = λ j k' e.
                  let (n, at_k, seg) = w.of_handle j k' (ground arith) in
                  let (n', at_k', seg') = w.of_handle i k q in
                  (n, ground (arith, law.node-erase s.heap k k'), seg);
              of_node = λ k' n e.
                  let (n', at_k, seg) = w.of_handle i k q in
                  ground (arith, w.of_node k' n, law.node-erase s.heap k k');
            })
    ]

    update-IsSound : (i : ℕ) (g : Segment) → IsSound h (update_segment h s i g)
    unfolding update_segment
    update-IsSound i g = elim (Option-cases (s.handle i)) [
      | inl q ↦ rw (q, update_segment) w
      | inr (k, q) ↦
          rw (q, update_segment)
            (record {
              of_handle = λ j k' e.
                  let (m, at_m, seg_m) = w.of_handle i k q in
                  let (n, at_n, seg_n) = w.of_handle j k' e in
                  elim (ℕ_discrete k k') [
                    | yes r ↦
                        (new, ground (arith, law.node-modify s.heap k new m k' at_m), ground arith)
                    | no r ↦ (n, ground (arith, law.node-modify s.heap k new m k' at_m), seg_n)
                  ];
              of_node = λ k' n e.
                  let (m, at_m, seg_m) = w.of_handle i k q in
                  ground (arith, w.of_node k' n, law.node-modify s.heap k new m k' at_m);
            })
    ]
      where
        new : HeapNode
        new = record { cnt = g.valid_cnt; seg = i }

    choose-tracks : (v : ℕ) → (choose_segment h s).0 ≡ some v → tracks h s v ≡ true
    unfolding choose_segment tracks
    choose-tracks v e = elim (Option-cases (h.top s.heap)) [
      | inl q ↦ ground arith
      | inr (n, q) ↦ let (k, at_k) = law.top-some s.heap n q in ground (arith, w.of_node k n at_k)
    ]

    -- In a sound state of the policy over a heap as documented, no node of a tracked segment has a
    -- smaller count than the node of the victim.
    pub choose_segment-fewest :
        (v i k : ℕ) (n : HeapNode)
        → (choose_segment h s).0 ≡ some v
        → s.handle i ≡ some k
        → h.node s.heap k ≡ some n
        → (kv : ℕ) × (m : HeapNode) × (s.handle v ≡ some kv)
          × (h.node s.heap kv ≡ some m)
          × (m.cnt ≤ n.cnt)
    unfolding choose_segment gt
    choose_segment-fewest v i k n e hi at_k = elim (Option-cases (h.top s.heap)) [
      | inl q ↦ absurd (ground arith)
      | inr (m, q) ↦
          let (kv, at_kv) = law.top-some s.heap m q in
          (
            kv,
            m,
            ground (arith, w.of_node kv m at_kv),
            at_kv,
            ground (arith, law.top-first s.heap m n k q at_k),
          )
    ]

  -- Over a heap as documented, the greedy policy is lawful.
  pub policy-IsLawful : IsLawful (policy h)
  unfolding add remove update_segment choose_segment tracks
  policy-IsLawful = record {
    tracks-add = λ s i g j. ground arith;
    tracks-remove = λ s i j. ground arith;
    tracks-update = λ s i g j. ground arith;
    tracks-choose = λ s j. ground arith;
    choose-tracks = λ s v w. choose-tracks s w v;
    add-IsSound = λ s i g w. add-IsSound s w i g;
    remove-IsSound = λ s i w. remove-IsSound s w i;
    update-IsSound = λ s i g w. update-IsSound s w i g;
    choose-IsSound = λ s w. ground (arith, w);
  }
