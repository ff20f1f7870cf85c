-- ===== src/Policy/Heap.antt =====
-- The priority queue that the greedy policy is built on: boost's `d_ary_heap` with handles, which is
-- not part of the repository and hence a parameter. A handle is a number here.
pub mod Lists
use ssd_waf.Base.{ℕ, ◌≡◌, Bool, false, ◌||◌, ◌&&◌, Option, none, some, ltb, ◌==◌, if◌then◌else◌}

-- `HeapNode_Cache`.
pub record HeapNode : Type 0 where
  pub cnt : ℕ
  pub seg : ℕ

-- Its `operator>`: the greater node has the lower priority.
unfoldable pub gt : HeapNode → HeapNode → Bool
gt a b = ltb b.cnt a.cnt || (a.cnt == b.cnt && ltb b.seg a.seg)

pub record Heap : Type 1 where
  pub State : Type 0
  pub empty : State
  pub push : State → HeapNode → State × ℕ
  pub erase : State → ℕ → State
  pub modify : State → ℕ → HeapNode → State
  pub top : State → Option HeapNode
  -- The node that a handle stands for.
  pub node : State → ℕ → Option HeapNode

-- The documented behaviour: a handle stands for its node until it is erased, and the top is a node
-- that no other node precedes.
pub record IsHeap (h : Heap) : Type 0 where
  pub node-empty : (k : ℕ) → h.node h.empty k ≡ none
  pub push-fresh : (s : h.State) (n : HeapNode) → h.node s (h.push s n).1 ≡ none
  pub node-push :
      (s : h.State) (n : HeapNode) (k : ℕ)
      → h.node (h.push s n).0 k ≡ (if (h.push s n).1 == k then some n else h.node s k)
  pub node-erase :
      (s : h.State) (j k : ℕ) → h.node (h.erase s j) k ≡ (if j == k then none else h.node s k)
  pub node-modify :
      (s : h.State) (j : ℕ) (n m : HeapNode) (k : ℕ)
      → h.node s j ≡ some m
      → h.node (h.modify s j n) k ≡ (if j == k then some n else h.node s k)
  pub top-none : (s : h.State) → h.top s ≡ none → (k : ℕ) → h.node s k ≡ none
  pub top-some : (s : h.State) (n : HeapNode) → h.top s ≡ some n → (k : ℕ) × (h.node s k ≡ some n)
  pub top-first :
      (s : h.State) (n m : HeapNode) (k : ℕ)
      → h.top s ≡ some n
      → h.node s k ≡ some m
      → gt n m ≡ false
