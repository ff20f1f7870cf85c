-- ===== src/Policy/Heap/Lists.antt =====
-- A heap that has the documented behaviour, for tests: a list in which a handle is a position.
use ssd_waf.Base.{
  ℕ, zero, suc, ◌≡◌, refl, true, false, Option, none, some, arith, List, [], ◌∷◌, ◌++◌, length,
  ◌==◌, if◌then◌else◌, inl, inr, Option-cases, Bool-cases,
}
use ssd_waf.Policy.Heap.{HeapNode, gt, Heap, IsHeap}

unfoldable pub node : List (Option HeapNode) → ℕ → Option HeapNode
node [] k = none
node (x ∷ xs) zero = x
node (x ∷ xs) (suc k) = node xs k

unfoldable pub put : List (Option HeapNode) → ℕ → Option HeapNode → List (Option HeapNode)
put [] k v = []
put (x ∷ xs) zero v = v ∷ xs
put (x ∷ xs) (suc k) v = x ∷ put xs k v

-- The node that no other precedes.
unfoldable pub better : HeapNode → Option HeapNode → Option HeapNode
better n none = some n
better n (some m) = if gt n m then some m else some n

unfoldable pub top : List (Option HeapNode) → Option HeapNode
top [] = none
top (none ∷ xs) = top xs
top (some n ∷ xs) = better n (top xs)

abbrev pub list_heap : Heap
list_heap = record {
  State = List (Option HeapNode);
  empty = [];
  push = λ s n. (s ++ (some n ∷ []), length s);
  erase = λ s k. put s k none;
  modify = λ s k n. put s k (some n);
  top = top;
  node = node;
}

node-append :
    (s : List (Option HeapNode)) (n : HeapNode) (k : ℕ)
    → node (s ++ (some n ∷ [])) k ≡ (if length s == k then some n else node s k)
unfolding node
node-append [] n zero = refl
node-append [] n (suc k) = ground arith
node-append (x ∷ xs) n zero = ground arith
node-append (x ∷ xs) n (suc k) = ground (arith, node-append xs n k)

node-length : (s : List (Option HeapNode)) → node s (length s) ≡ none
unfolding node
node-length [] = refl
node-length (x ∷ xs) = node-length xs

node-erase :
    (s : List (Option HeapNode)) (j k : ℕ)
    → node (put s j none) k ≡ (if j == k then none else node s k)
unfolding node put
node-erase [] j k = ground arith
node-erase (x ∷ xs) zero zero = refl
node-erase (x ∷ xs) zero (suc k) = ground arith
node-erase (x ∷ xs) (suc j) zero = ground arith
node-erase (x ∷ xs) (suc j) (suc k) = ground (arith, node-erase xs j k)

node-modify :
    (s : List (Option HeapNode)) (j : ℕ) (n m : HeapNode) (k : ℕ)
    → node s j ≡ some m
    → node (put s j (some n)) k ≡ (if j == k then some n else node s k)
unfolding node put
node-modify [] j n m k h = cc
node-modify (x ∷ xs) zero n m zero h = refl
node-modify (x ∷ xs) zero n m (suc k) h = ground arith
node-modify (x ∷ xs) (suc j) n m zero h = ground arith
node-modify (x ∷ xs) (suc j) n m (suc k) h = ground (arith, node-modify xs j n m k h)

top-none : (s : List (Option HeapNode)) → top s ≡ none → (k : ℕ) → node s k ≡ none
unfolding node top better
top-none [] h k = refl
top-none (none ∷ xs) h zero = refl
top-none (none ∷ xs) h (suc k) = top-none xs h k
top-none (some n ∷ xs) h k = ground arith

top-some :
    (s : List (Option HeapNode)) (n : HeapNode) → top s ≡ some n → (k : ℕ) × (node s k ≡ some n)
unfolding node top better
top-some [] n h = cc
top-some (none ∷ xs) n h = let (k, q) = top-some xs n h in (suc k, q)
top-some (some m ∷ xs) n h = elim (Option-cases (top xs)) [
  | inl e ↦ (0, ground arith)
  | inr (b, e) ↦ elim (Bool-cases (gt m b)) [
    | inl g ↦ let (k, q) = top-some xs b e in (suc k, ground arith)
    | inr g ↦ (0, ground arith)
  ]
]

gt_trans : (a b c : HeapNode) → gt a b ≡ false → gt b c ≡ false → gt a c ≡ false
unfolding gt
gt_trans a b c h k = ground arith

gt_asymm : (a b : HeapNode) → gt a b ≡ true → gt b a ≡ false
unfolding gt
gt_asymm a b h = ground arith

gt_irrefl : (a : HeapNode) → gt a a ≡ false
unfolding gt
gt_irrefl a = ground arith

top-first :
    (s : List (Option HeapNode)) (n m : HeapNode) (k : ℕ)
    → top s ≡ some n
    → node s k ≡ some m
    → gt n m ≡ false
unfolding node top better
top-first [] n m k h q = cc
top-first (none ∷ xs) n m zero h q = cc
top-first (none ∷ xs) n m (suc k) h q = top-first xs n m k h q
top-first (some x ∷ xs) n m zero h q = elim (Option-cases (top xs)) [
  | inl e ↦ ground (arith, gt_irrefl x)
  | inr (b, e) ↦ ground (arith, gt_irrefl x, gt_asymm x b)
]
top-first (some x ∷ xs) n m (suc k) h q = elim (Option-cases (top xs)) [
  | inl e ↦ ground (arith, top-none xs e k)
  | inr (b, e) ↦ ground (arith, top-first xs b m k e q, gt_trans x b m)
]

pub list_heap-IsHeap : IsHeap list_heap
unfolding node
list_heap-IsHeap = record {
  node-empty = λ k. refl;
  push-fresh = λ s n. node-length s;
  node-push = node-append;
  node-erase = node-erase;
  node-modify = node-modify;
  top-none = top-none;
  top-some = top-some;
  top-first = top-first;
}
