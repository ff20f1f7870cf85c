-- ===== src/Policy/Fifo/Order.antt =====
-- The order in which `FifoEvictPolicy` chooses the segments that were added to it.
use ssd_waf.Base.{
  false, contains-append, ◌||◌, ◌==◌, Distinct, ℕ, zero, suc, ◌≤◌, ◌≡◌, ◌∙◌, ap, refl, arith, inl,
  inr, Bool-cases, none, some, List, [], ◌∷◌, ◌++◌, length, map, remove_key, contains, sym, subst,
}
use ssd_waf.Policy.{Segment}
use ssd_waf.Policy.Fifo.{Fifo, add, remove, choose_segment, IsQueue, remove-IsQueue}

-- The victims of a number of calls of `choose_segment`, until there is none.
unfoldable pub victims : ℕ → Fifo → List ℕ
victims zero s = []
victims (suc n) s =
    let (v, t) = choose_segment s in
    let rest = victims n t in elim v [ none ↦ [] | some i ↦ i ∷ rest ]

unfoldable pub add_all : Fifo → List (ℕ × Segment) → Fifo
add_all s [] = s
add_all s ((i, g) ∷ gs) = add_all (add s i g) gs

abbrev pub keys : List (ℕ × Segment) → List ℕ
keys gs = map (λ (p : ℕ × Segment). p.0) gs

length-remove_key-le : (k : ℕ) (l : List ℕ) → length (remove_key k l) ≤ length l
unfolding remove_key
length-remove_key-le k [] = omega arith
length-remove_key-le k (x ∷ l) = ground (arith, length-remove_key-le k l)

append-nil : (l : List ℕ) → l ≡ l ++ []
append-nil [] = refl
append-nil (x ∷ l) = ap (λ (r : List ℕ). x ∷ r) (append-nil l)

victims-queue : (n : ℕ) (s : Fifo) (q : List ℕ) → s.queue ≡ q → length q ≤ n → victims n s ≡ q
unfolding victims choose_segment
victims-queue zero s [] e h = refl
victims-queue zero s (i ∷ q) e h = absurd (omega arith)
victims-queue (suc n) s [] e h = rw e refl
victims-queue (suc n) s (i ∷ q) e h =
    rw (e, choose_segment) (ap (λ (l : List ℕ). i ∷ l) (victims-queue n _ q refl (omega arith)))

append-snoc : (l : List ℕ) (i : ℕ) (m : List ℕ) → (l ++ (i ∷ [])) ++ m ≡ l ++ (i ∷ m)
append-snoc [] i m = refl
append-snoc (x ∷ l) i m = ap (λ (r : List ℕ). x ∷ r) (append-snoc l i m)

add_all-queue : (gs : List (ℕ × Segment)) (s : Fifo) → (add_all s gs).queue ≡ s.queue ++ keys gs
unfolding add_all add
add_all-queue [] s = append-nil s.queue
add_all-queue ((i, g) ∷ gs) s = add_all-queue gs (add s i g) ∙ append-snoc s.queue i (keys gs)

add_all-handle :
    (gs : List (ℕ × Segment)) (s : Fifo) (k : ℕ)
    → (add_all s gs).handle k ≡ (s.handle k || contains k (keys gs))
unfolding add_all add contains
add_all-handle [] s k = ground arith
add_all-handle ((i, g) ∷ gs) s k = ground (arith, add_all-handle gs (add s i g) k)

add_all-IsQueue :
    (gs : List (ℕ × Segment)) (s : Fifo)
    → IsQueue s
    → Distinct (s.queue ++ keys gs)
    → IsQueue (add_all s gs)
add_all-IsQueue gs s w once = record {
  distinct = subst Distinct (sym (add_all-queue gs s)) once;
  listed = λ k. ground (
    arith,
    add_all-handle gs s k,
    w.listed k,
    ap (contains k) (add_all-queue gs s),
    contains-append s.queue (keys gs) k,
  );
}

remove_key-absent : (k : ℕ) (l : List ℕ) → contains k l ≡ false → remove_key k l ≡ l
unfolding remove_key contains
remove_key-absent k [] h = refl
remove_key-absent k (x ∷ l) h =
    let tail : remove_key k l ≡ l = remove_key-absent k l (ground arith) in
    let other : (k == x) ≡ false = ground arith in ground (arith, tail, other)

remove-queue : (s : Fifo) (k : ℕ) → IsQueue s → (remove s k).queue ≡ remove_key k s.queue
unfolding remove
remove-queue s k w = elim (Bool-cases (s.handle k)) [
  | inl h ↦ rw (h, remove)
  | inr h ↦ rw (h, remove) (sym (remove_key-absent k s.queue (sym (w.listed k) ∙ h)))
]

-- Segments are added to a sound queue, none of them twice or already in it, and then one segment is
-- removed: the queue stays sound, and enough calls of choose_segment give the segments of the queue
-- and then the added ones, each once and in the order in which they were added, without the removed
-- one.
pub victims-add_all :
    (s : Fifo) (gs : List (ℕ × Segment)) (k n : ℕ)
    → IsQueue s
    → Distinct (s.queue ++ keys gs)
    → length (s.queue ++ keys gs) ≤ n
    → IsQueue (remove (add_all s gs) k)
      × (victims n (remove (add_all s gs) k) ≡ remove_key k (s.queue ++ keys gs))
victims-add_all s gs k n w once enough =
    let t = add_all s gs in
    let x = add_all-IsQueue gs s w once in
    let queue : (remove t k).queue ≡ remove_key k (s.queue ++ keys gs) =
      remove-queue t k x ∙ ap (remove_key k) (add_all-queue gs s) in
    (
      remove-IsQueue t k x,
      victims-queue n (remove t k) _ queue
          (omega (arith, enough, length-remove_key-le k (s.queue ++ keys gs))),
    )
