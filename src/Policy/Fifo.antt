-- ===== src/Policy/Fifo.antt =====
-- `FifoEvictPolicy`, evict_policy_fifo.h and evict_policy_fifo.cpp: the victim is the segment that
-- was added first, and leaves the queue when it is chosen.
mod Tests
pub mod Order
use ssd_waf.Base.{
  ℕ, ◌≡◌, ◌∙◌, sym, ap, subst, Bool-cases, inl, inr, refl, Bool, true, false, not, ◌||◌, ◌&&◌,
  Option, none, some, arith, List, [], ◌∷◌, ◌++◌, contains, Distinct, remove_key, contains-append,
  append-Distinct, contains-remove_key, remove_key-Distinct, ◌==◌, if◌then◌else◌, update,
}
use ssd_waf.Policy.{Segment, EvictPolicy, IsLawful}

-- `queue`, its front first. An entry of `handle` is the segment's place in the queue, so that it
-- only matters whether there is one.
pub record Fifo : Type 0 where
  pub queue : List ℕ
  pub handle : ℕ → Bool

unfoldable pub init : Fifo
init = record { queue = []; handle = λ _. false }

unfoldable pub add : Fifo → ℕ → Segment → Fifo
add s seg g = record { queue = s.queue ++ (seg ∷ []); handle = update s.handle seg true }

unfoldable pub remove : Fifo → ℕ → Fifo
remove s seg =
    if s.handle seg
    then record { queue = remove_key seg s.queue; handle = update s.handle seg false }
    else s

unfoldable pub choose_segment : Fifo → Option ℕ × Fifo
choose_segment s = elim s.queue [
  | [] ↦ (none, s)
  | victim ∷ rest ↦ (some victim, record { queue = rest; handle = update s.handle victim false })
]

pub record IsQueue (s : Fifo) : Type 0 where
  pub distinct : Distinct s.queue
  pub listed : (k : ℕ) → s.handle k ≡ contains k s.queue

abbrev pub fifo_policy : EvictPolicy
fifo_policy = record {
  State = Fifo;
  choose_segment = choose_segment;
  add = add;
  remove = remove;
  update_segment = λ s seg g. s;
  tracks = λ s seg. s.handle seg;
  IsSound = IsQueue;
}

add-IsQueue :
    (s : Fifo) (k : ℕ) (g : Segment) → IsQueue s → s.handle k ≡ false → IsQueue (add s k g)
unfolding add contains
add-IsQueue s k g w new = record {
  distinct = append-Distinct s.queue k w.distinct (sym (w.listed k) ∙ new);
  listed = λ j. ground (arith, w.listed j, contains-append s.queue (k ∷ []) j);
}

remove-IsQueue : (s : Fifo) (k : ℕ) → IsQueue s → IsQueue (remove s k)
unfolding remove
remove-IsQueue s k w = elim (Bool-cases (s.handle k)) [
  | inl h ↦
      rw (h, remove)
        (record {
          distinct = remove_key-Distinct k s.queue w.distinct;
          listed = λ j. ground (arith, w.listed j, contains-remove_key k s.queue j w.distinct);
        })
  | inr h ↦ rw (h, remove) w
]

-- The victim is the segment at the front, and leaves the queue.
choose_segment-IsQueue :
    (s : Fifo) (pool : List ℕ) → s.queue ≡ pool → IsQueue s → IsQueue (choose_segment s).1
unfolding choose_segment contains
choose_segment-IsQueue s [] e w = rw (e, choose_segment) w
choose_segment-IsQueue s (v ∷ rest) e w =
    let d : Distinct (v ∷ rest) = subst Distinct e w.distinct in
    let listed : (k : ℕ) → s.handle k ≡ (k == v || contains k rest) =
      λ k. w.listed k ∙ ap (contains k) e in
    rw (e, choose_segment) (record { distinct = d.1; listed = λ k. ground (arith, listed k, d.0) })

choose_segment-tracks :
    (s : Fifo) (pool : List ℕ) (v : ℕ)
    → s.queue ≡ pool
    → IsQueue s
    → (choose_segment s).0 ≡ some v
    → s.handle v ≡ true
unfolding choose_segment contains
choose_segment-tracks s [] v e w h = absurd (ground (arith, e, h))
choose_segment-tracks s (x ∷ rest) v e w h =
    let same : x ≡ v = cc in w.listed v ∙ ap (contains v) e ∙ ground (arith, same)

-- The FIFO policy is lawful.
pub fifo_policy-IsLawful : IsLawful fifo_policy
unfolding add remove choose_segment contains
fifo_policy-IsLawful = record {
  tracks-add = λ s i g j. ground arith;
  tracks-remove = λ s i j. ground arith;
  tracks-update = λ s i g j. refl;
  tracks-choose = λ s j. ground arith;
  choose-tracks = λ s v w. choose_segment-tracks s s.queue v refl w;
  add-IsSound = λ s i g w. add-IsQueue s i g w;
  remove-IsSound = λ s i w. remove-IsQueue s i w;
  update-IsSound = λ s i g w. w;
  choose-IsSound = λ s w. choose_segment-IsQueue s s.queue refl w;
}
