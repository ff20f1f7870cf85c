-- ===== src/Policy/Fifo/Tests.antt =====
-- Runs of the FIFO policy.
use ssd_waf.Base.{ℕ, ◌≡◌, refl, Option, some, none, List, [], ◌∷◌, arith}
use ssd_waf.Base
use ssd_waf.Policy.{Segment}
use ssd_waf.Policy.Fifo.{Fifo, init, add, remove, choose_segment, IsQueue}
use ssd_waf.Policy.Fifo.Order.{victims, add_all, victims-add_all}

abbrev segment : Segment
segment = record { write_ptr = 8; valid_cnt = 3; class_num = 0; create_timestamp = 0 }

abbrev three : Fifo
three = add (add (add init 4 segment) 2 segment) 7 segment

choose-three : (choose_segment three).0 ≡ some 4
unfolding init add choose_segment
choose-three = refl

choose-next : (choose_segment (remove (choose_segment three).1 2)).0 ≡ some 7
unfolding init add choose_segment remove Base.remove_key
choose-next = refl

three-IsQueue : IsQueue three
unfolding init add Base.contains
three-IsQueue = record { distinct = (refl, (refl, (refl, tt))); listed = λ k. ground arith }

-- The segments 9 and 5 are added, and 2 is removed.
victims-add_all_example :
    IsQueue (remove (add_all three ((9, segment) ∷ (5, segment) ∷ [])) 2)
    × (victims 6 (remove (add_all three ((9, segment) ∷ (5, segment) ∷ [])) 2) ≡ 4 ∷ 7 ∷ 9 ∷ 5 ∷ [])
unfolding init add Base.contains Base.remove_key
victims-add_all_example =
    victims-add_all three ((9, segment) ∷ (5, segment) ∷ []) 2 6 three-IsQueue
      (refl, (refl, (refl, (refl, (refl, tt))))) (omega arith)
