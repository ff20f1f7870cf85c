-- ===== src/Ghost/Tests.antt =====
-- Runs of the ghost list.
use ssd_waf.Base.{
  ℕ, ◌+◌, ◌≡◌, refl, arith, Bool, true, false, List, [], ◌∷◌, contains, remove_key, length, Result,
  ok, fault, spin, thrown, ◌==◌, ◌||◌,
}
use ssd_waf.Ghost.{GhostCache, access, push, IsGhost, access-IsGhost, push-IsGhost}

-- Two numbers of at most two.
abbrev two : GhostCache
two = record { capacity = 2; cache = 4 ∷ 9 ∷ []; lookup = λ k. k == 4 || k == 9; evict_count = 0 }

two-IsGhost : IsGhost two
unfolding contains
two-IsGhost = record {
  distinct = (refl, (refl, tt));
  listed = λ k. ground arith;
  bounded = omega arith;
}

push-IsGhost_example :
    (h : GhostCache) × (push two 7 ≡ ok (h, false))
    × IsGhost h
    × (h.cache ≡ 9 ∷ 7 ∷ [])
    × (contains 7 h.cache ≡ true)
    × (h.evict_count + length h.cache + 0 ≡ 0 + 2 + 1)
unfolding contains
push-IsGhost_example = push-IsGhost two two-IsGhost 7 (omega arith)

access-IsGhost_example :
    IsGhost (access two 4).0
    × ((access two 4).1 ≡ true)
    × ((access two 4).0.cache ≡ 9 ∷ [])
    × (contains 4 (access two 4).0.cache ≡ false)
unfolding contains remove_key
access-IsGhost_example = access-IsGhost two two-IsGhost 4

-- A number that is pushed again leaves.
cache_of : Result (GhostCache × Bool) → List ℕ
cache_of (ok (g, _)) = g.cache
cache_of fault = []
cache_of thrown = []
cache_of spin = []

push-again : cache_of (push two 4) ≡ 9 ∷ []
unfolding cache_of push remove_key
push-again = refl
