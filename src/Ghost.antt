-- ===== src/Ghost.antt =====
-- `GhostCache`, ghost_cache.h and ghost_cache.cpp: the numbers of the last blocks that left a cache.
mod Tests
use ssd_waf.Base.{
  ℕ, ◌+◌, ◌≤◌, ◌<◌, ◌≡◌, ◌∙◌, sym, ap, subst, inl, inr, refl, Bool, true, false, not, ◌&&◌, ◌||◌,
  arith, List, [], ◌∷◌, ◌++◌, length, length-append, contains, Distinct, drop_first, remove_key,
  contains-append, append-Distinct, drop_first-contains, contains-remove_key, remove_key-Distinct,
  length-remove_key, if◌then◌else◌, ◌==◌, leb, update, Result, ok, fault, ◌>>=◌, Bool-cases,
}

-- `cache_`, its front first. An entry of `lookup_` is the place of the number in the list, so that
-- it only matters whether there is one.
pub record GhostCache : Type 0 where
  pub capacity : ℕ
  pub cache : List ℕ
  pub lookup : ℕ → Bool
  pub evict_count : ℕ

unfoldable pub init : ℕ → GhostCache
init capacity = record { capacity = capacity; cache = []; lookup = λ _. false; evict_count = 0 }

unfoldable pub reset : GhostCache → GhostCache
reset g = record g { cache = []; lookup = λ _. false; evict_count = 0 }

unfoldable pub access : GhostCache → ℕ → GhostCache × Bool
access g block_id =
    if g.lookup block_id
    then (
      record g { cache = remove_key block_id g.cache; lookup = update g.lookup block_id false },
      true,
    )
    else (g, false)

-- The oldest number leaves a full list. `front` of an empty list is undefined.
unfoldable pub evict_if_full : GhostCache → Result GhostCache
evict_if_full g =
    if leb g.capacity (length g.cache)
    then elim g.cache [
      | [] ↦ fault
      | evicted ∷ rest ↦ ok (record g {
        cache = rest;
        lookup = update g.lookup evicted false;
        evict_count = g.evict_count + 1;
      })
    ]
    else ok g

unfoldable pub push : GhostCache → ℕ → Result (GhostCache × Bool)
push g block_id =
    if g.lookup block_id
    then ok (
      record g { cache = remove_key block_id g.cache; lookup = update g.lookup block_id false },
      true,
    )
    else do
      h ← evict_if_full g
      ok (
        record h { cache = h.cache ++ (block_id ∷ []); lookup = update h.lookup block_id true },
        false,
      )

pub record IsGhost (g : GhostCache) : Type 0 where
  pub distinct : Distinct g.cache
  pub listed : (k : ℕ) → g.lookup k ≡ contains k g.cache
  pub bounded : length g.cache ≤ g.capacity

pub init-IsGhost : (capacity : ℕ) → IsGhost (init capacity)
unfolding init contains
init-IsGhost capacity = record { distinct = tt; listed = λ k. refl; bounded = omega arith }

module _ (g : GhostCache) (w : IsGhost g) where
  removed-IsGhost :
      (k : ℕ)
      → contains k g.cache ≡ true
      → IsGhost (record g { cache = remove_key k g.cache; lookup = update g.lookup k false })
  removed-IsGhost k here = record {
    distinct = remove_key-Distinct k g.cache w.distinct;
    listed = λ j. ground (arith, w.listed j, contains-remove_key k g.cache j w.distinct);
    bounded = omega (arith, w.bounded, length-remove_key k g.cache here);
  }

  -- In a well-formed list, `access` tells whether the number is there, takes it out, leaves the
  -- others in their order, and keeps the list well formed.
  pub access-IsGhost :
      (k : ℕ)
      → IsGhost (access g k).0
        × ((access g k).1 ≡ contains k g.cache)
        × ((access g k).0.cache ≡ (if contains k g.cache then remove_key k g.cache else g.cache))
        × (contains k (access g k).0.cache ≡ false)
  unfolding access
  access-IsGhost k = elim (Bool-cases (contains k g.cache)) [
    | inl here ↦
        let found : g.lookup k ≡ true = w.listed k ∙ here in
        rw found (
          removed-IsGhost k here,
          sym here,
          rw here,
          ground (arith, contains-remove_key k g.cache k w.distinct),
        )
    | inr away ↦
        let missed : g.lookup k ≡ false = w.listed k ∙ away in
        rw missed (w, sym away, rw away, away)
  ]

  evict_if_full-eq :
      (x : ℕ) (rest : List ℕ)
      → leb g.capacity (length g.cache) ≡ true
      → g.cache ≡ x ∷ rest
      → evict_if_full g
        ≡ ok (record g {
          cache = rest;
          lookup = update g.lookup x false;
          evict_count = g.evict_count + 1;
        })
  unfolding evict_if_full
  evict_if_full-eq x rest full e = rw full (rw e)

  evict_if_full-IsGhost :
      (pool : List ℕ)
      → g.cache ≡ pool
      → 0 < g.capacity
      → (h : GhostCache) × (evict_if_full g ≡ ok h)
        × IsGhost h
        × (h.cache ≡ (if leb g.capacity (length g.cache) then drop_first g.cache else g.cache))
        × (length h.cache < h.capacity)
        × (h.evict_count + length h.cache ≡ g.evict_count + length g.cache)
  unfolding evict_if_full contains
  evict_if_full-IsGhost [] e pos =
      let vacant : leb g.capacity (length g.cache) ≡ false = ground (arith, ap length e) in
      (g, rw vacant, w, rw vacant, ground arith, refl)
  evict_if_full-IsGhost (x ∷ rest) e pos = elim (Bool-cases (leb g.capacity (length g.cache))) [
    | inl full ↦
        let d : Distinct (x ∷ rest) = subst Distinct e w.distinct in
        let listed : (k : ℕ) → g.lookup k ≡ (k == x || contains k rest) =
          λ k. w.listed k ∙ ap (contains k) e in
        let h : GhostCache = record g {
          cache = rest;
          lookup = update g.lookup x false;
          evict_count = g.evict_count + 1;
        } in
        let oldest : drop_first g.cache ≡ rest = ap drop_first e in
        (
          h,
          evict_if_full-eq x rest full e,
          record {
            distinct = d.1;
            listed = λ k. ground (arith, listed k, d.0);
            bounded = omega (arith, w.bounded, ap length e);
          },
          rw full (sym oldest),
          omega (arith, w.bounded, ap length e),
          omega (arith, ap length e),
        )
    | inr vacant ↦ (g, rw vacant, w, rw vacant, ground arith, refl)
  ]

  -- In a well-formed list of positive capacity, `push` of a number that is there takes it out, and
  -- `push` of another appends it, after the oldest has left a full list: no access is undefined, the
  -- list is well formed, the result tells whether the number was there, and the evictions are those
  -- that the lengths tell.
  pub push-IsGhost :
      (k : ℕ)
      → 0 < g.capacity
      → (h : GhostCache) × (push g k ≡ ok (h, contains k g.cache))
        × IsGhost h
        × (h.cache ≡ (
            if contains k g.cache
            then remove_key k g.cache
            else (if leb g.capacity (length g.cache) then drop_first g.cache else g.cache)
              ++ (k ∷ [])))
        × (contains k h.cache ≡ not (contains k g.cache))
        × (h.evict_count + length h.cache + (if contains k g.cache then 1 else 0)
            ≡ g.evict_count + length g.cache + (if contains k g.cache then 0 else 1))
  unfolding push contains
  push-IsGhost k pos = elim (Bool-cases (contains k g.cache)) [
    | inl here ↦
        let found : g.lookup k ≡ true = w.listed k ∙ here in
        (
          record g { cache = remove_key k g.cache; lookup = update g.lookup k false },
          rw found (rw here),
          removed-IsGhost k here,
          rw here,
          ground (arith, here, contains-remove_key k g.cache k w.distinct),
          rw here (omega (arith, length-remove_key k g.cache here)),
        )
    | inr away ↦
        let missed : g.lookup k ≡ false = w.listed k ∙ away in
        let (h, q, v, l, room, count) = evict_if_full-IsGhost g.cache refl pos in
        let kept : contains k h.cache ≡ false =
          ap (contains k) l ∙ ground (arith, away, drop_first-contains g.cache k) in
        (
          record h { cache = h.cache ++ (k ∷ []); lookup = update h.lookup k true },
          rw missed (rw away (rw q)),
          record {
            distinct = append-Distinct h.cache k v.distinct kept;
            listed = λ j. ground (arith, v.listed j, contains-append h.cache (k ∷ []) j);
            bounded = omega (arith, room, length-append h.cache (k ∷ []));
          },
          rw away (ap (λ (c : List ℕ). c ++ (k ∷ [])) l),
          ground (arith, away, contains-append h.cache (k ∷ []) k),
          rw away (omega (arith, count, length-append h.cache (k ∷ []))),
        )
  ]
