-- ===== src/Cache/Lru/Room.antt =====
-- The loop of the LRU cache that makes room for a block, over devices that accept a number of writes.
use ssd_waf.Base.{
  drop_first, drop_first-contains, ℕ, zero, suc, ◌+◌, ◌≤◌, ◌<◌, ◌≡◌, inl, inr, refl, ap, true,
  false, arith, List, [], ◌∷◌, length, if◌then◌else◌, leb, contains, ok, Bool-cases,
}
use ssd_waf.Device.{Device, Accepts}
use ssd_waf.Cache.Lru.{LruCache, make_room}
use ssd_waf.Cache.Lru.Eviction.{IsCache, Inserted, skip_cold-IsCache, evict_one_block-Inserted}

-- The list after room was made.
abbrev pub room_for : ℕ → List ℕ → List ℕ
room_for cap q = if leb cap (length q) then drop_first q else q

pub contains-room_for :
    (cap : ℕ) (q : List ℕ) (k : ℕ) → contains k (room_for cap q) ≡ true → contains k q ≡ true
contains-room_for cap q k h = ground (arith, drop_first-contains q k)

module _ (d : Device) (Ready : ℕ → d.State → Type 0) (unit_size cache_limit cold_limit quota : ℕ)
    (on_cache : Accepts d Ready unit_size cache_limit quota)
    (on_cold : Accepts d Ready unit_size cold_limit quota) where
  abbrev pub Good : ℕ → ℕ → LruCache d → Type 0
  Good c f s = IsCache d Ready unit_size cache_limit cold_limit quota c f s

  abbrev pub Step : ℕ → ℕ → LruCache d → LruCache d → List ℕ → ℕ → Type 0
  Step c f s t q n = Inserted d Ready unit_size cache_limit cold_limit quota c f s t q n

  not_full :
      (fuel : ℕ) (s : LruCache d)
      → leb s.capacity s.table.map_size ≡ false
      → make_room d fuel s ≡ ok s
  unfolding make_room
  not_full zero s h = rw h
  not_full (suc fuel) s h = rw (h, make_room)

  make_room-full :
      (c f fuel : ℕ) (s : LruCache d) (oldest : ℕ) (rest : List ℕ)
      → f < quota
      → Good c f s
      → s.table.cache_list ≡ oldest ∷ rest
      → s.capacity ≤ length s.table.cache_list
      → (t : LruCache d) × (make_room d (suc fuel) s ≡ ok t)
        × Step c (f + 1) s t (room_for s.capacity s.table.cache_list) 0
        × (length t.table.cache_list < t.capacity)
  unfolding make_room
  make_room-full c f fuel s oldest rest left w e full =
      let (u, q, v, less) =
        evict_one_block-Inserted d Ready unit_size cache_limit cold_limit quota on_cache on_cold c f
          s oldest rest left w e in
      let filled : leb s.capacity s.table.map_size ≡ true = ground (arith, w.table.sized) in
      let filled' : leb s.capacity (length s.table.cache_list) ≡ true = ground arith in
      let t : LruCache d = record u { evicted_blocks = u.evicted_blocks + 1 } in
      let shorter : length u.table.cache_list + 1 ≡ length s.table.cache_list =
        omega (arith, less, v.cache.table.sized, w.table.sized) in
      let vacant : leb u.capacity u.table.map_size ≡ false =
        ground (arith, less, w.bounded, v.same_capacity, w.table.sized) in
      (
        t,
        rw (filled, make_room) (rw q (not_full fuel t vacant)),
        record {
          cache = record {
            table = v.cache.table;
            some_capacity = v.cache.some_capacity;
            backed = v.cache.backed;
            bounded = v.cache.bounded;
            some_bytes = v.cache.some_bytes;
            whole = v.cache.whole;
            cache_fits = v.cache.cache_fits;
            cold_fits = v.cache.cold_fits;
            cache_ready = v.cache.cache_ready;
            cold_ready = v.cache.cold_ready;
          };
          queue = rw (filled', e) v.queue;
          same_capacity = v.same_capacity;
          same_blocks = v.same_blocks;
          size = v.size;
        },
        omega (arith, shorter, w.bounded, v.same_capacity),
      )

  pub make_room-Step :
      (c f fuel : ℕ) (s : LruCache d)
      → f < quota
      → Good c f s
      → (t : LruCache d) × (make_room d (suc fuel) s ≡ ok t)
        × Step c (f + 1) s t (room_for s.capacity s.table.cache_list) 0
        × (length t.table.cache_list < t.capacity)
  make_room-Step c f fuel s left w =
      elim (Bool-cases (leb s.capacity (length s.table.cache_list))) [
        | inl full ↦ from_list s.table.cache_list refl (ground arith)
        | inr vacant ↦ (
          s,
          not_full (suc fuel) s (ground (arith, w.table.sized)),
          record {
            cache =
                skip_cold-IsCache d Ready unit_size cache_limit cold_limit quota on_cache on_cold c
                  f s w;
            queue = rw vacant;
            same_capacity = refl;
            same_blocks = refl;
            size = omega arith;
          },
          ground arith,
        )
      ]
    where
      from_list :
          (l : List ℕ)
          → s.table.cache_list ≡ l
          → s.capacity ≤ length s.table.cache_list
          → (t : LruCache d) × (make_room d (suc fuel) s ≡ ok t)
            × Step c (f + 1) s t (room_for s.capacity s.table.cache_list) 0
            × (length t.table.cache_list < t.capacity)
      from_list [] e full = absurd (omega (arith, w.some_capacity, ap length e))
      from_list (oldest ∷ rest) e full = make_room-full c f fuel s oldest rest left w e full
