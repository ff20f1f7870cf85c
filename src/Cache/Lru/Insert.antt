-- ===== src/Cache/Lru/Insert.antt =====
-- A block of a batch of the LRU cache, over devices that accept a number of writes.
use ssd_waf.Base.{
  contains-append, contains-remove_key, length-remove_key, remove_key, ℕ, suc, ◌+◌, ◌*◌, ◌%◌, ◌≤◌,
  ◌<◌, ◌≡◌, ◌∙◌, inl, inr, refl, sym, ap, subst, true, false, ◌||◌, arith, List, [], ◌∷◌, ◌++◌,
  length, length-append, ◌==◌, contains, ok, Bool-cases,
}
use ssd_waf.Device.{Device, Accepts}
use ssd_waf.Cache.{Table, exists, block_of}
use ssd_waf.Allocator.{Allocator}
use ssd_waf.Cache.Keys.{entry-exists, IsTable, insert_entry-IsTable}
use ssd_waf.Cache.Lru.{OpType, LruCache, write_block, insert_block, touch, lru_step}
use ssd_waf.Cache.Lru.Recency.{touch-IsTable}
use ssd_waf.Cache.Lru.Eviction.{IsCache, Inserted, skip_cold-IsCache, write_block-Inserted}
use ssd_waf.Cache.Lru.Room.{contains-room_for, make_room-Step}

module _ (d : Device) (Ready : ℕ → d.State → Type 0) (unit_size cache_limit cold_limit quota : ℕ)
    (on_cache : Accepts d Ready unit_size cache_limit quota)
    (on_cold : Accepts d Ready unit_size cold_limit quota) where
  abbrev pub Ok : ℕ → ℕ → LruCache d → Type 0
  Ok c f s = IsCache d Ready unit_size cache_limit cold_limit quota c f s

  abbrev pub To : ℕ → ℕ → LruCache d → LruCache d → List ℕ → ℕ → Type 0
  To c f s t q n = Inserted d Ready unit_size cache_limit cold_limit quota c f s t q n

  counted :
      (c f : ℕ) (s t : LruCache d) (q : List ℕ) (n : ℕ)
      → To c f s t q 0
      → To c f s (record t { write_size_to_cache = t.write_size_to_cache + n }) q n
  counted c f s t q n v = record {
    cache = record {
      table = v.cache.table;
      some_capacity = v.cache.some_capacity;
      backed = v.cache.backed;
      bounded = v.cache.bounded;
      some_bytes = v.cache.some_bytes;
      whole = v.cache.whole;
      cache_fits = v.cache.cache_fits;
      cold_fits = v.cache.cold_fits;
      cache_ready = v.cache.cache_ready;
      cold_ready = v.cache.cold_ready;
    };
    queue = v.queue;
    same_capacity = v.same_capacity;
    same_blocks = v.same_blocks;
    size = omega (arith, v.size);
  }

  pub Step-trans :
      (c f c' f' : ℕ) (s t u : LruCache d) (q r : List ℕ) (m n : ℕ)
      → To c f s t q m
      → To c' f' t u r n
      → To c' f' s u r (m + n)
  Step-trans c f c' f' s t u q r m n x g = record {
    cache = g.cache;
    queue = g.queue;
    same_capacity = g.same_capacity ∙ x.same_capacity;
    same_blocks = g.same_blocks ∙ x.same_blocks;
    size = omega (arith, x.size, g.size);
  }

  -- A write to the cold store that was not made is counted.
  aged : (c f : ℕ) (s t : LruCache d) (q : List ℕ) (n : ℕ) → To c f s t q n → To c (f + 1) s t q n
  aged c f s t q n v = record {
    cache =
        skip_cold-IsCache d Ready unit_size cache_limit cold_limit quota on_cache on_cold c f t
          v.cache;
    queue = v.queue;
    same_capacity = v.same_capacity;
    same_blocks = v.same_blocks;
    size = v.size;
  }

  -- The table replaced by one with the keys that it had and perhaps one more, whose block fits.
  retabled :
      (c f : ℕ) (s : LruCache d) (u : Table) (k : ℕ)
      → Ok c f s
      → IsTable u
      → length u.cache_list ≤ s.capacity
      → u.allocator.max_blocks ≡ s.table.allocator.max_blocks
      → k * s.cache_block_size + s.cache_block_size ≤ cold_limit
      → ((j : ℕ)
          → contains j u.cache_list ≡ true
          → (k == j || contains j s.table.cache_list) ≡ true)
      → To c f s (record s { table = u }) u.cache_list 0
  retabled c f s u k w x bound blocks fits keys = record {
    cache = record {
      table = x;
      some_capacity = w.some_capacity;
      backed = omega (arith, w.backed, blocks);
      bounded = bound;
      some_bytes = w.some_bytes;
      whole = w.whole;
      cache_fits =
          subst (λ (n : ℕ). n * s.cache_block_size ≤ cache_limit) (sym blocks) w.cache_fits;
      cold_fits = λ j h. elim (Bool-cases (k == j)) [
        | inl q ↦
            subst (λ (i : ℕ). i * s.cache_block_size + s.cache_block_size ≤ cold_limit)
              (ground arith) fits
        | inr q ↦ w.cold_fits j (ground (arith, keys j h))
      ];
      cache_ready = w.cache_ready;
      cold_ready = w.cold_ready;
    };
    queue = refl;
    same_capacity = refl;
    same_blocks = refl;
    size = omega arith;
  }

  insert_block-hit_eq :
      (st : ℕ) (op : OpType) (s t : LruCache d) (k n id : ℕ)
      → exists s.table k ≡ true
      → block_of s.table k ≡ id
      → write_block d (record s { table = touch s.table k }) id n st op ≡ ok t
      → insert_block d st op s (k, n)
        ≡ ok (record t { write_size_to_cache = t.write_size_to_cache + n })
  unfolding insert_block
  insert_block-hit_eq st op s t k n id h same q = rw h (rw same (rw q))

  insert_block-hit :
      (c f st : ℕ) (op : OpType) (s : LruCache d) (k n : ℕ)
      → c < quota
      → f < quota
      → Ok c f s
      → k * s.cache_block_size + s.cache_block_size ≤ cold_limit
      → n ≤ s.cache_block_size
      → n % unit_size ≡ 0
      → exists s.table k ≡ true
      → (t : LruCache d) × (insert_block d st op s (k, n) ≡ ok t)
        × To (c + 1) (f + 1) s t (lru_step s.capacity s.table.cache_list k) n
  unfolding insert_block lru_step contains
  insert_block-hit c f st op s k n c_left f_left w fits small aligned h =
      let here : contains k s.table.cache_list ≡ true = w.table.listed k ∙ h in
      let (x, l, same) = touch-IsTable s.table w.table k h in
      let queue : (touch s.table k).cache_list ≡ lru_step s.capacity s.table.cache_list k =
        rw here l in
      let bound : length (touch s.table k).cache_list ≤ s.capacity = omega (
        arith,
        w.bounded,
        ap length l,
        length-append (remove_key k s.table.cache_list) (k ∷ []),
        length-remove_key k s.table.cache_list here,
      ) in
      let keys : (j : ℕ)
          → contains j (touch s.table k).cache_list ≡ true
          → (k == j || contains j s.table.cache_list) ≡ true =
        λ j c. ground (
          arith,
          c,
          ap (contains j) l,
          contains-append (remove_key k s.table.cache_list) (k ∷ []) j,
          contains-remove_key k s.table.cache_list j w.table.distinct,
        ) in
      let s1 : LruCache d = record s { table = touch s.table k } in
      let r =
        retabled c f s (touch s.table k) k w x bound (ap (λ (a : Allocator). a.max_blocks) same)
          fits keys in
      let (id, at, same_id) = entry-exists s.table k h in
      let (lt, _) = w.table.held k id at in
      let (t, q, v) =
        write_block-Inserted d Ready unit_size cache_limit cold_limit quota on_cache on_cold c f s1
          id n st op c_left r.cache (subst (λ (a : Allocator). id < a.max_blocks) (sym same) lt)
          small aligned in
      (
        record t { write_size_to_cache = t.write_size_to_cache + n },
        insert_block-hit_eq st op s t k n id h same_id q,
        counted (c + 1) (f + 1) s t _ n (
            subst (λ (q : List ℕ). To (c + 1) (f + 1) s t q 0) queue
              (aged (c + 1) f s t _ 0 (
                Step-trans c f (c + 1) f s s1 t (touch s.table k).cache_list
                  (touch s.table k).cache_list 0 0 r v))),
      )

  insert_block-miss :
      (c f st : ℕ) (op : OpType) (s : LruCache d) (k n : ℕ)
      → c < quota
      → f < quota
      → Ok c f s
      → k * s.cache_block_size + s.cache_block_size ≤ cold_limit
      → n ≤ s.cache_block_size
      → n % unit_size ≡ 0
      → exists s.table k ≡ false
      → (t : LruCache d) × (insert_block d st op s (k, n) ≡ ok t)
        × To (c + 1) (f + 1) s t (lru_step s.capacity s.table.cache_list k) n
  unfolding insert_block lru_step contains
  insert_block-miss c f st op s k n c_left f_left w fits small aligned h =
      let away : contains k s.table.cache_list ≡ false = w.table.listed k ∙ h in
      let (r, q, v, room) =
        make_room-Step d Ready unit_size cache_limit cold_limit quota on_cache on_cold c f
          s.table.map_size s f_left w in
      let size : s.table.map_size + 1 ≡ suc s.table.map_size = omega arith in
      let new : exists r.table k ≡ false =
        sym (v.cache.table.listed k)
        ∙ ground (
          arith,
          away,
          ap (contains k) v.queue,
          contains-room_for s.capacity s.table.cache_list k,
        ) in
      let (u, id, e, x, l, blocks, lt) =
        insert_entry-IsTable r.table v.cache.table k new (omega (arith, room, v.cache.backed)) in
      let s1 : LruCache d = record r { table = u } in
      let bound : length u.cache_list ≤ r.capacity =
        omega (arith, room, ap length l, length-append r.table.cache_list (k ∷ [])) in
      let fits' = subst (λ (b : ℕ). k * b + b ≤ cold_limit) (sym v.same_blocks) fits in
      let y = retabled c (f + 1) r u k v.cache x bound blocks fits' (λ j c.
        ground (arith, c, ap (contains j) l, contains-append r.table.cache_list (k ∷ []) j)) in
      let (t, q', z) =
        write_block-Inserted d Ready unit_size cache_limit cold_limit quota on_cache on_cold c
          (f + 1) s1 id n st op c_left y.cache (omega (arith, blocks, lt))
          (omega (arith, small, v.same_blocks)) aligned in
      let queue : u.cache_list ≡ lru_step s.capacity s.table.cache_list k =
        rw away (l ∙ ap (λ (q : List ℕ). q ++ (k ∷ [])) v.queue) in
      (
        record t { write_size_to_cache = t.write_size_to_cache + n },
        rw h (rw size (rw q (rw e (rw q')))),
        counted (c + 1) (f + 1) s t _ n (
            subst (λ (q : List ℕ). To (c + 1) (f + 1) s t q 0) queue
              (Step-trans c (f + 1) (c + 1) (f + 1) s s1 t u.cache_list u.cache_list 0 0
                (Step-trans c (f + 1) c (f + 1) s r s1 _ u.cache_list 0 0 v y) z)),
      )

  pub insert_block-Inserted :
      (c f st : ℕ) (op : OpType) (s : LruCache d) (k n : ℕ)
      → c < quota
      → f < quota
      → Ok c f s
      → k * s.cache_block_size + s.cache_block_size ≤ cold_limit
      → n ≤ s.cache_block_size
      → n % unit_size ≡ 0
      → (t : LruCache d) × (insert_block d st op s (k, n) ≡ ok t)
        × To (c + 1) (f + 1) s t (lru_step s.capacity s.table.cache_list k) n
  insert_block-Inserted c f st op s k n c_left f_left w fits small aligned =
      elim (Bool-cases (exists s.table k)) [
        | inl h ↦ insert_block-hit c f st op s k n c_left f_left w fits small aligned h
        | inr h ↦ insert_block-miss c f st op s k n c_left f_left w fits small aligned h
      ]
