-- ===== src/LogFifo/Batch.antt =====
-- `batch_insert` of `LogFIFOCache`: a block, and a whole request.
use native.Mathlib.Nat.{mod-add-mod, mod-eq_of_lt}
use ssd_waf.Base.{
  ℕ, suc, ◌+◌, ◌*◌, ◌%◌, ◌≤◌, ◌<◌, ◌≡◌, ◌∙◌, sym, ap, subst, refl, false, Option, none, some, List,
  [], ◌∷◌, length, if◌then◌else◌, ◌==◌, arith, ok,
}
use ssd_waf.Device.{Device, Accepts}
use ssd_waf.LogFifo.{LogFifo, append, forget, make_room, insert_block, insert_blocks, batch_insert}
use ssd_waf.LogFifo.Ring.{IsRing, append-IsRing}
use ssd_waf.LogFifo.Insert.{points, mapped, Stays, Placed, forget-Stays, make_room-Stays}

-- The bytes of the blocks of a request.
unfoldable pub total_bytes : List (ℕ × ℕ) → ℕ
total_bytes [] = 0
total_bytes ((key, lba_size) ∷ bs) = lba_size + total_bytes bs

-- The block has a place in the store, and the request is of whole units.
unfoldable pub AllFit : ℕ → ℕ → ℕ → List (ℕ × ℕ) → Type 0
AllFit unit_size block_size limit [] = Unit {0}
AllFit unit_size block_size limit ((key, lba_size) ∷ bs) =
    (key * block_size + block_size ≤ limit)
    × (key * block_size + lba_size ≤ limit)
    × (lba_size % unit_size ≡ 0)
    × AllFit unit_size block_size limit bs

mapped-le : (o : Option ℕ) → mapped o ≤ 1
mapped-le none = omega arith
mapped-le (some p) = omega arith

module _ (d : Device) (Ready : ℕ → d.State → Type 0) (unit_size limit quota : ℕ)
    (a : Accepts d Ready unit_size limit quota) where
  -- On a well-formed ring over a store that accepts a number of writes, which the evictions and the
  -- entries have not reached, a block with a place in the store is inserted at the write pointer,
  -- which moves on around the ring: its key leads there, the entry that led there is gone, and no
  -- other has changed. The entries and the evictions together grow by one, unless the key was in
  -- the cache; the bytes are counted.
  pub insert_block-Placed :
      (s : LogFifo d) (key lba_size : ℕ)
      → IsRing d Ready unit_size limit quota s
      → key * s.cache_block_size + s.cache_block_size ≤ limit
      → key * s.cache_block_size + lba_size ≤ limit
      → lba_size % unit_size ≡ 0
      → s.evicted_blocks + s.mapping_size < quota
      → (t : LogFifo d) × (insert_block d s key lba_size ≡ ok t)
        × Placed d Ready unit_size limit quota s t key lba_size
  unfolding insert_block append
  insert_block-Placed s key lba_size w place inside whole left =
      let (t, e, x, m, evicted, n) =
        forget-Stays d Ready unit_size limit quota a s key lba_size w inside whole in
      let (u, q, y, m', free, n') = make_room-Stays d Ready unit_size limit quota a t x.ring in
      appended t e x m evicted n u q y m' free n'
    where
      appended :
          (t : LogFifo d)
          → forget d s key lba_size ≡ ok t
          → Stays d Ready unit_size limit quota s t
          → ((k : ℕ) → t.mapping k ≡ (if key == k then none else s.mapping k))
          → (t.evicted_blocks ≡ s.evicted_blocks)
          → (t.mapping_size + mapped (s.mapping key) ≡ s.mapping_size)
          → (u : LogFifo d) → make_room d t ≡ ok u
          → Stays d Ready unit_size limit quota t u
          → ((k : ℕ)
              → u.mapping k ≡ (if points (t.mapping k) t.write_ptr then none else t.mapping k))
          → ((u.log_buffer u.write_ptr).valid ≡ false)
          → (u.evicted_blocks + u.mapping_size ≡ t.evicted_blocks + t.mapping_size)
          → (t : LogFifo d) × (insert_block d s key lba_size ≡ ok t)
            × Placed d Ready unit_size limit quota s t key lba_size
      appended t e x m evicted n u q y m' free n' =
          let gone : t.mapping key ≡ none = ground (arith, m key) in
          let absent : u.mapping key ≡ none = ground (arith, m' key, gone) in
          let place' =
            subst (λ (b : ℕ). key * b + b ≤ limit) (sym (y.same_bytes ∙ x.same_bytes)) place in
          (
            append d u key lba_size,
            rw e (rw q refl),
            record {
              ring =
                  append-IsRing d Ready unit_size limit quota u y.ring key lba_size free absent
                    place' (ground (arith, left, n, n', evicted));
              next = ground (arith, x.same_ptr, y.same_ptr, x.same_capacity, y.same_capacity);
              same_capacity = y.same_capacity ∙ x.same_capacity;
              same_bytes = y.same_bytes ∙ x.same_bytes;
              written = ground (arith, x.same_written, y.same_written);
              entries = λ k. ground (arith, m k, m' k, x.same_ptr, y.same_ptr);
              conserved = ground (arith, absent, n, n', evicted);
            },
          )

  -- The state after a request.
  pub record Ran (s t : LogFifo d) (bs : List (ℕ × ℕ)) : Type 0 where
    pub ring : IsRing d Ready unit_size limit quota t
    pub same_capacity : t.capacity ≡ s.capacity
    pub moved : t.write_ptr ≡ (s.write_ptr + length bs) % s.capacity
    pub bytes : t.write_size_to_cache ≡ s.write_size_to_cache + total_bytes bs
    pub no_loss : t.evicted_blocks + t.mapping_size ≤ s.evicted_blocks + s.mapping_size + length bs
    pub no_gain : s.evicted_blocks + s.mapping_size ≤ t.evicted_blocks + t.mapping_size

  Ran-none : (s : LogFifo d) → IsRing d Ready unit_size limit quota s → Ran s s []
  unfolding total_bytes
  Ran-none s w = record {
    ring = w;
    same_capacity = refl;
    moved =
        let stays : s.write_ptr ≡ s.write_ptr + 0 = omega arith in
        sym (mod-eq_of_lt w.inside) ∙ ap (λ (n : ℕ). n % s.capacity) stays;
    bytes = omega arith;
    no_loss = omega arith;
    no_gain = omega arith;
  }

  Ran-step :
      (s t u : LogFifo d) (key lba_size : ℕ) (bs : List (ℕ × ℕ))
      → Placed d Ready unit_size limit quota s t key lba_size
      → Ran t u bs
      → Ran s u ((key, lba_size) ∷ bs)
  unfolding total_bytes
  Ran-step s t u key lba_size bs x y =
      let one : mapped (s.mapping key) ≤ 1 = mapped-le (s.mapping key) in
      let round : u.write_ptr ≡ ((s.write_ptr + 1) % s.capacity + length bs) % s.capacity =
        y.moved
        ∙ ap (λ (p : ℕ). (p + length bs) % t.capacity) x.next
        ∙ ap (λ (c : ℕ). ((s.write_ptr + 1) % s.capacity + length bs) % c) x.same_capacity in
      let sum : s.write_ptr + 1 + length bs ≡ s.write_ptr + suc (length bs) = omega arith in
      record {
        ring = y.ring;
        same_capacity = y.same_capacity ∙ x.same_capacity;
        moved =
            round
            ∙ mod-add-mod (s.write_ptr + 1) s.capacity (length bs)
            ∙ ap (λ (n : ℕ). n % s.capacity) sum;
        bytes = omega (arith, y.bytes, x.written);
        no_loss = omega (arith, y.no_loss, x.conserved, one);
        no_gain = omega (arith, y.no_gain, x.conserved, one);
      }

  insert_blocks-Ran :
      (bs : List (ℕ × ℕ)) (s : LogFifo d)
      → IsRing d Ready unit_size limit quota s
      → AllFit unit_size s.cache_block_size limit bs
      → s.evicted_blocks + s.mapping_size + length bs ≤ quota
      → (t : LogFifo d) × (insert_blocks d s bs ≡ ok t) × Ran s t bs
  unfolding insert_blocks AllFit
  insert_blocks-Ran [] s w fit left = (s, refl, Ran-none s w)
  insert_blocks-Ran ((key, lba_size) ∷ bs) s w (place, inside, whole, fit) left =
      let (t, e, x) =
        insert_block-Placed s key lba_size w place inside whole (omega (arith, left)) in
      let fit' = subst (λ (n : ℕ). AllFit unit_size n limit bs) (sym x.same_bytes) fit in
      let (u, q, y) = insert_blocks-Ran bs t x.ring fit' (omega (arith, left, x.conserved)) in
      (u, rw e q, Ran-step s t u key lba_size bs x y)

  -- A request of blocks that have a place in the store is served on a well-formed ring over a store
  -- that accepts a number of writes, which the evictions, the entries and the blocks of the request
  -- do not exceed in sum: the ring is well formed, the write pointer has moved by the number of the
  -- blocks, the bytes are counted, and the entries and the evictions together have grown by at most
  -- that number.
  pub batch_insert-Ran :
      (bs : List (ℕ × ℕ)) (s : LogFifo d)
      → IsRing d Ready unit_size limit quota s
      → AllFit unit_size s.cache_block_size limit bs
      → s.evicted_blocks + s.mapping_size + length bs ≤ quota
      → (t : LogFifo d) × (batch_insert d s bs ≡ ok t) × Ran s t bs
  batch_insert-Ran bs s w fit left =
      let (t, e, x) =
        insert_blocks-Ran bs (record s { old_write_ptr = s.write_ptr })
          (record {
            inside = w.inside;
            entry-inside = w.entry-inside;
            entry-valid = w.entry-valid;
            entry-key = w.entry-key;
            indexed = w.indexed;
            sized = w.sized;
            ready = w.ready;
            within = w.within;
            some_bytes = w.some_bytes;
            whole = w.whole;
            fits = w.fits;
          })
          fit left in
      (
        t,
        e,
        record {
          ring = x.ring;
          same_capacity = x.same_capacity;
          moved = x.moved;
          bytes = x.bytes;
          no_loss = x.no_loss;
          no_gain = x.no_gain;
        },
      )
