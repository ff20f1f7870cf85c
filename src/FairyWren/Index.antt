-- ===== src/FairyWren/Index.antt =====
-- The index of `FairyWrenCache` and the blocks of its segments agree (IsIndex); a block can be
-- given up, added or moved, and a segment without valid blocks reset.
use ssd_waf.Base.{
  ℕ, ◌+◌, ◌-◌, ◌≤◌, ◌<◌, ◌≡◌, ◌∙◌, sym, ap, inl, inr, Bool, true, false, Option, none, some,
  if◌then◌else◌, ◌==◌, update, arith, Bool-cases, fun_ext, count_from, count_from-set,
  count_from-clear, count_from-zero, count_from-none, sum_to, sum_to-change, sum_to-same,
}
use ssd_waf.LogSegment.{Block, LogSegment}
use ssd_waf.FairyWren.Log.{Loc}

abbrev pub at : ℕ → ℕ → Loc
at seg idx = record { seg = seg; idx = idx }

abbrev pub is_live : LogSegment → ℕ → Bool
is_live g i = (g.blocks i).valid

-- The number of valid blocks of a segment.
abbrev pub live : ℕ → LogSegment → ℕ
live size g = count_from (is_live g) 0 size

-- An entry of the index leads to a valid block of its key, and each valid block has its entry. No
-- block is valid beyond a write pointer.
pub record IsIndex (size total : ℕ) (segments : ℕ → LogSegment) (mapping : ℕ → Option Loc)
    (mapping_size : ℕ) : Type 0 where
  pub write_ptr-le : (s : ℕ) → (segments s).write_ptr ≤ size
  pub unwritten : (s i : ℕ) → (segments s).write_ptr ≤ i → is_live (segments s) i ≡ false
  pub entry-below : (key s i : ℕ) → mapping key ≡ some (at s i) → s < total
  pub entry-live : (key s i : ℕ) → mapping key ≡ some (at s i) → is_live (segments s) i ≡ true
  pub entry-key : (key s i : ℕ) → mapping key ≡ some (at s i) → ((segments s).blocks i).key ≡ key
  pub indexed :
      (s i : ℕ)
      → is_live (segments s) i ≡ true
      → mapping ((segments s).blocks i).key ≡ some (at s i)
  pub sized : mapping_size ≡ sum_to (λ s. live size (segments s)) total

module _ (size total : ℕ) (segments : ℕ → LogSegment) (mapping : ℕ → Option Loc) (mapping_size : ℕ)
    (w : IsIndex size total segments mapping mapping_size) where
  pub live-below : (s i : ℕ) → is_live (segments s) i ≡ true → s < total
  live-below s i v = w.entry-below _ s i (w.indexed s i v)

  pub live-written : (s i : ℕ) → is_live (segments s) i ≡ true → i < size
  live-written s i v = ground (arith, w.unwritten s i, w.write_ptr-le s)

  -- No two valid blocks have one key.
  pub apart :
      (s i j k : ℕ)
      → is_live (segments s) i ≡ true
      → is_live (segments j) k ≡ true
      → ((segments s).blocks i).key ≡ ((segments j).blocks k).key
      → (s ≡ j) × (i ≡ k)
  apart s i j k v u e =
      let same : some (at s i) ≡ some (at j k) =
        sym (w.indexed s i v) ∙ ap mapping e ∙ w.indexed j k u in
      (cc, cc)

  -- A valid block is given up: its entry is erased.
  module _ (s i : ℕ) (g : LogSegment) (v : is_live (segments s) i ≡ true)
      (same_ptr : g.write_ptr ≡ (segments s).write_ptr)
      (cleared : g.blocks
        ≡ update (segments s).blocks i (record ((segments s).blocks i) { valid = false })) where
    key-cleared : (k : ℕ) → (g.blocks k).key ≡ ((segments s).blocks k).key
    key-cleared k = ground (arith, ap (λ (b : ℕ → Block). (b k).key) cleared)

    live-cleared_at : (k : ℕ) → is_live g k ≡ (if i == k then false else is_live (segments s) k)
    live-cleared_at k = ground (arith, ap (λ (b : ℕ → Block). (b k).valid) cleared)

    pub live-cleared : live size g + 1 ≡ live size (segments s)
    live-cleared =
        let shape : is_live g ≡ update (is_live (segments s)) i false =
          ap (λ (b : ℕ → Block). λ j. (b j).valid) cleared ∙ fun_ext (λ j. ground arith) in
        rw shape (
          count_from-clear (is_live (segments s)) 0 size i (omega arith)
            (omega (arith, live-written s i v)) v)

    pub cleared-size : mapping_size ≡ sum_to (λ j. live size (update segments s g j)) total + 1
    cleared-size =
        let changed =
          sum_to-change (λ j. live size (segments j)) (λ j. live size (update segments s g j)) total
            s (λ j ne. rw ne) (live-below s i v) in
        let here : live size (update segments s g s) ≡ live size g = ground arith in
        omega (arith, changed, here, live-cleared, w.sized)

    pub clear-IsIndex :
        IsIndex size total
          (update segments s g)
          (update mapping ((segments s).blocks i).key none)
          (mapping_size - 1)
    clear-IsIndex = record {
      write_ptr-le = λ j. ground (arith, w.write_ptr-le j, same_ptr);
      unwritten = λ j k p. ground (arith, w.unwritten j k, live-cleared_at k, same_ptr);
      entry-below = λ key j k e. w.entry-below key j k (ground arith);
      entry-live = λ key j k e.
          ground
            (arith, w.entry-live key j k, w.entry-key key j k, w.indexed j k, live-cleared_at k);
      entry-key = λ key j k e. ground (arith, w.entry-key key j k, key-cleared k);
      indexed =
          λ j k e. ground (arith, w.indexed j k, live-cleared_at k, key-cleared k, apart s i j k v);
      sized = omega (arith, cleared-size);
    }

  -- A block of a key that has no entry is added at the write pointer of a segment.
  module _ (s : ℕ) (g : LogSegment) (b : Block) (inside : s < total)
      (room : (segments s).write_ptr < size) (v : b.valid ≡ true) (absent : mapping b.key ≡ none)
      (next_ptr : g.write_ptr ≡ (segments s).write_ptr + 1)
      (written : g.blocks ≡ update (segments s).blocks (segments s).write_ptr b) where
    key-written :
        (k : ℕ)
        → (g.blocks k).key
          ≡ (if (segments s).write_ptr == k then b.key else ((segments s).blocks k).key)
    key-written k = ground (arith, ap (λ (f : ℕ → Block). (f k).key) written)

    live-written_at :
        (k : ℕ)
        → is_live g k ≡ (if (segments s).write_ptr == k then true else is_live (segments s) k)
    live-written_at k = ground (arith, v, ap (λ (f : ℕ → Block). (f k).valid) written)

    fresh :
        (j k : ℕ) → is_live (segments j) k ≡ true → (b.key == ((segments j).blocks k).key) ≡ false
    fresh j k u = elim (Bool-cases (b.key == ((segments j).blocks k).key)) [
      | inl e ↦
          let same : b.key ≡ ((segments j).blocks k).key = ground arith in
          absurd (ground (arith, sym absent ∙ ap mapping same ∙ w.indexed j k u))
      | inr e ↦ e
    ]

    pub live-put : live size g ≡ live size (segments s) + 1
    live-put =
        let shape : is_live g ≡ update (is_live (segments s)) (segments s).write_ptr true =
          fun_ext live-written_at in
        let room' : (segments s).write_ptr < 0 + size = omega arith in
        rw shape (
          count_from-set (is_live (segments s)) 0 size (segments s).write_ptr (omega arith) room'
            (w.unwritten s (segments s).write_ptr (omega arith)))

    put-size : mapping_size + 1 ≡ sum_to (λ j. live size (update segments s g j)) total
    put-size =
        let changed =
          sum_to-change (λ j. live size (segments j)) (λ j. live size (update segments s g j)) total
            s (λ j ne. rw ne) inside in
        let here' : live size (update segments s g s) ≡ live size g = ground arith in
        omega (arith, changed, here', live-put, w.sized)

    pub put-IsIndex :
        IsIndex size total
          (update segments s g)
          (update mapping b.key (some (at s (segments s).write_ptr)))
          (mapping_size + 1)
    put-IsIndex = record {
      write_ptr-le = λ j. ground (arith, w.write_ptr-le j);
      unwritten = λ j k p. ground (arith, w.unwritten j k, live-written_at k);
      entry-below = λ key j k e. ground (arith, w.entry-below key j k);
      entry-live = λ key j k e. ground (arith, w.entry-live key j k, live-written_at k, v);
      entry-key = λ key j k e. ground (
        arith,
        w.entry-key key j k,
        w.entry-live key j k,
        w.unwritten s (segments s).write_ptr,
        key-written k,
      );
      indexed = λ j k e.
          ground (arith, w.indexed j k, live-written_at k, key-written k, absent, fresh j k);
      sized = put-size;
    }

  -- A segment without valid blocks is reset.
  pub blank-IsIndex :
      (s : ℕ) (g : LogSegment)
      → live size (segments s) ≡ 0
      → g.write_ptr ≤ size
      → ((i : ℕ) → is_live g i ≡ false)
      → IsIndex size total (update segments s g) mapping mapping_size
  blank-IsIndex s g e ptr f =
      let old : (i : ℕ) → is_live (segments s) i ≡ false = λ i.
        elim (Bool-cases (is_live (segments s) i)) [
          | inl v ↦
              count_from-zero (is_live (segments s)) 0 size i e (omega arith)
                (omega (arith, live-written s i v))
          | inr v ↦ v
        ] in
      let empty : live size g ≡ 0 = count_from-none (is_live g) 0 size f in
      record {
        write_ptr-le = λ j. ground (arith, w.write_ptr-le j);
        unwritten = λ j k p. ground (arith, w.unwritten j k, f k);
        entry-below = λ key j k x. w.entry-below key j k x;
        entry-live = λ key j k x. ground (arith, w.entry-live key j k, old k);
        entry-key = λ key j k x. ground (arith, w.entry-key key j k, w.entry-live key j k, old k);
        indexed = λ j k x. ground (arith, w.indexed j k, f k);
        sized = w.sized ∙ sum_to-same _ _ total (λ j b. ground (arith, e, empty));
      }
