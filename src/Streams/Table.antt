-- ===== src/Streams/Table.antt =====
-- `FIFO`, fifo.h: a ring of the addresses that were written, with the place of each address's last
-- write. `threshold` is the whole part of the floating-point bound.
use ssd_waf.Base.{
  ℕ, ◌+◌, ◌-◌, ◌*◌, ◌%◌, ◌^◌, ◌<◌, ◌≡◌, ◌∙◌, refl, true, false, inl, inr, Option, none, some,
  if◌then◌else◌, ◌==◌, ltb, update, min, arith, Bool-cases,
}

abbrev pub file_size : ℕ
file_size = 128 * 1024 * 1024

pub record FifoTable : Type 0 where
  pub tail : ℕ
  pub head : ℕ
  pub position : ℕ → Option ℕ
  pub array : ℕ → ℕ

abbrev advance : ℕ → ℕ
advance place = if place + 1 == file_size then 0 else place + 1

-- `mMap[…]`, which inserts 0 for a missing address.
abbrev place_of : Option ℕ → ℕ
place_of none = 0
place_of (some p) = p

abbrev distance : FifoTable → ℕ
distance t = (t.tail + file_size - t.head) % file_size

abbrev enqueue : FifoTable → ℕ → FifoTable
enqueue t address = record {
  tail = advance t.tail;
  head = t.head;
  position = update t.position address (some t.tail);
  array = update t.array t.tail address;
}

unfoldable pub drop_oldest : FifoTable → FifoTable
drop_oldest t =
    let oldest = t.array t.head in
    let place = place_of (t.position oldest) in
    record t {
      position = update t.position oldest (if place == t.head then none else some place);
      head = advance t.head;
    }

unfoldable pub record_write : FifoTable → ℕ → ℕ → ℕ → FifoTable
record_write t address threshold num_valid_blocks =
    let s = enqueue t address in
    if ltb (min threshold num_valid_blocks) (distance s)
    then (let u = drop_oldest s in if ltb threshold (distance u) then drop_oldest u else u)
    else s

-- A missing address has the highest 32-bit number.
unfoldable pub query : FifoTable → ℕ → ℕ
query t address = elim (t.position address) [
  | none ↦ 2 ^ 32 - 1
  | some p ↦ if ltb t.tail p then t.tail + file_size - p else t.tail - p
]

-- An entry that is not dropped is kept.
drop_oldest-keeps :
    (t : FifoTable) (address p : ℕ)
    → t.position address ≡ some p
    → (p == t.head) ≡ false
    → (drop_oldest t).position address ≡ some p
unfolding drop_oldest
drop_oldest-keeps t address p e apart = elim (Bool-cases (t.array t.head == address)) [
  | inl same ↦ ground (arith, same, e, apart)
  | inr other ↦ ground (arith, other, e)
]

drop_oldest-ends :
    (t : FifoTable) → ((drop_oldest t).tail ≡ t.tail) × ((drop_oldest t).head ≡ advance t.head)
unfolding drop_oldest
drop_oldest-ends t = (refl, refl)

-- An address whose place is before the tail was written one write ago.
query-last :
    (u : FifoTable) (address place : ℕ)
    → place < file_size
    → u.tail ≡ advance place
    → u.position address ≡ some place
    → query u address ≡ 1
unfolding query
query-last u address place h tail e = rw (e, query) (ground (arith, h, tail))

-- The entry at the head is not the newest one, if more than one is left.
apart-head :
    (tail head : ℕ)
    → tail < file_size
    → 1 < (advance tail + file_size - head) % file_size
    → (tail == head) ≡ false
apart-head tail head h d = ground (arith, h, d)

-- In a ring whose tail is in range, when both bounds keep at least one address, an address that has
-- just been written is found, one write ago.
pub query-record_write :
    (t : FifoTable) (address threshold num_valid_blocks : ℕ)
    → t.tail < file_size
    → 0 < min threshold num_valid_blocks
    → query (record_write t address threshold num_valid_blocks) address ≡ 1
unfolding record_write
query-record_write t address threshold n tail some_kept =
    elim (Bool-cases (ltb (min threshold n) (distance (enqueue t address)))) [
      | inl over ↦ rw over (dropped over)
      | inr within ↦ rw within (query-last (enqueue t address) address t.tail tail refl here)
    ]
  where
    here : (enqueue t address).position address ≡ some t.tail
    here = ground arith

    dropped :
        ltb (min threshold n) (distance (enqueue t address)) ≡ true
        → query
            (if ltb threshold (distance (drop_oldest (enqueue t address)))
              then drop_oldest (drop_oldest (enqueue t address))
              else drop_oldest (enqueue t address))
            address
          ≡ 1
    dropped over =
        let u = drop_oldest (enqueue t address) in
        let (u_tail, u_head) = drop_oldest-ends (enqueue t address) in
        let apart = apart-head t.tail t.head tail (ground (arith, over, some_kept)) in
        let kept = drop_oldest-keeps (enqueue t address) address t.tail here apart in
        elim (Bool-cases (ltb threshold (distance u))) [
          | inl more ↦
              let (v_tail, _) = drop_oldest-ends u in
              let apart' : (t.tail == u.head) ≡ false =
                apart-head t.tail u.head tail (ground (arith, more, some_kept, u_tail)) in
              rw more (
                query-last (drop_oldest u) address t.tail tail (v_tail ∙ u_tail)
                  (drop_oldest-keeps u address t.tail kept apart'))
          | inr few ↦ rw few (query-last u address t.tail tail u_tail kept)
        ]
