-- ===== src/Policy/MultiQueue/Order.antt =====
-- The operations of the multi-queue policy on well-formed queues.
use ssd_waf.Base.{
  ℕ, zero, suc, ◌+◌, ◌-◌, ◌/◌, ◌%◌, ◌≤◌, ◌<◌, ◌≡◌, ◌↔◌, ◌∙◌, sym, ap, subst, inl, inr, refl, false,
  ◌||◌, none, some, arith, List, [], ◌∷◌, ◌++◌, contains, Distinct, contains-append,
  append-Distinct, contains-remove_key, remove_key-Distinct, ◌==◌, leb, update, ok, fault,
  Bool-cases, Option-cases,
}
use ssd_waf.Policy.{Segment}
use ssd_waf.Policy.MultiQueue.{
  max_queue_size, MultiQueue, get_queue_id, add, remove, choose_below, choose_segment, is_at,
  IsMulti,
}

module _ (s : MultiQueue) (w : IsMulti s) where
  choose_here :
      (i v : ℕ) (rest : List ℕ)
      → s.queue i ≡ v ∷ rest
      → choose_below (suc i) s
        ≡ ok (v, record s { queue = update s.queue i rest; handle = update s.handle v none })
  unfolding choose_below
  choose_here i v rest e = rw (e, choose_below)

  choose_below-highest :
      (n i v : ℕ) (rest : List ℕ)
      → i < n
      → s.queue i ≡ v ∷ rest
      → ((j : ℕ) → i < j → j < n → s.queue j ≡ [])
      → choose_below n s
        ≡ ok (v, record s { queue = update s.queue i rest; handle = update s.handle v none })
  unfolding choose_below
  choose_below-highest zero i v rest lt e above = absurd (omega arith)
  choose_below-highest (suc n) i v rest lt e above = elim (Bool-cases (i == n)) [
    | inl h ↦
        let same : n ≡ i = ground arith in
        subst
          (λ (m : ℕ).
            choose_below (suc m) s
            ≡ ok (v, record s { queue = update s.queue i rest; handle = update s.handle v none }))
          (sym same) (choose_here i v rest e)
    | inr h ↦
        rw (above n (ground arith) (omega arith), choose_below)
          (choose_below-highest n i v rest (ground arith) e (λ j lo hi. above j lo (omega arith)))
  ]

  popped-IsMulti :
      (i v : ℕ) (rest : List ℕ)
      → s.queue i ≡ v ∷ rest
      → IsMulti (record s { queue = update s.queue i rest; handle = update s.handle v none })
  unfolding contains is_at
  popped-IsMulti i v rest e =
      let d : Distinct (v ∷ rest) = subst Distinct e (w.distinct i) in
      let front : (k : ℕ) → contains k (s.queue i) ≡ (k == v || contains k rest) =
        λ k. ap (contains k) e in
      record {
        distinct =
            λ q. elim (Bool-cases (i == q)) [ inl h ↦ rw h d.1 | inr h ↦ rw h (w.distinct q) ];
        listed = λ k q.
            ground (
              arith,
              w.listed k q,
              w.listed k i,
              w.listed v q,
              w.listed v i,
              front k,
              front v,
              d.0,
            );
      }

  -- In well-formed queues, `choose_segment` takes the first segment of the highest queue that is not
  -- empty, which it leaves; the others keep their order, and the queues stay well formed.
  pub choose_segment-highest :
      (i v : ℕ) (rest : List ℕ)
      → i < max_queue_size
      → s.queue i ≡ v ∷ rest
      → ((j : ℕ) → i < j → j < max_queue_size → s.queue j ≡ [])
      → (t : MultiQueue) × (choose_segment s ≡ ok (v, t))
        × IsMulti t
        × (t.queue ≡ update s.queue i rest)
        × (t.handle v ≡ none)
  unfolding choose_segment
  choose_segment-highest i v rest lt e above = (
    record s { queue = update s.queue i rest; handle = update s.handle v none },
    choose_below-highest max_queue_size i v rest lt e above,
    popped-IsMulti i v rest e,
    refl,
    ground arith,
  )

  skip_empty : (n : ℕ) → s.queue n ≡ [] → choose_below (suc n) s ≡ choose_below n s
  unfolding choose_below
  skip_empty n e = rw (e, choose_below)

  ok-fault : (x : ℕ × MultiQueue) → ok x ≡ fault → ⊥
  ok-fault x h = cc

  empty-top :
      (n : ℕ) (l : List ℕ)
      → s.queue n ≡ l
      → choose_below (suc n) s ≡ fault
      → (s.queue n ≡ []) × (choose_below n s ≡ fault)
  empty-top n [] e h = (e, sym (skip_empty n e) ∙ h)
  empty-top n (v ∷ rest) e h = absurd (ok-fault _ (sym (choose_here n v rest e) ∙ h))

  empty-below : (n : ℕ) → choose_below n s ≡ fault → (j : ℕ) → j < n → s.queue j ≡ []
  unfolding choose_below
  empty-below zero h j lt = absurd (omega arith)
  empty-below (suc n) h j lt =
      let (e, below) = empty-top n (s.queue n) refl h in
      elim (Bool-cases (j == n)) [
        | inl q ↦ subst (λ (m : ℕ). s.queue m ≡ []) (ground arith) e
        | inr q ↦ empty-below n below j (ground arith)
      ]

  fault-below : (n : ℕ) → ((j : ℕ) → j < n → s.queue j ≡ []) → choose_below n s ≡ fault
  unfolding choose_below
  fault-below zero h = refl
  fault-below (suc n) h =
      rw (h n (omega arith), choose_below) (fault-below n (λ j lt. h j (omega arith)))

  -- In well-formed queues, `choose_segment` fails exactly if all queues are empty.
  pub choose_segment-fault :
      (choose_segment s ≡ fault) ↔ ((j : ℕ) → j < max_queue_size → s.queue j ≡ [])
  unfolding choose_segment
  choose_segment-fault = (empty-below max_queue_size, fault-below max_queue_size)

  queue_id :
      (age : ℕ)
      → age / s.age_granularity < 0x80000000
      → (q : ℕ) × (get_queue_id s age ≡ some q) × (q < max_queue_size)
  unfolding get_queue_id
  queue_id age h = elim (Bool-cases (s.age_granularity == 0)) [
    | inl z ↦ (0, rw z, omega arith)
    | inr z ↦
        let x = age / s.age_granularity % 0x100000000 in
        let positive : leb 0x80000000 x ≡ false = ground (arith, h) in
        elim (Bool-cases (leb max_queue_size x)) [
          | inl high ↦ (15, rw z (rw positive (rw high)), omega arith)
          | inr low ↦ (x, rw z (rw positive (rw low)), ground arith)
        ]
  ]

  added-IsMulti :
      (seg q : ℕ) (c : ℕ → ℕ)
      → s.handle seg ≡ none
      → IsMulti (record s {
        queue = update s.queue q (s.queue q ++ (seg ∷ []));
        handle = update s.handle seg (some q);
        g_valid_cnt = c;
      })
  unfolding contains is_at
  added-IsMulti seg q c new = record {
    distinct = λ p. elim (Bool-cases (q == p)) [
      | inl e ↦
          rw e
            (append-Distinct (s.queue q) seg (w.distinct q) (ground (arith, new, w.listed seg q)))
      | inr e ↦ rw e (w.distinct p)
    ];
    listed = λ k p. ground (
      arith,
      new,
      w.listed k p,
      w.listed k q,
      w.listed seg p,
      contains-append (s.queue q) (seg ∷ []) k,
    );
  }

  -- In well-formed queues, `add` of a segment that is in no queue, created no later than the current
  -- time, whose age is below 2^31 ranges, ends without a failing assertion: the segment stands at the
  -- end of one queue below the number of queues, and the queues stay well formed.
  pub add-IsMulti :
      (seg : ℕ) (g : Segment) (current_time : ℕ)
      → s.handle seg ≡ none
      → g.create_timestamp ≤ current_time
      → current_time < 0x10000000000000000
      → (current_time - g.create_timestamp) / s.age_granularity < 0x80000000
      → (t : MultiQueue) × (q : ℕ) × (add s seg g current_time ≡ ok t)
        × IsMulti t
        × (q < max_queue_size)
        × (t.handle seg ≡ some q)
        × (t.queue q ≡ s.queue q ++ (seg ∷ []))
  unfolding add
  add-IsMulti seg g now new older small ages =
      let age : (now + 0x10000000000000000 - g.create_timestamp) % 0x10000000000000000
          ≡ now - g.create_timestamp =
        omega arith in
      let (q, e, lt) = queue_id (now - g.create_timestamp) ages in
      (
        record s {
          queue = update s.queue q (s.queue q ++ (seg ∷ []));
          handle = update s.handle seg (some q);
          g_valid_cnt =
              update s.g_valid_cnt q ((s.g_valid_cnt q + g.valid_cnt) % 0x10000000000000000);
        },
        q,
        rw (ap (get_queue_id s) age ∙ e, add),
        added-IsMulti seg q _ new,
        lt,
        ground arith,
        ground arith,
      )

  -- In well-formed queues, `remove` leaves the segment in no queue and keeps the queues well formed.
  pub remove-IsMulti :
      (seg : ℕ) (g : Segment) → IsMulti (remove s seg g) × ((remove s seg g).handle seg ≡ none)
  unfolding remove contains is_at
  remove-IsMulti seg g = elim (Option-cases (s.handle seg)) [
    | inl h ↦ rw (h, remove) (w, h)
    | inr (q, h) ↦
        rw (h, remove)
          (
            record {
              distinct = λ p. elim (Bool-cases (q == p)) [
                | inl e ↦ rw e (remove_key-Distinct seg (s.queue q) (w.distinct q))
                | inr e ↦ rw e (w.distinct p)
              ];
              listed = λ k p. ground (
                arith,
                h,
                w.listed k p,
                w.listed k q,
                w.listed seg p,
                contains-remove_key seg (s.queue q) k (w.distinct q),
              );
            },
            ground arith,
          )
  ]
