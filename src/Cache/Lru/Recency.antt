-- ===== src/Cache/Lru/Recency.antt =====
-- The table of the LRU cache: `touch` keeps it well formed.
use ssd_waf.Base.{
  append-Distinct, contains-append, contains-remove_key, length-remove_key, remove_key,
  remove_key-Distinct, ℕ, ◌≡◌, ◌∙◌, inl, inr, refl, sym, ap, true, Option, some, arith, [], ◌∷◌,
  ◌++◌, length-append, update, contains, Option-cases, fun_ext,
}
use ssd_waf.Cache.{Table, exists}
use ssd_waf.Cache.Keys.{IsTable}
use ssd_waf.Cache.Lru.{touch}

module _ (t : Table) (w : IsTable t) where
  pub touch-IsTable :
      (key : ℕ)
      → exists t key ≡ true
      → IsTable (touch t key)
        × ((touch t key).cache_list ≡ remove_key key t.cache_list ++ (key ∷ []))
        × ((touch t key).allocator ≡ t.allocator)
  unfolding touch exists contains
  touch-IsTable key here = elim (Option-cases (t.entry key)) [
    | inl h ↦ absurd (ground arith)
    | inr (id, h) ↦
        let kept : update t.entry key (some id) ≡ t.entry = fun_ext (λ j. ground arith) in
        let inside : contains key t.cache_list ≡ true = w.listed key ∙ here in
        rw (h, touch)
          (
            record {
              distinct =
                  append-Distinct _ key (remove_key-Distinct key t.cache_list w.distinct)
                    (ground (arith, contains-remove_key key t.cache_list key w.distinct));
              listed = λ k. ground (
                arith,
                w.listed k,
                contains-append (remove_key key t.cache_list) (key ∷ []) k,
                contains-remove_key key t.cache_list k w.distinct,
              );
              sized = omega (
                arith,
                w.sized,
                length-append (remove_key key t.cache_list) (key ∷ []),
                length-remove_key key t.cache_list inside,
              );
              held = λ k i e. w.held k i (rw (ap (λ (f : ℕ → Option ℕ). f k) (sym kept)) e);
              apart = λ k k' i e e'. w.apart k k' i (ground arith) (ground arith);
              allocator_valid = w.allocator_valid;
              used_blocks = omega (
                arith,
                w.used_blocks,
                length-append (remove_key key t.cache_list) (key ∷ []),
                length-remove_key key t.cache_list inside,
              );
            },
            refl,
            refl,
          )
  ]
