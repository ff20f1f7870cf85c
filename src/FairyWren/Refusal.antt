-- ===== src/FairyWren/Refusal.antt =====
-- When `ensure_active_segment` of `FairyWrenCache` finds no segment.
use ssd_waf.Base.{
  ℕ, suc, ◌≡◌, ◌∙◌, sym, ap, subst, refl, inl, inr, Bool, Option, none, some, List, [], ◌∷◌, ◌++◌,
  ◌==◌, update, arith, Bool-cases, Result, ok, thrown, ◌>>=◌, fault, spin,
}
use ssd_waf.FairyWren.Lists.{take_free-some}
use ssd_waf.FairyWren.Cache.{FairyWren}
use ssd_waf.FairyWren.Collect.{
  Ensure, obtain, take_or_force, use_active, ensure_step, ensure_active_segment,
}
use ssd_waf.LogSegment.{full, reset}
use ssd_waf.Device.{Device}
use ssd_waf.FairyWren.Log.{
  RegionKind, Log, region, set_segment, set_active, set_region, open_segment, retire_full, retire,
  push_to_fifo, release_segment_to_free, move_segment_region, move_valid, push_free, push_back,
  adjust_region_valid,
}

move_valid-regions :
    (l m : Log) (old new : RegionKind) (n : ℕ)
    → move_valid l old new n ≡ ok m
    → m.regions ≡ l.regions
unfolding move_valid adjust_region_valid
move_valid-regions l m old new n e = ground (arith, e)

-- A chain that ends well has a first part that ends well.
bind-ok {ℓ κ} :
    {A : Type ℓ} {B : Type κ} (m : Result A) (f : A → Result B) (b : B)
    → m >>= f ≡ ok b
    → (x : A) × (m ≡ ok x) × (f x ≡ ok b)
bind-ok (ok x) f b e = (x, refl, e)
bind-ok fault f b e = cc
bind-ok thrown f b e = cc
bind-ok spin f b e = cc

move_segment_region-regions :
    (l m : Log) (seg : ℕ) (kind : RegionKind)
    → move_segment_region l seg kind ≡ ok m
    → m.regions ≡ l.regions
unfolding move_segment_region
move_segment_region-regions l m seg kind e = from_home (l.segment_region seg) refl
  where
    from_home : (o : Option RegionKind) → l.segment_region seg ≡ o → m.regions ≡ l.regions
    from_home none h = ground (arith, e, h)
    from_home (some old) h =
        let (n, q, r) =
          bind-ok (move_valid l old kind (l.segments seg).valid_cnt)
            (λ n. ok (record n { segment_region = update n.segment_region seg (some kind) })) m
            (sym (rw (h, move_segment_region) refl) ∙ e) in
        let same : record n { segment_region = update n.segment_region seg (some kind) } ≡ m = cc in
        ap (λ (k : Log). k.regions) (sym same)
        ∙ move_valid-regions l n old kind (l.segments seg).valid_cnt q

append-nonempty : (xs : List ℕ) (x : ℕ) → xs ++ (x ∷ []) ≡ [] → xs ≡ []
append-nonempty [] x e = refl
append-nonempty (y ∷ ys) x e = cc

push_to_fifo-nonempty :
    (l m : Log) (kind : RegionKind) (seg : ℕ)
    → push_to_fifo l kind seg ≡ ok m
    → (region m kind).free_segments ≡ []
    → (region l kind).free_segments ≡ []
unfolding push_to_fifo release_segment_to_free
push_to_fifo-nonempty l m kind seg e n = elim (Bool-cases ((l.segments seg).valid_cnt == 0)) [
  | inl empty ↦
      let moved : move_segment_region
            (push_free (set_segment l seg (reset (l.segments seg))) kind seg) seg kind
          ≡ ok m =
        sym (rw empty refl) ∙ e in
      let same = move_segment_region-regions _ m seg kind moved in
      append-nonempty (region l kind).free_segments seg (ground (arith, same, n))
  | inr other ↦
      let pushed : push_back l kind seg ≡ m = ground (arith, other, e) in ground (arith, n, pushed)
]

retire-nonempty :
    (l m : Log) (kind : RegionKind) (seg : ℕ)
    → retire l kind seg ≡ ok m
    → (region m kind).free_segments ≡ []
    → (region l kind).free_segments ≡ []
unfolding retire
retire-nonempty l m kind seg e n =
    let (k, q, r) = bind-ok (push_to_fifo l kind seg) (λ k. ok (set_active k kind none)) m e in
    push_to_fifo-nonempty l k kind seg q (cleared k r)
  where
    cleared : (k : Log) → ok (set_active k kind none) ≡ ok m → (region k kind).free_segments ≡ []
    cleared k r =
        let same : set_active k kind none ≡ m = cc in
        let here : (region (set_active k kind none) kind).free_segments ≡ [] =
          ap (λ (n : Log). (region n kind).free_segments) same ∙ n in
        ground (arith, here)

retire_full-nonempty :
    (l m : Log) (kind : RegionKind)
    → retire_full l kind ≡ ok m
    → (region m kind).free_segments ≡ []
    → (region l kind).free_segments ≡ []
unfolding retire_full
retire_full-nonempty l m kind e n = from_active (region l kind).active refl
  where
    from_active : (o : Option ℕ) → (region l kind).active ≡ o → (region l kind).free_segments ≡ []
    from_active none a = ground (arith, a, e, n)
    from_active (some seg) a = elim (Bool-cases (full l.segment_size_blocks (l.segments seg))) [
      | inl filled ↦
          let retired : retire_full l kind ≡ retire l kind seg =
            rw (a, retire_full) (rw filled refl) in
          retire-nonempty l m kind seg (sym retired ∙ e) n
      | inr vacant ↦
          let left : retire_full l kind ≡ ok l = rw (a, retire_full) (rw vacant refl) in
          let same : l ≡ m = ground (arith, sym left ∙ e) in
          ap (λ (k : Log). (region k kind).free_segments) same ∙ n
    ]

module _ (d : Device) where
  obtain-empty :
      (ensure : Ensure d) (s t : FairyWren d) (kind : RegionKind) (allow_force : Bool)
      → obtain d ensure s kind allow_force ≡ ok (t, none)
      → (region s.log kind).free_segments ≡ []
  unfolding obtain take_or_force
  obtain-empty ensure s t kind allow_force e = from_free (region s.log kind).free_segments refl
    where
      from_free :
          (free : List ℕ)
          → (region s.log kind).free_segments ≡ free
          → (region s.log kind).free_segments ≡ []
      from_free [] h = h
      from_free (seg ∷ rest) h =
          let found : obtain d ensure s kind allow_force
              ≡ ok (
                record s {
                  log = set_region s.log kind (record (region s.log kind) { free_segments = rest });
                },
                some seg,
              ) =
            rw (take_free-some s.log kind seg rest h) refl in
          absurd (ground (arith, sym found ∙ e))

  -- What follows the search for a free segment.
  abbrev opening : RegionKind → FairyWren d × Option ℕ → Result (FairyWren d × Option ℕ)
  opening kind (t, o) = elim o [
    | none ↦ ok (t, none)
    | some seg ↦ open_segment t.log kind t.log_cache_timestamp seg >>= λ m.
        ok (record t { log = m }, some seg)
  ]

  opening-none :
      (kind : RegionKind) (u t : FairyWren d) (o : Option ℕ)
      → opening kind (u, o) ≡ ok (t, none)
      → o ≡ none
  opening-none kind u t none e = refl
  opening-none kind u t (some seg) e =
      let (m, q, r) =
        bind-ok (open_segment u.log kind u.log_cache_timestamp seg)
          (λ m. ok (record u { log = m }, some seg)) (t, none) e in
      absurd (ground (arith, r))

  module _ (fuel : ℕ) (s : FairyWren d) (kind : RegionKind) (allow_force : Bool)
      (t : FairyWren d) where
    abbrev inner : Ensure d
    inner = ensure_active_segment d fuel

    abbrev active_of : Log → Result (FairyWren d × Option ℕ)
    active_of l = use_active d inner (record s { log = l }) kind allow_force (region l kind).active

    abbrev looking : Log → Result (FairyWren d × Option ℕ)
    looking l = obtain d inner (record s { log = l }) kind allow_force >>= opening kind

    -- A region in which no segment is found had no free segment.
    pub ensure-empty :
        ensure_active_segment d (suc fuel) s kind allow_force ≡ ok (t, none)
        → (region s.log kind).free_segments ≡ []
    unfolding ensure_active_segment ensure_step use_active
    ensure-empty e =
        let (l, q, r) = bind-ok (retire_full s.log kind) active_of (t, none) e in
        retire_full-nonempty s.log l kind q (from_active l r (region l kind).active refl)
      where
        from_obtained :
            (l : Log) (u : FairyWren d) (o : Option ℕ)
            → obtain d inner (record s { log = l }) kind allow_force ≡ ok (u, o)
            → opening kind (u, o) ≡ ok (t, none)
            → (region l kind).free_segments ≡ []
        from_obtained l u o q r =
            obtain-empty inner (record s { log = l }) u kind allow_force
              (subst
                (λ (p : Option ℕ).
                  obtain d inner (record s { log = l }) kind allow_force ≡ ok (u, p))
                (opening-none kind u t o r) q)

        from_active :
            (l : Log)
            → active_of l ≡ ok (t, none)
            → (o : Option ℕ) → (region l kind).active ≡ o
            → (region l kind).free_segments ≡ []
        from_active l r (some seg) a =
            let kept : active_of l ≡ ok (record s { log = l }, some seg) =
              rw (a, use_active) refl in
            absurd (ground (arith, sym kept ∙ r))
        from_active l r none a =
            let looked : looking l ≡ ok (t, none) = sym (rw (a, use_active) refl) ∙ r in
            let ((u, o), q, r') =
              bind-ok (obtain d inner (record s { log = l }) kind allow_force) (opening kind)
                (t, none) looked in
            from_obtained l u o q r'
