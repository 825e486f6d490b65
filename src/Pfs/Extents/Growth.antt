-- ===== src/Pfs/Extents/Growth.antt =====
-- kernel/src/main.rs: `pfs_grow_extents`, the whole loop.
use rymos.Prelude.{
  ℕ, zero, suc, ◌+◌, ◌-◌, ◌≤◌, ◌<◌, ◌%◌, ◌^◌, ◌≡◌, ◌≢◌, refl, ◌∙◌, ◌⊎◌, inl, inr, Option, none,
  some, List, [], ◌∷◌, arith, length, subst,
}
use rymos.Pfs.Header.{Header, PfsExtent, pfs_max_extents}
use rymos.Pfs.Extents.{
  lba_from, add_run, grow_from, search_start, pfs_grow_extents, pfs_find_free_run, pfs_disk_sectors,
  pfs_data_start,
}
use rymos.Pfs.Extents.FreeRun.{FreeRun, pfs_find_free_run-FreeRun}
use rymos.Pfs.Extents.Occupied.{Taken, AllOnDisk, TakenByOther}
use rymos.Pfs.Extents.Append.{
  Ascends, end_from, size_of, Added, add_run-Added, HasFew, add_run-HasFew, add_run-none,
}

-- `es` has grown to `es'` by `n` sectors: the file's sectors stay where they are, and no sector that it
-- gained is one of another file.
pub record Grown (h : Header) (skip : Option ℕ) (es : List PfsExtent) (n : ℕ) (es' : List PfsExtent)
    : Type 0 where
  pub ascends : Ascends pfs_data_start es'
  pub few : HasFew es'
  pub size : size_of es' ≡ size_of es + n
  pub kept : (s : ℕ) → Taken es s → Taken es' s
  pub gained : (s : ℕ) → Taken es' s → Taken es s ⊎ (¬ TakenByOther h skip s)
  pub places : (k : ℕ) → k < size_of es → lba_from es' k ≡ lba_from es k

-- Growing by `n` sectors either succeeds or gets stuck at fewer: every extent is in use, or other
-- files take every sector after the file's last one.
abbrev pub Growth : Header → Option ℕ → List PfsExtent → ℕ → Option (List PfsExtent) → Type 0
Growth h skip es n (some es') = Grown h skip es n es'
Growth h skip es n none =
    (es' : List PfsExtent) × (m : ℕ) × (m < n)
    × Grown h skip es m es'
    × ((pfs_max_extents ≤ length es')
        ⊎ ((s : ℕ)
            → end_from pfs_data_start es' ≤ s
            → s < pfs_disk_sectors
            → TakenByOther h skip s))

module _ (h : Header) (skip : Option ℕ) where
  Grown-none : (es : List PfsExtent) → Ascends pfs_data_start es → HasFew es → Grown h skip es 0 es
  Grown-none es a few = record {
    ascends = a;
    few = few;
    size = omega arith;
    kept = λ s t. t;
    gained = λ s t. inl t;
    places = λ k l. refl;
  }

  Grown-Added :
      (es es' es'' : List PfsExtent) (start m n : ℕ)
      → Grown h skip es m es'
      → Added pfs_data_start es' start n es''
      → HasFew es''
      → ((s : ℕ) → start ≤ s → s < start + n → ¬ TakenByOther h skip s)
      → Grown h skip es (m + n) es''
  Grown-Added es es' es'' start m n grown added few free = record {
    ascends = added.ascends;
    few = few;
    size = omega (arith, added.size, grown.size);
    kept = λ s t. added.kept s (grown.kept s t);
    gained = λ s t. elim (added.gained s t) [
      | inl old ↦ grown.gained s old
      | inr new ↦ inr (free s new.0 new.1)
    ];
    places = λ k l. added.places k (omega (arith, grown.size)) ∙ grown.places k l;
  }

  module _ (on_disk : AllOnDisk h skip) (es : List PfsExtent) where
    grow_from-Growth :
        (fuel r m search : ℕ) (es' : List PfsExtent)
        → r ≤ fuel
        → Grown h skip es m es'
        → search ≡ end_from pfs_data_start es'
        → Growth h skip es (m + r) (grow_from h skip fuel r search es')
    unfolding grow_from
    grow_from-Growth fuel zero m search es' l grown at =
        subst (λ n. Grown h skip es n es') (omega arith) grown
    grow_from-Growth zero (suc r) m search es' l grown at = absurd (omega arith)
    grow_from-Growth (suc fuel) (suc r) m search es' l grown at =
        found
          (λ run_len start es''.
            grow_from-Growth fuel (suc r - run_len) (m + run_len) ((start + run_len) % 2 ^ 32) es'')
          (pfs_find_free_run h search (suc r) skip)
          (pfs_find_free_run-FreeRun h search (suc r) skip on_disk (omega arith))
      where
        Again : Type 0
        Again =
            (run_len start : ℕ) (es'' : List PfsExtent)
            → suc r - run_len ≤ fuel
            → Grown h skip es (m + run_len) es''
            → (start + run_len) % 2 ^ 32 ≡ end_from pfs_data_start es''
            → Growth h skip es (m + run_len + (suc r - run_len))
                (grow_from h skip fuel (suc r - run_len) ((start + run_len) % 2 ^ 32) es'')

        stuck :
            (pfs_max_extents ≤ length es')
              ⊎ ((s : ℕ)
                  → end_from pfs_data_start es' ≤ s
                  → s < pfs_disk_sectors
                  → TakenByOther h skip s)
            → Growth h skip es (m + suc r) none
        stuck reason = (es', m, omega arith, grown, reason)

        placed :
            Again
            → (start run_len : ℕ) → FreeRun h skip search (suc r) (some (start, run_len))
            → (o : Option (List PfsExtent)) → add_run es' start run_len ≡ o
            → Growth h skip es (m + suc r) (elim o [
              | none ↦ none
              | some grown ↦
                  grow_from h skip fuel (suc r - run_len) ((start + run_len) % 2 ^ 32) grown
            ])
        placed again start run_len run none e = stuck (inl (add_run-none start run_len es' e))
        placed again start run_len run (some es'') e =
            let added =
              add_run-Added start run_len run.3 pfs_data_start es' es'' grown.ascends
                (omega (arith, run.0, at)) e in
            let next =
              Grown-Added es es' es'' start m run_len grown added
                (add_run-HasFew start run_len es' es'' grown.few e) run.4 in
            subst
              (λ n.
                Growth h skip es n
                  (grow_from h skip fuel (suc r - run_len) ((start + run_len) % 2 ^ 32) es''))
              (omega (arith, run.2))
              (again run_len start es'' (omega (arith, run.1)) next
                (omega (arith, added.ends, run.3)))

        found :
            Again
            → (o : Option (ℕ × ℕ)) → FreeRun h skip search (suc r) o
            → Growth h skip es (m + suc r) (elim o [
              | none ↦ none
              | some (start, run_len) ↦ elim (add_run es' start run_len) [
                | none ↦ none
                | some grown ↦
                    grow_from h skip fuel (suc r - run_len) ((start + run_len) % 2 ^ 32) grown
              ]
            ])
        found again none run = stuck (inr λ s low high. run s (omega (arith, low, at)) high)
        found again (some (start, run_len)) run =
            placed again start run_len run (add_run es' start run_len) refl

search_start-end :
    (low : ℕ) (es : List PfsExtent) → Ascends low es → es ≢ [] → search_start es ≡ end_from low es
search_start-end low [] a ne = absurd (ne refl)
search_start-end low (e ∷ []) a ne = omega (arith, a.1)
search_start-end low (e ∷ e' ∷ es) a ne =
    search_start-end (e.start + e.sectors) (e' ∷ es) a.1 (λ c. absurd (cc c))

search_start-data :
    (es : List PfsExtent) → Ascends pfs_data_start es → search_start es ≡ end_from pfs_data_start es
search_start-data [] a = refl
search_start-data (e ∷ es) a = search_start-end pfs_data_start (e ∷ es) a (λ c. absurd (cc c))

-- For at most four extents that follow one another on the disk, and with those of other files ending
-- on it, `pfs_grow_extents` adds exactly the sectors asked for after the file's last one: the extents
-- stay in order and at most four, the file's old sectors stay where they are, and no sector that it
-- gains is another file's. It fails only when all four extents are in use, or when other files take
-- every sector after the last one that the file has reached.
pub pfs_grow_extents-Growth :
    (h : Header) (es : List PfsExtent) (n : ℕ) (skip : Option ℕ)
    → AllOnDisk h skip
    → Ascends pfs_data_start es
    → HasFew es
    → Growth h skip es n (pfs_grow_extents h es n skip)
unfolding pfs_grow_extents
pfs_grow_extents-Growth h es n skip on_disk a few =
    subst (λ m. Growth h skip es m (grow_from h skip n n (search_start es) es)) (omega arith)
      (grow_from-Growth h skip on_disk es n n 0 (search_start es) es (omega arith)
        (Grown-none h skip es a few) (search_start-data es a))
