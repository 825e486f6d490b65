-- ===== src/Pfs/Extents/Capacity.antt =====
-- kernel/src/main.rs: `pfs_ensure_file_capacity` and the sectors of all files.
use rymos.Prelude.{
  ℕ, ◌+◌, ◌-◌, ◌≤◌, ◌<◌, ◌^◌, ◌≡◌, ◌≢◌, refl, sym, ◌∙◌, ◌⊎◌, inl, inr, true, false, ◌||◌, not,
  Option, none, some, List, arith, Bool-cases, subst, ap, leb,
}
use native.Mathlib.Decide.{ℕ_discrete}
use rymos.Pfs.Header.{
  Header, Entry, PfsExtent, pfs_entry_count, pfs_entry_used, pfs_entry_is_dir, pfs_entry_kind,
  pfs_entry_extents, entry_of, pfs_set_entry,
}
use rymos.Pfs.Header.Codec.{Fits, entry_of-pfs_set_entry}
use rymos.Pfs.Header.Frame.{SameBytes, SameBytes-pfs_set_entry}
use rymos.Pfs.Directory.Unique.{IsUsed, IsConsistent, IsUsed-back, entry_of-other}
use rymos.Pfs.Directory.Written.{IsConsistent-pfs_set_entry}
use rymos.Pfs.Extents.{
  pfs_entry_total_sectors, pfs_entry_lba_for_sector, lba_from, pfs_grow_extents, sectors_for_len,
  with_extents, ensure_capacity, pfs_data_start,
}
use rymos.Pfs.Extents.Occupied.{Taken}
use rymos.Pfs.Extents.Append.{Ascends, size_of, total_from-size_of}
use rymos.Pfs.Extents.Disjoint.{
  IsFile, IsAllocated, is_dir-kind, kind-is_dir, pfs_entry_extents-HasFew, Ascends-AllExtents,
  on_disk, taken_by_other,
}
use rymos.Pfs.Extents.Growth.{Grown, Growth, pfs_grow_extents-Growth}

-- What growing the file `index` to `size` bytes does to the header.
abbrev pub Ensured : Header → ℕ → ℕ → Option Header → Type 0
Ensured h index size (some h') =
    IsAllocated h'
    × (sectors_for_len size ≤ pfs_entry_total_sectors h' index)
    × (entry_of h' index ≡ with_extents h index (pfs_entry_extents h' index))
    × ((k : ℕ)
        → k < pfs_entry_total_sectors h index
        → pfs_entry_lba_for_sector h' index k ≡ pfs_entry_lba_for_sector h index k)
    × ((j : ℕ) → index ≢ j → IsUsed h j → entry_of h' j ≡ entry_of h j)
    × ((j : ℕ) → index ≢ j → SameBytes h h' j)
Ensured h index size none =
    (¬ IsFile h index)
    ⊎ Growth h (some index) (pfs_entry_extents h index)
        (sectors_for_len size - pfs_entry_total_sectors h index) none

pub total-size_of :
    (h : Header) (i : ℕ)
    → Ascends pfs_data_start (pfs_entry_extents h i)
    → pfs_entry_total_sectors h i ≡ size_of (pfs_entry_extents h i)
unfolding pfs_entry_total_sectors
total-size_of h i a =
    total_from-size_of 0 pfs_data_start (pfs_entry_extents h i) a (omega arith) ∙ omega arith

module _ (h : Header) (index now : ℕ) (good : IsAllocated h) (now_fits : now < 2 ^ 64)
    (file : IsFile h index) (n : ℕ) (es : List PfsExtent)
    (grown : Grown h (some index) (pfs_entry_extents h index) n es) where
  e : Entry
  e = with_extents h index es

  h' : Header
  h' = pfs_set_entry h index e now

  fits : Fits e
  unfolding e
  fits =
      let before = good.consistent.fits index file.0 in
      record {
        name_fits = before.name_fits;
        size_fits = before.size_fits;
        extents_fit = grown.few;
        words_fit = Ascends-AllExtents pfs_data_start es grown.ascends;
        created_fits = before.created_fits;
      }

  used-kind : (h : Header) (i : ℕ) → pfs_entry_used h i ≡ true → pfs_entry_kind h i ≢ 0
  unfolding pfs_entry_used pfs_entry_kind
  used-kind h i u z = ground arith

  consistent' : IsConsistent h'
  unfolding e h'
  consistent' =
      IsConsistent-pfs_set_entry h index e now good.consistent file.0.0 fits now_fits
        (used-kind h index file.0.1)
        (λ j ne used same. ne (sym (good.consistent.unique j index used file.0 same)))

  others : (j : ℕ) → index ≢ j → SameBytes h h' j
  unfolding h'
  others j ne = SameBytes-pfs_set_entry h index e now j fits.name_fits ne

  entry_here : entry_of h' index ≡ e
  unfolding h'
  entry_here = (entry_of-pfs_set_entry h index e now fits now_fits).0

  extents_here : pfs_entry_extents h' index ≡ es
  unfolding e
  extents_here = ap (λ e. e.extents) entry_here

  entry_there : (j : ℕ) → index ≢ j → IsUsed h j → entry_of h j ≡ entry_of h' j
  entry_there j ne used = entry_of-other h h' index others j good.consistent ne used

  IsFile-back : (j : ℕ) → index ≢ j → IsFile h' j → IsFile h j
  IsFile-back j ne file' =
      let used = IsUsed-back h h' index others j ne file'.0 in
      (used, λ dir. file'.1 (sym (ap (λ e. e.kind) (entry_there j ne used)) ∙ dir))

  extents_there : (j : ℕ) → index ≢ j → IsFile h' j → pfs_entry_extents h' j ≡ pfs_entry_extents h j
  extents_there j ne file' = sym (ap (λ e. e.extents) (entry_there j ne (IsFile-back j ne file').0))

  ascends' : (i : ℕ) → IsFile h' i → Ascends pfs_data_start (pfs_entry_extents h' i)
  ascends' i file' = elim (ℕ_discrete index i) [
    | yes at ↦ rw (← at, extents_here) grown.ascends
    | no ne ↦ rw (extents_there i ne file') (good.ascends i (IsFile-back i ne file'))
  ]

  -- No sector of the file `index` is one of the file `j`.
  apart :
      (j s : ℕ)
      → index ≢ j
      → IsFile h' j
      → Taken (pfs_entry_extents h' index) s
      → ¬ Taken (pfs_entry_extents h' j) s
  apart j s ne file' mine theirs =
      let theirs_before : Taken (pfs_entry_extents h j) s =
        subst (λ es. Taken es s) (extents_there j ne file') theirs in
      elim (grown.gained s (subst (λ es. Taken es s) extents_here mine)) [
        | inl before ↦ good.disjoint index j s file (IsFile-back j ne file') ne before theirs_before
        | inr free ↦
            free (taken_by_other h index good j s ne (IsFile-back j ne file') theirs_before)
      ]

  disjoint' :
      (i j s : ℕ)
      → IsFile h' i
      → IsFile h' j
      → i ≢ j
      → Taken (pfs_entry_extents h' i) s
      → ¬ Taken (pfs_entry_extents h' j) s
  disjoint' i j s file_i file_j ne in_i in_j = elim (ℕ_discrete index i) [
    | yes at ↦
        apart j s (λ same. ne (sym at ∙ same)) file_j
          (subst (λ i. Taken (pfs_entry_extents h' i) s) (sym at) in_i) in_j
    | no ne_i ↦ elim (ℕ_discrete index j) [
      | yes at ↦
          apart i s ne_i file_i (subst (λ j. Taken (pfs_entry_extents h' j) s) (sym at) in_j) in_i
      | no ne_j ↦
          good.disjoint i j s (IsFile-back i ne_i file_i) (IsFile-back j ne_j file_j) ne
            (subst (λ es. Taken es s) (extents_there i ne_i file_i) in_i)
            (subst (λ es. Taken es s) (extents_there j ne_j file_j) in_j)
    ]
  ]

  grown-IsAllocated : IsAllocated h'
  grown-IsAllocated = record { consistent = consistent'; ascends = ascends'; disjoint = disjoint' }

  total_here : pfs_entry_total_sectors h' index ≡ pfs_entry_total_sectors h index + n
  total_here =
      total-size_of h' index (rw extents_here grown.ascends)
      ∙ ap size_of extents_here
      ∙ grown.size
      ∙ ap (λ t. t + n) (sym (total-size_of h index (good.ascends index file)))

  places_here :
      (k : ℕ)
      → k < pfs_entry_total_sectors h index
      → pfs_entry_lba_for_sector h' index k ≡ pfs_entry_lba_for_sector h index k
  unfolding pfs_entry_lba_for_sector
  places_here k l =
      ap (λ es. lba_from es k) extents_here
      ∙ grown.places k (omega (arith, total-size_of h index (good.ascends index file)))

  grown-Ensured :
      (size : ℕ)
      → sectors_for_len size ≤ pfs_entry_total_sectors h index + n
      → Ensured h index size (some (pfs_set_entry h index (with_extents h index es) now))
  unfolding e h'
  grown-Ensured size l = (
    grown-IsAllocated,
    omega (arith, total_here),
    entry_here ∙ ap (with_extents h index) (sym extents_here),
    places_here,
    (λ j ne used. sym (entry_there j ne used)),
    others,
  )

-- In a consistent header whose files have sectors of their own, growing a file to `size` bytes keeps
-- it so. On success the file has enough sectors for `size`; its sectors so far stay where they are, of
-- its entry nothing else changes but its modification time, and no byte of another entry's record
-- changes. It fails only if the entry is no file, or if its growth gets stuck.
pub ensure_capacity-Ensured :
    (h : Header) (index size now : ℕ)
    → IsAllocated h
    → index < pfs_entry_count
    → now < 2 ^ 64
    → Ensured h index size (ensure_capacity h index size now)
unfolding ensure_capacity
ensure_capacity-Ensured h index size now good l now_fits =
    elim (Bool-cases (not (pfs_entry_used h index) || pfs_entry_is_dir h index)) [
      | inl refuse ↦ rw (refuse, ensure_capacity) (inl λ file. no_file file refuse)
      | inr keep ↦
          let (used, dir) = is_file keep in
          let file : IsFile h index = ((l, used), is_dir-kind h index dir) in
          elim (Bool-cases (leb (sectors_for_len size) (pfs_entry_total_sectors h index))) [
            | inl enough ↦
                rw (keep, enough, ensure_capacity)
                  (
                    good,
                    ground (arith, enough),
                    refl,
                    (λ k l. refl),
                    (λ j ne used. refl),
                    λ j ne x low high. refl,
                  )
            | inr short ↦
                rw (keep, short, ensure_capacity)
                  (grow (ground (arith, short)) file
                    (pfs_grow_extents h (pfs_entry_extents h index) missing (some index))
                    (pfs_grow_extents-Growth h (pfs_entry_extents h index) missing (some index)
                      (on_disk h index good) (good.ascends index file)
                      (pfs_entry_extents-HasFew h index)))
          ]
    ]
  where
    missing : ℕ
    missing = sectors_for_len size - pfs_entry_total_sectors h index

    is_file :
        (not (pfs_entry_used h index) || pfs_entry_is_dir h index) ≡ false
        → (pfs_entry_used h index ≡ true) × (pfs_entry_is_dir h index ≡ false)
    is_file keep = ground arith

    no_file : IsFile h index → (not (pfs_entry_used h index) || pfs_entry_is_dir h index) ≡ true → ⊥
    no_file file refuse = ground (arith, refuse, file.0.1, kind-is_dir h index file.1)

    grow :
        pfs_entry_total_sectors h index ≤ sectors_for_len size
        → IsFile h index
        → (o : Option (List PfsExtent))
        → Growth h (some index) (pfs_entry_extents h index) missing o
        → Ensured h index size (elim o [
          | none ↦ none
          | some extents ↦ some (pfs_set_entry h index (with_extents h index extents) now)
        ])
    grow short file none growth = inr growth
    grow short file (some es) growth =
        grown-Ensured h index now good now_fits file missing es growth size (omega arith)
