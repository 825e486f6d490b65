-- ===== src/Pfs/Extents/Occupied.antt =====
-- kernel/src/main.rs: the scan of `pfs_find_free_run` and the sectors that the extents take.
use rymos.Prelude.{
  ℕ, zero, suc, ◌+◌, ◌≤◌, ◌<◌, ◌≡◌, ◌⊎◌, inl, inr, true, false, Option, none, some, List, [], ◌∷◌,
  arith, Bool-cases,
}
use native.Mathlib.Decide.{ℕ_discrete}
use rymos.Pfs.Header.{Header, PfsExtent, pfs_entry_count}
use rymos.Pfs.Extents.{
  Scan, blocked, clear, extent_end, covers, obstacle, scan_extents, scan_entries, extents_of_other,
  pfs_disk_sectors,
}

-- The sector is one of the extent's.
abbrev pub InExtent : PfsExtent → ℕ → Type 0
InExtent e s = (e.start ≤ s) × (s < e.start + e.sectors)

abbrev pub Taken : List PfsExtent → ℕ → Type 0
Taken [] s = ⊥
Taken (e ∷ es) s = InExtent e s ⊎ Taken es s

-- The extents end on the disk.
abbrev pub OnDisk : List PfsExtent → Type 0
OnDisk [] = Unit {0}
OnDisk (e ∷ es) = (e.start + e.sectors ≤ pfs_disk_sectors) × OnDisk es

-- The sector is before the obstacle, if there is one.
abbrev pub Before : Option ℕ → ℕ → Type 0
Before none s = Unit {0}
Before (some v) s = s < v

abbrev pub Above : ℕ → Option ℕ → Type 0
Above c none = Unit {0}
Above c (some v) = c < v

module _ (c : ℕ) (e : PfsExtent) (on_disk : e.start + e.sectors ≤ pfs_disk_sectors) where
  covers-InExtent :
      covers c e ≡ true → (c < extent_end e) × ((s : ℕ) → c ≤ s → s < extent_end e → InExtent e s)
  covers-InExtent h = ground arith

  obstacle-InExtent :
      (o : Option ℕ) (s : ℕ)
      → covers c e ≡ false
      → c ≤ s
      → Before (obstacle c e o) s
      → ¬ InExtent e s
  obstacle-InExtent o s miss l before inside = ground arith

obstacle-Before :
    (c : ℕ) (e : PfsExtent) (o : Option ℕ) (s : ℕ) → Before (obstacle c e o) s → Before o s
obstacle-Before c e o s before = ground arith

obstacle-Above : (c : ℕ) (e : PfsExtent) (o : Option ℕ) → Above c o → Above c (obstacle c e o)
obstacle-Above c e o above = ground arith

-- What a pass over `es` from the obstacle `o` on finds about the sectors that `T` says are taken.
abbrev pub Scanned : ℕ → (ℕ → Type 0) → Option ℕ → Scan → Type 0
Scanned c T o (blocked e) = (c < e) × ((s : ℕ) → c ≤ s → s < e → T s)
Scanned c T o (clear o') =
    ((s : ℕ) → c ≤ s → Before o' s → ¬ T s)
    × ((s : ℕ) → Before o' s → Before o s)
    × (Above c o → Above c o')

scan_extents-Scanned :
    (c : ℕ) (es : List PfsExtent) (o : Option ℕ)
    → OnDisk es
    → Scanned c (Taken es) o (scan_extents c es o)
unfolding scan_extents
scan_extents-Scanned c [] o on_disk = ((λ s l b t. t), (λ s b. b), λ above. above)
scan_extents-Scanned c (e ∷ es) o on_disk = elim (Bool-cases (covers c e)) [
  | inl hit ↦
      let inside = covers-InExtent c e on_disk.0 hit in
      rw hit (inside.0, λ s low high. inl (inside.1 s low high))
  | inr miss ↦ rw miss (
      step miss (scan_extents c es (obstacle c e o))
        (scan_extents-Scanned c es (obstacle c e o) on_disk.1))
]
  where
    step :
        covers c e ≡ false
        → (r : Scan) → Scanned c (Taken es) (obstacle c e o) r
        → Scanned c (Taken (e ∷ es)) o r
    step miss (blocked used_end) found = (found.0, λ s low high. inr (found.1 s low high))
    step miss (clear o') found = (
      λ s low before. elim [
        | inl here ↦ obstacle-InExtent c e on_disk.0 o s miss low (found.1 s before) here
        | inr there ↦ found.0 s low before there
      ],
      λ s before. obstacle-Before c e o s (found.1 s before),
      λ above. found.2 (obstacle-Above c e o above),
    )

-- An entry of the range, not skipped, takes the sector.
abbrev TakenIn : Header → Option ℕ → ℕ → ℕ → ℕ → Type 0
TakenIn h skip index n s =
    (j : ℕ) × (index ≤ j) × (j < index + n) × Taken (extents_of_other h skip j) s

-- A file other than the skipped one takes the sector.
abbrev pub TakenByOther : Header → Option ℕ → ℕ → Type 0
TakenByOther h skip s = (j : ℕ) × (j < pfs_entry_count) × Taken (extents_of_other h skip j) s

-- The extents of every file end on the disk.
abbrev pub AllOnDisk : Header → Option ℕ → Type 0
AllOnDisk h skip = (j : ℕ) → j < pfs_entry_count → OnDisk (extents_of_other h skip j)

module _ (h : Header) (skip : Option ℕ) (on_disk : AllOnDisk h skip) where
  scan_entries-Scanned :
      (n index c : ℕ) (o : Option ℕ)
      → index + n ≤ pfs_entry_count
      → Scanned c (TakenIn h skip index n) o (scan_entries h skip n index c o)
  unfolding scan_entries
  scan_entries-Scanned zero index c o l =
      ((λ s low b t. absurd (omega (arith, t.1, t.2))), (λ s b. b), λ above. above)
  scan_entries-Scanned (suc n) index c o l =
      after (λ o'. scan_entries-Scanned n (suc index) c o' (omega arith))
        (scan_extents c (extents_of_other h skip index) o)
        (scan_extents-Scanned c (extents_of_other h skip index) o (on_disk index (omega arith)))
    where
      here : (s : ℕ) → Taken (extents_of_other h skip index) s → TakenIn h skip index (suc n) s
      here s t = (index, omega arith, omega arith, t)

      later : (s : ℕ) → TakenIn h skip (suc index) n s → TakenIn h skip index (suc n) s
      later s (j, low, high, t) = (j, omega arith, omega arith, t)

      one_of :
          (s : ℕ)
          → TakenIn h skip index (suc n) s
          → Taken (extents_of_other h skip index) s ⊎ TakenIn h skip (suc index) n s
      one_of s (j, low, high, t) = elim (ℕ_discrete index j) [
        | yes at ↦ inl (rw at t)
        | no other ↦ inr (j, omega arith, omega arith, t)
      ]

      rest :
          (o' : Option ℕ) (r : Scan)
          → Scanned c (Taken (extents_of_other h skip index)) o (clear o')
          → Scanned c (TakenIn h skip (suc index) n) o' r
          → Scanned c (TakenIn h skip index (suc n)) o r
      rest o' (blocked used_end) first found = (found.0, λ s low high. later s (found.1 s low high))
      rest o' (clear o'') first found = (
        λ s low before taken. elim (one_of s taken) [
          | inl t ↦ first.0 s low (found.1 s before) t
          | inr t ↦ found.0 s low before t
        ],
        λ s before. first.1 s (found.1 s before),
        λ above. found.2 (first.2 above),
      )

      after :
          ((o' : Option ℕ)
            → Scanned c (TakenIn h skip (suc index) n) o' (scan_entries h skip n (suc index) c o'))
          → (r : Scan) → Scanned c (Taken (extents_of_other h skip index)) o r
          → Scanned c (TakenIn h skip index (suc n)) o (elim r [
            | blocked used_end ↦ blocked used_end
            | clear next ↦ scan_entries h skip n (suc index) c next
          ])
      after again (blocked used_end) found = (found.0, λ s low high. here s (found.1 s low high))
      after again (clear o') found =
          rest o' (scan_entries h skip n (suc index) c o') found (again o')

  pub scan-Scanned :
      (c : ℕ) → Scanned c (TakenByOther h skip) none (scan_entries h skip pfs_entry_count 0 c none)
  scan-Scanned c =
      whole (scan_entries h skip pfs_entry_count 0 c none)
        (scan_entries-Scanned pfs_entry_count 0 c none (omega arith))
    where
      whole :
          (r : Scan)
          → Scanned c (TakenIn h skip 0 pfs_entry_count) none r
          → Scanned c (TakenByOther h skip) none r
      whole (blocked used_end) found =
          (found.0, λ s low high. let t = found.1 s low high in (t.0, t.2, t.3))
      whole (clear o) found =
          ((λ s low before t. found.0 s low before (t.0, omega arith, t.1, t.2)), found.1, found.2)
