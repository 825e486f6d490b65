-- ===== src/Pfs/Extents/Disjoint.antt =====
-- kernel/src/main.rs: headers whose files have sectors of their own.
use rymos.Prelude.{
  ◌∙◌, ℕ, zero, suc, ◌+◌, ◌<◌, ◌≡◌, ◌≢◌, refl, ◌⊎◌, inl, inr, Bool, true, false, ◌||◌, not, some,
  List, [], ◌∷◌, arith, Bool-cases, length, ap,
}
use rymos.Pfs.Header.{
  Header, PfsExtent, pfs_entry_count, pfs_entry_used, pfs_entry_is_dir, pfs_entry_kind,
  pfs_kind_dir, pfs_entry_extents, pfs_entry_extent_count, extents_from,
}
use rymos.Pfs.Header.ExtentBytes.{AllExtents}
use rymos.Pfs.Directory.Unique.{IsUsed, IsConsistent}
use rymos.Pfs.Extents.{extents_of_other, is_index, pfs_data_start}
use rymos.Pfs.Extents.Occupied.{Taken, AllOnDisk, TakenByOther}
use rymos.Pfs.Extents.Append.{Ascends, Ascends-OnDisk, Ascends-bound, HasFew}

-- The entry is in use and no directory.
abbrev pub IsFile : Header → ℕ → Type 0
IsFile h i = IsUsed h i × (pfs_entry_kind h i ≢ pfs_kind_dir)

-- The names are consistent, the extents of every file ascend on the disk, and no two files share a
-- sector.
pub record IsAllocated (h : Header) : Type 0 where
  pub consistent : IsConsistent h
  pub ascends : (i : ℕ) → IsFile h i → Ascends pfs_data_start (pfs_entry_extents h i)
  pub disjoint :
      (i j s : ℕ)
      → IsFile h i
      → IsFile h j
      → i ≢ j
      → Taken (pfs_entry_extents h i) s
      → ¬ Taken (pfs_entry_extents h j) s

pub is_dir-kind :
    (h : Header) (i : ℕ) → pfs_entry_is_dir h i ≡ false → pfs_entry_kind h i ≢ pfs_kind_dir
unfolding pfs_entry_is_dir pfs_entry_kind
is_dir-kind h i d same = ground arith

pub kind-is_dir :
    (h : Header) (i : ℕ) → pfs_entry_kind h i ≢ pfs_kind_dir → pfs_entry_is_dir h i ≡ false
unfolding pfs_entry_is_dir pfs_entry_kind
kind-is_dir h i ne = ground arith

pub pfs_entry_extents-HasFew : (h : Header) (i : ℕ) → HasFew (pfs_entry_extents h i)
unfolding pfs_entry_extents pfs_entry_extent_count extents_from
pfs_entry_extents-HasFew h i = omega (arith, length-extents_from 0 (pfs_entry_extent_count h i))
  where
    length-extents_from : (slot n : ℕ) → length (extents_from h i slot n) ≡ n
    length-extents_from slot zero = refl
    length-extents_from slot (suc n) = ap suc (length-extents_from (suc slot) n)

pub Ascends-AllExtents : (low : ℕ) (es : List PfsExtent) → Ascends low es → AllExtents es
Ascends-AllExtents low [] a = tt
Ascends-AllExtents low (e ∷ es) a =
    let bound = Ascends-bound (e.start + e.sectors) es a.1 in
    (omega (arith, bound), omega (arith, bound), Ascends-AllExtents (e.start + e.sectors) es a.1)

module _ (h : Header) (index : ℕ) (good : IsAllocated h) where
  -- What the search skips.
  extents_of_other-cases :
      (j : ℕ)
      → j < pfs_entry_count
      → (extents_of_other h (some index) j ≡ [])
        ⊎ ((index ≢ j) × IsFile h j × (extents_of_other h (some index) j ≡ pfs_entry_extents h j))
  extents_of_other-cases j l = elim (Bool-cases (skipped j)) [
    | inl skip ↦ inl (rw skip refl)
    | inr keep ↦
        let (ne, used, file) = skipped-false j keep in
        inr (ne, ((l, used), is_dir-kind h j file), rw keep refl)
  ]
    where
      skipped : ℕ → Bool
      skipped j = is_index j (some index) || (not (pfs_entry_used h j) || pfs_entry_is_dir h j)

      skipped-false :
          (j : ℕ)
          → skipped j ≡ false
          → (index ≢ j) × (pfs_entry_used h j ≡ true) × (pfs_entry_is_dir h j ≡ false)
      skipped-false j keep = ground arith

  pub on_disk : AllOnDisk h (some index)
  on_disk j l = elim (extents_of_other-cases j l) [
    | inl nothing ↦ rw nothing tt
    | inr (ne, file, same) ↦
        rw same (Ascends-OnDisk pfs_data_start (pfs_entry_extents h j) (good.ascends j file))
  ]

  pub taken_by_other :
      (j s : ℕ)
      → index ≢ j
      → IsFile h j
      → Taken (pfs_entry_extents h j) s
      → TakenByOther h (some index) s
  taken_by_other j s ne file t = (j, file.0.0, rw keep t)
    where
      keep : (is_index j (some index) || (not (pfs_entry_used h j) || pfs_entry_is_dir h j)) ≡ false
      keep = rw (file.0.1, kind-is_dir h j file.1) (ground (arith, ne))

-- A header in which every used entry has the name, the kind and the extents that it has in `h` is
-- allocated as `h` is, where it is consistent.
pub IsAllocated-same :
    (h h' : Header)
    → IsAllocated h
    → IsConsistent h'
    → ((j : ℕ) → IsUsed h' j → IsUsed h j)
    → ((j : ℕ)
        → IsUsed h' j
        → (pfs_entry_kind h' j ≡ pfs_entry_kind h j)
          × (pfs_entry_extents h' j ≡ pfs_entry_extents h j))
    → IsAllocated h'
IsAllocated-same h h' good consistent back same = record {
  consistent = consistent;
  ascends = λ i file. rw ((same i file.0).1) (good.ascends i (file_of i file));
  disjoint = λ i j s file_i file_j ne in_i in_j.
      good.disjoint i j s (file_of i file_i) (file_of j file_j) ne
        (rw ((same i file_i.0).1) at in_i) (rw ((same j file_j.0).1) at in_j);
}
  where
    file_of : (i : ℕ) → IsFile h' i → IsFile h i
    file_of i file = (back i file.0, λ dir. file.1 ((same i file.0).0 ∙ dir))
