-- ===== src/Pfs/Disk/Contents.antt =====
-- kernel/src/main.rs: `pfs_write_at`, and the contents of the files before and after it.
use rymos.Prelude.{
  ℕ, ◌+◌, ◌-◌, ◌%◌, ◌≤◌, ◌<◌, ◌≡◌, ◌≢◌, sym, ap, subst, ◌∙◌, ◌⊎◌, true, false, none, some, List,
  arith, min, length, not, ◌==◌,
}
use rymos.Pfs.Header.{
  Header, pfs_entry_used, pfs_entry_kind, pfs_entry_extents, pfs_entry_length, entry_of,
}
use rymos.Pfs.Header.Frame.{SameBytes}
use rymos.Pfs.Extents.{pfs_entry_lba_for_sector, ensure_capacity, lba_from}
use rymos.Pfs.Extents.Disjoint.{IsFile, IsAllocated}
use rymos.Pfs.Extents.Capacity.{Ensured}
use rymos.Pfs.Disk.{Disk, pfs_header_bytes, logical_sector, sector_size, has_magic, pfs_file_max}
use rymos.Pfs.Disk.Sectors.{Works, OnlyIn, header_of}
use rymos.Pfs.Disk.HeaderWrite.{InHeader}
use rymos.Pfs.Disk.Places.{
  place, at_offset, place-lba, lba-below, place-after_header, place-injective, place-other,
}
use rymos.Pfs.Disk.Reading.{Holds}
use rymos.Pfs.Disk.Loops.{zeros}
use rymos.Pfs.Disk.Filling.{Changed, InRange-header_of}

-- What a successful write at `offset` leaves: the sectors of the files stay apart; the data is in the
-- file; a gap between the old end and `offset` is zero; the other bytes before the old end stay; the
-- other files stay, and the records of all other entries.
pub record IsWritten (d : Disk) (index offset : ℕ) (bs : List ℕ) (d' : Disk) : Type 0 where
  pub allocated : IsAllocated (header_of d')
  pub has_header : has_magic (header_of d') ≡ true
  pub drive_kept : d'.answers ≡ d.answers
  pub still_file : IsFile (header_of d') index
  pub data_there : Holds (header_of d') index d'.bytes offset bs
  pub gap_zeroed :
      Holds
        (header_of d')
        index
        d'.bytes
        (pfs_entry_length (header_of d) index)
        (zeros (offset - pfs_entry_length (header_of d) index))
  pub rest_kept :
      (p x : ℕ)
      → p < pfs_entry_length (header_of d) index
      → (p < offset) ⊎ (offset + length bs ≤ p)
      → place (header_of d) index p ≡ some x
      → (place (header_of d') index p ≡ some x) × (d'.bytes x ≡ d.bytes x)
  pub others_kept :
      (j : ℕ)
      → IsFile (header_of d) j
      → index ≢ j
      → (entry_of (header_of d') j ≡ entry_of (header_of d) j)
        × ((p x : ℕ)
            → place (header_of d) j p ≡ some x
            → (place (header_of d') j p ≡ some x) × (d'.bytes x ≡ d.bytes x))
  pub entries_kept : (j : ℕ) → index ≢ j → SameBytes (header_of d) (header_of d') j

-- What a write that fails leaves: the bytes of the other files, and with a drive that does every
-- command the whole disk. Then the disk has no RYMFS5 header, or the file cannot grow so far.
pub record NotWritten (d : Disk) (index offset : ℕ) (bs : List ℕ) (now : ℕ) (d' : Disk)
    : Type 0 where
  pub data_kept :
      (j p x : ℕ)
      → IsFile (header_of d) j
      → index ≢ j
      → place (header_of d) j p ≡ some x
      → d'.bytes x ≡ d.bytes x
  pub cause :
      Works d
      → ((x : ℕ) → d'.bytes x ≡ d.bytes x)
        × ((pfs_file_max < offset + length bs)
            ⊎ ((has_magic (header_of d) ≡ false)
                ⊎ (ensure_capacity (header_of d) index (offset + length bs) now ≡ none)))

IsFile-kind :
    (h h' : Header) (j : ℕ) → pfs_entry_kind h' j ≡ pfs_entry_kind h j → IsFile h j → IsFile h' j
unfolding pfs_entry_kind pfs_entry_used
IsFile-kind h h' j same file =
    ((file.0.0, ap (λ k. not (k == 0)) same ∙ file.0.1), λ dir. file.1 (sym same ∙ dir))

place-extents :
    (h h' : Header) (j p : ℕ)
    → pfs_entry_extents h' j ≡ pfs_entry_extents h j
    → place h' j p ≡ place h j p
unfolding pfs_entry_lba_for_sector
place-extents h h' j p same =
    ap (λ es. at_offset (lba_from es (logical_sector p)) (p % sector_size)) same

-- The steps after `pfs_ensure_file_capacity`.
module _ (d d1 : Disk) (index offset : ℕ) (bs : List ℕ) (good : IsAllocated (header_of d))
    (file : IsFile (header_of d) index) (small : offset + length bs ≤ pfs_file_max)
    (only : OnlyIn InHeader d d1)
    (ensured : Ensured (header_of d) index (offset + length bs) (some (header_of d1))) where
  abbrev old_size : ℕ
  old_size = pfs_entry_length (header_of d) index

  pub file1 : IsFile (header_of d1) index
  file1 = IsFile-kind (header_of d) (header_of d1) index (ap (λ e. e.kind) ensured.2) file

  place-index :
      (p x : ℕ) → place (header_of d) index p ≡ some x → place (header_of d1) index p ≡ some x
  place-index p x at =
      let (lba, found, here) = place-lba (header_of d) index p x at in
      ap (λ o. at_offset o (p % sector_size))
        (ensured.3 (logical_sector p)
          (lba-below (header_of d) index good file (logical_sector p) lba found))
      ∙ at

  entry-other :
      (j : ℕ)
      → IsFile (header_of d) j
      → index ≢ j
      → entry_of (header_of d1) j ≡ entry_of (header_of d) j
  entry-other j file_j ne = ensured.4 j ne file_j.0

  IsFile-other : (j : ℕ) → IsFile (header_of d) j → index ≢ j → IsFile (header_of d1) j
  IsFile-other j file_j ne =
      IsFile-kind (header_of d) (header_of d1) j (ap (λ e. e.kind) (entry-other j file_j ne)) file_j

  place-other1 :
      (j p x : ℕ)
      → IsFile (header_of d) j
      → index ≢ j
      → place (header_of d) j p ≡ some x
      → place (header_of d1) j p ≡ some x
  place-other1 j p x file_j ne at =
      place-extents (header_of d) (header_of d1) j p (ap (λ e. e.extents) (entry-other j file_j ne))
      ∙ at

  before : (x : ℕ) → pfs_header_bytes ≤ x → d1.bytes x ≡ d.bytes x
  before x beyond = only.0 x λ inside. omega (arith, beyond, inside)

  module _ (d2 : Disk)
      (changed : Changed d1 index old_size offset bs ensured.0 file1 ensured.1 small d1 d2) where
    pub other_byte :
        (j p x : ℕ)
        → IsFile (header_of d) j
        → index ≢ j
        → place (header_of d) j p ≡ some x
        → d2.bytes x ≡ d.bytes x
    other_byte j p x file_j ne at =
        changed.0 x (λ (q, low, high, there).
          place-other (header_of d1) index ensured.0 file1 j q p x (IsFile-other j file_j ne) ne
            there (place-other1 j p x file_j ne at))
        ∙ before x (place-after_header (header_of d) j good file_j p x at)

    rest_byte :
        (p x : ℕ)
        → p < old_size
        → (p < offset) ⊎ (offset + length bs ≤ p)
        → place (header_of d) index p ≡ some x
        → d2.bytes x ≡ d.bytes x
    rest_byte p x l apart at =
        changed.0 x (λ (q, low, high, there). omega (
          arith,
          l,
          apart,
          low,
          high,
          place-injective (header_of d1) index ensured.0 file1 p q x
              (omega (arith, l, (good.consistent.fits index file.0).size_fits))
              (omega (arith, high, small)) (place-index p x at) there,
        ))
        ∙ before x (place-after_header (header_of d) index good file p x at)

    unchanged : header_of d2 ≡ header_of d1
    unchanged =
        InRange-header_of (header_of d1) index ensured.0 file1 d1 d2 (min old_size offset)
          (offset + length bs - min old_size offset) changed

    pub written-IsWritten :
        has_magic (header_of d1) ≡ true
        → Holds (header_of d1) index d2.bytes offset bs
        → Holds (header_of d1) index d2.bytes old_size (zeros (offset - old_size))
        → IsWritten d index offset bs d2
    written-IsWritten has there gap = record {
      allocated = subst IsAllocated (sym unchanged) ensured.0;
      has_header = ap has_magic unchanged ∙ has;
      drive_kept = changed.1 ∙ only.1;
      still_file = subst (λ h. IsFile h index) (sym unchanged) file1;
      data_there = subst (λ h. Holds h index d2.bytes offset bs) (sym unchanged) there;
      gap_zeroed =
          subst (λ h. Holds h index d2.bytes old_size (zeros (offset - old_size))) (sym unchanged)
            gap;
      rest_kept = λ p x l apart at. (
        subst (λ h. place h index p ≡ some x) (sym unchanged) (place-index p x at),
        rest_byte p x l apart at,
      );
      others_kept = λ j file_j ne. (
        subst (λ h. entry_of h j ≡ entry_of (header_of d) j) (sym unchanged)
            (entry-other j file_j ne),
        λ p x at. (
          subst (λ h. place h j p ≡ some x) (sym unchanged) (place-other1 j p x file_j ne at),
          other_byte j p x file_j ne at,
        ),
      );
      entries_kept =
          λ j ne. subst (λ h. SameBytes (header_of d) h j) (sym unchanged) (ensured.5 j ne);
    }
