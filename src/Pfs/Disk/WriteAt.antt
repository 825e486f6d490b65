-- ===== src/Pfs/Disk/WriteAt.antt =====
-- kernel/src/main.rs: `pfs_write_at` as a whole.
use rymos.Prelude.{
  ℕ, ◌+◌, ◌%◌, ◌^◌, ◌≤◌, ◌<◌, ◌≡◌, ◌≢◌, refl, sym, ap, ap₂, subst, ◌∙◌, inl, inr, true, false, some,
  List, arith, length, ltb,
}
use native.Mathlib.Decide.{dec_lt}
use rymos.Pfs.Header.{pfs_entry_used, pfs_entry_length}
use rymos.Pfs.Extents.Disjoint.{IsFile, IsAllocated}
use rymos.Pfs.Disk.{
  Disk, Io, failed, and_then, pfs_header_bytes, has_magic, write_data, write_sized, pfs_write_at,
  pfs_ensure_file_capacity, pfs_file_max,
}
use rymos.Pfs.Disk.Sectors.{
  After, After-failed, After-and_then, After-weaken, After-test, Works, Works-of, Same, OnlyIn,
  header_of, read_header_silent-and_then,
}
use rymos.Pfs.Disk.HeaderWrite.{InHeader}
use rymos.Pfs.Disk.Places.{place, place-after_header}
use rymos.Pfs.Disk.Ensuring.{pfs_ensure_file_capacity-After}
use rymos.Pfs.Disk.Filling.{write_data-After}
use rymos.Pfs.Disk.Contents.{IsWritten, NotWritten, written-IsWritten, file1, other_byte}

module _ (d : Disk) (index offset : ℕ) (bs : List ℕ) (now : ℕ) (good : IsAllocated (header_of d))
    (file : IsFile (header_of d) index) (now_fits : now < 2 ^ 64) where
  -- Nothing is written outside the header.
  header_only :
      (d' : Disk)
      → OnlyIn InHeader d d'
      → (j p x : ℕ) → IsFile (header_of d) j
      → index ≢ j
      → place (header_of d) j p ≡ some x
      → d'.bytes x ≡ d.bytes x
  header_only d' only j p x file_j ne at =
      only.0 x
        λ inside. omega (arith, inside, place-after_header (header_of d) j good file_j p x at)

  -- The header is the same, and nothing is written outside it.
  all_same :
      (d' : Disk)
      → OnlyIn InHeader d d'
      → header_of d' ≡ header_of d
      → (x : ℕ) → d'.bytes x ≡ d.bytes x
  all_same d' only same x = elim (dec_lt x pfs_header_bytes) [
    | yes inside ↦ let at = ap (λ h. h x) same in ground (arith, inside, at)
    | no beyond ↦ only.0 x beyond
  ]

  grow_and_write :
      offset + length bs ≤ pfs_file_max
      → has_magic (header_of d) ≡ true
      → After
          (NotWritten d index offset bs now)
          (λ d' _. IsWritten d index offset bs d')
          (and_then
            (pfs_ensure_file_capacity index (offset + length bs) now d)
            (λ d' _. write_data index (pfs_entry_length (header_of d) index) offset bs d'))
  grow_and_write small has =
      After-and_then _ (pfs_ensure_file_capacity index (offset + length bs) now d) _
        (pfs_ensure_file_capacity-After d index (offset + length bs) now good file now_fits)
        (λ d' (only, why). record {
          data_kept = header_only d' only;
          cause = λ works. let (same, reason) = why works in (all_same d' only same, inr reason);
        })
        (λ d' _ (only, ensured, magic).
          let file' = file1 d d' index offset bs good file small only ensured in
          After-weaken _ (write_data index (pfs_entry_length (header_of d) index) offset bs d')
            (write_data-After d' index (pfs_entry_length (header_of d) index) offset bs ensured.0
              file' ensured.1 small (magic ∙ has))
            (λ d'' (changed, broken). record {
              data_kept = other_byte d d' index offset bs good file small only ensured d'' changed;
              cause = λ works. absurd (broken (Works-of d d' only.1 works));
            })
            (λ d'' _ (changed, there, gap).
              written-IsWritten d d' index offset bs good file small only ensured d'' changed
                (magic ∙ has) there gap))

  used_and_write :
      offset + length bs ≤ pfs_file_max
      → has_magic (header_of d) ≡ true
      → After
          (NotWritten d index offset bs now)
          (λ d' _. IsWritten d index offset bs d')
          (elim (pfs_entry_used (header_of d) index) [
            | false ↦ failed d
            | true ↦
                and_then
                  (pfs_ensure_file_capacity index (offset + length bs) now d)
                  (λ d' _. write_data index (pfs_entry_length (header_of d) index) offset bs d')
          ])
  used_and_write small has = rw (file.0.1) (grow_and_write small has)

  too_large : pfs_file_max < offset + length bs → NotWritten d index offset bs now d
  too_large l = record {
    data_kept = λ j p x file_j ne at. refl;
    cause = λ works. ((λ x. refl), inl l);
  }

  no_header :
      (d' : Disk)
      → Same d d'
      → (Works d → has_magic (header_of d) ≡ false)
      → NotWritten d index offset bs now d'
  no_header d' same why = record {
    data_kept = λ j p x file_j ne at. ap (λ b. b x) same.0;
    cause = λ works. ((λ x. ap (λ b. b x) same.0), inr (inl (why works)));
  }

-- A disk on which some commands were served and nothing was written.
served_more : (d d' : Disk) → Same d d' → record d { served = d'.served } ≡ d'
served_more d d' same =
    ap₂ (λ b a. record { bytes = b; answers = a; served = d'.served }) (sym same.0) (sym same.1)

-- On a disk whose files have sectors of their own, writing data at `offset` into a file either
-- succeeds or fails. On success the file holds the data there, zero in the gap between its old end and
-- `offset`, and what it held at its other positions; the files still have sectors of their own,
-- and the records of all other entries, files or directories, and the bytes of the other files stay. A
-- failure leaves the bytes of the other
-- files, and with a drive that does every command the whole disk, and then the data goes beyond the
-- largest file, the disk has no RYMFS5 header, or the file cannot get the sectors.
pub pfs_write_at-After :
    (d : Disk) (index offset : ℕ) (bs : List ℕ) (now : ℕ)
    → IsAllocated (header_of d)
    → IsFile (header_of d) index
    → offset + length bs < 2 ^ 64
    → now < 2 ^ 64
    → After
        (NotWritten d index offset bs now)
        (λ d' _. IsWritten d index offset bs d')
        (pfs_write_at index offset bs now d)
unfolding pfs_write_at
pfs_write_at-After d index offset bs now good file fits now_fits =
    let no_wrap : (offset + length bs) % 2 ^ 64 ≡ offset + length bs = omega (arith, fits) in
    subst
      (λ n.
        After (NotWritten d index offset bs now) (λ d' _. IsWritten d index offset bs d')
          (write_sized n index offset bs now d))
      (sym no_wrap)
      (After-test _ _ (ltb pfs_file_max (offset + length bs)) _ _
        (λ large.
          After-failed _ _ d
            (too_large d index offset bs now good file now_fits (ground (arith, large))))
        (λ fits_file.
          read_header_silent-and_then _ d _ (no_header d index offset bs now good file now_fits)
            (λ d' same has. from_there d' same (ground (arith, fits_file)) has)))
  where
    steps : Disk → Io (Unit {0})
    steps d' = elim (pfs_entry_used (header_of d) index) [
      | false ↦ failed d'
      | true ↦
          and_then (pfs_ensure_file_capacity index (offset + length bs) now d')
            (λ d' _. write_data index (pfs_entry_length (header_of d) index) offset bs d')
    ]

    from_there :
        (d' : Disk)
        → Same d d'
        → offset + length bs ≤ pfs_file_max
        → has_magic (header_of d) ≡ true
        → After
            (NotWritten d index offset bs now)
            (λ d' _. IsWritten d index offset bs d')
            (steps d')
    from_there d' same small has =
        subst
          (λ d'.
            After (NotWritten d index offset bs now) (λ d' _. IsWritten d index offset bs d')
              (steps d'))
          (served_more d d' same)
          (After-weaken _ (steps (record d { served = d'.served }))
            (used_and_write (record d { served = d'.served }) index offset bs now good file now_fits
              small has)
            (λ d'' n. record { data_kept = n.data_kept; cause = n.cause })
            (λ d'' _ w. record {
              allocated = w.allocated;
              has_header = w.has_header;
              drive_kept = w.drive_kept;
              still_file = w.still_file;
              data_there = w.data_there;
              gap_zeroed = w.gap_zeroed;
              rest_kept = w.rest_kept;
              others_kept = w.others_kept;
              entries_kept = w.entries_kept;
            }))
