-- ===== src/Pfs/Disk/Tests.antt =====
-- The theorems on RYMFS5's disk at a disk with one file.
use rymos.Prelude.{
  ℕ, ◌≤◌, ◌≡◌, refl, sym, ap, ◌∙◌, subst, inl, inr, some, none, true, false, List, [], ◌∷◌, arith,
  length, write_slice, write_slice-Outside, not, ◌==◌, read_slice, fill, ◌≢◌, Option, Bool,
}
use rymos.Pfs.Header.{
  Header, pfs_entry_used, pfs_entry_offset, pfs_set_entry, write_extents, pfs_entry_is_dir,
  pfs_entry_extents, pfs_entry_extent_count, extents_from,
}
use rymos.Pfs.Header.Frame.{pfs_set_entry-Outside}
use rymos.Pfs.Directory.Unique.{IsUsed}
use rymos.Pfs.Extents.{
  ensure_capacity, pfs_entry_total_sectors, total_from, sectors_for_len, pfs_grow_extents,
  grow_from, pfs_find_free_run, free_run_from, scan_entries, scan_extents, add_run,
}
use rymos.Pfs.Extents.Disjoint.{IsFile, IsAllocated}
use rymos.Pfs.Samples.{empty_a, with_file, with_file-IsFile, with_file-IsAllocated}
use rymos.Pfs.Disk.{Disk, ok, done, magic, has_magic, pfs_read_at, pfs_write_at}
use rymos.Pfs.Disk.Sectors.{After, Works, Same, header_of}
use rymos.Pfs.Disk.Ensuring.{Ends, header_up_to-Ends}
use rymos.Pfs.Disk.Reading.{Refuses, Holds, pfs_read_at-After}
use rymos.Pfs.Disk.Contents.{IsWritten, NotWritten}
use rymos.Pfs.Disk.WriteAt.{pfs_write_at-After}
use rymos.Pfs.Disk.RoundTrip.{After-returns, pfs_read_at-pfs_write_at}

abbrev formatted : Header
formatted = write_slice (λ _. 0) 0 magic

formatted-beyond : (x : ℕ) → 8 ≤ x → formatted x ≡ 0
formatted-beyond x l = write_slice-Outside (λ _. 0) 0 magic x (inr l)

formatted-unused : (i : ℕ) → ¬ IsUsed formatted i
unfolding pfs_entry_used
formatted-unused i used =
    let clear : formatted (pfs_entry_offset i) ≡ 0 =
      formatted-beyond (pfs_entry_offset i) (omega arith) in
    absurd (cc (used.1, ap (λ b. not (b == 0)) clear))

abbrev h0 : Header
h0 = with_file formatted

abbrev disk : Disk
disk = record { bytes = h0; answers = λ _. done; served = 0 }

h0-Ends : Ends h0
h0-Ends x l =
    pfs_set_entry-Outside formatted 0 empty_a 6 x (omega arith) (inr (omega (arith, l)))
    ∙ formatted-beyond x (omega (arith, l))

disk-header : header_of disk ≡ h0
disk-header = header_up_to-Ends h0 h0-Ends

disk-IsAllocated : IsAllocated (header_of disk)
disk-IsAllocated =
    subst IsAllocated (sym disk-header) (with_file-IsAllocated formatted formatted-unused)

disk-IsFile : IsFile (header_of disk) 0
disk-IsFile =
    subst (λ h. IsFile h 0) (sym disk-header) (with_file-IsFile formatted formatted-unused)

disk-Works : Works disk
disk-Works n = refl

abbrev hi : List ℕ
hi = b'h' ∷ b'i' ∷ []

pfs_read_at-After_example :
    After
      (λ d'. Same disk d' × (Works disk → Refuses disk 0 3 2))
      (λ d' bs. Same disk d' × (length bs ≡ 2) × Holds (header_of disk) 0 disk.bytes 3 bs)
      (pfs_read_at 0 3 2 disk)
pfs_read_at-After_example = pfs_read_at-After disk 0 3 2 disk-IsAllocated disk-IsFile (omega arith)

pfs_write_at-After_example :
    After (NotWritten disk 0 3 hi 9) (λ d' _. IsWritten disk 0 3 hi d') (pfs_write_at 0 3 hi 9 disk)
pfs_write_at-After_example =
    pfs_write_at-After disk 0 3 hi 9 disk-IsAllocated disk-IsFile (omega arith) (omega arith)

-- A sector is free for the file.
grown : Option Header → Bool
grown none = false
grown (some h) = true

grows : grown (ensure_capacity h0 0 5 9) ≡ true
unfolding grown ensure_capacity pfs_entry_used pfs_entry_is_dir pfs_entry_total_sectors
    pfs_entry_extents pfs_entry_extent_count extents_from total_from sectors_for_len
    pfs_grow_extents grow_from pfs_find_free_run free_run_from scan_entries scan_extents add_run
    read_slice write_slice pfs_set_entry fill write_extents
grows = refl

can_grow : ensure_capacity h0 0 5 9 ≢ none
unfolding grown
can_grow e = cc (ap grown e, grows)

has_header : has_magic h0 ≡ true
unfolding read_slice write_slice pfs_set_entry fill write_extents
has_header = refl

writes :
    (d : Disk) × (a : Unit {0}) × (pfs_write_at 0 3 hi 9 disk ≡ ok d a) × IsWritten disk 0 3 hi d
writes =
    After-returns (pfs_write_at 0 3 hi 9 disk)
      (pfs_write_at-After disk 0 3 hi 9 disk-IsAllocated disk-IsFile (omega arith) (omega arith))
      (λ d' n. elim (n.cause disk-Works).1 [
        | inl large ↦ omega (arith, large)
        | inr (inl no_magic) ↦ cc (no_magic, ap has_magic disk-header, has_header)
        | inr (inr stuck) ↦ can_grow (ap (λ h. ensure_capacity h 0 5 9) (sym disk-header) ∙ stuck)
      ])

pfs_read_at-pfs_write_at_example : (d'' : Disk) × (pfs_read_at 0 3 2 writes.0 ≡ ok d'' hi)
pfs_read_at-pfs_write_at_example =
    pfs_read_at-pfs_write_at disk writes.0 0 3 hi 9 disk-IsAllocated disk-IsFile (omega arith)
      (omega arith) disk-Works writes.2
