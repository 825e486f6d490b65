-- ===== src/Pfs/Tests.antt =====
-- The theorems on RYMFS5's header at concrete headers.
use rymos.Prelude.{
  ℕ, ◌≡◌, refl, subst, none, some, List, [], ◌∷◌, arith, first_from, true, false, read_slice, fill,
  write_slice,
}
use rymos.Pfs.Header.{
  PfsExtent, Header, Entry, pfs_entry_used, pfs_set_entry, write_extents, entry_of,
  pfs_entry_modified, pfs_entry_is_dir, pfs_entry_name,
}
use rymos.Pfs.Header.Codec.{Fits, entry_of-pfs_set_entry}
use rymos.Pfs.Directory.{
  changed, slash, mkdir_header, new_dir, pfs_unlink_header, pfs_rename_header, renamed, lookup,
  pfs_find_entry, pfs_free_entry, pfs_parent_exists, pfs_dir_empty, is_below, valid_pfs_path,
  valid_from, find_last_byte, last_below,
}
use rymos.Pfs.Directory.Unique.{IsUsed, IsConsistent}
use rymos.Pfs.Extents.{pfs_find_free_run, pfs_grow_extents, ensure_capacity, update_size}
use rymos.Pfs.Extents.FreeRun.{FreeRun, pfs_find_free_run-FreeRun}
use rymos.Pfs.Extents.Growth.{Growth, pfs_grow_extents-Growth}
use rymos.Pfs.Extents.Disjoint.{IsAllocated, on_disk}
use rymos.Pfs.Extents.Capacity.{Ensured, ensure_capacity-Ensured}
use rymos.Pfs.Extents.Size.{Resized, update_size-Resized}
use rymos.Pfs.Extents.Names.{
  KeepsSectors, pfs_unlink_header-KeepsSectors, pfs_rename_header-KeepsSectors,
}
use rymos.Pfs.Samples.{with_file, with_file-IsAllocated}
use rymos.Pfs.Directory.Unlink.{Unlinked, pfs_unlink_header-Unlinked}
use rymos.Pfs.Directory.Rename.{Renamed, pfs_rename_header-Renamed}
use rymos.Pfs.Directory.Create.{Created, mkdir_header-Created}
use rymos.Pfs.Directory.Orphan.{IsParent, pfs_rename_header-orphan}

abbrev blank : Header
blank _ = 0

blank-unused : (i : ℕ) → ¬ IsUsed blank i
unfolding pfs_entry_used
blank-unused i used = absurd (cc used.1)

blank-IsConsistent : IsConsistent blank
blank-IsConsistent = record {
  fits = λ i used. absurd (blank-unused i used);
  unique = λ i j used. absurd (blank-unused i used);
}

abbrev a : List ℕ
a = b'a' ∷ []

abbrev a_b : List ℕ
a_b = b'a' ∷ slash ∷ b'b' ∷ []

abbrev file : Entry
file = record {
  name = a_b;
  size = 700;
  kind = 1;
  extents = record { start = 100; sectors = 1 } ∷ record { start = 300; sectors = 1 } ∷ [];
  created_ticks = 5;
  mode = 3;
}

file-Fits : Fits file
file-Fits = record {
  name_fits = omega arith;
  size_fits = omega arith;
  extents_fit = omega arith;
  words_fit = (omega arith, omega arith, (omega arith, omega arith, tt));
  created_fits = omega arith;
}

entry_of-pfs_set_entry_example :
    (entry_of (pfs_set_entry blank 3 file 9) 3 ≡ file)
    × (pfs_entry_modified (pfs_set_entry blank 3 file 9) 3 ≡ 9)
entry_of-pfs_set_entry_example = entry_of-pfs_set_entry blank 3 file 9 file-Fits (omega arith)

mkdir_header-Created_example : Created blank a 5 (mkdir_header blank a 5 6)
mkdir_header-Created_example =
    mkdir_header-Created blank a 5 6 blank-IsConsistent (omega arith) (omega arith) (omega arith)

-- The directory `a` and nothing else.
abbrev only_a : Header
only_a = pfs_set_entry blank 0 (new_dir a 5) 6

mkdir_a : mkdir_header blank a 5 6 ≡ changed only_a
unfolding mkdir_header pfs_parent_exists find_last_byte last_below pfs_find_entry pfs_free_entry
    first_from pfs_entry_used
mkdir_a = refl

only_a-IsConsistent : IsConsistent only_a
only_a-IsConsistent =
    (subst (Created blank a 5) mkdir_a (
      mkdir_header-Created blank a 5 6 blank-IsConsistent (omega arith) (omega arith)
        (omega arith))).0

pfs_unlink_header-Unlinked_example : Unlinked only_a a (pfs_unlink_header only_a a)
pfs_unlink_header-Unlinked_example = pfs_unlink_header-Unlinked only_a a only_a-IsConsistent

pfs_rename_header-Renamed_example :
    Renamed only_a a (b'c' ∷ []) (pfs_rename_header only_a a (b'c' ∷ []) 8)
pfs_rename_header-Renamed_example =
    pfs_rename_header-Renamed only_a a (b'c' ∷ []) 8 only_a-IsConsistent (omega arith)

a-found : pfs_find_entry only_a a ≡ some 0
unfolding pfs_find_entry pfs_dir_empty pfs_entry_is_dir first_from pfs_entry_used pfs_entry_name
    read_slice pfs_set_entry fill write_slice write_extents is_below
a-found = refl

a_b-missing : pfs_find_entry only_a a_b ≡ none
unfolding pfs_find_entry pfs_dir_empty pfs_entry_is_dir first_from pfs_entry_used pfs_entry_name
    read_slice pfs_set_entry fill write_slice write_extents is_below
a_b-missing = refl

a-empty : (pfs_entry_is_dir only_a 0 ≡ true) × (pfs_dir_empty only_a a ≡ true)
unfolding pfs_find_entry pfs_dir_empty pfs_entry_is_dir first_from pfs_entry_used pfs_entry_name
    read_slice pfs_set_entry fill write_slice write_extents is_below
a-empty = (refl, refl)

names-valid : (valid_pfs_path a ≡ true) × (valid_pfs_path a_b ≡ true)
unfolding valid_pfs_path valid_from
names-valid = (refl, refl)

a-IsParent : IsParent a a_b
unfolding find_last_byte last_below
a-IsParent = record {
  not_empty = omega arith;
  last_slash = refl;
  same = refl;
  longer = omega arith;
}

pfs_rename_header-orphan_example :
    (h' : Header) × (pfs_rename_header only_a a a_b 8 ≡ changed h')
    × (lookup h' a_b ≡ some (renamed only_a 0 a_b))
    × (pfs_parent_exists h' a_b ≡ false)
pfs_rename_header-orphan_example =
    pfs_rename_header-orphan only_a a a_b 8 0 only_a-IsConsistent (omega arith) names-valid a-found
      a_b-missing a-empty.0 a-empty.1 a-IsParent

-- An empty file and nothing else.
abbrev one_file : Header
one_file = with_file blank

one_file-IsAllocated : IsAllocated one_file
one_file-IsAllocated = with_file-IsAllocated blank blank-unused

pfs_find_free_run-FreeRun_example :
    FreeRun one_file (some 5) 77 3 (pfs_find_free_run one_file 77 3 (some 5))
pfs_find_free_run-FreeRun_example =
    pfs_find_free_run-FreeRun one_file 77 3 (some 5) (on_disk one_file 5 one_file-IsAllocated)
      (omega arith)

abbrev two_extents : List PfsExtent
two_extents = record { start = 77; sectors = 2 } ∷ record { start = 90; sectors = 1 } ∷ []

pfs_grow_extents-Growth_example :
    Growth one_file (some 0) two_extents 5 (pfs_grow_extents one_file two_extents 5 (some 0))
pfs_grow_extents-Growth_example =
    pfs_grow_extents-Growth one_file two_extents 5 (some 0)
      (on_disk one_file 0 one_file-IsAllocated) (omega arith, (omega arith, omega arith))
      (omega arith)

ensure_capacity-Ensured_example : Ensured one_file 0 1500 (ensure_capacity one_file 0 1500 9)
ensure_capacity-Ensured_example =
    ensure_capacity-Ensured one_file 0 1500 9 one_file-IsAllocated (omega arith) (omega arith)

update_size-Resized_example : Resized one_file 0 700 9 (update_size one_file 0 700 9)
update_size-Resized_example =
    update_size-Resized one_file 0 700 9 one_file-IsAllocated (omega arith) (omega arith)
      (omega arith)

pfs_unlink_header-KeepsSectors_example : KeepsSectors (pfs_unlink_header one_file a)
pfs_unlink_header-KeepsSectors_example =
    pfs_unlink_header-KeepsSectors one_file a one_file-IsAllocated

pfs_rename_header-KeepsSectors_example : KeepsSectors (pfs_rename_header one_file a (b'c' ∷ []) 8)
pfs_rename_header-KeepsSectors_example =
    pfs_rename_header-KeepsSectors one_file a (b'c' ∷ []) 8 one_file-IsAllocated (omega arith)
