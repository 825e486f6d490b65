-- ===== src/Pfs/Extents.antt =====
-- kernel/src/main.rs: the allocation of RYMFS5's sectors. Free space is what no entry's extents cover;
-- the first `count` extents of an array are a list.
pub mod Occupied
pub mod FreeRun
pub mod Append
pub mod Growth
pub mod Disjoint
pub mod Capacity
pub mod Size
pub mod Names
use rymos.Prelude.{
  ℕ, zero, suc, ◌+◌, ◌-◌, ◌*◌, ◌/◌, ◌%◌, ◌^◌, min, Bool, true, false, ◌&&◌, ◌||◌, not, Option, none,
  some, List, [], ◌∷◌, ◌==◌, ltb, leb, if◌then◌else◌, length, write_slice, le_bytes,
}
use rymos.Pfs.Header.{
  Header, Entry, PfsExtent, pfs_max_extents, pfs_entry_count, pfs_entry_size, pfs_entry_used,
  pfs_entry_is_dir, pfs_entry_extents, pfs_entry_length, pfs_entry_offset, pfs_touch_modified,
  entry_of, pfs_set_entry,
}

abbrev pub pfs_header_sectors : ℕ
pfs_header_sectors = (16 + pfs_entry_count * pfs_entry_size + 511) / 512

abbrev pub pfs_data_start : ℕ
pfs_data_start = pfs_header_sectors

abbrev pub pfs_disk_sectors : ℕ
pfs_disk_sectors = 8388608

-- `extent.start + extent.sectors`
abbrev pub extent_end : PfsExtent → ℕ
extent_end e = (e.start + e.sectors) % 2 ^ 32

-- The loop of `pfs_entry_total_sectors`.
unfoldable pub total_from : ℕ → List PfsExtent → ℕ
total_from total [] = total
total_from total (e ∷ es) = total_from ((total + e.sectors) % 2 ^ 32) es

unfoldable pub pfs_entry_total_sectors : Header → ℕ → ℕ
pfs_entry_total_sectors header index = total_from 0 (pfs_entry_extents header index)

-- The loop of `pfs_entry_lba_for_sector`; with no sectors, `remaining` stays as it is.
unfoldable pub lba_from : List PfsExtent → ℕ → Option ℕ
lba_from [] remaining = none
lba_from (e ∷ es) remaining =
    let rest = lba_from es (remaining - e.sectors) in
    if not (e.sectors == 0) && ltb remaining e.sectors
    then some ((e.start + remaining) % 2 ^ 32)
    else rest

unfoldable pub pfs_entry_lba_for_sector : Header → ℕ → ℕ → Option ℕ
pfs_entry_lba_for_sector header index logical_sector =
    lba_from (pfs_entry_extents header index) logical_sector

-- What a pass over the extents finds: the candidate is inside one, which ends there, or it is free up
-- to the next obstacle.
pub data Scan : Type 0 where
  blocked : ℕ → Scan
  clear : Option ℕ → Scan

-- `next_obstacle.is_none_or(|current| extent.start < current)`
abbrev pub nearer : ℕ → Option ℕ → Bool
nearer start none = true
nearer start (some current) = ltb start current

abbrev pub covers : ℕ → PfsExtent → Bool
covers candidate e = not (e.sectors == 0) && (leb e.start candidate && ltb candidate (extent_end e))

abbrev pub obstacle : ℕ → PfsExtent → Option ℕ → Option ℕ
obstacle candidate e next_obstacle =
    if not (e.sectors == 0) && (ltb candidate e.start && nearer e.start next_obstacle)
    then some e.start
    else next_obstacle

-- The loop over the slots of one entry.
unfoldable pub scan_extents : ℕ → List PfsExtent → Option ℕ → Scan
scan_extents candidate [] next_obstacle = clear next_obstacle
scan_extents candidate (e ∷ es) next_obstacle =
    let rest = scan_extents candidate es (obstacle candidate e next_obstacle) in
    if covers candidate e then blocked (extent_end e) else rest

abbrev pub is_index : ℕ → Option ℕ → Bool
is_index index none = false
is_index index (some skip) = index == skip

-- The extents of an entry that the loop does not skip.
abbrev pub extents_of_other : Header → Option ℕ → ℕ → List PfsExtent
extents_of_other header skip index =
    if is_index index skip || (not (pfs_entry_used header index) || pfs_entry_is_dir header index)
    then []
    else pfs_entry_extents header index

-- The loop over `n` entries from `index` on.
unfoldable pub scan_entries : Header → Option ℕ → ℕ → ℕ → ℕ → Option ℕ → Scan
scan_entries header skip zero index candidate next_obstacle = clear next_obstacle
scan_entries header skip (suc n) index candidate next_obstacle =
    elim (scan_extents candidate (extents_of_other header skip index) next_obstacle) [
      | blocked used_end ↦ blocked used_end
      | clear next ↦ scan_entries header skip n (suc index) candidate next
    ]

abbrev pub end_bound : Option ℕ → ℕ
end_bound none = pfs_disk_sectors
end_bound (some next) = min next pfs_disk_sectors

-- The end of the loop's body, with a candidate that is not blocked.
abbrev pub run_at : ℕ → ℕ → Option ℕ → Option (ℕ × ℕ)
run_at max_len candidate next_obstacle =
    let take = min (end_bound next_obstacle - candidate) max_len in
    if leb (end_bound next_obstacle) candidate || take == 0 then none else some (candidate, take)

-- The loop, on fuel.
unfoldable pub free_run_from : Header → Option ℕ → ℕ → ℕ → ℕ → Option (ℕ × ℕ)
free_run_from header skip max_len zero candidate = none
free_run_from header skip max_len (suc fuel) candidate = elim (leb pfs_disk_sectors candidate) [
  | true ↦ none
  | false ↦ elim (scan_entries header skip pfs_entry_count 0 candidate none) [
    | blocked used_end ↦ free_run_from header skip max_len fuel used_end
    | clear next_obstacle ↦ run_at max_len candidate next_obstacle
  ]
]

-- A blocked candidate grows, so that the loop runs at most once for each sector and once more.
unfoldable pub pfs_find_free_run : Header → ℕ → ℕ → Option ℕ → Option (ℕ × ℕ)
pfs_find_free_run header start_from max_len skip =
    free_run_from header skip max_len (suc pfs_disk_sectors) start_from

-- `extents[*count - 1]`, where there is one, ends at `at`.
abbrev pub last_ends_at : List PfsExtent → ℕ → Bool
last_ends_at [] at = false
last_ends_at (e ∷ []) at = at == extent_end e
last_ends_at (e ∷ e' ∷ es) at = last_ends_at (e' ∷ es) at

-- `extents[*count - 1].sectors += run_len`
abbrev pub extend_last : List PfsExtent → ℕ → List PfsExtent
extend_last [] run_len = []
extend_last (e ∷ []) run_len = record e { sectors = (e.sectors + run_len) % 2 ^ 32 } ∷ []
extend_last (e ∷ e' ∷ es) run_len = e ∷ extend_last (e' ∷ es) run_len

abbrev pub append_extent : List PfsExtent → PfsExtent → List PfsExtent
append_extent [] e' = e' ∷ []
append_extent (e ∷ es) e' = e ∷ append_extent es e'

-- One run is added, in the last extent or as a new one.
unfoldable pub add_run : List PfsExtent → ℕ → ℕ → Option (List PfsExtent)
add_run extents run_start run_len =
    if last_ends_at extents run_start
    then some (extend_last extents run_len)
    else if leb pfs_max_extents (length extents)
    then none
    else some (append_extent extents (record { start = run_start; sectors = run_len }))

-- The loop of `pfs_grow_extents`, on fuel; every run has a sector at least.
unfoldable pub grow_from : Header → Option ℕ → ℕ → ℕ → ℕ → List PfsExtent → Option (List PfsExtent)
grow_from header skip fuel zero search_from extents = some extents
grow_from header skip zero (suc remaining) search_from extents = none
grow_from header skip (suc fuel) (suc remaining) search_from extents =
    elim (pfs_find_free_run header search_from (suc remaining) skip) [
      | none ↦ none
      | some (run_start, run_len) ↦ elim (add_run extents run_start run_len) [
        | none ↦ none
        | some grown ↦
            grow_from header skip fuel (suc remaining - run_len) ((run_start + run_len) % 2 ^ 32)
              grown
      ]
    ]

abbrev pub search_start : List PfsExtent → ℕ
search_start [] = pfs_data_start
search_start (e ∷ []) = extent_end e
search_start (e ∷ e' ∷ es) = search_start (e' ∷ es)

-- `None` where the source returns `false`; the array's other changes are local to the caller.
unfoldable pub pfs_grow_extents : Header → List PfsExtent → ℕ → Option ℕ → Option (List PfsExtent)
pfs_grow_extents header extents additional_sectors skip =
    grow_from header skip additional_sectors additional_sectors (search_start extents) extents

unfoldable pub sectors_for_len : ℕ → ℕ
sectors_for_len len = if len == 0 then 0 else (len + 511) / 512 % 2 ^ 32

abbrev pub with_extents : Header → ℕ → List PfsExtent → Entry
with_extents header index extents = record (entry_of header index) { extents = extents }

-- What `pfs_ensure_file_capacity` does to the header: `none` where it returns `false`.
unfoldable pub ensure_capacity : Header → ℕ → ℕ → ℕ → Option Header
ensure_capacity header index size now =
    if not (pfs_entry_used header index) || pfs_entry_is_dir header index
    then none
    else if leb (sectors_for_len size) (pfs_entry_total_sectors header index)
    then some header
    else elim (pfs_grow_extents header (pfs_entry_extents header index)
        (sectors_for_len size - pfs_entry_total_sectors header index) (some index)) [
          | none ↦ none
          | some extents ↦ some (pfs_set_entry header index (with_extents header index extents) now)
        ]

-- What `pfs_update_size` does to the header.
unfoldable pub update_size : Header → ℕ → ℕ → ℕ → Option Header
update_size header index size now =
    if not (pfs_entry_used header index)
    then none
    else some (
        pfs_touch_modified
          (write_slice header (pfs_entry_offset index + 2) (le_bytes 4 (size % 2 ^ 32))) index now)
