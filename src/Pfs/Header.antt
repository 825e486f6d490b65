-- ===== src/Pfs/Header.antt =====
-- kernel/src/main.rs: the layout of RYMFS5's metadata header, and the functions that read and write
-- one entry of it. The header is a table of bytes.
pub mod ExtentBytes
pub mod Codec
pub mod Frame
use rymos.Prelude.{
  ℕ, zero, suc, ◌+◌, ◌*◌, ◌%◌, ◌^◌, min, Bool, not, Option, none, some, List, [], ◌∷◌, ◌==◌, ltb,
  if◌then◌else◌, Table, update, first_from, length, take, write_slice, read_slice, fill, le_bytes,
  read_le32_from_slice, read_le64_from_slice, bytes_eq, ◌&&◌,
}

abbrev pub pfs_kind_file : ℕ
pfs_kind_file = 1

abbrev pub pfs_kind_dir : ℕ
pfs_kind_dir = 2

abbrev pub pfs_max_extents : ℕ
pfs_max_extents = 4

abbrev pub pfs_extent_entry_size : ℕ
pfs_extent_entry_size = 8

abbrev pub pfs_extent_count_offset : ℕ
pfs_extent_count_offset = 6

abbrev pub pfs_extents_offset : ℕ
pfs_extents_offset = 7

abbrev pub pfs_extents_bytes : ℕ
pfs_extents_bytes = pfs_max_extents * pfs_extent_entry_size

abbrev pub pfs_created_offset : ℕ
pfs_created_offset = pfs_extents_offset + pfs_extents_bytes

abbrev pub pfs_modified_offset : ℕ
pfs_modified_offset = pfs_created_offset + 8

abbrev pub pfs_mode_offset : ℕ
pfs_mode_offset = pfs_modified_offset + 8

abbrev pub pfs_name_offset : ℕ
pfs_name_offset = pfs_mode_offset + 1

abbrev pub pfs_name_max : ℕ
pfs_name_max = 96

abbrev pub pfs_entry_size : ℕ
pfs_entry_size = pfs_name_offset + pfs_name_max

abbrev pub pfs_entry_count : ℕ
pfs_entry_count = 256

abbrev pub Header : Type 0
Header = Table ℕ

pub record PfsExtent : Type 0 where
  pub start : ℕ
  pub sectors : ℕ

abbrev pub pfs_entry_offset : ℕ → ℕ
pfs_entry_offset index = 16 + index * pfs_entry_size

unfoldable pub pfs_entry_used : Header → ℕ → Bool
pfs_entry_used header index = not (header (pfs_entry_offset index) == 0)

unfoldable pub pfs_entry_is_dir : Header → ℕ → Bool
pfs_entry_is_dir header index = header (pfs_entry_offset index) == pfs_kind_dir

unfoldable pub pfs_entry_kind : Header → ℕ → ℕ
pfs_entry_kind header index = header (pfs_entry_offset index)

unfoldable pub pfs_entry_name : Header → ℕ → List ℕ
pfs_entry_name header index =
    let offset = pfs_entry_offset index in
    read_slice header (offset + pfs_name_offset) (header (offset + 1))

-- `pfs_entry_size`, the size field.
unfoldable pub pfs_entry_length : Header → ℕ → ℕ
pfs_entry_length header index =
    read_le32_from_slice (read_slice header (pfs_entry_offset index + 2) 4)

unfoldable pub pfs_entry_extent_count : Header → ℕ → ℕ
pfs_entry_extent_count header index =
    min (header (pfs_entry_offset index + pfs_extent_count_offset)) pfs_max_extents

unfoldable pub pfs_entry_extent : Header → ℕ → ℕ → PfsExtent
pfs_entry_extent header index slot =
    let offset = pfs_entry_offset index + pfs_extents_offset + slot * pfs_extent_entry_size in
    record {
      start = read_le32_from_slice (read_slice header offset 4);
      sectors = read_le32_from_slice (read_slice header (offset + 4) 4);
    }

-- `for slot in slot..slot + n { extents[slot] = pfs_entry_extent(header, index, slot); }`
unfoldable pub extents_from : Header → ℕ → ℕ → ℕ → List PfsExtent
extents_from header index slot zero = []
extents_from header index slot (suc n) =
    pfs_entry_extent header index slot ∷ extents_from header index (suc slot) n

-- The extents of an entry, as the loops over `0..extent_count` read them.
unfoldable pub pfs_entry_extents : Header → ℕ → List PfsExtent
unfolding extents_from
pfs_entry_extents header index = extents_from header index 0 (pfs_entry_extent_count header index)

unfoldable pub pfs_entry_created : Header → ℕ → ℕ
pfs_entry_created header index =
    read_le64_from_slice (read_slice header (pfs_entry_offset index + pfs_created_offset) 8)

unfoldable pub pfs_entry_modified : Header → ℕ → ℕ
pfs_entry_modified header index =
    read_le64_from_slice (read_slice header (pfs_entry_offset index + pfs_modified_offset) 8)

unfoldable pub pfs_entry_mode : Header → ℕ → ℕ
pfs_entry_mode header index = header (pfs_entry_offset index + pfs_mode_offset)

-- `now` is what `ns_since_boot` returns.
unfoldable pub pfs_touch_modified : Header → ℕ → ℕ → Header
pfs_touch_modified header index now =
    write_slice header (pfs_entry_offset index + pfs_modified_offset) (le_bytes 8 now)

abbrev pub write_extent : Header → ℕ → PfsExtent → Header
write_extent header offset e =
    write_slice (write_slice header offset (le_bytes 4 e.start)) (offset + 4) (le_bytes 4 e.sectors)

-- The loop over the extents, the next one at `offset`.
unfoldable pub write_extents : Header → ℕ → List PfsExtent → Header
write_extents header offset [] = header
write_extents header offset (e ∷ es) =
    write_extents (write_extent header offset e) (offset + pfs_extent_entry_size) es

-- The arguments of `pfs_set_entry`.
pub record Entry : Type 0 where
  pub name : List ℕ
  pub size : ℕ
  pub kind : ℕ
  pub extents : List PfsExtent
  pub created_ticks : ℕ
  pub mode : ℕ

-- `pfs_set_entry`, with `now` for `ns_since_boot()`.
unfoldable pub pfs_set_entry : Header → ℕ → Entry → ℕ → Header
pfs_set_entry h0 index e now =
    let offset = pfs_entry_offset index in
    let h1 = fill h0 offset pfs_entry_size 0 in
    let h2 = update h1 offset e.kind in
    let h3 = update h2 (offset + 1) (length e.name % 256) in
    let h4 = write_slice h3 (offset + 2) (le_bytes 4 e.size) in
    let h5 =
      update h4 (offset + pfs_extent_count_offset) (min (length e.extents) pfs_max_extents % 256) in
    let h6 = write_extents h5 (offset + pfs_extents_offset) (take pfs_max_extents e.extents) in
    let h7 = write_slice h6 (offset + pfs_created_offset) (le_bytes 8 e.created_ticks) in
    let h8 = write_slice h7 (offset + pfs_modified_offset) (le_bytes 8 now) in
    let h9 = update h8 (offset + pfs_mode_offset) e.mode in
    write_slice h9 (offset + pfs_name_offset) e.name

unfoldable pub pfs_clear_entry : Header → ℕ → Header
pfs_clear_entry header index = fill header (pfs_entry_offset index) pfs_entry_size 0

-- An entry as the readers see it; `modified_ticks` is apart, as in `pfs_set_entry`.
abbrev pub entry_of : Header → ℕ → Entry
entry_of header index = record {
  name = pfs_entry_name header index;
  size = pfs_entry_length header index;
  kind = pfs_entry_kind header index;
  extents = pfs_entry_extents header index;
  created_ticks = pfs_entry_created header index;
  mode = pfs_entry_mode header index;
}
