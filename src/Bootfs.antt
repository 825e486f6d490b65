-- ===== src/Bootfs.antt =====
-- kernel/src/main.rs: `BootFs`, the archive that the boot loader leaves in memory, and the calls on it,
-- `abi_file_size` and `abi_file_read`.
pub mod Search
pub mod Calls
pub mod Samples
mod Tests
use rymos.Prelude.{
  ℕ, zero, suc, ◌+◌, ◌*◌, ◌^◌, min, Bool, true, false, ◌||◌, ◌&&◌, not, Option, none, some, List,
  [], ◌∷◌, ◌==◌, ltb, if◌then◌else◌, Table, length, take, bytes_eq, read_slice, le32,
}
use Prim.Native.Nat.{bit_or}
use rymos.Prelude.Int.{ℤ, negsuc, as_isize}

-- `base` is an address, and `bytes` what stands from it on.
pub record BootFs : Type 0 where
  pub base : ℕ
  pub size : ℕ
  pub bytes : Table ℕ

-- The pointers `name` and `data` (`data_offset`), as offsets from `base`.
pub record BootFsEntry : Type 0 where
  pub kind : ℕ
  pub name : ℕ
  pub name_len : ℕ
  pub data_offset : ℕ
  pub data_len : ℕ

-- `b"RYFS1\0\0\0"`
abbrev pub bootfs_magic : List ℕ
bootfs_magic = b'R' ∷ b'Y' ∷ b'F' ∷ b'S' ∷ b'1' ∷ 0 ∷ 0 ∷ 0 ∷ []

unfoldable pub valid : BootFs → Bool
valid fs =
    if fs.base == 0 || ltb fs.size 12
    then false
    else bytes_eq (read_slice fs.bytes 0 8) bootfs_magic

-- `lo | (hi << 8)` of the two bytes at `offset`.
abbrev pub word_at : BootFs → ℕ → ℕ
word_at fs offset = bit_or (fs.bytes offset) (fs.bytes (suc offset) * 2 ^ 8)

unfoldable pub entry_count : BootFs → ℕ
entry_count fs = if not (valid fs) then 0 else word_at fs 8

unfoldable pub entry_size : BootFs → ℕ
entry_size fs = if not (valid fs) then 0 else word_at fs 10

-- `read_le32`
abbrev pub read_le32 : BootFs → ℕ → ℕ
read_le32 fs o = le32 (fs.bytes o) (fs.bytes (o + 1)) (fs.bytes (o + 2)) (fs.bytes (o + 3))

-- The entry whose record is at `offset`.
abbrev pub entry_at : BootFs → ℕ → Option BootFsEntry
entry_at fs offset =
    let name_len = fs.bytes (offset + 1) in
    let data_offset = read_le32 fs (offset + 2) in
    let data_len = read_le32 fs (offset + 6) in
    if ltb 32 name_len || ltb fs.size (data_offset + data_len)
    then none
    else some (record {
      kind = fs.bytes offset;
      name = offset + 10;
      name_len = name_len;
      data_offset = data_offset;
      data_len = data_len;
    })

unfoldable pub entry : BootFs → ℕ → Option BootFsEntry
entry fs index =
    let offset = 12 + index * entry_size fs in
    if ltb (entry_size fs) 42
    then none
    else if ltb fs.size (offset + 42)
    then none
    else entry_at fs offset

abbrev pub entry_name : BootFs → BootFsEntry → List ℕ
entry_name fs e = read_slice fs.bytes e.name e.name_len

abbrev pub entry_data : BootFs → BootFsEntry → List ℕ
entry_data fs e = read_slice fs.bytes e.data_offset e.data_len

-- One round of the loop of `find_data`, with what the rounds after it return.
abbrev pub data_round : BootFs → List ℕ → Option BootFsEntry → Option (List ℕ) → Option (List ℕ)
data_round fs name none rest = rest
data_round fs name (some e) rest =
    if bytes_eq (entry_name fs e) name then some (entry_data fs e) else rest

-- The loop, with `n` rounds left from `index` on.
unfoldable pub data_from : BootFs → List ℕ → ℕ → ℕ → Option (List ℕ)
data_from fs name zero index = none
data_from fs name (suc n) index =
    data_round fs name (entry fs index) (data_from fs name n (suc index))

unfoldable pub find_data : BootFs → List ℕ → Option (List ℕ)
find_data fs name = if not (valid fs) then none else data_from fs name (entry_count fs) 0

-- One round of the loop of `find_entry`.
abbrev pub entry_round :
    BootFs → List ℕ → Option BootFsEntry → Option BootFsEntry → Option BootFsEntry
entry_round fs name none rest = rest
entry_round fs name (some e) rest = if bytes_eq (entry_name fs e) name then some e else rest

unfoldable pub entry_from : BootFs → List ℕ → ℕ → ℕ → Option BootFsEntry
entry_from fs name zero index = none
entry_from fs name (suc n) index =
    entry_round fs name (entry fs index) (entry_from fs name n (suc index))

unfoldable pub find_entry : BootFs → List ℕ → Option BootFsEntry
find_entry fs name = if not (valid fs) then none else entry_from fs name (entry_count fs) 0

abbrev pub size_of : Option (List ℕ) → ℤ
size_of none = negsuc 0
size_of (some bytes) = as_isize (length bytes)

abbrev pub input_max : ℕ
input_max = 128

-- The slice of a pointer that is not null.
unfoldable pub checked_app_slice : List ℕ → Option (List ℕ)
checked_app_slice path = if length path == 0 || ltb input_max (length path) then none else some path

-- Both calls refuse a bad path as they do a missing file.
abbrev pub checked_data : BootFs → Option (List ℕ) → Option (List ℕ)
checked_data fs none = none
checked_data fs (some path) = find_data fs path

unfoldable pub abi_file_size : BootFs → List ℕ → ℤ
abi_file_size fs path = size_of (checked_data fs (checked_app_slice path))

-- What is returned, and the bytes that are copied to the buffer.
abbrev pub copied : ℕ → Option (List ℕ) → ℤ × List ℕ
copied buffer_len none = (negsuc 0, [])
copied buffer_len (some bytes) =
    let copy_len = min buffer_len (length bytes) in (as_isize copy_len, take copy_len bytes)

unfoldable pub abi_file_read : BootFs → List ℕ → ℕ → ℤ × List ℕ
abi_file_read fs path buffer_len = copied buffer_len (checked_data fs (checked_app_slice path))
