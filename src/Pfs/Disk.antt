-- ===== src/Pfs/Disk.antt =====
-- kernel/src/main.rs: the sectors of RYMFS5's disk: the header on it, and the bytes of files. What the
-- drive answers to each command is a part of the disk.
pub mod Sectors
pub mod HeaderWrite
pub mod Places
pub mod Reading
pub mod Writing
pub mod Loops
pub mod Ensuring
pub mod Filling
pub mod Contents
pub mod WriteAt
pub mod RoundTrip
mod Tests
use rymos.Prelude.{
  ℕ, zero, suc, ◌+◌, ◌-◌, ◌*◌, ◌/◌, ◌%◌, ◌^◌, min, Bool, true, false, ◌&&◌, ◌||◌, not, ◌==◌, Option,
  none, some, List, [], ◌∷◌, ◌++◌, ltb, leb, if◌then◌else◌, Table, length, take, drop, write_slice,
  read_slice, fill, bytes_eq,
}
use rymos.Pfs.Header.{Header, pfs_entry_used, pfs_entry_length}
use rymos.Pfs.Extents.{
  pfs_header_sectors, pfs_entry_lba_for_sector, ensure_capacity, update_size, sectors_for_len,
  pfs_entry_total_sectors,
}

abbrev pub sector_size : ℕ
sector_size = 512

abbrev pub pfs_header_bytes : ℕ
pfs_header_bytes = pfs_header_sectors * sector_size

abbrev pub pfs_sectors_per_file : ℕ
pfs_sectors_per_file = 524288

abbrev pub pfs_file_max : ℕ
pfs_file_max = pfs_sectors_per_file * sector_size

-- What the drive does with a command: it is done, it is refused before any data moves, or the data
-- has moved and the drive then reports an error.
pub data Answer : Type 0 where
  done : Answer
  refused : Answer
  late_error : Answer

pub record Disk : Type 0 where
  pub bytes : Table ℕ
  pub answers : Table Answer
  pub served : ℕ

-- The result of a function that may fail on the way, with the disk that it leaves.
pub data Io {ℓ} (A : Type ℓ) : Type ℓ where
  failed : Disk → Io A
  ok : Disk → A → Io A

abbrev pub and_then {ℓ ℓ'} : {A : Type ℓ} {B : Type ℓ'} → Io A → (Disk → A → Io B) → Io B
and_then (failed d) f = failed d
and_then (ok d a) f = f d a

abbrev pub next : Disk → Disk
next d = record d { served = suc d.served }

-- The drive takes 28 bits of the sector's number.
abbrev pub sector_address : ℕ → ℕ
sector_address lba = lba % 2 ^ 28 * sector_size

abbrev answer_read : Answer → Disk → ℕ → Io (Table ℕ)
answer_read done d lba = ok (next d) (λ o. d.bytes (sector_address lba + o))
answer_read refused d lba = failed (next d)
answer_read late_error d lba = failed (next d)

unfoldable pub ata_read_sector : Disk → ℕ → Io (Table ℕ)
ata_read_sector d lba = answer_read (d.answers d.served) d lba

-- `array[start..start + 512].copy_from_slice(&sector)`
abbrev pub copy_sector : Table ℕ → ℕ → Table ℕ → Table ℕ
copy_sector h start sector x =
    if leb start x && ltb x (start + sector_size) then sector (x - start) else h x

abbrev with_sector : Disk → ℕ → Table ℕ → Disk
with_sector d lba sector = record (next d) {
  bytes = copy_sector d.bytes (sector_address lba) sector;
}

abbrev answer_write : Answer → Disk → ℕ → Table ℕ → Io (Unit {0})
answer_write done d lba sector = ok (with_sector d lba sector) tt
answer_write refused d lba sector = failed (next d)
answer_write late_error d lba sector = failed (with_sector d lba sector)

unfoldable pub ata_write_sector : Disk → ℕ → Table ℕ → Io (Unit {0})
ata_write_sector d lba sector = answer_write (d.answers d.served) d lba sector

-- The loop of `read_header_silent` over `n` sectors from `sector_index` on.
unfoldable pub read_sectors : ℕ → ℕ → Header → Disk → Io Header
read_sectors zero sector_index header d = ok d header
read_sectors (suc n) sector_index header d = and_then (ata_read_sector d sector_index) (λ d sector.
    read_sectors n (suc sector_index) (copy_sector header (sector_index * sector_size) sector) d)

-- `b"RYMFS5\0\0"`
abbrev pub magic : List ℕ
magic = b'R' ∷ b'Y' ∷ b'M' ∷ b'F' ∷ b'S' ∷ b'5' ∷ 0 ∷ 0 ∷ []

abbrev pub has_magic : Header → Bool
has_magic header = bytes_eq (read_slice header 0 8) magic

abbrev no_header : Header
no_header _ = 0

abbrev pub checked : Disk → Header → Io Header
checked d header = if has_magic header then ok d header else failed d

unfoldable pub read_header_silent : Disk → Io Header
read_header_silent d = and_then (read_sectors pfs_header_sectors 0 no_header d) checked

-- The loop of `write_header`.
unfoldable pub write_sectors : ℕ → ℕ → Header → Disk → Io (Unit {0})
write_sectors zero sector_index header d = ok d tt
write_sectors (suc n) sector_index header d =
    and_then (ata_write_sector d sector_index (λ o. header (sector_index * sector_size + o)))
      (λ d _. write_sectors n (suc sector_index) header d)

unfoldable pub write_header : Disk → Header → Io (Unit {0})
write_header d header = write_sectors pfs_header_sectors 0 header d

-- The sector of an absolute position in a file, `absolute / 512` as a `u32`.
abbrev pub logical_sector : ℕ → ℕ
logical_sector absolute = absolute / sector_size % 2 ^ 32

-- `min(rest, 512 - sector_offset)`
abbrev pub chunk : ℕ → ℕ → ℕ
chunk rest absolute = min rest (sector_size - absolute % sector_size)

-- A chunk is read from the sector at `lba`.
abbrev pub read_chunk : Disk → ℕ → Option ℕ → ℕ → Io (List ℕ)
read_chunk d absolute none count = failed d
read_chunk d absolute (some lba) count =
    and_then (ata_read_sector d lba)
      (λ d sector. ok d (read_slice sector (absolute % sector_size) count))

-- The loop of `pfs_read_at` on fuel, with `rest` bytes to go; every chunk has a byte at least.
unfoldable pub read_from : Header → ℕ → ℕ → ℕ → ℕ → Disk → Io (List ℕ)
read_from header index fuel absolute zero d = ok d []
read_from header index zero absolute (suc rest) d = ok d []
read_from header index (suc fuel) absolute (suc rest) d =
    let count = chunk (suc rest) absolute in
    and_then
      (read_chunk d absolute (pfs_entry_lba_for_sector header index (logical_sector absolute))
        count)
      (λ d bytes.
        and_then (read_from header index fuel (absolute + count) (suc rest - count) d)
          (λ d more. ok d (bytes ++ more)))

unfoldable pub pfs_read_at : ℕ → ℕ → ℕ → Disk → Io (List ℕ)
pfs_read_at index offset len d = and_then (read_header_silent d) (λ d header.
    elim (ltb pfs_file_max ((offset + len) % 2 ^ 64) || not (pfs_entry_used header index)) [
      | true ↦ failed d
      | false ↦ read_from header index len offset len d
    ])

-- A chunk replaces bytes of the sector at `lba`.
abbrev pub write_chunk : Disk → ℕ → Option ℕ → List ℕ → Io (Unit {0})
write_chunk d absolute none bytes = failed d
write_chunk d absolute (some lba) bytes =
    and_then (ata_read_sector d lba)
      (λ d sector. ata_write_sector d lba (write_slice sector (absolute % sector_size) bytes))

-- The loop of `pfs_write_at` on fuel, with the rest of the data.
unfoldable pub write_from : Header → ℕ → ℕ → ℕ → List ℕ → Disk → Io (Unit {0})
write_from header index fuel absolute [] d = ok d tt
write_from header index zero absolute (b ∷ bs) d = ok d tt
write_from header index (suc fuel) absolute (b ∷ bs) d =
    let count = chunk (length (b ∷ bs)) absolute in
    and_then
      (write_chunk d absolute (pfs_entry_lba_for_sector header index (logical_sector absolute))
        (take count (b ∷ bs)))
      (λ d _. write_from header index fuel (absolute + count) (drop count (b ∷ bs)) d)

-- A chunk is zeroed: a whole sector without reading it first.
abbrev pub zero_chunk : Disk → ℕ → Option ℕ → ℕ → Io (Unit {0})
zero_chunk d absolute none count = failed d
zero_chunk d absolute (some lba) count = elim (count == sector_size) [
  | true ↦ ata_write_sector d lba (λ _. 0)
  | false ↦
      and_then (ata_read_sector d lba)
        (λ d sector. ata_write_sector d lba (fill sector (absolute % sector_size) count 0))
]

-- The loop of `pfs_zero_range` on fuel.
unfoldable pub zero_from : Header → ℕ → ℕ → ℕ → ℕ → Disk → Io (Unit {0})
zero_from header index fuel absolute zero d = ok d tt
zero_from header index zero absolute (suc rest) d = ok d tt
zero_from header index (suc fuel) absolute (suc rest) d =
    let count = chunk (suc rest) absolute in
    and_then
      (zero_chunk d absolute (pfs_entry_lba_for_sector header index (logical_sector absolute))
        count)
      (λ d _. zero_from header index fuel (absolute + count) (suc rest - count) d)

unfoldable pub pfs_zero_range : Header → ℕ → ℕ → ℕ → Disk → Io (Unit {0})
pfs_zero_range header index start len d = zero_from header index len start len d

-- The changed header is written, if there is one.
abbrev pub store_header : Disk → Option Header → Io (Unit {0})
store_header d none = failed d
store_header d (some header) = write_header d header

-- `pfs_ensure_file_capacity`, with `now` for `ns_since_boot()`. It writes nothing where the file has
-- enough sectors.
abbrev pub store_grown : Disk → Header → Bool → Option Header → Io (Unit {0})
store_grown d header enough none = failed d
store_grown d header true (some header') = ok d tt
store_grown d header false (some header') = write_header d header'

unfoldable pub pfs_ensure_file_capacity : ℕ → ℕ → ℕ → Disk → Io (Unit {0})
pfs_ensure_file_capacity index size now d = and_then (read_header_silent d) (λ d header.
    store_grown d header (leb (sectors_for_len size) (pfs_entry_total_sectors header index))
      (ensure_capacity header index size now))

unfoldable pub pfs_update_size : ℕ → ℕ → ℕ → Disk → Io (Unit {0})
pfs_update_size index size now d =
    and_then (read_header_silent d) (λ d header. store_header d (update_size header index size now))

-- The gap between the old end of the file and `offset` is zeroed.
abbrev pub zero_gap : Header → ℕ → ℕ → ℕ → Disk → Io (Unit {0})
zero_gap header index old_size offset d = elim (ltb old_size offset) [
  | true ↦ pfs_zero_range header index old_size (offset - old_size) d
  | false ↦ ok d tt
]

-- The part of `pfs_write_at` after the capacity is there.
unfoldable pub write_data : ℕ → ℕ → ℕ → List ℕ → Disk → Io (Unit {0})
write_data index old_size offset bytes d = and_then (read_header_silent d) (λ d header.
    and_then (zero_gap header index old_size offset d)
      (λ d _. write_from header index (length bytes) offset bytes d))

-- `pfs_write_at`, with `new_size` for `offset + data.len()`.
abbrev pub write_sized : ℕ → ℕ → ℕ → List ℕ → ℕ → Disk → Io (Unit {0})
write_sized new_size index offset bytes now d = elim (ltb pfs_file_max new_size) [
  | true ↦ failed d
  | false ↦ and_then (read_header_silent d) (λ d header. elim (pfs_entry_used header index) [
    | false ↦ failed d
    | true ↦
        and_then (pfs_ensure_file_capacity index new_size now d)
          (λ d _. write_data index (pfs_entry_length header index) offset bytes d)
  ])
]

unfoldable pub pfs_write_at : ℕ → ℕ → List ℕ → ℕ → Disk → Io (Unit {0})
pfs_write_at index offset bytes now d =
    write_sized ((offset + length bytes) % 2 ^ 64) index offset bytes now d
