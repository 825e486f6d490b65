-- ===== src/Ramfs.antt =====
-- kernel/src/main.rs: `RamFs`, the table of files in memory behind the console's commands. The text
-- that a command prints is a `Message`.
pub mod Entries
pub mod Writing
pub mod Commands
pub mod Faults
mod Tests
use rymos.Prelude.{
  ℕ, ◌+◌, Bool, true, false, ◌&&◌, ◌||◌, not, Option, none, some, List, [], ◌∷◌, ◌++◌, ◌==◌, ltb,
  if◌then◌else◌, Table, update, first_from, length, bytes_eq,
}
use rymos.Pfs.Directory.{is_name_byte}

abbrev pub file_count : ℕ
file_count = 12

abbrev pub file_name_max : ℕ
file_name_max = 16

abbrev pub file_data_max : ℕ
file_data_max = 192

-- `name` is `name[..name_len]`, and `data` is `data[..data_len]`.
pub record FileEntry : Type 0 where
  pub used : Bool
  pub is_dir : Bool
  pub name : List ℕ
  pub data_bytes : List ℕ

abbrev pub empty_entry : FileEntry
empty_entry = record { used = false; is_dir = false; name = []; data_bytes = [] }

abbrev pub RamFs : Type 0
RamFs = Table FileEntry

pub data Message : Type 0 where
  done : Message
  invalid_name : Message
  is_full : Message
  too_large : Message
  not_found : Message
  is_a_directory : Message
  not_a_directory : Message
  too_long : Message

-- The loop of `valid_name`.
abbrev all_valid_bytes : List ℕ → Bool
all_valid_bytes [] = true
all_valid_bytes (b ∷ bs) = is_name_byte b && all_valid_bytes bs

unfoldable pub valid_name : List ℕ → Bool
valid_name name =
    if length name == 0 || ltb file_name_max (length name) then false else all_valid_bytes name

-- `entry.used && entry.name_len == name.len() && &entry.name[..entry.name_len] == name`
abbrev pub has_name : List ℕ → FileEntry → Bool
has_name name entry = entry.used && bytes_eq entry.name name

unfoldable pub find : RamFs → List ℕ → Option ℕ
find fs name = first_from file_count 0 (λ i. has_name name (fs i))

unfoldable pub free_slot : RamFs → Option ℕ
free_slot fs = first_from file_count 0 (λ i. not (fs i).used)

-- The entry at `index` becomes a used one of that name, with the data that is there.
abbrev pub taken : RamFs → ℕ → List ℕ → Bool → RamFs
taken fs index name is_dir =
    update fs index (record (fs index) { used = true; is_dir = is_dir; name = name })

abbrev pub touch_at : RamFs → List ℕ → Bool → Option ℕ → Option ℕ → RamFs × Bool
touch_at fs name is_dir none none = (fs, false)
touch_at fs name is_dir none (some index) = (taken fs index name is_dir, true)
touch_at fs name is_dir (some index) free =
    (update fs index (record (fs index) { is_dir = is_dir }), true)

unfoldable pub touch_raw : RamFs → List ℕ → Bool → RamFs × Bool
touch_raw fs name is_dir = touch_at fs name is_dir (find fs name) (free_slot fs)

abbrev pub unwrap_or_zero : Option ℕ → ℕ
unwrap_or_zero none = 0
unwrap_or_zero (some index) = index

-- `write_raw` after `touch_raw`.
abbrev pub write_touched : List ℕ → List ℕ → RamFs × Bool → RamFs
write_touched name text (fs, false) = fs
write_touched name text (fs, true) =
    let index = unwrap_or_zero (find fs name) in
    update fs index (record (fs index) { is_dir = false; data_bytes = text })

unfoldable pub write_raw : RamFs → List ℕ → List ℕ → RamFs
write_raw fs name text = write_touched name text (touch_raw fs name false)

abbrev pub touched : RamFs × Bool → RamFs × Message
touched (fs, true) = (fs, done)
touched (fs, false) = (fs, is_full)

unfoldable pub touch : RamFs → List ℕ → Bool → RamFs × Message
touch fs name is_dir = elim (valid_name name) [
  | false ↦ (fs, invalid_name)
  | true ↦ touched (touch_raw fs name is_dir)
]

unfoldable pub write : RamFs → List ℕ → List ℕ → RamFs × Message
write fs name text = elim (valid_name name) [
  | false ↦ (fs, invalid_name)
  | true ↦ elim (ltb file_data_max (length text)) [
    | true ↦ (fs, too_large)
    | false ↦ (write_raw fs name text, done)
  ]
]

-- `self.entries[index].is_dir == dir`
abbrev pub same_kind : Bool → Bool → Bool
same_kind true dir = dir
same_kind false dir = not dir

abbrev pub remove_at : RamFs → Bool → Option ℕ → RamFs × Message
remove_at fs dir none = (fs, not_found)
remove_at fs dir (some index) = elim (same_kind (fs index).is_dir dir) [
  | true ↦ (update fs index empty_entry, done)
  | false ↦ (fs, if dir then not_a_directory else is_a_directory)
]

unfoldable pub remove : RamFs → List ℕ → Bool → RamFs × Message
remove fs name dir = remove_at fs dir (find fs name)

abbrev pub append_at : RamFs → List ℕ → List ℕ → Option ℕ → RamFs × Message
append_at fs name text none = write fs name text
append_at fs name text (some index) = elim (fs index).is_dir [
  | true ↦ (fs, is_a_directory)
  | false ↦ elim (ltb file_data_max (length (fs index).data_bytes + length text)) [
    | true ↦ (fs, too_large)
    | false ↦
        (update fs index (record (fs index) { data_bytes = (fs index).data_bytes ++ text }), done)
  ]
]

unfoldable pub append : RamFs → List ℕ → List ℕ → RamFs × Message
append fs name text = elim (valid_name name) [
  | false ↦ (fs, invalid_name)
  | true ↦ append_at fs name text (find fs name)
]

abbrev pub copy_at : RamFs → List ℕ → Option ℕ → RamFs × Message
copy_at fs dst none = (fs, not_found)
copy_at fs dst (some index) = elim (fs index).is_dir [
  | true ↦ (fs, is_a_directory)
  | false ↦ (write_raw fs dst (fs index).data_bytes, done)
]

unfoldable pub copy : RamFs → List ℕ → List ℕ → RamFs × Message
copy fs src dst = elim (valid_name dst) [
  | false ↦ (fs, invalid_name)
  | true ↦ copy_at fs dst (find fs src)
]

abbrev pub move_at : RamFs → List ℕ → Option ℕ → RamFs × Message
move_at fs dst none = (fs, not_found)
move_at fs dst (some index) = elim (ltb file_name_max (length dst)) [
  | true ↦ (fs, too_long)
  | false ↦ (update fs index (record (fs index) { name = dst }), done)
]

unfoldable pub move_entry : RamFs → List ℕ → List ℕ → RamFs × Message
move_entry fs src dst = elim (valid_name dst) [
  | false ↦ (fs, invalid_name)
  | true ↦ move_at fs dst (find fs src)
]
