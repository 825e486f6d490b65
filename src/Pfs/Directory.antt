-- ===== src/Pfs/Directory.antt =====
-- kernel/src/main.rs: the names of RYMFS5's entries: looking them up, creating, removing and
-- renaming entries in the header.
pub mod Unique
pub mod Rename
pub mod Unlink
pub mod Written
pub mod Create
pub mod Orphan
use rymos.Prelude.{
  ℕ, zero, suc, ◌+◌, Bool, true, false, ◌&&◌, ◌||◌, not, Option, none, some, List, [], ◌∷◌, ◌==◌,
  ltb, leb, if◌then◌else◌, first_from, length, get_or, take, bytes_eq, starts_with,
}
use rymos.Errors.{err_noent, err_exist, err_nospc}
use rymos.Pfs.Header.{
  Header, Entry, pfs_entry_count, pfs_name_max, pfs_entry_used, pfs_entry_is_dir, pfs_entry_name,
  pfs_entry_length, pfs_entry_kind, pfs_entry_extents, pfs_entry_created, pfs_entry_mode, entry_of,
  pfs_set_entry, pfs_clear_entry, pfs_kind_dir,
}

abbrev pub slash : ℕ
slash = b'/'

abbrev pub between : ℕ → ℕ → ℕ → Bool
between low high b = leb low b && leb b high

-- `byte.is_ascii_alphanumeric() || *byte == b'.' || *byte == b'_' || *byte == b'-'`
abbrev pub is_name_byte : ℕ → Bool
is_name_byte b =
    between b'0' b'9' b
    || between b'A' b'Z' b
    || between b'a' b'z' b
    || b == b'.'
    || b == b'_'
    || b == b'-'

-- The loop of `valid_pfs_path`.
unfoldable pub valid_from : Bool → List ℕ → Bool
valid_from last_was_slash [] = not last_was_slash
valid_from last_was_slash (b ∷ bs) =
    if b == slash && last_was_slash
    then false
    else if not (b == slash) && not (is_name_byte b)
    then false
    else valid_from (b == slash) bs

unfoldable pub valid_pfs_path : List ℕ → Bool
unfolding valid_from
valid_pfs_path name =
    if length name == 0 || ltb pfs_name_max (length name) then false else valid_from false name

-- The loop of `find_last_byte`, which goes down from the index `n`.
unfoldable pub last_below : ℕ → List ℕ → ℕ → Option ℕ
last_below zero bytes needle = none
last_below (suc index) bytes needle =
    let rest = last_below index bytes needle in
    if get_or bytes index 0 == needle then some index else rest

unfoldable pub find_last_byte : List ℕ → ℕ → Option ℕ
unfolding last_below
find_last_byte bytes needle = last_below (length bytes) bytes needle

unfoldable pub pfs_find_entry : Header → List ℕ → Option ℕ
pfs_find_entry header name =
    first_from pfs_entry_count 0
      (λ i. pfs_entry_used header i && bytes_eq (pfs_entry_name header i) name)

unfoldable pub pfs_free_entry : Header → Option ℕ
pfs_free_entry header = first_from pfs_entry_count 0 (λ i. not (pfs_entry_used header i))

unfoldable pub pfs_parent_exists : Header → List ℕ → Bool
pfs_parent_exists header name = elim (find_last_byte name slash) [
  | none ↦ true
  | some at ↦
      if at == 0 || leb (length name) (at + 1)
      then false
      else elim (pfs_find_entry header (take at name)) [
        | none ↦ false
        | some index ↦ pfs_entry_is_dir header index
      ]
]

-- The entry stands below the directory `dir`.
unfoldable pub is_below : List ℕ → List ℕ → Bool
is_below dir name =
    ltb (length dir) (length name) && (starts_with name dir && get_or name (length dir) 0 == slash)

unfoldable pub pfs_dir_empty : Header → List ℕ → Bool
pfs_dir_empty header dir =
    elim (first_from pfs_entry_count 0
      (λ i. pfs_entry_used header i && is_below dir (pfs_entry_name header i))) [
        | none ↦ true
        | some _ ↦ false
      ]

-- `Err(-n)` is `refused n`.
pub data Outcome : Type 0 where
  changed : Header → Outcome
  refused : ℕ → Outcome

unfoldable pub pfs_unlink_header : Header → List ℕ → Outcome
pfs_unlink_header header name = elim (pfs_find_entry header name) [
  | none ↦ refused 1
  | some index ↦
      if pfs_entry_is_dir header index && not (pfs_dir_empty header name)
      then refused 2
      else changed (pfs_clear_entry header index)
]

-- The entry `index` under another name.
abbrev pub renamed : Header → ℕ → List ℕ → Entry
renamed header index new_name = record (entry_of header index) { name = new_name }

unfoldable pub pfs_rename_header : Header → List ℕ → List ℕ → ℕ → Outcome
pfs_rename_header header old_name new_name now =
    if not (valid_pfs_path old_name) || not (valid_pfs_path new_name)
    then refused 1
    else elim (pfs_find_entry header old_name) [
      | none ↦ refused 2
      | some index ↦ elim (pfs_find_entry header new_name) [
        | some _ ↦ refused 3
        | none ↦
            if not (pfs_parent_exists header new_name)
            then refused 4
            else if pfs_entry_is_dir header index && not (pfs_dir_empty header old_name)
            then refused 5
            else changed (pfs_set_entry header index (renamed header index new_name) now)
      ]
    ]

abbrev pub pfs_mode_default_dir : ℕ
pfs_mode_default_dir = 7

abbrev pub new_dir : List ℕ → ℕ → Entry
new_dir name now = record {
  name = name;
  size = 0;
  kind = pfs_kind_dir;
  extents = [];
  created_ticks = now;
  mode = pfs_mode_default_dir;
}

-- What `abi_mkdir` does to the header, for a path that resolves to `name`; `now` and `later` are the
-- two readings of `ns_since_boot`.
unfoldable pub mkdir_header : Header → List ℕ → ℕ → ℕ → Outcome
mkdir_header header name now later =
    if not (pfs_parent_exists header name)
    then refused err_noent
    else elim (pfs_find_entry header name) [
      | some _ ↦ refused err_exist
      | none ↦ elim (pfs_free_entry header) [
        | none ↦ refused err_nospc
        | some index ↦ changed (pfs_set_entry header index (new_dir name now) later)
      ]
    ]

abbrev pub entry_at : Header → Option ℕ → Option Entry
entry_at header none = none
entry_at header (some index) = some (entry_of header index)

-- What the header holds under a name.
unfoldable pub lookup : Header → List ℕ → Option Entry
lookup header name = entry_at header (pfs_find_entry header name)
