-- ===== src/Files/Open.antt =====
-- kernel/src/main.rs: `abi_open_pfs`.
use rymos.Prelude.{
  ℕ, ◌+◌, Bool, true, false, ◌&&◌, ◌||◌, not, Option, none, some, List, [], first_from,
  if◌then◌else◌,
}
use rymos.Prelude.Int.{ℤ, as_i32}
use rymos.Errors.{err_inval, err_nospc, err_noent, err_io, err_isdir, err_exist}
use rymos.Pfs.Header.{
  Header, Entry, pfs_entry_is_dir, pfs_entry_created, pfs_entry_mode, pfs_entry_length,
  pfs_set_entry, pfs_kind_file,
}
use rymos.Pfs.Directory.{valid_pfs_path, pfs_parent_exists, pfs_find_entry, pfs_free_entry}
use rymos.Pfs.Disk.{Disk, Io, failed, ok, read_header_silent, write_header}
use rymos.Files.{
  Files, AppFd, pfs, with_fd, app_fd_count, app_fd_base, fd_write, fd_create, fd_create_new,
  fd_truncate, fd_append, has_flag,
}
use rymos.Files.Control.{refuse, clear, is_closed}

abbrev pub pfs_mode_default_file : ℕ
pfs_mode_default_file = 3

-- The flags make no sense together.
abbrev pub has_bad_flags : ℕ → Bool
has_bad_flags flags =
    (has_flag flags fd_create_new && not (has_flag flags fd_create))
    || (has_flag flags fd_truncate && not (has_flag flags fd_write))
    || (has_flag flags fd_append && not (has_flag flags fd_write))

-- An empty file of that name.
abbrev pub new_file : List ℕ → ℕ → ℕ → Entry
new_file name created mode = record {
  name = name;
  size = 0;
  kind = pfs_kind_file;
  extents = [];
  created_ticks = created;
  mode = mode;
}

-- What happens to the header: the call is refused, it uses an entry, or it makes one.
pub data Opening : Type 0 where
  refused : ℕ → Opening
  existing : ℕ → Opening
  created : ℕ → Header → Opening

abbrev pub open_missing : Header → List ℕ → ℕ → ℕ → ℕ → Opening
open_missing header name flags now now' = elim (has_flag flags fd_create) [
  | false ↦ refused err_noent
  | true ↦ elim (pfs_free_entry header) [
    | none ↦ refused err_nospc
    | some index ↦
        created index (pfs_set_entry header index (new_file name now pfs_mode_default_file) now')
  ]
]

-- `now` and `now'` are two readings of the clock.
unfoldable pub open_entry : Header → List ℕ → ℕ → ℕ → ℕ → Opening
open_entry header name flags now now' = elim (pfs_parent_exists header name) [
  | false ↦ refused err_noent
  | true ↦ elim (pfs_find_entry header name) [
    | none ↦ open_missing header name flags now now'
    | some index ↦
        if pfs_entry_is_dir header index
        then refused err_isdir
        else if has_flag flags fd_create_new
        then refused err_exist
        else existing index
  ]
]

-- The header with the file emptied.
unfoldable pub truncated : Header → ℕ → List ℕ → ℕ → Header
truncated header index name now =
    pfs_set_entry header index
      (new_file name (pfs_entry_created header index) (pfs_entry_mode header index)) now

abbrev pub pfs_fd : ℕ → ℕ → ℕ → AppFd
pfs_fd flags len index = record {
  opened = true;
  kind = pfs;
  flags = flags;
  bytes = λ _. 0;
  len = len;
  offset = if has_flag flags fd_append then len else 0;
  pfs_index = index;
}

-- The first closed handle is taken.
abbrev pub take_handle : Files → AppFd → Option ℕ → Files × ℤ
take_handle s handle none = refuse err_nospc s
take_handle s handle (some fd) = (clear (with_fd s fd handle), as_i32 (fd + app_fd_base))

unfoldable pub open_handle : Files → AppFd → Files × ℤ
open_handle s handle = take_handle s handle (first_from app_fd_count 0 (is_closed s))

-- The end of the call, where the header has been written.
abbrev pub after_truncate : Files → Header → ℕ → ℕ → Io (Unit {0}) → Files × ℤ
after_truncate s header index flags (failed d) = refuse err_io (record s { disk = d })
after_truncate s header index flags (ok d _) =
    open_handle (record s { disk = d }) (pfs_fd flags (pfs_entry_length header index) index)

abbrev pub truncate_entry : Files → Disk → Header → List ℕ → ℕ → ℕ → ℕ → Files × ℤ
truncate_entry s d header name index flags now = elim (has_flag flags fd_truncate) [
  | false ↦ after_truncate s header index flags (ok d tt)
  | true ↦
      let emptied = truncated header index name now in
      after_truncate s emptied index flags (write_header d emptied)
]

abbrev pub after_create : Files → Header → List ℕ → ℕ → ℕ → ℕ → Io (Unit {0}) → Files × ℤ
after_create s header name index flags now (failed d) = refuse err_io (record s { disk = d })
after_create s header name index flags now (ok d _) = truncate_entry s d header name index flags now

abbrev pub after_opening : Files → Disk → Header → List ℕ → ℕ → ℕ → Opening → Files × ℤ
after_opening s d header name flags now (refused error) = refuse error (record s { disk = d })
after_opening s d header name flags now (existing index) =
    truncate_entry s d header name index flags now
after_opening s d header name flags now (created index header') =
    after_create s header' name index flags now (write_header d header')

abbrev pub after_header : Files → List ℕ → ℕ → ℕ → ℕ → ℕ → Io Header → Files × ℤ
after_header s name flags now now' now'' (failed d) = refuse err_io (record s { disk = d })
after_header s name flags now now' now'' (ok d header) =
    after_opening s d header name flags now'' (open_entry header name flags now now')

-- The clock is read up to three times: twice where a file is made, and again where it is emptied.
unfoldable pub abi_open_pfs : List ℕ → ℕ → ℕ → ℕ → ℕ → Files → Files × ℤ
abi_open_pfs name flags now now' now'' s = elim (not (valid_pfs_path name) || has_bad_flags flags) [
  | true ↦ refuse err_inval s
  | false ↦ after_header s name flags now now' now'' (read_header_silent s.disk)
]
