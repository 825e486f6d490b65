-- ===== src/Files/Calls.antt =====
-- kernel/src/main.rs: the calls on open files and pipes. Their buffers are lists of bytes: what a call
-- is given, or what it has stored where it succeeds.
use rymos.Prelude.{
  ℕ, ◌+◌, ◌-◌, ◌%◌, ◌^◌, min, Bool, true, false, ◌&&◌, ◌||◌, not, Option, none, some, List, [],
  ◌++◌, ◌==◌, ltb, if◌then◌else◌, length, read_slice,
}
use rymos.Prelude.Int.{ℤ, pos, negsuc, as_isize}
use rymos.Pfs.Disk.{Io, failed, ok, pfs_read_at, pfs_write_at, pfs_update_size, pfs_file_max}
use rymos.Files.{
  Files, AppFd, AppFdKind, empty, boot_fs, pfs, pipe_read, pipe_write, AppPipe, empty_fd, with_fd,
  with_pipe, is_negative, app_fd_index, app_resolve_fd, fd_read, fd_write, fd_append, has_flag,
  read_pipe, write_pipe,
}

-- What `abi_read` does: the bytes that it has stored, and its result.
abbrev pub ReadResult : Type 0
ReadResult = Files × List ℕ × ℤ

abbrev pub no_read : Files → ReadResult
no_read s = (s, [], negsuc 0)

abbrev pub read_from_pipe : Files → ℕ → ℕ → ReadResult
read_from_pipe s index n =
    let pipe = s.pipes index in
    let r = read_pipe pipe n in
    if not pipe.used || not pipe.read_open
    then no_read s
    else (with_pipe s index r.0, r.1, as_isize (length r.1))

-- `handle.offset += copy_len`
abbrev pub advanced : Files → ℕ → AppFd → ℕ → Files
advanced s index handle n = with_fd s index (record handle { offset = handle.offset + n })

abbrev pub read_pfs : Files → ℕ → AppFd → ℕ → Io (List ℕ) → ReadResult
read_pfs s index handle copy_len (failed d) = no_read (record s { disk = d })
read_pfs s index handle copy_len (ok d bytes) =
    (advanced (record s { disk = d }) index handle copy_len, bytes, as_isize copy_len)

-- The match on the handle's kind, with bytes to copy.
abbrev pub read_kind : Files → ℕ → AppFd → ℕ → AppFdKind → ReadResult
read_kind s index handle copy_len empty = no_read s
read_kind s index handle copy_len boot_fs = (
  advanced s index handle copy_len,
  read_slice handle.bytes handle.offset copy_len,
  as_isize copy_len,
)
read_kind s index handle copy_len pfs =
    read_pfs s index handle copy_len (pfs_read_at handle.pfs_index handle.offset copy_len s.disk)
read_kind s index handle copy_len pipe_read = no_read s
read_kind s index handle copy_len pipe_write = no_read s

abbrev pub read_file : Files → ℕ → AppFd → ℕ → ReadResult
read_file s index handle n =
    let copy_len = min n (handle.len - handle.offset) in
    elim (copy_len == 0) [
      | true ↦ (s, [], pos 0)
      | false ↦ read_kind s index handle copy_len handle.kind
    ]

abbrev pub read_open_handle : Files → ℕ → AppFd → ℕ → AppFdKind → ReadResult
read_open_handle s index handle n empty = read_file s index handle n
read_open_handle s index handle n boot_fs = read_file s index handle n
read_open_handle s index handle n pfs = read_file s index handle n
read_open_handle s index handle n pipe_read = read_from_pipe s handle.pfs_index n
read_open_handle s index handle n pipe_write = read_file s index handle n

abbrev pub read_handle : Files → AppFd → ℕ → Option ℕ → ReadResult
read_handle s handle n none = no_read s
read_handle s handle n (some index) = elim (handle.opened && has_flag handle.flags fd_read) [
  | false ↦ no_read s
  | true ↦ read_open_handle s index handle n handle.kind
]

abbrev pub handle_at : Files → Option ℕ → AppFd
handle_at s none = empty_fd
handle_at s (some index) = s.fds index

abbrev pub is_fd : ℕ → ℤ → Bool
is_fd n (pos m) = m == n
is_fd n (negsuc m) = false

-- The call after `app_resolve_fd`.
abbrev pub read_resolved : Bool → List ℕ → ℕ → Files → ℤ → ReadResult
read_resolved is_null typed n s resolved =
    let index = app_fd_index resolved in
    elim (is_negative resolved || is_null) [
      | true ↦ no_read s
      | false ↦ elim (is_fd 0 resolved) [
        | true ↦ (s, typed, as_isize (length typed))
        | false ↦ read_handle s (handle_at s index) n index
      ]
    ]

-- `typed` is the line that `abi_read_line` would store. A read that fails in the middle has stored the
-- bytes before it, which no result tells of.
unfoldable pub abi_read : Bool → List ℕ → ℤ → ℕ → Files → ReadResult
abi_read is_null typed fd n s = read_resolved is_null typed n s (app_resolve_fd s.kernel fd)

abbrev pub no_write : Files → Files × ℤ
no_write s = (s, negsuc 0)

abbrev pub write_to_pipe : Files → ℕ → Option (AppPipe × ℕ) → Files × ℤ
write_to_pipe s index none = no_write s
write_to_pipe s index (some (pipe, n)) = (with_pipe s index pipe, as_isize n)

-- The size of the entry is written.
abbrev pub write_size : Files → ℕ → Io (Unit {0}) → Files × ℤ
write_size s n (failed d) = no_write (record s { disk = d })
write_size s n (ok d _) = (record s { disk = d }, as_isize n)

-- The data is written; the handle's length grows where the offset is now beyond it.
abbrev pub write_pfs : Files → ℕ → AppFd → ℕ → ℕ → Io (Unit {0}) → Files × ℤ
write_pfs s index handle n now (failed d) = no_write (record s { disk = d })
write_pfs s index handle n now (ok d _) =
    let end = (handle.offset + n) % 2 ^ 64 in
    elim (ltb handle.len end) [
      | false ↦ (with_fd (record s { disk = d }) index (record handle { offset = end }), as_isize n)
      | true ↦
          write_size (with_fd s index (record handle { offset = end; len = end })) n
            (pfs_update_size handle.pfs_index end now d)
    ]

-- With `FD_APPEND` the offset goes to the handle's end first.
abbrev pub placed : AppFd → AppFd
placed handle = record handle {
  offset = if has_flag handle.flags fd_append then handle.len else handle.offset;
}

abbrev pub write_file : Files → ℕ → AppFd → List ℕ → ℕ → Files × ℤ
write_file s index handle bytes now =
    elim (ltb pfs_file_max ((handle.offset + length bytes) % 2 ^ 64)) [
      | true ↦ no_write (with_fd s index handle)
      | false ↦
          write_pfs (with_fd s index handle) index handle (length bytes) now
            (pfs_write_at handle.pfs_index handle.offset bytes now s.disk)
    ]

abbrev pub write_kind : Files → ℕ → AppFd → List ℕ → ℕ → AppFdKind → Files × ℤ
write_kind s index handle bytes now empty = no_write s
write_kind s index handle bytes now boot_fs = no_write s
write_kind s index handle bytes now pfs = write_file s index (placed handle) bytes now
write_kind s index handle bytes now pipe_read = no_write s
write_kind s index handle bytes now pipe_write =
    let pipe = s.pipes handle.pfs_index in
    elim (pipe.used && pipe.write_open && pipe.read_open) [
      | false ↦ no_write s
      | true ↦ write_to_pipe s handle.pfs_index (write_pipe pipe bytes)
    ]

abbrev pub write_handle : Files → AppFd → List ℕ → ℕ → Option ℕ → Files × ℤ
write_handle s handle bytes now none = no_write s
write_handle s handle bytes now (some index) =
    elim (handle.opened && has_flag handle.flags fd_write) [
      | false ↦ no_write s
      | true ↦ write_kind s index handle bytes now handle.kind
    ]

-- The call once the descriptor is resolved.
abbrev pub write_resolved : Bool → ℤ → List ℕ → ℕ → Files → Files × ℤ
write_resolved is_null resolved bytes now s =
    let index = app_fd_index resolved in
    elim (is_negative resolved || is_null) [
      | true ↦ no_write s
      | false ↦ elim (is_fd 1 resolved || is_fd 2 resolved) [
        | true ↦ (record s { console = s.console ++ bytes }, as_isize (length bytes))
        | false ↦ write_handle s (handle_at s index) bytes now index
      ]
    ]

-- `now` is what `ns_since_boot` returns; the kernel's console is there.
unfoldable pub abi_write_fd : Bool → ℤ → List ℕ → ℕ → Files → Files × ℤ
abi_write_fd is_null fd bytes now s =
    write_resolved is_null (app_resolve_fd s.kernel fd) bytes now s
