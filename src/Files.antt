-- ===== src/Files.antt =====
-- kernel/src/main.rs: the table of open files, the pipes, and the calls on them: `app_fd_index`,
-- `abi_open`, `abi_read`, `abi_write_fd`, `abi_seek`, `abi_close`, `abi_pipe` and `abi_dup2`. Both
-- tables are shared by all processes; each process has its own three standard descriptors.
pub mod Calls
pub mod Control
pub mod Open
pub mod Boot
pub mod Fifo
pub mod Ends
pub mod Transfers
pub mod Sides
pub mod ClosedEnds
pub mod Closing
pub mod Opening
pub mod Handles
pub mod Sound
pub mod Redirect
pub mod BootReads
mod Tests
use rymos.Prelude.{
  ℕ, suc, ◌+◌, ◌-◌, ◌%◌, ◌^◌, min, Bool, true, false, ◌&&◌, ◌||◌, not, Option, none, some, List, [],
  ◌∷◌, ◌++◌, ◌==◌, ltb, leb, if◌then◌else◌, Table, update, first_from, length, take, write_slice,
  read_slice,
}
use Prim.Native.Nat.{bit_and}
use rymos.Prelude.Int.{ℤ, pos, negsuc, as_isize}
use rymos.Process.{StdFds}
use rymos.Scheduler.{Kernel, current_process, with_slots}
use rymos.Pfs.Disk.{Disk, Io, failed, ok, pfs_read_at, pfs_write_at, pfs_update_size, pfs_file_max}

abbrev pub app_fd_count : ℕ
app_fd_count = 32

abbrev pub app_fd_base : ℕ
app_fd_base = 3

abbrev pub app_pipe_count : ℕ
app_pipe_count = 12

abbrev pub app_pipe_buffer_size : ℕ
app_pipe_buffer_size = 8192

abbrev pub fd_read : ℕ
fd_read = 1

abbrev pub fd_write : ℕ
fd_write = 2

abbrev pub fd_create : ℕ
fd_create = 4

abbrev pub fd_truncate : ℕ
fd_truncate = 8

abbrev pub fd_append : ℕ
fd_append = 16

abbrev pub fd_create_new : ℕ
fd_create_new = 32

-- `flags & flag != 0`
abbrev pub has_flag : ℕ → ℕ → Bool
has_flag flags flag = not (bit_and flags flag == 0)

pub data AppFdKind : Type 0 where
  empty : AppFdKind
  boot_fs : AppFdKind
  pfs : AppFdKind
  pipe_read : AppFdKind
  pipe_write : AppFdKind

-- `opened` is the field `open`, and `bytes` what the pointer `data` stands at.
pub record AppFd : Type 0 where
  pub opened : Bool
  pub kind : AppFdKind
  pub flags : ℕ
  pub bytes : Table ℕ
  pub len : ℕ
  pub offset : ℕ
  pub pfs_index : ℕ

pub record AppPipe : Type 0 where
  pub used : Bool
  pub read_open : Bool
  pub write_open : Bool
  pub buffer : Table ℕ
  pub read_offset : ℕ
  pub len : ℕ

abbrev pub empty_fd : AppFd
empty_fd = record {
  opened = false;
  kind = empty;
  flags = 0;
  bytes = λ _. 0;
  len = 0;
  offset = 0;
  pfs_index = 0;
}

abbrev pub empty_pipe : AppPipe
empty_pipe = record {
  used = false;
  read_open = false;
  write_open = false;
  buffer = λ _. 0;
  read_offset = 0;
  len = 0;
}

-- What the calls work on; `console` is what has been written to the console.
pub record Files : Type 0 where
  pub kernel : Kernel
  pub fds : Table AppFd
  pub pipes : Table AppPipe
  pub disk : Disk
  pub console : List ℕ

abbrev pub with_fd : Files → ℕ → AppFd → Files
with_fd s index handle = record s { fds = update s.fds index handle }

abbrev pub with_pipe : Files → ℕ → AppPipe → Files
with_pipe s index pipe = record s { pipes = update s.pipes index pipe }

-- `(STDIN_FD..=STDERR_FD).contains(&fd)`
abbrev pub is_std : ℤ → Bool
is_std (pos n) = ltb n app_fd_base
is_std (negsuc n) = false

abbrev pub is_negative : ℤ → Bool
is_negative (pos n) = false
is_negative (negsuc n) = true

unfoldable pub app_fd_index : ℤ → Option ℕ
app_fd_index (negsuc n) = none
app_fd_index (pos n) =
    if ltb n app_fd_base
    then none
    else if ltb (n - app_fd_base) app_fd_count
    then some (n - app_fd_base)
    else none

-- `std_fds[fd]`
abbrev pub std_fd : StdFds → ℕ → ℤ
std_fd std n = if n == 0 then std.stdin else if n == 1 then std.stdout else std.stderr

-- `std_fds[n] = fd`
abbrev pub set_std_fd : StdFds → ℕ → ℤ → StdFds
set_std_fd std n fd =
    if n == 0
    then record std { stdin = fd }
    else if n == 1
    then record std { stdout = fd }
    else record std { stderr = fd }

unfoldable pub app_resolve_fd : Kernel → ℤ → ℤ
app_resolve_fd k (negsuc n) = negsuc n
app_resolve_fd k (pos n) =
    if ltb n app_fd_base then std_fd ((current_process k).std_fds) n else pos n

abbrev is_open : Table AppFd → Option ℕ → Bool
is_open fds none = false
is_open fds (some index) = (fds index).opened

unfoldable pub app_fd_open : Table AppFd → ℤ → Bool
app_fd_open fds fd = is_std fd || is_open fds (app_fd_index fd)

unfoldable pub app_close_all_fds : Files → Files
app_close_all_fds s = record s {
  fds = λ i. if ltb i app_fd_count then empty_fd else s.fds i;
  pipes = λ i. if ltb i app_pipe_count then empty_pipe else s.pipes i;
}

-- The bytes of a pipe that are written and not yet read.
abbrev pub pending : AppPipe → List ℕ
pending pipe = read_slice pipe.buffer pipe.read_offset (pipe.len - pipe.read_offset)

-- The part of `abi_read` for a pipe: at most `n` bytes.
unfoldable pub read_pipe : AppPipe → ℕ → AppPipe × List ℕ
read_pipe pipe n =
    let copy = min n (pipe.len - pipe.read_offset) in
    let read_offset = pipe.read_offset + copy in
    if copy == 0 then (pipe, []) else (
      if read_offset == pipe.len
          then record pipe { read_offset = 0; len = 0 }
          else record pipe { read_offset = read_offset },
      read_slice pipe.buffer pipe.read_offset copy,
    )

-- The part of `abi_write_fd` for a pipe: the bytes that fit, or `none` where none fits.
unfoldable pub write_pipe : AppPipe → List ℕ → Option (AppPipe × ℕ)
write_pipe pipe bytes =
    let n = min (length bytes) (app_pipe_buffer_size - pipe.len) in
    if n == 0 && not (length bytes == 0)
    then none
    else some (
      record pipe { buffer = write_slice pipe.buffer pipe.len (take n bytes); len = pipe.len + n },
      n,
    )
