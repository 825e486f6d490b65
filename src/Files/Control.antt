-- ===== src/Files/Control.antt =====
-- kernel/src/main.rs: the calls that make, move and close open files and pipes.
use rymos.Prelude.{
  ℕ, suc, ◌+◌, ◌-◌, Bool, true, false, ◌||◌, not, Option, none, some, ◌==◌, ltb, if◌then◌else◌,
  update, first_from,
}
use rymos.Prelude.Int.{ℤ, pos, negsuc, as_isize}
use rymos.Errors.{err_inval, err_nospc}
use rymos.Process.{StdFds}
use rymos.Scheduler.{Kernel, current_process, with_slots}
use rymos.Scheduler.Calls.{set_app_error, clear_app_error}
use rymos.Files.{
  Files, AppFd, AppFdKind, empty, boot_fs, pfs, pipe_read, pipe_write, AppPipe, empty_fd,
  empty_pipe, with_fd, with_pipe, is_std, is_negative, app_fd_index, app_fd_open, std_fd,
  set_std_fd, app_fd_count, app_fd_base, app_pipe_count, fd_read, fd_write,
}
use rymos.Files.Calls.{handle_at}

-- `set_app_error(error)` as the call's result.
abbrev pub refuse : ℕ → Files → Files × ℤ
refuse error s = let (k, r) = set_app_error error s.kernel in (record s { kernel = k }, r)

abbrev pub clear : Files → Files
clear s = record s { kernel = clear_app_error s.kernel }

-- `offset` is beyond a BootFS file.
abbrev pub past_end : AppFd → ℕ → AppFdKind → Bool
past_end handle offset empty = false
past_end handle offset boot_fs = ltb handle.len offset
past_end handle offset pfs = false
past_end handle offset pipe_read = false
past_end handle offset pipe_write = false

abbrev pub seek_handle : Files → AppFd → ℕ → Option ℕ → Files × ℤ
seek_handle s handle offset none = (s, negsuc 0)
seek_handle s handle offset (some index) =
    if not handle.opened || past_end handle offset handle.kind
    then (s, negsuc 0)
    else (with_fd s index (record handle { offset = offset }), as_isize offset)

unfoldable pub abi_seek : ℤ → ℕ → Files → Files × ℤ
abi_seek fd offset s =
    let index = app_fd_index fd in
    if is_negative fd then (s, negsuc 0) else seek_handle s (handle_at s index) offset index

-- The standard descriptors of the current process are changed.
abbrev pub with_std : Files → (StdFds → StdFds) → Files
with_std s f =
    let p = current_process s.kernel in
    record s {
      kernel = with_slots s.kernel (
          update ((s.kernel).slots) ((s.kernel).current_index)
            (record p { std_fds = f p.std_fds }));
    }

abbrev pub close_read : AppPipe → AppPipe
close_read pipe = if not pipe.write_open then empty_pipe else record pipe { read_open = false }

abbrev pub close_write : AppPipe → AppPipe
close_write pipe = if not pipe.read_open then empty_pipe else record pipe { write_open = false }

-- The end of a pipe is closed, and the pipe is given back with its second end.
abbrev pub close_end : Files → AppFd → AppFdKind → Files
close_end s handle empty = s
close_end s handle boot_fs = s
close_end s handle pfs = s
close_end s handle pipe_read = with_pipe s handle.pfs_index (close_read (s.pipes handle.pfs_index))
close_end s handle pipe_write =
    with_pipe s handle.pfs_index (close_write (s.pipes handle.pfs_index))

abbrev pub close_handle : Files → AppFd → Option ℕ → Files × ℤ
close_handle s handle none = (s, negsuc 0)
close_handle s handle (some index) =
    if not handle.opened
    then (s, negsuc 0)
    else (with_fd (close_end s handle handle.kind) index empty_fd, pos 0)

abbrev pub std_number : ℤ → ℕ
std_number (pos n) = n
std_number (negsuc n) = 0

unfoldable pub abi_close : ℤ → Files → Files × ℤ
abi_close fd s =
    let index = app_fd_index fd in
    if is_negative fd
    then (s, negsuc 0)
    else if is_std fd
    then (with_std s (λ std. set_std_fd std (std_number fd) fd), pos 0)
    else close_handle s (handle_at s index) index

-- The loop that looks for two closed handles: the first one, and the first one after it.
abbrev pub is_closed : Files → ℕ → Bool
is_closed s index = not (s.fds index).opened

abbrev pub with_write_slot : ℕ → Option ℕ → Option (ℕ × ℕ)
with_write_slot read_slot none = none
with_write_slot read_slot (some write_slot) = some (read_slot, write_slot)

abbrev pub second_slot : Files → Option ℕ → Option (ℕ × ℕ)
second_slot s none = none
second_slot s (some read_slot) =
    with_write_slot read_slot
      (first_from (app_fd_count - suc read_slot) (suc read_slot) (is_closed s))

unfoldable pub two_slots : Files → Option (ℕ × ℕ)
two_slots s = second_slot s (first_from app_fd_count 0 (is_closed s))

abbrev pub new_pipe : AppPipe
new_pipe = record {
  used = true;
  read_open = true;
  write_open = true;
  buffer = λ _. 0;
  read_offset = 0;
  len = 0;
}

abbrev pub pipe_fd : AppFdKind → ℕ → ℕ → AppFd
pipe_fd kind flags index = record {
  opened = true;
  kind = kind;
  flags = flags;
  bytes = λ _. 0;
  len = 0;
  offset = 0;
  pfs_index = index;
}

abbrev pub open_pipe : Files → ℕ → ℕ → ℕ → Files
open_pipe s pipe read_slot write_slot =
    with_fd (with_fd (with_pipe s pipe new_pipe) read_slot (pipe_fd pipe_read fd_read pipe))
      write_slot (pipe_fd pipe_write fd_write pipe)

-- The descriptors that `abi_pipe` stores, if it does.
abbrev pub PipeResult : Type 0
PipeResult = Files × Option (ℕ × ℕ) × ℤ

abbrev pub no_pipe : ℕ → Files → PipeResult
no_pipe error s = ((refuse error s).0, none, negsuc 0)

-- With a free pipe and two closed handles, if they are found in that order.
abbrev pub make_pipe : Files → Option ℕ → Option (ℕ × ℕ) → PipeResult
make_pipe s none slots = no_pipe err_nospc s
make_pipe s (some pipe) none = no_pipe err_nospc s
make_pipe s (some pipe) (some (read_slot, write_slot)) = (
  clear (open_pipe s pipe read_slot write_slot),
  some (read_slot + app_fd_base, write_slot + app_fd_base),
  pos 0,
)

abbrev pub free_pipe : Files → Option ℕ
free_pipe s = first_from app_pipe_count 0 (λ i. not (s.pipes i).used)

unfoldable pub abi_pipe : Bool → Files → PipeResult
abi_pipe is_null s =
    if is_null then no_pipe err_inval s else make_pipe s (free_pipe s) (two_slots s)

abbrev pub same_fd : ℤ → ℤ → Bool
same_fd (pos m) (pos n) = m == n
same_fd (pos m) (negsuc n) = false
same_fd (negsuc m) (pos n) = false
same_fd (negsuc m) (negsuc n) = m == n

unfoldable pub abi_dup2 : ℤ → ℤ → Files → Files × ℤ
abi_dup2 old_fd new_fd s =
    if not (is_std new_fd)
    then refuse err_inval s
    else if same_fd old_fd new_fd
    then (clear (with_std s (λ std. set_std_fd std (std_number new_fd) new_fd)), new_fd)
    else if not (app_fd_open s.fds old_fd)
    then refuse err_inval s
    else (clear (with_std s (λ std. set_std_fd std (std_number new_fd) old_fd)), new_fd)

unfoldable pub abi_std_fd : Kernel → ℤ → ℤ
abi_std_fd k which =
    if not (is_std which) then negsuc 0 else std_fd ((current_process k).std_fds) (std_number which)
