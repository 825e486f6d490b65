-- ===== src/Files/Tests.antt =====
-- The theorems on open files and pipes at concrete states.
use rymos.Prelude.{ℕ, ◌≡◌, refl, true, false, List, [], ◌∷◌, ◌++◌, arith}
use rymos.Prelude.Int.{pos, as_isize}
use rymos.Scheduler.Steps.{boot_kernel}
use rymos.Pfs.Disk.{done}
use rymos.Files.{Files, empty_fd, empty_pipe, app_resolve_fd, app_fd_open}
use rymos.Files.Calls.{abi_write_fd}
use rymos.Files.Control.{new_pipe, abi_pipe, abi_dup2, abi_close}
use rymos.Files.Fifo.{write, read, PipeOp, IsFifo, run, run-IsFifo}
use rymos.Files.Ends.{HasEnds}
use rymos.Files.Sound.{Reach, boot, step, call_pipe, call_write, call_close, Reach-HasEnds}
use rymos.Pfs.Paths.{pfs_resolve_path}
use rymos.Bootfs.{find_data, data_from, entry, entry_size, entry_count, valid}
use rymos.Bootfs.Samples.{a, image}
use rymos.Files.Boot.{abi_open}
use rymos.Files.BootReads.{read_all, abi_open-read_all}
use rymos.Files.Redirect.{abi_dup2-resolves, abi_dup2-not_followed}

abbrev uses : List PipeOp
uses = write (b'a' ∷ b'b' ∷ []) ∷ read 1 ∷ write (b'c' ∷ []) ∷ read 5 ∷ []

run-IsFifo_example : IsFifo new_pipe (run uses new_pipe)
run-IsFifo_example = run-IsFifo uses new_pipe (omega arith, omega arith)

abbrev at_boot : Files
at_boot = record {
  kernel = boot_kernel;
  fds = λ _. empty_fd;
  pipes = λ _. empty_pipe;
  disk = record { bytes = λ _. 0; answers = λ _. done; served = 0 };
  console = [];
}

-- A pipe is made, something is written to it, and its read end is closed.
abbrev made : Files
made = (abi_pipe false at_boot).0

abbrev filled : Files
filled = (abi_write_fd false (pos 4) (b'a' ∷ []) 7 made).0

abbrev half_closed : Files
half_closed = (abi_close (pos 3) filled).0

Reach-half_closed : Reach half_closed
Reach-half_closed =
    step
      (step (step (boot boot_kernel at_boot.disk) (call_pipe false))
        (call_write false (pos 4) (b'a' ∷ []) 7))
      (call_close (pos 3))

Reach-HasEnds_example : HasEnds half_closed
Reach-HasEnds_example = Reach-HasEnds Reach-half_closed

std-open : app_fd_open at_boot.fds (pos 1) ≡ true
unfolding app_fd_open
std-open = refl

abi_dup2-resolves_example :
    ((abi_dup2 (pos 1) (pos 2) at_boot).1 ≡ pos 2)
    × (app_resolve_fd (((abi_dup2 (pos 1) (pos 2) at_boot).0).kernel) (pos 0)
        ≡ app_resolve_fd boot_kernel (pos 0))
abi_dup2-resolves_example =
    abi_dup2-resolves at_boot (pos 1) 2 0 (omega arith) (omega arith) std-open

abi_dup2-not_followed_example :
    let s' = (abi_dup2 (pos 1) (pos 2) half_closed).0 in
    abi_write_fd false (pos 2) (b'e' ∷ []) 9 s'
    ≡ (record s' { console = s'.console ++ (b'e' ∷ []) }, as_isize 1)
abi_dup2-not_followed_example = abi_dup2-not_followed half_closed (b'e' ∷ []) 9

-- The file `a` of the archive, read in three parts.
abi_open-read_all_example :
    let r = abi_open image a 1 7 8 9 at_boot in
    (fd : ℕ) × (r.1 ≡ pos fd) × (read_all (1 ∷ 0 ∷ 5 ∷ []) (pos fd) r.0 ≡ b'h' ∷ b'i' ∷ [])
unfolding pfs_resolve_path find_data data_from entry entry_size entry_count valid
    rymos.Prelude.write_slice rymos.Prelude.read_slice rymos.Prelude.le32
abi_open-read_all_example =
    abi_open-read_all image a 1 7 8 9 at_boot (b'h' ∷ b'i' ∷ []) 0 (1 ∷ 0 ∷ 5 ∷ []) (omega arith)
      (omega arith) refl refl refl refl (omega arith) refl
