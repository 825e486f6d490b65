-- ===== src/Files/Boot.antt =====
-- kernel/src/main.rs: `abi_open`, which opens a file of RYMFS5 or of the archive of the boot loader.
use rymos.Prelude.{ℕ, true, false, Option, none, some, List, length, starts_with, get_or}
use rymos.Prelude.Int.{ℤ}
use rymos.Errors.{err_inval, err_noent}
use rymos.Scheduler.{current_process}
use rymos.Pfs.Paths.{pfs_prefix, pfs_resolve_path}
use rymos.Bootfs.{BootFs, find_data, checked_app_slice}
use rymos.Files.{Files, AppFd, boot_fs, fd_read, fd_write, has_flag}
use rymos.Files.Control.{refuse}
use rymos.Files.Open.{open_handle, abi_open_pfs}

-- A handle on the bytes of the archive.
abbrev pub boot_fd : List ℕ → AppFd
boot_fd data_bytes = record {
  opened = true;
  kind = boot_fs;
  flags = fd_read;
  bytes = λ i. get_or data_bytes i 0;
  len = length data_bytes;
  offset = 0;
  pfs_index = 0;
}

abbrev pub open_data : Files → Option (List ℕ) → Files × ℤ
open_data s none = refuse err_noent s
open_data s (some data_bytes) = open_handle s (boot_fd data_bytes)

-- The call after `pfs_resolve_path`.
abbrev pub open_path : BootFs → List ℕ → ℕ → ℕ → ℕ → ℕ → Files → Option (List ℕ) → Files × ℤ
open_path boot path flags now now' now'' s (some name) = abi_open_pfs name flags now now' now'' s
open_path boot path flags now now' now'' s none = elim (starts_with path pfs_prefix) [
  | true ↦ refuse err_inval s
  | false ↦ elim (has_flag flags fd_write) [
    | true ↦ refuse err_inval s
    | false ↦ open_data s (find_data boot path)
  ]
]

abbrev pub open_checked : BootFs → ℕ → ℕ → ℕ → ℕ → Files → Option (List ℕ) → Files × ℤ
open_checked boot flags now now' now'' s none = refuse err_inval s
open_checked boot flags now now' now'' s (some path) =
    open_path boot path flags now now' now'' s
      (pfs_resolve_path (current_process s.kernel).cwd path)

-- `now`, `now'` and `now''` are the readings of the clock.
unfoldable pub abi_open : BootFs → List ℕ → ℕ → ℕ → ℕ → ℕ → Files → Files × ℤ
abi_open boot path flags now now' now'' s =
    open_checked boot flags now now' now'' s (checked_app_slice path)
