-- ===== src/Files/Handles.antt =====
-- kernel/src/main.rs: `abi_pipe`, `abi_dup2` and `abi_open` and the ends of pipes.
use rymos.Prelude.{
  ℕ, ◌≡◌, ◌≢◌, refl, inl, inr, ◌||◌, not, Bool, true, false, Option, none, some, List, arith,
  Bool-cases, Option-cases, first_from, first_from-IsFirst, either_branch,
}
use rymos.Prelude.Int.{ℤ}
use rymos.Errors.{err_inval, err_nospc, err_io}
use rymos.Pfs.Header.{Header, pfs_entry_length}
use rymos.Pfs.Disk.{Disk, Io, failed, ok, read_header_silent, write_header}
use rymos.Pfs.Directory.{valid_pfs_path}
use rymos.Files.{
  Files, with_fd, app_fd_count, app_pipe_count, is_std, app_fd_open, fd_truncate, has_flag,
}
use rymos.Files.Control.{
  refuse, clear, is_closed, two_slots, open_pipe, free_pipe, make_pipe, abi_pipe, same_fd, abi_dup2,
}
use rymos.Files.Open.{
  Opening, refused, existing, created, open_entry, truncated, pfs_fd, open_handle, after_truncate,
  truncate_entry, after_create, after_opening, after_header, abi_open_pfs, has_bad_flags,
}
use rymos.Files.Ends.{Side, side_kind, IsEnd, HasEnds, HasEnds-same, SameEnds-tables}
use rymos.Files.Sides.{HasEnds-replaced}
use rymos.Files.Opening.{two_slots-AreSlots, HasEnds-opened}
use rymos.Errors.{err_noent}
use rymos.Prelude.{starts_with}
use rymos.Scheduler.{current_process}
use rymos.Pfs.Paths.{pfs_prefix, pfs_resolve_path}
use rymos.Bootfs.{BootFs, find_data}
use rymos.Files.{AppFd, fd_write}
use rymos.Files.Sides.{pfs-no_side, boot_fs-no_side}
use rymos.Bootfs.{checked_app_slice}
use rymos.Files.Boot.{open_checked, boot_fd, open_data, open_path, abi_open}

-- Neither table changes.
pub tables-HasEnds : (s s' : Files) → s'.fds ≡ s.fds → s'.pipes ≡ s.pipes → HasEnds s → HasEnds s'
tables-HasEnds s s' fds pipes good = HasEnds-same s s' (SameEnds-tables s s' fds pipes) good

refuse-HasEnds : (error : ℕ) (s : Files) → HasEnds s → HasEnds (refuse error s).0
refuse-HasEnds error s good = tables-HasEnds s (refuse error s).0 refl refl good

clear-HasEnds : (s : Files) → HasEnds s → HasEnds (clear s)
clear-HasEnds s good = tables-HasEnds s (clear s) refl refl good

disk-HasEnds : (s : Files) (d : Disk) → HasEnds s → HasEnds (record s { disk = d })
disk-HasEnds s d good = tables-HasEnds s (record s { disk = d }) refl refl good

abbrev Sound : Files × ℤ → Type 0
Sound r = HasEnds r.0

make_pipe-HasEnds :
    (s : Files) (o : Option ℕ) (slots : Option (ℕ × ℕ))
    → HasEnds s
    → free_pipe s ≡ o
    → two_slots s ≡ slots
    → HasEnds (make_pipe s o slots).0
make_pipe-HasEnds s none slots good e e' = refuse-HasEnds err_nospc s good
make_pipe-HasEnds s (some p) none good e e' = refuse-HasEnds err_nospc s good
make_pipe-HasEnds s (some p) (some (r, w)) good e e' =
    let f = first_from-IsFirst app_pipe_count 0 (λ i. not (s.pipes i).used) p e in
    clear-HasEnds (open_pipe s p r w) (
      HasEnds-opened s good p r w (omega (arith, f.below)) (ground (arith, f.passes))
        (two_slots-AreSlots s r w e'))

pub abi_pipe-HasEnds : (is_null : Bool) (s : Files) → HasEnds s → HasEnds (abi_pipe is_null s).0
unfolding abi_pipe
abi_pipe-HasEnds true s good = refuse-HasEnds err_inval s good
abi_pipe-HasEnds false s good = make_pipe-HasEnds s (free_pipe s) (two_slots s) good refl refl

pub abi_dup2-HasEnds :
    (old_fd new_fd : ℤ) (s : Files) → HasEnds s → HasEnds (abi_dup2 old_fd new_fd s).0
unfolding abi_dup2
abi_dup2-HasEnds old_fd new_fd s good = elim (Bool-cases (not (is_std new_fd))) [
  | inl e ↦ rw e (refuse-HasEnds err_inval s good)
  | inr e ↦ elim (Bool-cases (same_fd old_fd new_fd)) [
    | inl e' ↦ rw (e, e') (tables-HasEnds s _ refl refl good)
    | inr e' ↦ elim (Bool-cases (not (app_fd_open s.fds old_fd))) [
      | inl e'' ↦ rw (e, e', e'') (refuse-HasEnds err_inval s good)
      | inr e'' ↦ rw (e, e', e'') (tables-HasEnds s _ refl refl good)
    ]
  ]
]

-- A handle that is no end of a pipe takes the first closed place.
open_handle-HasEnds :
    (s : Files) (handle : AppFd)
    → ((side : Side) → handle.kind ≢ side_kind side)
    → HasEnds s
    → HasEnds (open_handle s handle).0
unfolding open_handle
open_handle-HasEnds s handle no_kind good =
    elim (Option-cases (first_from app_fd_count 0 (is_closed s))) [
      | inl e ↦ rw e (refuse-HasEnds err_nospc s good)
      | inr (fd, e) ↦
          let f = first_from-IsFirst app_fd_count 0 (is_closed s) fd e in
          rw e (
            clear-HasEnds (with_fd s fd handle) (
              HasEnds-replaced s good fd handle
                (λ side p is_end. no_end side p fd (ground (arith, f.passes)) is_end)
                (λ side opened. no_kind side)))
    ]
  where
    no_end : (side : Side) (p fd : ℕ) → (s.fds fd).opened ≡ false → ¬ IsEnd s side p fd
    no_end side p fd shut is_end = cc (shut, is_end.1)

after_truncate-HasEnds :
    (s : Files) (h : Header) (index flags : ℕ) (io : Io (Unit {0}))
    → HasEnds s
    → HasEnds (after_truncate s h index flags io).0
after_truncate-HasEnds s h index flags (failed d) good =
    refuse-HasEnds err_io (record s { disk = d }) (disk-HasEnds s d good)
after_truncate-HasEnds s h index flags (ok d _) good =
    open_handle-HasEnds (record s { disk = d }) (pfs_fd flags (pfs_entry_length h index) index)
      pfs-no_side (disk-HasEnds s d good)

truncate_entry-HasEnds :
    (s : Files) (d : Disk) (h : Header) (name : List ℕ) (index flags now : ℕ)
    → HasEnds s
    → HasEnds (truncate_entry s d h name index flags now).0
truncate_entry-HasEnds s d h name index flags now good =
    either_branch Sound (has_flag flags fd_truncate) _ _
      (λ e.
        after_truncate-HasEnds s (truncated h index name now) index flags
          (write_header d (truncated h index name now)) good)
      (λ e. after_truncate-HasEnds s h index flags (ok d tt) good)

after_create-HasEnds :
    (s : Files) (h : Header) (name : List ℕ) (index flags now : ℕ) (io : Io (Unit {0}))
    → HasEnds s
    → HasEnds (after_create s h name index flags now io).0
after_create-HasEnds s h name index flags now (failed d) good =
    refuse-HasEnds err_io (record s { disk = d }) (disk-HasEnds s d good)
after_create-HasEnds s h name index flags now (ok d _) good =
    truncate_entry-HasEnds s d h name index flags now good

after_opening-HasEnds :
    (s : Files) (d : Disk) (h : Header) (name : List ℕ) (flags now : ℕ) (o : Opening)
    → HasEnds s
    → HasEnds (after_opening s d h name flags now o).0
after_opening-HasEnds s d h name flags now (refused error) good =
    refuse-HasEnds error (record s { disk = d }) (disk-HasEnds s d good)
after_opening-HasEnds s d h name flags now (existing index) good =
    truncate_entry-HasEnds s d h name index flags now good
after_opening-HasEnds s d h name flags now (created index h') good =
    after_create-HasEnds s h' name index flags now (write_header d h') good

after_header-HasEnds :
    (s : Files) (name : List ℕ) (flags now now' now'' : ℕ) (io : Io Header)
    → HasEnds s
    → HasEnds (after_header s name flags now now' now'' io).0
after_header-HasEnds s name flags now now' now'' (failed d) good =
    refuse-HasEnds err_io (record s { disk = d }) (disk-HasEnds s d good)
after_header-HasEnds s name flags now now' now'' (ok d h) good =
    after_opening-HasEnds s d h name flags now'' (open_entry h name flags now now') good

abi_open_pfs-HasEnds :
    (name : List ℕ) (flags now now' now'' : ℕ) (s : Files)
    → HasEnds s
    → HasEnds (abi_open_pfs name flags now now' now'' s).0
unfolding abi_open_pfs
abi_open_pfs-HasEnds name flags now now' now'' s good =
    either_branch Sound (not (valid_pfs_path name) || has_bad_flags flags) (refuse err_inval s) _
      (λ e. refuse-HasEnds err_inval s good)
      (λ e. after_header-HasEnds s name flags now now' now'' (read_header_silent s.disk) good)

open_data-HasEnds : (s : Files) (o : Option (List ℕ)) → HasEnds s → HasEnds (open_data s o).0
open_data-HasEnds s none good = refuse-HasEnds err_noent s good
open_data-HasEnds s (some bytes) good = open_handle-HasEnds s (boot_fd bytes) boot_fs-no_side good

open_path-HasEnds :
    (boot : BootFs) (path : List ℕ) (flags now now' now'' : ℕ) (s : Files) (o : Option (List ℕ))
    → HasEnds s
    → HasEnds (open_path boot path flags now now' now'' s o).0
open_path-HasEnds boot path flags now now' now'' s (some name) good =
    abi_open_pfs-HasEnds name flags now now' now'' s good
open_path-HasEnds boot path flags now now' now'' s none good =
    either_branch Sound (starts_with path pfs_prefix) (refuse err_inval s) _
      (λ e. refuse-HasEnds err_inval s good)
      (λ e.
        either_branch Sound (has_flag flags fd_write) (refuse err_inval s) _
          (λ e'. refuse-HasEnds err_inval s good)
          (λ e'. open_data-HasEnds s (find_data boot path) good))

open_checked-HasEnds :
    (boot : BootFs) (flags now now' now'' : ℕ) (s : Files) (o : Option (List ℕ))
    → HasEnds s
    → HasEnds (open_checked boot flags now now' now'' s o).0
open_checked-HasEnds boot flags now now' now'' s none good = refuse-HasEnds err_inval s good
open_checked-HasEnds boot flags now now' now'' s (some path) good =
    open_path-HasEnds boot path flags now now' now'' s
      (pfs_resolve_path (current_process s.kernel).cwd path) good

pub abi_open-HasEnds :
    (boot : BootFs) (path : List ℕ) (flags now now' now'' : ℕ) (s : Files)
    → HasEnds s
    → HasEnds (abi_open boot path flags now now' now'' s).0
unfolding abi_open
abi_open-HasEnds boot path flags now now' now'' s good =
    open_checked-HasEnds boot flags now now' now'' s (checked_app_slice path) good
