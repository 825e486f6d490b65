-- ===== src/Lib.antt =====
-- RYMOS: the process table, the pre-emptive scheduler, the file systems, the open files and pipes and
-- the physical page allocator of the kernel, kernel/src/main.rs.
--
-- The kernel runs at most sixteen processes, the slots of `PROCESS_TABLE`, beside its console, which
-- has the idle slot at the end. A timer tick (`maybe_preempt`) and the calls that yield
-- (`run_scheduler_step`) choose the next ready slot; `spawn_prepared` and `run_program` create
-- processes, `process_trampoline` ends them, and `wait_for_pid_blocking` and
-- `wait_for_any_child_blocking` collect their exit status. Files live in RYMFS5, whose header is a
-- table of 256 entries with the full path, the size and the extents of a file each.
--
-- Prelude holds the shared helpers: fixed-size arrays as functions of the index (Prelude/Tables),
-- byte slices as lists (Prelude/Bytes), byte arrays (Prelude/Memory), little-endian words
-- (Prelude/Words) and signed integers (Prelude/Int). Errors holds the `ERR_` numbers.
--
-- Process models the `Process` record, the table and the functions that search and change it
-- (`process_spawn_with_argv`, `process_wait_by_pid`, `wake_waiters_for`, ...), by the source's names.
-- An array with a length field is a list. A loop over the slots that returns at the first hit is
-- `first_from`; a loop that changes every slot by itself is a function of the slot. Process/Mappings
-- has the records of the pages that a process has mapped.
--
-- Scheduler models the scheduler's state (`Kernel`: the table, the current index, the page table
-- register and the queue of stacks to reclaim) and one function for each region that runs with
-- interrupts off. Scheduler/Calls has the system calls above it; a blocking wait is its round, which
-- returns a result or blocks the caller. Scheduler/Steps puts them together as a step relation, with
-- each call that creates or ends a process as one step. Scheduler/Interleaving cuts these calls and
-- `block_current_on` into their writes, and its step relation lets the timer fall between any two; a
-- process is then in a phase of a call, with the writes that are left.
--
-- Pfs/Header models the byte layout of an entry and its readers and writers, Pfs/Directory the
-- operations on names, with `lookup` as the abstract view of a header: the entry under a name.
-- Pfs/Extents models the allocation of sectors (`pfs_find_free_run`, `pfs_grow_extents`, and the
-- changes of the header in `pfs_ensure_file_capacity` and `pfs_update_size`), with the sectors that
-- files take as the abstract view. Pfs/Paths models the resolution of a program's path
-- (`pfs_resolve_path`), whose abstract view is a stack of components.
--
-- Pages models the physical page allocator, `PhysPageAllocator`, with the pages that it has given.
--
-- Pfs/Disk models the header and the data on the disk (`read_header_silent`, `write_header`,
-- `pfs_read_at`, `pfs_write_at`, `pfs_zero_range`, `pfs_ensure_file_capacity`, `pfs_update_size`). The
-- disk is one array of bytes with the drive's answer to each command, and the abstract view of a file is
-- the byte of the disk where each of its positions lies.
--
-- Files models the tables of open files and pipes (`APP_FDS`, `APP_PIPES`) and the calls on them,
-- with a queue of bytes as the abstract view of a pipe.
--
-- Ramfs models the table of files in memory behind the console's commands (`RamFs`), whose abstract
-- view is the content under each name.
--
-- Bootfs models the archive of files that the boot loader leaves in memory (`BootFs`) and the calls that
-- read it.
--
-- Environment models the table of overrides and deletions that each process has over the constant
-- `ENV`.
--
-- Numbers are natural; fields of fixed width keep their wrap-around (`NEXT_PID`, the addresses, the
-- bytes of the header). Most loops run over fixed ranges. The search for a free run has a fuel of one
-- more than the disk's sectors, and growth a fuel of the sectors asked for, since a blocked candidate
-- grows and a run is never empty. A path has at most one component for each byte. What the paging
-- code, the ELF loader and the clock return is an argument of the functions that use it.
--
-- Not modelled: page tables, drivers, interrupt entry and the console, which are machine access; the
-- boot loader, the user runtime and the programs.
pub mod Prelude
pub mod Errors
pub mod Process
pub mod Scheduler
pub mod Pfs
pub mod Pages
pub mod Environment
pub mod Files
pub mod Ramfs
pub mod Bootfs
