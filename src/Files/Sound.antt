-- ===== src/Files/Sound.antt =====
-- kernel/src/main.rs: every call on open files and pipes, and what the boot starts with.
use rymos.Prelude.{ℕ, ◌<◌, ◌≡◌, ◌≢◌, refl, sym, subst, Bool, true, false, List, [], arith, lt→ltb}
use rymos.Prelude.Int.{ℤ}
use rymos.Scheduler.{Kernel}
use rymos.Pfs.Disk.{Disk}
use rymos.Files.{Files, empty_fd, empty_pipe, app_fd_count, app_pipe_count, app_close_all_fds}
use rymos.Files.Calls.{abi_read, abi_write_fd}
use rymos.Files.Control.{abi_pipe, abi_dup2, abi_seek, abi_close}
use rymos.Files.Fifo.{IsPipe}
use rymos.Files.Ends.{Side, reader, writer, end_open, HasEnds, HasEnds-same}
use rymos.Files.Transfers.{abi_read-same, abi_write_fd-same, abi_seek-same}
use rymos.Files.Closing.{abi_close-HasEnds}
use rymos.Bootfs.{BootFs}
use rymos.Files.Boot.{abi_open}
use rymos.Files.Handles.{tables-HasEnds, abi_pipe-HasEnds, abi_dup2-HasEnds, abi_open-HasEnds}

-- A call of a process on the tables, with the state that it leaves.
pub data Call : Files → Files → Type 0 where
  call_read :
      {s : Files} (is_null : Bool) (typed : List ℕ) (fd : ℤ) (n : ℕ)
      → Call s (abi_read is_null typed fd n s).0
  call_write :
      {s : Files} (is_null : Bool) (fd : ℤ) (bytes : List ℕ) (now : ℕ)
      → Call s (abi_write_fd is_null fd bytes now s).0
  call_seek : {s : Files} (fd : ℤ) (offset : ℕ) → Call s (abi_seek fd offset s).0
  call_close : {s : Files} (fd : ℤ) → Call s (abi_close fd s).0
  call_pipe : {s : Files} (is_null : Bool) → Call s (abi_pipe is_null s).0
  call_dup2 : {s : Files} (old_fd new_fd : ℤ) → Call s (abi_dup2 old_fd new_fd s).0
  call_open :
      {s : Files} (archive : BootFs) (path : List ℕ) (flags now now' now'' : ℕ)
      → Call s (abi_open archive path flags now now' now'' s).0
  close_all : {s : Files} → Call s (app_close_all_fds s)
  -- The rest of the kernel runs, which does not touch the tables.
  elsewhere : {s : Files} (k : Kernel) (d : Disk) → Call s (record s { kernel = k; disk = d })

pub data Reach : Files → Type 0 where
  boot :
      (k : Kernel) (d : Disk)
      → Reach (record {
        kernel = k;
        fds = λ _. empty_fd;
        pipes = λ _. empty_pipe;
        disk = d;
        console = [];
      })
  step : {s s' : Files} → Reach s → Call s s' → Reach s'

-- No handle is open and no pipe is in use.
all_closed-HasEnds :
    (s : Files)
    → ((i : ℕ) → i < app_fd_count → (s.fds i).opened ≡ false)
    → ((p : ℕ) → p < app_pipe_count → s.pipes p ≡ empty_pipe)
    → HasEnds s
all_closed-HasEnds s fds pipes = record {
  fits = λ p l. subst IsPipe (sym (pipes p l)) (omega arith, omega arith);
  ends = λ side p i e. absurd (cc (fds i e.0, e.1));
  one = λ side p i j e e'. absurd (cc (fds i e.0, e.1));
  has = λ side p l opened.
      absurd (shut side (subst (λ q. end_open side q ≡ true) (pipes p l) opened));
  in_use = λ p l used. absurd (cc (subst (λ q. q.used ≡ true) (pipes p l) used));
}
  where
    shut : (side : Side) → end_open side empty_pipe ≢ true
    shut reader e = cc e
    shut writer e = cc e

close_all-HasEnds : (s : Files) → HasEnds (app_close_all_fds s)
unfolding app_close_all_fds
close_all-HasEnds s =
    all_closed-HasEnds _ (λ i l. rw (lt→ltb i app_fd_count l) refl)
      (λ p l. rw (lt→ltb p app_pipe_count l) refl)

Call-HasEnds : {s s' : Files} → Call s s' → HasEnds s → HasEnds s'
Call-HasEnds {s} (call_read is_null typed fd n) good =
    HasEnds-same s _ (abi_read-same is_null typed fd n s) good
Call-HasEnds {s} (call_write is_null fd bytes now) good =
    HasEnds-same s _ (abi_write_fd-same is_null fd bytes now s) good
Call-HasEnds {s} (call_seek fd offset) good = HasEnds-same s _ (abi_seek-same fd offset s) good
Call-HasEnds {s} (call_close fd) good = abi_close-HasEnds fd s good
Call-HasEnds {s} (call_pipe is_null) good = abi_pipe-HasEnds is_null s good
Call-HasEnds {s} (call_dup2 old_fd new_fd) good = abi_dup2-HasEnds old_fd new_fd s good
Call-HasEnds {s} (call_open archive path flags now now' now'') good =
    abi_open-HasEnds archive path flags now now' now'' s good
Call-HasEnds {s} close_all good = close_all-HasEnds s
Call-HasEnds {s} (elsewhere k d) good = tables-HasEnds s _ refl refl good

-- Whatever calls the processes make on the tables of open files and pipes, one after the other in any
-- order, from the boot on: the offsets of every pipe are in its buffer; an end of a pipe that a handle stands for is open,
-- in a pipe that is in use, and no other handle stands for it; an open end has its handle, and a pipe
-- in use has an open end, so that no pipe is lost.
pub Reach-HasEnds : {s : Files} → Reach s → HasEnds s
Reach-HasEnds (boot k d) = all_closed-HasEnds _ (λ i l. refl) (λ p l. refl)
Reach-HasEnds (step before call) = Call-HasEnds call (Reach-HasEnds before)
