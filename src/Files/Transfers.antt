-- ===== src/Files/Transfers.antt =====
-- kernel/src/main.rs: `abi_read`, `abi_write_fd` and `abi_seek` move no end of a pipe.
use rymos.Prelude.{
  ℕ, ◌+◌, ◌-◌, ◌%◌, ◌^◌, ◌≡◌, refl, sym, subst, inl, inr, ◌&&◌, ◌||◌, not, min, Bool, Option, none,
  some, List, ◌++◌, arith, Bool-cases, either_branch, ◌==◌, length, ltb, update_self,
}
use rymos.Prelude.Int.{ℤ, as_isize}
use rymos.Pfs.Disk.{Io, failed, ok, pfs_read_at, pfs_write_at, pfs_update_size, pfs_file_max}
use rymos.Files.{
  Files, AppFd, AppFdKind, empty, boot_fs, pfs, pipe_read, pipe_write, AppPipe, with_fd, read_pipe,
  write_pipe, app_fd_index, app_resolve_fd, is_negative, app_pipe_buffer_size,
}
use rymos.Files.Calls.{
  ReadResult, no_read, read_from_pipe, read_pfs, read_kind, read_file, read_open_handle,
  read_handle, handle_at, is_fd, abi_read, no_write, write_to_pipe, write_size, write_pfs, placed,
  write_file, write_kind, write_handle, abi_write_fd,
}
use rymos.Files.Control.{past_end, seek_handle, abi_seek}
use rymos.Files.Fifo.{read_pipe-Dequeued}
use rymos.Files.Ends.{
  SameFd, SamePipe, SameEnds, SameEnds-refl, SameEnds-tables, SameEnds-with_fd, SameEnds-with_pipe,
  SameEnds-trans,
}

abbrev SameFlags : AppPipe → AppPipe → Type 0
SameFlags q q' = (q'.used ≡ q.used) × (q'.read_open ≡ q.read_open) × (q'.write_open ≡ q.write_open)

read_pipe-flags : (pipe : AppPipe) (n : ℕ) → SameFlags pipe (read_pipe pipe n).0
unfolding read_pipe
read_pipe-flags pipe n = elim (Bool-cases (min n (pipe.len - pipe.read_offset) == 0)) [
  | inl e ↦ rw e (refl, refl, refl)
  | inr e ↦ elim (Bool-cases (pipe.read_offset + min n (pipe.len - pipe.read_offset) == pipe.len)) [
    | inl e' ↦ rw (e, e') (refl, refl, refl)
    | inr e' ↦ rw (e, e') (refl, refl, refl)
  ]
]

read_pipe-same : (pipe : AppPipe) (n : ℕ) → SamePipe pipe (read_pipe pipe n).0
read_pipe-same pipe n =
    let (used, r, w) = read_pipe-flags pipe n in
    (used, r, w, λ fits. (read_pipe-Dequeued pipe n fits).0)

abbrev Kept : AppPipe → Option (AppPipe × ℕ) → Type 0
Kept pipe none = Unit {0}
Kept pipe (some (pipe', n)) = SamePipe pipe pipe'

write_pipe-Kept : (pipe : AppPipe) (bytes : List ℕ) → Kept pipe (write_pipe pipe bytes)
unfolding write_pipe
write_pipe-Kept pipe bytes =
    elim (Bool-cases
      (min (length bytes) (app_pipe_buffer_size - pipe.len) == 0 && not (length bytes == 0))) [
        | inl full ↦ rw full tt
        | inr room ↦ rw room (refl, refl, refl, λ fits. (omega (arith, fits), omega (arith, fits)))
      ]

-- The calls that read.
abbrev ReadKeeps : Files → ReadResult → Type 0
ReadKeeps s r = SameEnds s r.0

abbrev Keeps : Files → Files × ℤ → Type 0
Keeps s r = SameEnds s r.0

read_from_pipe-same : (s : Files) (p n : ℕ) → SameEnds s (read_from_pipe s p n).0
read_from_pipe-same s p n = elim (Bool-cases (not (s.pipes p).used || not (s.pipes p).read_open)) [
  | inl shut ↦ rw shut (SameEnds-refl s)
  | inr there ↦
      rw there (SameEnds-with_pipe s p (read_pipe (s.pipes p) n).0 (read_pipe-same (s.pipes p) n))
]

read_pfs-same :
    (s : Files) (index : ℕ) (handle : AppFd) (n : ℕ) (io : Io (List ℕ))
    → SameFd (s.fds index) handle
    → SameEnds s (read_pfs s index handle n io).0
read_pfs-same s index handle n (failed d) same = SameEnds-tables s _ refl refl
read_pfs-same s index handle n (ok d bytes) same =
    SameEnds-trans s (record s { disk = d }) _ (SameEnds-tables s _ refl refl)
      (SameEnds-with_fd (record s { disk = d }) index (record handle { offset = handle.offset + n })
        same)

read_kind-same :
    (s : Files) (index : ℕ) (handle : AppFd) (n : ℕ) (kind : AppFdKind)
    → SameFd (s.fds index) handle
    → SameEnds s (read_kind s index handle n kind).0
read_kind-same s index handle n empty same = SameEnds-refl s
read_kind-same s index handle n boot_fs same =
    SameEnds-with_fd s index (record handle { offset = handle.offset + n }) same
read_kind-same s index handle n pfs same =
    read_pfs-same s index handle n (pfs_read_at handle.pfs_index handle.offset n s.disk) same
read_kind-same s index handle n pipe_read same = SameEnds-refl s
read_kind-same s index handle n pipe_write same = SameEnds-refl s

read_file-same : (s : Files) (index n : ℕ) → SameEnds s (read_file s index (s.fds index) n).0
read_file-same s index n =
    either_branch (ReadKeeps s) _ _ _ (λ e. SameEnds-refl s)
      (λ e.
        read_kind-same s index (s.fds index) (min n ((s.fds index).len - (s.fds index).offset))
          ((s.fds index).kind) (refl, refl, refl))

read_open_handle-same :
    (s : Files) (index n : ℕ) (kind : AppFdKind)
    → SameEnds s (read_open_handle s index (s.fds index) n kind).0
read_open_handle-same s index n empty = read_file-same s index n
read_open_handle-same s index n boot_fs = read_file-same s index n
read_open_handle-same s index n pfs = read_file-same s index n
read_open_handle-same s index n pipe_read = read_from_pipe-same s ((s.fds index).pfs_index) n
read_open_handle-same s index n pipe_write = read_file-same s index n

read_handle-same :
    (s : Files) (n : ℕ) (o : Option ℕ) → SameEnds s (read_handle s (handle_at s o) n o).0
read_handle-same s n none = SameEnds-refl s
read_handle-same s n (some index) =
    either_branch (ReadKeeps s) _ _ _ (λ e. read_open_handle-same s index n ((s.fds index).kind))
      (λ e. SameEnds-refl s)

pub abi_read-same :
    (is_null : Bool) (typed : List ℕ) (fd : ℤ) (n : ℕ) (s : Files)
    → SameEnds s (abi_read is_null typed fd n s).0
unfolding abi_read
abi_read-same is_null typed fd n s =
    either_branch (ReadKeeps s) (is_negative resolved || is_null) (no_read s) _
      (λ e. SameEnds-refl s)
      (λ e.
        either_branch (ReadKeeps s) (is_fd 0 resolved) (s, typed, as_isize (length typed))
          (read_handle s (handle_at s (app_fd_index resolved)) n (app_fd_index resolved))
          (λ e'. SameEnds-refl s) (λ e'. read_handle-same s n (app_fd_index resolved)))
  where
    resolved : ℤ
    resolved = app_resolve_fd s.kernel fd

-- The calls that write.
write_to_pipe-same :
    (s : Files) (p : ℕ) (o : Option (AppPipe × ℕ))
    → Kept (s.pipes p) o
    → SameEnds s (write_to_pipe s p o).0
write_to_pipe-same s p none kept = SameEnds-refl s
write_to_pipe-same s p (some (pipe, n)) kept = SameEnds-with_pipe s p pipe kept

write_size-same : (s : Files) (n : ℕ) (io : Io (Unit {0})) → SameEnds s (write_size s n io).0
write_size-same s n (failed d) = SameEnds-tables s _ refl refl
write_size-same s n (ok d _) = SameEnds-tables s _ refl refl

write_pfs-same :
    (s : Files) (index : ℕ) (handle : AppFd) (n now : ℕ) (io : Io (Unit {0}))
    → SameFd (s.fds index) handle
    → SameEnds s (write_pfs s index handle n now io).0
write_pfs-same s index handle n now (failed d) same = SameEnds-tables s _ refl refl
write_pfs-same s index handle n now (ok d _) same =
    either_branch (Keeps s) (ltb handle.len end)
      (write_size (with_fd s index grown) n (pfs_update_size handle.pfs_index end now d))
      (with_fd (record s { disk = d }) index (record handle { offset = end }), as_isize n)
      (λ e.
        SameEnds-trans s (with_fd s index grown) _ (SameEnds-with_fd s index grown same)
          (write_size-same (with_fd s index grown) n (pfs_update_size handle.pfs_index end now d)))
      (λ e.
        SameEnds-trans s (record s { disk = d }) _ (SameEnds-tables s _ refl refl)
          (SameEnds-with_fd (record s { disk = d }) index (record handle { offset = end }) same))
  where
    end : ℕ
    end = (handle.offset + n) % 2 ^ 64

    grown : AppFd
    grown = record handle { offset = end; len = end }

write_file-same :
    (s : Files) (index : ℕ) (handle : AppFd) (bytes : List ℕ) (now : ℕ)
    → SameFd (s.fds index) handle
    → SameEnds s (write_file s index handle bytes now).0
write_file-same s index handle bytes now same =
    either_branch (Keeps s) (ltb pfs_file_max ((handle.offset + length bytes) % 2 ^ 64))
      (no_write (with_fd s index handle))
      (write_pfs (with_fd s index handle) index handle (length bytes) now
        (pfs_write_at handle.pfs_index handle.offset bytes now s.disk))
      (λ e. SameEnds-with_fd s index handle same)
      (λ e. SameEnds-trans s (with_fd s index handle) _ (SameEnds-with_fd s index handle same) (
        write_pfs-same (with_fd s index handle) index handle (length bytes) now _
          (subst (λ f. SameFd f handle) (sym (update_self s.fds index handle)) (refl, refl, refl))))

write_kind-same :
    (s : Files) (index : ℕ) (bytes : List ℕ) (now : ℕ) (kind : AppFdKind)
    → SameEnds s (write_kind s index (s.fds index) bytes now kind).0
write_kind-same s index bytes now empty = SameEnds-refl s
write_kind-same s index bytes now boot_fs = SameEnds-refl s
write_kind-same s index bytes now pfs =
    write_file-same s index (placed (s.fds index)) bytes now (refl, refl, refl)
write_kind-same s index bytes now pipe_read = SameEnds-refl s
write_kind-same s index bytes now pipe_write =
    let p : ℕ = (s.fds index).pfs_index in
    either_branch (Keeps s) _ _ _
      (λ e.
        write_to_pipe-same s p (write_pipe (s.pipes p) bytes) (write_pipe-Kept (s.pipes p) bytes))
      (λ e. SameEnds-refl s)

write_handle-same :
    (s : Files) (bytes : List ℕ) (now : ℕ) (o : Option ℕ)
    → SameEnds s (write_handle s (handle_at s o) bytes now o).0
write_handle-same s bytes now none = SameEnds-refl s
write_handle-same s bytes now (some index) =
    either_branch (Keeps s) _ _ _ (λ e. write_kind-same s index bytes now ((s.fds index).kind))
      (λ e. SameEnds-refl s)

pub abi_write_fd-same :
    (is_null : Bool) (fd : ℤ) (bytes : List ℕ) (now : ℕ) (s : Files)
    → SameEnds s (abi_write_fd is_null fd bytes now s).0
unfolding abi_write_fd
abi_write_fd-same is_null fd bytes now s =
    either_branch (Keeps s) (is_negative resolved || is_null) (no_write s) _ (λ e. SameEnds-refl s)
      (λ e.
        either_branch (Keeps s) (is_fd 1 resolved || is_fd 2 resolved)
          (record s { console = s.console ++ bytes }, as_isize (length bytes))
          (write_handle s (handle_at s (app_fd_index resolved)) bytes now (app_fd_index resolved))
          (λ e'. SameEnds-tables s _ refl refl)
          (λ e'. write_handle-same s bytes now (app_fd_index resolved)))
  where
    resolved : ℤ
    resolved = app_resolve_fd s.kernel fd

seek_handle-same :
    (s : Files) (offset : ℕ) (o : Option ℕ) → SameEnds s (seek_handle s (handle_at s o) offset o).0
seek_handle-same s offset none = SameEnds-refl s
seek_handle-same s offset (some index) =
    elim (Bool-cases
      (not (s.fds index).opened || past_end (s.fds index) offset ((s.fds index).kind))) [
        | inl e ↦ rw e (SameEnds-refl s)
        | inr e ↦
            rw e (
              SameEnds-with_fd s index (record (s.fds index) { offset = offset })
                (refl, refl, refl))
      ]

pub abi_seek-same : (fd : ℤ) (offset : ℕ) (s : Files) → SameEnds s (abi_seek fd offset s).0
unfolding abi_seek
abi_seek-same fd offset s = elim (Bool-cases (is_negative fd)) [
  | inl e ↦ rw e (SameEnds-refl s)
  | inr e ↦ rw e (seek_handle-same s offset (app_fd_index fd))
]
