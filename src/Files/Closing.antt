-- ===== src/Files/Closing.antt =====
-- kernel/src/main.rs: `abi_close` and the ends of pipes.
use rymos.Prelude.{
  ℕ, ◌<◌, ◌≡◌, ◌≢◌, refl, sym, ◌∙◌, inl, inr, not, true, Option, none, some, arith, Bool-cases,
}
use rymos.Prelude.Int.{ℤ, pos, negsuc}
use rymos.Files.{
  Files, AppFdKind, empty, boot_fs, pfs, pipe_read, pipe_write, empty_fd, with_fd, app_fd_count,
  app_fd_index, is_std, is_negative, set_std_fd,
}
use rymos.Files.Calls.{handle_at}
use rymos.Files.Control.{close_end, close_handle, abi_close, with_std, std_number}
use rymos.Files.Ends.{Side, reader, writer, side_kind, HasEnds, HasEnds-same, SameEnds-tables}
use rymos.Files.Sides.{HasEnds-replaced}
use rymos.Files.Sides.{empty-no_side, boot_fs-no_side, pfs-no_side}
use rymos.Files.ClosedEnds.{HasEnds-closed}

-- A handle that is no end of a pipe is closed.
free_handle-HasEnds :
    (s : Files) (index : ℕ)
    → HasEnds s
    → ((side : Side) → (s.fds index).kind ≢ side_kind side)
    → HasEnds (with_fd s index empty_fd)
free_handle-HasEnds s index good no_kind =
    HasEnds-replaced s good index empty_fd (λ side p e. no_kind side e.2) (λ side e. absurd (cc e))

close_handle-HasEnds :
    (s : Files) (index : ℕ)
    → HasEnds s
    → index < app_fd_count
    → (s.fds index).opened ≡ true
    → (kind : AppFdKind) → (s.fds index).kind ≡ kind
    → HasEnds (with_fd (close_end s (s.fds index) kind) index empty_fd)
close_handle-HasEnds s index good l opened empty same =
    free_handle-HasEnds s index good (λ side e. empty-no_side side (sym same ∙ e))
close_handle-HasEnds s index good l opened boot_fs same =
    free_handle-HasEnds s index good (λ side e. boot_fs-no_side side (sym same ∙ e))
close_handle-HasEnds s index good l opened pfs same =
    free_handle-HasEnds s index good (λ side e. pfs-no_side side (sym same ∙ e))
close_handle-HasEnds s index good l opened pipe_read same =
    HasEnds-closed s good index ((s.fds index).pfs_index) reader (l, opened, same, refl)
close_handle-HasEnds s index good l opened pipe_write same =
    HasEnds-closed s good index ((s.fds index).pfs_index) writer (l, opened, same, refl)

app_fd_index-bound : (fd : ℤ) (index : ℕ) → app_fd_index fd ≡ some index → index < app_fd_count
unfolding app_fd_index
app_fd_index-bound (pos n) index e = ground (arith, e)
app_fd_index-bound (negsuc n) index e = absurd (cc e)

handle-HasEnds :
    (s : Files) (o : Option ℕ)
    → HasEnds s
    → ((index : ℕ) → o ≡ some index → index < app_fd_count)
    → HasEnds (close_handle s (handle_at s o) o).0
handle-HasEnds s none good bound = good
handle-HasEnds s (some index) good bound = elim (Bool-cases (not (s.fds index).opened)) [
  | inl shut ↦ rw shut good
  | inr there ↦ rw there (
      close_handle-HasEnds s index good (bound index refl) (ground (arith, there))
        ((s.fds index).kind) refl)
]

pub abi_close-HasEnds : (fd : ℤ) (s : Files) → HasEnds s → HasEnds (abi_close fd s).0
unfolding abi_close
abi_close-HasEnds fd s good = elim (Bool-cases (is_negative fd)) [
  | inl e ↦ rw e good
  | inr e ↦ elim (Bool-cases (is_std fd)) [
    | inl e' ↦
        rw (e, e')
          (HasEnds-same s (with_std s (λ std. set_std_fd std (std_number fd) fd))
            (SameEnds-tables s _ refl refl) good)
    | inr e' ↦ rw (e, e') (handle-HasEnds s (app_fd_index fd) good (app_fd_index-bound fd))
  ]
]
