-- ===== src/Files/Ends.antt =====
-- kernel/src/main.rs: the ends of the pipes, and the calls that move no end.
use rymos.Prelude.{ℕ, ◌<◌, ◌≡◌, refl, sym, subst, ◌∙◌, Bool, true, update-all}
use rymos.Files.{
  Files, AppFd, AppFdKind, pipe_read, pipe_write, AppPipe, with_fd, with_pipe, app_fd_count,
  app_pipe_count,
}
use rymos.Files.Fifo.{IsPipe}

pub data Side : Type 0 where
  reader : Side
  writer : Side

abbrev pub side_kind : Side → AppFdKind
side_kind reader = pipe_read
side_kind writer = pipe_write

abbrev pub end_open : Side → AppPipe → Bool
end_open reader pipe = pipe.read_open
end_open writer pipe = pipe.write_open

-- The open handle `i` is that end of the pipe `p`.
abbrev pub IsEnd : Files → Side → ℕ → ℕ → Type 0
IsEnd s side p i =
    (i < app_fd_count)
    × ((s.fds i).opened ≡ true)
    × ((s.fds i).kind ≡ side_kind side)
    × ((s.fds i).pfs_index ≡ p)

-- The offsets of every pipe are in its buffer. An end that a handle stands for is open, in a pipe that
-- is in use, and no other handle stands for it; an open end has its handle. A pipe in use has an open
-- end.
pub record HasEnds (s : Files) : Type 0 where
  pub fits : (p : ℕ) → p < app_pipe_count → IsPipe (s.pipes p)
  pub ends :
      (side : Side) (p i : ℕ)
      → IsEnd s side p i
      → (p < app_pipe_count) × ((s.pipes p).used ≡ true) × (end_open side (s.pipes p) ≡ true)
  pub one : (side : Side) (p i j : ℕ) → IsEnd s side p i → IsEnd s side p j → i ≡ j
  pub has :
      (side : Side) (p : ℕ)
      → p < app_pipe_count
      → end_open side (s.pipes p) ≡ true
      → (i : ℕ) × IsEnd s side p i
  pub in_use :
      (p : ℕ)
      → p < app_pipe_count
      → (s.pipes p).used ≡ true
      → (side : Side) × (end_open side (s.pipes p) ≡ true)

-- The handles are open, and are of the kind and of the pipe, that they were.
abbrev pub SameFd : AppFd → AppFd → Type 0
SameFd f f' = (f'.opened ≡ f.opened) × (f'.kind ≡ f.kind) × (f'.pfs_index ≡ f.pfs_index)

abbrev pub SamePipe : AppPipe → AppPipe → Type 0
SamePipe q q' =
    (q'.used ≡ q.used)
    × (q'.read_open ≡ q.read_open)
    × (q'.write_open ≡ q.write_open)
    × (IsPipe q → IsPipe q')

pub record SameEnds (s s' : Files) : Type 0 where
  pub fds : (i : ℕ) → SameFd (s.fds i) (s'.fds i)
  pub pipes : (p : ℕ) → SamePipe (s.pipes p) (s'.pipes p)

end_open-same : (side : Side) (q q' : AppPipe) → SamePipe q q' → end_open side q' ≡ end_open side q
end_open-same reader q q' (used, r, w, fits) = r
end_open-same writer q q' (used, r, w, fits) = w

module _ (s s' : Files) (same : SameEnds s s') where
  IsEnd-back : (side : Side) (p i : ℕ) → IsEnd s' side p i → IsEnd s side p i
  IsEnd-back side p i (l, opened, kind, at) =
      let (a, b, c) = same.fds i in (l, sym a ∙ opened, sym b ∙ kind, sym c ∙ at)

  IsEnd-there : (side : Side) (p i : ℕ) → IsEnd s side p i → IsEnd s' side p i
  IsEnd-there side p i (l, opened, kind, at) =
      let (a, b, c) = same.fds i in (l, a ∙ opened, b ∙ kind, c ∙ at)

  pub HasEnds-same : HasEnds s → HasEnds s'
  HasEnds-same good = record {
    fits = λ p l. (same.pipes p).3 (good.fits p l);
    ends = λ side p i there.
        let (l, used, opened) = good.ends side p i (IsEnd-back side p i there) in
        (
          l,
          (same.pipes p).0 ∙ used,
          end_open-same side (s.pipes p) (s'.pipes p) (same.pipes p) ∙ opened,
        );
    one = λ side p i j a b. good.one side p i j (IsEnd-back side p i a) (IsEnd-back side p j b);
    has = λ side p l opened.
        let (i, there) =
          good.has side p l
            (sym (end_open-same side (s.pipes p) (s'.pipes p) (same.pipes p)) ∙ opened) in
        (i, IsEnd-there side p i there);
    in_use = λ p l used.
        let (side, opened) = good.in_use p l (sym ((same.pipes p).0) ∙ used) in
        (side, end_open-same side (s.pipes p) (s'.pipes p) (same.pipes p) ∙ opened);
  }

pub SameEnds-refl : (s : Files) → SameEnds s s
SameEnds-refl s = record {
  fds = λ i. (refl, refl, refl);
  pipes = λ p. (refl, refl, refl, λ fits. fits);
}

-- Neither table changes.
pub SameEnds-tables : (s s' : Files) → s'.fds ≡ s.fds → s'.pipes ≡ s.pipes → SameEnds s s'
SameEnds-tables s s' fds pipes = record {
  fds = λ i. subst (λ t. SameFd (s.fds i) (t i)) (sym fds) (refl, refl, refl);
  pipes = λ p. subst (λ t. SamePipe (s.pipes p) (t p)) (sym pipes) (refl, refl, refl, λ fits. fits);
}

-- A handle changes, but not what it stands for.
pub SameEnds-with_fd :
    (s : Files) (index : ℕ) (handle : AppFd)
    → SameFd (s.fds index) handle
    → SameEnds s (with_fd s index handle)
SameEnds-with_fd s index handle same = record {
  fds = update-all (λ i f. SameFd (s.fds i) f) s.fds index handle same (λ i ne. (refl, refl, refl));
  pipes = λ p. (refl, refl, refl, λ fits. fits);
}

-- The contents of a pipe change, but not its ends.
pub SameEnds-with_pipe :
    (s : Files) (index : ℕ) (pipe : AppPipe)
    → SamePipe (s.pipes index) pipe
    → SameEnds s (with_pipe s index pipe)
SameEnds-with_pipe s index pipe same = record {
  fds = λ i. (refl, refl, refl);
  pipes =
      update-all (λ p q. SamePipe (s.pipes p) q) s.pipes index pipe same
        (λ p ne. (refl, refl, refl, λ fits. fits));
}

pub SameEnds-trans : (a b c : Files) → SameEnds a b → SameEnds b c → SameEnds a c
SameEnds-trans a b c ab bc = record {
  fds = λ i. let (p, q, r) = ab.fds i in let (p', q', r') = bc.fds i in (p' ∙ p, q' ∙ q, r' ∙ r);
  pipes = λ i.
      let (p, q, r, f) = ab.pipes i in
      let (p', q', r', f') = bc.pipes i in (p' ∙ p, q' ∙ q, r' ∙ r, λ fits. f' (f fits));
}
