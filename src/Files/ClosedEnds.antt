-- ===== src/Files/ClosedEnds.antt =====
-- kernel/src/main.rs: an end of a pipe that is closed, and the other ends.
use rymos.Prelude.{
  ℕ, ◌<◌, ◌≡◌, ◌≢◌, refl, sym, ap, subst, ◌∙◌, inl, inr, true, false, arith, Bool-cases, update,
  update-all, update_self, update_other,
}
use native.Mathlib.Decide.{ℕ_discrete}
use rymos.Files.{Files, AppPipe, empty_fd, with_fd, with_pipe, app_fd_count, app_pipe_count}
use rymos.Files.Control.{close_read, close_write}
use rymos.Files.Fifo.{IsPipe}
use rymos.Files.Ends.{Side, reader, writer, side_kind, end_open, IsEnd, HasEnds}
use rymos.Files.Sides.{other, side-cases, side_kind-injective}

abbrev pub close_side : Side → AppPipe → AppPipe
close_side reader pipe = close_read pipe
close_side writer pipe = close_write pipe

-- What closing one side does to a pipe: the other side stays open, or the pipe is given back.
abbrev Closed : Side → AppPipe → AppPipe → Type 0
Closed side q q' =
    (IsPipe q → IsPipe q')
    × (end_open side q' ≡ false)
    × (end_open (other side) q' ≡ end_open (other side) q)
    × (q'.used ≡ true → end_open (other side) q' ≡ true)
    × (end_open (other side) q ≡ true → q.used ≡ true → q'.used ≡ true)

close_side-Closed : (side : Side) (q : AppPipe) → Closed side q (close_side side q)
close_side-Closed reader q = elim (Bool-cases q.write_open) [
  | inl e ↦ rw e ((λ fits. fits), refl, refl, (λ used. refl), λ opened used. used)
  | inr e ↦ rw e (
    (λ fits. (omega arith, omega arith)),
    refl,
    refl,
    (λ used. absurd (cc used)),
    λ opened used. absurd (cc opened),
  )
]
close_side-Closed writer q = elim (Bool-cases q.read_open) [
  | inl e ↦ rw e ((λ fits. fits), refl, refl, (λ used. refl), λ opened used. used)
  | inr e ↦ rw e (
    (λ fits. (omega arith, omega arith)),
    refl,
    refl,
    (λ used. absurd (cc used)),
    λ opened used. absurd (cc opened),
  )
]

-- An end of a pipe is closed.
module _ (s : Files) (good : HasEnds s) (index p : ℕ) (side : Side)
    (is_end : IsEnd s side p index) where
  q' : AppPipe
  q' = close_side side (s.pipes p)

  closed : Closed side (s.pipes p) q'
  unfolding q'
  closed = close_side-Closed side (s.pipes p)

  t : Files
  t = with_fd (with_pipe s p q') index empty_fd

  -- The ends that are left.
  left : (a : Side) (q i : ℕ) → IsEnd t a q i → (index ≢ i) × IsEnd s a q i
  unfolding t
  left a q i (l, opened, kind, at) = elim (ℕ_discrete index i) [
    | yes same ↦
        let now : t.fds i ≡ empty_fd =
          subst (λ i. update s.fds index empty_fd i ≡ empty_fd) same
            (update_self s.fds index empty_fd) in
        absurd (cc (ap (λ f. f.opened) now, opened))
    | no ne ↦ (
      ne,
      subst
          (λ f. (i < app_fd_count) × (f.opened ≡ true) × (f.kind ≡ side_kind a) × (f.pfs_index ≡ q))
          (update_other s.fds index i empty_fd ne) (l, opened, kind, at),
    )
  ]

  stays : (a : Side) (q i : ℕ) → index ≢ i → IsEnd s a q i → IsEnd t a q i
  unfolding t
  stays a q i ne e =
      subst
        (λ f. (i < app_fd_count) × (f.opened ≡ true) × (f.kind ≡ side_kind a) × (f.pfs_index ≡ q))
        (sym (update_other s.fds index i empty_fd ne)) e

  pipe_here : t.pipes p ≡ q'
  unfolding t
  pipe_here = update_self s.pipes p q'

  pipe_there : (q : ℕ) → p ≢ q → t.pipes q ≡ s.pipes q
  unfolding t
  pipe_there q ne = update_other s.pipes p q q' ne

  -- The index was the only handle of its end.
  not_side : (a : Side) (i : ℕ) → index ≢ i → IsEnd s a p i → a ≡ other side
  not_side a i ne e = elim (side-cases side a) [
    | inl same ↦ absurd (ne (good.one side p index i is_end (subst (λ a. IsEnd s a p i) same e)))
    | inr opposite ↦ opposite
  ]

  ends' :
      (a : Side) (q i : ℕ)
      → IsEnd t a q i
      → (q < app_pipe_count) × ((t.pipes q).used ≡ true) × (end_open a (t.pipes q) ≡ true)
  ends' a q i e =
      let (ne, old) = left a q i e in
      let (l, used, opened) = good.ends a q i old in
      elim (ℕ_discrete p q) [
        | no apart ↦
            subst (λ r. (q < app_pipe_count) × (r.used ≡ true) × (end_open a r ≡ true))
              (sym (pipe_there q apart)) (l, used, opened)
        | yes at ↦
            let opposite = not_side a i ne (subst (λ q. IsEnd s a q i) (sym at) old) in
            let was_open : end_open (other side) (s.pipes p) ≡ true =
              subst (λ a. end_open a (s.pipes p) ≡ true) opposite
                (subst (λ q. end_open a (s.pipes q) ≡ true) (sym at) opened) in
            let was_used : (s.pipes p).used ≡ true =
              subst (λ q. (s.pipes q).used ≡ true) (sym at) used in
            subst
              (λ q.
                (q < app_pipe_count) × ((t.pipes q).used ≡ true) × (end_open a (t.pipes q) ≡ true))
              at
              (subst (λ r. (p < app_pipe_count) × (r.used ≡ true) × (end_open a r ≡ true))
                (sym pipe_here)
                (
                  subst (λ q. q < app_pipe_count) (sym at) l,
                  closed.4 was_open was_used,
                  subst (λ a. end_open a q' ≡ true) (sym opposite) (closed.2 ∙ was_open),
                ))
      ]

  has' :
      (a : Side) (q : ℕ)
      → q < app_pipe_count
      → end_open a (t.pipes q) ≡ true
      → (i : ℕ) × IsEnd t a q i
  has' a q l opened = elim (ℕ_discrete p q) [
    | no apart ↦
        let (i, e) =
          good.has a q l (subst (λ r. end_open a r ≡ true) (pipe_there q apart) opened) in
        (i, stays a q i (λ same. apart (sym is_end.3 ∙ ap (λ i. (s.fds i).pfs_index) same ∙ e.3)) e)
    | yes at ↦
        let here : end_open a q' ≡ true =
          subst (λ r. end_open a r ≡ true) pipe_here
            (subst (λ q. end_open a (t.pipes q) ≡ true) (sym at) opened) in
        elim (side-cases side a) [
          | inl same ↦ absurd (cc (closed.1, subst (λ a. end_open a q' ≡ true) same here))
          | inr opposite ↦
              let was_open : end_open a (s.pipes q) ≡ true =
                subst (λ q. end_open a (s.pipes q) ≡ true) at
                  (subst (λ a. end_open a (s.pipes p) ≡ true) (sym opposite)
                    (sym closed.2 ∙ subst (λ a. end_open a q' ≡ true) opposite here)) in
              let (i, e) = good.has a q l was_open in
              (
                i,
                stays a q i
                    (λ same. kinds_differ (
                      sym opposite
                      ∙ side_kind-injective a side
                          (sym e.2 ∙ ap (λ i. (s.fds i).kind) (sym same) ∙ is_end.2)))
                    e,
              )
        ]
  ]
    where
      kinds_differ : other side ≢ side
      kinds_differ = differ side
        where
          differ : (side : Side) → other side ≢ side
          differ reader e = cc e
          differ writer e = cc e

  in_use' :
      (q : ℕ)
      → q < app_pipe_count
      → (t.pipes q).used ≡ true
      → (a : Side) × (end_open a (t.pipes q) ≡ true)
  in_use' q l used = elim (ℕ_discrete p q) [
    | no apart ↦
        let (a, opened) = good.in_use q l (subst (λ r. r.used ≡ true) (pipe_there q apart) used) in
        (a, subst (λ r. end_open a r ≡ true) (sym (pipe_there q apart)) opened)
    | yes at ↦
        let here = subst (λ q. (t.pipes q).used ≡ true) (sym at) used in
        (
          other side,
          subst (λ q. end_open (other side) (t.pipes q) ≡ true) at
              (subst (λ r. end_open (other side) r ≡ true) (sym pipe_here)
                (closed.3 (subst (λ r. r.used ≡ true) pipe_here here))),
        )
  ]

  fits' : (q : ℕ) → q < app_pipe_count → IsPipe (t.pipes q)
  unfolding t
  fits' =
      update-all (λ q r. q < app_pipe_count → IsPipe r) s.pipes p q' (λ l. closed.0 (good.fits p l))
        (λ q ne. good.fits q)

  pub HasEnds-closed :
      HasEnds (with_fd (with_pipe s p (close_side side (s.pipes p))) index empty_fd)
  unfolding t q'
  HasEnds-closed = record {
    fits = fits';
    ends = ends';
    one = λ a q i j e e'. good.one a q i j (left a q i e).1 (left a q j e').1;
    has = has';
    in_use = in_use';
  }
