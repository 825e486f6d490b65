-- ===== src/Files/Opening.antt =====
-- kernel/src/main.rs: `abi_pipe` and `abi_open_pfs` and the ends of pipes.
use rymos.Prelude.{
  ℕ, suc, ◌-◌, ◌<◌, ◌≡◌, ◌≢◌, refl, sym, ap, subst, ◌∙◌, ◌⊎◌, inl, inr, true, false, Option, none,
  some, arith, update, update-all, update_self, update_other, first_from, first_from-IsFirst,
}
use native.Mathlib.Decide.{ℕ_discrete}
use rymos.Files.{
  Files, AppFd, pipe_read, pipe_write, AppPipe, app_fd_count, app_pipe_count, fd_read, fd_write,
}
use rymos.Files.Control.{
  is_closed, with_write_slot, second_slot, two_slots, new_pipe, pipe_fd, open_pipe,
}
use rymos.Files.Fifo.{IsPipe}
use rymos.Files.Ends.{Side, reader, writer, side_kind, end_open, IsEnd, HasEnds}
use rymos.Files.Sides.{}

-- Two closed handles.
pub record AreSlots (s : Files) (r w : ℕ) : Type 0 where
  pub reads : r < app_fd_count
  pub writes : w < app_fd_count
  pub apart : r ≢ w
  pub read_closed : (s.fds r).opened ≡ false
  pub write_closed : (s.fds w).opened ≡ false

pub two_slots-AreSlots : (s : Files) (r w : ℕ) → two_slots s ≡ some (r, w) → AreSlots s r w
unfolding two_slots
two_slots-AreSlots s r w e = first (first_from app_fd_count 0 (is_closed s)) refl e
  where
    second :
        (r' : ℕ)
        → first_from app_fd_count 0 (is_closed s) ≡ some r'
        → (o : Option ℕ) → first_from (app_fd_count - suc r') (suc r') (is_closed s) ≡ o
        → with_write_slot r' o ≡ some (r, w)
        → AreSlots s r w
    second r' found none e e' = absurd (cc e')
    second r' found (some w') e e' =
        let at_r : r' ≡ r = cc e' in
        let at_w : w' ≡ w = cc e' in
        let f = first_from-IsFirst app_fd_count 0 (is_closed s) r' found in
        let f' = first_from-IsFirst (app_fd_count - suc r') (suc r') (is_closed s) w' e in
        rw (← at_r, ← at_w)
          (record {
            reads = omega (arith, f.below);
            writes = omega (arith, f'.below, f.below);
            apart = λ same. omega (arith, same, f'.from);
            read_closed = ground (arith, f.passes);
            write_closed = ground (arith, f'.passes);
          })

    first :
        (o : Option ℕ)
        → first_from app_fd_count 0 (is_closed s) ≡ o
        → second_slot s o ≡ some (r, w)
        → AreSlots s r w
    first none found e = absurd (cc e)
    first (some r') found e =
        second r' found (first_from (app_fd_count - suc r') (suc r') (is_closed s)) refl e

-- A pipe that is not in use gets two handles.
module _ (s : Files) (good : HasEnds s) (p r w : ℕ) (bound : p < app_pipe_count)
    (unused : (s.pipes p).used ≡ false) (slots : AreSlots s r w) where
  t : Files
  t = open_pipe s p r w

  slot : Side → ℕ
  slot reader = r
  slot writer = w

  abbrev end_fd : Side → AppFd
  end_fd reader = pipe_fd pipe_read fd_read p
  end_fd writer = pipe_fd pipe_write fd_write p

  at_slot : (a : Side) → t.fds (slot a) ≡ end_fd a
  unfolding t slot
  at_slot reader =
      update_other (update s.fds r (end_fd reader)) w r (end_fd writer)
        (λ same. slots.apart (sym same))
      ∙ update_self s.fds r (end_fd reader)
  at_slot writer = update_self (update s.fds r (end_fd reader)) w (end_fd writer)

  elsewhere : (i : ℕ) → r ≢ i → w ≢ i → t.fds i ≡ s.fds i
  unfolding t
  elsewhere i r_ne w_ne =
      update_other (update s.fds r (end_fd reader)) w i (end_fd writer) w_ne
      ∙ update_other s.fds r i (end_fd reader) r_ne

  slot-bound : (a : Side) → slot a < app_fd_count
  unfolding slot
  slot-bound reader = slots.reads
  slot-bound writer = slots.writes

  new-IsEnd : (a : Side) → IsEnd t a p (slot a)
  new-IsEnd reader = rw (at_slot reader) (slot-bound reader, refl, refl, refl)
  new-IsEnd writer = rw (at_slot writer) (slot-bound writer, refl, refl, refl)

  -- The end of a slot is the slot's.
  slot-end : (a b : Side) (q : ℕ) → IsEnd t a q (slot b) → (a ≡ b) × (p ≡ q)
  slot-end reader reader q e = (refl, sym (ap (λ f. f.pfs_index) (at_slot reader)) ∙ e.3)
  slot-end reader writer q e = absurd (cc (ap (λ f. f.kind) (at_slot writer), e.2))
  slot-end writer reader q e = absurd (cc (ap (λ f. f.kind) (at_slot reader), e.2))
  slot-end writer writer q e = (refl, sym (ap (λ f. f.pfs_index) (at_slot writer)) ∙ e.3)

  closed_slot : (a b : Side) (q i : ℕ) → IsEnd s a q i → slot b ≢ i
  unfolding slot
  closed_slot a reader q i e same =
      cc (sym slots.read_closed ∙ ap (λ i. (s.fds i).opened) same ∙ e.1)
  closed_slot a writer q i e same =
      cc (sym slots.write_closed ∙ ap (λ i. (s.fds i).opened) same ∙ e.1)

  old_there : (a : Side) (q i : ℕ) → IsEnd s a q i → IsEnd t a q i
  unfolding slot
  old_there a q i e =
      subst
        (λ f. (i < app_fd_count) × (f.opened ≡ true) × (f.kind ≡ side_kind a) × (f.pfs_index ≡ q))
        (sym (elsewhere i (closed_slot a reader q i e) (closed_slot a writer q i e))) e

  ends-cases : (a : Side) (q i : ℕ) → IsEnd t a q i → ((slot a ≡ i) × (p ≡ q)) ⊎ IsEnd s a q i
  unfolding slot
  ends-cases a q i e = elim (ℕ_discrete r i) [
    | yes at_r ↦
        let (side, same) = slot-end a reader q (subst (IsEnd t a q) (sym at_r) e) in
        inl (ap slot side ∙ at_r, same)
    | no r_ne ↦ elim (ℕ_discrete w i) [
      | yes at_w ↦
          let (side, same) = slot-end a writer q (subst (IsEnd t a q) (sym at_w) e) in
          inl (ap slot side ∙ at_w, same)
      | no w_ne ↦ inr (
          subst
            (λ f.
              (i < app_fd_count) × (f.opened ≡ true) × (f.kind ≡ side_kind a) × (f.pfs_index ≡ q))
            (elsewhere i r_ne w_ne) e)
    ]
  ]

  -- The pipe had no handle.
  fresh : (a : Side) (i : ℕ) → ¬ IsEnd s a p i
  fresh a i e = cc (unused, (good.ends a p i e).1)

  new_open : (a : Side) → end_open a new_pipe ≡ true
  new_open reader = refl
  new_open writer = refl

  pipe_here : t.pipes p ≡ new_pipe
  unfolding t
  pipe_here = update_self s.pipes p new_pipe

  pipe_there : (q : ℕ) → p ≢ q → t.pipes q ≡ s.pipes q
  unfolding t
  pipe_there q ne = update_other s.pipes p q new_pipe ne

  abbrev Fine : Side → ℕ → AppPipe → Type 0
  Fine a q pipe = (q < app_pipe_count) × (pipe.used ≡ true) × (end_open a pipe ≡ true)

  new-Fine : (a : Side) → Fine a p (t.pipes p)
  new-Fine a = subst (Fine a p) (sym pipe_here) (bound, refl, new_open a)

  ends' : (a : Side) (q i : ℕ) → IsEnd t a q i → Fine a q (t.pipes q)
  ends' a q i e = elim (ends-cases a q i e) [
    | inl (at, same) ↦ subst (λ q. Fine a q (t.pipes q)) same (new-Fine a)
    | inr old ↦
        subst (Fine a q)
          (sym (pipe_there q λ same. fresh a i (subst (λ q. IsEnd s a q i) (sym same) old)))
          (good.ends a q i old)
  ]

  one' : (a : Side) (q i j : ℕ) → IsEnd t a q i → IsEnd t a q j → i ≡ j
  one' a q i j e e' = elim (ends-cases a q i e) [
    | inl (at, same) ↦ elim (ends-cases a q j e') [
      | inl (at', same') ↦ sym at ∙ at'
      | inr old' ↦ absurd (fresh a j (subst (λ q. IsEnd s a q j) (sym same) old'))
    ]
    | inr old ↦ elim (ends-cases a q j e') [
      | inl (at', same') ↦ absurd (fresh a i (subst (λ q. IsEnd s a q i) (sym same') old))
      | inr old' ↦ good.one a q i j old old'
    ]
  ]

  pub HasEnds-opened : HasEnds (open_pipe s p r w)
  unfolding t
  HasEnds-opened = record {
    fits =
        update-all (λ q pipe. q < app_pipe_count → IsPipe pipe) s.pipes p new_pipe
          (λ l. (omega arith, omega arith)) (λ q ne. good.fits q);
    ends = ends';
    one = one';
    has = λ a q l opened. elim (ℕ_discrete p q) [
      | yes at ↦ (slot a, subst (λ q. IsEnd t a q (slot a)) at (new-IsEnd a))
      | no ne ↦
          let (i, e) =
            good.has a q l (subst (λ pipe. end_open a pipe ≡ true) (pipe_there q ne) opened) in
          (i, old_there a q i e)
    ];
    in_use = λ q l used. elim (ℕ_discrete p q) [
      | yes at ↦ (reader, subst (λ q. end_open reader (t.pipes q) ≡ true) at (new-Fine reader).2)
      | no ne ↦
          let (a, opened) =
            good.in_use q l (subst (λ pipe. pipe.used ≡ true) (pipe_there q ne) used) in
          (a, subst (λ pipe. end_open a pipe ≡ true) (sym (pipe_there q ne)) opened)
    ];
  }
