-- ===== src/Scheduler/Interleaving/Tables.antt =====
-- kernel/src/main.rs: what the timer, the hand-over and the single writes do to the slots.
use rymos.Prelude.{
  ℕ, ◌≤◌, ◌<◌, ◌≡◌, ◌≢◌, refl, sym, ap, ◌∙◌, subst, inl, inr, Bool, true, false, not, ◌&&◌, Option,
  arith, Bool-cases, Option-cases, update, ltb, ◌==◌,
}
use native.Mathlib.Decide.{ℕ_discrete}
use rymos.Process.{
  Process, Processes, nothing, ready, running, blocked, loading, is_live, process_count, same_state,
  wake_waiters_for, pick_next_ready,
}
use rymos.Process.Lookup.{same_state→eq, pick_next_ready-PicksReady}
use rymos.Scheduler.{
  Kernel, current_process, enter, save_rsp, switch_to, run_scheduler_step, preempted, maybe_preempt,
}
use rymos.Scheduler.Soundness.{OnlyRuns, NoneRuns, OnlyRuns-update}

-- A process that the scheduler may switch to has a stack; one that is not blocked waits for nothing,
-- unless it is about to block.
abbrev pub IsFine : Bool → Process → Type 0
IsFine about p =
    (is_live p.state ≡ true → p.rsp ≢ 0)
    × (p.state ≢ blocked → about ≡ false → p.waiting_for ≡ nothing)

abbrev pub Fine : (ℕ → Bool) → Processes → Type 0
Fine about t = (i : ℕ) → i < process_count → IsFine (about i) (t i)

-- The fields on which the creation of a process rests.
abbrev pub Keeps : Process → Process → Type 0
Keeps p p' = (p'.state ≡ p.state) × (p'.waiting_for ≡ p.waiting_for) × (p'.rsp ≡ p.rsp)

-- Processes that are being created are left alone.
abbrev pub KeepsLoading : Processes → Processes → Type 0
KeepsLoading t t' = (i : ℕ) → i < process_count → (t i).state ≡ loading → Keeps (t i) (t' i)

pub Fine-update :
    (about : ℕ → Bool) (t : Processes) (j : ℕ) (p : Process)
    → Fine about t
    → (j < process_count → IsFine (about j) p)
    → Fine about (update t j p)
Fine-update about t j p all one i l = elim (ℕ_discrete j i) [
  | yes here ↦
      subst (λ i. IsFine (about i) (update t j p i)) here
        (subst (IsFine (about j)) (sym (at_self)) (one (omega (arith, here, l))))
  | no ne ↦ subst (IsFine (about i)) (sym (elsewhere i ne)) (all i l)
]
  where
    at_self : update t j p j ≡ p
    at_self = ground arith

    elsewhere : (i : ℕ) → j ≢ i → update t j p i ≡ t i
    elsewhere i ne = ground arith

pub Loading-update :
    (t : Processes) (j : ℕ) (p : Process)
    → (j < process_count → (t j).state ≡ loading → Keeps (t j) p)
    → KeepsLoading t (update t j p)
Loading-update t j p one i l loads = elim (ℕ_discrete j i) [
  | yes here ↦
      subst (λ i. Keeps (t i) (update t j p i)) here
        (subst (Keeps (t j)) (sym at_self)
          (one (omega (arith, here, l)) (subst (λ i. (t i).state ≡ loading) (sym here) loads)))
  | no ne ↦ subst (Keeps (t i)) (sym (elsewhere i ne)) (refl, refl, refl)
]
  where
    at_self : update t j p j ≡ p
    at_self = ground arith

    elsewhere : (i : ℕ) → j ≢ i → update t j p i ≡ t i
    elsewhere i ne = ground arith

pub Keeps-trans : (a b c : Process) → Keeps a b → Keeps b c → Keeps a c
Keeps-trans a b c p q = (q.0 ∙ p.0, q.1 ∙ p.1, q.2 ∙ p.2)

pub Loading-trans : (a b c : Processes) → KeepsLoading a b → KeepsLoading b c → KeepsLoading a c
Loading-trans a b c p q i l loads =
    let first = p i l loads in Keeps-trans (a i) (b i) (c i) first (q i l (first.0 ∙ loads))

-- What a step leaves of the table, with `current` as the index of the task that goes on.
pub record IsGood (about : ℕ → Bool) (before : Processes) (current : ℕ) (t : Processes)
    : Type 0 where
  pub fine : Fine about t
  pub only_runs : OnlyRuns current t
  pub not_loading : current < process_count → (t current).state ≢ loading
  pub keeps : KeepsLoading before t

-- Nothing runs, and a ready process or the console takes over; the task before is not being created.
module _ (about : ℕ → Bool) (rsp next : ℕ) (kernel_pml4 : Option ℕ) (k : Kernel) (stack : rsp ≢ 0)
    (fine : Fine about k.slots) (none_runs : NoneRuns k.slots)
    (ready_next : next < process_count → (k.slots next).state ≡ ready)
    (started : k.current_index < process_count → (k.slots k.current_index).state ≢ loading) where
  entered : Processes
  entered = enter next k.slots

  entered-at : (i : ℕ) → i < process_count → next ≢ i → entered i ≡ k.slots i
  unfolding entered enter
  entered-at i l ne = ground arith

  entered-next : next < process_count → entered next ≡ record (k.slots next) { state = running }
  unfolding entered enter
  entered-next l = ground (arith, l)

  entered-Fine : Fine about entered
  entered-Fine i l = elim (ℕ_discrete next i) [
    | yes here ↦ subst (λ i. IsFine (about i) (entered i)) here (at_next (omega (arith, here, l)))
    | no ne ↦ subst (IsFine (about i)) (sym (entered-at i l ne)) (fine i l)
  ]
    where
      at_next : next < process_count → IsFine (about next) (entered next)
      at_next l = subst (IsFine (about next)) (sym (entered-next l)) (
        (λ live. (fine next l).0 (ap is_live (ready_next l))),
        λ ne quiet. (fine next l).1 (λ e. absurd (cc (e, ready_next l))) quiet,
      )

  entered-runs : OnlyRuns next entered
  entered-runs i l r = elim (ℕ_discrete next i) [
    | yes here ↦ sym here
    | no ne ↦ absurd (none_runs i l (sym (ap (λ p. p.state) (entered-at i l ne)) ∙ r))
  ]

  saved : Processes
  saved = save_rsp k.current_index rsp entered

  saved-state : (i : ℕ) → (saved i).state ≡ (entered i).state
  unfolding saved save_rsp
  saved-state i = ground arith

  entered-loading : KeepsLoading k.slots entered
  entered-loading i l loads = elim (ℕ_discrete next i) [
    | yes here ↦
        absurd (cc (loads, ap (λ i. (k.slots i).state) here, ready_next (omega (arith, here, l))))
    | no ne ↦ subst (Keeps (k.slots i)) (sym (entered-at i l ne)) (refl, refl, refl)
  ]

  still_started : k.current_index < process_count → (entered k.current_index).state ≢ loading
  still_started l loads = elim (ℕ_discrete next k.current_index) [
    | yes here ↦ cc (
      loads,
      ap (λ i. (entered i).state) here,
      ap (λ p. p.state) (entered-next (omega (arith, here, l))),
    )
    | no ne ↦ started l (sym (ap (λ p. p.state) (entered-at k.current_index l ne)) ∙ loads)
  ]

  pub switch_to-IsGood : IsGood about k.slots next (switch_to rsp kernel_pml4 next k).slots
  unfolding switch_to save_rsp saved entered
  switch_to-IsGood = record {
    fine =
        Fine-update about entered k.current_index _ entered-Fine
          λ l. ((λ _. stack), (entered-Fine k.current_index l).1);
    only_runs =
        OnlyRuns-update entered next k.current_index _ entered-runs
          λ l. entered-runs k.current_index l;
    not_loading = λ l loads. cc (loads, saved-state next, ap (λ p. p.state) (entered-next l));
    keeps = Loading-trans k.slots entered (save_rsp k.current_index rsp entered) entered-loading (
        Loading-update entered k.current_index (record (entered k.current_index) { rsp = rsp })
          λ l loads. absurd (still_started l loads));
  }

-- A hand-over, with the table it leaves.
abbrev pub Handed : (ℕ → Bool) → Kernel → Kernel → Type 0
Handed about k k' =
    (k'.current_index ≤ process_count) × IsGood about k.slots k'.current_index k'.slots

pub switch_to-Handed :
    (about : ℕ → Bool) (rsp next : ℕ) (kernel_pml4 : Option ℕ) (k : Kernel)
    → rsp ≢ 0
    → Fine about k.slots
    → NoneRuns k.slots
    → next ≤ process_count
    → (next < process_count → (k.slots next).state ≡ ready)
    → (k.current_index < process_count → (k.slots k.current_index).state ≢ loading)
    → Handed about k (switch_to rsp kernel_pml4 next k)
unfolding switch_to
switch_to-Handed about rsp next kernel_pml4 k stack fine none_runs n ready_next started =
    (n, switch_to-IsGood about rsp next kernel_pml4 k stack fine none_runs ready_next started)

pub run_scheduler_step-Handed :
    (about : ℕ → Bool) (rsp : ℕ) (kernel_pml4 : Option ℕ) (k : Kernel)
    → rsp ≢ 0
    → Fine about k.slots
    → NoneRuns k.slots
    → (k.current_index < process_count → (k.slots k.current_index).state ≢ loading)
    → Handed about k (run_scheduler_step rsp kernel_pml4 k)
unfolding run_scheduler_step
run_scheduler_step-Handed about rsp kernel_pml4 k stack fine none_runs started =
    elim (Option-cases (pick_next_ready k.slots)) [
      | inl e ↦ rw e (
          switch_to-Handed about rsp process_count kernel_pml4 k stack fine none_runs (omega arith)
            (λ l. absurd (omega arith)) started)
      | inr (next, e) ↦
          let picked = rw e at (pick_next_ready-PicksReady k.slots) in
          rw e (
            switch_to-Handed about rsp next kernel_pml4 k stack fine none_runs
              (omega (arith, picked.0)) (λ _. picked.1) started)
    ]

-- The interrupted process goes back to ready.
module _ (about : ℕ → Bool) (k : Kernel) (fine : Fine about k.slots)
    (only_runs : OnlyRuns k.current_index k.slots)
    (runs : k.current_index < process_count → (current_process k).state ≡ running) where
  preempted-NoneRuns : NoneRuns (preempted k).slots
  unfolding preempted
  preempted-NoneRuns i below = elim (Bool-cases (ltb k.current_index process_count)) [
    | inl inside ↦ rw inside λ r. elim (Bool-cases (k.current_index == i)) [
      | inl here ↦ absurd (ground (arith, here, r))
      | inr elsewhere ↦
          let at : i ≡ k.current_index = only_runs i below (rw elsewhere at r) in ground arith
    ]
    | inr idle ↦ rw idle λ r. let at : i ≡ k.current_index = only_runs i below r in ground arith
  ]

  preempted-Fine : Fine about (preempted k).slots
  unfolding preempted
  preempted-Fine = elim (Bool-cases (ltb k.current_index process_count)) [
    | inl inside ↦ rw inside (
        Fine-update about k.slots k.current_index (record (current_process k) { state = ready })
          fine
          λ l.
            let here = fine k.current_index l in
            (
              (λ _. here.0 (ap is_live (runs l))),
              λ _ quiet. here.1 (λ e. absurd (cc (e, runs l))) quiet,
            ))
    | inr idle ↦ rw idle fine
  ]

  preempted-Loading : KeepsLoading k.slots (preempted k).slots
  unfolding preempted
  preempted-Loading = elim (Bool-cases (ltb k.current_index process_count)) [
    | inl inside ↦ rw inside (
        Loading-update k.slots k.current_index (record (current_process k) { state = ready })
          λ l loads. absurd (cc (loads, runs l)))
    | inr idle ↦ rw idle λ i l loads. (refl, refl, refl)
  ]

  preempted-started :
      k.current_index < process_count → ((preempted k).slots k.current_index).state ≢ loading
  unfolding preempted
  preempted-started l = ground (arith, l)

  preempted-picked :
      (next : ℕ) → (k.slots next).state ≡ ready → ((preempted k).slots next).state ≡ ready
  unfolding preempted
  preempted-picked next h = ground arith

  preempted-current : (preempted k).current_index ≡ k.current_index
  unfolding preempted
  preempted-current = ground arith

  preempted-Handed :
      (rsp next : ℕ) (kernel_pml4 : Option ℕ)
      → rsp ≢ 0
      → next < process_count
      → (k.slots next).state ≡ ready
      → Handed about k (switch_to rsp kernel_pml4 next (preempted k))
  preempted-Handed rsp next kernel_pml4 stack l picked =
      let (n, good) =
        switch_to-Handed about rsp next kernel_pml4 (preempted k) stack preempted-Fine
          preempted-NoneRuns (omega (arith, l)) (λ _. preempted-picked next picked)
          (subst (λ c. c < process_count → ((preempted k).slots c).state ≢ loading)
            (sym preempted-current) preempted-started) in
      (
        n,
        record {
          fine = good.fine;
          only_runs = good.only_runs;
          not_loading = good.not_loading;
          keeps =
              Loading-trans k.slots (preempted k).slots
                (switch_to rsp kernel_pml4 next (preempted k)).slots preempted-Loading good.keeps;
        },
      )

pub maybe_preempt-Handed :
    (about : ℕ → Bool) (rsp : ℕ) (kernel_pml4 : Option ℕ) (k : Kernel)
    → rsp ≢ 0
    → k.current_index ≤ process_count
    → Fine about k.slots
    → OnlyRuns k.current_index k.slots
    → (k.current_index < process_count → (k.slots k.current_index).state ≢ loading)
    → Handed about k (maybe_preempt rsp kernel_pml4 k)
unfolding maybe_preempt
maybe_preempt-Handed about rsp kernel_pml4 k stack n fine only_runs started =
    elim (Bool-cases
      (ltb k.current_index process_count && not (same_state (current_process k).state running))) [
        | inl yielding ↦ rw yielding same
        | inr idle_or_running ↦ rw idle_or_running (elim (Option-cases (pick_next_ready k.slots)) [
          | inl e ↦ rw e same
          | inr (next, e) ↦
              let picked = rw e at (pick_next_ready-PicksReady k.slots) in
              rw e (
                preempted-Handed about k fine only_runs
                  (λ l. ground (arith, same_state→eq (current_process k).state running)) rsp next
                  kernel_pml4 stack picked.0 picked.1)
        ])
      ]
  where
    same : Handed about k k
    same = (
      n,
      record {
        fine = fine;
        only_runs = only_runs;
        not_loading = started;
        keeps = λ i l loads. (refl, refl, refl);
      },
    )

pub wake_waiters_for-Fine :
    (about : ℕ → Bool) (t : Processes) (pid : ℕ)
    → Fine about t
    → Fine about (wake_waiters_for t pid)
unfolding wake_waiters_for
wake_waiters_for-Fine about t pid all i l = ground (arith, all i l)

pub wake_waiters_for-Loading : (t : Processes) (pid : ℕ) → KeepsLoading t (wake_waiters_for t pid)
unfolding wake_waiters_for
wake_waiters_for-Loading t pid i l loads = ground (arith, loads)

pub wake_waiters_for-loading :
    (t : Processes) (pid i : ℕ) → (t i).state ≢ loading → (wake_waiters_for t pid i).state ≢ loading
unfolding wake_waiters_for
wake_waiters_for-loading t pid i ne loads = ground (arith, loads)
