-- ===== src/Scheduler/Soundness.antt =====
-- kernel/src/main.rs: the scheduler's invariant, for the regions that hand over the processor.
use rymos.Prelude.{
  ℕ, ◌≤◌, ◌<◌, ◌≡◌, refl, inl, inr, ◌≢◌, true, Option, arith, Option-cases, Bool-cases, update, ltb,
  ◌==◌,
}
use rymos.Process.{
  Process, Processes, WaitTarget, nothing, ready, running, blocked, is_live, process_count,
  same_state, wake_waiters_for, block_on, pick_next_ready,
}
use mathlib.Core.Bool.{◌&&◌, not}
use rymos.Process.Lookup.{same_state→eq, pick_next_ready-PicksReady}
use rymos.Scheduler.{
  Kernel, current_process, enter, save_rsp, switch_to, run_scheduler_step, preempted, maybe_preempt,
}

-- A process that the scheduler may switch to has a stack; one that is not blocked waits for nothing.
abbrev pub IsSettled : Process → Type 0
IsSettled p = (is_live p.state ≡ true → p.rsp ≢ 0) × (p.state ≢ blocked → p.waiting_for ≡ nothing)

abbrev pub SettledSlots : Processes → Type 0
SettledSlots t = (i : ℕ) → i < process_count → IsSettled (t i)

abbrev pub OnlyRuns : ℕ → Processes → Type 0
OnlyRuns current t = (i : ℕ) → i < process_count → (t i).state ≡ running → i ≡ current

pub record IsSound (k : Kernel) : Type 0 where
  pub in_table : k.current_index ≤ process_count
  pub settled : SettledSlots k.slots
  pub only_runs : OnlyRuns k.current_index k.slots

==→eq : (a b : ℕ) → (a == b) ≡ true → a ≡ b
==→eq a b h = ground arith

pub SettledSlots-update :
    (t : Processes) (j : ℕ) (p : Process)
    → SettledSlots t
    → (j < process_count → IsSettled p)
    → SettledSlots (update t j p)
SettledSlots-update t j p all one i l = elim (Bool-cases (j == i)) [
  | inl here ↦ rw here (one (grind (arith, ==→eq j i here)))
  | inr elsewhere ↦ rw elsewhere (all i l)
]

pub OnlyRuns-update :
    (t : Processes) (c j : ℕ) (p : Process)
    → OnlyRuns c t
    → (j < process_count → p.state ≡ running → j ≡ c)
    → OnlyRuns c (update t j p)
OnlyRuns-update t c j p all one i l = elim (Bool-cases (j == i)) [
  | inl here ↦ rw here λ r. ground (arith, ==→eq j i here, one (grind (arith, ==→eq j i here)) r)
  | inr elsewhere ↦ rw elsewhere (all i l)
]

-- Nothing runs.
abbrev pub NoneRuns : Processes → Type 0
NoneRuns t = (i : ℕ) → i < process_count → (t i).state ≢ running

enter-settled :
    (next : ℕ) (t : Processes)
    → SettledSlots t
    → (next < process_count → (t next).state ≡ ready)
    → SettledSlots (enter next t)
unfolding enter
enter-settled next t all ready_next = elim (Bool-cases (ltb next process_count)) [
  | inl inside ↦ rw inside (
      SettledSlots-update t next _ all λ l. (
        (λ _. (all next l).0 (rw (ready_next l))),
        λ _. (all next l).1 (grind (arith, ready_next l)),
      ))
  | inr idle ↦ rw idle all
]

enter-OnlyRuns : (next : ℕ) (t : Processes) → NoneRuns t → OnlyRuns next (enter next t)
unfolding enter
enter-OnlyRuns next t none_runs = elim (Bool-cases (ltb next process_count)) [
  | inl inside ↦
      rw inside (OnlyRuns-update t next next _ (λ i l r. absurd (none_runs i l r)) (λ _ _. refl))
  | inr idle ↦ rw idle λ i l r. absurd (none_runs i l r)
]

save_rsp-settled :
    (index rsp : ℕ) (t : Processes) → rsp ≢ 0 → SettledSlots t → SettledSlots (save_rsp index rsp t)
unfolding save_rsp
save_rsp-settled index rsp t stack all =
    SettledSlots-update t index _ all λ l. ((λ _. stack), (all index l).1)

save_rsp-OnlyRuns :
    (index rsp c : ℕ) (t : Processes) → OnlyRuns c t → OnlyRuns c (save_rsp index rsp t)
unfolding save_rsp
save_rsp-OnlyRuns index rsp c t all = OnlyRuns-update t c index _ all λ l. all index l

module _ (rsp : ℕ) (kernel_pml4 : Option ℕ) (stack : rsp ≢ 0) where
  -- A switch to the idle slot, or to a ready process, while nothing runs.
  pub switch_to-IsSound :
      (next : ℕ) (k : Kernel)
      → SettledSlots k.slots
      → NoneRuns k.slots
      → next ≤ process_count
      → (next < process_count → (k.slots next).state ≡ ready)
      → IsSound (switch_to rsp kernel_pml4 next k)
  unfolding switch_to
  switch_to-IsSound next k settled none_runs n ready_next = record {
    in_table = n;
    settled =
        save_rsp-settled k.current_index rsp _ stack
          (enter-settled next k.slots settled ready_next);
    only_runs =
        save_rsp-OnlyRuns k.current_index rsp next _ (enter-OnlyRuns next k.slots none_runs);
  }

  pub run_scheduler_step-IsSound :
      (k : Kernel)
      → SettledSlots k.slots
      → NoneRuns k.slots
      → IsSound (run_scheduler_step rsp kernel_pml4 k)
  unfolding run_scheduler_step
  run_scheduler_step-IsSound k settled none_runs = elim (Option-cases (pick_next_ready k.slots)) [
    | inl e ↦ rw e (
        switch_to-IsSound process_count k settled none_runs (omega arith)
          (λ l. absurd (omega arith)))
    | inr (next, e) ↦
        let picked = rw e at (pick_next_ready-PicksReady k.slots) in
        rw e (switch_to-IsSound next k settled none_runs (omega (arith, picked.0)) (λ _. picked.1))
  ]

-- The current task has given up the processor: it is the console, or a process that has blocked
-- itself or exited.
abbrev pub HasYielded : Kernel → Type 0
HasYielded k = k.current_index < process_count → (current_process k).state ≢ running

pub IsSound-NoneRuns : (k : Kernel) → IsSound k → HasYielded k → NoneRuns k.slots
IsSound-NoneRuns k s yielded i l r =
    let at : i ≡ k.current_index = s.only_runs i l r in yielded (rw at at l) (rw at at r)

preempted-NoneRuns : (k : Kernel) → IsSound k → NoneRuns (preempted k).slots
unfolding preempted
preempted-NoneRuns k s i below = elim (Bool-cases (ltb k.current_index process_count)) [
  | inl inside ↦ rw inside λ r. elim (Bool-cases (k.current_index == i)) [
    | inl here ↦ absurd (ground (arith, here, r))
    | inr elsewhere ↦
        let at : i ≡ k.current_index = s.only_runs i below (rw elsewhere at r) in ground arith
  ]
  | inr idle ↦ rw idle λ r. let at : i ≡ k.current_index = s.only_runs i below r in ground arith
]

preempted-settled :
    (k : Kernel)
    → IsSound k
    → (k.current_index < process_count → (current_process k).state ≡ running)
    → SettledSlots (preempted k).slots
unfolding preempted
preempted-settled k s runs = elim (Bool-cases (ltb k.current_index process_count)) [
  | inl inside ↦ rw inside (
      SettledSlots-update k.slots k.current_index _ s.settled λ l.
        let here = s.settled k.current_index l in
        ((λ _. here.0 (rw (runs l))), λ _. here.1 (grind (arith, runs l))))
  | inr idle ↦ rw idle s.settled
]

pub preempted-ready :
    (k : Kernel) (next : ℕ)
    → (k.slots next).state ≡ ready
    → ((preempted k).slots next).state ≡ ready
unfolding preempted
preempted-ready k next h = ground arith

-- The tick keeps the invariant, whichever task it interrupts.
pub maybe_preempt-IsSound :
    (rsp : ℕ) (kernel_pml4 : Option ℕ) (k : Kernel)
    → rsp ≢ 0
    → IsSound k
    → IsSound (maybe_preempt rsp kernel_pml4 k)
unfolding maybe_preempt
maybe_preempt-IsSound rsp kernel_pml4 k stack s =
    elim (Bool-cases
      (ltb k.current_index process_count && not (same_state (current_process k).state running))) [
        | inl yielding ↦ rw yielding s
        | inr idle_or_running ↦ rw idle_or_running (elim (Option-cases (pick_next_ready k.slots)) [
          | inl e ↦ rw e s
          | inr (next, e) ↦
              let picked = rw e at (pick_next_ready-PicksReady k.slots) in
              rw e (
                switch_to-IsSound rsp kernel_pml4 stack next (preempted k)
                  (preempted-settled k s
                    (λ l. ground (arith, same_state→eq (current_process k).state running)))
                  (preempted-NoneRuns k s) (omega (arith, picked.0))
                  (λ _. preempted-ready k next picked.1))
        ])
      ]

pub block_on-settled :
    (t : Processes) (index : ℕ) (target : WaitTarget)
    → ((index < process_count) → (t index).rsp ≢ 0)
    → SettledSlots t
    → SettledSlots (block_on t index target)
unfolding block_on
block_on-settled t index target stack all = elim (Bool-cases (ltb index process_count)) [
  | inl inside ↦
      rw inside (SettledSlots-update t index _ all λ l. ((λ _. stack l), λ ne. absurd (ne refl)))
  | inr idle ↦ rw idle all
]

pub block_on-OnlyRuns :
    (t : Processes) (index c : ℕ) (target : WaitTarget)
    → OnlyRuns c t
    → OnlyRuns c (block_on t index target)
unfolding block_on
block_on-OnlyRuns t index c target all = elim (Bool-cases (ltb index process_count)) [
  | inl inside ↦ rw inside (OnlyRuns-update t c index _ all λ _ r. cc)
  | inr idle ↦ rw idle all
]

pub wake_waiters_for-settled :
    (t : Processes) (pid : ℕ) → SettledSlots t → SettledSlots (wake_waiters_for t pid)
unfolding wake_waiters_for
wake_waiters_for-settled t pid all i l = ground (arith, all i l)

pub wake_waiters_for-OnlyRuns :
    (t : Processes) (pid c : ℕ) → OnlyRuns c t → OnlyRuns c (wake_waiters_for t pid)
unfolding wake_waiters_for
wake_waiters_for-OnlyRuns t pid c all i l = ground (arith, all i l)
