-- ===== src/Scheduler/Blocking/Regions.antt =====
-- kernel/src/main.rs: what the scheduler's regions and the waits do to a blocked process.
use mathlib.Core.Bool.{◌&&◌, not}
use rymos.Prelude.{
  ℕ, ◌<◌, ◌≡◌, ◌≢◌, inl, inr, Option, arith, Option-cases, Bool-cases, update, ◌==◌, ltb,
}
use rymos.Prelude.Int.{ℤ}
use rymos.Process.{
  Process, Processes, WaitTarget, ready, running, blocked, pid_target, process_count,
  process_set_state, process_wait_by_pid, process_wait_any_child, mark_waited, find_unwaited_by_pid,
  find_unwaited_child, wake_waiters_for, block_on, pick_next_ready, same_state,
}
use rymos.Process.Lookup.{same_state→eq, pick_next_ready-PicksReady}
use rymos.Scheduler.{
  Kernel, current_process, enter, save_rsp, preempted, switch_to, run_scheduler_step, maybe_preempt,
  block_current_on, mark_exit, trampoline_exit,
}
use rymos.Scheduler.Soundness.{preempted-ready}
use rymos.Scheduler.Steps.{IsActive}

-- The process waits for the exit of the process `pid`.
abbrev pub IsBlockedOn : ℕ → Process → Type 0
IsBlockedOn pid p = (p.state ≡ blocked) × (p.waiting_for ≡ pid_target pid)

-- The section's process `w` is blocked; each lemma says that a function of the kernel leaves it so.
module _ (pid w : ℕ) where
  pub update-IsBlockedOn :
      (t : Processes) (j : ℕ) (p : Process)
      → IsBlockedOn pid (t w)
      → (IsBlockedOn pid (t j) → IsBlockedOn pid p)
      → IsBlockedOn pid (update t j p w)
  update-IsBlockedOn t j p b keep = elim (Bool-cases (j == w)) [
    | inl here ↦ let at : j ≡ w = ground (arith, here) in rw here (keep (rw at b))
    | inr elsewhere ↦ rw elsewhere b
  ]

  -- Two writes to a slot that is not blocked.
  pub update_twice-IsBlockedOn :
      (t : Processes) (j : ℕ) (p q : Process)
      → ¬ IsBlockedOn pid (t j)
      → IsBlockedOn pid (t w)
      → IsBlockedOn pid (update (update t j p) j q w)
  update_twice-IsBlockedOn t j p q free b = elim (Bool-cases (j == w)) [
    | inl here ↦ let at : j ≡ w = ground (arith, here) in absurd (free (rw at b))
    | inr elsewhere ↦ rw elsewhere b
  ]

  pub enter-IsBlockedOn :
      (next : ℕ) (t : Processes)
      → IsBlockedOn pid (t w)
      → (next < process_count → (t next).state ≡ ready)
      → IsBlockedOn pid (enter next t w)
  unfolding enter
  enter-IsBlockedOn next t b ready_next = elim (Bool-cases (ltb next process_count)) [
    | inl inside ↦
        let r : (t next).state ≡ ready = ready_next (ground (arith, inside)) in
        rw inside (update-IsBlockedOn t next _ b λ h. absurd (cc r))
    | inr idle ↦ rw idle b
  ]

  pub switch_to-IsBlockedOn :
      (rsp next : ℕ) (kernel_pml4 : Option ℕ) (k : Kernel)
      → IsBlockedOn pid (k.slots w)
      → (next < process_count → (k.slots next).state ≡ ready)
      → IsBlockedOn pid ((switch_to rsp kernel_pml4 next k).slots w)
  unfolding switch_to save_rsp
  switch_to-IsBlockedOn rsp next kernel_pml4 k b ready_next =
      update-IsBlockedOn (enter next k.slots) k.current_index _
        (enter-IsBlockedOn next k.slots b ready_next) (λ h. h)

  pub run_scheduler_step-IsBlockedOn :
      (rsp : ℕ) (kernel_pml4 : Option ℕ) (k : Kernel)
      → IsBlockedOn pid (k.slots w)
      → IsBlockedOn pid ((run_scheduler_step rsp kernel_pml4 k).slots w)
  unfolding run_scheduler_step
  run_scheduler_step-IsBlockedOn rsp p k b = elim (Option-cases (pick_next_ready k.slots)) [
    | inl e ↦ rw e (switch_to-IsBlockedOn rsp process_count p k b (λ l. absurd (omega arith)))
    | inr (next, e) ↦
        let picked = rw e at (pick_next_ready-PicksReady k.slots) in
        rw e (switch_to-IsBlockedOn rsp next p k b (λ _. picked.1))
  ]

  pub preempted-IsBlockedOn :
      (k : Kernel)
      → IsActive k
      → IsBlockedOn pid (k.slots w)
      → IsBlockedOn pid ((preempted k).slots w)
  unfolding preempted
  preempted-IsBlockedOn k active b = elim (Bool-cases (ltb k.current_index process_count)) [
    | inl inside ↦
        let r : (current_process k).state ≡ running = active (ground (arith, inside)) in
        rw inside (update-IsBlockedOn k.slots k.current_index _ b λ h. absurd (cc r))
    | inr idle ↦ rw idle b
  ]

  pub maybe_preempt-IsBlockedOn :
      (rsp : ℕ) (kernel_pml4 : Option ℕ) (k : Kernel)
      → IsBlockedOn pid (k.slots w)
      → IsBlockedOn pid ((maybe_preempt rsp kernel_pml4 k).slots w)
  unfolding maybe_preempt
  maybe_preempt-IsBlockedOn rsp p k b =
      elim (Bool-cases
        (ltb k.current_index process_count && not (same_state (current_process k).state running))) [
          | inl yielding ↦ rw yielding b
          | inr active ↦ rw active (elim (Option-cases (pick_next_ready k.slots)) [
            | inl e ↦ rw e b
            | inr (next, e) ↦
                let picked = rw e at (pick_next_ready-PicksReady k.slots) in
                rw e (
                  switch_to-IsBlockedOn rsp next p (preempted k)
                    (preempted-IsBlockedOn k
                      (λ l. ground (arith, same_state→eq (current_process k).state running)) b)
                    (λ _. preempted-ready k next picked.1))
          ])
        ]

  pub mark_waited-IsBlockedOn :
      (t : Processes) (i : ℕ) → IsBlockedOn pid (t w) → IsBlockedOn pid (mark_waited t i w)
  mark_waited-IsBlockedOn t i b = update-IsBlockedOn t i _ b (λ h. h)

  pub process_wait_by_pid-IsBlockedOn :
      (t : Processes) (p : ℕ)
      → IsBlockedOn pid (t w)
      → IsBlockedOn pid ((process_wait_by_pid t p).0 w)
  unfolding process_wait_by_pid
  process_wait_by_pid-IsBlockedOn t p b = elim (Option-cases (find_unwaited_by_pid t p)) [
    | inl e ↦ rw (e, process_wait_by_pid) b
    | inr (i, e) ↦ rw (e, process_wait_by_pid) (mark_waited-IsBlockedOn t i b)
  ]

  pub process_wait_any_child-IsBlockedOn :
      (t : Processes) (p : ℕ)
      → IsBlockedOn pid (t w)
      → IsBlockedOn pid ((process_wait_any_child t p).0 w)
  unfolding process_wait_any_child
  process_wait_any_child-IsBlockedOn t p b = elim (Option-cases (find_unwaited_child t p)) [
    | inl e ↦ rw (e, process_wait_any_child) b
    | inr (i, e) ↦ rw (e, process_wait_any_child) (mark_waited-IsBlockedOn t i b)
  ]

  pub block_current_on-IsBlockedOn :
      (target : WaitTarget) (k : Kernel)
      → IsActive k
      → IsBlockedOn pid (k.slots w)
      → IsBlockedOn pid ((block_current_on target k).slots w)
  unfolding block_current_on block_on
  block_current_on-IsBlockedOn target k active b =
      elim (Bool-cases (ltb k.current_index process_count)) [
        | inl inside ↦
            let r : (current_process k).state ≡ running = active (ground (arith, inside)) in
            rw inside (update-IsBlockedOn k.slots k.current_index _ b λ h. absurd (cc r))
        | inr idle ↦ rw idle b
      ]

  pub wake_waiters_for-IsBlockedOn :
      (t : Processes) (p : ℕ)
      → p ≢ pid
      → IsBlockedOn pid (t w)
      → IsBlockedOn pid (wake_waiters_for t p w)
  unfolding wake_waiters_for
  wake_waiters_for-IsBlockedOn t p other b = ground arith

  pub trampoline_exit-IsBlockedOn :
      (kernel_pml4 : Option ℕ) (code : ℤ) (k : Kernel)
      → (current_process k).state ≡ running
      → (current_process k).pid ≢ pid
      → IsBlockedOn pid (k.slots w)
      → IsBlockedOn pid ((trampoline_exit kernel_pml4 code k).slots w)
  unfolding trampoline_exit mark_exit process_set_state
  trampoline_exit-IsBlockedOn kernel_pml4 code k r other b =
      wake_waiters_for-IsBlockedOn _ _ (ground arith)
        (update_twice-IsBlockedOn k.slots k.current_index _ _ (λ h. cc r) b)
