-- ===== src/Scheduler/Blocking.antt =====
-- kernel/src/main.rs: what the steps of the kernel do to a blocked process.
pub mod Regions
pub mod Creation
pub use Regions.{IsBlockedOn}
use mathlib.Core.Bool.{◌&&◌, not}
use rymos.Prelude.{
  ℕ, ◌<◌, ◌≡◌, refl, ◌≢◌, ◌⊎◌, inl, inr, Bool, true, false, Option, List, arith, Option-cases,
  Bool-cases, update, ◌==◌, ltb, leb,
}
use native.Mathlib.Decide.{ℕ_discrete}
use rymos.Prelude.Int.{ℤ}
use rymos.Process.{
  Process, Processes, ProcessTable, WaitTarget, ready, running, blocked, pid_target, process_count,
  process_set_state, process_fail_unwaited, process_spawn_with_argv, spawn_slot,
  process_wait_by_pid, process_wait_any_child, mark_waited, find_unwaited_by_pid,
  find_unwaited_child, wake_waiters_for, block_on, pick_next_ready, same_state,
}
use rymos.Process.Lookup.{same_state→eq, pick_next_ready-PicksReady, spawn_slot-IsReusable}
use rymos.Scheduler.{
  Kernel, Preparation, with_slots, current_process, enter, save_rsp, preempted, switch_to,
  run_scheduler_step, maybe_preempt, block_current_on, mark_exit, trampoline_exit,
  reclaim_pending_stacks, app_set_heap_window, preparation, prepare_process,
}
use rymos.Errors.{err_inval, err_noent, err_nospc, err_io}
use rymos.Scheduler.Calls.{
  set_app_error, clear_app_error, inherit, current_pid, start_child, spawn_prepared, start_program,
  run_program_start, run_program_finish,
}
use rymos.Scheduler.Soundness.{preempted-ready}
use rymos.Scheduler.Spawning.{IsNew, app_set_heap_window-IsNew, process_spawn_with_argv-IsNew}
use rymos.Scheduler.Steps.{
  IsActive, Step, ticks, yields, collects, collects_any, blocks, exits, spawns, runs, finishes,
  reclaims,
}
use rymos.Scheduler.Blocking.Regions.{
  update-IsBlockedOn, update_twice-IsBlockedOn, enter-IsBlockedOn, switch_to-IsBlockedOn,
  run_scheduler_step-IsBlockedOn, preempted-IsBlockedOn, maybe_preempt-IsBlockedOn,
  mark_waited-IsBlockedOn, process_wait_by_pid-IsBlockedOn, process_wait_any_child-IsBlockedOn,
  block_current_on-IsBlockedOn, wake_waiters_for-IsBlockedOn, trampoline_exit-IsBlockedOn,
}
use rymos.Scheduler.Blocking.Creation.{
  set_app_error-IsBlockedOn, clear_app_error-IsBlockedOn, update_new-IsBlockedOn,
  app_set_heap_window-IsBlockedOn, prepare_process-IsBlockedOn, inherit-IsBlockedOn,
  start_child-IsBlockedOn, start_program-IsBlockedOn, process_spawn_with_argv-IsBlockedOn,
  run_program_start-IsBlockedOn, spawn_prepared-IsBlockedOn,
}

-- The step is the exit of the running process `pid`.
abbrev pub ExitsNow : ℕ → Kernel → Kernel → Type 0
ExitsNow pid k k' =
    (current_process k).pid ≡ pid
    × ((kernel_pml4 : Option ℕ) × (code : ℤ) × (k' ≡ trampoline_exit kernel_pml4 code k))

-- A process of the table that is blocked on `pid` stays blocked on it through every step of the
-- kernel, each call that creates or ends a process taken as one step, but one: the exit of the running
-- process `pid`.
pub Step-IsBlockedOn :
    {k k' : Kernel} (pid w : ℕ)
    → Step k k'
    → IsBlockedOn pid (k.slots w)
    → IsBlockedOn pid (k'.slots w) ⊎ ExitsNow pid k k'
unfolding run_program_finish reclaim_pending_stacks
Step-IsBlockedOn {k} pid w (ticks rsp p h) b = inl (maybe_preempt-IsBlockedOn pid w rsp p k b)
Step-IsBlockedOn {k} pid w (yields rsp p h y) b =
    inl (run_scheduler_step-IsBlockedOn pid w rsp p k b)
Step-IsBlockedOn {k} pid w (collects p a) b =
    inl (process_wait_by_pid-IsBlockedOn pid w k.slots p b)
Step-IsBlockedOn {k} pid w (collects_any p a) b =
    inl (process_wait_any_child-IsBlockedOn pid w k.slots p b)
Step-IsBlockedOn {k} pid w (blocks target a) b =
    inl (block_current_on-IsBlockedOn pid w target k a b)
Step-IsBlockedOn {k} pid w (exits p code l a) b = elim (ℕ_discrete (current_process k).pid pid) [
  | yes same ↦ inr (same, (p, code, refl))
  | no other ↦ inl (trampoline_exit-IsBlockedOn pid w p code k (a l) other b)
]
Step-IsBlockedOn {k} pid w (spawns i c r name args argv a) b =
    inl (spawn_prepared-IsBlockedOn pid w i c r name args argv k b)
Step-IsBlockedOn {k} pid w (runs i r name args argv a) b =
    inl (run_program_start-IsBlockedOn pid w i r name args argv k b)
Step-IsBlockedOn {k} pid w (finishes index a) b =
    inl (mark_waited-IsBlockedOn pid w k.slots index b)
Step-IsBlockedOn {k} pid w reclaims b = inl b
