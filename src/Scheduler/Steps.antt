-- ===== src/Scheduler/Steps.antt =====
-- kernel/src/main.rs: the steps that the kernel's processes, its console and the timer can take, with
-- each call that creates or ends a process as a whole.
use rymos.Prelude.{
  ℕ, ◌<◌, ◌≡◌, refl, ◌≢◌, inl, inr, Bool, Option, none, List, arith, Option-cases, update,
}
use rymos.Prelude.Int.{ℤ}
use rymos.Process.{
  WaitTarget, nothing, running, exited, process_count, process_set_state, process_wait_by_pid,
  process_wait_any_child, mark_waited, empty_process, find_unwaited_by_pid, find_unwaited_child,
  empty_mapping,
}
use rymos.Scheduler.{
  Kernel, Preparation, with_slots, current_process, run_scheduler_step, maybe_preempt,
  block_current_on, mark_exit, trampoline_exit, reclaim_pending_stacks,
}
use rymos.Scheduler.Calls.{spawn_prepared, run_program_start, run_program_finish}
use rymos.Scheduler.Soundness.{
  IsSound, HasYielded, IsSound-NoneRuns, run_scheduler_step-IsSound, maybe_preempt-IsSound,
  block_on-settled, block_on-OnlyRuns, wake_waiters_for-settled, wake_waiters_for-OnlyRuns,
}
use rymos.Scheduler.Spawning.{
  SoundTable, SoundTable-update, IsSound-of, spawn_prepared-IsSound, run_program_start-IsSound,
}

-- The current task is running: the console, or a process that has not yielded.
abbrev pub IsActive : Kernel → Type 0
IsActive k = k.current_index < process_count → (current_process k).state ≡ running

-- A process blocks itself only while it runs.
pub block_current_on-IsSound :
    (target : WaitTarget) (k : Kernel)
    → IsActive k
    → IsSound k
    → IsSound (block_current_on target k)
unfolding block_current_on
block_current_on-IsSound target k active s = IsSound-of _ s.in_table (
  block_on-settled k.slots k.current_index target
      (λ l. (s.settled k.current_index l).0 (rw (active l))) s.settled,
  block_on-OnlyRuns k.slots k.current_index k.current_index target s.only_runs,
)

-- The `waited` mark has no part in the invariant.
mark_waited-IsSound :
    (i : ℕ) (k : Kernel) → IsSound k → IsSound (with_slots k (mark_waited k.slots i))
mark_waited-IsSound i k s = IsSound-of _ s.in_table (
    SoundTable-update k.current_index i k.slots _ (s.settled, s.only_runs)
      λ l. (s.settled i l, s.only_runs i l))

process_wait_by_pid-IsSound :
    (pid : ℕ) (k : Kernel) → IsSound k → IsSound (with_slots k (process_wait_by_pid k.slots pid).0)
unfolding process_wait_by_pid
process_wait_by_pid-IsSound pid k s = elim (Option-cases (find_unwaited_by_pid k.slots pid)) [
  | inl e ↦ rw (e, process_wait_by_pid) s
  | inr (i, e) ↦ rw (e, process_wait_by_pid) (mark_waited-IsSound i k s)
]

process_wait_any_child-IsSound :
    (parent : ℕ) (k : Kernel)
    → IsSound k
    → IsSound (with_slots k (process_wait_any_child k.slots parent).0)
unfolding process_wait_any_child
process_wait_any_child-IsSound parent k s =
    elim (Option-cases (find_unwaited_child k.slots parent)) [
      | inl e ↦ rw (e, process_wait_any_child) s
      | inr (i, e) ↦ rw (e, process_wait_any_child) (mark_waited-IsSound i k s)
    ]

-- The program has returned: the process exits and wakes those that wait for it.
pub trampoline_exit-IsSound :
    (kernel_pml4 : Option ℕ) (code : ℤ) (k : Kernel)
    → k.current_index < process_count
    → IsActive k
    → IsSound k
    → IsSound (trampoline_exit kernel_pml4 code k)
unfolding trampoline_exit mark_exit process_set_state
trampoline_exit-IsSound kernel_pml4 code k l active s =
    IsSound-of _ s.in_table
      (wake_waiters_for-settled _ _ table.0, wake_waiters_for-OnlyRuns _ _ k.current_index table.1)
  where
    waits_for_nothing : (current_process k).waiting_for ≡ nothing
    waits_for_nothing = (s.settled k.current_index l).1 (grind (arith, active l))

    table : SoundTable k.current_index (
        process_set_state
          (update k.slots k.current_index (record (current_process k) {
            heap_base = 0;
            mappings = λ _. empty_mapping;
            pml4_phys = 0;
          }))
          k.current_index
          exited
          code)
    table =
        SoundTable-update k.current_index k.current_index _ _
          (SoundTable-update k.current_index k.current_index k.slots _ (s.settled, s.only_runs)
            λ l. (s.settled k.current_index l, λ _. refl))
          λ _. ground (arith, waits_for_nothing)

-- A step of the kernel: the timer interrupts the current task, a task that has yielded hands over,
-- or the running task makes a call. The parts of a blocking wait are steps of their own, since the
-- timer may fall between them; the calls that create and end processes are one step each here, and
-- Scheduler/Interleaving cuts them into their writes. `rsp` is the interrupted or yielding task's stack pointer.
pub data Step (k : Kernel) : Kernel → Type 0 where
  ticks : (rsp : ℕ) (kernel_pml4 : Option ℕ) → rsp ≢ 0 → Step k (maybe_preempt rsp kernel_pml4 k)
  yields :
      (rsp : ℕ) (kernel_pml4 : Option ℕ)
      → rsp ≢ 0
      → HasYielded k
      → Step k (run_scheduler_step rsp kernel_pml4 k)
  collects : (pid : ℕ) → IsActive k → Step k (with_slots k (process_wait_by_pid k.slots pid).0)
  collects_any :
      (parent : ℕ) → IsActive k → Step k (with_slots k (process_wait_any_child k.slots parent).0)
  blocks : (target : WaitTarget) → IsActive k → Step k (block_current_on target k)
  exits :
      (kernel_pml4 : Option ℕ) (code : ℤ)
      → k.current_index < process_count
      → IsActive k
      → Step k (trampoline_exit kernel_pml4 code k)
  spawns :
      (image console : Bool) (r : Preparation) (name args : List ℕ) (argv : List (List ℕ))
      → IsActive k
      → Step k (spawn_prepared image console r name args argv k).0
  runs :
      (image : Bool) (r : Preparation) (name args : List ℕ) (argv : List (List ℕ))
      → IsActive k
      → Step k (run_program_start image r name args argv k).0
  finishes : (index : ℕ) → IsActive k → Step k (run_program_finish index k)
  reclaims : Step k (reclaim_pending_stacks k)

pub Step-IsSound : {k k' : Kernel} → Step k k' → IsSound k → IsSound k'
unfolding run_program_finish reclaim_pending_stacks
Step-IsSound {k} (ticks rsp p h) s = maybe_preempt-IsSound rsp p k h s
Step-IsSound {k} (yields rsp p h y) s =
    run_scheduler_step-IsSound rsp p h k s.settled (IsSound-NoneRuns k s y)
Step-IsSound {k} (collects pid a) s = process_wait_by_pid-IsSound pid k s
Step-IsSound {k} (collects_any parent a) s = process_wait_any_child-IsSound parent k s
Step-IsSound {k} (blocks target a) s = block_current_on-IsSound target k a s
Step-IsSound {k} (exits p code l a) s = trampoline_exit-IsSound p code k l a s
Step-IsSound {k} (spawns i c r name args argv a) s = spawn_prepared-IsSound i c r name args argv k s
Step-IsSound {k} (runs i r name args argv a) s = run_program_start-IsSound i r name args argv k s
Step-IsSound {k} (finishes index a) s = mark_waited-IsSound index k s
Step-IsSound {k} reclaims s = IsSound-of _ s.in_table (s.settled, s.only_runs)

-- The kernel at boot: sixteen empty slots and the idle slot, which is current.
abbrev pub boot_kernel : Kernel
boot_kernel = record {
  table = record { slots = λ _. empty_process; next_pid = 1 };
  current_index = process_count;
  cr3 = 0;
  pending_stack_reclaims = λ _. none;
}
