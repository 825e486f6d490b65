-- ===== src/Scheduler/Tests.antt =====
-- The theorems on the scheduler at concrete kernels.
use rymos.Prelude.{
  ℕ, ◌≡◌, ◌⊎◌, refl, Bool, true, none, some, [], ◌∷◌, arith, first_from, ◌==◌, if◌then◌else◌,
}
use rymos.Prelude.Int.{pos}
use rymos.Process.{
  Process, ProcessState, empty_process, ready, running, exited, blocked, loading, nothing,
  pid_target, process_count, pick_next_ready, process_find_slot, process_find_reapable_slot,
  process_spawn_with_argv, spawn_slot, process_set_state, wake_waiters_for,
}
use rymos.Scheduler.{
  Kernel, Preparation, current_process, maybe_preempt, trampoline_exit, preempted, switch_to, enter,
  save_rsp, mark_exit, preparation,
}
use rymos.Scheduler.Calls.{current_pid}
use rymos.Scheduler.Steps.{boot_kernel, Step, exits}
use rymos.Scheduler.Interleaving.{
  World, outside, phase, runs, plan, prepare_writes, claim, act, Reach, boot, next, ticks, claims,
  acts,
}
use rymos.Scheduler.Interleaving.Safety.{IsSafe}
use rymos.Scheduler.Interleaving.Sound.{Reach-IsSafe}
use rymos.Scheduler.Blocking.{IsBlockedOn, ExitsNow, Step-IsBlockedOn}
use rymos.Scheduler.Waiting.{IsUnwaited}
use rymos.Scheduler.LostWakeup.{trampoline_exit-wakes, interrupted_wait, interrupted_wait-lost}

abbrev process : ℕ → ProcessState → Process
process pid state = record empty_process { pid = pid; state = state; rsp = 4096 }

-- The process 1 runs in the first slot, and `other` has the second.
abbrev beside : Process → Kernel
beside other = record boot_kernel {
  table = record {
    slots = λ i. if i == 0 then process 1 running else if i == 1 then other else empty_process;
    next_pid = 3;
  };
  current_index = 0;
}

abbrev waiting_kernel : Kernel
waiting_kernel = beside (record (process 2 blocked) { waiting_for = pid_target 1 })

abbrev all_prepared : Preparation
all_prepared = record {
  parent_pml4 = some 8192;
  child_pml4 = some 12288;
  entry = some 4194304;
  stack_mapped = true;
}

-- The console claims a slot for the program and writes to it, and the timer interrupts it.
abbrev boot_world : World
boot_world = record { kernel = boot_kernel; phases = λ _. outside }

abbrev claimed_world : World
claimed_world = claim (runs true all_prepared) ((b's') ∷ []) [] [] boot_world

abbrev written_world : World
written_world = act claimed_world (phase claimed_world)

abbrev interrupted_world : World
interrupted_world = record written_world {
  kernel = maybe_preempt 4096 (some 8192) written_world.kernel;
}

claimed_world-idle :
    ((claimed_world.kernel).current_index ≡ process_count)
    × (((claimed_world.kernel).slots 0).state ≡ loading)
unfolding claim current_pid process_spawn_with_argv spawn_slot process_find_slot
    process_find_reapable_slot first_from plan prepare_writes preparation
claimed_world-idle = (refl, refl)

interrupted_world-Reach : Reach interrupted_world
interrupted_world-Reach =
    next
      (next
        (next boot
          (claims (runs true all_prepared) ((b's') ∷ []) [] [] (λ l. absurd (omega arith)) refl))
        (acts λ l. absurd (omega (arith, l, claimed_world-idle.0))))
      (ticks 4096 (some 8192) (omega arith))

Reach-IsSafe_example : IsSafe interrupted_world
Reach-IsSafe_example = Reach-IsSafe interrupted_world-Reach

-- The second slot, which is loading, is prepared as the first runs.
abbrev loading_kernel : Kernel
loading_kernel = beside (process 2 loading)

waiting_kernel-exits : Step waiting_kernel (trampoline_exit (some 8192) (pos 7) waiting_kernel)
waiting_kernel-exits = exits (some 8192) (pos 7) (omega arith) (λ _. refl)

Step-IsBlockedOn_example :
    IsBlockedOn 1 ((trampoline_exit (some 8192) (pos 7) waiting_kernel).slots 1)
    ⊎ ExitsNow 1 waiting_kernel (trampoline_exit (some 8192) (pos 7) waiting_kernel)
Step-IsBlockedOn_example = Step-IsBlockedOn 1 1 waiting_kernel-exits (refl, refl)

trampoline_exit-wakes_example :
    let k' = trampoline_exit (some 8192) (pos 7) waiting_kernel in
    ((k'.slots 1).state ≡ ready)
    × ((k'.slots 1).waiting_for ≡ nothing)
    × ((current_process k').state ≡ exited)
    × ((current_process k').exit_code ≡ pos 7)
trampoline_exit-wakes_example =
    trampoline_exit-wakes (some 8192) (pos 7) waiting_kernel 1 (omega arith) (omega arith) refl
      (refl, refl)

-- The child 2 is ready when the tick interrupts its parent.
abbrev racing_kernel : Kernel
racing_kernel = beside (process 2 ready)

racing_kernel-picks_child : pick_next_ready racing_kernel.slots ≡ some 1
unfolding pick_next_ready first_from
racing_kernel-picks_child = refl

racing_kernel-picks_parent :
    pick_next_ready (trampoline_exit none (pos 7) (maybe_preempt 4096 none racing_kernel)).slots
    ≡ some 0
unfolding pick_next_ready first_from trampoline_exit mark_exit process_set_state wake_waiters_for
    maybe_preempt preempted switch_to enter save_rsp
racing_kernel-picks_parent = refl

interrupted_wait-lost_example :
    let k' = interrupted_wait 2 none 4096 (pos 7) 4096 racing_kernel in
    IsBlockedOn 2 (k'.slots 0) × IsUnwaited 2 (k'.slots 1)
interrupted_wait-lost_example =
    interrupted_wait-lost 0 1 2 4096 4096 none (pos 7) racing_kernel (omega arith) (omega arith)
      (omega arith) refl (refl, refl) (refl, refl, refl) racing_kernel-picks_child
      racing_kernel-picks_parent

-- The child 2 has exited; its status is there to collect, or has been collected.
abbrev child_exited : Bool → Kernel
child_exited waited = beside (record (process 2 exited) { waited = waited; exit_code = pos 7 })
