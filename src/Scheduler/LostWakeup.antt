-- ===== src/Scheduler/LostWakeup.antt =====
-- kernel/src/main.rs: the exit of a process, and the windows between the tests of
-- `wait_for_pid_blocking` and its blocking.
use rymos.Prelude.{ℕ, ◌<◌, ◌≡◌, refl, ◌≢◌, false, Option, some, arith}
use rymos.Prelude.Int.{ℤ}
use rymos.Process.{
  Processes, ProcessState, ready, running, exited, nothing, pid_target, process_count,
  pick_next_ready, process_set_state, wake_waiters_for, block_on,
}
use rymos.Scheduler.{
  Kernel, current_process, enter, save_rsp, preempted, switch_to, run_scheduler_step, maybe_preempt,
  block_current_on, mark_exit, trampoline_exit,
}
use rymos.Scheduler.Waiting.{IsUnwaited}
use rymos.Scheduler.Blocking.{IsBlockedOn}

-- The exit of the running process marks it as exited with the program's code, and makes ready every
-- process that is blocked on it.
pub trampoline_exit-wakes :
    (kernel_pml4 : Option ℕ) (code : ℤ) (k : Kernel) (w : ℕ)
    → k.current_index < process_count
    → w < process_count
    → (current_process k).state ≡ running
    → IsBlockedOn (current_process k).pid (k.slots w)
    → let k' = trampoline_exit kernel_pml4 code k in
      ((k'.slots w).state ≡ ready)
      × ((k'.slots w).waiting_for ≡ nothing)
      × ((current_process k').state ≡ exited)
      × ((current_process k').exit_code ≡ code)
unfolding trampoline_exit mark_exit process_set_state wake_waiters_for
trampoline_exit-wakes kernel_pml4 code k w l lw r b = ground arith

maybe_preempt_running :
    (rsp : ℕ) (kernel_pml4 : Option ℕ) (k : Kernel) (next : ℕ)
    → (current_process k).state ≡ running
    → pick_next_ready k.slots ≡ some next
    → maybe_preempt rsp kernel_pml4 k ≡ switch_to rsp kernel_pml4 next (preempted k)
unfolding maybe_preempt
maybe_preempt_running rsp kernel_pml4 k next r picks = ground arith

-- What the race keeps of the waiting process `p` and of its child `c`.
record Race (p c pid : ℕ) (sp sc : ProcessState) (t : Processes) : Type 0 where
  parent : (t p).state ≡ sp
  parent_waits : (t p).waiting_for ≡ nothing
  child : (t c).state ≡ sc
  child_pid : (t c).pid ≡ pid
  child_unwaited : (t c).waited ≡ false

module _ (p c pid : ℕ) (apart : p ≢ c) where
  enter-child :
      (t : Processes) (sp sc : ProcessState)
      → c < process_count
      → Race p c pid sp sc t
      → Race p c pid sp running (enter c t)
  unfolding enter
  enter-child t sp sc l race = ground arith

  enter-parent :
      (t : Processes) (sp sc : ProcessState)
      → p < process_count
      → Race p c pid sp sc t
      → Race p c pid running sc (enter p t)
  unfolding enter
  enter-parent t sp sc l race = ground arith

  save_rsp-Race :
      (t : Processes) (sp sc : ProcessState) (index rsp : ℕ)
      → Race p c pid sp sc t
      → Race p c pid sp sc (save_rsp index rsp t)
  unfolding save_rsp
  save_rsp-Race t sp sc index rsp race = ground arith

  preempted-Race :
      (k : Kernel) (sc : ProcessState)
      → k.current_index ≡ p
      → p < process_count
      → Race p c pid running sc k.slots
      → Race p c pid ready sc (preempted k).slots
  unfolding preempted
  preempted-Race k sc at l race = ground arith

  exit-Race :
      (kernel_pml4 : Option ℕ) (code : ℤ) (k : Kernel)
      → k.current_index ≡ c
      → Race p c pid ready running k.slots
      → Race p c pid ready exited (trampoline_exit kernel_pml4 code k).slots
  unfolding trampoline_exit mark_exit process_set_state wake_waiters_for
  exit-Race kernel_pml4 code k at race = ground arith

  block-Race :
      (k : Kernel)
      → k.current_index ≡ p
      → p < process_count
      → Race p c pid running exited k.slots
      → IsBlockedOn pid ((block_current_on (pid_target pid) k).slots p)
        × IsUnwaited pid ((block_current_on (pid_target pid) k).slots c)
  unfolding block_current_on block_on
  block-Race k at l race = ground arith

  -- The tick hands the processor from the parent to its child.
  tick-Race :
      (rsp : ℕ) (kernel_pml4 : Option ℕ) (k : Kernel)
      → p < process_count
      → c < process_count
      → k.current_index ≡ p
      → pick_next_ready k.slots ≡ some c
      → Race p c pid running ready k.slots
      → ((maybe_preempt rsp kernel_pml4 k).current_index ≡ c)
        × Race p c pid ready running (maybe_preempt rsp kernel_pml4 k).slots
  unfolding switch_to
  tick-Race rsp kernel_pml4 k lp lc at picks race =
      rw (maybe_preempt_running rsp kernel_pml4 k c (ground arith) picks) (
        refl,
        save_rsp-Race _ ready running (preempted k).current_index rsp
            (enter-child (preempted k).slots ready ready lc (preempted-Race k ready at lp race)),
      )

  -- The hand-over that returns to the parent.
  resume-Race :
      (rsp : ℕ) (kernel_pml4 : Option ℕ) (k : Kernel)
      → p < process_count
      → pick_next_ready k.slots ≡ some p
      → Race p c pid ready exited k.slots
      → ((run_scheduler_step rsp kernel_pml4 k).current_index ≡ p)
        × Race p c pid running exited (run_scheduler_step rsp kernel_pml4 k).slots
  unfolding run_scheduler_step switch_to
  resume-Race rsp kernel_pml4 k lp picks race =
      rw (picks, run_scheduler_step)
        (
          refl,
          save_rsp-Race _ running exited k.current_index rsp
              (enter-parent k.slots ready exited lp race),
        )

-- The timer interrupts a process between the test of its wait for `pid` and its blocking; then
-- the program that runs next returns `code` and hands over, and the process blocks itself.
abbrev pub interrupted_wait : ℕ → Option ℕ → ℕ → ℤ → ℕ → Kernel → Kernel
interrupted_wait pid kernel_pml4 rsp code rsp' k = block_current_on (pid_target pid) (
    run_scheduler_step rsp' kernel_pml4
      (trampoline_exit kernel_pml4 code (maybe_preempt rsp kernel_pml4 k)))

-- A lost wake-up: if the child exits in that window, its parent blocks on it although it has
-- exited and its status is there to collect. The parent is the running process `p`, its child `pid`
-- the process `c`, which the scheduler picks when the tick comes, and it picks `p` when `c` has exited.
pub interrupted_wait-lost :
    (p c pid rsp rsp' : ℕ) (kernel_pml4 : Option ℕ) (code : ℤ) (k : Kernel)
    → p < process_count
    → c < process_count
    → p ≢ c
    → k.current_index ≡ p
    → ((k.slots p).state ≡ running) × ((k.slots p).waiting_for ≡ nothing)
    → ((k.slots c).state ≡ ready) × ((k.slots c).pid ≡ pid) × ((k.slots c).waited ≡ false)
    → pick_next_ready k.slots ≡ some c
    → pick_next_ready (trampoline_exit kernel_pml4 code (maybe_preempt rsp kernel_pml4 k)).slots
      ≡ some p
    → let k' = interrupted_wait pid kernel_pml4 rsp code rsp' k in
      IsBlockedOn pid (k'.slots p) × IsUnwaited pid (k'.slots c)
interrupted_wait-lost p c pid rsp rsp' kernel_pml4 code k lp lc apart at parent child picks picks' =
    let start : Race p c pid running ready k.slots = record {
      parent = parent.0;
      parent_waits = parent.1;
      child = child.0;
      child_pid = child.1;
      child_unwaited = child.2;
    } in
    let ticked = tick-Race p c pid apart rsp kernel_pml4 k lp lc at picks start in
    let left = exit-Race p c pid apart kernel_pml4 code _ ticked.0 ticked.1 in
    let resumed = resume-Race p c pid apart rsp' kernel_pml4 _ lp picks' left in
    block-Race p c pid apart _ resumed.0 lp resumed.1
