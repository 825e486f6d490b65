-- ===== src/Scheduler/Interleaving.antt =====
-- kernel/src/main.rs: the calls that create, block and end processes, cut into the writes between which
-- the timer may interrupt them: `spawn_prepared`, `run_program`, `prepare_process`,
-- `block_current_on` and `process_trampoline`. Claiming a slot (`process_spawn_with_argv`) has the
-- interrupts off. Once a process has set its own state to `Blocked` or `Exited`, the tick leaves it
-- alone, so that the rest of `exit_and_yield` before its switch is one step.
pub mod Tables
pub mod Safety
pub mod Creation
pub mod Claims
pub mod Sound
pub mod Uninterrupted
use rymos.Prelude.{
  ℕ, ◌<◌, ◌≡◌, ◌≢◌, Bool, true, false, Option, none, some, List, [], ◌∷◌, ◌++◌, Table, update,
}
use rymos.Prelude.Int.{ℤ, pos, negsuc}
use rymos.Errors.{err_ok}
use rymos.Process.{
  Processes, WaitTarget, ready, blocked, failed, process_count, default_std_fds, empty_mapping,
  mark_waited, process_spawn_with_argv, ProcessTable,
}
use rymos.Scheduler.{
  Kernel, Preparation, with_slots, current_process, app_set_heap_window, kernel_stack_top,
  initial_rsp, preparation, mark_exit, queue_stack_reclaim, maybe_preempt, run_scheduler_step,
  reclaim_pending_stacks,
}
use rymos.Scheduler.Calls.{current_pid, inherit, set_app_error}
use rymos.Scheduler.Soundness.{HasYielded}
use rymos.Scheduler.Steps.{IsActive, boot_kernel}

-- A write to a process that is being created, which does not touch its state. Fields that nothing
-- reads before the process is ready are written together.
pub data Write : Type 0 where
  takes_over : Write
  resets : Write
  sets_window : ℕ → Write
  sets_pml4 : ℕ → Write
  sets_entry : ℕ → Write
  sets_stack : ℕ → Write

unfoldable pub write_slot : ℕ → Write → Processes → ℕ → Processes
write_slot parent takes_over t child = inherit t parent child
write_slot parent resets t child =
    update t child
      (record (t child) { std_fds = default_std_fds; cwd = 0x2F ∷ []; last_error = err_ok })
write_slot parent (sets_window pid) t child = app_set_heap_window t child pid
write_slot parent (sets_pml4 pml4) t child = update t child (record (t child) { pml4_phys = pml4 })
write_slot parent (sets_entry entry) t child =
    update t child (record (t child) { entry_point = entry })
write_slot parent (sets_stack rsp) t child = update t child (record (t child) { rsp = rsp })

-- How a creation ends: the process becomes ready or failed; `process_fail_unwaited` also marks it.
pub data Finish : Type 0 where
  becomes_ready : Finish
  fails : Finish
  fails_unwaited : Finish

-- The writes after its state: the exit code of `process_set_state`, and the mark.
pub data Late : Type 0 where
  sets_exit_code : ℤ → Late
  marks_waited : Late

abbrev pub late_slot : Late → Processes → ℕ → Processes
late_slot (sets_exit_code code) t child = update t child (record (t child) { exit_code = code })
late_slot marks_waited t child = mark_waited t child

unfoldable pub finish_slot : Finish → Processes → ℕ → Processes
finish_slot becomes_ready t child = update t child (record (t child) { state = ready })
finish_slot fails t child = update t child (record (t child) { state = failed })
finish_slot fails_unwaited t child = update t child (record (t child) { state = failed })

abbrev pub late_writes : Finish → List Late
late_writes becomes_ready = sets_exit_code (pos 0) ∷ []
late_writes fails = sets_exit_code (negsuc 0) ∷ []
late_writes fails_unwaited = sets_exit_code (negsuc 0) ∷ marks_waited ∷ []

-- What `process_trampoline` does after the program has returned and before `exit_and_yield`.
pub data Leave : Type 0 where
  drops_mappings : Leave
  loads_cr3 : ℕ → Leave
  forgets_pml4 : Leave
  queues_stack : Leave

unfoldable pub leave : Leave → Kernel → Kernel
leave drops_mappings k = with_slots k (
    update k.slots k.current_index
      (record (current_process k) { heap_base = 0; mappings = λ _. empty_mapping }))
leave (loads_cr3 pml4) k = record k { cr3 = pml4 }
leave forgets_pml4 k =
    with_slots k (update k.slots k.current_index (record (current_process k) { pml4_phys = 0 }))
leave queues_stack k = record k {
  pending_stack_reclaims = queue_stack_reclaim (current_process k).pid k.pending_stack_reclaims;
}

abbrev pub leaves : Option ℕ → List Leave
leaves none = drops_mappings ∷ forgets_pml4 ∷ queues_stack ∷ []
leaves (some pml4) = drops_mappings ∷ loads_cr3 pml4 ∷ forgets_pml4 ∷ queues_stack ∷ []

-- Where a task is in a call, with what is left of it.
pub data Phase : Type 0 where
  outside : Phase
  preparing : ℕ → List Write → Finish → Phase
  closing : ℕ → List Late → Phase
  blocking : Phase
  leaving : List Leave → ℤ → Phase

-- The kernel, and where the task of each slot is, the console's in the idle slot.
pub record World : Type 0 where
  pub kernel : Kernel
  pub phases : Table Phase

abbrev pub into : World → Kernel → Phase → World
into w k phase = record { kernel = k; phases = update w.phases (w.kernel).current_index phase }

-- The writes of `prepare_process`.
unfoldable pub prepare_writes : Preparation → ℕ → List Write × Finish
prepare_writes r pid = elim (preparation r) [
  | none ↦ ([], fails)
  | some (pml4, entry) ↦ (
    sets_window pid
        ∷ sets_pml4 pml4
        ∷ sets_entry entry
        ∷ sets_stack (initial_rsp (kernel_stack_top pid))
        ∷ [],
    becomes_ready,
  )
]

-- The creation of a process: by `spawn_prepared`, with the console registered or not, or by
-- `run_program`, with the program's image there or not.
pub data Plan : Type 0 where
  spawns : Bool → Preparation → Plan
  runs : Bool → Preparation → Plan

unfoldable pub plan : Plan → ℕ → List Write × Finish
plan (spawns false r) pid = (takes_over ∷ [], fails)
plan (spawns true r) pid =
    let (writes, finish) = prepare_writes r pid in (takes_over ∷ writes, finish)
plan (runs false r) pid = ([], fails_unwaited)
plan (runs true r) pid = let (writes, finish) = prepare_writes r pid in (resets ∷ writes, finish)

-- The slot is claimed, with the interrupts off; its task starts outside of any call.
abbrev pub claimed : World → Plan → ProcessTable → Option ℕ → World
claimed w p table none = record w { kernel = record (w.kernel) { table = table } }
claimed w p table (some child) =
    let (writes, finish) = plan p (table.slots child).pid in
    record {
      kernel = record (w.kernel) { table = table };
      phases =
          update (update w.phases child outside) (w.kernel).current_index
            (preparing child writes finish);
    }

unfoldable pub claim : Plan → List ℕ → List ℕ → List (List ℕ) → World → World
claim p name args argv w =
    let (table, slot) =
      process_spawn_with_argv (w.kernel).table name args argv (current_pid w.kernel) in
    claimed w p table slot

-- The next write of the current task's call.
unfoldable pub act : World → Phase → World
act w outside = w
act w (preparing child (x ∷ xs) finish) =
    let k = w.kernel in
    into w (with_slots k (write_slot k.current_index x k.slots child)) (preparing child xs finish)
act w (preparing child [] finish) =
    let k = w.kernel in
    into w (with_slots k (finish_slot finish k.slots child)) (closing child (late_writes finish))
act w (closing child (x ∷ xs)) =
    let k = w.kernel in into w (with_slots k (late_slot x k.slots child)) (closing child xs)
act w (closing child []) = into w w.kernel outside
act w blocking =
    let k = w.kernel in
    into w
      (with_slots k
        (update k.slots k.current_index (record (current_process k) { state = blocked })))
      outside
act w (leaving (x ∷ xs) code) = into w (leave x w.kernel) (leaving xs code)
act w (leaving [] code) = into w (mark_exit (w.kernel).current_index code w.kernel) outside

abbrev pub phase : World → Phase
phase w = w.phases (w.kernel).current_index

-- `block_current_on` up to its first write.
unfoldable pub target : WaitTarget → Kernel → Kernel
target t k =
    with_slots k (update k.slots k.current_index (record (current_process k) { waiting_for = t }))

-- A step: the timer interrupts the current task between any two writes, a task that has yielded hands
-- over, or the running task goes on. Choosing the next process and switching to it is one step.
-- `marks` is the write of `process_wait_by_pid`, of `process_wait_any_child` and of `run_program`'s end.
pub data Step (w : World) : World → Type 0 where
  ticks :
      (rsp : ℕ) (kernel_pml4 : Option ℕ)
      → rsp ≢ 0
      → Step w (record w { kernel = maybe_preempt rsp kernel_pml4 w.kernel })
  yields :
      (rsp : ℕ) (kernel_pml4 : Option ℕ)
      → rsp ≢ 0
      → HasYielded w.kernel
      → Step w (record w { kernel = run_scheduler_step rsp kernel_pml4 w.kernel })
  claims :
      (p : Plan) (name args : List ℕ) (argv : List (List ℕ))
      → IsActive w.kernel
      → phase w ≡ outside
      → Step w (claim p name args argv w)
  acts : IsActive w.kernel → Step w (act w (phase w))
  targets :
      (t : WaitTarget)
      → (w.kernel).current_index < process_count
      → IsActive w.kernel
      → phase w ≡ outside
      → Step w (into w (target t w.kernel) blocking)
  returns :
      (kernel_pml4 : Option ℕ) (code : ℤ)
      → (w.kernel).current_index < process_count
      → IsActive w.kernel
      → phase w ≡ outside
      → Step w (into w w.kernel (leaving (leaves kernel_pml4) code))
  marks :
      (i : ℕ) → Step w (record w { kernel = with_slots w.kernel (mark_waited (w.kernel).slots i) })
  errors :
      (error : ℕ)
      → IsActive w.kernel
      → phase w ≡ outside
      → Step w (record w { kernel = (set_app_error error w.kernel).0 })
  reclaims : Step w (record w { kernel = reclaim_pending_stacks w.kernel })

pub data Reach : World → Type 0 where
  boot : Reach (record { kernel = boot_kernel; phases = λ _. outside })
  next : {w w' : World} → Reach w → Step w w' → Reach w'
