-- ===== src/Scheduler.antt =====
-- kernel/src/main.rs: the scheduler. Each definition is one region that the kernel runs with
-- interrupts off, or one call of a process; `rsp` is the stack pointer that `context_switch` saves,
-- and `kernel_pml4` what `ensure_kernel_pml4` returns.
pub mod Blocking
pub mod Calls
pub mod LostWakeup
pub mod Soundness
pub mod Spawning
pub mod Steps
pub mod Interleaving
pub mod Waiting
mod Tests
use rymos.Prelude.{
  ℕ, zero, suc, ◌+◌, ◌-◌, ◌*◌, ◌%◌, ◌^◌, Bool, true, false, ◌&&◌, not, Option, none, some, List,
  ◌==◌, ltb, leb, if◌then◌else◌, Table, update, first_from,
}
use rymos.Prelude.Int.{ℤ, pos, negsuc}
use rymos.Process.{
  Process, Processes, ProcessTable, ProcessStatus, WaitTarget, ready, running, exited, failed,
  pid_target, any_child, process_count, same_state, empty_mapping, pick_next_ready,
  wake_waiters_for, block_on, process_set_state, process_wait_by_pid, process_wait_any_child,
  has_live_child, find_process_index_by_pid,
}

-- The scheduler's part of the kernel's static state.
pub record Kernel : Type 0 where
  pub table : ProcessTable
  pub open table use *
  pub current_index : ℕ
  pub cr3 : ℕ
  pub pending_stack_reclaims : Table (Option ℕ)

abbrev pub unwrap_or : Option ℕ → ℕ → ℕ
unwrap_or none d = d
unwrap_or (some a) d = a

abbrev pub with_slots : Kernel → Processes → Kernel
with_slots k t = record k { table = record (k.table) { slots = t } }

abbrev pub current_process : Kernel → Process
current_process k = k.slots k.current_index

-- `(*table)[next_index].state = ProcessState::Running`, except for the idle slot.
unfoldable pub enter : ℕ → Processes → Processes
enter next_index t =
    if ltb next_index process_count
    then update t next_index (record (t next_index) { state = running })
    else t

-- The saving half of `context_switch`.
unfoldable pub save_rsp : ℕ → ℕ → Processes → Processes
save_rsp index rsp t = update t index (record (t index) { rsp = rsp })

-- The bookkeeping and the hand-over of `switch_to`, up to the point where the resumed task runs.
unfoldable pub switch_to : ℕ → Option ℕ → ℕ → Kernel → Kernel
switch_to rsp kernel_pml4 next_index k =
    let entered = enter next_index k.slots in
    let next_pml4 = (entered next_index).pml4_phys in
    let target_pml4 = if next_pml4 == 0 then unwrap_or kernel_pml4 0 else next_pml4 in
    record (with_slots k (save_rsp k.current_index rsp entered)) {
      current_index = next_index;
      cr3 = if target_pml4 == 0 then k.cr3 else target_pml4;
    }

unfoldable pub run_scheduler_step : ℕ → Option ℕ → Kernel → Kernel
run_scheduler_step rsp kernel_pml4 k =
    switch_to rsp kernel_pml4 (unwrap_or (pick_next_ready k.slots) process_count) k

-- The interrupted process goes back to `Ready`; the idle slot has no state to change.
unfoldable pub preempted : Kernel → Kernel
preempted k =
    if ltb k.current_index process_count
    then with_slots k
        (update k.slots k.current_index (record (current_process k) { state = ready }))
    else k

-- The timer tick.
unfoldable pub maybe_preempt : ℕ → Option ℕ → Kernel → Kernel
maybe_preempt rsp kernel_pml4 k =
    if ltb k.current_index process_count && not (same_state (current_process k).state running)
    then k
    else elim (pick_next_ready k.slots) [
      | none ↦ k
      | some next ↦ switch_to rsp kernel_pml4 next (preempted k)
    ]

unfoldable pub block_current_on : WaitTarget → Kernel → Kernel
block_current_on target k = with_slots k (block_on k.slots k.current_index target)

-- `queue_stack_reclaim`: the first free slot takes the pid; with none free it is dropped.
unfoldable pub queue_stack_reclaim : ℕ → Table (Option ℕ) → Table (Option ℕ)
queue_stack_reclaim pid slots =
    elim (first_from process_count 0 (λ i. elim (slots i) [ none ↦ true | some _ ↦ false ])) [
      | none ↦ slots
      | some i ↦ update slots i (some pid)
    ]

-- `reclaim_pending_stacks` empties the queue. The pages that it frees are the paging code's.
unfoldable pub reclaim_pending_stacks : Kernel → Kernel
reclaim_pending_stacks k = record k { pending_stack_reclaims = λ _. none }

-- The state change of `exit_and_yield`, before its scheduling loop.
unfoldable pub mark_exit : ℕ → ℤ → Kernel → Kernel
mark_exit index code k =
    with_slots k
      (wake_waiters_for (process_set_state k.slots index exited code) (k.slots index).pid)

-- What `process_trampoline` does once the program has returned `code`, up to the scheduling loop.
-- The pages that it frees are the paging code's.
unfoldable pub trampoline_exit : Option ℕ → ℤ → Kernel → Kernel
trampoline_exit kernel_pml4 code k =
    let index = k.current_index in
    let pid = (current_process k).pid in
    let reclaimed = record (current_process k) {
      heap_base = 0;
      mappings = λ _. empty_mapping;
      pml4_phys = 0;
    } in
    mark_exit index code (record (with_slots k (update k.slots index reclaimed)) {
      cr3 = elim kernel_pml4 [ none ↦ k.cr3 | some pml4 ↦ pml4 ];
      pending_stack_reclaims = queue_stack_reclaim pid k.pending_stack_reclaims;
    })

-- What `current_pml4_or_kernel`, `create_process_address_space` and `load_program_elf_isolated`
-- returned to `prepare_process`, and whether the pages of the process's stack could be mapped.
pub record Preparation : Type 0 where
  pub parent_pml4 : Option ℕ
  pub child_pml4 : Option ℕ
  pub entry : Option ℕ
  pub stack_mapped : Bool

abbrev pub user_heap_base : ℕ
user_heap_base = 0xFFFF_9000_0000_0000

abbrev pub user_heap_stride : ℕ
user_heap_stride = 256 * 1024 * 1024

abbrev pub user_mmap_base : ℕ
user_mmap_base = 0xFFFF_A000_0000_0000

abbrev pub user_mmap_stride : ℕ
user_mmap_stride = 1024 * 1024 * 1024

abbrev pub user_mmap_size : ℕ
user_mmap_size = 768 * 1024 * 1024

-- `base + pid as u64 * stride`, in 64 bits.
abbrev pub window_base : ℕ → ℕ → ℕ → ℕ
window_base base stride pid = (base + pid * stride) % 2 ^ 64

unfoldable pub app_set_heap_window : Processes → ℕ → ℕ → Processes
app_set_heap_window t index pid =
    let base = window_base user_heap_base user_heap_stride pid in
    let mmap_base = window_base user_mmap_base user_mmap_stride pid in
    let p = t index in
    if leb index process_count
    then update t index (record p {
      heap_base = base;
      heap_limit = (base + user_heap_stride) % 2 ^ 64;
      mmap_limit = (mmap_base + user_mmap_size) % 2 ^ 64;
      heap_next = if p.heap_base == 0 then base else p.heap_next;
      mmap_next = if p.heap_base == 0 then mmap_base else p.mmap_next;
    })
    else t

abbrev pub kernel_stack_base : ℕ
kernel_stack_base = 0xFFFF_B000_0000_0000

abbrev pub kernel_stack_stride : ℕ
kernel_stack_stride = 2 * 1024 * 1024

-- The address that `create_process_stack` returns where it maps the stack.
abbrev pub kernel_stack_top : ℕ → ℕ
kernel_stack_top pid =
    (window_base kernel_stack_base kernel_stack_stride pid + kernel_stack_stride) % 2 ^ 64

-- `build_initial_stack_frame` leaves the stack pointer 64 bytes below the top.
abbrev pub initial_rsp : ℕ → ℕ
initial_rsp stack_top = (stack_top + 2 ^ 64 - 64) % 2 ^ 64

abbrev pub prepared : Processes → ℕ → ℕ → ℕ → ℕ → Processes
prepared t index child_pml4 entry stack_top =
    process_set_state
      (update t index (record (t index) {
        pml4_phys = child_pml4;
        entry_point = entry;
        rsp = initial_rsp stack_top;
      }))
      index ready (pos 0)

-- The child's page table and entry point, if every stage of the preparation succeeds.
unfoldable pub preparation : Preparation → Option (ℕ × ℕ)
preparation r = elim r.parent_pml4 [
  | none ↦ none
  | some _ ↦ elim r.child_pml4 [
    | none ↦ none
    | some child_pml4 ↦ elim r.entry [
      | none ↦ none
      | some entry ↦ if r.stack_mapped then some (child_pml4, entry) else none
    ]
  ]
]

unfoldable pub prepare_process : Preparation → Processes → ℕ → Processes × Bool
prepare_process r t index =
    let pid = (t index).pid in
    elim (preparation r) [
      | none ↦ (process_set_state t index failed (negsuc 0), false)
      | some (child_pml4, entry) ↦ (
        prepared (app_set_heap_window t index pid) index child_pml4 entry (kernel_stack_top pid),
        true,
      )
    ]
